-- ===== src/Terminal/Sessions.antt =====
-- `Manager` of internal/terminal/manager.go, with `startTerminalCommand` of manager_unix.go.
pub mod Table
use noderax_agent.Prelude.{
  ℕ, ◌≤◌, ◌≡◌, Bool, true, false, not, ◌&&◌, Option, none, some, List, [], ◌∷◌, ◌++◌, if◌then◌else◌,
  ℤ, Text, codes, is_empty, trim_space, lookup, insert, delete, Outcome, ok, err, ◌>>=◌, ◌>>◌,
}
use noderax_agent.Terminal.Size.{
  TerminalError, session_exists, session_not_found, session_id_required, no_shell, root_not_allowed,
  start_failed, resize_failed, stop_failed, Size, normalize_size, winsize,
}

pub data StartMode : Type 0 where
  controlling_tty no_controlling_tty minimal : StartMode

abbrev kills_group : StartMode → Bool
kills_group controlling_tty = true
kills_group no_controlling_tty = true
kills_group minimal = false

-- A shell with its terminal. `pty_size` is the size that was last set on the PTY.
pub record Session : Type 0 where
  pub id : Text
  pub pid : ℕ
  pub kill_process_group : Bool
  pub size : Size
  pub pty_size : Size
  pub stop_reason : Text

pub record ExitEvent : Type 0 where
  pub session_id : Text
  pub exit_code : ℤ
  pub reason : Text

-- The manager with the processes that it killed, each with whether its group was, and the events of
-- sessions that exited.
pub record Manager : Type 0 where
  pub sessions : List (Text × Session)
  pub killed : List (ℕ × Bool)
  pub exits : List ExitEvent

-- What a call sees of the host: the shells to try, whether a root terminal is allowed, where there is
-- a checker, and how a shell starts, with the size of its PTY.
pub record Host : Type 0 where
  pub shells : List Text
  pub root_shells : List Text
  pub can_start_root_terminal : Option Bool
  pub start : Text → Bool → Size → StartMode → Outcome Text ℕ

pub record Started : Type 0 where
  pub pid : ℕ
  pub kill_process_group : Bool

abbrev attempt_rest :
    StartMode → Outcome Text ℕ → Outcome (List Text) Started → Outcome (List Text) Started
attempt_rest mode (ok pid) rest = ok (record { pid = pid; kill_process_group = kills_group mode })
attempt_rest mode (err e) (ok s) = ok s
attempt_rest mode (err e) (err es) = err (e ∷ es)

-- The attempts in order: the first that succeeds, or the errors of all.
unfoldable pub attempts :
    (StartMode → Outcome Text ℕ) → List StartMode → Outcome (List Text) Started
attempts start [] = err []
attempts start (mode ∷ modes) = attempt_rest mode (start mode) (attempts start modes)

unfoldable pub start_terminal_command : Host → Text → Size → Bool → Outcome (List Text) Started
unfolding attempts
start_terminal_command h shell size run_as_root =
    attempts (h.start shell run_as_root (winsize size))
      (controlling_tty ∷ no_controlling_tty ∷ minimal ∷ [])

abbrev shell_rest :
    Outcome (List Text) Started → Outcome (List Text) Started → Outcome (List Text) Started
shell_rest (ok s) rest = ok s
shell_rest (err es) (ok s) = ok s
shell_rest (err es) (err es') = err (es ++ es')

-- The shells in order.
unfoldable pub start_shell : Host → Size → Bool → List Text → Outcome (List Text) Started
unfolding start_terminal_command
start_shell h size run_as_root [] = err []
start_shell h size run_as_root (shell ∷ shells) =
    shell_rest (start_terminal_command h shell size run_as_root)
      (start_shell h size run_as_root shells)

abbrev Done : Type 0
Done = Outcome TerminalError (Unit {0}) × Manager

abbrev pub denied : Option Bool → Bool
denied none = false
denied (some allowed) = not allowed

-- A shell that was started for an ID that is taken is killed again.
unfoldable pub add_to : Option Session → Text → Size → Started → Manager → Done
add_to (some other) id size s m =
    (err session_exists, record m { killed = m.killed ++ (s.pid, false) ∷ [] })
add_to none id size s m = (
  ok tt,
  record m {
    sessions =
        insert id
          (record {
            id = id;
            pid = s.pid;
            kill_process_group = s.kill_process_group;
            size = size;
            pty_size = winsize size;
            stop_reason = [];
          })
          m.sessions;
  },
)

unfoldable pub add_session : Text → Size → Started → Manager → Done
unfolding add_to
add_session id size s m = add_to (lookup id m.sessions) id size s m

unfoldable pub start_with_size : Host → Text → Bool → Size → Manager → Done
unfolding start_shell add_session
start_with_size h id run_as_root size m =
    let shells = if run_as_root then h.root_shells else h.shells in
    if is_empty shells
    then (err no_shell, m)
    else if run_as_root && denied h.can_start_root_terminal
    then (err root_not_allowed, m)
    else elim (start_shell h size run_as_root shells) [
      | err es ↦ (err (start_failed es), m)
      | ok s ↦ add_session id size s m
    ]

unfoldable pub start_session : Host → Text → ℤ → ℤ → Bool → Manager → Done
unfolding start_with_size
start_session h id cols rows run_as_root m =
    if is_empty (trim_space id)
    then (err session_id_required, m)
    else elim (normalize_size cols rows) [
      | err e ↦ (err e, m)
      | ok size ↦ start_with_size h id run_as_root size m
    ]

-- The result of `pty.Setsize`.
unfoldable pub set_size : Text → Session → Size → Outcome Text (Unit {0}) → Manager → Done
set_size id s size (err e) m = (err (resize_failed e), m)
set_size id s size (ok _) m = (
  ok tt,
  record m { sessions = insert id (record s { size = size; pty_size = winsize size }) m.sessions },
)

resize_to : Text → Session → Outcome TerminalError Size → Outcome Text (Unit {0}) → Manager → Done
unfolding set_size
resize_to id s (err e) set m = (err e, m)
resize_to id s (ok size) set m = set_size id s size set m

resize_found : Option Session → Text → ℤ → ℤ → Outcome Text (Unit {0}) → Manager → Done
unfolding resize_to
resize_found none id cols rows set m = (err session_not_found, m)
resize_found (some s) id cols rows set m = resize_to id s (normalize_size cols rows) set m

unfoldable pub resize_session : Text → ℤ → ℤ → Outcome Text (Unit {0}) → Manager → Done
unfolding resize_found
resize_session id cols rows set m = resize_found (lookup id m.sessions) id cols rows set m

-- The result of the kill. The reason is kept also where the process cannot be killed.
unfoldable pub kill_session : Text → Session → Outcome Text (Unit {0}) → Manager → Done
kill_session id s (err e) m = (err (stop_failed e), record m { sessions = insert id s m.sessions })
kill_session id s (ok _) m = (
  ok tt,
  record m {
    sessions = insert id s m.sessions;
    killed = m.killed ++ (s.pid, s.kill_process_group) ∷ [];
  },
)

stop_found : Option Session → Text → Text → Outcome Text (Unit {0}) → Manager → Done
unfolding kill_session
stop_found none id reason kill m = (err session_not_found, m)
stop_found (some s) id reason kill m =
    kill_session id (record s { stop_reason = trim_space reason }) kill m

unfoldable pub stop_session : Text → Text → Outcome Text (Unit {0}) → Manager → Done
unfolding stop_found
stop_session id reason kill m = stop_found (lookup id m.sessions) id reason kill m

abbrev exit_reason : Text → Option Text → Text
exit_reason stop_reason wait_error =
    if is_empty (trim_space stop_reason)
    then elim wait_error [ none ↦ codes "terminal session exited" | some e ↦ e ]
    else trim_space stop_reason

end_found : Option Session → Text → ℤ → Option Text → Manager → Manager
end_found none id exit_code wait_error m = m
end_found (some s) id exit_code wait_error m = record m {
  sessions = delete id m.sessions;
  exits =
      m.exits
      ++ record {
        session_id = id;
        exit_code = exit_code;
        reason = exit_reason s.stop_reason wait_error;
      }
        ∷ [];
}

-- `runSession` behind `Wait`, for the process of a session.
unfoldable pub end_session : Text → ℤ → Option Text → Manager → Manager
unfolding end_found
end_session id exit_code wait_error m = end_found (lookup id m.sessions) id exit_code wait_error m

pub data Step : Manager → Manager → Type 0 where
  started :
      {m : Manager} (h : Host) (id : Text) (cols rows : ℤ) (run_as_root : Bool)
      → Step m (start_session h id cols rows run_as_root m).1
  resized :
      {m : Manager} (id : Text) (cols rows : ℤ) (set : Outcome Text (Unit {0}))
      → Step m (resize_session id cols rows set m).1
  stopped :
      {m : Manager} (id reason : Text) (kill : Outcome Text (Unit {0}))
      → Step m (stop_session id reason kill m).1
  exited :
      {m : Manager} (id : Text) (exit_code : ℤ) (wait_error : Option Text)
      → Step m (end_session id exit_code wait_error m)

abbrev pub no_sessions : Manager
no_sessions = record { sessions = []; killed = []; exits = [] }

pub data Reachable : Manager → Type 0 where
  start : Reachable no_sessions
  step : {m m' : Manager} → Reachable m → Step m m' → Reachable m'

-- A session of the table stands under its ID, has a size that the manager accepts, and its PTY has
-- that size as far as it fits in 16 bits.
pub record IsSession (id : Text) (s : Session) : Type 0 where
  pub id_eq : s.id ≡ id
  pub cols_least : 20 ≤ s.size.cols
  pub rows_least : 10 ≤ s.size.rows
  pub pty_eq : s.pty_size ≡ winsize s.size
