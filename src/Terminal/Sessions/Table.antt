-- ===== src/Terminal/Sessions/Table.antt =====
-- The table of the sessions: what stands in it, and what a start changes.
use noderax_agent.Prelude.{
  ◌≤◌, ◌≡◌, refl, sym, ◌∙◌, subst, inl, inr, Bool, ◌&&◌, Option, none, some, List, if◌then◌else◌,
  Bool-cases, ℤ, Text, is_empty, text_eq, text_eq-eq, trim_space, lookup, insert, delete,
  lookup-insert, lookup-delete, Outcome, ok, err,
}
use noderax_agent.Terminal.Size.{
  TerminalError, start_failed, Size, normalize_size, winsize, IsSize, normalize_size-IsSize,
}
use noderax_agent.Terminal.Sessions.{
  Session, Manager, Host, Started, start_shell, add_session, start_with_size, start_session,
  set_size, resize_session, kill_session, add_to, resize_to, resize_found, stop_found, end_found,
  stop_session, end_session, denied, started, resized, stopped, exited, Reachable, start, step,
  IsSession,
}

abbrev Table : Type 0
Table = List (Text × Session)

abbrev pub AllSessions : Table → Type 0
AllSessions t = (id : Text) (s : Session) → lookup id t ≡ some s → IsSession id s

some_eq : (a b : Session) → some a ≡ some b → a ≡ b
some_eq a b h = cc

insert-AllSessions :
    (k : Text) (v : Session) (t : Table)
    → IsSession k v
    → AllSessions t
    → AllSessions (insert k v t)
insert-AllSessions k v t ok_v h id s e = elim (Bool-cases (text_eq k id)) [
  | inl same ↦
      let found : some v ≡ some s = sym (lookup-insert k id v t ∙ rw same refl) ∙ e in
      subst (λ (j : Text). IsSession j s) (text_eq-eq k id same)
        (subst (IsSession k) (some_eq v s found) ok_v)
  | inr other ↦ h id s (sym (lookup-insert k id v t ∙ rw other refl) ∙ e)
]

delete-AllSessions : (k : Text) (t : Table) → AllSessions t → AllSessions (delete k t)
delete-AllSessions k t h id s e = elim (Bool-cases (text_eq k id)) [
  | inl same ↦ cc (rw same at (sym (lookup-delete k id t) ∙ e))
  | inr other ↦ h id s (sym (lookup-delete k id t ∙ rw other refl) ∙ e)
]

abbrev Result : Type 0
Result = Outcome TerminalError (Unit {0}) × Manager

-- A start either fails and leaves the table as it was, or adds a session for an ID that had none.
abbrev pub AddsOrKeeps : Text → Manager → Result → Type 0
AddsOrKeeps id m (err e, m') = m'.sessions ≡ m.sessions
AddsOrKeeps id m (ok _, m') =
    (lookup id m.sessions ≡ none)
    × (s : Session) × IsSession id s
    × (m'.sessions ≡ insert id s m.sessions)

add_session-AddsOrKeeps :
    (id : Text) (size : Size) (p : Started) (m : Manager)
    → 20 ≤ size.cols
    → 10 ≤ size.rows
    → AddsOrKeeps id m (add_session id size p m)
unfolding add_session
add_session-AddsOrKeeps id size p m c r = by_found (lookup id m.sessions) refl
  where
    by_found :
        (o : Option Session) → lookup id m.sessions ≡ o → AddsOrKeeps id m (add_to o id size p m)
    by_found (some other) taken = unfold add_to in refl
    by_found none free =
        unfold add_to in
        (free, _, record { id_eq = refl; cols_least = c; rows_least = r; pty_eq = refl }, refl)

start_with_size-AddsOrKeeps :
    (h : Host) (id : Text) (run_as_root : Bool) (size : Size) (m : Manager)
    → 20 ≤ size.cols
    → 10 ≤ size.rows
    → AddsOrKeeps id m (start_with_size h id run_as_root size m)
unfolding start_with_size
start_with_size-AddsOrKeeps h id run_as_root size m c r =
    let shells = if run_as_root then h.root_shells else h.shells in
    elim (Bool-cases (is_empty shells)) [
      | inl none_there ↦ simp none_there refl
      | inr some_there ↦ elim (Bool-cases (run_as_root && denied h.can_start_root_terminal)) [
        | inl no_root ↦ simp (some_there, no_root) refl
        | inr may ↦ simp (some_there, may) (by_shell (start_shell h size run_as_root shells))
      ]
    ]
  where
    by_shell :
        (o : Outcome (List Text) Started)
        → AddsOrKeeps id m
            (elim o [ err es ↦ (err (start_failed es), m) | ok p ↦ add_session id size p m ])
    by_shell (err es) = refl
    by_shell (ok p) = add_session-AddsOrKeeps id size p m c r

-- A start of a session, with any ID and size and on any host, either returns an error and leaves the
-- table of the sessions as it was, or adds one session for an ID that had none and leaves the others:
-- no session is ever replaced. The new session has at least 20 columns and 10 rows.
pub start_session-AddsOrKeeps :
    (h : Host) (id : Text) (cols rows : ℤ) (run_as_root : Bool) (m : Manager)
    → AddsOrKeeps id m (start_session h id cols rows run_as_root m)
unfolding start_session
start_session-AddsOrKeeps h id cols rows run_as_root m =
    elim (Bool-cases (is_empty (trim_space id))) [
      | inl blank ↦ simp blank refl
      | inr named ↦ simp named (by_size (normalize_size cols rows) refl)
    ]
  where
    by_size :
        (o : Outcome TerminalError Size)
        → normalize_size cols rows ≡ o
        → AddsOrKeeps id m
            (elim o [ err e ↦ (err e, m) | ok size ↦ start_with_size h id run_as_root size m ])
    by_size (err e) eq = refl
    by_size (ok size) eq =
        let s = normalize_size-IsSize cols rows size eq in
        start_with_size-AddsOrKeeps h id run_as_root size m s.cols_least s.rows_least

start-AllSessions :
    (id : Text) (m : Manager) (r : Result)
    → AddsOrKeeps id m r
    → AllSessions m.sessions
    → AllSessions r.1.sessions
start-AllSessions id m (err e, m') same all = rw same all
start-AllSessions id m (ok _, m') (free, s, good, same) all =
    rw same (insert-AllSessions id s m.sessions good all)

resize_session-AllSessions :
    (id : Text) (cols rows : ℤ) (set : Outcome Text (Unit {0})) (m : Manager)
    → AllSessions m.sessions
    → AllSessions (resize_session id cols rows set m).1.sessions
unfolding resize_session
resize_session-AllSessions id cols rows set m all = by_found (lookup id m.sessions) refl
  where
    by_set :
        (s : Session)
        → lookup id m.sessions ≡ some s
        → (size : Size) → IsSize cols rows size
        → (o : Outcome Text (Unit {0})) → AllSessions (set_size id s size o m).1.sessions
    by_set s there size good (err e) = unfold set_size in all
    by_set s there size good (ok _) =
        unfold set_size in
        insert-AllSessions id (record s { size = size; pty_size = winsize size }) m.sessions
          (record {
            id_eq = (all id s there).id_eq;
            cols_least = good.cols_least;
            rows_least = good.rows_least;
            pty_eq = refl;
          })
          all

    by_size :
        (s : Session)
        → lookup id m.sessions ≡ some s
        → (o : Outcome TerminalError Size) → normalize_size cols rows ≡ o
        → AllSessions (resize_to id s o set m).1.sessions
    by_size s there (err e) eq = unfold resize_to in all
    by_size s there (ok size) eq =
        unfold resize_to in by_set s there size (normalize_size-IsSize cols rows size eq) set

    by_found :
        (o : Option Session)
        → lookup id m.sessions ≡ o
        → AllSessions (resize_found o id cols rows set m).1.sessions
    by_found none missing = unfold resize_found in all
    by_found (some s) there = unfold resize_found in by_size s there (normalize_size cols rows) refl

stop_session-AllSessions :
    (id reason : Text) (kill : Outcome Text (Unit {0})) (m : Manager)
    → AllSessions m.sessions
    → AllSessions (stop_session id reason kill m).1.sessions
unfolding stop_session
stop_session-AllSessions id reason kill m all = by_found (lookup id m.sessions) refl
  where
    kept :
        (s : Session)
        → lookup id m.sessions ≡ some s
        → AllSessions (insert id (record s { stop_reason = trim_space reason }) m.sessions)
    kept s there =
        let good = all id s there in
        insert-AllSessions id (record s { stop_reason = trim_space reason }) m.sessions
          (record {
            id_eq = good.id_eq;
            cols_least = good.cols_least;
            rows_least = good.rows_least;
            pty_eq = good.pty_eq;
          })
          all

    by_kill :
        (s : Session)
        → AllSessions (insert id s m.sessions)
        → (k : Outcome Text (Unit {0})) → AllSessions (kill_session id s k m).1.sessions
    by_kill s h (err e) = unfold kill_session in h
    by_kill s h (ok _) = unfold kill_session in h

    by_found :
        (o : Option Session)
        → lookup id m.sessions ≡ o
        → AllSessions (stop_found o id reason kill m).1.sessions
    by_found none missing = unfold stop_found in all
    by_found (some s) there =
        unfold stop_found in
        by_kill (record s { stop_reason = trim_space reason }) (kept s there) kill

end_session-AllSessions :
    (id : Text) (code : ℤ) (e : Option Text) (m : Manager)
    → AllSessions m.sessions
    → AllSessions (end_session id code e m).sessions
unfolding end_session
end_session-AllSessions id code e m all = by_found (lookup id m.sessions)
  where
    by_found : (o : Option Session) → AllSessions (end_found o id code e m).sessions
    by_found none = unfold end_found in all
    by_found (some s) = unfold end_found in delete-AllSessions id m.sessions all

-- In every state that the terminal manager reaches by starts, resizes, stops and exits in any order
-- and with any outcome of their system calls, each session stands in the table under its own ID,
-- has at least 20 columns and 10 rows, and its PTY has that size modulo 65536.
pub Reachable-AllSessions : (m : Manager) → Reachable m → AllSessions m.sessions
Reachable-AllSessions m start = λ id s e. unfold lookup in cc e
Reachable-AllSessions m (step {m = m₀} r (started h id cols rows root)) =
    start-AllSessions id m₀ _ (start_session-AddsOrKeeps h id cols rows root m₀)
      (Reachable-AllSessions m₀ r)
Reachable-AllSessions m (step {m = m₀} r (resized id cols rows set)) =
    resize_session-AllSessions id cols rows set m₀ (Reachable-AllSessions m₀ r)
Reachable-AllSessions m (step {m = m₀} r (stopped id reason kill)) =
    stop_session-AllSessions id reason kill m₀ (Reachable-AllSessions m₀ r)
Reachable-AllSessions m (step {m = m₀} r (exited id code e)) =
    end_session-AllSessions id code e m₀ (Reachable-AllSessions m₀ r)
