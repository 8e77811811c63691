-- ===== src/Realtime/Dispatch.antt =====
-- `handleMessage` of internal/realtime/handlers.go, with the handler of commands that internal/agent sets:
-- what the messages of the backend do to the tasks and the terminals.
pub mod Sound
use noderax_agent.Prelude.{
  ℕ, ◌<◌, Bool, Option, none, some, List, [], ◌∷◌, ◌++◌, if◌then◌else◌, ℤ, Text, lookup, Outcome,
  ok, err,
}
use noderax_agent.Config.Types.{is_blank}
use noderax_agent.Terminal.Size.{TerminalError, session_not_found, undecodable_input, write_failed}
use noderax_agent.Terminal.Sessions as Sessions
use noderax_agent.Tasks.Service.Running as Running

pub data DispatchError : Type 0 where
  undecodable_message undecodable_payload : Text → DispatchError
  task_missing : DispatchError
  terminal_failed : TerminalError → DispatchError

-- A terminal event with the answers of the host: how shells start; the bytes that the input decodes to,
-- and how their write ends; and how the PTY is resized, or the shell killed.
pub data Command : Type 0 where
  start_terminal : Text → ℤ → ℤ → Bool → Sessions.Host → Command
  write_terminal : Text → Outcome Text (List ℕ) → Outcome Text (Unit {0}) → Command
  resize_terminal : Text → ℤ → ℤ → Outcome Text (Unit {0}) → Command
  stop_terminal : Text → Text → Outcome Text (Unit {0}) → Command

unfoldable pub session_of : Command → Text
session_of (start_terminal id cols rows run_as_root h) = id
session_of (write_terminal id decoded write) = id
session_of (resize_terminal id cols rows set) = id
session_of (stop_terminal id reason kill) = id

-- What the JSON of a message decodes to, by its type: a task by its ID, or a terminal event.
pub data Message : Type 0 where
  undecodable : Text → Message
  task_dispatch : Option Text → Message
  terminal : Outcome Text Command → Message
  other : Message

-- What the messages change: the handlers of tasks, the terminals with the bytes written to each, and the
-- errors that are reported for a session.
pub record Controls : Type 0 where
  pub tasks : Running.State
  pub terminals : Sessions.Manager
  pub written : List (Text × List ℕ)
  pub errors : List (Text × DispatchError)

abbrev pub no_controls : Controls
no_controls = record {
  tasks = Running.initial;
  terminals = Sessions.no_sessions;
  written = [];
  errors = [];
}

abbrev pub Handled : Type 0
Handled = Outcome DispatchError (Unit {0}) × Controls

-- `WriteInput`, for a session that is there.
abbrev write_bytes : Text → List ℕ → Outcome Text (Unit {0}) → Controls → Handled
write_bytes id [] write c = (ok tt, c)
write_bytes id (b ∷ bytes) (err e) c = (err (terminal_failed (write_failed e)), c)
write_bytes id (b ∷ bytes) (ok _) c =
    (ok tt, record c { written = c.written ++ (id, b ∷ bytes) ∷ [] })

abbrev write_decoded : Text → Outcome Text (List ℕ) → Outcome Text (Unit {0}) → Controls → Handled
write_decoded id (err e) write c = (err (terminal_failed (undecodable_input e)), c)
write_decoded id (ok bytes) write c = write_bytes id bytes write c

abbrev pub write_found :
    Option Sessions.Session
    → Text
    → Outcome Text (List ℕ)
    → Outcome Text (Unit {0})
    → Controls
    → Handled
write_found none id decoded write c = (err (terminal_failed session_not_found), c)
write_found (some s) id decoded write c = write_decoded id decoded write c

unfoldable pub write_input :
    Text → Outcome Text (List ℕ) → Outcome Text (Unit {0}) → Controls → Handled
write_input id decoded write c = write_found (lookup id c.terminals.sessions) id decoded write c

abbrev pub terminals_done : Controls → Outcome TerminalError (Unit {0}) × Sessions.Manager → Handled
terminals_done c (ok _, m) = (ok tt, record c { terminals = m })
terminals_done c (err e, m) = (err (terminal_failed e), record c { terminals = m })

-- The handler of commands. `NewService` always sets its terminal manager.
unfoldable pub run_command : Command → Controls → Handled
unfolding write_input
run_command (start_terminal id cols rows run_as_root h) c =
    terminals_done c (Sessions.start_session h id cols rows run_as_root c.terminals)
run_command (write_terminal id decoded write) c = write_input id decoded write c
run_command (resize_terminal id cols rows set) c =
    terminals_done c (Sessions.resize_session id cols rows set c.terminals)
run_command (stop_terminal id reason kill) c =
    terminals_done c (Sessions.stop_session id reason kill c.terminals)

unfoldable pub handle_message : Message → Controls → Handled
unfolding run_command
handle_message (undecodable e) c = (err (undecodable_message e), c)
handle_message (task_dispatch none) c = (err task_missing, c)
handle_message (task_dispatch (some id)) c =
    (ok tt, record c { tasks = (Running.dispatch_task id c.tasks).1 })
handle_message (terminal (err e)) c = (err (undecodable_payload e), c)
handle_message (terminal (ok command)) c = run_command command c
handle_message other c = (ok tt, c)

-- `dispatchTerminalEvent`: an error is reported for the session, if the event has one.
abbrev pub reporting : Text → Handled → Controls
reporting id (ok _, c) = c
reporting id (err e, c) = if is_blank id then c else record c { errors = c.errors ++ (id, e) ∷ [] }

unfoldable pub on_terminal_event : Command → Controls → Controls
unfolding handle_message session_of
on_terminal_event command c =
    reporting (session_of command) (handle_message (terminal (ok command)) c)

-- What happens to the tasks and terminals: a message or a terminal event of the session, a claim of the
-- poll, the end of a handler, and the exit of a shell.
pub data Step : Controls → Controls → Type 0 where
  received : {c : Controls} (m : Message) → Step c (handle_message m c).1
  terminal_event : {c : Controls} (command : Command) → Step c (on_terminal_event command c)
  claimed :
      {c : Controls} (id : Text)
      → Step c (record c { tasks = (Running.dispatch_task id c.tasks).1 })
  handled :
      {c : Controls} (id : Text)
      → 0 < Running.count id c.tasks.handlers
      → Step c (record c { tasks = Running.end_handler id c.tasks })
  exited :
      {c : Controls} (id : Text) (exit_code : ℤ) (wait_error : Option Text)
      → Step c (record c { terminals = Sessions.end_session id exit_code wait_error c.terminals })

pub data Reachable : Controls → Type 0 where
  start : Reachable no_controls
  step : {c c' : Controls} → Reachable c → Step c c' → Reachable c'
