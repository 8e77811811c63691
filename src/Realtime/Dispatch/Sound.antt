-- ===== src/Realtime/Dispatch/Sound.antt =====
-- What the messages of the backend leave of the tasks and the terminals.
use noderax_agent.Prelude.{
  ℕ, inl, inr, Bool-cases, Option, none, some, List, [], ◌∷◌, Text, lookup, Outcome, ok, err,
}
use noderax_agent.Config.Types.{is_blank}
use noderax_agent.Terminal.Size.{TerminalError}
use noderax_agent.Terminal.Sessions as Sessions
use noderax_agent.Terminal.Sessions.Table.{AllSessions, Reachable-AllSessions}
use noderax_agent.Tasks.Service.Running as Running
use noderax_agent.Realtime.Dispatch.{
  Command, start_terminal, write_terminal, resize_terminal, stop_terminal, session_of, Message,
  undecodable, task_dispatch, terminal, other, Controls, Handled, write_found, write_input,
  terminals_done, run_command, handle_message, reporting, on_terminal_event, received,
  terminal_event, claimed, handled, exited, Reachable, start, step,
}

-- The tasks and the terminals are in states that their own steps reach.
record IsSound (c : Controls) : Type 0 where
  tasks_reachable : Running.Reachable c.tasks
  terminals_reachable : Sessions.Reachable c.terminals

terminals_done-IsSound :
    (c : Controls) (r : Outcome TerminalError (Unit {0}) × Sessions.Manager)
    → Running.Reachable c.tasks
    → Sessions.Reachable r.1
    → IsSound (terminals_done c r).1
terminals_done-IsSound c (ok _, m) t s = record { tasks_reachable = t; terminals_reachable = s }
terminals_done-IsSound c (err e, m) t s = record { tasks_reachable = t; terminals_reachable = s }

write_found-IsSound :
    (o : Option Sessions.Session) (id : Text) (decoded : Outcome Text (List ℕ))
    (write : Outcome Text (Unit {0})) (c : Controls)
    → IsSound c
    → IsSound (write_found o id decoded write c).1
write_found-IsSound none id decoded write c v = v
write_found-IsSound (some s) id (err e) write c v = v
write_found-IsSound (some s) id (ok []) write c v = v
write_found-IsSound (some s) id (ok (b ∷ bytes)) (err e) c v = v
write_found-IsSound (some s) id (ok (b ∷ bytes)) (ok _) c v = record {
  tasks_reachable = v.tasks_reachable;
  terminals_reachable = v.terminals_reachable;
}

run_command-IsSound : (k : Command) (c : Controls) → IsSound c → IsSound (run_command k c).1
unfolding run_command write_input
run_command-IsSound (start_terminal id cols rows root h) c v =
    terminals_done-IsSound c (Sessions.start_session h id cols rows root c.terminals)
      v.tasks_reachable (Sessions.step v.terminals_reachable (Sessions.started h id cols rows root))
run_command-IsSound (write_terminal id decoded write) c v =
    write_found-IsSound (lookup id c.terminals.sessions) id decoded write c v
run_command-IsSound (resize_terminal id cols rows set) c v =
    terminals_done-IsSound c (Sessions.resize_session id cols rows set c.terminals)
      v.tasks_reachable (Sessions.step v.terminals_reachable (Sessions.resized id cols rows set))
run_command-IsSound (stop_terminal id reason kill) c v =
    terminals_done-IsSound c (Sessions.stop_session id reason kill c.terminals) v.tasks_reachable
      (Sessions.step v.terminals_reachable (Sessions.stopped id reason kill))

dispatched-IsSound :
    (id : Text) (c : Controls)
    → IsSound c
    → IsSound (record c { tasks = (Running.dispatch_task id c.tasks).1 })
dispatched-IsSound id c v = record {
  tasks_reachable = Running.step v.tasks_reachable (Running.dispatched id);
  terminals_reachable = v.terminals_reachable;
}

handle_message-IsSound : (m : Message) (c : Controls) → IsSound c → IsSound (handle_message m c).1
unfolding handle_message
handle_message-IsSound (undecodable e) c v = v
handle_message-IsSound (task_dispatch none) c v = v
handle_message-IsSound (task_dispatch (some id)) c v = dispatched-IsSound id c v
handle_message-IsSound (terminal (err e)) c v = v
handle_message-IsSound (terminal (ok k)) c v = run_command-IsSound k c v
handle_message-IsSound other c v = v

reporting-IsSound : (id : Text) (r : Handled) → IsSound r.1 → IsSound (reporting id r)
reporting-IsSound id (ok _, c) v = v
reporting-IsSound id (err e, c) v = elim (Bool-cases (is_blank id)) [
  | inl blank ↦ rw blank v
  | inr given ↦
      rw given (record {
        tasks_reachable = v.tasks_reachable;
        terminals_reachable = v.terminals_reachable;
      })
]

Reachable-IsSound : (c : Controls) → Reachable c → IsSound c
unfolding on_terminal_event
Reachable-IsSound c start = record {
  tasks_reachable = Running.start;
  terminals_reachable = Sessions.start;
}
Reachable-IsSound c (step {c = c₀} r (received m)) =
    handle_message-IsSound m c₀ (Reachable-IsSound c₀ r)
Reachable-IsSound c (step {c = c₀} r (terminal_event k)) =
    reporting-IsSound (session_of k) (handle_message (terminal (ok k)) c₀)
      (handle_message-IsSound (terminal (ok k)) c₀ (Reachable-IsSound c₀ r))
Reachable-IsSound c (step {c = c₀} r (claimed id)) =
    dispatched-IsSound id c₀ (Reachable-IsSound c₀ r)
Reachable-IsSound c (step {c = c₀} r (handled id h)) =
    let v = Reachable-IsSound c₀ r in
    record {
      tasks_reachable = Running.step v.tasks_reachable (Running.ended id h);
      terminals_reachable = v.terminals_reachable;
    }
Reachable-IsSound c (step {c = c₀} r (exited id code e)) =
    let v = Reachable-IsSound c₀ r in
    record {
      tasks_reachable = v.tasks_reachable;
      terminals_reachable = Sessions.step v.terminals_reachable (Sessions.exited id code e);
    }

-- Each task has one handler if it is marked as running, and none if it is not; and each terminal stands
-- in the table under its own ID, with a size that the manager accepts.
pub record IsConsistent (c : Controls) : Type 0 where
  pub one_each : Running.OneEach c.tasks
  pub all_sessions : AllSessions c.terminals.sessions

-- Whatever messages the backend sends, decodable or not, and however they follow claims of the poll, ends
-- of handlers and exits of shells, each task has one handler if it is marked as running and none if it is
-- not, and each terminal stands in the table under its own ID, with at least 20 columns and 10 rows.
Reachable-IsConsistent : (c : Controls) → Reachable c → IsConsistent c
Reachable-IsConsistent c r =
    let v = Reachable-IsSound c r in
    record {
      one_each = Running.Reachable-OneEach c.tasks v.tasks_reachable;
      all_sessions = Reachable-AllSessions c.terminals v.terminals_reachable;
    }
