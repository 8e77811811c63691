-- ===== src/Tasks/Service/Tests.antt =====
-- The task service at concrete inputs.
use noderax_agent.Prelude.{
  map, ◌≡◌, ◌*◌, refl, true, false, none, some, List, [], ◌∷◌, pos, codes, ok, err,
}
use noderax_agent.Tasks.Service.Running.{
  State, dispatch_task, Reachable, OneEach, initial, start, step, dispatched, Reachable-OneEach,
}
use noderax_agent.Tasks.Service.Poll.{
  second, ClaimResponse, Attempt, Round, claimed, failed, poll_round, poll_tasks,
}
use noderax_agent.Tasks.Service.Poll.Rounds.{DoAllDue, answers, poll_tasks-DoAllDue}
use noderax_agent.Tasks.Service.Handle.{Handling, handle_task}
use noderax_agent.Tasks.Service.Handle.Report.{EndsInReport, handle_task-EndsInReport}
use noderax_agent.Tasks.Service.Sink.{
  Action, line, round, Delivers, lines_of, run, empty_sink, run-Delivers,
}
use noderax_agent.Tasks.Events.Retry.{
  CallError, request, network, is_auth_error, is_state_conflict, is_network_error, as_request_error,
}

-- A task that is dispatched twice, and a second one that ends.
abbrev twice : State
twice =
    (dispatch_task (codes "a")
      (dispatch_task (codes "b") (dispatch_task (codes "a") initial).1).1).1

twice-Reachable : Reachable twice
twice-Reachable =
    step (step (step start (dispatched (codes "a"))) (dispatched (codes "b")))
      (dispatched (codes "a"))

Reachable-OneEach_example : OneEach twice
Reachable-OneEach_example = Reachable-OneEach twice twice-Reachable

abbrev response : ClaimResponse
response = record {
  task =
      some (record {
        id = codes "t";
        kind = codes "shell.exec";
        payload = [];
        timeout_seconds = pos 0;
      });
  root_access = none;
}

abbrev nothing : ClaimResponse
nothing = record { task = none; root_access = none }

abbrev unauthorized : CallError
unauthorized = request (record { status_code = 401; message = []; body = [] })

-- A claim that is refused once, one that cannot reach the backend, an answer without a task, and a
-- claim whose pause the context cuts short.
abbrev attempts : List Attempt
attempts =
    record { done = false; first = err unauthorized; again = ok response; slept = true }
    ∷ record { done = false; first = err (network []); again = ok response; slept = true }
    ∷ record { done = false; first = ok nothing; again = ok response; slept = true }
    ∷ record { done = false; first = err (network []); again = ok response; slept = false }
    ∷ record { done = false; first = ok response; again = ok response; slept = true }
    ∷ []

poll_tasks-DoAllDue_example :
    DoAllDue (15 * second) (answers 0 attempts) (poll_tasks (15 * second) true second attempts)
poll_tasks-DoAllDue_example = poll_tasks-DoAllDue (15 * second) true attempts

dispatched_test :
    map (λ (r : Round). r.dispatched) (poll_tasks (15 * second) true second attempts)
    ≡ response.task ∷ none ∷ none ∷ none ∷ []
unfolding poll_tasks poll_round claimed failed is_auth_error is_state_conflict is_network_error
    as_request_error
dispatched_test = refl

-- A task whose second check asks for a cancellation.
abbrev handling : Handling
handling = record {
  has_realtime = true;
  node_id = codes "n";
  agent_token = codes "k";
  has_control = true;
  checks =
      ok (record { cancel_requested = false; cancel_reason = [] })
      ∷ err (network [])
      ∷ ok (record { cancel_requested = true; cancel_reason = codes " stop " })
      ∷ [];
  execution = record {
    exit_code = pos 0;
    duration_ms = 7;
    output = [];
    result = none;
    error = none;
  };
}

handle_task-EndsInReport_example : EndsInReport handling (handle_task handling)
handle_task-EndsInReport_example = handle_task-EndsInReport handling refl

abbrev actions : List Action
actions =
    line (record { stream = codes "stdout"; line = codes "a" })
    ∷ round false false false
    ∷ line (record { stream = codes "stdout"; line = codes "b" })
    ∷ []

run-Delivers_example : Delivers (lines_of actions) (run actions empty_sink)
run-Delivers_example = run-Delivers actions
