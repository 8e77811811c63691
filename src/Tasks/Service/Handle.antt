-- ===== src/Tasks/Service/Handle.antt =====
-- `handleTask`, `watchTaskControl` and `taskStatus`: what is reported of a task. The waits and the messages of the log are left out.
pub mod Report
use noderax_agent.Prelude.{
  ℕ, suc, Bool, not, ◌&&◌, Option, none, some, List, [], ◌∷◌, ◌++◌, if◌then◌else◌, ℤ, negsuc, Text,
  codes, is_empty, trim_space, Outcome, ok, err, ◌>>=◌, ◌>>◌,
}
use noderax_agent.Tasks.Events.Retry.{CallError}

-- The error of an execution, as far as `taskStatus` tells them apart.
pub data ExecError : Type 0 where
  cancelled_by_control deadline_exceeded context_cancelled : ExecError
  execution : Text → ExecError

abbrev pub error_text : ExecError → Text
error_text cancelled_by_control = codes "task cancelled by control endpoint"
error_text deadline_exceeded = codes "context deadline exceeded"
error_text context_cancelled = codes "context canceled"
error_text (execution e) = e

unfoldable pub task_status : Option ExecError → Text
task_status none = codes "success"
task_status (some cancelled_by_control) = codes "cancelled"
task_status (some deadline_exceeded) = codes "timeout"
task_status (some context_cancelled) = codes "canceled"
task_status (some (execution e)) = codes "failed"

-- What `Execute` returns. The parsed result is opaque here.
pub record Execution : Type 0 where
  pub exit_code : ℤ
  pub duration_ms : ℕ
  pub output : Text
  pub result : Option Text
  pub error : Option ExecError

pub record ControlResponse : Type 0 where
  pub cancel_requested : Bool
  pub cancel_reason : Text

-- `watchTaskControl`: the checks up to the end of the task, and the trimmed reason of the first that
-- asks for a cancellation. A check that fails is passed over.
unfoldable pub watch_task_control : List (Outcome CallError ControlResponse) → Option Text
watch_task_control [] = none
watch_task_control (err e ∷ checks) = watch_task_control checks
watch_task_control (ok c ∷ checks) =
    let rest = watch_task_control checks in
    if c.cancel_requested then some (trim_space c.cancel_reason) else rest

pub record Completion : Type 0 where
  pub status : Text
  pub exit_code : ℤ
  pub error : Text
  pub duration_ms : ℕ
  pub result : Option Text
  pub output : Text

-- The calls of the realtime events, in order. Their errors are logged.
pub data Event : Type 0 where
  accepted started : Event
  completed : Completion → Event

-- What the handler sees: whether there are realtime events and a control client, the credentials,
-- the execution and the checks of the control endpoint while it runs.
pub record Handling : Type 0 where
  pub has_realtime : Bool
  pub node_id : Text
  pub agent_token : Text
  pub has_control : Bool
  pub checks : List (Outcome CallError ControlResponse)
  pub execution : Execution

-- `cancelledByControl && (execErr == nil || errors.Is(execErr, context.Canceled))`.
unfoldable pub final_error : Option Text → Option ExecError → Option ExecError
final_error none e = e
final_error (some reason) none = some cancelled_by_control
final_error (some reason) (some context_cancelled) = some cancelled_by_control
final_error (some reason) (some cancelled_by_control) = some cancelled_by_control
final_error (some reason) (some deadline_exceeded) = some deadline_exceeded
final_error (some reason) (some (execution e)) = some (execution e)

abbrev pub reason_of : Option Text → Text
reason_of none = []
reason_of (some reason) = reason

abbrev cancelled_output : Text → Text
cancelled_output reason =
    if is_empty reason
    then codes "task cancelled by control request"
    else codes "task cancelled by control request: " ++ reason

-- The report of an execution with its final error.
unfoldable pub completion_of : Text → Option ExecError → Execution → Completion
completion_of reason e x =
    let plain : Completion = record {
      status = task_status e;
      exit_code = x.exit_code;
      error = elim e [ none ↦ [] | some e' ↦ error_text e' ];
      duration_ms = x.duration_ms;
      result = x.result;
      output = x.output;
    } in
    elim e [
      | some cancelled_by_control ↦ record plain {
        error = if is_empty reason then plain.error else reason;
        output = if is_empty (trim_space x.output) then cancelled_output reason else x.output;
      }
      | _ ↦ plain
    ]

unfoldable pub completion : Option Text → Execution → Completion
unfolding final_error completion_of
completion cancelled x = completion_of (reason_of cancelled) (final_error cancelled x.error) x

-- The report of a task that was not executed.
abbrev pub no_identity : Completion
no_identity = record {
  status = codes "failed";
  exit_code = negsuc 0;
  error = codes "cannot execute task because agent identity is missing";
  duration_ms = 0;
  result = none;
  output = [];
}

abbrev pub has_identity : Handling → Bool
has_identity h = not (is_empty h.node_id) && not (is_empty h.agent_token)

abbrev pub cancellation : Handling → Option Text
cancellation h = if h.has_control then watch_task_control h.checks else none

unfoldable pub handle_task : Handling → List Event
unfolding watch_task_control completion
handle_task h =
    if not h.has_realtime
    then []
    else if not (has_identity h)
    then accepted ∷ completed no_identity ∷ []
    else accepted ∷ started ∷ completed (completion (cancellation h) h.execution) ∷ []
