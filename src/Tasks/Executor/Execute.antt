-- ===== src/Tasks/Executor/Execute.antt =====
-- `Execute`: the run of a command and the capture of its output. The lines that go to the log of the
-- task are left out.
pub mod Capture
use noderax_agent.Prelude.{
  ℕ, suc, ap, Bool, not, Option, none, some, List, [], ◌∷◌, ◌++◌, ltb, if◌then◌else◌, length, ℤ,
  pos, negsuc, Text, codes, Outcome, ok, err,
}
use noderax_agent.Logscan.Lines.{Bytes}
use noderax_agent.Tasks.Executor.Types.{Host, Task, TaskError, CommandSpec, ParseResult}
use noderax_agent.Tasks.Executor.Build.{Files}
use noderax_agent.Tasks.Executor.Commands.{command_for_task}

abbrev pub output_limit : ℕ
output_limit = 2097152

-- A line that reaches `captureLog`, and whether it does under the name of stderr. The line that a
-- scanner adds on an error of its stream is one too, and has another name.
pub record OutputLine : Type 0 where
  pub is_stderr : Bool
  pub text : Bytes

abbrev pub stderr_mark : Bytes
stderr_mark = codes "[stderr] "

unfoldable pub rendered : OutputLine → Bytes
rendered l = (if l.is_stderr then stderr_mark else []) ++ l.text ++ b'\n' ∷ []

-- `captureLog`, with the limit as a parameter.
unfoldable pub capture_log : ℕ → Bytes → OutputLine → Bytes
capture_log limit out l = if ltb (length out) limit then out ++ rendered l else out

-- The lines that the scanners of both streams hand on, in the order in which they took the lock.
unfoldable pub capture_all : ℕ → Bytes → List OutputLine → Bytes
capture_all limit out [] = out
capture_all limit out (l ∷ ls) = capture_all limit (capture_log limit out l) ls

-- How the wait for a process ends: well, with an exit code, or with another error.
pub data Wait : Type 0 where
  exited_well : Wait
  exited_with : ℤ → Text → Wait
  failed : Text → Wait

unfoldable pub exit_code : Wait → ℤ
exit_code exited_well = pos 0
exit_code (exited_with code e) = code
exit_code (failed e) = negsuc 0

-- The errors that `Execute` returns.
pub data ExecuteError : Type 0 where
  no_command : TaskError → ExecuteError
  stdout_pipe stderr_pipe start_command context_done wait_failed : Text → ExecuteError

pub record ExecutionResult : Type 0 where
  pub exit_code : ℤ
  pub output : Bytes
  pub result : Option Text

-- The run of a command: its pipes, its start, the lines that reach `captureLog`, its end, and the
-- error of the context. Which lines the two scanners hand on is up to the run: they stop at a line of
-- one MiB, and the wait may close the pipes before they end. `parse` is what the parsers make of the
-- output.
pub record Runner : Type 0 where
  pub stdout : Outcome Text (Unit {0})
  pub stderr : Outcome Text (Unit {0})
  pub start : Outcome Text (Unit {0})
  pub lines : List OutputLine
  pub wait : Wait
  pub context_error : Option Text
  pub parse : ParseResult → Bytes → Option Text

abbrev not_run : ExecutionResult
not_run = record { exit_code = negsuc 0; output = []; result = none }

abbrev pub Executed : Type 0
Executed = ExecutionResult × Option ExecuteError

-- The error of the context stands in for that of the wait.
unfoldable pub wait_error : Wait → Option Text → Option ExecuteError
wait_error exited_well context = none
wait_error (exited_with code e) none = some (wait_failed e)
wait_error (failed e) none = some (wait_failed e)
wait_error (exited_with code e) (some c) = some (context_done c)
wait_error (failed e) (some c) = some (context_done c)

-- Behind the start of the command.
unfoldable pub finish : Runner → CommandSpec → Executed
unfolding wait_error exit_code
finish r spec =
    let output = capture_all output_limit [] r.lines in
    (
      record {
        exit_code = exit_code r.wait;
        output = output;
        result = r.parse spec.parse_result output;
      },
      wait_error r.wait r.context_error,
    )

abbrev pub step_or : Outcome Text (Unit {0}) → (Text → ExecuteError) → Executed → Executed
step_or (ok _) stage next = next
step_or (err e) stage next = (not_run, some (stage e))

unfoldable pub run_spec : (CommandSpec → Runner) → Outcome TaskError CommandSpec → Executed
unfolding finish
run_spec runner (err e) = (not_run, some (no_command e))
run_spec runner (ok spec) =
    let r = runner spec in
    step_or r.stdout stdout_pipe
      (step_or r.stderr stderr_pipe (step_or r.start start_command (finish r spec)))

unfoldable pub execute : Host → (CommandSpec → Runner) → Task → Files → Executed × Files
unfolding run_spec
execute h runner task fs =
    let (built, fs') = command_for_task h task fs in (run_spec runner built, fs')
