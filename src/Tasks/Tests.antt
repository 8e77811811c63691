-- ===== src/Tasks/Tests.antt =====
-- Tasks at concrete inputs.
use noderax_agent.Prelude.{
  negsuc, ℕ, ◌≡◌, refl, inl, true, false, Option, none, some, List, [], ◌∷◌, ◌++◌, arith, ltb,
  if◌then◌else◌, pos, Text, codes, text_eq, is_space, trim_left, trim_right, trim_space, contains,
  to_lower, fields, join, ok, err,
}
use noderax_agent.Rootaccess.{Manager, missing, can_use_root_scope}
use noderax_agent.Tasks.Events.Retry.{
  CallError, request, with_queued_state_retry, Run, with_queued_state_retry-Run,
}
use noderax_agent.Tasks.Executor.Timeouts.{seconds_of}
use noderax_agent.Tasks.Executor.Types.{Host, ShellExecPayload, task_root}
use noderax_agent.Tasks.Executor.Build.{write}
use noderax_agent.Tasks.Executor.Requests.{package_request, package_helper, matches_name}
use noderax_agent.Tasks.Executor.Root.{Command}
use noderax_agent.Tasks.Executor.Commands.{
  root_shell_command, task_root_command, package_install_command, package_remove_command,
  package_purge_command,
}
use noderax_agent.Tasks.Executor.Scopes.{
  Granted, root_shell_command-Granted, root_shell_command_padded,
}
use noderax_agent.Tasks.Executor.Mutations.{IfBuilt, Mutates, package_commands-Mutates}
use noderax_agent.Tasks.Executor.Helper.{Runs, package_helper-package_request, package_helper-Runs}
use noderax_agent.Tasks.Executor.Types.{Task, CommandSpec}
use noderax_agent.Tasks.Executor.Execute.{Runner, exited_well, execute}
use noderax_agent.Tasks.Executor.Execute.Capture.{IsSuccess, execute-IsSuccess}

abbrev queued : CallError
queued = request (record { status_code = 409; message = codes "Task in Queued State"; body = [] })

-- Two conflicts, and then a success.
abbrev send : ℕ → Option CallError
send attempt = if ltb attempt 3 then some queued else none

with_queued_state_retry-Run_example : Run none send 1 4 (with_queued_state_retry none send)
with_queued_state_retry-Run_example = with_queued_state_retry-Run none send

with_queued_state_retry_test : with_queued_state_retry none send ≡ (none, 3)
unfolding with_queued_state_retry noderax_agent.Tasks.Events.Retry.is_queued_state_conflict contains
    to_lower trim_space trim_left trim_right is_space
with_queued_state_retry_test = refl

abbrev vim_and_gcc : List Text
vim_and_gcc = codes "vim" ∷ codes "g++-13" ∷ []

package_helper-package_request_example :
    package_helper true (package_request (codes "install") vim_and_gcc)
    ≡ ok (codes "install", vim_and_gcc)
unfolding matches_name
package_helper-package_request_example =
    package_helper-package_request (codes "install") vim_and_gcc (inl refl) refl (refl, (refl, tt))

-- A request whose last line has no newline, and a line of spaces.
package_helper-Runs_example : Runs (codes "remove", codes "vim" ∷ [])
unfolding package_helper noderax_agent.Tasks.Executor.Requests.shell_lines
    noderax_agent.Tasks.Executor.Requests.delete_spaces matches_name text_eq
package_helper-Runs_example =
    package_helper-Runs true (codes "remove\n \n vim") (codes "remove", codes "vim" ∷ []) refl

-- A name with a space in it becomes another name, and one with a newline becomes two.
package_helper_test :
    (package_helper true (package_request (codes "install") (codes "lib foo" ∷ []))
      ≡ ok (codes "install", codes "libfoo" ∷ []))
    × (package_helper true (package_request (codes "install") (codes "vim\nnano" ∷ []))
        ≡ ok (codes "install", codes "vim" ∷ codes "nano" ∷ []))
unfolding package_helper package_request noderax_agent.Tasks.Executor.Requests.shell_lines
    trim_space trim_left trim_right is_space noderax_agent.Tasks.Executor.Requests.delete_spaces
    matches_name text_eq
package_helper_test = (refl, refl)

abbrev manager : Manager
manager = record {
  state = record {
    applied_profile = codes "operational";
    last_applied_at = [];
    last_error = [];
    revision = pos 1;
  };
  stored = missing;
  helper_runs = [];
}

-- A Linux host with every helper and every binary, the latter in /bin.
abbrev host : Host
host = record {
  goos = codes "linux";
  look_path = λ name. some (codes "/bin/" ++ name);
  executable_path = none;
  file_exists = λ path. true;
  is_root = false;
  root_scope_checker = some (can_use_root_scope manager);
  write_steps = λ file. record { outcome = λ stage. ok tt };
  temp_path = codes "/tmp/1";
  decode_shell = λ payload. err [];
  decode_search = λ payload. err [];
  decode_mutation =
      λ payload. ok (record { package_name = payload; packages = []; names = []; purge = false });
  decode_update = λ payload. err [];
  decode_log_scan = λ payload. err [];
  encode_update = λ payload. [];
}

abbrev shell_payload : Text → Text → ShellExecPayload
shell_payload command scope = record {
  command = command;
  shell = [];
  working_dir = [];
  environment = [];
  timeout = [];
  timeout_seconds = pos 0;
  run_as_root = true;
  root_scope = scope;
}

root_shell_command-Granted_example :
    Granted host manager
      (shell_payload (codes " systemctl  restart noderax-agent") (codes "operational"))
      []
      (
        codes "/bin/sudo",
        codes "-n" ∷ codes "/bin/systemctl" ∷ codes "restart" ∷ codes "noderax-agent.service" ∷ [],
      )
      []
unfolding root_shell_command trim_space trim_left trim_right is_space can_use_root_scope text_eq
    noderax_agent.Rootaccess.Profiles.profile_allows_operational
    noderax_agent.Tasks.Executor.Root.build_operational_root_command
    noderax_agent.Tasks.Executor.Root.normalized_command join fields
    noderax_agent.Tasks.Executor.Root.require_binary
    noderax_agent.Tasks.Executor.Root.wrap_with_sudo
root_shell_command-Granted_example =
    root_shell_command-Granted host manager
      (shell_payload (codes " systemctl  restart noderax-agent") (codes "operational"))
      (
        codes "/bin/sudo",
        codes "-n" ∷ codes "/bin/systemctl" ∷ codes "restart" ∷ codes "noderax-agent.service" ∷ [],
      )
      [] [] refl refl refl

root_shell_command_padded_example :
    root_shell_command host (shell_payload (codes "id") (codes " operational")) []
    ≡ task_root_command host (shell_payload (codes "id") (codes " operational")) []
root_shell_command_padded_example =
    root_shell_command_padded host manager (shell_payload (codes "id") (codes " operational")) []
      refl refl refl

-- That command is written for the helper of the task scope.
task_root_command_test :
    (task_root_command host (shell_payload (codes "id") (codes " operational")) []).1
    ≡ (task_root, codes "id") ∷ []
unfolding task_root_command write text_eq
task_root_command_test = refl

package_commands-Mutates_example :
    IfBuilt
      (λ spec fs. Mutates host (codes " vim") (λ p. codes "install") [] fs spec)
      (package_install_command host (codes " vim") [])
    × IfBuilt
        (λ spec fs.
          Mutates host
            (codes " vim")
            (λ p. if p.purge then codes "purge" else codes "remove")
            []
            fs
            spec)
        (package_remove_command host (codes " vim") [])
    × IfBuilt
        (λ spec fs. Mutates host (codes " vim") (λ p. codes "purge") [] fs spec)
        (package_purge_command host (codes " vim") [])
package_commands-Mutates_example = package_commands-Mutates host (codes " vim") []

-- A run of two lines.
abbrev runner : CommandSpec → Runner
runner spec = record {
  stdout = ok tt;
  stderr = ok tt;
  start = ok tt;
  lines =
      record { is_stderr = false; text = codes "a" }
      ∷ record { is_stderr = true; text = codes "b" }
      ∷ [];
  wait = exited_well;
  context_error = none;
  parse = λ p output. none;
}

abbrev list_task : Task
list_task = record {
  id = codes "t";
  kind = codes "packageList";
  payload = [];
  timeout_seconds = pos 0;
}

execute-IsSuccess_example : IsSuccess host runner list_task [] 10 (execute host runner list_task [])
unfolding execute noderax_agent.Tasks.Executor.Commands.command_for_task text_eq
    noderax_agent.Tasks.Executor.Commands.package_list_command
    noderax_agent.Tasks.Executor.Root.ensure_linux_task_support
execute-IsSuccess_example =
    execute-IsSuccess host runner list_task [] 10 (λ spec. (omega arith, (omega arith, tt))) refl

-- One second more than 64 bits hold is a timeout in the past.
seconds_of_test : seconds_of 9_223_372_037 ≡ negsuc 9_223_372_036_709_551_615
unfolding seconds_of
seconds_of_test = refl
