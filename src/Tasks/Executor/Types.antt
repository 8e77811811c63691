-- ===== src/Tasks/Executor/Types.antt =====
-- The payloads, the host and the errors of `ShellExecutor`.
use noderax_agent.Prelude.{Bool, Option, List, ℤ, Text, codes, Outcome}

abbrev pub task_type_agent_update : Text
task_type_agent_update = codes "agent.update"

abbrev pub task_type_log_scan : Text
task_type_log_scan = codes "log.scan"

abbrev pub task_type_shell_exec : Text
task_type_shell_exec = codes "shell.exec"

abbrev pub task_type_package_list : Text
task_type_package_list = codes "packageList"

abbrev pub task_type_package_search : Text
task_type_package_search = codes "packageSearch"

abbrev pub task_type_package_install : Text
task_type_package_install = codes "packageInstall"

abbrev pub task_type_package_remove : Text
task_type_package_remove = codes "packageRemove"

abbrev pub task_type_package_purge : Text
task_type_package_purge = codes "packagePurge"

abbrev pub privileged_update_helper_path : Text
privileged_update_helper_path = codes "/usr/local/libexec/noderax-agent-self-update"

abbrev pub package_mutation_helper_path : Text
package_mutation_helper_path = codes "/usr/local/libexec/noderax-agent-package-mutation"

abbrev pub operational_log_scan_helper_path : Text
operational_log_scan_helper_path = codes "/usr/local/libexec/noderax-agent-operational-log-scan"

abbrev pub task_root_helper_path : Text
task_root_helper_path = codes "/usr/local/libexec/noderax-agent-task-root"

abbrev pub agent_service_name : Text
agent_service_name = codes "noderax-agent.service"

pub record ShellExecPayload : Type 0 where
  pub command : Text
  pub shell : Text
  pub working_dir : Text
  pub environment : List (Text × Text)
  pub timeout : Text
  pub timeout_seconds : ℤ
  pub run_as_root : Bool
  pub root_scope : Text

pub record PackageSearchPayload : Type 0 where
  pub query : Text
  pub term : Text

pub record PackageMutationPayload : Type 0 where
  pub package_name : Text
  pub packages : List Text
  pub names : List Text
  pub purge : Bool

pub record AgentUpdatePayload : Type 0 where
  pub target_version : Text
  pub target_id : Text
  pub rollback : Bool

pub record LogScanPayload : Type 0 where
  pub mode : Text
  pub source_preset_id : Text
  pub run_as_root : Bool
  pub root_scope : Text

-- A task of the backend. Its payload is the text of a JSON value.
pub record Task : Type 0 where
  pub id : Text
  pub kind : Text
  pub payload : Text
  pub timeout_seconds : ℤ

-- How the output of a command is read.
pub data ParseResult : Type 0 where
  no_parse parse_package_list parse_package_search parse_log_scan : ParseResult
  handoff : Text → Text → Bool → ParseResult

pub record CommandSpec : Type 0 where
  pub name : Text
  pub args : List Text
  pub env : List (Text × Text)
  pub dir : Text
  pub parse_result : ParseResult

-- The files that pass a request on to a helper, and that of a log scan.
pub data RequestFile : Type 0 where
  privileged_update package_mutation operational_log_scan task_root log_scan_temp : RequestFile

-- The steps that write a request file: they write a temporary file beside it and rename it.
pub data WriteStage : Type 0 where
  make_directory create_temp write_string chmod close rename : WriteStage

-- How each step ends.
pub record WriteSteps : Type 0 where
  pub outcome : WriteStage → Outcome Text (Unit {0})

-- The errors of the source, one constructor for each message.
pub data TaskError : Type 0 where
  unsupported_task_type : Text → TaskError
  missing_payload : Text → TaskError
  undecodable_payload : Text → Text → TaskError
  requires_target_version requires_target_id requires_mode requires_source_preset_id : TaskError
  requires_command requires_root_scope requires_operational_scope requires_query : TaskError
  invalid_query_term : Text → TaskError
  empty_package_name empty_package_list : TaskError
  invalid_package_name : Text → TaskError
  unsupported_operational_command : Text → TaskError
  not_linux : Text → TaskError
  scope_not_allowed : Text → TaskError
  missing_binary : Text → TaskError
  unresolved_agent_binary : TaskError
  write_failed : RequestFile → WriteStage → Text → TaskError

-- The host with the fields of the executor that look at it, and what package encoding/json makes of
-- a payload.
pub record Host : Type 0 where
  pub goos : Text
  pub look_path : Text → Option Text
  pub executable_path : Option Text
  pub file_exists : Text → Bool
  pub is_root : Bool
  pub root_scope_checker : Option (Text → Bool)
  pub write_steps : RequestFile → WriteSteps
  pub temp_path : Text
  pub decode_shell : Text → Outcome Text ShellExecPayload
  pub decode_search : Text → Outcome Text PackageSearchPayload
  pub decode_mutation : Text → Outcome Text PackageMutationPayload
  pub decode_update : Text → Outcome Text AgentUpdatePayload
  pub decode_log_scan : Text → Outcome Text LogScanPayload
  pub encode_update : AgentUpdatePayload → Text
