-- ===== src/Tasks/Executor/Commands.antt =====
-- `commandForTask` and the command of each type of task. The message that announces a command in the log of the task is left out.
use noderax_agent.Prelude.{
  Bool, true, not, ◌&&◌, ◌||◌, Option, none, some, List, [], ◌∷◌, if◌then◌else◌, Text, codes,
  is_empty, text_eq, trim_space, has_prefix, fields, Outcome, ok, err,
}
use noderax_agent.Tasks.Executor.Types.{
  Host, Task, CommandSpec, ParseResult, no_parse, parse_package_list, parse_package_search,
  parse_log_scan, handoff, ShellExecPayload, LogScanPayload, unsupported_task_type, missing_payload,
  undecodable_payload, requires_target_version, requires_target_id, requires_mode,
  requires_source_preset_id, requires_command, requires_root_scope, requires_operational_scope,
  requires_query, invalid_query_term, scope_not_allowed, unresolved_agent_binary, task_root,
  operational_log_scan, privileged_update, log_scan_temp, task_root_helper_path,
  operational_log_scan_helper_path, privileged_update_helper_path, task_type_agent_update,
  task_type_log_scan, task_type_shell_exec, task_type_package_list, task_type_package_search,
  task_type_package_install, task_type_package_remove, task_type_package_purge,
}
use noderax_agent.Tasks.Executor.Build.{
  Build, ◌>>=◌, ◌>>◌, return, throw, throw_if, lift, write, write_temp,
}
use noderax_agent.Tasks.Executor.Packages.{dash, normalize_package_names}
use noderax_agent.Tasks.Executor.Root.{
  Command, is_linux, ensure_linux_task_support, require_binary, wrap_with_sudo,
  wrap_package_mutation_command, build_operational_root_command,
}

abbrev pub decoded {ℓ} : {A : Type ℓ} → Text → Outcome Text A → Build A
decoded kind (ok a) = return a
decoded kind (err e) = throw (undecodable_payload kind e)

-- `decodePayload` and `decodeShellPayload`.
unfoldable pub decode_payload {ℓ} : {A : Type ℓ} → (Text → Outcome Text A) → Text → Text → Build A
decode_payload decode payload kind = do
  throw_if (is_empty payload) (missing_payload kind)
  decoded kind (decode payload)

-- No checker allows every scope.
abbrev pub is_allowed : Option (Text → Bool) → Text → Bool
is_allowed none scope = true
is_allowed (some checker) scope = checker scope

abbrev default_shell : Text → Text
default_shell shell = if is_empty shell then codes "/bin/sh" else shell

unfoldable pub build_shell_command : ShellExecPayload → Command
build_shell_command p = (
  default_shell (if p.run_as_root then codes "/bin/sh" else p.shell),
  codes "-lc" ∷ p.command ∷ [],
)

-- The arbitrary command of a task, as root.
unfoldable pub task_root_command : Host → ShellExecPayload → Build Command
unfolding build_shell_command
task_root_command h p =
    let (name, args) = build_shell_command p in
    if is_linux h && h.file_exists task_root_helper_path
    then (do write h task_root p.command; return (wrap_with_sudo h task_root_helper_path []))
    else return (wrap_with_sudo h name args)

unfoldable pub root_shell_command : Host → ShellExecPayload → Build Command
unfolding task_root_command
root_shell_command h p = do
  throw_if (is_empty (trim_space p.root_scope)) requires_root_scope
  throw_if (not (is_allowed h.root_scope_checker p.root_scope)) (scope_not_allowed p.root_scope)
  if text_eq p.root_scope (codes "operational")
      then build_operational_root_command h p.command
      else task_root_command h p

abbrev shell_spec : ShellExecPayload → Command → CommandSpec
shell_spec p c = record {
  name = c.0;
  args = c.1;
  env = p.environment;
  dir = p.working_dir;
  parse_result = no_parse;
}

-- Behind the decoding of the payload.
unfoldable pub shell_payload_command : Host → ShellExecPayload → Build CommandSpec
unfolding root_shell_command
shell_payload_command h p = do
  throw_if (is_empty (trim_space p.command)) requires_command
  c ← if p.run_as_root then root_shell_command h p else return (build_shell_command p)
  return (shell_spec p c)

unfoldable pub shell_command : Host → Text → Build CommandSpec
unfolding shell_payload_command decode_payload
shell_command h payload = do
  p ← decode_payload h.decode_shell payload task_type_shell_exec
  shell_payload_command h p

abbrev columns : Text → List (Text × Text)
columns n = (codes "COLUMNS", n) ∷ (codes "PAGER", codes "cat") ∷ []

abbrev pub spec_of : List (Text × Text) → ParseResult → Command → CommandSpec
spec_of env parse c = record { name = c.0; args = c.1; env = env; dir = []; parse_result = parse }

unfoldable pub package_list_command : Host → Build CommandSpec
package_list_command h = do
  ensure_linux_task_support h
  elim (h.look_path (codes "dpkg")) [
    | some dpkg ↦
        return (spec_of (columns (codes "100000")) parse_package_list (dpkg, codes "-l" ∷ []))
    | none ↦ (do
      apt ← require_binary h (codes "apt")
      return (
          spec_of (columns (codes "10000")) parse_package_list
            (apt, codes "list" ∷ codes "--installed" ∷ [])))
  ]

-- The loop over the terms of a query.
unfoldable pub check_terms : List Text → Build (Unit {0})
check_terms [] = return tt
check_terms (term ∷ terms) =
    let rest = check_terms terms in
    if has_prefix term dash then throw (invalid_query_term term) else rest

unfoldable pub package_search_command : Host → Text → Build CommandSpec
unfolding decode_payload check_terms
package_search_command h payload = do
  ensure_linux_task_support h
  p ← decode_payload h.decode_search payload task_type_package_search
  let query = trim_space p.query
  let terms = fields (if is_empty query then trim_space p.term else query)
  throw_if (is_empty terms) requires_query
  check_terms terms
  apt ← require_binary h (codes "apt")
  return (spec_of (columns (codes "10000")) parse_package_search (apt, codes "search" ∷ terms))

abbrev noninteractive : List (Text × Text)
noninteractive = (codes "DEBIAN_FRONTEND", codes "noninteractive") ∷ []

-- What the commands that install, remove and purge share, behind the names.
unfoldable pub mutation_command : Host → Text → Text → List Text → Build CommandSpec
mutation_command h operation apt_get packages = do
  c ←
      wrap_package_mutation_command h operation apt_get
        (operation ∷ codes "-y" ∷ codes "--" ∷ packages) packages
  return (spec_of noninteractive no_parse c)

unfoldable pub package_install_command : Host → Text → Build CommandSpec
unfolding decode_payload mutation_command
package_install_command h payload = do
  ensure_linux_task_support h
  apt_get ← require_binary h (codes "apt-get")
  p ← decode_payload h.decode_mutation payload task_type_package_install
  packages ← lift (normalize_package_names p)
  mutation_command h (codes "install") apt_get packages

unfoldable pub package_remove_command : Host → Text → Build CommandSpec
unfolding decode_payload mutation_command
package_remove_command h payload = do
  ensure_linux_task_support h
  apt_get ← require_binary h (codes "apt-get")
  p ← decode_payload h.decode_mutation payload task_type_package_remove
  packages ← lift (normalize_package_names p)
  mutation_command h (if p.purge then codes "purge" else codes "remove") apt_get packages

unfoldable pub package_purge_command : Host → Text → Build CommandSpec
unfolding decode_payload mutation_command
package_purge_command h payload = do
  ensure_linux_task_support h
  apt_get ← require_binary h (codes "apt-get")
  p ← decode_payload h.decode_mutation payload task_type_package_purge
  packages ← lift (normalize_package_names p)
  mutation_command h (codes "purge") apt_get packages

-- The managed binary: on the path, or the running one.
unfoldable pub agent_path : Option Text → Option Text → Build Text
agent_path (some path) own = return path
agent_path none (some path) = return path
agent_path none none = throw unresolved_agent_binary

unfoldable pub agent_update_command : Host → Text → Build CommandSpec
unfolding decode_payload agent_path
agent_update_command h payload = do
  ensure_linux_task_support h
  p ← decode_payload h.decode_update payload task_type_agent_update
  let target_version = trim_space p.target_version
  throw_if (is_empty target_version) requires_target_version
  let target_id = trim_space p.target_id
  throw_if (is_empty target_id) requires_target_id
  agent ← agent_path (h.look_path (codes "noderax-agent")) h.executable_path
  let args =
      codes "update"
      ∷ codes "--target-version"
      ∷ target_version
      ∷ codes "--target-id"
      ∷ target_id
      ∷ (if p.rollback then codes "--rollback" ∷ [] else [])
  c ←
      if is_linux h && h.file_exists privileged_update_helper_path
      then (do
        write h privileged_update (h.encode_update p)
        return (wrap_with_sudo h privileged_update_helper_path []))
      else return (wrap_with_sudo h agent args)
  return (spec_of [] (handoff target_id target_version p.rollback) c)

abbrev pub effective_scope : Text → Text
effective_scope scope =
    let s = trim_space scope in
    if is_empty s || text_eq s (codes "task") then codes "operational" else s

unfoldable pub root_log_scan_command :
    Host → LogScanPayload → Text → Text → List Text → Build Command
root_log_scan_command h p payload name args = do
  let scope = effective_scope p.root_scope
  throw_if (not (text_eq scope (codes "operational"))) requires_operational_scope
  throw_if (not (is_allowed h.root_scope_checker scope)) (scope_not_allowed scope)
  if is_linux h && h.file_exists operational_log_scan_helper_path
      then (do
        write h operational_log_scan payload
        return (wrap_with_sudo h operational_log_scan_helper_path []))
      else return (wrap_with_sudo h name args)

unfoldable pub log_scan_command : Host → Text → Build CommandSpec
unfolding decode_payload agent_path root_log_scan_command
log_scan_command h payload = do
  ensure_linux_task_support h
  p ← decode_payload h.decode_log_scan payload task_type_log_scan
  throw_if (is_empty (trim_space p.mode)) requires_mode
  throw_if (is_empty (trim_space p.source_preset_id)) requires_source_preset_id
  agent ← agent_path (h.look_path (codes "noderax-agent")) h.executable_path
  write_temp h log_scan_temp payload
  let args = codes "log-scan" ∷ codes "--request" ∷ h.temp_path ∷ []
  c ← if p.run_as_root then root_log_scan_command h p payload agent args else return (agent, args)
  return (spec_of [] parse_log_scan c)

unfoldable pub command_for_task : Host → Task → Build CommandSpec
command_for_task h task =
    if text_eq task.kind task_type_agent_update
    then agent_update_command h task.payload
    else if text_eq task.kind task_type_log_scan
    then log_scan_command h task.payload
    else if text_eq task.kind task_type_shell_exec
    then shell_command h task.payload
    else if text_eq task.kind task_type_package_list
    then package_list_command h
    else if text_eq task.kind task_type_package_search
    then package_search_command h task.payload
    else if text_eq task.kind task_type_package_install
    then package_install_command h task.payload
    else if text_eq task.kind task_type_package_remove
    then package_remove_command h task.payload
    else if text_eq task.kind task_type_package_purge
    then package_purge_command h task.payload
    else throw (unsupported_task_type task.kind)
