-- ===== src/Tasks/Executor/Root.antt =====
-- How a command line is run as root.
use noderax_agent.Prelude.{
  Bool, not, ◌&&◌, ◌||◌, Option, none, some, List, [], ◌∷◌, if◌then◌else◌, Text, codes, text_eq,
  trim_space, fields, join,
}
use noderax_agent.Tasks.Executor.Types.{
  Host, not_linux, missing_binary, unsupported_operational_command, package_mutation,
  package_mutation_helper_path, agent_service_name,
}
use noderax_agent.Tasks.Executor.Build.{Build, ◌>>=◌, ◌>>◌, return, throw, throw_if, write}
use noderax_agent.Tasks.Executor.Requests.{package_request}

abbrev pub Command : Type 0
Command = Text × List Text

abbrev pub is_linux : Host → Bool
is_linux h = text_eq h.goos (codes "linux")

unfoldable pub ensure_linux_task_support : Host → Build (Unit {0})
ensure_linux_task_support h = throw_if (not (is_linux h)) (not_linux h.goos)

unfoldable pub found : Text → Option Text → Build Text
found name none = throw (missing_binary name)
found name (some path) = return path

unfoldable pub require_binary : Host → Text → Build Text
unfolding found
require_binary h name = found name (h.look_path name)

-- Without sudo the command is run as it is. The error of the source is always nil.
unfoldable pub wrap_with_sudo : Host → Text → List Text → Command
wrap_with_sudo h name args = if h.is_root then (name, args) else elim (h.look_path (codes "sudo")) [
  | none ↦ (name, args)
  | some sudo ↦ (sudo, codes "-n" ∷ name ∷ args)
]

-- The helper that runs package operations is there.
abbrev pub has_package_helper : Host → Bool
has_package_helper h = is_linux h && h.file_exists package_mutation_helper_path

unfoldable pub wrap_package_mutation_command :
    Host → Text → Text → List Text → List Text → Build Command
wrap_package_mutation_command h operation name args packages =
    if has_package_helper h
    then (do
      write h package_mutation (package_request operation packages)
      return (wrap_with_sudo h package_mutation_helper_path []))
    else return (wrap_with_sudo h name args)

unfoldable pub normalized_command : Text → Text
normalized_command command = join (fields (trim_space command)) (codes " ")

unfoldable pub build_operational_root_command : Host → Text → Build Command
build_operational_root_command h command =
    let c = normalized_command command in
    if text_eq c (codes "reboot")
    then (do path ← require_binary h (codes "reboot"); return (wrap_with_sudo h path []))
    else if text_eq c (codes "systemctl restart noderax-agent")
        || text_eq c (codes "systemctl restart noderax-agent.service")
    then (do
      path ← require_binary h (codes "systemctl")
      return (wrap_with_sudo h path (codes "restart" ∷ agent_service_name ∷ [])))
    else if text_eq c (codes "apt-get update")
    then (do
      path ← require_binary h (codes "apt-get")
      wrap_package_mutation_command h (codes "update") path (codes "update" ∷ []) [])
    else throw (unsupported_operational_command command)
