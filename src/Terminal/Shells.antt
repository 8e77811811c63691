-- ===== src/Terminal/Shells.antt =====
-- `selectShellCandidates` and `selectRootShellCandidates`: the shells that a session tries.
use noderax_agent.Prelude.{
  Bool, true, false, ◌||◌, Option, none, some, List, [], ◌∷◌, ◌++◌, if◌then◌else◌, Text, codes,
  is_empty, text_eq, trim_space, has_prefix,
}
pub mod Paths
pub mod Choice

-- `os.Getenv("SHELL")`; `exec.LookPath`; and `os.Stat`, which tells of a path that exists whether it is
-- a directory.
pub record ShellHost : Type 0 where
  pub shell : Text
  pub look_path : Text → Option Text
  pub stat : Text → Option Bool

abbrev pub supported_root_shell_paths : List Text
supported_root_shell_paths =
    codes "/bin/bash"
    ∷ codes "/usr/bin/bash"
    ∷ codes "/bin/zsh"
    ∷ codes "/usr/bin/zsh"
    ∷ codes "/bin/sh"
    ∷ codes "/usr/bin/sh"
    ∷ []

abbrev pub supported_root_shell_names : List Text
supported_root_shell_names = codes "bash" ∷ codes "zsh" ∷ codes "sh" ∷ []

-- A path that is a file.
abbrev file_at : Option Bool → Text → Option Text
file_at none path = none
file_at (some true) path = none
file_at (some false) path = some path

-- What a candidate stands for: nothing, the path that is found for a name, or an absolute path.
unfoldable pub resolve : ShellHost → Text → Option Text
resolve h candidate =
    if is_empty candidate
    then none
    else if has_prefix candidate (codes "/")
    then file_at (h.stat candidate) candidate
    else h.look_path candidate

unfoldable pub member : Text → List Text → Bool
member x [] = false
member x (y ∷ ys) = text_eq x y || member x ys

-- A path is appended if it was not seen; the paths seen are those in the list.
unfoldable pub add_resolved : List Text → Option Text → List Text
add_resolved out none = out
add_resolved out (some path) = if member path out then out else out ++ path ∷ []

unfoldable pub dedupe_from : ShellHost → List Text → List Text → List Text
dedupe_from h out [] = out
dedupe_from h out (candidate ∷ candidates) =
    dedupe_from h (add_resolved out (resolve h candidate)) candidates

unfoldable pub dedupe_shell_candidates : ShellHost → List Text → List Text
dedupe_shell_candidates h candidates = dedupe_from h [] candidates

unfoldable pub look_paths : ShellHost → List Text → List Text
look_paths h [] = []
look_paths h (name ∷ names) = elim (h.look_path name) [
  | none ↦ look_paths h names
  | some path ↦ path ∷ look_paths h names
]

unfoldable pub select_root_shell_candidates : ShellHost → List Text
select_root_shell_candidates h =
    dedupe_shell_candidates h
      (look_paths h supported_root_shell_names ++ supported_root_shell_paths)

unfoldable pub select_shell_candidates : ShellHost → List Text
select_shell_candidates h =
    dedupe_shell_candidates h (trim_space h.shell ∷ select_root_shell_candidates h)
