-- ===== src/Tasks/Executor/Requests.antt =====
-- The request that names packages for the helper, and the helper script that reads it, which
-- internal/agentctl/commands.go renders.
use noderax_agent.Prelude.{
  ℕ, Bool, true, false, not, ◌&&◌, ◌||◌, List, [], ◌∷◌, ◌++◌, leb, ◌==◌, if◌then◌else◌, drop, Text,
  codes, is_empty, text_eq, trim_space, Outcome, ok, err, ◌>>=◌, ◌>>◌, fail_if,
}

-- `writePackageMutationRequest`: the operation and the packages, a line each.
unfoldable pub package_lines : List Text → Text
package_lines [] = []
package_lines (pkg ∷ pkgs) =
    let name = trim_space pkg in
    let rest = package_lines pkgs in if is_empty name then rest else name ++ b'\n' ∷ rest

unfoldable pub package_request : Text → List Text → Text
unfolding package_lines
package_request operation packages = trim_space operation ++ b'\n' ∷ package_lines packages

-- `while IFS= read -r line || [ -n "${line}" ]`: the lines, of which the last may lack its newline.
unfoldable pub push_rune : ℕ → List Text → List Text
push_rune c [] = (c ∷ []) ∷ []
push_rune c (l ∷ ls) = (c ∷ l) ∷ ls

unfoldable pub shell_lines : Text → List Text
unfolding push_rune
shell_lines [] = []
shell_lines (c ∷ s) = let ls = shell_lines s in if c == b'\n' then [] ∷ ls else push_rune c ls

-- `tr -d '[:space:]'`.
abbrev is_ascii_space : ℕ → Bool
is_ascii_space c = leb 9 c && leb c 13 || c == 32

unfoldable pub delete_spaces : Text → Text
delete_spaces [] = []
delete_spaces (c ∷ s) = if is_ascii_space c then delete_spaces s else c ∷ delete_spaces s

-- The pattern `^[a-z0-9][a-z0-9.+:-]*$`.
abbrev is_alnum : ℕ → Bool
is_alnum c = leb b'a' c && leb c b'z' || leb b'0' c && leb c b'9'

abbrev is_name_rune : ℕ → Bool
is_name_rune c = is_alnum c || c == b'.' || c == b'+' || c == b':' || c == b'-'

unfoldable pub all_name_runes : Text → Bool
all_name_runes [] = true
all_name_runes (c ∷ s) = is_name_rune c && all_name_runes s

unfoldable pub matches_name : Text → Bool
unfolding all_name_runes
matches_name [] = false
matches_name (c ∷ s) = is_alnum c && all_name_runes s

-- The exit codes of the script.
pub data HelperError : Type 0 where
  invalid_name : Text → HelperError
  missing_apt_get no_packages : HelperError
  unsupported_operation : Text → HelperError

-- The loop over the lines behind the first.
unfoldable pub read_packages : List Text → Outcome HelperError (List Text)
read_packages [] = ok []
read_packages (line ∷ lines) =
    let pkg = delete_spaces line in
    let rest = read_packages lines in
    if is_empty pkg
    then rest
    else if not (matches_name pkg)
    then err (invalid_name pkg)
    else (rest >>= λ pkgs. ok (pkg ∷ pkgs))

-- `case "${OPERATION}"`: the operation and the packages of the `apt-get` that is run.
unfoldable pub run_operation : Text → List Text → Outcome HelperError (Text × List Text)
run_operation operation pkgs =
    if text_eq operation (codes "update")
    then ok (operation, [])
    else if text_eq operation (codes "install")
        || text_eq operation (codes "remove")
        || text_eq operation (codes "purge")
    then (if is_empty pkgs then err no_packages else ok (operation, pkgs))
    else err (unsupported_operation operation)

abbrev pub first_line : List Text → Text
first_line [] = []
first_line (l ∷ ls) = l

unfoldable pub package_helper : Bool → Text → Outcome HelperError (Text × List Text)
unfolding read_packages run_operation
package_helper has_apt_get request = do
  pkgs ← read_packages (drop 1 (shell_lines request))
  fail_if (not has_apt_get) missing_apt_get
  run_operation (first_line (shell_lines request)) pkgs
