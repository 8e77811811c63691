-- ===== src/Tasks/Executor/Helper/Spaces.antt =====
-- A package name with a space inside, on its way through the helper script.
use noderax_agent.Prelude.{
  ◌≡◌, refl, true, false, [], ◌∷◌, ◌++◌, arith, ◌==◌, Text, is_empty, is_space, trim_left,
  trim_right, trim_space, has_prefix, ok,
}
use noderax_agent.Tasks.Executor.Types.{PackageMutationPayload}
use noderax_agent.Tasks.Executor.Packages.{dash, raw_names, normalize_each, normalize_package_names}
use noderax_agent.Tasks.Executor.Requests.{
  package_lines, package_request, shell_lines, push_rune, delete_spaces, all_name_runes,
  matches_name, read_packages, package_helper,
}
use noderax_agent.Tasks.Executor.Helper.{
  IsOperation, IsOperation-runes, delete_spaces-name, matches_name-runes, matches_name-nonempty,
  trim_space-name, trim_right-name, shell_lines-line, run_operation-packages,
}

-- The name in question.
abbrev pub spaced : Text → Text → Text
spaced a b = a ++ b' ' ∷ b

trim_right-append :
    (a b : Text)
    → trim_right is_space b ≡ b
    → is_empty b ≡ false
    → (trim_right is_space (a ++ b) ≡ a ++ b) × (is_empty (a ++ b) ≡ false)
unfolding trim_right
trim_right-append [] b same full = (same, full)
trim_right-append (c ∷ a) b same full =
    let (same', full') = trim_right-append a b same full in
    (simp (same', full') (ground arith), refl)

trim_left-first : (a t : Text) → matches_name a ≡ true → trim_left is_space (a ++ t) ≡ a ++ t
unfolding trim_left matches_name is_space
trim_left-first [] t h = cc
trim_left-first (c ∷ a) t h = ground arith

cons-trim : (b : Text) → matches_name b ≡ true → trim_right is_space (b' ' ∷ b) ≡ b' ' ∷ b
unfolding trim_right
cons-trim b h =
    let runes = matches_name-runes b h in
    simp (trim_right-name b runes, matches_name-nonempty b h) (ground arith)

trim_space-spaced :
    (a b : Text)
    → matches_name a ≡ true
    → matches_name b ≡ true
    → trim_space (spaced a b) ≡ spaced a b
unfolding trim_space
trim_space-spaced a b ha hb =
    rw ((trim_right-append a (b' ' ∷ b) (cons-trim b hb) refl).0) (trim_left-first a (b' ' ∷ b) ha)

-- A line of name runes and one space.
shell_lines-spaced :
    (a b t : Text)
    → all_name_runes a ≡ true
    → all_name_runes b ≡ true
    → shell_lines (spaced a b ++ b'\n' ∷ t) ≡ spaced a b ∷ shell_lines t
unfolding shell_lines all_name_runes push_rune
shell_lines-spaced [] b t ha hb = rw (shell_lines-line b t hb) refl
shell_lines-spaced (c ∷ a) b t ha hb =
    let other : (c == b'\n') ≡ false = ground arith in
    let rest : all_name_runes a ≡ true = ground arith in
    rw (shell_lines-spaced a b t rest hb, other)

delete_spaces-spaced :
    (a b : Text)
    → all_name_runes a ≡ true
    → all_name_runes b ≡ true
    → delete_spaces (spaced a b) ≡ a ++ b
unfolding delete_spaces all_name_runes
delete_spaces-spaced [] b ha hb = delete_spaces-name b hb
delete_spaces-spaced (c ∷ a) b ha hb =
    let rest : all_name_runes a ≡ true = ground arith in
    let same = delete_spaces-spaced a b rest hb in ground (arith, same)

all_name_runes-append :
    (a b : Text)
    → all_name_runes a ≡ true
    → all_name_runes b ≡ true
    → all_name_runes (a ++ b) ≡ true
unfolding all_name_runes
all_name_runes-append [] b ha hb = hb
all_name_runes-append (c ∷ a) b ha hb =
    let rest : all_name_runes a ≡ true = ground arith in
    let same = all_name_runes-append a b rest hb in ground (arith, same)

matches_name-append :
    (a b : Text) → matches_name a ≡ true → matches_name b ≡ true → matches_name (a ++ b) ≡ true
unfolding matches_name
matches_name-append [] b ha hb = cc
matches_name-append (c ∷ a) b ha hb =
    let rest : all_name_runes a ≡ true = ground arith in
    let same = all_name_runes-append a b rest (matches_name-runes b hb) in ground (arith, same)

is_empty-spaced : (a b : Text) → is_empty (spaced a b) ≡ false
is_empty-spaced [] b = refl
is_empty-spaced (c ∷ a) b = refl

no_dash : (a t : Text) → matches_name a ≡ true → has_prefix (a ++ t) dash ≡ false
unfolding matches_name has_prefix
no_dash [] t h = cc
no_dash (c ∷ a) t h = ground arith

-- The payload that names one package.
abbrev pub one_package : Text → PackageMutationPayload
one_package name = record { package_name = name; packages = []; names = []; purge = false }

-- A name of two package names with a space between them is accepted as one name, and the helper runs
-- the operation on another package: the one whose name is the two without the space.
pub package_helper_joins :
    (op a b : Text)
    → IsOperation op
    → matches_name a ≡ true
    → matches_name b ≡ true
    → (normalize_package_names (one_package (spaced a b)) ≡ ok (spaced a b ∷ []))
      × (package_helper true (package_request op (spaced a b ∷ [])) ≡ ok (op, (a ++ b) ∷ []))
unfolding normalize_package_names normalize_each raw_names package_helper package_request
    package_lines read_packages
package_helper_joins op a b known ha hb =
    let ra = matches_name-runes a ha in
    let rb = matches_name-runes b hb in
    let runes = IsOperation-runes op known in
    let joined = matches_name-append a b ha hb in
    (
      simp (is_empty-spaced a b, trim_space-spaced a b ha hb, no_dash a (b' ' ∷ b) ha) refl,
      rw
          (
            trim_space-spaced a b ha hb,
            is_empty-spaced a b,
            trim_space-name op runes,
            shell_lines-line op (spaced a b ++ b'\n' ∷ []) runes,
            shell_lines-spaced a b [] ra rb,
            delete_spaces-spaced a b ra rb,
            matches_name-nonempty (a ++ b) joined,
            joined,
          )
          (unfold shell_lines in run_operation-packages op ((a ++ b) ∷ []) known refl),
    )
