-- ===== src/Tasks/Executor/Helper.antt =====
-- The package request through the helper script.
pub mod Spaces
use noderax_agent.Prelude.{
  ◌≡◌, refl, subst, ◌⊎◌, inl, inr, Bool, true, false, not, List, [], ◌∷◌, ◌++◌, arith, ◌==◌,
  if◌then◌else◌, Bool-cases, drop, All, Text, codes, is_empty, text_eq, text_eq-eq, is_space,
  trim_left, trim_right, trim_space, Outcome, ok, err, ◌>>=◌, fail_if, >>=-eq-ok,
}
use noderax_agent.Tasks.Executor.Requests.{
  package_lines, package_request, shell_lines, push_rune, delete_spaces, all_name_runes,
  matches_name, HelperError, no_packages, missing_apt_get, first_line, read_packages, run_operation,
  package_helper,
}

-- The operations that take packages.
abbrev pub operations : List Text
operations = codes "install" ∷ codes "remove" ∷ codes "purge" ∷ []

abbrev pub IsOperation : Text → Type 0
IsOperation op = (op ≡ codes "install") ⊎ ((op ≡ codes "remove") ⊎ (op ≡ codes "purge"))

-- The runes of a name are no space.
delete_spaces-name : (s : Text) → all_name_runes s ≡ true → delete_spaces s ≡ s
unfolding all_name_runes delete_spaces
delete_spaces-name [] h = refl
delete_spaces-name (c ∷ s) h = ground (arith, delete_spaces-name s)

matches_name-runes : (s : Text) → matches_name s ≡ true → all_name_runes s ≡ true
unfolding matches_name all_name_runes
matches_name-runes [] h = refl
matches_name-runes (c ∷ s) h = ground arith

trim_left-name : (s : Text) → all_name_runes s ≡ true → trim_left is_space s ≡ s
unfolding all_name_runes trim_left is_space
trim_left-name [] h = refl
trim_left-name (c ∷ s) h = ground arith

trim_right-name : (s : Text) → all_name_runes s ≡ true → trim_right is_space s ≡ s
unfolding all_name_runes trim_right is_space
trim_right-name [] h = refl
trim_right-name (c ∷ s) h = ground (arith, trim_right-name s)

trim_space-name : (s : Text) → all_name_runes s ≡ true → trim_space s ≡ s
unfolding trim_space
trim_space-name s h = rw (trim_right-name s h, trim_left-name s h)

-- A line without a newline is read as it is.
shell_lines-line :
    (s t : Text) → all_name_runes s ≡ true → shell_lines (s ++ b'\n' ∷ t) ≡ s ∷ shell_lines t
unfolding shell_lines all_name_runes push_rune
shell_lines-line [] t h = refl
shell_lines-line (c ∷ s) t h =
    let other : (c == b'\n') ≡ false = ground arith in
    let rest : all_name_runes s ≡ true = ground arith in rw (shell_lines-line s t rest, other)

matches_name-nonempty : (s : Text) → matches_name s ≡ true → is_empty s ≡ false
unfolding matches_name
matches_name-nonempty [] h = cc
matches_name-nonempty (c ∷ s) h = refl

read_packages-package_lines :
    (names : List Text)
    → All (λ n. matches_name n ≡ true) names
    → read_packages (shell_lines (package_lines names)) ≡ ok names
unfolding package_lines read_packages
read_packages-package_lines [] h = unfold shell_lines in refl
read_packages-package_lines (name ∷ names) h =
    let runes = matches_name-runes name h.0 in
    let trimmed = trim_space-name name runes in
    let full = matches_name-nonempty name h.0 in
    rw (
      trimmed,
      full,
      shell_lines-line name (package_lines names) runes,
      delete_spaces-name name runes,
      full,
      h.0,
      read_packages-package_lines names h.1,
    )

IsOperation-runes : (op : Text) → IsOperation op → all_name_runes op ≡ true
unfolding all_name_runes
IsOperation-runes op (inl e) = rw e
IsOperation-runes op (inr (inl e)) = rw e
IsOperation-runes op (inr (inr e)) = rw e

run_operation-packages :
    (op : Text) (names : List Text)
    → IsOperation op
    → is_empty names ≡ false
    → run_operation op names ≡ ok (op, names)
unfolding run_operation text_eq
run_operation-packages op names (inl e) h = rw (e, h)
run_operation-packages op names (inr (inl e)) h = rw (e, h)
run_operation-packages op names (inr (inr e)) h = rw (e, h)

-- The request that the executor writes for an install, remove or purge of at least one package,
-- each of whose names starts with a letter or a digit and has only the runes of package names,
-- makes the helper run that operation on those packages, in order.
pub package_helper-package_request :
    (op : Text) (names : List Text)
    → IsOperation op
    → is_empty names ≡ false
    → All (λ n. matches_name n ≡ true) names
    → package_helper true (package_request op names) ≡ ok (op, names)
unfolding package_helper package_request
package_helper-package_request op names known full good =
    let runes = IsOperation-runes op known in
    rw
      (
        trim_space-name op runes,
        shell_lines-line op (package_lines names) runes,
        read_packages-package_lines names good,
      )
      (run_operation-packages op names known full)

-- What the helper runs, whatever is in the file.
abbrev pub Runs : Text × List Text → Type 0
Runs (op, pkgs) =
    ((op ≡ codes "update") × (pkgs ≡ []))
    ⊎ (IsOperation op × (is_empty pkgs ≡ false) × All (λ n. matches_name n ≡ true) pkgs)

read_packages_ok :
    (lines pkgs : List Text) → read_packages lines ≡ ok pkgs → All (λ n. matches_name n ≡ true) pkgs
unfolding read_packages
read_packages_ok [] [] e = tt
read_packages_ok [] (p ∷ ps) e = cc
read_packages_ok (line ∷ lines) pkgs e = elim (Bool-cases (is_empty (delete_spaces line))) [
  | inl blank ↦ read_packages_ok lines pkgs (simp blank at e)
  | inr full ↦ elim (Bool-cases (matches_name (delete_spaces line))) [
    | inr bad ↦ cc (simp (full, bad) at e)
    | inl good ↦
        let (rest, rest_eq, e') =
          >>=-eq-ok (read_packages lines) (λ ps. ok (delete_spaces line ∷ ps))
            (simp (full, good) at e) in
        subst (All (λ n. matches_name n ≡ true)) (ok_eq _ _ e')
          (good, read_packages_ok lines rest rest_eq)
  ]
]
  where
    ok_eq : (a b : List Text) → ◌≡◌ {A = Outcome HelperError (List Text)} (ok a) (ok b) → a ≡ b
    ok_eq a b h = cc

ok_injective :
    (a b : Text × List Text)
    → ◌≡◌ {A = Outcome HelperError (Text × List Text)} (ok a) (ok b)
    → a ≡ b
ok_injective a b h = cc

with_packages :
    (op : Text) (pkgs : List Text) (r : Text × List Text)
    → IsOperation op
    → All (λ n. matches_name n ≡ true) pkgs
    → ◌≡◌ {A = Outcome HelperError (Text × List Text)}
        (if is_empty pkgs then err no_packages else ok (op, pkgs))
        (ok r)
    → Runs r
with_packages op pkgs r known good e = elim (Bool-cases (is_empty pkgs)) [
  | inl none_left ↦ cc (rw none_left at e)
  | inr full ↦ subst Runs (ok_injective (op, pkgs) r (rw full at e)) (inr (known, full, good))
]

run_operation-Runs :
    (op : Text) (pkgs : List Text) (r : Text × List Text)
    → All (λ n. matches_name n ≡ true) pkgs
    → run_operation op pkgs ≡ ok r
    → Runs r
unfolding run_operation
run_operation-Runs op pkgs r good e = elim (Bool-cases (text_eq op (codes "update"))) [
  | inl u ↦
      subst Runs (ok_injective (op, []) r (rw u at e))
        (inl (text_eq-eq op (codes "update") u, refl))
  | inr u ↦ elim (Bool-cases (text_eq op (codes "install"))) [
    | inl i ↦
        with_packages op pkgs r (inl (text_eq-eq op (codes "install") i)) good (rw (u, i) at e)
    | inr i ↦ elim (Bool-cases (text_eq op (codes "remove"))) [
      | inl m ↦
          with_packages op pkgs r (inr (inl (text_eq-eq op (codes "remove") m))) good
            (rw (u, i, m) at e)
      | inr m ↦ elim (Bool-cases (text_eq op (codes "purge"))) [
        | inl p ↦
            with_packages op pkgs r (inr (inr (text_eq-eq op (codes "purge") p))) good
              (rw (u, i, m, p) at e)
        | inr p ↦ cc (rw (u, i, m, p) at e)
      ]
    ]
  ]
]

-- Whatever is in the request file, a package helper that runs apt-get runs an update, or one of
-- install, remove and purge on at least one package, and each name it passes on starts with a
-- letter or a digit and has only runes of package names.
pub package_helper-Runs :
    (has_apt_get : Bool) (request : Text) (r : Text × List Text)
    → package_helper has_apt_get request ≡ ok r
    → Runs r
unfolding package_helper
package_helper-Runs has_apt_get request r e =
    let (pkgs, pkgs_eq, e') =
      >>=-eq-ok (read_packages (drop 1 (shell_lines request)))
        (λ pkgs. fail_if (not has_apt_get) missing_apt_get >>= λ _.
          run_operation (first_line (shell_lines request)) pkgs)
        e in
    let good = read_packages_ok (drop 1 (shell_lines request)) pkgs pkgs_eq in
    elim (Bool-cases has_apt_get) [
      | inl there ↦
          run_operation-Runs (first_line (shell_lines request)) pkgs r good (simp there at e')
      | inr gone ↦ cc (simp gone at e')
    ]
