-- ===== src/Tasks/Executor/Packages.antt =====
-- The package names of a request.
use noderax_agent.Prelude.{
  ◌≡◌, refl, sym, ap, ◌∙◌, subst, inl, inr, false, List, [], ◌∷◌, ◌++◌, map, if◌then◌else◌,
  Bool-cases, All, Text, codes, is_empty, trim_space, has_prefix, Outcome, ok, err, ◌>>=◌, ◌>>◌,
  fail_if, >>=-eq-ok,
}
use noderax_agent.Tasks.Executor.Types.{
  PackageMutationPayload, TaskError, empty_package_name, empty_package_list, invalid_package_name,
}

abbrev pub dash : Text
dash = codes "-"

unfoldable pub raw_names : PackageMutationPayload → List Text
raw_names p = (if is_empty p.package_name then [] else p.package_name ∷ []) ++ p.packages ++ p.names

-- The loop over the raw names.
unfoldable pub normalize_each : List Text → Outcome TaskError (List Text)
normalize_each [] = ok []
normalize_each (raw ∷ raws) =
    let name = trim_space raw in
    let rest = normalize_each raws in
    if is_empty name
    then err empty_package_name
    else if has_prefix name dash
    then err (invalid_package_name name)
    else (rest >>= λ names. ok (name ∷ names))

unfoldable pub normalize_package_names : PackageMutationPayload → Outcome TaskError (List Text)
unfolding normalize_each raw_names
normalize_package_names payload = do
  packages ← normalize_each (raw_names payload)
  fail_if (is_empty packages) empty_package_list
  ok packages

-- A name that apt-get cannot read as an option.
pub record IsPackageName (name : Text) : Type 0 where
  pub named : is_empty name ≡ false
  pub plain : has_prefix name dash ≡ false

-- The names are accepted where each, trimmed, is a package name.
normalize_each_ok :
    (raws names : List Text)
    → normalize_each raws ≡ ok names
    → (names ≡ map trim_space raws) × All IsPackageName names
unfolding normalize_each
normalize_each_ok [] [] e = (refl, tt)
normalize_each_ok [] (n ∷ ns) e = cc
normalize_each_ok (raw ∷ raws) names e = elim (Bool-cases (is_empty (trim_space raw))) [
  | inl blank ↦ cc (rw blank at e)
  | inr named ↦ elim (Bool-cases (has_prefix (trim_space raw) dash)) [
    | inl option ↦ cc (rw (named, option) at e)
    | inr plain ↦
        let (rest, rest_eq, e') =
          >>=-eq-ok (normalize_each raws) (λ ns. ok (trim_space raw ∷ ns))
            (rw (named, plain) at e) in
        let (same, good) = normalize_each_ok raws rest rest_eq in
        let names_eq : trim_space raw ∷ rest ≡ names = ok_eq _ _ e' in
        (
          sym names_eq ∙ ap (◌∷◌ (trim_space raw)) same,
          subst (All IsPackageName) names_eq (record { named = named; plain = plain }, good),
        )
  ]
]
  where
    ok_eq : (a b : List Text) → ◌≡◌ {A = Outcome TaskError (List Text)} (ok a) (ok b) → a ≡ b
    ok_eq a b h = cc

normalize_each_accepts :
    (raws : List Text)
    → All (λ raw. IsPackageName (trim_space raw)) raws
    → normalize_each raws ≡ ok (map trim_space raws)
unfolding normalize_each
normalize_each_accepts [] h = refl
normalize_each_accepts (raw ∷ raws) h = simp (h.0.named, h.0.plain, normalize_each_accepts raws h.1)

-- The payload names at least one package, and each of its names, trimmed, is a package name.
pub record IsAcceptable (payload : PackageMutationPayload) : Type 0 where
  pub some_name : is_empty (raw_names payload) ≡ false
  pub all_good : All (λ raw. IsPackageName (trim_space raw)) (raw_names payload)

is_empty-map : (f : Text → Text) (xs : List Text) → is_empty (map f xs) ≡ is_empty xs
is_empty-map f [] = refl
is_empty-map f (x ∷ xs) = refl

pub normalize_package_names_ok :
    (payload : PackageMutationPayload) (names : List Text)
    → normalize_package_names payload ≡ ok names
    → (names ≡ map trim_space (raw_names payload))
      × (is_empty names ≡ false)
      × All IsPackageName names
unfolding normalize_package_names
normalize_package_names_ok payload names e =
    let (ps, ps_eq, e') =
      >>=-eq-ok (normalize_each (raw_names payload))
        (λ packages. fail_if (is_empty packages) empty_package_list >>= λ _. ok packages) e in
    let (same, good) = normalize_each_ok (raw_names payload) ps ps_eq in
    elim (Bool-cases (is_empty ps)) [
      | inl none_left ↦ cc (rw none_left at e')
      | inr some_left ↦
          let names_eq : ps ≡ names = ok_eq _ _ (rw some_left at e') in
          (
            sym names_eq ∙ same,
            ap is_empty (sym names_eq) ∙ some_left,
            subst (All IsPackageName) names_eq good,
          )
    ]
  where
    ok_eq : (a b : List Text) → ◌≡◌ {A = Outcome TaskError (List Text)} (ok a) (ok b) → a ≡ b
    ok_eq a b h = cc

pub normalize_package_names_accepts :
    (payload : PackageMutationPayload)
    → IsAcceptable payload
    → normalize_package_names payload ≡ ok (map trim_space (raw_names payload))
unfolding normalize_package_names
normalize_package_names_accepts payload a =
    rw
      (
        normalize_each_accepts (raw_names payload) a.all_good,
        is_empty-map trim_space (raw_names payload),
        a.some_name,
      )
      refl
