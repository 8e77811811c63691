-- ===== src/Terminal/Shells/Choice.antt =====
-- `dedupeShellCandidates` and the two choices made with it: what they offer.
use noderax_agent.Prelude.{
  ◌≡◌, refl, ◌⊎◌, inl, inr, true, false, Option, none, some, List, [], ◌∷◌, ◌++◌, arith, Bool-cases,
  Option-cases, All, All-append, Text, codes, is_empty, text_eq_refl, trim_space, has_prefix,
}
use noderax_agent.Terminal.Shells.{
  ShellHost, supported_root_shell_paths, supported_root_shell_names, resolve, member, add_resolved,
  dedupe_from, dedupe_shell_candidates, look_paths, select_root_shell_candidates,
  select_shell_candidates,
}
use noderax_agent.Terminal.Shells.Paths.{
  NoRepeats, member-append, NoRepeats-append, All-member, All-split, All-zip,
}

-- A path that some candidate stands for.
abbrev pub Resolved : ShellHost → Text → Type 0
Resolved h path = (candidate : Text) × (resolve h candidate ≡ some path)

-- A candidate that stands for nothing, or for a path of the list.
abbrev pub Kept : ShellHost → List Text → Text → Type 0
Kept h out candidate =
    (resolve h candidate ≡ none)
    ⊎ ((path : Text) × (resolve h candidate ≡ some path) × (member path out ≡ true))

abbrev pub first : List Text → Option Text
first [] = none
first (x ∷ xs) = some x

NoRepeats-add_resolved :
    (out : List Text) (found : Option Text) → NoRepeats out → NoRepeats (add_resolved out found)
unfolding add_resolved
NoRepeats-add_resolved out none n = n
NoRepeats-add_resolved out (some path) n = elim (Bool-cases (member path out)) [
  | inl e ↦ rw e n
  | inr e ↦ rw e (NoRepeats-append out path n e)
]

NoRepeats-dedupe_from :
    (h : ShellHost) (out candidates : List Text)
    → NoRepeats out
    → NoRepeats (dedupe_from h out candidates)
unfolding dedupe_from
NoRepeats-dedupe_from h out [] n = n
NoRepeats-dedupe_from h out (c ∷ cs) n =
    NoRepeats-dedupe_from h (add_resolved out (resolve h c)) cs
      (NoRepeats-add_resolved out (resolve h c) n)

member-add_resolved :
    (x : Text) (out : List Text) (found : Option Text)
    → member x out ≡ true
    → member x (add_resolved out found) ≡ true
unfolding add_resolved
member-add_resolved x out none m = m
member-add_resolved x out (some path) m = ground (arith, member-append x out (path ∷ []))

member-dedupe_from :
    (h : ShellHost) (x : Text) (out candidates : List Text)
    → member x out ≡ true
    → member x (dedupe_from h out candidates) ≡ true
unfolding dedupe_from
member-dedupe_from h x out [] m = m
member-dedupe_from h x out (c ∷ cs) m =
    member-dedupe_from h x (add_resolved out (resolve h c)) cs
      (member-add_resolved x out (resolve h c) m)

member_added : (path : Text) (out : List Text) → member path (add_resolved out (some path)) ≡ true
unfolding add_resolved member
member_added path out = ground (arith, member-append path out (path ∷ []), text_eq_refl path)

Kept-dedupe_from :
    (h : ShellHost) (out candidates : List Text)
    → All (Kept h (dedupe_from h out candidates)) candidates
unfolding dedupe_from
Kept-dedupe_from h out [] = tt
Kept-dedupe_from h out (c ∷ cs) = (
  elim (Option-cases (resolve h c)) [
    | inl e ↦ inl e
    | inr (path, e) ↦ inr (
      path,
      e,
      member-dedupe_from h path (add_resolved out (resolve h c)) cs (rw e (member_added path out)),
    )
  ],
  Kept-dedupe_from h (add_resolved out (resolve h c)) cs,
)

Resolved-dedupe_from :
    (h : ShellHost) (out candidates : List Text)
    → All (Resolved h) out
    → All (Resolved h) (dedupe_from h out candidates)
unfolding dedupe_from add_resolved
Resolved-dedupe_from h out [] a = a
Resolved-dedupe_from h out (c ∷ cs) a = elim (Option-cases (resolve h c)) [
  | inl e ↦ rw e (Resolved-dedupe_from h out cs a)
  | inr (path, e) ↦ rw e (elim (Bool-cases (member path out)) [
    | inl m ↦ rw m (Resolved-dedupe_from h out cs a)
    | inr m ↦ rw m (
        Resolved-dedupe_from h (out ++ path ∷ []) cs
          (All-append (Resolved h) out (path ∷ []) a ((c, e), tt)))
  ])
]

-- What is first stays first.
first-dedupe_from :
    (h : ShellHost) (x : Text) (out candidates : List Text)
    → first (dedupe_from h (x ∷ out) candidates) ≡ some x
unfolding dedupe_from add_resolved
first-dedupe_from h x out [] = refl
first-dedupe_from h x out (c ∷ cs) = elim (Option-cases (resolve h c)) [
  | inl e ↦ rw e (first-dedupe_from h x out cs)
  | inr (path, e) ↦ rw e (elim (Bool-cases (member path (x ∷ out))) [
    | inl m ↦ rw m (first-dedupe_from h x out cs)
    | inr m ↦ rw m (first-dedupe_from h x (out ++ path ∷ []) cs)
  ])
]

-- The first candidate comes first if it stands for a path.
first-dedupe_shell_candidates :
    (h : ShellHost) (c : Text) (cs : List Text)
    → (resolve h c ≡ none) ⊎ (first (dedupe_shell_candidates h (c ∷ cs)) ≡ resolve h c)
unfolding dedupe_shell_candidates dedupe_from add_resolved member
first-dedupe_shell_candidates h c cs = elim (Option-cases (resolve h c)) [
  | inl e ↦ inl e
  | inr (path, e) ↦ inr (rw e (first-dedupe_from h path [] cs))
]

-- A path of the list that stands for itself, wherever it stands for anything.
abbrev pub Offered : ShellHost → List Text → Text → Type 0
Offered h out path = (resolve h path ≡ none) ⊎ (member path out ≡ true)

-- No shell is tried twice, each is a path that the host has, the one of the user comes first, and
-- each supported path where there is a file is among them.
pub record IsChoice (h : ShellHost) (out : List Text) : Type 0 where
  pub no_repeats : NoRepeats out
  pub resolved : All (Resolved h) out
  pub user_first :
      (resolve h (trim_space h.shell) ≡ none) ⊎ (first out ≡ resolve h (trim_space h.shell))
  pub supported : All (Offered h out) supported_root_shell_paths

Absolute : Text → Type 0
Absolute path = (is_empty path ≡ false) × (has_prefix path (codes "/") ≡ true)

resolve-Absolute :
    (h : ShellHost) (path : Text)
    → Absolute path
    → (resolve h path ≡ none) ⊎ (resolve h path ≡ some path)
unfolding Absolute resolve
resolve-Absolute h path (n, a) = rw n (
    rw a (elim (Option-cases (h.stat path)) [
      | inl e ↦ inl (rw e refl)
      | inr (true, e) ↦ inl (rw e refl)
      | inr (false, e) ↦ inr (rw e refl)
    ]))

supported_root_shell_paths-Absolute : All Absolute supported_root_shell_paths
unfolding Absolute has_prefix
supported_root_shell_paths-Absolute = (
  (refl, refl),
  ((refl, refl), ((refl, refl), ((refl, refl), ((refl, refl), ((refl, refl), tt))))),
)

member-Kept :
    (h : ShellHost) (out : List Text) (path : Text)
    → resolve h path ≡ some path
    → Kept h out path
    → member path out ≡ true
member-Kept h out path e (inl e') = cc
member-Kept h out path e (inr (p, e', m)) = cc

-- A path that the first choice keeps, and whose choice the second keeps, is offered by the second.
Offered-Kept :
    (h : ShellHost) (root out : List Text)
    → All (Kept h out) root
    → (path : Text) → Absolute path
    → Kept h root path
    → Offered h out path
Offered-Kept h root out ks path a k = elim (resolve-Absolute h path a) [
  | inl e ↦ inl e
  | inr e ↦ inr (
      member-Kept h out path e (All-member (Kept h out) path root ks (member-Kept h root path e k)))
]

-- On every host, the choice of shells has no path twice; each path is one that a name or an
-- absolute path stands for; the shell of the environment comes first if it stands for a path; and
-- each of the six supported paths is there if it is a file.
pub select_shell_candidates-IsChoice : (h : ShellHost) → IsChoice h (select_shell_candidates h)
unfolding select_shell_candidates select_root_shell_candidates dedupe_shell_candidates
select_shell_candidates-IsChoice h =
    let names = look_paths h supported_root_shell_names ++ supported_root_shell_paths in
    let root = dedupe_shell_candidates h names in
    let user = trim_space h.shell in
    record {
      no_repeats = NoRepeats-dedupe_from h [] (user ∷ root) tt;
      resolved = Resolved-dedupe_from h [] (user ∷ root) tt;
      user_first = first-dedupe_shell_candidates h user root;
      supported =
          All-zip Absolute (Kept h root) (Offered h (select_shell_candidates h))
            supported_root_shell_paths
            (Offered-Kept h root (select_shell_candidates h)
              (Kept-dedupe_from h [] (user ∷ root)).1)
            supported_root_shell_paths-Absolute
            (All-split (Kept h root) (look_paths h supported_root_shell_names)
              supported_root_shell_paths (Kept-dedupe_from h [] names));
    }
