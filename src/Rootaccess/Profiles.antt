-- ===== src/Rootaccess/Profiles.antt =====
-- The capabilities of the root access profiles of internal/rootaccess/manager.go and internal/api/types.go.
use noderax_agent.Prelude.{
  ◌≡◌, refl, ◌≢◌, Bool, true, false, ◌&&◌, ◌||◌, List, [], ◌∷◌, ◌++◌, arith, if◌then◌else◌, Text,
  codes, is_empty, text_eq, text_eq_iff, join,
}

abbrev pub profile_off : Text
profile_off = codes "off"

abbrev pub profile_operational : Text
profile_operational = codes "operational"

abbrev pub profile_task : Text
profile_task = codes "task"

abbrev pub profile_terminal : Text
profile_terminal = codes "terminal"

abbrev pub profile_operational_task : Text
profile_operational_task = codes "operational_task"

abbrev pub profile_operational_terminal : Text
profile_operational_terminal = codes "operational_terminal"

abbrev pub profile_task_terminal : Text
profile_task_terminal = codes "task_terminal"

abbrev pub profile_all : Text
profile_all = codes "all"

unfoldable pub profile_allows_operational : Text → Bool
profile_allows_operational profile =
    text_eq profile profile_operational
    || text_eq profile profile_operational_task
    || text_eq profile profile_operational_terminal
    || text_eq profile profile_all

unfoldable pub profile_allows_task : Text → Bool
profile_allows_task profile =
    text_eq profile profile_task
    || text_eq profile profile_operational_task
    || text_eq profile profile_task_terminal
    || text_eq profile profile_all

unfoldable pub profile_allows_terminal : Text → Bool
profile_allows_terminal profile =
    text_eq profile profile_terminal
    || text_eq profile profile_operational_terminal
    || text_eq profile profile_task_terminal
    || text_eq profile profile_all

-- A set of capabilities, and the profile that stands for it: `off` for none, `all` for all, and
-- else the names of the capabilities with `_` between them.
pub record Capabilities : Type 0 where
  pub operational : Bool
  pub task : Bool
  pub terminal : Bool

abbrev named_if : Bool → Text → List Text
named_if true name = name ∷ []
named_if false name = []

abbrev pub names : Capabilities → List Text
names c =
    named_if c.operational (codes "operational")
    ++ named_if c.task (codes "task")
    ++ named_if c.terminal (codes "terminal")

unfoldable pub profile_name : Capabilities → Text
unfolding join
profile_name c =
    if is_empty (names c)
    then codes "off"
    else if c.operational && c.task && c.terminal
    then codes "all"
    else join (names c) (codes "_")

-- The tables of the program agree with the names.
pub profile_allows-profile_name :
    (c : Capabilities)
    → (profile_allows_operational (profile_name c) ≡ c.operational)
      × (profile_allows_task (profile_name c) ≡ c.task)
      × (profile_allows_terminal (profile_name c) ≡ c.terminal)
unfolding profile_allows_operational profile_allows_task profile_allows_terminal profile_name
    text_eq
profile_allows-profile_name c = by_flags c.operational c.task c.terminal
  where
    caps : Bool → Bool → Bool → Capabilities
    caps o t e = record { operational = o; task = t; terminal = e }

    by_flags :
        (o t e : Bool)
        → (profile_allows_operational (profile_name (caps o t e)) ≡ o)
          × (profile_allows_task (profile_name (caps o t e)) ≡ t)
          × (profile_allows_terminal (profile_name (caps o t e)) ≡ e)
    by_flags false false false = (refl, refl, refl)
    by_flags false false true = (refl, refl, refl)
    by_flags false true false = (refl, refl, refl)
    by_flags false true true = (refl, refl, refl)
    by_flags true false false = (refl, refl, refl)
    by_flags true false true = (refl, refl, refl)
    by_flags true true false = (refl, refl, refl)
    by_flags true true true = (refl, refl, refl)

-- A profile with another name allows nothing.
pub profile_allows_unknown :
    (profile : Text)
    → ((c : Capabilities) → profile ≢ profile_name c)
    → (profile_allows_operational profile ≡ false)
      × (profile_allows_task profile ≡ false)
      × (profile_allows_terminal profile ≡ false)
unfolding profile_allows_operational profile_allows_task profile_allows_terminal profile_name
profile_allows_unknown profile other =
    let is_not : (o t e : Bool)
        → text_eq profile (profile_name (record { operational = o; task = t; terminal = e }))
          ≡ false =
      λ o t e. ground (
        arith,
        text_eq_iff profile (profile_name (record { operational = o; task = t; terminal = e })),
        other (record { operational = o; task = t; terminal = e }),
      ) in
    let a = is_not true false false in
    let b = is_not false true false in
    let c = is_not false false true in
    let d = is_not true true false in
    let e = is_not true false true in
    let f = is_not false true true in
    let g = is_not true true true in (simp (a, d, e, g), simp (b, d, f, g), simp (c, e, f, g))
