-- ===== src/Update/Unit.antt =====
-- `sanitizeSystemdUnitComponent`: a part of the name of a systemd unit.
use noderax_agent.Prelude.{
  ℕ, zero, suc, ◌≤◌, ◌≡◌, refl, inl, inr, Bool, true, false, ◌&&◌, ◌||◌, [], ◌∷◌, arith, ltb, leb,
  ◌==◌, if◌then◌else◌, Bool-cases, length, take, length-take, All, Text, codes, is_empty, trim_left,
  trim_right, trim_space, to_lower,
}

unfoldable pub is_unit_rune : ℕ → Bool
is_unit_rune c = leb b'a' c && leb c b'z' || leb b'0' c && leb c b'9'

-- The loop over the runes.
unfoldable pub dashed : Text → Text
dashed [] = []
dashed (c ∷ s) = (if is_unit_rune c then c else b'-') ∷ dashed s

-- `strings.Trim(s, "-")`.
abbrev pub trim_dashes : Text → Text
trim_dashes s = trim_right (λ c. c == b'-') (trim_left (λ c. c == b'-') s)

-- `strings.ReplaceAll(s, "--", "-")`, one pass from the left. The flag is set behind a first dash.
unfoldable pub join_dashes : Bool → Text → Text
join_dashes false [] = []
join_dashes true [] = b'-' ∷ []
join_dashes false (c ∷ s) =
    let rest = join_dashes false s in
    let waiting = join_dashes true s in if c == b'-' then waiting else c ∷ rest
join_dashes true (c ∷ s) =
    let rest = join_dashes false s in if c == b'-' then b'-' ∷ rest else b'-' ∷ c ∷ rest

abbrev pub cut_unit : Text → Text
cut_unit cleaned =
    if is_empty cleaned
    then codes "unknown"
    else if ltb 48 (length cleaned)
    then take 48 cleaned
    else cleaned

unfoldable pub sanitize_systemd_unit_component : Text → Text
unfolding dashed join_dashes
sanitize_systemd_unit_component value =
    let s = trim_space (to_lower value) in
    if is_empty s then codes "unknown" else cut_unit (join_dashes false (trim_dashes (dashed s)))

-- A rune of a unit name, or a dash.
abbrev pub IsUnitRune : ℕ → Type 0
IsUnitRune c = (is_unit_rune c || c == b'-') ≡ true

dashed-All : (s : Text) → All IsUnitRune (dashed s)
unfolding dashed
dashed-All [] = tt
dashed-All (c ∷ s) = (ground arith, dashed-All s)

module _ (P : ℕ → Type 0) where
  trim_left-All : (cut : ℕ → Bool) (s : Text) → All P s → All P (trim_left cut s)
  unfolding trim_left
  trim_left-All cut [] a = a
  trim_left-All cut (c ∷ s) (p, a) = elim (Bool-cases (cut c)) [
    | inl h ↦ rw h (trim_left-All cut s a)
    | inr h ↦ rw h (p, a)
  ]

  trim_right-All : (cut : ℕ → Bool) (s : Text) → All P s → All P (trim_right cut s)
  unfolding trim_right
  trim_right-All cut [] a = a
  trim_right-All cut (c ∷ s) (p, a) = elim (Bool-cases (cut c && is_empty (trim_right cut s))) [
    | inl h ↦ rw h tt
    | inr h ↦ rw h (p, trim_right-All cut s a)
  ]

  take-All : (n : ℕ) (s : Text) → All P s → All P (take n s)
  take-All zero s a = tt
  take-All (suc n) [] a = tt
  take-All (suc n) (c ∷ s) (p, a) = (p, take-All n s a)

join_dashes-All : (b : Bool) (s : Text) → All IsUnitRune s → All IsUnitRune (join_dashes b s)
unfolding join_dashes is_unit_rune
join_dashes-All false [] a = tt
join_dashes-All true [] a = (refl, tt)
join_dashes-All false (c ∷ s) (p, a) = elim (Bool-cases (c == b'-')) [
  | inl h ↦ rw h (join_dashes-All true s a)
  | inr h ↦ rw h (p, join_dashes-All false s a)
]
join_dashes-All true (c ∷ s) (p, a) = elim (Bool-cases (c == b'-')) [
  | inl h ↦ rw h (refl, join_dashes-All false s a)
  | inr h ↦ rw h (refl, (p, join_dashes-All false s a))
]

-- The first rune is no dash.
abbrev Starts : Text → Type 0
Starts [] = Unit
Starts (c ∷ s) = (c == b'-') ≡ false

trim_left-Starts : (s : Text) → Starts (trim_left (λ c. c == b'-') s)
unfolding trim_left
trim_left-Starts [] = tt
trim_left-Starts (c ∷ s) = elim (Bool-cases (c == b'-')) [
  | inl h ↦ rw h (trim_left-Starts s)
  | inr h ↦ rw h h
]

trim_right-Starts : (s : Text) → Starts s → Starts (trim_right (λ c. c == b'-') s)
unfolding trim_right
trim_right-Starts [] a = tt
trim_right-Starts (c ∷ s) a = rw a a

join_dashes-Starts : (s : Text) → Starts s → Starts (join_dashes false s)
unfolding join_dashes
join_dashes-Starts [] a = tt
join_dashes-Starts (c ∷ s) a = rw a a

take-Starts : (n : ℕ) (s : Text) → Starts s → Starts (take n s)
take-Starts zero s a = tt
take-Starts (suc n) [] a = tt
take-Starts (suc n) (c ∷ s) a = a

-- A part of a unit name: its first rune is a letter or a digit, and it has at most 48 runes, which are
-- lower-case letters, digits and dashes.
pub record IsUnit (s : Text) : Type 0 where
  pub not_empty : is_empty s ≡ false
  pub starts : Starts s
  pub within : length s ≤ 48
  pub runes : All IsUnitRune s

unknown-IsUnit : IsUnit (codes "unknown")
unfolding is_unit_rune
unknown-IsUnit = record {
  not_empty = refl;
  starts = refl;
  within = omega arith;
  runes = (refl, (refl, (refl, (refl, (refl, (refl, (refl, tt)))))));
}

cut_unit-IsUnit : (s : Text) → Starts s → All IsUnitRune s → IsUnit (cut_unit s)
cut_unit-IsUnit [] a r = unknown-IsUnit
cut_unit-IsUnit (c ∷ s) a r = elim (Bool-cases (ltb 48 (length (c ∷ s)))) [
  | inl long ↦ rw long (record {
    not_empty = refl;
    starts = a;
    within = omega (arith, length-take 48 (c ∷ s));
    runes = take-All IsUnitRune 48 (c ∷ s) r;
  })
  | inr fits ↦ rw fits (record { not_empty = refl; starts = a; within = ground arith; runes = r })
]

-- Whatever the ID of the update is, the name of its unit ends in a part that starts with a lower-case
-- letter or a digit and has at most 48 runes, each a lower-case letter, a digit or a dash.
pub sanitize_systemd_unit_component-IsUnit :
    (value : Text) → IsUnit (sanitize_systemd_unit_component value)
unfolding sanitize_systemd_unit_component
sanitize_systemd_unit_component-IsUnit value =
    let s = trim_space (to_lower value) in
    let cut = λ (c : ℕ). c == b'-' in
    elim (Bool-cases (is_empty s)) [
      | inl blank ↦ rw blank unknown-IsUnit
      | inr given ↦ rw given (
          cut_unit-IsUnit (join_dashes false (trim_dashes (dashed s)))
            (join_dashes-Starts (trim_dashes (dashed s))
              (trim_right-Starts (trim_left cut (dashed s)) (trim_left-Starts (dashed s))))
            (join_dashes-All false (trim_dashes (dashed s)) (
              trim_right-All IsUnitRune cut (trim_left cut (dashed s))
                (trim_left-All IsUnitRune cut (dashed s) (dashed-All s)))))
    ]
