-- ===== src/Prelude/Strings.antt =====
-- Go strings and the functions of package `strings` that the agent calls. A text is the list of its
-- runes; where a component counts bytes it says so.
use Prim.Native.Nat.{ℕ, zero, suc, ◌+◌, ◌-◌, ◌*◌, ◌/◌, ◌%◌, ◌^◌}
use Prim.Native.Char.{code}
use Prim.Native.String.{String}
use mathlib.Core.Path.{◌≡◌, refl}
use mathlib.Core.Logic.{◌↔◌, ◌≢◌, inl, inr}
use mathlib.Core.Bool.{Bool, true, false, ◌&&◌, ◌||◌}
use mathlib.Core.List.{List, [], ◌∷◌, ◌++◌}
use mathlib.Core.Option.{Option, none, some}
use native.Mathlib.Omega.{arith}
use noderax_agent.Prelude.Int.{ℤ, pos, negsuc}
use noderax_agent.Prelude.Tests.{ltb, leb, ◌==◌, if◌then◌else◌, Bool-cases}

abbrev pub Text : Type 0
Text = List ℕ

-- The runes of a literal.
abbrev pub codes : String → Text
codes String.[] = []
codes (String.◌∷◌ c s) = code c ∷ codes s

abbrev pub is_empty {ℓ} : {A : Type ℓ} → List A → Bool
is_empty [] = true
is_empty (x ∷ xs) = false

unfoldable pub text_eq : Text → Text → Bool
text_eq [] [] = true
text_eq [] (y ∷ ys) = false
text_eq (x ∷ xs) [] = false
text_eq (x ∷ xs) (y ∷ ys) = x == y && text_eq xs ys

pub text_eq_refl : (s : Text) → text_eq s s ≡ true
unfolding text_eq
text_eq_refl [] = refl
text_eq_refl (x ∷ s) = ground (arith, text_eq_refl s)

pub text_eq-eq : (s t : Text) → text_eq s t ≡ true → s ≡ t
unfolding text_eq
text_eq-eq [] [] h = refl
text_eq-eq [] (y ∷ t) h = cc
text_eq-eq (x ∷ s) [] h = cc
text_eq-eq (x ∷ s) (y ∷ t) h = ground (arith, text_eq-eq s t)

pub text_eq_iff : (s t : Text) → (text_eq s t ≡ true) ↔ (s ≡ t)
text_eq_iff s t = (text_eq-eq s t, λ p. rw p (text_eq_refl t))

pub text_eq_comm : (s t : Text) → text_eq s t ≡ text_eq t s
text_eq_comm s t = ground (arith, text_eq_iff s t, text_eq_iff t s)

pub text_eq_ne : (s t : Text) → text_eq s t ≡ false → s ≢ t
text_eq_ne s t e h = ground (arith, text_eq_iff s t)

-- `unicode.IsSpace`.
unfoldable pub is_space : ℕ → Bool
is_space c =
    leb 9 c && leb c 13
    || c == 32
    || c == 0x85
    || c == 0xA0
    || c == 0x1680
    || leb 0x2000 c && leb c 0x200A
    || c == 0x2028
    || c == 0x2029
    || c == 0x202F
    || c == 0x205F
    || c == 0x3000

-- `strings.TrimLeftFunc` and `strings.TrimRightFunc`.
module _ (cut : ℕ → Bool) where
  unfoldable pub trim_left : Text → Text
  trim_left [] = []
  trim_left (c ∷ s) = if cut c then trim_left s else c ∷ s

  unfoldable pub trim_right : Text → Text
  trim_right [] = []
  trim_right (c ∷ s) = let r = trim_right s in if cut c && is_empty r then [] else c ∷ r

  pub trim_left_idem : (s : Text) → trim_left (trim_left s) ≡ trim_left s
  unfolding trim_left
  trim_left_idem [] = refl
  trim_left_idem (c ∷ s) = elim (Bool-cases (cut c)) [
    | inl h ↦ rw h (trim_left_idem s)
    | inr h ↦ simp h
  ]

  pub trim_right_idem : (s : Text) → trim_right (trim_right s) ≡ trim_right s
  unfolding trim_right
  trim_right_idem [] = refl
  trim_right_idem (c ∷ s) = elim (Bool-cases (cut c && is_empty (trim_right s))) [
    | inl h ↦ rw h
    | inr h ↦ rw h (simp (trim_right_idem s, h))
  ]

  -- Trimming on the left commutes with trimming on the right.
  pub trim_left-right : (s : Text) → trim_left (trim_right s) ≡ trim_right (trim_left s)
  unfolding trim_left trim_right
  trim_left-right [] = refl
  trim_left-right (c ∷ s) = ground (arith, trim_left-right s)

-- `strings.TrimSpace`.
unfoldable pub trim_space : Text → Text
trim_space s = trim_left is_space (trim_right is_space s)

pub trim_space_idem : (s : Text) → trim_space (trim_space s) ≡ trim_space s
unfolding trim_space
trim_space_idem s = simp (trim_left-right, trim_left_idem, trim_right_idem)

-- A text with a rune that is no space is not blank.
trim_right-keeps :
    (s t : Text) (c : ℕ)
    → is_space c ≡ false
    → (r : Text) × (trim_right is_space (s ++ c ∷ t) ≡ s ++ c ∷ r)
unfolding trim_right
trim_right-keeps [] t c h = (trim_right is_space t, simp h)
trim_right-keeps (d ∷ s) t c h =
    let (r, e) = trim_right-keeps s t c h in (r, simp e (ground (arith, is_empty-append s c r)))
  where
    is_empty-append : (s : Text) (c : ℕ) (r : Text) → is_empty (s ++ c ∷ r) ≡ false
    is_empty-append [] c r = refl
    is_empty-append (d ∷ s) c r = refl

trim_left-keeps :
    (s t : Text) (c : ℕ) → is_space c ≡ false → is_empty (trim_left is_space (s ++ c ∷ t)) ≡ false
unfolding trim_left
trim_left-keeps [] t c h = simp h
trim_left-keeps (d ∷ s) t c h = elim (Bool-cases (is_space d)) [
  | inl e ↦ rw e (trim_left-keeps s t c h)
  | inr e ↦ rw e
]

pub trim_space-keeps :
    (s t : Text) (c : ℕ) → is_space c ≡ false → is_empty (trim_space (s ++ c ∷ t)) ≡ false
unfolding trim_space
trim_space-keeps s t c h = let (r, e) = trim_right-keeps s t c h in rw e (trim_left-keeps s r c h)

-- `strings.HasPrefix` and `strings.Contains`.
unfoldable pub has_prefix : Text → Text → Bool
has_prefix s [] = true
has_prefix [] (p ∷ ps) = false
has_prefix (c ∷ s) (p ∷ ps) = c == p && has_prefix s ps

unfoldable pub contains : Text → Text → Bool
unfolding has_prefix
contains [] p = has_prefix [] p
contains (c ∷ s) p = has_prefix (c ∷ s) p || contains s p

-- `unicode.ToLower`, exact wherever its result is an ASCII rune: U+0130 and U+212A are the runes
-- outside ASCII whose lower case is in ASCII. Other runes outside ASCII are left as they are.
unfoldable pub lower_rune : ℕ → ℕ
lower_rune c =
    if leb b'A' c && leb c b'Z'
    then c + 32
    else if c == 0x130
    then b'i'
    else if c == 0x212A
    then b'k'
    else c

-- `strings.ToLower`.
unfoldable pub to_lower : Text → Text
unfolding lower_rune
to_lower = mathlib.Core.List.map lower_rune

-- `strings.Fields`: the runs of runes that are no space.
push_word : Text → List Text → List Text
push_word [] rest = rest
push_word (c ∷ w) rest = (c ∷ w) ∷ rest

fields_from : Text → Text → List Text
unfolding push_word
fields_from w [] = push_word w []
fields_from w (c ∷ s) = elim (is_space c) [
  | true ↦ push_word w (fields_from [] s)
  | false ↦ fields_from (w ++ c ∷ []) s
]

unfoldable pub fields : Text → List Text
unfolding fields_from is_space
fields s = fields_from [] s

-- `strings.Join`.
unfoldable pub join : List Text → Text → Text
join [] sep = []
join (p ∷ []) sep = p
join (p ∷ q ∷ ps) sep = p ++ sep ++ join (q ∷ ps) sep

-- `strconv.Itoa` of a number. `n` digits are enough, for a number of `n`.
itoa_fuel : ℕ → ℕ → Text
itoa_fuel zero n = []
itoa_fuel (suc f) n =
    let front = itoa_fuel f (n / 10) in
    if ltb n 10 then (b'0' + n) ∷ [] else front ++ (b'0' + n % 10) ∷ []

unfoldable pub itoa : ℕ → Text
unfolding itoa_fuel
itoa n = itoa_fuel (suc n) n

itoa_120 : itoa 120 ≡ codes "120"
unfolding itoa
itoa_120 = refl

-- `strconv.ParseInt(s, 10, 64)`: a sign, digits, and no overflow of an int64.
digits_value : Text → ℕ → Option ℕ
digits_value [] n = some n
digits_value (c ∷ s) n =
    let rest = digits_value s (n * 10 + (c - b'0')) in
    if leb b'0' c && leb c b'9' then rest else none

unsigned_value : Text → Option ℕ
unsigned_value [] = none
unsigned_value (c ∷ s) = digits_value (c ∷ s) 0

in_int64 : Bool → Option ℕ → Option ℤ
in_int64 negative none = none
in_int64 false (some n) = if ltb n (2 ^ 63) then some (pos n) else none
in_int64 true (some zero) = some (pos 0)
in_int64 true (some (suc n)) = if ltb n (2 ^ 63) then some (negsuc n) else none

unfoldable pub parse_int64 : Text → Option ℤ
unfolding in_int64 unsigned_value digits_value
parse_int64 [] = none
parse_int64 (c ∷ s) =
    if c == b'-'
    then in_int64 true (unsigned_value s)
    else if c == b'+'
    then in_int64 false (unsigned_value s)
    else in_int64 false (unsigned_value (c ∷ s))

parse_int64_tests :
    (parse_int64 (codes "-42") ≡ some (negsuc 41))
    × (parse_int64 (codes "9223372036854775808") ≡ none)
unfolding parse_int64
parse_int64_tests = (refl, refl)
