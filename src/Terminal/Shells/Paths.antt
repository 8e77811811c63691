-- ===== src/Terminal/Shells/Paths.antt =====
-- Lists of paths: those without repetitions, and properties of the paths of a list.
use noderax_agent.Prelude.{
  ◌≡◌, refl, sym, subst, inl, inr, true, false, ◌||◌, List, [], ◌∷◌, ◌++◌, arith, Bool-cases, All,
  Text, text_eq, text_eq_refl, text_eq-eq, text_eq_iff,
}
use noderax_agent.Terminal.Shells.{member}

-- No path stands twice in the list.
abbrev pub NoRepeats : List Text → Type 0
NoRepeats [] = Unit
NoRepeats (x ∷ xs) = (member x xs ≡ false) × NoRepeats xs

pub member-append :
    (x : Text) (xs ys : List Text) → member x (xs ++ ys) ≡ (member x xs || member x ys)
unfolding member
member-append x [] ys = refl
member-append x (y ∷ xs) ys = ground (arith, member-append x xs ys)

pub NoRepeats-append :
    (xs : List Text) (y : Text) → NoRepeats xs → member y xs ≡ false → NoRepeats (xs ++ y ∷ [])
unfolding member
NoRepeats-append [] y _ _ = (refl, tt)
NoRepeats-append (x ∷ xs) y (n, ns) h = (
  ground (arith, member-append x xs (y ∷ []), text_eq_iff x y, text_eq_iff y x, text_eq_refl x),
  NoRepeats-append xs y ns (ground arith),
)

pub All-member :
    (P : Text → Type 0) (x : Text) (xs : List Text) → All P xs → member x xs ≡ true → P x
unfolding member
All-member P x [] _ m = absurd (ground arith)
All-member P x (y ∷ ys) (p, ps) m = elim (Bool-cases (text_eq x y)) [
  | inl e ↦ subst P (sym (text_eq-eq x y e)) p
  | inr e ↦ All-member P x ys ps (ground arith)
]

pub All-split : (P : Text → Type 0) (xs ys : List Text) → All P (xs ++ ys) → All P ys
All-split P [] ys a = a
All-split P (x ∷ xs) ys a = All-split P xs ys a.1

pub All-zip :
    (P Q R : Text → Type 0) (xs : List Text)
    → ((x : Text) → P x → Q x → R x)
    → All P xs
    → All Q xs
    → All R xs
All-zip P Q R [] f _ _ = tt
All-zip P Q R (x ∷ xs) f (p, ps) (q, qs) = (f x p q, All-zip P Q R xs f ps qs)
