-- ===== src/Logscan/Offset/Accept.antt =====
-- The longest prefix of some chunks that keeps to a number of entries and of bytes.
use noderax_agent.Prelude.{
  ℕ, zero, suc, ◌+◌, ◌-◌, ◌≤◌, ◌≡◌, refl, List, [], ◌∷◌, arith, ltb, if◌then◌else◌, length, take,
}
use noderax_agent.Logscan.Lines.{Bytes}

unfoldable pub total_size : List Bytes → ℕ
total_size [] = 0
total_size (c ∷ cs) = length c + total_size cs

-- The chunks that the loop accepts, with `n` entries and `b` bytes to go.
unfoldable pub accept : ℕ → ℕ → List Bytes → List Bytes
accept zero b cs = []
accept (suc n) b [] = []
accept (suc n) b (c ∷ cs) =
    let rest = accept n (b - length c) cs in if ltb b (length c) then [] else c ∷ rest

unfoldable pub count : ℕ → ℕ → List Bytes → ℕ
unfolding accept
count n b cs = length (accept n b cs)

pub accept-take : (n b : ℕ) (cs : List Bytes) → accept n b cs ≡ take (count n b cs) cs
unfolding count
accept-take zero b cs = refl
accept-take (suc n) b [] = refl
accept-take (suc n) b (c ∷ cs) = ground (arith, accept-take n (b - length c) cs)

pub length-accept : (n b : ℕ) (cs : List Bytes) → length (accept n b cs) ≤ n
unfolding accept
length-accept zero b cs = omega arith
length-accept (suc n) b [] = omega arith
length-accept (suc n) b (c ∷ cs) = ground (arith, length-accept n (b - length c) cs)

pub total_size-accept : (n b : ℕ) (cs : List Bytes) → total_size (accept n b cs) ≤ b
unfolding accept total_size
total_size-accept zero b cs = omega arith
total_size-accept (suc n) b [] = omega arith
total_size-accept (suc n) b (c ∷ cs) = ground (arith, total_size-accept n (b - length c) cs)

pub accept_maximal :
    (n b k : ℕ) (cs : List Bytes)
    → length (take k cs) ≤ n
    → total_size (take k cs) ≤ b
    → length (take k cs) ≤ length (accept n b cs)
unfolding accept total_size
accept_maximal n b zero cs h h' = omega arith
accept_maximal n b (suc k) [] h h' = omega arith
accept_maximal zero b (suc k) (c ∷ cs) h h' = omega arith
accept_maximal (suc n) b (suc k) (c ∷ cs) h h' =
    ground (arith, accept_maximal n (b - length c) k cs)

pub accept-nil : (n b : ℕ) → accept n b [] ≡ []
unfolding accept
accept-nil zero b = refl
accept-nil (suc n) b = refl
