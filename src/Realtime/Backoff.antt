-- ===== src/Realtime/Backoff.antt =====
-- `Run`: how the service connects again, with `backoffDelay` and `applyJitter`.
use noderax_agent.Prelude.{
  ℕ, zero, suc, ◌+◌, ◌-◌, ◌*◌, ◌%◌, ◌^◌, ◌≤◌, ◌≡◌, inl, inr, Bool, true, false, List, [], ◌∷◌,
  arith, ltb, ◌==◌, if◌then◌else◌, Bool-cases, All,
}

abbrev pub millisecond : ℕ
millisecond = 1_000_000

abbrev pub second : ℕ
second = 1_000_000_000

unfoldable pub min_int : ℕ → ℕ → ℕ
min_int a b = if ltb a b then a else b

-- `max_jitter` is `int64(float64(base) * ratio)`, and 0 where the ratio is not positive. `rand.Int63n(n)`
-- is a draw modulo n. A sum below zero is below a millisecond too.
unfoldable pub apply_jitter : (ℕ → ℕ) → ℕ → ℕ → ℕ
apply_jitter max_jitter draw base =
    let most = max_jitter base in
    let jittered = base + draw % (most * 2 + 1) - most in
    if most == 0 then base else if ltb jittered millisecond then millisecond else jittered

unfoldable pub backoff_base : ℕ → ℕ
unfolding min_int
backoff_base attempt =
    let base = second * 2 ^ min_int attempt 5 in
    if ltb (30 * second) base then 30 * second else base

unfoldable pub backoff_delay : (ℕ → ℕ) → ℕ → ℕ → ℕ
unfolding apply_jitter backoff_base
backoff_delay max_jitter draw attempt = apply_jitter max_jitter draw (backoff_base attempt)

-- A round of `Run`: the connection fails, or it is closed with an error, and then the random draw and
-- whether the service sleeps without being stopped; or the context is done or the connection ends well.
pub data Round : Type 0 where
  refused closed : ℕ → Bool → Round
  ended : Round

-- The delays of the rounds: an attempt that connects starts the count again.
unfoldable pub run : (ℕ → ℕ) → ℕ → List Round → List ℕ
unfolding backoff_delay
run max_jitter attempt [] = []
run max_jitter attempt (ended ∷ rounds) = []
run max_jitter attempt (refused draw sleeps ∷ rounds) =
    let rest = run max_jitter (suc attempt) rounds in
    backoff_delay max_jitter draw attempt ∷ (if sleeps then rest else [])
run max_jitter attempt (closed draw sleeps ∷ rounds) =
    let rest = run max_jitter 1 rounds in
    backoff_delay max_jitter draw 0 ∷ (if sleeps then rest else [])

-- From a millisecond to twice the longest base.
abbrev pub IsDelay : ℕ → Type 0
IsDelay d = (millisecond ≤ d) × (d ≤ 60 * second)

backoff_base-bounds :
    (attempt : ℕ) → (second ≤ backoff_base attempt) × (backoff_base attempt ≤ 30 * second)
unfolding backoff_base min_int
backoff_base-bounds zero = (omega arith, omega arith)
backoff_base-bounds (suc zero) = (omega arith, omega arith)
backoff_base-bounds (suc (suc zero)) = (omega arith, omega arith)
backoff_base-bounds (suc (suc (suc zero))) = (omega arith, omega arith)
backoff_base-bounds (suc (suc (suc (suc zero)))) = (omega arith, omega arith)
backoff_base-bounds (suc (suc (suc (suc (suc n))))) =
    let late : min_int (suc (suc (suc (suc (suc n))))) 5 ≡ 5 = ground arith in
    rw late (omega arith, omega arith)

backoff_delay-IsDelay :
    (max_jitter : ℕ → ℕ) (draw attempt : ℕ)
    → ((base : ℕ) → max_jitter base ≤ base)
    → IsDelay (backoff_delay max_jitter draw attempt)
unfolding backoff_delay apply_jitter
backoff_delay-IsDelay max_jitter draw attempt small =
    let b = backoff_base attempt in
    let (low, high) = backoff_base-bounds attempt in
    let most = max_jitter b in
    let fits : most ≤ b = small b in
    let drawn : draw % (most * 2 + 1) ≤ most * 2 = grind arith in
    elim (Bool-cases (most == 0)) [
      | inl none_due ↦ rw none_due (omega arith, omega arith)
      | inr some_due ↦
          rw some_due (elim (Bool-cases (ltb (b + draw % (most * 2 + 1) - most) millisecond)) [
            | inl short ↦ rw short (omega arith, omega arith)
            | inr long ↦ rw long (ground arith, omega arith)
          ])
    ]

delays_after :
    (d : ℕ) (sleeps : Bool) (rest : List ℕ)
    → IsDelay d
    → All IsDelay rest
    → All IsDelay (d ∷ (if sleeps then rest else []))
delays_after d true rest v vs = (v, vs)
delays_after d false rest v vs = (v, tt)

-- However the attempts to connect and the connections end, and whatever the random numbers are, the
-- service waits for at least a millisecond and at most a minute before it connects again. The jitter is
-- at most the base.
pub run-IsDelay :
    (max_jitter : ℕ → ℕ) (attempt : ℕ) (rounds : List Round)
    → ((base : ℕ) → max_jitter base ≤ base)
    → All IsDelay (run max_jitter attempt rounds)
unfolding run
run-IsDelay max_jitter attempt [] small = tt
run-IsDelay max_jitter attempt (ended ∷ rounds) small = tt
run-IsDelay max_jitter attempt (refused draw sleeps ∷ rounds) small =
    delays_after (backoff_delay max_jitter draw attempt) sleeps
      (run max_jitter (suc attempt) rounds) (backoff_delay-IsDelay max_jitter draw attempt small)
      (run-IsDelay max_jitter (suc attempt) rounds small)
run-IsDelay max_jitter attempt (closed draw sleeps ∷ rounds) small =
    delays_after (backoff_delay max_jitter draw 0) sleeps (run max_jitter 1 rounds)
      (backoff_delay-IsDelay max_jitter draw 0 small) (run-IsDelay max_jitter 1 rounds small)
