-- ===== src/Tasks/Service/Poll/Sleeps.antt =====
-- How long the rounds of the polling loop sleep.
use noderax_agent.Prelude.{
  ℕ, zero, suc, ◌+◌, ◌*◌, ◌≤◌, ◌≡◌, refl, sym, ap, ◌∙◌, subst, inl, inr, Bool, true, false, Option,
  none, some, List, [], ◌∷◌, arith, Bool-cases, length, All, ok, err,
}
use noderax_agent.Tasks.Events.Retry.{CallError, is_auth_error, is_state_conflict, as_request_error}
use noderax_agent.Tasks.Service.Poll.{
  second, ClaimResponse, Claim, Round, Attempt, claimed, failed, settle, poll_round, poll_tasks,
}

-- The backoff of a network error is from one to fifteen seconds.
abbrev pub InBackoff : ℕ → Type 0
InBackoff b = (second ≤ b) × (b ≤ 15 * second)

abbrev Keeps : Round → Type 0
Keeps r = (r.sleeps ≤ 15 * second) × ((b : ℕ) → r.next ≡ some b → InBackoff b)

failed-Keeps :
    (period backoff claims : ℕ) (refreshes slept : Bool) (e : CallError)
    → InBackoff backoff
    → Keeps (failed period backoff claims refreshes slept e)
unfolding failed
failed-Keeps period backoff claims refreshes slept e h =
    (ground arith, λ b n. (ground arith, ground arith))

claimed-Keeps :
    (claims : ℕ) (refreshes : Bool) (r : ClaimResponse) → Keeps (claimed claims refreshes r)
unfolding claimed
claimed-Keeps claims refreshes r = (omega arith, λ b n. (ground arith, ground arith))

poll_round-Keeps :
    (period backoff : ℕ) (has_auth slept : Bool) (first again : Claim)
    → InBackoff backoff
    → Keeps (poll_round period has_auth backoff slept first again)
unfolding poll_round
poll_round-Keeps period backoff has_auth slept (ok r) again h = claimed-Keeps 1 false r
poll_round-Keeps period backoff has_auth slept (err e) again h =
    elim (Bool-cases (is_auth_error e)) [
      | inr other ↦ simp other (failed-Keeps period backoff 1 false slept e h)
      | inl auth ↦ simp auth (by_again again)
    ]
  where
    by_again : (again : Claim) → Keeps (settle period backoff 2 has_auth slept again)
    by_again (ok r) = claimed-Keeps 2 has_auth r
    by_again (err e') = failed-Keeps period backoff 2 has_auth slept e' h

-- Whatever the claims are answered with, no round of the loop sleeps for more than fifteen seconds.
pub poll_tasks-sleeps :
    (period backoff : ℕ) (has_auth : Bool) (attempts : List Attempt)
    → InBackoff backoff
    → All (λ (r : Round). r.sleeps ≤ 15 * second) (poll_tasks period has_auth backoff attempts)
unfolding poll_tasks
poll_tasks-sleeps period backoff has_auth [] h = tt
poll_tasks-sleeps period backoff has_auth (a ∷ attempts) h = elim (Bool-cases a.done) [
  | inl over ↦ rw over tt
  | inr runs ↦ rw runs (
      by_next (λ b. poll_tasks-sleeps period b has_auth attempts)
        (poll_round period has_auth backoff a.slept a.first a.again)
        (poll_round-Keeps period backoff has_auth a.slept a.first a.again h) _ refl)
]
  where
    by_next :
        ((b : ℕ)
          → InBackoff b
          → All (λ (r : Round). r.sleeps ≤ 15 * second) (poll_tasks period has_auth b attempts))
        → (r : Round) → Keeps r
        → (o : Option ℕ) → r.next ≡ o
        → All
            (λ (r : Round). r.sleeps ≤ 15 * second)
            (elim o [ none ↦ r ∷ [] | some b ↦ r ∷ poll_tasks period has_auth b attempts ])
    by_next rest r k none e = (k.0, tt)
    by_next rest r k (some b) e = (k.0, rest b (k.1 b e))

-- `n` claims that all fail with `e`.
unfoldable pub repeated : ℕ → CallError → List Attempt
repeated zero e = []
repeated (suc n) e =
    record { done = false; first = err e; again = err e; slept = true } ∷ repeated n e

unfoldable pub total_sleep : List Round → ℕ
total_sleep [] = 0
total_sleep (r ∷ rs) = r.sleeps + total_sleep rs

conflict_not_auth : (e : CallError) → is_state_conflict e ≡ true → is_auth_error e ≡ false
unfolding is_state_conflict is_auth_error as_request_error
conflict_not_auth (CallError.request r) h = ground arith
conflict_not_auth (CallError.network s) h = cc
conflict_not_auth CallError.cancelled h = cc

abbrev idle : ℕ → Round
idle backoff = record {
  claims = 1;
  refreshes = false;
  snapshot = none;
  dispatched = none;
  sleeps = 0;
  next = some backoff;
}

poll_round_conflict :
    (period backoff : ℕ) (has_auth : Bool) (e : CallError)
    → is_state_conflict e ≡ true
    → poll_round period has_auth backoff true (err e) (err e) ≡ idle backoff
unfolding poll_round failed
poll_round_conflict period backoff has_auth e h = rw (conflict_not_auth e h, h) refl

poll_tasks-next :
    (period backoff next : ℕ) (has_auth : Bool) (a : Attempt) (attempts : List Attempt) (r : Round)
    → a.done ≡ false
    → poll_round period has_auth backoff a.slept a.first a.again ≡ r
    → r.next ≡ some next
    → poll_tasks period has_auth backoff (a ∷ attempts)
      ≡ r ∷ poll_tasks period has_auth next attempts
unfolding poll_tasks
poll_tasks-next period backoff next has_auth a attempts r runs e n =
    rw runs (by_round (poll_round period has_auth backoff a.slept a.first a.again) e)
  where
    with_next :
        (o : Option ℕ)
        → o ≡ some next
        → (elim o [ none ↦ r ∷ [] | some b ↦ r ∷ poll_tasks period has_auth b attempts ])
          ≡ r ∷ poll_tasks period has_auth next attempts
    with_next o e = rw e

    by_round :
        (s : Round)
        → s ≡ r
        → (elim s.next [ none ↦ s ∷ [] | some b ↦ s ∷ poll_tasks period has_auth b attempts ])
          ≡ r ∷ poll_tasks period has_auth next attempts
    by_round s e =
        subst
          (λ (t : Round).
            (elim t.next [ none ↦ t ∷ [] | some b ↦ t ∷ poll_tasks period has_auth b attempts ])
            ≡ r ∷ poll_tasks period has_auth next attempts)
          (sym e) (with_next r.next n)

poll_tasks_conflict :
    (period backoff : ℕ) (has_auth : Bool) (e : CallError) (n : ℕ)
    → is_state_conflict e ≡ true
    → poll_tasks period has_auth backoff (repeated (suc n) e)
      ≡ idle backoff ∷ poll_tasks period has_auth backoff (repeated n e)
unfolding repeated
poll_tasks_conflict period backoff has_auth e n h =
    poll_tasks-next period backoff backoff has_auth _ (repeated n e) (idle backoff) refl
      (poll_round_conflict period backoff has_auth e h) refl

-- As long as the backend answers claims with 404 or 409 the loop claims again at once: `n` such
-- answers make `n` rounds that sleep for no time at all together.
pub poll_tasks_busy :
    (period backoff : ℕ) (has_auth : Bool) (e : CallError) (n : ℕ)
    → is_state_conflict e ≡ true
    → let rounds = poll_tasks period has_auth backoff (repeated n e) in
      (length rounds ≡ n) × (total_sleep rounds ≡ 0)
unfolding total_sleep
poll_tasks_busy period backoff has_auth e zero h = unfold poll_tasks repeated in (refl, refl)
poll_tasks_busy period backoff has_auth e (suc n) h =
    let (len, sleep) = poll_tasks_busy period backoff has_auth e n h in
    let same = poll_tasks_conflict period backoff has_auth e n h in
    (ap length same ∙ ap suc len, ap total_sleep same ∙ omega (arith, sleep))
