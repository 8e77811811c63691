-- ===== src/Tasks/Service/Poll/Rounds.antt =====
-- What the rounds of the polling loop do: the claims of `pollTasks` and their answers.
use noderax_agent.Prelude.{
  not, ◌&&◌, ◌||◌, ◌/◌, map, is_empty, Text, ℕ, zero, suc, ◌*◌, ◌≡◌, refl, inl, inr, Bool, true,
  false, Option, none, some, List, [], ◌∷◌, arith, if◌then◌else◌, Bool-cases, ok, err,
}
use Prim.Native.Nat.{min}
use noderax_agent.Rootaccess.{DesiredSnapshot}
use noderax_agent.Tasks.Executor.Types.{Task}
use noderax_agent.Tasks.Events.Retry.{
  CallError, network, cancelled, request, is_network_error, is_auth_error, is_state_conflict,
  as_request_error,
}
use noderax_agent.Tasks.Service.Poll.{
  second, ClaimResponse, Claim, Round, Attempt, named, claimed, failed, settle, poll_round,
  poll_tasks,
}

-- The last answer of a round.
abbrev pub last_claim : Claim → Claim → Claim
last_claim (ok r) again = ok r
last_claim (err e) again = if is_auth_error e then again else err e

-- The task that an answer is due to start: one with an ID.
unfoldable with_id : Task → Text → Option Task
with_id t [] = none
with_id t (c ∷ cs) = some t

unfoldable task_of : Option Task → Option Task
unfolding with_id
task_of none = none
task_of (some t) = with_id t t.id

unfoldable pub task_due : Claim → Option Task
unfolding task_of
task_due (ok r) = task_of r.task
task_due (err e) = none

unfoldable pub snapshot_due : Claim → Option DesiredSnapshot
snapshot_due (ok r) = r.root_access
snapshot_due (err e) = none

unfoldable power_of_two : ℕ → ℕ
power_of_two zero = 1
power_of_two (suc n) = 2 * power_of_two n

-- The pause behind `n` network errors since the last answer with a claim.
unfoldable pub backoff_behind : ℕ → ℕ
unfolding power_of_two
backoff_behind n = min (power_of_two n * second) (15 * second)

-- The number of network errors since the last answer with a claim.
unfoldable pub network_errors : ℕ → Claim → ℕ
network_errors n (ok r) = 0
network_errors n (err (network s)) = suc n
network_errors n (err cancelled) = suc n
network_errors n (err (request r)) = n

-- The pause of a round, behind `n` network errors.
unfoldable pub pause_due : ℕ → ℕ → Claim → ℕ
pause_due period n (ok r) = 0
pause_due period n (err (network s)) = backoff_behind n
pause_due period n (err cancelled) = backoff_behind n
pause_due period n (err (request r)) =
    if is_auth_error (request r) || is_state_conflict (request r)
    then 0
    else min (period / 3) (2 * second)

-- An answer with a claim and a conflict go on; an authorization error does not; behind any other
-- error the sleep decides.
unfoldable pub goes_on : Claim → Bool → Bool
goes_on (ok r) slept = true
goes_on (err e) slept = not (is_auth_error e) && (is_state_conflict e || slept)

-- The last answers of the rounds that are due, each with the network errors before it.
unfoldable pub answers : ℕ → List Attempt → List (ℕ × Claim)
answers n [] = []
answers n (a ∷ attempts) =
    let c = last_claim a.first a.again in
    let rest = answers (network_errors n c) attempts in
    if a.done then [] else if goes_on c a.slept then (n, c) ∷ rest else (n, c) ∷ []

-- A round does what is due for its answer.
record DoesDue (period n : ℕ) (slept : Bool) (c : Claim) (round : Round) : Type 0 where
  dispatched_eq : round.dispatched ≡ task_due c
  snapshot_eq : round.snapshot ≡ snapshot_due c
  sleeps_eq : round.sleeps ≡ pause_due period n c
  next_eq :
      round.next ≡ (if goes_on c slept then some (backoff_behind (network_errors n c)) else none)

named-task_of : (t : Option Task) → named t ≡ task_of t
unfolding task_of with_id
named-task_of none = refl
named-task_of (some t) = by_id t t.id
  where
    by_id : (t : Task) (id : Text) → (if is_empty id then none else some t) ≡ with_id t id
    by_id t [] = refl
    by_id t (c ∷ cs) = refl

claimed-DoesDue :
    (period n claims : ℕ) (slept refreshes : Bool) (r : ClaimResponse)
    → DoesDue period n slept (ok r) (claimed claims refreshes r)
unfolding claimed task_due snapshot_due pause_due goes_on backoff_behind power_of_two network_errors
claimed-DoesDue period n claims slept refreshes r = record {
  dispatched_eq = named-task_of r.task;
  snapshot_eq = refl;
  sleeps_eq = refl;
  next_eq = refl;
}

backoff_behind-suc : (n : ℕ) → min (backoff_behind n * 2) (15 * second) ≡ backoff_behind (suc n)
unfolding backoff_behind power_of_two
backoff_behind-suc n = omega arith

failed-DoesDue :
    (period n claims : ℕ) (slept refreshes : Bool) (e : CallError)
    → DoesDue period n slept (err e) (failed period (backoff_behind n) claims refreshes slept e)
unfolding failed task_due snapshot_due pause_due goes_on network_errors is_auth_error
    is_state_conflict is_network_error as_request_error
failed-DoesDue period n claims slept refreshes (network s) = record {
  dispatched_eq = refl;
  snapshot_eq = refl;
  sleeps_eq = refl;
  next_eq = rw (backoff_behind-suc n) refl;
}
failed-DoesDue period n claims slept refreshes cancelled = record {
  dispatched_eq = refl;
  snapshot_eq = refl;
  sleeps_eq = refl;
  next_eq = rw (backoff_behind-suc n) refl;
}
failed-DoesDue period n claims slept refreshes (request r) = record {
  dispatched_eq = ground arith;
  snapshot_eq = ground arith;
  sleeps_eq = ground arith;
  next_eq = ground arith;
}

poll_round-DoesDue :
    (period n : ℕ) (has_auth slept : Bool) (first again : Claim)
    → DoesDue period n slept
        (last_claim first again)
        (poll_round period has_auth (backoff_behind n) slept first again)
unfolding poll_round
poll_round-DoesDue period n has_auth slept (ok r) again = claimed-DoesDue period n 1 slept false r
poll_round-DoesDue period n has_auth slept (err e) again = by_auth (is_auth_error e)
  where
    by_again :
        (again : Claim)
        → DoesDue period n slept again (settle period (backoff_behind n) 2 has_auth slept again)
    by_again (ok r) = claimed-DoesDue period n 2 slept has_auth r
    by_again (err e') = failed-DoesDue period n 2 slept has_auth e'

    by_auth :
        (auth : Bool)
        → DoesDue period n slept (if auth then again else err e) (
            if auth
            then settle period (backoff_behind n) 2 has_auth slept again
            else failed period (backoff_behind n) 1 false slept e)
    by_auth true = by_again again
    by_auth false = failed-DoesDue period n 1 slept false e

-- What the rounds do, as the answers ask for.
abbrev pub DoAllDue : ℕ → List (ℕ × Claim) → List Round → Type 0
DoAllDue period due rounds =
    (map (λ (r : Round). r.dispatched) rounds ≡ map (λ (n, c). task_due c) due)
    × (map (λ (r : Round). r.snapshot) rounds ≡ map (λ (n, c). snapshot_due c) due)
    × (map (λ (r : Round). r.sleeps) rounds ≡ map (λ (n, c). pause_due period n c) due)

DoAllDue-cons :
    (period n : ℕ) (slept : Bool) (c : Claim) (round : Round) (due : List (ℕ × Claim))
    (rounds : List Round)
    → DoesDue period n slept c round
    → DoAllDue period due rounds
    → DoAllDue period ((n, c) ∷ due) (round ∷ rounds)
DoAllDue-cons period n slept c round due rounds d (tasks, snapshots, pauses) = (
  rw (d.dispatched_eq, tasks) refl,
  rw (d.snapshot_eq, snapshots) refl,
  rw (d.sleeps_eq, pauses) refl,
)

poll_tasks_behind :
    (period n : ℕ) (has_auth : Bool) (attempts : List Attempt)
    → DoAllDue period (answers n attempts) (poll_tasks period has_auth (backoff_behind n) attempts)
unfolding poll_tasks answers
poll_tasks_behind period n has_auth [] = (refl, refl, refl)
poll_tasks_behind period n has_auth (a ∷ attempts) = elim (Bool-cases a.done) [
  | inl over ↦ rw over (refl, refl, refl)
  | inr runs ↦ rw runs (
      by_next (λ m. poll_tasks_behind period m has_auth attempts)
        (poll_round period has_auth (backoff_behind n) a.slept a.first a.again)
        (last_claim a.first a.again) (poll_round-DoesDue period n has_auth a.slept a.first a.again)
        (goes_on (last_claim a.first a.again) a.slept) refl)
]
  where
    by_next :
        ((m : ℕ)
          → DoAllDue period
              (answers m attempts)
              (poll_tasks period has_auth (backoff_behind m) attempts))
        → (round : Round) (c : Claim) → DoesDue period n a.slept c round
        → (on : Bool) → goes_on c a.slept ≡ on
        → DoAllDue period
            (if on then (n, c) ∷ answers (network_errors n c) attempts else (n, c) ∷ [])
            (elim round.next [
              | none ↦ round ∷ []
              | some b ↦ round ∷ poll_tasks period has_auth b attempts
            ])
    by_next rest round c d true e =
        rw (d.next_eq, e) (DoAllDue-cons period n a.slept c round _ _ d (rest (network_errors n c)))
    by_next rest round c d false e =
        rw (d.next_eq, e) (DoAllDue-cons period n a.slept c round [] [] d (refl, refl, refl))

-- From its start, whatever its claims are answered, the claim loop makes one round for each due
-- answer, in order. An answer is that of the second claim where the first ended in an authorization
-- error. The loop ends where its context is done before a claim, at an authorization error, or
-- where the context cuts a sleep short; behind any other answer it goes on. A round dispatches the
-- task of its answer if it has an ID, and hands on its snapshot; after an error it does neither. It
-- sleeps for the backoff at a network error: one second, doubled for each network error before it
-- since the last answered claim, and fifteen seconds at most; for a third of the period and two
-- seconds at most at another refusal; and not at all at an answer or a conflict.
pub poll_tasks-DoAllDue :
    (period : ℕ) (has_auth : Bool) (attempts : List Attempt)
    → DoAllDue period (answers 0 attempts) (poll_tasks period has_auth second attempts)
poll_tasks-DoAllDue period has_auth attempts =
    unfold backoff_behind power_of_two in poll_tasks_behind period 0 has_auth attempts
