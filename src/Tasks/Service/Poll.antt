-- ===== src/Tasks/Service/Poll.antt =====
-- `pollTasks`: the rounds of the loop that claims tasks. Durations are in nanoseconds.
pub mod Rounds
pub mod Sleeps
use noderax_agent.Prelude.{
  ℕ, suc, ◌*◌, ◌/◌, ap, Bool, false, Option, none, some, List, [], ◌∷◌, ◌==◌, if◌then◌else◌, ℤ, pos,
  negsuc, is_empty, Outcome, ok, err, ◌>>=◌, ◌>>◌,
}
use Prim.Native.Nat.{min}
use noderax_agent.Rootaccess.{DesiredSnapshot}
use noderax_agent.Tasks.Executor.Types.{Task}
use noderax_agent.Tasks.Events.Retry.{CallError, is_auth_error, is_state_conflict, is_network_error}

abbrev pub second : ℕ
second = 1000000000

abbrev pub default_period : ℕ
default_period = 15 * second

unfoldable pub poll_period : ℤ → ℕ
poll_period (pos n) = if n == 0 then default_period else n
poll_period (negsuc n) = default_period

unfoldable pub wait_ms : ℕ → ℕ
wait_ms period = let ms = period / 1000000 in if ms == 0 then 15000 else ms

pub record ClaimResponse : Type 0 where
  pub task : Option Task
  pub root_access : Option DesiredSnapshot

abbrev pub Claim : Type 0
Claim = Outcome CallError ClaimResponse

-- What a round does: how often it claims, whether it sets the credentials anew, the snapshot that
-- it hands to the root access controller, if there is one, the task that it dispatches, how long it
-- sleeps, and the backoff of the next round, if there is one.
pub record Round : Type 0 where
  pub claims : ℕ
  pub refreshes : Bool
  pub snapshot : Option DesiredSnapshot
  pub dispatched : Option Task
  pub sleeps : ℕ
  pub next : Option ℕ

-- `response.Task == nil || response.Task.ID == ""`.
abbrev pub named : Option Task → Option Task
named none = none
named (some t) = if is_empty t.id then none else some t

-- A claim that was answered. The backoff starts again.
unfoldable pub claimed : ℕ → Bool → ClaimResponse → Round
claimed claims refreshes r = record {
  claims = claims;
  refreshes = refreshes;
  snapshot = r.root_access;
  dispatched = named r.task;
  sleeps = 0;
  next = some second;
}

-- A claim that failed for good in this round. A sleep that the context cuts short ends the loop.
unfoldable pub failed : ℕ → ℕ → ℕ → Bool → Bool → CallError → Round
failed period backoff claims refreshes slept e =
    let idle : Round = record {
      claims = claims;
      refreshes = refreshes;
      snapshot = none;
      dispatched = none;
      sleeps = 0;
      next = some backoff;
    } in
    if is_auth_error e
    then record idle { next = none }
    else if is_state_conflict e
    then idle
    else if is_network_error e
    then record idle {
      sleeps = backoff;
      next = if slept then some (min (backoff * 2) (15 * second)) else none;
    }
    else record idle {
      sleeps = min (period / 3) (2 * second);
      next = if slept then some backoff else none;
    }

abbrev pub settle : ℕ → ℕ → ℕ → Bool → Bool → Claim → Round
settle period backoff claims refreshes slept (ok r) = claimed claims refreshes r
settle period backoff claims refreshes slept (err e) =
    failed period backoff claims refreshes slept e

-- What a round meets: whether the context is done when it starts, what the claim returns, what it
-- returns again after an authorization error, and whether a sleep of the round ends before the
-- context does.
pub record Attempt : Type 0 where
  pub done : Bool
  pub first : Claim
  pub again : Claim
  pub slept : Bool

-- One round behind the check of the context. There is an authorization client or not.
unfoldable pub poll_round : ℕ → Bool → ℕ → Bool → Claim → Claim → Round
poll_round period has_auth backoff slept (ok r) again = claimed 1 false r
poll_round period has_auth backoff slept (err e) again =
    if is_auth_error e
    then settle period backoff 2 has_auth slept again
    else failed period backoff 1 false slept e

-- The rounds of a run, while the loop goes on.
unfoldable pub poll_tasks : ℕ → Bool → ℕ → List Attempt → List Round
poll_tasks period has_auth backoff [] = []
poll_tasks period has_auth backoff (a ∷ attempts) =
    let round = poll_round period has_auth backoff a.slept a.first a.again in
    let rounds : List Round = elim round.next [
      | none ↦ round ∷ []
      | some backoff' ↦ round ∷ poll_tasks period has_auth backoff' attempts
    ] in
    if a.done then [] else rounds
