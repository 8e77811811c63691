-- ===== src/Tasks/Events/Retry.antt =====
-- `withQueuedStateRetry` and the classes of request errors.
use noderax_agent.Prelude.{
  ℕ, zero, suc, ◌+◌, ◌-◌, ◌≤◌, ◌<◌, ◌≡◌, refl, sym, subst, ◌⊎◌, inl, inr, Bool, true, false, ◌&&◌,
  ◌||◌, Option, none, some, ◌++◌, arith, ◌==◌, if◌then◌else◌, Bool-cases, Text, codes, trim_space,
  contains, to_lower,
}

abbrev pub task_lifecycle_retry_attempts : ℕ
task_lifecycle_retry_attempts = 4

pub record RequestError : Type 0 where
  pub status_code : ℕ
  pub message : Text
  pub body : Text

-- An error of a call of the backend: a response that is no success, or another error. `cancelled`
-- is the context's own.
pub data CallError : Type 0 where
  request : RequestError → CallError
  network : Text → CallError
  cancelled : CallError

unfoldable pub as_request_error : CallError → Option RequestError
as_request_error (request e) = some e
as_request_error (network s) = none
as_request_error cancelled = none

unfoldable pub is_auth_error : CallError → Bool
unfolding as_request_error
is_auth_error e = elim (as_request_error e) [
  | none ↦ false
  | some r ↦ r.status_code == 401 || r.status_code == 403
]

unfoldable pub is_state_conflict : CallError → Bool
unfolding as_request_error
is_state_conflict e = elim (as_request_error e) [
  | none ↦ false
  | some r ↦ r.status_code == 404 || r.status_code == 409
]

unfoldable pub is_network_error : CallError → Bool
unfolding as_request_error
is_network_error e = elim (as_request_error e) [ none ↦ true | some r ↦ false ]

unfoldable pub is_queued_state_conflict : CallError → Bool
unfolding as_request_error
is_queued_state_conflict e = elim (as_request_error e) [
  | none ↦ false
  | some r ↦
      (r.status_code == 409)
      && contains (to_lower (trim_space (r.message ++ codes " " ++ r.body))) (codes "queued state")
]

-- The context at an attempt: done when it is checked before the pause, or in the pause.
pub record Context : Type 0 where
  pub done_before : ℕ → Bool
  pub done_in_sleep : ℕ → Bool

-- A nil context is never done.
abbrev pub interrupts : Option Context → ℕ → Bool
interrupts none attempt = false
interrupts (some c) attempt = c.done_before attempt || c.done_in_sleep attempt

-- Behind `send`: what the call returned decides whether the loop returns or goes on with `next`.
abbrev pub after_send {ℓ} :
    {A : Type ℓ} → Option CallError → (Option CallError → A) → (CallError → A) → A
after_send none return retry = return none
after_send (some e) return retry = if is_queued_state_conflict e then retry e else return (some e)

Nat-cases : (m n : ℕ) → m ≤ n → (m ≡ n) ⊎ (m < n)
Nat-cases m n h = ground arith

-- The loop from `attempt` on, where `left` more may follow it. It returns the error, and how many
-- times `send` was called.
module _ (ctx : Option Context) (send : ℕ → Option CallError) where
  unfoldable pub retry_from : ℕ → ℕ → Option CallError × ℕ
  retry_from zero attempt = (send attempt, attempt)
  retry_from (suc left) attempt =
      let next = retry_from left (suc attempt) in
      after_send (send attempt) (λ result. (result, attempt))
        (λ e. if interrupts ctx attempt then (some cancelled, attempt) else next)

  unfoldable pub with_queued_state_retry : Option CallError × ℕ
  unfolding retry_from
  with_queued_state_retry = retry_from (task_lifecycle_retry_attempts - 1) 1

  -- The attempt ended in a conflict with a state that is not there yet.
  abbrev pub Conflicts : ℕ → Type 0
  Conflicts i = (e : CallError) × (send i ≡ some e) × (is_queued_state_conflict e ≡ true)

  -- How a run of the loop ended at its last attempt: with what that returned, since it is no
  -- conflict or no attempt is left, or with the context.
  pub data Ended (last : ℕ) (n : ℕ) (result : Option CallError) : Type 0 where
    returned : result ≡ send n → (n ≡ last) ⊎ (¬ Conflicts n) → Ended last n result
    interrupted :
        result ≡ some cancelled
        → Conflicts n
        → interrupts ctx n ≡ true
        → n < last
        → Ended last n result

  pub record Run (first last : ℕ) (r : Option CallError × ℕ) : Type 0 where
    pub from : first ≤ r.1
    pub upto : r.1 ≤ last
    pub conflicts : (i : ℕ) → first ≤ i → i < r.1 → Conflicts i
    pub ended : Ended last r.1 r.0

  retry_from-Run : (left attempt : ℕ) → Run attempt (left + attempt) (retry_from left attempt)
  unfolding retry_from
  retry_from-Run zero attempt = record {
    from = omega arith;
    upto = omega arith;
    conflicts = λ i p q. absurd (omega arith);
    ended = returned refl (inl (omega arith));
  }
  retry_from-Run (suc left) attempt =
      by_send (retry_from-Run left (suc attempt)) (send attempt) refl
    where
      next : Option CallError × ℕ
      next = retry_from left (suc attempt)

      stops :
          (result : Option CallError)
          → send attempt ≡ result
          → ¬ Conflicts attempt
          → Run attempt (suc left + attempt) (result, attempt)
      stops result e other = record {
        from = omega arith;
        upto = omega arith;
        conflicts = λ i p q. absurd (omega arith);
        ended = returned (sym e) (inr other);
      }

      no_conflict :
          (c : CallError)
          → send attempt ≡ some c
          → is_queued_state_conflict c ≡ false
          → ¬ Conflicts attempt
      no_conflict c e other (d, e2, q) = cc

      goes :
          Run (suc attempt) (left + suc attempt) next
          → (c : CallError) → send attempt ≡ some c
          → is_queued_state_conflict c ≡ true
          → Run attempt (suc left + attempt) next
      goes r c e q =
          let same : left + suc attempt ≡ suc left + attempt = omega arith in
          record {
            from = omega (arith, r.from);
            upto = omega (arith, r.upto);
            conflicts = λ i p l. elim (Nat-cases attempt i p) [
              | inl here ↦ subst Conflicts here (c, e, q)
              | inr there ↦ r.conflicts i there l
            ];
            ended = subst (λ k. Ended k next.1 next.0) same r.ended;
          }

      by_send :
          Run (suc attempt) (left + suc attempt) next
          → (o : Option CallError) → send attempt ≡ o
          → Run attempt (suc left + attempt) (
              after_send o
                (λ result. (result, attempt))
                (λ e. if interrupts ctx attempt then (some cancelled, attempt) else next))
      by_send r none e = stops none e (λ c. cc)
      by_send r (some c) e = elim (Bool-cases (is_queued_state_conflict c)) [
        | inr other ↦ simp other (stops (some c) e (no_conflict c e other))
        | inl q ↦ elim (Bool-cases (interrupts ctx attempt)) [
          | inr on ↦ simp (q, on) (goes r c e q)
          | inl done ↦
              simp (q, done)
                (record {
                  from = omega arith;
                  upto = omega arith;
                  conflicts = λ i p l. absurd (omega arith);
                  ended = interrupted refl (c, e, q) done (omega arith);
                })
        ]
      ]

  -- A request of a task's life cycle is sent from one to four times, and again exactly after a
  -- conflict with a queued state; the result is that of the last call, which is no such conflict or
  -- the fourth call, or the error of the context that was done then.
  pub with_queued_state_retry-Run : Run 1 4 with_queued_state_retry
  unfolding with_queued_state_retry
  with_queued_state_retry-Run = retry_from-Run 3 1
