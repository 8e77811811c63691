-- ===== src/Tasks/Service/Handle/Report.antt =====
-- What the report of a task says.
use noderax_agent.Prelude.{
  ap, ◌⊎◌, ◌≡◌, refl, sym, ◌∙◌, ◌↔◌, inl, inr, true, false, Option, none, some, List, [], ◌∷◌, ◌++◌,
  Bool-cases, All, Text, codes, text_eq, text_eq_ne, trim_space, Outcome, ok, err,
}
use noderax_agent.Tasks.Events.Retry.{CallError}
use noderax_agent.Tasks.Service.Handle.{
  ExecError, cancelled_by_control, deadline_exceeded, context_cancelled, execution, task_status,
  Execution, ControlResponse, watch_task_control, Completion, Event, accepted, started, completed,
  Handling, final_error, reason_of, completion_of, completion, no_identity, has_identity,
  cancellation, handle_task,
}

-- The first check that asks for a cancellation, behind checks that do not.
pub data Asks (reason : Text) : List (Outcome CallError ControlResponse) → Type 0 where
  here :
      {c : ControlResponse} {checks : List (Outcome CallError ControlResponse)}
      → c.cancel_requested ≡ true
      → trim_space c.cancel_reason ≡ reason
      → Asks reason (ok c ∷ checks)
  behind :
      {c : ControlResponse} {checks : List (Outcome CallError ControlResponse)}
      → c.cancel_requested ≡ false
      → Asks reason checks
      → Asks reason (ok c ∷ checks)
  behind_error :
      {e : CallError} {checks : List (Outcome CallError ControlResponse)}
      → Asks reason checks
      → Asks reason (err e ∷ checks)

some_eq : (a b : Text) → some a ≡ some b → a ≡ b
some_eq a b h = cc

pub watch_task_control-Asks :
    (reason : Text) (checks : List (Outcome CallError ControlResponse))
    → watch_task_control checks ≡ some reason
    → Asks reason checks
unfolding watch_task_control
watch_task_control-Asks reason [] e = cc
watch_task_control-Asks reason (err x ∷ checks) e =
    behind_error (watch_task_control-Asks reason checks e)
watch_task_control-Asks reason (ok c ∷ checks) e = elim (Bool-cases c.cancel_requested) [
  | inl on ↦ here on (some_eq _ _ (simp on at e))
  | inr off ↦ behind off (watch_task_control-Asks reason checks (simp off at e))
]

pub Asks-watch_task_control :
    {reason : Text} {checks : List (Outcome CallError ControlResponse)}
    → Asks reason checks
    → watch_task_control checks ≡ some reason
unfolding watch_task_control
Asks-watch_task_control (here on same) = rw (on, same)
Asks-watch_task_control (behind off later) = rw off (Asks-watch_task_control later)
Asks-watch_task_control (behind_error later) = Asks-watch_task_control later

-- The agent has a control client, and a check asked for a cancellation.
abbrev pub Asked : Handling → Text → Type 0
Asked h reason = (h.has_control ≡ true) × Asks reason h.checks

Asked-cancellation : (h : Handling) (reason : Text) → Asked h reason → cancellation h ≡ some reason
Asked-cancellation h reason (on, asks) = rw on (Asks-watch_task_control asks)

-- What an execution may end with to be reported as cancelled where a check asked for it.
abbrev pub IsCancellable : Option ExecError → Type 0
IsCancellable e = (e ≡ none) ⊎ (e ≡ some context_cancelled)

-- The statuses of reports, by what they mean.
pub record Reports (h : Handling) (c : Completion) : Type 0 where
  pub success_iff : (c.status ≡ codes "success") ↔ (
      (has_identity h ≡ true) × (h.execution.error ≡ none) × ¬ ((reason : Text) × Asked h reason))
  pub success_error : c.status ≡ codes "success" → c.error ≡ []
  pub cancelled_iff : (c.status ≡ codes "cancelled") ↔ (
      (has_identity h ≡ true)
      × ((h.execution.error ≡ some cancelled_by_control)
          ⊎ ((reason : Text) × Asked h reason × IsCancellable h.execution.error)))
  pub executed :
      has_identity h ≡ true
      → (c.exit_code ≡ h.execution.exit_code) × (c.result ≡ h.execution.result)

success_none : (e : Option ExecError) → task_status e ≡ codes "success" → e ≡ none
unfolding task_status text_eq
success_none none h = refl
success_none (some cancelled_by_control) h = absurd (text_eq_ne _ _ refl h)
success_none (some deadline_exceeded) h = absurd (text_eq_ne _ _ refl h)
success_none (some context_cancelled) h = absurd (text_eq_ne _ _ refl h)
success_none (some (execution e)) h = absurd (text_eq_ne _ _ refl h)

cancelled_control :
    (e : Option ExecError) → task_status e ≡ codes "cancelled" → e ≡ some cancelled_by_control
unfolding task_status text_eq
cancelled_control none h = absurd (text_eq_ne _ _ refl h)
cancelled_control (some cancelled_by_control) h = refl
cancelled_control (some deadline_exceeded) h = absurd (text_eq_ne _ _ refl h)
cancelled_control (some context_cancelled) h = absurd (text_eq_ne _ _ refl h)
cancelled_control (some (execution e)) h = absurd (text_eq_ne _ _ refl h)

final_error-none :
    (o : Option Text) (e : Option ExecError) → final_error o e ≡ none → (e ≡ none) × (o ≡ none)
unfolding final_error
final_error-none none e h = (h, refl)
final_error-none (some r) none h = cc
final_error-none (some r) (some cancelled_by_control) h = cc
final_error-none (some r) (some deadline_exceeded) h = cc
final_error-none (some r) (some context_cancelled) h = cc
final_error-none (some r) (some (execution e)) h = cc

final_error_control :
    (o : Option Text) (e : Option ExecError)
    → final_error o e ≡ some cancelled_by_control
    → (e ≡ some cancelled_by_control) ⊎ ((reason : Text) × (o ≡ some reason) × IsCancellable e)
unfolding final_error
final_error_control none e h = inl h
final_error_control (some r) none h = inr (r, refl, inl refl)
final_error_control (some r) (some context_cancelled) h = inr (r, refl, inr refl)
final_error_control (some r) (some cancelled_by_control) h = inl refl
final_error_control (some r) (some deadline_exceeded) h = cc
final_error_control (some r) (some (execution e)) h = cc

control-final_error :
    (o : Option Text) (e : Option ExecError)
    → e ≡ some cancelled_by_control
    → final_error o e ≡ some cancelled_by_control
unfolding final_error
control-final_error none e h = h
control-final_error (some r) none h = refl
control-final_error (some r) (some context_cancelled) h = refl
control-final_error (some r) (some cancelled_by_control) h = refl
control-final_error (some r) (some deadline_exceeded) h = cc
control-final_error (some r) (some (execution e)) h = cc

asked-final_error :
    (r : Text) (e : Option ExecError)
    → IsCancellable e
    → final_error (some r) e ≡ some cancelled_by_control
unfolding final_error
asked-final_error r e (inl h) = rw h refl
asked-final_error r e (inr h) = rw h refl

completion_of-status :
    (reason : Text) (e : Option ExecError) (x : Execution)
    → ((completion_of reason e x).status ≡ task_status e)
      × ((completion_of reason e x).exit_code ≡ x.exit_code)
      × ((completion_of reason e x).result ≡ x.result)
unfolding completion_of
completion_of-status reason none x = (refl, refl, refl)
completion_of-status reason (some cancelled_by_control) x = (refl, refl, refl)
completion_of-status reason (some deadline_exceeded) x = (refl, refl, refl)
completion_of-status reason (some context_cancelled) x = (refl, refl, refl)
completion_of-status reason (some (execution e)) x = (refl, refl, refl)

cancellation-Asked : (h : Handling) (reason : Text) → cancellation h ≡ some reason → Asked h reason
cancellation-Asked h reason e = elim (Bool-cases h.has_control) [
  | inl on ↦ (on, watch_task_control-Asks reason h.checks (simp on at e))
  | inr off ↦ cc (simp off at e)
]

-- No cancellation is one that nobody asked for, and the other way around.
no_cancellation : (h : Handling) → (cancellation h ≡ none) ↔ (¬ ((reason : Text) × Asked h reason))
no_cancellation h = (
  λ e (reason, asked). some_not_none reason (sym (Asked-cancellation h reason asked) ∙ e),
  λ unasked. by_cancellation (cancellation h) refl unasked,
)
  where
    some_not_none : (reason : Text) → some reason ≡ none → ⊥
    some_not_none reason e = cc

    by_cancellation :
        (o : Option Text) → cancellation h ≡ o → ¬ ((reason : Text) × Asked h reason) → o ≡ none
    by_cancellation none e unasked = refl
    by_cancellation (some r) e unasked = absurd (unasked (r, cancellation-Asked h r e))

completion-Reports :
    (h : Handling) → has_identity h ≡ true → Reports h (completion (cancellation h) h.execution)
unfolding completion
completion-Reports h known =
    let o = cancellation h in
    let e = final_error o h.execution.error in
    let (status, code, result) = completion_of-status (reason_of o) e h.execution in
    record {
      success_iff = (
        λ s.
            let (a, b) = final_error-none o h.execution.error (success_none e (sym status ∙ s)) in
            (known, a, (no_cancellation h).0 b),
        λ (k, a, b).
            rw (a, (no_cancellation h).1 b) (unfold completion_of final_error task_status in refl),
      );
      success_error = λ s. rw (success_none e (sym status ∙ s)) (unfold completion_of in refl);
      cancelled_iff = (
        λ s. (
          known,
          by_asked h
              (final_error_control o h.execution.error (cancelled_control e (sym status ∙ s))),
        ),
        λ (k, why). status ∙ ap task_status (ends_cancelled h why) ∙ (unfold task_status in refl),
      );
      executed = λ _. (code, result);
    }
  where
    by_asked :
        (h : Handling)
        → (h.execution.error ≡ some cancelled_by_control)
          ⊎ ((reason : Text) × (cancellation h ≡ some reason) × IsCancellable h.execution.error)
        → (h.execution.error ≡ some cancelled_by_control)
          ⊎ ((reason : Text) × Asked h reason × IsCancellable h.execution.error)
    by_asked h (inl e) = inl e
    by_asked h (inr (reason, o, e)) = inr (reason, cancellation-Asked h reason o, e)

    ends_cancelled :
        (h : Handling)
        → (h.execution.error ≡ some cancelled_by_control)
          ⊎ ((reason : Text) × Asked h reason × IsCancellable h.execution.error)
        → final_error (cancellation h) h.execution.error ≡ some cancelled_by_control
    ends_cancelled h (inl e) = control-final_error (cancellation h) h.execution.error e
    ends_cancelled h (inr (reason, asked, e)) =
        rw (Asked-cancellation h reason asked) (asked-final_error reason h.execution.error e)

no_identity-Reports : (h : Handling) → has_identity h ≡ false → Reports h no_identity
unfolding text_eq
no_identity-Reports h missing = record {
  success_iff = (λ s. absurd (text_eq_ne (codes "failed") _ refl s), λ (k, a, b). cc);
  success_error = λ s. absurd (text_eq_ne (codes "failed") _ refl s);
  cancelled_iff = (λ s. absurd (text_eq_ne (codes "failed") _ refl s), λ (k, a). cc);
  executed = λ k. cc;
}

abbrev pub IsReport : Event → Type 0
IsReport (completed c) = Unit
IsReport accepted = ⊥
IsReport started = ⊥

abbrev pub EndsInReport : Handling → List Event → Type 0
EndsInReport h events =
    (before : List Event) × (c : Completion) × (events ≡ before ++ completed c ∷ [])
    × All (λ e. ¬ IsReport e) before
    × Reports h c

-- Of the calls accepted, started and completed of a handler with realtime events, completed is the
-- last and happens exactly once. Its status is success exactly where the agent has an identity, the
-- execution ended without an error, and no check of a control client asked for a cancellation, and
-- then no error is reported. It is cancelled exactly where the agent has an identity, and the
-- execution ended as cancelled by the control endpoint, or a check asked for a cancellation and the
-- execution ended without an error or by its context. Where the agent has an identity, the exit
-- code and the result are those of the execution.
pub handle_task-EndsInReport :
    (h : Handling) → h.has_realtime ≡ true → EndsInReport h (handle_task h)
unfolding handle_task
handle_task-EndsInReport h on = elim (Bool-cases (has_identity h)) [
  | inr missing ↦
      (accepted ∷ [], no_identity, simp (on, missing), (λ x. x, tt), no_identity-Reports h missing)
  | inl known ↦ (
    accepted ∷ started ∷ [],
    completion (cancellation h) h.execution,
    simp (on, known),
    (λ x. x, (λ x. x, tt)),
    completion-Reports h known,
  )
]
