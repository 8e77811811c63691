-- ===== src/Agent/Enrollment.antt =====
-- The status of an enrollment, and the wait for its approval.
use noderax_agent.Prelude.{
  ◌||◌, Option, none, some, List, [], ◌∷◌, if◌then◌else◌, Text, codes, is_empty, text_eq,
  trim_space, to_lower, Outcome, ok, err,
}
use noderax_agent.Config.Types.{Config, ConfigHost, ConfigError, is_blank}
use noderax_agent.Agent.Identity.{Identity, IdentityError, IdentityHost, Files, persist_identity}

pub record EnrollmentStatus : Type 0 where
  pub status : Text
  pub node_id : Text
  pub agent_token : Text

pub data EnrollmentError : Type 0 where
  identity_failed : IdentityError → EnrollmentError
  prompt_failed : Text → EnrollmentError
  value_required : Text → EnrollmentError
  initiate_failed consume_failed : Text → EnrollmentError
  empty_token incomplete_credentials token_required : EnrollmentError
  persist_token_failed : ConfigError → EnrollmentError
  persist_failed : Text → EnrollmentError
  no_credentials revoked expired : EnrollmentError
  rejected unexpected_status : Text → EnrollmentError
  context_done : Text → EnrollmentError

unfoldable pub enrollment_message : EnrollmentStatus → Text
enrollment_message status = codes "no details provided"

abbrev pub or_status : Text → EnrollmentStatus → Text
or_status message status = if is_empty message then status.status else message

-- `none` where the enrollment is not done.
unfoldable pub identity_from_enrollment_status :
    EnrollmentStatus → Text → Option (Outcome EnrollmentError Identity)
unfolding enrollment_message
identity_from_enrollment_status status now =
    let state = to_lower (trim_space status.status) in
    if text_eq state (codes "approved")
    then (if is_blank status.node_id || is_blank status.agent_token
        then some (err no_credentials)
        else some (
            ok (record {
              node_id = status.node_id;
              agent_token = status.agent_token;
              registered_at = now;
            })))
    else if is_empty state || text_eq state (codes "pending")
    then none
    else if text_eq state (codes "revoked")
    then some (err revoked)
    else if text_eq state (codes "rejected") || text_eq state (codes "denied")
    then some (err (rejected (enrollment_message status)))
    else if text_eq state (codes "expired")
    then some (err expired)
    else some (err (unexpected_status (or_status (enrollment_message status) status)))

-- A round of the poll: the answer; the error of the context, if it is done behind an answer that is an
-- error; the time; and the error of the context, if it is done before the next tick.
pub record Poll : Type 0 where
  pub answer : Outcome Text EnrollmentStatus
  pub done_after : Option Text
  pub now : Text
  pub done_before_tick : Option Text

abbrev pub context_error {ℓ} : {A : Type ℓ} → Option Text → Option (Outcome EnrollmentError A)
context_error none = none
context_error (some e) = some (err (context_done e))

-- What the answer of a round ends the wait with.
unfoldable pub answered :
    Outcome Text EnrollmentStatus → Option Text → Text → Option (Outcome EnrollmentError Identity)
unfolding identity_from_enrollment_status
answered (err e) ctx_err now = context_error ctx_err
answered (ok status) ctx_err now = identity_from_enrollment_status status now

abbrev pub or_else {ℓ} : {A : Type ℓ} → Option A → Option A → Option A
or_else none next = next
or_else (some a) next = some a

-- The loop over the rounds so far: `none` while it waits.
unfoldable pub poll_enrollment : List Poll → Option (Outcome EnrollmentError Identity)
unfolding answered
poll_enrollment [] = none
poll_enrollment (p ∷ polls) =
    or_else (answered p.answer p.done_after p.now)
      (or_else (context_error p.done_before_tick) (poll_enrollment polls))

-- The timeouts and the interval of the poll are in the rounds.
unfoldable pub wait_for_enrollment_approval :
    Text → List Poll → Option (Outcome EnrollmentError Identity)
unfolding poll_enrollment
wait_for_enrollment_approval token polls =
    if is_blank token then some (err token_required) else poll_enrollment polls

-- What an enrollment ends with, if it ends, and the files.
abbrev pub Enrolled : Type 0
Enrolled = Option (Outcome EnrollmentError Identity) × Files

abbrev pub finished : Identity → Outcome Text (Unit {0}) × Files → Enrolled
finished i (ok _, files) = (some (ok i), files)
finished i (err e, files) = (some (err (persist_failed e)), files)

abbrev pub complete_with :
    IdentityHost
    → ConfigHost
    → Config
    → Option (Outcome EnrollmentError Identity)
    → Files
    → Enrolled
complete_with h ch cfg none files = (none, files)
complete_with h ch cfg (some (err e)) files = (some (err e), files)
complete_with h ch cfg (some (ok i)) files = finished i (persist_identity h ch cfg i files)

unfoldable pub complete_enrollment :
    IdentityHost → ConfigHost → Config → Text → List Poll → Files → Enrolled
unfolding persist_identity wait_for_enrollment_approval
complete_enrollment h ch cfg token polls files =
    complete_with h ch cfg (wait_for_enrollment_approval token polls) files
