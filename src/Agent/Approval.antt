-- ===== src/Agent/Approval.antt =====
-- What an enrollment that succeeds has found and stored.
use noderax_agent.Prelude.{
  ◌≡◌, refl, ap, subst, inl, inr, true, false, ◌||◌, Option, none, some, List, [], ◌∷◌, arith,
  Bool-cases, Option-cases, Text, codes, text_eq-eq, trim_space, to_lower, Outcome, ok, err,
}
use noderax_agent.Config.Types.{Config, ConfigError, ConfigHost, Disk, is_blank}
use noderax_agent.Config.Load.{save_file}
use noderax_agent.Config.RoundTrip.{blank_empty}
use noderax_agent.Agent.Identity.{
  Identity, is_ready, IdentityFile, holds, missing, unreadable, undecodable, IdentityHost, Files,
  load_identity, persist_identity,
}
use noderax_agent.Agent.Enrollment.{
  EnrollmentStatus, EnrollmentError, identity_from_enrollment_status, Poll, answered,
  poll_enrollment, wait_for_enrollment_approval, Enrolled, finished, complete_with,
  complete_enrollment,
}
use noderax_agent.Agent.Ways.{
  Prompt, HostInfo, EnrollmentClient, existing_identity, unless_found, token_saved, initiated,
  with_email, run_interactive_enrollment, consumed, run_bootstrap_enrollment, config_path_for_write,
  prompt_value, additional_info,
}
use noderax_agent.Agent.Rotation.{identity_file-persist_identity}

-- The identity of an approval, with the time at which it came.
pub record IsApproval (status : EnrollmentStatus) (now : Text) (i : Identity) : Type 0 where
  pub approved : to_lower (trim_space status.status) ≡ codes "approved"
  pub node_given : is_blank status.node_id ≡ false
  pub token_given : is_blank status.agent_token ≡ false
  pub identity_eq :
      i ≡ record { node_id = status.node_id; agent_token = status.agent_token; registered_at = now }

status-IsApproval :
    (status : EnrollmentStatus) (now : Text) (i : Identity)
    → identity_from_enrollment_status status now ≡ some (ok i)
    → IsApproval status now i
unfolding identity_from_enrollment_status
status-IsApproval status now i e =
    ground (arith, text_eq-eq (to_lower (trim_space status.status)) (codes "approved"))

-- The rounds up to an approval: none of those before it ended the wait.
pub data Approved (i : Identity) : List Poll → Type 0 where
  here :
      (p : Poll) (polls : List Poll) (status : EnrollmentStatus)
      → p.answer ≡ ok status
      → IsApproval status p.now i
      → Approved i (p ∷ polls)
  later :
      (p : Poll) (polls : List Poll)
      → answered p.answer p.done_after p.now ≡ none
      → p.done_before_tick ≡ none
      → Approved i polls
      → Approved i (p ∷ polls)

answered-ok :
    (answer : Outcome Text EnrollmentStatus) (ctx_err : Option Text) (now : Text) (i : Identity)
    → answered answer ctx_err now ≡ some (ok i)
    → (status : EnrollmentStatus) × (answer ≡ ok status) × IsApproval status now i
unfolding answered
answered-ok (ok status) ctx_err now i e = (status, refl, status-IsApproval status now i e)
answered-ok (err m) none now i e = cc
answered-ok (err m) (some x) now i e = cc

pub poll_enrollment-Approved :
    (polls : List Poll) (i : Identity) → poll_enrollment polls ≡ some (ok i) → Approved i polls
unfolding poll_enrollment
poll_enrollment-Approved [] i e = cc
poll_enrollment-Approved (p ∷ polls) i e =
    elim (Option-cases (answered p.answer p.done_after p.now)) [
      | inr (o, decided) ↦
          let same : answered p.answer p.done_after p.now ≡ some (ok i) = ground arith in
          let (status, a, v) = answered-ok p.answer p.done_after p.now i same in
          here p polls status a v
      | inl open_still ↦ elim (Option-cases p.done_before_tick) [
        | inr (x, stop) ↦ absurd (ground arith)
        | inl go_on ↦
            later p polls open_still go_on
              (poll_enrollment-Approved polls i (rw (open_still, go_on) at e))
      ]
    ]

Approved-ready : (polls : List Poll) (i : Identity) → Approved i polls → is_ready i ≡ true
unfolding is_ready
Approved-ready [] i v = elim v [ ]
Approved-ready (p ∷ polls) i (here _ _ status a v) =
    ground
      (arith, blank_empty status.node_id v.node_given, blank_empty status.agent_token v.token_given)
Approved-ready (p ∷ polls) i (later _ _ a b v) = Approved-ready polls i v

-- An identity that is ready and stored.
abbrev pub IsStored : Identity → Files → Type 0
IsStored i files = (is_ready i ≡ true) × (files.identity_file ≡ holds i)

finished-IsStored :
    (i j : Identity) (saved : Outcome Text (Unit {0}) × Files) (after : Files)
    → is_ready i ≡ true
    → ((f : Files) → saved ≡ (ok tt, f) → f.identity_file ≡ holds i)
    → ◌≡◌ {A = Enrolled} (finished i saved) (some (ok j), after)
    → IsStored j after
finished-IsStored i j (ok tt, f) after ready stored e = let there = stored f refl in (cc, cc)
finished-IsStored i j (err m, f) after ready stored e = cc

complete_with-IsStored :
    (h : IdentityHost) (ch : ConfigHost) (cfg : Config)
    (o : Option (Outcome EnrollmentError Identity)) (files after : Files) (j : Identity)
    → ((i : Identity) → o ≡ some (ok i) → is_ready i ≡ true)
    → ◌≡◌ {A = Enrolled} (complete_with h ch cfg o files) (some (ok j), after)
    → IsStored j after
complete_with-IsStored h ch cfg none files after j ready e = cc
complete_with-IsStored h ch cfg (some (err m)) files after j ready e = cc
complete_with-IsStored h ch cfg (some (ok i)) files after j ready e =
    finished-IsStored i j (persist_identity h ch cfg i files) after (ready i refl)
      (identity_file-persist_identity h ch cfg i files) e

wait-ready :
    (token : Text) (polls : List Poll) (i : Identity)
    → wait_for_enrollment_approval token polls ≡ some (ok i)
    → is_ready i ≡ true
unfolding wait_for_enrollment_approval
wait-ready token polls i e = elim (Bool-cases (is_blank token)) [
  | inl blank ↦ absurd (ground arith)
  | inr given ↦ Approved-ready polls i (poll_enrollment-Approved polls i (rw given at e))
]

complete_enrollment-IsStored :
    (h : IdentityHost) (ch : ConfigHost) (cfg : Config) (token : Text) (polls : List Poll)
    (files after : Files) (j : Identity)
    → complete_enrollment h ch cfg token polls files ≡ (some (ok j), after)
    → IsStored j after
unfolding complete_enrollment
complete_enrollment-IsStored h ch cfg token polls files after j e =
    complete_with-IsStored h ch cfg (wait_for_enrollment_approval token polls) files after j
      (wait-ready token polls) e

existing_identity-holds :
    (f : IdentityFile) (files : Files) (j : Identity)
    → existing_identity (record files { identity_file = f }) ≡ some (ok j)
    → (is_ready j ≡ true) × (f ≡ holds j)
unfolding existing_identity load_identity
existing_identity-holds missing files j e = cc
existing_identity-holds (unreadable m) files j e = cc
existing_identity-holds (undecodable m) files j e = cc
existing_identity-holds (holds i) files j e = ground arith

unless_found-IsStored :
    (o : Option (Outcome EnrollmentError Identity)) (files after : Files) (next : Enrolled)
    (j : Identity)
    → (o ≡ some (ok j) → IsStored j files)
    → (next ≡ (some (ok j), after) → IsStored j after)
    → ◌≡◌ {A = Enrolled} (unless_found o files next) (some (ok j), after)
    → IsStored j after
unless_found-IsStored none files after next j found goes e = goes e
unless_found-IsStored (some (ok i)) files after next j found goes e =
    let same : files ≡ after = cc in
    let i-j : i ≡ j = cc in subst (IsStored j) same (found (ap (λ (x : Identity). some (ok x)) i-j))
unless_found-IsStored (some (err m)) files after next j found goes e = cc

initiated-IsStored :
    (h : IdentityHost) (ch : ConfigHost) (cfg : Config) (polls : List Poll) (files after : Files)
    (o : Outcome Text Text) (j : Identity)
    → ◌≡◌ {A = Enrolled} (initiated h ch cfg polls files o) (some (ok j), after)
    → IsStored j after
initiated-IsStored h ch cfg polls files after (err m) j e = cc
initiated-IsStored h ch cfg polls files after (ok token) j e =
    let path = config_path_for_write cfg in
    let cfg' : Config = record cfg { config_file = path; enrollment_token = token } in
    elim (Bool-cases (is_blank token)) [
      | inl blank ↦ absurd (ground arith)
      | inr given ↦ by_save cfg' (save_file ch path cfg' files.configs) (rw given at e)
    ]
  where
    by_save :
        (c : Config) (s : Outcome ConfigError (Unit {0}) × Disk)
        → ◌≡◌ {A = Enrolled} (token_saved h ch c token polls files s) (some (ok j), after)
        → IsStored j after
    by_save c (err m, disk) w = cc
    by_save c (ok tt, disk) w =
        complete_enrollment-IsStored h ch c token polls (record files { configs = disk }) after j w

with_email-IsStored :
    (o : Option (Outcome EnrollmentError Text)) (files after : Files) (next : Text → Enrolled)
    (j : Identity)
    → ((email : Text) → next email ≡ (some (ok j), after) → IsStored j after)
    → ◌≡◌ {A = Enrolled} (with_email o files next) (some (ok j), after)
    → IsStored j after
with_email-IsStored none files after next j goes e = cc
with_email-IsStored (some (err m)) files after next j goes e = cc
with_email-IsStored (some (ok email)) files after next j goes e = goes email e

consumed-IsStored :
    (h : IdentityHost) (ch : ConfigHost) (cfg : Config) (now : Text) (files after : Files)
    (o : Outcome Text (Text × Text)) (j : Identity)
    → ◌≡◌ {A = Enrolled} (consumed h ch cfg now files o) (some (ok j), after)
    → IsStored j after
unfolding is_ready
consumed-IsStored h ch cfg now files after (err m) j e = cc
consumed-IsStored h ch cfg now files after (ok (node_id, agent_token)) j e =
    elim (Bool-cases (is_blank node_id || is_blank agent_token)) [
      | inl blank ↦ absurd (ground arith)
      | inr given ↦
          let i : Identity = record {
            node_id = node_id;
            agent_token = agent_token;
            registered_at = now;
          } in
          finished-IsStored i j (persist_identity h ch cfg i files) after
            (ground (arith, blank_empty node_id, blank_empty agent_token))
            (identity_file-persist_identity h ch cfg i files) (rw given at e)
    ]

-- The three ways to an identity.
pub data Way : Type 0 where
  interactive : List Prompt → List Poll → Way
  bootstrap : Text → Text → Way
  resumed : Text → List Poll → Way

unfoldable pub run_enrollment :
    IdentityHost → ConfigHost → EnrollmentClient → HostInfo → Text → Config → Way → Files → Enrolled
unfolding run_interactive_enrollment run_bootstrap_enrollment complete_enrollment
run_enrollment h ch client info version cfg (interactive prompts polls) files =
    run_interactive_enrollment h ch client info version cfg prompts polls files
run_enrollment h ch client info version cfg (bootstrap now token) files =
    run_bootstrap_enrollment h ch client info version now cfg token files
run_enrollment h ch client info version cfg (resumed token polls) files =
    complete_enrollment h ch cfg token polls files

-- Every enrollment that succeeds, by prompt, by a token of an installation or by the token of the
-- configuration, on any host and with any answers, ends with an identity that has a node and a
-- token, and that is the one in the identity file.
pub run_enrollment-IsStored :
    (h : IdentityHost) (ch : ConfigHost) (client : EnrollmentClient) (info : HostInfo)
    (version : Text) (cfg : Config) (way : Way) (files after : Files) (j : Identity)
    → run_enrollment h ch client info version cfg way files ≡ (some (ok j), after)
    → IsStored j after
unfolding run_enrollment run_interactive_enrollment run_bootstrap_enrollment
run_enrollment-IsStored h ch client info version cfg (interactive prompts polls) files after j e =
    unless_found-IsStored (existing_identity files) files after _ j
      (existing_identity-holds files.identity_file files j)
      (with_email-IsStored (prompt_value (codes "Email address") true prompts) files after _ j
        (λ email.
          initiated-IsStored h ch cfg polls files after
            (client.initiate email info.hostname (additional_info info version)) j))
      e
run_enrollment-IsStored h ch client info version cfg (bootstrap now token) files after j e =
    unless_found-IsStored (existing_identity files) files after _ j
      (existing_identity-holds files.identity_file files j)
      (consumed-IsStored h ch cfg now files after
        (client.consume (trim_space token) info.hostname (additional_info info version)) j)
      e
run_enrollment-IsStored h ch client info version cfg (resumed token polls) files after j e =
    complete_enrollment-IsStored h ch cfg token polls files after j e
