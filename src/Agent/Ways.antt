-- ===== src/Agent/Ways.antt =====
-- `RunInteractiveEnrollment` and `RunBootstrapEnrollment`.
use noderax_agent.Prelude.{
  Bool, true, not, ◌||◌, Option, none, some, List, [], ◌∷◌, if◌then◌else◌, Text, codes, trim_space,
  to_lower, Outcome, ok, err,
}
use noderax_agent.Config.Types.{Config, ConfigHost, ConfigError, Disk, is_blank}
use noderax_agent.Config.Load.{save_file}
use noderax_agent.Agent.Identity.{
  Identity, is_ready, identity_not_found, load_identity, IdentityHost, Files, persist_identity,
}
use noderax_agent.Agent.Enrollment.{
  Enrolled, EnrollmentError, Poll, complete_enrollment, consume_failed, empty_token, finished,
  identity_failed, incomplete_credentials, initiate_failed, persist_token_failed, prompt_failed,
  value_required,
}

-- A round of `promptValue`: whether the prompt can be printed, what is read, how the read ends, and
-- whether the note that the value is required can be printed.
pub data ReadEnd : Type 0 where
  newline eof : ReadEnd
  read_error : Text → ReadEnd

pub record Prompt : Type 0 where
  pub prompt_error : Option Text
  pub value : Text
  pub read_end : ReadEnd
  pub note_error : Option Text

abbrev pub ask_again :
    Text
    → Option Text
    → ReadEnd
    → Option (Outcome EnrollmentError Text)
    → Option (Outcome EnrollmentError Text)
ask_again label (some e) end rest = some (err (prompt_failed e))
ask_again label none eof rest = some (err (value_required (to_lower label)))
ask_again label none newline rest = rest
ask_again label none (read_error e) rest = rest

abbrev pub take_value :
    Text
    → Bool
    → Prompt
    → ReadEnd
    → Option (Outcome EnrollmentError Text)
    → Option (Outcome EnrollmentError Text)
take_value label required p (read_error e) rest = some (err (prompt_failed e))
take_value label required p end rest =
    if not (is_blank p.value) || not required
    then some (ok (trim_space p.value))
    else ask_again label p.note_error end rest

abbrev pub prompted :
    Option Text → Option (Outcome EnrollmentError Text) → Option (Outcome EnrollmentError Text)
prompted none next = next
prompted (some e) next = some (err (prompt_failed e))

-- `none` while it waits for a line.
unfoldable pub prompt_value : Text → Bool → List Prompt → Option (Outcome EnrollmentError Text)
prompt_value label required [] = none
prompt_value label required (p ∷ prompts) =
    prompted p.prompt_error
      (take_value label required p p.read_end (prompt_value label required prompts))

pub record HostInfo : Type 0 where
  pub hostname : Text
  pub platform : Text
  pub os : Text
  pub architecture : Text
  pub platform_version : Text
  pub kernel_version : Text
  pub location : Option Text

pub record AdditionalInfo : Type 0 where
  pub os : Text
  pub arch : Text
  pub agent_version : Text
  pub platform_version : Text
  pub kernel_version : Text
  pub location : Option Text

unfoldable pub additional_info : HostInfo → Text → AdditionalInfo
additional_info info version = record {
  os = if is_blank info.platform then info.os else info.platform;
  arch = info.architecture;
  agent_version = version;
  platform_version = info.platform_version;
  kernel_version = info.kernel_version;
  location = info.location;
}

-- The calls of the backend: the token of an enrollment for an email address, and the credentials for a
-- token of an installation.
pub record EnrollmentClient : Type 0 where
  pub initiate : Text → Text → AdditionalInfo → Outcome Text Text
  pub consume : Text → Text → AdditionalInfo → Outcome Text (Text × Text)

unfoldable pub config_path_for_write : Config → Text
config_path_for_write cfg =
    if is_blank cfg.config_file then codes "./config.json" else cfg.config_file

-- What an enrollment finds: an identity that is ready, an error, or nothing in its way.
unfoldable pub existing_identity : Files → Option (Outcome EnrollmentError Identity)
unfolding load_identity
existing_identity files = elim (load_identity files.identity_file) [
  | ok i ↦ if is_ready i then some (ok i) else none
  | err identity_not_found ↦ none
  | err e ↦ some (err (identity_failed e))
]

abbrev pub unless_found : Option (Outcome EnrollmentError Identity) → Files → Enrolled → Enrolled
unless_found none files next = next
unless_found (some found) files next = (some found, files)

-- The pending token is written, and the wait begins.
abbrev pub token_saved :
    IdentityHost
    → ConfigHost
    → Config
    → Text
    → List Poll
    → Files
    → Outcome ConfigError (Unit {0}) × Disk
    → Enrolled
token_saved h ch cfg token polls files (err e, disk) =
    (some (err (persist_token_failed e)), record files { configs = disk })
token_saved h ch cfg token polls files (ok _, disk) =
    complete_enrollment h ch cfg token polls (record files { configs = disk })

abbrev pub initiated :
    IdentityHost → ConfigHost → Config → List Poll → Files → Outcome Text Text → Enrolled
initiated h ch cfg polls files (err e) = (some (err (initiate_failed e)), files)
initiated h ch cfg polls files (ok token) =
    let path = config_path_for_write cfg in
    let cfg' : Config = record cfg { config_file = path; enrollment_token = token } in
    if is_blank token
    then (some (err empty_token), files)
    else token_saved h ch cfg' token polls files (save_file ch path cfg' files.configs)

abbrev pub with_email : Option (Outcome EnrollmentError Text) → Files → (Text → Enrolled) → Enrolled
with_email none files next = (none, files)
with_email (some (err e)) files next = (some (err e), files)
with_email (some (ok email)) files next = next email

unfoldable pub run_interactive_enrollment :
    IdentityHost
    → ConfigHost
    → EnrollmentClient
    → HostInfo
    → Text
    → Config
    → List Prompt
    → List Poll
    → Files
    → Enrolled
unfolding existing_identity prompt_value additional_info config_path_for_write complete_enrollment
run_interactive_enrollment h ch client info version cfg prompts polls files =
    unless_found (existing_identity files) files (
      with_email (prompt_value (codes "Email address") true prompts) files λ email.
        initiated h ch cfg polls files
          (client.initiate email info.hostname (additional_info info version)))

abbrev pub consumed :
    IdentityHost → ConfigHost → Config → Text → Files → Outcome Text (Text × Text) → Enrolled
consumed h ch cfg now files (err e) = (some (err (consume_failed e)), files)
consumed h ch cfg now files (ok (node_id, agent_token)) =
    if is_blank node_id || is_blank agent_token
    then (some (err incomplete_credentials), files)
    else let i : Identity = record {
      node_id = node_id;
      agent_token = agent_token;
      registered_at = now;
    } in
      finished i (persist_identity h ch cfg i files)

unfoldable pub run_bootstrap_enrollment :
    IdentityHost
    → ConfigHost
    → EnrollmentClient
    → HostInfo
    → Text
    → Text
    → Config
    → Text
    → Files
    → Enrolled
unfolding existing_identity additional_info persist_identity
run_bootstrap_enrollment h ch client info version now cfg token files =
    unless_found (existing_identity files) files (
      consumed h ch cfg now files
        (client.consume (trim_space token) info.hostname (additional_info info version)))
