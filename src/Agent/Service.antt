-- ===== src/Agent/Service.antt =====
-- service.go: the identity that a start of the agent takes, and the rotation of its token.
use noderax_agent.Prelude.{
  not, Option, none, some, List, [], if◌then◌else◌, Text, trim_space, Outcome, ok, err,
}
use noderax_agent.Config.Types.{Config, ConfigError, ConfigHost, is_blank}
use noderax_agent.Config.Load.{load}
use noderax_agent.Agent.Identity.{
  Identity, is_ready, IdentityError, identity_not_found, load_identity, IdentityHost, Files,
  persist_identity,
}
use noderax_agent.Agent.Enrollment.{EnrollmentError, Poll, complete_enrollment}

-- The agent: the identity that its manager holds, the credentials that the API client sends, and the
-- files.
pub record Agent : Type 0 where
  pub identity : Identity
  pub client_node_id : Text
  pub client_token : Text
  pub files : Files

pub data AgentError : Type 0 where
  config_failed : ConfigError → AgentError
  identity_failed : IdentityError → AgentError
  identity_missing rotation_incomplete : AgentError
  enrollment_failed : EnrollmentError → AgentError
  persist_failed : Text → AgentError

-- `NewService`: the identity of the configuration. `main` hands a token to the client.
unfoldable pub new_service : Config → Files → Agent
new_service cfg files = record {
  identity = record { node_id = cfg.node_id; agent_token = cfg.agent_token; registered_at = [] };
  client_node_id = [];
  client_token = cfg.agent_token;
  files = files;
}

abbrev pub set_client : Identity → Agent → Agent
set_client i a = record a { client_node_id = i.node_id; client_token = i.agent_token }

abbrev pub set_identity : Identity → Agent → Agent
set_identity i a = record (set_client i a) { identity = i }

-- What a start ends with: `none` while it waits for the approval of the enrollment.
abbrev pub Started : Type 0
Started = Option (Outcome AgentError (Unit {0})) × Agent

abbrev pub enrolled : Agent → Option (Outcome EnrollmentError Identity) × Files → Started
enrolled a (none, files) = (none, record a { files = files })
enrolled a (some (err e), files) = (some (err (enrollment_failed e)), record a { files = files })
enrolled a (some (ok i), files) = (some (ok tt), set_identity i (record a { files = files }))

abbrev pub enroll : IdentityHost → ConfigHost → Config → List Poll → Agent → Started
enroll h ch cfg polls a =
    if is_blank cfg.enrollment_token
    then (some (err identity_missing), a)
    else enrolled a (complete_enrollment h ch cfg cfg.enrollment_token polls a.files)

abbrev pub stored :
    IdentityHost
    → ConfigHost
    → Config
    → List Poll
    → Agent
    → Outcome IdentityError Identity
    → Started
stored h ch cfg polls a (ok i) =
    if is_ready i then (some (ok tt), set_identity i a) else enroll h ch cfg polls a
stored h ch cfg polls a (err identity_not_found) = enroll h ch cfg polls a
stored h ch cfg polls a (err e) = (some (err (identity_failed e)), a)

unfoldable pub bootstrap_identity : IdentityHost → ConfigHost → Config → List Poll → Agent → Started
unfolding complete_enrollment load_identity
bootstrap_identity h ch cfg polls a =
    if is_ready a.identity
    then (some (ok tt), set_client a.identity a)
    else stored h ch cfg polls a (load_identity a.files.identity_file)

-- The handler of a rotated token. `cfg` is the configuration of the start.
abbrev pub rotated :
    Identity → Agent → Outcome Text (Unit {0}) × Files → Outcome AgentError (Unit {0}) × Agent
rotated i a (err e, files) = (err (persist_failed e), record a { files = files })
rotated i a (ok _, files) = (ok tt, set_identity i (record a { files = files }))

unfoldable pub rotate_token :
    IdentityHost → ConfigHost → Config → Text → Agent → Outcome AgentError (Unit {0}) × Agent
unfolding persist_identity
rotate_token h ch cfg token a =
    let next : Identity = record (a.identity) { agent_token = trim_space token } in
    if not (is_ready next)
    then (err rotation_incomplete, a)
    else rotated next a (persist_identity h ch cfg next a.files)

-- A start of the program with the files that it finds.
abbrev pub booted : Started → Option (Outcome AgentError Agent)
booted (none, a) = none
booted (some (err e), a) = some (err e)
booted (some (ok _), a) = some (ok a)

abbrev pub start_with :
    IdentityHost
    → ConfigHost
    → List Poll
    → Files
    → Outcome ConfigError Config
    → Option (Outcome AgentError Agent)
start_with h ch polls files (err e) = some (err (config_failed e))
start_with h ch polls files (ok cfg) =
    booted (bootstrap_identity h ch cfg polls (new_service cfg files))

unfoldable pub start :
    IdentityHost → ConfigHost → List Poll → Files → Option (Outcome AgentError Agent)
unfolding bootstrap_identity new_service
start h ch polls files = start_with h ch polls files (load ch files.configs)
