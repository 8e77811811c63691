-- ===== src/Realtime/Session.antt =====
-- `connect`: the handlers of the events of a session, with the hooks that internal/agent sets for them.
pub mod Active
pub mod Stale
use noderax_agent.Prelude.{
  ap, Bool, true, false, not, ◌||◌, Option, none, some, List, [], ◌∷◌, ◌++◌, if◌then◌else◌, Text,
  codes, is_empty, trim_space, to_lower, contains, Outcome, ok, err,
}
use noderax_agent.Config.Types.{Config, ConfigHost, is_blank}
use noderax_agent.Rootaccess
use noderax_agent.Rootaccess.{
  DesiredSnapshot, AgentReport, Manager, handle_desired_snapshot, build_agent_report,
}
use noderax_agent.Agent.Identity.{IdentityHost}
use noderax_agent.Agent.Service.{Agent, AgentError, rotate_token}

-- `classifyDialError`.
pub data DialError : Type 0 where
  invalid_url tls_failure namespace_failure transport_failure : Text → DialError

unfoldable pub classify_dial_error : Text → DialError
classify_dial_error e =
    let message = to_lower e in
    if contains message (codes "invalid input") || contains message (codes "invalid url")
    then invalid_url e
    else if contains message (codes "tls")
        || contains message (codes "certificate")
        || contains message (codes "x509")
    then tls_failure e
    else if contains message (codes "connect error") || contains message (codes "namespace")
    then namespace_failure e
    else transport_failure e

pub data ConnectError : Type 0 where
  not_authenticated : ConnectError
  auth_failed : Text → ConnectError
  namespace_refused : Text → ConnectError
  dial_failed : DialError → ConnectError

-- The authentication that is emitted, with what it says of the root access.
pub record AuthEvent : Type 0 where
  pub node_id : Text
  pub agent_token : Text
  pub root_access : AgentReport

-- The session: whether it is active; the channels of one place for the acknowledgement, the error of the
-- connection and its end; the authentications emitted; and the parts of the agent that the hooks change.
pub record Session : Type 0 where
  pub active : Bool
  pub auth_ok : Bool
  pub connect_err : Option ConnectError
  pub disconnected : Option Text
  pub emitted : List AuthEvent
  pub root : Manager
  pub agent : Agent

-- What the backend and the library call the handlers with, and the host that the hooks see then.
pub data Event : Type 0 where
  connected : Event
  auth_ack : Bool → Option DesiredSnapshot → Rootaccess.Host → Event
  root_access_updated : Option DesiredSnapshot → Rootaccess.Host → Event
  auth_error : Text → Text → Event
  token_rotate : Text → IdentityHost → ConfigHost → Event
  connect_error disconnect manager_error : Text → Event

-- A send that does not wait, to a channel of one place.
abbrev pub offer {ℓ} : {A : Type ℓ} → A → Option A → Option A
offer new none = some new
offer new (some old) = some old

-- `socket.Emit(EventAgentAuth, s.authPayload(...))`.
unfoldable pub emit_auth : Text → Text → Session → Session
emit_auth node_id token s = record s {
  emitted =
      s.emitted
      ++ record { node_id = node_id; agent_token = token; root_access = build_agent_report s.root }
        ∷ [];
}

unfoldable pub error_message : Text → Text → Text
error_message message error =
    let m = trim_space message in
    let e = trim_space error in
    if not (is_empty m) then m else if not (is_empty e) then e else codes "unknown auth error"

-- An error of the rotation is logged.
abbrev pub rotated : Session → Outcome AgentError (Unit {0}) × Agent → Session
rotated s (err e, a) = record s { agent = a }
rotated s (ok _, a) = emit_auth a.identity.node_id a.identity.agent_token (record s { agent = a })

-- The handlers of a connection that was opened with the credentials `node_id` and `token`.
module _ (cfg : Config) (node_id token : Text) where
  unfoldable pub on_event : Event → Session → Session
  unfolding emit_auth error_message classify_dial_error
  on_event connected s = emit_auth node_id token s
  on_event (auth_ack false root h) s = record s {
    connect_err = offer not_authenticated s.connect_err;
  }
  on_event (auth_ack true root h) s = record s {
    active = true;
    root = handle_desired_snapshot h root s.root;
    auth_ok = true;
  }
  on_event (root_access_updated none h) s = s
  on_event (root_access_updated (some snapshot) h) s =
      emit_auth node_id token (record s { root = handle_desired_snapshot h (some snapshot) s.root })
  on_event (auth_error message error) s = record s {
    active = false;
    connect_err = offer (auth_failed (error_message message error)) s.connect_err;
  }
  on_event (token_rotate new ih ch) s =
      if is_blank new then s else rotated s (rotate_token ih ch cfg new s.agent)
  on_event (connect_error e) s = record s {
    connect_err = offer (namespace_refused e) s.connect_err;
  }
  on_event (disconnect reason) s = record s {
    active = false;
    disconnected = offer reason s.disconnected;
  }
  on_event (manager_error e) s = record s {
    active = false;
    connect_err = offer (dial_failed (classify_dial_error e)) s.connect_err;
  }

  unfoldable pub run_events : List Event → Session → Session
  unfolding on_event
  run_events [] s = s
  run_events (e ∷ events) s = run_events events (on_event e s)

-- `SendMetrics` and `RefreshAuth` begin with this test.
unfoldable pub may_send : Session → Bool
may_send s = s.active

-- What the select of `runConnection` waits for, but for the context and the write loop.
unfoldable pub connection_ended : Session → Bool
connection_ended s = elim s.disconnected [ none ↦ false | some reason ↦ true ]
