-- ===== src/Realtime/Session/Stale.antt =====
-- The credentials of an authentication behind a rotation of the token.
use noderax_agent.Prelude.{◌≡◌, false, some, [], ◌∷◌, ◌++◌, Text, trim_space, ok}
use noderax_agent.Config.Types.{Config, ConfigHost, is_blank}
use noderax_agent.Rootaccess
use noderax_agent.Rootaccess.{DesiredSnapshot, handle_desired_snapshot, build_agent_report}
use noderax_agent.Agent.Identity.{IdentityHost}
use noderax_agent.Agent.Service.{Agent, rotate_token}
use noderax_agent.Agent.Rotation.{identity-rotate_token}
use noderax_agent.Realtime.Session.{
  Session, root_access_updated, token_rotate, emit_auth, on_event, run_events,
}

-- A token that was rotated is authenticated with at once, and an update of the root access behind
-- it is answered by an authentication with the old token, with which the connection was opened; it
-- reports the root access as the update left it. The new token is not blank and its rotation
-- succeeds.
pub run_events_stale :
    (cfg : Config) (node_id token new : Text) (ih : IdentityHost) (ch : ConfigHost)
    (snapshot : DesiredSnapshot) (h : Rootaccess.Host) (s : Session) (a : Agent)
    → is_blank new ≡ false
    → rotate_token ih ch cfg new s.agent ≡ (ok tt, a)
    → (run_events cfg node_id token
        (token_rotate new ih ch ∷ root_access_updated (some snapshot) h ∷ [])
        s).emitted
      ≡ (s.emitted
          ++ record {
            node_id = s.agent.identity.node_id;
            agent_token = trim_space new;
            root_access = build_agent_report s.root;
          }
            ∷ [])
        ++ record {
          node_id = node_id;
          agent_token = token;
          root_access = build_agent_report (handle_desired_snapshot h (some snapshot) s.root);
        }
          ∷ []
unfolding run_events on_event emit_auth
run_events_stale cfg node_id token new ih ch snapshot h s a given r =
    rw (given, r, identity-rotate_token ih ch cfg new s.agent a r)
