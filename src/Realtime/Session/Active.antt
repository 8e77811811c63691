-- ===== src/Realtime/Session/Active.antt =====
-- When a session may send, and when its connection is given up.
use noderax_agent.Prelude.{
  ◌≡◌, refl, Bool, true, false, Option, none, some, List, [], ◌∷◌, Text, Outcome, ok, err,
  Bool-cases, inl, inr, All,
}
use noderax_agent.Config.Types.{Config, is_blank}
use noderax_agent.Agent.Service.{Agent, AgentError, rotate_token}
use noderax_agent.Realtime.Session.{
  Session, Event, connected, auth_ack, root_access_updated, auth_error, token_rotate, connect_error,
  disconnect, manager_error, emit_auth, rotated, on_event, run_events, may_send, connection_ended,
}

-- What an event says of the session: an acknowledgement opens it; an error of the authentication, one of
-- the manager and a disconnection close it.
unfoldable pub signal : Event → Option Bool
signal (auth_ack true root h) = some true
signal (auth_ack false root h) = none
signal (auth_error message error) = some false
signal (disconnect reason) = some false
signal (manager_error e) = some false
signal connected = none
signal (root_access_updated root h) = none
signal (token_rotate new ih ch) = none
signal (connect_error e) = none

abbrev or_before : Option Bool → Bool → Bool
or_before none before = before
or_before (some b) before = b

unfoldable pub last_signal : List Event → Bool → Bool
unfolding signal
last_signal [] before = before
last_signal (e ∷ events) before = last_signal events (or_before (signal e) before)

active-rotated :
    (s : Session) (r : Outcome AgentError (Unit {0}) × Agent) → (rotated s r).active ≡ s.active
unfolding emit_auth
active-rotated s (err e, a) = refl
active-rotated s (ok u, a) = refl

module _ (cfg : Config) (node_id token : Text) where
  active-on_event :
      (e : Event) (s : Session)
      → (on_event cfg node_id token e s).active ≡ or_before (signal e) s.active
  unfolding on_event signal emit_auth
  active-on_event connected s = refl
  active-on_event (auth_ack true root h) s = refl
  active-on_event (auth_ack false root h) s = refl
  active-on_event (root_access_updated none h) s = refl
  active-on_event (root_access_updated (some d) h) s = refl
  active-on_event (auth_error message error) s = refl
  active-on_event (token_rotate new ih ch) s = elim (Bool-cases (is_blank new)) [
    | inl blank ↦ rw blank refl
    | inr given ↦ rw given (active-rotated s (rotate_token ih ch cfg new s.agent))
  ]
  active-on_event (connect_error e) s = refl
  active-on_event (disconnect reason) s = refl
  active-on_event (manager_error e) s = refl

  -- A session may send exactly if the last event that says anything of it was an acknowledgement,
  -- or none said anything and it could before.
  pub may_send-run_events :
      (events : List Event) (s : Session)
      → may_send (run_events cfg node_id token events s) ≡ last_signal events (may_send s)
  unfolding run_events last_signal may_send
  may_send-run_events [] s = refl
  may_send-run_events (e ∷ events) s =
      rw (may_send-run_events events (on_event cfg node_id token e s), active-on_event e s)

  -- An event that neither acknowledges the session nor ends the connection.
  abbrev pub IsQuiet : Event → Type 0
  IsQuiet (auth_ack true root h) = ⊥
  IsQuiet (auth_ack false root h) = Unit
  IsQuiet (disconnect reason) = ⊥
  IsQuiet (auth_error message error) = Unit
  IsQuiet (manager_error e) = Unit
  IsQuiet connected = Unit
  IsQuiet (root_access_updated root h) = Unit
  IsQuiet (token_rotate new ih ch) = Unit
  IsQuiet (connect_error e) = Unit

  -- A session that cannot send, over a connection that goes on.
  abbrev pub IsStuck : Session → Type 0
  IsStuck s = (may_send s ≡ false) × (connection_ended s ≡ false)

  rotated-IsStuck :
      (s : Session) (r : Outcome AgentError (Unit {0}) × Agent) → IsStuck s → IsStuck (rotated s r)
  unfolding emit_auth may_send connection_ended
  rotated-IsStuck s (err e, a) k = k
  rotated-IsStuck s (ok u, a) k = k

  on_event-IsStuck :
      (e : Event) (s : Session) → IsQuiet e → IsStuck s → IsStuck (on_event cfg node_id token e s)
  unfolding on_event emit_auth may_send connection_ended
  on_event-IsStuck connected s q k = k
  on_event-IsStuck (auth_ack true root h) s q k = elim q [ ]
  on_event-IsStuck (auth_ack false root h) s q k = k
  on_event-IsStuck (root_access_updated none h) s q k = k
  on_event-IsStuck (root_access_updated (some d) h) s q k = k
  on_event-IsStuck (auth_error message error) s q k = (refl, k.1)
  on_event-IsStuck (token_rotate new ih ch) s q k = elim (Bool-cases (is_blank new)) [
    | inl blank ↦ rw blank k
    | inr given ↦ rw given (rotated-IsStuck s (rotate_token ih ch cfg new s.agent) k)
  ]
  on_event-IsStuck (connect_error e) s q k = k
  on_event-IsStuck (disconnect reason) s q k = elim q [ ]
  on_event-IsStuck (manager_error e) s q k = (refl, k.1)

  run_events-IsStuck :
      (events : List Event) (s : Session)
      → All IsQuiet events
      → IsStuck s
      → IsStuck (run_events cfg node_id token events s)
  unfolding run_events
  run_events-IsStuck [] s q k = k
  run_events-IsStuck (e ∷ events) s (q, qs) k =
      run_events-IsStuck events (on_event cfg node_id token e s) qs (on_event-IsStuck e s q k)

  -- Behind an error of the authentication on a connection that goes on, and until the backend
  -- acknowledges the session again or the connection ends, the session sends no metrics, and
  -- nothing gives the connection up: neither its errors nor those of the manager do.
  pub auth_error-IsStuck :
      (message error : Text) (events : List Event) (s : Session)
      → connection_ended s ≡ false
      → All IsQuiet events
      → IsStuck (run_events cfg node_id token (auth_error message error ∷ events) s)
  unfolding run_events on_event may_send connection_ended
  auth_error-IsStuck message error events s on q =
      run_events-IsStuck events (on_event cfg node_id token (auth_error message error) s) q
        (refl, on)
