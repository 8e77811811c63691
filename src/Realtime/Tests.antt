-- ===== src/Realtime/Tests.antt =====
-- The realtime session at concrete inputs.
use noderax_agent.Prelude.{
  lookup, insert, ◌≤◌, ◌≡◌, refl, ℕ, ◌/◌, true, false, Option, none, some, List, [], ◌∷◌, length,
  pos, Text, codes, is_space, trim_left, trim_right, trim_space, text_eq, has_prefix, ok,
}
use noderax_agent.Rootaccess
use noderax_agent.Rootaccess.{missing, DesiredSnapshot, build_agent_report, handle_desired_snapshot}
use noderax_agent.Config.Env.{with_leading_slash, with_last_slash}
use noderax_agent.Config.Tests.{config, host}
use noderax_agent.Agent.Tests.{agent, new_token, good_host, after_rotation, rotated}
use noderax_agent.Realtime.Queue.Invariant.{IsQueue, run-IsQueue}
use noderax_agent.Realtime.Queue.{
  Part, send, best_effort, count_sent, receive, count_received, empty_queue, run,
}
use noderax_agent.Realtime.Queue.Fifo.{Fifo, trace, trace-Fifo}
use noderax_agent.Realtime.Output.{
  Truncated, max_task_output_chars, truncate_task_output, truncate_task_output-Truncated,
}
use noderax_agent.Realtime.Session.{
  Session, Event, token_rotate, root_access_updated, connected, auth_ack, auth_error, manager_error,
  run_events, may_send, connection_ended,
}
use noderax_agent.Realtime.Session.Active.{
  last_signal, may_send-run_events, IsStuck, auth_error-IsStuck,
}
use noderax_agent.Tasks.Service.Running as Running
use noderax_agent.Terminal.Size.{normalize_size}
use noderax_agent.Terminal.Sessions as Sessions
use noderax_agent.Realtime.Dispatch.{
  Controls, no_controls, start_terminal, write_terminal, task_dispatch, handle_message,
  on_terminal_event,
}
use noderax_agent.Realtime.Session.Stale.{run_events_stale}
use noderax_agent.Realtime.Backoff as Backoff
use noderax_agent.Realtime.Backoff.{Round, refused, closed, ended}
use noderax_agent.Realtime.Target.{Target, normalize_realtime_target}

-- A queue for two messages with one write loop.
abbrev parts : List (Part Text)
parts =
    send (codes "a")
    ∷ best_effort (codes "b")
    ∷ receive
    ∷ count_received
    ∷ send (codes "c")
    ∷ best_effort (codes "d")
    ∷ count_sent
    ∷ receive
    ∷ []

run-IsQueue_example : IsQueue Text 2 1 (run Text 2 1 parts (empty_queue Text))
run-IsQueue_example = run-IsQueue Text 2 1 parts

trace-Fifo_example :
    Fifo Text 2 []
      (trace Text 2 1 parts (empty_queue Text))
      (run Text 2 1 parts (empty_queue Text)).channel
trace-Fifo_example = trace-Fifo Text 2 1 parts (empty_queue Text)

channel_test : (run Text 2 1 parts (empty_queue Text)).channel ≡ codes "c" ∷ []
unfolding run
channel_test = refl

truncate_task_output-Truncated_example :
    Truncated (codes "done") 4000 (truncate_task_output (codes "done") max_task_output_chars)
    × (length (truncate_task_output (codes "done") max_task_output_chars).0 ≤ 4000)
    × (truncate_task_output
          (truncate_task_output (codes "done") max_task_output_chars).0
          max_task_output_chars
        ≡ ((truncate_task_output (codes "done") max_task_output_chars).0, false))
truncate_task_output-Truncated_example = truncate_task_output-Truncated (codes "done")

abbrev root_host : Rootaccess.Host
root_host = record {
  is_linux = true;
  helper_installed = true;
  run_helper = λ profile. ok tt;
  now = codes "now";
  make_directory = ok tt;
  write_file = ok tt;
}

-- A session that the backend has acknowledged.
abbrev session : Session
session = record {
  active = true;
  auth_ok = true;
  connect_err = none;
  disconnected = none;
  emitted = [];
  root = record {
    state = record {
      applied_profile = codes "off";
      last_applied_at = [];
      last_error = [];
      revision = pos 1;
    };
    stored = missing;
    helper_runs = [];
  };
  agent = agent;
}

abbrev events : List Event
events = manager_error (codes "reset") ∷ connected ∷ auth_ack true none root_host ∷ []

may_send-run_events_example :
    may_send (run_events config (codes "n") (codes "t") events session)
    ≡ last_signal events (may_send session)
may_send-run_events_example = may_send-run_events config (codes "n") (codes "t") events session

auth_error-IsStuck_example : IsStuck config (codes "n") (codes "t") (
    run_events config
      (codes "n")
      (codes "t")
      (auth_error [] (codes "expired") ∷ connected ∷ manager_error (codes "reset") ∷ [])
      session)
unfolding connection_ended
auth_error-IsStuck_example =
    auth_error-IsStuck config (codes "n") (codes "t") [] (codes "expired")
      (connected ∷ manager_error (codes "reset") ∷ []) session refl (tt, (tt, tt))

abbrev half : ℕ → ℕ
half base = base / 2

abbrev rounds : List Round
rounds = refused 7 true ∷ refused 11 true ∷ closed 3 true ∷ refused 5 false ∷ []

abbrev parse_url : Text → Option (Text × Text)
parse_url url = some (codes "https", codes "api.x.io")

abbrev target : Target
target = record {
  dial_url = codes "https://api.x.io/s/";
  health_url = codes "https://api.x.io/s/?EIO=4&transport=polling";
  namespace = codes "/agent-realtime";
  path = codes "/s/";
}

target_test : normalize_realtime_target parse_url (codes "api.x.io") [] (codes "s") ≡ ok target
unfolding normalize_realtime_target trim_space trim_left trim_right is_space text_eq with_last_slash
    with_leading_slash has_prefix
target_test = refl

-- An attempt that connects starts the count of the attempts again.
delays_test :
    Backoff.run half 0 rounds ≡ 500_000_007 ∷ 1_000_000_011 ∷ 500_000_003 ∷ 1_000_000_005 ∷ []
unfolding Backoff.run Backoff.backoff_delay Backoff.apply_jitter Backoff.backoff_base
    Backoff.min_int
delays_test = refl

-- A terminal that is opened, typed into and resized, next to a task that is dispatched twice.
abbrev shells : Sessions.Host
shells = record {
  shells = codes "/bin/sh" ∷ [];
  root_shells = [];
  can_start_root_terminal = none;
  start = λ shell run_as_root size mode. ok 7;
}

abbrev first : Controls
first = on_terminal_event (start_terminal (codes "s") (pos 80) (pos 24) false shells) no_controls

abbrev second : Controls
second = (handle_message (task_dispatch (some (codes "t"))) first).1

abbrev third : Controls
third = on_terminal_event (write_terminal (codes "s") (ok (codes "ls")) (ok tt)) second

abbrev fourth : Controls
fourth = (handle_message (task_dispatch (some (codes "t"))) third).1

handlers_test :
    (fourth.tasks.handlers ≡ codes "t" ∷ []) × (fourth.written ≡ (codes "s", codes "ls") ∷ [])
unfolding on_terminal_event Running.dispatch_task lookup Sessions.start_session trim_space trim_left
    trim_right is_space normalize_size insert text_eq
handlers_test = (refl, refl)

abbrev task_snapshot : DesiredSnapshot
task_snapshot = record { profile = codes "task"; updated_at = codes "T" }

run_events_stale_example :
    (run_events config
      (codes "n")
      (codes "t")
      (token_rotate new_token good_host host
        ∷ root_access_updated (some task_snapshot) root_host
        ∷ [])
      session).emitted
    ≡ record {
      node_id = agent.identity.node_id;
      agent_token = trim_space new_token;
      root_access = build_agent_report session.root;
    }
      ∷ record {
        node_id = codes "n";
        agent_token = codes "t";
        root_access =
            build_agent_report
              (handle_desired_snapshot root_host (some task_snapshot) session.root);
      }
      ∷ []
unfolding trim_space trim_left trim_right is_space
run_events_stale_example =
    run_events_stale config (codes "n") (codes "t") new_token good_host host task_snapshot root_host
      session (after_rotation host) refl rotated
