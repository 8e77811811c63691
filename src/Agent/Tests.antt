-- ===== src/Agent/Tests.antt =====
-- The agent at concrete inputs.
use noderax_agent.Prelude.{
  ◌≡◌, refl, none, some, List, [], ◌∷◌, Text, codes, is_space, trim_left, trim_right, trim_space,
  has_prefix, text_eq, contains, to_lower, lookup, ok, err,
}
use noderax_agent.Config.Types.{
  default_config, is_finite, float_lt, float_gt, ConfigHost, Disk, decoded,
}
use noderax_agent.Config.Merge.{apply_fields}
use noderax_agent.Config.Env.{fix_paths, with_leading_slash, with_last_slash, ends_in_slash}
use noderax_agent.Config.Load.{file_config, save_file, is_encodable, write_config_file, load}
use noderax_agent.Config.Restart.{only_config_file}
use noderax_agent.Config.Tests.{
  host, config, file_path, durations, settled, duration_text, duration_of,
}
use noderax_agent.Agent.Identity.{
  Identity, is_ready, missing, holds, IdentityHost, Files, written, save_identity, with_identity,
  persist_identity,
}
use noderax_agent.Agent.Enrollment.{
  EnrollmentStatus, Poll, Enrolled, poll_enrollment, wait_for_enrollment_approval,
}
use noderax_agent.Agent.Ways.{HostInfo, EnrollmentClient, Prompt, newline}
use noderax_agent.Agent.Service.{Agent, new_service, rotate_token, start}
use noderax_agent.Agent.Rotation.{rotated_identity}
use noderax_agent.Agent.Restart.{IsManaged, agent_of, start-rotate_token, start-rotate_token_stale}
use noderax_agent.Agent.Approval.{interactive, run_enrollment, IsStored, run_enrollment-IsStored}

abbrev pub good_host : IdentityHost
good_host = record { make_directory = ok tt; write_file = ok tt }

-- The configuration of the agent is in its file.
abbrev pub files : Files
files = record {
  identity_file = missing;
  configs = (file_path, decoded (file_config host config)) ∷ [];
}

abbrev pub agent : Agent
agent = new_service config files

abbrev pub new_token : Text
new_token = codes "new "

-- The agent that a host with that write of the configuration leaves.
abbrev pub after_rotation : ConfigHost → Agent
after_rotation ch = (rotate_token good_host ch config new_token agent).1

pub rotated : rotate_token good_host host config new_token agent ≡ (ok tt, after_rotation host)
unfolding rotate_token is_ready new_service persist_identity save_identity written default_config
    trim_space trim_left trim_right is_space
rotated = refl

managed : IsManaged host config
unfolding trim_space trim_left trim_right is_space fix_paths with_leading_slash with_last_slash
    ends_in_slash has_prefix text_eq default_config
managed = record {
  durations = durations;
  settled = settled;
  environment = refl;
  path_given = refl;
  path_trimmed = refl;
  paths_fixed = refl;
}

abbrev saved_disk : Disk
saved_disk =
    (save_file host file_path (with_identity (rotated_identity new_token agent) config)
      files.configs).1

saved :
    save_file host file_path (with_identity (rotated_identity new_token agent) config) files.configs
    ≡ (ok tt, saved_disk)
unfolding save_file write_config_file is_encodable is_finite only_config_file trim_space trim_left
    trim_right is_space text_eq with_identity default_config
saved = refl

start-rotate_token_example :
    start good_host host [] (after_rotation host).files
    ≡ some (ok (agent_of (rotated_identity new_token agent) (after_rotation host).files))
unfolding new_service
start-rotate_token_example =
    start-rotate_token good_host host config new_token [] agent (after_rotation host) saved_disk
      managed saved rotated

-- A host on which the directory of the configuration cannot be made.
abbrev full_host : ConfigHost
full_host = record host { make_parent = err (codes "no space") }

full_loaded : load full_host files.configs ≡ ok config
unfolding trim_space load trim_left trim_right only_config_file text_eq is_space lookup file_config
    duration_text default_config duration_of apply_fields contains float_lt float_gt
full_loaded = refl

full_rotated :
    rotate_token good_host full_host config new_token agent ≡ (ok tt, after_rotation full_host)
unfolding rotate_token is_ready new_service persist_identity save_identity written default_config
    trim_space trim_left trim_right is_space
full_rotated = refl

start-rotate_token_stale_example :
    (start good_host full_host [] (after_rotation full_host).files
      ≡ some (ok (agent_of agent.identity (after_rotation full_host).files)))
    × ((after_rotation full_host).files.identity_file ≡ holds (rotated_identity new_token agent))
unfolding new_service is_ready default_config rotate_token persist_identity save_identity written
    save_file trim_space trim_left trim_right is_space
start-rotate_token_stale_example =
    start-rotate_token_stale good_host full_host config new_token [] agent
      (after_rotation full_host) full_loaded refl full_rotated refl

-- An enrollment that is pending, and then approved.
abbrev status : Text → EnrollmentStatus
status state = record { status = state; node_id = codes "n1"; agent_token = codes "t1" }

abbrev poll : Text → Poll
poll state = record {
  answer = ok (status state);
  done_after = none;
  now = codes "T";
  done_before_tick = none;
}

abbrev approved : Identity
approved = record { node_id = codes "n1"; agent_token = codes "t1"; registered_at = codes "T" }

abbrev polls : List Poll
polls = poll (codes "pending") ∷ poll (codes " Approved") ∷ []

waits_test : wait_for_enrollment_approval (codes "e") polls ≡ some (ok approved)
unfolding wait_for_enrollment_approval poll_enrollment trim_space trim_left trim_right is_space
    text_eq to_lower
waits_test = refl

abbrev client : EnrollmentClient
client = record {
  initiate = λ email hostname info. ok (codes "e");
  consume = λ token hostname info. err (codes "no");
}

abbrev info : HostInfo
info = record {
  hostname = codes "h";
  platform = [];
  os = codes "linux";
  architecture = codes "arm64";
  platform_version = [];
  kernel_version = [];
  location = none;
}

abbrev email : Prompt
email = record {
  prompt_error = none;
  value = codes "a@b.c ";
  read_end = newline;
  note_error = none;
}

abbrev enrolled : Enrolled
enrolled =
    run_enrollment good_host host client info (codes "1.0.0") config
      (interactive (email ∷ []) polls) files

run_enrollment-IsStored_example : IsStored approved enrolled.1
unfolding run_enrollment trim_space trim_left trim_right is_space save_file is_encodable is_finite
    default_config only_config_file text_eq to_lower
run_enrollment-IsStored_example =
    run_enrollment-IsStored good_host host client info (codes "1.0.0") config
      (interactive (email ∷ []) polls) files enrolled.1 approved refl
