-- ===== src/Rootaccess/Tests.antt =====
-- The root access manager at concrete inputs.
use noderax_agent.Prelude.{
  ◌≡◌, refl, true, Option, some, List, [], ◌∷◌, if◌then◌else◌, pos, Text, codes, text_eq, is_space,
  trim_left, trim_right, trim_space, ok, err,
}
use noderax_agent.Rootaccess.{
  Manager, Host, missing, DesiredSnapshot, apply_profile, handle_desired_snapshot, new_manager,
  is_current, update_state,
}
use noderax_agent.Rootaccess.Apply.{
  AppliedOrKept, apply_profile-AppliedOrKept, SettledOrRetried, apply_profile-SettledOrRetried,
}
use noderax_agent.Rootaccess.History.{handle_all, last_success, handle_all-last_success}

abbrev manager : Text → Manager
manager profile = record {
  state = record {
    applied_profile = profile;
    last_applied_at = [];
    last_error = [];
    revision = pos 1;
  };
  stored = missing;
  helper_runs = [];
}

-- The helper knows the profile `task` and no other.
abbrev host : Host
host = record {
  is_linux = true;
  helper_installed = true;
  run_helper = λ profile.
      if text_eq profile (codes "task") then ok tt else err (codes "exit status 1", codes " no\n");
  now = codes "now";
  make_directory = ok tt;
  write_file = ok tt;
}

apply_profile-AppliedOrKept_example :
    AppliedOrKept
      (codes "all")
      (manager (codes "off"))
      (apply_profile host (codes "all") (manager (codes "off")))
unfolding trim_space trim_left trim_right is_space
apply_profile-AppliedOrKept_example =
    apply_profile-AppliedOrKept host (codes "all") (manager (codes "off")) refl refl

abbrev snapshot : Text → DesiredSnapshot
snapshot profile = record { profile = profile; updated_at = [] }

apply_profile-SettledOrRetried_example :
    SettledOrRetried host
      (snapshot (codes "task"))
      (apply_profile host (codes "task") (manager (codes "off")))
unfolding trim_space trim_left trim_right is_space
apply_profile-SettledOrRetried_example =
    apply_profile-SettledOrRetried host host (snapshot (codes "task")) (manager (codes "off")) refl
      refl (record { makes = refl; writes = refl })

abbrev events : List (Host × Option DesiredSnapshot)
events = (host, some (snapshot (codes "task"))) ∷ (host, some (snapshot (codes "all"))) ∷ []

handle_all-last_success_example :
    (handle_all events (new_manager missing)).state.applied_profile
    ≡ last_success
        (new_manager missing).state.applied_profile
        (handle_all events (new_manager missing)).helper_runs
handle_all-last_success_example = handle_all-last_success missing events (
  record { linux = refl; installed = refl; file = record { makes = refl; writes = refl } },
  (record { linux = refl; installed = refl; file = record { makes = refl; writes = refl } }, tt),
)

-- The second snapshot fails and leaves the first in force.
events_test : (handle_all events (new_manager missing)).state.applied_profile ≡ codes "task"
unfolding handle_all handle_desired_snapshot trim_space trim_left trim_right is_space is_current
    text_eq new_manager apply_profile update_state
events_test = refl
