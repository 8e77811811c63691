-- ===== src/Rootaccess.antt =====
-- `Manager` of internal/rootaccess/manager.go: the profile that is applied on the host.
pub mod Profiles
pub mod Access
pub mod Apply
pub mod History
pub mod Tests
use noderax_agent.Prelude.{
  ap, Bool, true, false, not, ◌&&◌, ◌||◌, Option, none, some, List, [], ◌∷◌, ◌++◌, ltb, leb,
  if◌then◌else◌, ℤ, pos, ltb_ℤ, leb_ℤ, Text, codes, is_empty, text_eq, trim_space, Outcome, ok, err,
  ◌>>=◌, ◌>>◌,
}
use noderax_agent.Rootaccess.Profiles.{
  profile_off, profile_allows_task, profile_allows_operational, profile_allows_terminal,
}

abbrev pub state_revision : ℤ
state_revision = pos 1

pub record State : Type 0 where
  pub applied_profile : Text
  pub last_applied_at : Text
  pub last_error : Text
  pub revision : ℤ

-- The state file: absent or unreadable, not the JSON of a state, or the JSON of a state.
pub data StateFile : Type 0 where
  missing undecodable : StateFile
  holds : State → StateFile

-- The manager with the file it writes, and the runs of the helper: the profile of each and whether
-- it succeeded.
pub record Manager : Type 0 where
  pub state : State
  pub stored : StateFile
  pub helper_runs : List (Text × Bool)

-- What a call sees of the host. The helper fails with an error and its output. A write that fails
-- leaves some file behind.
pub record Host : Type 0 where
  pub is_linux : Bool
  pub helper_installed : Bool
  pub run_helper : Text → Outcome (Text × Text) (Unit {0})
  pub now : Text
  pub make_directory : Outcome Text (Unit {0})
  pub write_file : Outcome (Text × StateFile) (Unit {0})

pub record DesiredSnapshot : Type 0 where
  pub profile : Text
  pub updated_at : Text

pub record AgentReport : Type 0 where
  pub applied_profile : Text
  pub last_applied_at : Text
  pub last_error : Text

abbrev pub is_blank : Text → Bool
is_blank s = is_empty (trim_space s)

abbrev or_off : Text → Text
or_off profile = if is_blank profile then profile_off else profile

abbrev pub normalized : State → State
normalized s = record s { applied_profile = or_off s.applied_profile; revision = state_revision }

-- Behind `json.MarshalIndent`, which encodes every state.
write_state :
    Outcome (Text × StateFile) (Unit {0}) → State → Manager → Manager × Outcome Text (Unit {0})
write_state (ok _) next m = (record m { state = next; stored = holds next }, ok tt)
write_state (err (e, left)) next m =
    (record m { stored = left }, err (codes "write root access state: " ++ e))

unfoldable pub update_state : Host → (State → State) → Manager → Manager × Outcome Text (Unit {0})
unfolding write_state
update_state h mutator m = elim h.make_directory [
  | err e ↦ (m, err (codes "create root access state directory: " ++ e))
  | ok _ ↦ write_state h.write_file (normalized (mutator m.state)) m
]

abbrev set_applied : Host → Text → State → State
set_applied h profile s = record s {
  applied_profile = profile;
  last_applied_at = h.now;
  last_error = [];
}

abbrev set_error : Text → State → State
set_error e s = record s { last_error = e }

-- The error is noted in the state, whether or not that can be written, and returned.
abbrev note_error : Host → Text → Text → Manager → Manager × Outcome Text (Unit {0})
note_error h noted e m = ((update_state h (set_error noted) m).0, err e)

-- A host that has no helper can only be off.
abbrev without_helper : Host → Text → Text → Manager → Manager × Outcome Text (Unit {0})
without_helper h profile e m =
    if text_eq profile profile_off
    then update_state h (set_applied h profile) m
    else note_error h e e m

abbrev add_run : Text → Bool → Manager → Manager
add_run profile done m = record m { helper_runs = m.helper_runs ++ (profile, done) ∷ [] }

abbrev pub helper_error : Text → Text → Text
helper_error e output = e ++ codes ": " ++ trim_space output

after_helper :
    Host → Text → Outcome (Text × Text) (Unit {0}) → Manager → Manager × Outcome Text (Unit {0})
after_helper h profile (err (e, output)) m =
    note_error h (trim_space (helper_error e output)) (helper_error e output)
      (add_run profile false m)
after_helper h profile (ok _) m = update_state h (set_applied h profile) (add_run profile true m)

unfoldable pub apply_profile : Host → Text → Manager → Manager × Outcome Text (Unit {0})
unfolding after_helper
apply_profile h profile m =
    if not h.is_linux
    then without_helper h profile (codes "root access profiles are only supported on linux hosts") m
    else if not h.helper_installed
    then without_helper h profile (codes "root profile helper is not installed") m
    else after_helper h profile (h.run_helper profile) m

-- The state already is what the snapshot asks for.
unfoldable pub is_current : State → Text → Bool
is_current s profile =
    text_eq s.applied_profile profile && is_blank s.last_error && leb_ℤ state_revision s.revision

-- An error of `applyFunc` is logged.
unfoldable pub handle_desired_snapshot : Host → Option DesiredSnapshot → Manager → Manager
handle_desired_snapshot h none m = m
handle_desired_snapshot h (some snapshot) m =
    if is_blank snapshot.profile || is_current m.state snapshot.profile
    then m
    else (apply_profile h snapshot.profile m).0

unfoldable pub can_use_root_scope : Manager → Text → Bool
can_use_root_scope m scope =
    let s = trim_space scope in
    if text_eq s (codes "task")
    then profile_allows_task m.state.applied_profile
    else if text_eq s (codes "operational")
    then profile_allows_operational m.state.applied_profile
    else false

unfoldable pub can_start_root_terminal : Manager → Bool
can_start_root_terminal m = profile_allows_terminal m.state.applied_profile

unfoldable pub build_agent_report : Manager → AgentReport
build_agent_report m = record {
  applied_profile = m.state.applied_profile;
  last_applied_at = m.state.last_applied_at;
  last_error = m.state.last_error;
}

abbrev at_least_0 : ℤ → ℤ
at_least_0 r = if ltb_ℤ r (pos 0) then pos 0 else r

unfoldable pub load : StateFile → Manager → Manager
load missing m = m
load undecodable m = m
load (holds loaded) m = record m {
  state = record loaded {
    applied_profile = or_off loaded.applied_profile;
    revision = at_least_0 loaded.revision;
  };
}

unfoldable pub new_manager : StateFile → Manager
unfolding load
new_manager file = load file (record {
  state = record {
    applied_profile = profile_off;
    last_applied_at = [];
    last_error = [];
    revision = state_revision;
  };
  stored = file;
  helper_runs = [];
})
