-- ===== src/Rootaccess/History.antt =====
-- The applied profile through a sequence of snapshots.
use noderax_agent.Prelude.{
  ◌≡◌, refl, sym, ◌∙◌, inl, inr, Bool, true, false, Option, none, some, List, [], ◌∷◌, ◌++◌,
  if◌then◌else◌, Bool-cases, All, Text, is_space, trim_left, trim_right, trim_space, Outcome, ok,
  err,
}
use noderax_agent.Rootaccess.{
  Manager, Host, State, StateFile, holds, DesiredSnapshot, is_blank, is_current, write_state,
  after_helper, set_error, set_applied, add_run, update_state, apply_profile,
  handle_desired_snapshot, missing, undecodable, load, new_manager,
}
use noderax_agent.Rootaccess.Apply.{Writes}

-- The snapshots of a run of the agent, each on the host as it is then.
unfoldable pub handle_all : List (Host × Option DesiredSnapshot) → Manager → Manager
handle_all [] m = m
handle_all ((h, snapshot) ∷ es) m = handle_all es (handle_desired_snapshot h snapshot m)

-- The profile of the last run of the helper that succeeded, or `profile`.
unfoldable pub last_success : Text → List (Text × Bool) → Text
last_success profile [] = profile
last_success profile ((p, done) ∷ runs) = last_success (if done then p else profile) runs

-- The host has the helper and its state file can be written.
pub record Works (h : Host) : Type 0 where
  pub linux : h.is_linux ≡ true
  pub installed : h.helper_installed ≡ true
  pub file : Writes h

last_success-append :
    (profile p : Text) (done : Bool) (runs : List (Text × Bool))
    → last_success profile (runs ++ (p, done) ∷ [])
      ≡ (if done then p else last_success profile runs)
unfolding last_success
last_success-append profile p done [] = refl
last_success-append profile p done ((q, d) ∷ runs) =
    last_success-append (if d then q else profile) p done runs

-- The state says what the helper did.
pub record Says (profile : Text) (m : Manager) : Type 0 where
  pub applied_eq : m.state.applied_profile ≡ last_success profile m.helper_runs
  pub named : is_blank m.state.applied_profile ≡ false

update_state-Works :
    (h : Host) (f : State → State) (m : Manager) (profile : Text)
    → Writes h
    → (f m.state).applied_profile ≡ last_success profile m.helper_runs
    → is_blank (f m.state).applied_profile ≡ false
    → Says profile (update_state h f m).0
unfolding update_state write_state
update_state-Works h f m profile w said named = record {
  applied_eq = rw (w.makes, w.writes, named) said;
  named = rw (w.makes, w.writes, named) named;
}

apply_profile-Says :
    (h : Host) (wanted profile : Text) (m : Manager)
    → Works h
    → is_blank wanted ≡ false
    → Says profile m
    → Says profile (apply_profile h wanted m).0
unfolding apply_profile
apply_profile-Says h wanted profile m w named s =
    simp (w.linux, w.installed) (by_run (h.run_helper wanted))
  where
    by_run : (o : Outcome (Text × Text) (Unit {0})) → Says profile (after_helper h wanted o m).0
    by_run (ok _) =
        unfold after_helper in
        update_state-Works h (set_applied h wanted) (add_run wanted true m) profile w.file
          (sym (last_success-append profile wanted true m.helper_runs)) named
    by_run (err (e, output)) =
        unfold after_helper in
        update_state-Works h (set_error _) (add_run wanted false m) profile w.file
          (s.applied_eq ∙ sym (last_success-append profile wanted false m.helper_runs)) s.named

handle_desired_snapshot-Says :
    (h : Host) (snapshot : Option DesiredSnapshot) (profile : Text) (m : Manager)
    → Works h
    → Says profile m
    → Says profile (handle_desired_snapshot h snapshot m)
unfolding handle_desired_snapshot
handle_desired_snapshot-Says h none profile m w s = s
handle_desired_snapshot-Says h (some snapshot) profile m w s =
    elim (Bool-cases (is_blank snapshot.profile)) [
      | inl blank ↦ simp blank s
      | inr named ↦ elim (Bool-cases (is_current m.state snapshot.profile)) [
        | inl current ↦ simp (named, current) s
        | inr stale ↦
            simp (named, stale) (apply_profile-Says h snapshot.profile profile m w named s)
      ]
    ]

handle_all-Says :
    (es : List (Host × Option DesiredSnapshot)) (profile : Text) (m : Manager)
    → All (λ e. Works e.0) es
    → Says profile m
    → Says profile (handle_all es m)
unfolding handle_all
handle_all-Says [] profile m w s = s
handle_all-Says ((h, snapshot) ∷ es) profile m w s =
    handle_all-Says es profile (handle_desired_snapshot h snapshot m) w.1
      (handle_desired_snapshot-Says h snapshot profile m w.0 s)

-- A manager that starts with any state file has a profile with a name.
new_manager-helper_runs : (file : StateFile) → (new_manager file).helper_runs ≡ []
unfolding new_manager load
new_manager-helper_runs missing = refl
new_manager-helper_runs undecodable = refl
new_manager-helper_runs (holds s) = refl

new_manager-named : (file : StateFile) → is_blank (new_manager file).state.applied_profile ≡ false
unfolding new_manager load trim_space trim_left trim_right is_space
new_manager-named missing = refl
new_manager-named undecodable = refl
new_manager-named (holds s) = elim (Bool-cases (is_blank s.applied_profile)) [
  | inl blank ↦ rw blank refl
  | inr named ↦ rw (named, named)
]

-- On hosts that have the helper and where the state file can be written, the applied profile after
-- any snapshots is that of the last run of the helper that succeeded, or the one the manager
-- started with where none did, whatever the state file held at the start.
pub handle_all-last_success :
    (file : StateFile) (es : List (Host × Option DesiredSnapshot))
    → All (λ e. Works e.0) es
    → let m = handle_all es (new_manager file) in
      m.state.applied_profile ≡ last_success (new_manager file).state.applied_profile m.helper_runs
handle_all-last_success file es w =
    let start : Says (new_manager file).state.applied_profile (new_manager file) = record {
      applied_eq = rw (new_manager-helper_runs file) (unfold last_success in refl);
      named = new_manager-named file;
    } in
    (handle_all-Says es (new_manager file).state.applied_profile (new_manager file) w
      start).applied_eq
