-- ===== src/Rootaccess/Apply.antt =====
-- One application of a profile: `applyProfile`, `updateState` and `load`.
use noderax_agent.Prelude.{
  ◌≡◌, refl, inl, inr, true, false, some, [], ◌∷◌, ◌++◌, append_assoc, arith, if◌then◌else◌,
  Bool-cases, pos, Text, codes, text_eq, text_eq_refl, is_space, trim_left, trim_right, trim_space,
  trim_space_idem, trim_space-keeps, Outcome, ok, err,
}
use noderax_agent.Rootaccess.Profiles.{profile_off}
use noderax_agent.Rootaccess.{
  Manager, Host, State, StateFile, holds, DesiredSnapshot, is_blank, is_current, write_state,
  without_helper, after_helper, set_error, set_applied, add_run, update_state, apply_profile,
  handle_desired_snapshot, helper_error, load, new_manager,
}

-- The state file can be written.
pub record Writes (h : Host) : Type 0 where
  pub makes : h.make_directory ≡ ok tt
  pub writes : h.write_file ≡ ok tt

-- What an application that succeeds leaves: the profile, no error, and a file from which a manager
-- that starts gets the same state.
pub record IsApplied (profile : Text) (m : Manager) : Type 0 where
  pub profile_eq : m.state.applied_profile ≡ profile
  pub error_eq : m.state.last_error ≡ []
  pub revision_eq : m.state.revision ≡ pos 1
  pub restart_eq : (new_manager m.stored).state ≡ m.state

abbrev pub AppliedOrKept : Text → Manager → Manager × Outcome Text (Unit {0}) → Type 0
AppliedOrKept profile m (m', ok _) = IsApplied profile m'
AppliedOrKept profile m (m', err e) = m'.state.applied_profile ≡ m.state.applied_profile

set_kept :
    (h : Host) (f : State → State) (m : Manager)
    → is_blank m.state.applied_profile ≡ false
    → (f m.state).applied_profile ≡ m.state.applied_profile
    → (update_state h f m).0.state.applied_profile ≡ m.state.applied_profile
unfolding update_state
set_kept h f m named same = grind arith

updated :
    (h : Host) (f : State → State) (profile : Text) (m m₀ : Manager)
    → is_blank profile ≡ false
    → (f m.state).applied_profile ≡ profile
    → (f m.state).last_error ≡ []
    → m.state.applied_profile ≡ m₀.state.applied_profile
    → AppliedOrKept profile m₀ (update_state h f m)
unfolding update_state
updated h f profile m m₀ named p e same = by_directory h.make_directory
  where
    next : State
    next = record (f m.state) {
      applied_profile =
          if is_blank (f m.state).applied_profile then profile_off else (f m.state).applied_profile;
      revision = pos 1;
    }

    applied : IsApplied profile (record m { state = next; stored = holds next })
    applied = record {
      profile_eq = rw (p, named);
      error_eq = e;
      revision_eq = refl;
      restart_eq = unfold new_manager load in rw (p, named, named);
    }

    by_write :
        (w : Outcome (Text × StateFile) (Unit {0}))
        → AppliedOrKept profile m₀ (write_state w next m)
    by_write (ok _) = unfold write_state in applied
    by_write (err _) = unfold write_state in same

    by_directory :
        (d : Outcome Text (Unit {0}))
        → AppliedOrKept profile m₀ (elim d [
          | err e ↦ (m, err (codes "create root access state directory: " ++ e))
          | ok _ ↦ write_state h.write_file next m
        ])
    by_directory (err _) = same
    by_directory (ok _) = by_write h.write_file

without_helper-AppliedOrKept :
    (h : Host) (profile e : Text) (m : Manager)
    → is_blank profile ≡ false
    → is_blank m.state.applied_profile ≡ false
    → AppliedOrKept profile m (without_helper h profile e m)
without_helper-AppliedOrKept h profile e m named named' =
    elim (Bool-cases (text_eq profile profile_off)) [
      | inl off ↦ rw off (updated h _ profile m m named refl refl refl)
      | inr on ↦ rw on (set_kept h (set_error e) m named' refl)
    ]

-- An application of a profile, on any host and whether or not the state file can be written,
-- returns an error and leaves the applied profile as it was, or it succeeds, and then the state has
-- the requested profile, no error and revision 1, and a manager that starts from the state file
-- gets the same state. Neither the old nor the new profile is blank.
pub apply_profile-AppliedOrKept :
    (h : Host) (profile : Text) (m : Manager)
    → is_blank profile ≡ false
    → is_blank m.state.applied_profile ≡ false
    → AppliedOrKept profile m (apply_profile h profile m)
unfolding apply_profile
apply_profile-AppliedOrKept h profile m named named' = elim (Bool-cases h.is_linux) [
  | inr l ↦ simp l (without_helper-AppliedOrKept h profile _ m named named')
  | inl l ↦ elim (Bool-cases h.helper_installed) [
    | inr i ↦ simp (l, i) (without_helper-AppliedOrKept h profile _ m named named')
    | inl i ↦ simp (l, i) (by_run (h.run_helper profile))
  ]
]
  where
    by_run :
        (o : Outcome (Text × Text) (Unit {0}))
        → AppliedOrKept profile m (after_helper h profile o m)
    by_run (ok _) =
        unfold after_helper in
        updated h (set_applied h profile) profile (add_run profile true m) m named refl refl refl
    by_run (err (e, output)) =
        unfold after_helper in
        set_kept h (set_error (trim_space (helper_error e output))) (add_run profile false m) named'
          refl

-- What the next snapshot with the same profile does.
abbrev pub SettledOrRetried : Host → DesiredSnapshot → Manager × Outcome Text (Unit {0}) → Type 0
SettledOrRetried h snapshot (m, ok _) = handle_desired_snapshot h (some snapshot) m ≡ m
SettledOrRetried h snapshot (m, err e) =
    handle_desired_snapshot h (some snapshot) m ≡ (apply_profile h snapshot.profile m).0

settled :
    (h : Host) (snapshot : DesiredSnapshot) (m : Manager)
    → is_blank snapshot.profile ≡ false
    → IsApplied snapshot.profile m
    → handle_desired_snapshot h (some snapshot) m ≡ m
unfolding handle_desired_snapshot is_current trim_space trim_left trim_right
settled h snapshot m named a =
    rw (named, a.profile_eq, a.error_eq, a.revision_eq, text_eq_refl snapshot.profile)

retried :
    (h : Host) (snapshot : DesiredSnapshot) (m : Manager)
    → is_blank snapshot.profile ≡ false
    → is_blank m.state.last_error ≡ false
    → handle_desired_snapshot h (some snapshot) m ≡ (apply_profile h snapshot.profile m).0
unfolding handle_desired_snapshot is_current
retried h snapshot m named failed = simp (named, failed) (ground arith)

-- The note of a failure, where it can be written.
noted :
    (h : Host) (e : Text) (m : Manager)
    → Writes h
    → is_blank e ≡ false
    → is_blank (update_state h (set_error e) m).0.state.last_error ≡ false
unfolding update_state write_state
noted h e m w named = rw (w.makes, w.writes, named)

abbrev Noted : Manager × Outcome Text (Unit {0}) → Type 0
Noted (m, ok _) = Unit
Noted (m, err e) = is_blank m.state.last_error ≡ false

updated_Noted : (h : Host) (f : State → State) (m : Manager) → Writes h → Noted (update_state h f m)
unfolding update_state write_state
updated_Noted h f m w = rw (w.makes, w.writes) tt

without_helper-Noted :
    (h : Host) (profile e : Text) (m : Manager)
    → Writes h
    → is_blank e ≡ false
    → Noted (without_helper h profile e m)
without_helper-Noted h profile e m w named = elim (Bool-cases (text_eq profile profile_off)) [
  | inl off ↦ rw off (updated_Noted h _ m w)
  | inr on ↦ rw on (noted h e m w named)
]

helper_error_nonblank : (e output : Text) → is_blank (trim_space (helper_error e output)) ≡ false
unfolding is_space
helper_error_nonblank e output =
    rw (trim_space_idem (helper_error e output), append_assoc e (codes ": ") (trim_space output))
      (trim_space-keeps e (32 ∷ trim_space output) b':' refl)

apply_profile-Noted :
    (h : Host) (profile : Text) (m : Manager) → Writes h → Noted (apply_profile h profile m)
unfolding apply_profile trim_space trim_left trim_right is_space
apply_profile-Noted h profile m w = elim (Bool-cases h.is_linux) [
  | inr l ↦ simp l (without_helper-Noted h profile _ m w refl)
  | inl l ↦ elim (Bool-cases h.helper_installed) [
    | inr i ↦ simp (l, i) (without_helper-Noted h profile _ m w refl)
    | inl i ↦ simp (l, i) (by_run (h.run_helper profile))
  ]
]
  where
    by_run : (o : Outcome (Text × Text) (Unit {0})) → Noted (after_helper h profile o m)
    by_run (ok _) =
        unfold after_helper in updated_Noted h (set_applied h profile) (add_run profile true m) w
    by_run (err (e, output)) =
        unfold after_helper in
        noted h (trim_space (helper_error e output)) (add_run profile false m) w
          (helper_error_nonblank e output)

-- After an application of a profile on a host whose state file can be written, a snapshot that asks
-- for the same profile changes nothing, on any host, if the application succeeded, and applies the
-- profile again if it failed. Neither the old nor the new profile is blank.
pub apply_profile-SettledOrRetried :
    (h h' : Host) (snapshot : DesiredSnapshot) (m : Manager)
    → is_blank snapshot.profile ≡ false
    → is_blank m.state.applied_profile ≡ false
    → Writes h
    → SettledOrRetried h' snapshot (apply_profile h snapshot.profile m)
apply_profile-SettledOrRetried h h' snapshot m named named' w =
    by_result (apply_profile h snapshot.profile m)
      (apply_profile-AppliedOrKept h snapshot.profile m named named')
      (apply_profile-Noted h snapshot.profile m w)
  where
    by_result :
        (r : Manager × Outcome Text (Unit {0}))
        → AppliedOrKept snapshot.profile m r
        → Noted r
        → SettledOrRetried h' snapshot r
    by_result (m', ok _) a n = settled h' snapshot m' named a
    by_result (m', err e) a n = retried h' snapshot m' named n
