-- ===== src/Rootaccess/Access.antt =====
-- What the applied profile lets tasks and terminals do.
use noderax_agent.Prelude.{
  ◌≡◌, ◌≢◌, inl, inr, Bool, false, ◌&&◌, ◌||◌, arith, Bool-cases, Text, codes, text_eq, text_eq-eq,
  trim_space,
}
use noderax_agent.Rootaccess.Profiles.{
  Capabilities, profile_name, profile_allows-profile_name, profile_allows_unknown,
}
use noderax_agent.Rootaccess.{Manager, can_use_root_scope, can_start_root_terminal}

-- The scopes that a set of capabilities opens, by their names.
abbrev pub opens : Capabilities → Text → Bool
opens c scope =
    text_eq scope (codes "task") && c.task || text_eq scope (codes "operational") && c.operational

-- Under the profile that is named after a set of capabilities, a task may run as root exactly in the
-- scopes of that set, spaces around the scope aside, and a terminal exactly where the set has the
-- terminal.
pub can_use_root_scope-profile_name :
    (m : Manager) (c : Capabilities) (scope : Text)
    → m.state.applied_profile ≡ profile_name c
    → (can_use_root_scope m scope ≡ opens c (trim_space scope))
      × (can_start_root_terminal m ≡ c.terminal)
unfolding can_use_root_scope can_start_root_terminal text_eq
can_use_root_scope-profile_name m c scope named =
    let (o, t, e) = profile_allows-profile_name c in
    (
      elim (Bool-cases (text_eq (trim_space scope) (codes "task"))) [
        | inl h ↦
            let task = text_eq-eq (trim_space scope) (codes "task") h in
            rw (task, named, t) (ground arith)
        | inr h ↦ rw (h, named, o) (ground arith)
      ],
      rw named e,
    )

-- Under any other profile nothing runs as root.
pub can_use_root_scope_unknown :
    (m : Manager) (scope : Text)
    → ((c : Capabilities) → m.state.applied_profile ≢ profile_name c)
    → (can_use_root_scope m scope ≡ false) × (can_start_root_terminal m ≡ false)
unfolding can_use_root_scope can_start_root_terminal
can_use_root_scope_unknown m scope other =
    let (o, t, e) = profile_allows_unknown m.state.applied_profile other in
    (simp (o, t) (ground arith), e)
