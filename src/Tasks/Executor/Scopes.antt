-- ===== src/Tasks/Executor/Scopes.antt =====
-- Which commands a root access profile lets a shell task run as root.
use noderax_agent.Prelude.{
  ◌≡◌, refl, sym, ◌∙◌, subst, ◌⊎◌, inl, inr, true, ◌||◌, some, [], ◌∷◌, ◌++◌, Bool-cases,
  Option-cases, Text, codes, is_empty, text_eq, text_eq-eq, is_space, trim_left, trim_right,
  trim_space, Outcome, ok, err,
}
use noderax_agent.Rootaccess.{Manager, can_use_root_scope}
use noderax_agent.Rootaccess.Profiles.{profile_allows_task, profile_allows_operational}
use noderax_agent.Tasks.Executor.Types.{
  WriteStage, Host, TaskError, ShellExecPayload, package_mutation, package_mutation_helper_path,
  agent_service_name,
}
use noderax_agent.Tasks.Executor.Build.{
  run_stages, write_stages, Build, Files, ◌>>=◌, return, write, write_result,
}
use noderax_agent.Tasks.Executor.Requests.{package_request}
use noderax_agent.Tasks.Executor.Root.{
  Command, found, require_binary, wrap_with_sudo, has_package_helper, wrap_package_mutation_command,
  normalized_command, build_operational_root_command,
}
use noderax_agent.Tasks.Executor.Commands.{task_root_command, root_shell_command}

-- The commands of the operational scope, with the files they are run with: a reboot, a restart of the
-- agent's service, and an update of the package lists, by apt-get or by the helper.
pub data IsOperational (h : Host) (fs : Files) : Command → Files → Type 0 where
  reboot :
      (path : Text)
      → h.look_path (codes "reboot") ≡ some path
      → IsOperational h fs (wrap_with_sudo h path []) fs
  restart :
      (path : Text)
      → h.look_path (codes "systemctl") ≡ some path
      → IsOperational h fs (wrap_with_sudo h path (codes "restart" ∷ agent_service_name ∷ [])) fs
  update :
      (path : Text)
      → h.look_path (codes "apt-get") ≡ some path
      → IsOperational h fs (wrap_with_sudo h path (codes "update" ∷ [])) fs
  update_by_helper :
      IsOperational h fs
        (wrap_with_sudo h package_mutation_helper_path [])
        (fs ++ (package_mutation, package_request (codes "update") []) ∷ [])

-- A result, if it is one, is operational.
abbrev pub Operational : Host → Files → Outcome TaskError Command × Files → Type 0
Operational h fs (ok c, fs') = IsOperational h fs c fs'
Operational h fs (err e, fs') = Unit

found-Operational :
    (h : Host) (fs : Files) (name : Text) (f : Text → Build Command)
    → ((path : Text) → h.look_path name ≡ some path → Operational h fs (f path fs))
    → Operational h fs ((require_binary h name >>= f) fs)
unfolding require_binary found
found-Operational h fs name f k = elim (Option-cases (h.look_path name)) [
  | inl missing ↦ simp missing tt
  | inr (path, e) ↦ simp e (k path e)
]

update-Operational :
    (h : Host) (fs : Files) (path : Text)
    → h.look_path (codes "apt-get") ≡ some path
    → Operational h fs
        (wrap_package_mutation_command h (codes "update") path (codes "update" ∷ []) [] fs)
unfolding wrap_package_mutation_command write
update-Operational h fs path e = elim (Bool-cases (has_package_helper h)) [
  | inr plain ↦ simp plain (IsOperational.update path e)
  | inl helper ↦ simp helper (by_write (run_stages (h.write_steps package_mutation) write_stages))
]
  where
    by_write :
        (o : Outcome (WriteStage × Text) (Unit {0}))
        → Operational h fs (
            (write_result package_mutation (package_request (codes "update") []) o >>= λ _.
            return (wrap_with_sudo h package_mutation_helper_path []))
              fs)
    by_write (ok _) = unfold write_result in IsOperational.update_by_helper
    by_write (err (stage, e)) = unfold write_result in tt

-- Whatever the text of the command, an operational command that is accepted is one of the list.
pub build_operational_root_command-Operational :
    (h : Host) (command : Text) (fs : Files)
    → Operational h fs (build_operational_root_command h command fs)
unfolding build_operational_root_command
build_operational_root_command-Operational h command fs =
    let c = normalized_command command in
    elim (Bool-cases (text_eq c (codes "reboot"))) [
      | inl r ↦
          simp r (found-Operational h fs (codes "reboot") _ (λ path e. IsOperational.reboot path e))
      | inr r ↦
          elim (Bool-cases (
            text_eq c (codes "systemctl restart noderax-agent")
            || text_eq c (codes "systemctl restart noderax-agent.service"))) [
              | inl s ↦
                  simp (r, s)
                    (found-Operational h fs (codes "systemctl") _
                      (λ path e. IsOperational.restart path e))
              | inr s ↦ elim (Bool-cases (text_eq c (codes "apt-get update"))) [
                | inl u ↦
                    simp (r, s, u)
                      (found-Operational h fs (codes "apt-get") _
                        (λ path e. update-Operational h fs path e))
                | inr u ↦ simp (r, s, u) tt
              ]
            ]
    ]

-- What a root access profile has let through.
abbrev pub Granted : Host → Manager → ShellExecPayload → Files → Command → Files → Type 0
Granted h m p fs c fs' =
    ((p.root_scope ≡ codes "operational")
      × (profile_allows_operational m.state.applied_profile ≡ true)
      × IsOperational h fs c fs')
    ⊎ ((p.root_scope ≡ codes "task")
        × (profile_allows_task m.state.applied_profile ≡ true)
        × (task_root_command h p fs ≡ (ok c, fs')))

allowed-scope :
    (m : Manager) (scope : Text)
    → trim_space scope ≡ scope
    → can_use_root_scope m scope ≡ true
    → ((scope ≡ codes "task") × (profile_allows_task m.state.applied_profile ≡ true))
      ⊎ ((scope ≡ codes "operational")
          × (profile_allows_operational m.state.applied_profile ≡ true))
unfolding can_use_root_scope
allowed-scope m scope exact e = elim (Bool-cases (text_eq scope (codes "task"))) [
  | inl t ↦ inl (text_eq-eq scope (codes "task") t, sym (rw (exact, t) refl) ∙ e)
  | inr t ↦ elim (Bool-cases (text_eq scope (codes "operational"))) [
    | inl o ↦ inr (text_eq-eq scope (codes "operational") o, sym (rw (exact, t, o) refl) ∙ e)
    | inr o ↦ cc (rw (exact, t, o) at e)
  ]
]

of_result :
    (h : Host) (fs fs' : Files) (r : Outcome TaskError Command × Files) (c : Command)
    → r ≡ (ok c, fs')
    → Operational h fs r
    → IsOperational h fs c fs'
of_result h fs fs' r c e o = subst (Operational h fs) e o

-- With the root access manager as its checker, a shell task gets a command to run as root only
-- where the applied profile allows its scope: in the operational scope one of a fixed list,
-- whatever the task asks for, and in the task scope the task's own. The scope has no space around
-- it.
pub root_shell_command-Granted :
    (h : Host) (m : Manager) (p : ShellExecPayload) (c : Command) (fs fs' : Files)
    → h.root_scope_checker ≡ some (can_use_root_scope m)
    → trim_space p.root_scope ≡ p.root_scope
    → ◌≡◌ {A = Outcome TaskError Command × Files} (root_shell_command h p fs) (ok c, fs')
    → Granted h m p fs c fs'
unfolding root_shell_command
root_shell_command-Granted h m p c fs fs' checker exact e =
    elim (Bool-cases (is_empty (trim_space p.root_scope))) [
      | inl blank ↦ cc (simp blank at e)
      | inr named ↦ elim (Bool-cases (can_use_root_scope m p.root_scope)) [
        | inr denied ↦ cc (simp (named, checker, denied) at e)
        | inl allowed ↦
            let e' = simp (named, checker, allowed) at e in
            elim (allowed-scope m p.root_scope exact allowed) [
              | inl (task, on) ↦ inr (task, on, unfold text_eq in rw task at e')
              | inr (operational, on) ↦
                  let same : ◌≡◌ {A = Outcome TaskError Command × Files}
                      (build_operational_root_command h p.command fs) (ok c, fs') =
                    unfold text_eq in rw operational at e' in
                  inl (
                    operational,
                    on,
                    of_result h fs fs' (build_operational_root_command h p.command fs) c same
                        (build_operational_root_command-Operational h p.command fs),
                  )
            ]
      ]
    ]

-- Under a profile that allows only operational commands, a shell task that writes its scope with a
-- space in front gets the command of the task scope, its own, to run as root.
pub root_shell_command_padded :
    (h : Host) (m : Manager) (p : ShellExecPayload) (fs : Files)
    → h.root_scope_checker ≡ some (can_use_root_scope m)
    → m.state.applied_profile ≡ codes "operational"
    → p.root_scope ≡ codes " operational"
    → root_shell_command h p fs ≡ task_root_command h p fs
unfolding root_shell_command can_use_root_scope profile_allows_operational trim_space trim_left
    trim_right is_space text_eq
root_shell_command_padded h m p fs checker profile scope = simp (scope, checker, profile)
