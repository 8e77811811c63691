-- ===== src/Tasks/Executor/Mutations.antt =====
-- The commands of tasks that install, remove and purge packages.
use noderax_agent.Prelude.{
  ◌≡◌, refl, inl, inr, true, false, some, List, [], ◌∷◌, ◌++◌, map, if◌then◌else◌, Bool-cases,
  Option-cases, All, Text, codes, is_empty, trim_space, Outcome, ok, err,
}
use noderax_agent.Tasks.Executor.Types.{
  WriteStage, Host, TaskError, CommandSpec, PackageMutationPayload, no_parse, package_mutation,
  package_mutation_helper_path, task_type_package_install, task_type_package_remove,
  task_type_package_purge,
}
use noderax_agent.Tasks.Executor.Build.{
  run_stages, write_stages, Build, Files, ◌>>=◌, return, lift, write, write_result,
}
use noderax_agent.Tasks.Executor.Packages.{
  IsPackageName, raw_names, normalize_package_names, normalize_package_names_ok,
}
use noderax_agent.Tasks.Executor.Requests.{package_request}
use noderax_agent.Tasks.Executor.Root.{
  Command, is_linux, ensure_linux_task_support, found, require_binary, wrap_with_sudo,
  has_package_helper, wrap_package_mutation_command,
}
use noderax_agent.Tasks.Executor.Commands.{
  decoded, decode_payload, mutation_command, package_install_command, package_remove_command,
  package_purge_command,
}

abbrev pub Built : Type 0
Built = Outcome TaskError CommandSpec × Files

-- The command and the files of an operation on packages: the helper with its request, or apt-get
-- with the names behind `--`.
pub record Runs (h : Host) (op : Text) (names : List Text) (fs fs' : Files) (spec : CommandSpec)
    : Type 0 where
  pub apt_get : Text
  pub found_eq : h.look_path (codes "apt-get") ≡ some apt_get
  pub command_eq :
      ◌≡◌ {A = Command}
        (spec.name, spec.args)
        (if has_package_helper h
          then wrap_with_sudo h package_mutation_helper_path []
          else wrap_with_sudo h apt_get (op ∷ codes "-y" ∷ codes "--" ∷ names))
  pub files_eq : fs' ≡ (
      if has_package_helper h then fs ++ (package_mutation, package_request op names) ∷ [] else fs)

-- What a task that changes packages must have been to get its command.
pub record Mutates (h : Host) (payload : Text) (op : PackageMutationPayload → Text) (fs fs' : Files)
    (spec : CommandSpec) : Type 0 where
  pub linux : is_linux h ≡ true
  pub parsed : PackageMutationPayload
  pub parsed_eq : h.decode_mutation payload ≡ ok parsed
  pub names : List Text
  pub names_eq : names ≡ map trim_space (raw_names parsed)
  pub some_name : is_empty names ≡ false
  pub plain : All IsPackageName names
  pub runs : Runs h (op parsed) names fs fs' spec

abbrev pub IfBuilt : (CommandSpec → Files → Type 0) → Built → Type 0
IfBuilt P (ok spec, fs') = P spec fs'
IfBuilt P (err e, fs') = Unit

mutation_command-Runs :
    (h : Host) (op apt_get : Text) (names : List Text) (fs : Files)
    → h.look_path (codes "apt-get") ≡ some apt_get
    → IfBuilt (λ spec fs'. Runs h op names fs fs' spec) (mutation_command h op apt_get names fs)
unfolding mutation_command wrap_package_mutation_command write
mutation_command-Runs h op apt_get names fs e = elim (Bool-cases (has_package_helper h)) [
  | inr plain ↦
      simp plain
        (record { apt_get = apt_get; found_eq = e; command_eq = simp plain; files_eq = simp plain })
  | inl helper ↦
      simp helper (by_write helper (run_stages (h.write_steps package_mutation) write_stages))
]
  where
    by_write :
        has_package_helper h ≡ true
        → (o : Outcome (WriteStage × Text) (Unit {0}))
        → IfBuilt
            (λ spec fs'. Runs h op names fs fs' spec)
            (((write_result package_mutation (package_request op names) o >>= λ _.
                  return (wrap_with_sudo h package_mutation_helper_path []))
                >>= λ c. return (record {
                  name = c.0;
                  args = c.1;
                  env = (codes "DEBIAN_FRONTEND", codes "noninteractive") ∷ [];
                  dir = [];
                  parse_result = no_parse;
                }))
              fs)
    by_write helper (ok _) =
        unfold write_result in
        record { apt_get = apt_get; found_eq = e; command_eq = simp helper; files_eq = simp helper }
    by_write helper (err (stage, e)) = unfold write_result in tt

-- The steps that the three commands share.
abbrev mutation_steps : Host → Text → Text → (PackageMutationPayload → Text) → Build CommandSpec
mutation_steps h kind payload op = ensure_linux_task_support h >>= λ _.
    require_binary h (codes "apt-get") >>= λ apt_get.
    decode_payload h.decode_mutation payload kind >>= λ p.
    lift (normalize_package_names p) >>= λ packages. mutation_command h (op p) apt_get packages

IfBuilt-map :
    (P Q : CommandSpec → Files → Type 0)
    → ((spec : CommandSpec) (fs : Files) → P spec fs → Q spec fs)
    → (b : Built) → IfBuilt P b
    → IfBuilt Q b
IfBuilt-map P Q f (ok spec, fs) h = f spec fs h
IfBuilt-map P Q f (err e, fs) h = tt

module _ (h : Host) (kind payload apt_get : Text) (op : PackageMutationPayload → Text) (fs : Files)
    (linux : is_linux h ≡ true) (there : h.look_path (codes "apt-get") ≡ some apt_get) where
  behind_names :
      (p : PackageMutationPayload)
      → h.decode_mutation payload ≡ ok p
      → (o : Outcome TaskError (List Text)) → normalize_package_names p ≡ o
      → IfBuilt
          (λ spec fs'. Mutates h payload op fs fs' spec)
          ((lift o >>= λ packages. mutation_command h (op p) apt_get packages) fs)
  behind_names p parsed (err e) named = tt
  behind_names p parsed (ok names) named =
      let (same, full, plain) = normalize_package_names_ok p names named in
      IfBuilt-map (λ spec fs'. Runs h (op p) names fs fs' spec) _
        (λ spec fs' runs. record {
          linux = linux;
          parsed = p;
          parsed_eq = parsed;
          names = names;
          names_eq = same;
          some_name = full;
          plain = plain;
          runs = runs;
        })
        (mutation_command h (op p) apt_get names fs)
        (mutation_command-Runs h (op p) apt_get names fs there)

  behind_payload :
      (o : Outcome Text PackageMutationPayload)
      → h.decode_mutation payload ≡ o
      → IfBuilt
          (λ spec fs'. Mutates h payload op fs fs' spec)
          ((decoded kind o >>= λ p. lift (normalize_package_names p) >>= λ packages.
              mutation_command h (op p) apt_get packages)
            fs)
  behind_payload (err e) parsed = tt
  behind_payload (ok p) parsed = behind_names p parsed (normalize_package_names p) refl

mutation_steps-Mutates :
    (h : Host) (kind payload : Text) (op : PackageMutationPayload → Text) (fs : Files)
    → IfBuilt (λ spec fs'. Mutates h payload op fs fs' spec) (mutation_steps h kind payload op fs)
unfolding ensure_linux_task_support require_binary found decode_payload
mutation_steps-Mutates h kind payload op fs = elim (Bool-cases (is_linux h)) [
  | inr other ↦ simp other tt
  | inl linux ↦ elim (Option-cases (h.look_path (codes "apt-get"))) [
    | inl missing ↦ simp (linux, missing) tt
    | inr (apt_get, there) ↦ elim (Bool-cases (is_empty payload)) [
      | inl blank ↦ simp (linux, there, blank) tt
      | inr full ↦
          simp (linux, there, full)
            (behind_payload h kind payload apt_get op fs linux there (h.decode_mutation payload)
              refl)
    ]
  ]
]

-- A task that installs, removes or purges packages gets its command only on Linux with apt-get, for
-- a payload that names at least one package; the names are those of the payload, trimmed, and none
-- is empty or starts with a dash; the command is the helper with the request of the operation and
-- the names, or apt-get with the names behind `--`.
pub package_commands-Mutates :
    (h : Host) (payload : Text) (fs : Files)
    → IfBuilt
        (λ spec fs'. Mutates h payload (λ p. codes "install") fs fs' spec)
        (package_install_command h payload fs)
      × IfBuilt
          (λ spec fs'.
            Mutates h payload (λ p. if p.purge then codes "purge" else codes "remove") fs fs' spec)
          (package_remove_command h payload fs)
      × IfBuilt
          (λ spec fs'. Mutates h payload (λ p. codes "purge") fs fs' spec)
          (package_purge_command h payload fs)
unfolding package_install_command package_remove_command package_purge_command
package_commands-Mutates h payload fs = (
  mutation_steps-Mutates h task_type_package_install payload (λ p. codes "install") fs,
  mutation_steps-Mutates h task_type_package_remove payload
      (λ p. if p.purge then codes "purge" else codes "remove") fs,
  mutation_steps-Mutates h task_type_package_purge payload (λ p. codes "purge") fs,
)
