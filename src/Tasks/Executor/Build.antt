-- ===== src/Tasks/Executor/Build.antt =====
-- Steps that may fail and that write request files: the files written are kept when a later step fails.
use noderax_agent.Prelude.{Bool, true, false, List, [], ◌∷◌, ◌++◌, Text, Outcome, ok, err}
use noderax_agent.Tasks.Executor.Types.{
  RequestFile, TaskError, Host, write_failed, WriteStage, WriteSteps, make_directory, create_temp,
  write_string, chmod, close, rename,
}

abbrev pub Files : Type 0
Files = List (RequestFile × Text)

abbrev pub Build {ℓ} : Type ℓ → Type ℓ
Build A = Files → Outcome TaskError A × Files

infixl 5 ◌>>=◌ ◌>>◌
abbrev bind_result {ℓ κ} :
    {A : Type ℓ} {B : Type κ}
    → (A → Build B)
    → Outcome TaskError A × Files
    → Outcome TaskError B × Files
bind_result f (ok a, fs) = f a fs
bind_result f (err e, fs) = (err e, fs)

abbrev pub ◌>>=◌ {ℓ κ} : {A : Type ℓ} {B : Type κ} → Build A → (A → Build B) → Build B
m >>= f = λ fs. bind_result f (m fs)

abbrev pub ◌>>◌ {ℓ} : {B : Type ℓ} → Build (Unit {0}) → Build B → Build B
m >> k = m >>= λ _. k

abbrev pub return {ℓ} : {A : Type ℓ} → A → Build A
return a = λ fs. (ok a, fs)

abbrev pub throw {ℓ} : {A : Type ℓ} → TaskError → Build A
throw e = λ fs. (err e, fs)

abbrev pub lift {ℓ} : {A : Type ℓ} → Outcome TaskError A → Build A
lift o = λ fs. (o, fs)

-- `if test { return err }`.
abbrev pub throw_if : Bool → TaskError → Build (Unit {0})
throw_if true e = throw e
throw_if false e = return tt

-- A request file is there when all steps succeed. When one fails, the temporary file is removed and
-- the request file is as it was.
unfoldable pub write_result :
    RequestFile → Text → Outcome (WriteStage × Text) (Unit {0}) → Build (Unit {0})
write_result file content (ok _) = λ fs. (ok tt, fs ++ (file, content) ∷ [])
write_result file content (err (stage, e)) = throw (write_failed file stage e)

stage_result :
    WriteStage
    → Outcome Text (Unit {0})
    → Outcome (WriteStage × Text) (Unit {0})
    → Outcome (WriteStage × Text) (Unit {0})
stage_result stage (ok _) next = next
stage_result stage (err e) next = err (stage, e)

-- The steps up to the first that fails.
unfoldable pub run_stages : WriteSteps → List WriteStage → Outcome (WriteStage × Text) (Unit {0})
unfolding stage_result
run_stages steps [] = ok tt
run_stages steps (stage ∷ stages) =
    stage_result stage (steps.outcome stage) (run_stages steps stages)

abbrev pub write_stages : List WriteStage
write_stages = make_directory ∷ create_temp ∷ write_string ∷ chmod ∷ close ∷ rename ∷ []

-- `writeTaskRootRequest`, and the writers of the other requests of helpers.
unfoldable pub write : Host → RequestFile → Text → Build (Unit {0})
unfolding write_result run_stages
write h file content = write_result file content (run_stages (h.write_steps file) write_stages)

-- `writeJSONTempRequest`: a temporary file that stays where it is.
unfoldable pub write_temp : Host → RequestFile → Text → Build (Unit {0})
unfolding write_result run_stages
write_temp h file content =
    write_result file content
      (run_stages (h.write_steps file) (create_temp ∷ write_string ∷ chmod ∷ close ∷ []))
