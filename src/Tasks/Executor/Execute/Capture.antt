-- ===== src/Tasks/Executor/Execute/Capture.antt =====
-- When an execution succeeds, and what it captures.
use noderax_agent.Prelude.{
  ℕ, suc, ◌+◌, ◌≤◌, ◌<◌, ◌≡◌, refl, sym, ap, ◌∙◌, subst, ◌⊎◌, inl, inr, false, Option, none, some,
  List, [], ◌∷◌, ◌++◌, append_assoc, append-nil, arith, ltb, ltb→lt, Bool-cases, length, take,
  length-append, All, pos, Text, Outcome, ok, err,
}
use noderax_agent.Logscan.Lines.{Bytes}
use noderax_agent.Tasks.Executor.Types.{Host, Task, TaskError, CommandSpec}
use noderax_agent.Tasks.Executor.Build.{Files}
use noderax_agent.Tasks.Executor.Commands.{command_for_task}
use noderax_agent.Tasks.Executor.Execute.{
  output_limit, OutputLine, stderr_mark, rendered, capture_log, capture_all, Wait, exited_well,
  exited_with, failed, exit_code, stdout_pipe, stderr_pipe, start_command, Runner, wait_error,
  finish, step_or, Executed, run_spec, execute,
}

unfoldable pub render : List OutputLine → Bytes
render [] = []
render (l ∷ ls) = rendered l ++ render ls

-- What is captured of some lines: the first of them, up to the one that reaches the limit.
pub record IsCaptured (limit most : ℕ) (lines : List OutputLine) (out : Bytes) : Type 0 where
  pub count : ℕ
  pub prefix_eq : out ≡ render (take count lines)
  pub stops : (length lines ≤ count) ⊎ (limit ≤ length out)
  pub bounded : length out < limit + most + 10

capture_all_full :
    (limit : ℕ) (out : Bytes) (ls : List OutputLine)
    → ltb (length out) limit ≡ false
    → capture_all limit out ls ≡ out
unfolding capture_all capture_log
capture_all_full limit out [] h = refl
capture_all_full limit out (l ∷ ls) h = rw h (capture_all_full limit out ls h)

length-rendered :
    (most : ℕ) (l : OutputLine) → length l.text ≤ most → length (rendered l) ≤ most + 10
unfolding rendered
length-rendered most l h = elim (Bool-cases l.is_stderr) [
  | inl e ↦ rw e (
      omega (
        arith,
        length-append (stderr_mark ++ l.text) (b'\n' ∷ []),
        length-append stderr_mark l.text,
      ))
  | inr e ↦ rw e (omega (arith, length-append l.text (b'\n' ∷ [])))
]

-- What a run captures, from what it has.
record Grows (limit most : ℕ) (lines : List OutputLine) (out out' : Bytes) : Type 0 where
  count : ℕ
  grown_eq : out' ≡ out ++ render (take count lines)
  stops : (length lines ≤ count) ⊎ (limit ≤ length out')
  bounded : length out' < limit + most + 10

capture_all-Grows :
    (limit most : ℕ) (lines : List OutputLine) (out : Bytes)
    → All (λ (l : OutputLine). length l.text ≤ most) lines
    → length out < limit + most + 10
    → Grows limit most lines out (capture_all limit out lines)
unfolding capture_all render
capture_all-Grows limit most [] out short few = record {
  count = 0;
  grown_eq = sym (append-nil out);
  stops = inl (omega arith);
  bounded = few;
}
capture_all-Grows limit most (l ∷ ls) out short few = elim (Bool-cases (ltb (length out) limit)) [
  | inr full ↦
      subst (Grows limit most (l ∷ ls) out) (sym (capture_all_full limit out (l ∷ ls) full))
        (record {
          count = 0;
          grown_eq = sym (append-nil out);
          stops = inr (ground arith);
          bounded = few;
        })
  | inl room ↦
      let out' = out ++ rendered l in
      let captured : capture_log limit out l ≡ out' = unfold capture_log in rw room in
      let g = capture_all-Grows limit most ls out' short.1 (
        omega (
          arith,
          ltb→lt (length out) limit room,
          length-append out (rendered l),
          length-rendered most l short.0,
        )) in
      subst (λ (o : Bytes). Grows limit most (l ∷ ls) out (capture_all limit o ls)) (sym captured)
        (record {
          count = suc g.count;
          grown_eq = g.grown_eq ∙ append_assoc out (rendered l) (render (take g.count ls));
          stops = elim g.stops [ inl all ↦ inl (omega (arith, all)) | inr full ↦ inr full ];
          bounded = g.bounded;
        })
]

-- What an execution must have gone through for its error to be nil.
pub record Succeeds (r : Runner) : Type 0 where
  pub stdout_eq : r.stdout ≡ ok tt
  pub stderr_eq : r.stderr ≡ ok tt
  pub start_eq : r.start ≡ ok tt
  pub wait_eq : r.wait ≡ exited_well

-- The result of an execution that returned no error.
abbrev pub IsSuccess : Host → (CommandSpec → Runner) → Task → Files → ℕ → Executed × Files → Type 0
IsSuccess h runner task fs most ((result, error), fs') =
    (spec : CommandSpec) × (command_for_task h task fs ≡ (ok spec, fs'))
    × Succeeds (runner spec)
    × (result.exit_code ≡ pos 0)
    × IsCaptured output_limit most (runner spec).lines result.output

capture_all-IsCaptured :
    (limit most : ℕ) (lines : List OutputLine)
    → All (λ (l : OutputLine). length l.text ≤ most) lines
    → IsCaptured limit most lines (capture_all limit [] lines)
capture_all-IsCaptured limit most lines short =
    let g = capture_all-Grows limit most lines [] short (omega arith) in
    record { count = g.count; prefix_eq = g.grown_eq; stops = g.stops; bounded = g.bounded }

finish-Succeeds :
    (r : Runner) (spec : CommandSpec)
    → (finish r spec).1 ≡ none
    → (r.wait ≡ exited_well) × ((finish r spec).0.exit_code ≡ pos 0)
unfolding finish
finish-Succeeds r spec e = by_wait r.wait r.context_error e
  where
    by_wait :
        (w : Wait) (c : Option Text)
        → wait_error w c ≡ none
        → (w ≡ exited_well) × (exit_code w ≡ pos 0)
    by_wait exited_well c h = unfold exit_code in (refl, refl)
    by_wait (exited_with code e) none h = unfold wait_error in cc h
    by_wait (exited_with code e) (some c) h = unfold wait_error in cc h
    by_wait (failed e) none h = unfold wait_error in cc h
    by_wait (failed e) (some c) h = unfold wait_error in cc h

run_spec-Succeeds :
    (runner : CommandSpec → Runner) (spec : CommandSpec)
    → (run_spec runner (ok spec)).1 ≡ none
    → Succeeds (runner spec) × (run_spec runner (ok spec) ≡ finish (runner spec) spec)
unfolding run_spec
run_spec-Succeeds runner spec e =
    by_steps (runner spec).stdout refl (runner spec).stderr refl (runner spec).start refl e
  where
    by_steps :
        (a : Outcome Text (Unit {0}))
        → (runner spec).stdout ≡ a
        → (b : Outcome Text (Unit {0})) → (runner spec).stderr ≡ b
        → (c : Outcome Text (Unit {0})) → (runner spec).start ≡ c
        → (step_or a stdout_pipe
            (step_or b stderr_pipe (step_or c start_command (finish (runner spec) spec)))).1
          ≡ none
        → Succeeds (runner spec)
          × (step_or a stdout_pipe
                (step_or b stderr_pipe (step_or c start_command (finish (runner spec) spec)))
              ≡ finish (runner spec) spec)
    by_steps (ok _) ea (ok _) eb (ok _) ec h = (
      record {
        stdout_eq = ea;
        stderr_eq = eb;
        start_eq = ec;
        wait_eq = (finish-Succeeds (runner spec) spec h).0;
      },
      refl,
    )
    by_steps (err x) ea b eb c ec h = cc h
    by_steps (ok _) ea (err x) eb c ec h = cc h
    by_steps (ok _) ea (ok _) eb (err x) ec h = cc h

-- An execution returns no error only if the task got a command whose pipes and start succeeded and
-- which exited well, and then its exit code is 0. Its output is that of the first of the lines that
-- reach `captureLog`, in order, of all of them or of those up to the one that brings it to two MiB;
-- where none of these lines is longer than `most` it is shorter than two MiB, `most` and ten bytes.
-- Which lines the scanners of the two streams hand on is up to the run.
pub execute-IsSuccess :
    (h : Host) (runner : CommandSpec → Runner) (task : Task) (fs : Files) (most : ℕ)
    → ((spec : CommandSpec) → All (λ (l : OutputLine). length l.text ≤ most) (runner spec).lines)
    → (execute h runner task fs).0.1 ≡ none
    → IsSuccess h runner task fs most (execute h runner task fs)
unfolding execute
execute-IsSuccess h runner task fs most short e = by_built (command_for_task h task fs) refl e
  where
    by_built :
        (b : Outcome TaskError CommandSpec × Files)
        → command_for_task h task fs ≡ b
        → (run_spec runner b.0).1 ≡ none
        → IsSuccess h runner task fs most (run_spec runner b.0, b.1)
    by_built (err x, fs') eq h = unfold run_spec in cc h
    by_built (ok spec, fs') eq h =
        let (good, same) = run_spec-Succeeds runner spec h in
        let done = finish-Succeeds (runner spec) spec (sym (ap (λ (x : Executed). x.1) same) ∙ h) in
        (
          spec,
          eq,
          good,
          ap (λ (x : Executed). x.0.exit_code) same ∙ done.1,
          subst (λ (x : Executed). IsCaptured output_limit most (runner spec).lines x.0.output)
              (sym same)
              (unfold finish in
                capture_all-IsCaptured output_limit most (runner spec).lines (short spec)),
        )
