-- ===== src/Tasks/Executor/Timeouts.antt =====
-- `TimeoutFor` of executor.go: how long a task may run.
use noderax_agent.Prelude.{
  ℕ, zero, suc, Bool, ◌-◌, ◌*◌, ◌%◌, ◌^◌, ◌≤◌, ◌≡◌, refl, sym, subst, true, false, Option, none,
  some, arith, ltb, if◌then◌else◌, ℤ, pos, negsuc, ◌<ℤ◌, Text, is_empty, text_eq, Outcome, ok, err,
}
use noderax_agent.Tasks.Executor.Types.{Task, ShellExecPayload, Host, task_type_shell_exec}

-- `time.Duration(n) * time.Second`, in 64 bits.
unfoldable pub seconds_of : ℕ → ℤ
seconds_of n =
    let d = n * 1_000_000_000 % 2 ^ 64 in if ltb d (2 ^ 63) then pos d else negsuc (2 ^ 64 - d - 1)

seconds_of_fits : (n : ℕ) → n ≤ 9_223_372_036 → seconds_of n ≡ pos (n * 1_000_000_000)
unfolding seconds_of
seconds_of_fits n f =
    let small : n * 1_000_000_000 % 2 ^ 64 ≡ n * 1_000_000_000 = omega (arith, f) in
    let half : ltb (n * 1_000_000_000) (2 ^ 63) ≡ true = ground (arith, f) in
    rw small (rw half refl)

abbrev positive_or : ℤ → ℤ → ℤ
positive_or (pos (suc n)) default = pos (suc n)
positive_or (pos zero) default = default
positive_or (negsuc n) default = default

-- The seconds where they are positive.
abbrev seconds_or : ℤ → ℤ → ℤ
seconds_or (pos (suc n)) rest = seconds_of (suc n)
seconds_or (pos zero) rest = rest
seconds_or (negsuc n) rest = rest

abbrev parsed_or : Option ℤ → ℤ → ℤ
parsed_or none default = default
parsed_or (some d) default = positive_or d default

module _ (h : Host) (parse_duration : Text → Option ℤ) (default : ℤ) where
  abbrev payload_timeout : Outcome Text ShellExecPayload → ℤ
  payload_timeout (err e) = default
  payload_timeout (ok p) =
      seconds_or p.timeout_seconds
        (if is_empty p.timeout then default else parsed_or (parse_duration p.timeout) default)

  unfoldable pub timeout_for : Task → ℤ
  unfolding seconds_of
  timeout_for task = seconds_or task.timeout_seconds (
      if text_eq task.kind task_type_shell_exec
      then (if is_empty task.payload
          then default
          else payload_timeout (h.decode_shell task.payload))
      else default)

  -- Seconds that 64 bits hold in nanoseconds.
  abbrev pub Fits : ℤ → Type 0
  Fits (pos n) = n ≤ 9_223_372_036
  Fits (negsuc n) = Unit

  seconds_or-positive : (z rest : ℤ) → Fits z → pos 0 <ℤ rest → pos 0 <ℤ seconds_or z rest
  seconds_or-positive (pos zero) rest f p = p
  seconds_or-positive (negsuc n) rest f p = p
  seconds_or-positive (pos (suc n)) rest f p =
      subst (λ (d : ℤ). pos 0 <ℤ d) (sym (seconds_of_fits (suc n) f)) (omega arith)

  payload_timeout-positive :
      (o : Outcome Text ShellExecPayload)
      → ((p : ShellExecPayload) → o ≡ ok p → Fits p.timeout_seconds)
      → pos 0 <ℤ default
      → pos 0 <ℤ payload_timeout o
  payload_timeout-positive (err e) f d = d
  payload_timeout-positive (ok p) f d =
      seconds_or-positive p.timeout_seconds
        (if is_empty p.timeout then default else parsed_or (parse_duration p.timeout) default)
        (f p refl) (by_text (is_empty p.timeout) (parse_duration p.timeout))
    where
      by_text : (b : Bool) (o : Option ℤ) → pos 0 <ℤ (if b then default else parsed_or o default)
      by_text true o = d
      by_text false none = d
      by_text false (some (pos zero)) = d
      by_text false (some (pos (suc n))) = omega arith
      by_text false (some (negsuc n)) = d

  -- Where the default is positive, and the seconds that the task and its payload ask for are at most those
  -- that 64 bits hold in nanoseconds, a task runs under a positive timeout.
  pub timeout_for-positive :
      (task : Task)
      → pos 0 <ℤ default
      → Fits task.timeout_seconds
      → ((p : ShellExecPayload) → h.decode_shell task.payload ≡ ok p → Fits p.timeout_seconds)
      → pos 0 <ℤ timeout_for task
  unfolding timeout_for
  timeout_for-positive task d f g =
      seconds_or-positive task.timeout_seconds _ f
        (by_kind (text_eq task.kind task_type_shell_exec) (is_empty task.payload))
    where
      by_kind :
          (shell blank : Bool)
          → pos 0 <ℤ (
              if shell
              then (if blank then default else payload_timeout (h.decode_shell task.payload))
              else default)
      by_kind false blank = d
      by_kind true true = d
      by_kind true false = payload_timeout-positive (h.decode_shell task.payload) g d
