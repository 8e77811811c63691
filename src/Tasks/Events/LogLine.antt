-- ===== src/Tasks/Events/LogLine.antt =====
-- `normalizeTaskLogLine`: a line of a task as it is sent to the backend.
use noderax_agent.Prelude.{
  ℕ, zero, suc, ◌-◌, ◌≤◌, ◌<◌, ◌≡◌, refl, ap, inl, inr, List, [], ◌∷◌, ◌++◌, arith, leb,
  if◌then◌else◌, leb→le, Bool-cases, length, take, length-append, length-take, Text, codes,
}

abbrev pub task_log_max_line_chars : ℕ
task_log_max_line_chars = 5000

abbrev pub task_log_truncated_suffix : Text
task_log_truncated_suffix = codes "...[truncated]"

-- The loops count the runes of the line and copy the first of them, to `cap` with the mark.
unfoldable pub cut_line : ℕ → Text → Text → Text
cut_line cap suffix line =
    let max_prefix_runes = cap - length suffix in
    if leb (length line) cap then line else take max_prefix_runes line ++ suffix

unfoldable pub normalize_task_log_line : Text → Text
normalize_task_log_line line = cut_line task_log_max_line_chars task_log_truncated_suffix line

take-take_append {ℓ} :
    {A : Type ℓ} (n : ℕ) (xs ys : List A) → n ≤ length xs → take n (take n xs ++ ys) ≡ take n xs
take-take_append zero xs ys h = refl
take-take_append (suc n) [] ys h = absurd (omega arith)
take-take_append (suc n) (x ∷ xs) ys h = ap (◌∷◌ x) (take-take_append n xs ys (omega arith))

-- A line cut to a cap: its length, what is kept, and that a second cut changes nothing.
pub record IsCut (cap kept : ℕ) (line sent : Text) : Type 0 where
  pub within : length sent ≤ cap
  pub short : length line ≤ cap → sent ≡ line
  pub long : cap < length line → (length sent ≡ cap) × (take kept sent ≡ take kept line)

cut_line-long :
    (cap : ℕ) (suffix line : Text)
    → length suffix ≤ cap
    → cap < length line
    → length (take (cap - length suffix) line ++ suffix) ≡ cap
cut_line-long cap suffix line h long = omega (
  arith,
  length-append (take (cap - length suffix) line) suffix,
  length-take (cap - length suffix) line,
)

cut_line-IsCut :
    (cap : ℕ) (suffix line : Text)
    → length suffix ≤ cap
    → IsCut cap (cap - length suffix) line (cut_line cap suffix line)
unfolding cut_line
cut_line-IsCut cap suffix line h = elim (Bool-cases (leb (length line) cap)) [
  | inl fits ↦ simp fits (record {
    within = leb→le (length line) cap fits;
    short = λ _. refl;
    long = λ long. absurd (omega (arith, leb→le (length line) cap fits));
  })
  | inr over ↦
      let long : cap < length line = ground arith in
      let len = cut_line-long cap suffix line h long in
      simp over (record {
        within = omega (arith, len);
        short = λ fits. absurd (omega arith);
        long = λ _. (len, take-take_append (cap - length suffix) line suffix (omega arith));
      })
]

cut_line_short :
    (cap : ℕ) (suffix line : Text) → length line ≤ cap → cut_line cap suffix line ≡ line
unfolding cut_line
cut_line_short cap suffix line h = ground arith

-- What is sent of a line of a task has at most 5000 runes. A line that keeps to this is sent as it
-- is, and a longer one as 5000 runes, of which the first 4986 are those of the line. A line that is
-- sent again is sent unchanged.
pub normalize_task_log_line-IsCut :
    (line : Text)
    → IsCut 5000 4986 line (normalize_task_log_line line)
      × (normalize_task_log_line (normalize_task_log_line line) ≡ normalize_task_log_line line)
unfolding normalize_task_log_line
normalize_task_log_line-IsCut line =
    let cut = cut_line-IsCut 5000 task_log_truncated_suffix line (omega arith) in
    (cut, cut_line_short 5000 task_log_truncated_suffix _ cut.within)
