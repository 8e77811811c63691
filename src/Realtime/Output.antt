-- ===== src/Realtime/Output.antt =====
-- `truncateTaskOutput`: the output of a task as a completion carries it.
use noderax_agent.Prelude.{
  ℕ, suc, ◌-◌, ◌/◌, ◌≤◌, ◌<◌, ◌≡◌, refl, inl, inr, Bool, true, false, ◌||◌, ◌++◌, arith, leb, ◌==◌,
  leb→le, if◌then◌else◌, Bool-cases, length, take, drop, length-append, length-take, length-drop,
  Text, codes, itoa,
}

abbrev pub max_task_output_chars : ℕ
max_task_output_chars = 4000

abbrev pub marker : ℕ → Text
marker removed = codes "\n...[truncated " ++ itoa removed ++ codes " chars]...\n"

-- The head, the marker and the tail of a long output. `mark` is the marker.
abbrev pub cut_output : Text → ℕ → Text → Text
cut_output output max_chars mark =
    let remaining = max_chars - length mark in
    let head = remaining / 2 in
    let tail = remaining - head in take head output ++ mark ++ drop (length output - tail) output

abbrev pub marked_output : Text → ℕ → Text → Text
marked_output output max_chars mark =
    if leb max_chars (length mark) then take max_chars output else cut_output output max_chars mark

-- The output and whether it was cut. No caller passes a negative limit.
unfoldable pub truncate_task_output : Text → ℕ → Text × Bool
truncate_task_output output max_chars =
    if max_chars == 0 || leb (length output) max_chars
    then (output, false)
    else (marked_output output max_chars (marker (length output - max_chars)), true)

-- An output that was sent whole, cut in its middle, or, where the marker has no room, at its end.
pub data Truncated (output : Text) (max_chars : ℕ) : Text × Bool → Type 0 where
  whole :
      (max_chars == 0 || leb (length output) max_chars) ≡ true
      → Truncated output max_chars (output, false)
  middle :
      (head tail : ℕ) (mark sent : Text)
      → mark ≡ marker (length output - max_chars)
      → sent ≡ take head output ++ mark ++ drop (length output - tail) output
      → length sent ≡ max_chars
      → head ≤ tail
      → tail ≤ suc head
      → Truncated output max_chars (sent, true)
  start :
      (mark sent : Text)
      → mark ≡ marker (length output - max_chars)
      → max_chars ≤ length mark
      → sent ≡ take max_chars output
      → length sent ≡ max_chars
      → Truncated output max_chars (sent, true)

length-cut_output :
    (output : Text) (max_chars : ℕ) (mark : Text)
    → max_chars < length output
    → length mark < max_chars
    → length (cut_output output max_chars mark) ≡ max_chars
length-cut_output output max_chars mark long room =
    let remaining = max_chars - length mark in
    let head = remaining / 2 in
    let tail = remaining - head in
    let rest = drop (length output - tail) output in
    omega (
      arith,
      length-append (take head output ++ mark) rest,
      length-append (take head output) mark,
      length-take head output,
      length-drop (length output - tail) output,
    )

marked_output-Truncated :
    (output : Text) (max_chars : ℕ) (mark : Text)
    → mark ≡ marker (length output - max_chars)
    → max_chars < length output
    → Truncated output max_chars (marked_output output max_chars mark, true)
marked_output-Truncated output max_chars mark same long =
    elim (Bool-cases (leb max_chars (length mark))) [
      | inl narrow ↦ rw narrow (
          start mark (take max_chars output) same (leb→le max_chars (length mark) narrow) refl
            (omega (arith, length-take max_chars output)))
      | inr room ↦
          let less : length mark < max_chars = ground arith in
          rw room (
            middle ((max_chars - length mark) / 2)
              (max_chars - length mark - (max_chars - length mark) / 2) mark
              (cut_output output max_chars mark) same refl
              (length-cut_output output max_chars mark long less) (omega arith) (omega arith))
    ]

truncate_task_output-cases :
    (output : Text) (max_chars : ℕ)
    → Truncated output max_chars (truncate_task_output output max_chars)
unfolding truncate_task_output
truncate_task_output-cases output max_chars =
    elim (Bool-cases (max_chars == 0 || leb (length output) max_chars)) [
      | inl fits ↦ rw fits (whole fits)
      | inr over ↦ rw over (
          marked_output-Truncated output max_chars (marker (length output - max_chars)) refl
            (ground arith))
    ]

truncate_task_output_fits :
    (output : Text) (max_chars : ℕ)
    → length output ≤ max_chars
    → truncate_task_output output max_chars ≡ (output, false)
unfolding truncate_task_output
truncate_task_output_fits output max_chars fits = ground arith

Truncated-length :
    (output : Text) (max_chars : ℕ) (sent : Text × Bool)
    → 0 < max_chars
    → Truncated output max_chars sent
    → length sent.0 ≤ max_chars
Truncated-length output max_chars (o, c) p (whole fits) = ground arith
Truncated-length output max_chars (o, c) p (middle head tail mark sent same e l _ _) =
    omega (arith, l)
Truncated-length output max_chars (o, c) p (start mark sent same n e l) = omega (arith, l)

-- The output of a completion has at most 4000 runes, and is sent unchanged if it is sent again. It
-- is the output of the task, where that keeps to this; else it has 4000 runes and is marked as
-- truncated: its head and its tail, equally long but for one rune, around a marker with the number
-- of runes above the limit, or the first 4000 runes where the marker leaves no room.
pub truncate_task_output-Truncated :
    (output : Text)
    → let sent = truncate_task_output output max_task_output_chars in
      Truncated output 4000 sent
      × (length sent.0 ≤ 4000)
      × (truncate_task_output sent.0 max_task_output_chars ≡ (sent.0, false))
truncate_task_output-Truncated output =
    let t = truncate_task_output-cases output 4000 in
    let l = Truncated-length output 4000 (truncate_task_output output 4000) (omega arith) t in
    (t, l, truncate_task_output_fits (truncate_task_output output 4000).0 4000 l)
