-- ===== src/Logscan/Tail/Bounds.antt =====
-- The limits bind a tail on every path, cancellation and read errors included.
use noderax_agent.Prelude.{
  ◌<◌, ◌==◌, All, All-append, All-drop, ℕ, suc, ◌-◌, ◌≤◌, ◌≡◌, refl, sym, ap, subst, inl, inr, Bool,
  List, [], ◌∷◌, map, arith, Bool-cases, length, drop, length-drop, Text, Outcome, ok, err, ◌>>=◌,
  fail_if,
}
use noderax_agent.Logscan.Types.{ScanError}
use noderax_agent.Logscan.Lines.{Bytes, is_too_long, FileView, split_after}
use noderax_agent.Logscan.Messages.{message_size}
use noderax_agent.Logscan.Tail.{
  LineInfo, line_info, push_line, total_bytes, tail_loop, fit, file_entry, select_lines,
  tail_file_entries,
}
use noderax_agent.Logscan.Tail.Window.{Tailed, total_bytes-fit, fit-drop, select_lines-fit}

abbrev pub WithinTail : ℕ → ℕ → Outcome ScanError Tailed → Type 0
WithinTail ml mb (ok (es, n, t)) = (length es ≤ ml) × (n ≤ mb) × (message_size es ≤ n)
WithinTail ml mb (err e) = Unit

length-map {ℓ κ} :
    {A : Type ℓ} {B : Type κ} (f : A → B) (xs : List A) → length (map f xs) ≡ length xs
length-map f [] = refl
length-map f (x ∷ xs) = ap suc (length-map f xs)

-- The size of a line counts its newline.
abbrev AllSized : List LineInfo → Type 0
AllSized = All (λ (l : LineInfo). length l.text < l.size)

-- The messages of lines are no longer than the lines.
message_size-total_bytes :
    (identifier : Text) (lines : List LineInfo)
    → AllSized lines
    → message_size (map (file_entry identifier) lines) ≤ total_bytes lines
unfolding message_size total_bytes file_entry
message_size-total_bytes id [] sized = omega arith
message_size-total_bytes id (l ∷ ls) sized =
    omega (arith, sized.0, message_size-total_bytes id ls sized.1)

line_info_sized : (c : Bytes) → length ((line_info c).text) < (line_info c).size
unfolding line_info
line_info_sized c = omega arith

push_line-AllSized :
    (b : ℕ) (lines : List LineInfo) (c : Bytes)
    → AllSized lines
    → AllSized (push_line b lines (line_info c))
unfolding push_line
push_line-AllSized b lines c sized = elim (Bool-cases (length lines == b)) [
  | inl full ↦
      rw full (All-append _ (drop 1 lines) _ (All-drop _ 1 lines sized) (line_info_sized c, tt))
  | inr room ↦ rw room (All-append _ lines _ sized (line_info_sized c, tt))
]

abbrev WindowSized : Outcome ScanError (List LineInfo) → Type 0
WindowSized (ok lines) = AllSized lines
WindowSized (err e) = Unit

tail_loop-AllSized :
    (b : ℕ) (done : ℕ → Bool) (k : ℕ) (chunks : List Bytes) (lines : List LineInfo)
    → AllSized lines
    → WindowSized (tail_loop b done k chunks lines)
unfolding tail_loop
tail_loop-AllSized b done k [] lines sized = sized
tail_loop-AllSized b done k (c ∷ cs) lines sized = elim (Bool-cases (is_too_long c)) [
  | inl long ↦ rw long tt
  | inr short ↦ rw short (elim (Bool-cases (done k)) [
    | inl stop ↦ rw stop tt
    | inr run ↦ rw run (
        tail_loop-AllSized b done (suc k) cs (push_line b lines (line_info c))
          (push_line-AllSized b lines c sized))
  ])
]

select_lines-Within :
    (ml mb : ℕ) (identifier : Text) (lines : List LineInfo)
    → AllSized lines
    → WithinTail ml mb (ok (select_lines ml mb identifier lines))
select_lines-Within ml mb id lines sized =
    let base = drop (length lines - ml) lines in
    let found = fit-drop mb base in
    let short : length (fit mb base) ≤ length base =
      rw found.1 (omega (arith, length-drop found.0 base)) in
    subst (λ r. WithinTail ml mb (ok r)) (sym (select_lines-fit ml mb id lines))
      (
        omega (
          arith,
          short,
          length-map (file_entry id) (fit mb base),
          length-drop (length lines - ml) lines,
        ),
        total_bytes-fit mb base,
        message_size-total_bytes id (fit mb base)
            (rw found.1 (All-drop _ found.0 base (All-drop _ (length lines - ml) lines sized))),
      )

tail_loop-Within :
    (file : FileView) (ml mb : ℕ) (identifier : Text) (r : Outcome ScanError (List LineInfo))
    → WindowSized r
    → WithinTail ml mb (
        r >>= λ lines. fail_if file.read_fails ScanError.scan_failed >>= λ _.
        ok (select_lines ml mb identifier lines))
tail_loop-Within file ml mb id (ok lines) sized = elim (Bool-cases file.read_fails) [
  | inl e ↦ rw e tt
  | inr e ↦ rw e (select_lines-Within ml mb id lines sized)
]
tail_loop-Within file ml mb id (err e) sized = tt

-- A tail returns no more than the limits allow, whatever the host does.
pub tail_file_entries-Within :
    (file : FileView) (done : ℕ → Bool) (b ml mb : ℕ) (identifier : Text)
    → WithinTail ml mb (tail_file_entries file done b ml mb identifier)
unfolding tail_file_entries
tail_file_entries-Within file done b ml mb id = elim (Bool-cases file.opens) [
  | inl e ↦ rw e (
      tail_loop-Within file ml mb id (tail_loop b done 0 (split_after file.content) [])
        (tail_loop-AllSized b done 0 (split_after file.content) [] tt))
  | inr e ↦ rw e tt
]
