-- ===== src/Logscan/Tail/Window.antt =====
-- What `tailFileEntries` returns: the longest suffix of the window that fits.
use noderax_agent.Prelude.{
  ℕ, zero, suc, ◌+◌, ◌-◌, ◌≤◌, ◌≡◌, refl, sym, ap, ◌∙◌, inl, inr, Bool, true, false, List, [], ◌∷◌,
  ◌++◌, map, append_assoc, append-nil, arith, ltb, leb, ◌==◌, if◌then◌else◌, Bool-cases, length,
  drop, length-append, length-drop, drop-drop, drop-append_of_le, drop_nil, All, Text, is_empty,
  Outcome, ok,
}
use Prim.Native.Nat.{min}
use native.Mathlib.Decide.{dec_le}
use noderax_agent.Logscan.Types.{Entry, ScanError}
use noderax_agent.Logscan.Lines.{Bytes, FileView, is_too_long, split_after}
use noderax_agent.Logscan.Tail.{
  LineInfo, line_info, push_line, tail_loop, total_bytes, fit, file_entry, select_lines,
  tail_file_entries, take_last, file_lines,
}

length-take_last {ℓ} :
    {A : Type ℓ} (n : ℕ) (xs : List A) → length (take_last n xs) ≡ min n (length xs)
length-take_last n xs = omega (arith, length-drop (length xs - n) xs)

==-refl : {a b : ℕ} → a ≡ b → (a == b) ≡ true
==-refl {a} {b} h = ground arith

-- A window that is a suffix of what was read stays one.
push_line-take_last :
    (b : ℕ) (xs : List LineInfo) (l : LineInfo)
    → 1 ≤ b
    → push_line b (take_last b xs) l ≡ take_last b (xs ++ l ∷ [])
unfolding push_line
push_line-take_last b xs l h = elim (dec_le b (length xs)) [
  | yes full ↦
      let e : length (drop (length xs - b) xs) ≡ b = omega (arith, length-take_last b xs) in
      let e' : length (xs ++ l ∷ []) - b ≡ length xs - b + 1 =
        omega (arith, length-append xs (l ∷ [])) in
      rw (e', drop-append_of_le (length xs - b + 1) xs (l ∷ []) (omega arith), ==-refl e)
        (rw drop-drop)
  | no room ↦
      let e : length xs - b ≡ 0 = omega arith in
      let e' : length (xs ++ l ∷ []) - b ≡ 0 = omega (arith, length-append xs (l ∷ [])) in
      rw (e', e) (ground arith)
]

tail_loop-take_last :
    (b : ℕ) (done : ℕ → Bool) (k : ℕ) (chunks : List Bytes) (read : List LineInfo)
    → 1 ≤ b
    → All (λ c. is_too_long c ≡ false) chunks
    → ((i : ℕ) → done i ≡ false)
    → tail_loop b done k chunks (take_last b read) ≡ ok (take_last b (read ++ map line_info chunks))
unfolding tail_loop
tail_loop-take_last b done k [] read h short run = rw append-nil
tail_loop-take_last b done k (c ∷ cs) read h short run = rw (
  short.0,
  run k,
  push_line-take_last b read (line_info c) h,
  tail_loop-take_last b done (suc k) cs (read ++ line_info c ∷ []) h short.1 run,
  append_assoc,
)

tail_loop_from_start :
    (b : ℕ) (done : ℕ → Bool) (chunks : List Bytes)
    → 1 ≤ b
    → All (λ c. is_too_long c ≡ false) chunks
    → ((i : ℕ) → done i ≡ false)
    → tail_loop b done 0 chunks [] ≡ ok (take_last b (map line_info chunks))
tail_loop_from_start b done chunks h short run =
    ap (tail_loop b done 0 chunks) (sym (drop_nil (0 - b)))
    ∙ tail_loop-take_last b done 0 chunks [] h short run

-- `fit` is a suffix, it fits, and no longer suffix does.
pub fit-drop : (m : ℕ) (ls : List LineInfo) → (j : ℕ) × (fit m ls ≡ drop j ls)
unfolding fit
fit-drop m [] = (0, refl)
fit-drop m (l ∷ ls) = elim (Bool-cases (leb (total_bytes (l ∷ ls)) m)) [
  | inl h ↦ (0, rw h)
  | inr h ↦ (suc (fit-drop m ls).0, rw h (fit-drop m ls).1)
]

pub total_bytes-fit : (m : ℕ) (ls : List LineInfo) → total_bytes (fit m ls) ≤ m
unfolding fit
total_bytes-fit m [] = omega arith
total_bytes-fit m (l ∷ ls) = ground (arith, total_bytes-fit m ls)

fit_maximal :
    (m k : ℕ) (ls : List LineInfo)
    → total_bytes (drop k ls) ≤ m
    → length (drop k ls) ≤ length (fit m ls)
unfolding fit
fit_maximal m zero [] h = omega arith
fit_maximal m (suc k) [] h = omega arith
fit_maximal m zero (l ∷ ls) h = ground arith
fit_maximal m (suc k) (l ∷ ls) h = ground (arith, fit_maximal m k ls h, length-drop k ls)

-- What `tailFileEntries` returns beside its error.
abbrev pub Tailed : Type 0
Tailed = List Entry × ℕ × Bool

pub select_lines-fit :
    (ml mb : ℕ) (identifier : Text) (lines : List LineInfo)
    → let shown = fit mb (take_last ml lines) in
      ◌≡◌ {A = Tailed}
        (select_lines ml mb identifier lines)
        (map (file_entry identifier) shown, total_bytes shown, ltb (length shown) (length lines))
unfolding select_lines
select_lines-fit ml mb identifier lines =
    let e : (if ltb ml (length lines) then length lines - ml else 0) ≡ length lines - ml =
      ground arith in
    rw e (shown_or_empty (fit mb (take_last ml lines)))
  where
    shown_or_empty :
        (s : List LineInfo)
        → ◌≡◌ {A = Tailed}
            (if is_empty s
              then ([], 0, ltb 0 (length lines))
              else (map (file_entry identifier) s, total_bytes s, ltb (length s) (length lines)))
            (map (file_entry identifier) s, total_bytes s, ltb (length s) (length lines))
    shown_or_empty [] = refl
    shown_or_empty (l ∷ s) = refl

-- The suffix that starts at line `j` keeps to the three limits.
pub record Fits (b ml mb : ℕ) (lines : List LineInfo) : Type 0 where
  pub in_window : length lines ≤ b
  pub in_lines : length lines ≤ ml
  pub in_bytes : total_bytes lines ≤ mb

shown_from : (b ml mb : ℕ) → List LineInfo → ℕ
unfolding fit-drop
shown_from b ml mb lines =
    (length lines - b)
    + (length (take_last b lines) - ml)
    + (fit-drop mb (take_last ml (take_last b lines))).0

drop-shown_from :
    (b ml mb : ℕ) (lines : List LineInfo)
    → drop (shown_from b ml mb lines) lines ≡ fit mb (take_last ml (take_last b lines))
unfolding shown_from
drop-shown_from b ml mb lines =
    let i = length lines - b in
    let i' = length (take_last b lines) - ml in
    let found = fit-drop mb (take_last ml (take_last b lines)) in
    sym (drop-drop found.0 (i + i') lines)
    ∙ ap (drop found.0) (sym (drop-drop i' i lines))
    ∙ sym found.1

Fits-shown_from :
    (b ml mb : ℕ) (lines : List LineInfo) → Fits b ml mb (drop (shown_from b ml mb lines) lines)
Fits-shown_from b ml mb lines = rw (drop-shown_from b ml mb lines) (
    omega (
      arith,
      total_bytes-fit mb (take_last ml (take_last b lines)),
      length-fit,
      length-take_last ml (take_last b lines),
      length-take_last b lines,
    ))
  where
    length-fit :
        length (fit mb (take_last ml (take_last b lines)))
        ≤ length (take_last ml (take_last b lines))
    length-fit =
        let found = fit-drop mb (take_last ml (take_last b lines)) in
        rw found.1 (omega (arith, length-drop found.0 (take_last ml (take_last b lines))))

shown_from_maximal :
    (b ml mb k : ℕ) (lines : List LineInfo)
    → Fits b ml mb (drop k lines)
    → length (drop k lines) ≤ length (drop (shown_from b ml mb lines) lines)
shown_from_maximal b ml mb k lines h =
    let i = length lines - b in
    let i' = length (take_last b lines) - ml in
    let below : i + i' ≤ k =
      omega (arith, h.in_window, h.in_lines, length-drop k lines, length-take_last b lines) in
    let e : drop k lines ≡ drop (k - (i + i')) (take_last ml (take_last b lines)) =
      sym (drop_to i i' below) in
    rw (drop-shown_from b ml mb lines)
      (rw e (fit_maximal mb (k - (i + i')) (take_last ml (take_last b lines)) (rw e at h.in_bytes)))
  where
    drop_to : (i i' : ℕ) → i + i' ≤ k → drop (k - (i + i')) (drop i' (drop i lines)) ≡ drop k lines
    drop_to i i' below =
        rw (drop-drop i' i lines, drop-drop (k - (i + i')) (i + i') lines)
          (ap (λ n. drop n lines) (sum_back below))
      where
        sum_back : {m : ℕ} → m ≤ k → m + (k - m) ≡ k
        sum_back le = omega arith

abbrev pub IsLongestTail : ℕ → ℕ → ℕ → Text → List LineInfo → Outcome ScanError Tailed → Type 0
IsLongestTail b ml mb identifier lines r =
    (j : ℕ) × (r
      ≡ ok (
        map (file_entry identifier) (drop j lines),
        total_bytes (drop j lines),
        ltb (length (drop j lines)) (min b (length lines)),
      ))
    × Fits b ml mb (drop j lines)
    × ((k : ℕ) → Fits b ml mb (drop k lines) → length (drop k lines) ≤ length (drop j lines))

-- A tail that can read the file, whose lines fit the scanner's buffer, and that is not cancelled
-- returns the longest suffix of the file's lines that keeps to the backfill window and the limits
-- on lines and bytes, with its byte count and the truncation mark.
pub tail_file_entries-longest :
    (file : FileView) (done : ℕ → Bool) (b ml mb : ℕ) (identifier : Text)
    → 1 ≤ b
    → file.opens ≡ true
    → file.read_fails ≡ false
    → All (λ c. is_too_long c ≡ false) (split_after file.content)
    → ((i : ℕ) → done i ≡ false)
    → IsLongestTail b ml mb identifier
        (file_lines file)
        (tail_file_entries file done b ml mb identifier)
unfolding tail_file_entries
tail_file_entries-longest file done b ml mb identifier h opens reads short run =
    let lines = file_lines file in
    (
      shown_from b ml mb lines,
      rw
          (
            opens,
            reads,
            tail_loop_from_start b done (split_after file.content) h short run,
            drop-shown_from b ml mb lines,
            ← length-take_last b lines,
          )
          (ap ok (select_lines-fit ml mb identifier (take_last b lines))),
      Fits-shown_from b ml mb lines,
      λ k. shown_from_maximal b ml mb k lines,
    )
