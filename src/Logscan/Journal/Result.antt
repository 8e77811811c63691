-- ===== src/Logscan/Journal/Result.antt =====
-- What a scan of the journal returns.
use noderax_agent.Prelude.{
  zero, suc, ◌+◌, ◌<◌, ◌⊎◌, subst, is_empty, leb, leb→le, ltb→lt, ℕ, ◌≤◌, ◌≡◌, refl, sym, ap, ◌∙◌,
  inl, inr, Bool, true, false, not, ◌&&◌, none, some, List, [], ◌∷◌, arith, ltb, Bool-cases, length,
  take, drop, take_nil, text_eq, trim_left, trim_right, trim_space, Outcome, ok, err, ◌>>=◌,
  fail_if,
}
use noderax_agent.Logscan.Types.{mode_monitor, ScanResult, Preset, ScanError, journalctl_failed}
use noderax_agent.Logscan.Limits.{NormalizedLimits}
use noderax_agent.Logscan.Lines.{Bytes, token}
use noderax_agent.Logscan.Journal.{
  Codec, JournalHost, JournalState, journal_args, journal_loop, journal_result, scan_journal,
}
use noderax_agent.Logscan.Journal.Outputs.{StopsAt, TookLines, LoopTook, journal_loop-LoopTook}
use noderax_agent.Logscan.Journal.Parts.{
  start, entries_of, warnings_of, sizes_of, last_cursor_of, take_all_parsed-parts,
}

passed {ℓ κ} :
    {E : Type ℓ} {A : Type κ} (test : Bool) (e : E) (a b : A)
    → (fail_if test e >>= λ _. ok a) ≡ ok b
    → a ≡ b
passed true e a b h = cc
passed false e a b h = cc

-- The limits leave no room for the first of the lines, behind `count` entries of `bytes` bytes.
abbrev pub NoRoomFor : NormalizedLimits → ℕ → ℕ → List Bytes → Type 0
NoRoomFor l count bytes [] = Unit
NoRoomFor l count bytes (c ∷ cs) =
    (l.max_lines ≤ count) ⊎ (l.max_bytes < bytes + (length (token c) + 1))

-- A result that is what the lines say, which the limits allow, and no more lines.
pub record IsResultOf (codec : Codec) (preset : Preset) (l : NormalizedLimits) (r : ScanResult)
    (taken left : List Bytes) : Type 0 where
  pub entries_eq : r.entries ≡ entries_of codec preset taken
  pub warnings_eq : r.warnings ≡ warnings_of codec preset taken
  pub cursor_eq : r.cursor.journal_cursor ≡ last_cursor_of codec preset [] taken
  pub lines_eq : r.lines_read ≡ length r.entries
  pub bytes_eq : r.bytes_read ≡ sizes_of codec preset taken
  pub truncated_eq : r.truncated ≡ not (is_empty left)
  pub lines_cap : length r.entries ≤ l.max_lines
  pub bytes_cap : sizes_of codec preset taken ≤ l.max_bytes
  pub no_room : NoRoomFor l (length r.entries) (sizes_of codec preset taken) left

abbrev pub IsJournalPrefix : Codec → JournalHost → Preset → NormalizedLimits → ScanResult → Type 0
IsJournalPrefix codec h preset l r =
    (j : ℕ) × (j ≤ length h.output)
    × IsResultOf codec preset l r (take j h.output) (drop j h.output)

StopsAt-NoRoomFor :
    (l : NormalizedLimits) (t : JournalState) (left : List Bytes)
    → StopsAt l t left
    → NoRoomFor l (length t.entries) t.bytes_read left
StopsAt-NoRoomFor l t [] h = tt
StopsAt-NoRoomFor l t (c ∷ cs) h = elim (Bool-cases (leb l.max_lines (length t.entries))) [
  | inl full ↦ inl (leb→le _ _ full)
  | inr room ↦ inr (ltb→lt _ _ (simp room at h))
]

left-is_empty : (j : ℕ) (cs : List Bytes) → ltb j (length cs) ≡ not (is_empty (drop j cs))
left-is_empty zero [] = ground arith
left-is_empty (suc j) [] = ground arith
left-is_empty zero (c ∷ cs) = ground arith
left-is_empty (suc j) (c ∷ cs) = sym (left-is_empty_suc j (length cs)) ∙ left-is_empty j cs
  where
    left-is_empty_suc : (j n : ℕ) → ltb j n ≡ ltb (suc j) (suc n)
    left-is_empty_suc j n = ground arith

-- A successful scan of the journal takes a prefix of the lines of the output. It returns the
-- entries of the lines that were decoded, in order, their number and the sum of the sizes of these
-- lines, a warning for each of the other lines and the cursor of the last entry. The entries are no
-- more than the limit on lines and the sizes no more than the limit on bytes; the result is marked
-- as truncated exactly where lines are left, and then there are as many entries as the limit allows
-- or the next line is longer than what the limit on bytes leaves.
pub scan_journal-prefix :
    (codec : Codec) (h : JournalHost) (preset : Preset) (l : NormalizedLimits) (r : ScanResult)
    → scan_journal codec h preset l ≡ ok r
    → IsJournalPrefix codec h preset l r
unfolding scan_journal
scan_journal-prefix codec h preset l r e = elim (Bool-cases h.found) [
  | inr missing ↦ cc (simp missing at e)
  | inl found ↦ elim (Bool-cases h.starts) [
    | inr missing ↦ cc (simp (found, missing) at e)
    | inl starts ↦
        looped (journal_loop codec h preset l 0 h.output start)
          (journal_loop-LoopTook codec h preset l 0 h.output start refl
            (record { lines_cap = omega arith; bytes_cap = omega arith }))
          (simp (found, starts) at e)
  ]
]
  where
    taken :
        (t : JournalState) (j : ℕ)
        → TookLines codec preset l h.output start t j
        → IsResultOf codec preset l
            (journal_result codec h preset l t)
            (take j h.output)
            (drop j h.output)
    taken t j took =
        let (es, ws, last, bytes) = take_all_parsed-parts codec preset (take j h.output) start in
        let p = took.parsed_eq in
        let size : t.bytes_read ≡ sizes_of codec preset (take j h.output) =
          ap (λ (s : JournalState). s.bytes_read) p ∙ bytes ∙ omega arith in
        record {
          entries_eq = ap (λ (s : JournalState). s.entries) p ∙ es;
          warnings_eq = ap (λ (s : JournalState). s.warnings) p ∙ ws;
          cursor_eq = ap (λ (s : JournalState). s.last_cursor) p ∙ last;
          lines_eq = refl;
          bytes_eq = size;
          truncated_eq = ap (λ (s : JournalState). s.truncated) p ∙ left-is_empty j h.output;
          lines_cap = took.within.lines_cap;
          bytes_cap = omega (arith, size, took.within.bytes_cap);
          no_room =
              subst (λ n. NoRoomFor l (length t.entries) n (drop j h.output)) size
                (StopsAt-NoRoomFor l t (drop j h.output) took.stops);
        }

    looped :
        (o : Outcome ScanError JournalState)
        → LoopTook codec preset l h.output start o
        → (o >>= λ s. fail_if (h.wait_fails && not s.truncated) journalctl_failed >>= λ _.
            ok (journal_result codec h preset l s))
          ≡ ok r
        → IsJournalPrefix codec h preset l r
    looped (err x) w e = cc
    looped (ok t) (j, took) e =
        let r_eq : journal_result codec h preset l t ≡ r =
          passed (h.wait_fails && not t.truncated) journalctl_failed _ r e in
        (
          j,
          took.count_le,
          subst
              (λ (x : ScanResult). IsResultOf codec preset l x (take j h.output) (drop j h.output))
              r_eq (taken t j took),
        )

-- A monitor that scans while the journal is idle gets no entry, and a result with an empty cursor,
-- whatever cursor it sent: the arguments of its next scan are those of a scan with no cursor, so that
-- the last lines of the journal are returned again.
pub scan_journal_idle :
    (codec : Codec) (h : JournalHost) (preset : Preset) (l : NormalizedLimits) (r : ScanResult)
    → h.output ≡ []
    → scan_journal codec h preset l ≡ ok r
    → (r.entries ≡ [])
      × (r.cursor.journal_cursor ≡ [])
      × (journal_args preset mode_monitor l (some r.cursor)
          ≡ journal_args preset mode_monitor l none)
unfolding entries_of last_cursor_of journal_args text_eq trim_space trim_left trim_right
scan_journal_idle codec h preset l r idle e =
    let (j, few, is) = scan_journal-prefix codec h preset l r e in
    let no_lines : take j h.output ≡ [] = ap (take j) idle ∙ take_nil j in
    let no_cursor : r.cursor.journal_cursor ≡ [] =
      is.cursor_eq ∙ ap (last_cursor_of codec preset []) no_lines in
    (is.entries_eq ∙ ap (entries_of codec preset) no_lines, no_cursor, rw no_cursor refl)
