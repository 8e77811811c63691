-- ===== src/Logscan/File/Follow.antt =====
-- A monitor that follows a file: the scan behind a first scan reads on where that one stopped.
use noderax_agent.Prelude.{
  ℕ, ◌+◌, ◌≤◌, ◌≡◌, sym, ap, ◌∙◌, inl, inr, true, false, none, some, [], ◌++◌, map, arith, ltb,
  Bool-cases, length, take, drop, length-append, drop-append, pos, Text, is_empty, text_eq,
  text_eq_refl, trim_space, Outcome, ok, err, ◌>>=◌,
}
use noderax_agent.Logscan.Types.{mode_preview, Cursor, ScanResult, Preset, ScanError}
use noderax_agent.Logscan.Limits.{NormalizedLimits}
use noderax_agent.Logscan.Lines.{Bytes, split_after}
use noderax_agent.Logscan.Tail.{tail_file_entries}
use noderax_agent.Logscan.Tail.Window.{Tailed}
use noderax_agent.Logscan.Offset.{chunk_entry}
use noderax_agent.Logscan.Offset.Accept.{total_size}
use noderax_agent.Logscan.Offset.Prefix.{PrefixFits, read_file_from_offset-longest}
use noderax_agent.Logscan.File.{
  FileHost, empty_result, with_tail, reset_reason, scan_from_offset, scan_monitor, scan_stat,
  scan_file,
}

module _ (h : FileHost) (preset : Preset) (l : NormalizedLimits) where
  with_tail-cursor :
      (result r : ScanResult) → with_tail h preset l result ≡ ok r → r.cursor ≡ result.cursor
  unfolding with_tail
  with_tail-cursor result r e =
      go
        (tail_file_entries h.view h.done l.backfill_lines l.max_lines l.max_bytes preset.identifier)
        e
    where
      go :
          (t : Outcome ScanError Tailed)
          → (t >>= λ (es, n, tr). ok (record result {
            entries = es;
            bytes_read = n;
            lines_read = length es;
            truncated = tr;
          }))
            ≡ ok r
          → r.cursor ≡ result.cursor
      go (ok (es, n, tr)) e = ground arith
      go (err x) e = cc

  -- A cursor on the same inode, within the size, is read from.
  reset_reason-none :
      (c : Cursor) (inode : Text) (n size : ℕ)
      → c.file_inode ≡ inode
      → c.file_offset ≡ pos n
      → n ≤ size
      → reset_reason c inode size ≡ []
  unfolding reset_reason
  reset_reason-none c inode n size same at_n within =
      rw (same, at_n, text_eq_refl inode) (ground arith)

  scan_monitor-offset :
      (c : Cursor) (inode : Text) (n size : ℕ) (result : ScanResult)
      → is_empty (trim_space inode) ≡ false
      → c.file_inode ≡ inode
      → c.file_offset ≡ pos n
      → n ≤ size
      → scan_monitor h preset l (some c) inode size result
        ≡ scan_from_offset h preset l (pos n) result
  unfolding scan_monitor
  scan_monitor-offset c inode n size result named same at_n within =
      let unnamed : is_empty (trim_space c.file_inode) ≡ false = rw same named in
      rw (unnamed, reset_reason-none c inode n size same at_n within, at_n)

  -- A scan from an offset in the good case.
  scan_from_offset-entries :
      (n : ℕ) (result r : ScanResult)
      → h.view.opens ≡ true
      → h.view.read_fails ≡ false
      → ((i : ℕ) → h.done i ≡ false)
      → scan_from_offset h preset l (pos n) result ≡ ok r
      → let lines = split_after (drop n h.view.content) in
        (k : ℕ) × PrefixFits l.max_lines l.max_bytes (take k lines)
        × ((j : ℕ)
            → PrefixFits l.max_lines l.max_bytes (take j lines)
            → length (take j lines) ≤ length (take k lines))
        × (r.entries ≡ map (chunk_entry preset.identifier) (take k lines))
        × (r.truncated ≡ ltb (length (take k lines)) (length lines))
        × (r.cursor ≡ record (result.cursor) { file_offset = pos (n + total_size (take k lines)) })
        × (r.warnings ≡ result.warnings)
  unfolding scan_from_offset
  scan_from_offset-entries n result r opens reads run e =
      let (k, read, fits, best) =
        read_file_from_offset-longest h.view h.done n l.max_lines l.max_bytes preset.identifier
          opens reads run in
      let e' = rw read at e in
      (k, fits, best, ground arith, ground arith, ground arith, ground arith)

first_scan-cursor :
    (h : FileHost) (preset : Preset) (l : NormalizedLimits) (mode inode : Text) (size : ℕ)
    (r : ScanResult)
    → h.stat ≡ some (inode, size)
    → scan_file h preset mode l none ≡ ok r
    → r.cursor ≡ (empty_result h preset inode size).cursor
unfolding scan_file scan_stat scan_monitor
first_scan-cursor h preset l mode inode size r stat e =
    let e' = simp stat at e in
    elim (Bool-cases (text_eq mode mode_preview)) [
      | inl p ↦ with_tail-cursor h preset l (empty_result h preset inode size) r (rw p at e')
      | inr p ↦ with_tail-cursor h preset l (empty_result h preset inode size) r (rw p at e')
    ]

-- The scan with a cursor that stands within the file.
second_scan :
    (h : FileHost) (preset : Preset) (l : NormalizedLimits) (mode inode : Text) (n size : ℕ)
    (c : Cursor)
    → h.stat ≡ some (inode, size)
    → is_empty (trim_space inode) ≡ false
    → text_eq mode mode_preview ≡ false
    → c.file_inode ≡ inode
    → c.file_offset ≡ pos n
    → n ≤ size
    → scan_file h preset mode l (some c)
      ≡ scan_from_offset h preset l (pos n) (empty_result h preset inode size)
unfolding scan_file scan_stat
second_scan h preset l mode inode n size c stat named monitor same at_n within =
    simp (stat, monitor)
      (scan_monitor-offset h preset l c inode n size (empty_result h preset inode size) named same
        at_n within)

-- A result whose entries are the first lines of `more`, which stand behind `offset` in the file.
abbrev pub ReadsOn : Preset → NormalizedLimits → ℕ → Bytes → ScanResult → Type 0
ReadsOn preset l offset more r =
    let lines = split_after more in
    (k : ℕ) × PrefixFits l.max_lines l.max_bytes (take k lines)
    × ((j : ℕ)
        → PrefixFits l.max_lines l.max_bytes (take j lines)
        → length (take j lines) ≤ length (take k lines))
    × (r.entries ≡ map (chunk_entry preset.identifier) (take k lines))
    × (r.truncated ≡ ltb (length (take k lines)) (length lines))
    × (r.cursor.file_offset ≡ pos (offset + total_size (take k lines)))
    × (r.cursor.cursor_reset_reason ≡ [])
    × (r.warnings ≡ [])

-- A monitor scans a file with no cursor, the file grows, and the monitor scans again with the
-- cursor of the first result: the second scan is not reset and returns the longest prefix of the
-- added lines that keeps to the limits, it is marked as truncated exactly where added lines are
-- left, and its cursor stands right behind what it returned. The first scan's size is that of the
-- file it read, and the inode has a name.
pub scan_file_follows :
    (h h' : FileHost) (preset : Preset) (l : NormalizedLimits) (mode inode : Text)
    (content more : Bytes) (r r' : ScanResult)
    → text_eq mode mode_preview ≡ false
    → is_empty (trim_space inode) ≡ false
    → h.stat ≡ some (inode, length content)
    → h'.stat ≡ some (inode, length (content ++ more))
    → h'.view.content ≡ content ++ more
    → h'.view.opens ≡ true
    → h'.view.read_fails ≡ false
    → ((i : ℕ) → h'.done i ≡ false)
    → scan_file h preset mode l none ≡ ok r
    → scan_file h' preset mode l (some r.cursor) ≡ ok r'
    → ReadsOn preset l (length content) more r'
unfolding empty_result
scan_file_follows h h' preset l mode inode content more r r' monitor named stat stat' grown opens
      reads run e e' =
    let c_eq = first_scan-cursor h preset l mode inode (length content) r stat e in
    let within : length content ≤ length (content ++ more) =
      omega (arith, length-append content more) in
    let step =
      second_scan h' preset l mode inode (length content) (length (content ++ more)) r.cursor stat'
        named monitor (ap (λ (c : Cursor). c.file_inode) c_eq)
        (ap (λ (c : Cursor). c.file_offset) c_eq) within in
    let (k, fits, best, es, tr, c', ws) =
      scan_from_offset-entries h' preset l (length content)
        (empty_result h' preset inode (length (content ++ more))) r' opens reads run
        (sym step ∙ e') in
    let behind : drop (length content) h'.view.content ≡ more =
      ap (drop (length content)) grown ∙ drop-append content more in
    let fits' = rw behind at fits in
    let best' = rw behind at best in
    let es' = rw behind at es in
    let tr' = rw behind at tr in
    let c'' = rw behind at c' in
    (
      k,
      fits',
      best',
      es',
      tr',
      ap (λ (c : Cursor). c.file_offset) c'',
      ap (λ (c : Cursor). c.cursor_reset_reason) c'',
      ws,
    )
