-- ===== src/Logscan/File/Cursors.antt =====
-- What a scan of a file promises of its result and its cursor.
use noderax_agent.Prelude.{
  ℕ, ◌≤◌, ◌≡◌, refl, inl, inr, Option, none, some, [], ◌∷◌, ◌++◌, Bool-cases, length, ℤ, pos, Text,
  codes, is_empty, text_eq, trim_space, Outcome, ok, err, ◌>>=◌,
}
use noderax_agent.Logscan.Types.{mode_preview, Cursor, ScanResult, Preset, ScanError}
use noderax_agent.Logscan.Limits.{NormalizedLimits}
use noderax_agent.Logscan.Messages.{message_size}
use noderax_agent.Logscan.Tail.{tail_file_entries}
use noderax_agent.Logscan.Tail.Bounds.{WithinTail, tail_file_entries-Within}
use noderax_agent.Logscan.Tail.Window.{Tailed}
use noderax_agent.Logscan.Offset.{Read, read_file_from_offset}
use noderax_agent.Logscan.Offset.Bounds.{WithinRead, read_file_from_offset-Within}
use noderax_agent.Logscan.File.{
  FileHost, empty_result, with_tail, reset_reason, scan_from_start, scan_from_offset, scan_monitor,
  scan_stat, scan_file,
}

-- The counts of a result agree with its entries and keep to the limits.
pub record IsBounded (l : NormalizedLimits) (r : ScanResult) : Type 0 where
  pub lines_eq : r.lines_read ≡ length r.entries
  pub lines_cap : r.lines_read ≤ l.max_lines
  pub bytes_cap : r.bytes_read ≤ l.max_bytes
  pub messages_fit : message_size r.entries ≤ r.bytes_read

abbrev pub Bounded : NormalizedLimits → Outcome ScanError ScanResult → Type 0
Bounded l (ok r) = IsBounded l r
Bounded l (err e) = Unit

module _ (h : FileHost) (preset : Preset) (l : NormalizedLimits) where
  with_tail-Bounded : (result : ScanResult) → Bounded l (with_tail h preset l result)
  unfolding with_tail
  with_tail-Bounded result =
      go
        (tail_file_entries h.view h.done l.backfill_lines l.max_lines l.max_bytes preset.identifier)
        (tail_file_entries-Within h.view h.done l.backfill_lines l.max_lines l.max_bytes
          preset.identifier)
    where
      go :
          (t : Outcome ScanError Tailed)
          → WithinTail l.max_lines l.max_bytes t
          → Bounded l (
              t >>= λ (es, n, tr). ok (record result {
                entries = es;
                bytes_read = n;
                lines_read = length es;
                truncated = tr;
              }))
      go (ok (es, n, tr)) (a, b, m) = record {
        lines_eq = refl;
        lines_cap = a;
        bytes_cap = b;
        messages_fit = m;
      }
      go (err e) w = tt

  scan_from_start-Bounded :
      (reason : Text) (result : ScanResult) → Bounded l (scan_from_start h preset l reason result)
  unfolding scan_from_start
  scan_from_start-Bounded reason result =
      go (with_tail h preset l result) (with_tail-Bounded result)
    where
      go :
          (t : Outcome ScanError ScanResult)
          → Bounded l t
          → Bounded l (
              t >>= λ r. ok (record r {
                cursor = record (r.cursor) { cursor_reset_reason = reason };
                warnings = r.warnings ++ (codes "file cursor reset after log file " ++ reason) ∷ [];
              }))
      go (ok r) w = record {
        lines_eq = w.lines_eq;
        lines_cap = w.lines_cap;
        bytes_cap = w.bytes_cap;
        messages_fit = w.messages_fit;
      }
      go (err e) w = tt

  scan_from_offset-Bounded :
      (offset : ℤ) (result : ScanResult) → Bounded l (scan_from_offset h preset l offset result)
  unfolding scan_from_offset
  scan_from_offset-Bounded offset result =
      go (read_file_from_offset h.view h.done offset l.max_lines l.max_bytes preset.identifier) (
        read_file_from_offset-Within h.view h.done offset l.max_lines l.max_bytes preset.identifier)
    where
      go :
          (t : Outcome ScanError Read)
          → WithinRead l.max_lines l.max_bytes t
          → Bounded l (
              t >>= λ (es, n, tr, next). ok (record result {
                entries = es;
                bytes_read = n;
                lines_read = length es;
                truncated = tr;
                cursor = record (result.cursor) { file_offset = pos next };
              }))
      go (ok (es, n, tr, next)) (a, b, m) = record {
        lines_eq = refl;
        lines_cap = a;
        bytes_cap = b;
        messages_fit = m;
      }
      go (err e) w = tt

  scan_monitor-Bounded :
      (c : Option Cursor) (inode : Text) (size : ℕ) (result : ScanResult)
      → Bounded l (scan_monitor h preset l c inode size result)
  unfolding scan_monitor
  scan_monitor-Bounded none inode size result = with_tail-Bounded result
  scan_monitor-Bounded (some c) inode size result =
      elim (Bool-cases (is_empty (trim_space c.file_inode))) [
        | inl e ↦ rw e (with_tail-Bounded result)
        | inr e ↦ rw e (elim (Bool-cases (is_empty (reset_reason c inode size))) [
          | inl e' ↦ rw e' (scan_from_offset-Bounded c.file_offset result)
          | inr e' ↦ rw e' (scan_from_start-Bounded (reset_reason c inode size) result)
        ])
      ]

  scan_stat-Bounded :
      (mode : Text) (c : Option Cursor) (stat : Option (Text × ℕ))
      → Bounded l (scan_stat h preset mode l c stat)
  unfolding scan_stat
  scan_stat-Bounded mode c none = tt
  scan_stat-Bounded mode c (some (inode, size)) = elim (Bool-cases (text_eq mode mode_preview)) [
    | inl e ↦ rw e (with_tail-Bounded (empty_result h preset inode size))
    | inr e ↦ rw e (scan_monitor-Bounded c inode size (empty_result h preset inode size))
  ]

  -- Every result of a file scan, in every mode and with every cursor, counts its entries and keeps
  -- to the limits on lines and bytes.
  pub scan_file-Bounded :
      (mode : Text) (c : Option Cursor) → Bounded l (scan_file h preset mode l c)
  unfolding scan_file
  scan_file-Bounded mode c = scan_stat-Bounded mode c h.stat
