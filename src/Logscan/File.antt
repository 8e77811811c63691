-- ===== src/Logscan/File.antt =====
-- `scanFile`: which part of a file a scan returns, by its mode and its cursor.
pub mod Cursors
pub mod Follow
use noderax_agent.Prelude.{
  ℕ, Bool, false, not, Option, none, some, [], ◌∷◌, ◌++◌, ltb, if◌then◌else◌, length, ℤ, pos, ltb_ℤ,
  Text, codes, is_empty, text_eq, trim_space, Outcome, ok, err, ◌>>=◌, ◌>>◌,
}
use noderax_agent.Logscan.Types.{
  mode_preview, file, Cursor, ScanResult, Preset, ScanError, stat_failed,
}
use noderax_agent.Logscan.Limits.{NormalizedLimits}
use noderax_agent.Logscan.Lines.{FileView}
use noderax_agent.Logscan.Tail.{tail_file_entries}
use noderax_agent.Logscan.Offset.{read_file_from_offset}

-- What the calls of `scanFile` see: the inode and size of `os.Stat`, the file as it is read after
-- that, the checks of the context, and the time.
pub record FileHost : Type 0 where
  pub stat : Option (Text × ℕ)
  pub view : FileView
  pub done : ℕ → Bool
  pub now : Text

-- `result` before it is filled in: the cursor stands at the size that `os.Stat` reported.
unfoldable pub empty_result : FileHost → Preset → Text → ℕ → ScanResult
empty_result h preset inode size = record {
  source_preset_id = preset.id;
  source_type = file;
  entries = [];
  cursor = record {
    journal_cursor = [];
    file_inode = inode;
    file_offset = pos size;
    last_read_at = h.now;
    cursor_reset_reason = [];
  };
  truncated = false;
  bytes_read = 0;
  lines_read = 0;
  warnings = [];
}

-- The tail that the first three cases share.
unfoldable pub with_tail :
    FileHost → Preset → NormalizedLimits → ScanResult → Outcome ScanError ScanResult
with_tail h preset limits result = do
  (entries, bytes_read, truncated) ←
      tail_file_entries h.view h.done limits.backfill_lines limits.max_lines limits.max_bytes
        preset.identifier
  ok (record result {
    entries = entries;
    bytes_read = bytes_read;
    lines_read = length entries;
    truncated = truncated;
  })

abbrev pub rotated : Text
rotated = codes "rotated"

abbrev pub truncated_reason : Text
truncated_reason = codes "truncated"

unfoldable pub reset_reason : Cursor → Text → ℕ → Text
reset_reason c inode size =
    if not (text_eq c.file_inode inode)
    then rotated
    else if ltb_ℤ (pos size) c.file_offset
    then truncated_reason
    else []

-- `if resetReason != ""`.
unfoldable pub scan_from_start :
    FileHost → Preset → NormalizedLimits → Text → ScanResult → Outcome ScanError ScanResult
scan_from_start h preset limits reason result = do
  r ← with_tail h preset limits result
  ok (record r {
    cursor = record (r.cursor) { cursor_reset_reason = reason };
    warnings = r.warnings ++ (codes "file cursor reset after log file " ++ reason) ∷ [];
  })

-- The last case: the lines behind the cursor.
unfoldable pub scan_from_offset :
    FileHost → Preset → NormalizedLimits → ℤ → ScanResult → Outcome ScanError ScanResult
scan_from_offset h preset limits offset result = do
  (entries, bytes_read, truncated, next_offset) ←
      read_file_from_offset h.view h.done offset limits.max_lines limits.max_bytes preset.identifier
  ok (record result {
    entries = entries;
    bytes_read = bytes_read;
    lines_read = length entries;
    truncated = truncated;
    cursor = record (result.cursor) { file_offset = pos next_offset };
  })

-- From `if cursor == nil` on.
unfoldable pub scan_monitor :
    FileHost
    → Preset
    → NormalizedLimits
    → Option Cursor
    → Text
    → ℕ
    → ScanResult
    → Outcome ScanError ScanResult
scan_monitor h preset limits none inode size result = with_tail h preset limits result
scan_monitor h preset limits (some c) inode size result =
    let reason = reset_reason c inode size in
    if is_empty (trim_space c.file_inode)
    then with_tail h preset limits result
    else if is_empty reason
    then scan_from_offset h preset limits c.file_offset result
    else scan_from_start h preset limits reason result

-- Behind `os.Stat`.
unfoldable pub scan_stat :
    FileHost
    → Preset
    → Text
    → NormalizedLimits
    → Option Cursor
    → Option (Text × ℕ)
    → Outcome ScanError ScanResult
scan_stat h preset mode limits cursor none = err stat_failed
scan_stat h preset mode limits cursor (some (inode, size)) =
    let result = empty_result h preset inode size in
    if text_eq mode mode_preview
    then with_tail h preset limits result
    else scan_monitor h preset limits cursor inode size result

unfoldable pub scan_file :
    FileHost → Preset → Text → NormalizedLimits → Option Cursor → Outcome ScanError ScanResult
scan_file h preset mode limits cursor = scan_stat h preset mode limits cursor h.stat
