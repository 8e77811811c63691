-- ===== src/Logscan/Types.antt =====
-- The requests, cursors and results of internal/logscan/scanner.go. Lines are lists of bytes.
use noderax_agent.Prelude.{ℕ, ℤ, Bool, Option, List, Text, codes}

abbrev pub mode_preview : Text
mode_preview = codes "preview"

abbrev pub mode_monitor : Text
mode_monitor = codes "monitor"

pub data SourceType : Type 0 where
  file journal : SourceType

pub record Limits : Type 0 where
  pub max_lines : ℤ
  pub max_bytes : ℤ
  pub backfill_lines : ℤ

pub record Cursor : Type 0 where
  pub journal_cursor : Text
  pub file_inode : Text
  pub file_offset : ℤ
  pub last_read_at : Text
  pub cursor_reset_reason : Text

pub record Request : Type 0 where
  pub mode : Text
  pub source_preset_id : Text
  pub limits : Limits
  pub cursor : Option Cursor

pub record Entry : Type 0 where
  pub timestamp : Text
  pub message : Text
  pub unit : Text
  pub identifier : Text

pub record ScanResult : Type 0 where
  pub source_preset_id : Text
  pub source_type : SourceType
  pub entries : List Entry
  pub cursor : Cursor
  pub truncated : Bool
  pub bytes_read : ℕ
  pub lines_read : ℕ
  pub warnings : List Text

pub record Preset : Type 0 where
  pub id : Text
  pub kind : SourceType
  pub path : Text
  pub unit : Text
  pub identifier : Text
  pub default_backfill : ℕ

-- The errors that a scan returns, one constructor for each message of the source.
pub data ScanError : Type 0 where
  unsupported_preset unsupported_mode : ScanError
  stat_failed open_failed seek_failed scan_failed read_failed cancelled : ScanError
  journalctl_missing start_failed journalctl_failed : ScanError
