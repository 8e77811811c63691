-- ===== src/Logscan/Journal.antt =====
-- `scanJournal` and `parseJournalEntry`: the output of journalctl, a JSON object to a line.
pub mod Outputs
pub mod Parts
pub mod Messages
pub mod Result
use noderax_agent.Prelude.{
  ℕ, suc, ◌+◌, Bool, true, false, not, ◌&&◌, ◌||◌, Option, none, some, List, [], ◌∷◌, ◌++◌, ltb,
  leb, if◌then◌else◌, length, ℤ, pos, Text, codes, is_empty, text_eq, trim_space, itoa, parse_int64,
  lookup, Outcome, ok, err, ◌>>=◌, ◌>>◌, fail_if,
}
use noderax_agent.Logscan.Types.{
  mode_monitor, journal, Cursor, Entry, ScanResult, Preset, ScanError, journalctl_missing,
  start_failed, scan_failed, journalctl_failed, cancelled,
}
use noderax_agent.Logscan.Limits.{NormalizedLimits}
use noderax_agent.Logscan.Lines.{Bytes, token, is_too_long}

-- A field of a decoded object: a string, or a value of another JSON type.
pub data JsonField : Type 0 where
  string : Text → JsonField
  other : JsonField

abbrev pub JsonObject : Type 0
JsonObject = List (Text × JsonField)

-- `s, _ := payload[key].(string)`.
abbrev pub string_or_empty : Option JsonField → Text
string_or_empty (some (string s)) = s
string_or_empty (some other) = []
string_or_empty none = []

abbrev pub string_field : Text → JsonObject → Text
string_field key payload = string_or_empty (lookup key payload)

abbrev or_else : Text → Text → Text
or_else s d = if is_empty s then d else s

-- What package encoding/json and package time do for the scan: `json.Unmarshal` of a line into a
-- map, with its error, and the RFC 3339 text of microseconds since 1970.
pub record Codec : Type 0 where
  pub unmarshal : Bytes → Outcome Text JsonObject
  pub format_micros : ℤ → Text

-- The process that runs journalctl: whether it is found and starts, its output by lines, whether
-- reading the output fails behind them, whether the process fails, and the checks of the context.
pub record JournalHost : Type 0 where
  pub found : Bool
  pub starts : Bool
  pub output : List Bytes
  pub read_fails : Bool
  pub wait_fails : Bool
  pub done : ℕ → Bool
  pub now : Text

-- The arguments of journalctl.
unfoldable pub journal_args : Preset → Text → NormalizedLimits → Option Cursor → List Text
journal_args preset mode limits cursor =
    codes "--no-pager"
    ∷ codes "--output=json"
    ∷ codes "--utc"
    ∷ codes "--unit"
    ∷ preset.unit
    ∷ elim cursor [
      | none ↦ from_end
      | some c ↦
          if text_eq mode mode_monitor && not (is_empty (trim_space c.journal_cursor))
          then codes "--after-cursor" ∷ c.journal_cursor ∷ []
          else from_end
    ]
  where
    from_end : List Text
    from_end = codes "--lines" ∷ itoa limits.backfill_lines ∷ []

module _ (codec : Codec) (preset : Preset) where
  unfoldable pub parse_journal_timestamp : Option JsonField → Text
  parse_journal_timestamp value =
      let raw = string_or_empty value in
      if is_empty raw
      then []
      else elim (parse_int64 raw) [ none ↦ [] | some micros ↦ codec.format_micros micros ]

  -- The entry with its cursor, or the text of the error.
  unfoldable pub parse_payload : JsonObject → Outcome Text (Entry × Text)
  parse_payload payload =
      let message = string_field (codes "MESSAGE") payload in
      let unit = string_field (codes "_SYSTEMD_UNIT") payload in
      let identifier = string_field (codes "SYSLOG_IDENTIFIER") payload in
      let cursor = string_field (codes "__CURSOR") payload in
      if is_empty (trim_space message)
      then err (codes "journal entry missing MESSAGE")
      else ok (
        record {
          timestamp = parse_journal_timestamp (lookup (codes "__REALTIME_TIMESTAMP") payload);
          message = message;
          unit = or_else unit preset.unit;
          identifier = or_else identifier preset.identifier;
        },
        cursor,
      )

  unfoldable pub parse_journal_entry : Bytes → Outcome Text (Entry × Text)
  unfolding parse_payload parse_journal_timestamp
  parse_journal_entry raw = elim (codec.unmarshal raw) [
    | err e ↦ err (codes "journal entry parse failed: " ++ e)
    | ok payload ↦ parse_payload payload
  ]

-- The variables of the loop.
pub record JournalState : Type 0 where
  pub entries : List Entry
  pub warnings : List Text
  pub last_cursor : Text
  pub bytes_read : ℕ
  pub truncated : Bool

-- A line that is no entry leaves a warning, an entry moves the cursor.
unfoldable pub add_parsed : Outcome Text (Entry × Text) → ℕ → JournalState → JournalState
add_parsed (err e) size s = record s { warnings = s.warnings ++ e ∷ [] }
add_parsed (ok (entry, cursor)) size s = record s {
  entries = s.entries ++ entry ∷ [];
  last_cursor = cursor;
  bytes_read = s.bytes_read + size;
}

abbrev pub line_size : Bytes → ℕ
line_size chunk = length (token chunk) + 1

-- The limits leave no room for a line of this size.
abbrev pub no_room : NormalizedLimits → JournalState → ℕ → Bool
no_room limits s size =
    leb limits.max_lines (length s.entries) || ltb limits.max_bytes (s.bytes_read + size)

module _ (codec : Codec) (h : JournalHost) (preset : Preset) (limits : NormalizedLimits) where
  -- `for scanner.Scan()`.
  unfoldable pub journal_loop : ℕ → List Bytes → JournalState → Outcome ScanError JournalState
  journal_loop k [] s = if h.read_fails then err scan_failed else ok s
  journal_loop k (chunk ∷ chunks) s =
      let size = line_size chunk in
      let rest =
        journal_loop (suc k) chunks
          (add_parsed (parse_journal_entry codec preset (token chunk)) size s) in
      if is_too_long chunk
      then err scan_failed
      else if h.done k
      then err cancelled
      else if no_room limits s size
      then ok (record s { truncated = true })
      else rest

  abbrev pub journal_result : JournalState → ScanResult
  journal_result s = record {
    source_preset_id = preset.id;
    source_type = journal;
    entries = s.entries;
    cursor = record {
      journal_cursor = s.last_cursor;
      file_inode = [];
      file_offset = pos 0;
      last_read_at = h.now;
      cursor_reset_reason = [];
    };
    truncated = s.truncated;
    bytes_read = s.bytes_read;
    lines_read = length s.entries;
    warnings = s.warnings;
  }

  -- A process that was killed at the limits may fail; any other may not.
  unfoldable pub scan_journal : Outcome ScanError ScanResult
  scan_journal = do
    fail_if (not h.found) journalctl_missing
    fail_if (not h.starts) start_failed
    let start : JournalState = record {
      entries = [];
      warnings = [];
      last_cursor = [];
      bytes_read = 0;
      truncated = false;
    }
    s ← journal_loop 0 h.output start
    fail_if (h.wait_fails && not s.truncated) journalctl_failed
    ok (journal_result s)
