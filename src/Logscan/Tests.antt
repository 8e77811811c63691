-- ===== src/Logscan/Tests.antt =====
-- Runs of the scans, and their theorems at concrete inputs.
use noderax_agent.Prelude.{
  subst, ◌≤◌, ◌≡◌, refl, true, false, none, some, List, [], ◌∷◌, ◌++◌, map, arith, if◌then◌else◌,
  length, pos, Text, codes, is_empty, text_eq, is_space, trim_left, trim_right, trim_space, lookup,
  Outcome, ok, err,
}
use noderax_agent.Logscan.Types.{mode_monitor, file, Request, ScanResult, Preset}
use noderax_agent.Logscan.Limits.{NormalizedLimits}
use noderax_agent.Logscan.Lines.{
  Bytes, FileView, read_bytes, is_terminated, split_after, token, is_too_long,
}
use noderax_agent.Logscan.Tail.{tail_file_entries, file_lines}
use noderax_agent.Logscan.Tail.Window.{IsLongestTail, tail_file_entries-longest}
use noderax_agent.Logscan.Offset.{chunk_entry, read_file_from_offset}
use noderax_agent.Logscan.Offset.Prefix.{IsLongestRead, read_file_from_offset-longest}
use noderax_agent.Logscan.Offset.Resume.{drain, drain_complete}
use noderax_agent.Logscan.Offset.Stall.{read_file_from_offset_stalls}
use noderax_agent.Logscan.File.{
  FileHost, empty_result, with_tail, reset_reason, scan_from_offset, scan_monitor, scan_stat,
  scan_file,
}
use noderax_agent.Logscan.File.Follow.{ReadsOn, scan_file_follows}
use noderax_agent.Logscan.Journal.{
  Codec, JournalHost, JsonField, JsonObject, string_field, journal_loop, scan_journal,
  parse_journal_entry, add_parsed,
}
use noderax_agent.Logscan.Journal.Messages.{MessagesFit}
use noderax_agent.Logscan.Journal.Result.{IsJournalPrefix, scan_journal-prefix}
use noderax_agent.Logscan.Run.{
  Host, HardBounded, presets_by_id, scan_preset, run_preset, run, run-HardBounded, run-SameLogs,
}

abbrev result_or {ℓ κ} : {E : Type ℓ} {A : Type κ} → Outcome E A → A → A
result_or (ok a) d = a
result_or (err e) d = d

abbrev limits : NormalizedLimits
limits = record { max_lines = 2; max_bytes = 100; backfill_lines = 2 }

abbrev view : FileView
view = record { opens = true; content = codes "one\ntwo\r\nthree\n"; read_fails = false }

abbrev name : Text
name = codes "log"

tail_test :
    tail_file_entries view (λ i. false) 2 5 100 name
    ≡ ok (
      record { timestamp = []; message = codes "two"; unit = []; identifier = name }
          ∷ record { timestamp = []; message = codes "three"; unit = []; identifier = name }
          ∷ [],
      10,
      false,
    )
unfolding tail_file_entries split_after token is_too_long noderax_agent.Logscan.Tail.line_info
    noderax_agent.Logscan.Tail.push_line
tail_test = refl

tail_file_entries-longest_example :
    IsLongestTail 2 5 100 name (file_lines view) (tail_file_entries view (λ i. false) 2 5 100 name)
unfolding split_after is_too_long
tail_file_entries-longest_example =
    tail_file_entries-longest view (λ i. false) 2 5 100 name (omega arith) refl refl
      (refl, (refl, (refl, tt))) (λ i. refl)

read_file_from_offset-longest_example :
    IsLongestRead 5 8 name 4
      (codes "two\r\n" ∷ codes "three\n" ∷ [])
      (read_file_from_offset view (λ i. false) (pos 4) 5 8 name)
unfolding split_after
read_file_from_offset-longest_example =
    read_file_from_offset-longest view (λ i. false) 4 5 8 name refl refl (λ i. refl)

drain_complete_example :
    drain view 1 6 name 4 0
    ≡ some (ok (map (chunk_entry name) (codes "one\n" ∷ codes "two\r\n" ∷ codes "three\n" ∷ [])))
unfolding split_after
drain_complete_example =
    drain_complete view 1 6 name 4 0 refl refl (omega arith)
      (omega arith, (omega arith, (omega arith, tt))) (omega arith)

-- A limit of three bytes never gets past the first line.
read_file_from_offset_stalls_example :
    read_file_from_offset view (λ i. false) (pos 0) 5 3 name ≡ ok ([], 0, true, 0)
unfolding split_after
read_file_from_offset_stalls_example =
    read_file_from_offset_stalls view (λ i. false) 0 5 3 name (codes "one\n")
      (codes "two\r\n" ∷ codes "three\n" ∷ []) refl refl (λ i. refl) refl (omega arith)

abbrev preset : Preset
preset = record {
  id = name;
  kind = file;
  path = name;
  unit = [];
  identifier = name;
  default_backfill = 200;
}

abbrev host_of : Bytes → FileHost
host_of content = record {
  stat = some (codes "7", length content);
  view = record { opens = true; content = content; read_fails = false };
  done = λ i. false;
  now = [];
}

abbrev before : Bytes
before = codes "one\n"

abbrev added : Bytes
added = codes "two\nthree\n"

abbrev nothing : ScanResult
nothing = record {
  source_preset_id = [];
  source_type = file;
  entries = [];
  cursor = record {
    journal_cursor = [];
    file_inode = [];
    file_offset = pos 0;
    last_read_at = [];
    cursor_reset_reason = [];
  };
  truncated = false;
  bytes_read = 0;
  lines_read = 0;
  warnings = [];
}

abbrev first_scan : ScanResult
first_scan = result_or (scan_file (host_of before) preset mode_monitor limits none) nothing

abbrev second_scan : ScanResult
second_scan =
    result_or
      (scan_file (host_of (before ++ added)) preset mode_monitor limits (some first_scan.cursor))
      nothing

scan_file_follows_example : ReadsOn preset limits 4 added second_scan
unfolding scan_file scan_stat scan_monitor with_tail scan_from_offset reset_reason text_eq
    trim_space trim_left trim_right is_space empty_result tail_file_entries read_file_from_offset
    read_bytes is_terminated split_after is_too_long noderax_agent.Logscan.Tail.push_line
    noderax_agent.Logscan.Tail.line_info
scan_file_follows_example =
    scan_file_follows (host_of before) (host_of (before ++ added)) preset limits mode_monitor
      (codes "7") before added first_scan second_scan refl refl refl refl refl refl refl (λ i. refl)
      refl refl

abbrev codec : Codec
codec = record {
  unmarshal = λ line.
      if is_empty line
      then err (codes "unexpected end of JSON input")
      else ok (
          (codes "MESSAGE", JsonField.string line)
          ∷ (codes "__CURSOR", JsonField.string (codes "c"))
          ∷ []);
  format_micros = λ n. [];
}

decoded : (a b : JsonObject) → ◌≡◌ {A = Outcome Text JsonObject} (ok a) (ok b) → a ≡ b
decoded a b e = cc

-- The message of a line is the line.
codec_fits : MessagesFit codec
unfolding lookup text_eq
codec_fits [] payload e = cc
codec_fits (c ∷ cs) payload e =
    subst (λ (p : JsonObject). length (string_field (codes "MESSAGE") p) ≤ length (c ∷ cs))
      (decoded _ payload e) (omega arith)

abbrev journal_of : List Bytes → JournalHost
journal_of output = record {
  found = true;
  starts = true;
  output = output;
  read_fails = false;
  wait_fails = false;
  done = λ i. false;
  now = [];
}

abbrev journal_scan : List Bytes → ScanResult
journal_scan output = result_or (scan_journal codec (journal_of output) preset limits) nothing

-- An entry, a line that is no object, and two more entries of which the second is left.
abbrev output : List Bytes
output = codes "a\n" ∷ codes "\n" ∷ codes "b\n" ∷ codes "c\n" ∷ []

scan_journal-prefix_example :
    IsJournalPrefix codec (journal_of output) preset limits (journal_scan output)
unfolding scan_journal journal_loop add_parsed is_too_long token parse_journal_entry trim_space
    trim_left trim_right is_space text_eq lookup
scan_journal-prefix_example =
    scan_journal-prefix codec (journal_of output) preset limits (journal_scan output) refl

abbrev host : Bytes → Host
host other = record {
  file_at = λ path.
      if text_eq path (codes "/etc/shadow") then host_of other else host_of (before ++ added);
  journalctl = λ args. journal_of output;
  codec = codec;
}

abbrev request : Request
request = record {
  mode = [];
  source_preset_id = codes " auth.log ";
  limits = record { max_lines = pos 2; max_bytes = pos 100; backfill_lines = pos 2 };
  cursor = none;
}

abbrev journal_request : Request
journal_request = record request { source_preset_id = codes "noderax-agent" }

abbrev journal_result : ScanResult
journal_result = result_or (run (host []) journal_request) nothing

run-HardBounded_example : HardBounded journal_result
unfolding run run_preset scan_preset presets_by_id lookup scan_journal journal_loop add_parsed
    is_too_long token parse_journal_entry text_eq trim_space trim_left trim_right is_space
    noderax_agent.Logscan.Limits.normalize_limits
run-HardBounded_example = run-HardBounded (host []) journal_request journal_result codec_fits refl

-- Another file of the host is out of reach.
run-SameLogs_example : run (host (codes "secret")) request ≡ run (host []) request
unfolding text_eq
run-SameLogs_example =
    run-SameLogs (host (codes "secret")) (host []) request ((refl, (refl, (refl, tt))), refl, refl)
