-- ===== src/Logscan/Run.antt =====
-- `presetsByID` and `Run`.
use noderax_agent.Prelude.{
  ◌≤◌, ◌≡◌, refl, ap, subst, inl, inr, not, ◌&&◌, Option, none, some, List, [], ◌∷◌, arith,
  if◌then◌else◌, Bool-cases, length, All, pos, Text, codes, is_empty, text_eq, trim_space, lookup,
  Outcome, ok, err,
}
use noderax_agent.Logscan.Types.{
  SourceType, mode_preview, mode_monitor, file, journal, Preset, Request, Cursor, ScanResult,
  ScanError, unsupported_preset, unsupported_mode,
}
use noderax_agent.Logscan.Limits.{
  NormalizedLimits, normalize_limits, normalize_limits_bounds, InLimits,
}
use noderax_agent.Logscan.File.{FileHost, scan_file}
use noderax_agent.Logscan.File.Cursors.{IsBounded, Bounded, scan_file-Bounded}
use noderax_agent.Logscan.Journal.{Codec, JournalHost, scan_journal, journal_args}
use noderax_agent.Logscan.Lines.{Bytes}
use noderax_agent.Logscan.Messages.{message_size}
use noderax_agent.Logscan.Journal.Messages.{MessagesFit, message_size-entries_of}
use noderax_agent.Logscan.Journal.Result.{IsResultOf, scan_journal-prefix}

abbrev file_preset : Text → Text → Preset
file_preset id path = record {
  id = id;
  kind = file;
  path = path;
  unit = [];
  identifier = path;
  default_backfill = 200;
}

abbrev agent_unit : Text
agent_unit = codes "noderax-agent.service"

unfoldable pub presets_by_id : List (Text × Preset)
presets_by_id =
    (codes "syslog", file_preset (codes "syslog") (codes "/var/log/syslog"))
    ∷ (codes "auth.log", file_preset (codes "auth.log") (codes "/var/log/auth.log"))
    ∷ (codes "kern.log", file_preset (codes "kern.log") (codes "/var/log/kern.log"))
    ∷ (
      codes "noderax-agent",
      record {
        id = codes "noderax-agent";
        kind = journal;
        path = [];
        unit = agent_unit;
        identifier = agent_unit;
        default_backfill = 200;
      },
    )
    ∷ []

-- What the scans see of the host: a file for each path, and a run of journalctl for its arguments.
pub record Host : Type 0 where
  pub file_at : Text → FileHost
  pub journalctl : List Text → JournalHost
  pub codec : Codec

unfoldable pub scan_preset :
    Host → Preset → Text → NormalizedLimits → Option Cursor → Outcome ScanError ScanResult
scan_preset host preset mode limits cursor = elim preset.kind [
  | file ↦ scan_file (host.file_at preset.path) preset mode limits cursor
  | journal ↦
      scan_journal host.codec (host.journalctl (journal_args preset mode limits cursor)) preset
        limits
]

-- Behind the lookup of the preset.
unfoldable pub run_preset : Host → Request → Preset → Outcome ScanError ScanResult
unfolding scan_preset
run_preset host request preset =
    let mode = if is_empty request.mode then mode_preview else request.mode in
    let limits = normalize_limits request.limits (pos preset.default_backfill) in
    if not (text_eq mode mode_preview) && not (text_eq mode mode_monitor)
    then err unsupported_mode
    else scan_preset host preset mode limits request.cursor

unfoldable pub run : Host → Request → Outcome ScanError ScanResult
unfolding presets_by_id run_preset
run host request = elim (lookup (trim_space request.source_preset_id) presets_by_id) [
  | none ↦ err unsupported_preset
  | some preset ↦ run_preset host request preset
]

-- The caps of the program hold of what a result returns.
pub record HardBounded (r : ScanResult) : Type 0 where
  pub lines_eq : r.lines_read ≡ length r.entries
  pub lines_cap : length r.entries ≤ 2000
  pub messages_fit : message_size r.entries ≤ r.bytes_read
  pub bytes_cap : r.bytes_read ≤ 262144

HardBounded-of_IsBounded :
    (l : NormalizedLimits) (r : ScanResult) → InLimits l → IsBounded l r → HardBounded r
HardBounded-of_IsBounded l r i b = record {
  lines_eq = b.lines_eq;
  lines_cap = omega (arith, i.lines_cap, b.lines_cap, b.lines_eq);
  messages_fit = b.messages_fit;
  bytes_cap = omega (arith, i.bytes_cap, b.bytes_cap);
}

IsBounded-of_IsResultOf :
    (codec : Codec) (preset : Preset) (l : NormalizedLimits) (r : ScanResult)
    (taken left : List Bytes)
    → MessagesFit codec
    → IsResultOf codec preset l r taken left
    → IsBounded l r
IsBounded-of_IsResultOf codec preset l r taken left fit is = record {
  lines_eq = is.lines_eq;
  lines_cap = omega (arith, is.lines_eq, is.lines_cap);
  bytes_cap = omega (arith, is.bytes_eq, is.bytes_cap);
  messages_fit = rw (is.entries_eq, is.bytes_eq) (message_size-entries_of codec preset taken fit);
}

Bounded-ok :
    (l : NormalizedLimits) (o : Outcome ScanError ScanResult) (r : ScanResult)
    → Bounded l o
    → o ≡ ok r
    → IsBounded l r
Bounded-ok l (ok x) r b e = subst (IsBounded l) (ok_eq e) b
  where
    ok_eq : ◌≡◌ {A = Outcome ScanError ScanResult} (ok x) (ok r) → x ≡ r
    ok_eq e = cc
Bounded-ok l (err x) r b e = cc

scan_preset-IsBounded :
    (host : Host) (preset : Preset) (mode : Text) (l : NormalizedLimits) (c : Option Cursor)
    (r : ScanResult)
    → MessagesFit host.codec
    → scan_preset host preset mode l c ≡ ok r
    → IsBounded l r
unfolding scan_preset
scan_preset-IsBounded host preset mode l c r fit e = by_kind preset.kind e
  where
    by_kind :
        (k : SourceType)
        → (elim k [
          | file ↦ scan_file (host.file_at preset.path) preset mode l c
          | journal ↦
              scan_journal host.codec (host.journalctl (journal_args preset mode l c)) preset l
        ])
          ≡ ok r
        → IsBounded l r
    by_kind file e =
        Bounded-ok l _ r (scan_file-Bounded (host.file_at preset.path) preset l mode c) e
    by_kind journal e =
        let (n, few, is) =
          scan_journal-prefix host.codec (host.journalctl (journal_args preset mode l c)) preset l r
            e in
        IsBounded-of_IsResultOf host.codec preset l r _ _ fit is

run_preset-HardBounded :
    (host : Host) (request : Request) (preset : Preset) (r : ScanResult)
    → MessagesFit host.codec
    → run_preset host request preset ≡ ok r
    → HardBounded r
unfolding run_preset
run_preset-HardBounded host request preset r fit e =
    let mode = if is_empty request.mode then mode_preview else request.mode in
    let l = normalize_limits request.limits (pos preset.default_backfill) in
    elim (Bool-cases (not (text_eq mode mode_preview) && not (text_eq mode mode_monitor))) [
      | inl bad ↦ cc (rw bad at e)
      | inr known ↦
          HardBounded-of_IsBounded l r
            (normalize_limits_bounds request.limits (pos preset.default_backfill))
            (scan_preset-IsBounded host preset mode l request.cursor r fit (rw known at e))
    ]

-- Every scan that succeeds, of any source and with any request and host, counts its entries and
-- returns at most 2000 of them; their messages together are no longer than the bytes that the
-- result says it read, which are at most 262144. The decoded message of a line of JSON has no more
-- runes than the line has bytes.
pub run-HardBounded :
    (host : Host) (request : Request) (r : ScanResult)
    → MessagesFit host.codec
    → run host request ≡ ok r
    → HardBounded r
unfolding run
run-HardBounded host request r fit e = by_preset _ e
  where
    by_preset :
        (p : Option Preset)
        → ◌≡◌ {A = Outcome ScanError ScanResult}
            (elim p [
              | none ↦ err unsupported_preset
              | some preset ↦ run_preset host request preset
            ])
            (ok r)
        → HardBounded r
    by_preset none e = cc
    by_preset (some preset) e = run_preset-HardBounded host request preset r fit e

-- The scans of a preset look at one file, or at journalctl.
scan_preset-eq :
    (host host' : Host) (preset : Preset) (mode : Text) (l : NormalizedLimits) (c : Option Cursor)
    → (preset.kind ≡ file → host.file_at preset.path ≡ host'.file_at preset.path)
    → host.journalctl ≡ host'.journalctl
    → host.codec ≡ host'.codec
    → scan_preset host preset mode l c ≡ scan_preset host' preset mode l c
unfolding scan_preset
scan_preset-eq host host' preset mode l c f j k = by_kind preset.kind f
  where
    by_kind :
        (kind : SourceType)
        → (kind ≡ file → host.file_at preset.path ≡ host'.file_at preset.path)
        → ◌≡◌ {A = Outcome ScanError ScanResult}
            (elim kind [
              | file ↦ scan_file (host.file_at preset.path) preset mode l c
              | journal ↦
                  scan_journal host.codec (host.journalctl (journal_args preset mode l c)) preset l
            ])
            (elim kind [
              | file ↦ scan_file (host'.file_at preset.path) preset mode l c
              | journal ↦
                  scan_journal host'.codec
                    (host'.journalctl (journal_args preset mode l c))
                    preset
                    l
            ])
    by_kind file f = rw (f refl)
    by_kind journal f = rw k (
        ap
          (λ (run : List Text → JournalHost).
            scan_journal host'.codec (run (journal_args preset mode l c)) preset l)
          j)

-- The files that a request can reach.
abbrev pub log_paths : List Text
log_paths = codes "/var/log/syslog" ∷ codes "/var/log/auth.log" ∷ codes "/var/log/kern.log" ∷ []

abbrev pub SameLogs : Host → Host → Type 0
SameLogs host host' =
    All (λ path. host.file_at path ≡ host'.file_at path) log_paths
    × (host.journalctl ≡ host'.journalctl)
    × (host.codec ≡ host'.codec)

run_preset-eq :
    (host host' : Host) (request : Request) (preset : Preset)
    → (preset.kind ≡ file → host.file_at preset.path ≡ host'.file_at preset.path)
    → host.journalctl ≡ host'.journalctl
    → host.codec ≡ host'.codec
    → run_preset host request preset ≡ run_preset host' request preset
unfolding run_preset
run_preset-eq host host' request preset f j k =
    let mode = if is_empty request.mode then mode_preview else request.mode in
    let l = normalize_limits request.limits (pos preset.default_backfill) in
    simp (scan_preset-eq host host' preset mode l request.cursor f j k)

presets-reach :
    (k : Text) (host host' : Host) (request : Request)
    → SameLogs host host'
    → ◌≡◌ {A = Outcome ScanError ScanResult}
        (elim (lookup k presets_by_id) [
          | none ↦ err unsupported_preset
          | some preset ↦ run_preset host request preset
        ])
        (elim (lookup k presets_by_id) [
          | none ↦ err unsupported_preset
          | some preset ↦ run_preset host' request preset
        ])
unfolding presets_by_id lookup
presets-reach k host host' request (files, j, c) = elim (Bool-cases (text_eq (codes "syslog") k)) [
  | inl e ↦ rw e (run_preset-eq host host' request _ (λ _. files.0) j c)
  | inr e ↦ rw e (elim (Bool-cases (text_eq (codes "auth.log") k)) [
    | inl e ↦ rw e (run_preset-eq host host' request _ (λ _. files.1.0) j c)
    | inr e ↦ rw e (elim (Bool-cases (text_eq (codes "kern.log") k)) [
      | inl e ↦ rw e (run_preset-eq host host' request _ (λ _. files.1.1.0) j c)
      | inr e ↦ rw e (elim (Bool-cases (text_eq (codes "noderax-agent") k)) [
        | inl e ↦ rw e (run_preset-eq host host' request _ (λ bad. cc) j c)
        | inr e ↦ rw e
      ])
    ])
  ])
]

-- Hosts that agree on the three preset log files, on journalctl and on the decoding of its output
-- are scanned alike by every request: no request reaches another file.
pub run-SameLogs :
    (host host' : Host) (request : Request)
    → SameLogs host host'
    → run host request ≡ run host' request
unfolding run
run-SameLogs host host' request same =
    presets-reach (trim_space request.source_preset_id) host host' request same
