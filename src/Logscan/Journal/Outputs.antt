-- ===== src/Logscan/Journal/Outputs.antt =====
-- The loop over the output of journalctl: which lines it takes.
use noderax_agent.Prelude.{
  ℕ, suc, ◌≤◌, ◌≡◌, refl, ◌∙◌, inl, inr, true, false, List, [], ◌∷◌, arith, ltb, Bool-cases, length,
  take, drop, length-append, Text, Outcome, ok, err,
}
use noderax_agent.Logscan.Types.{Entry, Preset, ScanError}
use noderax_agent.Logscan.Limits.{NormalizedLimits}
use noderax_agent.Logscan.Lines.{Bytes, token, is_too_long}
use noderax_agent.Logscan.Journal.{
  Codec, JournalHost, JournalState, parse_journal_entry, add_parsed, line_size, no_room,
  journal_loop,
}

-- The lines that a scan took, in terms of what each was decoded to.
module _ (codec : Codec) (preset : Preset) where
  abbrev pub parsed : Bytes → Outcome Text (Entry × Text)
  parsed chunk = parse_journal_entry codec preset (token chunk)

  unfoldable pub take_all_parsed : List Bytes → JournalState → JournalState
  take_all_parsed [] s = s
  take_all_parsed (c ∷ cs) s = take_all_parsed cs (add_parsed (parsed c) (line_size c) s)

pub record StateWithin (l : NormalizedLimits) (s : JournalState) : Type 0 where
  pub lines_cap : length s.entries ≤ l.max_lines
  pub bytes_cap : s.bytes_read ≤ l.max_bytes

pub add_parsed-StateWithin :
    (l : NormalizedLimits) (o : Outcome Text (Entry × Text)) (size : ℕ) (s : JournalState)
    → StateWithin l s
    → no_room l s size ≡ false
    → StateWithin l (add_parsed o size s)
unfolding add_parsed
add_parsed-StateWithin l (err e) size s w room = record {
  lines_cap = w.lines_cap;
  bytes_cap = w.bytes_cap;
}
add_parsed-StateWithin l (ok (entry, cursor)) size s w room = record {
  lines_cap = ground (arith, length-append s.entries (entry ∷ []));
  bytes_cap = ground arith;
}

add_parsed-truncated :
    (o : Outcome Text (Entry × Text)) (size : ℕ) (s : JournalState)
    → (add_parsed o size s).truncated ≡ s.truncated
unfolding add_parsed
add_parsed-truncated (err e) size s = refl
add_parsed-truncated (ok (entry, cursor)) size s = refl

-- Where a scan stops: behind the last line, or at a line that the limits leave no room for.
abbrev pub StopsAt : NormalizedLimits → JournalState → List Bytes → Type 0
StopsAt l t [] = Unit
StopsAt l t (c ∷ cs) = no_room l t (line_size c) ≡ true

-- The lines that a loop from `s` to `t` took are the first `j`.
pub record TookLines (codec : Codec) (preset : Preset) (l : NormalizedLimits) (chunks : List Bytes)
    (s t : JournalState) (j : ℕ) : Type 0 where
  pub within : StateWithin l t
  pub count_le : j ≤ length chunks
  pub parsed_eq : t ≡ record (take_all_parsed codec preset (take j chunks) s) {
    truncated = ltb j (length chunks);
  }
  pub stops : StopsAt l t (drop j chunks)

abbrev pub LoopTook :
    Codec
    → Preset
    → NormalizedLimits
    → List Bytes
    → JournalState
    → Outcome ScanError JournalState
    → Type 0
LoopTook codec preset l chunks s (ok t) = (j : ℕ) × TookLines codec preset l chunks s t j
LoopTook codec preset l chunks s (err e) = Unit

LoopTook-cons :
    (codec : Codec) (preset : Preset) (l : NormalizedLimits) (c : Bytes) (cs : List Bytes)
    (s : JournalState) (r : Outcome ScanError JournalState)
    → LoopTook codec preset l cs (add_parsed (parsed codec preset c) (line_size c) s) r
    → LoopTook codec preset l (c ∷ cs) s r
unfolding take_all_parsed
LoopTook-cons codec preset l c cs s (ok t) (j, took) = (
  suc j,
  record {
    within = took.within;
    count_le = omega (arith, took.count_le);
    parsed_eq = took.parsed_eq ∙ ground arith;
    stops = took.stops;
  },
)
LoopTook-cons codec preset l c cs s (err e) h = tt

module _ (codec : Codec) (h : JournalHost) (preset : Preset) (l : NormalizedLimits) where
  pub journal_loop-LoopTook :
      (k : ℕ) (chunks : List Bytes) (s : JournalState)
      → s.truncated ≡ false
      → StateWithin l s
      → LoopTook codec preset l chunks s (journal_loop codec h preset l k chunks s)
  unfolding journal_loop take_all_parsed
  journal_loop-LoopTook k [] s t w = elim (Bool-cases h.read_fails) [
    | inl fails ↦ rw fails tt
    | inr reads ↦
        rw reads
          (0, record { within = w; count_le = omega arith; parsed_eq = ground arith; stops = tt })
  ]
  journal_loop-LoopTook k (c ∷ cs) s t w = elim (Bool-cases (is_too_long c)) [
    | inl long ↦ rw long tt
    | inr short ↦ rw short (elim (Bool-cases (h.done k)) [
      | inl stop ↦ rw stop tt
      | inr run ↦ rw run (elim (Bool-cases (no_room l s (line_size c))) [
        | inl full ↦ rw full (
          0,
          record {
            within = record { lines_cap = w.lines_cap; bytes_cap = w.bytes_cap };
            count_le = omega arith;
            parsed_eq = ground arith;
            stops = full;
          },
        )
        | inr room ↦ rw room (
            LoopTook-cons codec preset l c cs s _ (
              journal_loop-LoopTook (suc k) cs (add_parsed (parsed codec preset c) (line_size c) s)
                (add_parsed-truncated (parsed codec preset c) (line_size c) s ∙ t)
                (add_parsed-StateWithin l (parsed codec preset c) (line_size c) s w room)))
      ])
    ])
  ]
