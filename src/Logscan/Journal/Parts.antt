-- ===== src/Logscan/Journal/Parts.antt =====
-- What the lines of the output of journalctl say, each by itself.
use noderax_agent.Prelude.{
  ◌+◌, ℕ, ◌≡◌, refl, sym, ◌∙◌, false, List, [], ◌∷◌, ◌++◌, append_assoc, append-nil, arith, length,
  Text, Outcome, ok, err,
}
use noderax_agent.Logscan.Types.{Entry, Preset}
use noderax_agent.Logscan.Lines.{Bytes, token}
use noderax_agent.Logscan.Journal.{Codec, JournalState, add_parsed, line_size}
use noderax_agent.Logscan.Journal.Outputs.{parsed, take_all_parsed}

abbrev pub start : JournalState
start = record { entries = []; warnings = []; last_cursor = []; bytes_read = 0; truncated = false }

-- The entries, the warnings and the last cursor of lines, each by itself.
unfoldable pub entry_of : Outcome Text (Entry × Text) → List Entry
entry_of (ok (entry, cursor)) = entry ∷ []
entry_of (err e) = []

unfoldable warning_of : Outcome Text (Entry × Text) → List Text
warning_of (ok x) = []
warning_of (err e) = e ∷ []

unfoldable cursor_of : Text → Outcome Text (Entry × Text) → Text
cursor_of c (ok (entry, cursor)) = cursor
cursor_of c (err e) = c

-- The bytes of a line, its newline included, that an entry counts.
unfoldable pub size_of : ℕ → Outcome Text (Entry × Text) → ℕ
size_of n (ok x) = n
size_of n (err e) = 0

module _ (codec : Codec) (preset : Preset) where
  unfoldable pub entries_of : List Bytes → List Entry
  unfolding entry_of
  entries_of [] = []
  entries_of (c ∷ cs) = entry_of (parsed codec preset c) ++ entries_of cs

  pub warnings_of : List Bytes → List Text
  warnings_of [] = []
  warnings_of (c ∷ cs) = warning_of (parsed codec preset c) ++ warnings_of cs

  unfoldable pub sizes_of : List Bytes → ℕ
  unfolding size_of
  sizes_of [] = 0
  sizes_of (c ∷ cs) = size_of (length (token c) + 1) (parsed codec preset c) + sizes_of cs

  unfoldable pub last_cursor_of : Text → List Bytes → Text
  unfolding cursor_of
  last_cursor_of last [] = last
  last_cursor_of last (c ∷ cs) = last_cursor_of (cursor_of last (parsed codec preset c)) cs

  add_parsed-parts :
      (o : Outcome Text (Entry × Text)) (size : ℕ) (s : JournalState)
      → ((add_parsed o size s).entries ≡ s.entries ++ entry_of o)
        × ((add_parsed o size s).warnings ≡ s.warnings ++ warning_of o)
        × ((add_parsed o size s).last_cursor ≡ cursor_of s.last_cursor o)
        × ((add_parsed o size s).bytes_read ≡ s.bytes_read + size_of size o)
  unfolding add_parsed entry_of warning_of cursor_of size_of
  add_parsed-parts (ok (entry, cursor)) size s = (refl, sym (append-nil s.warnings), refl, refl)
  add_parsed-parts (err e) size s = (sym (append-nil s.entries), refl, refl, omega arith)

  pub take_all_parsed-parts :
      (cs : List Bytes) (s : JournalState)
      → ((take_all_parsed codec preset cs s).entries ≡ s.entries ++ entries_of cs)
        × ((take_all_parsed codec preset cs s).warnings ≡ s.warnings ++ warnings_of cs)
        × ((take_all_parsed codec preset cs s).last_cursor ≡ last_cursor_of s.last_cursor cs)
        × ((take_all_parsed codec preset cs s).bytes_read ≡ s.bytes_read + sizes_of cs)
  unfolding take_all_parsed entries_of warnings_of last_cursor_of sizes_of
  take_all_parsed-parts [] s =
      (sym (append-nil s.entries), sym (append-nil s.warnings), refl, omega arith)
  take_all_parsed-parts (c ∷ cs) s =
      let o = parsed codec preset c in
      let s' = add_parsed o (line_size c) s in
      let (e, w, l, b) = add_parsed-parts o (line_size c) s in
      let (e', w', l', b') = take_all_parsed-parts cs s' in
      (
        e' ∙ rw e (append_assoc s.entries (entry_of o) (entries_of cs)),
        w' ∙ rw w (append_assoc s.warnings (warning_of o) (warnings_of cs)),
        l' ∙ rw l refl,
        omega (arith, b, b'),
      )
