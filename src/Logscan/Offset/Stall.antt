-- ===== src/Logscan/Offset/Stall.antt =====
-- A line that is longer than the byte limit of a read.
use noderax_agent.Prelude.{
  ℕ, zero, suc, ◌+◌, ◌<◌, ◌≡◌, refl, ap, ◌∙◌, Bool, true, false, List, [], ◌∷◌, arith, length, take,
  drop, pos, Text, ok,
}
use noderax_agent.Logscan.Lines.{Bytes, FileView, split_after}
use noderax_agent.Logscan.Offset.{read_file_from_offset}
use noderax_agent.Logscan.Offset.Accept.{total_size}
use noderax_agent.Logscan.Offset.Prefix.{PrefixFits, read_file_from_offset-longest}

none_fits :
    (ml mb k : ℕ) (ch : Bytes) (chs : List Bytes)
    → mb < length ch
    → PrefixFits ml mb (take k (ch ∷ chs))
    → take k (ch ∷ chs) ≡ []
unfolding total_size
none_fits ml mb zero ch chs long h = refl
none_fits ml mb (suc k) ch chs long h = absurd (omega (arith, h.in_bytes))

-- Where the line at the offset is longer than the byte limit, a read that can read the file and is
-- not cancelled returns no entry, the truncation mark and the offset it was given, so that the
-- lines behind that line are never returned.
pub read_file_from_offset_stalls :
    (file : FileView) (done : ℕ → Bool) (offset ml mb : ℕ) (identifier : Text) (line : Bytes)
    (lines : List Bytes)
    → file.opens ≡ true
    → file.read_fails ≡ false
    → ((i : ℕ) → done i ≡ false)
    → split_after (drop offset file.content) ≡ line ∷ lines
    → mb < length line
    → read_file_from_offset file done (pos offset) ml mb identifier ≡ ok ([], 0, true, offset)
unfolding total_size
read_file_from_offset_stalls file done offset ml mb id line lines opens reads run here long =
    let (k, e, fits, _) = read_file_from_offset-longest file done offset ml mb id opens reads run in
    let nothing : take k (split_after (drop offset file.content)) ≡ [] =
      ap (take k) here ∙ none_fits ml mb k line lines long (rw here at fits) in
    let some_left : length (split_after (drop offset file.content)) ≡ suc (length lines) =
      ap length here in
    let still : offset + 0 ≡ offset = omega arith in
    e ∙ rw (nothing, some_left, still) (ground arith)
