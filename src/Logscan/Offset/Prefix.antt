-- ===== src/Logscan/Offset/Prefix.antt =====
-- What `readFileFromOffset` returns: the longest prefix of the lines behind the offset that fits.
use noderax_agent.Prelude.{
  ℕ, ◌+◌, ◌-◌, ◌≤◌, ◌≡◌, refl, ap, Bool, true, false, List, [], map, arith, ltb, length, take, drop,
  pos, Text, Outcome, ok,
}
use noderax_agent.Logscan.Types.{ScanError}
use noderax_agent.Logscan.Lines.{Bytes, FileView, split_after}
use noderax_agent.Logscan.Offset.{
  ReadState, chunk_entry, read_loop, read_file_from_offset, Read, read_result,
}
use noderax_agent.Logscan.Offset.Accept.{
  total_size, accept, count, accept-take, length-accept, total_size-accept, accept_maximal,
}
use noderax_agent.Logscan.Offset.Loop.{Reached, Ends, Ends-read_loop}

Reached-result :
    (ml mb offset : ℕ) (identifier : Text) (chunks : List Bytes) (last : ReadState) (left : Bytes)
    → Reached
        (0 + ml)
        identifier
        (accept ml (mb - 0) chunks)
        chunks
        (record { entries = []; current_offset = offset; bytes_read = 0; truncated = false })
        last
        left
    → let got = accept ml mb chunks in
      ◌≡◌ {A = Read} (read_result ml (last, left)) (
        map (chunk_entry identifier) got,
        total_size got,
        ltb (length got) (length chunks),
        offset + total_size got,
      )
Reached-result ml mb offset identifier chunks last left h =
    let budget : mb - 0 ≡ mb = omega arith in
    let rounds : 0 + ml ≡ ml = omega arith in
    let h' = rw (budget, rounds) at h in
    let none_before : 0 + total_size (accept ml mb chunks) ≡ total_size (accept ml mb chunks) =
      omega arith in
    rw (h'.marked, h'.entries_eq, h'.bytes_eq, h'.offset_eq, none_before)

read_of_loop :
    (file : FileView) (done : ℕ → Bool) (offset ml mb : ℕ) (identifier : Text) (last : ReadState)
    (left : Bytes)
    → let chunks = split_after (drop offset file.content) in
      let start : ReadState = record {
        entries = [];
        current_offset = offset;
        bytes_read = 0;
        truncated = false;
      } in
      let got = accept ml mb chunks in
      file.opens ≡ true
      → read_loop ml file done mb identifier (drop offset file.content) start ≡ ok (last, left)
      → Reached (0 + ml) identifier (accept ml (mb - 0) chunks) chunks start last left
      → read_file_from_offset file done (pos offset) ml mb identifier
        ≡ ok (
          map (chunk_entry identifier) got,
          total_size got,
          ltb (length got) (length chunks),
          offset + total_size got,
        )
unfolding read_file_from_offset
read_of_loop file done offset ml mb identifier last left opens e reached =
    simp (e, opens)
      (ap ok (
        Reached-result ml mb offset identifier (split_after (drop offset file.content)) last left
          reached))

-- The prefix of `k` lines keeps to the two limits.
pub record PrefixFits (ml mb : ℕ) (cs : List Bytes) : Type 0 where
  pub in_lines : length cs ≤ ml
  pub in_bytes : total_size cs ≤ mb

abbrev pub IsLongestRead : ℕ → ℕ → Text → ℕ → List Bytes → Outcome ScanError Read → Type 0
IsLongestRead ml mb identifier offset chunks r =
    (k : ℕ) × (r
      ≡ ok (
        map (chunk_entry identifier) (take k chunks),
        total_size (take k chunks),
        ltb (length (take k chunks)) (length chunks),
        offset + total_size (take k chunks),
      ))
    × PrefixFits ml mb (take k chunks)
    × ((j : ℕ) → PrefixFits ml mb (take j chunks) → length (take j chunks) ≤ length (take k chunks))

-- A read from an offset that can read the file and is not cancelled returns the longest prefix of
-- the lines behind the offset that keeps to the limits on lines and bytes, its byte count, the
-- truncation mark, and the offset right behind it.
pub read_file_from_offset-longest :
    (file : FileView) (done : ℕ → Bool) (offset ml mb : ℕ) (identifier : Text)
    → file.opens ≡ true
    → file.read_fails ≡ false
    → ((i : ℕ) → done i ≡ false)
    → IsLongestRead ml mb identifier offset
        (split_after (drop offset file.content))
        (read_file_from_offset file done (pos offset) ml mb identifier)
unfolding read_file_from_offset Ends
read_file_from_offset-longest file done offset ml mb identifier opens reads run =
    let chunks = split_after (drop offset file.content) in
    let start : ReadState = record {
      entries = [];
      current_offset = offset;
      bytes_read = 0;
      truncated = false;
    } in
    let (last, left, e, reached) =
      Ends-read_loop file done mb identifier reads run ml (drop offset file.content) start refl
        (omega arith) in
    let taken = accept-take ml mb chunks in
    (
      count ml mb chunks,
      rw (← taken) (read_of_loop file done offset ml mb identifier last left opens e reached),
      rw (← taken) (record {
        in_lines = length-accept ml mb chunks;
        in_bytes = total_size-accept ml mb chunks;
      }),
      λ j h. rw (← taken) (accept_maximal ml mb j chunks h.in_lines h.in_bytes),
    )
