-- ===== src/Logscan/Offset.antt =====
-- `readFileFromOffset`: the lines behind a cursor, within the limits.
pub mod Accept
pub mod Loop
pub mod Prefix
pub mod Resume
pub mod Stall
pub mod Bounds
use noderax_agent.Prelude.{
  ℕ, zero, suc, ◌+◌, Bool, true, false, not, ◌&&◌, ◌||◌, List, [], ◌∷◌, ◌++◌, ltb, ◌==◌,
  if◌then◌else◌, length, drop, ℤ, pos, negsuc, Text, is_empty, trim_right, Outcome, ok, err, ◌>>=◌,
  ◌>>◌, fail_if,
}
use noderax_agent.Logscan.Types.{Entry, ScanError, open_failed, seek_failed, read_failed, cancelled}
use noderax_agent.Logscan.Lines.{Bytes, FileView, read_bytes, is_terminated}

-- `strings.TrimRight(string(chunk), "\r\n")`.
abbrev pub is_line_end : ℕ → Bool
is_line_end c = c == b'\r' || c == b'\n'

unfoldable pub chunk_entry : Text → Bytes → Entry
unfolding trim_right
chunk_entry identifier chunk = record {
  timestamp = [];
  message = trim_right is_line_end chunk;
  unit = [];
  identifier = identifier;
}

-- The variables of the loop.
pub record ReadState : Type 0 where
  pub entries : List Entry
  pub current_offset : ℕ
  pub bytes_read : ℕ
  pub truncated : Bool

-- `if err == io.EOF { break }` and the error return behind it.
abbrev pub at_end : FileView → ReadState → Bytes → Outcome ScanError (ReadState × Bytes)
at_end file s rest = if file.read_fails then err read_failed else ok (s, rest)

abbrev pub add_chunk : Text → Bytes → ReadState → ReadState
add_chunk identifier chunk s = record s {
  entries = s.entries ++ chunk_entry identifier chunk ∷ [];
  current_offset = s.current_offset + length chunk;
  bytes_read = s.bytes_read + length chunk;
}

-- `for len(entries) < maxLines`. Each round that goes on appends one entry, so the first argument
-- is `maxLines - len(entries)`. The state is returned with what the reader has left.
unfoldable pub read_loop :
    ℕ → FileView → (ℕ → Bool) → ℕ → Text → Bytes → ReadState → Outcome ScanError (ReadState × Bytes)
read_loop zero file done max_bytes identifier rest s = ok (s, rest)
read_loop (suc n) file done max_bytes identifier rest s =
    let (chunk, rest') = read_bytes rest in
    let s' = add_chunk identifier chunk s in
    let next = read_loop n file done max_bytes identifier rest' s' in
    if done (length s.entries)
    then err cancelled
    else if is_empty chunk
    then at_end file s rest'
    else if ltb max_bytes (s.bytes_read + length chunk)
    then ok (record s { truncated = true }, rest')
    else if is_terminated chunk
    then next
    else at_end file s' rest'

-- `reader.Peek(1)` behind the loop.
abbrev pub peek_truncated : ℕ → ReadState × Bytes → Bool
peek_truncated max_lines (s, rest) =
    s.truncated || length s.entries == max_lines && not (is_empty rest)

-- Entries, bytes read, the truncation mark and the next offset.
abbrev pub Read : Type 0
Read = List Entry × ℕ × Bool × ℕ

abbrev pub read_result : ℕ → ReadState × Bytes → Read
read_result max_lines (s, rest) =
    (s.entries, s.bytes_read, peek_truncated max_lines (s, rest), s.current_offset)

-- The offset is an int64 of the request: `Seek` refuses a negative one.
unfoldable pub read_file_from_offset :
    FileView → (ℕ → Bool) → ℤ → ℕ → ℕ → Text → Outcome ScanError Read
unfolding read_loop
read_file_from_offset file done (negsuc n) max_lines max_bytes identifier = do
  fail_if (not file.opens) open_failed
  err seek_failed
read_file_from_offset file done (pos offset) max_lines max_bytes identifier = do
  fail_if (not file.opens) open_failed
  let start : ReadState = record {
    entries = [];
    current_offset = offset;
    bytes_read = 0;
    truncated = false;
  }
  last ← read_loop max_lines file done max_bytes identifier (drop offset file.content) start
  ok (read_result max_lines last)
