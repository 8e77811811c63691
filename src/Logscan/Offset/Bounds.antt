-- ===== src/Logscan/Offset/Bounds.antt =====
-- The limits bind a read on every path, cancellation and read errors included.
use noderax_agent.Prelude.{
  ℕ, zero, suc, ◌+◌, ◌≤◌, ◌≡◌, inl, inr, Bool, true, false, not, List, [], ◌∷◌, ◌++◌, arith, ltb,
  Bool-cases, length, drop, length-append, ℤ, pos, negsuc, Text, is_empty, Outcome, ok, err, ◌>>=◌,
  fail_if,
}
use noderax_agent.Logscan.Types.{ScanError, open_failed}
use noderax_agent.Logscan.Lines.{Bytes, FileView, read_bytes, is_terminated}
use noderax_agent.Logscan.Messages.{message_size, message_size-append, length-trim_right}
use noderax_agent.Logscan.Offset.{
  ReadState, is_line_end, chunk_entry, add_chunk, at_end, read_loop, read_file_from_offset, Read,
  read_result,
}

abbrev Within : ℕ → ℕ → Outcome ScanError (ReadState × Bytes) → Type 0
Within lines mb (ok (s, left)) =
    (length s.entries ≤ lines) × (s.bytes_read ≤ mb) × (message_size s.entries ≤ s.bytes_read)
Within lines mb (err e) = Unit

length_concat {ℓ} : {A : Type ℓ} (xs : List A) (x : A) → length (xs ++ x ∷ []) ≡ length xs + 1
length_concat xs x = omega (arith, length-append xs (x ∷ []))

-- A message is no longer than its line.
add_chunk-fits :
    (identifier : Text) (chunk : Bytes) (s : ReadState)
    → message_size s.entries ≤ s.bytes_read
    → message_size (add_chunk identifier chunk s).entries
      ≤ (add_chunk identifier chunk s).bytes_read
unfolding chunk_entry message_size
add_chunk-fits id chunk s m = omega (
  arith,
  message_size-append s.entries (chunk_entry id chunk ∷ []),
  length-trim_right is_line_end chunk,
)

at_end-Within :
    (file : FileView) (lines mb : ℕ) (s : ReadState) (rest : Bytes)
    → length s.entries ≤ lines
    → s.bytes_read ≤ mb
    → message_size s.entries ≤ s.bytes_read
    → Within lines mb (at_end file s rest)
at_end-Within file lines mb s rest h h' m = elim (Bool-cases file.read_fails) [
  | inl e ↦ rw e tt
  | inr e ↦ rw e (h, h', m)
]

read_loop-Within :
    (file : FileView) (done : ℕ → Bool) (mb : ℕ) (identifier : Text) (n lines : ℕ) (rest : Bytes)
    (s : ReadState)
    → length s.entries + n ≤ lines
    → s.bytes_read ≤ mb
    → message_size s.entries ≤ s.bytes_read
    → Within lines mb (read_loop n file done mb identifier rest s)
unfolding read_loop
read_loop-Within file done mb id zero lines rest s h h' m = (omega arith, h', m)
read_loop-Within file done mb id (suc n) lines rest s h h' m =
    let ch = (read_bytes rest).0 in
    let left = (read_bytes rest).1 in
    elim (Bool-cases (done (length s.entries))) [
      | inl e ↦ rw e tt
      | inr e ↦ rw e (elim (Bool-cases (is_empty ch)) [
        | inl none_left ↦ rw none_left (at_end-Within file lines mb s left (omega arith) h' m)
        | inr some_left ↦ rw some_left (elim (Bool-cases (ltb mb (s.bytes_read + length ch))) [
          | inl over ↦ rw over (omega arith, h', m)
          | inr fits ↦ rw fits (elim (Bool-cases (is_terminated ch)) [
            | inl more ↦ rw more (
                read_loop-Within file done mb id n lines left (add_chunk id ch s)
                  (omega (arith, length_concat {0})) (ground arith) (add_chunk-fits id ch s m))
            | inr last ↦ rw last (
                at_end-Within file lines mb (add_chunk id ch s) left
                  (omega (arith, length_concat {0})) (ground arith) (add_chunk-fits id ch s m))
          ])
        ])
      ])
    ]

abbrev pub WithinRead : ℕ → ℕ → Outcome ScanError Read → Type 0
WithinRead lines mb (ok (es, n, t, next)) = (length es ≤ lines) × (n ≤ mb) × (message_size es ≤ n)
WithinRead lines mb (err e) = Unit

Within-result :
    (lines mb : ℕ) (r : Outcome ScanError (ReadState × Bytes))
    → Within lines mb r
    → WithinRead lines mb (r >>= λ last. ok (read_result lines last))
Within-result lines mb (ok (s, left)) h = h
Within-result lines mb (err e) h = tt

fail_if-Within :
    (lines mb : ℕ) (test : Bool) (r : Outcome ScanError Read)
    → WithinRead lines mb r
    → WithinRead lines mb (fail_if test open_failed >>= λ _. r)
fail_if-Within lines mb true r h = tt
fail_if-Within lines mb false r h = h

-- A read returns no more than the limits allow, whatever the host does.
pub read_file_from_offset-Within :
    (file : FileView) (done : ℕ → Bool) (offset : ℤ) (ml mb : ℕ) (identifier : Text)
    → WithinRead ml mb (read_file_from_offset file done offset ml mb identifier)
unfolding read_file_from_offset
read_file_from_offset-Within file done (negsuc n) ml mb id = elim (Bool-cases file.opens) [
  | inl e ↦ rw e tt
  | inr e ↦ rw e tt
]
read_file_from_offset-Within file done (pos offset) ml mb id =
    let start : ReadState = record {
      entries = [];
      current_offset = offset;
      bytes_read = 0;
      truncated = false;
    } in
    let looped = read_loop ml file done mb id (drop offset file.content) start in
    fail_if-Within ml mb (not file.opens) (looped >>= λ last. ok (read_result ml last)) (
      Within-result ml mb looped (
        read_loop-Within file done mb id ml ml (drop offset file.content) start (omega arith)
          (omega arith) (unfold message_size in omega arith)))
