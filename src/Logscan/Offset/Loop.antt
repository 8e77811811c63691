-- ===== src/Logscan/Offset/Loop.antt =====
-- How the loop of `readFileFromOffset` goes through the chunks.
use noderax_agent.Prelude.{
  ℕ, zero, suc, ◌+◌, ◌-◌, ◌≤◌, ◌≡◌, refl, sym, ◌∙◌, inl, inr, Bool, true, false, not, List, [], ◌∷◌,
  ◌++◌, map, append_assoc, append-nil, arith, ltb, Bool-cases, length, length-append, Text,
  is_empty, ok,
}
use noderax_agent.Logscan.Lines.{
  Bytes, FileView, read_bytes, is_terminated, split_after, split_after-read_bytes,
}
use noderax_agent.Logscan.Offset.{ReadState, chunk_entry, add_chunk, read_loop, peek_truncated}
use noderax_agent.Logscan.Offset.Accept.{total_size, accept, accept-nil}

-- `ReadBytes` stops short of a newline only at the end of the input.
read_bytes-end : (s : Bytes) → is_terminated (read_bytes s).0 ≡ false → (read_bytes s).1 ≡ []
unfolding read_bytes is_terminated
read_bytes-end [] h = refl
read_bytes-end (c ∷ s) h = ground (arith, read_bytes-end s)

read_bytes-ne-nil : (c : ℕ) (s : Bytes) → is_empty (read_bytes (c ∷ s)).0 ≡ false
unfolding read_bytes
read_bytes-ne-nil c s = ground arith

-- Where the loop ends, by the chunks `got` that it took of the `chunks` ahead.
pub record Reached (max_lines : ℕ) (identifier : Text) (got chunks : List Bytes)
    (s last : ReadState) (left : Bytes) : Type 0 where
  pub entries_eq : last.entries ≡ s.entries ++ map (chunk_entry identifier) got
  pub bytes_eq : last.bytes_read ≡ s.bytes_read + total_size got
  pub offset_eq : last.current_offset ≡ s.current_offset + total_size got
  pub marked : peek_truncated max_lines (last, left) ≡ ltb (length got) (length chunks)

split_after-is_empty : (s : Bytes) → not (is_empty s) ≡ ltb 0 (length (split_after s))
split_after-is_empty [] = unfold split_after in refl
split_after-is_empty (c ∷ s) = rw (split_after-read_bytes c s) (ground arith)

module _ (file : FileView) (done : ℕ → Bool) (mb : ℕ) (identifier : Text)
    (reads : file.read_fails ≡ false) (run : (i : ℕ) → done i ≡ false) where
  unfoldable pub Ends : ℕ → Bytes → ReadState → Type 0
  Ends n rest s =
      (last : ReadState) × (left : Bytes) × (read_loop n file done mb identifier rest s
        ≡ ok (last, left))
      × Reached (length s.entries + n) identifier (accept n (mb - s.bytes_read) (split_after rest))
          (split_after rest) s last left

  Ends-terminated :
      (n : ℕ) (ch : Bytes) (cs : List Bytes) (s last : ReadState) (left : Bytes)
      → s.bytes_read + length ch ≤ mb
      → Reached
          (length (add_chunk identifier ch s).entries + n)
          identifier
          (accept n (mb - (s.bytes_read + length ch)) cs)
          cs
          (add_chunk identifier ch s)
          last
          left
      → Reached
          (length s.entries + suc n)
          identifier
          (accept (suc n) (mb - s.bytes_read) (ch ∷ cs))
          (ch ∷ cs)
          s
          last
          left
  unfolding accept total_size
  Ends-terminated n ch cs s last left room h =
      let fits : ltb (mb - s.bytes_read) (length ch) ≡ false = ground arith in
      let budget : mb - s.bytes_read - length ch ≡ mb - (s.bytes_read + length ch) = omega arith in
      let rounds : length s.entries + suc n
          ≡ length (s.entries ++ chunk_entry identifier ch ∷ []) + n =
        omega (arith, length-append s.entries (chunk_entry identifier ch ∷ [])) in
      rw (fits, budget, rounds)
        (record {
          entries_eq = h.entries_eq ∙ append_assoc s.entries _ _;
          bytes_eq = omega (arith, h.bytes_eq);
          offset_eq = omega (arith, h.offset_eq);
          marked = h.marked ∙ ground arith;
        })

  Ends-over :
      (n : ℕ) (ch : Bytes) (cs : List Bytes) (s : ReadState) (left : Bytes)
      → s.bytes_read ≤ mb
      → ltb mb (s.bytes_read + length ch) ≡ true
      → Reached
          (length s.entries + suc n)
          identifier
          (accept (suc n) (mb - s.bytes_read) (ch ∷ cs))
          (ch ∷ cs)
          s
          (record s { truncated = true })
          left
  unfolding accept total_size
  Ends-over n ch cs s left h over =
      let over' : ltb (mb - s.bytes_read) (length ch) ≡ true = ground arith in
      rw over' (record {
        entries_eq = sym (append-nil s.entries);
        bytes_eq = omega arith;
        offset_eq = omega arith;
        marked = ground arith;
      })

  Ends-last :
      (n : ℕ) (ch : Bytes) (s : ReadState)
      → s.truncated ≡ false
      → s.bytes_read + length ch ≤ mb
      → Reached
          (length s.entries + suc n)
          identifier
          (accept (suc n) (mb - s.bytes_read) (ch ∷ split_after []))
          (ch ∷ split_after [])
          s
          (add_chunk identifier ch s)
          []
  unfolding accept total_size split_after
  Ends-last n ch s t room =
      let fits : ltb (mb - s.bytes_read) (length ch) ≡ false = ground arith in
      rw (fits, accept-nil n (mb - s.bytes_read - length ch))
        (record {
          entries_eq = refl;
          bytes_eq = omega arith;
          offset_eq = omega arith;
          marked = ground arith;
        })

  Ends-chunk :
      (n : ℕ) (c : ℕ) (r : Bytes) (s : ReadState)
      → s.truncated ≡ false
      → s.bytes_read ≤ mb
      → (s.bytes_read + length (read_bytes (c ∷ r)).0 ≤ mb
          → is_terminated (read_bytes (c ∷ r)).0 ≡ true
          → Ends n (read_bytes (c ∷ r)).1 (add_chunk identifier (read_bytes (c ∷ r)).0 s))
      → Ends (suc n) (c ∷ r) s
  unfolding Ends read_loop
  Ends-chunk n c r s t h ih =
      let ch = (read_bytes (c ∷ r)).0 in
      let left = (read_bytes (c ∷ r)).1 in
      rw (split_after-read_bytes c r, run (length s.entries), read_bytes-ne-nil c r)
        (elim (Bool-cases (ltb mb (s.bytes_read + length ch))) [
          | inl over ↦ rw over (
            record s { truncated = true },
            left,
            refl,
            Ends-over n ch (split_after left) s left h over,
          )
          | inr fits ↦ rw fits (elim (Bool-cases (is_terminated ch)) [
            | inl more ↦ rw more (
                let (last, rest, e, reached) = ih (ground arith) more in
                (
                  last,
                  rest,
                  e,
                  Ends-terminated n ch (split_after left) s last rest (ground arith) reached,
                ))
            | inr last ↦
                rw (last, reads)
                  (rw (read_bytes-end (c ∷ r) last)
                    (add_chunk identifier ch s, [], refl, Ends-last n ch s t (ground arith)))
          ])
        ])

  pub Ends-read_loop :
      (n : ℕ) (rest : Bytes) (s : ReadState)
      → s.truncated ≡ false
      → s.bytes_read ≤ mb
      → Ends n rest s
  unfolding Ends read_loop accept total_size
  Ends-read_loop zero rest s t h = (
    s,
    rest,
    refl,
    record {
      entries_eq = sym (append-nil s.entries);
      bytes_eq = omega arith;
      offset_eq = omega arith;
      marked = ground (arith, split_after-is_empty rest);
    },
  )
  Ends-read_loop (suc n) [] s t h =
      unfold read_bytes split_after in
      rw (run (length s.entries), reads)
        (
          s,
          [],
          refl,
          record {
            entries_eq = sym (append-nil s.entries);
            bytes_eq = omega arith;
            offset_eq = omega arith;
            marked = ground arith;
          },
        )
  Ends-read_loop (suc n) (c ∷ r) s t h = Ends-chunk n c r s t h (λ room _.
      Ends-read_loop n (read_bytes (c ∷ r)).1 (add_chunk identifier (read_bytes (c ∷ r)).0 s) t
        room)
