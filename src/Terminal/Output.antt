-- ===== src/Terminal/Output.antt =====
-- `streamPTYOutput`: how the output of a shell is gathered and sent.
use noderax_agent.Prelude.{
  ℕ, ◌+◌, ◌≤◌, ◌<◌, ◌≡◌, refl, sym, ap, ◌∙◌, subst, inl, inr, Bool, true, false, ◌||◌, List, [],
  ◌∷◌, ◌++◌, append_assoc, append-nil, arith, leb, if◌then◌else◌, Bool-cases, length, length-append,
  All, All-append, is_empty,
}
use noderax_agent.Logscan.Lines.{Bytes, concat}

abbrev pub output_flush_threshold : ℕ
output_flush_threshold = 1024

-- What the loop selects: a tick of the timer, or a read with its bytes and whether it failed.
pub data Selected : Type 0 where
  tick : Selected
  read : Bytes → Bool → Selected

-- The bytes that wait, and the payloads of the events sent so far.
pub record Stream : Type 0 where
  pub pending : Bytes
  pub sent : List Bytes

unfoldable pub flush : Stream → Stream
flush s = if is_empty s.pending then s else record { pending = []; sent = s.sent ++ s.pending ∷ [] }

-- `pending.Write`, and the flush at the threshold.
unfoldable pub add_output : Bytes → Stream → Stream
unfolding flush
add_output chunk s =
    let s' : Stream = record s { pending = s.pending ++ chunk } in
    if is_empty chunk
    then s
    else if leb output_flush_threshold (length s'.pending)
    then flush s'
    else s'

-- The loop ends with the first read that fails.
unfoldable pub stream_pty_output : List Selected → Stream → Stream
stream_pty_output [] s = s
stream_pty_output (tick ∷ events) s = stream_pty_output events (flush s)
stream_pty_output (read chunk fails ∷ events) s =
    let rest = stream_pty_output events (add_output chunk s) in
    if fails then flush (add_output chunk s) else rest

-- The bytes that the loop read.
unfoldable pub read_bytes_of : List Selected → Bytes
read_bytes_of [] = []
read_bytes_of (tick ∷ events) = read_bytes_of events
read_bytes_of (read chunk fails ∷ events) =
    let rest = read_bytes_of events in if fails then chunk else chunk ++ rest

concat-append : (xs ys : List Bytes) → concat (xs ++ ys) ≡ concat xs ++ concat ys
unfolding concat
concat-append [] ys = refl
concat-append (x ∷ xs) ys = rw (concat-append xs ys) (sym (append_assoc x (concat xs) (concat ys)))

-- All bytes so far, sent and pending.
abbrev pub bytes_of : Stream → Bytes
bytes_of s = concat s.sent ++ s.pending

-- A payload of an event: it is not empty, and shorter than the threshold and one read.
abbrev pub IsPayload : ℕ → Bytes → Type 0
IsPayload most p = (is_empty p ≡ false) × (length p < output_flush_threshold + most)

-- The stream has sent and kept the bytes that it was given.
pub record Holds (most : ℕ) (bytes : Bytes) (s : Stream) : Type 0 where
  pub same : bytes_of s ≡ bytes
  pub waits : length s.pending < output_flush_threshold
  pub payloads : All (IsPayload most) s.sent

-- The bytes of a read are no more than its buffer.
abbrev pub Reads : ℕ → Selected → Type 0
Reads most tick = Unit
Reads most (read chunk fails) = length chunk ≤ most

concat-snoc : (xs : List Bytes) (x : Bytes) → concat (xs ++ x ∷ []) ++ [] ≡ concat xs ++ x
concat-snoc xs x =
    append-nil (concat (xs ++ x ∷ []))
    ∙ concat-append xs (x ∷ [])
    ∙ ap (λ (y : Bytes). concat xs ++ y) (unfold concat in append-nil x)

is_empty_nil : (xs : Bytes) → is_empty xs ≡ true → xs ≡ []
is_empty_nil [] h = refl
is_empty_nil (x ∷ xs) h = cc

flush-Holds :
    (most : ℕ) (bytes : Bytes) (s : Stream)
    → bytes_of s ≡ bytes
    → length s.pending < output_flush_threshold + most
    → All (IsPayload most) s.sent
    → Holds most bytes (flush s)
unfolding flush
flush-Holds most bytes s same few good = elim (Bool-cases (is_empty s.pending)) [
  | inl none_left ↦ simp none_left (record {
    same = same;
    waits = omega (arith, ap length (is_empty_nil s.pending none_left));
    payloads = good;
  })
  | inr full ↦ simp full (record {
    same = concat-snoc s.sent s.pending ∙ same;
    waits = omega arith;
    payloads = All-append (IsPayload most) s.sent (s.pending ∷ []) good ((full, few), tt);
  })
]

add_output-Holds :
    (most : ℕ) (bytes chunk : Bytes) (s : Stream)
    → length chunk ≤ most
    → Holds most bytes s
    → Holds most (bytes ++ chunk) (add_output chunk s)
unfolding add_output
add_output-Holds most bytes chunk s few h =
    let s' : Stream = record s { pending = s.pending ++ chunk } in
    let same : bytes_of s' ≡ bytes ++ chunk =
      sym (append_assoc (concat s.sent) s.pending chunk) ∙ ap (λ (b : Bytes). b ++ chunk) h.same in
    let len = length-append s.pending chunk in
    elim (Bool-cases (is_empty chunk)) [
      | inl none_read ↦
          let nil = is_empty_nil chunk none_read in
          simp none_read (
            subst (λ (b : Bytes). Holds most b s)
              (sym (append-nil bytes) ∙ ap (λ (c : Bytes). bytes ++ c) (sym nil)) h)
      | inr some_read ↦ elim (Bool-cases (leb output_flush_threshold (length s'.pending))) [
        | inl over ↦
            simp (some_read, over)
              (flush-Holds most (bytes ++ chunk) s' same (omega (arith, h.waits, len)) h.payloads)
        | inr under ↦
            simp (some_read, under)
              (record { same = same; waits = ground arith; payloads = h.payloads })
      ]
    ]

flushed : (most : ℕ) (bytes : Bytes) (s : Stream) → Holds most bytes s → Holds most bytes (flush s)
flushed most bytes s h = flush-Holds most bytes s h.same (omega (arith, h.waits)) h.payloads

stream-Holds :
    (most : ℕ) (events : List Selected) (bytes : Bytes) (s : Stream)
    → All (Reads most) events
    → Holds most bytes s
    → Holds most (bytes ++ read_bytes_of events) (stream_pty_output events s)
unfolding stream_pty_output read_bytes_of
stream-Holds most [] bytes s r h = subst (λ (b : Bytes). Holds most b s) (sym (append-nil bytes)) h
stream-Holds most (tick ∷ events) bytes s r h =
    stream-Holds most events bytes (flush s) r.1 (flushed most bytes s h)
stream-Holds most (read chunk true ∷ events) bytes s r h =
    flushed most (bytes ++ chunk) (add_output chunk s) (add_output-Holds most bytes chunk s r.0 h)
stream-Holds most (read chunk false ∷ events) bytes s r h =
    subst (λ (b : Bytes). Holds most b (stream_pty_output events (add_output chunk s)))
      (append_assoc bytes chunk (read_bytes_of events))
      (stream-Holds most events (bytes ++ chunk) (add_output chunk s) r.1
        (add_output-Holds most bytes chunk s r.0 h))

abbrev pub empty_stream : Stream
empty_stream = record { pending = []; sent = [] }

-- However the reads of a PTY and the ticks of the timer follow each other, the payloads sent and
-- then the bytes that wait are the bytes read, each once and in order; fewer than 1024 bytes wait,
-- and each payload has at least one byte and fewer than 1024 and those of one read.
pub stream_pty_output-Holds :
    (most : ℕ) (events : List Selected)
    → All (Reads most) events
    → Holds most (read_bytes_of events) (stream_pty_output events empty_stream)
stream_pty_output-Holds most events r =
    stream-Holds most events [] empty_stream r
      (record { same = unfold concat in refl; waits = omega arith; payloads = tt })

-- A read of the list fails.
unfoldable pub ends : List Selected → Bool
ends [] = false
ends (tick ∷ events) = ends events
ends (read chunk fails ∷ events) = fails || ends events

flush_pending : (s : Stream) → (flush s).pending ≡ []
unfolding flush
flush_pending s = elim (Bool-cases (is_empty s.pending)) [
  | inl none_left ↦ simp none_left (is_empty_nil s.pending none_left)
  | inr full ↦ simp full
]

ends_pending :
    (events : List Selected) (s : Stream)
    → ends events ≡ true
    → (stream_pty_output events s).pending ≡ []
unfolding ends stream_pty_output
ends_pending [] s h = cc
ends_pending (tick ∷ events) s h = ends_pending events (flush s) h
ends_pending (read chunk true ∷ events) s h = flush_pending (add_output chunk s)
ends_pending (read chunk false ∷ events) s h = ends_pending events (add_output chunk s) h

-- When a read has failed, as at the end of the shell, all bytes that were read have been sent.
pub stream_pty_output_sends :
    (most : ℕ) (events : List Selected)
    → All (Reads most) events
    → ends events ≡ true
    → concat (stream_pty_output events empty_stream).sent ≡ read_bytes_of events
stream_pty_output_sends most events r h =
    let s = stream_pty_output events empty_stream in
    sym (append-nil (concat s.sent))
    ∙ ap (λ (b : Bytes). concat s.sent ++ b) (sym (ends_pending events empty_stream h))
    ∙ (stream_pty_output-Holds most events r).same
