-- ===== src/Realtime/Queue/Fifo.antt =====
-- The outbound queue against a bounded first-in first-out queue.
use noderax_agent.Prelude.{
  ℕ, zero, suc, ◌≤◌, ◌<◌, ◌≡◌, refl, subst, inl, inr, List, [], ◌∷◌, ◌++◌, arith, ltb,
  if◌then◌else◌, ltb→lt, Bool-cases, length, ℤ,
}
use noderax_agent.Realtime.Queue.{
  Outbound, Part, send, best_effort, count_sent, receive, count_received, received, count,
  note_depth, add_one, subtract_one, step, or_wait, run,
}

module _ (Message : Type 0) where
  -- What a client of the queue sees: a message is accepted or refused, and the oldest one is taken.
  pub data Move : Type 0 where
    accept refuse take : Message → Move

  -- The moves that take a queue of at most `capacity` messages from one state to another.
  pub data Fifo (capacity : ℕ) : List Message → List Move → List Message → Type 0 where
    nothing : (q : List Message) → Fifo capacity q [] q
    accepts :
        (m : Message) (q : List Message) (moves : List Move) (q' : List Message)
        → length q < capacity
        → Fifo capacity (q ++ m ∷ []) moves q'
        → Fifo capacity q (accept m ∷ moves) q'
    refuses :
        (m : Message) (q : List Message) (moves : List Move) (q' : List Message)
        → capacity ≤ length q
        → Fifo capacity q moves q'
        → Fifo capacity q (refuse m ∷ moves) q'
    takes :
        (m : Message) (rest : List Message) (moves : List Move) (q' : List Message)
        → Fifo capacity rest moves q'
        → Fifo capacity (m ∷ rest) (take m ∷ moves) q'

  abbrev pub taken_move : ℕ → ℕ → List Message → List Move
  taken_move loops receiving [] = []
  taken_move loops receiving (m ∷ rest) = if ltb receiving loops then take m ∷ [] else []

  -- The moves that a part makes, none where it waits or counts.
  unfoldable pub moves_of : ℕ → ℕ → Part Message → Outbound Message → List Move
  moves_of capacity loops (send m) q = if ltb (length q.channel) capacity then accept m ∷ [] else []
  moves_of capacity loops (best_effort m) q =
      if ltb (length q.channel) capacity then accept m ∷ [] else refuse m ∷ []
  moves_of capacity loops count_sent q = []
  moves_of capacity loops receive q = taken_move loops q.receiving q.channel
  moves_of capacity loops count_received q = []

  unfoldable pub trace : ℕ → ℕ → List (Part Message) → Outbound Message → List Move
  unfolding moves_of
  trace capacity loops [] q = []
  trace capacity loops (p ∷ parts) q =
      moves_of capacity loops p q
      ++ trace capacity loops parts (or_wait Message (step Message capacity loops p q) q)

  channel-count :
      (n : ℕ) (d : ℤ) (f : ℕ → Outbound Message) (q : Outbound Message)
      → ((k : ℕ) → (f k).channel ≡ q.channel)
      → (or_wait Message (count Message n d f) q).channel ≡ q.channel
  unfolding note_depth
  channel-count zero d f q same = refl
  channel-count (suc n) d f q same = same n

  Fifo-received :
      (capacity loops : ℕ) (q : Outbound Message) (channel : List Message) (moves : List Move)
      (after : List Message)
      → q.channel ≡ channel
      → Fifo capacity (or_wait Message (received Message loops q channel) q).channel moves after
      → Fifo capacity channel (taken_move loops q.receiving channel ++ moves) after
  Fifo-received capacity loops q [] moves after here f =
      subst (λ (c : List Message). Fifo capacity c moves after) here f
  Fifo-received capacity loops q (m ∷ rest) moves after here f =
      elim (Bool-cases (ltb q.receiving loops)) [
        | inl free ↦ rw free (takes m rest moves after (rw free at f))
        | inr busy ↦
            rw busy (subst (λ (c : List Message). Fifo capacity c moves after) here (rw busy at f))
      ]

  Fifo-step :
      (capacity loops : ℕ) (p : Part Message) (q : Outbound Message) (moves : List Move)
      (after : List Message)
      → Fifo capacity (or_wait Message (step Message capacity loops p q) q).channel moves after
      → Fifo capacity q.channel (moves_of capacity loops p q ++ moves) after
  unfolding step moves_of
  Fifo-step capacity loops (send m) q moves after f =
      elim (Bool-cases (ltb (length q.channel) capacity)) [
        | inl room ↦ rw room (
            accepts m q.channel moves after (ltb→lt (length q.channel) capacity room)
              (rw room at f))
        | inr full ↦ rw full (rw full at f)
      ]
  Fifo-step capacity loops (best_effort m) q moves after f =
      elim (Bool-cases (ltb (length q.channel) capacity)) [
        | inl room ↦ rw room (
            accepts m q.channel moves after (ltb→lt (length q.channel) capacity room)
              (rw room at f))
        | inr full ↦ rw full (refuses m q.channel moves after (ground arith) (rw full at f))
      ]
  Fifo-step capacity loops count_sent q moves after f =
      subst (λ (c : List Message). Fifo capacity c moves after)
        (channel-count q.sending (add_one q.depth) (λ n. record q { sending = n }) q (λ _. refl)) f
  Fifo-step capacity loops receive q moves after f =
      Fifo-received capacity loops q q.channel moves after refl f
  Fifo-step capacity loops count_received q moves after f =
      subst (λ (c : List Message). Fifo capacity c moves after)
        (channel-count q.receiving (subtract_one q.depth) (λ n. record q { receiving = n }) q
          (λ _. refl))
        f

  -- However the parts of the calls and of the write loops follow each other, what they accept, drop
  -- and receive are moves of a bounded first-in first-out queue, which has the content of the
  -- channel.
  pub trace-Fifo :
      (capacity loops : ℕ) (parts : List (Part Message)) (q : Outbound Message)
      → Fifo capacity q.channel
          (trace capacity loops parts q)
          (run Message capacity loops parts q).channel
  unfolding trace run
  trace-Fifo capacity loops [] q = nothing q.channel
  trace-Fifo capacity loops (p ∷ parts) q =
      let q' = or_wait Message (step Message capacity loops p q) q in
      Fifo-step capacity loops p q (trace capacity loops parts q')
        (run Message capacity loops parts q').channel (trace-Fifo capacity loops parts q')
