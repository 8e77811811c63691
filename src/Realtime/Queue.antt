-- ===== src/Realtime/Queue.antt =====
-- The outbound queue: `enqueueCritical`, `enqueueBestEffort`, `writeLoop` and `updateQueueDepth`, whose
-- parts run in any order with those of other goroutines.
pub mod Invariant
pub mod Fifo
use noderax_agent.Prelude.{
  ℕ, zero, suc, ap, Option, none, some, List, [], ◌∷◌, ◌++◌, ltb, if◌then◌else◌, length, ℤ, pos,
  negsuc, ltb_ℤ,
}

unfoldable pub add_one : ℤ → ℤ
add_one (pos n) = pos (suc n)
add_one (negsuc zero) = pos 0
add_one (negsuc (suc n)) = negsuc n

unfoldable pub subtract_one : ℤ → ℤ
subtract_one (pos zero) = negsuc 0
subtract_one (pos (suc n)) = pos n
subtract_one (negsuc n) = negsuc (suc n)

module _ (Message : Type 0) where
  -- The channel; the calls that have sent and not yet counted their message; the write loops that have
  -- received and not yet counted one; the counters; and what was sent to and received from the channel.
  pub record Outbound : Type 0 where
    pub channel : List Message
    pub sending : ℕ
    pub receiving : ℕ
    pub depth : ℤ
    pub max_depth : ℤ
    pub drops : ℕ
    pub accepted : List Message
    pub taken : List Message

  abbrev pub empty_queue : Outbound
  empty_queue = record {
    channel = [];
    sending = 0;
    receiving = 0;
    depth = pos 0;
    max_depth = pos 0;
    drops = 0;
    accepted = [];
    taken = [];
  }

  -- The loop of `updateQueueDepth` stores a depth that is above the largest so far.
  unfoldable pub note_depth : ℤ → Outbound → Outbound
  note_depth depth q = record q {
    depth = depth;
    max_depth = if ltb_ℤ q.max_depth depth then depth else q.max_depth;
  }

  -- The parts of the calls: a message is sent to the channel, by either call; the best effort drops one; a
  -- call counts the message that it sent; a write loop receives a message; and it counts that.
  pub data Part : Type 0 where
    send best_effort : Message → Part
    count_sent receive count_received : Part

  abbrev pub put : Message → Outbound → Outbound
  put m q = record q {
    channel = q.channel ++ m ∷ [];
    sending = suc q.sending;
    accepted = q.accepted ++ m ∷ [];
  }

  -- Of `loops` write loops, those that still run for a connection that was closed included, each
  -- counts a message before it receives the next.
  abbrev pub received : ℕ → Outbound → List Message → Option Outbound
  received loops q [] = none
  received loops q (m ∷ rest) =
      if ltb q.receiving loops
      then some
          (record q { channel = rest; receiving = suc q.receiving; taken = q.taken ++ m ∷ [] })
      else none

  abbrev pub count : ℕ → ℤ → (ℕ → Outbound) → Option Outbound
  count zero depth q = none
  count (suc n) depth q = some (note_depth depth (q n))

  -- The channel has room for `capacity` messages. A part that has to wait is none; a critical call whose
  -- context is done leaves no trace.
  unfoldable pub step : ℕ → ℕ → Part → Outbound → Option Outbound
  unfolding note_depth add_one subtract_one
  step capacity loops (send m) q = if ltb (length q.channel) capacity then some (put m q) else none
  step capacity loops (best_effort m) q =
      if ltb (length q.channel) capacity
      then some (put m q)
      else some (record q { drops = suc q.drops })
  step capacity loops count_sent q =
      count q.sending (add_one q.depth) (λ n. record q { sending = n })
  step capacity loops receive q = received loops q q.channel
  step capacity loops count_received q =
      count q.receiving (subtract_one q.depth) (λ n. record q { receiving = n })

  abbrev pub or_wait : Option Outbound → Outbound → Outbound
  or_wait none q = q
  or_wait (some q') q = q'

  unfoldable pub run : ℕ → ℕ → List Part → Outbound → Outbound
  unfolding step
  run capacity loops [] q = q
  run capacity loops (p ∷ parts) q = run capacity loops parts (or_wait (step capacity loops p q) q)
