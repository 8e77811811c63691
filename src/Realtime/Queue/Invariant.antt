-- ===== src/Realtime/Queue/Invariant.antt =====
-- The invariant of the outbound queue.
use noderax_agent.Prelude.{
  ℕ, zero, suc, ◌+◌, ◌≤◌, ◌≡◌, refl, ap, subst, inl, inr, true, List, [], ◌∷◌, ◌++◌, append_assoc,
  arith, ltb, ltb→lt, Bool-cases, length, length-append, ℤ, pos, negsuc, pos_part, neg_part, ltb_ℤ,
  ◌≤ℤ◌,
}
use noderax_agent.Realtime.Queue.{
  Outbound, Part, send, best_effort, count_sent, receive, count_received, add_one, subtract_one,
  empty_queue, note_depth, put, received, count, step, or_wait, run,
}

add_one_lem : (d : ℤ) → pos_part (add_one d) + neg_part d ≡ pos_part d + neg_part (add_one d) + 1
unfolding add_one
add_one_lem (pos n) = omega arith
add_one_lem (negsuc zero) = omega arith
add_one_lem (negsuc (suc n)) = omega arith

subtract_one_lem :
    (d : ℤ) → pos_part (subtract_one d) + neg_part d + 1 ≡ pos_part d + neg_part (subtract_one d)
unfolding subtract_one
subtract_one_lem (pos zero) = omega arith
subtract_one_lem (pos (suc n)) = omega arith
subtract_one_lem (negsuc n) = omega arith

module _ (Message : Type 0) where
  -- The messages are taken in the order in which they were accepted, none left out and none twice; the
  -- channel keeps to its capacity; the depth is what is in the channel, but for the messages that are
  -- not yet counted; and the largest depth is at most the capacity and one for each write loop.
  pub record IsQueue (capacity loops : ℕ) (q : Outbound Message) : Type 0 where
    pub in_order : q.taken ++ q.channel ≡ q.accepted
    pub bounded : length q.channel ≤ capacity
    pub busy : q.receiving ≤ loops
    pub counted : pos_part q.depth + q.sending ≡ length q.channel + q.receiving + neg_part q.depth
    pub max_least : pos 0 ≤ℤ q.max_depth
    pub max_most : q.max_depth ≤ℤ pos (capacity + loops)

  put-IsQueue :
      (capacity loops : ℕ) (m : Message) (q : Outbound Message)
      → ltb (length q.channel) capacity ≡ true
      → IsQueue capacity loops q
      → IsQueue capacity loops (put Message m q)
  put-IsQueue capacity loops m q room v = record {
    in_order = rw (← append_assoc q.taken q.channel (m ∷ [])) (rw v.in_order refl);
    bounded =
        omega (arith, ltb→lt (length q.channel) capacity room, length-append q.channel (m ∷ []));
    busy = v.busy;
    counted = omega (arith, v.counted, length-append q.channel (m ∷ []));
    max_least = v.max_least;
    max_most = v.max_most;
  }

  received-IsQueue :
      (capacity loops : ℕ) (q : Outbound Message) (channel : List Message)
      → q.channel ≡ channel
      → IsQueue capacity loops q
      → IsQueue capacity loops (or_wait Message (received Message loops q channel) q)
  received-IsQueue capacity loops q [] here v = v
  received-IsQueue capacity loops q (m ∷ rest) here v = elim (Bool-cases (ltb q.receiving loops)) [
    | inr full ↦ rw full v
    | inl free ↦
        let len = ap length here in
        rw free (record {
          in_order =
              rw (append_assoc q.taken (m ∷ []) rest)
                (subst (λ (c : List Message). q.taken ++ c ≡ q.accepted) here v.in_order);
          bounded = omega (arith, v.bounded, len);
          busy = omega (arith, ltb→lt q.receiving loops free);
          counted = omega (arith, v.counted, len);
          max_least = v.max_least;
          max_most = v.max_most;
        })
  ]

  note_depth-IsQueue :
      (capacity loops : ℕ) (d : ℤ) (q : Outbound Message)
      → length q.channel ≤ capacity
      → q.receiving ≤ loops
      → q.taken ++ q.channel ≡ q.accepted
      → pos_part d + q.sending ≡ length q.channel + q.receiving + neg_part d
      → pos 0 ≤ℤ q.max_depth
      → q.max_depth ≤ℤ pos (capacity + loops)
      → IsQueue capacity loops (note_depth Message d q)
  unfolding note_depth
  note_depth-IsQueue capacity loops d q b l o c x y = elim (Bool-cases (ltb_ℤ q.max_depth d)) [
    | inl more ↦ rw more (record {
      in_order = o;
      bounded = b;
      busy = l;
      counted = c;
      max_least = omega (
        arith,
        ltb→lt (pos_part q.max_depth + neg_part d) (pos_part d + neg_part q.max_depth) more,
      );
      max_most = omega arith;
    })
    | inr same ↦
        rw same
          (record { in_order = o; bounded = b; busy = l; counted = c; max_least = x; max_most = y })
  ]

  count_sent-IsQueue :
      (capacity loops n : ℕ) (q : Outbound Message)
      → q.sending ≡ n
      → IsQueue capacity loops q
      → IsQueue capacity loops
          (or_wait Message (count Message n (add_one q.depth) (λ k. record q { sending = k })) q)
  count_sent-IsQueue capacity loops zero q here v = v
  count_sent-IsQueue capacity loops (suc n) q here v =
      note_depth-IsQueue capacity loops (add_one q.depth) (record q { sending = n }) v.bounded
        v.busy v.in_order (omega (arith, add_one_lem q.depth, v.counted)) v.max_least v.max_most

  count_received-IsQueue :
      (capacity loops n : ℕ) (q : Outbound Message)
      → q.receiving ≡ n
      → IsQueue capacity loops q
      → IsQueue capacity loops (
          or_wait Message
            (count Message n (subtract_one q.depth) (λ k. record q { receiving = k }))
            q)
  count_received-IsQueue capacity loops zero q here v = v
  count_received-IsQueue capacity loops (suc n) q here v =
      note_depth-IsQueue capacity loops (subtract_one q.depth) (record q { receiving = n })
        v.bounded (omega (arith, v.busy)) v.in_order
        (omega (arith, subtract_one_lem q.depth, v.counted)) v.max_least v.max_most

  step-IsQueue :
      (capacity loops : ℕ) (p : Part Message) (q : Outbound Message)
      → IsQueue capacity loops q
      → IsQueue capacity loops (or_wait Message (step Message capacity loops p q) q)
  unfolding step
  step-IsQueue capacity loops (send m) q v = elim (Bool-cases (ltb (length q.channel) capacity)) [
    | inl room ↦ rw room (put-IsQueue capacity loops m q room v)
    | inr full ↦ rw full v
  ]
  step-IsQueue capacity loops (best_effort m) q v =
      elim (Bool-cases (ltb (length q.channel) capacity)) [
        | inl room ↦ rw room (put-IsQueue capacity loops m q room v)
        | inr full ↦ rw full (record {
          in_order = v.in_order;
          bounded = v.bounded;
          busy = v.busy;
          counted = v.counted;
          max_least = v.max_least;
          max_most = v.max_most;
        })
      ]
  step-IsQueue capacity loops count_sent q v = count_sent-IsQueue capacity loops q.sending q refl v
  step-IsQueue capacity loops receive q v = received-IsQueue capacity loops q q.channel refl v
  step-IsQueue capacity loops count_received q v =
      count_received-IsQueue capacity loops q.receiving q refl v

  run-IsQueue_from :
      (capacity loops : ℕ) (parts : List (Part Message)) (q : Outbound Message)
      → IsQueue capacity loops q
      → IsQueue capacity loops (run Message capacity loops parts q)
  unfolding run
  run-IsQueue_from capacity loops [] q v = v
  run-IsQueue_from capacity loops (p ∷ parts) q v =
      run-IsQueue_from capacity loops parts (or_wait Message (step Message capacity loops p q) q)
        (step-IsQueue capacity loops p q v)

  -- However the parts of the calls and of the write loops follow each other, messages are received
  -- in the order in which they were accepted, none left out and none twice; the channel never has
  -- more of them than its capacity; the depth is their number, but for those that are not yet
  -- counted; and the largest depth is at most the capacity and one for each write loop.
  pub run-IsQueue :
      (capacity loops : ℕ) (parts : List (Part Message))
      → IsQueue capacity loops (run Message capacity loops parts (empty_queue Message))
  run-IsQueue capacity loops parts =
      run-IsQueue_from capacity loops parts (empty_queue Message) (record {
        in_order = refl;
        bounded = omega arith;
        busy = omega arith;
        counted = omega arith;
        max_least = omega arith;
        max_most = omega arith;
      })
