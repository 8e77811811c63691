-- ===== src/Tasks/Service/Sink.antt =====
-- `realtimeTaskLogSink`: the bounded buffer between a task's output and the backend.
use noderax_agent.Prelude.{
  ℕ, suc, ◌+◌, ◌≤◌, ◌≡◌, refl, sym, ap, ◌∙◌, subst, inl, inr, Bool, true, false, ◌&&◌, List, [],
  ◌∷◌, ◌++◌, append_assoc, append-nil, arith, ltb, if◌then◌else◌, ltb→lt, Bool-cases, length,
  length-append, Text,
}

abbrev pub capacity : ℕ
capacity = 512

pub record LogEntry : Type 0 where
  pub stream : Text
  pub line : Text

-- The channel of the sink, the calls of `TaskLog` so far, how many lines were dropped, and whether
-- the goroutine has given up and discards what is left.
pub record Sink : Type 0 where
  pub buffer : List LogEntry
  pub sent : List LogEntry
  pub dropped : ℕ
  pub discards : Bool

abbrev pub empty_sink : Sink
empty_sink = record { buffer = []; sent = []; dropped = 0; discards = false }

-- `Enqueue`: a full channel drops the line.
unfoldable pub enqueue : LogEntry → Sink → Sink
enqueue e s =
    if ltb (length s.buffer) capacity
    then record s { buffer = s.buffer ++ e ∷ [] }
    else record s { dropped = suc s.dropped }

-- One round of `run` on the next entry. `done_before` and `done_after` tell whether the context is
-- done when it is checked before the call, and after a call that failed with `fails`.
unfoldable pub run_entry : Bool → Bool → Bool → LogEntry → List LogEntry → Sink → Sink
run_entry done_before fails done_after e rest s =
    if s.discards
    then record s { buffer = rest }
    else if done_before
    then record s { buffer = rest; discards = true }
    else record s { buffer = rest; sent = s.sent ++ e ∷ []; discards = fails && done_after }

-- What happens to the sink: a line of the task, or a round of `run`, which waits while the channel
-- is empty.
pub data Action : Type 0 where
  line : LogEntry → Action
  round : Bool → Bool → Bool → Action

unfoldable pub act : Action → Sink → Sink
unfolding enqueue run_entry
act (line e) s = enqueue e s
act (round done_before fails done_after) s = elim s.buffer [
  | [] ↦ s
  | e ∷ rest ↦ run_entry done_before fails done_after e rest s
]

unfoldable pub run : List Action → Sink → Sink
run [] s = s
run (a ∷ actions) s = run actions (act a s)

-- The lines of the task.
unfoldable pub lines_of : List Action → List LogEntry
lines_of [] = []
lines_of (line e ∷ actions) = e ∷ lines_of actions
lines_of (round done_before fails done_after ∷ actions) = lines_of actions

-- A list that is left of another one, in order, when some elements are taken out.
pub data Sublist : List LogEntry → List LogEntry → Type 0 where
  nil : Sublist [] []
  keep : {x : LogEntry} {xs ys : List LogEntry} → Sublist xs ys → Sublist (x ∷ xs) (x ∷ ys)
  skip : {x : LogEntry} {xs ys : List LogEntry} → Sublist xs ys → Sublist xs (x ∷ ys)

Sublist-snoc :
    (e : LogEntry) (xs ys : List LogEntry) → Sublist xs ys → Sublist (xs ++ e ∷ []) (ys ++ e ∷ [])
Sublist-snoc e [] [] nil = keep nil
Sublist-snoc e (x ∷ xs) [] s = elim s [ ]
Sublist-snoc e (x ∷ xs) (y ∷ ys) (keep s) = keep (Sublist-snoc e xs ys s)
Sublist-snoc e xs (y ∷ ys) (skip s) = skip (Sublist-snoc e xs ys s)

Sublist-skip_last :
    (e : LogEntry) (xs ys : List LogEntry) → Sublist xs ys → Sublist xs (ys ++ e ∷ [])
Sublist-skip_last e [] [] nil = skip nil
Sublist-skip_last e (x ∷ xs) [] s = elim s [ ]
Sublist-skip_last e (x ∷ xs) (y ∷ ys) (keep s) = keep (Sublist-skip_last e xs ys s)
Sublist-skip_last e xs (y ∷ ys) (skip s) = skip (Sublist-skip_last e xs ys s)

Sublist-remove :
    (e : LogEntry) (xs zs ys : List LogEntry) → Sublist (xs ++ e ∷ zs) ys → Sublist (xs ++ zs) ys
Sublist-remove e [] zs [] s = elim s [ ]
Sublist-remove e (x ∷ xs) zs [] s = elim s [ ]
Sublist-remove e [] zs (y ∷ ys) (keep s) = skip s
Sublist-remove e [] zs (y ∷ ys) (skip s) = skip (Sublist-remove e [] zs ys s)
Sublist-remove e (x ∷ xs) zs (y ∷ ys) (keep s) = keep (Sublist-remove e xs zs ys s)
Sublist-remove e (x ∷ xs) zs (y ∷ ys) (skip s) = skip (Sublist-remove e (x ∷ xs) zs ys s)

-- What a sink has done with the lines that it was given.
pub record Delivers (seen : List LogEntry) (s : Sink) : Type 0 where
  pub bounded : length s.buffer ≤ capacity
  pub in_order : Sublist (s.sent ++ s.buffer) seen
  pub accounted : s.discards ≡ false → length s.sent + length s.buffer + s.dropped ≡ length seen

enqueue-Delivers :
    (e : LogEntry) (seen : List LogEntry) (s : Sink)
    → Delivers seen s
    → Delivers (seen ++ e ∷ []) (enqueue e s)
unfolding enqueue
enqueue-Delivers e seen s d = elim (Bool-cases (ltb (length s.buffer) capacity)) [
  | inl room ↦ simp room (record {
    bounded =
        omega (arith, ltb→lt (length s.buffer) capacity room, length-append s.buffer (e ∷ []));
    in_order =
        rw (← append_assoc s.sent s.buffer (e ∷ []))
          (Sublist-snoc e (s.sent ++ s.buffer) seen d.in_order);
    accounted = λ on.
        omega (arith, d.accounted on, length-append s.buffer (e ∷ []), length-append seen (e ∷ []));
  })
  | inr full ↦ simp full (record {
    bounded = d.bounded;
    in_order = Sublist-skip_last e (s.sent ++ s.buffer) seen d.in_order;
    accounted = λ on. omega (arith, d.accounted on, length-append seen (e ∷ []));
  })
]

run_entry-Delivers :
    (done_before fails done_after : Bool) (e : LogEntry) (rest seen : List LogEntry) (s : Sink)
    → s.buffer ≡ e ∷ rest
    → Delivers seen s
    → Delivers seen (run_entry done_before fails done_after e rest s)
unfolding run_entry
run_entry-Delivers done_before fails done_after e rest seen s here d =
    let len = ap length here in
    let left : Sublist (s.sent ++ e ∷ rest) seen = rw here at d.in_order in
    let fewer : length rest ≤ capacity = omega (arith, d.bounded, len) in
    elim (Bool-cases s.discards) [
      | inl gone ↦ simp gone (record {
        bounded = fewer;
        in_order = Sublist-remove e s.sent rest seen left;
        accounted = λ on. cc;
      })
      | inr on ↦ elim (Bool-cases done_before) [
        | inl stop ↦
            simp (on, stop)
              (record {
                bounded = fewer;
                in_order = Sublist-remove e s.sent rest seen left;
                accounted = λ on. cc;
              })
        | inr go ↦
            simp (on, go)
              (record {
                bounded = fewer;
                in_order = rw (append_assoc s.sent (e ∷ []) rest) left;
                accounted = λ _. omega (arith, d.accounted on, len, length-append s.sent (e ∷ []));
              })
      ]
    ]

act-Delivers :
    (a : Action) (seen : List LogEntry) (s : Sink)
    → Delivers seen s
    → Delivers (seen ++ lines_of (a ∷ [])) (act a s)
unfolding act lines_of
act-Delivers (line e) seen s d = enqueue-Delivers e seen s d
act-Delivers (round done_before fails done_after) seen s d =
    subst (λ (l : List LogEntry). Delivers l (act (round done_before fails done_after) s))
      (sym (append-nil seen)) (by_buffer s.buffer refl)
  where
    by_buffer :
        (b : List LogEntry)
        → s.buffer ≡ b
        → Delivers seen
            (elim b [ [] ↦ s | e ∷ rest ↦ run_entry done_before fails done_after e rest s ])
    by_buffer [] h = d
    by_buffer (e ∷ rest) h = run_entry-Delivers done_before fails done_after e rest seen s h d

lines_of-cons :
    (a : Action) (actions : List Action)
    → lines_of (a ∷ actions) ≡ lines_of (a ∷ []) ++ lines_of actions
unfolding lines_of
lines_of-cons (line e) actions = refl
lines_of-cons (round b f a) actions = refl

run-Delivers_from :
    (actions : List Action) (seen : List LogEntry) (s : Sink)
    → Delivers seen s
    → Delivers (seen ++ lines_of actions) (run actions s)
unfolding run
run-Delivers_from [] seen s d =
    unfold lines_of in subst (λ (l : List LogEntry). Delivers l s) (sym (append-nil seen)) d
run-Delivers_from (a ∷ actions) seen s d =
    let after =
      run-Delivers_from actions (seen ++ lines_of (a ∷ [])) (act a s) (act-Delivers a seen s d) in
    let e =
      append_assoc seen (lines_of (a ∷ [])) (lines_of actions)
      ∙ ap (λ (l : List LogEntry). seen ++ l) (sym (lines_of-cons a actions)) in
    subst (λ (l : List LogEntry). Delivers l (run actions (act a s))) e after

-- However the lines of a task and the rounds of the sink follow each other, the buffer never holds
-- more than 512 lines, the lines sent and then those in the buffer are lines of the task in their
-- order, each at most once, and until the sink discards each line is sent, in the buffer, or
-- counted as dropped.
pub run-Delivers : (actions : List Action) → Delivers (lines_of actions) (run actions empty_sink)
run-Delivers actions =
    run-Delivers_from actions [] empty_sink
      (record { bounded = omega arith; in_order = nil; accounted = λ _. omega arith })
