-- ===== src/Tasks/Service/Running.antt =====
-- `dispatchTask`, `markRunning` and `unmarkRunning`: the tasks that run at a time.
use noderax_agent.Prelude.{
  ℕ, suc, ◌-◌, ◌<◌, ◌≡◌, refl, inl, inr, Bool, true, false, Option, none, some, List, [], ◌∷◌,
  arith, if◌then◌else◌, Bool-cases, Text, text_eq, text_eq_iff, lookup, insert, delete,
  lookup-insert, lookup-delete,
}

-- The map `running` of the service.
abbrev pub Running : Type 0
Running = List (Text × Unit {0})

abbrev is_some {ℓ} : {A : Type ℓ} → Option A → Bool
is_some none = false
is_some (some a) = true

abbrev pub is_running : Running → Text → Bool
is_running r id = is_some (lookup id r)

unfoldable pub mark_running : Text → Running → Bool × Running
mark_running id r = if is_running r id then (false, r) else (true, insert id tt r)

unfoldable pub unmark_running : Text → Running → Running
unmark_running id r = delete id r

-- The service with the handlers that are on their way, each by the task it handles.
pub record State : Type 0 where
  pub running : Running
  pub handlers : List Text

-- `dispatchTask`: whether a handler was started.
unfoldable pub dispatch_task : Text → State → Bool × State
unfolding mark_running
dispatch_task id s =
    let (fresh, r) = mark_running id s.running in
    if fresh
    then (true, record { running = r; handlers = id ∷ s.handlers })
    else (false, record s { running = r })

unfoldable pub remove : Text → List Text → List Text
remove id [] = []
remove id (x ∷ xs) = if text_eq x id then xs else x ∷ remove id xs

unfoldable pub count : Text → List Text → ℕ
count id [] = 0
count id (x ∷ xs) = if text_eq x id then suc (count id xs) else count id xs

-- `handleTask` ends, and its deferred calls with it.
unfoldable pub end_handler : Text → State → State
unfolding unmark_running remove
end_handler id s = record { running = unmark_running id s.running; handlers = remove id s.handlers }

-- What happens to the service: a dispatch, from the poll or from the realtime channel, and the end
-- of a handler.
pub data Step : State → State → Type 0 where
  dispatched : {s : State} (id : Text) → Step s (dispatch_task id s).1
  ended : {s : State} (id : Text) → 0 < count id s.handlers → Step s (end_handler id s)

abbrev pub initial : State
initial = record { running = []; handlers = [] }

pub data Reachable : State → Type 0 where
  start : Reachable initial
  step : {s s' : State} → Reachable s → Step s s' → Reachable s'

-- A task has one handler while it is marked as running, and else none.
abbrev pub OneEach : State → Type 0
OneEach s = (id : Text) → count id s.handlers ≡ (if is_running s.running id then 1 else 0)

dispatch_task-OneEach : (id : Text) (s : State) → OneEach s → OneEach (dispatch_task id s).1
unfolding dispatch_task mark_running count
dispatch_task-OneEach id s h j = elim (Bool-cases (is_running s.running id)) [
  | inl on ↦ simp on (h j)
  | inr off ↦
      simp (off, lookup-insert id j tt s.running) (ground (arith, h j, h id, off, text_eq_iff id j))
]

count-remove :
    (id j : Text) (xs : List Text)
    → count j (remove id xs) ≡ (if text_eq id j then count j xs - 1 else count j xs)
unfolding count remove
count-remove id j [] = ground arith
count-remove id j (x ∷ xs) =
    ground (arith, count-remove id j xs, text_eq_iff x id, text_eq_iff x j, text_eq_iff id j)

end_handler-OneEach : (id : Text) (s : State) → OneEach s → OneEach (end_handler id s)
unfolding end_handler unmark_running
end_handler-OneEach id s h j =
    rw (count-remove id j s.handlers, lookup-delete id j s.running) (ground (arith, h j))

-- In every state that the service reaches by dispatches and ends of handlers in any order, each
-- task has exactly one handler if it is marked as running and none if it is not.
pub Reachable-OneEach : (s : State) → Reachable s → OneEach s
Reachable-OneEach s start = λ id. unfold count lookup in refl
Reachable-OneEach s (step {s = s₀} r (dispatched id)) =
    dispatch_task-OneEach id s₀ (Reachable-OneEach s₀ r)
Reachable-OneEach s (step {s = s₀} r (ended id h)) =
    end_handler-OneEach id s₀ (Reachable-OneEach s₀ r)
