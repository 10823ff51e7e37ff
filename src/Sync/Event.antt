-- ===== src/Sync/Event.antt =====
-- `SyncManager::CreateEventNode`, `EventWaitMsg`, `SetEventMsg` and `ResetEventMsg` of
-- Dogee/DogeeRemote.cpp. `count` is the event's auto-reset flag and `val` its signal.
use mathlib.Core.List.{append-nil, append_assoc}
use dogee.Prelude.{
  map, ℕ, zero, suc, ap, ◌+◌, ◌≤◌, ◌≡◌, refl, sym, ◌∙◌, ◌⊎◌, inl, inr, Bool, true, false, List, [],
  ◌∷◌, ◌++◌, arith, length, length-append, if◌then◌else◌,
}
use dogee.Prelude.Int.{ℤ, pos, negsuc, to_int32}
use dogee.Sync.Node.{SyncThreadNode, SyncNode, event, SyncData, store, find_or, Memory, Handled}

-- `if (n)` of an `int`
abbrev pub is_set : ℤ → Bool
is_set (pos zero) = false
is_set (pos (suc n)) = true
is_set (negsuc n) = true

unfoldable pub new_event : Memory → ℕ → SyncNode
new_event memory b_id = record {
  kind = event;
  val = to_int32 (memory b_id 2);
  count = to_int32 (memory b_id 0);
  waiting = [];
}

unfoldable pub create_event_node : Memory → SyncData → ℕ → SyncNode
unfolding new_event
create_event_node memory m b_id = find_or (m b_id) (new_event memory b_id)

unfoldable pub event_wait : SyncNode → SyncThreadNode → SyncNode × List SyncThreadNode
event_wait node th =
    if is_set node.val
    then (if is_set node.count then record node { val = pos 0 } else node, th ∷ [])
    else (record node { waiting = node.waiting ++ th ∷ [] }, [])

-- the branch for an event that resets itself
unfoldable pub set_auto : SyncNode → List SyncThreadNode → SyncNode × List SyncThreadNode
set_auto node [] = (record node { val = pos 1 }, [])
set_auto node (th ∷ rest) = (record node { val = pos 0; waiting = rest }, th ∷ [])

-- `while (!waitqueue->empty())`: takes each thread from the front and wakes it
unfoldable pub drain : List SyncThreadNode → List SyncThreadNode
drain [] = []
drain (th ∷ rest) = th ∷ drain rest

unfoldable pub set_event : SyncNode → SyncNode × List SyncThreadNode
unfolding set_auto drain
set_event node =
    let node' = record node { val = pos 1 } in
    if is_set node'.count
    then set_auto node' node'.waiting
    else (record node' { waiting = [] }, drain node'.waiting)

unfoldable pub reset_event : SyncNode → SyncNode
reset_event node = record node { val = pos 0 }

unfoldable pub event_wait_msg : Memory → SyncData → SyncThreadNode → ℕ → Handled
unfolding event_wait create_event_node
event_wait_msg memory m th b_id =
    let (node, woken) = event_wait (create_event_node memory m b_id) th in
    record { table = store m b_id node; woken = woken }

unfoldable pub set_event_msg : Memory → SyncData → ℕ → Handled
unfolding set_event create_event_node
set_event_msg memory m b_id =
    let (node, woken) = set_event (create_event_node memory m b_id) in
    record { table = store m b_id node; woken = woken }

unfoldable pub reset_event_msg : Memory → SyncData → ℕ → Handled
unfolding reset_event create_event_node
reset_event_msg memory m b_id = record {
  table = store m b_id (reset_event (create_event_node memory m b_id));
  woken = [];
}

pub data Move : Type 0 where
  waits : SyncThreadNode → Move
  sets resets : Move

unfoldable pub step : SyncNode → Move → SyncNode × List SyncThreadNode
unfolding event_wait set_event reset_event
step node (waits th) = event_wait node th
step node sets = set_event node
step node resets = (reset_event node, [])

unfoldable pub run : SyncNode → List Move → SyncNode × List SyncThreadNode
unfolding step
run node [] = (node, [])
run node (mv ∷ mvs) =
    let (node', woken) = step node mv in let (last, later) = run node' mvs in (last, woken ++ later)

abbrev pub requests : List Move → List SyncThreadNode
requests [] = []
requests (waits th ∷ mvs) = th ∷ requests mvs
requests (sets ∷ mvs) = requests mvs
requests (resets ∷ mvs) = requests mvs

drain_lem : (ths : List SyncThreadNode) → drain ths ≡ ths
unfolding drain
drain_lem [] = refl
drain_lem (th ∷ ths) = ap (◌∷◌ th) (drain_lem ths)

-- Nobody waits for an event that is signalled.
abbrev pub IsValid : SyncNode → Type 0
IsValid node = (is_set node.val ≡ false) ⊎ (node.waiting ≡ [])

-- One move keeps the order of the requests: the threads woken, then those that wait.
step_lem :
    (node : SyncNode) (mv : Move)
    → IsValid node
    → IsValid (step node mv).0
      × ((step node mv).1 ++ (step node mv).0.waiting ≡ node.waiting ++ requests (mv ∷ []))
      × ((step node mv).0.count ≡ node.count)
unfolding step
step_lem node (waits th) v = ground arith
step_lem node sets v = ground (arith, drain_lem node.waiting, append-nil node.waiting)
step_lem node resets v = ground (arith, append-nil node.waiting)

pub new_event-IsValid : (memory : Memory) (b_id : ℕ) → IsValid (new_event memory b_id)
unfolding new_event
new_event-IsValid memory b_id = inr refl

pub event_wait-IsValid :
    (node : SyncNode) (th : SyncThreadNode) → IsValid node → IsValid (event_wait node th).0
unfolding event_wait
event_wait-IsValid node th v = ground arith

pub set_event-IsValid : (node : SyncNode) → IsValid (set_event node).0
unfolding set_event
set_event-IsValid node = ground arith

pub reset_event-IsValid : (node : SyncNode) → IsValid (reset_event node)
unfolding reset_event
reset_event-IsValid node = inl refl

requests_cons :
    (mv : Move) (mvs : List Move) → requests (mv ∷ []) ++ requests mvs ≡ requests (mv ∷ mvs)
requests_cons (waits th) mvs = refl
requests_cons sets mvs = refl
requests_cons resets mvs = refl

-- An event lets its threads go in the order in which they asked, each once, loses none, and keeps
-- nobody waiting while it is signalled, whatever the order of waits, sets and resets.
pub event_fifo :
    (node : SyncNode) (mvs : List Move)
    → IsValid node
    → IsValid (run node mvs).0
      × ((run node mvs).1 ++ (run node mvs).0.waiting ≡ node.waiting ++ requests mvs)
unfolding run
event_fifo node [] v = (v, sym (append-nil node.waiting))
event_fifo node (mv ∷ mvs) v =
    let (v', order, _) = step_lem node mv v in
    let (last, rest) = event_fifo (step node mv).0 mvs v' in
    let q = step node mv in
    let r = run q.0 mvs in
    (
      last,
      append_assoc q.1 r.1 r.0.waiting
          ∙ ap (◌++◌ q.1) rest
          ∙ sym (append_assoc q.1 q.0.waiting (requests mvs))
          ∙ ap (λ l. l ++ requests mvs) order
          ∙ append_assoc node.waiting (requests (mv ∷ [])) (requests mvs)
          ∙ ap (◌++◌ node.waiting) (requests_cons mv mvs),
    )

abbrev pub signals : List Move → ℕ
signals [] = 0
signals (waits th ∷ mvs) = signals mvs
signals (sets ∷ mvs) = suc (signals mvs)
signals (resets ∷ mvs) = signals mvs

abbrev pub signal : SyncNode → ℕ
signal node = if is_set node.val then 1 else 0

auto_step :
    (node : SyncNode) (mv : Move)
    → is_set node.count ≡ true
    → (is_set (step node mv).0.count ≡ true)
      × (length (step node mv).1 + signal (step node mv).0 ≤ signal node + signals (mv ∷ []))
unfolding step event_wait set_event reset_event
auto_step node (waits th) e = ground arith
auto_step node sets e = ground arith
auto_step node resets e = ground arith

signals_cons : (mv : Move) (mvs : List Move) → signals (mv ∷ []) + signals mvs ≡ signals (mv ∷ mvs)
signals_cons (waits th) mvs = omega arith
signals_cons sets mvs = omega arith
signals_cons resets mvs = omega arith

-- An event that resets itself lets at most one thread go for each `Set`, and one more if it was
-- signalled at first.
pub auto_reset_bound :
    (node : SyncNode) (mvs : List Move)
    → is_set node.count ≡ true
    → length (run node mvs).1 + signal (run node mvs).0 ≤ signal node + signals mvs
unfolding run
auto_reset_bound node [] e = omega arith
auto_reset_bound node (mv ∷ mvs) e =
    let (e', bound) = auto_step node mv e in
    omega (
      arith,
      bound,
      auto_reset_bound (step node mv).0 mvs e',
      length-append (step node mv).1 (run (step node mv).0 mvs).1,
      signals_cons mv mvs,
    )

manual_waits :
    (node : SyncNode) (ths : List SyncThreadNode)
    → is_set node.count ≡ false
    → is_set node.val ≡ true
    → run node (map waits ths) ≡ (node, ths)
unfolding run step event_wait
manual_waits node [] e s = refl
manual_waits node (th ∷ ths) e s = rw (s, e, manual_waits node ths e s)

-- `Set` on an event that does not reset itself lets all waiting threads go in their order and
-- leaves it signalled, so that the threads that come later do not wait.
pub manual_set :
    (node : SyncNode) (ths : List SyncThreadNode)
    → is_set node.count ≡ false
    → run node (sets ∷ map waits ths)
      ≡ (record node { val = pos 1; waiting = [] }, node.waiting ++ ths)
unfolding run step set_event
manual_set node ths e =
    rw (
      e,
      manual_waits (record node { val = pos 1; waiting = [] }) ths e refl,
      drain_lem node.waiting,
    )
