-- ===== src/Sync/Semaphore.antt =====
-- `SyncManager::SemaphoreMsg` and `SyncManager::SemaphoreLeaveMsg` of Dogee/DogeeRemote.cpp. An
-- `int` is an integer here: the code leaves its overflow undefined.
use mathlib.Core.List.{append-nil, append_assoc}
use dogee.Prelude.{
  ℕ, zero, suc, ap, ◌+◌, ◌≤◌, ◌≡◌, refl, sym, ◌∙◌, List, [], ◌∷◌, ◌++◌, Option, none, some, arith,
  length, length-append, replicate, map, if◌then◌else◌,
}
use dogee.Prelude.Int.{ℤ, pos, negsuc, pos_part, neg_part, ◌+ℤ◌, ◌-ℤ◌, leb_ℤ, to_int32}
use dogee.Sync.Node.{SyncThreadNode, SyncNode, semaphore, SyncData, store, find_or, Memory, Handled}

unfoldable pub new_semaphore : Memory → ℕ → SyncNode
new_semaphore memory b_id = record {
  kind = semaphore;
  val = to_int32 (memory b_id 0);
  count = to_int32 (memory b_id 0);
  waiting = [];
}

unfoldable pub enter : SyncNode → SyncThreadNode → SyncNode × List SyncThreadNode
enter node th =
    let val = node.val -ℤ pos 1 in
    if leb_ℤ (pos 0) val
    then (record node { val = val }, th ∷ [])
    else (record node { val = val; waiting = node.waiting ++ th ∷ [] }, [])

-- `front` and `pop` of the queue, if it is not empty
unfoldable pub wake_front : SyncNode → List SyncThreadNode → SyncNode × List SyncThreadNode
wake_front node [] = (node, [])
wake_front node (th ∷ rest) = (record node { waiting = rest }, th ∷ [])

unfoldable pub leave : SyncNode → SyncNode × List SyncThreadNode
unfolding wake_front
leave node =
    let node' = record node { val = node.val +ℤ pos 1 } in
    if leb_ℤ (pos 0) node'.val then wake_front node' node'.waiting else (node', [])

unfoldable pub semaphore_msg : Memory → SyncData → SyncThreadNode → ℕ → Handled
unfolding enter new_semaphore
semaphore_msg memory m th b_id =
    let (node, woken) = enter (find_or (m b_id) (new_semaphore memory b_id)) th in
    record { table = store m b_id node; woken = woken }

-- `none` is the read through `(int*)val`, an address that the code makes from the stored count: it
-- happens whenever the table has no node yet.
unfoldable pub semaphore_leave_msg : SyncData → ℕ → Option Handled
unfolding leave
semaphore_leave_msg m b_id = elim (m b_id) [
  | none ↦ none
  | some node ↦
      let (node', woken) = leave node in some (record { table = store m b_id node'; woken = woken })
]

pub data Move : Type 0 where
  enters : SyncThreadNode → Move
  leaves : Move

unfoldable pub step : SyncNode → Move → SyncNode × List SyncThreadNode
unfolding enter leave
step node (enters th) = enter node th
step node leaves = leave node

unfoldable pub run : SyncNode → List Move → SyncNode × List SyncThreadNode
unfolding step
run node [] = (node, [])
run node (mv ∷ mvs) =
    let (node', woken) = step node mv in let (last, later) = run node' mvs in (last, woken ++ later)

abbrev pub releases : List Move → ℕ
releases [] = 0
releases (enters th ∷ mvs) = releases mvs
releases (leaves ∷ mvs) = suc (releases mvs)

abbrev pub requests : List Move → List SyncThreadNode
requests [] = []
requests (enters th ∷ mvs) = th ∷ requests mvs
requests (leaves ∷ mvs) = requests mvs

-- The threads that wait cover every permit that the count is short of.
abbrev pub Covers : SyncNode → Type 0
Covers node = neg_part node.val ≤ length node.waiting

-- One move: nothing is lost, and what it wakes is paid for by the count.
step_lem :
    (node : SyncNode) (mv : Move)
    → Covers node
    → Covers (step node mv).0
      × (length (step node mv).1 + length (step node mv).0.waiting
          ≡ length (requests (mv ∷ [])) + length node.waiting)
      × (pos_part (step node mv).0.val + neg_part node.val + length (requests (mv ∷ []))
          ≡ neg_part (step node mv).0.val + pos_part node.val + releases (mv ∷ []))
unfolding step
step_lem node (enters th) c = ground (arith, length-append node.waiting (th ∷ []))
step_lem node leaves c = ground arith

pub new_semaphore-Covers :
    (memory : Memory) (b_id : ℕ)
    → neg_part (to_int32 (memory b_id 0)) ≡ 0
    → Covers (new_semaphore memory b_id)
unfolding new_semaphore
new_semaphore-Covers memory b_id e = omega arith

pub enter-Covers : (node : SyncNode) (th : SyncThreadNode) → Covers node → Covers (enter node th).0
unfolding enter
enter-Covers node th c = ground (arith, length-append node.waiting (th ∷ []))

pub leave-Covers : (node : SyncNode) → Covers node → Covers (leave node).0
unfolding leave
leave-Covers node c = ground arith

run_lem :
    (node : SyncNode) (mvs : List Move)
    → Covers node
    → Covers (run node mvs).0
      × (length (run node mvs).1 + length (run node mvs).0.waiting
          ≡ length (requests mvs) + length node.waiting)
      × (pos_part (run node mvs).0.val + neg_part node.val + length (requests mvs)
          ≡ neg_part (run node mvs).0.val + pos_part node.val + releases mvs)
unfolding run
run_lem node [] c = omega arith
run_lem node (enters th ∷ mvs) c =
    let first = step_lem node (enters th) c in
    omega (
      arith,
      first,
      run_lem (step node (enters th)).0 mvs first.0,
      length-append (step node (enters th)).1 (run (step node (enters th)).0 mvs).1,
    )
run_lem node (leaves ∷ mvs) c =
    let first = step_lem node leaves c in
    omega (
      arith,
      first,
      run_lem (step node leaves).0 mvs first.0,
      length-append (step node leaves).1 (run (step node leaves).0 mvs).1,
    )

-- A semaphore of `n` permits never lets more threads through than `n` and the releases so far,
-- and every thread that asked has been let through or waits.
pub semaphore_safe :
    (memory : Memory) (b_id n : ℕ) (mvs : List Move)
    → to_int32 (memory b_id 0) ≡ pos n
    → (length (run (new_semaphore memory b_id) mvs).1 ≤ n + releases mvs)
      × (length (run (new_semaphore memory b_id) mvs).1
            + length (run (new_semaphore memory b_id) mvs).0.waiting
          ≡ length (requests mvs))
unfolding new_semaphore
semaphore_safe memory b_id n mvs e =
    let node = new_semaphore memory b_id in
    let short : neg_part node.val ≡ 0 = rw e in
    let full : pos_part node.val ≡ n = rw e in
    let c : Covers node = omega arith in omega (arith, run_lem node mvs c)

-- One release with `k + 2` permits owed wakes nobody, though every thread in the queue is owed one.
leave_asleep :
    (node : SyncNode) (k : ℕ)
    → node.val ≡ negsuc (suc k)
    → leave node ≡ (record node { val = negsuc k }, [])
unfolding leave
leave_asleep node k e = ground arith

leave_awake :
    (node : SyncNode) (th : SyncThreadNode) (rest : List SyncThreadNode)
    → node.val ≡ negsuc 0
    → node.waiting ≡ th ∷ rest
    → leave node ≡ (record node { val = pos 0; waiting = rest }, th ∷ [])
unfolding leave
leave_awake node th rest e q = ground arith

leaves_lem :
    (k : ℕ) (node : SyncNode) (th : SyncThreadNode) (rest : List SyncThreadNode)
    → node.val ≡ negsuc k
    → node.waiting ≡ th ∷ rest
    → run node (replicate (suc k) leaves) ≡ (record node { val = pos 0; waiting = rest }, th ∷ [])
unfolding run step
leaves_lem zero node th rest e q = rw (leave_awake node th rest e q)
leaves_lem (suc k) node th rest e q =
    rw (leave_asleep node k e, leaves_lem k (record node { val = negsuc k }) th rest refl q) refl

abbrev owing : ℕ → ℤ
owing zero = pos 0
owing (suc k) = negsuc k

-- The node with exactly the threads `ws` waiting and no permit left.
abbrev pub all_waiting : SyncNode → List SyncThreadNode → SyncNode
all_waiting node ws = record node { val = owing (length ws); waiting = ws }

enter_waits :
    (node : SyncNode) (ws : List SyncThreadNode) (th : SyncThreadNode)
    → enter (all_waiting node ws) th ≡ (all_waiting node (ws ++ th ∷ []), [])
unfolding enter
enter_waits node [] th = refl
enter_waits node (w ∷ ws) th = ground (arith, length-append ws (th ∷ []))

enters_lem :
    (node : SyncNode) (ths ws : List SyncThreadNode) (mvs : List Move)
    → run (all_waiting node ws) (map enters ths ++ mvs) ≡ run (all_waiting node (ws ++ ths)) mvs
unfolding run step
enters_lem node [] ws mvs = rw append-nil
enters_lem node (th ∷ ths) ws mvs =
    rw (enter_waits node ws th, enters_lem node ths (ws ++ th ∷ []) mvs, append_assoc) refl

no_permits :
    (memory : Memory) (b_id : ℕ)
    → to_int32 (memory b_id 0) ≡ pos 0
    → all_waiting (new_semaphore memory b_id) [] ≡ new_semaphore memory b_id
unfolding new_semaphore
no_permits memory b_id e = ground arith

-- After `n + 1` threads asked a semaphore without permits, `n + 1` releases bring the count back to
-- 0 and wake the first thread only: all others sleep on.
pub semaphore_starves :
    (memory : Memory) (b_id : ℕ) (th : SyncThreadNode) (ths : List SyncThreadNode)
    → to_int32 (memory b_id 0) ≡ pos 0
    → run (new_semaphore memory b_id) (map enters (th ∷ ths) ++ replicate (suc (length ths)) leaves)
      ≡ (record (new_semaphore memory b_id) { val = pos 0; waiting = ths }, th ∷ [])
semaphore_starves memory b_id th ths e =
    let node = new_semaphore memory b_id in
    ap (λ n. run n (map enters (th ∷ ths) ++ replicate (suc (length ths)) leaves))
      (sym (no_permits memory b_id e))
    ∙ enters_lem node (th ∷ ths) [] (replicate (suc (length ths)) leaves)
    ∙ leaves_lem (length ths) (all_waiting node (th ∷ ths)) th ths refl refl
