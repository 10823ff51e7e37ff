-- ===== src/Sync/Barrier.antt =====
-- `SyncManager::BarrierMsg` of Dogee/DogeeRemote.cpp.
use mathlib.Core.List.{append-nil, append_assoc}
use dogee.Prelude.{
  ℕ, suc, ap, sym, subst, ◌+◌, ◌<◌, ◌≡◌, refl, ◌⊎◌, inl, List, [], ◌∷◌, ◌++◌, none, some, arith,
  length, length-append, if◌then◌else◌,
}
use dogee.Prelude.Int.{pos, pos_part, ◌+ℤ◌, leb_ℤ, to_int32}
use dogee.Sync.Node.{
  SyncThreadNode, SyncNode, barrier, SyncData, store, find_or, Memory, Handled, store_self,
}

module _ (memory : Memory) where
  unfoldable pub new_barrier : ℕ → SyncNode
  new_barrier b_id = record {
    kind = barrier;
    val = pos 0;
    count = to_int32 (memory b_id 0);
    waiting = [];
  }

-- The arrival of one thread at the node.
unfoldable pub arrive : SyncNode → SyncThreadNode → SyncNode × List SyncThreadNode
arrive node th =
    let val = node.val +ℤ pos 1 in
    if leb_ℤ node.count val
    then (record node { val = pos 0; waiting = [] }, th ∷ node.waiting)
    else (record node { val = val; waiting = node.waiting ++ th ∷ [] }, [])

module _ (memory : Memory) where
  unfoldable pub barrier_msg : SyncData → SyncThreadNode → ℕ → Handled
  unfolding arrive new_barrier
  barrier_msg m th b_id =
      let (node, woken) = arrive (find_or (m b_id) (new_barrier memory b_id)) th in
      record { table = store m b_id node; woken = woken }

  unfoldable pub barrier_msgs : SyncData → ℕ → List SyncThreadNode → Handled
  barrier_msgs m b_id [] = record { table = m; woken = [] }
  barrier_msgs m b_id (th ∷ ths) =
      let h = barrier_msg m th b_id in
      let r = barrier_msgs h.table b_id ths in
      record { table = r.table; woken = h.woken ++ r.woken }

-- No thread is lost: it waits behind the others, or all of them go.
arrive_cases :
    (node : SyncNode) (th : SyncThreadNode)
    → ((arrive node th).1 ≡ []) × ((arrive node th).0.waiting ≡ node.waiting ++ th ∷ [])
      ⊎ ((arrive node th).1 ≡ th ∷ node.waiting) × ((arrive node th).0.waiting ≡ [])
unfolding arrive
arrive_cases node th = ground arith

-- The count of a barrier is the number of its waiting threads, which falls short of the total.
pub record IsValid (node : SyncNode) : Type 0 where
  pub counted : node.val ≡ pos (length node.waiting)
  pub short : (node.waiting ≡ []) ⊎ (length node.waiting < pos_part node.count)

pub new_barrier-IsValid : (memory : Memory) (b_id : ℕ) → IsValid (new_barrier memory b_id)
unfolding new_barrier
new_barrier-IsValid memory b_id = record { counted = refl; short = inl refl }

pub arrive-IsValid :
    (node : SyncNode) (th : SyncThreadNode) → IsValid node → IsValid (arrive node th).0
unfolding arrive
arrive-IsValid node th v = ground (arith, length-append node.waiting (th ∷ []))

module _ (memory : Memory) (b_id : ℕ) where
  abbrev pub waiting_for : List SyncThreadNode → SyncNode
  waiting_for ws = record (new_barrier memory b_id) { val = pos (length ws); waiting = ws }

  -- An arrival that is not the last joins the waiting threads; the last one opens the barrier.
  arrive_early :
      (n : ℕ) (ws : List SyncThreadNode) (th : SyncThreadNode)
      → to_int32 (memory b_id 0) ≡ pos n
      → suc (length ws) < n
      → arrive (waiting_for ws) th ≡ (waiting_for (ws ++ th ∷ []), [])
  unfolding arrive new_barrier
  arrive_early n ws th e h = ground (arith, length-append ws (th ∷ []))

  arrive_last :
      (n : ℕ) (ws : List SyncThreadNode) (th : SyncThreadNode)
      → to_int32 (memory b_id 0) ≡ pos n
      → n ≡ suc (length ws)
      → arrive (waiting_for ws) th ≡ (waiting_for [], th ∷ ws)
  unfolding arrive new_barrier
  arrive_last n ws th e h = ground arith

  -- What one message does, by what the node was.
  msg_lem :
      (m : SyncData) (th : SyncThreadNode) (node next : SyncNode) (woken : List SyncThreadNode)
      → find_or (m b_id) (new_barrier memory b_id) ≡ node
      → arrive node th ≡ (next, woken)
      → barrier_msg memory m th b_id ≡ record { table = store m b_id next; woken = woken }
  unfolding barrier_msg
  msg_lem m th node next woken f e = rw (f, e)

  -- A message that wakes nobody, and the messages after it.
  msgs_quiet :
      (m : SyncData) (th : SyncThreadNode) (node next : SyncNode) (ths : List SyncThreadNode)
      → find_or (m b_id) (new_barrier memory b_id) ≡ node
      → arrive node th ≡ (next, [])
      → barrier_msgs memory m b_id (th ∷ ths) ≡ barrier_msgs memory (store m b_id next) b_id ths
  unfolding barrier_msgs
  msgs_quiet m th node next ths f e =
      ap
        (λ (h : Handled).
          let r = barrier_msgs memory h.table b_id ths in
          let out : Handled = record { table = r.table; woken = h.woken ++ r.woken } in out)
        (msg_lem m th node next [] f e)

  msgs_early :
      (n : ℕ) (m : SyncData) (ws ths : List SyncThreadNode)
      → to_int32 (memory b_id 0) ≡ pos n
      → find_or (m b_id) (new_barrier memory b_id) ≡ waiting_for ws
      → length ws + length ths < n
      → ((barrier_msgs memory m b_id ths).woken ≡ [])
        × (find_or ((barrier_msgs memory m b_id ths).table b_id) (new_barrier memory b_id)
            ≡ waiting_for (ws ++ ths))
  unfolding barrier_msgs
  msgs_early n m ws [] e f h = rw append-nil (refl, f)
  msgs_early n m ws (th ∷ ths) e f h =
      let ws' = ws ++ th ∷ [] in
      rw
        (msg_lem m th (waiting_for ws) (waiting_for ws') [] f
          (arrive_early n ws th e (omega arith)))
        (rw (← append_assoc ws (th ∷ []) ths) (
          msgs_early n (store m b_id (waiting_for ws')) ws' ths e
            (ap (λ o. find_or o (new_barrier memory b_id)) (store_self m b_id (waiting_for ws')))
            (omega (arith, length-append ws (th ∷ [])))))

  msgs_last :
      (n : ℕ) (m : SyncData) (ws ths : List SyncThreadNode) (th : SyncThreadNode)
      → to_int32 (memory b_id 0) ≡ pos n
      → find_or (m b_id) (new_barrier memory b_id) ≡ waiting_for ws
      → n ≡ suc (length ws + length ths)
      → ((barrier_msgs memory m b_id (ths ++ th ∷ [])).woken ≡ th ∷ ws ++ ths)
        × ((barrier_msgs memory m b_id (ths ++ th ∷ [])).table b_id ≡ some (waiting_for []))
  unfolding barrier_msgs
  msgs_last n m ws [] th e f h =
      rw
        (msg_lem m th (waiting_for ws) (waiting_for []) (th ∷ ws) f
          (arrive_last n ws th e (omega arith)))
        (refl, store_self m b_id (waiting_for []))
  msgs_last n m ws (x ∷ ths) th e f h =
      let ws' = ws ++ x ∷ [] in
      subst (λ r. (r.woken ≡ th ∷ ws ++ x ∷ ths) × (r.table b_id ≡ some (waiting_for [])))
        (sym (
          msgs_quiet m x (waiting_for ws) (waiting_for ws') (ths ++ th ∷ []) f
            (arrive_early n ws x e (omega arith))))
        (rw (← append_assoc ws (x ∷ []) ths) (
          msgs_last n (store m b_id (waiting_for ws')) ws' ths th e
            (ap (λ o. find_or o (new_barrier memory b_id)) (store_self m b_id (waiting_for ws')))
            (omega (arith, length-append ws (x ∷ [])))))

  -- A barrier of `n` threads that nobody has entered: the first `n - 1` arrivals wait and wake
  -- nobody, and the last arrival wakes itself and then all others in the order of their arrival,
  -- each once, and leaves the barrier as it was.
  pub barrier_round :
      (m : SyncData) (ths : List SyncThreadNode) (th : SyncThreadNode)
      → m b_id ≡ none
      → to_int32 (memory b_id 0) ≡ pos (suc (length ths))
      → ((barrier_msgs memory m b_id ths).woken ≡ [])
        × ((barrier_msgs memory m b_id (ths ++ th ∷ [])).woken ≡ th ∷ ths)
        × ((barrier_msgs memory m b_id (ths ++ th ∷ [])).table b_id
            ≡ some (new_barrier memory b_id))
  unfolding new_barrier
  barrier_round m ths th e h =
      let fresh : find_or (m b_id) (new_barrier memory b_id) ≡ waiting_for [] = rw e in
      let (quiet, _) = msgs_early (suc (length ths)) m [] ths h fresh (omega arith) in
      let (all, reset) = msgs_last (suc (length ths)) m [] ths th h fresh (omega arith) in
      (quiet, all, reset)
