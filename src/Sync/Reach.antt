-- ===== src/Sync/Reach.antt =====
-- The states that the master of Dogee/DogeeRemote.cpp can reach, whatever the order in which the
-- messages of the nodes are handled.
use dogee.Prelude.{
  ℕ, ◌≡◌, inl, inr, Option, some, arith, ◌==◌, Bool-cases, Option-cases, ==_iff, sym, subst,
}
use mathlib.Core.Path.{subst₂}
use dogee.Prelude.Int.{neg_part, to_int32}
use mathlib.Core.Option.{some-injective}
use dogee.Sync.Node.{
  SyncThreadNode, SyncNode, SyncData, Memory, Kind, barrier, semaphore, event, store, find_or,
  Handled,
}
use dogee.Sync.Barrier
use dogee.Sync.Barrier.{new_barrier, arrive, barrier_msg, arrive-IsValid, new_barrier-IsValid}
use dogee.Sync.Semaphore
use dogee.Sync.Semaphore.{
  new_semaphore, enter, leave, new_semaphore-Covers, enter-Covers, leave-Covers, semaphore_msg,
  semaphore_leave_msg,
}
use dogee.Sync.Event
use dogee.Sync.Event.{
  new_event-IsValid, event_wait-IsValid, set_event-IsValid, reset_event-IsValid, new_event,
  create_event_node, event_wait, event_wait_msg, set_event_msg, reset_event_msg,
}
use dogee.Sync.Master.{
  Request, enter_barrier, enter_semaphore, leave_semaphore, wait_for_event, SyncManager, Outcome,
  request, init, handle, set_event, reset_event, outcome, request_lem,
}

-- What holds of a node of each kind.
abbrev pub NodeIsValid : Kind → SyncNode → Type 0
NodeIsValid barrier node = Barrier.IsValid node
NodeIsValid semaphore node = Semaphore.Covers node
NodeIsValid event node = Event.IsValid node

-- The class of the object that a request is for.
abbrev pub wants : Request → Kind
wants enter_barrier = barrier
wants enter_semaphore = semaphore
wants leave_semaphore = semaphore
wants wait_for_event = event
wants _ = event

-- Semaphores are made with a count that is not negative.
abbrev pub CountsAreValid : (ℕ → Kind) → Memory → Type 0
CountsAreValid kinds memory = (k : ℕ) → kinds k ≡ semaphore → neg_part (to_int32 (memory k 0)) ≡ 0

fresh : Memory → ℕ → Kind → SyncNode
fresh memory k barrier = new_barrier memory k
fresh memory k semaphore = new_semaphore memory k
fresh memory k event = new_event memory k

module _ (kinds : ℕ → Kind) where
  pub TableIsValid : SyncData → Type 0
  TableIsValid m = (k : ℕ) (node : SyncNode) → m k ≡ some node → NodeIsValid (kinds k) node

  -- One request of a thread on some node, for an object of the right class.
  pub data Step : SyncManager → SyncManager → Type 0 where
    handles :
        (memory : Memory) (now i : ℕ) (r : Request) (okey tid junk : ℕ) {sm : SyncManager}
        {out : Outcome}
        → CountsAreValid kinds memory
        → kinds okey ≡ wants r
        → request memory now sm i r okey tid junk ≡ some out
        → Step sm out.manager

  pub data Reach (s : SyncManager) : SyncManager → Type 0 where
    here : Reach s s
    next : {t u : SyncManager} → Reach s t → Step t u → Reach s u

  store-TableIsValid :
      (m : SyncData) (k : ℕ) (node : SyncNode)
      → TableIsValid m
      → NodeIsValid (kinds k) node
      → TableIsValid (store m k node)
  unfolding TableIsValid
  store-TableIsValid m k node v h j n e = elim (Bool-cases (j == k)) [
    | inl same ↦
        subst₂ (λ i (a : SyncNode). NodeIsValid (kinds i) a) (sym ((==_iff j k).0 same))
          (ground arith) h
    | inr other ↦ v j n (rw other at e)
  ]

  -- A handler that works on one node, found or new.
  update-TableIsValid :
      (m : SyncData) (k : ℕ) (K : Kind) (new : SyncNode) (f : SyncNode → SyncNode)
      → kinds k ≡ K
      → TableIsValid m
      → NodeIsValid K new
      → ((node : SyncNode) → NodeIsValid K node → NodeIsValid K (f node))
      → TableIsValid (store m k (f (find_or (m k) new)))
  update-TableIsValid m k K new f e v h keep =
      store-TableIsValid m k (f (find_or (m k) new)) v (rw e (keep (find_or (m k) new) found))
    where
      found : NodeIsValid K (find_or (m k) new)
      found =
          unfold TableIsValid in
          elim (Option-cases (m k)) [
            | inl none_yet ↦ rw none_yet h
            | inr (node, there) ↦ rw there (subst (λ K'. NodeIsValid K' node) e (v k node there))
          ]

  done-TableIsValid :
      (a h : Handled) → some a ≡ some h → TableIsValid a.table → TableIsValid h.table
  done-TableIsValid a h e = subst (λ (b : Handled). TableIsValid b.table) (some-injective a h e)

  leave-TableIsValid :
      (m : SyncData) (k : ℕ) (h : Handled)
      → kinds k ≡ semaphore
      → TableIsValid m
      → semaphore_leave_msg m k ≡ some h
      → TableIsValid h.table
  unfolding semaphore_leave_msg
  leave-TableIsValid m k h e v done = elim (Option-cases (m k)) [
    | inl none_yet ↦ absurd (ground arith)
    | inr (node, there) ↦
        done-TableIsValid (record { table = store m k (leave node).0; woken = (leave node).1 }) h
          (rw (there, semaphore_leave_msg) at done)
          (store-TableIsValid m k (leave node).0 v (
            subst (λ K. NodeIsValid K (leave node).0) (sym e)
              (leave-Covers node
                (subst (λ K. NodeIsValid K node) e (unfold TableIsValid in v k node there)))))
  ]

  handle-TableIsValid :
      (memory : Memory) (m : SyncData) (r : Request) (okey : ℕ) (th : SyncThreadNode) (h : Handled)
      → CountsAreValid kinds memory
      → kinds okey ≡ wants r
      → TableIsValid m
      → handle memory m r okey th ≡ some h
      → TableIsValid h.table
  unfolding handle barrier_msg semaphore_msg event_wait_msg set_event_msg reset_event_msg
  handle-TableIsValid memory m enter_barrier okey th h c e v done =
      done-TableIsValid (barrier_msg memory m th okey) h done (
        update-TableIsValid m okey barrier (new_barrier memory okey) (λ n. (arrive n th).0) e v
          (new_barrier-IsValid memory okey) (λ n. arrive-IsValid n th))
  handle-TableIsValid memory m enter_semaphore okey th h c e v done =
      done-TableIsValid (semaphore_msg memory m th okey) h done (
        update-TableIsValid m okey semaphore (new_semaphore memory okey) (λ n. (enter n th).0) e v
          (new_semaphore-Covers memory okey (c okey e)) (λ n. enter-Covers n th))
  handle-TableIsValid memory m leave_semaphore okey th h c e v done =
      leave-TableIsValid m okey h e v done
  handle-TableIsValid memory m wait_for_event okey th h c e v done =
      done-TableIsValid (event_wait_msg memory m th okey) h done (
        update-TableIsValid m okey event (new_event memory okey) (λ n. (event_wait n th).0) e v
          (new_event-IsValid memory okey) (λ n. event_wait-IsValid n th))
  handle-TableIsValid memory m set_event okey th h c e v done =
      done-TableIsValid (set_event_msg memory m okey) h done (
        update-TableIsValid m okey event (new_event memory okey) (λ n. (Event.set_event n).0) e v
          (new_event-IsValid memory okey) (λ n _. set_event-IsValid n))
  handle-TableIsValid memory m reset_event okey th h c e v done =
      done-TableIsValid (reset_event_msg memory m okey) h done (
        update-TableIsValid m okey event (new_event memory okey) Event.reset_event e v
          (new_event-IsValid memory okey) (λ n _. reset_event-IsValid n))

  Step-TableIsValid :
      {s t : SyncManager} → Step s t → TableIsValid s.sync_data → TableIsValid t.sync_data
  Step-TableIsValid (handles memory now i r okey tid junk {sm} {out} c e done) v =
      elim (Option-cases result) [
        | inl fault ↦ absurd (ground (arith, request_lem memory now sm i r okey tid junk))
        | inr (h, good) ↦
            subst (λ (o : Outcome). TableIsValid o.manager.sync_data) {x = outcome sm h} {y = out}
              (ground (arith, request_lem memory now sm i r okey tid junk))
              (handle-TableIsValid memory sm.sync_data r okey th h c e v good)
      ]
    where
      th : SyncThreadNode
      th = record { machine = i; thread_id = tid }

      result : Option Handled
      result = handle memory sm.sync_data r okey th

  -- Whatever requests the threads of all nodes make, in any order, the count of every barrier is the
  -- number of threads that wait at it and falls short of its total, the waiting threads of every
  -- semaphore cover the permits that its count is short of, and nobody waits for a signalled event.
  pub Reach-TableIsValid :
      (now : ℕ) {sm : SyncManager} → Reach (init now) sm → TableIsValid sm.sync_data
  unfolding TableIsValid init
  Reach-TableIsValid now here = λ k node e. absurd (cc)
  Reach-TableIsValid now (next r st) = Step-TableIsValid st (Reach-TableIsValid now r)
