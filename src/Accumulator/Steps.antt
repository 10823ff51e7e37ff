-- ===== src/Accumulator/Steps.antt =====
-- The steps of the master in a round of an accumulator (Dogee/DogeeAccumulator.cpp), and what a round
-- consists of.
use mathlib.Core.List.{append-nil}
use dogee.Prelude.{
  ℕ, suc, ◌+◌, ◌<◌, ◌≤◌, ◌≡◌, refl, List, [], ◌∷◌, ◌++◌, Option, none, some, arith, true, false,
  leb, ◌==◌, if◌then◌else◌, length, replicate, Bool-cases, inl, inr,
}
use dogee.Prelude.Int.{ℤ, pos}
use dogee.Sync.Node.{SyncThreadNode}
use dogee.Accumulator.Sparse.{accumulate, Piece}
use dogee.Accumulator.Message.{
  DataSyncNode, ArrayChunk, Effects, nothing, partial_done_msg, part_done, thread_came,
  accumulate_msg, Event, comes, is_done, master_step, master_run, also,
}

-- The threads of the last messages, in their order, and how many nodes are done.
unfoldable pub threads : List Event → List SyncThreadNode
threads [] = []
threads (comes th offset piece ∷ es) = if th.thread_id == 0 then threads es else th ∷ threads es
threads (is_done ∷ es) = threads es

unfoldable pub dones : List Event → ℕ
dones [] = 0
dones (comes th offset piece ∷ es) = dones es
dones (is_done ∷ es) = suc (dones es)

-- A sender sends its last message after all others.
abbrev pub LastIsLast : List Event → Type 0
LastIsLast [] = Unit {0}
LastIsLast (comes th offset piece ∷ es) =
    ((th.thread_id ≡ 0) → 0 < length (threads es)) × LastIsLast es
LastIsLast (is_done ∷ es) = LastIsLast es

-- The buffer after all pieces were added to it.
unfoldable pub sum : List Event → List ℤ → ℕ → Option (List ℤ)
sum [] buf base = some buf
sum (comes th offset piece ∷ es) buf base = elim (accumulate piece offset buf base) [
  | none ↦ none
  | some buf' ↦ sum es buf' base
]
sum (is_done ∷ es) buf base = sum es buf base

-- Nothing is left to come.
pub over : (es : List Event) → LastIsLast es → length (threads es) ≡ 0 → dones es ≡ 0 → es ≡ []
unfolding threads dones
over [] h a b = refl
over (comes th offset piece ∷ es) h a b = elim (Bool-cases (th.thread_id == 0)) [
  | inl t ↦ absurd (omega (arith, h.0 (ground arith), rw t at a))
  | inr t ↦ absurd (omega (arith, rw t at a))
]
over (is_done ∷ es) h a b = absurd (omega (arith, b))

pub master_run-cons :
    (nodes : ℕ) (node : DataSyncNode) (e : Event) (es : List Event)
    (now later : DataSyncNode × Effects)
    → master_step nodes node e ≡ some now
    → master_run nodes now.0 es ≡ some later
    → master_run nodes node (e ∷ es) ≡ some (later.0, also now.1 later.1)
unfolding master_run
master_run-cons nodes node e es now later a b = rw (a, master_run, b) refl

module _ (nodes : ℕ) (node : DataSyncNode) where
  pub step_done_waits :
      suc node.done_node_cnt < nodes
      → master_step nodes node is_done
        ≡ some (record node { done_node_cnt = suc node.done_node_cnt }, nothing)
  unfolding master_step partial_done_msg nothing
  step_done_waits h = let t : leb nodes (suc node.done_node_cnt) ≡ false = ground arith in rw t refl

  pub step_done_wakes :
      nodes ≤ suc node.done_node_cnt
      → master_step nodes node is_done
        ≡ some (
          record node { done_node_cnt = 0; waitlist = [] },
          record { chunks = []; tells = 0; woken = node.waitlist },
        )
  unfolding master_step partial_done_msg
  step_done_wakes h = let t : leb nodes (suc node.done_node_cnt) ≡ true = ground arith in rw t refl

  module _ (th : SyncThreadNode) (offset : ℕ) (piece : Piece) (buf : List ℤ)
      (adds : accumulate piece offset node.buf node.base ≡ some buf) where
    pub step_adds :
        (th.thread_id == 0) ≡ true
        → master_step nodes node (comes th offset piece) ≡ some (record node { buf = buf }, nothing)
    unfolding master_step accumulate_msg
    step_adds t = rw (adds, accumulate_msg, t) refl

    pub step_waits :
        (th.thread_id == 0) ≡ false
        → suc node.val < node.count
        → master_step nodes node (comes th offset piece)
          ≡ some (
            record node { buf = buf; val = suc node.val; waitlist = node.waitlist ++ (th ∷ []) },
            nothing,
          )
    unfolding master_step accumulate_msg thread_came
    step_waits t h =
        let u : leb node.count (suc node.val) ≡ false = ground arith in
        rw (adds, accumulate_msg, t, u) refl

    pub step_fills :
        (th.thread_id == 0) ≡ false
        → node.count ≤ suc node.val
        → master_step nodes node (comes th offset piece)
          ≡ some (
              part_done nodes 0 (record node {
                buf = buf;
                val = suc node.val;
                waitlist = node.waitlist ++ (th ∷ []);
              }))
    unfolding master_step accumulate_msg thread_came
    step_fills t h =
        let u : leb node.count (suc node.val) ≡ true = ground arith in
        rw (adds, accumulate_msg, t, u) refl

-- The node after the round.
abbrev pub reset : DataSyncNode → List ℤ → DataSyncNode
reset node buf = record node {
  done_node_cnt = 0;
  val = 0;
  waitlist = [];
  buf = replicate (length buf) (pos 0);
}

abbrev pub the_wake : List SyncThreadNode → Effects
the_wake ths = record { chunks = []; tells = 0; woken = ths }

-- The chunk that the node puts into the shared array, at the start of its part; a node without a part puts nothing.
abbrev pub chunk_of : DataSyncNode → List ℤ → List ArrayChunk
chunk_of node buf =
    if length buf == 0
    then []
    else record { okey = node.outarray; fldid = node.base; words = buf } ∷ []

module _ (nodes : ℕ) (node : DataSyncNode) where
  pub part_wakes :
      nodes ≤ suc node.done_node_cnt
      → part_done nodes 0 node ≡ (
        reset node node.buf,
        record { chunks = chunk_of node node.buf; tells = 0; woken = node.waitlist },
      )
  unfolding part_done partial_done_msg
  part_wakes h = let t : leb nodes (suc node.done_node_cnt) ≡ true = ground arith in rw t refl

  pub part_waits :
      suc node.done_node_cnt < nodes
      → part_done nodes 0 node ≡ (
        record node {
          done_node_cnt = suc node.done_node_cnt;
          val = 0;
          buf = replicate (length node.buf) (pos 0);
        },
        record { chunks = chunk_of node node.buf; tells = 0; woken = [] },
      )
  unfolding part_done partial_done_msg
  part_waits h = let t : leb nodes (suc node.done_node_cnt) ≡ false = ground arith in rw t refl

-- The effects of the round.
abbrev pub round_effects : DataSyncNode → List ℤ → List SyncThreadNode → Effects
round_effects node total ths = record { chunks = chunk_of node total; tells = 0; woken = ths }

pub also-nothing :
    (e : Effects)
    → also e nothing ≡ record { chunks = e.chunks; tells = e.tells + 0; woken = e.woken }
unfolding nothing
also-nothing e = rw ((append-nil e.chunks), (append-nil e.woken)) refl
