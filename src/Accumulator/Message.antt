-- ===== src/Accumulator/Message.antt =====
-- The messages of the accumulator on one node (`AcAccumulateMsg` and `AcAccumulatePartialDoneMsg` of
-- Dogee/DogeeAccumulator.cpp), for one accumulator. The lock of the manager makes a message one step.
use dogee.Prelude.{
  ℕ, suc, ◌+◌, List, [], ◌∷◌, ◌++◌, Option, none, some, leb, ◌==◌, if◌then◌else◌, length, replicate,
}
use dogee.Prelude.Int.{ℤ, pos}
use dogee.Sync.Node.{SyncThreadNode}
use dogee.Accumulator.Sparse.{accumulate, Piece}

-- The buffer has `size` words; `count` nodes send their vectors.
pub record DataSyncNode : Type 0 where
  pub done_node_cnt : ℕ
  pub val : ℕ
  pub count : ℕ
  pub waitlist : List SyncThreadNode
  pub outarray : ℕ
  pub base : ℕ
  pub buf : List ℤ

-- The arguments of a call of `putchunk` of the cache
pub record ArrayChunk : Type 0 where
  pub okey : ℕ
  pub fldid : ℕ
  pub words : List ℤ

-- What a message makes a node do: the chunks that it puts into the shared array, whether it tells the
-- master that its part is done, and the threads that it wakes.
pub record Effects : Type 0 where
  pub chunks : List ArrayChunk
  pub tells : ℕ
  pub woken : List SyncThreadNode

unfoldable pub nothing : Effects
nothing = record { chunks = []; tells = 0; woken = [] }

-- `AcAccumulatePartialDoneMsg`, on the master
unfoldable pub partial_done_msg : ℕ → DataSyncNode → DataSyncNode × List SyncThreadNode
partial_done_msg nodes node =
    let n = suc node.done_node_cnt in
    if leb nodes n
    then (record node { done_node_cnt = 0; waitlist = [] }, node.waitlist)
    else (record node { done_node_cnt = n }, [])

-- All vectors have come: the part is put into the shared array, and the buffer is cleared.
unfoldable pub part_done : ℕ → ℕ → DataSyncNode → DataSyncNode × Effects
part_done nodes self node =
    let chunks : List ArrayChunk =
      if length node.buf == 0
      then []
      else record { okey = node.outarray; fldid = node.base; words = node.buf } ∷ [] in
    let cleared : DataSyncNode = record node {
      buf = replicate (length node.buf) (pos 0);
      val = 0;
    } in
    if self == 0
    then (let (node', threads) = partial_done_msg nodes cleared in
        (node', record { chunks = chunks; tells = 0; woken = threads }))
    else (cleared, record { chunks = chunks; tells = 1; woken = [] })

-- A message with a thread is the last one of its sender.
unfoldable pub thread_came : ℕ → ℕ → SyncThreadNode → DataSyncNode → DataSyncNode × Effects
thread_came nodes self th node =
    let waiting : DataSyncNode = record node {
      val = suc node.val;
      waitlist = if self == 0 then node.waitlist ++ (th ∷ []) else node.waitlist;
    } in
    if leb node.count (suc node.val) then part_done nodes self waiting else (waiting, nothing)

-- `AcAccumulateMsg`; `none` where an `assert` fails
unfoldable pub accumulate_msg :
    ℕ → ℕ → DataSyncNode → SyncThreadNode → ℕ → Piece → Option (DataSyncNode × Effects)
accumulate_msg nodes self node th offset piece = elim (accumulate piece offset node.buf node.base) [
  | none ↦ none
  | some buf ↦
      let added : DataSyncNode = record node { buf = buf } in
      some (if th.thread_id == 0 then (added, nothing) else thread_came nodes self th added)
]

-- What comes to the master: a message with data, or that another node is done with its part.
pub data Event : Type 0 where
  comes : (th : SyncThreadNode) (offset : ℕ) (piece : Piece) → Event
  is_done : Event

unfoldable pub master_step : ℕ → DataSyncNode → Event → Option (DataSyncNode × Effects)
master_step nodes node (comes th offset piece) = accumulate_msg nodes 0 node th offset piece
master_step nodes node is_done =
    let (node', threads) = partial_done_msg nodes node in
    some (node', record { chunks = []; tells = 0; woken = threads })

abbrev pub also : Effects → Effects → Effects
also now later = record {
  chunks = now.chunks ++ later.chunks;
  tells = now.tells + later.tells;
  woken = now.woken ++ later.woken;
}

-- The effects of all events, one after the other.
unfoldable pub master_run : ℕ → DataSyncNode → List Event → Option (DataSyncNode × Effects)
master_run nodes node [] = some (node, nothing)
master_run nodes node (e ∷ es) = elim (master_step nodes node e) [
  | none ↦ none
  | some now ↦ elim (master_run nodes now.0 es) [
    | none ↦ none
    | some later ↦ some (later.0, also now.1 later.1)
  ]
]
