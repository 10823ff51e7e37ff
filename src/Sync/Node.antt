-- ===== src/Sync/Node.antt =====
-- `SyncThreadNode`, `SyncNode` and the table `sync_data` of Dogee/DogeeRemote.cpp.
use dogee.Prelude.{ℕ, ◌≡◌, ◌≢◌, Option, none, some, List, ◌==◌, if◌then◌else◌, arith}
use dogee.Prelude.Int.{ℤ}

pub record SyncThreadNode : Type 0 where
  pub machine : ℕ
  pub thread_id : ℕ

pub data Kind : Type 0 where
  barrier semaphore event : Kind

-- `waiting` is `waitlist` or `waitqueue`, which share their place; `count` is the field `data`.
pub record SyncNode : Type 0 where
  pub kind : Kind
  pub val : ℤ
  pub count : ℤ
  pub waiting : List SyncThreadNode

abbrev pub SyncData : Type 0
SyncData = ℕ → Option SyncNode

-- `sync_data[k] = node`
abbrev pub store : SyncData → ℕ → SyncNode → SyncData
store m k node j = if j == k then some node else m j

-- `sync_data.find(k)`, and the node that the handler makes if there is none
abbrev pub find_or : Option SyncNode → SyncNode → SyncNode
find_or none fresh = fresh
find_or (some node) fresh = node

-- The words of an object, as `DogeeEnv::cache->get(id, field)` reads them.
abbrev pub Memory : Type 0
Memory = ℕ → ℕ → ℕ

-- A handler leaves a table, and the calls of `RcWakeRemoteThread` that it made, in order.
pub record Handled : Type 0 where
  pub table : SyncData
  pub woken : List SyncThreadNode

pub store_self : (m : SyncData) (k : ℕ) (node : SyncNode) → store m k node k ≡ some node
store_self m k node = ground arith

pub store_ne : (m : SyncData) (k j : ℕ) (node : SyncNode) → j ≢ k → store m k node j ≡ m j
store_ne m k j node h = ground arith
