-- ===== src/Tests/CacheTests.antt =====
-- Concrete runs of the directory cache.
use dogee.Prelude.{
  ℕ, ◌+◌, ◌*◌, ◌/◌, ◌%◌, ◌≡◌, refl, List, [], ◌∷◌, Option, none, some, arith, ◌==◌, ltb, ◌&&◌,
  if◌then◌else◌,
}
use dogee.Cache.Backend.{flat, copy}
use dogee.Cache.Node.{Cluster, ok, update, init}
use dogee.Cache.Client.{doput, doget, oldest}
use dogee.Cache.Hits.{Readable, Stores}
use dogee.Cache.Puts.{stored, doput_lem}
use dogee.Cache.Gets.{Reads, doget_lem}
use dogee.Cache.Memory.{
  Call, reads, writes, memory_run, cache_run, start, start-Coherent, cache_refines_memory,
}
use dogee.Cache.Chunk.{putchunk, getchunk, read_words}
use dogee.Cache.PutChunk.{putchunk_lem}
use dogee.Cache.GetChunk.{getchunk_lem}
use dogee.Cache.Loss.{local_miss_loses}
use dogee.Cache.Coherent.{Coherent}
use dogee.Cache.Oldest.{IsOldest, oldest_lem}
use dogee.Cache.Sound.{Sound, Blocks}

-- The words of the store are their own addresses.
abbrev two_nodes : Cluster (ℕ → ℕ)
two_nodes = start flat 2 (λ x. x) (λ j i x. 0)

abbrev few_calls : List Call
few_calls = writes 0 0 40 7 ∷ reads 1 0 40 ∷ writes 1 0 40 8 ∷ reads 0 0 40 ∷ []

flat_readable : Readable flat
flat_readable s addr = (λ x. s (addr + x), refl)

two_nodes-Coherent : Coherent flat two_nodes
two_nodes-Coherent = start-Coherent flat 2 (λ x. x) (λ j i x. 0) (omega arith)

few_calls_outs : (memory_run (λ x. x) few_calls).1 ≡ 7 ∷ 8 ∷ []
unfolding memory_run
few_calls_outs = refl

cache_refines_memory_example :
    (cl' : Cluster (ℕ → ℕ)) × ((cache_run flat two_nodes few_calls
        ≡ ok (cl', (memory_run (λ x. x) few_calls).1))
      × (cl'.store ≡ (memory_run (λ x. x) few_calls).0))
cache_refines_memory_example =
    cache_refines_memory flat 2 (λ x. x) (λ j i x. 0) few_calls flat_readable (omega arith)
      (omega arith, (omega arith, (omega arith, (omega arith, tt)))) (omega arith)

doput_lem_example :
    (cl' : Cluster (ℕ → ℕ)) × ((doput flat two_nodes 0 40 (7 ∷ 8 ∷ []) ≡ ok cl')
      × Stores flat two_nodes cl' 40 (stored flat two_nodes 0 40 (7 ∷ 8 ∷ [])))
doput_lem_example =
    doput_lem flat two_nodes 0 40 (7 ∷ 8 ∷ []) flat_readable two_nodes-Coherent (omega arith)
      (omega arith) (unfold init in omega arith)

doget_lem_example : Reads flat two_nodes 32 (doget flat two_nodes 1 40)
doget_lem_example =
    doget_lem flat two_nodes 1 40 flat_readable two_nodes-Coherent (omega arith)
      (unfold init in omega arith)

putchunk_lem_example :
    (cl' : Cluster (ℕ → ℕ)) × ((putchunk flat two_nodes 0 0 40 (7 ∷ 8 ∷ 9 ∷ []) ≡ ok cl')
      × Coherent flat cl'
      × (cl'.store ≡ copy 40 (7 ∷ 8 ∷ 9 ∷ []) (λ x. x)))
putchunk_lem_example =
    putchunk_lem flat two_nodes 0 0 40 (7 ∷ 8 ∷ 9 ∷ []) flat_readable two_nodes-Coherent
      (omega arith) (unfold init in omega arith) (λ a le lt. omega arith)

getchunk_lem_example :
    (cl' : Cluster (ℕ → ℕ)) × ((getchunk flat two_nodes 1 0 30 3
        ≡ ok (cl', read_words (λ x. x) 30 3))
      × Coherent flat cl'
      × (cl'.store ≡ (λ x. x)))
getchunk_lem_example =
    getchunk_lem flat two_nodes 1 0 30 3 flat_readable two_nodes-Coherent (omega arith)
      (unfold init in omega arith)

local_miss_loses_example :
    (cl' : Cluster (ℕ → ℕ)) × ((doput flat two_nodes 1 40 (7 ∷ 8 ∷ []) ≡ ok cl')
      × (cl'.store ≡ update (λ x. x) 40 7))
local_miss_loses_example =
    local_miss_loses flat two_nodes 1 40 7 (8 ∷ []) flat_readable two_nodes-Coherent (omega arith)
      (omega arith) (unfold init in omega arith) (unfold init in refl) refl

-- A full cache: block `i` holds the words from `32 * i` on, and was used at the time `i`.
abbrev full_blocks : Blocks
full_blocks i = record { words = λ x. 32 * i + x; lru = i; key = if ltb i 1024 then 32 * i else 31 }

abbrev full_table : ℕ → Option ℕ
full_table k = if (k % 32 == 0) && ltb (k / 32) 1024 then some (k / 32) else none

full-Sound : Sound (λ x. x) full_blocks [] full_table 1024
full-Sound = record {
  bounded = λ k i e. ground arith;
  keyed = λ k i e. ground arith;
  aligned = λ k i e. ground arith;
  used = λ i h. ground arith;
  free = λ i h. absurd h;
  covered = λ i lt e. absurd (ground arith);
  distinct = tt;
  recent = λ i h. ground arith;
  current = λ k i x e lt. ground arith;
}

oldest_lem_example :
    (r : ℕ) × ((oldest 1024 0 full_blocks 0xffff_ffff none ≡ some r) × IsOldest 1024 full_blocks r)
oldest_lem_example = oldest_lem full-Sound (omega arith)
