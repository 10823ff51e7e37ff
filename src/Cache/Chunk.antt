-- ===== src/Cache/Chunk.antt =====
-- The calls on chunks (`putchunk` and `getchunk` of Dogee/DogeeDirectoryCache.cpp): a chunk is cut at
-- the bounds of the blocks. What `putchunk` returns as status is not modelled: it is not initialised.
use dogee.Prelude.{
  ℕ, zero, suc, ◌+◌, ◌-◌, List, [], ◌∷◌, ◌++◌, ltb, ◌==◌, if◌then◌else◌, length, take, drop, ◌≡◌,
  sym, ◌≤◌, ◌<◌, ◌%◌, ◌⊎◌, inl, inr, arith,
}
use dogee.Cache.Address.{high_mask, low_mask, make64}
use dogee.Cache.Backend.{Backend}
use dogee.Cache.Node.{Cluster, Run, ok, stopped, spins, ◌>>=◌}
use dogee.Cache.Client.{doput, doget}

-- `n` words from `off` on
unfoldable pub read_words : (ℕ → ℕ) → ℕ → ℕ → List ℕ
read_words words off zero = []
read_words words off (suc n) = words off ∷ read_words words (suc off) n

-- `k_start`: the first block that begins in the chunk or after it
abbrev pub chunk_start : ℕ → ℕ
chunk_start k = if low_mask k == 0 then k else high_mask k + 32

-- `copylen`: the words before that block
abbrev pub first_length : ℕ → ℕ → ℕ
first_length k len = if ltb (chunk_start k) (k + len) then chunk_start k - k else len

-- Where a chunk of `len` words is cut: `c` words, then whole blocks from `start` to `k_end`.
pub record Cut (k len start c k_end : ℕ) : Type 0 where
  pub short : c ≤ len
  pub inside : low_mask k + c ≤ 32
  pub aligned : start % 32 ≡ 0
  pub follows : (start ≡ k + c) ⊎ ((k_end ≤ start) × (c ≡ len))
  pub reached : k_end ≤ start + len

pub chunk-Cut : (k len : ℕ) → Cut k len (chunk_start k) (first_length k len) (high_mask (k + len))
chunk-Cut k len = record {
  short = ground arith;
  inside = ground arith;
  aligned = ground arith;
  follows = ground arith;
  reached = ground arith;
}

-- What is left after the whole blocks.
pub rest_of_Cut :
    (k len start c k_end idx : ℕ)
    → Cut k len start c k_end
    → k_end ≡ high_mask (k + len)
    → ((k_end ≤ start) × (idx ≡ c)) ⊎ (k + idx ≡ k_end)
    → (idx ≤ len) × (low_mask k_end + (len - idx) ≤ 32) × (idx < len → k_end ≡ k + idx)
rest_of_Cut k len start c k_end idx cut e (inl (le, same)) = elim cut.follows [
  | inl next ↦
      let there : k_end ≡ k + idx = omega (arith, cut.short, cut.aligned) in
      (omega (arith, cut.short), omega arith, λ lt. there)
  | inr (past, whole) ↦ (omega arith, omega arith, λ lt. absurd (omega arith))
]
rest_of_Cut k len start c k_end idx cut e (inr here) = (omega arith, omega arith, λ lt. sym here)

module _ (B : Backend) where
  open B use {Store}

  abbrev pub putblockdata : Cluster Store → ℕ → ℕ → List ℕ → Run (Cluster Store)
  putblockdata cl id k v = doput B cl id k v

  abbrev pub getblockdata : Cluster Store → ℕ → ℕ → ℕ → Run (Cluster Store × List ℕ)
  getblockdata cl id k len = do
    (cl', words) ← doget B cl id k
    ok (cl', read_words words (low_mask k) len)

  -- The loop over whole blocks, with the index that it reaches; `length v` rounds are enough.
  unfoldable pub put_blocks : ℕ → Cluster Store → ℕ → ℕ → ℕ → List ℕ → ℕ → Run (Cluster Store × ℕ)
  put_blocks zero cl id i k_end v idx = if ltb i k_end then spins else ok (cl, idx)
  put_blocks (suc n) cl id i k_end v idx =
      if ltb i k_end
      then (do
        cl' ← putblockdata cl id i (take 32 (drop idx v))
        put_blocks n cl' id (i + 32) k_end v (idx + 32))
      else ok (cl, idx)

  unfoldable pub put_first : Cluster Store → ℕ → ℕ → List ℕ → ℕ → Run (Cluster Store)
  put_first cl id k v copylen =
      if ltb 32 copylen
      then stopped
      else if copylen == 0
      then ok cl
      else putblockdata cl id k (take copylen v)

  unfoldable pub putchunk_at : Cluster Store → ℕ → ℕ → List ℕ → Run (Cluster Store)
  putchunk_at cl id k v = do
    let k_end = high_mask (k + length v)
    let copylen = first_length k (length v)
    cl1 ← put_first cl id k v copylen
    (cl2, idx) ← put_blocks (length v) cl1 id (chunk_start k) k_end v copylen
    (if ltb idx (length v) then putblockdata cl2 id k_end (drop idx v) else ok cl2)

  unfoldable pub putchunk : Cluster Store → ℕ → ℕ → ℕ → List ℕ → Run (Cluster Store)
  putchunk cl id okey fldid v = putchunk_at cl id (make64 okey fldid) v

  -- The words read so far, and the index.
  unfoldable pub get_blocks :
      ℕ → Cluster Store → ℕ → ℕ → ℕ → List ℕ → ℕ → Run (Cluster Store × List ℕ × ℕ)
  get_blocks zero cl id i k_end v idx = if ltb i k_end then spins else ok (cl, v, idx)
  get_blocks (suc n) cl id i k_end v idx =
      if ltb i k_end
      then (do
        (cl', more) ← getblockdata cl id i 32
        get_blocks n cl' id (i + 32) k_end (v ++ more) (idx + 32))
      else ok (cl, v, idx)

  unfoldable pub get_first : Cluster Store → ℕ → ℕ → ℕ → Run (Cluster Store × List ℕ)
  get_first cl id k copylen =
      if ltb 32 copylen
      then stopped
      else if copylen == 0
      then ok (cl, [])
      else getblockdata cl id k copylen

  unfoldable pub get_last : Cluster Store → ℕ → ℕ → List ℕ → ℕ → ℕ → Run (Cluster Store × List ℕ)
  get_last cl id k_end v idx len =
      if ltb idx len
      then (do (cl', more) ← getblockdata cl id k_end (len - idx); ok (cl', v ++ more))
      else ok (cl, v)

  unfoldable pub getchunk_at : Cluster Store → ℕ → ℕ → ℕ → Run (Cluster Store × List ℕ)
  getchunk_at cl id k len = do
    let k_end = high_mask (k + len)
    let copylen = first_length k len
    (cl1, v) ← get_first cl id k copylen
    (cl2, v', idx) ← get_blocks len cl1 id (chunk_start k) k_end v copylen
    get_last cl2 id k_end v' idx len

  unfoldable pub getchunk : Cluster Store → ℕ → ℕ → ℕ → ℕ → Run (Cluster Store × List ℕ)
  getchunk cl id okey fldid len = getchunk_at cl id (make64 okey fldid) len
