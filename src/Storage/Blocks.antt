-- ===== src/Storage/Blocks.antt =====
-- `SoStorageChunkMemcached` of Dogee/DogeeMemcachedStorage.cpp, which keeps an item of memcached for each block
-- of 32 words, over a server whose calls are a parameter.
use dogee.Prelude.{
  ℕ, zero, suc, ◌+◌, ◌*◌, ◌/◌, ◌%◌, ◌<◌, ◌≤◌, ◌≡◌, ◌≢◌, List, [], ◌∷◌, Option, none, some, Bool,
  true, false, ◌&&◌, not, length, get_or, drop, ltb, ◌==◌, if◌then◌else◌, ◌⊎◌,
}
use dogee.Cache.Address.{make64}
use dogee.Cache.Node.{update}

-- An item of an answer, with its 32 words.
pub record BlockItem : Type 0 where
  pub key : ℕ
  pub value : ℕ → ℕ

abbrev pub Within : BlockItem → List BlockItem → Type 0
Within a [] = ⊥
Within a (b ∷ bs) = (a ≡ b) ⊎ Within a bs

-- The client of libmemcached, where an item holds a block.
pub record BlockMemcached : Type 1 where
  pub Server : Type 0
  pub lookup : Server → ℕ → Option (ℕ → ℕ)
  pub memcached_set : Server → ℕ → (ℕ → ℕ) → Server
  pub mget : Server → ℕ → ℕ → List BlockItem × Bool
  pub set_self : (s : Server) (k : ℕ) (v : ℕ → ℕ) → lookup (memcached_set s k v) k ≡ some v
  pub set_ne :
      (s : Server) (k : ℕ) (v : ℕ → ℕ) (j : ℕ) → j ≢ k → lookup (memcached_set s k v) j ≡ lookup s j
  pub mget_sound :
      (s : Server) (k n : ℕ) (item : BlockItem)
      → Within item (mget s k n).0
      → (k ≤ item.key) × (item.key < k + n) × (lookup s item.key ≡ some item.value)
  pub mget_complete :
      (s : Server) (k n x : ℕ) (v : ℕ → ℕ)
      → (mget s k n).1 ≡ true
      → k ≤ x
      → x < k + n
      → lookup s x ≡ some v
      → Within (record { key = x; value = v }) (mget s k n).0

-- The copies of `getblock` from the items of its answer.
unfoldable pub last_block : List BlockItem → (ℕ → ℕ) → ℕ → ℕ
last_block [] buf = buf
last_block (item ∷ items) buf = last_block items item.value

-- `k & DSM_CACHE_HIGH_MASK` and, from the first block that starts at `k` or after it, `k_start`
unfoldable pub block_start : ℕ → ℕ
block_start k = if k % 32 == 0 then k else (k / 32 * 32 + 32) % 0x1_0000_0000

-- `var[i & DSM_CACHE_LOW_MASK] = buf[idx]` from `i` to `stop`; `buf + idx` is what is left of the words,
-- which end where `i` is `k_tail`.
unfoldable pub fill : ℕ → ℕ → List ℕ → (ℕ → ℕ) → (ℕ → ℕ) × List ℕ
fill i stop [] var = (var, [])
fill i stop (v ∷ buf) var =
    let rest = fill (suc i) stop buf (update var (i % 32) v) in
    if ltb i stop then rest else (var, v ∷ buf)

unfoldable pub is_empty : List ℕ → Bool
is_empty [] = true
is_empty (v ∷ buf) = false

module _ (M : BlockMemcached) where
  open M use {Server, lookup, memcached_set, mget}

  -- `SoStorageChunkMemcached::getblock`, the block and whether its status is `SoOK`; `fetchchunk2` asks for
  -- one key.
  unfoldable pub block_at : Server → ℕ → (ℕ → ℕ) × Bool
  block_at s addr =
      let (items, success) =
        mget s (addr / 0x1_0000_0000 * 0x1_0000_0000 + addr % 0x1_0000_0000 / 32) 1 in
      (last_block items (λ y. 0), success)

  -- `SoStorageChunkMemcached::get`
  unfoldable pub chunked_get : Server → ℕ → ℕ → ℕ
  chunked_get s key fldid = (block_at s (make64 key fldid)).0 (make64 key fldid % 32)

  -- The words before the first whole block.
  unfoldable pub put_head : Server → ℕ → ℕ → List ℕ → Server × List ℕ
  put_head s key k buf =
      let (var, rest) = fill k (block_start k) buf (block_at s (make64 key k)).0 in
      if ltb k (block_start k) then (memcached_set s (make64 key (k / 32)) var, rest) else (s, buf)

  -- The loop over the whole blocks, with the `i` that it ends with.
  unfoldable pub put_whole_blocks : ℕ → Server → ℕ → ℕ → ℕ → List ℕ → Server × (ℕ × List ℕ)
  put_whole_blocks zero s key i k_end buf = (s, (i, buf))
  put_whole_blocks (suc fuel) s key i k_end buf =
      let rest =
        put_whole_blocks fuel (memcached_set s (make64 key (i / 32)) (λ y. get_or buf y 0)) key
          ((i + 32) % 0x1_0000_0000) k_end (drop 32 buf) in
      if ltb i k_end then rest else (s, (i, buf))

  -- The words behind the last whole block.
  unfoldable pub put_tail : Server → ℕ → ℕ → ℕ → ℕ → List ℕ → Server
  put_tail s key i k_end k_tail buf =
      let (var, rest) = fill i k_tail buf (block_at s (make64 key k_end)).0 in
      if not (is_empty buf) && not (k_end == k_tail)
      then memcached_set s (make64 key (k_end / 32)) var
      else s

  -- `SoStorageChunkMemcached::putchunk`; a field is a 32-bit number.
  unfoldable pub put_chunked : Server → ℕ → ℕ → List ℕ → Server
  put_chunked s key k buf =
      let k_tail = (k + length buf) % 0x1_0000_0000 in
      let k_end = k_tail / 32 * 32 in
      let (s1, buf1) = put_head s key k buf in
      let (s2, (i, buf2)) = put_whole_blocks (length buf) s1 key (block_start k) k_end buf1 in
      put_tail s2 key i k_end k_tail buf2

  -- The word at an address, 0 where there is no item.
  unfoldable pub chunked_word : Server → ℕ → ℕ
  chunked_word s x = elim (lookup s (x / 0x1_0000_0000 * 0x1_0000_0000 + x % 0x1_0000_0000 / 32)) [
    | none ↦ 0
    | some b ↦ b (x % 32)
  ]
