-- ===== src/Storage/Memcached.antt =====
-- `SoStorageMemcached` of Dogee/DogeeMemcachedStorage.cpp, over a memcached server whose calls are a
-- parameter.
use dogee.Prelude.{
  ℕ, zero, suc, ◌+◌, ◌-◌, ◌*◌, ◌/◌, ◌%◌, ◌<◌, ◌≤◌, ◌≡◌, ◌≢◌, List, [], ◌∷◌, Option, none, some,
  Bool, true, false, ◌&&◌, ltb, leb, if◌then◌else◌, ◌⊎◌,
}
use dogee.Cache.Address.{make64}
use dogee.Cache.Node.{update}

-- An item of an answer.
pub record Item : Type 0 where
  pub key : ℕ
  pub value : ℕ

abbrev pub Among : Item → List Item → Type 0
Among a [] = ⊥
Among a (b ∷ bs) = (a ≡ b) ⊎ Among a bs

-- The client of libmemcached. `mget` asks for `n` keys from `k` on, and its answer has the items that
-- exist, in any order; if it fails, some may be missing.
pub record Memcached : Type 1 where
  pub Server : Type 0
  pub lookup : Server → ℕ → Option ℕ
  pub memcached_set : Server → ℕ → ℕ → Server
  pub mget : Server → ℕ → ℕ → List Item × Bool
  pub set_self : (s : Server) (k v : ℕ) → lookup (memcached_set s k v) k ≡ some v
  pub set_ne : (s : Server) (k v j : ℕ) → j ≢ k → lookup (memcached_set s k v) j ≡ lookup s j
  pub mget_sound :
      (s : Server) (k n : ℕ) (item : Item)
      → Among item (mget s k n).0
      → (k ≤ item.key) × (item.key < k + n) × (lookup s item.key ≡ some item.value)
  pub mget_complete :
      (s : Server) (k n x v : ℕ)
      → (mget s k n).1 ≡ true
      → k ≤ x
      → x < k + n
      → lookup s x ≡ some v
      → Among (record { key = x; value = v }) (mget s k n).0

-- The call that adds an item where there is none with its key, of the same client.
pub record MemcachedAdd (M : Memcached) : Type 0 where
  pub memcached_add : M.Server → ℕ → ℕ → M.Server × Bool
  pub add_self :
      (s : M.Server) (k v : ℕ) → M.lookup s k ≡ none → M.lookup (memcached_add s k v).0 k ≡ some v
  pub add_ne :
      (s : M.Server) (k v j : ℕ) → j ≢ k → M.lookup (memcached_add s k v).0 j ≡ M.lookup s j

-- `MEMCACHED_FETCH_BATCH`
abbrev pub fetch_batch : ℕ
fetch_batch = 490

-- `buf[(*pkey) - k] = *pvalue` for each item of an answer
unfoldable pub store_items : List Item → ℕ → (ℕ → ℕ) → ℕ → ℕ
store_items [] k buf = buf
store_items (item ∷ items) k buf = store_items items k (update buf (item.key - k) item.value)

-- `memset(buf + offset, 0, ...)`
unfoldable pub clear : ℕ → ℕ → (ℕ → ℕ) → ℕ → ℕ
clear offset n buf y = if leb offset y && ltb y (offset + n) then 0 else buf y

module _ (M : Memcached) where
  open M use {Server, lookup, memcached_set, mget}

  -- The loop of `MemcachedPutChunk`; a field is a 32-bit number, which wraps around within the object.
  unfoldable pub put_words : Server → ℕ → ℕ → List ℕ → Server
  put_words s key k [] = s
  put_words s key k (v ∷ buf) =
      put_words (memcached_set s (make64 key k) v) key ((k + 1) % 0x1_0000_0000) buf

  -- The loop of `MemcachedGetChunk` and the status that it is left with, which is that of the last batch;
  -- a batch has a word at least, so that `len` rounds are enough where `offset`, a 32-bit number too, does
  -- not wrap around.
  unfoldable pub get_words : ℕ → Server → ℕ → ℕ → ℕ → (ℕ → ℕ) → Bool → (ℕ → ℕ) × Bool
  get_words zero s k len offset buf ret = (buf, ret)
  get_words (suc fuel) s k len offset buf ret =
      let mylen =
        if ltb ((offset + fetch_batch) % 0x1_0000_0000) len then fetch_batch else len - offset in
      let (items, success) = mget s (k + offset) mylen in
      let rest =
        get_words fuel s k len ((offset + fetch_batch) % 0x1_0000_0000)
          (store_items items k (clear offset mylen buf)) success in
      if ltb offset len then rest else (buf, ret)

  -- `MemcachedGetChunk`; `junk` is what the status is before it is set.
  unfoldable pub get_chunk : Server → ℕ → ℕ → (ℕ → ℕ) → Bool → (ℕ → ℕ) × Bool
  get_chunk s k len buf junk = get_words len s k len 0 buf junk

  -- `SoStorageMemcached::getblock`, with the block if its status is `SoOK`
  unfoldable pub get_block : Server → ℕ → Option (ℕ → ℕ)
  get_block s id =
      let (buf, success) = get_chunk s id 32 (λ y. 0) false in if success then some buf else none

  -- `SoStorageMemcached::get`: 0 where there is no item
  unfoldable pub get_word : Server → ℕ → ℕ
  get_word s k = elim (lookup s k) [ none ↦ 0 | some v ↦ v ]

-- The key of the `ObjectInfo` of an object, `MAKE64(key, 0xFFFFFFFF)`
abbrev pub info_key : ℕ → ℕ
info_key key = make64 key 0xffff_ffff

module _ (M : Memcached) (A : MemcachedAdd M) where
  -- `SoStorageMemcached::newobj`, whether its status is `SoOK`: an item with the flag and the size, each in 32
  -- bits
  unfoldable pub new_obj : ℕ → ℕ → ℕ → M.Server → Bool × M.Server
  new_obj key flag size s =
      let (s', success) = A.memcached_add s (info_key key) (flag + size * 0x1_0000_0000) in
      (success, s')

  -- `SoStorageMemcached::getinfo`, with the flag and the size if its status is `SoOK`
  unfoldable pub get_info : M.Server → ℕ → Option (ℕ × ℕ)
  get_info s key = elim (M.lookup s (info_key key)) [
    | none ↦ none
    | some info ↦ some (info % 0x1_0000_0000, info / 0x1_0000_0000)
  ]
