-- ===== src/Storage/Words.antt =====
-- `SoStorageMemcached` of Dogee/DogeeMemcachedStorage.cpp is a store of words, and fills the interface
-- that the directory cache uses.
use mathlib.Core.Path.{fun_ext}
use mathlib.Core.Option.{some-injective}
use native.Mathlib.Decide.{ℕ_discrete}
use dogee.Prelude.{
  ℕ, zero, suc, ◌+◌, ◌-◌, ◌/◌, ◌%◌, ◌<◌, ◌≤◌, ◌≡◌, refl, sym, ap, ◌∙◌, List, [], ◌∷◌, none, some,
  Bool, true, ltb, if◌then◌else◌, ◌⊎◌, inl, inr, arith, Bool-cases, length,
}
use dogee.Cache.Address.{make64}
use dogee.Cache.Backend.{Backend, copy}
use dogee.Cache.Hits.{Readable}
use dogee.Cache.Node.{ok, Cluster, update}
use dogee.Cache.Sound.{update_self, update_ne}
use dogee.Cache.Memory.{Call, AllIn, memory_run, cache_run, start, cache_refines_memory}
use dogee.Storage.Memcached.{
  Memcached, store_items, clear, put_words, get_words, get_chunk, get_block, get_word,
}
use dogee.Storage.Fetch.{batch, word_found, word_same}

no_block : {b : ℕ → ℕ} → none ≡ some b → ⊥
no_block e = ground (arith, e)

-- The words of a chunk are written one after the other.
pub copy-cons :
    (a v : ℕ) (vs : List ℕ) (w : ℕ → ℕ) (x : ℕ)
    → copy (suc a) vs (update w a v) x ≡ copy a (v ∷ vs) w x
unfolding copy
copy-cons a v vs w x = elim (ℕ_discrete x a) [
  | yes e ↦ let z : x - a ≡ 0 = omega arith in rw z (ground arith)
  | no other ↦ elim (ℕ_discrete (x - a) (suc (x - suc a))) [
    | yes e ↦ rw e (ground arith)
    | no below ↦ ground arith
  ]
]

module _ (M : Memcached) where
  open M use {Server, lookup, memcached_set, mget}

  word-memcached_set :
      (s : Server) (k v : ℕ) → get_word M (memcached_set s k v) ≡ update (get_word M s) k v
  word-memcached_set s k v = fun_ext λ x. elim (ℕ_discrete x k) [
    | yes e ↦
        word_found M (memcached_set s k v) x v
          (ap (lookup (memcached_set s k v)) e ∙ M.set_self s k v)
        ∙ sym (ap (update (get_word M s) k v) e ∙ update_self (get_word M s) k v)
    | no other ↦
        word_same M (memcached_set s k v) s x (M.set_ne s k v x other)
        ∙ sym (update_ne (get_word M s) k x v other)
  ]

  -- A chunk that does not wrap around is written as a whole, and nothing else.
  put_words_at :
      (s : Server) (key i k : ℕ) (buf : List ℕ) (x : ℕ)
      → (0 < length buf → i ≡ k)
      → k + length buf ≤ 0x1_0000_0000
      → get_word M (put_words M s key i buf) x ≡ copy (make64 key k) buf (get_word M s) x
  unfolding put_words
  put_words_at s key i k [] x at fits = unfold copy in ground arith
  put_words_at s key i k (v ∷ buf) x at fits =
      let here : i ≡ k = at (omega arith) in
      let next : make64 key (suc k) ≡ suc (make64 key k) = omega arith in
      put_words_at (memcached_set s (make64 key i) v) key ((i + 1) % 0x1_0000_0000) (suc k) buf x
        (λ more. omega arith) (omega arith)
      ∙ ap (λ w. copy (make64 key (suc k)) buf w x) (word-memcached_set s (make64 key i) v)
      ∙ ap (λ c. copy (make64 key (suc k)) buf (update (get_word M s) (make64 key c) v) x) here
      ∙ ap (λ a. copy a buf (update (get_word M s) (make64 key k) v) x) next
      ∙ copy-cons (make64 key k) v buf (get_word M s) x

  pub put_words_lem :
      (s : Server) (key k : ℕ) (buf : List ℕ) (x : ℕ)
      → k + length buf ≤ 0x1_0000_0000
      → get_word M (put_words M s key k buf) x ≡ copy (make64 key k) buf (get_word M s) x
  put_words_lem s key k buf x fits = put_words_at s key k k buf x (λ more. refl) fits

  get_words_lem :
      (fuel : ℕ) (s : Server) (k len offset : ℕ) (buf : ℕ → ℕ) (ret : Bool) (y : ℕ)
      → ((j n : ℕ) → (mget s j n).1 ≡ true)
      → len ≤ offset + fuel
      → len + 490 ≤ 0x1_0000_0000
      → (offset ≤ y
          → y < len
          → (get_words M fuel s k len offset buf ret).0 y ≡ get_word M s (k + y))
        × ((y < offset) ⊎ (len ≤ y) → (get_words M fuel s k len offset buf ret).0 y ≡ buf y)
  unfolding get_words
  get_words_lem zero s k len offset buf ret y up enough small =
      (λ lo hi. absurd (omega arith), λ out. refl)
  get_words_lem (suc fuel) s k len offset buf ret y up enough small =
      elim (Bool-cases (ltb offset len)) [
        | inl t ↦
            let step : (offset + 490) % 0x1_0000_0000 ≡ offset + 490 = ground arith in
            let mylen = if ltb (offset + 490) len then 490 else len - offset in
            let some_words : 0 < mylen = ground arith in
            let buf' = store_items (mget s (k + offset) mylen).0 k (clear offset mylen buf) in
            let success = (mget s (k + offset) mylen).1 in
            let (now_in, now_out) = batch M s k offset mylen y buf (up (k + offset) mylen) in
            let (later_in, later_out) =
              get_words_lem fuel s k len (offset + 490) buf' success y up (omega arith) small in
            rw (t, step)
              (
                λ lo hi. elim (Bool-cases (ltb y (offset + 490))) [
                  | inl before ↦ later_out (inl (ground arith)) ∙ now_in lo (ground arith)
                  | inr after ↦ later_in (ground arith) hi
                ],
                λ out. later_out (ground (arith, out)) ∙ now_out (ground (arith, out)),
              )
        | inr t ↦ rw t (λ lo hi. absurd (ground arith), λ out. refl)
      ]

  -- `MemcachedGetChunk` over any number of batches fills the buffer with the words of the server and
  -- writes nothing beyond its end, if no request fails and the buffer has at most 2 ^ 32 - 490 words.
  pub get_chunk_lem :
      (s : Server) (k len : ℕ) (buf : ℕ → ℕ) (junk : Bool) (y : ℕ)
      → ((j n : ℕ) → (mget s j n).1 ≡ true)
      → len + 490 ≤ 0x1_0000_0000
      → (y < len → (get_chunk M s k len buf junk).0 y ≡ get_word M s (k + y))
        × (len ≤ y → (get_chunk M s k len buf junk).0 y ≡ buf y)
  unfolding get_chunk
  get_chunk_lem s k len buf junk y up small =
      let (a, b) = get_words_lem len s k len 0 buf junk y up (omega arith) small in
      (λ lt. a (omega arith) lt, λ le. b (inr le))

  pub one_batch :
      (s : Server) (id : ℕ)
      → get_block M s id ≡ (
          if (mget s (id + 0) 32).1
          then some (store_items (mget s (id + 0) 32).0 id (clear 0 32 (λ y. 0)))
          else none)
  unfolding get_block get_chunk get_words
  one_batch s id = refl

  -- A block that `getblock` returns with the status `SoOK` has the words of the server.
  pub get_block_lem :
      (s : Server) (id : ℕ) (b : ℕ → ℕ) (x : ℕ)
      → get_block M s id ≡ some b
      → x < 32
      → b x ≡ get_word M s (id + x)
  get_block_lem s id b x e lt =
      let e' = sym (one_batch s id) ∙ e in
      elim (Bool-cases (mget s (id + 0) 32).1) [
        | inl t ↦
            let same = some-injective _ _ (rw t at e') in
            ap (λ (f : ℕ → ℕ). f x) (sym same)
            ∙ (batch M s id 0 32 x (λ y. 0) t).0 (omega arith) (omega arith)
        | inr t ↦ absurd (no_block (rw t at e'))
      ]

  -- Above and below 2 ^ 32: the object and the field of an address.
  pub put_address_lem :
      (s : Server) (addr : ℕ) (v : List ℕ) (x : ℕ)
      → addr % 32 + length v ≤ 32
      → get_word M (put_words M s (addr / 0x1_0000_0000) (addr % 0x1_0000_0000) v) x
        ≡ copy addr v (get_word M s) x
  put_address_lem s addr v x fits =
      let e : make64 (addr / 0x1_0000_0000) (addr % 0x1_0000_0000) ≡ addr = omega arith in
      put_words_lem s (addr / 0x1_0000_0000) (addr % 0x1_0000_0000) v x (omega arith)
      ∙ ap (λ a. copy a v (get_word M s) x) e

-- The storage as the cache calls it: `putchunk(addr >> 32, addr & 0xffffffff, len, v)` and `getblock`.
abbrev pub words_backend : Memcached → Backend
words_backend M = record {
  Store = M.Server;
  putchunk = λ s addr v. put_words M s (addr / 0x1_0000_0000) (addr % 0x1_0000_0000) v;
  getblock = get_block M;
  word = get_word M;
  word-putchunk = put_address_lem M;
  getblock-word = get_block_lem M;
}

get_block-up :
    (M : Memcached)
    → ((s : M.Server) (k n : ℕ) → (M.mget s k n).1 ≡ true)
    → Readable (words_backend M)
get_block-up M up s addr = (
  store_items (M.mget s (addr + 0) 32).0 addr (clear 0 32 (λ y. 0)),
  one_batch M s addr ∙ rw (up s (addr + 0) 32) refl,
)

-- The cluster of directory caches over memcached is one memory: any sequence of single-word reads and
-- writes by its nodes returns what a memory with the words of the server returns, and leaves the same
-- words in the server, if no request to memcached fails, there are at most 64 nodes, the renewals of a call
-- arrive before the next call begins, and there are fewer calls than the clock has values.
pub cached_memcached_refines_memory :
    (M : Memcached) (caches : ℕ) (s : M.Server) (junk : ℕ → ℕ → ℕ → ℕ) (calls : List Call)
    → ((s' : M.Server) (k n : ℕ) → (M.mget s' k n).1 ≡ true)
    → caches ≤ 64
    → AllIn caches calls
    → length calls ≤ 0xffff_ffff
    → (cl' : Cluster M.Server) × ((cache_run
            (words_backend M)
            (start (words_backend M) caches s junk)
            calls
          ≡ ok (cl', (memory_run (get_word M s) calls).1))
        × (get_word M cl'.store ≡ (memory_run (get_word M s) calls).0))
cached_memcached_refines_memory M caches s junk calls up few members small =
    cache_refines_memory (words_backend M) caches s junk calls (get_block-up M up) few members small
