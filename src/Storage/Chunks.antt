-- ===== src/Storage/Chunks.antt =====
-- What `putchunk` and `getblock` of `SoStorageChunkMemcached` (Dogee/DogeeMemcachedStorage.cpp) do to the words.
use mathlib.Core.Option.{some-injective}
use dogee.Prelude.{
  ℕ, ◌+◌, ◌-◌, ◌*◌, ◌/◌, ◌%◌, ◌<◌, ◌≤◌, ◌≡◌, refl, sym, ap, ◌∙◌, List, [], ◌∷◌, Option, none, some,
  true, Option-cases, length, ◌⊎◌, inl, inr, arith,
}
use dogee.Cache.Address.{make64}
use dogee.Cache.Backend.{copy}
use dogee.Storage.Blocks.{BlockItem, Within, BlockMemcached, last_block, block_at, chunked_word}
use dogee.Storage.ChunkWords.{copy_shift}

module _ (M : BlockMemcached) where
  open M use {Server, lookup, memcached_set, mget}

  word_of :
      (s : Server) (x k : ℕ)
      → x / 0x1_0000_0000 * 0x1_0000_0000 + x % 0x1_0000_0000 / 32 ≡ k
      → chunked_word M s x ≡ (elim (lookup s k) as (λ o. ℕ) [ none ↦ 0 | some b ↦ b (x % 32) ])
  unfolding chunked_word
  word_of s x k e = ap (λ i. elim (lookup s i) as (λ o. ℕ) [ none ↦ 0 | some b ↦ b (x % 32) ]) e

  set_inside :
      (s : Server) (key b y : ℕ) (var : ℕ → ℕ)
      → b < 0x800_0000
      → y < 32
      → chunked_word M (memcached_set s (make64 key b) var) (make64 key (b * 32) + y) ≡ var y
  set_inside s key b y var small lt =
      let low : (make64 key (b * 32) + y) % 32 ≡ y = omega arith in
      word_of (memcached_set s (make64 key b) var) (make64 key (b * 32) + y) (make64 key b)
        (omega arith)
      ∙ ap
          (λ (o : Option (ℕ → ℕ)). elim o as (λ o. ℕ) [
            | none ↦ 0
            | some b' ↦ b' ((make64 key (b * 32) + y) % 32)
          ])
          (M.set_self s (make64 key b) var)
      ∙ ap var low

  set_outside :
      (s : Server) (key b x : ℕ) (var : ℕ → ℕ)
      → b < 0x800_0000
      → (x < make64 key (b * 32)) ⊎ (make64 key (b * 32) + 32 ≤ x)
      → chunked_word M (memcached_set s (make64 key b) var) x ≡ chunked_word M s x
  set_outside s key b x var small out =
      let k = x / 0x1_0000_0000 * 0x1_0000_0000 + x % 0x1_0000_0000 / 32 in
      word_of (memcached_set s (make64 key b) var) x k refl
      ∙ ap (λ (o : Option (ℕ → ℕ)). elim o as (λ o. ℕ) [ none ↦ 0 | some b' ↦ b' (x % 32) ])
          (M.set_ne s (make64 key b) var k (λ e. ground (arith, out)))
      ∙ sym (word_of s x k refl)

  -- A block whose words `v` from `off` on are new is written.
  pub set_block :
      (s : Server) (key b off : ℕ) (v : List ℕ) (var : ℕ → ℕ) (x : ℕ)
      → b < 0x800_0000
      → off + length v ≤ 32
      → ((y : ℕ) → y < 32 → var y ≡ copy off v (λ z. chunked_word M s (make64 key (b * 32) + z)) y)
      → chunked_word M (memcached_set s (make64 key b) var) x
        ≡ copy (make64 key (b * 32) + off) v (chunked_word M s) x
  set_block s key b off v var x small fits new =
      let a = make64 key (b * 32) in
      elim (where_is x a) [
        | inl (le, lt) ↦
            let e : a + (x - a) ≡ x = omega arith in
            ap (chunked_word M (memcached_set s (make64 key b) var)) (sym e)
            ∙ set_inside s key b (x - a) var small (omega arith)
            ∙ new (x - a) (omega arith)
            ∙ copy_shift a off v (chunked_word M s) (x - a)
            ∙ ap (copy (a + off) v (chunked_word M s)) e
        | inr out ↦ set_outside s key b x var small out ∙ unfold copy in ground (arith, out)
      ]
    where
      where_is : (p q : ℕ) → ((q ≤ p) × (p < q + 32)) ⊎ ((p < q) ⊎ (q + 32 ≤ p))
      where_is p q = ground arith

  last_block_some :
      (items : List BlockItem) (buf v : ℕ → ℕ)
      → ((item : BlockItem) → Within item items → item.value ≡ v)
      → (buf ≡ v) ⊎ ((item : BlockItem) × Within item items)
      → last_block items buf ≡ v
  unfolding last_block
  last_block_some [] buf v all (inl e) = e
  last_block_some [] buf v all (inr (item, w)) = absurd w
  last_block_some (item ∷ items) buf v all h =
      last_block_some items item.value v (λ i w. all i (inr w)) (inl (all item (inl refl)))

  last_block_none :
      (items : List BlockItem) (buf : ℕ → ℕ)
      → ((item : BlockItem) → Within item items → ⊥)
      → last_block items buf ≡ buf
  unfolding last_block
  last_block_none [] buf none_in = refl
  last_block_none (item ∷ items) buf none_in = absurd (none_in item (inl refl))

  -- The block of the answer of memcached, if no request fails.
  block_read :
      (s : Server) (k : ℕ)
      → (mget s k 1).1 ≡ true
      → last_block (mget s k 1).0 (λ y. 0)
        ≡ (elim (lookup s k) as (λ o. ℕ → ℕ) [ none ↦ λ y. 0 | some b ↦ b ])
  block_read s k up = elim (Option-cases (lookup s k)) [
    | inl missing ↦
        last_block_none (mget s k 1).0 (λ y. 0)
          (λ item w.
            let (l, u, found) = M.mget_sound s k 1 item w in
            let here : item.key ≡ k = omega arith in
            let bad = sym found ∙ ap (lookup s) here ∙ missing in ground (arith, bad))
        ∙ ap (λ (o : Option (ℕ → ℕ)). elim o as (λ o. ℕ → ℕ) [ none ↦ λ y. 0 | some b ↦ b ])
            (sym missing)
    | inr (v, there) ↦
        last_block_some (mget s k 1).0 (λ y. 0) v
          (λ item w.
            let (l, u, found) = M.mget_sound s k 1 item w in
            let here : item.key ≡ k = omega arith in
            some-injective _ _ (sym found ∙ ap (lookup s) here ∙ there))
          (inr (
            record { key = k; value = v },
            M.mget_complete s k 1 k v up (omega arith) (omega arith) there,
          ))
        ∙ ap (λ (o : Option (ℕ → ℕ)). elim o as (λ o. ℕ → ℕ) [ none ↦ λ y. 0 | some b ↦ b ])
            (sym there)
  ]

  block_value :
      (o : Option (ℕ → ℕ)) (y : ℕ)
      → (elim o as (λ o. ℕ → ℕ) [ none ↦ λ y. 0 | some b ↦ b ]) y
        ≡ (elim o as (λ o. ℕ) [ none ↦ 0 | some b ↦ b y ])
  block_value none y = refl
  block_value (some b) y = refl

  module _ (up : (s : Server) (k n : ℕ) → (mget s k n).1 ≡ true) where
    -- `getblock` at any word of a block
    pub block_at_lem :
        (s : Server) (key b f y : ℕ)
        → f < 0x1_0000_0000
        → f / 32 ≡ b
        → y < 32
        → (block_at M s (make64 key f)).0 y ≡ chunked_word M s (make64 key (b * 32) + y)
    unfolding block_at
    block_at_lem s key b f y small e lt =
        let k : make64 key f / 0x1_0000_0000 * 0x1_0000_0000 + make64 key f % 0x1_0000_0000 / 32
            ≡ make64 key b =
          omega arith in
        let low : (make64 key (b * 32) + y) % 32 ≡ y = omega arith in
        ap (λ i. last_block (mget s i 1).0 (λ z. 0) y) k
        ∙ ap (λ (g : ℕ → ℕ). g y) (block_read s (make64 key b) (up s (make64 key b) 1))
        ∙ block_value (lookup s (make64 key b)) y
        ∙ ap (λ z. elim (lookup s (make64 key b)) as (λ o. ℕ) [ none ↦ 0 | some g ↦ g z ]) (sym low)
        ∙ sym (word_of s (make64 key (b * 32) + y) (make64 key b) (omega arith))
