-- ===== src/Storage/ChunkWrites.antt =====
-- `putchunk` of `SoStorageChunkMemcached` (Dogee/DogeeMemcachedStorage.cpp) over blocks is a write of words.
use dogee.Prelude.{
  ℕ, zero, suc, ◌+◌, ◌-◌, ◌*◌, ◌/◌, ◌%◌, ◌<◌, ◌≤◌, ◌≡◌, ◌≢◌, refl, sym, ap, ◌∙◌, List, [], ◌∷◌,
  true, false, length, get_or, take, drop, ltb, ◌⊎◌, arith, get_or-take, length-take, length-drop,
}
use mathlib.Core.Path.{fun_ext}
use dogee.Cache.Address.{make64}
use dogee.Cache.Backend.{copy}
use dogee.Storage.Blocks.{
  BlockMemcached, block_start, fill, is_empty, block_at, put_whole_blocks, chunked_word,
}
use dogee.Storage.ChunkWords.{copy-append, copy_nothing, fill_lem}
use dogee.Storage.Chunks.{set_block, block_at_lem}

pub start_cases :
    (k : ℕ)
    → k ≤ 0xffff_ffe0
    → ((k % 32 ≡ 0) × (block_start k ≡ k)) ⊎ ((k % 32 ≢ 0) × (block_start k ≡ k / 32 * 32 + 32))
unfolding block_start
start_cases k small = ground arith

pub is_empty-cons : (buf : List ℕ) → 0 < length buf → is_empty buf ≡ false
unfolding is_empty
is_empty-cons [] lt = absurd (omega arith)
is_empty-cons (v ∷ buf) lt = refl

drop_nil : (n : ℕ) → drop {A = ℕ} n [] ≡ []
drop_nil zero = refl
drop_nil (suc n) = refl

pub drop-drop : (n m : ℕ) (buf : List ℕ) → drop m (drop n buf) ≡ drop (n + m) buf
drop-drop zero m buf = let e : 0 + m ≡ m = omega arith in rw e refl
drop-drop (suc n) m [] = drop_nil m ∙ sym (drop_nil (suc n + m))
drop-drop (suc n) m (v ∷ buf) =
    let e : suc n + m ≡ suc (n + m) = omega arith in rw e (drop-drop n m buf)

pub copy_same :
    (a : ℕ) (v : List ℕ) (w w' : ℕ → ℕ) (y : ℕ) → w y ≡ w' y → copy a v w y ≡ copy a v w' y
unfolding copy
copy_same a v w w' y h = ground (arith, h)

module _ (M : BlockMemcached) (up : (s : M.Server) (k n : ℕ) → (M.mget s k n).1 ≡ true) where
  -- A block into which the first `n` words are put.
  pub filled_block :
      (s : M.Server) (key k stop n b o f x : ℕ) (buf : List ℕ)
      → k ≡ b * 32 + o
      → f < 0x1_0000_0000
      → f / 32 ≡ b
      → (k + n ≡ stop) ⊎ ((k + n ≤ stop) × (n ≡ length buf))
      → n ≤ length buf
      → o + n ≤ 32
      → chunked_word M
          (M.memcached_set s (make64 key b) (fill k stop buf (block_at M s (make64 key f)).0).0)
          x
        ≡ copy (make64 key k) (take n buf) (chunked_word M s) x
  filled_block s key k stop n b o f x buf at small e ends le fits =
      let t = length-take n buf le in
      let there : make64 key (b * 32) + o ≡ make64 key k = omega arith in
      set_block M s key b o (take n buf) (fill k stop buf (block_at M s (make64 key f)).0).0 x
        (omega arith) (omega arith)
        (λ y lt.
          (fill_lem n k stop b o buf (block_at M s (make64 key f)).0 y at ends le fits).0
          ∙ copy_same o (take n buf) (block_at M s (make64 key f)).0
              (λ z. chunked_word M s (make64 key (b * 32) + z)) y
              (block_at_lem M up s key b f y small e lt))
      ∙ ap (λ a. copy a (take n buf) (chunked_word M s) x) there

  -- One whole block.
  whole_block :
      (s : M.Server) (key b x : ℕ) (buf : List ℕ)
      → b < 0x800_0000
      → 32 ≤ length buf
      → chunked_word M (M.memcached_set s (make64 key b) (λ y. get_or buf y 0)) x
        ≡ copy (make64 key (b * 32)) (take 32 buf) (chunked_word M s) x
  whole_block s key b x buf small le =
      let t = length-take 32 buf le in
      let there : make64 key (b * 32) + 0 ≡ make64 key (b * 32) = omega arith in
      set_block M s key b 0 (take 32 buf) (λ y. get_or buf y 0) x small (omega arith)
        (λ y lt. taken (λ z. chunked_word M s (make64 key (b * 32) + z)) y lt)
      ∙ ap (λ a. copy a (take 32 buf) (chunked_word M s) x) there
    where
      taken : (w : ℕ → ℕ) (y : ℕ) → y < 32 → get_or buf y 0 ≡ copy 0 (take 32 buf) w y
      taken w y lt =
          let t = length-take 32 buf le in
          let g = get_or-take 32 y buf 0 lt in
          let z : y - 0 ≡ y = omega arith in unfold copy in rw z (ground arith)

  pub blocks_end :
      (fuel : ℕ) (s : M.Server) (key i k_end : ℕ) (buf : List ℕ)
      → ltb i k_end ≡ false
      → put_whole_blocks M fuel s key i k_end buf ≡ (s, (i, buf))
  unfolding put_whole_blocks
  blocks_end zero s key i k_end buf e = refl
  blocks_end (suc fuel) s key i k_end buf e = rw e refl

  blocks_step :
      (fuel : ℕ) (s : M.Server) (key i k_end : ℕ) (buf : List ℕ)
      → ltb i k_end ≡ true
      → put_whole_blocks M (suc fuel) s key i k_end buf
        ≡ put_whole_blocks M fuel
            (M.memcached_set s (make64 key (i / 32)) (λ y. get_or buf y 0))
            key
            ((i + 32) % 0x1_0000_0000)
            k_end
            (drop 32 buf)
  unfolding put_whole_blocks
  blocks_step fuel s key i k_end buf e = rw (e, put_whole_blocks) refl

  -- The whole blocks from the block `b` on.
  pub blocks_lem :
      (m fuel : ℕ) (s : M.Server) (key b k_end x : ℕ) (buf : List ℕ)
      → b * 32 + 32 * m ≡ k_end
      → 32 * m ≤ length buf
      → m ≤ fuel
      → k_end < 0x1_0000_0000
      → (chunked_word M (put_whole_blocks M fuel s key (b * 32) k_end buf).0 x
          ≡ copy (make64 key (b * 32)) (take (32 * m) buf) (chunked_word M s) x)
        × ((put_whole_blocks M fuel s key (b * 32) k_end buf).1.0 ≡ k_end)
        × ((put_whole_blocks M fuel s key (b * 32) k_end buf).1.1 ≡ drop (32 * m) buf)
  blocks_lem zero fuel s key b k_end x buf e le enough small =
      let r = blocks_end fuel s key (b * 32) k_end buf (ground arith) in
      (
        ap (λ t. chunked_word M t.0 x) r
            ∙ sym (copy_nothing (make64 key (b * 32)) (chunked_word M s) x),
        ap (λ t. t.1.0) r ∙ omega arith,
        ap (λ t. t.1.1) r,
      )
  blocks_lem (suc m) zero s key b k_end x buf e le enough small = absurd (omega arith)
  blocks_lem (suc m) (suc fuel) s key b k_end x buf e le enough small =
      let d = length-drop 32 buf in
      let s1 = M.memcached_set s (make64 key (b * 32 / 32)) (λ y. get_or buf y 0) in
      let here : b * 32 / 32 ≡ b = omega arith in
      let next : (b * 32 + 32) % 0x1_0000_0000 ≡ suc b * 32 = omega arith in
      let r =
        blocks_step fuel s key (b * 32) k_end buf (ground arith)
        ∙ ap (λ i. put_whole_blocks M fuel s1 key i k_end (drop 32 buf)) next in
      let (words, ends, left) =
        blocks_lem m fuel s1 key (suc b) k_end x (drop 32 buf) (omega arith) (omega arith)
          (omega arith) small in
      let all : 32 + 32 * m ≡ 32 * suc m = omega arith in
      (
        ap (λ t. chunked_word M t.0 x) r
            ∙ words
            ∙ ap (λ w. copy (make64 key (suc b * 32)) (take (32 * m) (drop 32 buf)) w x)
                (fun_ext λ y.
                  ap
                    (λ c. chunked_word M (M.memcached_set s (make64 key c) (λ z. get_or buf z 0)) y)
                    here
                  ∙ whole_block s key b y buf (omega arith) (omega arith))
            ∙ copy-append 32 (32 * m) (make64 key (b * 32)) (make64 key (suc b * 32)) buf
                (chunked_word M s) x (omega arith) (omega arith)
            ∙ ap (λ n. copy (make64 key (b * 32)) (take n buf) (chunked_word M s) x) all,
        ap (λ t. t.1.0) r ∙ ends,
        ap (λ t. t.1.1) r ∙ left ∙ drop-drop 32 (32 * m) buf ∙ ap (λ n. drop n buf) all,
      )
