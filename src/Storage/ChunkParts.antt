-- ===== src/Storage/ChunkParts.antt =====
-- The parts of `putchunk` of `SoStorageChunkMemcached` (Dogee/DogeeMemcachedStorage.cpp).
use dogee.Prelude.{
  ℕ, ◌+◌, ◌-◌, ◌*◌, ◌/◌, ◌<◌, ◌≤◌, ◌≡◌, refl, sym, ap, ◌∙◌, List, [], ◌∷◌, true, false, not, ◌&&◌,
  length, take, drop, ltb, ◌==◌, ◌⊎◌, inl, arith, length-drop, take-length,
}
use mathlib.Core.Path.{fun_ext}
use dogee.Cache.Address.{make64}
use dogee.Cache.Backend.{copy}
use dogee.Storage.Blocks.{
  BlockMemcached, block_start, fill, is_empty, block_at, put_head, put_whole_blocks, put_tail,
  chunked_word,
}
use dogee.Storage.ChunkWords.{copy-append, copy_nothing}
use dogee.Storage.ChunkWrites.{is_empty-cons, filled_block, blocks_lem}

pub length_zero : (buf : List ℕ) → length buf ≡ 0 → buf ≡ []
length_zero [] e = refl
length_zero (v ∷ buf) e = absurd (omega arith)

pub copy_elsewhere :
    (a : ℕ) (v : List ℕ) (w : ℕ → ℕ) (x : ℕ) → (x < a) ⊎ (a + length v ≤ x) → copy a v w x ≡ w x
unfolding copy
copy_elsewhere a v w x out = ground (arith, out)

pub below_cases : (p q : ℕ) → (p < q) ⊎ (q ≤ p)
below_cases p q = ground arith

pub two_parts :
    (n a b : ℕ) (v : List ℕ) (w : ℕ → ℕ) (x : ℕ)
    → n ≤ length v
    → b ≡ a + n
    → copy b (drop n v) (λ y. copy a (take n v) w y) x ≡ copy a v w x
two_parts n a b v w x le e =
    let left = drop n v in
    let d = length-drop n v in
    let whole : n + length left ≡ length v = omega arith in
    ap (λ ws. copy b ws (λ y. copy a (take n v) w y) x) (sym (take-length left))
    ∙ copy-append n (length left) a b v w x (omega arith) e
    ∙ ap (λ m. copy a (take m v) w x) whole
    ∙ ap (λ ws. copy a ws w x) (take-length v)

module _ (M : BlockMemcached) where
  pub head_written :
      (s : M.Server) (key k : ℕ) (buf : List ℕ)
      → ltb k (block_start k) ≡ true
      → put_head M s key k buf ≡ (
        M.memcached_set s
            (make64 key (k / 32))
            (fill k (block_start k) buf (block_at M s (make64 key k)).0).0,
        (fill k (block_start k) buf (block_at M s (make64 key k)).0).1,
      )
  unfolding put_head
  head_written s key k buf e = rw e refl

  pub head_skipped :
      (s : M.Server) (key k : ℕ) (buf : List ℕ)
      → ltb k (block_start k) ≡ false
      → put_head M s key k buf ≡ (s, buf)
  unfolding put_head
  head_skipped s key k buf e = rw e refl

  tail_written :
      (s : M.Server) (key i k_end k_tail : ℕ) (buf : List ℕ)
      → (not (is_empty buf) && not (k_end == k_tail)) ≡ true
      → put_tail M s key i k_end k_tail buf
        ≡ M.memcached_set s
            (make64 key (k_end / 32))
            (fill i k_tail buf (block_at M s (make64 key k_end)).0).0
  unfolding put_tail
  tail_written s key i k_end k_tail buf e = rw e refl

  pub tail_skipped :
      (s : M.Server) (key i k_end k_tail : ℕ) → put_tail M s key i k_end k_tail [] ≡ s
  unfolding put_tail is_empty
  tail_skipped s key i k_end k_tail = refl

  module _ (up : (s : M.Server) (k n : ℕ) → (M.mget s k n).1 ≡ true) where
    -- The words behind the last whole block.
    tail_lem :
        (s : M.Server) (key b k_end k_tail x : ℕ) (buf : List ℕ)
        → k_end ≡ b * 32
        → k_end + length buf ≡ k_tail
        → length buf < 32
        → k_tail < 0x1_0000_0000
        → chunked_word M (put_tail M s key k_end k_end k_tail buf) x
          ≡ copy (make64 key k_end) buf (chunked_word M s) x
    tail_lem s key b k_end k_tail x [] at ends few small =
        ap (λ t. chunked_word M t x) (tail_skipped s key k_end k_end k_tail)
        ∙ sym (copy_nothing (make64 key k_end) (chunked_word M s) x)
    tail_lem s key b k_end k_tail x (v ∷ vs) at ends few small =
        let buf = v ∷ vs in
        let some_words = is_empty-cons buf (omega arith) in
        let other : (k_end == k_tail) ≡ false = ground arith in
        let block : k_end / 32 ≡ b = omega arith in
        ap (λ t. chunked_word M t x)
          (tail_written s key k_end k_end k_tail buf (rw (some_words, other) refl))
        ∙ ap
            (λ c.
              chunked_word M
                (M.memcached_set s (make64 key c)
                  (fill k_end k_tail buf (block_at M s (make64 key k_end)).0).0)
                x)
            block
        ∙ filled_block M up s key k_end k_tail (length buf) b 0 k_end x buf (omega arith)
            (omega arith) block (inl ends) (omega arith) (omega arith)
        ∙ ap (λ ws. copy (make64 key k_end) ws (chunked_word M s) x) (take-length buf)

    -- From the first whole block on.
    pub from_block :
        (fuel : ℕ) (s : M.Server) (key b k_tail x : ℕ) (buf : List ℕ)
        → b * 32 + length buf ≡ k_tail
        → length buf ≤ fuel
        → k_tail < 0x1_0000_0000
        → chunked_word M
            (put_tail M
              (put_whole_blocks M fuel s key (b * 32) (k_tail / 32 * 32) buf).0
              key
              (put_whole_blocks M fuel s key (b * 32) (k_tail / 32 * 32) buf).1.0
              (k_tail / 32 * 32)
              k_tail
              (put_whole_blocks M fuel s key (b * 32) (k_tail / 32 * 32) buf).1.1)
            x
          ≡ copy (make64 key (b * 32)) buf (chunked_word M s) x
    from_block fuel s key b k_tail x buf ends enough small =
        let k_end = k_tail / 32 * 32 in
        let m = k_tail / 32 - b in
        let s2 = (put_whole_blocks M fuel s key (b * 32) k_end buf).0 in
        let left = drop (32 * m) buf in
        let d = length-drop (32 * m) buf in
        let reach : b * 32 + 32 * m ≡ k_end = omega arith in
        let fits : 32 * m ≤ length buf = omega arith in
        let whole : 32 * m + length left ≡ length buf = omega arith in
        let (now, at_end, rest) =
          blocks_lem M up m fuel s key b k_end x buf reach fits (omega arith) (omega arith) in
        ap
          (λ i.
            chunked_word M
              (put_tail M s2 key i k_end k_tail
                (put_whole_blocks M fuel s key (b * 32) k_end buf).1.1)
              x)
          at_end
        ∙ ap (λ ws. chunked_word M (put_tail M s2 key k_end k_end k_tail ws) x) rest
        ∙ tail_lem s2 key (k_tail / 32) k_end k_tail x left refl (omega arith) (omega arith) small
        ∙ ap (λ w. copy (make64 key k_end) left w x)
            (fun_ext λ y.
              (blocks_lem M up m fuel s key b k_end y buf reach fits (omega arith) (omega arith)).0)
        ∙ two_parts (32 * m) (make64 key (b * 32)) (make64 key k_end) buf (chunked_word M s) x fits
            (omega arith)
