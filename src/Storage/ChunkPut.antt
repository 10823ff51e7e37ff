-- ===== src/Storage/ChunkPut.antt =====
-- The whole of `putchunk` of `SoStorageChunkMemcached` (Dogee/DogeeMemcachedStorage.cpp).
use dogee.Prelude.{
  ℕ, suc, ◌+◌, ◌-◌, ◌*◌, ◌/◌, ◌%◌, ◌<◌, ◌≤◌, ◌≡◌, ◌≢◌, refl, sym, ap, ◌∙◌, List, [], true,
  Bool-cases, length, drop, ◌==◌, ◌⊎◌, inl, inr, arith, length-drop, take-length, if◌then◌else◌,
}
use mathlib.Core.Path.{fun_ext}
use dogee.Cache.Address.{make64}
use dogee.Cache.Backend.{copy}
use dogee.Storage.Blocks.{
  BlockMemcached, block_start, fill, block_at, put_head, put_whole_blocks, put_tail, put_chunked,
  chunked_word, chunked_get,
}
use dogee.Storage.ChunkWords.{copy_shift, fill_lem}
use dogee.Storage.Chunks.{block_at_lem}
use dogee.Storage.ChunkWrites.{start_cases, filled_block, blocks_end, copy_same}
use dogee.Storage.ChunkParts.{
  length_zero, copy_elsewhere, below_cases, two_parts, head_written, head_skipped, tail_skipped,
  from_block,
}

module _ (M : BlockMemcached) where
  module _ (up : (s : M.Server) (k n : ℕ) → (M.mget s k n).1 ≡ true) where
    -- What follows the first part of `putchunk`.
    abbrev finish : ℕ → ℕ → ℕ → ℕ → M.Server × List ℕ → M.Server
    finish key i len k_tail (s, buf) =
        put_tail M (put_whole_blocks M len s key i (k_tail / 32 * 32) buf).0 key
          (put_whole_blocks M len s key i (k_tail / 32 * 32) buf).1.0 (k_tail / 32 * 32) k_tail
          (put_whole_blocks M len s key i (k_tail / 32 * 32) buf).1.1

    put_chunked_parts :
        (s : M.Server) (key k : ℕ) (buf : List ℕ)
        → k + length buf < 0x1_0000_0000
        → put_chunked M s key k buf
          ≡ finish key (block_start k) (length buf) (k + length buf) (put_head M s key k buf)
    unfolding put_chunked
    put_chunked_parts s key k buf small =
        let e : (k + length buf) % 0x1_0000_0000 ≡ k + length buf = omega arith in
        ap (λ t. finish key (block_start k) (length buf) t (put_head M s key k buf)) e

    aligned :
        (s : M.Server) (key k x : ℕ) (buf : List ℕ)
        → k % 32 ≡ 0
        → block_start k ≡ k
        → k + length buf < 0x1_0000_0000
        → chunked_word M (put_chunked M s key k buf) x
          ≡ copy (make64 key k) buf (chunked_word M s) x
    aligned s key k x buf z e small =
        let at : k ≡ k / 32 * 32 = omega arith in
        ap (λ t. chunked_word M t x)
          (put_chunked_parts s key k buf small
            ∙ ap (finish key (block_start k) (length buf) (k + length buf))
                (head_skipped M s key k buf (ground arith))
            ∙ ap (λ i. finish key i (length buf) (k + length buf) (s, buf)) (e ∙ at))
        ∙ from_block M up (length buf) s key (k / 32) (k + length buf) x buf (omega arith)
            (omega arith) small
        ∙ ap (λ i. copy (make64 key i) buf (chunked_word M s) x) (sym at)

    -- The words fill the rest of the first block.
    over_block :
        (s : M.Server) (key k x : ℕ) (buf : List ℕ)
        → k % 32 ≢ 0
        → block_start k ≡ k / 32 * 32 + 32
        → k / 32 * 32 + 32 ≤ k + length buf
        → k + length buf < 0x1_0000_0000
        → chunked_word M (put_chunked M s key k buf) x
          ≡ copy (make64 key k) buf (chunked_word M s) x
    over_block s key k x buf z e long small =
        let n = 32 - k % 32 in
        let b = k / 32 in
        let len = length buf in
        let var = (block_at M s (make64 key k)).0 in
        let s1 = M.memcached_set s (make64 key b) (fill k (block_start k) buf var).0 in
        let d = length-drop n buf in
        let next : b * 32 + 32 ≡ suc b * 32 = omega arith in
        let left =
          (fill_lem n k (block_start k) b (k % 32) buf var 0 (omega arith) (inl (omega (arith, e)))
            (omega arith) (omega arith)).1 in
        ap (λ t. chunked_word M t x)
          (put_chunked_parts s key k buf small
            ∙ ap (finish key (block_start k) len (k + len))
                (head_written M s key k buf (ground arith))
            ∙ ap (λ ws. finish key (block_start k) len (k + len) (s1, ws)) left
            ∙ ap (λ i. finish key i len (k + len) (s1, drop n buf)) (e ∙ next))
        ∙ from_block M up len s1 key (suc b) (k + len) x (drop n buf) (omega arith) (omega arith)
            small
        ∙ ap (λ w. copy (make64 key (suc b * 32)) (drop n buf) w x)
            (fun_ext λ y.
              filled_block M up s key k (block_start k) n b (k % 32) k y buf (omega arith)
                (omega arith) refl (inl (omega (arith, e))) (omega arith) (omega arith))
        ∙ two_parts n (make64 key k) (make64 key (suc b * 32)) buf (chunked_word M s) x
            (omega arith) (omega arith)

    -- The words lie within the first block.
    in_block :
        (s : M.Server) (key k x : ℕ) (buf : List ℕ)
        → k % 32 ≢ 0
        → block_start k ≡ k / 32 * 32 + 32
        → k + length buf < k / 32 * 32 + 32
        → k + length buf < 0x1_0000_0000
        → chunked_word M (put_chunked M s key k buf) x
          ≡ copy (make64 key k) buf (chunked_word M s) x
    in_block s key k x buf z e short small =
        let b = k / 32 in
        let len = length buf in
        let var = (block_at M s (make64 key k)).0 in
        let s1 = M.memcached_set s (make64 key b) (fill k (block_start k) buf var).0 in
        let d = length-drop len buf in
        let ends : (k + len ≡ block_start k) ⊎ ((k + len ≤ block_start k) × (len ≡ length buf)) =
          inr (omega (arith, e), refl) in
        let left =
          (fill_lem len k (block_start k) b (k % 32) buf var 0 (omega arith) ends (omega arith)
            (omega arith)).1
          ∙ length_zero (drop len buf) (omega arith) in
        let k_end = (k + len) / 32 * 32 in
        let done = blocks_end M up len s1 key (block_start k) k_end [] (ground arith) in
        ap (λ t. chunked_word M t x)
          (put_chunked_parts s key k buf small
            ∙ ap (finish key (block_start k) len (k + len))
                (head_written M s key k buf (ground arith))
            ∙ ap (λ ws. finish key (block_start k) len (k + len) (s1, ws)) left
            ∙ ap (λ r. put_tail M (r.0) key (r.1.0) k_end (k + len) (r.1.1)) done
            ∙ tail_skipped M s1 key (block_start k) k_end (k + len))
        ∙ filled_block M up s key k (block_start k) len b (k % 32) k x buf (omega arith)
            (omega arith) refl ends (omega arith) (omega arith)
        ∙ ap (λ ws. copy (make64 key k) ws (chunked_word M s) x) (take-length buf)

    -- In every case the words of the chunk are written and no other.
    put_chunked_lem :
        (s : M.Server) (key k : ℕ) (buf : List ℕ) (x : ℕ)
        → k ≤ 0xffff_ffe0
        → k + length buf < 0x1_0000_0000
        → chunked_word M (put_chunked M s key k buf) x
          ≡ copy (make64 key k) buf (chunked_word M s) x
    put_chunked_lem s key k buf x low small = elim (start_cases k low) [
      | inl (z, e) ↦ aligned s key k x buf z e small
      | inr (z, e) ↦ elim (below_cases (k + length buf) (k / 32 * 32 + 32)) [
        | inl short ↦ in_block s key k x buf z e short small
        | inr long ↦ over_block s key k x buf z e long small
      ]
    ]

    chunked_get_lem :
        (s : M.Server) (key f : ℕ)
        → f < 0x1_0000_0000
        → chunked_get M s key f ≡ chunked_word M s (make64 key f)
    unfolding chunked_get
    chunked_get_lem s key f small =
        let low : make64 key f % 32 ≡ f % 32 = omega arith in
        let whole : make64 key (f / 32 * 32) + f % 32 ≡ make64 key f = omega arith in
        ap (block_at M s (make64 key f)).0 low
        ∙ block_at_lem M up s key (f / 32) f (f % 32) small refl (omega arith)
        ∙ ap (chunked_word M s) whole

    -- After `putchunk` of the storage of blocks, `get` returns the words of the chunk in its fields of the object,
    -- and what it returned before in all other fields and in all other objects, wherever the chunk begins
    -- and ends in its blocks. No request to memcached fails, and the chunk begins at the start of
    -- the last block of the object at the latest and ends before the field 2 ^ 32.
    pub get-put_chunked :
        (s : M.Server) (key k key' f : ℕ) (buf : List ℕ)
        → k ≤ 0xffff_ffe0
        → k + length buf < 0x1_0000_0000
        → f < 0x1_0000_0000
        → chunked_get M (put_chunked M s key k buf) key' f
          ≡ (if key' == key then copy k buf (chunked_get M s key) f else chunked_get M s key' f)
    get-put_chunked s key k key' f buf low small field =
        chunked_get_lem (put_chunked M s key k buf) key' f field
        ∙ put_chunked_lem s key k buf (make64 key' f) low small
        ∙ elim (Bool-cases (key' == key)) [
          | inl e ↦
              let same : key' ≡ key = ground arith in
              let at : make64 key k ≡ make64 key 0 + k = omega arith in
              let at' : make64 key' f ≡ make64 key 0 + f = omega arith in
              let here : make64 key 0 + f ≡ make64 key f = omega arith in
              ap (λ a. copy a buf (chunked_word M s) (make64 key' f)) at
              ∙ ap (copy (make64 key 0 + k) buf (chunked_word M s)) at'
              ∙ sym (copy_shift (make64 key 0) k buf (chunked_word M s) f)
              ∙ copy_same k buf (λ z. chunked_word M s (make64 key 0 + z)) (chunked_get M s key) f
                  (ap (chunked_word M s) here ∙ sym (chunked_get_lem s key f field))
              ∙ rw e refl
          | inr e ↦
              let other : key' ≢ key = λ same. ground arith in
              copy_elsewhere (make64 key k) buf (chunked_word M s) (make64 key' f) (ground arith)
              ∙ sym (chunked_get_lem s key' f field)
              ∙ rw e refl
        ]
