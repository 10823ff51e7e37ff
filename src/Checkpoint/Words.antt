-- ===== src/Checkpoint/Words.antt =====
-- `SoStorageMemcached` of Dogee/DogeeMemcachedStorage.cpp fills the interface that the checkpoints use.
use dogee.Prelude.{
  ℕ, suc, ◌+◌, ◌*◌, ◌/◌, ◌%◌, ◌<◌, ◌≤◌, ◌≡◌, ◌≢◌, refl, sym, ap, ◌∙◌, List, [], ◌∷◌, Option, none,
  some, true, false, length, get_or, arith,
}
use dogee.Cache.Address.{make64}
use dogee.Cache.Backend.{copy}
use dogee.Storage.Memcached.{
  Memcached, MemcachedAdd, put_words, get_chunk, get_word, new_obj, get_info, info_key,
}
use dogee.Storage.Fetch.{word_same}
use dogee.Storage.Words.{put_words_lem, get_chunk_lem}
use dogee.Storage.ChunkWords.{copy_shift}
use dogee.Storage.ChunkWrites.{copy_same}
use dogee.Storage.ChunkParts.{copy_elsewhere}
use dogee.Checkpoint.Store.{SharedStore}
use dogee.Checkpoint.Segment.{segment, segment-length, get_or-segment}

module _ (M : Memcached) where
  pub lookup-put_words :
      (s : M.Server) (key k : ℕ) (buf : List ℕ) (j : ℕ)
      → k + length buf ≤ 0xffff_ffff
      → ((i : ℕ) → i < 0xffff_ffff → j ≢ make64 key i)
      → M.lookup (put_words M s key k buf) j ≡ M.lookup s j
  unfolding put_words
  lookup-put_words s key k [] j fits other = refl
  lookup-put_words s key k (v ∷ buf) j fits other =
      let next : (k + 1) % 0x1_0000_0000 ≡ suc k = omega arith in
      ap (λ i. M.lookup (put_words M (M.memcached_set s (make64 key k) v) key i buf) j) next
      ∙ lookup-put_words (M.memcached_set s (make64 key k) v) key (suc k) buf j (omega arith) other
      ∙ M.set_ne s (make64 key k) v j (other k (omega arith))

  pub info_same :
      (A : MemcachedAdd M) (s s' : M.Server) (k : ℕ)
      → M.lookup s (info_key k) ≡ M.lookup s' (info_key k)
      → get_info M A s k ≡ get_info M A s' k
  unfolding get_info
  info_same A s s' k e =
      ap
        (λ (o : Option ℕ). elim o as (λ x. Option (ℕ × ℕ)) [
          | none ↦ none
          | some info ↦ some (info % 0x1_0000_0000, info / 0x1_0000_0000)
        ])
        e

  pub info_found :
      (A : MemcachedAdd M) (s : M.Server) (k flag size : ℕ)
      → flag ≤ 0xffff_ffff
      → M.lookup s (info_key k) ≡ some (flag + size * 0x1_0000_0000)
      → get_info M A s k ≡ some (flag, size)
  unfolding get_info
  info_found A s k flag size small e =
      let low : (flag + size * 0x1_0000_0000) % 0x1_0000_0000 ≡ flag = omega arith in
      let high : (flag + size * 0x1_0000_0000) / 0x1_0000_0000 ≡ size = omega arith in
      rw (e, get_info) (rw (low, high) refl)

  pub info_missing :
      (A : MemcachedAdd M) (s : M.Server) (k : ℕ)
      → get_info M A s k ≡ none
      → M.lookup s (info_key k) ≡ none
  unfolding get_info
  info_missing A s k e = ground (arith, e)

  pub word_put :
      (s : M.Server) (key fldid : ℕ) (buf : List ℕ) (x : ℕ)
      → fldid + length buf ≤ 0xffff_ffff
      → get_word M (put_words M s key fldid buf) (make64 key x)
        ≡ copy fldid buf (λ y. get_word M s (make64 key y)) x
  word_put s key fldid buf x fits =
      let at : make64 key fldid ≡ make64 key 0 + fldid = omega arith in
      let at' : make64 key x ≡ make64 key 0 + x = omega arith in
      put_words_lem M s key fldid buf (make64 key x) (omega arith)
      ∙ ap (λ a. copy a buf (get_word M s) (make64 key x)) at
      ∙ ap (copy (make64 key 0 + fldid) buf (get_word M s)) at'
      ∙ sym (copy_shift (make64 key 0) fldid buf (get_word M s) x)
      ∙ copy_same fldid buf (λ z. get_word M s (make64 key 0 + z))
          (λ y. get_word M s (make64 key y)) x (ap (get_word M s) (sym at'))

  pub word_put_other :
      (s : M.Server) (key fldid : ℕ) (buf : List ℕ) (k x : ℕ)
      → k ≢ key
      → fldid + length buf ≤ 0xffff_ffff
      → x < 0xffff_ffff
      → get_word M (put_words M s key fldid buf) (make64 k x) ≡ get_word M s (make64 k x)
  word_put_other s key fldid buf k x other fits low =
      put_words_lem M s key fldid buf (make64 k x) (omega arith)
      ∙ copy_elsewhere (make64 key fldid) buf (get_word M s) (make64 k x) (ground arith)

  module _ (A : MemcachedAdd M) where
    pub new_obj_same :
        (s : M.Server) (key flag size j : ℕ)
        → j ≢ info_key key
        → M.lookup (new_obj M A key flag size s).1 j ≡ M.lookup s j
    unfolding new_obj
    new_obj_same s key flag size j other =
        A.add_ne s (info_key key) (flag + size * 0x1_0000_0000) j other

    pub new_obj_found :
        (s : M.Server) (key flag size : ℕ)
        → M.lookup s (info_key key) ≡ none
        → M.lookup (new_obj M A key flag size s).1 (info_key key)
          ≡ some (flag + size * 0x1_0000_0000)
    unfolding new_obj
    new_obj_found s key flag size free =
        A.add_self s (info_key key) (flag + size * 0x1_0000_0000) free

-- The words of a chunk as the buffer has them after `getchunk`; `junk` is what is in it before.
unfoldable pub chunk_list : (M : Memcached) → (ℕ → ℕ) → M.Server → ℕ → ℕ → ℕ → List ℕ
chunk_list M junk s key fldid len =
    segment (get_chunk M s (make64 key fldid) len junk false).0 0 len

pub length-chunk_list :
    (M : Memcached) (junk : ℕ → ℕ) (s : M.Server) (key fldid len : ℕ)
    → length (chunk_list M junk s key fldid len) ≡ len
unfolding chunk_list
length-chunk_list M junk s key fldid len =
    segment-length (get_chunk M s (make64 key fldid) len junk false).0 0 len

pub get_or-chunk_list :
    (M : Memcached) (junk : ℕ → ℕ) (s : M.Server) (key fldid len i : ℕ)
    → ((j n : ℕ) → (M.mget s j n).1 ≡ true)
    → len ≤ 8192
    → i < len
    → get_or (chunk_list M junk s key fldid len) i 0 ≡ get_word M s (make64 key (fldid + i))
unfolding chunk_list
get_or-chunk_list M junk s key fldid len i up small lt =
    let buf = (get_chunk M s (make64 key fldid) len junk false).0 in
    let at : make64 key fldid + (0 + i) ≡ make64 key (fldid + i) = omega arith in
    get_or-segment buf 0 len i lt
    ∙ (get_chunk_lem M s (make64 key fldid) len junk false (0 + i) up (omega arith)).0 (omega arith)
    ∙ ap (get_word M s) at

-- The storage of single words as the checkpoints call it, if no request to memcached fails.
abbrev pub shared_words :
    (M : Memcached)
    → MemcachedAdd M
    → (ℕ → ℕ)
    → ((s : M.Server) (k n : ℕ) → (M.mget s k n).1 ≡ true)
    → SharedStore
shared_words M A junk up = record {
  Store = M.Server;
  word = λ s key fldid. get_word M s (make64 key fldid);
  getchunk = chunk_list M junk;
  putchunk = put_words M;
  newobj = new_obj M A;
  getinfo = get_info M A;
  length-getchunk = length-chunk_list M junk;
  get_or-getchunk = λ s key fldid len i. get_or-chunk_list M junk s key fldid len i (up s);
  word-putchunk = word_put M;
  word-putchunk_other = word_put_other M;
  getinfo-putchunk = λ s key fldid buf k fits.
      info_same M A (put_words M s key fldid buf) s k
        (lookup-put_words M s key fldid buf (info_key k) fits (λ i lt e. omega arith));
  word-newobj = λ s key flag size k x lt.
      word_same M (new_obj M A key flag size s).1 s (make64 k x)
        (new_obj_same M A s key flag size (make64 k x) (λ e. omega arith));
  getinfo-newobj = λ s key flag size free small.
      info_found M A (new_obj M A key flag size s).1 key flag size small
        (new_obj_found M A s key flag size (info_missing M A s key free));
  getinfo-newobj_other = λ s key flag size k other.
      info_same M A (new_obj M A key flag size s).1 s k
        (new_obj_same M A s key flag size (info_key k) (λ e. omega arith));
}
