-- ===== src/Checkpoint/Store.antt =====
-- What a checkpoint relies on of a storage backend (`SoStorage` of include/DogeeStorage.h), for chunks of at
-- most 8192 words. None of its requests fails. The last field of an object, 0xFFFFFFFF, has its flag and size.
use dogee.Prelude.{ℕ, ◌+◌, ◌<◌, ◌≤◌, ◌≡◌, ◌≢◌, List, Option, none, some, Bool, length, get_or}
use dogee.Cache.Backend.{copy}

pub record SharedStore : Type 1 where
  pub Store : Type 0
  pub word : Store → ℕ → ℕ → ℕ
  pub getchunk : Store → ℕ → ℕ → ℕ → List ℕ
  pub putchunk : Store → ℕ → ℕ → List ℕ → Store
  -- `newobj(key, flag, size)`
  pub newobj : ℕ → ℕ → ℕ → Store → Bool × Store
  -- the flag and the size
  pub getinfo : Store → ℕ → Option (ℕ × ℕ)
  pub length-getchunk : (s : Store) (key fldid len : ℕ) → length (getchunk s key fldid len) ≡ len
  pub get_or-getchunk :
      (s : Store) (key fldid len i : ℕ)
      → len ≤ 8192
      → i < len
      → get_or (getchunk s key fldid len) i 0 ≡ word s key (fldid + i)
  pub word-putchunk :
      (s : Store) (key fldid : ℕ) (buf : List ℕ) (x : ℕ)
      → fldid + length buf ≤ 0xffff_ffff
      → word (putchunk s key fldid buf) key x ≡ copy fldid buf (word s key) x
  pub word-putchunk_other :
      (s : Store) (key fldid : ℕ) (buf : List ℕ) (k x : ℕ)
      → k ≢ key
      → fldid + length buf ≤ 0xffff_ffff
      → x < 0xffff_ffff
      → word (putchunk s key fldid buf) k x ≡ word s k x
  pub getinfo-putchunk :
      (s : Store) (key fldid : ℕ) (buf : List ℕ) (k : ℕ)
      → fldid + length buf ≤ 0xffff_ffff
      → getinfo (putchunk s key fldid buf) k ≡ getinfo s k
  pub word-newobj :
      (s : Store) (key flag size k x : ℕ)
      → x < 0xffff_ffff
      → word (newobj key flag size s).1 k x ≡ word s k x
  pub getinfo-newobj :
      (s : Store) (key flag size : ℕ)
      → getinfo s key ≡ none
      → flag ≤ 0xffff_ffff
      → getinfo (newobj key flag size s).1 key ≡ some (flag, size)
  pub getinfo-newobj_other :
      (s : Store) (key flag size k : ℕ)
      → k ≢ key
      → getinfo (newobj key flag size s).1 k ≡ getinfo s k
