-- ===== src/Cache/Backend.antt =====
-- What the cache relies on of a storage backend (`SoStorage` of include/DogeeStorage.h): the calls
-- `putchunk` and `getblock`, over the words that the backend holds.
use mathlib.Core.Option.{some-injective}
use dogee.Prelude.{
  ap, sym, ℕ, ◌+◌, ◌-◌, ◌%◌, ◌≡◌, refl, ◌<◌, ◌≤◌, List, Option, some, length, get_or, leb, ltb,
  ◌&&◌, if◌then◌else◌,
}

-- `memcpy(dst + off, v, length)`: the words `v` written over `words` from `off` on.
unfoldable pub copy : ℕ → List ℕ → (ℕ → ℕ) → ℕ → ℕ
copy off v words x = if leb off x && ltb x (off + length v) then get_or v (x - off) 0 else words x

pub record Backend : Type 1 where
  pub Store : Type 0
  -- `putchunk(addr >> 32, addr & 0xffffffff, len, v)`, which the cache calls for words of one block
  pub putchunk : Store → ℕ → List ℕ → Store
  -- `getblock(addr, buf)`; `none` where it does not return `SoOK`
  pub getblock : Store → ℕ → Option (ℕ → ℕ)
  pub word : Store → ℕ → ℕ
  pub word-putchunk :
      (s : Store) (addr : ℕ) (v : List ℕ) (x : ℕ)
      → addr % 32 + length v ≤ 32
      → word (putchunk s addr v) x ≡ copy addr v (word s) x
  pub getblock-word :
      (s : Store) (addr : ℕ) (b : ℕ → ℕ) (x : ℕ)
      → getblock s addr ≡ some b
      → x < 32
      → b x ≡ word s (addr + x)

pub flat_getblock :
    (s : ℕ → ℕ) (addr : ℕ) (b : ℕ → ℕ) (x : ℕ)
    → some (λ y. s (addr + y)) ≡ some b
    → x < 32
    → b x ≡ s (addr + x)
flat_getblock s addr b x e h = ap (λ (f : ℕ → ℕ). f x) (sym (some-injective _ _ e))

-- A memory that never fails.
abbrev pub flat : Backend
flat = record {
  Store = ℕ → ℕ;
  putchunk = λ s addr v. copy addr v s;
  getblock = λ s addr. some (λ x. s (addr + x));
  word = λ s. s;
  word-putchunk = λ s addr v x fits. refl;
  getblock-word = flat_getblock;
}
