-- ===== src/Tests/BlockTests.antt =====
-- Concrete runs of the storage of blocks, over a server that is a table and never fails.
use dogee.Prelude.{
  ℕ, zero, suc, ◌+◌, ◌<◌, ◌≤◌, ◌≡◌, refl, sym, ap, ◌∙◌, List, [], ◌∷◌, Option, none, some, true,
  inl, inr, arith, Option-cases, ◌==◌, if◌then◌else◌,
}
use native.Mathlib.Decide.{ℕ_discrete}
use dogee.Cache.Backend.{copy}
use dogee.Cache.Node.{update}
use dogee.Cache.Sound.{update_self, update_ne}
use dogee.Storage.Blocks.{BlockItem, Within, BlockMemcached, put_chunked, chunked_get}
use dogee.Storage.ChunkPut.{get-put_chunked}

abbrev BlockTable : Type 0
BlockTable = ℕ → Option (ℕ → ℕ)

-- The blocks among the `n` keys from `k` on.
abbrev blocks : BlockTable → ℕ → ℕ → List BlockItem
blocks s k zero = []
blocks s k (suc n) = elim (s k) [
  | none ↦ blocks s (suc k) n
  | some v ↦ record { key = k; value = v } ∷ blocks s (suc k) n
]

blocks-missing : (s : BlockTable) (k n : ℕ) → s k ≡ none → blocks s k (suc n) ≡ blocks s (suc k) n
blocks-missing s k n e = rw (e, blocks) refl

blocks-found :
    (s : BlockTable) (k n : ℕ) (v : ℕ → ℕ)
    → s k ≡ some v
    → blocks s k (suc n) ≡ record { key = k; value = v } ∷ blocks s (suc k) n
blocks-found s k n v e = rw (e, blocks) refl

blocks_sound :
    (s : BlockTable) (k n : ℕ) (item : BlockItem)
    → Within item (blocks s k n)
    → (k ≤ item.key) × (item.key < k + n) × (s item.key ≡ some item.value)
blocks_sound s k zero item a = absurd a
blocks_sound s k (suc n) item a = elim (Option-cases (s k)) [
  | inl e ↦
      let (l, u, f) = blocks_sound s (suc k) n item (rw (blocks-missing s k n e) at a) in
      (omega arith, omega arith, f)
  | inr (v, e) ↦ elim (rw (blocks-found s k n v e) at a) [
    | inl same ↦
        let here : item.key ≡ k = ap (λ (i : BlockItem). i.key) same in
        (
          omega arith,
          omega arith,
          ap s here ∙ e ∙ ap some (sym (ap (λ (i : BlockItem). i.value) same)),
        )
    | inr later ↦
        let (l, u, f) = blocks_sound s (suc k) n item later in (omega arith, omega arith, f)
  ]
]

blocks_complete :
    (s : BlockTable) (k n x : ℕ) (v : ℕ → ℕ)
    → true ≡ true
    → k ≤ x
    → x < k + n
    → s x ≡ some v
    → Within (record { key = x; value = v }) (blocks s k n)
blocks_complete s k zero x v t lo hi f = absurd (omega arith)
blocks_complete s k (suc n) x v t lo hi f = elim (ℕ_discrete x k) [
  | yes e ↦ rw ((blocks-found s k n v (sym (ap s e) ∙ f)), e) (inl refl)
  | no other ↦
      let later = blocks_complete s (suc k) n x v t (omega arith) (omega arith) f in
      elim (Option-cases (s k)) [
        | inl e ↦ rw (blocks-missing s k n e) later
        | inr (w, e) ↦ rw (blocks-found s k n w e) (inr later)
      ]
]

abbrev block_server : BlockMemcached
block_server = record {
  Server = BlockTable;
  lookup = λ s k. s k;
  memcached_set = λ s k v. update s k (some v);
  mget = λ s k n. (blocks s k n, true);
  set_self = λ s k v. update_self s k (some v);
  set_ne = λ s k v j h. update_ne s k j (some v) h;
  mget_sound = blocks_sound;
  mget_complete = blocks_complete;
}

-- One block, the second one of the object 0.
abbrev one_block : BlockTable
one_block = λ k. if k == 1 then some (λ y. y + 100) else none

-- A chunk that begins in the first block and ends in the second.
get-put_chunked_example :
    chunked_get block_server (put_chunked block_server one_block 0 31 (7 ∷ 8 ∷ 9 ∷ [])) 0 34
    ≡ copy 31 (7 ∷ 8 ∷ 9 ∷ []) (chunked_get block_server one_block 0) 34
get-put_chunked_example =
    get-put_chunked block_server (λ s k n. refl) one_block 0 31 0 34 (7 ∷ 8 ∷ 9 ∷ []) (omega arith)
      (omega arith) (omega arith)
