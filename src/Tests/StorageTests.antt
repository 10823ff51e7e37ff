-- ===== src/Tests/StorageTests.antt =====
-- Concrete runs of the storage of words, over a server that is a table and never fails.
use dogee.Prelude.{
  ℕ, zero, suc, ◌+◌, ◌<◌, ◌≤◌, ◌≡◌, refl, sym, ap, ◌∙◌, List, [], ◌∷◌, Option, none, some, true,
  false, inl, inr, arith, Option-cases, ◌==◌, if◌then◌else◌,
}
use native.Mathlib.Decide.{ℕ_discrete}
use dogee.Cache.Node.{ok, Cluster, update}
use dogee.Cache.Sound.{update_self, update_ne}
use dogee.Cache.Memory.{Call, reads, writes, memory_run, cache_run, start}
use dogee.Storage.Memcached.{Item, Among, Memcached, get_chunk, get_word, store_items, clear}
use dogee.Storage.Words.{get_chunk_lem, words_backend, cached_memcached_refines_memory}

abbrev pub Table : Type 0
Table = ℕ → Option ℕ

-- The items among the `n` keys from `k` on.
abbrev pub items : Table → ℕ → ℕ → List Item
items s k zero = []
items s k (suc n) = elim (s k) [
  | none ↦ items s (suc k) n
  | some v ↦ record { key = k; value = v } ∷ items s (suc k) n
]

pub items-missing : (s : Table) (k n : ℕ) → s k ≡ none → items s k (suc n) ≡ items s (suc k) n
items-missing s k n e = rw (e, items) refl

pub items-found :
    (s : Table) (k n v : ℕ)
    → s k ≡ some v
    → items s k (suc n) ≡ record { key = k; value = v } ∷ items s (suc k) n
items-found s k n v e = rw (e, items) refl

pub items_sound :
    (s : Table) (k n : ℕ) (item : Item)
    → Among item (items s k n)
    → (k ≤ item.key) × (item.key < k + n) × (s item.key ≡ some item.value)
items_sound s k zero item a = absurd a
items_sound s k (suc n) item a = elim (Option-cases (s k)) [
  | inl e ↦
      let (l, u, f) = items_sound s (suc k) n item (rw (items-missing s k n e) at a) in
      (omega arith, omega arith, f)
  | inr (v, e) ↦ elim (rw (items-found s k n v e) at a) [
    | inl same ↦
        let here : item.key ≡ k = ap (λ (i : Item). i.key) same in
        (omega arith, omega arith, ap s here ∙ e ∙ ap some (sym (ap (λ (i : Item). i.value) same)))
    | inr later ↦
        let (l, u, f) = items_sound s (suc k) n item later in (omega arith, omega arith, f)
  ]
]

pub items_complete :
    (s : Table) (k n x v : ℕ)
    → true ≡ true
    → k ≤ x
    → x < k + n
    → s x ≡ some v
    → Among (record { key = x; value = v }) (items s k n)
items_complete s k zero x v t lo hi f = absurd (omega arith)
items_complete s k (suc n) x v t lo hi f = elim (ℕ_discrete x k) [
  | yes e ↦ rw ((items-found s k n v (sym (ap s e) ∙ f)), e) (inl refl)
  | no other ↦
      let later = items_complete s (suc k) n x v t (omega arith) (omega arith) f in
      elim (Option-cases (s k)) [
        | inl e ↦ rw (items-missing s k n e) later
        | inr (w, e) ↦ rw (items-found s k n w e) (inr later)
      ]
]

abbrev pub table_server : Memcached
table_server = record {
  Server = Table;
  lookup = λ s k. s k;
  memcached_set = λ s k v. update s k (some v);
  mget = λ s k n. (items s k n, true);
  set_self = λ s k v. update_self s k (some v);
  set_ne = λ s k v j h. update_ne s k j (some v) h;
  mget_sound = items_sound;
  mget_complete = items_complete;
}

-- One item, at the address 5.
abbrev one_item : Table
one_item = λ k. if k == 5 then some 9 else none

get_chunk_lem_example :
    (2 < 3
      → (get_chunk table_server one_item 3 3 (λ y. 1) false).0 2
        ≡ get_word table_server one_item (3 + 2))
    × (3 ≤ 2 → (get_chunk table_server one_item 3 3 (λ y. 1) false).0 2 ≡ 1)
get_chunk_lem_example =
    get_chunk_lem table_server one_item 3 3 (λ y. 1) false 2 (λ j n. refl) (omega arith)

abbrev first_block : ℕ → ℕ
first_block = store_items (items one_item 0 32) 0 (clear 0 32 (λ y. 0))

abbrev two_calls : List Call
two_calls = writes 0 0 40 7 ∷ reads 1 0 5 ∷ []

cached_memcached_refines_memory_example :
    (cl' : Cluster Table) × ((cache_run
          (words_backend table_server)
          (start (words_backend table_server) 2 one_item (λ j i x. 0))
          two_calls
        ≡ ok (cl', (memory_run (get_word table_server one_item) two_calls).1))
      × (get_word table_server cl'.store
          ≡ (memory_run (get_word table_server one_item) two_calls).0))
cached_memcached_refines_memory_example =
    cached_memcached_refines_memory table_server 2 one_item (λ j i x. 0) two_calls (λ s' k n. refl)
      (omega arith) (omega arith, (omega arith, tt)) (omega arith)
