-- ===== src/Cache/Sound.antt =====
-- What holds of the blocks, the hash table and the free queue of one node of the directory cache
-- (include/DogeeDirectoryCache.h) while no call runs, and the changes that keep it.
use mathlib.Core.Path.{fun_ext}
use dogee.Prelude.{
  ℕ, suc, ◌+◌, ◌-◌, ◌%◌, ◌<◌, ◌≤◌, ◌≡◌, sym, ◌∙◌, ap, ◌≢◌, ◌⊎◌, inl, inr, List, [], ◌∷◌, Option,
  none, some, arith, ◌==◌, length, Bool-cases, ==_iff, subst,
}
use native.Mathlib.Decide.{ℕ_discrete}
use dogee.Cache.Address.{high_mask, low_mask}
use dogee.Cache.Backend.{copy}
use dogee.Cache.Node.{CacheBlock, update}

abbrev pub Blocks : Type 0
Blocks = ℕ → CacheBlock

abbrev pub Table : Type 0
Table = ℕ → Option ℕ

abbrev pub In : ℕ → List ℕ → Type 0
In i [] = ⊥
In i (x ∷ xs) = (i ≡ x) ⊎ In i xs

abbrev pub Distinct : List ℕ → Type 0
Distinct [] = Unit {0}
Distinct (x ∷ xs) = (¬ In x xs) × Distinct xs

-- `w` are the words of the store, which the blocks in use copy.
pub record Sound (w : ℕ → ℕ) (blocks : Blocks) (queue : List ℕ) (cache : Table) (clock : ℕ)
    : Type 0 where
  pub bounded : (k i : ℕ) → cache k ≡ some i → i < 1024
  pub keyed : (k i : ℕ) → cache k ≡ some i → (blocks i).key ≡ k
  pub aligned : (k i : ℕ) → cache k ≡ some i → k % 32 ≡ 0
  pub used : (i : ℕ) → (blocks i).key ≢ 31 → cache (blocks i).key ≡ some i
  pub free : (i : ℕ) → In i queue → ((blocks i).key ≡ 31) × (i < 1024)
  pub covered : (i : ℕ) → i < 1024 → (blocks i).key ≡ 31 → In i queue
  pub distinct : Distinct queue
  pub recent : (i : ℕ) → (blocks i).key ≢ 31 → (blocks i).lru < clock
  pub current : (k i x : ℕ) → cache k ≡ some i → x < 32 → (blocks i).words x ≡ w (k + x)

pub update_self {ℓ} : {A : Type ℓ} (m : ℕ → A) (k : ℕ) (v : A) → update m k v k ≡ v
update_self m k v = ground arith

pub update_ne {ℓ} : {A : Type ℓ} (m : ℕ → A) (k j : ℕ) (v : A) → j ≢ k → update m k v j ≡ m j
update_ne m k j v h = ground arith

pub update-update {ℓ} :
    {A : Type ℓ} (m : ℕ → A) (k : ℕ) (u v : A) → update (update m k u) k v ≡ update m k v
update-update m k u v = fun_ext λ j. ground arith

pub update_idle {ℓ} : {A : Type ℓ} (m : ℕ → A) (k : ℕ) → update m k (m k) ≡ m
update_idle m k =
    fun_ext λ j. elim (Bool-cases (j == k)) [
      | inl e ↦ rw e (ap m (sym ((==_iff j k).0 e)))
      | inr e ↦ rw e
    ]

module _ {w : ℕ → ℕ} {b : Blocks} {c : Table} {t : ℕ} where
  -- A block from the free queue, filled for the key `k`.
  pub install_free :
      (i k : ℕ) (rest : List ℕ) (words : ℕ → ℕ)
      → Sound w b (i ∷ rest) c t
      → c k ≡ none
      → k % 32 ≡ 0
      → ((x : ℕ) → x < 32 → words x ≡ w (k + x))
      → Sound w
          (update b i (record { words = words; lru = t; key = k }))
          rest
          (update c k (some i))
          (t + 1)
  install_free i k rest words s new al fill = record {
    bounded = λ k' i' e. ground (arith, s.bounded k' i', s.free i);
    keyed = λ k' i' e. ground (arith, s.keyed k' i', s.free i, s.aligned k' i');
    aligned = λ k' i' e. ground (arith, s.aligned k' i');
    used = λ i' h. ground (arith, s.used i');
    free = λ i' h. ground (arith, s.free i', s.distinct.0);
    covered = λ i' lt e. ground (arith, s.covered i' lt);
    distinct = s.distinct.1;
    recent = λ i' h. ground (arith, s.recent i');
    current = λ k' i' x e h.
        ground (arith, s.current k' i' x, fill x h, s.keyed k' i', s.free i, s.aligned k' i');
  }

  -- The block in use `i`, taken over for the key `k` when no block is free.
  pub install_swap :
      (i k : ℕ) (words : ℕ → ℕ)
      → Sound w b [] c t
      → i < 1024
      → (b i).key ≢ 31
      → c k ≡ none
      → k % 32 ≡ 0
      → ((x : ℕ) → x < 32 → words x ≡ w (k + x))
      → Sound w
          (update b i (record { words = words; lru = t; key = k }))
          []
          (update (update c (b i).key none) k (some i))
          (t + 1)
  install_swap i k words s lt inuse new al fill = record {
    bounded = λ k' i' e. ground (arith, s.bounded k' i');
    keyed = λ k' i' e. ground (arith, s.keyed k' i', s.used i);
    aligned = λ k' i' e. ground (arith, s.aligned k' i');
    used = λ i' h. ground (arith, s.used i', s.used i);
    free = λ i' h. absurd h;
    covered = λ i' lt' e. ground (arith, s.covered i' lt');
    distinct = tt;
    recent = λ i' h. ground (arith, s.recent i');
    current = λ k' i' x e h. ground (arith, s.current k' i' x, fill x h, s.keyed k' i', s.used i);
  }

-- The words of a chunk, within the block of their address and outside of it.
copy_inside :
    (addr : ℕ) (v : List ℕ) (w f : ℕ → ℕ) (x : ℕ)
    → f x ≡ w (high_mask addr + x)
    → copy (low_mask addr) v f x ≡ copy addr v w (high_mask addr + x)
unfolding copy
copy_inside addr v w f x e =
    let back : high_mask addr + x - addr ≡ x - low_mask addr = omega arith in rw back (ground arith)

pub copy_outside :
    (addr : ℕ) (v : List ℕ) (w : ℕ → ℕ) (k x : ℕ)
    → low_mask addr + length v ≤ 32
    → k % 32 ≡ 0
    → k ≢ high_mask addr
    → x < 32
    → copy addr v w (k + x) ≡ w (k + x)
unfolding copy
copy_outside addr v w k x fits al h lt = ground arith

-- A block with the words of a chunk copied into it.
abbrev pub rewritten : ℕ → List ℕ → ℕ → CacheBlock → CacheBlock
rewritten addr v l blk = record { words = copy (low_mask addr) v blk.words; lru = l; key = blk.key }

module _ {w : ℕ → ℕ} {b : Blocks} {q : List ℕ} {c : Table} {t : ℕ} where
  -- A block that is used again, with new words that the store holds too.
  pub rewrite-Sound :
      (addr : ℕ) (v : List ℕ) (i l : ℕ) (t' : ℕ)
      → Sound w b q c t
      → c (high_mask addr) ≡ some i
      → low_mask addr + length v ≤ 32
      → t ≤ t'
      → ((b i).lru ≡ l) ⊎ (suc l ≤ t')
      → l < t'
      → Sound (copy addr v w) (update b i (rewritten addr v l (b i))) q c t'
  rewrite-Sound addr v i l t' s e fits le pick lt = record {
    bounded = s.bounded;
    keyed = λ k' i' e'. ground (arith, s.keyed k' i' e');
    aligned = s.aligned;
    used = λ i' h. ground (arith, s.used i');
    free = λ i' h. ground (arith, s.free i' h);
    covered = λ i' lt' e'. ground (arith, s.covered i' lt');
    distinct = s.distinct;
    recent = λ i' h. ground (arith, s.recent i');
    current = λ k' i' x e' h. elim (ℕ_discrete k' (high_mask addr)) [
      | yes same ↦
          let hit : i' ≡ i = ground arith in
          subst (λ a. (update b i (rewritten addr v l (b i)) i').words x ≡ copy addr v w (a + x))
            (sym same)
            (ground (arith, copy_inside addr v w (b i).words x, s.current (high_mask addr) i x e h))
      | no other ↦
          rw (copy_outside addr v w k' x fits (s.aligned k' i' e') other h)
            (ground (arith, s.current k' i' x e' h, s.keyed k' i' e', s.keyed (high_mask addr) i e))
    ];
  }

  -- A node that does not hold the block of the address.
  pub unheld-Sound :
      (addr : ℕ) (v : List ℕ)
      → Sound w b q c t
      → c (high_mask addr) ≡ none
      → low_mask addr + length v ≤ 32
      → Sound (copy addr v w) b q c t
  unheld-Sound addr v s e fits = record {
    bounded = s.bounded;
    keyed = s.keyed;
    aligned = s.aligned;
    used = s.used;
    free = s.free;
    covered = s.covered;
    distinct = s.distinct;
    recent = s.recent;
    current = λ k' i' x e' h.
        s.current k' i' x e' h
        ∙ sym (copy_outside addr v w k' x fits (s.aligned k' i' e') (λ same. cc (ap c same)) h);
  }
