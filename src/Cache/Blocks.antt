-- ===== src/Cache/Blocks.antt =====
-- `getblock` of Dogee/DogeeDirectoryCache.cpp: a block for a key that the cache does not have, from
-- the free queue or from a block in use, which is given back to its home.
use native.Mathlib.Decide.{ℕ_discrete}
use dogee.Prelude.{
  ℕ, ◌+◌, ◌%◌, ◌<◌, ◌≤◌, ◌≡◌, refl, sym, ap, ◌∙◌, ◌≢◌, ◌⊎◌, inl, inr, List, [], ◌∷◌, none, some,
  arith, true, false, length, subst,
}
use dogee.Cache.Address.{high_mask, low_mask, home}
use dogee.Cache.Backend.{Backend, copy}
use dogee.Cache.Bits.{test_bit}
use dogee.Cache.Node.{Node, Cluster, update, set_node, ok}
use dogee.Cache.Server.{sharers, writeback}
use dogee.Cache.Client.{getblock, getblock_free, take_free, swap_out, oldest}
use dogee.Cache.Directory.{Same-Sound, GivenBack, writeback_lem}
use dogee.Cache.Sound.{
  Sound, install_free, install_swap, unheld-Sound, update-update, update_self, update_ne,
}
use dogee.Cache.Coherent.{NodeIsSound, Coherent}
use dogee.Cache.Oldest.{IsOldest, oldest_lem}
use dogee.Cache.Answers.{Fills, Fills-Same, Ready}

Fills-take_free :
    {w : ℕ → ℕ} (n : Node) (i k : ℕ) (rest : List ℕ)
    → NodeIsSound w n
    → n.block_queue ≡ i ∷ rest
    → n.cache k ≡ none
    → k % 32 ≡ 0
    → Fills w (take_free n i rest k) i k
unfolding take_free
Fills-take_free {w = w} n i k rest s e new al words h =
    install_free i k rest words (subst (λ q. Sound w n.block_cache q n.cache n.clock) e s) new al h

Fills-swap_out :
    {w : ℕ → ℕ} (n : Node) (i k : ℕ)
    → NodeIsSound w n
    → n.block_queue ≡ []
    → IsOldest 1024 n.block_cache i
    → n.cache k ≡ none
    → k % 32 ≡ 0
    → Fills w (swap_out n i k) i k
unfolding swap_out
Fills-swap_out {w = w} n i k s e old new al words h =
    rw
      (
        e,
        update-update n.block_cache i (record (n.block_cache i) { key = 31; lru = 0xffff_ffff })
            (record { words = words; lru = n.clock; key = k }),
      )
      (install_swap i k words (subst (λ q. Sound w n.block_cache q n.cache n.clock) e s) old.inside
        old.in_use new al h)

List-cases : (xs : List ℕ) → (xs ≡ []) ⊎ ((x : ℕ) × ((rest : List ℕ) × (xs ≡ x ∷ rest)))
List-cases [] = inl refl
List-cases (x ∷ xs) = inr (x, (xs, refl))

module _ {S : Type 0} where
  pub sharers-set_node :
      (cl : Cluster S) (id : ℕ) (n : Node) (h k : ℕ)
      → n.directory ≡ (cl.node id).directory
      → sharers (set_node cl id n) h k ≡ sharers cl h k
  unfolding set_node
  sharers-set_node cl id n h k e = ground arith

  taken_table :
      (cl : Cluster S) (id i k : ℕ) (rest : List ℕ) (j k' i' : ℕ)
      → (k' ≢ k) ⊎ (j ≢ id)
      → ((set_node cl id (take_free (cl.node id) i rest k)).node j).cache k' ≡ some i'
      → (cl.node j).cache k' ≡ some i'
  unfolding set_node take_free
  taken_table cl id i k rest j k' i' part e = ground arith

  swapped_table :
      (cl : Cluster S) (id i k : ℕ) (j k' i' : ℕ)
      → (k' ≢ k) ⊎ (j ≢ id)
      → ((set_node cl id (swap_out (cl.node id) i k)).node j).cache k' ≡ some i'
      → ((cl.node j).cache k' ≡ some i') × ((k' ≢ ((cl.node id).block_cache i).key) ⊎ (j ≢ id))
  unfolding set_node swap_out
  swapped_table cl id i k j k' i' part e = elim (ℕ_discrete j id) [
    | yes same ↦ (ground arith, inl (ground arith))
    | no other ↦ (ground arith, inr other)
  ]

module _ {S : Type 0} where
  getblock_takes :
      (cl : Cluster S) (id k i : ℕ) (rest : List ℕ)
      → (cl.node id).cache k ≡ none
      → (cl.node id).block_queue ≡ i ∷ rest
      → getblock cl id k
        ≡ ok (record {
          cluster = set_node cl id (take_free (cl.node id) i rest k);
          block = i;
          is_pending = false;
        })
  unfolding getblock getblock_free take_free
  getblock_takes cl id k i rest new e = rw (new, getblock, e, getblock_free) refl

  getblock_swaps :
      (cl cl' : Cluster S) (id k i : ℕ)
      → (cl.node id).cache k ≡ none
      → (cl.node id).block_queue ≡ []
      → oldest 1024 0 (cl.node id).block_cache 0xffff_ffff none ≡ some i
      → writeback (set_node cl id (swap_out (cl.node id) i k)) id ((cl.node id).block_cache i).key
        ≡ ok cl'
      → getblock cl id k ≡ ok (record { cluster = cl'; block = i; is_pending = false })
  unfolding getblock getblock_free
  getblock_swaps cl cl' id k i new e found back =
      rw (new, getblock, e, getblock_free, found, back) refl

module _ (B : Backend) where
  open B use {Store, word}

  -- What `getblock` returns for a key that is not in the table.
  pub record Fetched (cl cl' : Cluster Store) (id k i : ℕ) (w : ℕ → ℕ) : Type 0 where
    pub ready : Ready B cl' id k i w
    pub stores : cl'.store ≡ cl.store
    pub count : cl'.caches ≡ cl.caches
    pub clocks : (j : ℕ) → (cl'.node j).clock ≡ (cl.node j).clock

  module _ (cl : Cluster Store) (id k addr : ℕ) (v : List ℕ) (h : Coherent B cl)
      (lt : id < cl.caches) (new : (cl.node id).cache k ≡ none) (al : k ≡ high_mask addr)
      (fits : low_mask addr + length v ≤ 32) where
    own_sound : NodeIsSound (copy addr v (word cl.store)) (cl.node id)
    own_sound =
        unheld-Sound addr v (h.sound id lt) (subst (λ a. (cl.node id).cache a ≡ none) al new) fits

    Fetched-free :
        (i : ℕ) (rest : List ℕ)
        → (cl.node id).block_queue ≡ i ∷ rest
        → Fetched cl
            (set_node cl id (take_free (cl.node id) i rest k))
            id
            k
            i
            (copy addr v (word cl.store))
    unfolding set_node
    Fetched-free i rest e =
        let n = cl.node id in
        let n' = take_free n i rest k in
        let own : update cl.node id n' id ≡ n' = update_self cl.node id n' in
        record {
          ready = record {
            few = h.few;
            others = λ j lt' ne.
                subst (NodeIsSound (word cl.store)) (sym (update_ne cl.node id j n' ne))
                  (h.sound j lt');
            fills =
                subst (λ m. Fills (copy addr v (word cl.store)) m i k) (sym own)
                  (Fills-take_free n i k rest own_sound e new (omega arith));
            shared = λ j k' i' lt' part e'.
                ap (λ b. test_bit b j)
                  (sharers-set_node cl id n' (home cl.caches k') k' (unfold take_free in refl))
                ∙ h.shared j k' i' lt' (taken_table cl id i k rest j k' i' part e');
          };
          stores = refl;
          count = refl;
          clocks = λ j. unfold take_free in ground arith;
        }

    swapped_out :
        (cl' : Cluster Store) (i : ℕ)
        → (cl.node id).block_queue ≡ []
        → IsOldest 1024 (cl.node id).block_cache i
        → GivenBack
            (set_node cl id (swap_out (cl.node id) i k))
            cl'
            id
            ((cl.node id).block_cache i).key
        → Fetched cl cl' id k i (copy addr v (word cl.store))
    unfolding set_node
    swapped_out cl' i e old g =
        let n = cl.node id in
        let n' = swap_out n i k in
        let w' = copy addr v (word cl.store) in
        let own : update cl.node id n' id ≡ n' = update_self cl.node id n' in
        record {
          ready = record {
            few = rw g.count h.few;
            others = λ j lt' ne.
                subst (λ s. NodeIsSound (word s) (cl'.node j)) (sym g.stores)
                  (Same-Sound (g.nodes j) (
                    subst (NodeIsSound (word cl.store)) (sym (update_ne cl.node id j n' ne))
                      (h.sound j (rw (sym g.count) lt'))));
            fills = Fills-Same w' i k (g.nodes id) (
                subst (λ m. Fills w' m i k) (sym own)
                  (Fills-swap_out n i k own_sound e old new (omega arith)));
            shared = λ j k' i' lt' part e'.
                let lt'' : j < cl.caches = rw (sym g.count) lt' in
                let (was, part') =
                  swapped_table cl id i k j k' i' part
                    (ap (λ c. c k') (sym (g.nodes j).table) ∙ e') in
                subst (λ a. test_bit (sharers cl' (home a k') k') j ≡ true) (sym g.count)
                  (g.bits j k' part'
                    ∙ ap (λ b. test_bit b j)
                        (sharers-set_node cl id n' (home cl.caches k') k' (unfold swap_out in refl))
                    ∙ h.shared j k' i' lt'' was);
          };
          stores = g.stores;
          count = g.count;
          clocks = λ j. (g.nodes j).time ∙ unfold swap_out in ground arith;
        }

    pub getblock_lem :
        (cl.node id).clock < 0xffff_ffff
        → (cl' : Cluster Store) × ((i : ℕ) × ((getblock cl id k
                ≡ ok (record { cluster = cl'; block = i; is_pending = false }))
              × Fetched cl cl' id k i (copy addr v (word cl.store))))
    getblock_lem small = elim (List-cases (cl.node id).block_queue) [
      | inl e ↦
          let (i, (found, old)) =
            oldest_lem
              (subst
                (λ q.
                  Sound (word cl.store) (cl.node id).block_cache q (cl.node id).cache
                    (cl.node id).clock)
                e (h.sound id lt))
              small in
          let (cl', (back, g)) =
            writeback_lem (set_node cl id (swap_out (cl.node id) i k)) id
              ((cl.node id).block_cache i).key in
          (cl', (i, (getblock_swaps cl cl' id k i new e found back, swapped_out cl' i e old g)))
      | inr (i, (rest, e)) ↦ (
        set_node cl id (take_free (cl.node id) i rest k),
        (i, (getblock_takes cl id k i rest new e, Fetched-free i rest e)),
      )
    ]
