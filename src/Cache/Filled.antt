-- ===== src/Cache/Filled.antt =====
-- The reply of the home fills a block (Dogee/DogeeDirectoryCache.cpp), and the cluster is coherent.
use native.Mathlib.Decide.{ℕ_discrete}
use dogee.Prelude.{
  ℕ, suc, ◌+◌, ◌%◌, ◌<◌, ◌≤◌, ◌≡◌, refl, sym, ap, ◌∙◌, ◌≢◌, Option, some, arith, true, ◌==◌, ==_iff,
  subst,
}
use dogee.Cache.Address.{home}
use dogee.Cache.Backend.{Backend}
use dogee.Cache.Bits.{test_bit}
use dogee.Cache.Node.{Node, Cluster, update, set_node, touch}
use dogee.Cache.Server.{get_or, fill}
use dogee.Cache.Client.{touch_block}
use dogee.Cache.Sound.{update-update, update_self}
use dogee.Cache.Coherent.{NodeIsSound, Coherent}
use dogee.Cache.Answers.{Answered}

-- A node whose block `i` holds the words of the block `k` and was used just now.
unfoldable pub filled : Node → ℕ → ℕ → (ℕ → ℕ) → Node
filled n i k words = record n {
  block_cache = update n.block_cache i (record { words = words; lru = n.clock; key = k });
  clock = n.clock + 1;
}

filled-touch :
    (n : Node) (i k : ℕ) (words : ℕ → ℕ)
    → n.clock < 0xffff_ffff
    → touch
        (record n {
          block_cache =
              update n.block_cache i (record (n.block_cache i) { words = words; key = k });
        })
        i
      ≡ filled n i k words
unfolding touch filled
filled-touch n i k words small =
    let next : (n.clock + 1) % 0x1_0000_0000 ≡ n.clock + 1 = omega arith in
    rw
      (
        next,
        update_self n.block_cache i (record (n.block_cache i) { words = words; key = k }),
        update-update n.block_cache i (record (n.block_cache i) { words = words; key = k })
            (record { words = words; lru = n.clock; key = k }),
      )
      refl

module _ (B : Backend) where
  open B use {Store, word, putchunk, getblock}

  pub filled_self :
      (cl : Cluster Store) (id k i : ℕ) (words : ℕ → ℕ)
      → (cl.node id).clock < 0xffff_ffff
      → (touch_block (fill B cl id i k (some words)) id i).node id ≡ filled (cl.node id) i k words
  unfolding touch_block fill set_node
  filled_self cl id k i words small =
      let n = cl.node id in
      let asked : Node = record n {
        block_cache = update n.block_cache i (record (n.block_cache i) { words = words; key = k });
      } in
      let here : update cl.node id asked id ≡ asked = update_self cl.node id asked in
      update_self (update cl.node id asked) id (touch (update cl.node id asked id) i)
      ∙ ap (λ m. touch m i) here
      ∙ filled-touch n i k words small

  pub filled_ne :
      (cl : Cluster Store) (id k i j : ℕ) (words : ℕ → ℕ)
      → j ≢ id
      → (touch_block (fill B cl id i k (some words)) id i).node j ≡ cl.node j
  unfolding touch_block fill set_node
  filled_ne cl id k i j words ne = ground arith

  filled_same :
      (cl : Cluster Store) (id k i : ℕ) (words : ℕ → ℕ)
      → ((j : ℕ)
          → ((touch_block (fill B cl id i k (some words)) id i).node j).cache ≡ (cl.node j).cache)
        × ((j : ℕ)
            → ((touch_block (fill B cl id i k (some words)) id i).node j).directory
              ≡ (cl.node j).directory)
  unfolding touch_block fill set_node touch
  filled_same cl id k i words = (λ j. ground arith, λ j. ground arith)

  pub filled-Coherent :
      (cl : Cluster Store) (id k i : ℕ) (words : ℕ → ℕ)
      → (cl.node id).clock < 0xffff_ffff
      → Answered B cl id k i
      → ((x : ℕ) → x < 32 → words x ≡ word cl.store (k + x))
      → Coherent B (touch_block (fill B cl id i k (some words)) id i)
  unfolding touch_block fill set_node filled
  filled-Coherent cl id k i words small h e =
      let cl' = touch_block (fill B cl id i k (some words)) id i in
      let own = filled_self cl id k i words small in
      let (table, dirs) = filled_same cl id k i words in
      record {
        few = h.few;
        sound = λ j lt. elim (ℕ_discrete j id) [
          | yes same ↦
              subst (λ a. NodeIsSound (word cl.store) (cl'.node a)) (sym same)
                (subst (NodeIsSound (word cl.store)) (sym own) (h.fills words e))
          | no other ↦
              subst (NodeIsSound (word cl.store)) (sym (filled_ne cl id k i j words other))
                (h.others j lt other)
        ];
        shared = λ j k' i' lt e'.
            ap (λ (d : ℕ → Option ℕ). test_bit (get_or (d k') 0) j) (dirs (home cl.caches k'))
            ∙ h.shared j k' i' lt (ap (λ c. c k') (sym (table j)) ∙ e');
      }

  pub filled_rest :
      (cl : Cluster Store) (id k i : ℕ) (words : ℕ → ℕ)
      → (cl.node id).clock < 0xffff_ffff
      → ((touch_block (fill B cl id i k (some words)) id i).store ≡ cl.store)
        × ((touch_block (fill B cl id i k (some words)) id i).caches ≡ cl.caches)
        × ((j : ℕ)
            → ((touch_block (fill B cl id i k (some words)) id i).node j).clock
              ≤ suc (cl.node j).clock)
  unfolding touch_block fill set_node
  filled_rest cl id k i words small =
      let own = filled_self cl id k i words small in
      let cl' = touch_block (fill B cl id i k (some words)) id i in
      (
        refl,
        refl,
        λ j. elim (ℕ_discrete j id) [
          | yes same ↦
              subst (λ a. (cl'.node a).clock ≤ suc (cl.node a).clock) (sym same)
                (subst (λ (m : Node). m.clock ≤ suc (cl.node id).clock) (sym own)
                  (unfold filled in omega arith))
          | no other ↦
              subst (λ (m : Node). m.clock ≤ suc (cl.node j).clock)
                (sym (filled_ne cl id k i j words other)) (omega arith)
        ],
      )

  -- The check that follows the fill succeeds.
  pub filled_key :
      (cl : Cluster Store) (id k i : ℕ) (words : ℕ → ℕ)
      → (cl.node id).clock < 0xffff_ffff
      → ((((touch_block (fill B cl id i k (some words)) id i).node id).block_cache i).key == k)
        ≡ true
  filled_key cl id k i words small = (==_iff _ _).1 (
      ap (λ (m : Node). (m.block_cache i).key) (filled_self cl id k i words small)
      ∙ unfold filled in ground arith)
