-- ===== src/Cache/Hits.antt =====
-- A write that hits (`doput` of Dogee/DogeeDirectoryCache.cpp), and what a write promises.
use dogee.Prelude.{
  ℕ, suc, ◌+◌, ◌%◌, ◌<◌, ◌≤◌, ◌≡◌, refl, sym, ap, ◌∙◌, inr, List, some, arith, true, ◌==◌, length,
  ==_iff, subst,
}
use dogee.Cache.Address.{high_mask, low_mask, home}
use dogee.Cache.Backend.{Backend, copy}
use dogee.Cache.Bits.{test_bit}
use dogee.Cache.Node.{CacheBlock, Node, Cluster, update, set_node, touch, ok}
use dogee.Cache.Server.{sharers, server_write, write}
use dogee.Cache.Client.{touch_block, copy_block}
use dogee.Cache.Directory.{home-high_mask}
use dogee.Cache.Sound.{rewrite-Sound, rewritten, update-update, update_self, update_ne}
use dogee.Cache.Coherent.{NodeIsSound, Coherent}
use dogee.Cache.Renewal.{renew_rest}
use dogee.Cache.Writes.{Written, told, told-Coherent, clock-renew, word_after}
use dogee.Cache.Blocks.{sharers-set_node}

-- Every block can be read from the store.
abbrev pub Readable : Backend → Type 0
Readable B = (s : B.Store) (addr : ℕ) → (b : ℕ → ℕ) × (B.getblock s addr ≡ some b)

-- The node after its block `i` was touched and written.
unfoldable pub written_node : Node → ℕ → ℕ → List ℕ → Node
written_node n i addr v = record n {
  block_cache = update n.block_cache i (rewritten addr v n.clock (n.block_cache i));
  clock = n.clock + 1;
}

copied : Node → ℕ → ℕ → List ℕ → Node
copied n i addr v = record n {
  block_cache =
      update n.block_cache i
        (record (n.block_cache i) { words = copy (low_mask addr) v (n.block_cache i).words });
}

copied-touch :
    (n : Node) (i addr : ℕ) (v : List ℕ)
    → n.clock < 0xffff_ffff
    → copied (touch n i) i addr v ≡ written_node n i addr v
unfolding copied touch written_node
copied-touch n i addr v small =
    let next : (n.clock + 1) % 0x1_0000_0000 ≡ n.clock + 1 = omega arith in
    let used : CacheBlock = record (n.block_cache i) { lru = n.clock } in
    rw
      (
        next,
        update_self n.block_cache i used,
        update-update n.block_cache i used (rewritten addr v n.clock (n.block_cache i)),
      )
      refl

module _ (B : Backend) where
  open B use {Store, word, putchunk, getblock-word}

  -- The store has the words `v` at the address, all caches agree with it, and no clock made more
  -- than one step.
  pub record Stores (cl cl' : Cluster Store) (addr : ℕ) (v : List ℕ) : Type 0 where
    pub coherent : Coherent B cl'
    pub words : word cl'.store ≡ copy addr v (word cl.store)
    pub count : cl'.caches ≡ cl.caches
    pub clocks : (j : ℕ) → j < cl.caches → (cl'.node j).clock ≤ suc (cl.node j).clock

  pub write-told :
      (cl : Cluster Store) (id addr : ℕ) (v : List ℕ)
      → write B cl id addr v ≡ ok (told B cl id addr v)
  unfolding write server_write
  write-told cl id addr v =
      let here : (home cl.caches addr == home cl.caches addr) ≡ true = (==_iff _ _).1 refl in
      let block : home cl.caches (high_mask addr) ≡ home cl.caches addr =
        home-high_mask cl.caches addr in
      rw (block, here) (ground arith)

  pub written_self :
      (cl : Cluster Store) (id i addr : ℕ) (v : List ℕ)
      → (cl.node id).clock < 0xffff_ffff
      → copy_block (touch_block cl id i) id i (low_mask addr) v
        ≡ set_node cl id (written_node (cl.node id) i addr v)
  unfolding copy_block touch_block set_node copied
  written_self cl id i addr v small =
      let n = cl.node id in
      let t = touch n i in
      let here : update cl.node id t id ≡ t = update_self cl.node id t in
      ap (λ m. set_node (set_node cl id t) id (copied m i addr v)) here
      ∙ ap (λ f. record cl { node = f }) (update-update cl.node id t (copied t i addr v))
      ∙ ap (set_node cl id) (copied-touch n i addr v small)

  hit-Written :
      (cl : Cluster Store) (id i addr : ℕ) (v : List ℕ)
      → Coherent B cl
      → id < cl.caches
      → (cl.node id).cache (high_mask addr) ≡ some i
      → low_mask addr + length v ≤ 32
      → Written B (set_node cl id (written_node (cl.node id) i addr v)) id addr v
  unfolding set_node written_node
  hit-Written cl id i addr v h lt e fits =
      let n = cl.node id in
      let n' = written_node n i addr v in
      record {
        few = h.few;
        others = λ j lt' ne.
            subst (NodeIsSound (word cl.store)) (sym (update_ne cl.node id j n' ne))
              (h.sound j lt');
        own = subst (NodeIsSound (copy addr v (word cl.store))) (sym (update_self cl.node id n')) (
            rewrite-Sound addr v i n.clock (n.clock + 1) (h.sound id lt) e fits (omega arith)
              (inr (omega arith)) (omega arith));
        shared = λ j k' i' lt' e'.
            ap (λ b. test_bit b j) (sharers-set_node cl id n' (home cl.caches k') k' refl)
            ∙ h.shared j k' i' lt' (ground arith);
      }

  pub hit-Stores :
      (cl : Cluster Store) (id i addr : ℕ) (v : List ℕ)
      → Coherent B cl
      → id < cl.caches
      → (cl.node id).cache (high_mask addr) ≡ some i
      → low_mask addr + length v ≤ 32
      → Stores cl (told B (set_node cl id (written_node (cl.node id) i addr v)) id addr v) addr v
  unfolding set_node
  hit-Stores cl id i addr v h lt e fits =
      let n = cl.node id in
      let n' = written_node n i addr v in
      let k = high_mask addr in
      let cl2 = set_node cl id n' in
      let old = sharers cl2 (home cl.caches k) k in
      let mid : Cluster Store = record cl2 { store = putchunk cl.store addr v } in
      let (same_store, same_caches) = renew_rest id addr v (home cl.caches k) old mid in
      record {
        coherent =
            told-Coherent B cl2 id addr v fits (omega arith)
              (hit-Written cl id i addr v h lt e fits);
        words = ap word same_store ∙ word_after B cl.store addr v fits;
        count = same_caches;
        clocks = λ j lt'.
            rw (clock-renew (home cl.caches k) id addr v old j mid lt')
              (unfold written_node in ground arith);
      }
