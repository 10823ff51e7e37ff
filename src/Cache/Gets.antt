-- ===== src/Cache/Gets.antt =====
-- A read through the directory cache: `doget` of Dogee/DogeeDirectoryCache.cpp.
use native.Mathlib.Decide.{ℕ_discrete}
use mathlib.Core.Path.{fun_ext}
use dogee.Prelude.{
  ℕ, suc, ◌+◌, ◌%◌, ◌<◌, ◌≤◌, ◌≡◌, refl, sym, ap, ◌∙◌, inl, inr, [], none, some, arith, true, false,
  ◌==◌, Option-cases, ==_iff, subst,
}
use dogee.Cache.Address.{high_mask, home}
use dogee.Cache.Backend.{Backend, copy}
use dogee.Cache.Bits.{test_bit, set_bit}
use dogee.Cache.Node.{Node, Cluster, update, set_node, touch, Run, ok}
use dogee.Cache.Server.{sharers, set_directory, fill, misdirected, server_read_miss, read_miss}
use dogee.Cache.Client.{getblock, touch_block, get_hit, get_new, get_miss, doget}
use dogee.Cache.Directory.{set_directory-Same}
use dogee.Cache.Sound.{update_self, update_ne}
use dogee.Cache.Coherent.{NodeIsSound, Coherent}
use dogee.Cache.Answers.{Ready, Answered-read}
use dogee.Cache.Filled.{filled-Coherent, filled_rest}
use dogee.Cache.Blocks.{getblock_lem, sharers-set_node}
use dogee.Cache.Hits.{Readable}

pub copy_nothing : (k : ℕ) (w : ℕ → ℕ) → copy k [] w ≡ w
unfolding copy
copy_nothing k w = fun_ext (λ x. ground arith)

module _ (B : Backend) where
  open B use {Store, word, putchunk, getblock-word}

  -- The store is as it was, all caches agree with it, and no clock made more than one step.
  pub record Kept (cl cl' : Cluster Store) : Type 0 where
    pub coherent : Coherent B cl'
    pub same : cl'.store ≡ cl.store
    pub count : cl'.caches ≡ cl.caches
    pub clocks : (j : ℕ) → j < cl.caches → (cl'.node j).clock ≤ suc (cl.node j).clock

  -- What a read of the block `k` returns.
  abbrev pub Reads : Cluster Store → ℕ → Run (Cluster Store × (ℕ → ℕ)) → Type 0
  Reads cl k r =
      (cl' : Cluster Store) × ((words : ℕ → ℕ) × ((r ≡ ok (cl', words))
          × Kept cl cl'
          × ((x : ℕ) → x < 32 → words x ≡ word cl.store (k + x))))

  touched_node : Node → ℕ → Node
  touched_node n i = record n {
    block_cache = update n.block_cache i (record (n.block_cache i) { lru = n.clock });
    clock = n.clock + 1;
  }

  touched-Sound :
      (w : ℕ → ℕ) (n : Node) (i : ℕ) → NodeIsSound w n → NodeIsSound w (touched_node n i)
  unfolding touched_node
  touched-Sound w n i s = record {
    bounded = s.bounded;
    keyed = λ k' i' e. ground (arith, s.keyed k' i' e);
    aligned = s.aligned;
    used = λ i' h. ground (arith, s.used i');
    free = λ i' h. ground (arith, s.free i' h);
    covered = λ i' lt e. ground (arith, s.covered i' lt);
    distinct = s.distinct;
    recent = λ i' h. ground (arith, s.recent i');
    current = λ k' i' x e lt. ground (arith, s.current k' i' x e lt);
  }

  touch_small : (n : Node) (i : ℕ) → n.clock < 0xffff_ffff → touch n i ≡ touched_node n i
  unfolding touch touched_node
  touch_small n i small =
      let next : (n.clock + 1) % 0x1_0000_0000 ≡ n.clock + 1 = omega arith in rw next refl

  -- A block in use is touched only.
  touched-Kept :
      (cl : Cluster Store) (id i : ℕ)
      → Coherent B cl
      → id < cl.caches
      → (cl.node id).clock < 0xffff_ffff
      → Kept cl (touch_block cl id i)
  unfolding touch_block set_node
  touched-Kept cl id i h lt small =
      let n = cl.node id in
      let n' = touched_node n i in
      rw (touch_small n i small) (record {
        coherent = record {
          few = h.few;
          sound = λ j lt'. elim (ℕ_discrete j id) [
            | yes same ↦
                subst (λ a. NodeIsSound (word cl.store) (update cl.node id n' a)) (sym same)
                  (subst (NodeIsSound (word cl.store)) (sym (update_self cl.node id n'))
                    (touched-Sound (word cl.store) n i (h.sound id lt)))
            | no other ↦
                subst (NodeIsSound (word cl.store)) (sym (update_ne cl.node id j n' other))
                  (h.sound j lt')
          ];
          shared = λ j k' i' lt' e'.
              ap (λ b. test_bit b j)
                (sharers-set_node cl id n' (home cl.caches k') k' (unfold touched_node in refl))
              ∙ h.shared j k' i' lt' (unfold touched_node in ground arith);
        };
        same = refl;
        count = refl;
        clocks = λ j lt'. unfold touched_node in ground arith;
      })

  get_hit_lem :
      (cl : Cluster Store) (id k i : ℕ)
      → Coherent B cl
      → id < cl.caches
      → (cl.node id).clock < 0xffff_ffff
      → (cl.node id).cache k ≡ some i
      → Reads cl k (get_hit B cl id i)
  unfolding get_hit
  get_hit_lem cl id k i h lt small e = (
    touch_block cl id i,
    (
      ((cl.node id).block_cache i).words,
      (refl, touched-Kept cl id i h lt small, λ x lt'. (h.sound id lt).current k i x e lt'),
    ),
  )

  -- The cluster after the home noted a read miss.
  abbrev pub told_read : Cluster Store → ℕ → ℕ → Cluster Store
  told_read cl id k =
      set_directory cl (home cl.caches k) k (some (set_bit (sharers cl (home cl.caches k) k) id))

  reply_block :
      (cl : Cluster Store) (id k i : ℕ) (words : ℕ → ℕ)
      → (((((fill B cl id i k (some words)).node id).block_cache i).key == k) ≡ true)
        × ((((fill B cl id i k (some words)).node id).block_cache i).words ≡ words)
  unfolding fill set_node
  reply_block cl id k i words = (ground arith, ground arith)

  read_miss_runs :
      (cl : Cluster Store) (id k i : ℕ) (words : ℕ → ℕ)
      → B.getblock (told_read cl id k).store k ≡ some words
      → read_miss B cl id k i ≡ ok (fill B (told_read cl id k) id i k (some words))
  unfolding read_miss server_read_miss
  read_miss_runs cl id k i words read =
      let here : (home cl.caches k == home cl.caches k) ≡ true = (==_iff _ _).1 refl in
      let fine : misdirected cl (home cl.caches k) id k ≡ false = ground arith in
      rw (fine, read) refl

  get_new_runs :
      (cl : Cluster Store) (id k i : ℕ) (words : ℕ → ℕ)
      → B.getblock (told_read cl id k).store k ≡ some words
      → get_new B cl id k i
        ≡ ok (touch_block (fill B (told_read cl id k) id i k (some words)) id i, words)
  unfolding get_new get_hit
  get_new_runs cl id k i words read =
      let (key, same) = reply_block (told_read cl id k) id k i words in
      rw (read_miss_runs cl id k i words read, key, same) refl

  get_new_lem :
      (cl : Cluster Store) (id k i : ℕ)
      → Readable B
      → id < cl.caches
      → (cl.node id).clock < 0xffff_ffff
      → Ready B cl id k i (word cl.store)
      → Reads cl k (get_new B cl id k i)
  get_new_lem cl id k i readable lt small h =
      let cl2 = told_read cl id k in
      let (words, read) = readable cl2.store k in
      let told_same =
        set_directory-Same cl (home cl.caches k) k
          (some (set_bit (sharers cl (home cl.caches k) k) id)) in
      let small2 : (cl2.node id).clock < 0xffff_ffff = rw ((told_same id).time) small in
      let (store, count, clocks) = filled_rest B cl2 id k i words small2 in
      (
        touch_block (fill B cl2 id i k (some words)) id i,
        (
          words,
          (
            get_new_runs cl id k i words read,
            record {
              coherent =
                  filled-Coherent B cl2 id k i words small2 (Answered-read B cl id k i h)
                    (λ x lt'. getblock-word cl2.store k words x read lt');
              same = store ∙ unfold set_directory set_node in refl;
              count = count ∙ unfold set_directory set_node in refl;
              clocks = λ j lt'. rw⁻¹ ((told_same j).time) (clocks j);
            },
            λ x lt'.
                getblock-word cl2.store k words x read lt' ∙ unfold set_directory set_node in refl,
          ),
        ),
      )

  get_miss_runs :
      (cl cl1 : Cluster Store) (id k i : ℕ)
      → getblock cl id k ≡ ok (record { cluster = cl1; block = i; is_pending = false })
      → get_miss B cl id k ≡ get_new B cl1 id k i
  unfolding get_miss
  get_miss_runs cl cl1 id k i got = rw got refl

  get_miss_lem :
      (cl : Cluster Store) (id k : ℕ)
      → Readable B
      → Coherent B cl
      → k ≡ high_mask k
      → id < cl.caches
      → (cl.node id).clock < 0xffff_ffff
      → (cl.node id).cache k ≡ none
      → Reads cl k (get_miss B cl id k)
  get_miss_lem cl id k readable h al lt small new =
      let (cl1, (i, (got, f))) = getblock_lem B cl id k k [] h lt new al (omega arith) small in
      let same : copy k [] (word cl.store) ≡ word cl1.store =
        copy_nothing k (word cl.store) ∙ ap word (sym f.stores) in
      let (cl', (words, (runs, kept, right))) =
        get_new_lem cl1 id k i readable (rw f.count lt) (rw (f.clocks id) small)
          (subst (Ready B cl1 id k i) same f.ready) in
      (
        cl',
        (
          words,
          (
            get_miss_runs cl cl1 id k i got ∙ runs,
            record {
              coherent = kept.coherent;
              same = kept.same ∙ f.stores;
              count = kept.count ∙ f.count;
              clocks = λ j lt'. rw⁻¹ (f.clocks j) (kept.clocks j (rw f.count lt'));
            },
            λ x lt'. right x lt' ∙ ap (λ s. word s (k + x)) f.stores,
          ),
        ),
      )

  -- A read, on any branch (the block is in the cache, in a free block, or in place of the block that was
  -- used longest ago), returns a block with the words of the store, leaves the store as it is and keeps
  -- all caches in agreement with it. The store can be read, the caches, at most 64, agree with it before, and the
  -- clock of the node does not wrap around.
  pub doget_lem :
      (cl : Cluster Store) (id addr : ℕ)
      → Readable B
      → Coherent B cl
      → id < cl.caches
      → (cl.node id).clock < 0xffff_ffff
      → Reads cl (high_mask addr) (doget B cl id addr)
  unfolding doget
  doget_lem cl id addr readable h lt small =
      let k = high_mask addr in
      elim (Option-cases ((cl.node id).cache k)) [
        | inl miss ↦ rw (miss, doget) (get_miss_lem cl id k readable h (omega arith) lt small miss)
        | inr (i, hit) ↦
            rw (hit, doget, (==_iff _ _).1 ((h.sound id lt).keyed k i hit))
              (get_hit_lem cl id k i h lt small hit)
      ]
