-- ===== src/Cache/Puts.antt =====
-- A write through the directory cache: `doput` of Dogee/DogeeDirectoryCache.cpp.
use dogee.Prelude.{
  ℕ, ◌+◌, ◌<◌, ◌≤◌, ◌≡◌, refl, sym, ap, ◌∙◌, ◌≢◌, inl, inr, List, [], ◌∷◌, none, some, arith, false,
  ◌==◌, length, Bool-cases, Option-cases, ==_iff, subst,
}
use dogee.Cache.Address.{high_mask, low_mask, home}
use dogee.Cache.Backend.{Backend, copy}
use dogee.Cache.Node.{Cluster, set_node, ok}
use dogee.Cache.Client.{getblock, put_hit, put_new, put_miss, doput}
use dogee.Cache.Coherent.{Coherent}
use dogee.Cache.Writes.{told}
use dogee.Cache.Answers.{Ready}
use dogee.Cache.Blocks.{getblock_lem}
use dogee.Cache.Hits.{Readable, Stores, write-told, written_self, hit-Stores, written_node}
use dogee.Cache.PutNew.{sent, sent-fits, put_new_lem}

module _ (B : Backend) where
  open B use {Store, word, putchunk, getblock-word}

  put_miss_runs :
      (cl cl1 cl' : Cluster Store) (id addr i : ℕ) (v : List ℕ)
      → getblock cl id (high_mask addr)
        ≡ ok (record { cluster = cl1; block = i; is_pending = false })
      → put_new B cl1 id addr v i ≡ ok cl'
      → put_miss B cl id addr v ≡ ok cl'
  unfolding put_miss
  put_miss_runs cl cl1 cl' id addr i v got runs = rw (got, runs) refl

  put_hit_runs :
      (cl : Cluster Store) (id i addr : ℕ) (v : List ℕ)
      → (cl.node id).clock < 0xffff_ffff
      → put_hit B cl id i addr v
        ≡ ok (told B (set_node cl id (written_node (cl.node id) i addr v)) id addr v)
  unfolding put_hit
  put_hit_runs cl id i addr v small =
      rw (written_self B cl id i addr v small)
        (write-told B (set_node cl id (written_node (cl.node id) i addr v)) id addr v)

  put_hit_lem :
      (cl : Cluster Store) (id i addr : ℕ) (v : List ℕ)
      → Coherent B cl
      → low_mask addr + length v ≤ 32
      → id < cl.caches
      → (cl.node id).clock < 0xffff_ffff
      → (cl.node id).cache (high_mask addr) ≡ some i
      → (cl' : Cluster Store) × ((put_hit B cl id i addr v ≡ ok cl') × Stores B cl cl' addr v)
  put_hit_lem cl id i addr v h fits lt small e = (
    told B (set_node cl id (written_node (cl.node id) i addr v)) id addr v,
    (put_hit_runs cl id i addr v small, hit-Stores B cl id i addr v h lt e fits),
  )

  put_miss_lem :
      (cl : Cluster Store) (id addr : ℕ) (v : List ℕ)
      → Readable B
      → Coherent B cl
      → low_mask addr + length v ≤ 32
      → id < cl.caches
      → (cl.node id).clock < 0xffff_ffff
      → (cl.node id).cache (high_mask addr) ≡ none
      → (cl' : Cluster Store) × ((put_miss B cl id addr v ≡ ok cl')
          × Stores B cl cl' addr (sent cl id addr v))
  put_miss_lem cl id addr v readable h fits lt small new =
      let k = high_mask addr in
      let u = sent cl id addr v in
      let (cl1, (i, (got, f))) =
        getblock_lem B cl id k addr u h lt new refl (sent-fits cl id addr v fits) small in
      let same : sent cl1 id addr v ≡ u = unfold sent in rw f.count refl in
      let (cl', (runs, s)) =
        put_new_lem B cl1 id addr i v readable fits (rw f.count lt) (rw (f.clocks id) small) (
          subst (Ready B cl1 id k i)
            (ap (λ a. copy addr a (word cl.store)) (sym same)
              ∙ ap (λ s. copy addr (sent cl1 id addr v) (word s)) (sym f.stores))
            f.ready) in
      (
        cl',
        (
          put_miss_runs cl cl1 cl' id addr i v got runs,
          record {
            coherent = s.coherent;
            words =
                s.words
                ∙ ap (λ a. copy addr a (word cl1.store)) same
                ∙ ap (λ a. copy addr u (word a)) f.stores;
            count = s.count ∙ f.count;
            clocks = λ j lt'. rw⁻¹ (f.clocks j) (s.clocks j (rw f.count lt'));
          },
        ),
      )

  -- The words of a write that the store gets.
  unfoldable pub stored : Cluster Store → ℕ → ℕ → List ℕ → List ℕ
  stored cl id addr v = elim ((cl.node id).cache (high_mask addr)) [
    | none ↦ sent cl id addr v
    | some i ↦ v
  ]

  pub stored_miss :
      (cl : Cluster Store) (id addr : ℕ) (v : List ℕ)
      → (cl.node id).cache (high_mask addr) ≡ none
      → stored cl id addr v ≡ sent cl id addr v
  unfolding stored
  stored_miss cl id addr v e = rw (e, stored) refl

  stored_hit :
      (cl : Cluster Store) (id addr i : ℕ) (v : List ℕ)
      → (cl.node id).cache (high_mask addr) ≡ some i
      → stored cl id addr v ≡ v
  unfolding stored
  stored_hit cl id addr i v e = rw (e, stored) refl

  doput_misses :
      (cl cl' : Cluster Store) (id addr : ℕ) (v : List ℕ)
      → (cl.node id).cache (high_mask addr) ≡ none
      → put_miss B cl id addr v ≡ ok cl'
      → doput B cl id addr v ≡ ok cl'
  unfolding doput
  doput_misses cl cl' id addr v miss runs = rw (miss, doput) runs

  doput_hits :
      (cl cl' : Cluster Store) (id addr i : ℕ) (v : List ℕ)
      → (cl.node id).cache (high_mask addr) ≡ some i
      → ((cl.node id).block_cache i).key ≡ high_mask addr
      → put_hit B cl id i addr v ≡ ok cl'
      → doput B cl id addr v ≡ ok cl'
  unfolding doput
  doput_hits cl cl' id addr i v hit key runs = rw (hit, doput, (==_iff _ _).1 key) runs

  -- A write of a chunk within one block, on any branch (the block is in the cache, in a free block, or
  -- in place of the block that was used longest ago), returns and keeps all caches in agreement with
  -- the store, whose words are the old ones with the words `stored` at the address: all words of the
  -- write, but the first one only where it misses at the home of the block. The store can be read,
  -- the caches, at most 64, agree with it before, and the clock of the node does not wrap around.
  pub doput_lem :
      (cl : Cluster Store) (id addr : ℕ) (v : List ℕ)
      → Readable B
      → Coherent B cl
      → low_mask addr + length v ≤ 32
      → id < cl.caches
      → (cl.node id).clock < 0xffff_ffff
      → (cl' : Cluster Store) × ((doput B cl id addr v ≡ ok cl')
          × Stores B cl cl' addr (stored cl id addr v))
  doput_lem cl id addr v readable h fits lt small =
      elim (Option-cases ((cl.node id).cache (high_mask addr))) [
        | inl miss ↦
            let (cl', (runs, s)) = put_miss_lem cl id addr v readable h fits lt small miss in
            (
              cl',
              (
                doput_misses cl cl' id addr v miss runs,
                subst (Stores B cl cl' addr) (sym (stored_miss cl id addr v miss)) s,
              ),
            )
        | inr (i, hit) ↦
            let (cl', (runs, s)) = put_hit_lem cl id i addr v h fits lt small hit in
            (
              cl',
              (
                doput_hits cl cl' id addr i v hit ((h.sound id lt).keyed (high_mask addr) i hit)
                    runs,
                subst (Stores B cl cl' addr) (sym (stored_hit cl id addr i v hit)) s,
              ),
            )
      ]

  stored-sent :
      (cl : Cluster Store) (id addr : ℕ) (v : List ℕ)
      → sent cl id addr v ≡ v
      → stored cl id addr v ≡ v
  stored-sent cl id addr v e = elim (Option-cases ((cl.node id).cache (high_mask addr))) [
    | inl miss ↦ stored_miss cl id addr v miss ∙ e
    | inr (i, hit) ↦ stored_hit cl id addr i v hit
  ]

  -- One word is always stored, and so are all words whose home is another node.
  pub stored_word : (cl : Cluster Store) (id addr v : ℕ) → stored cl id addr (v ∷ []) ≡ v ∷ []
  stored_word cl id addr v = stored-sent cl id addr (v ∷ []) (
      unfold sent in
      elim (Bool-cases (home cl.caches addr == id)) [ inl t ↦ rw t refl | inr t ↦ rw t refl ])

  pub stored_away :
      (cl : Cluster Store) (id addr : ℕ) (v : List ℕ)
      → home cl.caches addr ≢ id
      → stored cl id addr v ≡ v
  stored_away cl id addr v h = stored-sent cl id addr v (unfold sent in ground arith)
