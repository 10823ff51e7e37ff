-- ===== src/Cache/Answers.antt =====
-- A miss of the directory cache (Dogee/DogeeDirectoryCache.cpp): the home answers the requester,
-- who fills a block with the reply.
use native.Mathlib.Decide.{ℕ_discrete}
use dogee.Prelude.{
  ℕ, ◌+◌, ◌<◌, ◌≤◌, ◌≡◌, sym, ap, ◌∙◌, ◌≢◌, ◌⊎◌, inl, inr, List, Option, some, arith, true, length,
  subst,
}
use dogee.Cache.Address.{high_mask, low_mask, home}
use dogee.Cache.Backend.{Backend, copy}
use dogee.Cache.Bits.{test_bit, set_bit}
use dogee.Cache.Node.{Node, Cluster, update, set_node}
use dogee.Cache.Server.{sharers, set_directory, renew}
use dogee.Cache.Directory.{Same, Same-Sound, set_directory-Same, home-lt, noted_self, noted_rest}
use dogee.Cache.Sound.{Sound}
use dogee.Cache.Coherent.{NodeIsSound}
use dogee.Cache.Renewal.{renew_rest}
use dogee.Cache.Writes.{renew_own, renewed_sound, cache-renew, sharers-renew, word_after}

-- Whatever words of the store the block `i` is filled with, the node is sound.
abbrev pub Fills : (ℕ → ℕ) → Node → ℕ → ℕ → Type 0
Fills w n i k =
    (words : ℕ → ℕ)
    → ((x : ℕ) → x < 32 → words x ≡ w (k + x))
    → Sound w (update n.block_cache i (record { words = words; lru = n.clock; key = k }))
        n.block_queue n.cache (n.clock + 1)

pub Fills-Same : (w : ℕ → ℕ) {n n' : Node} (i k : ℕ) → Same n n' → Fills w n i k → Fills w n' i k
Fills-Same w i k h f = rw (h.blocks, h.queue, h.table, h.time) f

module _ (B : Backend) where
  open B use {Store, word, putchunk, getblock}

  -- Node `id` waits for the block `k`; the store will hold the words `w`.
  pub record Ready (cl : Cluster Store) (id k i : ℕ) (w : ℕ → ℕ) : Type 0 where
    pub few : cl.caches ≤ 64
    pub others : (j : ℕ) → j < cl.caches → j ≢ id → NodeIsSound (word cl.store) (cl.node j)
    pub fills : Fills w (cl.node id) i k
    pub shared :
        (j k' i' : ℕ)
        → j < cl.caches
        → (k' ≢ k) ⊎ (j ≢ id)
        → (cl.node j).cache k' ≡ some i'
        → test_bit (sharers cl (home cl.caches k') k') j ≡ true

  -- The home has noted node `id`, and the words are in the store.
  pub record Answered (cl : Cluster Store) (id k i : ℕ) : Type 0 where
    pub few : cl.caches ≤ 64
    pub others : (j : ℕ) → j < cl.caches → j ≢ id → NodeIsSound (word cl.store) (cl.node j)
    pub fills : Fills (word cl.store) (cl.node id) i k
    pub shared :
        (j k' i' : ℕ)
        → j < cl.caches
        → (cl.node j).cache k' ≡ some i'
        → test_bit (sharers cl (home cl.caches k') k') j ≡ true

  note_shared :
      (cl : Cluster Store) (id k : ℕ) (j k' i' : ℕ)
      → ((j' k'' i'' : ℕ)
          → j' < cl.caches
          → (k'' ≢ k) ⊎ (j' ≢ id)
          → (cl.node j').cache k'' ≡ some i''
          → test_bit (sharers cl (home cl.caches k'') k'') j' ≡ true)
      → cl.caches ≤ 64
      → j < cl.caches
      → (cl.node j).cache k' ≡ some i'
      → test_bit
          (sharers
            (set_directory cl
              (home cl.caches k)
              k
              (some (set_bit (sharers cl (home cl.caches k) k) id)))
            (home cl.caches k')
            k')
          j
        ≡ true
  note_shared cl id k j k' i' h few lt e =
      let h0 = home cl.caches k in
      let cl' = set_directory cl h0 k (some (set_bit (sharers cl h0 k) id)) in
      elim (ℕ_discrete k' k) [
        | yes same ↦ elim (ℕ_discrete j id) [
          | yes self ↦
              subst (λ a. test_bit (sharers cl' (home cl.caches a) a) j ≡ true) (sym same)
                (subst (λ a. test_bit (sharers cl' h0 k) a ≡ true) (sym self)
                  (noted_self cl h0 k id (sharers cl h0 k) (omega arith)))
          | no other ↦ noted_rest cl k id j k' (inr other) ∙ h j k' i' lt (inr other) e
        ]
        | no other ↦ noted_rest cl k id j k' (inl other) ∙ h j k' i' lt (inl other) e
      ]

  -- A read miss is noted.
  pub Answered-read :
      (cl : Cluster Store) (id k i : ℕ)
      → Ready cl id k i (word cl.store)
      → Answered
          (set_directory cl
            (home cl.caches k)
            k
            (some (set_bit (sharers cl (home cl.caches k) k) id)))
          id
          k
          i
  unfolding set_directory set_node
  Answered-read cl id k i h =
      let h0 = home cl.caches k in
      let entry : Option ℕ = some (set_bit (sharers cl h0 k) id) in
      record {
        few = h.few;
        others = λ j lt ne. Same-Sound (set_directory-Same cl h0 k entry j) (h.others j lt ne);
        fills = Fills-Same (word cl.store) i k (set_directory-Same cl h0 k entry id) h.fills;
        shared = λ j k' i' lt e.
            note_shared cl id k j k' i' h.shared h.few lt
              (ap (λ c. c k') (sym (set_directory-Same cl h0 k entry j).table) ∙ e);
      }

  -- The cluster after a write miss was answered.
  abbrev pub told_miss : Cluster Store → ℕ → ℕ → List ℕ → Cluster Store
  told_miss cl id addr v =
      let k = high_mask addr in
      let stored : Cluster Store = record cl { store = putchunk cl.store addr v } in
      let old = sharers cl (home cl.caches k) k in
      renew (home cl.caches k) old id addr v
        (set_directory stored (home cl.caches k) k (some (set_bit old id)))

  pub Answered-write :
      (cl : Cluster Store) (id addr i : ℕ) (v : List ℕ)
      → low_mask addr + length v ≤ 32
      → id < cl.caches
      → Ready cl id (high_mask addr) i (copy addr v (word cl.store))
      → Answered (told_miss cl id addr v) id (high_mask addr) i
  unfolding set_directory set_node
  Answered-write cl id addr i v fits lt h =
      let k = high_mask addr in
      let h0 = home cl.caches k in
      let stored : Cluster Store = record cl { store = putchunk cl.store addr v } in
      let old = sharers cl h0 k in
      let entry : Option ℕ = some (set_bit old id) in
      let noted = set_directory stored h0 k entry in
      let w' = copy addr v (word cl.store) in
      let (same_store, same_caches) = renew_rest id addr v h0 old noted in
      let same_word : word (told_miss cl id addr v).store ≡ w' =
        ap word same_store ∙ word_after B cl.store addr v fits in
      record {
        few = rw same_caches h.few;
        others = λ j lt' ne.
            let lt'' : j < cl.caches = rw (sym same_caches) lt' in
            subst (λ w. NodeIsSound w ((told_miss cl id addr v).node j)) (sym same_word)
              (renewed_sound (word cl.store) h0 id addr v old j noted fits lt'' ne
                (Same-Sound (set_directory-Same stored h0 k entry j) (h.others j lt'' ne))
                (λ i' e.
                  h.shared j k i' lt'' (inr ne)
                    (ap (λ c. c k) (sym (set_directory-Same stored h0 k entry j).table) ∙ e)));
        fills =
            subst (λ w. Fills w ((told_miss cl id addr v).node id) i k) (sym same_word)
              (subst (λ n. Fills w' n i k) (sym (renew_own h0 id addr v old noted lt))
                (Fills-Same w' i k (set_directory-Same stored h0 k entry id) h.fills));
        shared = λ j k' i' lt' e.
            let lt'' : j < cl.caches = rw (sym same_caches) lt' in
            let e' : (stored.node j).cache k' ≡ some i' =
              ap (λ c. c k') (sym (set_directory-Same stored h0 k entry j).table)
              ∙ ap (λ c. c k') (sym (cache-renew h0 id addr v old j noted lt''))
              ∙ e in
            subst (λ a. test_bit (sharers (told_miss cl id addr v) (home a k') k') j ≡ true)
              (sym same_caches)
              (ap (λ b. test_bit b j)
                  (sharers-renew h0 id addr v old (home cl.caches k') k' noted
                    (home-lt cl.caches k' (omega arith)))
                ∙ note_shared stored id k j k' i' h.shared h.few lt'' e');
      }
