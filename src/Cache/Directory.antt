-- ===== src/Cache/Directory.antt =====
-- The changes of a directory (`directory_cache` of Dogee/DogeeDirectoryCache.cpp): nothing else of a
-- node changes with it, and which bits do.
use native.Mathlib.Decide.{ℕ_discrete}
use dogee.Prelude.{
  ℕ, ◌*◌, ◌/◌, ◌%◌, ◌<◌, ◌≡◌, refl, sym, ap, ◌∙◌, ◌≢◌, ◌⊎◌, inl, inr, Option, none, some, arith,
  true, ◌==◌, if◌then◌else◌, Bool-cases, Option-cases, ==_iff, subst,
}
use dogee.Cache.Address.{high_mask, home}
use dogee.Cache.Bits.{
  test_bit, set_bit, clear_bit, test_bit-clear_ne, test_bit-set_ne, test_bit-set_self,
}
use dogee.Cache.Node.{Node, Cluster, set_node, ok}
use dogee.Cache.Server.{get_or, sharers, set_directory, server_writeback, writeback}
use dogee.Cache.Coherent.{NodeIsSound}

-- The nodes differ in the directory only.
pub record Same (n n' : Node) : Type 0 where
  pub blocks : n'.block_cache ≡ n.block_cache
  pub queue : n'.block_queue ≡ n.block_queue
  pub table : n'.cache ≡ n.cache
  pub time : n'.clock ≡ n.clock

Same-refl : (n : Node) → Same n n
Same-refl n = record { blocks = refl; queue = refl; table = refl; time = refl }

pub Same-Sound : {w : ℕ → ℕ} {n n' : Node} → Same n n' → NodeIsSound w n → NodeIsSound w n'
Same-Sound {w = w} {n = n} {n' = n'} h s = rw (h.blocks, h.queue, h.table, h.time) s

pub home-lt : (caches k : ℕ) → 0 < caches → home caches k < caches
home-lt caches k h = omega arith

-- The home of an address is that of its block.
pub home-high_mask : (caches addr : ℕ) → home caches (high_mask addr) ≡ home caches addr
home-high_mask caches addr =
    let e : addr / 32 * 32 / 32 ≡ addr / 32 = omega arith in ap (λ a. a % caches) e

module _ {S : Type 0} where
  pub set_directory-Same :
      (cl : Cluster S) (id k : ℕ) (entry : Option ℕ) (j : ℕ)
      → Same (cl.node j) ((set_directory cl id k entry).node j)
  unfolding set_directory set_node
  set_directory-Same cl id k entry j = elim (Bool-cases (j == id)) [
    | inl t ↦
        let e : j ≡ id = (==_iff j id).0 t in
        record {
          blocks = ground arith;
          queue = ground arith;
          table = ground arith;
          time = ground arith;
        }
    | inr t ↦ record {
      blocks = ground arith;
      queue = ground arith;
      table = ground arith;
      time = ground arith;
    }
  ]

  sharers-set_directory_self :
      (cl : Cluster S) (id k : ℕ) (entry : Option ℕ)
      → sharers (set_directory cl id k entry) id k ≡ get_or entry 0
  unfolding set_directory set_node
  sharers-set_directory_self cl id k entry = ground arith

  sharers-set_directory_ne :
      (cl : Cluster S) (id k id' k' : ℕ) (entry : Option ℕ)
      → k' ≢ k
      → sharers (set_directory cl id k entry) id' k' ≡ sharers cl id' k'
  unfolding set_directory set_node
  sharers-set_directory_ne cl id k id' k' entry h = ground arith

  -- The home notes node `src` for the block `k`.
  pub noted_self :
      (cl : Cluster S) (h k src old : ℕ)
      → src < 64
      → test_bit (sharers (set_directory cl h k (some (set_bit old src))) h k) src ≡ true
  noted_self cl h k src old lt =
      ap (λ b. test_bit b src) (sharers-set_directory_self cl h k (some (set_bit old src)))
      ∙ test_bit-set_self src old lt

  pub noted_rest :
      (cl : Cluster S) (k src : ℕ) (j k' : ℕ)
      → (k' ≢ k) ⊎ (j ≢ src)
      → test_bit
          (sharers
            (set_directory cl
              (home cl.caches k)
              k
              (some (set_bit (sharers cl (home cl.caches k) k) src)))
            (home cl.caches k')
            k')
          j
        ≡ test_bit (sharers cl (home cl.caches k') k') j
  noted_rest cl k src j k' h =
      let h0 = home cl.caches k in
      let entry : Option ℕ = some (set_bit (sharers cl h0 k) src) in
      elim (ℕ_discrete k' k) [
        | yes e ↦
            let ne : j ≢ src = ground arith in
            subst
              (λ a.
                test_bit (sharers (set_directory cl h0 k entry) (home cl.caches a) a) j
                ≡ test_bit (sharers cl (home cl.caches a) a) j)
              (sym e)
              (ap (λ b. test_bit b j) (sharers-set_directory_self cl h0 k entry)
                ∙ test_bit-set_ne src j (sharers cl h0 k) (λ p. ne (sym p)))
        | no ne ↦
            ap (λ b. test_bit b j)
              (sharers-set_directory_ne cl h0 k (home cl.caches k') k' entry ne)
      ]

  -- After node `id` gave the block `k` back: `cl'` differs from `cl` in one bit at most.
  pub record GivenBack (cl cl' : Cluster S) (id k : ℕ) : Type 0 where
    pub stores : cl'.store ≡ cl.store
    pub count : cl'.caches ≡ cl.caches
    pub nodes : (j : ℕ) → Same (cl.node j) (cl'.node j)
    pub bits :
        (j k' : ℕ)
        → (k' ≢ k) ⊎ (j ≢ id)
        → test_bit (sharers cl' (home cl.caches k') k') j
          ≡ test_bit (sharers cl (home cl.caches k') k') j

  cleared_bits :
      (cl : Cluster S) (id k old : ℕ) (entry : Option ℕ) (j k' : ℕ)
      → sharers cl (home cl.caches k) k ≡ old
      → get_or entry 0 ≡ clear_bit old id
      → (k' ≢ k) ⊎ (j ≢ id)
      → test_bit (sharers (set_directory cl (home cl.caches k) k entry) (home cl.caches k') k') j
        ≡ test_bit (sharers cl (home cl.caches k') k') j
  cleared_bits cl id k old entry j k' e new h =
      let h0 = home cl.caches k in
      elim (ℕ_discrete k' k) [
        | yes same ↦
            let ne : j ≢ id = ground arith in
            subst
              (λ a.
                test_bit (sharers (set_directory cl h0 k entry) (home cl.caches a) a) j
                ≡ test_bit (sharers cl (home cl.caches a) a) j)
              (sym same)
              (ap (λ b. test_bit b j) (sharers-set_directory_self cl h0 k entry ∙ new)
                ∙ test_bit-clear_ne id j old (λ p. ne (sym p))
                ∙ ap (λ b. test_bit b j) (sym e))
        | no ne ↦
            ap (λ b. test_bit b j)
              (sharers-set_directory_ne cl h0 k (home cl.caches k') k' entry ne)
      ]

  pub writeback_lem :
      (cl : Cluster S) (id k : ℕ)
      → (cl' : Cluster S) × ((writeback cl id k ≡ ok cl') × GivenBack cl cl' id k)
  unfolding writeback server_writeback
  writeback_lem cl id k =
      let h0 = home cl.caches k in
      let here : (h0 == h0) ≡ true = (==_iff _ _).1 refl in
      elim (Option-cases ((cl.node h0).directory k)) [
        | inl miss ↦ (
          cl,
          (
            rw (here, miss) refl,
            record {
              stores = refl;
              count = refl;
              nodes = λ j. Same-refl (cl.node j);
              bits = λ j k' h. refl;
            },
          ),
        )
        | inr (old, hit) ↦
            let newv = clear_bit old id in
            let entry : Option ℕ = if newv == 0 then none else some newv in
            (
              set_directory cl h0 k entry,
              (
                rw (here, hit) refl,
                record {
                  stores = unfold set_directory set_node in refl;
                  count = unfold set_directory set_node in refl;
                  nodes = set_directory-Same cl h0 k entry;
                  bits =
                      λ j k' h. cleared_bits cl id k old entry j k' (rw hit refl) (ground arith) h;
                },
              ),
            )
      ]
