-- ===== src/Cache/Writes.antt =====
-- The writes of the directory cache (Dogee/DogeeDirectoryCache.cpp) keep the cluster coherent: what
-- the home of a block does for a write, and a write that hits.
use mathlib.Core.Path.{fun_ext}
use native.Mathlib.Decide.{ℕ_discrete}
use dogee.Prelude.{
  ℕ, ◌+◌, ◌<◌, ◌≤◌, ◌≡◌, refl, sym, ap, ◌∙◌, ◌≢◌, inl, inr, List, Option, some, arith, true, false,
  not, ◌&&◌, ◌==◌, length, Bool-cases, Option-cases, subst,
}
use dogee.Cache.Address.{high_mask, low_mask, home}
use dogee.Cache.Backend.{Backend, copy}
use dogee.Cache.Bits.{test_bit}
use dogee.Cache.Node.{Node, Cluster}
use dogee.Cache.Server.{get_or, server_renew, renew, sharers}
use dogee.Cache.Directory.{home-lt}
use dogee.Cache.Sound.{unheld-Sound}
use dogee.Cache.Coherent.{NodeIsSound, Coherent, server_renew_same, server_renew-Sound}
use dogee.Cache.Renewal.{renew_rest, renew_node}

pub directory-renew :
    {S : Type 0} (here src_id addr : ℕ) (v : List ℕ) (old id : ℕ) (cl : Cluster S)
    → id < cl.caches
    → ((renew here old src_id addr v cl).node id).directory ≡ (cl.node id).directory
directory-renew here src_id addr v old id cl h =
    elim (Bool-cases (test_bit old id && not (src_id == id))) [
      | inl t ↦
          let e : (renew here old src_id addr v cl).node id ≡ server_renew (cl.node id) addr v =
            rw (renew_node src_id addr v here old id cl h, t) refl in
          ap (λ (n : Node). n.directory) e ∙ (server_renew_same (cl.node id) addr v).1
      | inr t ↦
          let e : (renew here old src_id addr v cl).node id ≡ cl.node id =
            rw (renew_node src_id addr v here old id cl h, t) refl in
          ap (λ (n : Node). n.directory) e
    ]

pub cache-renew :
    {S : Type 0} (here src_id addr : ℕ) (v : List ℕ) (old id : ℕ) (cl : Cluster S)
    → id < cl.caches
    → ((renew here old src_id addr v cl).node id).cache ≡ (cl.node id).cache
cache-renew here src_id addr v old id cl h =
    elim (Bool-cases (test_bit old id && not (src_id == id))) [
      | inl t ↦
          let e : (renew here old src_id addr v cl).node id ≡ server_renew (cl.node id) addr v =
            rw (renew_node src_id addr v here old id cl h, t) refl in
          ap (λ (n : Node). n.cache) e ∙ (server_renew_same (cl.node id) addr v).0
      | inr t ↦
          let e : (renew here old src_id addr v cl).node id ≡ cl.node id =
            rw (renew_node src_id addr v here old id cl h, t) refl in
          ap (λ (n : Node). n.cache) e
    ]

pub clock-renew :
    {S : Type 0} (here src_id addr : ℕ) (v : List ℕ) (old id : ℕ) (cl : Cluster S)
    → id < cl.caches
    → ((renew here old src_id addr v cl).node id).clock ≡ (cl.node id).clock
clock-renew here src_id addr v old id cl h =
    elim (Bool-cases (test_bit old id && not (src_id == id))) [
      | inl t ↦
          let e : (renew here old src_id addr v cl).node id ≡ server_renew (cl.node id) addr v =
            rw (renew_node src_id addr v here old id cl h, t) refl in
          ap (λ (n : Node). n.clock) e ∙ (server_renew_same (cl.node id) addr v).3
      | inr t ↦
          let e : (renew here old src_id addr v cl).node id ≡ cl.node id =
            rw (renew_node src_id addr v here old id cl h, t) refl in
          ap (λ (n : Node). n.clock) e
    ]

-- The directory survives the renewal.
pub sharers-renew :
    {S : Type 0} (here src_id addr : ℕ) (v : List ℕ) (old id k : ℕ) (cl : Cluster S)
    → id < cl.caches
    → sharers (renew here old src_id addr v cl) id k ≡ sharers cl id k
sharers-renew here src_id addr v old id k cl h =
    ap (λ (d : ℕ → Option ℕ). get_or (d k) 0) (directory-renew here src_id addr v old id cl h)

-- The node that wrote is left alone.
pub renew_own :
    {S : Type 0} (here src_id addr : ℕ) (v : List ℕ) (old : ℕ) (cl : Cluster S)
    → src_id < cl.caches
    → (renew here old src_id addr v cl).node src_id ≡ cl.node src_id
renew_own here src_id addr v old cl lt =
    ground (arith, renew_node src_id addr v here old src_id cl lt)

-- The other nodes hold the words that are written, if all holders of the block are in `old`.
pub renewed_sound :
    {S : Type 0} (w : ℕ → ℕ) (here src_id addr : ℕ) (v : List ℕ) (old j : ℕ) (cl : Cluster S)
    → low_mask addr + length v ≤ 32
    → j < cl.caches
    → j ≢ src_id
    → NodeIsSound w (cl.node j)
    → ((i : ℕ) → (cl.node j).cache (high_mask addr) ≡ some i → test_bit old j ≡ true)
    → NodeIsSound (copy addr v w) ((renew here old src_id addr v cl).node j)
renewed_sound w here src_id addr v old j cl fits lt other s holder =
    elim (Option-cases ((cl.node j).cache (high_mask addr))) [
      | inl miss ↦ elim (Bool-cases (test_bit old j && not (src_id == j))) [
        | inl t ↦
            subst (NodeIsSound (copy addr v w)) (sym (hit t))
              (server_renew-Sound w (cl.node j) addr v fits s)
        | inr t ↦
            subst (NodeIsSound (copy addr v w)) (sym (idle t)) (unheld-Sound addr v s miss fits)
      ]
      | inr (i, e) ↦
          subst (NodeIsSound (copy addr v w)) (sym (hit (ground (arith, holder i e))))
            (server_renew-Sound w (cl.node j) addr v fits s)
    ]
  where
    hit :
        (test_bit old j && not (src_id == j)) ≡ true
        → (renew here old src_id addr v cl).node j ≡ server_renew (cl.node j) addr v
    hit t = rw (renew_node src_id addr v here old j cl lt, t) refl

    idle :
        (test_bit old j && not (src_id == j)) ≡ false
        → (renew here old src_id addr v cl).node j ≡ cl.node j
    idle t = rw (renew_node src_id addr v here old j cl lt, t) refl

module _ (B : Backend) where
  open B use {Store, word, putchunk}

  -- Before the home of the address is told of a write of `v` by node `src_id`, whose own copy has it.
  pub record Written (cl : Cluster Store) (src_id addr : ℕ) (v : List ℕ) : Type 0 where
    pub few : cl.caches ≤ 64
    pub others : (j : ℕ) → j < cl.caches → j ≢ src_id → NodeIsSound (word cl.store) (cl.node j)
    pub own : NodeIsSound (copy addr v (word cl.store)) (cl.node src_id)
    pub shared :
        (j k i : ℕ)
        → j < cl.caches
        → (cl.node j).cache k ≡ some i
        → test_bit (sharers cl (home cl.caches k) k) j ≡ true

  pub word_after :
      (s : Store) (addr : ℕ) (v : List ℕ)
      → low_mask addr + length v ≤ 32
      → word (putchunk s addr v) ≡ copy addr v (word s)
  word_after s addr v fits = fun_ext λ x. B.word-putchunk s addr v x fits

  -- The home stores the words and renews the other copies.
  abbrev pub told : Cluster Store → ℕ → ℕ → List ℕ → Cluster Store
  told cl src_id addr v =
      renew (home cl.caches (high_mask addr))
        (sharers cl (home cl.caches (high_mask addr)) (high_mask addr)) src_id addr v
        (record cl { store = putchunk cl.store addr v })

  told_sound :
      (cl : Cluster Store) (src_id addr : ℕ) (v : List ℕ) (j : ℕ)
      → low_mask addr + length v ≤ 32
      → Written cl src_id addr v
      → j < cl.caches
      → NodeIsSound (copy addr v (word cl.store)) ((told cl src_id addr v).node j)
  told_sound cl src_id addr v j fits h lt =
      let base = high_mask addr in
      let old = sharers cl (home cl.caches base) base in
      let mid : Cluster Store = record cl { store = putchunk cl.store addr v } in
      elim (ℕ_discrete j src_id) [
        | yes same ↦
            let lt' : src_id < cl.caches = omega arith in
            subst (λ a. NodeIsSound (copy addr v (word cl.store)) ((told cl src_id addr v).node a))
              (sym same)
              (subst (NodeIsSound (copy addr v (word cl.store)))
                (sym (renew_own (home cl.caches base) src_id addr v old mid lt')) h.own)
        | no other ↦
            renewed_sound (word cl.store) (home cl.caches base) src_id addr v old j mid fits lt
              other (h.others j lt other) (λ i e. h.shared j base i lt e)
      ]

  pub told-Coherent :
      (cl : Cluster Store) (src_id addr : ℕ) (v : List ℕ)
      → low_mask addr + length v ≤ 32
      → 0 < cl.caches
      → Written cl src_id addr v
      → Coherent B (told cl src_id addr v)
  told-Coherent cl src_id addr v fits pos h =
      let base = high_mask addr in
      let old = sharers cl (home cl.caches base) base in
      let mid : Cluster Store = record cl { store = putchunk cl.store addr v } in
      let (same_store, same_caches) = renew_rest src_id addr v (home cl.caches base) old mid in
      record {
        few = rw same_caches h.few;
        sound = λ j lt.
            let lt' : j < cl.caches = rw (sym same_caches) lt in
            subst (λ (w : ℕ → ℕ). NodeIsSound w ((told cl src_id addr v).node j))
              (sym (ap word same_store ∙ word_after cl.store addr v fits))
              (told_sound cl src_id addr v j fits h lt');
        shared = λ j k i lt e.
            let lt' : j < cl.caches = rw (sym same_caches) lt in
            let e' : (cl.node j).cache k ≡ some i =
              ap (λ (c : ℕ → Option ℕ). c k)
                (sym (cache-renew (home cl.caches base) src_id addr v old j mid lt'))
              ∙ e in
            let there =
              sharers-renew (home cl.caches base) src_id addr v old (home cl.caches k) k mid
                (home-lt cl.caches k pos) in
            subst (λ a. test_bit (sharers (told cl src_id addr v) (home a k) k) j ≡ true)
              (sym same_caches) (rw there (h.shared j k i lt' e'));
      }
