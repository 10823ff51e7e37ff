-- ===== src/Cache/GetChunk.antt =====
-- A chunk is read as a whole (`getchunk` of Dogee/DogeeDirectoryCache.cpp).
use dogee.Prelude.{
  ℕ, zero, suc, ◌+◌, ◌-◌, ◌%◌, ◌<◌, ◌≤◌, ◌≡◌, refl, ap, ◌∙◌, ◌⊎◌, inl, inr, List, [], ◌∷◌, arith,
  ltb, false, ◌==◌, ◌++◌, Bool-cases, subst,
}
use dogee.Cache.Address.{high_mask, low_mask, make64}
use dogee.Cache.Backend.{Backend}
use dogee.Cache.Node.{Cluster, ok}
use dogee.Cache.Coherent.{Coherent}
use dogee.Cache.Hits.{Readable}
use dogee.Cache.Gets.{doget_lem}
use dogee.Cache.Chunk.{
  Cut, chunk-Cut, rest_of_Cut, read_words, chunk_start, first_length, getblockdata, get_blocks,
  get_first, get_last, getchunk_at, getchunk,
}

-- The words within a block are those of the memory.
read_block :
    (words w : ℕ → ℕ) (off a n : ℕ)
    → ((x : ℕ) → x < 32 → words x ≡ w (a + x))
    → off + n ≤ 32
    → read_words words off n ≡ read_words w (a + off) n
unfolding read_words
read_block words w off a zero h fits = refl
read_block words w off a (suc n) h fits =
    let e : a + suc off ≡ suc (a + off) = omega arith in
    ap (λ x. x ∷ read_words words (suc off) n) (h off (omega arith))
    ∙ ap (λ xs. w (a + off) ∷ xs) (read_block words w (suc off) a n h (omega arith))
    ∙ ap (λ b. w (a + off) ∷ read_words w b n) e

read_words-split :
    (w : ℕ → ℕ) (k m n : ℕ) → read_words w k m ++ read_words w (k + m) n ≡ read_words w k (m + n)
unfolding read_words
read_words-split w k zero n =
    let e : k + 0 ≡ k = omega arith in let f : 0 + n ≡ n = omega arith in rw (e, f) refl
read_words-split w k (suc m) n =
    let e : k + suc m ≡ suc k + m = omega arith in
    let f : suc m + n ≡ suc (m + n) = omega arith in
    rw (e, f) (ap (λ xs. w k ∷ xs) (read_words-split w (suc k) m n))

module _ (B : Backend) (cl0 : Cluster B.Store) (id k len : ℕ) where
  open B use {Store, word}

  -- The first `idx` words are read.
  record Progress (cl : Cluster Store) (v : List ℕ) (idx : ℕ) : Type 0 where
    coherent : Coherent B cl
    same : cl.store ≡ cl0.store
    outs : v ≡ read_words (word cl0.store) k idx
    count : cl.caches ≡ cl0.caches
    time : (cl.node id).clock ≤ (cl0.node id).clock + idx

  getchunk_at_runs :
      (cl1 cl2 cl3 : Cluster Store) (v v' v'' : List ℕ) (idx : ℕ)
      → get_first B cl0 id k (first_length k len) ≡ ok (cl1, v)
      → get_blocks B len cl1 id (chunk_start k) (high_mask (k + len)) v (first_length k len)
        ≡ ok (cl2, v', idx)
      → get_last B cl2 id (high_mask (k + len)) v' idx len ≡ ok (cl3, v'')
      → getchunk_at B cl0 id k len ≡ ok (cl3, v'')
  unfolding getchunk_at
  getchunk_at_runs cl1 cl2 cl3 v v' v'' idx a b c = rw (a, b, c) refl

  module _ (readable : Readable B) (h : Coherent B cl0) (lt : id < cl0.caches)
      (small : (cl0.node id).clock + len ≤ 0xffff_ffff) where
    piece :
        (cl : Cluster Store) (v : List ℕ) (a idx n : ℕ)
        → Progress cl v idx
        → a ≡ k + idx
        → 0 < n
        → idx + n ≤ len
        → low_mask a + n ≤ 32
        → (cl' : Cluster Store) × ((more : List ℕ) × ((getblockdata B cl id a n ≡ ok (cl', more))
              × Progress cl' (v ++ more) (idx + n)))
    piece cl v a idx n p e pos le fits =
        let (cl', (words, (runs, kept, right))) =
          doget_lem B cl id a readable p.coherent (rw p.count lt) (omega (arith, p.time)) in
        let w = word cl0.store in
        let back : high_mask a + low_mask a ≡ k + idx = omega arith in
        let more : read_words words (low_mask a) n ≡ read_words w (k + idx) n =
          read_block words w (low_mask a) (high_mask a) n
            (λ x lt'. right x lt' ∙ ap (λ s. word s (high_mask a + x)) p.same) fits
          ∙ ap (λ b. read_words w b n) back in
        (
          cl',
          (
            read_words words (low_mask a) n,
            (
              rw runs refl,
              record {
                coherent = kept.coherent;
                same = kept.same ∙ p.same;
                outs =
                    ap (λ u. u ++ read_words words (low_mask a) n) p.outs
                    ∙ ap (λ u. read_words w k idx ++ u) more
                    ∙ read_words-split w k idx n;
                count = kept.count ∙ p.count;
                time = ground (arith, kept.clocks id (rw p.count lt), p.time);
              },
            ),
          ),
        )

    -- The loop from the start of a block on.
    blocks :
        (m : ℕ) (cl : Cluster Store) (v : List ℕ) (i k_end idx : ℕ)
        → Progress cl v idx
        → i % 32 ≡ 0
        → k_end % 32 ≡ 0
        → k_end ≤ k + len
        → (i ≡ k + idx) ⊎ (k_end ≤ i)
        → k_end ≤ i + m
        → (cl' : Cluster Store) × ((v' : List ℕ) × ((idx' : ℕ) × ((get_blocks B m cl id i k_end v
                    idx
                  ≡ ok (cl', v', idx'))
                × Progress cl' v' idx'
                × (((k_end ≤ i) × (idx' ≡ idx)) ⊎ (k + idx' ≡ k_end)))))
    unfolding get_blocks
    blocks zero cl v i k_end idx p al al' le here enough =
        (cl, (v, (idx, (ground arith, p, inl (omega arith, refl)))))
    blocks (suc m) cl v i k_end idx p al al' le here enough = elim (Bool-cases (ltb i k_end)) [
      | inl t ↦
          let more : i < k_end = ground arith in
          let (cl1, (some_words, (runs1, p1))) =
            piece cl v i idx 32 p (ground arith) (omega arith) (ground arith) (omega arith) in
          let (cl2, (v2, (idx2, (runs2, p2, there)))) =
            blocks m cl1 (v ++ some_words) (i + 32) k_end (idx + 32) p1 (omega arith) al' le
              (inl (ground arith)) (omega arith) in
          (cl2, (v2, (idx2, (rw (t, runs1) runs2, p2, inr (ground arith)))))
      | inr t ↦ (cl, (v, (idx, (rw t refl, p, inl (ground arith, refl)))))
    ]

    nothing : Progress cl0 [] 0
    unfolding read_words
    nothing = record { coherent = h; same = refl; outs = refl; count = refl; time = omega arith }

    first :
        (c : ℕ)
        → c ≤ len
        → low_mask k + c ≤ 32
        → (cl' : Cluster Store) × ((v : List ℕ) × ((get_first B cl0 id k c ≡ ok (cl', v))
              × Progress cl' v c))
    unfolding get_first
    first zero le fits = (cl0, ([], (refl, nothing)))
    first (suc c) le fits =
        let (cl1, (v, (runs, p))) =
          piece cl0 [] k 0 (suc c) nothing (omega arith) (omega arith) (omega arith) fits in
        let sum : 0 + suc c ≡ suc c = omega arith in
        let short : ltb 32 (suc c) ≡ false = ground arith in
        let more : (suc c == 0) ≡ false = ground arith in
        (cl1, (v, (rw (short, more) runs, subst (Progress cl1 v) sum p)))

    last :
        (cl : Cluster Store) (v : List ℕ) (k_end idx : ℕ)
        → Progress cl v idx
        → idx ≤ len
        → low_mask k_end + (len - idx) ≤ 32
        → (idx < len → k_end ≡ k + idx)
        → (cl' : Cluster Store) × ((v' : List ℕ) × ((get_last B cl id k_end v idx len
                ≡ ok (cl', v'))
              × Progress cl' v' len))
    unfolding get_last
    last cl v k_end idx p le fits here = elim (Bool-cases (ltb idx len)) [
      | inl t ↦
          let (cl', (more, (runs, p'))) =
            piece cl v k_end idx (len - idx) p (here (ground arith)) (ground arith) (omega arith)
              fits in
          let total : idx + (len - idx) ≡ len = omega arith in
          (cl', (v ++ more, (rw (t, runs) refl, subst (Progress cl' (v ++ more)) total p')))
      | inr t ↦
          let total : idx ≡ len = ground arith in
          (cl, (v, (rw t refl, subst (Progress cl v) total p)))
    ]

    loops : {start c k_end : ℕ} → Cut k len start c k_end → (start ≡ k + c) ⊎ (k_end ≤ start)
    loops cut = elim cut.follows [ inl e ↦ inl e | inr (le, e) ↦ inr le ]

    getchunk_at_lem :
        (cl' : Cluster Store) × ((v : List ℕ) × ((getchunk_at B cl0 id k len ≡ ok (cl', v))
            × Progress cl' v len))
    getchunk_at_lem =
        let c = first_length k len in
        let k_end = high_mask (k + len) in
        let cut = chunk-Cut k len in
        let (cl1, (v1, (runs1, p1))) = first c cut.short cut.inside in
        let (cl2, (v2, (idx, (runs2, p2, there)))) =
          blocks len cl1 v1 (chunk_start k) k_end c p1 cut.aligned (omega arith) (omega arith)
            (loops cut) cut.reached in
        let (le, fits, here) = rest_of_Cut k len (chunk_start k) c k_end idx cut refl there in
        let (cl3, (v3, (runs3, p3))) = last cl2 v2 k_end idx p2 le fits here in
        (cl3, (v3, (getchunk_at_runs cl1 cl2 cl3 v1 v2 v3 idx runs1 runs2 runs3, p3)))

-- `getchunk` returns the words of the store at the addresses of the chunk, in their order, and does
-- not change the store, if the store can be read and the clock of the node does not wrap around. The caches,
-- at most 64, agree with the store before and afterwards.
pub getchunk_lem :
    (B : Backend) (cl : Cluster B.Store) (id okey fldid len : ℕ)
    → Readable B
    → Coherent B cl
    → id < cl.caches
    → (cl.node id).clock + len ≤ 0xffff_ffff
    → (cl' : Cluster B.Store) × ((getchunk B cl id okey fldid len
          ≡ ok (cl', read_words (B.word cl.store) (make64 okey fldid) len))
        × Coherent B cl'
        × (cl'.store ≡ cl.store))
unfolding getchunk
getchunk_lem B cl id okey fldid len readable h lt small =
    let k = make64 okey fldid in
    let (cl', (v, (runs, p))) = getchunk_at_lem B cl id k len readable h lt small in
    (cl', (runs ∙ ap (λ u. ok (cl', u)) p.outs, p.coherent, p.same))
