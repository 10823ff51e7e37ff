-- ===== src/Cache/PutChunk.antt =====
-- A chunk is written as a whole (`putchunk` of Dogee/DogeeDirectoryCache.cpp).
use native.Mathlib.Decide.{ℕ_discrete}
use mathlib.Core.Path.{fun_ext}
use dogee.Prelude.{
  ℕ, zero, suc, ◌+◌, ◌-◌, ◌%◌, ◌<◌, ◌≤◌, ◌≡◌, refl, sym, ap, ◌∙◌, ◌≢◌, ◌⊎◌, inl, inr, List, arith,
  take, ltb, if◌then◌else◌, length, length-take, length-drop, take-length, get_or-take, get_or-drop,
  get_or, drop, Bool-cases, subst,
}
use dogee.Cache.Address.{high_mask, low_mask, home, make64}
use dogee.Cache.Backend.{Backend, copy}
use dogee.Cache.Node.{Cluster, ok}
use dogee.Cache.Coherent.{Coherent}
use dogee.Cache.Hits.{Readable}
use dogee.Cache.Puts.{stored_away, stored, doput_lem}
use dogee.Cache.Gets.{copy_nothing}
use dogee.Cache.Chunk.{
  Cut, chunk-Cut, rest_of_Cut, chunk_start, first_length, putblockdata, put_blocks, put_first,
  putchunk_at, putchunk,
}

-- A part of a list, written after the words before it.
copy_slice :
    (k idx n : ℕ) (v : List ℕ) (w : ℕ → ℕ)
    → idx + n ≤ length v
    → copy (k + idx) (take n (drop idx v)) (copy k (take idx v) w) ≡ copy k (take (idx + n) v) w
unfolding copy
copy_slice k idx n v w h = fun_ext λ x.
    let a : length (take n (drop idx v)) ≡ n =
      length-take n (drop idx v) (ground (arith, length-drop idx v)) in
    let b : length (take idx v) ≡ idx = length-take idx v (omega arith) in
    let c : length (take (idx + n) v) ≡ idx + n = length-take (idx + n) v h in
    rw (a, b, c)
      (elim (ℕ_discrete x (k + idx + (x - (k + idx)))) [
        | yes after ↦
            let d : idx + (x - (k + idx)) ≡ x - k = omega arith in
            ground (
              arith,
              get_or-take n (x - (k + idx)) (drop idx v) 0,
              get_or-drop idx (x - (k + idx)) v 0 ∙ ap (λ i. get_or v i 0) d,
              get_or-take (idx + n) (x - k) v 0,
            )
        | no before ↦ ground (arith, get_or-take idx (x - k) v 0, get_or-take (idx + n) (x - k) v 0)
      ])

module _ (B : Backend) (cl0 : Cluster B.Store) (id k : ℕ) (v : List ℕ) where
  open B use {Store, word}

  -- The first `idx` words are written.
  record Progress (cl : Cluster Store) (idx : ℕ) : Type 0 where
    coherent : Coherent B cl
    words : word cl.store ≡ copy k (take idx v) (word cl0.store)
    count : cl.caches ≡ cl0.caches
    time : (cl.node id).clock ≤ (cl0.node id).clock + idx

  putchunk_at_runs :
      (cl1 cl2 cl3 : Cluster Store) (idx : ℕ)
      → put_first B cl0 id k v (first_length k (length v)) ≡ ok cl1
      → put_blocks B
          (length v)
          cl1
          id
          (chunk_start k)
          (high_mask (k + length v))
          v
          (first_length k (length v))
        ≡ ok (cl2, idx)
      → (if ltb idx (length v)
          then putblockdata B cl2 id (high_mask (k + length v)) (drop idx v)
          else ok cl2)
        ≡ ok cl3
      → putchunk_at B cl0 id k v ≡ ok cl3
  unfolding putchunk_at
  putchunk_at_runs cl1 cl2 cl3 idx a b c = rw (a, b, c) refl

  module _ (readable : Readable B) (h : Coherent B cl0) (lt : id < cl0.caches)
      (small : (cl0.node id).clock + length v ≤ 0xffff_ffff)
      (away : (a : ℕ) → k ≤ a → a < k + length v → home cl0.caches a ≢ id) where
    piece :
        (cl : Cluster Store) (a idx n : ℕ)
        → Progress cl idx
        → a ≡ k + idx
        → 0 < n
        → idx + n ≤ length v
        → low_mask a + n ≤ 32
        → (cl' : Cluster Store) × ((putblockdata B cl id a (take n (drop idx v)) ≡ ok cl')
            × Progress cl' (idx + n))
    piece cl a idx n p e pos le fits =
        let len : length (take n (drop idx v)) ≡ n =
          length-take n (drop idx v) (ground (arith, length-drop idx v)) in
        let far : home cl.caches a ≢ id = rw p.count (away a (omega arith) (omega arith)) in
        let (cl', (runs, s)) =
          doput_lem B cl id a (take n (drop idx v)) readable p.coherent (rw len fits)
            (rw p.count lt) (omega (arith, p.time)) in
        let all : stored B cl id a (take n (drop idx v)) ≡ take n (drop idx v) =
          stored_away B cl id a (take n (drop idx v)) far in
        (
          cl',
          (
            runs,
            record {
              coherent = s.coherent;
              words =
                  s.words
                  ∙ ap (λ u. copy a u (word cl.store)) all
                  ∙ ap (λ b. copy b (take n (drop idx v)) (word cl.store)) e
                  ∙ ap (copy (k + idx) (take n (drop idx v))) p.words
                  ∙ copy_slice k idx n v (word cl0.store) le;
              count = s.count ∙ p.count;
              time = ground (arith, s.clocks id (rw p.count lt), p.time);
            },
          ),
        )

    -- The loop from the start of a block on.
    blocks :
        (m : ℕ) (cl : Cluster Store) (i k_end idx : ℕ)
        → Progress cl idx
        → i % 32 ≡ 0
        → k_end % 32 ≡ 0
        → k_end ≤ k + length v
        → (i ≡ k + idx) ⊎ (k_end ≤ i)
        → k_end ≤ i + m
        → (cl' : Cluster Store) × ((idx' : ℕ) × ((put_blocks B m cl id i k_end v idx
                ≡ ok (cl', idx'))
              × Progress cl' idx'
              × (((k_end ≤ i) × (idx' ≡ idx)) ⊎ (k + idx' ≡ k_end))))
    unfolding put_blocks
    blocks zero cl i k_end idx p al al' le here enough =
        (cl, (idx, (ground arith, p, inl (omega arith, refl))))
    blocks (suc m) cl i k_end idx p al al' le here enough = elim (Bool-cases (ltb i k_end)) [
      | inl t ↦
          let more : i < k_end = ground arith in
          let (cl1, (runs1, p1)) =
            piece cl i idx 32 p (ground arith) (omega arith) (ground arith) (omega arith) in
          let (cl2, (idx2, (runs2, p2, there))) =
            blocks m cl1 (i + 32) k_end (idx + 32) p1 (omega arith) al' le (inl (ground arith))
              (omega arith) in
          (cl2, (idx2, (rw (t, runs1) runs2, p2, inr (ground arith))))
      | inr t ↦ (cl, (idx, (rw t refl, p, inl (ground arith, refl))))
    ]

    nothing : Progress cl0 0
    nothing = record {
      coherent = h;
      words = sym (copy_nothing k (word cl0.store));
      count = refl;
      time = omega arith;
    }

    first :
        (c : ℕ)
        → c ≤ length v
        → low_mask k + c ≤ 32
        → (cl' : Cluster Store) × ((put_first B cl0 id k v c ≡ ok cl') × Progress cl' c)
    unfolding put_first
    first zero le fits = (cl0, (refl, nothing))
    first (suc c) le fits =
        let (cl1, (runs, p)) =
          piece cl0 k 0 (suc c) nothing (omega arith) (omega arith) (omega arith) fits in
        let sum : 0 + suc c ≡ suc c = omega arith in
        (cl1, (ground (arith, runs), subst (Progress cl1) sum p))

    last :
        (cl : Cluster Store) (k_end idx : ℕ)
        → Progress cl idx
        → idx ≤ length v
        → low_mask k_end + (length v - idx) ≤ 32
        → (idx < length v → k_end ≡ k + idx)
        → (cl' : Cluster Store) × (((if ltb idx (length v)
                then putblockdata B cl id k_end (drop idx v)
                else ok cl)
              ≡ ok cl')
            × Progress cl' (length v))
    last cl k_end idx p le fits here = elim (Bool-cases (ltb idx (length v))) [
      | inl t ↦
          let n = length v - idx in
          let rest : take n (drop idx v) ≡ drop idx v =
            ap (λ m. take m (drop idx v)) (sym (length-drop idx v)) ∙ take-length (drop idx v) in
          let (cl', (runs, p')) =
            piece cl k_end idx n p (here (ground arith)) (ground arith) (omega arith) fits in
          let total : idx + n ≡ length v = omega arith in
          (
            cl',
            (
              rw t (ap (putblockdata B cl id k_end) (sym rest) ∙ runs),
              subst (Progress cl') total p',
            ),
          )
      | inr t ↦
          let total : idx ≡ length v = ground arith in
          (cl, (rw t refl, subst (Progress cl) total p))
    ]

    loops : {start c k_end : ℕ} → Cut k (length v) start c k_end → (start ≡ k + c) ⊎ (k_end ≤ start)
    loops cut = elim cut.follows [ inl e ↦ inl e | inr (le, e) ↦ inr le ]

    putchunk_at_lem :
        (cl' : Cluster Store) × ((putchunk_at B cl0 id k v ≡ ok cl') × Progress cl' (length v))
    putchunk_at_lem =
        let len = length v in
        let c = first_length k len in
        let k_end = high_mask (k + len) in
        let cut = chunk-Cut k len in
        let (cl1, (runs1, p1)) = first c cut.short cut.inside in
        let (cl2, (idx, (runs2, p2, there))) =
          blocks len cl1 (chunk_start k) k_end c p1 cut.aligned (omega arith) (omega arith)
            (loops cut) cut.reached in
        let (le, fits, here) = rest_of_Cut k len (chunk_start k) c k_end idx cut refl there in
        let (cl3, (runs3, p3)) = last cl2 k_end idx p2 le fits here in
        (cl3, (putchunk_at_runs cl1 cl2 cl3 idx runs1 runs2 runs3, p3))

-- `putchunk` returns and writes the words of the chunk, all of them and nothing else, if the store can
-- be read, the clock of the node does not wrap around, and no block of the chunk has its home at the
-- node itself. The caches, at most 64, agree with the store before and afterwards.
pub putchunk_lem :
    (B : Backend) (cl : Cluster B.Store) (id okey fldid : ℕ) (v : List ℕ)
    → Readable B
    → Coherent B cl
    → id < cl.caches
    → (cl.node id).clock + length v ≤ 0xffff_ffff
    → ((a : ℕ) → make64 okey fldid ≤ a → a < make64 okey fldid + length v → home cl.caches a ≢ id)
    → (cl' : Cluster B.Store) × ((putchunk B cl id okey fldid v ≡ ok cl')
        × Coherent B cl'
        × (B.word cl'.store ≡ copy (make64 okey fldid) v (B.word cl.store)))
unfolding putchunk
putchunk_lem B cl id okey fldid v readable h lt small away =
    let k = make64 okey fldid in
    let (cl', (runs, p)) = putchunk_at_lem B cl id k v readable h lt small away in
    (cl', (runs, p.coherent, p.words ∙ ap (λ u. copy k u (B.word cl.store)) (take-length v)))
