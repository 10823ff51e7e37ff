-- ===== src/Cache/Memory.antt =====
-- The calls `get` and `put` of the nodes of a cluster (Dogee/DogeeDirectoryCache.cpp) against one
-- memory without caches, from the start of the program on.
use native.Mathlib.Decide.{ℕ_discrete}
use mathlib.Core.Path.{fun_ext}
use dogee.Prelude.{
  ℕ, zero, suc, ◌+◌, ◌-◌, ◌<◌, ◌≤◌, ◌≡◌, refl, ap, ◌∙◌, inl, inr, List, [], ◌∷◌, arith, length,
  subst,
}
use dogee.Cache.Address.{high_mask, low_mask, make64}
use dogee.Cache.Backend.{Backend, copy}
use dogee.Cache.Node.{Cluster, update, Run, ok, ◌>>=◌}
use dogee.Cache.Client.{get, put}
use dogee.Cache.Coherent.{NodeIsSound, Coherent}
use dogee.Cache.Hits.{Readable, Stores}
use dogee.Cache.Puts.{stored_word, stored, doput_lem}
use dogee.Cache.Gets.{Kept, doget_lem}
use dogee.Cache.Node.{init, count_up}
use dogee.Cache.Sound.{In, Distinct}

-- A call of the program on one of the nodes.
pub data Call : Type 0 where
  reads : (node okey fldid : ℕ) → Call
  writes : (node okey fldid v : ℕ) → Call

abbrev pub caller : Call → ℕ
caller (reads j okey fldid) = j
caller (writes j okey fldid v) = j

-- What the calls read, one after the other, from one memory.
unfoldable pub memory_run : (ℕ → ℕ) → List Call → (ℕ → ℕ) × List ℕ
memory_run m [] = (m, [])
memory_run m (reads j okey fldid ∷ calls) =
    let (m', outs) = memory_run m calls in (m', m (make64 okey fldid) ∷ outs)
memory_run m (writes j okey fldid v ∷ calls) = memory_run (update m (make64 okey fldid) v) calls

-- All calls are of nodes of the cluster.
abbrev pub AllIn : ℕ → List Call → Type 0
AllIn caches [] = Unit {0}
AllIn caches (c ∷ calls) = (caller c < caches) × AllIn caches calls

pub copy_word : (w : ℕ → ℕ) (a v : ℕ) → copy a (v ∷ []) w ≡ update w a v
unfolding copy
copy_word w a v = fun_ext λ x. elim (ℕ_discrete x a) [
  | yes e ↦ let z : x - a ≡ 0 = omega arith in rw z (ground arith)
  | no e ↦ ground arith
]

module _ (B : Backend) where
  open B use {Store, word}

  -- The same calls through the caches.
  unfoldable pub cache_run : Cluster Store → List Call → Run (Cluster Store × List ℕ)
  cache_run cl [] = ok (cl, [])
  cache_run cl (reads j okey fldid ∷ calls) = do
    (cl', x) ← get B cl j okey fldid
    (cl'', outs) ← cache_run cl' calls
    ok (cl'', x ∷ outs)
  cache_run cl (writes j okey fldid v ∷ calls) = do
    cl' ← put B cl j okey fldid v
    cache_run cl' calls

  get_lem :
      (cl : Cluster Store) (id okey fldid : ℕ)
      → Readable B
      → Coherent B cl
      → id < cl.caches
      → (cl.node id).clock < 0xffff_ffff
      → (cl' : Cluster Store) × ((get B cl id okey fldid
            ≡ ok (cl', word cl.store (make64 okey fldid)))
          × Kept B cl cl')
  unfolding get
  get_lem cl id okey fldid readable h lt small =
      let addr = make64 okey fldid in
      let (cl', (words, (runs, kept, right))) = doget_lem B cl id addr readable h lt small in
      let e : high_mask addr + low_mask fldid ≡ addr = omega arith in
      let r : words (low_mask fldid) ≡ word cl.store addr =
        right (low_mask fldid) (omega arith) ∙ ap (word cl.store) e in
      (cl', (rw (runs, r) refl, kept))

  put_lem :
      (cl : Cluster Store) (id okey fldid v : ℕ)
      → Readable B
      → Coherent B cl
      → id < cl.caches
      → (cl.node id).clock < 0xffff_ffff
      → (cl' : Cluster Store) × ((put B cl id okey fldid v ≡ ok cl')
          × Stores B cl cl' (make64 okey fldid) (v ∷ []))
  unfolding put
  put_lem cl id okey fldid v readable h lt small =
      let addr = make64 okey fldid in
      let fits : low_mask addr + 1 ≤ 32 = omega arith in
      let (cl', (runs, s)) = doput_lem B cl id addr (v ∷ []) readable h fits lt small in
      let whole : stored B cl id addr (v ∷ []) ≡ v ∷ [] = stored_word B cl id addr v in
      (cl', (runs, subst (Stores B cl cl' addr) whole s))

  read_step :
      (cl cl1 cl2 : Cluster Store) (j okey fldid x : ℕ) (calls : List Call) (outs : List ℕ)
      → get B cl j okey fldid ≡ ok (cl1, x)
      → cache_run cl1 calls ≡ ok (cl2, outs)
      → cache_run cl (reads j okey fldid ∷ calls) ≡ ok (cl2, x ∷ outs)
  unfolding cache_run
  read_step cl cl1 cl2 j okey fldid x calls outs got runs = rw (got, runs) refl

  write_step :
      (cl cl1 cl2 : Cluster Store) (j okey fldid v : ℕ) (calls : List Call) (outs : List ℕ)
      → put B cl j okey fldid v ≡ ok cl1
      → cache_run cl1 calls ≡ ok (cl2, outs)
      → cache_run cl (writes j okey fldid v ∷ calls) ≡ ok (cl2, outs)
  unfolding cache_run
  write_step cl cl1 cl2 j okey fldid v calls outs got runs = rw (got, runs) refl

  pub cache_run_lem :
      (cl : Cluster Store) (calls : List Call)
      → Readable B
      → Coherent B cl
      → AllIn cl.caches calls
      → ((j : ℕ) → j < cl.caches → (cl.node j).clock + length calls ≤ 0xffff_ffff)
      → (cl' : Cluster Store) × ((cache_run cl calls
            ≡ ok (cl', (memory_run (word cl.store) calls).1))
          × Coherent B cl'
          × (word cl'.store ≡ (memory_run (word cl.store) calls).0))
  unfolding memory_run cache_run
  cache_run_lem cl [] readable h members small = (cl, (refl, h, refl))
  cache_run_lem cl (reads j okey fldid ∷ calls) readable h members small =
      let (cl1, (got, kept)) =
        get_lem cl j okey fldid readable h members.0 (ground (arith, small j members.0)) in
      let (cl2, (runs, coherent, same)) =
        cache_run_lem cl1 calls readable kept.coherent (rw kept.count (members.1))
          (λ i lt. ground (arith, small i, kept.clocks i, kept.count)) in
      (
        cl2,
        (
          read_step cl cl1 cl2 j okey fldid (word cl.store (make64 okey fldid)) calls _ got
              (runs ∙ ap (λ s. ok (cl2, (memory_run (word s) calls).1)) kept.same),
          coherent,
          same ∙ ap (λ s. (memory_run (word s) calls).0) kept.same,
        ),
      )
  cache_run_lem cl (writes j okey fldid v ∷ calls) readable h members small =
      let (cl1, (got, s)) =
        put_lem cl j okey fldid v readable h members.0 (ground (arith, small j members.0)) in
      let (cl2, (runs, coherent, same)) =
        cache_run_lem cl1 calls readable s.coherent (rw s.count (members.1))
          (λ i lt. ground (arith, small i, s.clocks i, s.count)) in
      let after : word cl1.store ≡ update (word cl.store) (make64 okey fldid) v =
        s.words ∙ copy_word (word cl.store) (make64 okey fldid) v in
      (
        cl2,
        (
          write_step cl cl1 cl2 j okey fldid v calls _ got
              (runs ∙ ap (λ m. ok (cl2, (memory_run m calls).1)) after),
          coherent,
          same ∙ ap (λ m. (memory_run m calls).0) after,
        ),
      )

-- The free blocks at the start.
count_up-In :
    (n k i : ℕ)
    → (In i (count_up n k) → (k ≤ i) × (i < k + n)) × (k ≤ i → i < k + n → In i (count_up n k))
unfolding count_up
count_up-In zero k i = (λ h. absurd h, λ le lt. absurd (ground arith))
count_up-In (suc n) k i = (
  λ h. elim h [
    | inl e ↦ (omega arith, omega arith)
    | inr later ↦ ground (arith, (count_up-In n (suc k) i).0 later)
  ],
  λ le lt. elim (ℕ_discrete i k) [
    | yes e ↦ inl e
    | no e ↦ inr ((count_up-In n (suc k) i).1 (omega arith) (omega arith))
  ],
)

count_up-Distinct : (n k : ℕ) → Distinct (count_up n k)
unfolding count_up
count_up-Distinct zero k = tt
count_up-Distinct (suc n) k =
    (λ h. ground (arith, (count_up-In n (suc k) k).0 h), count_up-Distinct n (suc k))

init-Sound : (w : ℕ → ℕ) (junk : ℕ → ℕ → ℕ) → NodeIsSound w (init junk)
unfolding init
init-Sound w junk = record {
  bounded = λ k i e. absurd (ground arith);
  keyed = λ k i e. absurd (ground arith);
  aligned = λ k i e. absurd (ground arith);
  used = λ i h. absurd (h refl);
  free = λ i h. (refl, ground (arith, (count_up-In 1024 0 i).0 h));
  covered = λ i lt e. (count_up-In 1024 0 i).1 (omega arith) (omega arith);
  distinct = count_up-Distinct 1024 0;
  recent = λ i h. absurd (h refl);
  current = λ k i x e lt. absurd (ground arith);
}

-- The cluster when the program starts.
abbrev pub start : (B : Backend) → ℕ → B.Store → (ℕ → ℕ → ℕ → ℕ) → Cluster B.Store
start B caches s junk = record { caches = caches; store = s; node = λ j. init (junk j) }

pub start-Coherent :
    (B : Backend) (caches : ℕ) (s : B.Store) (junk : ℕ → ℕ → ℕ → ℕ)
    → caches ≤ 64
    → Coherent B (start B caches s junk)
start-Coherent B caches s junk few = record {
  few = few;
  sound = λ j lt. init-Sound (B.word s) (junk j);
  shared = λ j k i lt e. absurd (unfold init in ground arith);
}

-- Any sequence of single-word reads and writes by the nodes of a cluster returns, from the start of
-- the program on, what one memory without caches returns, and leaves the same words in the store, if
-- the backend can be read, there are at most 64 nodes, the renewals of a call arrive before the next call
-- begins, and there are fewer calls than the clock has values.
pub cache_refines_memory :
    (B : Backend) (caches : ℕ) (s : B.Store) (junk : ℕ → ℕ → ℕ → ℕ) (calls : List Call)
    → Readable B
    → caches ≤ 64
    → AllIn caches calls
    → length calls ≤ 0xffff_ffff
    → (cl' : Cluster B.Store) × ((cache_run B (start B caches s junk) calls
          ≡ ok (cl', (memory_run (B.word s) calls).1))
        × (B.word cl'.store ≡ (memory_run (B.word s) calls).0))
cache_refines_memory B caches s junk calls readable few members small =
    let (cl', (runs, coherent, same)) =
      cache_run_lem B (start B caches s junk) calls readable (start-Coherent B caches s junk few)
        members (λ j lt. unfold init in omega arith) in
    (cl', (runs, same))
