-- ===== src/DMap/Build.antt =====
-- A map of include/DMap.h that is built by `insert` from nothing.
use dogee.Prelude.{
  ℕ, suc, ◌+◌, ◌<◌, ◌≤◌, ◌≡◌, refl, ap, ◌↔◌, ◌⊎◌, inl, inr, arith, List, [], ◌∷◌, ◌++◌, Option,
  none, some, length, length-append,
}
use dogee.DMap.Node.{Heap}
use dogee.DMap.Tree.{Tree, leaf, node, size, Holds, IsOrdered}
use dogee.DMap.Insert.{insert}
use dogee.DMap.Zipper.{HoldsAbove, one, times, one_self, times_above}
use dogee.DMap.Balance.{IsRedBlack, Entry, entries}
use dogee.DMap.Insertion.{IsMap, Adds, insert_lem}

-- Calls of `insert`, each with the object that `NewObj` returns for it.
unfoldable pub insert_all : ℕ → Heap → ℕ → List Entry → Option (Heap × ℕ)
insert_all fuel h root [] = some (h, root)
insert_all fuel h root ((z, key, value) ∷ es) = elim (insert fuel h root z key value) [
  | none ↦ none
  | some s ↦ insert_all fuel s.heap s.m_root es
]

abbrev pub In : Entry → List Entry → Type 0
In e [] = ⊥
In e (x ∷ xs) = (e ≡ x) ⊎ In e xs

-- How often an object is in a list of entries.
abbrev pub uses : ℕ → List Entry → ℕ
uses w [] = 0
uses w ((z, k, v) ∷ es) = one w z + uses w es

uses-append : (w : ℕ) (xs ys : List Entry) → uses w (xs ++ ys) ≡ uses w xs + uses w ys
uses-append w [] ys = omega arith
uses-append w ((z, k, v) ∷ xs) ys = omega (arith, uses-append w xs ys)

uses-entries : (w : ℕ) (t : Tree) → uses w (entries t) ≡ times w t
unfolding entries times
uses-entries w leaf = refl
uses-entries w (node l a c k v r) =
    omega
      (arith, uses-append w (entries l) ((a, k, v) ∷ entries r), uses-entries w l, uses-entries w r)

length-entries : (t : Tree) → length (entries t) ≡ size t
unfolding entries
length-entries leaf = refl
length-entries (node l a c k v r) =
    omega
      (arith, length-append (entries l) ((a, k, v) ∷ entries r), length-entries l, length-entries r)

In-front : (e : Entry) (xs ys : List Entry) → In e xs → In e (xs ++ ys)
In-front e [] ys i = absurd i
In-front e (x ∷ xs) ys (inl same) = inl same
In-front e (x ∷ xs) ys (inr i) = inr (In-front e xs ys i)

In-back : (e : Entry) (xs ys : List Entry) → In e ys → In e (xs ++ ys)
In-back e [] ys i = i
In-back e (x ∷ xs) ys i = inr (In-back e xs ys i)

In-parts : (e : Entry) (xs ys : List Entry) → In e (xs ++ ys) → In e xs ⊎ In e ys
In-parts e [] ys i = inr i
In-parts e (x ∷ xs) ys (inl same) = inl (inl same)
In-parts e (x ∷ xs) ys (inr i) = elim (In-parts e xs ys i) [ inl a ↦ inl (inr a) | inr b ↦ inr b ]

-- A list with one more entry somewhere.
In-added : (e d : Entry) (xs ys : List Entry) → In e (xs ++ (d ∷ ys)) ↔ ((e ≡ d) ⊎ In e (xs ++ ys))
In-added e d xs ys = (
  λ i. elim (In-parts e xs (d ∷ ys) i) [
    | inl a ↦ inr (In-front e xs ys a)
    | inr (inl same) ↦ inl same
    | inr (inr b) ↦ inr (In-back e xs ys b)
  ],
  λ i. elim i [
    | inl same ↦ In-back e xs (d ∷ ys) (inl same)
    | inr j ↦ elim (In-parts e xs ys j) [
      | inl a ↦ In-front e xs (d ∷ ys) a
      | inr b ↦ In-back e xs (d ∷ ys) (inr b)
    ]
  ],
)

-- The objects of the entries are not null, and none is used twice or is a node of the tree already.
abbrev pub AreNew : List Entry → Tree → Type 0
AreNew es t = ((w : ℕ) → uses w es + times w t ≤ 1) × (uses 0 es ≡ 0)

-- What the calls leave.
abbrev pub Built : ℕ → Heap → ℕ → List Entry → Tree → Type 0
Built fuel h root es t =
    (h' : Heap) × (root' : ℕ) × (t' : Tree) × ((insert_all fuel h root es ≡ some (h', root'))
      × IsMap h' root' t'
      × ((e : Entry) → In e (entries t') ↔ (In e es ⊎ In e (entries t))))

positive : (z : ℕ) → one 0 z ≡ 0 → 0 < z
unfolding one
positive z e = ground arith

-- What one call adds to the counts and to the entries.
added-times :
    (w : ℕ) (e : Entry) (t t' : Tree)
    → Adds e (entries t) (entries t')
    → times w t' ≡ one w e.0 + times w t
added-times w e t t' adds = omega (
  arith,
  uses-entries w t,
  uses-entries w t',
  ap (uses w) adds.old_parts,
  ap (uses w) adds.new_parts,
  uses-append w adds.front adds.back,
  uses-append w adds.front (e ∷ adds.back),
)

added-size : (e : Entry) (t t' : Tree) → Adds e (entries t) (entries t') → size t' ≡ suc (size t)
added-size e t t' adds = omega (
  arith,
  length-entries t,
  length-entries t',
  ap (λ xs. length xs) adds.old_parts,
  ap (λ xs. length xs) adds.new_parts,
  length-append adds.front adds.back,
  length-append adds.front (e ∷ adds.back),
)

added-In :
    (e d : Entry) (t t' : Tree)
    → Adds d (entries t) (entries t')
    → In e (entries t') ↔ ((e ≡ d) ⊎ In e (entries t))
added-In e d t t' adds = rw (adds.new_parts, adds.old_parts) (In-added e d adds.front adds.back)

later-In :
    (e d : Entry) (es : List Entry) (t t1 t' : Tree)
    → In e (entries t') ↔ (In e es ⊎ In e (entries t1))
    → In e (entries t1) ↔ ((e ≡ d) ⊎ In e (entries t))
    → In e (entries t') ↔ (In e (d ∷ es) ⊎ In e (entries t))
later-In e d es t t1 t' later once = (
  λ i. elim (later.0 i) [
    | inl a ↦ inl (inr a)
    | inr b ↦ elim (once.0 b) [ inl same ↦ inl (inl same) | inr c ↦ inr c ]
  ],
  λ i. elim i [
    | inl (inl same) ↦ later.1 (inr (once.1 (inl same)))
    | inl (inr a) ↦ later.1 (inl a)
    | inr b ↦ later.1 (inr (once.1 (inr b)))
  ],
)

build_from :
    (fuel : ℕ) (h : Heap) (root : ℕ) (es : List Entry) (t : Tree)
    → IsMap h root t
    → AreNew es t
    → length es + size t + 1 ≤ fuel
    → Built fuel h root es t
unfolding insert_all
build_from fuel h root [] t m new f =
    (h, root, t, (refl, m, λ e. (λ i. inr i, λ i. elim i [ inl a ↦ absurd a | inr b ↦ b ])))
build_from fuel h root ((z, key, value) ∷ es) t m new f =
    let (s, t1, (runs, m1, adds)) =
      insert_lem fuel h root z key value t m (positive z (omega (arith, new.1)))
        (omega (arith, new.0 z, one_self z)) (omega arith) in
    let (h', root', t', (later, m', same)) =
      build_from fuel s.heap s.m_root es t1 m1
        (λ w. omega (arith, new.0 w, added-times w (z, key, value) t t1 adds), omega (arith, new.1))
        (omega (arith, added-size (z, key, value) t t1 adds)) in
    (
      h',
      root',
      t',
      (
        rw (runs, insert_all) later,
        m',
        λ e. later-In e (z, key, value) es t t1 t' (same e) (added-In e (z, key, value) t t1 adds),
      ),
    )

empty-IsMap : (h : Heap) → IsMap h 0 leaf
unfolding Holds HoldsAbove IsRedBlack IsOrdered times times_above
empty-IsMap h = record {
  zipped = record { below = tt; above = tt; apart = λ w. omega arith };
  rooted = refl;
  is_black = tt;
  height = 0;
  balanced = refl;
  ordered = tt;
}

-- Any calls of `insert` on an empty map end, with more fuel than there are calls, and the heap holds a map with
-- exactly the inserted entries. The objects that `NewObj` returns are different and not null.
pub insert_all_lem :
    (fuel : ℕ) (h : Heap) (es : List Entry)
    → ((w : ℕ) → uses w es ≤ 1)
    → uses 0 es ≡ 0
    → length es < fuel
    → (h' : Heap) × (root : ℕ) × (t : Tree) × ((insert_all fuel h 0 es ≡ some (h', root))
        × IsMap h' root t
        × ((e : Entry) → In e (entries t) ↔ In e es))
unfolding entries times
insert_all_lem fuel h es once not_null f =
    let (h', root, t, (runs, m, same)) =
      build_from fuel h 0 es leaf (empty-IsMap h) (λ w. omega (arith, once w), not_null)
        (omega arith) in
    (
      h',
      root,
      t,
      (
        runs,
        m,
        λ e. (λ i. elim ((same e).0 i) [ inl a ↦ a | inr b ↦ absurd b ], λ i. (same e).1 (inl i)),
      ),
    )
