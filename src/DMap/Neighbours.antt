-- ===== src/DMap/Neighbours.antt =====
-- `successor` and `predecessor` of include/DMap.h walk through the keys in their order.
use mathlib.Core.List.{append_assoc, append-nil}
use dogee.Prelude.{
  ℕ, zero, suc, ◌<◌, ◌≤◌, ◌≡◌, ◌≢◌, refl, sym, ap, ◌∙◌, arith, List, [], ◌∷◌, ◌++◌, some,
}
use dogee.DMap.Node.{
  Color, RbtNode, Heap, go_left, go_right, minimum, maximum, climb_left, climb_right, successor,
  predecessor,
}
use dogee.DMap.Tree.{
  Tree, leaf, node, Holds, height, max_bounds, address-not_null, eq_true, eq_false,
}
use dogee.DMap.Zipper.{
  Above, top, in_left, in_right, up, HoldsAbove, times, times_above, one_self, Zipped,
}
use dogee.DMap.Writes.{address-ne}
use dogee.DMap.Balance.{Entry, entries, before, after}
use dogee.DMap.FixUp.{depth}

-- The object of the first entry and of the last one, and 0 where there is none.
abbrev pub first : List Entry → ℕ
first [] = 0
first ((a, k, v) ∷ es) = a

abbrev pub last : List Entry → ℕ
last [] = 0
last ((a, k, v) ∷ []) = a
last (e ∷ d ∷ es) = last (d ∷ es)

last-end : (xs : List Entry) (a k v : ℕ) → last (xs ++ ((a, k, v) ∷ [])) ≡ a
last-end [] a k v = refl
last-end (x ∷ []) a k v = refl
last-end (x ∷ y ∷ xs) a k v = last-end (y ∷ xs) a k v

climb_right_lem :
    (fuel : ℕ) (h : Heap) (x : ℕ) (u : Above)
    → HoldsAbove h x u
    → times_above x u ≡ 0
    → 0 < x
    → ((w : ℕ) → times_above w u ≤ 1)
    → depth u < fuel
    → climb_right fuel h x (up u) ≡ some (first (after u))
unfolding climb_right HoldsAbove times_above after
climb_right_lem zero h x u held out pos apart f = absurd (omega arith)
climb_right_lem (suc fuel) h x top held out pos apart f = refl
climb_right_lem (suc fuel) h x (in_right l a c k v u) held out pos apart f =
    let same : (h a).right ≡ x = ap (λ (n : RbtNode). n.right) held.1 in
    let parent : (h a).parent ≡ up u = ap (λ (n : RbtNode). n.parent) held.1 in
    rw (address-not_null a held.0, eq_true x (h a).right (sym same), parent)
      (climb_right_lem fuel h a u held.3 (omega (arith, apart a, one_self a)) held.0
        (λ w. omega (arith, apart w)) (omega arith))
climb_right_lem (suc fuel) h x (in_left u a c k v r) held out pos apart f =
    let other : x ≢ (h a).right =
      λ e. address-ne x r pos (omega arith) (sym (e ∙ ap (λ (n : RbtNode). n.right) held.1)) in
    rw (address-not_null a held.0, eq_false x (h a).right other) refl

climb_left_lem :
    (fuel : ℕ) (h : Heap) (x : ℕ) (u : Above)
    → HoldsAbove h x u
    → times_above x u ≡ 0
    → 0 < x
    → ((w : ℕ) → times_above w u ≤ 1)
    → depth u < fuel
    → climb_left fuel h x (up u) ≡ some (last (before u))
unfolding climb_left HoldsAbove times_above before
climb_left_lem zero h x u held out pos apart f = absurd (omega arith)
climb_left_lem (suc fuel) h x top held out pos apart f = refl
climb_left_lem (suc fuel) h x (in_left u a c k v r) held out pos apart f =
    let same : (h a).left ≡ x = ap (λ (n : RbtNode). n.left) held.1 in
    let parent : (h a).parent ≡ up u = ap (λ (n : RbtNode). n.parent) held.1 in
    rw (address-not_null a held.0, eq_true x (h a).left (sym same), parent)
      (climb_left_lem fuel h a u held.3 (omega (arith, apart a, one_self a)) held.0
        (λ w. omega (arith, apart w)) (omega arith))
climb_left_lem (suc fuel) h x (in_right l a c k v u) held out pos apart f =
    let other : x ≢ (h a).left =
      λ e. address-ne x l pos (omega arith) (sym (e ∙ ap (λ (n : RbtNode). n.left) held.1)) in
    let ends : last (before u ++ (entries l ++ ((a, k, v) ∷ []))) ≡ a =
      ap last (sym (append_assoc (before u) (entries l) ((a, k, v) ∷ [])))
      ∙ last-end (before u ++ entries l) a k v in
    rw (address-not_null a held.0, eq_false x (h a).left other, ends) refl

go_left-first :
    (fuel : ℕ) (h : Heap) (p : ℕ) (l r : Tree) (a : ℕ) (c : Color) (k v : ℕ)
    → Holds h p (node l a c k v r)
    → height (node l a c k v r) < fuel
    → (es : List Entry) → go_left fuel h a ≡ some (first (entries (node l a c k v r) ++ es))
unfolding go_left Holds entries
go_left-first zero h p l r a c k v held f es = absurd (omega arith)
go_left-first (suc fuel) h p leaf r a c k v held f es = rw (held.1) refl
go_left-first (suc fuel) h p (node ll la lc lk lv lr) r a c k v held f es =
    let (tall, _) = max_bounds (height (node ll la lc lk lv lr)) (height r) in
    rw (held.1, address-not_null la held.2.0)
      (go_left-first fuel h a ll lr la lc lk lv held.2 (omega arith) (((a, k, v) ∷ entries r) ++ es)
        ∙ ap (λ xs. some (first xs))
            (sym (append_assoc (entries (node ll la lc lk lv lr)) ((a, k, v) ∷ entries r) es)))

regroup :
    (xs ys zs : List Entry) (e : Entry) → (xs ++ (ys ++ (e ∷ []))) ++ zs ≡ xs ++ (ys ++ (e ∷ zs))
regroup xs ys zs e = simp append_assoc

go_right-last :
    (fuel : ℕ) (h : Heap) (p : ℕ) (l r : Tree) (a : ℕ) (c : Color) (k v : ℕ)
    → Holds h p (node l a c k v r)
    → height (node l a c k v r) < fuel
    → (es : List Entry) → go_right fuel h a ≡ some (last (es ++ entries (node l a c k v r)))
unfolding go_right Holds entries
go_right-last zero h p l r a c k v held f es = absurd (omega arith)
go_right-last (suc fuel) h p l leaf a c k v held f es = rw (held.1) (
    ap some (
      sym (
        ap last (sym (append_assoc es (entries l) ((a, k, v) ∷ [])))
        ∙ last-end (es ++ entries l) a k v)))
go_right-last (suc fuel) h p l (node rl ra rc rk rv rr) a c k v held f es =
    let (_, tall) = max_bounds (height l) (height (node rl ra rc rk rv rr)) in
    rw (held.1, address-not_null ra held.3.0)
      (go_right-last fuel h a rl rr ra rc rk rv held.3 (omega arith)
          (es ++ (entries l ++ ((a, k, v) ∷ [])))
        ∙ ap (λ xs. some (last xs))
            (regroup es (entries l) (entries (node rl ra rc rk rv rr)) (a, k, v)))

module _ (fuel : ℕ) (h : Heap) (u : Above) (a : ℕ) (c : Color) (k v : ℕ) (g : depth u < fuel) where
  above_lem :
      (l r : Tree)
      → Zipped h u (node l a c k v r)
      → (times_above a u ≡ 0) × ((w : ℕ) → times_above w u ≤ 1)
  unfolding times
  above_lem l r z = (omega (arith, z.apart a, one_self a), λ w. omega (arith, z.apart w))

  next :
      (l r : Tree)
      → Zipped h u (node l a c k v r)
      → height (node l a c k v r) < fuel
      → successor fuel h a ≡ some (first (entries r ++ after u))
  unfolding successor minimum Holds entries
  next l leaf z f =
      let (out, apart) = above_lem l leaf z in
      rw z.below.1 (climb_right_lem fuel h a u z.above out z.below.0 apart g)
  next l (node rl ra rc rk rv rr) z f =
      let (_, tall) = max_bounds (height l) (height (node rl ra rc rk rv rr)) in
      rw (z.below.1, address-not_null ra z.below.3.0)
        (go_left-first fuel h a rl rr ra rc rk rv z.below.3 (omega arith) (after u))

  previous :
      (l r : Tree)
      → Zipped h u (node l a c k v r)
      → height (node l a c k v r) < fuel
      → predecessor fuel h a ≡ some (last (before u ++ entries l))
  unfolding predecessor maximum Holds entries
  previous leaf r z f =
      let (out, apart) = above_lem leaf r z in
      rw (z.below.1, append-nil (before u))
        (climb_left_lem fuel h a u z.above out z.below.0 apart g)
  previous (node ll la lc lk lv lr) r z f =
      let (tall, _) = max_bounds (height (node ll la lc lk lv lr)) (height r) in
      rw (z.below.1, address-not_null la z.below.2.0)
        (go_right-last fuel h a ll lr la lc lk lv z.below.2 (omega arith) (before u))

-- `successor` returns the node that follows in the order of the entries and `predecessor` the one that
-- precedes, or `nullptr` at either end, with more fuel than the tree is high and than there are nodes above.
-- The heap holds the tree around the node.
pub successor-predecessor :
    (fuel : ℕ) (h : Heap) (u : Above) (l r : Tree) (a : ℕ) (c : Color) (k v : ℕ)
    → Zipped h u (node l a c k v r)
    → height (node l a c k v r) < fuel
    → depth u < fuel
    → (successor fuel h a ≡ some (first (entries r ++ after u)))
      × (predecessor fuel h a ≡ some (last (before u ++ entries l)))
successor-predecessor fuel h u l r a c k v z f g =
    (next fuel h u a c k v g l r z f, previous fuel h u a c k v g l r z f)
