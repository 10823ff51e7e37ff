-- ===== src/DMap/Descend.antt =====
-- The descent of `insertNode` of include/DMap.h.
use dogee.Prelude.{
  ℕ, zero, suc, ◌+◌, ◌<◌, ◌≤◌, ◌≡◌, refl, subst, ◌∙◌, ◌⊎◌, inl, inr, arith, [], ◌∷◌, ◌++◌, some,
  ltb, Bool-cases, lt→ltb, ltb→lt,
}
use dogee.DMap.Node.{Color, red, black, Heap}
use dogee.DMap.Tree.{
  Tree, leaf, node, address, Holds, size, AllKeys, IsOrdered, address-not_null, ltb-false,
}
use dogee.DMap.Bounds.{ltb_false→le}
use dogee.DMap.Insert.{descend}
use dogee.DMap.Zipper.{
  Above, top, in_left, in_right, up, root_of, Zipped, times, times_above, go_left_down,
  go_right_down,
}
use dogee.DMap.Balance.{
  IsBlack, IsRedBlack, IsBlackAbove, IsRedBlackAbove, entries, before, after, around,
  entries-node_left, entries-node_right,
}
use dogee.DMap.Order.{AllEntries, AllEntries-imp, AllEntries-append, AllKeys-entries}
use dogee.DMap.FixUp.{depth}

-- The hole is on the side of its parent where the key belongs.
abbrev pub OnSide : ℕ → Above → Type 0
OnSide key top = Unit
OnSide key (in_left u a c k v r) = key < k
OnSide key (in_right l a c k v u) = k ≤ key

-- The hole is where an insertion of the key belongs.
pub record IsPlace (h : Heap) (key : ℕ) (u : Above) (n : ℕ) (t : Tree) : Type 0 where
  pub zipped : Zipped h u t
  pub balanced : IsRedBlackAbove n u
  pub smaller : AllEntries (λ k. k ≤ key) (before u)
  pub larger : AllEntries (λ k. key < k) (after u)
  pub side : OnSide key u

-- What the descent from a tree below the nodes `u` ends with.
abbrev pub Ends : ℕ → Heap → ℕ → Above → Tree → Type 0
Ends fuel h key u t =
    (u' : Above) × ((descend fuel h key (up u) (address t) ≡ some (up u'))
      × IsPlace h key u' 0 leaf
      × (root_of u' 0 ≡ root_of u (address t))
      × (around u' [] ≡ around u (entries t))
      × (depth u' ≤ depth u + size t)
      × ((w : ℕ) → times_above w u' ≡ times_above w u + times w t))

at_leaf :
    (fuel n : ℕ) (h : Heap) (key : ℕ) (u : Above)
    → IsPlace h key u n leaf
    → IsRedBlack n leaf
    → Ends (suc fuel) h key u leaf
unfolding descend IsRedBlack entries times
at_leaf fuel n h key u place b = (
  u,
  (
    refl,
    record {
      zipped = place.zipped;
      balanced = subst (λ m. IsRedBlackAbove m u) b place.balanced;
      smaller = place.smaller;
      larger = place.larger;
      side = place.side;
    },
    refl,
    refl,
    omega arith,
    λ w. omega arith,
  ),
)

descend_left :
    (fuel : ℕ) (h : Heap) (key p : ℕ) (l r : Tree) (a : ℕ) (c : Color) (k v y : ℕ)
    → Holds h p (node l a c k v r)
    → key < k
    → descend (suc fuel) h key y a ≡ descend fuel h key a (address l)
unfolding descend Holds
descend_left fuel h key p l r a c k v y held less =
    rw (address-not_null a held.0, held.1, lt→ltb key k less) refl

descend_right :
    (fuel : ℕ) (h : Heap) (key p : ℕ) (l r : Tree) (a : ℕ) (c : Color) (k v y : ℕ)
    → Holds h p (node l a c k v r)
    → k ≤ key
    → descend (suc fuel) h key y a ≡ descend fuel h key a (address r)
unfolding descend Holds
descend_right fuel h key p l r a c k v y held more =
    rw (address-not_null a held.0, held.1, ltb-false key k more) refl

-- One step to the left and one to the right.
IsPlace-left :
    (n m : ℕ) (h : Heap) (key : ℕ) (u : Above) (l r : Tree) (a : ℕ) (c : Color) (k v : ℕ)
    → IsPlace h key u n (node l a c k v r)
    → IsRedBlackAbove m (in_left u a c k v r)
    → AllKeys (λ x. k ≤ x) r
    → key < k
    → IsPlace h key (in_left u a c k v r) m l
unfolding before after
IsPlace-left n m h key u l r a c k v place b or less = record {
  zipped = go_left_down h u l r a c k v place.zipped;
  balanced = b;
  smaller = place.smaller;
  larger = (
    less,
    AllEntries-append (λ x. key < x) (entries r) (after u)
        (AllEntries-imp (λ x. k ≤ x) (λ x. key < x) (entries r) (λ x q. omega arith)
          (AllKeys-entries (λ x. k ≤ x) r or))
        place.larger,
  );
  side = less;
}

IsPlace-right :
    (n m : ℕ) (h : Heap) (key : ℕ) (u : Above) (l r : Tree) (a : ℕ) (c : Color) (k v : ℕ)
    → IsPlace h key u n (node l a c k v r)
    → IsRedBlackAbove m (in_right l a c k v u)
    → AllKeys (λ x. x ≤ k) l
    → k ≤ key
    → IsPlace h key (in_right l a c k v u) m r
unfolding before after
IsPlace-right n m h key u l r a c k v place b ol more = record {
  zipped = go_right_down h u l r a c k v place.zipped;
  balanced = b;
  smaller =
      AllEntries-append (λ x. x ≤ key) (before u) (entries l ++ ((a, k, v) ∷ [])) place.smaller
        (AllEntries-append (λ x. x ≤ key) (entries l) ((a, k, v) ∷ [])
          (AllEntries-imp (λ x. x ≤ k) (λ x. x ≤ key) (entries l) (λ x q. omega arith)
            (AllKeys-entries (λ x. x ≤ k) l ol))
          (more, tt));
  larger = place.larger;
  side = more;
}

-- What is known of the children of a node, by its colour.
below_black :
    (n : ℕ) (u : Above) (l r : Tree) (a : ℕ) (c : Color) (k v : ℕ)
    → IsRedBlackAbove n u
    → IsRedBlack n (node l a c k v r)
    → (c ≡ black) ⊎ IsBlackAbove u
    → (m : ℕ) × (IsRedBlack m l
        × IsRedBlack m r
        × IsRedBlackAbove m (in_left u a c k v r)
        × IsRedBlackAbove m (in_right l a c k v u)
        × (IsBlack l ⊎ (c ≡ black))
        × (IsBlack r ⊎ (c ≡ black)))
unfolding IsRedBlack IsRedBlackAbove
below_black n u l r a red k v above b (inl e) = cc
below_black n u l r a red k v above b (inr e) =
    (n, (b.2, b.3, (e, b.1, b.3, above), (e, b.0, b.2, above), inl b.0, inl b.1))
below_black zero u l r a black k v above b e = absurd b
below_black (suc n) u l r a black k v above b e =
    (n, (b.0, b.1, (b.1, above), (b.0, above), inr refl, inr refl))

-- The descent ends at the place of the key.
pub descend_lem :
    (fuel n : ℕ) (h : Heap) (key : ℕ) (u : Above) (t : Tree)
    → IsPlace h key u n t
    → IsRedBlack n t
    → IsBlack t ⊎ IsBlackAbove u
    → IsOrdered t
    → size t < fuel
    → Ends fuel h key u t
unfolding IsOrdered times times_above
descend_lem zero n h key u t place b fits ordered f = absurd (omega arith)
descend_lem (suc fuel) n h key u leaf place b fits ordered f = at_leaf fuel n h key u place b
descend_lem (suc fuel) n h key u (node l a c k v r) place b fits (ol, or, sl, sr) f =
    let (m, (bl, br, in_l, in_r, fits_l, fits_r)) =
      below_black n u l r a c k v place.balanced b fits in
    elim (Bool-cases (ltb key k)) [
      | inl e ↦
          let less : key < k = ltb→lt key k e in
          let (u', (runs, there, root, same, deep, nodes)) =
            descend_lem fuel m h key (in_left u a c k v r) l
              (IsPlace-left n m h key u l r a c k v place in_l or less) bl fits_l sl
              (omega arith) in
          (
            u',
            (
              descend_left fuel h key (up u) l r a c k v (up u) place.zipped.below less ∙ runs,
              there,
              root,
              same ∙ entries-node_left u l r a c k v,
              omega arith,
              λ w. omega (arith, nodes w),
            ),
          )
      | inr e ↦
          let more : k ≤ key = ltb_false→le key k e in
          let (u', (runs, there, root, same, deep, nodes)) =
            descend_lem fuel m h key (in_right l a c k v u) r
              (IsPlace-right n m h key u l r a c k v place in_r ol more) br fits_r sr
              (omega arith) in
          (
            u',
            (
              descend_right fuel h key (up u) l r a c k v (up u) place.zipped.below more ∙ runs,
              there,
              root,
              same ∙ entries-node_right u l r a c k v,
              omega arith,
              λ w. omega (arith, nodes w),
            ),
          )
    ]
