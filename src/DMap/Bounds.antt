-- ===== src/DMap/Bounds.antt =====
-- `lowerBound` and `upperBound` of include/DMap.h find the first key that is not smaller, or larger.
use dogee.Prelude.{
  ℕ, zero, suc, ◌<◌, ◌≤◌, ◌≡◌, refl, sym, subst, ◌⊎◌, inl, inr, some, arith, ltb, leb, Bool,
  Bool-cases, ltb→lt, lt→ltb, true, false,
}
use dogee.DMap.Node.{Heap, bound_from, lower_bound, upper_bound}
use dogee.DMap.Tree.{
  Tree, leaf, node, address, Holds, size, Has, AllKeys, AllKeys-imp, IsOrdered, address-not_null,
}

Has-key : (P : ℕ → Type 0) (b m : ℕ) (t : Tree) → Has b m t → AllKeys P t → P m
unfolding Has AllKeys
Has-key P b m leaf there all = absurd there
Has-key P b m (node l a c k v r) (inl (e, same)) (p, al, ar) = subst P (sym same) p
Has-key P b m (node l a c k v r) (inr (inl there)) (p, al, ar) = Has-key P b m l there al
Has-key P b m (node l a c k v r) (inr (inr there)) (p, al, ar) = Has-key P b m r there ar

module _ (reaches : ℕ → Bool) (up : (x y : ℕ) → x ≤ y → reaches x ≡ true → reaches y ≡ true) where
  -- The result is a node whose key reaches, and no smaller key of the tree does.
  abbrev pub Least : ℕ → Tree → Type 0
  Least b t = (m : ℕ) × (Has b m t × (reaches m ≡ true) × AllKeys (λ x. reaches x ≡ true → m ≤ x) t)

  stays_below : (k : ℕ) → reaches k ≡ false → (y : ℕ) → y ≤ k → reaches y ≡ false
  stays_below k no_k y below = elim (Bool-cases (reaches y)) [
    | inl hit ↦ cc (up y k below hit)
    | inr e ↦ e
  ]

  pub bound_from_lem :
      (fuel : ℕ) (h : Heap) (p b : ℕ) (t : Tree)
      → Holds h p t
      → IsOrdered t
      → size t < fuel
      → (a : ℕ) × ((bound_from reaches fuel h (address t) b ≡ some a)
          × (Least a t ⊎ ((a ≡ b) × AllKeys (λ x. reaches x ≡ false) t)))
  unfolding bound_from Holds Has AllKeys IsOrdered
  bound_from_lem zero h p b t held ordered f = absurd (omega arith)
  bound_from_lem (suc fuel) h p b leaf held ordered f = (b, (refl, inr (refl, tt)))
  bound_from_lem (suc fuel) h p b (node l a c k v r) (pos, at_a, hl, hr) (ol, or, sl, sr) f =
      elim (Bool-cases (reaches k)) [
        | inl yes_k ↦
            let (x, (runs, found)) = bound_from_lem fuel h a a l hl sl (omega arith) in
            (
              x,
              (
                rw (at_a, address-not_null a pos, yes_k) runs,
                inl (elim found as (λ q. Least x (node l a c k v r)) [
                  | inl (m, (there, hit, least)) ↦
                      let below : m ≤ k = Has-key (λ y. y ≤ k) x m l there ol in
                      (
                        m,
                        (
                          inr (inl there),
                          hit,
                          (λ q. below, least, AllKeys-imp _ _ r (λ y above q. omega arith) or),
                        ),
                      )
                  | inr (e, none_l) ↦ (
                    k,
                    (
                      inl (e, refl),
                      yes_k,
                      (
                        λ q. omega arith,
                        AllKeys-imp _ _ l (λ y no q. cc) none_l,
                        AllKeys-imp _ _ r (λ y above q. above) or,
                      ),
                    ),
                  )
                ]),
              ),
            )
        | inr no_k ↦
            let (x, (runs, found)) = bound_from_lem fuel h a b r hr sr (omega arith) in
            (
              x,
              (
                rw (at_a, address-not_null a pos, no_k) runs,
                elim found [
                  | inl (m, (there, hit, least)) ↦ inl (
                    m,
                    (
                      inr (inr there),
                      hit,
                      (λ q. cc, AllKeys-imp _ _ l (λ y below q. cc (up y k below q)) ol, least),
                    ),
                  )
                  | inr (e, none_r) ↦
                      inr (e, (no_k, AllKeys-imp _ _ l (stays_below k no_k) ol, none_r))
                ],
              ),
            )
      ]

-- A node with the smallest key for which `P` holds.
abbrev pub LeastOf : (ℕ → Type 0) → ℕ → Tree → Type 0
LeastOf P b t = (m : ℕ) × (Has b m t × P m × AllKeys (λ x. P x → m ≤ x) t)

up_leb : (key x y : ℕ) → x ≤ y → leb key x ≡ true → leb key y ≡ true
up_leb key x y h e = ground arith

up_ltb : (key x y : ℕ) → x ≤ y → ltb key x ≡ true → ltb key y ≡ true
up_ltb key x y h e = ground arith

leb→le : (x y : ℕ) → leb x y ≡ true → x ≤ y
leb→le x y e = ground arith

le→leb : (x y : ℕ) → x ≤ y → leb x y ≡ true
le→leb x y e = ground arith

leb_false→lt : (x y : ℕ) → leb x y ≡ false → y < x
leb_false→lt x y e = ground arith

pub ltb_false→le : (x y : ℕ) → ltb x y ≡ false → y ≤ x
ltb_false→le x y e = ground arith

-- With more fuel than the tree has nodes, `lowerBound` returns a node with the smallest key that is not
-- smaller than the given one, or `nullptr` if all keys are smaller, and `upperBound` a node with the smallest
-- key that is larger than the given one, or `nullptr` if no key is. The tree is held by the heap and ordered.
pub bounds_lem :
    (fuel : ℕ) (h : Heap) (p key : ℕ) (t : Tree)
    → Holds h p t
    → IsOrdered t
    → size t < fuel
    → ((a : ℕ) × ((lower_bound fuel h (address t) key ≡ some a)
          × (LeastOf (λ x. key ≤ x) a t ⊎ ((a ≡ 0) × AllKeys (λ x. x < key) t))))
      × ((a : ℕ) × ((upper_bound fuel h (address t) key ≡ some a)
            × (LeastOf (λ x. key < x) a t ⊎ ((a ≡ 0) × AllKeys (λ x. x ≤ key) t))))
unfolding lower_bound upper_bound
bounds_lem fuel h p key t held ordered f =
    let (a, (runs, found)) =
      bound_from_lem (λ k. leb key k) (up_leb key) fuel h p 0 t held ordered f in
    let (b, (runs', found')) =
      bound_from_lem (λ k. ltb key k) (up_ltb key) fuel h p 0 t held ordered f in
    (
      (
        a,
        (
          runs,
          elim found [
            | inl (m, (there, hit, least)) ↦ inl (
              m,
              (there, leb→le key m hit, AllKeys-imp _ _ t (λ x g q. g (le→leb key x q)) least),
            )
            | inr (e, all) ↦ inr (e, AllKeys-imp _ _ t (leb_false→lt key) all)
          ],
        ),
      ),
      (
        b,
        (
          runs',
          elim found' [
            | inl (m, (there, hit, least)) ↦ inl (
              m,
              (there, ltb→lt key m hit, AllKeys-imp _ _ t (λ x g q. g (lt→ltb key x q)) least),
            )
            | inr (e, all) ↦ inr (e, AllKeys-imp _ _ t (ltb_false→le key) all)
          ],
        ),
      ),
    )
