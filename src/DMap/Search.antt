-- ===== src/DMap/Search.antt =====
-- `search`, `minimum` and `maximum` of include/DMap.h find what they should.
use dogee.Prelude.{ℕ, zero, suc, ◌<◌, ◌≤◌, ◌≡◌, ◌≢◌, refl, sym, ◌⊎◌, inl, inr, some, arith, lt→ltb}
use dogee.DMap.Node.{Color, Heap, search, minimum, maximum, go_left, go_right}
use dogee.DMap.Tree.{
  Tree, leaf, node, address, Holds, height, size, max_bounds, Has, AllKeys, AllKeys-imp, IsOrdered,
  address-not_null, eq_true, eq_false, ltb-false, three_ways,
}

-- The result of a search: a node with the key, or `nullptr` where no node has it.
abbrev pub Finds : ℕ → ℕ → Tree → Type 0
Finds a key t = Has a key t ⊎ ((a ≡ 0) × AllKeys (λ k. k ≢ key) t)

-- With more fuel than the tree is high, `search` returns a node with the key if there is one and `nullptr`
-- if there is none. The tree is held by the heap and ordered.
pub search_lem :
    (fuel : ℕ) (h : Heap) (p key : ℕ) (t : Tree)
    → Holds h p t
    → IsOrdered t
    → height t < fuel
    → (a : ℕ) × (search fuel h (address t) key ≡ some a) × Finds a key t
unfolding search Holds Has AllKeys IsOrdered
search_lem zero h p key t held ordered f = absurd (omega arith)
search_lem (suc fuel) h p key leaf held ordered f = (0, refl, inr (refl, tt))
search_lem (suc fuel) h p key (node l a c k v r) (pos, at_a, hl, hr) (ol, or, sl, sr) f =
    let (fl, fr) = max_bounds (height l) (height r) in
    elim (three_ways key k) [
      | inl less ↦
          let (x, runs, found) = search_lem fuel h a key l hl sl (omega arith) in
          (
            x,
            rw (at_a, address-not_null a pos, eq_false k key (omega arith), lt→ltb key k less) runs,
            elim found [
              | inl there ↦ inl (inr (inl there))
              | inr (e, none_l) ↦
                  inr (e, (omega arith, none_l, AllKeys-imp _ _ r (λ y b. omega arith) or))
            ],
          )
      | inr (inl same) ↦ (
        a,
        rw (at_a, address-not_null a pos, eq_true k key (sym same)) refl,
        inl (inl (refl, same)),
      )
      | inr (inr more) ↦
          let (x, runs, found) = search_lem fuel h a key r hr sr (omega arith) in
          (
            x,
            rw
                (
                  at_a,
                  address-not_null a pos,
                  eq_false k key (omega arith),
                  ltb-false key k (omega arith),
                )
                runs,
            elim found [
              | inl there ↦ inl (inr (inr there))
              | inr (e, none_r) ↦
                  inr (e, (omega arith, AllKeys-imp _ _ l (λ y b. omega arith) ol, none_r))
            ],
          )
    ]

-- The leftmost node of a tree that is not empty.
go_left_lem :
    (fuel : ℕ) (h : Heap) (p : ℕ) (l r : Tree) (a : ℕ) (c : Color) (k v : ℕ)
    → Holds h p (node l a c k v r)
    → IsOrdered (node l a c k v r)
    → size (node l a c k v r) < fuel
    → (b : ℕ) × (m : ℕ) × ((go_left fuel h a ≡ some b)
        × Has b m (node l a c k v r)
        × AllKeys (λ x. m ≤ x) (node l a c k v r))
unfolding go_left Holds Has AllKeys IsOrdered
go_left_lem zero h p l r a c k v held ordered f = absurd (omega arith)
go_left_lem (suc fuel) h p leaf r a c k v (pos, at_a, hl, hr) (ol, or, sl, sr) f =
    (a, k, (rw at_a refl, inl (refl, refl), (omega arith, tt, or)))
go_left_lem (suc fuel) h p (node ll la lc lk lv lr) r a c k v (pos, at_a, hl, hr) (ol, or, sl, sr)
      f =
    let (b, m, (runs, there, least)) = go_left_lem fuel h a ll lr la lc lk lv hl sl (omega arith) in
    (
      b,
      m,
      (
        rw (at_a, address-not_null la hl.0) runs,
        inr (inl there),
        (
          omega (arith, least.0, ol.0),
          least,
          AllKeys-imp _ _ r (λ y q. omega (arith, q, least.0, ol.0)) or,
        ),
      ),
    )

go_right_lem :
    (fuel : ℕ) (h : Heap) (p : ℕ) (l r : Tree) (a : ℕ) (c : Color) (k v : ℕ)
    → Holds h p (node l a c k v r)
    → IsOrdered (node l a c k v r)
    → size (node l a c k v r) < fuel
    → (b : ℕ) × (m : ℕ) × ((go_right fuel h a ≡ some b)
        × Has b m (node l a c k v r)
        × AllKeys (λ x. x ≤ m) (node l a c k v r))
unfolding go_right Holds Has AllKeys IsOrdered
go_right_lem zero h p l r a c k v held ordered f = absurd (omega arith)
go_right_lem (suc fuel) h p l leaf a c k v (pos, at_a, hl, hr) (ol, or, sl, sr) f =
    (a, k, (rw at_a refl, inl (refl, refl), (omega arith, ol, tt)))
go_right_lem (suc fuel) h p l (node rl ra rc rk rv rr) a c k v (pos, at_a, hl, hr) (ol, or, sl, sr)
      f =
    let (b, m, (runs, there, most)) = go_right_lem fuel h a rl rr ra rc rk rv hr sr (omega arith) in
    (
      b,
      m,
      (
        rw (at_a, address-not_null ra hr.0) runs,
        inr (inr there),
        (
          omega (arith, most.0, or.0),
          AllKeys-imp _ _ l (λ y q. omega (arith, q, most.0, or.0)) ol,
          most,
        ),
      ),
    )

-- With more fuel than the tree has nodes, `minimum` returns a node whose key is not larger than any key, and
-- `maximum` one whose key is not smaller, in an ordered tree that the heap holds and that has a node.
pub minimum-maximum :
    (fuel : ℕ) (h : Heap) (p : ℕ) (l r : Tree) (a : ℕ) (c : Color) (k v : ℕ)
    → let t = node l a c k v r in
      Holds h p t
      → IsOrdered t
      → size t < fuel
      → ((b : ℕ) × (m : ℕ) × ((minimum fuel h a ≡ some b) × Has b m t × AllKeys (λ x. m ≤ x) t))
        × ((b : ℕ) × (m : ℕ) × ((maximum fuel h a ≡ some b) × Has b m t × AllKeys (λ x. x ≤ m) t))
unfolding minimum maximum Holds
minimum-maximum fuel h p l r a c k v held ordered f =
    let (b, m, (runs, there, least)) = go_left_lem fuel h p l r a c k v held ordered f in
    let (b', m', (runs', there', most)) = go_right_lem fuel h p l r a c k v held ordered f in
    (
      (b, m, (rw (address-not_null a held.0) runs, there, least)),
      (b', m', (rw (address-not_null a held.0) runs', there', most)),
    )
