-- ===== src/DMap/Destroy.antt =====
-- What `destroy` of include/DMap.h leaves behind.
use dogee.Prelude.{ℕ, zero, suc, ◌<◌, ◌≡◌, refl, [], ◌∷◌, some, inl, inr, arith}
use dogee.DMap.Node.{Color, Heap, destroy}
use dogee.DMap.Tree.{Tree, leaf, node, Holds, size, Has, address-not_null}

-- `destroy` deletes one node of a tree, however many nodes it has: it returns from the first recursion. It
-- does so with more fuel than the tree has nodes; the heap holds the tree, which has a node.
pub destroy_deletes_one :
    (fuel : ℕ) (h : Heap) (p : ℕ) (l r : Tree) (a : ℕ) (c : Color) (k v : ℕ)
    → Holds h p (node l a c k v r)
    → size (node l a c k v r) < fuel
    → (b : ℕ) × (m : ℕ) × ((destroy fuel h a ≡ some (b ∷ [])) × Has b m (node l a c k v r))
unfolding destroy Holds Has
destroy_deletes_one zero h p l r a c k v held f = absurd (omega arith)
destroy_deletes_one (suc fuel) h p (node ll la lc lk lv lr) r a c k v (pos, at_a, hl, hr) f =
    let (b, m, (runs, there)) = destroy_deletes_one fuel h a ll lr la lc lk lv hl (omega arith) in
    (b, m, (rw (at_a, address-not_null a pos, address-not_null la hl.0) runs, inr (inl there)))
destroy_deletes_one (suc fuel) h p leaf (node rl ra rc rk rv rr) a c k v (pos, at_a, hl, hr) f =
    let (b, m, (runs, there)) = destroy_deletes_one fuel h a rl rr ra rc rk rv hr (omega arith) in
    (b, m, (rw (at_a, address-not_null a pos, address-not_null ra hr.0) runs, inr (inr there)))
destroy_deletes_one (suc fuel) h p leaf leaf a c k v (pos, at_a, hl, hr) f =
    (a, k, (rw (at_a, address-not_null a pos) refl, inl (refl, refl)))
