-- ===== src/DMap/Height.antt =====
-- How high a map of include/DMap.h is.
use dogee.Prelude.{ℕ, zero, suc, ◌+◌, ◌*◌, ◌^◌, ◌≤◌, ◌≡◌, sym, subst, arith, some}
use dogee.DMap.Node.{red, black, Heap, search}
use dogee.DMap.Tree.{Tree, leaf, node, size, height, max}
use dogee.DMap.Balance.{IsBlack, IsRedBlack}
use dogee.DMap.Search.{Finds, search_lem}
use dogee.DMap.Insertion.{IsMap}

max_least : (a b m : ℕ) → a ≤ m → b ≤ m → max a b ≤ m
max_least a b m ha hb = ground arith

pow_suc : (n : ℕ) → 2 ^ suc n ≡ 2 * 2 ^ n
pow_suc n = omega arith

-- A red-black tree of the black height `n` has at least 2 ^ n - 1 nodes.
size-IsRedBlack : (n : ℕ) (t : Tree) → IsRedBlack n t → 2 ^ n ≤ size t + 1
unfolding IsRedBlack
size-IsRedBlack n leaf b = rw b (omega arith)
size-IsRedBlack n (node l a red k v r) b = omega (arith, size-IsRedBlack n l b.2)
size-IsRedBlack zero (node l a black k v r) b = absurd b
size-IsRedBlack (suc n) (node l a black k v r) b =
    omega (arith, pow_suc n, size-IsRedBlack n l b.0, size-IsRedBlack n r b.1)

-- A red root counts once more.
mutual
  unfolding IsRedBlack

  height-any : (n : ℕ) (t : Tree) → IsRedBlack n t → height t ≤ 2 * n + 1
  height-any n leaf b = omega arith
  height-any n (node l a red k v r) b =
      let hl = height-black n l b.2 b.0 in
      let hr = height-black n r b.3 b.1 in
      omega (arith, max_least (height l) (height r) (2 * n) hl hr)
  height-any zero (node l a black k v r) b = absurd b
  height-any (suc n) (node l a black k v r) b =
      omega (
        arith,
        max_least (height l) (height r) (2 * n + 1) (height-any n l b.0) (height-any n r b.1),
      )

  height-black : (n : ℕ) (t : Tree) → IsRedBlack n t → IsBlack t → height t ≤ 2 * n
  height-black n leaf b is_black = omega arith
  height-black n (node l a red k v r) b is_black = cc
  height-black zero (node l a black k v r) b is_black = absurd b
  height-black (suc n) (node l a black k v r) b is_black =
      omega (
        arith,
        max_least (height l) (height r) (2 * n + 1) (height-any n l b.0) (height-any n r b.1),
      )

-- A search in a map ends after a number of steps that is logarithmic in its size, `2 * n + 1` with
-- `2 ^ n` at most one more than the number of nodes, and returns a node with the key, or `nullptr` where no
-- node has it. The heap holds the map.
pub search_steps :
    (h : Heap) (root key : ℕ) (t : Tree)
    → IsMap h root t
    → (n : ℕ) × (a : ℕ) × ((2 ^ n ≤ size t + 1)
        × (search (2 * n + 1) h root key ≡ some a)
        × Finds a key t)
search_steps h root key t m =
    let tall = height-black m.height t m.balanced m.is_black in
    let (a, runs, found) =
      search_lem (2 * m.height + 1) h 0 key t m.zipped.below m.ordered (omega (arith, tall)) in
    (
      m.height,
      a,
      (
        size-IsRedBlack m.height t m.balanced,
        subst (λ r. search (2 * m.height + 1) h r key ≡ some a) (sym m.rooted) runs,
        found,
      ),
    )
