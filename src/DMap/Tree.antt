-- ===== src/DMap/Tree.antt =====
-- Binary trees, and what it means that the objects of a heap are the nodes of a tree.
use dogee.Prelude.{
  if◌then◌else◌, ℕ, suc, ◌+◌, ◌<◌, ◌≤◌, ◌≡◌, ◌≢◌, ◌⊎◌, arith, ◌==◌, true, false, ltb,
}
use dogee.DMap.Node.{Color, Heap}

-- A node has its object, its color, its key and its value.
pub data Tree : Type 0 where
  leaf : Tree
  node : Tree → ℕ → Color → ℕ → ℕ → Tree → Tree

-- The reference to a tree.
abbrev pub address : Tree → ℕ
address leaf = 0
address (node l a c k v r) = a

-- The objects of the heap are the nodes of the tree, whose root has the parent `p`.
unfoldable pub Holds : Heap → ℕ → Tree → Type 0
Holds h p leaf = Unit
Holds h p (node l a c k v r) =
    (0 < a)
    × (h a
        ≡ record { key = k; value = v; color = c; left = address l; right = address r; parent = p })
    × Holds h a l
    × Holds h a r

abbrev pub size : Tree → ℕ
size leaf = 0
size (node l a c k v r) = suc (size l + size r)

abbrev pub max : ℕ → ℕ → ℕ
max a b = if ltb a b then b else a

pub max_bounds : (a b : ℕ) → (a ≤ max a b) × (b ≤ max a b)
max_bounds a b = ground arith

-- The nodes on the longest way down.
abbrev pub height : Tree → ℕ
height leaf = 0
height (node l a c k v r) = suc (max (height l) (height r))

-- Some node of the tree is the object `a` with the key `k`.
unfoldable pub Has : ℕ → ℕ → Tree → Type 0
Has a k leaf = ⊥
Has a k (node l a' c k' v r) = ((a ≡ a') × (k ≡ k')) ⊎ Has a k l ⊎ Has a k r

unfoldable pub AllKeys : (ℕ → Type 0) → Tree → Type 0
AllKeys P leaf = Unit
AllKeys P (node l a c k v r) = P k × AllKeys P l × AllKeys P r

-- No key is larger than one that stands to the right of it.
unfoldable pub IsOrdered : Tree → Type 0
IsOrdered leaf = Unit
IsOrdered (node l a c k v r) =
    AllKeys (λ x. x ≤ k) l × AllKeys (λ x. k ≤ x) r × IsOrdered l × IsOrdered r

pub AllKeys-imp : (P Q : ℕ → Type 0) (t : Tree) → ((x : ℕ) → P x → Q x) → AllKeys P t → AllKeys Q t
unfolding AllKeys
AllKeys-imp P Q leaf f h = tt
AllKeys-imp P Q (node l a c k v r) f (p, hl, hr) =
    (f k p, AllKeys-imp P Q l f hl, AllKeys-imp P Q r f hr)

-- The tests of the code at a node.
pub address-not_null : (a : ℕ) → 0 < a → (a == 0) ≡ false
address-not_null a h = ground arith

pub eq_true : (a b : ℕ) → a ≡ b → (a == b) ≡ true
eq_true a b h = ground arith

pub eq_false : (a b : ℕ) → a ≢ b → (a == b) ≡ false
eq_false a b h = ground arith

pub ltb-false : (a b : ℕ) → b ≤ a → ltb a b ≡ false
ltb-false a b h = ground arith

-- Where two numbers stand to each other.
pub three_ways : (a b : ℕ) → (a < b) ⊎ (a ≡ b) ⊎ (b < a)
three_ways a b = ground arith
