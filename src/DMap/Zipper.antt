-- ===== src/DMap/Zipper.antt =====
-- A tree with a hole, and what it means that a heap holds it.
use dogee.Prelude.{ℕ, ◌+◌, ◌<◌, ◌≤◌, ◌≡◌, ◌∙◌, arith, ◌==◌, if◌then◌else◌}
use dogee.DMap.Node.{Color, Heap}
use dogee.DMap.Tree.{Tree, leaf, node, address, Holds}

-- The nodes above a hole, the nearest first: the hole is the left child of its parent, or the right one.
pub data Above : Type 0 where
  top : Above
  in_left : Above → ℕ → Color → ℕ → ℕ → Tree → Above
  in_right : Tree → ℕ → Color → ℕ → ℕ → Above → Above

abbrev pub up : Above → ℕ
up top = 0
up (in_left u a c k v r) = a
up (in_right l a c k v u) = a

abbrev pub plug : Above → Tree → Tree
plug top t = t
plug (in_left u a c k v r) t = plug u (node t a c k v r)
plug (in_right l a c k v u) t = plug u (node l a c k v t)

-- The root, where the hole has the address `a`.
abbrev pub root_of : Above → ℕ → ℕ
root_of top a = a
root_of (in_left u b c k v r) a = root_of u b
root_of (in_right l b c k v u) a = root_of u b

-- The nodes above a hole, in which a tree with the address `q` stands.
unfoldable pub HoldsAbove : Heap → ℕ → Above → Type 0
HoldsAbove h q top = Unit
HoldsAbove h q (in_left u a c k v r) =
    (0 < a)
    × (h a ≡ record { key = k; value = v; color = c; left = q; right = address r; parent = up u })
    × Holds h a r
    × HoldsAbove h a u
HoldsAbove h q (in_right l a c k v u) =
    (0 < a)
    × (h a ≡ record { key = k; value = v; color = c; left = address l; right = q; parent = up u })
    × Holds h a l
    × HoldsAbove h a u

-- How often an object is a node.
unfoldable pub one : ℕ → ℕ → ℕ
one z a = if z == a then 1 else 0

unfoldable pub times : ℕ → Tree → ℕ
times z leaf = 0
times z (node l a c k v r) = one z a + times z l + times z r

unfoldable pub times_above : ℕ → Above → ℕ
times_above z top = 0
times_above z (in_left u a c k v r) = one z a + times z r + times_above z u
times_above z (in_right l a c k v u) = one z a + times z l + times_above z u

-- The heap holds the tree `t` below the nodes `u`, and no object is two nodes.
pub record Zipped (h : Heap) (u : Above) (t : Tree) : Type 0 where
  pub below : Holds h (up u) t
  pub above : HoldsAbove h (address t) u
  pub apart : (z : ℕ) → times_above z u + times z t ≤ 1

pub one_self : (z : ℕ) → one z z ≡ 1
unfolding one
one_self z = ground arith

pub one_pos : (z a : ℕ) → z ≡ a → one z a ≡ 1
unfolding one
one_pos z a e = ground arith

-- What a heap holds depends on the nodes only.
pub Holds-frame :
    (h h' : Heap) (p : ℕ) (t : Tree)
    → ((z : ℕ) → 0 < times z t → h' z ≡ h z)
    → Holds h p t
    → Holds h' p t
unfolding Holds times
Holds-frame h h' p leaf same held = tt
Holds-frame h h' p (node l a c k v r) same (pos, at_a, hl, hr) = (
  pos,
  same a (omega (arith, one_self a)) ∙ at_a,
  Holds-frame h h' a l (λ z n. same z (omega arith)) hl,
  Holds-frame h h' a r (λ z n. same z (omega arith)) hr,
)

pub HoldsAbove-frame :
    (h h' : Heap) (q : ℕ) (u : Above)
    → ((z : ℕ) → 0 < times_above z u → h' z ≡ h z)
    → HoldsAbove h q u
    → HoldsAbove h' q u
unfolding HoldsAbove times_above
HoldsAbove-frame h h' q top same held = tt
HoldsAbove-frame h h' q (in_left u a c k v r) same (pos, at_a, hr, hu) = (
  pos,
  same a (omega (arith, one_self a)) ∙ at_a,
  Holds-frame h h' a r (λ z n. same z (omega arith)) hr,
  HoldsAbove-frame h h' a u (λ z n. same z (omega arith)) hu,
)
HoldsAbove-frame h h' q (in_right l a c k v u) same (pos, at_a, hl, hu) = (
  pos,
  same a (omega (arith, one_self a)) ∙ at_a,
  Holds-frame h h' a l (λ z n. same z (omega arith)) hl,
  HoldsAbove-frame h h' a u (λ z n. same z (omega arith)) hu,
)

-- The focus moves.
pub go_up_left :
    (h : Heap) (u : Above) (t r : Tree) (a : ℕ) (c : Color) (k v : ℕ)
    → Zipped h (in_left u a c k v r) t
    → Zipped h u (node t a c k v r)
unfolding Holds HoldsAbove times times_above
go_up_left h u t r a c k v z = record {
  below = (z.above.0, z.above.1, z.below, z.above.2);
  above = z.above.3;
  apart = λ x. omega (arith, z.apart x);
}

pub go_up_right :
    (h : Heap) (u : Above) (l t : Tree) (a : ℕ) (c : Color) (k v : ℕ)
    → Zipped h (in_right l a c k v u) t
    → Zipped h u (node l a c k v t)
unfolding Holds HoldsAbove times times_above
go_up_right h u l t a c k v z = record {
  below = (z.above.0, z.above.1, z.above.2, z.below);
  above = z.above.3;
  apart = λ x. omega (arith, z.apart x);
}

pub go_left_down :
    (h : Heap) (u : Above) (t r : Tree) (a : ℕ) (c : Color) (k v : ℕ)
    → Zipped h u (node t a c k v r)
    → Zipped h (in_left u a c k v r) t
unfolding Holds HoldsAbove times times_above
go_left_down h u t r a c k v z = record {
  below = z.below.2;
  above = (z.below.0, z.below.1, z.below.3, z.above);
  apart = λ x. omega (arith, z.apart x);
}

pub go_right_down :
    (h : Heap) (u : Above) (l t : Tree) (a : ℕ) (c : Color) (k v : ℕ)
    → Zipped h u (node l a c k v t)
    → Zipped h (in_right l a c k v u) t
unfolding Holds HoldsAbove times times_above
go_right_down h u l t a c k v z = record {
  below = z.below.3;
  above = (z.below.0, z.below.1, z.below.2, z.above);
  apart = λ x. omega (arith, z.apart x);
}
