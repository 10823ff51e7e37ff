-- ===== src/DMap/Recolor.antt =====
-- The changes of colour of `insertFixUp` of include/DMap.h, and the tests that it makes.
use dogee.Prelude.{ℕ, ◌≡◌, refl, ap, ◌∙◌, arith, ◌==◌, Bool, false, not, ◌&&◌}
use dogee.Cache.Sound.{update_self}
use dogee.DMap.Node.{Color, RbtNode, Heap}
use dogee.DMap.Tree.{Tree, leaf, node, address, Holds, address-not_null}
use dogee.DMap.Insert.{set_color, is_red}
use dogee.DMap.Zipper.{
  Above, top, in_left, in_right, root_of, times, one_self, Zipped, plug, go_up_left, go_up_right,
}
use dogee.DMap.Writes.{Holds-write, HoldsAbove-write}

-- A node takes another colour.
pub recolor_lem :
    (h : Heap) (u : Above) (l r : Tree) (a : ℕ) (c c' : Color) (k v : ℕ)
    → Zipped h u (node l a c k v r)
    → Zipped (set_color h a c') u (node l a c' k v r)
unfolding Holds times
recolor_lem h u l r a c c' k v z =
    let n : RbtNode = record (h a) { color = c' } in
    record {
      below = (
        z.below.0,
        update_self h a n ∙ ap (λ (m : RbtNode). record m { color = c' }) z.below.1,
        Holds-write h a a n l (omega (arith, z.apart a, one_self a)) z.below.2,
        Holds-write h a a n r (omega (arith, z.apart a, one_self a)) z.below.3,
      );
      above = HoldsAbove-write h a a n u (omega (arith, z.apart a, one_self a)) z.above;
      apart = λ x. omega (arith, z.apart x);
    }

abbrev pub red_root : Tree → Bool
red_root leaf = false
red_root (node l a c k v r) = is_red c

-- The test of the uncle.
pub red_root_lem :
    (h : Heap) (p : ℕ) (t : Tree)
    → Holds h p t
    → (not (address t == 0) && is_red (h (address t)).color) ≡ red_root t
unfolding Holds
red_root_lem h p leaf held = refl
red_root_lem h p (node l a c k v r) (pos, at_a, hl, hr) =
    rw (address-not_null a pos) (ap (λ (n : RbtNode). is_red n.color) at_a)

-- The tree as a whole.
pub zip_up : (h : Heap) (u : Above) (t : Tree) → Zipped h u t → Zipped h top (plug u t)
zip_up h top t z = z
zip_up h (in_left u a c k v r) t z = zip_up h u (node t a c k v r) (go_up_left h u t r a c k v z)
zip_up h (in_right l a c k v u) t z = zip_up h u (node l a c k v t) (go_up_right h u l t a c k v z)

pub address-plug : (u : Above) (t : Tree) → address (plug u t) ≡ root_of u (address t)
address-plug top t = refl
address-plug (in_left u a c k v r) t = address-plug u (node t a c k v r)
address-plug (in_right l a c k v u) t = address-plug u (node l a c k v t)
