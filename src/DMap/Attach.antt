-- ===== src/DMap/Attach.antt =====
-- What `insertNode` of include/DMap.h writes before the tree is balanced.
use dogee.Prelude.{
  ℕ, ◌+◌, ◌<◌, ◌≤◌, ◌≡◌, refl, sym, ap, subst, ◌∙◌, arith, ◌==◌, lt→ltb, if◌then◌else◌,
}
use native.Mathlib.Decide.{ℕ_discrete}
use dogee.Cache.Sound.{update_self}
use dogee.DMap.Node.{red, black, RbtNode, Heap}
use dogee.DMap.Tree.{leaf, node, Holds, address-not_null, ltb-false, eq_false}
use dogee.DMap.Insert.{State, set_left, set_right, set_parent, attach, attach_below}
use dogee.DMap.Zipper.{
  Above, top, in_left, in_right, up, root_of, HoldsAbove, one, times, times_above, one_self, Zipped,
}
use dogee.DMap.Writes.{hang_at, Holds-write, HoldsAbove-write}
use dogee.DMap.Descend.{OnSide}

-- The new node before it has a place.
abbrev pub new_node : ℕ → ℕ → RbtNode
new_node key value = record {
  key = key;
  value = value;
  color = black;
  left = 0;
  right = 0;
  parent = 0;
}

attach_other :
    (h : Heap) (w z : ℕ) (u : Above) → times_above w u ≡ 0 → attach_below h (up u) z w ≡ h w
unfolding attach_below times_above
attach_other h w z top e = refl
attach_other h w z (in_left u a c k v r) e = hang_at h w a _ _ (a == 0) _ (omega arith)
attach_other h w z (in_right l a c k v u) e = hang_at h w a _ _ (a == 0) _ (omega arith)

attach_smaller :
    (h : Heap) (y z : ℕ) → 0 < y → (h z).key < (h y).key → attach_below h y z ≡ set_left h y z
unfolding attach_below
attach_smaller h y z pos less = rw (address-not_null y pos, lt→ltb _ _ less) refl

attach_larger :
    (h : Heap) (y z : ℕ) → 0 < y → (h y).key ≤ (h z).key → attach_below h y z ≡ set_right h y z
unfolding attach_below
attach_larger h y z pos more = rw (address-not_null y pos, ltb-false _ _ more) refl

once :
    (w z : ℕ) (u : Above)
    → times_above z u ≡ 0
    → ((x : ℕ) → times_above x u + times x leaf ≤ 1)
    → times_above w u + (one w z + 0 + 0) ≤ 1
unfolding one times
once w z u out apart = elim (ℕ_discrete w z) [
  | yes same ↦ rw (same, out) (ground arith)
  | no other ↦ rw (eq_false w z other) (omega (arith, apart w))
]

attach_root :
    (s : State) (u : Above) (z : ℕ)
    → s.root ≡ root_of u 0
    → HoldsAbove s.heap 0 u
    → (if up u == 0 then z else s.root) ≡ root_of u z
unfolding HoldsAbove
attach_root s top z e held = refl
attach_root s (in_left u a c k v r) z e held = rw (address-not_null a held.0) e
attach_root s (in_right l a c k v u) z e held = rw (address-not_null a held.0) e

attach_holds :
    (h : Heap) (z key : ℕ) (u : Above)
    → HoldsAbove h 0 u
    → ((w : ℕ) → times_above w u ≤ 1)
    → (h z).key ≡ key
    → OnSide key u
    → HoldsAbove (attach_below h (up u) z) z u
unfolding HoldsAbove times_above
attach_holds h z key top held apart e side = tt
attach_holds h z key (in_left u a c k v r) (pos_a, at_a, hr, hu) apart e side =
    let k_of_a : (h a).key ≡ k = ap (λ (n : RbtNode). n.key) at_a in
    let n : RbtNode = record (h a) { left = z } in
    subst (λ g. HoldsAbove g z (in_left u a c k v r))
      (sym (attach_smaller h a z pos_a (omega arith)))
      (
        pos_a,
        update_self h a n ∙ ap (λ (m : RbtNode). record m { left = z }) at_a,
        Holds-write h a a n r (omega (arith, apart a, one_self a)) hr,
        HoldsAbove-write h a a n u (omega (arith, apart a, one_self a)) hu,
      )
attach_holds h z key (in_right l a c k v u) (pos_a, at_a, hl, hu) apart e side =
    let k_of_a : (h a).key ≡ k = ap (λ (n : RbtNode). n.key) at_a in
    let n : RbtNode = record (h a) { right = z } in
    subst (λ g. HoldsAbove g z (in_right l a c k v u))
      (sym (attach_larger h a z pos_a (omega arith)))
      (
        pos_a,
        update_self h a n ∙ ap (λ (m : RbtNode). record m { right = z }) at_a,
        Holds-write h a a n l (omega (arith, apart a, one_self a)) hl,
        HoldsAbove-write h a a n u (omega (arith, apart a, one_self a)) hu,
      )

-- The new node stands in its place, in red.
pub attach_lem :
    (s : State) (u : Above) (z key value : ℕ)
    → Zipped s.heap u leaf
    → 0 < z
    → times_above z u ≡ 0
    → s.heap z ≡ new_node key value
    → OnSide key u
    → s.root ≡ root_of u 0
    → Zipped (attach s (up u) z).heap u (node leaf z red key value leaf)
      × ((attach s (up u) z).root ≡ root_of u z)
unfolding attach Holds times
attach_lem s u z key value zip pos out at_z side root =
    let first : RbtNode = record (s.heap z) { parent = up u } in
    let h1 : Heap = set_parent s.heap z (up u) in
    let h2 : Heap = attach_below h1 (up u) z in
    let last : RbtNode = record (h2 z) { color = red } in
    let at_z1 : h1 z ≡ record (new_node key value) { parent = up u } =
      update_self s.heap z first ∙ ap (λ (n : RbtNode). record n { parent = up u }) at_z in
    let hung : HoldsAbove h2 z u =
      attach_holds h1 z key u (HoldsAbove-write s.heap z 0 first u out zip.above)
        (λ w. omega (arith, zip.apart w)) (ap (λ (n : RbtNode). n.key) at_z1) side in
    (
      record {
        below = (
          pos,
          update_self h2 z last
              ∙ ap (λ (n : RbtNode). record n { color = red }) (attach_other h1 z z u out ∙ at_z1),
          tt,
          tt,
        );
        above = HoldsAbove-write h2 z z last u out hung;
        apart = λ w. once w z u out zip.apart;
      },
      attach_root s u z root zip.above,
    )
