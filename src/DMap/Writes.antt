-- ===== src/DMap/Writes.antt =====
-- What single writes of the insertion of include/DMap.h do to a heap that holds a tree.
use dogee.Prelude.{
  ℕ, ◌<◌, ◌≤◌, ◌≡◌, ◌≢◌, refl, sym, ap, subst, ◌∙◌, arith, ◌==◌, if◌then◌else◌, true, false, Bool,
  Bool-cases, inl, inr,
}
use dogee.Cache.Node.{update}
use dogee.Cache.Sound.{update_self, update_ne}
use dogee.DMap.Node.{RbtNode, Heap}
use dogee.DMap.Tree.{Tree, leaf, node, address, Holds, address-not_null, eq_true, eq_false}
use dogee.DMap.Insert.{set_left, set_right, set_parent, link_parent, hang_left, hang_right}
use dogee.DMap.Zipper.{
  Above, top, in_left, in_right, up, HoldsAbove, one, times, times_above, one_self, one_pos,
  Holds-frame, HoldsAbove-frame,
}

pub ne_of_one : (z a : ℕ) → one z a ≡ 0 → z ≢ a
ne_of_one z a e same = absurd (omega (arith, one_pos z a same))

-- A write leaves the other nodes alone.
pub update_other : (h : Heap) (a z : ℕ) (n : RbtNode) → one z a ≡ 0 → update h a n z ≡ h z
update_other h a z n e = update_ne h a z n (ne_of_one z a e)

pub Holds-write :
    (h : Heap) (a p : ℕ) (n : RbtNode) (t : Tree)
    → times a t ≡ 0
    → Holds h p t
    → Holds (update h a n) p t
Holds-write h a p n t out held =
    Holds-frame h (update h a n) p t
      (λ z i. update_ne h a z n (λ e. absurd (omega (arith, ap (λ y. times y t) e)))) held

pub HoldsAbove-write :
    (h : Heap) (a q : ℕ) (n : RbtNode) (u : Above)
    → times_above a u ≡ 0
    → HoldsAbove h q u
    → HoldsAbove (update h a n) q u
HoldsAbove-write h a q n u out held =
    HoldsAbove-frame h (update h a n) q u
      (λ z i. update_ne h a z n (λ e. absurd (omega (arith, ap (λ y. times_above y u) e)))) held

pub link_other :
    (h : Heap) (z x : ℕ) (t : Tree) → times z t ≡ 0 → link_parent h (address t) x z ≡ h z
unfolding link_parent times
link_other h z x leaf e = refl
link_other h z x (node l a c k v r) e = elim (Bool-cases (a == 0)) [
  | inl null ↦ rw null refl
  | inr not_null ↦ rw not_null (update_other h a z _ (omega arith))
]

pub hang_at :
    (h : Heap) (z a : ℕ) (m n : RbtNode) (b c : Bool)
    → one z a ≡ 0
    → (if b then h else if c then update h a m else update h a n) z ≡ h z
hang_at h z a m n true c e = refl
hang_at h z a m n false true e = update_other h a z m e
hang_at h z a m n false false e = update_other h a z n e

pub hang_left_other :
    (h : Heap) (z x y : ℕ) (u : Above) → times_above z u ≡ 0 → hang_left h (up u) x y z ≡ h z
unfolding hang_left times_above
hang_left_other h z x y top e = refl
hang_left_other h z x y (in_left u a c k v r) e = hang_at h z a _ _ (a == 0) _ (omega arith)
hang_left_other h z x y (in_right l a c k v u) e = hang_at h z a _ _ (a == 0) _ (omega arith)

pub hang_right_other :
    (h : Heap) (z x y : ℕ) (u : Above) → times_above z u ≡ 0 → hang_right h (up u) x y z ≡ h z
unfolding hang_right times_above
hang_right_other h z x y top e = refl
hang_right_other h z x y (in_left u a c k v r) e = hang_at h z a _ _ (a == 0) _ (omega arith)
hang_right_other h z x y (in_right l a c k v u) e = hang_at h z a _ _ (a == 0) _ (omega arith)

link_node : (h : Heap) (a x : ℕ) → 0 < a → link_parent h a x ≡ set_parent h a x
unfolding link_parent
link_node h a x pos = rw (address-not_null a pos) refl

hang_left_same :
    (h : Heap) (a x y : ℕ) → 0 < a → (h a).left ≡ x → hang_left h a x y ≡ set_left h a y
unfolding hang_left
hang_left_same h a x y pos e = rw (address-not_null a pos, eq_true (h a).left x e) refl

hang_left_ne : (h : Heap) (a x y : ℕ) → 0 < a → (h a).left ≢ x → hang_left h a x y ≡ set_right h a y
unfolding hang_left
hang_left_ne h a x y pos e = rw (address-not_null a pos, eq_false (h a).left x e) refl

hang_right_same :
    (h : Heap) (a x y : ℕ) → 0 < a → (h a).right ≡ x → hang_right h a x y ≡ set_right h a y
unfolding hang_right
hang_right_same h a x y pos e = rw (address-not_null a pos, eq_true x (h a).right (sym e)) refl

hang_right_ne :
    (h : Heap) (a x y : ℕ) → 0 < a → (h a).right ≢ x → hang_right h a x y ≡ set_left h a y
unfolding hang_right
hang_right_ne h a x y pos e =
    rw (address-not_null a pos, eq_false x (h a).right (λ q. e (sym q))) refl

pub link_holds :
    (h : Heap) (p x : ℕ) (t : Tree)
    → Holds h p t
    → ((z : ℕ) → times z t ≤ 1)
    → Holds (link_parent h (address t) x) x t
unfolding link_parent Holds times
link_holds h p x leaf held apart = tt
link_holds h p x (node l a c k v r) (pos, at_a, hl, hr) apart =
    subst (λ g. Holds g x (node l a c k v r)) (sym (link_node h a x pos))
      (
        pos,
        update_self h a _ ∙ ap (λ (n : RbtNode). record n { parent = x }) at_a,
        Holds-write h a a (record (h a) { parent = x }) l (omega (arith, apart a, one_self a)) hl,
        Holds-write h a a (record (h a) { parent = x }) r (omega (arith, apart a, one_self a)) hr,
      )

pub address-ne : (x : ℕ) (t : Tree) → 0 < x → times x t ≡ 0 → address t ≢ x
unfolding times
address-ne x leaf pos e same = absurd (omega arith)
address-ne x (node l a c k v r) pos e same = absurd (omega (arith, one_pos x a (sym same)))

pub hang_left_holds :
    (h : Heap) (x y : ℕ) (u : Above)
    → HoldsAbove h x u
    → ((z : ℕ) → times_above z u ≤ 1)
    → times_above x u ≡ 0
    → 0 < x
    → HoldsAbove (hang_left h (up u) x y) y u
unfolding hang_left HoldsAbove times_above
hang_left_holds h x y top held apart out pos = tt
hang_left_holds h x y (in_left u a c k v r) (pos_a, at_a, hr, hu) apart out pos =
    subst (λ g. HoldsAbove g y (in_left u a c k v r))
      (sym (hang_left_same h a x y pos_a (ap (λ (n : RbtNode). n.left) at_a)))
      (
        pos_a,
        update_self h a _ ∙ ap (λ (n : RbtNode). record n { left = y }) at_a,
        Holds-write h a a (record (h a) { left = y }) r (omega (arith, apart a, one_self a)) hr,
        HoldsAbove-write h a a (record (h a) { left = y }) u (omega (arith, apart a, one_self a))
            hu,
      )
hang_left_holds h x y (in_right l a c k v u) (pos_a, at_a, hl, hu) apart out pos =
    subst (λ g. HoldsAbove g y (in_right l a c k v u))
      (sym (
        hang_left_ne h a x y pos_a
          (λ e. address-ne x l pos (omega arith) (sym (ap (λ (n : RbtNode). n.left) at_a) ∙ e))))
      (
        pos_a,
        update_self h a _ ∙ ap (λ (n : RbtNode). record n { right = y }) at_a,
        Holds-write h a a (record (h a) { right = y }) l (omega (arith, apart a, one_self a)) hl,
        HoldsAbove-write h a a (record (h a) { right = y }) u (omega (arith, apart a, one_self a))
            hu,
      )

pub hang_right_holds :
    (h : Heap) (x y : ℕ) (u : Above)
    → HoldsAbove h x u
    → ((z : ℕ) → times_above z u ≤ 1)
    → times_above x u ≡ 0
    → 0 < x
    → HoldsAbove (hang_right h (up u) x y) y u
unfolding hang_right HoldsAbove times_above
hang_right_holds h x y top held apart out pos = tt
hang_right_holds h x y (in_right l a c k v u) (pos_a, at_a, hl, hu) apart out pos =
    subst (λ g. HoldsAbove g y (in_right l a c k v u))
      (sym (hang_right_same h a x y pos_a (ap (λ (n : RbtNode). n.right) at_a)))
      (
        pos_a,
        update_self h a _ ∙ ap (λ (n : RbtNode). record n { right = y }) at_a,
        Holds-write h a a (record (h a) { right = y }) l (omega (arith, apart a, one_self a)) hl,
        HoldsAbove-write h a a (record (h a) { right = y }) u (omega (arith, apart a, one_self a))
            hu,
      )
hang_right_holds h x y (in_left u a c k v r) (pos_a, at_a, hr, hu) apart out pos =
    subst (λ g. HoldsAbove g y (in_left u a c k v r))
      (sym (
        hang_right_ne h a x y pos_a
          (λ e. address-ne x r pos (omega arith) (sym (ap (λ (n : RbtNode). n.right) at_a) ∙ e))))
      (
        pos_a,
        update_self h a _ ∙ ap (λ (n : RbtNode). record n { left = y }) at_a,
        Holds-write h a a (record (h a) { left = y }) r (omega (arith, apart a, one_self a)) hr,
        HoldsAbove-write h a a (record (h a) { left = y }) u (omega (arith, apart a, one_self a))
            hu,
      )
