-- ===== src/DMap/RotateRight.antt =====
-- The right rotation of include/DMap.h on a heap that holds a tree.
use dogee.Prelude.{ℕ, ◌+◌, ◌<◌, ◌≤◌, ◌≡◌, refl, sym, ap, subst, ◌∙◌, arith, ◌==◌, if◌then◌else◌}
use dogee.Cache.Sound.{update_self}
use dogee.DMap.Node.{Color, RbtNode, Heap}
use dogee.DMap.Tree.{Tree, node, address, Holds, address-not_null}
use dogee.DMap.Insert.{
  State, set_left, set_right, set_parent, link_parent, hang_right, right_rotate, right_half,
  right_rest,
}
use dogee.DMap.Zipper.{
  Above, top, in_left, in_right, up, root_of, HoldsAbove, one, times, times_above, one_self, Zipped,
  Holds-frame, HoldsAbove-frame,
}
use dogee.DMap.Writes.{
  update_other, Holds-write, HoldsAbove-write, link_other, link_holds, hang_right_other,
  hang_right_holds,
}

module _ (s : State) (u : Above) (A B C : Tree) (x y : ℕ) (cx cy : Color) (kx vx ky vy : ℕ) where
  abbrev right_1 : Heap
  right_1 = set_left s.heap x (address B)

  abbrev right_2 : Heap
  right_2 = link_parent right_1 (address B) x

  abbrev right_3 : Heap
  right_3 = set_parent right_2 y (up u)

  abbrev right_4 : Heap
  right_4 = hang_right right_3 (up u) x y

  abbrev right_5 : Heap
  right_5 = set_right right_4 y x

  abbrev right_6 : Heap
  right_6 = set_parent right_5 x y

  module _ (zip : Zipped s.heap u (node (node C y cy ky vy B) x cx kx vx A)) where
    right_apart :
        (w : ℕ) → times_above w u + (one w x + times w A + (one w y + times w B + times w C)) ≤ 1
    unfolding times
    right_apart w = omega (arith, zip.apart w)

    right_other :
        (w : ℕ)
        → one w x ≡ 0
        → one w y ≡ 0
        → times w B ≡ 0
        → times_above w u ≡ 0
        → right_6 w ≡ s.heap w
    right_other w ox oy ob ou =
        update_other right_5 x w (record (right_5 x) { parent = y }) ox
        ∙ update_other right_4 y w (record (right_4 y) { right = x }) oy
        ∙ hang_right_other right_3 w x y u ou
        ∙ update_other right_2 y w (record (right_2 y) { parent = up u }) oy
        ∙ link_other right_1 w x B ob
        ∙ update_other s.heap x w (record (s.heap x) { left = address B }) ox

    right_2_x : right_2 x ≡ record (s.heap x) { left = address B }
    right_2_x =
        link_other right_1 x x B (omega (arith, right_apart x, one_self x))
        ∙ update_self s.heap x (record (s.heap x) { left = address B })

    right_6_x : right_6 x ≡ record (s.heap x) { left = address B; parent = y }
    right_6_x =
        let oy : one x y ≡ 0 = omega (arith, right_apart x, one_self x) in
        update_self right_5 x (record (right_5 x) { parent = y })
        ∙ ap (λ (n : RbtNode). record n { parent = y })
            (update_other right_4 y x (record (right_4 y) { right = x }) oy
              ∙ hang_right_other right_3 x x y u (omega (arith, right_apart x, one_self x))
              ∙ update_other right_2 y x (record (right_2 y) { parent = up u }) oy
              ∙ right_2_x)

    right_6_y : right_6 y ≡ record (s.heap y) { right = x; parent = up u }
    right_6_y =
        let ox : one y x ≡ 0 = omega (arith, right_apart y, one_self y) in
        update_other right_5 x y (record (right_5 x) { parent = y }) ox
        ∙ update_self right_4 y (record (right_4 y) { right = x })
        ∙ ap (λ (n : RbtNode). record n { right = x })
            (hang_right_other right_3 y x y u (omega (arith, right_apart y, one_self y))
              ∙ update_self right_2 y (record (right_2 y) { parent = up u })
              ∙ ap (λ (n : RbtNode). record n { parent = up u })
                  (link_other right_1 y x B (omega (arith, right_apart y, one_self y))
                    ∙ update_other s.heap x y (record (s.heap x) { left = address B }) ox))

    right_6_B : Holds s.heap y B → Holds right_6 x B
    right_6_B held =
        let oy : times y B ≡ 0 = omega (arith, right_apart y, one_self y) in
        let ox : times x B ≡ 0 = omega (arith, right_apart x, one_self x) in
        Holds-write right_5 x x (record (right_5 x) { parent = y }) B ox
          (Holds-write right_4 y x (record (right_4 y) { right = x }) B oy
            (Holds-frame right_3 right_4 x B
              (λ w i. hang_right_other right_3 w x y u (omega (arith, right_apart w)))
              (Holds-write right_2 y x (record (right_2 y) { parent = up u }) B oy
                (link_holds right_1 y x B
                  (Holds-write s.heap x y (record (s.heap x) { left = address B }) B ox held)
                  (λ w. omega (arith, right_apart w))))))

    right_6_above : 0 < x → HoldsAbove right_6 y u
    right_6_above pos =
        let oy : times_above y u ≡ 0 = omega (arith, right_apart y, one_self y) in
        let ox : times_above x u ≡ 0 = omega (arith, right_apart x, one_self x) in
        HoldsAbove-write right_5 x y (record (right_5 x) { parent = y }) u ox
          (HoldsAbove-write right_4 y y (record (right_4 y) { right = x }) u oy
            (hang_right_holds right_3 x y u
              (HoldsAbove-write right_2 y x (record (right_2 y) { parent = up u }) u oy
                (HoldsAbove-frame right_1 right_2 x u
                  (λ w i. link_other right_1 w x B (omega (arith, right_apart w)))
                  (HoldsAbove-write s.heap x x (record (s.heap x) { left = address B }) u ox
                    zip.above)))
              (λ w. omega (arith, right_apart w)) ox pos))

    right_6-Zipped : Zipped right_6 u (node C y cy ky vy (node B x cx kx vx A))
    unfolding Holds times
    right_6-Zipped =
        let at_x : s.heap x ≡ _ = zip.below.1 in
        let at_y : s.heap y ≡ _ = zip.below.2.1 in
        record {
          below = (
            zip.below.2.0,
            right_6_y ∙ ap (λ (n : RbtNode). record n { right = x; parent = up u }) at_y,
            Holds-frame s.heap right_6 y C
                (λ w i.
                  right_other w (omega (arith, right_apart w)) (omega (arith, right_apart w))
                    (omega (arith, right_apart w)) (omega (arith, right_apart w)))
                zip.below.2.2,
            (
              zip.below.0,
              right_6_x ∙ ap (λ (n : RbtNode). record n { left = address B; parent = y }) at_x,
              right_6_B zip.below.2.3,
              Holds-frame s.heap right_6 x A
                  (λ w i.
                    right_other w (omega (arith, right_apart w)) (omega (arith, right_apart w))
                      (omega (arith, right_apart w)) (omega (arith, right_apart w)))
                  zip.below.3,
            ),
          );
          above = right_6_above zip.below.0;
          apart = λ w. omega (arith, right_apart w);
        }

    right_half_stage : right_half s.heap x y (address B) ≡ right_2
    unfolding right_half Holds
    right_half_stage =
        let b_of_y : (s.heap y).right ≡ address B = ap (λ (n : RbtNode). n.right) zip.below.2.1 in
        ap (λ b. link_parent right_1 b x)
          (ap (λ (n : RbtNode). n.right)
              (update_other s.heap x y (record (s.heap x) { left = address B })
                (omega (arith, right_apart y, one_self y)))
            ∙ b_of_y)

    right_rest_stage : right_rest s right_2 x y (up u) ≡ record {
      heap = right_6;
      root = if up u == 0 then y else s.root;
      m_root = if up u == 0 then y else s.m_root;
    }
    unfolding right_rest
    right_rest_stage = refl

    -- The rotation writes what the stages above say.
    right_rotate_heap : right_rotate s x ≡ record {
      heap = right_6;
      root = if up u == 0 then y else s.root;
      m_root = if up u == 0 then y else s.m_root;
    }
    unfolding right_rotate Holds
    right_rotate_heap =
        let y_of_x : (s.heap x).left ≡ y = ap (λ (n : RbtNode). n.left) zip.below.1 in
        let b_of_y : (s.heap y).right ≡ address B = ap (λ (n : RbtNode). n.right) zip.below.2.1 in
        let p_of_x : (right_2 x).parent ≡ up u =
          ap (λ (n : RbtNode). n.parent)
            (right_2_x ∙ ap (λ (n : RbtNode). record n { left = address B }) zip.below.1) in
        rw (y_of_x, b_of_y, right_half_stage, p_of_x) right_rest_stage

    right_root_at :
        (v : Above)
        → HoldsAbove s.heap x v
        → s.root ≡ root_of v x
        → (if up v == 0 then y else s.root) ≡ root_of v y
    unfolding HoldsAbove
    right_root_at top held e = refl
    right_root_at (in_left v a c k w r) held e = rw (address-not_null a held.0) e
    right_root_at (in_right l a c k w v) held e = rw (address-not_null a held.0) e

    right_root : s.root ≡ root_of u x → (right_rotate s x).root ≡ root_of u y
    unfolding Holds
    right_root e = rw right_rotate_heap (right_root_at u zip.above e)

    -- The rotation at `x` turns its tree and leaves the nodes above it where they are, and the variable
    -- `root` still names the root.
    pub right_rotate_lem :
        s.root ≡ root_of u x
        → Zipped (right_rotate s x).heap u (node C y cy ky vy (node B x cx kx vx A))
          × ((right_rotate s x).root ≡ root_of u y)
    right_rotate_lem e = (
      subst (λ (t : State). Zipped t.heap u (node C y cy ky vy (node B x cx kx vx A)))
          (sym right_rotate_heap) right_6-Zipped,
      right_root e,
    )
