-- ===== src/DMap/RotateLeft.antt =====
-- The left rotation of include/DMap.h on a heap that holds a tree.
use dogee.Prelude.{ℕ, ◌+◌, ◌<◌, ◌≤◌, ◌≡◌, refl, sym, ap, subst, ◌∙◌, arith, ◌==◌, if◌then◌else◌}
use dogee.Cache.Sound.{update_self}
use dogee.DMap.Node.{Color, RbtNode, Heap}
use dogee.DMap.Tree.{Tree, node, address, Holds, address-not_null}
use dogee.DMap.Insert.{
  State, set_left, set_right, set_parent, link_parent, hang_left, left_rotate, left_half, left_rest,
}
use dogee.DMap.Zipper.{
  Above, top, in_left, in_right, up, root_of, HoldsAbove, one, times, times_above, one_self, Zipped,
  Holds-frame, HoldsAbove-frame,
}
use dogee.DMap.Writes.{
  update_other, Holds-write, HoldsAbove-write, link_other, link_holds, hang_left_other,
  hang_left_holds,
}

module _ (s : State) (u : Above) (A B C : Tree) (x y : ℕ) (cx cy : Color) (kx vx ky vy : ℕ) where
  abbrev left_1 : Heap
  left_1 = set_right s.heap x (address B)

  abbrev left_2 : Heap
  left_2 = link_parent left_1 (address B) x

  abbrev left_3 : Heap
  left_3 = set_parent left_2 y (up u)

  abbrev left_4 : Heap
  left_4 = hang_left left_3 (up u) x y

  abbrev left_5 : Heap
  left_5 = set_left left_4 y x

  abbrev left_6 : Heap
  left_6 = set_parent left_5 x y

  module _ (zip : Zipped s.heap u (node A x cx kx vx (node B y cy ky vy C))) where
    left_apart :
        (w : ℕ) → times_above w u + (one w x + times w A + (one w y + times w B + times w C)) ≤ 1
    unfolding times
    left_apart w = omega (arith, zip.apart w)

    left_other :
        (w : ℕ)
        → one w x ≡ 0
        → one w y ≡ 0
        → times w B ≡ 0
        → times_above w u ≡ 0
        → left_6 w ≡ s.heap w
    left_other w ox oy ob ou =
        update_other left_5 x w (record (left_5 x) { parent = y }) ox
        ∙ update_other left_4 y w (record (left_4 y) { left = x }) oy
        ∙ hang_left_other left_3 w x y u ou
        ∙ update_other left_2 y w (record (left_2 y) { parent = up u }) oy
        ∙ link_other left_1 w x B ob
        ∙ update_other s.heap x w (record (s.heap x) { right = address B }) ox

    left_2_x : left_2 x ≡ record (s.heap x) { right = address B }
    left_2_x =
        link_other left_1 x x B (omega (arith, left_apart x, one_self x))
        ∙ update_self s.heap x (record (s.heap x) { right = address B })

    left_6_x : left_6 x ≡ record (s.heap x) { right = address B; parent = y }
    left_6_x =
        let oy : one x y ≡ 0 = omega (arith, left_apart x, one_self x) in
        update_self left_5 x (record (left_5 x) { parent = y })
        ∙ ap (λ (n : RbtNode). record n { parent = y })
            (update_other left_4 y x (record (left_4 y) { left = x }) oy
              ∙ hang_left_other left_3 x x y u (omega (arith, left_apart x, one_self x))
              ∙ update_other left_2 y x (record (left_2 y) { parent = up u }) oy
              ∙ left_2_x)

    left_6_y : left_6 y ≡ record (s.heap y) { left = x; parent = up u }
    left_6_y =
        let ox : one y x ≡ 0 = omega (arith, left_apart y, one_self y) in
        update_other left_5 x y (record (left_5 x) { parent = y }) ox
        ∙ update_self left_4 y (record (left_4 y) { left = x })
        ∙ ap (λ (n : RbtNode). record n { left = x })
            (hang_left_other left_3 y x y u (omega (arith, left_apart y, one_self y))
              ∙ update_self left_2 y (record (left_2 y) { parent = up u })
              ∙ ap (λ (n : RbtNode). record n { parent = up u })
                  (link_other left_1 y x B (omega (arith, left_apart y, one_self y))
                    ∙ update_other s.heap x y (record (s.heap x) { right = address B }) ox))

    left_6_B : Holds s.heap y B → Holds left_6 x B
    left_6_B held =
        let oy : times y B ≡ 0 = omega (arith, left_apart y, one_self y) in
        let ox : times x B ≡ 0 = omega (arith, left_apart x, one_self x) in
        Holds-write left_5 x x (record (left_5 x) { parent = y }) B ox
          (Holds-write left_4 y x (record (left_4 y) { left = x }) B oy
            (Holds-frame left_3 left_4 x B
              (λ w i. hang_left_other left_3 w x y u (omega (arith, left_apart w)))
              (Holds-write left_2 y x (record (left_2 y) { parent = up u }) B oy
                (link_holds left_1 y x B
                  (Holds-write s.heap x y (record (s.heap x) { right = address B }) B ox held)
                  (λ w. omega (arith, left_apart w))))))

    left_6_above : 0 < x → HoldsAbove left_6 y u
    left_6_above pos =
        let oy : times_above y u ≡ 0 = omega (arith, left_apart y, one_self y) in
        let ox : times_above x u ≡ 0 = omega (arith, left_apart x, one_self x) in
        HoldsAbove-write left_5 x y (record (left_5 x) { parent = y }) u ox
          (HoldsAbove-write left_4 y y (record (left_4 y) { left = x }) u oy
            (hang_left_holds left_3 x y u
              (HoldsAbove-write left_2 y x (record (left_2 y) { parent = up u }) u oy
                (HoldsAbove-frame left_1 left_2 x u
                  (λ w i. link_other left_1 w x B (omega (arith, left_apart w)))
                  (HoldsAbove-write s.heap x x (record (s.heap x) { right = address B }) u ox
                    zip.above)))
              (λ w. omega (arith, left_apart w)) ox pos))

    left_6-Zipped : Zipped left_6 u (node (node A x cx kx vx B) y cy ky vy C)
    unfolding Holds times
    left_6-Zipped =
        let at_x : s.heap x ≡ _ = zip.below.1 in
        let at_y : s.heap y ≡ _ = zip.below.3.1 in
        record {
          below = (
            zip.below.3.0,
            left_6_y ∙ ap (λ (n : RbtNode). record n { left = x; parent = up u }) at_y,
            (
              zip.below.0,
              left_6_x ∙ ap (λ (n : RbtNode). record n { right = address B; parent = y }) at_x,
              Holds-frame s.heap left_6 x A
                  (λ w i.
                    left_other w (omega (arith, left_apart w)) (omega (arith, left_apart w))
                      (omega (arith, left_apart w)) (omega (arith, left_apart w)))
                  zip.below.2,
              left_6_B zip.below.3.2,
            ),
            Holds-frame s.heap left_6 y C
                (λ w i.
                  left_other w (omega (arith, left_apart w)) (omega (arith, left_apart w))
                    (omega (arith, left_apart w)) (omega (arith, left_apart w)))
                zip.below.3.3,
          );
          above = left_6_above zip.below.0;
          apart = λ w. omega (arith, left_apart w);
        }

    left_half_stage : left_half s.heap x y (address B) ≡ left_2
    unfolding left_half Holds
    left_half_stage =
        let b_of_y : (s.heap y).left ≡ address B = ap (λ (n : RbtNode). n.left) zip.below.3.1 in
        ap (λ b. link_parent left_1 b x)
          (ap (λ (n : RbtNode). n.left)
              (update_other s.heap x y (record (s.heap x) { right = address B })
                (omega (arith, left_apart y, one_self y)))
            ∙ b_of_y)

    left_rest_stage : left_rest s left_2 x y (up u) ≡ record {
      heap = left_6;
      root = if up u == 0 then y else s.root;
      m_root = if up u == 0 then y else s.m_root;
    }
    unfolding left_rest
    left_rest_stage = refl

    -- The rotation writes what the stages above say.
    left_rotate_heap : left_rotate s x ≡ record {
      heap = left_6;
      root = if up u == 0 then y else s.root;
      m_root = if up u == 0 then y else s.m_root;
    }
    unfolding left_rotate Holds
    left_rotate_heap =
        let y_of_x : (s.heap x).right ≡ y = ap (λ (n : RbtNode). n.right) zip.below.1 in
        let b_of_y : (s.heap y).left ≡ address B = ap (λ (n : RbtNode). n.left) zip.below.3.1 in
        let p_of_x : (left_2 x).parent ≡ up u =
          ap (λ (n : RbtNode). n.parent)
            (left_2_x ∙ ap (λ (n : RbtNode). record n { right = address B }) zip.below.1) in
        rw (y_of_x, b_of_y, left_half_stage, p_of_x) left_rest_stage

    left_root_at :
        (v : Above)
        → HoldsAbove s.heap x v
        → s.root ≡ root_of v x
        → (if up v == 0 then y else s.root) ≡ root_of v y
    unfolding HoldsAbove
    left_root_at top held e = refl
    left_root_at (in_left v a c k w r) held e = rw (address-not_null a held.0) e
    left_root_at (in_right l a c k w v) held e = rw (address-not_null a held.0) e

    left_root : s.root ≡ root_of u x → (left_rotate s x).root ≡ root_of u y
    unfolding Holds
    left_root e = rw left_rotate_heap (left_root_at u zip.above e)

    -- The rotation at `x` turns its tree and leaves the nodes above it where they are, and the variable
    -- `root` still names the root.
    pub left_rotate_lem :
        s.root ≡ root_of u x
        → Zipped (left_rotate s x).heap u (node (node A x cx kx vx B) y cy ky vy C)
          × ((left_rotate s x).root ≡ root_of u y)
    left_rotate_lem e = (
      subst (λ (t : State). Zipped t.heap u (node (node A x cx kx vx B) y cy ky vy C))
          (sym left_rotate_heap) left_6-Zipped,
      left_root e,
    )
