-- ===== src/DMap/FixLeft.antt =====
-- The body of the loop of `insertFixUp` of include/DMap.h where the parent is a left child.
use dogee.Prelude.{ℕ, suc, ◌≡◌, ◌≢◌, refl, sym, ap, ◌∙◌, arith, ◌==◌, true, false, not, ◌&&◌}
use dogee.DMap.Node.{red, black, RbtNode}
use dogee.DMap.Tree.{Tree, node, address, Holds, eq_true, eq_false}
use dogee.DMap.Insert.{
  State, set_color, is_red, recolor, recolor_three, case_3_left, fix_left, left_rotate, fix_step,
  insert_fix_up,
}
use dogee.DMap.Zipper.{
  Above, in_left, in_right, root_of, HoldsAbove, times, times_above, one_self, Zipped, go_up_left,
  go_up_right, go_left_down, go_right_down,
}
use dogee.DMap.Writes.{address-ne}
use dogee.DMap.RotateLeft.{left_rotate_lem}
use dogee.DMap.RotateRight.{right_rotate_lem}
use dogee.DMap.Recolor.{recolor_lem, red_root, red_root_lem}
use dogee.DMap.Balance.{
  IsRedBlack, IsRedBlackAbove, entries, around, entries-node_left, entries-node_right, entries-turn,
}
use dogee.DMap.Exit.{Fixed, parent_lem, loop_goes_on, exit_lem}

module _ (s : State) (u : Above) (p g kp vp kg vg : ℕ) where
  -- Case 1: three nodes change their colours.
  pub left_case_1 :
      (P1 P2 ul ur : Tree) (q kq vq : ℕ)
      → Zipped s.heap u (node (node P1 p red kp vp P2) g black kg vg (node ul q red kq vq ur))
      → Zipped
          (recolor_three s q p g).heap
          u
          (node (node P1 p black kp vp P2) g red kg vg (node ul q black kq vq ur))
  unfolding recolor_three
  left_case_1 P1 P2 ul ur q kq vq z =
      let h1 = set_color s.heap q black in
      let h2 = set_color h1 p black in
      let z1 : Zipped h1 u
          (node (node P1 p red kp vp P2) g black kg vg (node ul q black kq vq ur)) =
        go_up_right h1 u (node P1 p red kp vp P2) (node ul q black kq vq ur) g black kg vg (
          recolor_lem s.heap (in_right (node P1 p red kp vp P2) g black kg vg u) ul ur q red black
            kq vq
            (go_right_down s.heap u (node P1 p red kp vp P2) (node ul q red kq vq ur) g black kg vg
              z)) in
      let z2 : Zipped h2 u
          (node (node P1 p black kp vp P2) g black kg vg (node ul q black kq vq ur)) =
        go_up_left h2 u (node P1 p black kp vp P2) (node ul q black kq vq ur) g black kg vg (
          recolor_lem h1 (in_left u g black kg vg (node ul q black kq vq ur)) P1 P2 p red black kp
            vp
            (go_left_down h1 u (node P1 p red kp vp P2) (node ul q black kq vq ur) g black kg vg
              z1)) in
      recolor_lem h2 u (node P1 p black kp vp P2) (node ul q black kq vq ur) g black red kg vg z2

  -- Case 3: the parent comes above the grandparent.
  left_case_3 :
      (T R U : Tree)
      → Zipped s.heap u (node (node T p red kp vp R) g black kg vg U)
      → s.root ≡ root_of u g
      → Zipped (case_3_left s p g).heap u (node T p black kp vp (node R g red kg vg U))
        × ((case_3_left s p g).root ≡ root_of u p)
  unfolding case_3_left
  left_case_3 T R U z root =
      let h1 = set_color s.heap p black in
      let z1 : Zipped h1 u (node (node T p black kp vp R) g black kg vg U) =
        go_up_left h1 u (node T p black kp vp R) U g black kg vg (
          recolor_lem s.heap (in_left u g black kg vg U) T R p red black kp vp
            (go_left_down s.heap u (node T p red kp vp R) U g black kg vg z)) in
      right_rotate_lem (recolor (recolor s p black) g red) u U R T g p red black kg vg kp vp
        (recolor_lem h1 u (node T p black kp vp R) U g black red kg vg z1) root

  -- The tests of the body.
  module _ (a : ℕ) (P1 P2 U : Tree)
      (z : Zipped s.heap u (node (node P1 p red kp vp P2) g black kg vg U)) where
    left_uncle : (s.heap g).right ≡ address U
    unfolding Holds
    left_uncle = ap (λ (n : RbtNode). n.right) z.below.1

    left_uncle_test :
        (not ((s.heap g).right == 0) && is_red (s.heap (s.heap g).right).color) ≡ red_root U
    unfolding Holds
    left_uncle_test = rw left_uncle (red_root_lem s.heap g U z.below.3)

    left_at_p : Holds s.heap g (node P1 p red kp vp P2)
    unfolding Holds
    left_at_p = z.below.2

    left_side : fix_step s a p ≡ fix_left s a p g
    unfolding fix_step Holds times
    left_side =
        let g_of_p : (s.heap p).parent ≡ g = ap (λ (n : RbtNode). n.parent) left_at_p.1 in
        let p_of_g : (s.heap g).left ≡ p = ap (λ (n : RbtNode). n.left) z.below.1 in
        rw (g_of_p, p_of_g, eq_true p p refl) refl

    pub left_red_uncle : red_root U ≡ true → fix_left s a p g ≡ (recolor_three s (address U) p g, g)
    unfolding fix_left
    left_red_uncle e = rw (left_uncle_test, e, left_uncle) refl

    left_outer_child :
        red_root U ≡ false → (s.heap p).right ≢ a → fix_left s a p g ≡ (case_3_left s p g, a)
    unfolding fix_left
    left_outer_child e ne = rw (left_uncle_test, e, eq_false (s.heap p).right a ne) refl

    left_inner_child :
        red_root U ≡ false
        → (s.heap p).right ≡ a
        → fix_left s a p g ≡ (case_3_left (left_rotate s p) a g, p)
    unfolding fix_left
    left_inner_child e same = rw (left_uncle_test, e, eq_true (s.heap p).right a same) refl

    pub left_goes_on :
        (fuel : ℕ) (s' : State) (b : ℕ)
        → (s.heap a).parent ≡ p
        → fix_left s a p g ≡ (s', b)
        → insert_fix_up (suc fuel) s a ≡ insert_fix_up fuel s' b
    unfolding Holds
    left_goes_on fuel s' b e step =
        loop_goes_on fuel s a p e left_at_p.0 (ap (λ (n : RbtNode). n.color) left_at_p.1)
        ∙ ap (λ (r : State × ℕ). insert_fix_up fuel r.0 r.1) (left_side ∙ step)

  -- The uncle is not red, and the node is an outer child.
  pub left_outer :
      (fuel n : ℕ) (a ka va : ℕ) (tl tr R U : Tree)
      → Zipped s.heap (in_left (in_left u g black kg vg U) p red kp vp R) (node tl a red ka va tr)
      → s.root ≡ root_of u g
      → red_root U ≡ false
      → IsRedBlack n (node tl a red ka va tr)
      → IsRedBlack n (node R g red kg vg U)
      → IsRedBlackAbove (suc n) u
      → Fixed (suc (suc fuel)) s a (
          around
            (in_left (in_left u g black kg vg U) p red kp vp R)
            (entries (node tl a red ka va tr)))
  unfolding Holds times times_above HoldsAbove IsRedBlackAbove
  left_outer fuel n a ka va tl tr R U z root dark b_t b_r above =
      let zp : Zipped s.heap (in_left u g black kg vg U)
          (node (node tl a red ka va tr) p red kp vp R) =
        go_up_left s.heap (in_left u g black kg vg U) (node tl a red ka va tr) R p red kp vp z in
      let zg : Zipped s.heap u
          (node (node (node tl a red ka va tr) p red kp vp R) g black kg vg U) =
        go_up_left s.heap u (node (node tl a red ka va tr) p red kp vp R) U g black kg vg zp in
      let ne : (s.heap p).right ≢ a = λ e.
        address-ne a R z.below.0 (omega (arith, z.apart a, one_self a))
          (sym (ap (λ (m : RbtNode). m.right) zp.below.1) ∙ e) in
      let (z3, root3) = left_case_3 (node tl a red ka va tr) R U zg root in
      let (s', t, (runs, whole, rooted, is_black, balanced, same_entries)) =
        exit_lem fuel n (case_3_left s p g) (in_left u p black kp vp (node R g red kg vg U)) tl tr a
          red ka va
          (go_left_down (case_3_left s p g).heap u (node tl a red ka va tr) (node R g red kg vg U) p
            black kp vp z3)
          root3 refl (b_r, above) b_t in
      (
        s',
        t,
        (
          left_goes_on a (node tl a red ka va tr) R U zg (suc fuel) (case_3_left s p g) a
                (parent_lem s.heap p tl tr a red ka va z.below)
                (left_outer_child a (node tl a red ka va tr) R U zg dark ne)
              ∙ runs,
          whole,
          rooted,
          is_black,
          balanced,
          same_entries
              ∙ entries-node_left u (node tl a red ka va tr) (node R g red kg vg U) p black kp vp
              ∙ ap (around u) (
                  sym
                    (entries-turn (node tl a red ka va tr) R U p g red black black red kp vp kg vg))
              ∙ sym (
                  entries-node_left u (node (node tl a red ka va tr) p red kp vp R) U g black kg vg)
              ∙ sym (
                  entries-node_left (in_left u g black kg vg U) (node tl a red ka va tr) R p red kp
                    vp),
        ),
      )

module _ (s : State) (u : Above) (p g kp vp kg vg : ℕ) where
  -- The uncle is not red, and the node is an inner child.
  pub left_inner :
      (fuel n : ℕ) (a ka va : ℕ) (T1 T2 L U : Tree)
      → Zipped s.heap (in_right L p red kp vp (in_left u g black kg vg U)) (node T1 a red ka va T2)
      → s.root ≡ root_of u g
      → red_root U ≡ false
      → IsRedBlack n (node L p red kp vp T1)
      → IsRedBlack n (node T2 g red kg vg U)
      → IsRedBlackAbove (suc n) u
      → Fixed (suc (suc fuel)) s a (
          around
            (in_right L p red kp vp (in_left u g black kg vg U))
            (entries (node T1 a red ka va T2)))
  unfolding Holds times times_above HoldsAbove IsRedBlackAbove
  left_inner fuel n a ka va T1 T2 L U z root dark b_t b_r above =
      let zp : Zipped s.heap (in_left u g black kg vg U)
          (node L p red kp vp (node T1 a red ka va T2)) =
        go_up_right s.heap (in_left u g black kg vg U) L (node T1 a red ka va T2) p red kp vp z in
      let zg : Zipped s.heap u
          (node (node L p red kp vp (node T1 a red ka va T2)) g black kg vg U) =
        go_up_left s.heap u (node L p red kp vp (node T1 a red ka va T2)) U g black kg vg zp in
      let same : (s.heap p).right ≡ a = ap (λ (m : RbtNode). m.right) zp.below.1 in
      let (z2, root2) =
        left_rotate_lem s (in_left u g black kg vg U) L T1 T2 p a red red kp vp ka va zp root in
      let s2 = left_rotate s p in
      let zg2 : Zipped s2.heap u
          (node (node (node L p red kp vp T1) a red ka va T2) g black kg vg U) =
        go_up_left s2.heap u (node (node L p red kp vp T1) a red ka va T2) U g black kg vg z2 in
      let z3 = left_case_3 s2 u a g ka va kg vg (node L p red kp vp T1) T2 U zg2 root2 in
      let (s', t, (runs, whole, rooted, is_black, balanced, same_entries)) =
        exit_lem fuel n (case_3_left s2 a g) (in_left u a black ka va (node T2 g red kg vg U)) L T1
          p red kp vp
          (go_left_down (case_3_left s2 a g).heap u (node L p red kp vp T1) (node T2 g red kg vg U)
            a black ka va z3.0)
          z3.1 refl (b_r, above) b_t in
      (
        s',
        t,
        (
          left_goes_on s u p g kp vp kg vg a L (node T1 a red ka va T2) U zg (suc fuel)
                (case_3_left s2 a g) p (parent_lem s.heap p T1 T2 a red ka va z.below)
                (left_inner_child s u p g kp vp kg vg a L (node T1 a red ka va T2) U zg dark same)
              ∙ runs,
          whole,
          rooted,
          is_black,
          balanced,
          same_entries
              ∙ entries-node_left u (node L p red kp vp T1) (node T2 g red kg vg U) a black ka va
              ∙ ap (around u) (
                  sym
                    (entries-turn (node L p red kp vp T1) T2 U a g red black black red ka va kg vg))
              ∙ sym (
                  entries-node_left u (node (node L p red kp vp T1) a red ka va T2) U g black kg vg)
              ∙ ap (around (in_left u g black kg vg U))
                  (entries-turn L T1 T2 p a red red red red kp vp ka va)
              ∙ sym (
                  entries-node_right (in_left u g black kg vg U) L (node T1 a red ka va T2) p red kp
                    vp),
        ),
      )
