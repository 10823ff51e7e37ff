-- ===== src/DMap/FixRight.antt =====
-- The body of the loop of `insertFixUp` of include/DMap.h where the parent is a right child.
use dogee.Prelude.{ℕ, suc, ◌≡◌, ◌≢◌, refl, sym, ap, ◌∙◌, arith, ◌==◌, true, false, not, ◌&&◌}
use dogee.DMap.Node.{red, black, RbtNode}
use dogee.DMap.Tree.{Tree, node, address, Holds, eq_true, eq_false}
use dogee.DMap.Insert.{
  State, set_color, is_red, recolor, recolor_three, case_3_right, fix_right, right_rotate, fix_step,
  insert_fix_up,
}
use dogee.DMap.Zipper.{
  Above, in_left, in_right, root_of, HoldsAbove, times, times_above, one_self, Zipped, go_up_left,
  go_up_right, go_left_down, go_right_down,
}
use dogee.DMap.Writes.{address-ne}
use dogee.DMap.RotateLeft.{left_rotate_lem}
use dogee.DMap.RotateRight.{right_rotate_lem}
use dogee.DMap.Recolor.{recolor_lem, red_root, red_root_lem}
use dogee.DMap.Balance.{
  IsRedBlack, IsRedBlackAbove, entries, around, entries-node_left, entries-node_right, entries-turn,
}
use dogee.DMap.Exit.{Fixed, parent_lem, loop_goes_on, exit_lem}

module _ (s : State) (u : Above) (p g kp vp kg vg : ℕ) where
  -- Case 1: three nodes change their colours.
  pub right_case_1 :
      (P1 P2 ul ur : Tree) (q kq vq : ℕ)
      → Zipped s.heap u (node (node ul q red kq vq ur) g black kg vg (node P2 p red kp vp P1))
      → Zipped
          (recolor_three s q p g).heap
          u
          (node (node ul q black kq vq ur) g red kg vg (node P2 p black kp vp P1))
  unfolding recolor_three
  right_case_1 P1 P2 ul ur q kq vq z =
      let h1 = set_color s.heap q black in
      let h2 = set_color h1 p black in
      let z1 : Zipped h1 u
          (node (node ul q black kq vq ur) g black kg vg (node P2 p red kp vp P1)) =
        go_up_left h1 u (node ul q black kq vq ur) (node P2 p red kp vp P1) g black kg vg (
          recolor_lem s.heap (in_left u g black kg vg (node P2 p red kp vp P1)) ul ur q red black kq
            vq
            (go_left_down s.heap u (node ul q red kq vq ur) (node P2 p red kp vp P1) g black kg vg
              z)) in
      let z2 : Zipped h2 u
          (node (node ul q black kq vq ur) g black kg vg (node P2 p black kp vp P1)) =
        go_up_right h2 u (node ul q black kq vq ur) (node P2 p black kp vp P1) g black kg vg (
          recolor_lem h1 (in_right (node ul q black kq vq ur) g black kg vg u) P2 P1 p red black kp
            vp
            (go_right_down h1 u (node ul q black kq vq ur) (node P2 p red kp vp P1) g black kg vg
              z1)) in
      recolor_lem h2 u (node ul q black kq vq ur) (node P2 p black kp vp P1) g black red kg vg z2

  -- Case 3: the parent comes above the grandparent.
  right_case_3 :
      (T R U : Tree)
      → Zipped s.heap u (node U g black kg vg (node R p red kp vp T))
      → s.root ≡ root_of u g
      → Zipped (case_3_right s p g).heap u (node (node U g red kg vg R) p black kp vp T)
        × ((case_3_right s p g).root ≡ root_of u p)
  unfolding case_3_right
  right_case_3 T R U z root =
      let h1 = set_color s.heap p black in
      let z1 : Zipped h1 u (node U g black kg vg (node R p black kp vp T)) =
        go_up_right h1 u U (node R p black kp vp T) g black kg vg (
          recolor_lem s.heap (in_right U g black kg vg u) R T p red black kp vp
            (go_right_down s.heap u U (node R p red kp vp T) g black kg vg z)) in
      left_rotate_lem (recolor (recolor s p black) g red) u U R T g p red black kg vg kp vp
        (recolor_lem h1 u U (node R p black kp vp T) g black red kg vg z1) root

  -- The tests of the body.
  module _ (a : ℕ) (P1 P2 U : Tree)
      (z : Zipped s.heap u (node U g black kg vg (node P2 p red kp vp P1))) where
    right_uncle : (s.heap g).left ≡ address U
    unfolding Holds
    right_uncle = ap (λ (n : RbtNode). n.left) z.below.1

    right_uncle_test :
        (not ((s.heap g).left == 0) && is_red (s.heap (s.heap g).left).color) ≡ red_root U
    unfolding Holds
    right_uncle_test = rw right_uncle (red_root_lem s.heap g U z.below.2)

    right_at_p : Holds s.heap g (node P2 p red kp vp P1)
    unfolding Holds
    right_at_p = z.below.3

    right_side : fix_step s a p ≡ fix_right s a p g
    unfolding fix_step Holds times
    right_side =
        let g_of_p : (s.heap p).parent ≡ g = ap (λ (n : RbtNode). n.parent) right_at_p.1 in
        let u_of_g : (s.heap g).left ≡ address U = ap (λ (n : RbtNode). n.left) z.below.1 in
        let other : p ≢ address U =
          λ e. address-ne p U right_at_p.0 (omega (arith, z.apart p, one_self p)) (sym e) in
        rw (g_of_p, u_of_g, eq_false p (address U) other) refl

    pub right_red_uncle :
        red_root U ≡ true → fix_right s a p g ≡ (recolor_three s (address U) p g, g)
    unfolding fix_right
    right_red_uncle e = rw (right_uncle_test, e, right_uncle) refl

    right_outer_child :
        red_root U ≡ false → (s.heap p).left ≢ a → fix_right s a p g ≡ (case_3_right s p g, a)
    unfolding fix_right
    right_outer_child e ne = rw (right_uncle_test, e, eq_false (s.heap p).left a ne) refl

    right_inner_child :
        red_root U ≡ false
        → (s.heap p).left ≡ a
        → fix_right s a p g ≡ (case_3_right (right_rotate s p) a g, p)
    unfolding fix_right
    right_inner_child e same = rw (right_uncle_test, e, eq_true (s.heap p).left a same) refl

    pub right_goes_on :
        (fuel : ℕ) (s' : State) (b : ℕ)
        → (s.heap a).parent ≡ p
        → fix_right s a p g ≡ (s', b)
        → insert_fix_up (suc fuel) s a ≡ insert_fix_up fuel s' b
    unfolding Holds
    right_goes_on fuel s' b e step =
        loop_goes_on fuel s a p e right_at_p.0 (ap (λ (n : RbtNode). n.color) right_at_p.1)
        ∙ ap (λ (r : State × ℕ). insert_fix_up fuel r.0 r.1) (right_side ∙ step)

  -- The uncle is not red, and the node is an outer child.
  pub right_outer :
      (fuel n : ℕ) (a ka va : ℕ) (tl tr R U : Tree)
      → Zipped s.heap (in_right R p red kp vp (in_right U g black kg vg u)) (node tl a red ka va tr)
      → s.root ≡ root_of u g
      → red_root U ≡ false
      → IsRedBlack n (node tl a red ka va tr)
      → IsRedBlack n (node U g red kg vg R)
      → IsRedBlackAbove (suc n) u
      → Fixed (suc (suc fuel)) s a (
          around
            (in_right R p red kp vp (in_right U g black kg vg u))
            (entries (node tl a red ka va tr)))
  unfolding Holds times times_above HoldsAbove IsRedBlackAbove
  right_outer fuel n a ka va tl tr R U z root dark b_t b_r above =
      let zp : Zipped s.heap (in_right U g black kg vg u)
          (node R p red kp vp (node tl a red ka va tr)) =
        go_up_right s.heap (in_right U g black kg vg u) R (node tl a red ka va tr) p red kp vp z in
      let zg : Zipped s.heap u
          (node U g black kg vg (node R p red kp vp (node tl a red ka va tr))) =
        go_up_right s.heap u U (node R p red kp vp (node tl a red ka va tr)) g black kg vg zp in
      let ne : (s.heap p).left ≢ a = λ e.
        address-ne a R z.below.0 (omega (arith, z.apart a, one_self a))
          (sym (ap (λ (m : RbtNode). m.left) zp.below.1) ∙ e) in
      let (z3, root3) = right_case_3 (node tl a red ka va tr) R U zg root in
      let (s', t, (runs, whole, rooted, is_black, balanced, same_entries)) =
        exit_lem fuel n (case_3_right s p g) (in_right (node U g red kg vg R) p black kp vp u) tl tr
          a red ka va
          (go_right_down (case_3_right s p g).heap u (node U g red kg vg R) (node tl a red ka va tr)
            p black kp vp z3)
          root3 refl (b_r, above) b_t in
      (
        s',
        t,
        (
          right_goes_on a (node tl a red ka va tr) R U zg (suc fuel) (case_3_right s p g) a
                (parent_lem s.heap p tl tr a red ka va z.below)
                (right_outer_child a (node tl a red ka va tr) R U zg dark ne)
              ∙ runs,
          whole,
          rooted,
          is_black,
          balanced,
          same_entries
              ∙ entries-node_right u (node U g red kg vg R) (node tl a red ka va tr) p black kp vp
              ∙ ap (around u)
                  (entries-turn U R (node tl a red ka va tr) g p red black black red kg vg kp vp)
              ∙ sym (
                  entries-node_right u U (node R p red kp vp (node tl a red ka va tr)) g black kg
                    vg)
              ∙ sym (
                  entries-node_right (in_right U g black kg vg u) R (node tl a red ka va tr) p red
                    kp vp),
        ),
      )

module _ (s : State) (u : Above) (p g kp vp kg vg : ℕ) where
  -- The uncle is not red, and the node is an inner child.
  pub right_inner :
      (fuel n : ℕ) (a ka va : ℕ) (T1 T2 L U : Tree)
      → Zipped s.heap (in_left (in_right U g black kg vg u) p red kp vp L) (node T2 a red ka va T1)
      → s.root ≡ root_of u g
      → red_root U ≡ false
      → IsRedBlack n (node T1 p red kp vp L)
      → IsRedBlack n (node U g red kg vg T2)
      → IsRedBlackAbove (suc n) u
      → Fixed (suc (suc fuel)) s a (
          around
            (in_left (in_right U g black kg vg u) p red kp vp L)
            (entries (node T2 a red ka va T1)))
  unfolding Holds times times_above HoldsAbove IsRedBlackAbove
  right_inner fuel n a ka va T1 T2 L U z root dark b_t b_r above =
      let zp : Zipped s.heap (in_right U g black kg vg u)
          (node (node T2 a red ka va T1) p red kp vp L) =
        go_up_left s.heap (in_right U g black kg vg u) (node T2 a red ka va T1) L p red kp vp z in
      let zg : Zipped s.heap u
          (node U g black kg vg (node (node T2 a red ka va T1) p red kp vp L)) =
        go_up_right s.heap u U (node (node T2 a red ka va T1) p red kp vp L) g black kg vg zp in
      let same : (s.heap p).left ≡ a = ap (λ (m : RbtNode). m.left) zp.below.1 in
      let (z2, root2) =
        right_rotate_lem s (in_right U g black kg vg u) L T1 T2 p a red red kp vp ka va zp root in
      let s2 = right_rotate s p in
      let zg2 : Zipped s2.heap u
          (node U g black kg vg (node T2 a red ka va (node T1 p red kp vp L))) =
        go_up_right s2.heap u U (node T2 a red ka va (node T1 p red kp vp L)) g black kg vg z2 in
      let z3 = right_case_3 s2 u a g ka va kg vg (node T1 p red kp vp L) T2 U zg2 root2 in
      let (s', t, (runs, whole, rooted, is_black, balanced, same_entries)) =
        exit_lem fuel n (case_3_right s2 a g) (in_right (node U g red kg vg T2) a black ka va u) T1
          L p red kp vp
          (go_right_down (case_3_right s2 a g).heap u (node U g red kg vg T2)
            (node T1 p red kp vp L) a black ka va z3.0)
          z3.1 refl (b_r, above) b_t in
      (
        s',
        t,
        (
          right_goes_on s u p g kp vp kg vg a L (node T2 a red ka va T1) U zg (suc fuel)
                (case_3_right s2 a g) p (parent_lem s.heap p T2 T1 a red ka va z.below)
                (right_inner_child s u p g kp vp kg vg a L (node T2 a red ka va T1) U zg dark same)
              ∙ runs,
          whole,
          rooted,
          is_black,
          balanced,
          same_entries
              ∙ entries-node_right u (node U g red kg vg T2) (node T1 p red kp vp L) a black ka va
              ∙ ap (around u)
                  (entries-turn U T2 (node T1 p red kp vp L) g a red black black red kg vg ka va)
              ∙ sym (
                  entries-node_right u U (node T2 a red ka va (node T1 p red kp vp L)) g black kg
                    vg)
              ∙ ap (around (in_right U g black kg vg u))
                  (sym (entries-turn T2 T1 L a p red red red red ka va kp vp))
              ∙ sym (
                  entries-node_left (in_right U g black kg vg u) (node T2 a red ka va T1) L p red kp
                    vp),
        ),
      )
