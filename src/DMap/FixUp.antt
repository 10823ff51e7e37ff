-- ===== src/DMap/FixUp.antt =====
-- `insertFixUp` of include/DMap.h makes a red-black tree again.
use dogee.Prelude.{ℕ, zero, suc, ◌≤◌, ◌≡◌, refl, arith}
use dogee.DMap.Node.{red, black}
use dogee.DMap.Tree.{Tree, leaf, node}
use dogee.DMap.Insert.{State, recolor_three}
use dogee.DMap.Zipper.{Above, top, in_left, in_right, root_of, Zipped}
use dogee.DMap.Balance.{IsRedBlack, IsRedBlackAbove, entries, around}
use dogee.DMap.Exit.{Fixed, exit_lem}
use dogee.DMap.RedUncle.{left_red_outer, left_red_inner, right_red_outer, right_red_inner}
use dogee.DMap.FixLeft.{left_outer, left_inner}
use dogee.DMap.FixRight.{right_outer, right_inner}

-- How many nodes are above the hole.
abbrev pub depth : Above → ℕ
depth top = 0
depth (in_left u a c k v r) = suc (depth u)
depth (in_right l a c k v u) = suc (depth u)

-- Below any nodes of a red-black tree, `insertFixUp` ends for a red node that may have a red parent, and the
-- heap then holds a red-black tree with the same entries.
pub fix_up_lem :
    (fuel n : ℕ) (s : State) (u : Above) (tl tr : Tree) (a ka va : ℕ)
    → Zipped s.heap u (node tl a red ka va tr)
    → s.root ≡ root_of u a
    → IsRedBlack n (node tl a red ka va tr)
    → IsRedBlackAbove n u
    → suc (suc (depth u)) ≤ fuel
    → Fixed fuel s a (around u (entries (node tl a red ka va tr)))
unfolding IsRedBlack IsRedBlackAbove recolor_three
fix_up_lem zero n s u tl tr a ka va z root b above f = absurd (omega arith)
fix_up_lem (suc zero) n s u tl tr a ka va z root b above f = absurd (omega arith)
fix_up_lem (suc (suc fuel)) n s top tl tr a ka va z root b above f =
    exit_lem (suc fuel) n s top tl tr a red ka va z root tt above b
fix_up_lem (suc (suc fuel)) n s (in_left u p black kp vp r) tl tr a ka va z root b above f =
    exit_lem (suc fuel) n s (in_left u p black kp vp r) tl tr a red ka va z root refl above b
fix_up_lem (suc (suc fuel)) n s (in_right l p black kp vp u) tl tr a ka va z root b above f =
    exit_lem (suc fuel) n s (in_right l p black kp vp u) tl tr a red ka va z root refl above b
fix_up_lem (suc (suc fuel)) n s
      (in_left (in_left u g black kg vg (node ul q red kq vq ur)) p red kp vp R) tl tr a ka va z
      root b above f =
    left_red_outer (suc fuel) n s u tl tr R ul ur a ka va p kp vp g kg vg q kq vq z (λ zg.
      fix_up_lem (suc fuel) (suc n) (recolor_three s q p g) u
        (node (node tl a red ka va tr) p black kp vp R) (node ul q black kq vq ur) g kg vg zg root
        (refl, refl, (b, above.2), (above.3.0.2, above.3.0.3)) above.3.1 (omega arith))
fix_up_lem (suc (suc fuel)) n s (in_left (in_left u g black kg vg leaf) p red kp vp R) tl tr a ka va
      z root b above f =
    left_outer s u p g kp vp kg vg fuel n a ka va tl tr R leaf z root refl b
      (above.1, tt, above.2, above.3.0) above.3.1
fix_up_lem (suc (suc fuel)) n s
      (in_left (in_left u g black kg vg (node ul q black kq vq ur)) p red kp vp R) tl tr a ka va z
      root b above f =
    left_outer s u p g kp vp kg vg fuel n a ka va tl tr R (node ul q black kq vq ur) z root refl b
      (above.1, refl, above.2, above.3.0) above.3.1
fix_up_lem (suc (suc fuel)) n s (in_left (in_left u g red kg vg U) p red kp vp R) tl tr a ka va z
      root b above f =
    cc
fix_up_lem (suc (suc fuel)) n s
      (in_right R p red kp vp (in_left u g black kg vg (node ul q red kq vq ur))) tl tr a ka va z
      root b above f =
    left_red_inner (suc fuel) n s u tl tr R ul ur a ka va p kp vp g kg vg q kq vq z (λ zg.
      fix_up_lem (suc fuel) (suc n) (recolor_three s q p g) u
        (node R p black kp vp (node tl a red ka va tr)) (node ul q black kq vq ur) g kg vg zg root
        (refl, refl, (above.2, b), (above.3.0.2, above.3.0.3)) above.3.1 (omega arith))
fix_up_lem (suc (suc fuel)) n s (in_right R p red kp vp (in_left u g black kg vg leaf)) tl tr a ka
      va z root b above f =
    left_inner s u p g kp vp kg vg fuel n a ka va tl tr R leaf z root refl
      (above.1, b.0, above.2, b.2) (b.1, tt, b.3, above.3.0) above.3.1
fix_up_lem (suc (suc fuel)) n s
      (in_right R p red kp vp (in_left u g black kg vg (node ul q black kq vq ur))) tl tr a ka va z
      root b above f =
    left_inner s u p g kp vp kg vg fuel n a ka va tl tr R (node ul q black kq vq ur) z root refl
      (above.1, b.0, above.2, b.2) (b.1, refl, b.3, above.3.0) above.3.1
fix_up_lem (suc (suc fuel)) n s (in_right R p red kp vp (in_left u g red kg vg U)) tl tr a ka va z
      root b above f =
    cc
fix_up_lem (suc (suc fuel)) n s
      (in_left (in_right (node ul q red kq vq ur) g black kg vg u) p red kp vp R) tl tr a ka va z
      root b above f =
    right_red_inner (suc fuel) n s u tl tr R ul ur a ka va p kp vp g kg vg q kq vq z (λ zg.
      fix_up_lem (suc fuel) (suc n) (recolor_three s q p g) u (node ul q black kq vq ur)
        (node (node tl a red ka va tr) p black kp vp R) g kg vg zg root
        (refl, refl, (above.3.0.2, above.3.0.3), (b, above.2)) above.3.1 (omega arith))
fix_up_lem (suc (suc fuel)) n s (in_left (in_right leaf g black kg vg u) p red kp vp R) tl tr a ka
      va z root b above f =
    right_inner s u p g kp vp kg vg fuel n a ka va tr tl R leaf z root refl
      (b.1, above.1, b.3, above.2) (tt, b.0, above.3.0, b.2) above.3.1
fix_up_lem (suc (suc fuel)) n s
      (in_left (in_right (node ul q black kq vq ur) g black kg vg u) p red kp vp R) tl tr a ka va z
      root b above f =
    right_inner s u p g kp vp kg vg fuel n a ka va tr tl R (node ul q black kq vq ur) z root refl
      (b.1, above.1, b.3, above.2) (refl, b.0, above.3.0, b.2) above.3.1
fix_up_lem (suc (suc fuel)) n s (in_left (in_right U g red kg vg u) p red kp vp R) tl tr a ka va z
      root b above f =
    cc
fix_up_lem (suc (suc fuel)) n s
      (in_right R p red kp vp (in_right (node ul q red kq vq ur) g black kg vg u)) tl tr a ka va z
      root b above f =
    right_red_outer (suc fuel) n s u tl tr R ul ur a ka va p kp vp g kg vg q kq vq z (λ zg.
      fix_up_lem (suc fuel) (suc n) (recolor_three s q p g) u (node ul q black kq vq ur)
        (node R p black kp vp (node tl a red ka va tr)) g kg vg zg root
        (refl, refl, (above.3.0.2, above.3.0.3), (above.2, b)) above.3.1 (omega arith))
fix_up_lem (suc (suc fuel)) n s (in_right R p red kp vp (in_right leaf g black kg vg u)) tl tr a ka
      va z root b above f =
    right_outer s u p g kp vp kg vg fuel n a ka va tl tr R leaf z root refl b
      (tt, above.1, above.3.0, above.2) above.3.1
fix_up_lem (suc (suc fuel)) n s
      (in_right R p red kp vp (in_right (node ul q black kq vq ur) g black kg vg u)) tl tr a ka va z
      root b above f =
    right_outer s u p g kp vp kg vg fuel n a ka va tl tr R (node ul q black kq vq ur) z root refl b
      (refl, above.1, above.3.0, above.2) above.3.1
fix_up_lem (suc (suc fuel)) n s (in_right R p red kp vp (in_right U g red kg vg u)) tl tr a ka va z
      root b above f =
    cc
fix_up_lem (suc (suc fuel)) n s (in_left top p red kp vp R) tl tr a ka va z root b above f =
    absurd above.0
fix_up_lem (suc (suc fuel)) n s (in_right R p red kp vp top) tl tr a ka va z root b above f =
    absurd above.0
