-- ===== src/DMap/RedUncle.antt =====
-- The rounds of `insertFixUp` of include/DMap.h in which the uncle is red.
use dogee.Prelude.{ℕ, suc, refl, sym, ◌∙◌}
use dogee.DMap.Node.{red, black}
use dogee.DMap.Tree.{Tree, node}
use dogee.DMap.Insert.{State, recolor_three}
use dogee.DMap.Zipper.{Above, in_left, in_right, Zipped, go_up_left, go_up_right}
use dogee.DMap.Balance.{entries, around, entries-node_left, entries-node_right}
use dogee.DMap.Exit.{Fixed, parent_lem}
use dogee.DMap.FixLeft.{left_case_1, left_red_uncle, left_goes_on}
use dogee.DMap.FixRight.{right_case_1, right_red_uncle, right_goes_on}

-- The uncle `q` is red, and the loop goes on at the grandparent.
pub left_red_outer :
    (fuel n : ℕ) (s : State) (u : Above) (tl tr R ul ur : Tree)
    (a ka va p kp vp g kg vg q kq vq : ℕ)
    → Zipped s.heap
        (in_left (in_left u g black kg vg (node ul q red kq vq ur)) p red kp vp R)
        (node tl a red ka va tr)
    → (Zipped (recolor_three s q p g).heap u (
          node
            (node (node tl a red ka va tr) p black kp vp R)
            g
            red
            kg
            vg
            (node ul q black kq vq ur))
        → Fixed fuel (recolor_three s q p g) g (
            around u (
              entries (
                node
                  (node (node tl a red ka va tr) p black kp vp R)
                  g
                  red
                  kg
                  vg
                  (node ul q black kq vq ur)))))
    → Fixed (suc fuel) s a (
        around
          (in_left (in_left u g black kg vg (node ul q red kq vq ur)) p red kp vp R)
          (entries (node tl a red ka va tr)))
unfolding entries
left_red_outer fuel n s u tl tr R ul ur a ka va p kp vp g kg vg q kq vq z later =
    let zp : Zipped s.heap (in_left u g black kg vg (node ul q red kq vq ur))
        (node (node tl a red ka va tr) p red kp vp R) =
      go_up_left s.heap (in_left u g black kg vg (node ul q red kq vq ur)) (node tl a red ka va tr)
        R p red kp vp z in
    let zg : Zipped s.heap u (
        node (node (node tl a red ka va tr) p red kp vp R) g black kg vg (node ul q red kq vq ur)) =
      go_up_left s.heap u (node (node tl a red ka va tr) p red kp vp R) (node ul q red kq vq ur) g
        black kg vg zp in
    let (s', t, (runs, whole, rooted, is_black, balanced, same)) =
      later (left_case_1 s u p g kp vp kg vg (node tl a red ka va tr) R ul ur q kq vq zg) in
    (
      s',
      t,
      (
        left_goes_on s u p g kp vp kg vg a (node tl a red ka va tr) R (node ul q red kq vq ur) zg
              fuel (recolor_three s q p g) g (parent_lem s.heap p tl tr a red ka va z.below)
              (left_red_uncle s u p g kp vp kg vg a (node tl a red ka va tr) R
                (node ul q red kq vq ur) zg refl)
            ∙ runs,
        whole,
        rooted,
        is_black,
        balanced,
        same
            ∙ sym (
                entries-node_left u (node (node tl a red ka va tr) p red kp vp R)
                  (node ul q red kq vq ur) g black kg vg)
            ∙ sym (
                entries-node_left (in_left u g black kg vg (node ul q red kq vq ur))
                  (node tl a red ka va tr) R p red kp vp),
      ),
    )

-- The uncle `q` is red, and the loop goes on at the grandparent.
pub left_red_inner :
    (fuel n : ℕ) (s : State) (u : Above) (tl tr R ul ur : Tree)
    (a ka va p kp vp g kg vg q kq vq : ℕ)
    → Zipped s.heap
        (in_right R p red kp vp (in_left u g black kg vg (node ul q red kq vq ur)))
        (node tl a red ka va tr)
    → (Zipped (recolor_three s q p g).heap u (
          node
            (node R p black kp vp (node tl a red ka va tr))
            g
            red
            kg
            vg
            (node ul q black kq vq ur))
        → Fixed fuel (recolor_three s q p g) g (
            around u (
              entries (
                node
                  (node R p black kp vp (node tl a red ka va tr))
                  g
                  red
                  kg
                  vg
                  (node ul q black kq vq ur)))))
    → Fixed (suc fuel) s a (
        around
          (in_right R p red kp vp (in_left u g black kg vg (node ul q red kq vq ur)))
          (entries (node tl a red ka va tr)))
unfolding entries
left_red_inner fuel n s u tl tr R ul ur a ka va p kp vp g kg vg q kq vq z later =
    let zp : Zipped s.heap (in_left u g black kg vg (node ul q red kq vq ur))
        (node R p red kp vp (node tl a red ka va tr)) =
      go_up_right s.heap (in_left u g black kg vg (node ul q red kq vq ur)) R
        (node tl a red ka va tr) p red kp vp z in
    let zg : Zipped s.heap u (
        node (node R p red kp vp (node tl a red ka va tr)) g black kg vg (node ul q red kq vq ur)) =
      go_up_left s.heap u (node R p red kp vp (node tl a red ka va tr)) (node ul q red kq vq ur) g
        black kg vg zp in
    let (s', t, (runs, whole, rooted, is_black, balanced, same)) =
      later (left_case_1 s u p g kp vp kg vg R (node tl a red ka va tr) ul ur q kq vq zg) in
    (
      s',
      t,
      (
        left_goes_on s u p g kp vp kg vg a R (node tl a red ka va tr) (node ul q red kq vq ur) zg
              fuel (recolor_three s q p g) g (parent_lem s.heap p tl tr a red ka va z.below)
              (left_red_uncle s u p g kp vp kg vg a R (node tl a red ka va tr)
                (node ul q red kq vq ur) zg refl)
            ∙ runs,
        whole,
        rooted,
        is_black,
        balanced,
        same
            ∙ sym (
                entries-node_left u (node R p red kp vp (node tl a red ka va tr))
                  (node ul q red kq vq ur) g black kg vg)
            ∙ sym (
                entries-node_right (in_left u g black kg vg (node ul q red kq vq ur)) R
                  (node tl a red ka va tr) p red kp vp),
      ),
    )

-- The uncle `q` is red, and the loop goes on at the grandparent.
pub right_red_inner :
    (fuel n : ℕ) (s : State) (u : Above) (tl tr R ul ur : Tree)
    (a ka va p kp vp g kg vg q kq vq : ℕ)
    → Zipped s.heap
        (in_left (in_right (node ul q red kq vq ur) g black kg vg u) p red kp vp R)
        (node tl a red ka va tr)
    → (Zipped (recolor_three s q p g).heap u (
          node
            (node ul q black kq vq ur)
            g
            red
            kg
            vg
            (node (node tl a red ka va tr) p black kp vp R))
        → Fixed fuel (recolor_three s q p g) g (
            around u (
              entries (
                node
                  (node ul q black kq vq ur)
                  g
                  red
                  kg
                  vg
                  (node (node tl a red ka va tr) p black kp vp R)))))
    → Fixed (suc fuel) s a (
        around
          (in_left (in_right (node ul q red kq vq ur) g black kg vg u) p red kp vp R)
          (entries (node tl a red ka va tr)))
unfolding entries
right_red_inner fuel n s u tl tr R ul ur a ka va p kp vp g kg vg q kq vq z later =
    let zp : Zipped s.heap (in_right (node ul q red kq vq ur) g black kg vg u)
        (node (node tl a red ka va tr) p red kp vp R) =
      go_up_left s.heap (in_right (node ul q red kq vq ur) g black kg vg u) (node tl a red ka va tr)
        R p red kp vp z in
    let zg : Zipped s.heap u (
        node (node ul q red kq vq ur) g black kg vg (node (node tl a red ka va tr) p red kp vp R)) =
      go_up_right s.heap u (node ul q red kq vq ur) (node (node tl a red ka va tr) p red kp vp R) g
        black kg vg zp in
    let (s', t, (runs, whole, rooted, is_black, balanced, same)) =
      later (right_case_1 s u p g kp vp kg vg R (node tl a red ka va tr) ul ur q kq vq zg) in
    (
      s',
      t,
      (
        right_goes_on s u p g kp vp kg vg a R (node tl a red ka va tr) (node ul q red kq vq ur) zg
              fuel (recolor_three s q p g) g (parent_lem s.heap p tl tr a red ka va z.below)
              (right_red_uncle s u p g kp vp kg vg a R (node tl a red ka va tr)
                (node ul q red kq vq ur) zg refl)
            ∙ runs,
        whole,
        rooted,
        is_black,
        balanced,
        same
            ∙ sym (
                entries-node_right u (node ul q red kq vq ur)
                  (node (node tl a red ka va tr) p red kp vp R) g black kg vg)
            ∙ sym (
                entries-node_left (in_right (node ul q red kq vq ur) g black kg vg u)
                  (node tl a red ka va tr) R p red kp vp),
      ),
    )

-- The uncle `q` is red, and the loop goes on at the grandparent.
pub right_red_outer :
    (fuel n : ℕ) (s : State) (u : Above) (tl tr R ul ur : Tree)
    (a ka va p kp vp g kg vg q kq vq : ℕ)
    → Zipped s.heap
        (in_right R p red kp vp (in_right (node ul q red kq vq ur) g black kg vg u))
        (node tl a red ka va tr)
    → (Zipped (recolor_three s q p g).heap u (
          node
            (node ul q black kq vq ur)
            g
            red
            kg
            vg
            (node R p black kp vp (node tl a red ka va tr)))
        → Fixed fuel (recolor_three s q p g) g (
            around u (
              entries (
                node
                  (node ul q black kq vq ur)
                  g
                  red
                  kg
                  vg
                  (node R p black kp vp (node tl a red ka va tr))))))
    → Fixed (suc fuel) s a (
        around
          (in_right R p red kp vp (in_right (node ul q red kq vq ur) g black kg vg u))
          (entries (node tl a red ka va tr)))
unfolding entries
right_red_outer fuel n s u tl tr R ul ur a ka va p kp vp g kg vg q kq vq z later =
    let zp : Zipped s.heap (in_right (node ul q red kq vq ur) g black kg vg u)
        (node R p red kp vp (node tl a red ka va tr)) =
      go_up_right s.heap (in_right (node ul q red kq vq ur) g black kg vg u) R
        (node tl a red ka va tr) p red kp vp z in
    let zg : Zipped s.heap u (
        node (node ul q red kq vq ur) g black kg vg (node R p red kp vp (node tl a red ka va tr))) =
      go_up_right s.heap u (node ul q red kq vq ur) (node R p red kp vp (node tl a red ka va tr)) g
        black kg vg zp in
    let (s', t, (runs, whole, rooted, is_black, balanced, same)) =
      later (right_case_1 s u p g kp vp kg vg (node tl a red ka va tr) R ul ur q kq vq zg) in
    (
      s',
      t,
      (
        right_goes_on s u p g kp vp kg vg a (node tl a red ka va tr) R (node ul q red kq vq ur) zg
              fuel (recolor_three s q p g) g (parent_lem s.heap p tl tr a red ka va z.below)
              (right_red_uncle s u p g kp vp kg vg a (node tl a red ka va tr) R
                (node ul q red kq vq ur) zg refl)
            ∙ runs,
        whole,
        rooted,
        is_black,
        balanced,
        same
            ∙ sym (
                entries-node_right u (node ul q red kq vq ur)
                  (node R p red kp vp (node tl a red ka va tr)) g black kg vg)
            ∙ sym (
                entries-node_right (in_right (node ul q red kq vq ur) g black kg vg u) R
                  (node tl a red ka va tr) p red kp vp),
      ),
    )
