-- ===== src/DMap/Node.antt =====
-- The nodes of include/DMap.h and the calls that read them: `search`, `lowerBound`, `upperBound`,
-- `minimum`, `maximum` and `destroy`. Keys and values are numbers. A recursion or a loop runs on fuel,
-- and `none` means that it has run out.
use dogee.Prelude.{
  ℕ, zero, suc, ◌==◌, ltb, leb, if◌then◌else◌, Bool, ◌||◌, ◌&&◌, not, Option, none, some, List, [],
  ◌∷◌,
}

-- `RBTColor`
pub data Color : Type 0 where
  red : Color
  black : Color

-- `RBTNode`; a reference is the key of an object, and 0 is `nullptr`.
pub record RbtNode : Type 0 where
  pub key : ℕ
  pub value : ℕ
  pub color : Color
  pub left : ℕ
  pub right : ℕ
  pub parent : ℕ

-- The shared objects that are nodes.
abbrev pub Heap : Type 0
Heap = ℕ → RbtNode

unfoldable pub search : ℕ → Heap → ℕ → ℕ → Option ℕ
search zero h x key = none
search (suc fuel) h x key =
    let in_left = search fuel h (h x).left key in
    let in_right = search fuel h (h x).right key in
    if (x == 0) || ((h x).key == key)
    then some x
    else if ltb key (h x).key
    then in_left
    else in_right

-- The recursion that `lowerBound` and `upperBound` share: `reaches` is their test of a key, and `b` what
-- the reference `lb` or `ub` holds.
unfoldable pub bound_from : (ℕ → Bool) → ℕ → Heap → ℕ → ℕ → Option ℕ
bound_from reaches zero h root b = none
bound_from reaches (suc fuel) h root b =
    let in_left = bound_from reaches fuel h (h root).left root in
    let in_right = bound_from reaches fuel h (h root).right b in
    if root == 0 then some b else if reaches (h root).key then in_left else in_right

unfoldable pub lower_bound : ℕ → Heap → ℕ → ℕ → Option ℕ
lower_bound fuel h root key = bound_from (λ k. leb key k) fuel h root 0

unfoldable pub upper_bound : ℕ → Heap → ℕ → ℕ → Option ℕ
upper_bound fuel h root key = bound_from (λ k. ltb key k) fuel h root 0

-- The loops of `minimum` and `maximum`.
unfoldable pub go_left : ℕ → Heap → ℕ → Option ℕ
go_left zero h tree = none
go_left (suc fuel) h tree =
    let next = go_left fuel h (h tree).left in if (h tree).left == 0 then some tree else next

unfoldable pub go_right : ℕ → Heap → ℕ → Option ℕ
go_right zero h tree = none
go_right (suc fuel) h tree =
    let next = go_right fuel h (h tree).right in if (h tree).right == 0 then some tree else next

unfoldable pub minimum : ℕ → Heap → ℕ → Option ℕ
minimum fuel h tree = if tree == 0 then some 0 else go_left fuel h tree

unfoldable pub maximum : ℕ → Heap → ℕ → Option ℕ
maximum fuel h tree = if tree == 0 then some 0 else go_right fuel h tree

-- The loops of `successor` and `predecessor`, from the node `x` with the parent `y`.
unfoldable pub climb_right : ℕ → Heap → ℕ → ℕ → Option ℕ
climb_right zero h x y = none
climb_right (suc fuel) h x y =
    let rest = climb_right fuel h y (h y).parent in
    if not (y == 0) && (x == (h y).right) then rest else some y

unfoldable pub climb_left : ℕ → Heap → ℕ → ℕ → Option ℕ
climb_left zero h x y = none
climb_left (suc fuel) h x y =
    let rest = climb_left fuel h y (h y).parent in
    if not (y == 0) && (x == (h y).left) then rest else some y

unfoldable pub successor : ℕ → Heap → ℕ → Option ℕ
successor fuel h x =
    if (h x).right == 0 then climb_right fuel h x (h x).parent else minimum fuel h (h x).right

unfoldable pub predecessor : ℕ → Heap → ℕ → Option ℕ
predecessor fuel h x =
    if (h x).left == 0 then climb_left fuel h x (h x).parent else maximum fuel h (h x).left

-- `destroy`, with the objects that it gives to `DelObj`, in their order.
unfoldable pub destroy : ℕ → Heap → ℕ → Option (List ℕ)
destroy zero h tree = none
destroy (suc fuel) h tree =
    let left_only = destroy fuel h (h tree).left in
    let right_only = destroy fuel h (h tree).right in
    if tree == 0
    then some []
    else if (h tree).left == 0
    then if (h tree).right == 0 then some (tree ∷ []) else right_only
    else left_only
