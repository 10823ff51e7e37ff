-- ===== src/DMap/Insert.antt =====
-- The insertion of include/DMap.h: `leftRotate`, `rightRotate`, `insertFixUp`, `insertNode` and `insert`.
use dogee.Prelude.{
  ℕ, zero, suc, ◌==◌, ltb, if◌then◌else◌, Bool, true, false, not, ◌&&◌, Option, none, some,
}
use dogee.Cache.Node.{update}
use dogee.DMap.Node.{Color, red, black, Heap}

-- The nodes, the variable `root` that the calls pass on by reference, and the field `mRoot`.
pub record State : Type 0 where
  pub heap : Heap
  pub root : ℕ
  pub m_root : ℕ

abbrev pub set_left : Heap → ℕ → ℕ → Heap
set_left h a v = update h a (record (h a) { left = v })

abbrev pub set_right : Heap → ℕ → ℕ → Heap
set_right h a v = update h a (record (h a) { right = v })

abbrev pub set_parent : Heap → ℕ → ℕ → Heap
set_parent h a v = update h a (record (h a) { parent = v })

abbrev pub set_color : Heap → ℕ → Color → Heap
set_color h a c = update h a (record (h a) { color = c })

-- `if (b != nullptr) b->parent = x`
unfoldable pub link_parent : Heap → ℕ → ℕ → Heap
link_parent h b x = if b == 0 then h else set_parent h b x

-- The parent `p` of `x` takes `y` in its place, as `leftRotate` writes it and as `rightRotate` does.
unfoldable pub hang_left : Heap → ℕ → ℕ → ℕ → Heap
hang_left h p x y =
    if p == 0 then h else if (h p).left == x then set_left h p y else set_right h p y

unfoldable pub hang_right : Heap → ℕ → ℕ → ℕ → Heap
hang_right h p x y =
    if p == 0 then h else if x == (h p).right then set_right h p y else set_left h p y

-- `leftRotate` up to the parent of `y`: `x` takes the left child `yv` of `y`.
unfoldable pub left_half : Heap → ℕ → ℕ → ℕ → Heap
left_half h x y yv = let h1 = set_right h x yv in link_parent h1 (h1 y).left x

-- The rest of it, where `xv` is the parent of `x`.
unfoldable pub left_rest : State → Heap → ℕ → ℕ → ℕ → State
left_rest s h x y xv =
    let hung = hang_left (set_parent h y xv) xv x y in
    record {
      heap = set_parent (set_left hung y x) x y;
      root = if xv == 0 then y else s.root;
      m_root = if xv == 0 then y else s.m_root;
    }

unfoldable pub left_rotate : State → ℕ → State
left_rotate s x =
    let y = (s.heap x).right in
    let h = left_half s.heap x y (s.heap y).left in left_rest s h x y (h x).parent

-- `rightRotate` is the same with the sides exchanged; the source names the nodes the other way round.
unfoldable pub right_half : Heap → ℕ → ℕ → ℕ → Heap
right_half h y x tempv = let h1 = set_left h y tempv in link_parent h1 (h1 x).right y

unfoldable pub right_rest : State → Heap → ℕ → ℕ → ℕ → State
right_rest s h y x yv =
    let hung = hang_right (set_parent h x yv) yv y x in
    record {
      heap = set_parent (set_right hung x y) y x;
      root = if yv == 0 then x else s.root;
      m_root = if yv == 0 then x else s.m_root;
    }

unfoldable pub right_rotate : State → ℕ → State
right_rotate s y =
    let x = (s.heap y).left in
    let h = right_half s.heap y x (s.heap x).right in right_rest s h y x (h y).parent

abbrev pub is_red : Color → Bool
is_red red = true
is_red black = false

abbrev pub recolor : State → ℕ → Color → State
recolor s a c = record s { heap = set_color s.heap a c }

-- Case 1 of `insertFixUp`: the uncle is red.
unfoldable pub recolor_three : State → ℕ → ℕ → ℕ → State
recolor_three s uncle parent gparent =
    recolor (recolor (recolor s uncle black) parent black) gparent red

-- Case 3, with the rotation of its side.
unfoldable pub case_3_left : State → ℕ → ℕ → State
case_3_left s parent gparent = right_rotate (recolor (recolor s parent black) gparent red) gparent

unfoldable pub case_3_right : State → ℕ → ℕ → State
case_3_right s parent gparent = left_rotate (recolor (recolor s parent black) gparent red) gparent

-- The body of the loop where the parent is a left child, and where it is not: the state and the node for
-- the next round. In case 2 the node and its parent change places.
unfoldable pub fix_left : State → ℕ → ℕ → ℕ → State × ℕ
fix_left s node parent gparent =
    let uncle = (s.heap gparent).right in
    if not (uncle == 0) && is_red (s.heap uncle).color
    then (recolor_three s uncle parent gparent, gparent)
    else if (s.heap parent).right == node
    then (case_3_left (left_rotate s parent) node gparent, parent)
    else (case_3_left s parent gparent, node)

unfoldable pub fix_right : State → ℕ → ℕ → ℕ → State × ℕ
fix_right s node parent gparent =
    let uncle = (s.heap gparent).left in
    if not (uncle == 0) && is_red (s.heap uncle).color
    then (recolor_three s uncle parent gparent, gparent)
    else if (s.heap parent).left == node
    then (case_3_right (right_rotate s parent) node gparent, parent)
    else (case_3_right s parent gparent, node)

unfoldable pub fix_step : State → ℕ → ℕ → State × ℕ
fix_step s node parent =
    let gparent = (s.heap parent).parent in
    if parent == (s.heap gparent).left
    then fix_left s node parent gparent
    else fix_right s node parent gparent

-- The loop runs on fuel, and `none` means that it has run out.
unfoldable pub insert_fix_up : ℕ → State → ℕ → Option State
insert_fix_up zero s node = none
insert_fix_up (suc fuel) s node =
    let parent = (s.heap node).parent in
    let next = fix_step s node parent in
    let rest = insert_fix_up fuel next.0 next.1 in
    if not (parent == 0) && is_red (s.heap parent).color
    then rest
    else some (recolor s s.root black)

-- The descent of `insertNode`: the last node before `nullptr`.
unfoldable pub descend : ℕ → Heap → ℕ → ℕ → ℕ → Option ℕ
descend zero h key y x = none
descend (suc fuel) h key y x =
    let in_left = descend fuel h key x (h x).left in
    let in_right = descend fuel h key x (h x).right in
    if x == 0 then some y else if ltb key (h x).key then in_left else in_right

-- `insertNode` makes the new node a child of `y`.
unfoldable pub attach_below : Heap → ℕ → ℕ → Heap
attach_below h y node =
    if y == 0
    then h
    else if ltb (h node).key (h y).key
    then set_left h y node
    else set_right h y node

-- What `insertNode` writes before the tree is balanced.
unfoldable pub attach : State → ℕ → ℕ → State
attach s y node = record s {
  heap = set_color (attach_below (set_parent s.heap node y) y node) node red;
  root = if y == 0 then node else s.root;
}

unfoldable pub insert_node : ℕ → State → ℕ → Option State
insert_node fuel s node = elim (descend fuel s.heap (s.heap node).key 0 s.root) [
  | none ↦ none
  | some y ↦ insert_fix_up fuel (attach s y node) node
]

-- `insert` with the object `z` that `NewObj` returns.
unfoldable pub insert : ℕ → Heap → ℕ → ℕ → ℕ → ℕ → Option State
insert fuel h m_root z key value =
    let h1 =
      update h z
        (record { key = key; value = value; color = black; left = 0; right = 0; parent = 0 }) in
    elim (insert_node fuel (record { heap = h1; root = m_root; m_root = m_root }) z) [
      | none ↦ none
      | some s ↦ some (record s { m_root = s.root })
    ]
