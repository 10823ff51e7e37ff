-- ===== src/Tests/DMapTests.antt =====
-- Concrete runs of the map: three nodes, with the keys 3, 5 and 8 at the objects 11, 12 and 13.
use dogee.Prelude.{
  ℕ, ◌+◌, ◌*◌, ◌^◌, ◌↔◌, List, ◌<◌, ◌≤◌, ◌≡◌, refl, ◌⊎◌, arith, ◌==◌, if◌then◌else◌, some, [], ◌∷◌,
}
use dogee.DMap.Node.{
  Color, red, black, RbtNode, Heap, search, lower_bound, upper_bound, minimum, maximum, destroy,
  successor, predecessor,
}
use dogee.DMap.Tree.{Tree, leaf, node, Holds, IsOrdered, Has, AllKeys}
use dogee.DMap.Search.{Finds, minimum-maximum}
use dogee.DMap.Insert.{
  State, insert, insert_node, descend, attach, attach_below, insert_fix_up, fix_step, fix_left,
  fix_right, recolor_three, case_3_left, case_3_right, left_rotate, left_half, left_rest,
  right_rotate, right_half, right_rest, link_parent, hang_left, hang_right,
}
use dogee.DMap.Zipper.{HoldsAbove, Zipped, top, in_left, go_left_down, times, times_above, one}
use dogee.DMap.Balance.{IsRedBlack, Entry, entries, before, after}
use dogee.DMap.Insertion.{IsMap, Adds, insert_lem}
use dogee.DMap.Height.{search_steps}
use dogee.DMap.Neighbours.{successor-predecessor}
use dogee.DMap.Build.{insert_all, uses, In, insert_all_lem}
use mathlib.Core.Option
use dogee.DMap.Bounds.{LeastOf, bounds_lem}
use dogee.DMap.Destroy.{destroy_deletes_one}

abbrev entry : ℕ → Color → ℕ → ℕ → ℕ → RbtNode
entry k c l r p = record { key = k; value = 10 * k; color = c; left = l; right = r; parent = p }

abbrev three : Heap
three a =
    if a == 11
    then entry 3 red 0 0 12
    else if a == 13
    then entry 8 red 0 0 12
    else entry 5 black 11 13 0

abbrev low : Tree
low = node leaf 11 red 3 30 leaf

abbrev high : Tree
high = node leaf 13 red 8 80 leaf

abbrev tree : Tree
tree = node low 12 black 5 50 high

held : Holds three 0 tree
unfolding Holds
held = (omega arith, refl, (omega arith, refl, tt, tt), (omega arith, refl, tt, tt))

ordered : IsOrdered tree
unfolding IsOrdered AllKeys
ordered = omega arith

finds_8 : search 4 three 12 8 ≡ some 13
unfolding search
finds_8 = refl

minimum-maximum_example :
    ((b : ℕ) × (m : ℕ) × ((minimum 4 three 12 ≡ some b) × Has b m tree × AllKeys (λ x. m ≤ x) tree))
    × ((b : ℕ) × (m : ℕ) × ((maximum 4 three 12 ≡ some b)
          × Has b m tree
          × AllKeys (λ x. x ≤ m) tree))
minimum-maximum_example =
    minimum-maximum 4 three 0 low high 12 black 5 50 held ordered (omega arith)

bounds_lem_example :
    ((a : ℕ) × ((lower_bound 4 three 12 5 ≡ some a)
        × (LeastOf (λ x. 5 ≤ x) a tree ⊎ ((a ≡ 0) × AllKeys (λ x. x < 5) tree))))
    × ((a : ℕ) × ((upper_bound 4 three 12 5 ≡ some a)
          × (LeastOf (λ x. 5 < x) a tree ⊎ ((a ≡ 0) × AllKeys (λ x. x ≤ 5) tree))))
bounds_lem_example = bounds_lem 4 three 0 5 tree held ordered (omega arith)

destroy_deletes_one_example :
    (b : ℕ) × (m : ℕ) × ((destroy 4 three 12 ≡ some (b ∷ [])) × Has b m tree)
destroy_deletes_one_example =
    destroy_deletes_one 4 three 0 low high 12 black 5 50 held (omega arith)

three-IsMap : IsMap three 12 tree
unfolding HoldsAbove times times_above one IsRedBlack held
three-IsMap = record {
  zipped = record { below = held; above = tt; apart = λ z. ground arith };
  rooted = refl;
  is_black = refl;
  height = 1;
  balanced = ((tt, tt, refl, refl), (tt, tt, refl, refl));
  ordered = ordered;
}

search_steps_example :
    (n : ℕ) × (a : ℕ) × ((2 ^ n ≤ 4) × (search (2 * n + 1) three 12 7 ≡ some a) × Finds a 7 tree)
search_steps_example = search_steps three 12 7 tree three-IsMap

-- The key 4 goes below the node 11, and the two red children of the root become black.
insert_lem_example :
    (s : State) × (t' : Tree) × ((insert 5 three 12 14 4 40 ≡ some s)
      × IsMap s.heap s.m_root t'
      × Adds (14, 4, 40) (entries tree) (entries t'))
unfolding times one
insert_lem_example = insert_lem 5 three 12 14 4 40 tree three-IsMap (omega arith) refl (omega arith)

abbrev ascending : List Entry
ascending = (21, 1, 0) ∷ (22, 2, 0) ∷ (23, 3, 0) ∷ (24, 4, 0) ∷ (25, 5, 0) ∷ []

-- Of five keys in their order the second one is the root.
root_of_five : Option.map (λ (r : Heap × ℕ). r.1) (insert_all 7 three 0 ascending) ≡ some 22
unfolding insert_all insert insert_node descend attach attach_below insert_fix_up fix_step fix_left
    fix_right recolor_three case_3_left case_3_right left_rotate left_half left_rest right_rotate
    right_half right_rest link_parent hang_left hang_right
root_of_five = refl

once_each : (w : ℕ) → uses w ((31, 9, 1) ∷ (32, 7, 2) ∷ []) ≤ 1
unfolding one
once_each w = ground arith

none_null : uses 0 ((31, 9, 1) ∷ (32, 7, 2) ∷ []) ≡ 0
unfolding one
none_null = refl

insert_all_lem_example :
    (h' : Heap) × (root : ℕ) × (t : Tree) × ((insert_all 3 three 0 ((31, 9, 1) ∷ (32, 7, 2) ∷ [])
        ≡ some (h', root))
      × IsMap h' root t
      × ((e : Entry) → In e (entries t) ↔ In e ((31, 9, 1) ∷ (32, 7, 2) ∷ [])))
insert_all_lem_example =
    insert_all_lem 3 three ((31, 9, 1) ∷ (32, 7, 2) ∷ []) once_each none_null (omega arith)

at_low : Zipped three (in_left top 12 black 5 50 high) low
at_low = go_left_down three top low high 12 black 5 50 three-IsMap.zipped

successor-predecessor_example : (successor 3 three 11 ≡ some 12) × (predecessor 3 three 11 ≡ some 0)
unfolding entries before after
successor-predecessor_example =
    successor-predecessor 3 three (in_left top 12 black 5 50 high) leaf leaf 11 red 3 30 at_low
      (omega arith) (omega arith)
