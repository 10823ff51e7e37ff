-- ===== src/DMap/Insertion.antt =====
-- `insert` of include/DMap.h as a whole.
use mathlib.Core.List.{append-nil}
use dogee.Prelude.{
  ℕ, ◌+◌, ◌<◌, ◌≤◌, ◌≡◌, refl, sym, ap, subst, ◌∙◌, arith, List, [], ◌∷◌, ◌++◌, some, inl,
}
use dogee.Cache.Node.{update}
use dogee.Cache.Sound.{update_self}
use dogee.DMap.Node.{red, Heap}
use dogee.DMap.Tree.{Tree, leaf, node, address, size, IsOrdered}
use dogee.DMap.Insert.{State, attach, descend, insert_fix_up, insert_node, insert}
use dogee.DMap.Zipper.{Above, top, up, times, times_above, HoldsAbove, Zipped}
use dogee.DMap.Writes.{Holds-write}
use dogee.DMap.Balance.{IsBlack, IsRedBlack, IsRedBlackAbove, Entry, entries, before, after, around}
use dogee.DMap.Order.{
  key_of, AllEntries, entries-IsSorted, IsOrdered-of_entries, IsSorted, IsSorted-with,
}
use dogee.DMap.FixUp.{fix_up_lem}
use dogee.DMap.Descend.{IsPlace, descend_lem}
use dogee.DMap.Attach.{new_node, attach_lem}

-- The heap holds a map with the nodes of the tree: a red-black tree in the order of its keys, with a black
-- root.
pub record IsMap (h : Heap) (root : ℕ) (t : Tree) : Type 0 where
  pub zipped : Zipped h top t
  pub rooted : root ≡ address t
  pub is_black : IsBlack t
  pub height : ℕ
  pub balanced : IsRedBlack height t
  pub ordered : IsOrdered t

-- The entry `e` is added behind all entries whose key is not larger, and before all others.
pub record Adds (e : Entry) (old new : List Entry) : Type 0 where
  pub front : List Entry
  pub back : List Entry
  pub old_parts : old ≡ front ++ back
  pub new_parts : new ≡ front ++ (e ∷ back)
  pub front_keys : AllEntries (λ k. k ≤ key_of e) front
  pub back_keys : AllEntries (λ k. key_of e < k) back

insert_node_runs :
    (fuel z y key : ℕ) (s s' : State)
    → (s.heap z).key ≡ key
    → descend fuel s.heap key 0 s.root ≡ some y
    → insert_fix_up fuel (attach s y z) z ≡ some s'
    → insert_node fuel s z ≡ some s'
unfolding insert_node
insert_node_runs fuel z y key s s' e d f = rw (e, d, insert_node) f

-- The state in which `insert` calls `insertNode`.
abbrev begun : Heap → ℕ → ℕ → ℕ → ℕ → State
begun h root z key value = record {
  heap = update h z (new_node key value);
  root = root;
  m_root = root;
}

insert_runs :
    (fuel : ℕ) (h : Heap) (root z key value : ℕ) (s : State)
    → insert_node fuel (begun h root z key value) z ≡ some s
    → insert fuel h root z key value ≡ some (record s { m_root = s.root })
unfolding insert
insert_runs fuel h root z key value s e = rw (e, insert) refl

new_leaf : (z key value : ℕ) → IsRedBlack 0 (node leaf z red key value leaf)
unfolding IsRedBlack
new_leaf z key value = (tt, tt, refl, refl)

with_new :
    (u : Above) (z key value : ℕ)
    → around u (entries (node leaf z red key value leaf)) ≡ before u ++ ((z, key, value) ∷ after u)
unfolding entries
with_new u z key value = refl

-- The order of the old tree carries over to the tree with one more entry.
adds_lem :
    (u : Above) (t t' : Tree) (z key value : ℕ)
    → IsOrdered t
    → around u [] ≡ around top (entries t)
    → entries t' ≡ before u ++ ((z, key, value) ∷ after u)
    → AllEntries (λ k. k ≤ key) (before u)
    → AllEntries (λ k. key < k) (after u)
    → IsOrdered t' × Adds (z, key, value) (entries t) (entries t')
unfolding before after
adds_lem u t t' z key value ordered same new smaller larger =
    let old : entries t ≡ before u ++ after u = sym (same ∙ append-nil (entries t)) in
    (
      IsOrdered-of_entries t' (
          subst IsSorted (sym new) (
            IsSorted-with (before u) (after u) (z, key, value)
              (subst IsSorted old (entries-IsSorted t ordered)) smaller larger)),
      record {
        front = before u;
        back = after u;
        old_parts = old;
        new_parts = new;
        front_keys = smaller;
        back_keys = larger;
      },
    )

begun-IsPlace :
    (h : Heap) (t : Tree) (root z key value n : ℕ)
    → Zipped h top t
    → times z t ≡ 0
    → IsPlace (begun h root z key value).heap key top n t
unfolding HoldsAbove IsRedBlackAbove before after
begun-IsPlace h t root z key value n zip fresh = record {
  zipped = record {
    below = Holds-write h z 0 (new_node key value) t fresh zip.below;
    above = tt;
    apart = zip.apart;
  };
  balanced = tt;
  smaller = tt;
  larger = tt;
  side = tt;
}

-- `insert` ends with more fuel than the tree has nodes, by two at least. The heap holds a map again, and its
-- entries are the old ones and the new one, which stands behind the keys that are not larger and before the
-- larger ones. The heap holds a map before, and the new object is not one of its nodes.
pub insert_lem :
    (fuel : ℕ) (h : Heap) (root z key value : ℕ) (t : Tree)
    → IsMap h root t
    → 0 < z
    → times z t ≡ 0
    → size t + 2 ≤ fuel
    → (s : State) × (t' : Tree) × ((insert fuel h root z key value ≡ some s)
        × IsMap s.heap s.m_root t'
        × Adds (z, key, value) (entries t) (entries t'))
unfolding times times_above
insert_lem fuel h root z key value t m pos fresh f =
    let s1 = begun h (address t) z key value in
    let (u, (down, place, at_root, same, deep, nodes)) =
      descend_lem fuel m.height s1.heap key top t
        (begun-IsPlace h t (address t) z key value m.height m.zipped fresh) m.balanced
        (inl m.is_black) m.ordered (omega arith) in
    let at_z : s1.heap z ≡ new_node key value = update_self h z (new_node key value) in
    let (z2, root2) =
      attach_lem s1 u z key value place.zipped pos (omega (arith, nodes z)) at_z place.side
        (sym at_root) in
    let (s', t', (fixed, whole, rooted, is_black, (height, balanced), new)) =
      fix_up_lem fuel 0 (attach s1 (up u) z) u leaf leaf z key value z2 root2 (new_leaf z key value)
        place.balanced (omega arith) in
    let (ordered, adds) =
      adds_lem u t t' z key value m.ordered same (new ∙ with_new u z key value) place.smaller
        place.larger in
    (
      record s' { m_root = s'.root },
      t',
      (
        subst (λ r. insert fuel h r z key value ≡ some (record s' { m_root = s'.root }))
            (sym m.rooted)
            (insert_runs fuel h (address t) z key value s'
              (insert_node_runs fuel z (up u) key s1 s' (ap (λ n. n.key) at_z) down fixed)),
        record {
          zipped = whole;
          rooted = rooted;
          is_black = is_black;
          height = height;
          balanced = balanced;
          ordered = ordered;
        },
        adds,
      ),
    )
