-- ===== src/DMap/Exit.antt =====
-- The end of the loop of `insertFixUp` of include/DMap.h.
use dogee.Prelude.{
  ℕ, suc, ◌<◌, ◌≡◌, refl, sym, ap, subst, ◌∙◌, List, inr, ◌==◌, false, not, ◌&&◌, some,
}
use dogee.DMap.Node.{Color, red, black, RbtNode, Heap}
use dogee.DMap.Tree.{Tree, leaf, node, address, Holds, address-not_null}
use dogee.DMap.Insert.{State, set_color, is_red, recolor, insert_fix_up, fix_step}
use dogee.DMap.Zipper.{Above, top, in_left, in_right, up, root_of, HoldsAbove, Zipped, plug}
use dogee.DMap.Recolor.{recolor_lem, zip_up, address-plug}
use dogee.DMap.Balance.{
  IsBlack, IsRedBlack, TakesRed, IsRedBlackAbove, blacken, blacken-IsRedBlack, plug-IsRedBlack,
  Entry, entries, around, entries-plug, blacken-entries,
}

-- The loop ends, and the heap holds a red-black tree with the entries `es` and a black root.
abbrev pub Fixed : ℕ → State → ℕ → List Entry → Type 0
Fixed fuel s a es =
    (s' : State) × (t : Tree) × ((insert_fix_up fuel s a ≡ some s')
      × Zipped s'.heap top t
      × (s'.root ≡ address t)
      × IsBlack t
      × ((m : ℕ) × IsRedBlack m t)
      × (entries t ≡ es))

blacken_root :
    (h : Heap) (t : Tree) → Zipped h top t → Zipped (set_color h (address t) black) top (blacken t)
unfolding Holds HoldsAbove
blacken_root h leaf z = record { below = tt; above = tt; apart = z.apart }
blacken_root h (node l a c k v r) z = recolor_lem h top l r a c black k v z

blacken-IsBlack : (t : Tree) → IsBlack (blacken t)
blacken-IsBlack leaf = tt
blacken-IsBlack (node l a c k v r) = refl

address-blacken : (t : Tree) → address t ≡ address (blacken t)
address-blacken leaf = refl
address-blacken (node l a c k v r) = refl

black_color : (c : Color) → c ≡ black → is_red c ≡ false
black_color red e = cc
black_color black e = refl

-- The test of the loop, with no parent or a black one.
test_fails :
    (h : Heap) (q : ℕ) (u : Above)
    → HoldsAbove h q u
    → TakesRed u
    → (not (up u == 0) && is_red (h (up u)).color) ≡ false
unfolding HoldsAbove
test_fails h q top held takes = refl
test_fails h q (in_left u a c k v r) held takes =
    rw (address-not_null a held.0)
      (ap (λ (n : RbtNode). is_red n.color) held.1 ∙ black_color c takes)
test_fails h q (in_right l a c k v u) held takes =
    rw (address-not_null a held.0)
      (ap (λ (n : RbtNode). is_red n.color) held.1 ∙ black_color c takes)

pub parent_lem :
    (h : Heap) (p : ℕ) (l r : Tree) (a : ℕ) (c : Color) (k v : ℕ)
    → Holds h p (node l a c k v r)
    → (h a).parent ≡ p
unfolding Holds
parent_lem h p l r a c k v held = ap (λ (n : RbtNode). n.parent) held.1

loop_ends :
    (fuel : ℕ) (s : State) (a p : ℕ)
    → (s.heap a).parent ≡ p
    → (not (p == 0) && is_red (s.heap p).color) ≡ false
    → insert_fix_up (suc fuel) s a ≡ some (recolor s s.root black)
unfolding insert_fix_up
loop_ends fuel s a p e test = rw (e, test) refl

pub loop_goes_on :
    (fuel : ℕ) (s : State) (a p : ℕ)
    → (s.heap a).parent ≡ p
    → 0 < p
    → (s.heap p).color ≡ red
    → insert_fix_up (suc fuel) s a ≡ insert_fix_up fuel (fix_step s a p).0 (fix_step s a p).1
unfolding insert_fix_up
loop_goes_on fuel s a p e pos is_r = rw (e, address-not_null p pos, is_r) refl

pub exit_lem :
    (fuel n : ℕ) (s : State) (u : Above) (l r : Tree) (a : ℕ) (c : Color) (k v : ℕ)
    → Zipped s.heap u (node l a c k v r)
    → s.root ≡ root_of u a
    → TakesRed u
    → IsRedBlackAbove n u
    → IsRedBlack n (node l a c k v r)
    → Fixed (suc fuel) s a (around u (entries (node l a c k v r)))
exit_lem fuel n s u l r a c k v z root takes above b =
    let t = plug u (node l a c k v r) in
    let at_root : s.root ≡ address t = root ∙ sym (address-plug u (node l a c k v r)) in
    let whole : Zipped s.heap top t = zip_up s.heap u (node l a c k v r) z in
    let (m, balanced) = plug-IsRedBlack n u (node l a c k v r) above b (inr takes) in
    (
      recolor s s.root black,
      blacken t,
      (
        loop_ends fuel s a (up u) (parent_lem s.heap (up u) l r a c k v z.below)
            (test_fails s.heap a u z.above takes),
        subst (λ q. Zipped (set_color s.heap q black) top (blacken t)) (sym at_root)
            (blacken_root s.heap t whole),
        at_root ∙ address-blacken t,
        blacken-IsBlack t,
        blacken-IsRedBlack m t balanced,
        blacken-entries t ∙ entries-plug u (node l a c k v r),
      ),
    )
