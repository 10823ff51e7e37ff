-- ===== src/DMap/Balance.antt =====
-- Red-black trees, and trees with a hole that a red-black tree fills.
use mathlib.Core.List.{append_assoc, append-nil}
use dogee.Prelude.{ℕ, zero, suc, ◌≡◌, refl, sym, ◌∙◌, List, [], ◌∷◌, ◌++◌, ◌⊎◌, inl, inr}
use dogee.DMap.Node.{Color, red, black}
use dogee.DMap.Tree.{Tree, leaf, node}
use dogee.DMap.Zipper.{Above, top, in_left, in_right, plug}

abbrev pub IsBlack : Tree → Type 0
IsBlack leaf = Unit
IsBlack (node l a c k v r) = c ≡ black

-- No red node has a red child, and every way down passes `n` black nodes.
unfoldable pub IsRedBlack : ℕ → Tree → Type 0
IsRedBlack n leaf = n ≡ 0
IsRedBlack n (node l a red k v r) = IsBlack l × IsBlack r × IsRedBlack n l × IsRedBlack n r
IsRedBlack zero (node l a black k v r) = ⊥
IsRedBlack (suc n) (node l a black k v r) = IsRedBlack n l × IsRedBlack n r

-- The parent of the hole is there and black.
abbrev pub IsBlackAbove : Above → Type 0
IsBlackAbove top = ⊥
IsBlackAbove (in_left u a c k v r) = c ≡ black
IsBlackAbove (in_right l a c k v u) = c ≡ black

-- The hole may have a red tree.
abbrev pub TakesRed : Above → Type 0
TakesRed top = Unit
TakesRed (in_left u a c k v r) = c ≡ black
TakesRed (in_right l a c k v u) = c ≡ black

-- The nodes above a hole for a tree of the black height `n`, with no red node at the root.
unfoldable pub IsRedBlackAbove : ℕ → Above → Type 0
IsRedBlackAbove n top = Unit
IsRedBlackAbove n (in_left u a red k v r) =
    IsBlackAbove u × IsBlack r × IsRedBlack n r × IsRedBlackAbove n u
IsRedBlackAbove n (in_left u a black k v r) = IsRedBlack n r × IsRedBlackAbove (suc n) u
IsRedBlackAbove n (in_right l a red k v u) =
    IsBlackAbove u × IsBlack l × IsRedBlack n l × IsRedBlackAbove n u
IsRedBlackAbove n (in_right l a black k v u) = IsRedBlack n l × IsRedBlackAbove (suc n) u

abbrev pub blacken : Tree → Tree
blacken leaf = leaf
blacken (node l a c k v r) = node l a black k v r

pub blacken-IsRedBlack : (n : ℕ) (t : Tree) → IsRedBlack n t → (m : ℕ) × IsRedBlack m (blacken t)
unfolding IsRedBlack
blacken-IsRedBlack n leaf b = (n, b)
blacken-IsRedBlack n (node l a red k v r) b = (suc n, (b.2, b.3))
blacken-IsRedBlack zero (node l a black k v r) b = absurd b
blacken-IsRedBlack (suc n) (node l a black k v r) b = (suc n, b)

TakesRed-of_black : (u : Above) → IsBlackAbove u → TakesRed u
TakesRed-of_black top b = tt
TakesRed-of_black (in_left u a c k v r) b = b
TakesRed-of_black (in_right l a c k v u) b = b

pub plug-IsRedBlack :
    (n : ℕ) (u : Above) (t : Tree)
    → IsRedBlackAbove n u
    → IsRedBlack n t
    → IsBlack t ⊎ TakesRed u
    → (m : ℕ) × IsRedBlack m (plug u t)
unfolding IsRedBlack IsRedBlackAbove
plug-IsRedBlack n top t above b fits = (n, b)
plug-IsRedBlack n (in_left u a red k v r) t above b (inl is_black) =
    plug-IsRedBlack n u (node t a red k v r) above.3 (is_black, above.1, b, above.2)
      (inr (TakesRed-of_black u above.0))
plug-IsRedBlack n (in_left u a red k v r) t above b (inr e) = cc
plug-IsRedBlack n (in_left u a black k v r) t above b fits =
    plug-IsRedBlack (suc n) u (node t a black k v r) above.1 (b, above.0) (inl refl)
plug-IsRedBlack n (in_right l a red k v u) t above b (inl is_black) =
    plug-IsRedBlack n u (node l a red k v t) above.3 (above.1, is_black, above.2, b)
      (inr (TakesRed-of_black u above.0))
plug-IsRedBlack n (in_right l a red k v u) t above b (inr e) = cc
plug-IsRedBlack n (in_right l a black k v u) t above b fits =
    plug-IsRedBlack (suc n) u (node l a black k v t) above.1 (above.0, b) (inl refl)

-- The nodes from left to right, each with its object, its key and its value.
abbrev pub Entry : Type 0
Entry = ℕ × ℕ × ℕ

unfoldable pub entries : Tree → List Entry
entries leaf = []
entries (node l a c k v r) = entries l ++ ((a, k, v) ∷ entries r)

unfoldable pub before : Above → List Entry
before top = []
before (in_left u a c k v r) = before u
before (in_right l a c k v u) = before u ++ (entries l ++ ((a, k, v) ∷ []))

unfoldable pub after : Above → List Entry
after top = []
after (in_left u a c k v r) = (a, k, v) ∷ (entries r ++ after u)
after (in_right l a c k v u) = after u

-- All entries of a tree in its place.
abbrev pub around : Above → List Entry → List Entry
around u es = before u ++ (es ++ after u)

pub entries-node_left :
    (u : Above) (t r : Tree) (a : ℕ) (c : Color) (k v : ℕ)
    → around (in_left u a c k v r) (entries t) ≡ around u (entries (node t a c k v r))
unfolding entries before after
entries-node_left u t r a c k v = simp append_assoc

pub entries-node_right :
    (u : Above) (l t : Tree) (a : ℕ) (c : Color) (k v : ℕ)
    → around (in_right l a c k v u) (entries t) ≡ around u (entries (node l a c k v t))
unfolding entries before after
entries-node_right u l t a c k v = simp append_assoc

pub entries-plug : (u : Above) (t : Tree) → entries (plug u t) ≡ around u (entries t)
unfolding before after
entries-plug top t = simp append-nil
entries-plug (in_left u a c k v r) t =
    entries-plug u (node t a c k v r) ∙ sym (entries-node_left u t r a c k v)
entries-plug (in_right l a c k v u) t =
    entries-plug u (node l a c k v t) ∙ sym (entries-node_right u l t a c k v)

pub blacken-entries : (t : Tree) → entries (blacken t) ≡ entries t
unfolding entries
blacken-entries leaf = refl
blacken-entries (node l a c k v r) = refl

-- A rotation keeps the order.
pub entries-turn :
    (A B C : Tree) (x y : ℕ) (c c' d d' : Color) (k v k' v' : ℕ)
    → entries (node (node A x c k v B) y d k' v' C)
      ≡ entries (node A x c' k v (node B y d' k' v' C))
unfolding entries
entries-turn A B C x y c c' d d' k v k' v' = simp append_assoc

pub entries_recolored :
    (l l' r r' : Tree) (a : ℕ) (c c' : Color) (k v : ℕ)
    → entries l ≡ entries l'
    → entries r ≡ entries r'
    → entries (node l a c k v r) ≡ entries (node l' a c' k v r')
unfolding entries
entries_recolored l l' r r' a c c' k v e f = rw (e, f) refl
