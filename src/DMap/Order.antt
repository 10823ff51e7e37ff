-- ===== src/DMap/Order.antt =====
-- A tree is ordered exactly when its entries are sorted, and what an insertion does to sorted entries.
use dogee.Prelude.{ℕ, ◌<◌, ◌≤◌, List, [], ◌∷◌, ◌++◌, arith}
use dogee.DMap.Tree.{Tree, leaf, node, AllKeys, IsOrdered}
use dogee.DMap.Balance.{Entry, entries}

abbrev pub key_of : Entry → ℕ
key_of (a, k, v) = k

abbrev pub AllEntries : (ℕ → Type 0) → List Entry → Type 0
AllEntries P [] = Unit
AllEntries P (e ∷ es) = P (key_of e) × AllEntries P es

abbrev pub IsSorted : List Entry → Type 0
IsSorted [] = Unit
IsSorted (e ∷ es) = AllEntries (λ k. key_of e ≤ k) es × IsSorted es

pub AllEntries-imp :
    (P Q : ℕ → Type 0) (es : List Entry) → ((k : ℕ) → P k → Q k) → AllEntries P es → AllEntries Q es
AllEntries-imp P Q [] f h = tt
AllEntries-imp P Q (e ∷ es) f h = (f (key_of e) h.0, AllEntries-imp P Q es f h.1)

pub AllEntries-append :
    (P : ℕ → Type 0) (xs ys : List Entry)
    → AllEntries P xs
    → AllEntries P ys
    → AllEntries P (xs ++ ys)
AllEntries-append P [] ys hx hy = hy
AllEntries-append P (x ∷ xs) ys hx hy = (hx.0, AllEntries-append P xs ys hx.1 hy)

pub AllEntries-parts :
    (P : ℕ → Type 0) (xs ys : List Entry)
    → AllEntries P (xs ++ ys)
    → AllEntries P xs × AllEntries P ys
AllEntries-parts P [] ys h = (tt, h)
AllEntries-parts P (x ∷ xs) ys h = let (hx, hy) = AllEntries-parts P xs ys h.1 in ((h.0, hx), hy)

-- Two sorted lists with a key between them.
pub IsSorted-append :
    (m : ℕ) (xs ys : List Entry)
    → IsSorted xs
    → IsSorted ys
    → AllEntries (λ k. k ≤ m) xs
    → AllEntries (λ k. m ≤ k) ys
    → IsSorted (xs ++ ys)
IsSorted-append m [] ys sx sy bx by = sy
IsSorted-append m (x ∷ xs) ys sx sy bx by = (
  AllEntries-append (λ k. key_of x ≤ k) xs ys sx.0
      (AllEntries-imp (λ k. m ≤ k) (λ k. key_of x ≤ k) ys (λ k h. omega (arith, h, bx.0)) by),
  IsSorted-append m xs ys sx.1 sy bx.1 by,
)

pub IsSorted-parts : (xs ys : List Entry) → IsSorted (xs ++ ys) → IsSorted xs × IsSorted ys
IsSorted-parts [] ys s = (tt, s)
IsSorted-parts (x ∷ xs) ys s =
    let (sx, sy) = IsSorted-parts xs ys s.1 in
    (((AllEntries-parts (λ k. key_of x ≤ k) xs ys s.0).0, sx), sy)

-- What stands before an entry is not larger.
IsSorted-before :
    (xs ys : List Entry) (e : Entry) → IsSorted (xs ++ (e ∷ ys)) → AllEntries (λ k. k ≤ key_of e) xs
IsSorted-before [] ys e s = tt
IsSorted-before (x ∷ xs) ys e s =
    ((AllEntries-parts (λ k. key_of x ≤ k) xs (e ∷ ys) s.0).1.0, IsSorted-before xs ys e s.1)

pub AllKeys-entries : (P : ℕ → Type 0) (t : Tree) → AllKeys P t → AllEntries P (entries t)
unfolding AllKeys entries
AllKeys-entries P leaf h = tt
AllKeys-entries P (node l a c k v r) (p, hl, hr) =
    AllEntries-append P (entries l) ((a, k, v) ∷ entries r) (AllKeys-entries P l hl)
      (p, AllKeys-entries P r hr)

entries-AllKeys : (P : ℕ → Type 0) (t : Tree) → AllEntries P (entries t) → AllKeys P t
unfolding AllKeys entries
entries-AllKeys P leaf h = tt
entries-AllKeys P (node l a c k v r) h =
    let (hl, hr) = AllEntries-parts P (entries l) ((a, k, v) ∷ entries r) h in
    (hr.0, entries-AllKeys P l hl, entries-AllKeys P r hr.1)

pub entries-IsSorted : (t : Tree) → IsOrdered t → IsSorted (entries t)
unfolding IsOrdered entries
entries-IsSorted leaf o = tt
entries-IsSorted (node l a c k v r) (ol, or, sl, sr) =
    let right_keys = AllKeys-entries (λ x. k ≤ x) r or in
    IsSorted-append k (entries l) ((a, k, v) ∷ entries r) (entries-IsSorted l sl)
      (right_keys, entries-IsSorted r sr) (AllKeys-entries (λ x. x ≤ k) l ol)
      (omega arith, right_keys)

pub IsOrdered-of_entries : (t : Tree) → IsSorted (entries t) → IsOrdered t
unfolding IsOrdered entries
IsOrdered-of_entries leaf s = tt
IsOrdered-of_entries (node l a c k v r) s =
    let (sl, sr) = IsSorted-parts (entries l) ((a, k, v) ∷ entries r) s in
    (
      entries-AllKeys (λ x. x ≤ k) l (IsSorted-before (entries l) (entries r) (a, k, v) s),
      entries-AllKeys (λ x. k ≤ x) r sr.0,
      IsOrdered-of_entries l sl,
      IsOrdered-of_entries r sr.1,
    )

-- A new entry between keys that are not larger and keys that are larger.
pub IsSorted-with :
    (xs ys : List Entry) (e : Entry)
    → IsSorted (xs ++ ys)
    → AllEntries (λ k. k ≤ key_of e) xs
    → AllEntries (λ k. key_of e < k) ys
    → IsSorted (xs ++ (e ∷ ys))
IsSorted-with xs ys e s bx by =
    let (sx, sy) = IsSorted-parts xs ys s in
    let above = AllEntries-imp (λ k. key_of e < k) (λ k. key_of e ≤ k) ys (λ k h. omega arith) by in
    IsSorted-append (key_of e) xs (e ∷ ys) sx (above, sy) bx (omega arith, above)
