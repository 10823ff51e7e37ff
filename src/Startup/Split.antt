-- ===== src/Startup/Split.antt =====
-- `str_split` of Dogee/DogeeShared.cpp, over strings as lists of the codes of their characters.
use dogee.Prelude.{
  ℕ, ◌≡◌, ◌≢◌, refl, ap, sym, ◌∙◌, List, [], ◌∷◌, ◌++◌, false, arith, ◌==◌, if◌then◌else◌, ==_iff,
}

module _ (delim : ℕ) where
  -- The loop on `getline`, in the middle of an item of which `item` has been read. At the end of the string
  -- `getline` fails if it has read no character.
  unfoldable pub split_from : List ℕ → List ℕ → List (List ℕ)
  split_from [] [] = []
  split_from (c ∷ item) [] = (c ∷ item) ∷ []
  split_from item (c ∷ s) =
      let ends = split_from [] s in
      let goes_on = split_from (item ++ (c ∷ [])) s in if c == delim then item ∷ ends else goes_on

  unfoldable pub str_split : List ℕ → List (List ℕ)
  str_split s = split_from [] s

  -- The items, each with the delimiter behind it.
  unfoldable pub terminate : List (List ℕ) → List ℕ
  terminate [] = []
  terminate (item ∷ items) = item ++ (delim ∷ terminate items)

  unfoldable pub IsFree : List ℕ → Type 0
  IsFree [] = Unit
  IsFree (c ∷ s) = (c ≢ delim) × IsFree s

  unfoldable pub AreFree : List (List ℕ) → Type 0
  AreFree [] = Unit
  AreFree (item ∷ items) = IsFree item × AreFree items

  append_assoc : (xs ys zs : List ℕ) → (xs ++ ys) ++ zs ≡ xs ++ (ys ++ zs)
  append_assoc [] ys zs = refl
  append_assoc (x ∷ xs) ys zs = ap (λ r. x ∷ r) (append_assoc xs ys zs)

  split_ends : (item s : List ℕ) → split_from item (delim ∷ s) ≡ item ∷ split_from [] s
  unfolding split_from
  split_ends [] s = rw ((==_iff delim delim).1 refl) refl
  split_ends (c ∷ item) s = rw ((==_iff delim delim).1 refl) refl

  ==-false : (a b : ℕ) → a ≢ b → (a == b) ≡ false
  ==-false a b h = ground arith

  split_goes_on :
      (item s : List ℕ) (c : ℕ)
      → c ≢ delim
      → split_from item (c ∷ s) ≡ split_from (item ++ (c ∷ [])) s
  unfolding split_from
  split_goes_on [] s c ne = rw (==-false c delim ne) refl
  split_goes_on (d ∷ item) s c ne = rw (==-false c delim ne) refl

  append_nil : (xs : List ℕ) → xs ++ [] ≡ xs
  append_nil [] = refl
  append_nil (x ∷ xs) = ap (λ r. x ∷ r) (append_nil xs)

  item_read :
      (read item s : List ℕ)
      → IsFree item
      → split_from read (item ++ (delim ∷ s)) ≡ (read ++ item) ∷ split_from [] s
  unfolding IsFree
  item_read read [] s free =
      split_ends read s ∙ ap (λ r. r ∷ split_from [] s) (sym (append_nil read))
  item_read read (c ∷ item) s (ne, free) =
      split_goes_on read (item ++ (delim ∷ s)) c ne
      ∙ item_read (read ++ (c ∷ [])) item s free
      ∙ ap (λ r. r ∷ split_from [] s) (append_assoc read (c ∷ []) item)

  -- str_split finds all items again, the empty ones too, in a string that has the delimiter behind each
  -- item. The items do not contain the delimiter.
  pub str_split-terminate :
      (items : List (List ℕ)) → AreFree items → str_split (terminate items) ≡ items
  unfolding str_split split_from terminate AreFree
  str_split-terminate [] free = refl
  str_split-terminate (item ∷ items) (first, rest) =
      item_read [] item (terminate items) first
      ∙ ap (λ r. item ∷ r) (str_split-terminate items rest)
