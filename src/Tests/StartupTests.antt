-- ===== src/Tests/StartupTests.antt =====
-- Concrete runs of the split of a string, with 59 for the semicolon.
use dogee.Prelude.{◌≡◌, refl, [], ◌∷◌, arith}
use dogee.Startup.Split.{str_split, split_from, terminate, AreFree, IsFree, str_split-terminate}

-- "a;;b" has an empty item, and no item is behind the last semicolon of "a;".
empty_item : str_split 59 (97 ∷ 59 ∷ 59 ∷ 98 ∷ []) ≡ (97 ∷ []) ∷ [] ∷ (98 ∷ []) ∷ []
unfolding str_split split_from
empty_item = refl

no_last_item : str_split 59 (97 ∷ 59 ∷ []) ≡ (97 ∷ []) ∷ []
unfolding str_split split_from
no_last_item = refl

a_free : AreFree 59 ((97 ∷ []) ∷ [] ∷ [])
unfolding AreFree IsFree
a_free = ((omega arith, tt), (tt, tt))

str_split-terminate_example :
    str_split 59 (terminate 59 ((97 ∷ []) ∷ [] ∷ [])) ≡ (97 ∷ []) ∷ [] ∷ []
str_split-terminate_example = str_split-terminate 59 ((97 ∷ []) ∷ [] ∷ []) a_free
