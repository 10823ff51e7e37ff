-- ===== src/Tests/ObjectTests.antt =====
-- Concrete runs of the allocation of identifiers, over a storage that is the list of its keys.
use dogee.Prelude.{ℕ, ◌≡◌, refl, List, [], ◌∷◌, Bool, true, false, ◌==◌, if◌then◌else◌}
use dogee.Objects.Alloc.{
  push_object, delete_object, draw_key, try_keys, alloc_object_id, allocated, aborted,
  alloc_object_id_lem,
}

abbrev has : ℕ → List ℕ → Bool
has key [] = false
has key (k ∷ keys) = let rest = has key keys in if key == k then true else rest

-- The storage accepts a key that it does not have.
abbrev add : ℕ → ℕ → ℕ → List ℕ → Bool × List ℕ
add key cls_id size keys = if has key keys then (false, keys) else (true, key ∷ keys)

-- The key 7 is in use, so that the free key 9 is never asked for.
alloc_object_id_lem_example : alloc_object_id add 1 4 (0 ∷ 7 ∷ 9 ∷ []) (7 ∷ []) (7 ∷ []) ≡ aborted
alloc_object_id_lem_example =
    alloc_object_id_lem add 1 4 1 6 (9 ∷ []) (7 ∷ []) (7 ∷ []) false (7 ∷ []) refl (λ e. refl)

key_accepted :
    alloc_object_id add 1 4 (0 ∷ 9 ∷ []) (7 ∷ []) (7 ∷ []) ≡ allocated 9 (9 ∷ 7 ∷ []) (7 ∷ 9 ∷ [])
unfolding alloc_object_id try_keys draw_key push_object
key_accepted = refl

insert_and_delete : delete_object 5 (push_object 5 (3 ∷ 8 ∷ [])) ≡ 3 ∷ 8 ∷ []
unfolding delete_object push_object
insert_and_delete = refl
