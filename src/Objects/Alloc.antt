-- ===== src/Objects/Alloc.antt =====
-- `AllocObjectId` and the list `object_list` of Dogee/DogeeShared.cpp. `rand` is the list of the numbers
-- that it gives from now on; `newobj` is the virtual function of the storage backend.
use dogee.Prelude.{
  ℕ, zero, suc, ◌≡◌, refl, ap, ◌∙◌, List, [], ◌∷◌, ◌++◌, Option, none, some, Bool, true, false,
  length, replicate, ◌==◌, ltb, if◌then◌else◌,
}

abbrev pub max_shared_key_tries : ℕ
max_shared_key_tries = 200

-- `object_list`, a set in the order of its keys.
unfoldable pub push_object : ℕ → List ℕ → List ℕ
push_object key [] = key ∷ []
push_object key (k ∷ objects) =
    let rest = push_object key objects in
    if key == k then k ∷ objects else if ltb key k then key ∷ k ∷ objects else (k ∷ rest)

unfoldable pub delete_object : ℕ → List ℕ → List ℕ
delete_object key [] = []
delete_object key (k ∷ objects) =
    let rest = delete_object key objects in if key == k then objects else (k ∷ rest)

abbrev pub get_object_number : List ℕ → ℕ
get_object_number objects = length objects

-- The loop `while (key == 0) key = rand()`: the key that ends it, and the numbers not yet drawn.
unfoldable pub draw_key : ℕ → List ℕ → Option (ℕ × List ℕ)
draw_key (suc key) draws = some (suc key, draws)
draw_key zero [] = none
draw_key zero (drawn ∷ draws) = draw_key drawn draws

-- How a call ends: with a key, by `abort`, or still in the loop when `rand` has given only zeros.
pub data Allocation (Store : Type 0) : Type 0 where
  allocated : ℕ → Store → List ℕ → Allocation Store
  aborted : Allocation Store
  drawing : Allocation Store

module _ {Store : Type 0} (newobj : ℕ → ℕ → ℕ → Store → Bool × Store) (cls_id size : ℕ) where
  -- The loop over `i`, of which `n` rounds are left.
  unfoldable pub try_keys : ℕ → ℕ → List ℕ → Store → List ℕ → Allocation Store
  try_keys zero key draws s objects = aborted
  try_keys (suc n) key draws s objects = elim (draw_key key draws) [
    | none ↦ drawing
    | some (k, rest) ↦
        let (ok, s') = newobj k cls_id size s in
        let again = try_keys n k rest s' objects in
        if ok then allocated k s' (push_object k objects) else again
  ]

  unfoldable pub alloc_object_id : List ℕ → Store → List ℕ → Allocation Store
  alloc_object_id draws s objects = try_keys max_shared_key_tries 0 draws s objects

zeros_drawn :
    (z key : ℕ) (draws : List ℕ)
    → draw_key 0 (replicate z 0 ++ (suc key ∷ draws)) ≡ some (suc key, draws)
unfolding draw_key
zeros_drawn zero key draws = refl
zeros_drawn (suc z) key draws = zeros_drawn z key draws

module _ {Store : Type 0} (newobj : ℕ → ℕ → ℕ → Store → Bool × Store) (cls_id size : ℕ) where
  refused_again :
      (n key : ℕ) (draws : List ℕ) (s : Store) (objects : List ℕ)
      → newobj (suc key) cls_id size s ≡ (false, s)
      → try_keys newobj cls_id size n (suc key) draws s objects ≡ aborted
  unfolding try_keys draw_key
  refused_again zero key draws s objects h = refl
  refused_again (suc n) key draws s objects h = rw h (refused_again n key draws s objects h)

  key_answered :
      (n key key' : ℕ) (draws rest : List ℕ) (s s' : Store) (ok : Bool) (objects : List ℕ)
      → draw_key key draws ≡ some (key', rest)
      → newobj key' cls_id size s ≡ (ok, s')
      → try_keys newobj cls_id size (suc n) key draws s objects ≡ (
          if ok
          then allocated key' s' (push_object key' objects)
          else try_keys newobj cls_id size n key' rest s' objects)
  unfolding try_keys
  key_answered n key key' draws rest s s' ok objects d h = rw (d, h, try_keys) refl

  -- AllocObjectId asks the storage for the first number that `rand` gives and that is not 0, and for no
  -- other: it returns this key, which is then in the list of objects, if the storage accepts it, and it
  -- aborts if the storage refuses it, as it does again and again. The storage does not change when it
  -- refuses a key, and `rand` gives such a number.
  pub alloc_object_id_lem :
      (z key : ℕ) (draws : List ℕ) (s s' : Store) (ok : Bool) (objects : List ℕ)
      → newobj (suc key) cls_id size s ≡ (ok, s')
      → (ok ≡ false → s' ≡ s)
      → alloc_object_id newobj cls_id size (replicate z 0 ++ (suc key ∷ draws)) s objects
        ≡ (if ok then allocated (suc key) s' (push_object (suc key) objects) else aborted)
  unfolding alloc_object_id
  alloc_object_id_lem z key draws s s' true objects h same =
      key_answered 199 0 (suc key) (replicate z 0 ++ (suc key ∷ draws)) draws s s' true objects
        (zeros_drawn z key draws) h
  alloc_object_id_lem z key draws s s' false objects h same =
      key_answered 199 0 (suc key) (replicate z 0 ++ (suc key ∷ draws)) draws s s' false objects
        (zeros_drawn z key draws) h
      ∙ ap (λ t. try_keys newobj cls_id size 199 (suc key) draws t objects) (same refl)
      ∙ refused_again 199 key draws s objects (h ∙ ap (λ (t : Store). (false, t)) (same refl))
