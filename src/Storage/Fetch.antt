-- ===== src/Storage/Fetch.antt =====
-- What `MemcachedGetChunk` of Dogee/DogeeMemcachedStorage.cpp leaves in its buffer.
use native.Mathlib.Decide.{ℕ_discrete}
use dogee.Prelude.{
  ℕ, ◌+◌, ◌-◌, ◌<◌, ◌≤◌, ◌≡◌, refl, sym, ap, ◌∙◌, List, [], ◌∷◌, Option, none, some, true, ◌⊎◌, inl,
  inr, arith, Option-cases,
}
use dogee.Cache.Node.{update}
use dogee.Cache.Sound.{update_self, update_ne}
use dogee.Storage.Memcached.{Item, Among, Memcached, store_items, clear, get_word}

module _ (M : Memcached) where
  open M use {Server, lookup, mget}

  -- The items of an answer hold what the server has, and lie in the range that was asked for.
  Right : Server → ℕ → ℕ → List Item → Type 0
  Right s lo hi items =
      (item : Item)
      → Among item items
      → (lo ≤ item.key) × (item.key < hi) × (lookup s item.key ≡ some item.value)

  pub word_found : (s : Server) (k v : ℕ) → lookup s k ≡ some v → get_word M s k ≡ v
  unfolding get_word
  word_found s k v e = rw (e, get_word) refl

  pub word_same :
      (s s' : Server) (k : ℕ) → lookup s k ≡ lookup s' k → get_word M s k ≡ get_word M s' k
  unfolding get_word
  word_same s s' k e = ap (λ (o : Option ℕ). elim o as (λ x. ℕ) [ none ↦ 0 | some v ↦ v ]) e

  pub word_missing : (s : Server) (k : ℕ) → lookup s k ≡ none → get_word M s k ≡ 0
  unfolding get_word
  word_missing s k e = rw (e, get_word) refl

  module _ (s : Server) (k lo hi y : ℕ) (above : k ≤ lo) where
    stays-Right :
        (items : List Item) (buf : ℕ → ℕ)
        → Right s lo hi items
        → buf y ≡ get_word M s (k + y)
        → store_items items k buf y ≡ get_word M s (k + y)
    unfolding store_items Right
    stays-Right [] buf h e = e
    stays-Right (item ∷ items) buf h e =
        let (l, u, found) = h item (inl refl) in
        stays-Right items (update buf (item.key - k) item.value) (λ i a. h i (inr a))
          (elim (ℕ_discrete y (item.key - k)) [
            | yes same ↦
                let there : k + y ≡ item.key = omega arith in
                ap (update buf (item.key - k) item.value) same
                ∙ update_self buf (item.key - k) item.value
                ∙ sym (word_found s item.key item.value found)
                ∙ ap (get_word M s) (sym there)
            | no other ↦ update_ne buf (item.key - k) y item.value other ∙ e
          ])

    becomes-Right :
        (items : List Item) (buf : ℕ → ℕ) (v : ℕ)
        → Right s lo hi items
        → Among (record { key = k + y; value = v }) items
        → store_items items k buf y ≡ get_word M s (k + y)
    unfolding store_items Right
    becomes-Right [] buf v h a = absurd a
    becomes-Right (item ∷ items) buf v h (inr later) =
        becomes-Right items (update buf (item.key - k) item.value) v (λ i a. h i (inr a)) later
    becomes-Right (item ∷ items) buf v h (inl e) =
        let (l, u, found) = h item (inl refl) in
        let there : k + y ≡ item.key = ap (λ (i : Item). i.key) e in
        let same : y ≡ item.key - k = omega arith in
        stays-Right items (update buf (item.key - k) item.value) (λ i a. h i (inr a))
          (ap (update buf (item.key - k) item.value) same
            ∙ update_self buf (item.key - k) item.value
            ∙ sym (word_found s item.key item.value found)
            ∙ ap (get_word M s) (sym there))

    stays_outside :
        (items : List Item) (buf : ℕ → ℕ)
        → Right s lo hi items
        → (k + y < lo) ⊎ (hi ≤ k + y)
        → store_items items k buf y ≡ buf y
    unfolding store_items Right
    stays_outside [] buf h out = refl
    stays_outside (item ∷ items) buf h out =
        let (l, u, found) = h item (inl refl) in
        stays_outside items (update buf (item.key - k) item.value) (λ i a. h i (inr a)) out
        ∙ update_ne buf (item.key - k) y item.value (λ e. ground (arith, out))

  -- A batch: the words in its range are those of the server, all others are as they were.
  pub batch :
      (s : Server) (k offset n y : ℕ) (buf : ℕ → ℕ)
      → (mget s (k + offset) n).1 ≡ true
      → (offset ≤ y
          → y < offset + n
          → store_items (mget s (k + offset) n).0 k (clear offset n buf) y ≡ get_word M s (k + y))
        × ((y < offset) ⊎ (offset + n ≤ y)
            → store_items (mget s (k + offset) n).0 k (clear offset n buf) y ≡ buf y)
  unfolding Right clear
  batch s k offset n y buf success =
      let items = (mget s (k + offset) n).0 in
      let right : Right s (k + offset) (k + offset + n) items = M.mget_sound s (k + offset) n in
      (
        λ lo hi. elim (Option-cases (lookup s (k + y))) [
          | inl missing ↦
              stays-Right s k (k + offset) (k + offset + n) y (omega arith) items
                (clear offset n buf) right (ground (arith, word_missing s (k + y) missing))
          | inr (v, found) ↦
              becomes-Right s k (k + offset) (k + offset + n) y (omega arith) items
                (clear offset n buf) v right
                (M.mget_complete s (k + offset) n (k + y) v success (omega arith) (omega arith)
                  found)
        ],
        λ out.
            stays_outside s k (k + offset) (k + offset + n) y (omega arith) items
              (clear offset n buf) right (ground (arith, out))
            ∙ ground (arith, out),
      )
