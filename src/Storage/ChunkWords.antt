-- ===== src/Storage/ChunkWords.antt =====
-- The words of a chunk, and the loop of `putchunk` of `SoStorageChunkMemcached`
-- (Dogee/DogeeMemcachedStorage.cpp) that puts some of them into a block.
use dogee.Prelude.{
  ℕ, zero, suc, ◌+◌, ◌-◌, ◌*◌, ◌%◌, ◌<◌, ◌≤◌, ◌≡◌, refl, sym, ap, ◌∙◌, List, [], ◌∷◌, true, false,
  length, get_or, take, drop, ltb, ◌⊎◌, inl, inr, arith, get_or-take, get_or-drop, length-take,
  length-drop,
}
use dogee.Cache.Backend.{copy}
use dogee.Cache.Node.{update}
use dogee.Storage.Words.{copy-cons}
use dogee.Storage.Blocks.{fill}

-- Writing the words of a list in two parts.
pub copy-append :
    (n m a b : ℕ) (v : List ℕ) (w : ℕ → ℕ) (x : ℕ)
    → n + m ≤ length v
    → b ≡ a + n
    → copy b (take m (drop n v)) (λ y. copy a (take n v) w y) x ≡ copy a (take (n + m) v) w x
unfolding copy
copy-append n m a b v w x le e =
    let t = length-take n v (omega arith) in
    let d = length-drop n v in
    let t' = length-take m (drop n v) (omega arith) in
    let t'' = length-take (n + m) v le in
    elim (two_cases x a (a + n) (a + n + m)) [
      | inl (low, early) ↦
          let g = get_or-take n (x - a) v 0 (omega arith) in
          let g' = get_or-take (n + m) (x - a) v 0 (omega arith) in ground arith
      | inr (inl (late, below)) ↦
          let there : n + (x - b) ≡ x - a = omega arith in
          let g = get_or-take m (x - b) (drop n v) 0 (omega arith) in
          let g1 = get_or-drop n (x - b) v 0 ∙ ap (λ i. get_or v i 0) there in
          let g' = get_or-take (n + m) (x - a) v 0 (omega arith) in ground arith
      | inr (inr out) ↦ ground (arith, out)
    ]
  where
    two_cases :
        (x p q r : ℕ)
        → ((p ≤ x) × (x < q)) ⊎ (((q ≤ x) × (x < r)) ⊎ ((x < p) ⊎ ((q ≤ x) × (r ≤ x))))
    two_cases x p q r = ground arith

-- Words written in a block, seen from the address of the block.
pub copy_shift :
    (a off : ℕ) (v : List ℕ) (w : ℕ → ℕ) (y : ℕ)
    → copy off v (λ z. w (a + z)) y ≡ copy (a + off) v w (a + y)
unfolding copy
copy_shift a off v w y = let e : (a + y) - (a + off) ≡ y - off = omega arith in rw e (ground arith)

pub copy_nothing : (a : ℕ) (w : ℕ → ℕ) (x : ℕ) → copy a [] w x ≡ w x
unfolding copy
copy_nothing a w x = ground arith

fill_stop :
    (i stop v : ℕ) (buf : List ℕ) (var : ℕ → ℕ)
    → ltb i stop ≡ false
    → fill i stop (v ∷ buf) var ≡ (var, v ∷ buf)
unfolding fill
fill_stop i stop v buf var e = rw e refl

fill_step :
    (i stop v : ℕ) (buf : List ℕ) (var : ℕ → ℕ)
    → ltb i stop ≡ true
    → fill i stop (v ∷ buf) var ≡ fill (suc i) stop buf (update var (i % 32) v)
unfolding fill
fill_step i stop v buf var e = rw (e, fill) refl

-- The words up to `stop`, which lies in the block `b` or is its end.
pub fill_lem :
    (n i stop b o : ℕ) (buf : List ℕ) (var : ℕ → ℕ) (y : ℕ)
    → i ≡ b * 32 + o
    → (i + n ≡ stop) ⊎ ((i + n ≤ stop) × (n ≡ length buf))
    → n ≤ length buf
    → o + n ≤ 32
    → ((fill i stop buf var).0 y ≡ copy o (take n buf) var y)
      × ((fill i stop buf var).1 ≡ drop n buf)
fill_lem zero i stop b o [] var y at e le fits =
    (unfold fill in sym (copy_nothing o var y), unfold fill in refl)
fill_lem zero i stop b o (v ∷ buf) var y at e le fits =
    let f = fill_stop i stop v buf var (ground (arith, e)) in
    (ap (λ r. r.0 y) f ∙ sym (copy_nothing o var y), ap (λ r. r.1) f)
fill_lem (suc n) i stop b o [] var y at e le fits = absurd (omega arith)
fill_lem (suc n) i stop b o (v ∷ buf) var y at e le fits =
    let here : i % 32 ≡ o = omega arith in
    let f =
      fill_step i stop v buf var (ground (arith, e))
      ∙ ap (λ m. fill (suc i) stop buf (update var m v)) here in
    let (first, second) =
      fill_lem n (suc i) stop b (suc o) buf (update var o v) y (omega arith)
        (elim e [ inl p ↦ inl (omega arith) | inr (p, q) ↦ inr (omega arith, omega arith) ])
        (omega arith) (omega arith) in
    (ap (λ r. r.0 y) f ∙ first ∙ copy-cons o v (take n buf) var y, ap (λ r. r.1) f ∙ second)
