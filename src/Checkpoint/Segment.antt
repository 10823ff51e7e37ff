-- ===== src/Checkpoint/Segment.antt =====
-- The chunks of the loops of `DumpSharedMemory` and `RestoreSharedMemory` of Dogee/DogeeCheckpoint.cpp, as
-- pieces of the words of an object.
use dogee.Prelude.{
  ℕ, zero, suc, ◌+◌, ◌-◌, ◌%◌, ◌<◌, ◌≤◌, ◌≡◌, refl, ap, ◌∙◌, List, [], ◌∷◌, ◌++◌, Bool-cases,
  length, get_or, inl, inr, ltb, ◌⊎◌, arith,
}
use dogee.Checkpoint.Dump.{the_size}

pub ltb-cases : (a b : ℕ) → (a < b) ⊎ (b ≤ a)
ltb-cases a b = ground arith

-- The `n` words of the function `f` from `i` on.
unfoldable pub segment : (ℕ → ℕ) → ℕ → ℕ → List ℕ
segment f i zero = []
segment f i (suc n) = f i ∷ segment f (suc i) n

pub segment-length : (f : ℕ → ℕ) (i n : ℕ) → length (segment f i n) ≡ n
unfolding segment
segment-length f i zero = refl
segment-length f i (suc n) = ap suc (segment-length f (suc i) n)

pub get_or-segment : (f : ℕ → ℕ) (i n x : ℕ) → x < n → get_or (segment f i n) x 0 ≡ f (i + x)
unfolding segment
get_or-segment f i zero x lt = absurd (omega arith)
get_or-segment f i (suc n) zero lt = ap f (omega arith)
get_or-segment f i (suc n) (suc x) lt =
    get_or-segment f (suc i) n x (omega arith) ∙ ap f (omega arith)

pub segment_eq :
    (f : ℕ → ℕ) (i n : ℕ) (ws : List ℕ)
    → length ws ≡ n
    → ((x : ℕ) → x < n → get_or ws x 0 ≡ f (i + x))
    → ws ≡ segment f i n
unfolding segment
segment_eq f i zero [] e h = refl
segment_eq f i zero (w ∷ ws) e h = absurd (omega arith)
segment_eq f i (suc n) [] e h = absurd (omega arith)
segment_eq f i (suc n) (w ∷ ws) e h =
    let first : w ≡ f i = h 0 (omega arith) ∙ ap f (omega arith) in
    let later =
      segment_eq f (suc i) n ws (omega arith)
        (λ x lt. h (suc x) (omega arith) ∙ ap f (omega arith)) in
    ap (λ y. y ∷ ws) first ∙ ap (λ ys. f i ∷ ys) later

pub segment-append :
    (f : ℕ → ℕ) (i a b : ℕ) → segment f i (a + b) ≡ segment f i a ++ segment f (i + a) b
unfolding segment
segment-append f i zero b =
    let e : zero + b ≡ b = omega arith in let e' : i + zero ≡ i = omega arith in rw (e, e') refl
segment-append f i (suc a) b =
    let e : suc a + b ≡ suc (a + b) = omega arith in
    let e' : i + suc a ≡ suc i + a = omega arith in
    rw (e, e') (ap (λ ys. f i ∷ ys) (segment-append f (suc i) a b))

-- One round of either loop takes the words up to the next round, or up to the end.
pub round_split :
    (f : ℕ → ℕ) (size i : ℕ)
    → i < size
    → size ≤ 0xffff_e000
    → segment f i (size - i)
      ≡ segment f i (the_size size i)
        ++ segment f ((i + 8192) % 0x1_0000_0000) (size - (i + 8192) % 0x1_0000_0000)
unfolding the_size
round_split f size i lt small = elim (Bool-cases (ltb 8192 (size - i))) [
  | inl t ↦
      let e : (i + 8192) % 0x1_0000_0000 ≡ i + 8192 = omega arith in
      let e' : size - i ≡ 8192 + (size - (i + 8192)) = ground arith in
      rw (t, e) (ap (segment f i) e' ∙ segment-append f i 8192 (size - (i + 8192)))
  | inr t ↦
      let e : size - (i + 8192) % 0x1_0000_0000 ≡ zero = ground arith in
      let e' : size - i ≡ (size - i) + zero = omega arith in
      rw (t, e) (ap (segment f i) e' ∙ segment-append f i (size - i) zero ∙ unfold segment in refl)
]

pub the_size-bounds :
    (size i : ℕ)
    → i < size
    → (0 < the_size size i) × (i + the_size size i ≤ size) × (the_size size i ≤ 8192)
unfolding the_size
the_size-bounds size i lt = (ground arith, ground arith, ground arith)

pub next_lem :
    (size i x : ℕ)
    → i < size
    → size ≤ 0xffff_e000
    → x < size
    → (x < i + the_size size i) ⊎ ((i + 8192) % 0x1_0000_0000 ≤ x)
unfolding the_size
next_lem size i x lt small below = ground arith
