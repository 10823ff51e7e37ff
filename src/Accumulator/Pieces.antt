-- ===== src/Accumulator/Pieces.antt =====
-- The sparse form of a piece adds the same as the words themselves, and fits into the buffer
-- (include/DogeeAccumulator.h).
use dogee.Prelude.{
  ℕ, zero, suc, ◌+◌, ◌-◌, ◌*◌, ◌<◌, ◌≤◌, ◌≡◌, refl, ap, ◌∙◌, List, [], ◌∷◌, map, some, arith, true,
  false, ◌&&◌, ltb, leb, if◌then◌else◌, length, get_or, set, take, drop, length-set, length-take,
  length-drop, Bool-cases, inl, inr, subst,
}
use dogee.Prelude.Int.{ℤ, pos, negsuc, ◌+ℤ◌}
use dogee.Accumulator.Sparse.{
  make_sparse, make_sparse_array, clip, is_zero, add_at, add_words, accumulate_dense,
  accumulate_sparse, accumulate, AccumulatorMode, dense_mode, sparse_mode, auto_mode, Piece,
  type_dense, prepare_dense, prepare_sparse, prepare_buffer, is_profitable,
}

-- The loop of `MakeSparseArray` never runs over the buffer: an element takes 8 bytes, the bytes in use
-- stay below the size of the buffer if they were below it before, and the elements stand for no more
-- words than there are.
pub make_sparse-fits :
    (n i : ℕ) (vec : List ℤ) (threshold : ℤ) (used : ℕ)
    → used < 16384
    → let made = make_sparse n i vec threshold used in
      (made.used ≡ used + 8 * length made.elements) × (made.used < 16384) × (made.count ≤ n)
unfolding make_sparse
make_sparse-fits zero i vec threshold used h = (omega arith, h, omega arith)
make_sparse-fits (suc n) i vec threshold used h =
    let skipped = make_sparse-fits n (suc i) (drop 1 vec) threshold used h in
    let kept = make_sparse-fits n (suc i) (drop 1 vec) threshold (used + 8) in
    elim (Bool-cases (leb 16384 (used + 8))) [
      | inl t ↦ rw t (omega arith, h, omega arith)
      | inr t ↦ elim (Bool-cases (is_zero (clip threshold (get_or vec 0 (pos 0))))) [
        | inl z ↦ rw (t, z) (skipped.0, skipped.1, omega (arith, skipped.2))
        | inr z ↦
            let (a, b, c) = kept (ground arith) in rw (t, z) (omega (arith, a), b, omega (arith, c))
      ]
    ]

-- Some word is taken if there is one.
make_sparse-proceeds :
    (n i : ℕ) (vec : List ℤ) (threshold : ℤ) → 0 < (make_sparse (suc n) i vec threshold 0).count
unfolding make_sparse
make_sparse-proceeds n i vec threshold =
    elim (Bool-cases (is_zero (clip threshold (get_or vec 0 (pos 0))))) [
      | inl z ↦ rw z (omega arith)
      | inr z ↦ rw z (omega arith)
    ]

is_zero_lem : (v : ℤ) → is_zero v ≡ true → v ≡ pos 0
is_zero_lem (pos zero) h = refl
is_zero_lem (pos (suc n)) h = absurd (ground arith)
is_zero_lem (negsuc n) h = absurd (ground arith)

add_zero : (v : ℤ) → v +ℤ pos 0 ≡ v
add_zero (pos n) =
    let e : n + 0 - 0 ≡ n = omega arith in
    let f : leb 0 (n + 0) ≡ true = ground arith in rw (f, e) refl
add_zero (negsuc n) =
    let e : suc n + 0 - 0 - 1 ≡ n = omega arith in
    let f : leb (suc n + 0) 0 ≡ false = ground arith in rw (f, e) refl

set-idle : (xs : List ℤ) (k : ℕ) → set xs k (get_or xs k (pos 0)) ≡ xs
set-idle [] k = refl
set-idle (x ∷ xs) zero = refl
set-idle (x ∷ xs) (suc k) = ap (λ ys. x ∷ ys) (set-idle xs k)

add_at-zero : (out : List ℤ) (k : ℕ) → add_at out k (pos 0) ≡ out
add_at-zero out k = ap (set out k) (add_zero (get_or out k (pos 0))) ∙ set-idle out k

-- The elements that stand for the first `count` words add these words, cut at the threshold.
accumulate-make_sparse :
    (n i : ℕ) (vec : List ℤ) (threshold : ℤ) (used : ℕ) (out : List ℤ) (base : ℕ)
    → n ≤ length vec
    → base ≤ i
    → i + n ≤ base + length out
    → let made = make_sparse n i vec threshold used in
      accumulate_sparse made.elements out base
      ≡ some (add_words (map (clip threshold) (take made.count vec)) (i - base) out)
unfolding make_sparse accumulate_sparse add_words
accumulate-make_sparse zero i vec threshold used out base le lo hi = refl
accumulate-make_sparse (suc n) i [] threshold used out base le lo hi = absurd (omega arith)
accumulate-make_sparse (suc n) i (v ∷ vec) threshold used out base le lo hi =
    let next : suc i - base ≡ suc (i - base) = omega arith in
    elim (Bool-cases (leb 16384 (used + 8))) [
      | inl t ↦ rw t refl
      | inr t ↦ elim (Bool-cases (is_zero (clip threshold v))) [
        | inl z ↦
            let later =
              accumulate-make_sparse n (suc i) vec threshold used out base (omega arith)
                (omega arith) (omega arith) in
            rw (t, z, (is_zero_lem (clip threshold v) z), (add_at-zero out (i - base)))
              (rw next at later)
        | inr z ↦
            let len =
              length-set out (i - base) (get_or out (i - base) (pos 0) +ℤ clip threshold v) in
            let later =
              accumulate-make_sparse n (suc i) vec threshold (used + 8)
                (add_at out (i - base) (clip threshold v)) base (omega arith) (omega arith)
                (omega (arith, len)) in
            let inside : (leb base i && ltb i (base + length out)) ≡ true = ground arith in
            rw (t, z, inside) (rw next at later)
      ]
    ]

clip-zero : (v : ℤ) → clip (pos 0) v ≡ v
unfolding clip
clip-zero (pos n) = ground arith
clip-zero (negsuc n) = ground arith

map-clip : (xs : List ℤ) → map (clip (pos 0)) xs ≡ xs
map-clip [] = refl
map-clip (x ∷ xs) =
    ap (λ y. y ∷ map (clip (pos 0)) xs) (clip-zero x) ∙ ap (λ ys. x ∷ ys) (map-clip xs)

accumulate-dense :
    (words : List ℤ) (idx : ℕ) (out : List ℤ) (base : ℕ)
    → base ≤ idx
    → idx + length words ≤ base + length out
    → accumulate (type_dense words) idx out base ≡ some (add_words words (idx - base) out)
unfolding accumulate accumulate_dense add_words
accumulate-dense [] idx out base lo hi = refl
accumulate-dense (w ∷ words) idx out base lo hi =
    let t : (leb base idx && leb (idx - base + suc (length words)) (length out)) ≡ true =
      ground arith in
    rw t refl

module _ (src : List ℤ) (idx size : ℕ) (out : List ℤ) (base : ℕ) (more : idx < size)
    (whole : size ≤ length src) (lo : base ≤ idx) (hi : size ≤ base + length out) where
  -- The piece `p` stands for the next words, one at least, and adds them.
  AddsNext : Piece × ℕ → Type 0
  AddsNext p =
      (0 < p.1)
      × (idx + p.1 ≤ size)
      × (accumulate p.0 idx out base ≡ some (add_words (take p.1 (drop idx src)) (idx - base) out))

  dense_piece : AddsNext (prepare_dense src idx size)
  unfolding prepare_dense AddsNext
  dense_piece =
      let n = if ltb size (idx + 4096) then size - idx else 4096 in
      let fits : (0 < n) × (idx + n ≤ size) = ground arith in
      let len : length (take n (drop idx src)) ≡ n =
        length-take n (drop idx src) (omega (arith, length-drop idx src, fits.1)) in
      (
        fits.0,
        fits.1,
        accumulate-dense (take n (drop idx src)) idx out base lo (omega (arith, len, fits.1)),
      )

  sparse_piece : AddsNext (prepare_sparse (pos 0) src idx size)
  unfolding prepare_sparse make_sparse_array accumulate AddsNext
  sparse_piece =
      let n = size - idx in
      let made = make_sparse n idx (drop idx src) (pos 0) 0 in
      let e : suc (n - 1) ≡ n = omega arith in
      let some_words : 0 < made.count =
        subst (λ m. 0 < (make_sparse m idx (drop idx src) (pos 0) 0).count) e
          (make_sparse-proceeds (n - 1) idx (drop idx src) (pos 0)) in
      let fits = make_sparse-fits n idx (drop idx src) (pos 0) 0 (omega arith) in
      (
        some_words,
        omega (arith, fits.2),
        accumulate-make_sparse n idx (drop idx src) (pos 0) 0 out base
              (omega (arith, length-drop idx src)) lo (omega arith)
            ∙ ap (λ ws. some (add_words ws (idx - base) out))
                (map-clip (take made.count (drop idx src))),
      )

  -- In every mode, `AcAccumulatePrepareBuffer` without a threshold takes some words, no more than are
  -- left, and the receiver adds exactly these words to its buffer: the sparse form is as good as the
  -- dense one. The vector and the buffer are long enough.
  pub prepare_buffer-adds :
      (mode : AccumulatorMode)
      → let p = prepare_buffer mode (pos 0) src idx size in
        (0 < p.1)
        × (idx + p.1 ≤ size)
        × (accumulate p.0 idx out base
            ≡ some (add_words (take p.1 (drop idx src)) (idx - base) out))
  unfolding prepare_buffer AddsNext
  prepare_buffer-adds dense_mode = dense_piece
  prepare_buffer-adds sparse_mode = sparse_piece
  prepare_buffer-adds auto_mode =
      elim (Bool-cases (is_profitable (take (size - idx) (drop idx src)) (pos 0))) [
        | inl t ↦ rw t sparse_piece
        | inr t ↦ rw t dense_piece
      ]
