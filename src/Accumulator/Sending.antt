-- ===== src/Accumulator/Sending.antt =====
-- A part of a vector is sent piece by piece (the loop of `_DoAccumulateAndWait`,
-- Dogee/DogeeAccumulator.cpp), and the receiver adds the pieces to its buffer as they come.
use native.Mathlib.Decide.{ℕ_discrete}
use dogee.Prelude.{
  ℕ, zero, suc, ◌+◌, ◌-◌, ◌<◌, ◌≤◌, ◌≡◌, refl, sym, ap, ◌∙◌, List, [], ◌∷◌, Option, none, some,
  arith, Bool, true, false, not, ◌&&◌, ltb, ◌==◌, if◌then◌else◌, length, get_or, take, drop,
  length-set,
}
use dogee.Prelude.Int.{ℤ, pos, ◌+ℤ◌}
use dogee.Accumulator.Sparse.{add_at, add_words, accumulate, AccumulatorMode, Piece, prepare_buffer}
use dogee.Accumulator.Pieces.{prepare_buffer-adds}

-- A message `AcDataAccumulate`: the offset of the piece, and whether it carries the thread, which the
-- last piece of a part does.
pub record Message : Type 0 where
  pub offset : ℕ
  pub piece : Piece
  pub is_last : Bool

-- One turn of a node in the loop: its next piece, and where the piece after it begins.
unfoldable pub next_message : AccumulatorMode → ℤ → List ℤ → ℕ → ℕ → Message × ℕ
next_message mode threshold src idx size =
    let (piece, n) = prepare_buffer mode threshold src idx size in
    (record { offset = idx; piece = piece; is_last = idx + n == size }, idx + n)

-- The messages to a node, whose part is from `idx` up to `size`. Each has a word at least, so that as
-- many rounds as there are words are enough.
unfoldable pub messages : ℕ → AccumulatorMode → ℤ → List ℤ → ℕ → ℕ → List Message
messages zero mode threshold src idx size = []
messages (suc fuel) mode threshold src idx size =
    let (m, idx') = next_message mode threshold src idx size in
    let later = messages fuel mode threshold src idx' size in if ltb idx size then m ∷ later else []

-- The buffer of the receiver after some messages.
unfoldable pub receive : List Message → List ℤ → ℕ → Option (List ℤ)
receive [] out base = some out
receive (m ∷ ms) out base = elim (accumulate m.piece m.offset out base) [
  | none ↦ none
  | some out' ↦ receive ms out' base
]

-- Only the last message is marked.
unfoldable pub ends_once : List Message → Bool
ends_once [] = false
ends_once (m ∷ []) = m.is_last
ends_once (m ∷ m' ∷ ms) = not m.is_last && ends_once (m' ∷ ms)

take-nil : (n : ℕ) → take {A = ℤ} n [] ≡ []
take-nil zero = refl
take-nil (suc n) = refl

drop-nil : (n : ℕ) → drop {A = ℤ} n [] ≡ []
drop-nil zero = refl
drop-nil (suc n) = refl

length-add_words :
    (words : List ℤ) (k : ℕ) (out : List ℤ) → length (add_words words k out) ≡ length out
unfolding add_words
length-add_words [] k out = refl
length-add_words (w ∷ words) k out =
    length-add_words words (suc k) (add_at out k w) ∙ length-set out k (get_or out k (pos 0) +ℤ w)

add_words-split :
    (n m : ℕ) (xs : List ℤ) (k : ℕ) (out : List ℤ)
    → add_words (take m (drop n xs)) (k + n) (add_words (take n xs) k out)
      ≡ add_words (take (n + m) xs) k out
unfolding add_words
add_words-split zero m xs k out =
    let e : k + 0 ≡ k = omega arith in let f : 0 + m ≡ m = omega arith in rw (e, f) refl
add_words-split (suc n) m [] k out =
    let f : suc n + m ≡ suc (n + m) = omega arith in rw (f, (take-nil m)) refl
add_words-split (suc n) m (x ∷ xs) k out =
    let e : k + suc n ≡ suc k + n = omega arith in
    let f : suc n + m ≡ suc (n + m) = omega arith in
    rw (e, f) (add_words-split n m xs (suc k) (add_at out k x))

drop-drop : (n m : ℕ) (xs : List ℤ) → drop n (drop m xs) ≡ drop (m + n) xs
drop-drop n zero xs = let e : 0 + n ≡ n = omega arith in rw e refl
drop-drop n (suc m) [] = let e : suc m + n ≡ suc (m + n) = omega arith in rw e (drop-nil n)
drop-drop n (suc m) (x ∷ xs) =
    let e : suc m + n ≡ suc (m + n) = omega arith in rw e (drop-drop n m xs)

words_join :
    (src : List ℤ) (idx size base n : ℕ) (out : List ℤ)
    → idx + n ≤ size
    → base ≤ idx
    → add_words
        (take (size - (idx + n)) (drop (idx + n) src))
        (idx + n - base)
        (add_words (take n (drop idx src)) (idx - base) out)
      ≡ add_words (take (size - idx) (drop idx src)) (idx - base) out
words_join src idx size base n out fits lo =
    let m = size - (idx + n) in
    let a : n + m ≡ size - idx = omega arith in
    let b : idx + n - base ≡ idx - base + n = omega arith in
    let out' = add_words (take n (drop idx src)) (idx - base) out in
    ap (λ ys. add_words (take m ys) (idx + n - base) out') (sym (drop-drop n idx src))
    ∙ ap (λ j. add_words (take m (drop n (drop idx src))) j out') b
    ∙ add_words-split n m (drop idx src) (idx - base) out
    ∙ ap (λ j. add_words (take j (drop idx src)) (idx - base) out) a

receive-cons :
    (m : Message) (ms : List Message) (out out' : List ℤ) (base : ℕ)
    → accumulate m.piece m.offset out base ≡ some out'
    → receive (m ∷ ms) out base ≡ receive ms out' base
unfolding receive
receive-cons m ms out out' base h = rw (h, receive) refl

ends_once-cons :
    (m : Message) (ms : List Message)
    → m.is_last ≡ false
    → ends_once ms ≡ true
    → ends_once (m ∷ ms) ≡ true
unfolding ends_once
ends_once-cons m [] h e = absurd (ground arith)
ends_once-cons m (m' ∷ ms) h e = rw h e

messages-done :
    (fuel : ℕ) (mode : AccumulatorMode) (threshold : ℤ) (src : List ℤ) (idx size : ℕ)
    → size ≤ idx
    → messages fuel mode threshold src idx size ≡ []
unfolding messages
messages-done zero mode threshold src idx size h = refl
messages-done (suc fuel) mode threshold src idx size h = ground arith

-- The messages of a part, in any mode and without a threshold, add all words of the part to the buffer
-- of the receiver, each once; there is one message at least, and the last one and no other is marked.
-- The part is not empty, and the vector and the buffer of the receiver are as long as it needs.
pub receive-messages :
    (fuel : ℕ) (mode : AccumulatorMode) (src : List ℤ) (idx size : ℕ) (out : List ℤ) (base : ℕ)
    → idx < size
    → size ≤ idx + fuel
    → size ≤ length src
    → base ≤ idx
    → size ≤ base + length out
    → (receive (messages fuel mode (pos 0) src idx size) out base
        ≡ some (add_words (take (size - idx) (drop idx src)) (idx - base) out))
      × (ends_once (messages fuel mode (pos 0) src idx size) ≡ true)
unfolding messages next_message
receive-messages zero mode src idx size out base more enough whole lo hi = absurd (omega arith)
receive-messages (suc fuel) mode src idx size out base more enough whole lo hi =
    let p = prepare_buffer mode (pos 0) src idx size in
    let n = p.1 in
    let (some_words, fits, adds) =
      prepare_buffer-adds src idx size out base more whole lo hi mode in
    let t : ltb idx size ≡ true = ground arith in
    elim (ℕ_discrete (idx + n) size) [
      | yes last ↦
          let u : (idx + n == size) ≡ true = ground arith in
          let e : size - idx ≡ n = omega arith in
          let done = messages-done fuel mode (pos 0) src (idx + n) size (omega arith) in
          rw (t, done, u, e)
            (receive-cons _ [] out _ base adds ∙ (unfold receive in refl), unfold ends_once in refl)
      | no other ↦
          let u : (idx + n == size) ≡ false = ground arith in
          let out' = add_words (take n (drop idx src)) (idx - base) out in
          let len = length-add_words (take n (drop idx src)) (idx - base) out in
          let (rest, marks) =
            receive-messages fuel mode src (idx + n) size out' base (omega arith) (omega arith)
              whole (omega arith) (omega (arith, len)) in
          rw (t, u)
            (
              receive-cons _ _ out _ base adds
                  ∙ rest
                  ∙ ap some (words_join src idx size base n out fits lo),
              ends_once-cons _ _ refl marks,
            )
    ]
