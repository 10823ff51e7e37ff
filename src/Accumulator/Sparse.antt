-- ===== src/Accumulator/Sparse.antt =====
-- The two forms in which a part of a vector is sent (`MakeSparseArray`, `IsProfitableToCompress` and
-- `AcAccumulatePrepareBuffer` of include/DogeeAccumulator.h), and how `DAddAccumulator` adds them to the
-- buffer of the receiver. The elements are integers of one word; a failed `assert` is `none`.
use dogee.Prelude.{
  ℕ, zero, suc, ◌+◌, ◌-◌, ◌*◌, List, [], ◌∷◌, Option, none, some, Bool, true, false, not, ◌&&◌,
  ◌||◌, ltb, leb, if◌then◌else◌, length, get_or, set, take, drop,
}
use dogee.Prelude.Int.{ℤ, pos, negsuc, ◌+ℤ◌, ◌-ℤ◌, leb_ℤ}

pub record SparseElement : Type 0 where
  pub index : ℕ
  pub value : ℤ

-- `BD_DATA_PROCESS_SIZE`, in bytes
abbrev pub process_size : ℕ
process_size = 16384

-- `sizeof(SparseElement<T>)`
abbrev pub element_size : ℕ
element_size = 8

abbrev pub ltb_ℤ : ℤ → ℤ → Bool
ltb_ℤ a b = not (leb_ℤ b a)

-- A value below the threshold is taken for 0.
unfoldable pub clip : ℤ → ℤ → ℤ
clip threshold val =
    if leb_ℤ (pos 0) val && ltb_ℤ val threshold
    then pos 0
    else if ltb_ℤ val (pos 0) && ltb_ℤ (pos 0 -ℤ threshold) val
    then pos 0
    else val

abbrev pub is_zero : ℤ → Bool
is_zero (pos zero) = true
is_zero (pos (suc n)) = false
is_zero (negsuc n) = false

-- The elements, the bytes in use after them, and the number of words that they stand for.
pub record SparseArray : Type 0 where
  pub elements : List SparseElement
  pub used : ℕ
  pub count : ℕ

-- The loop of `MakeSparseArray`: `n` words from `i` on, which `vec` begins with.
unfoldable pub make_sparse : ℕ → ℕ → List ℤ → ℤ → ℕ → SparseArray
make_sparse zero i vec threshold used = record { elements = []; used = used; count = 0 }
make_sparse (suc n) i vec threshold used =
    let val = clip threshold (get_or vec 0 (pos 0)) in
    let skipped = make_sparse n (suc i) (drop 1 vec) threshold used in
    let kept = make_sparse n (suc i) (drop 1 vec) threshold (used + element_size) in
    if leb process_size (used + element_size)
    then record { elements = []; used = used; count = 0 }
    else if is_zero val
    then record skipped { count = suc skipped.count }
    else record kept {
      elements = record { index = i; value = val } ∷ kept.elements;
      count = suc kept.count;
    }

unfoldable pub make_sparse_array : List ℤ → ℕ → ℕ → ℤ → SparseArray
make_sparse_array vec src vsize threshold = make_sparse (vsize - src) src (drop src vec) threshold 0

-- The loop of `IsProfitableToCompress`: the values that count as 0, and the rounds.
unfoldable pub count_zeros : List ℤ → ℤ → ℕ → ℕ → ℕ → ℕ × ℕ
count_zeros [] threshold used zeros i = (zeros, i)
count_zeros (val ∷ vec) threshold used zeros i =
    let small =
      (leb_ℤ (pos 0) val && leb_ℤ val threshold)
      || (ltb_ℤ val (pos 0) && leb_ℤ (pos 0 -ℤ threshold) val) in
    let zeros' = if small then suc zeros else zeros in
    let used' = if small then used else used + element_size in
    let later = count_zeros vec threshold used' zeros' (suc i) in
    if ltb used process_size then later else (zeros, i)

-- `(double)zeros / i > 0.52`, which is false where both are 0
unfoldable pub is_profitable : List ℤ → ℤ → Bool
is_profitable vec threshold =
    let (zeros, i) = count_zeros vec threshold 0 0 0 in ltb (52 * i) (100 * zeros)

pub data AccumulatorMode : Type 0 where
  dense_mode sparse_mode auto_mode : AccumulatorMode

-- What is sent in one message.
pub data Piece : Type 0 where
  type_dense : List ℤ → Piece
  type_sparse : List SparseElement → Piece

unfoldable pub prepare_dense : List ℤ → ℕ → ℕ → Piece × ℕ
prepare_dense src idx size =
    let n = if ltb size (idx + 4096) then size - idx else 4096 in
    (type_dense (take n (drop idx src)), n)

unfoldable pub prepare_sparse : ℤ → List ℤ → ℕ → ℕ → Piece × ℕ
prepare_sparse threshold src idx size =
    let made = make_sparse_array src idx size threshold in (type_sparse made.elements, made.count)

-- `AcAccumulatePrepareBuffer`: the piece, and the words that it stands for.
unfoldable pub prepare_buffer : AccumulatorMode → ℤ → List ℤ → ℕ → ℕ → Piece × ℕ
prepare_buffer dense_mode threshold src idx size = prepare_dense src idx size
prepare_buffer sparse_mode threshold src idx size = prepare_sparse threshold src idx size
prepare_buffer auto_mode threshold src idx size =
    if is_profitable (take (size - idx) (drop idx src)) threshold
    then prepare_sparse threshold src idx size
    else prepare_dense src idx size

abbrev pub add_at : List ℤ → ℕ → ℤ → List ℤ
add_at out k v = set out k (get_or out k (pos 0) +ℤ v)

-- The loop of `DAddAccumulator::DoAccumulateDense`, from `out_data[k]` on
unfoldable pub add_words : List ℤ → ℕ → List ℤ → List ℤ
add_words [] k out = out
add_words (v ∷ vs) k out = add_words vs (suc k) (add_at out k v)

unfoldable pub accumulate_dense : List ℤ → ℕ → List ℤ → ℕ → Option (List ℤ)
accumulate_dense words in_index out out_index =
    if leb out_index in_index && leb (in_index - out_index + length words) (length out)
    then some (add_words words (in_index - out_index) out)
    else none

unfoldable pub accumulate_sparse : List SparseElement → List ℤ → ℕ → Option (List ℤ)
accumulate_sparse [] out out_index = some out
accumulate_sparse (e ∷ elements) out out_index =
    let later = accumulate_sparse elements (add_at out (e.index - out_index) e.value) out_index in
    if leb out_index e.index && ltb e.index (out_index + length out) then later else none

-- The switch of `AcAccumulateMsg`; a message without data changes nothing.
unfoldable pub accumulate : Piece → ℕ → List ℤ → ℕ → Option (List ℤ)
accumulate (type_dense []) offset out base = some out
accumulate (type_dense (w ∷ words)) offset out base = accumulate_dense (w ∷ words) offset out base
accumulate (type_sparse elements) offset out base = accumulate_sparse elements out base
