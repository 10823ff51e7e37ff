-- ===== src/MapReduce/Serializer.antt =====
-- `InputSerializer` of include/DogeeSerializerImpl.h for words and for vectors. A buffer is a list of
-- 32-bit cells; `none` stands for a read behind its end and for an `assert` that fails.
use dogee.Prelude.{
  ℕ, zero, suc, ◌+◌, ◌%◌, ◌^◌, ◌≡◌, refl, List, [], ◌∷◌, ◌++◌, Option, none, some, length, drop,
  ◌==◌, ◌/◌, if◌then◌else◌,
}

-- A serializer: the size it announces, the cells that it writes, and the value that it reads with the number
-- of cells read.
pub record InputSerializer (T : Type 0) : Type 0 where
  pub get_size : T → ℕ
  pub serialize : T → List ℕ
  pub deserialize : List ℕ → Option (T × ℕ)

-- What is serialized is read again, whatever stands behind it, and it has the announced size.
abbrev pub RoundTrips : {T : Type 0} → InputSerializer T → T → Type 0
RoundTrips c x =
    ((rest : List ℕ) → c.deserialize (c.serialize x ++ rest) ≡ some (x, length (c.serialize x)))
    × (c.get_size x ≡ length (c.serialize x))

unfoldable pub cell_divide : ℕ → ℕ
cell_divide a = if a % 4 == 0 then a / 4 else a / 4 + 1

-- A type of the size of a cell.
unfoldable pub read_cell : List ℕ → Option (ℕ × ℕ)
read_cell [] = none
read_cell (x ∷ buf) = some (x, 1)

abbrev pub cell_serializer : InputSerializer ℕ
cell_serializer = record { get_size = λ x. 1; serialize = λ x. x ∷ []; deserialize = read_cell }

module _ {T : Type 0} (ele : InputSerializer T) where
  unfoldable pub elements_size : List T → ℕ
  elements_size [] = 0
  elements_size (x ∷ xs) = ele.get_size x + elements_size xs

  unfoldable pub write_elements : List T → List ℕ
  write_elements [] = []
  write_elements (x ∷ xs) = ele.serialize x ++ write_elements xs

  -- The loop of `Deserialize`, with `n` elements to read and `cnt` cells read.
  unfoldable pub read_elements : ℕ → List ℕ → ℕ → Option (List T × ℕ)
  read_elements zero buf cnt = some ([], cnt)
  read_elements (suc n) buf cnt = elim (ele.deserialize buf) [
    | none ↦ none
    | some (x, len) ↦ elim (read_elements n (drop len buf) (cnt + len)) [
      | none ↦ none
      | some (xs, total) ↦ some (x ∷ xs, total)
    ]
  ]

  unfoldable pub read_vector : List ℕ → Option (List T × ℕ)
  read_vector [] = none
  read_vector (sz ∷ buf) = read_elements sz buf 1

  abbrev pub vector_serializer : InputSerializer (List T)
  vector_serializer = record {
    get_size = λ xs. elements_size xs + 1;
    serialize = λ xs. (length xs % 2 ^ 32) ∷ write_elements xs;
    deserialize = read_vector;
  }

  abbrev pub AllRoundTrip : List T → Type 0
  AllRoundTrip [] = Unit
  AllRoundTrip (x ∷ xs) = RoundTrips ele x × AllRoundTrip xs

  pub drop_written : (xs ys : List ℕ) → drop (length xs) (xs ++ ys) ≡ ys
  drop_written [] ys = refl
  drop_written (x ∷ xs) ys = drop_written xs ys

pub cell-RoundTrips : (x : ℕ) → RoundTrips cell_serializer x
unfolding read_cell
cell-RoundTrips x = (λ rest. refl, refl)
