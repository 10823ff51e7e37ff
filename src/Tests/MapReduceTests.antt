-- ===== src/Tests/MapReduceTests.antt =====
-- Concrete runs of the buffers of a MapReduce.
use dogee.Prelude.{ℕ, ◌≡◌, refl, arith, List, [], ◌∷◌, replicate}
use dogee.MapReduce.Serializer.{
  InputSerializer, cell_serializer, vector_serializer, cell-RoundTrips,
}
use dogee.MapReduce.Text.{text_serializer, write_text}
use dogee.MapReduce.Buffers.{prepare_buf}
use dogee.MapReduce.Rounds.{map_rounds, send_round, Carries, concat, map_delivers}

abbrev vectors : InputSerializer (List ℕ)
vectors = vector_serializer cell_serializer

-- "hello" takes a cell for its length and two for its characters, the last of which keep old bytes.
hello :
    (text_serializer 0xffff_ffff).serialize (104 ∷ 101 ∷ 108 ∷ 108 ∷ 111 ∷ [])
    ≡ 5 ∷ 0x6c6c_6568 ∷ 0xffff_ff6f ∷ []
unfolding write_text
hello = refl

abbrev pairs : List (ℕ × ℕ)
pairs = (1, 10) ∷ (2, 20) ∷ (3, 30) ∷ []

abbrev collect : ℕ × ℕ → List (ℕ × ℕ) → List (ℕ × ℕ)
collect e m = e ∷ m

-- With two pairs for a buffer the last buffer has one.
two_buffers :
    map_rounds cell_serializer cell_serializer 2 (1 ∷ 2 ∷ []) pairs
    ≡ ((1 ∷ 10 ∷ 2 ∷ 20 ∷ []) ∷ (3 ∷ 30 ∷ []) ∷ [] ∷ [], [])
unfolding map_rounds send_round prepare_buf
two_buffers = refl

map_delivers_example :
    ((map_rounds cell_serializer cell_serializer 2 (1 ∷ 2 ∷ 1 ∷ []) pairs).1 ≡ [])
    × ((parts : List (List (ℕ × ℕ))) × (Carries cell_serializer cell_serializer collect 2
            (map_rounds cell_serializer cell_serializer 2 (1 ∷ 2 ∷ 1 ∷ []) pairs).0
            parts
          × (concat parts ≡ pairs)))
map_delivers_example =
    map_delivers cell_serializer cell_serializer collect 2 (1 ∷ 2 ∷ 1 ∷ []) pairs
      (
        (cell-RoundTrips 1, cell-RoundTrips 10, omega arith, omega arith),
        (
          (cell-RoundTrips 2, cell-RoundTrips 20, omega arith, omega arith),
          ((cell-RoundTrips 3, cell-RoundTrips 30, omega arith, omega arith), tt),
        ),
      )
      (omega arith) (omega arith)

abbrev long : List ℕ
long = replicate 4096 0
