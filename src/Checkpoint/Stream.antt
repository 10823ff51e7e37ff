-- ===== src/Checkpoint/Stream.antt =====
-- The streams of a checkpoint, as lists of 32-bit words, and the class `ClassSerializer` of
-- include/DogeeCheckpoint.h. `none` stands for a read behind the end of the stream, after which the source
-- goes on with what its variables held before.
use mathlib.Core.List.{append_assoc}
use dogee.Prelude.{
  ℕ, zero, suc, ◌≡◌, refl, ap, ◌∙◌, List, [], ◌∷◌, ◌++◌, map, Option, none, some, length,
}

-- `os.read` of `n` words
unfoldable pub read_words : ℕ → List ℕ → Option (List ℕ × List ℕ)
read_words zero stream = some ([], stream)
read_words (suc n) [] = none
read_words (suc n) (w ∷ stream) = elim (read_words n stream) [
  | none ↦ none
  | some (ws, rest) ↦ some (w ∷ ws, rest)
]

-- `ClassSerializer::Serialize`: the members of the checkpoint object, each with the words of its type.
unfoldable pub write_members : List (List ℕ) → List ℕ
write_members [] = []
write_members (m ∷ members) = m ++ write_members members

-- `ClassSerializer::Deserialize`, by the sizes of the members
unfoldable pub read_members : List ℕ → List ℕ → Option (List (List ℕ) × List ℕ)
read_members [] stream = some ([], stream)
read_members (n ∷ sizes) stream = elim (read_words n stream) [
  | none ↦ none
  | some (m, rest) ↦ elim (read_members sizes rest) [
    | none ↦ none
    | some (members, rest') ↦ some (m ∷ members, rest')
  ]
]

read_more :
    (n w : ℕ) (stream ws rest : List ℕ)
    → read_words n stream ≡ some (ws, rest)
    → read_words (suc n) (w ∷ stream) ≡ some (w ∷ ws, rest)
unfolding read_words
read_more n w stream ws rest e = rw (e, read_words) refl

pub read_words_lem : (ws rest : List ℕ) → read_words (length ws) (ws ++ rest) ≡ some (ws, rest)
unfolding read_words
read_words_lem [] rest = refl
read_words_lem (w ∷ ws) rest = read_more (length ws) w (ws ++ rest) ws rest (read_words_lem ws rest)

read_member :
    (n : ℕ) (sizes stream m rest rest' : List ℕ) (members : List (List ℕ))
    → read_words n stream ≡ some (m, rest)
    → read_members sizes rest ≡ some (members, rest')
    → read_members (n ∷ sizes) stream ≡ some (m ∷ members, rest')
unfolding read_members
read_member n sizes stream m rest rest' members e f = rw (e, f, read_members) refl

pub read_members_lem :
    (members : List (List ℕ)) (rest : List ℕ)
    → read_members (map length members) (write_members members ++ rest) ≡ some (members, rest)
unfolding read_members write_members
read_members_lem [] rest = refl
read_members_lem (m ∷ members) rest =
    ap (read_members (length m ∷ map length members)) (append_assoc m (write_members members) rest)
    ∙ read_member (length m) (map length members) (m ++ (write_members members ++ rest)) m
        (write_members members ++ rest) rest members
        (read_words_lem m (write_members members ++ rest)) (read_members_lem members rest)
