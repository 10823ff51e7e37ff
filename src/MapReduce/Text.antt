-- ===== src/MapReduce/Text.antt =====
-- `InputSerializer<std::string>` of include/DogeeSerializerImpl.h: a cell has four characters, the first one
-- in its lowest byte.
use dogee.Prelude.{
  ℕ, ◌+◌, ◌*◌, ◌%◌, ◌/◌, ◌^◌, ◌<◌, List, [], ◌∷◌, Option, none, some, length, take, ◌==◌,
  if◌then◌else◌,
}
use dogee.MapReduce.Serializer.{InputSerializer, cell_divide}

-- `memcpy(buf + 1, in.c_str(), in.size())`: the cells behind the length, one for each four characters and the
-- last one with room for a character more. The bytes of the last cell behind the string stay what they
-- were in `old`.
unfoldable pub write_text : ℕ → List ℕ → List ℕ
write_text old [] = old ∷ []
write_text old (a ∷ []) = (a + 256 * (old / 256)) ∷ []
write_text old (a ∷ b ∷ []) = (a + 256 * b + 65536 * (old / 65536)) ∷ []
write_text old (a ∷ b ∷ c ∷ []) = (a + 256 * b + 65536 * c + 16777216 * (old / 16777216)) ∷ []
write_text old (a ∷ b ∷ c ∷ d ∷ s) = (a + 256 * b + 65536 * c + 16777216 * d) ∷ write_text old s

unfoldable pub bytes : List ℕ → List ℕ
bytes [] = []
bytes (x ∷ buf) = (x % 256) ∷ (x / 256 % 256) ∷ (x / 65536 % 256) ∷ (x / 16777216 % 256) ∷ bytes buf

-- `std::string(str)`, which ends before the first null character
unfoldable pub until_null : List ℕ → List ℕ
until_null [] = []
until_null (c ∷ s) = let rest = until_null s in if c == 0 then [] else (c ∷ rest)

-- `Deserialize`, where a null character is written behind the string; its `assert` is the last test.
unfoldable pub read_text : List ℕ → Option (List ℕ × ℕ)
read_text [] = none
read_text (sz ∷ buf) =
    let out = until_null (take sz (bytes buf)) in
    if length out == sz then some (out, cell_divide (sz + 1) + 1) else none

abbrev pub text_serializer : ℕ → InputSerializer (List ℕ)
text_serializer old = record {
  get_size = λ s. cell_divide (length s + 1) + 1;
  serialize = λ s. (length s % 2 ^ 32) ∷ write_text old s;
  deserialize = read_text;
}

-- The characters are bytes and not null.
abbrev pub IsText : List ℕ → Type 0
IsText [] = Unit
IsText (c ∷ s) = (0 < c) × (c < 256) × IsText s
