-- ===== src/Checkpoint/Dump.antt =====
-- `DumpSharedMemory` and `RestoreSharedMemory` of Dogee/DogeeCheckpoint.cpp.
use dogee.Prelude.{
  ℕ, zero, suc, ◌+◌, ◌-◌, ◌%◌, List, [], ◌∷◌, ◌++◌, Option, none, some, true, false, ltb,
  if◌then◌else◌,
}
use dogee.Objects.Alloc.{push_object}
use dogee.Checkpoint.Store.{SharedStore}
use dogee.Checkpoint.Stream.{read_words}

-- `DSM_CACHE_BLOCK_SIZE * 256`
abbrev pub fetch_size : ℕ
fetch_size = 8192

-- `MIN(fetch_size, size - i)`
unfoldable pub the_size : ℕ → ℕ → ℕ
the_size size i = if ltb fetch_size (size - i) then fetch_size else size - i

module _ (D : SharedStore) where
  -- The loop of `DumpSharedMemory` from the field `i` on; `none` where it does not end within `fuel`
  -- rounds.
  unfoldable pub dump_words : ℕ → D.Store → ℕ → ℕ → ℕ → Option (List ℕ)
  dump_words zero s okey size i = none
  dump_words (suc fuel) s okey size i = elim (ltb i size) [
    | false ↦ some []
    | true ↦ elim (dump_words fuel s okey size ((i + fetch_size) % 0x1_0000_0000)) [
      | none ↦ none
      | some words ↦ some (D.getchunk s okey i (the_size size i) ++ words)
    ]
  ]

  -- The words that `DumpSharedMemory` writes.
  unfoldable pub dump_shared_memory : D.Store → ℕ → ℕ → ℕ → Option (List ℕ)
  dump_shared_memory s okey size flag = elim (dump_words (suc size) s okey size 0) [
    | none ↦ none
    | some words ↦ some (okey ∷ size ∷ flag ∷ words)
  ]

  -- The loop of `RestoreSharedMemory`: what is left of the stream, and the storage.
  unfoldable pub restore_words : ℕ → ℕ → ℕ → ℕ → List ℕ → D.Store → Option (List ℕ × D.Store)
  restore_words zero okey size i stream s = none
  restore_words (suc fuel) okey size i stream s = elim (ltb i size) [
    | false ↦ some (stream, s)
    | true ↦ elim (read_words (the_size size i) stream) [
      | none ↦ none
      | some (buf, rest) ↦
          restore_words fuel okey size ((i + fetch_size) % 0x1_0000_0000) rest
            (D.putchunk s okey i buf)
    ]
  ]

  -- `RestoreSharedMemory`: the key that it returns, what is left of the stream, the storage, and the list
  -- of objects.
  unfoldable pub restore_shared_memory :
      List ℕ → D.Store → List ℕ → Option (ℕ × (List ℕ × (D.Store × List ℕ)))
  restore_shared_memory [] s objects = none
  restore_shared_memory (okey ∷ []) s objects = none
  restore_shared_memory (okey ∷ size ∷ []) s objects = none
  restore_shared_memory (okey ∷ size ∷ flag ∷ stream) s objects =
      elim (restore_words (suc size) okey size 0 stream s) [
        | none ↦ none
        | some (rest, s') ↦
            some (okey, (rest, ((D.newobj okey flag size s').1, push_object okey objects)))
      ]
