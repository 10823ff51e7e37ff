-- ===== src/Checkpoint/Restore.antt =====
-- What `RestoreSharedMemory` of Dogee/DogeeCheckpoint.cpp makes of the words that `DumpSharedMemory` writes.
use mathlib.Core.List.{append_assoc}
use dogee.Prelude.{
  ℕ, zero, suc, ◌+◌, ◌-◌, ◌%◌, ◌<◌, ◌≤◌, ◌≡◌, ◌≢◌, refl, sym, ap, ◌∙◌, List, [], ◌∷◌, ◌++◌, none,
  some, Bool-cases, true, false, length, get_or, inl, inr, ltb, arith,
}
use dogee.Cache.Backend.{copy}
use dogee.Objects.Alloc.{push_object}
use dogee.Checkpoint.Store.{SharedStore}
use dogee.Checkpoint.Stream.{read_words, read_words_lem}
use dogee.Checkpoint.Segment.{
  ltb-cases, segment, segment-length, get_or-segment, segment_eq, round_split, the_size-bounds,
  next_lem,
}
use dogee.Checkpoint.Dump.{
  dump_words, the_size, dump_shared_memory, restore_words, restore_shared_memory,
}

module _ (D : SharedStore) (s : D.Store) (okey size : ℕ) (small : size ≤ 0xffff_e000) where
  dump_step :
      (fuel i : ℕ) (words : List ℕ)
      → ltb i size ≡ true
      → dump_words D fuel s okey size ((i + 8192) % 0x1_0000_0000) ≡ some words
      → dump_words D (suc fuel) s okey size i
        ≡ some (D.getchunk s okey i (the_size size i) ++ words)
  unfolding dump_words
  dump_step fuel i words t e = rw (t, e, dump_words) refl

  dump_end : (fuel i : ℕ) → ltb i size ≡ false → dump_words D (suc fuel) s okey size i ≡ some []
  unfolding dump_words
  dump_end fuel i t = rw (t, dump_words) refl

  dump_words_lem :
      (fuel i : ℕ)
      → size - i < fuel
      → dump_words D fuel s okey size i ≡ some (segment (D.word s okey) i (size - i))
  dump_words_lem zero i enough = absurd (omega arith)
  dump_words_lem (suc fuel) i enough = elim (Bool-cases (ltb i size)) [
    | inl t ↦
        let next = (i + 8192) % 0x1_0000_0000 in
        dump_step fuel i _ t (dump_words_lem fuel next (ground arith))
        ∙ ap some (
            ap (λ ws. ws ++ segment (D.word s okey) next (size - next))
              (segment_eq (D.word s okey) i (the_size size i) _
                (D.length-getchunk s okey i (the_size size i))
                (λ x lt.
                  D.get_or-getchunk s okey i (the_size size i) x
                    (the_size-bounds size i (ground arith)).2 lt))
            ∙ sym (round_split (D.word s okey) size i (ground arith) small))
    | inr t ↦
        let e : size - i ≡ zero = ground arith in dump_end fuel i t ∙ rw e (unfold segment in refl)
  ]

  -- The words that are written for an object.
  pub dump_shared_memory_lem :
      (flag : ℕ)
      → dump_shared_memory D s okey size flag
        ≡ some (okey ∷ size ∷ flag ∷ segment (D.word s okey) 0 size)
  unfolding dump_shared_memory
  dump_shared_memory_lem flag =
      let all : dump_words D (suc size) s okey size 0 ≡ some (segment (D.word s okey) 0 size) =
        let whole : size - 0 ≡ size = omega arith in
        dump_words_lem (suc size) 0 (omega arith)
        ∙ ap (λ n. some (segment (D.word s okey) 0 n)) whole in
      rw (all, dump_shared_memory) refl

module _ (D : SharedStore) (okey size : ℕ) (small : size ≤ 0xffff_e000) where
  restore_step :
      (fuel i : ℕ) (stream buf rest : List ℕ) (t : D.Store)
      → ltb i size ≡ true
      → read_words (the_size size i) stream ≡ some (buf, rest)
      → restore_words D (suc fuel) okey size i stream t
        ≡ restore_words D fuel okey size ((i + 8192) % 0x1_0000_0000) rest (D.putchunk t okey i buf)
  unfolding restore_words
  restore_step fuel i stream buf rest t e r = rw (e, r, restore_words) refl

  restore_end :
      (fuel i : ℕ) (stream : List ℕ) (t : D.Store)
      → ltb i size ≡ false
      → restore_words D (suc fuel) okey size i stream t ≡ some (stream, t)
  unfolding restore_words
  restore_end fuel i stream t e = rw (e, restore_words) refl

  module _ (f : ℕ → ℕ) where
    chunk_read :
        (i : ℕ) (rest : List ℕ)
        → i < size
        → read_words (the_size size i) (segment f i (size - i) ++ rest)
          ≡ some (
            segment f i (the_size size i),
            segment f ((i + 8192) % 0x1_0000_0000) (size - (i + 8192) % 0x1_0000_0000) ++ rest,
          )
    chunk_read i rest lt =
        let next = (i + 8192) % 0x1_0000_0000 in
        let now = segment f i (the_size size i) in
        let later = segment f next (size - next) in
        ap (λ ws. read_words (the_size size i) (ws ++ rest)) (round_split f size i lt small)
        ∙ ap (read_words (the_size size i)) (append_assoc now later rest)
        ∙ ap (λ n. read_words n (now ++ (later ++ rest)))
            (sym (segment-length f i (the_size size i)))
        ∙ read_words_lem now (later ++ rest)

    module _ (i : ℕ) (t : D.Store) (lt : i < size) where
      fits : i + length (segment f i (the_size size i)) ≤ 0xffff_ffff
      fits =
          let e = segment-length f i (the_size size i) in
          let (p, q, r) = the_size-bounds size i lt in omega arith

      chunk_inside :
          (x : ℕ)
          → i ≤ x
          → x < i + the_size size i
          → D.word (D.putchunk t okey i (segment f i (the_size size i))) okey x ≡ f x
      chunk_inside x le below =
          let e = segment-length f i (the_size size i) in
          let words = segment f i (the_size size i) in
          let copied : copy i words (D.word t okey) x ≡ get_or words (x - i) 0 =
            unfold copy in ground arith in
          D.word-putchunk t okey i words x fits
          ∙ copied
          ∙ get_or-segment f i (the_size size i) (x - i) (omega arith)
          ∙ ap f (omega arith)

      chunk_before :
          (x : ℕ)
          → x < i
          → D.word (D.putchunk t okey i (segment f i (the_size size i))) okey x ≡ D.word t okey x
      chunk_before x below =
          let words = segment f i (the_size size i) in
          let copied : copy i words (D.word t okey) x ≡ D.word t okey x =
            unfold copy in ground arith in
          D.word-putchunk t okey i words x fits ∙ copied

    -- The storage that the loop leaves.
    abbrev Written : ℕ → D.Store → D.Store → Type 0
    Written i t t' =
        ((x : ℕ) → i ≤ x → x < size → D.word t' okey x ≡ f x)
        × (((x : ℕ) → x < i → D.word t' okey x ≡ D.word t okey x)
            × (((k x : ℕ) → k ≢ okey → x < 0xffff_ffff → D.word t' k x ≡ D.word t k x)
                × ((k : ℕ) → D.getinfo t' k ≡ D.getinfo t k)))

    restore_words_lem :
        (fuel i : ℕ) (rest : List ℕ) (t : D.Store)
        → size - i < fuel
        → (t' : D.Store) × ((restore_words D fuel okey size i (segment f i (size - i) ++ rest) t
              ≡ some (rest, t'))
            × Written i t t')
    restore_words_lem zero i rest t enough = absurd (omega arith)
    restore_words_lem (suc fuel) i rest t enough = elim (Bool-cases (ltb i size)) [
      | inr e ↦
          let none_left : size - i ≡ zero = ground arith in
          let empty : segment f i (size - i) ≡ [] = rw none_left (unfold segment in refl) in
          (
            t,
            (
              ap (λ ws. restore_words D (suc fuel) okey size i (ws ++ rest) t) empty
                  ∙ restore_end fuel i rest t e,
              (
                λ x le below. absurd (ground arith),
                (λ x below. refl, (λ k x other lt. refl, λ k. refl)),
              ),
            ),
          )
      | inl e ↦
          let lt : i < size = ground arith in
          let next = (i + 8192) % 0x1_0000_0000 in
          let words = segment f i (the_size size i) in
          let t1 = D.putchunk t okey i words in
          let (t', (run, (inside, (before, (others, infos))))) =
            restore_words_lem fuel next rest t1 (ground arith) in
          (
            t',
            (
              restore_step fuel i _ words (segment f next (size - next) ++ rest) t e
                    (chunk_read i rest lt)
                  ∙ run,
              (
                λ x le below. elim (ltb-cases x next) [
                  | inl early ↦
                      before x early
                      ∙ chunk_inside i t lt x le (ground (arith, next_lem size i x lt small below))
                  | inr late ↦ inside x late below
                ],
                (
                  λ x below. before x (omega arith) ∙ chunk_before i t lt x below,
                  (
                    λ k x other low.
                        others k x other low
                        ∙ D.word-putchunk_other t okey i words k x other (fits i t lt) low,
                    λ k. infos k ∙ D.getinfo-putchunk t okey i words k (fits i t lt),
                  ),
                ),
              ),
            ),
          )
    ]

  restored :
      (flag : ℕ) (stream rest objects : List ℕ) (t t' : D.Store)
      → restore_words D (suc size) okey size 0 stream t ≡ some (rest, t')
      → restore_shared_memory D (okey ∷ size ∷ flag ∷ stream) t objects
        ≡ some (okey, (rest, ((D.newobj okey flag size t').1, push_object okey objects)))
  unfolding restore_shared_memory
  restored flag stream rest objects t t' e = rw (e, restore_shared_memory) refl

  -- An object that is read from the stream: its words and its info, and everything else as it was.
  pub restore_shared_memory_lem :
      (f : ℕ → ℕ) (flag : ℕ) (rest objects : List ℕ) (t : D.Store)
      → D.getinfo t okey ≡ none
      → flag ≤ 0xffff_ffff
      → (t' : D.Store) × ((restore_shared_memory D
              ((okey ∷ size ∷ flag ∷ segment f 0 size) ++ rest)
              t
              objects
            ≡ some (okey, (rest, (t', push_object okey objects))))
          × (((x : ℕ) → x < size → D.word t' okey x ≡ f x)
              × ((D.getinfo t' okey ≡ some (flag, size))
                  × (((k x : ℕ) → k ≢ okey → x < 0xffff_ffff → D.word t' k x ≡ D.word t k x)
                      × ((k : ℕ) → k ≢ okey → D.getinfo t' k ≡ D.getinfo t k)))))
  restore_shared_memory_lem f flag rest objects t free word_flag =
      let whole : size - 0 ≡ size = omega arith in
      let (t1, (run, (inside, (before, (others, infos))))) =
        restore_words_lem f (suc size) 0 rest t (omega arith) in
      (
        (D.newobj okey flag size t1).1,
        (
          restored flag (segment f 0 size ++ rest) rest objects t t1 (
              ap (λ n. restore_words D (suc size) okey size 0 (segment f 0 n ++ rest) t) (sym whole)
              ∙ run),
          (
            λ x lt.
                D.word-newobj t1 okey flag size okey x (omega arith) ∙ inside x (omega arith) lt,
            (
              D.getinfo-newobj t1 okey flag size (infos okey ∙ free) word_flag,
              (
                λ k x other lt. D.word-newobj t1 okey flag size k x lt ∙ others k x other lt,
                λ k other. D.getinfo-newobj_other t1 okey flag size k other ∙ infos k,
              ),
            ),
          ),
        ),
      )
