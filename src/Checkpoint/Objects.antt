-- ===== src/Checkpoint/Objects.antt =====
-- The objects of a process in a checkpoint of Dogee/DogeeCheckpoint.cpp: `ForEachObject` of `DoCheckPoint` and
-- the loop of `DoRestart`.
use mathlib.Core.Option.{some-injective}
use mathlib.Core.List.{append_assoc, append-nil}
use dogee.Prelude.{
  ℕ, suc, ◌<◌, ◌≤◌, ◌≡◌, ◌≢◌, refl, sym, ap, ◌∙◌, List, [], ◌∷◌, ◌++◌, none, some, false, length,
  ◌==◌, ltb, arith,
}
use dogee.Objects.Alloc.{push_object}
use dogee.Checkpoint.Store.{SharedStore}
use dogee.Checkpoint.Dump.{dump_shared_memory, restore_shared_memory}
use dogee.Checkpoint.Process.{dump_objects, restore_objects}
use dogee.Checkpoint.Segment.{segment}
use dogee.Checkpoint.Restore.{dump_shared_memory_lem, restore_shared_memory_lem}

abbrev pub Above : ℕ → List ℕ → Type 0
Above a [] = Unit
Above a (k ∷ keys) = (a < k) × Above a keys

-- The list of objects is a set in the order of its keys.
abbrev pub IsSorted : List ℕ → Type 0
IsSorted [] = Unit
IsSorted (k ∷ keys) = Above k keys × IsSorted keys

abbrev AllUnder : List ℕ → ℕ → Type 0
AllUnder [] a = Unit
AllUnder (k ∷ keys) a = (k < a) × AllUnder keys a

-- The keys `objects` are below the first one of `keys`.
abbrev pub Precedes : List ℕ → List ℕ → Type 0
Precedes objects [] = Unit
Precedes objects (k ∷ keys) = AllUnder objects k

push_past :
    (key o : ℕ) (objects : List ℕ)
    → o < key
    → push_object key (o ∷ objects) ≡ o ∷ push_object key objects
unfolding push_object
push_past key o objects lt =
    let e : (key == o) ≡ false = ground arith in
    let e' : ltb key o ≡ false = ground arith in rw (e, e', push_object) refl

pub push_last :
    (key : ℕ) (objects : List ℕ)
    → AllUnder objects key
    → push_object key objects ≡ objects ++ (key ∷ [])
unfolding push_object
push_last key [] h = refl
push_last key (o ∷ objects) (lt, h) =
    push_past key o objects lt ∙ ap (λ os. o ∷ os) (push_last key objects h)

AllUnder-append :
    (objects : List ℕ) (k a : ℕ) → AllUnder objects k → k < a → AllUnder (objects ++ (k ∷ [])) a
AllUnder-append [] k a h lt = (lt, tt)
AllUnder-append (o ∷ objects) k a (l, h) lt = (omega arith, AllUnder-append objects k a h lt)

append-Precedes :
    (objects : List ℕ) (k : ℕ) (keys : List ℕ)
    → AllUnder objects k
    → Above k keys
    → Precedes (objects ++ (k ∷ [])) keys
append-Precedes objects k [] h above = tt
append-Precedes objects k (k' ∷ keys) h (lt, above) = AllUnder-append objects k k' h lt

pub nil-Precedes : (keys : List ℕ) → Precedes [] keys
nil-Precedes [] = tt
nil-Precedes (k ∷ keys) = tt

pub one-Precedes : (a : ℕ) (keys : List ℕ) → Above a keys → Precedes (a ∷ []) keys
one-Precedes a [] above = tt
one-Precedes a (k ∷ keys) (lt, above) = (lt, tt)

module _ (D : SharedStore) (s : D.Store) where
  -- Every key has an object of a size that the loop of `DumpSharedMemory` ends for, with a 32-bit flag.
  abbrev pub AllSaveable : List ℕ → Type 0
  AllSaveable [] = Unit
  AllSaveable (k ∷ keys) =
      ((info : ℕ × ℕ) × ((D.getinfo s k ≡ some info)
          × (info.0 ≤ 0xffff_ffff)
          × (info.1 ≤ 0xffff_e000)))
      × AllSaveable keys

  -- No key is in use.
  abbrev pub AllFree : List ℕ → Type 0
  AllFree [] = Unit
  AllFree (k ∷ keys) = (D.getinfo s k ≡ none) × AllFree keys

  -- The storage `t` has the objects of `s`, with their info and all their words.
  abbrev pub AllCopied : D.Store → List ℕ → Type 0
  AllCopied t [] = Unit
  AllCopied t (k ∷ keys) =
      ((D.getinfo t k ≡ D.getinfo s k)
        × ((flag size x : ℕ)
            → D.getinfo s k ≡ some (flag, size)
            → x < size
            → D.word t k x ≡ D.word s k x))
      × AllCopied t keys

  dump_one :
      (k flag size : ℕ) (keys words rest : List ℕ)
      → D.getinfo s k ≡ some (flag, size)
      → dump_shared_memory D s k size flag ≡ some words
      → dump_objects D s keys ≡ some rest
      → dump_objects D s (k ∷ keys) ≡ some (words ++ rest)
  unfolding dump_objects
  dump_one k flag size keys words rest e f g = rw (e, f, g, dump_objects) refl

module _ (D : SharedStore) where
  restore_one :
      (n okey : ℕ) (stream rest objects objects' : List ℕ) (t t' : D.Store)
      → restore_shared_memory D stream t objects ≡ some (okey, (rest, (t', objects')))
      → restore_objects D (suc n) stream t objects ≡ restore_objects D n rest t' objects'
  unfolding restore_objects
  restore_one n okey stream rest objects objects' t t' e = rw (e, restore_objects) refl

  pub still-AllFree :
      (t t' : D.Store) (k : ℕ) (keys : List ℕ)
      → AllFree D t keys
      → Above k keys
      → ((k' : ℕ) → k' ≢ k → D.getinfo t' k' ≡ D.getinfo t k')
      → AllFree D t' keys
  still-AllFree t t' k [] free above same = tt
  still-AllFree t t' k (k' ∷ keys) (e, free) (lt, above) same =
      (same k' (λ q. omega arith) ∙ e, still-AllFree t t' k keys free above same)

  -- What stays as it was when the objects `keys` are restored.
  abbrev pub Unmoved : List ℕ → D.Store → D.Store → Type 0
  Unmoved keys t t' =
      ((k x : ℕ) → Above k keys → x < 0xffff_ffff → D.word t' k x ≡ D.word t k x)
      × ((k : ℕ) → Above k keys → D.getinfo t' k ≡ D.getinfo t k)

  -- The words `words` restore the objects `keys` of `s`.
  abbrev pub Restores : D.Store → List ℕ → List ℕ → Type 0
  Restores s keys words =
      (rest objects : List ℕ) (t : D.Store)
      → AllFree D t keys
      → Precedes objects keys
      → (t' : D.Store) × ((restore_objects D (length keys) (words ++ rest) t objects
            ≡ some (rest, (t', objects ++ keys)))
          × (AllCopied D s t' keys × Unmoved keys t t'))

  none-Restores : (s : D.Store) → Restores s [] []
  unfolding restore_objects
  none-Restores s rest objects t free before = (
    t,
    (
      ap (λ os. some (rest, (t, os))) (sym (append-nil objects)),
      (tt, (λ k x above lt. refl, λ k above. refl)),
    ),
  )

  one-Restores :
      (s : D.Store) (k flag size : ℕ) (keys words : List ℕ)
      → D.getinfo s k ≡ some (flag, size)
      → flag ≤ 0xffff_ffff
      → size ≤ 0xffff_e000
      → Above k keys
      → Restores s keys words
      → Restores s (k ∷ keys) ((k ∷ size ∷ flag ∷ segment (D.word s k) 0 size) ++ words)
  one-Restores s k flag size keys words e word_flag small above later rest objects t (free, frees)
        before =
      let head = k ∷ size ∷ flag ∷ segment (D.word s k) 0 size in
      let (t1, (run, (inside, (info, (others, infos))))) =
        restore_shared_memory_lem D k size small (D.word s k) flag (words ++ rest) objects t free
          word_flag in
      let (t2, (run', (copied, (words_same, infos_same)))) =
        later rest (objects ++ (k ∷ [])) t1 (still-AllFree t t1 k keys frees above infos)
          (append-Precedes objects k keys before above) in
      (
        t2,
        (
          ap (λ ws. restore_objects D (suc (length keys)) ws t objects)
                (append_assoc head words rest)
              ∙ restore_one (length keys) k (head ++ (words ++ rest)) (words ++ rest) objects
                  (push_object k objects) t t1 run
              ∙ ap (restore_objects D (length keys) (words ++ rest) t1) (push_last k objects before)
              ∙ run'
              ∙ ap (λ os. some (rest, (t2, os))) (append_assoc objects (k ∷ []) keys),
          (
            (
              (
                infos_same k above ∙ info ∙ sym e,
                λ flag' size' x e' lt.
                    let same : size' ≡ size =
                      ap (λ (i : ℕ × ℕ). i.1) (some-injective _ _ (sym e' ∙ e)) in
                    words_same k x above (omega arith) ∙ inside x (omega arith),
              ),
              copied,
            ),
            (
              λ k' x (lt, up) low. words_same k' x up low ∙ others k' x (λ q. omega arith) low,
              λ k' (lt, up). infos_same k' up ∙ infos k' (λ q. omega arith),
            ),
          ),
        ),
      )

  -- The objects of a process are written, and what is written restores them.
  pub dump_objects_lem :
      (s : D.Store) (keys : List ℕ)
      → AllSaveable D s keys
      → IsSorted keys
      → (words : List ℕ) × ((dump_objects D s keys ≡ some words) × Restores s keys words)
  unfolding dump_objects
  dump_objects_lem s [] saveable sorted = ([], (refl, none-Restores s))
  dump_objects_lem s (k ∷ keys) (((flag, size), (e, word_flag, small)), saveable) (above, sorted) =
      let (words, (run, restores)) = dump_objects_lem s keys saveable sorted in
      (
        (k ∷ size ∷ flag ∷ segment (D.word s k) 0 size) ++ words,
        (
          dump_one D s k flag size keys _ words e (dump_shared_memory_lem D s k size small flag)
              run,
          one-Restores s k flag size keys words e word_flag small above restores,
        ),
      )
