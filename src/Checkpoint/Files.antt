-- ===== src/Checkpoint/Files.antt =====
-- The files that the checkpoints of Dogee/DogeeCheckpoint.cpp leave.
use dogee.Prelude.{
  ℕ, suc, ◌+◌, ◌-◌, ◌<◌, ◌≤◌, ◌≡◌, ◌≢◌, refl, ap, subst, ◌∙◌, List, [], ◌∷◌, Option, none, some,
  Bool, Bool-cases, true, false, ◌&&◌, ltb, length, if◌then◌else◌, arith, ◌⊎◌, inl, inr,
}
use dogee.Prelude.Int.{pos}
use dogee.Checkpoint.Store.{SharedStore}
use dogee.Checkpoint.Process.{
  Process, Disk, write_file, remove_old, remove_last, remove_checkpoint_files, do_check_point,
  reset_checkpoint_lock, enter_all, master_check_check_point,
}
use dogee.Checkpoint.Objects.{IsSorted, AllSaveable}
use dogee.Checkpoint.Saving.{Callback, after, saved, file_words, statics_of, do_check_point_lem}

-- Of the files only those with the last two numbers below `n` are there.
abbrev pub LastTwo : ℕ → (ℕ → Option (List ℕ)) → Type 0
LastTwo n files =
    ((k : ℕ) → k < n → n ≤ k + 2 → (words : List ℕ) × (files k ≡ some words))
    × ((k : ℕ) → (n ≤ k) ⊎ (k + 2 < n) → files k ≡ none)

file_cases : (cnt k : ℕ) → (k ≡ cnt) ⊎ ((k < cnt) ⊎ (cnt < k))
file_cases cnt k = ground arith

written_here :
    (cnt k : ℕ) (words : List ℕ) (files : ℕ → Option (List ℕ))
    → k ≡ cnt
    → remove_old cnt (write_file cnt words files) k ≡ some words
unfolding remove_old write_file
written_here cnt k words files e = ground arith

kept_here :
    (cnt k : ℕ) (words : List ℕ) (files : ℕ → Option (List ℕ))
    → (cnt < k) ⊎ ((k < cnt) × (k + 2 ≢ cnt))
    → remove_old cnt (write_file cnt words files) k ≡ files k
unfolding remove_old write_file
kept_here cnt k words files h = ground (arith, h)

removed_here :
    (cnt k : ℕ) (words : List ℕ) (files : ℕ → Option (List ℕ))
    → k + 2 ≡ cnt
    → remove_old cnt (write_file cnt words files) k ≡ none
unfolding remove_old write_file
removed_here cnt k words files e = ground arith

saved-LastTwo :
    (cnt : ℕ) (words : List ℕ) (files : ℕ → Option (List ℕ))
    → LastTwo cnt files
    → LastTwo (suc cnt) (remove_old cnt (write_file cnt words files))
saved-LastTwo cnt words files (there, gone) = (
  λ k lt near. elim (file_cases cnt k) [
    | inl e ↦ (words, written_here cnt k words files e)
    | inr (inl below) ↦
        let (ws, found) = there k below (omega arith) in
        (ws, kept_here cnt k words files (inr (below, λ e. omega arith)) ∙ found)
    | inr (inr above) ↦ absurd (omega arith)
  ],
  λ k out. elim (file_cases cnt k) [
    | inl e ↦ absurd (ground (arith, out))
    | inr (inl below) ↦ elim (file_cases cnt (k + 2)) [
      | inl e ↦ removed_here cnt k words files e
      | inr (inl far) ↦
          kept_here cnt k words files (inr (below, λ e. omega arith)) ∙ gone k (inr far)
      | inr (inr near) ↦ absurd (ground (arith, out))
    ]
    | inr (inr above) ↦ kept_here cnt k words files (inl above) ∙ gone k (inl (omega arith))
  ],
)

file_gone :
    (cnt k : ℕ) (files : ℕ → Option (List ℕ))
    → ((cnt ≤ k) ⊎ (k + 2 < cnt) → files k ≡ none)
    → remove_old cnt (remove_last cnt files) k ≡ none
unfolding remove_old remove_last
file_gone cnt k files h = elim (file_cases cnt k) [
  | inl e ↦ let gone = h (inl (omega arith)) in ground arith
  | inr (inl below) ↦ elim (file_cases cnt (k + 2)) [
    | inl e ↦ ground arith
    | inr (inl far) ↦ let gone = h (inr far) in ground arith
    | inr (inr near) ↦ ground arith
  ]
  | inr (inr above) ↦ let gone = h (inl (omega arith)) in ground arith
]

all_removed :
    (n : ℕ) (p : Process) (d : Disk)
    → p.checkpoint_cnt ≡ n
    → LastTwo n d.checkpoints
    → (k : ℕ) → (remove_checkpoint_files p d).checkpoints k ≡ none
unfolding remove_checkpoint_files
all_removed n p d e (there, gone) k =
    ap (λ c. remove_old c (remove_last c d.checkpoints) k) e ∙ file_gone n k d.checkpoints (gone k)

read_number :
    (q : Process) (d : Disk) (n : ℕ)
    → d.master ≡ some n
    → master_check_check_point q d ≡ (pos n, record q { checkpoint_cnt = n })
unfolding master_check_check_point
read_number q d n e = rw (e, master_check_check_point) refl

read_same :
    (q : Process) (d d' : Disk)
    → d'.master ≡ d.master
    → master_check_check_point q d' ≡ master_check_check_point q d
unfolding master_check_check_point
read_same q d d' e = rw (e, master_check_check_point) refl

master_read :
    (q : Process) (d d' : Disk) (b : Bool) (n : ℕ)
    → d'.master ≡ (if b then some n else d.master)
    → master_check_check_point q d'
      ≡ (if b then (pos n, record q { checkpoint_cnt = n }) else master_check_check_point q d)
master_read q d d' true n e = read_number q d' n e
master_read q d d' false n e = read_same q d d' e

module _ (D : SharedStore) where
  -- Every call finds the objects of the process in its storage.
  abbrev pub AllCallsSaveable : List ℕ → List (Callback × D.Store) → Type 0
  AllCallsSaveable objects [] = Unit
  AllCallsSaveable objects ((func, s) ∷ calls) =
      AllSaveable D s objects × AllCallsSaveable objects calls

  enter_one :
      (func : Callback) (s : D.Store) (calls : List (Callback × D.Store)) (p p' : Process)
      (d d' : Disk)
      → do_check_point D func s p d ≡ some (true, (p', d'))
      → enter_all D ((func, s) ∷ calls) p d ≡ enter_all D calls (reset_checkpoint_lock D p') d'
  unfolding enter_all
  enter_one func s calls p p' d d' e = rw (e, enter_all) refl

  enter_none : (p : Process) (d : Disk) → enter_all D [] p d ≡ some (p, d)
  unfolding enter_all
  enter_none p d = refl

  -- The number in the file of the master.
  abbrev Numbered : Process → Option ℕ → ℕ → Disk → Type 0
  Numbered p before n d = d.master ≡ (if p.is_master && ltb 0 n then some (n - 1) else before)

  saved-Numbered :
      (p : Process) (before : Option ℕ) (words : List ℕ) (d : Disk)
      → Numbered p before p.checkpoint_cnt d
      → Numbered p before (suc p.checkpoint_cnt) (saved p words d)
  saved-Numbered p before words d h =
      let last : suc p.checkpoint_cnt - 1 ≡ p.checkpoint_cnt = omega arith in
      let some_files : ltb 0 (suc p.checkpoint_cnt) ≡ true = ground arith in
      rw (last, some_files)
        (elim (Bool-cases p.is_master) [ inl m ↦ rw m refl | inr m ↦ rw m (rw m at h) ])

  enter_all_from :
      (before : Option ℕ) (calls : List (Callback × D.Store)) (p : Process) (d : Disk)
      → p.checkboject ≡ true
      → p.checkpointlock ≡ 0
      → p.gloabl_fid ≤ 0xffff_e000
      → IsSorted p.object_list
      → AllCallsSaveable p.object_list calls
      → LastTwo p.checkpoint_cnt d.checkpoints
      → Numbered p before p.checkpoint_cnt d
      → (p' : Process) × ((d' : Disk) × ((enter_all D calls p d ≡ some (p', d'))
            × (p'.checkpoint_cnt ≡ p.checkpoint_cnt + length calls)
            × LastTwo (p.checkpoint_cnt + length calls) d'.checkpoints
            × Numbered p before (p.checkpoint_cnt + length calls) d'))
  unfolding reset_checkpoint_lock
  enter_all_from before [] p d o l small sorted saveable two numbered =
      let e : p.checkpoint_cnt ≡ p.checkpoint_cnt + 0 = omega arith in
      (
        p,
        (
          d,
          (
            enter_none p d,
            e,
            subst (λ n. LastTwo n d.checkpoints) e two,
            subst (λ n. Numbered p before n d) e numbered,
          ),
        ),
      )
  enter_all_from before ((func, s) ∷ calls) p d o l small sorted (now, later) two numbered =
      let (words, (made, restores)) = do_check_point_lem D s p func d o l small sorted now in
      let file = file_words D func (statics_of D s p) words p in
      let p1 = reset_checkpoint_lock D (after func p) in
      let d1 = saved p file d in
      let (p', (d', (run, counted, last, master))) =
        enter_all_from before calls p1 d1 o refl small sorted later
          (saved-LastTwo p.checkpoint_cnt file d.checkpoints two)
          (saved-Numbered p before file d numbered) in
      let e : suc p.checkpoint_cnt + length calls ≡ p.checkpoint_cnt + suc (length calls) =
        omega arith in
      (
        p',
        (
          d',
          (
            enter_one func s calls p (after func p) d d1 made ∙ run,
            counted ∙ e,
            subst (λ n. LastTwo n d'.checkpoints) e last,
            subst (λ n. Numbered p before n d') e master,
          ),
        ),
      )

  -- Any number of checkpoints of a new process that has none of its numbered files all end. The files are
  -- numbered from 0 on, and afterwards those of the last two are there and no other. If the process is the
  -- master, a process that starts then gets the number of the last one from MasterCheckCheckPoint, and has it
  -- as its counter. In the process that made the checkpoints, remove_checkpoint_files removes all the files. The
  -- lock is free, every checkpoint finds the objects of the process in its storage, with 32-bit flags and at
  -- most 2 ^ 32 - 8192 words, the static variables are no more, and the list of objects is in order.
  pub enter_all_lem :
      (calls : List (Callback × D.Store)) (p q : Process) (d : Disk)
      → p.checkboject ≡ true
      → p.checkpointlock ≡ 0
      → p.checkpoint_cnt ≡ 0
      → p.gloabl_fid ≤ 0xffff_e000
      → IsSorted p.object_list
      → AllCallsSaveable p.object_list calls
      → ((k : ℕ) → d.checkpoints k ≡ none)
      → (p' : Process) × ((d' : Disk) × ((enter_all D calls p d ≡ some (p', d'))
            × (p'.checkpoint_cnt ≡ length calls)
            × LastTwo (length calls) d'.checkpoints
            × (master_check_check_point q d' ≡ (
                if p.is_master && ltb 0 (length calls)
                then (pos (length calls - 1), record q { checkpoint_cnt = length calls - 1 })
                else master_check_check_point q d))
            × ((k : ℕ) → (remove_checkpoint_files p' d').checkpoints k ≡ none)))
  enter_all_lem calls p q d o l zero_cnt small sorted saveable empty =
      let e : p.checkpoint_cnt + length calls ≡ length calls = omega arith in
      let none_yet : ltb 0 p.checkpoint_cnt ≡ false = ground arith in
      let (p', (d', (run, counted, last, master))) =
        enter_all_from d.master calls p d o l small sorted saveable
          (λ k lt near. absurd (omega arith), λ k out. empty k)
          (elim (Bool-cases p.is_master) [ inl m ↦ rw (m, none_yet) refl | inr m ↦ rw m refl ]) in
      (
        p',
        (
          d',
          (
            run,
            counted ∙ e,
            subst (λ n. LastTwo n d'.checkpoints) e last,
            master_read q d d' (p.is_master && ltb 0 (length calls)) (length calls - 1)
                (subst (λ n. Numbered p d.master n d') e master),
            all_removed (length calls) p' d' (counted ∙ e)
                (subst (λ n. LastTwo n d'.checkpoints) e last),
          ),
        ),
      )
