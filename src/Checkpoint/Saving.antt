-- ===== src/Checkpoint/Saving.antt =====
-- What `DoCheckPoint` of Dogee/DogeeCheckpoint.cpp writes.
use dogee.Prelude.{
  ℕ, suc, ◌%◌, ◌≤◌, ◌≡◌, refl, ap, ◌∙◌, List, [], ◌∷◌, ◌++◌, Option, some, Bool-cases, true, false,
  not, ◌||◌, length, ◌==◌, arith, if◌then◌else◌, inl, inr,
}
use dogee.Checkpoint.Store.{SharedStore}
use dogee.Checkpoint.Stream.{write_members}
use dogee.Checkpoint.Process.{
  Process, Disk, write_file, remove_old, dump_module, dump_objects, checkpoint_words,
  check_point_unless, do_check_point,
}
use dogee.Checkpoint.Segment.{segment}
use dogee.Checkpoint.Restore.{dump_shared_memory_lem}
use dogee.Checkpoint.Objects.{IsSorted, AllSaveable, Restores, dump_objects_lem}

-- The checkpoint object of a program, as its callbacks change it.
abbrev pub Callback : Type 0
Callback = List (List ℕ) → List (List ℕ)

-- A process and its files after a checkpoint with the given words.
abbrev pub after : Callback → Process → Process
after func p = record p {
  checkpointlock = 1;
  checkpoint_cnt = suc p.checkpoint_cnt;
  object = func p.object;
}

abbrev pub saved : Process → List ℕ → Disk → Disk
saved p words d = record {
  checkpoints = remove_old p.checkpoint_cnt (write_file p.checkpoint_cnt words d.checkpoints);
  master = if p.is_master then some p.checkpoint_cnt else d.master;
}

pub file_found :
    (cnt : ℕ) (words : List ℕ) (files : ℕ → Option (List ℕ))
    → remove_old cnt (write_file cnt words files) cnt ≡ some words
unfolding remove_old write_file
file_found cnt words files = ground arith

module _ (D : SharedStore) where
  -- What the file of a process holds.
  abbrev pub file_words : Callback → List ℕ → List ℕ → Process → List ℕ
  file_words func statics words p =
      statics ++ ((length p.object_list % 0x1_0000_0000) ∷ (words ++ write_members (func p.object)))

  module _ (s : D.Store) (p : Process) where
    -- The words of the static variables, if the process saves them.
    abbrev pub statics_of : List ℕ
    statics_of =
        if p.is_master
        then 0 ∷ p.gloabl_fid ∷ 0xffff_ffff ∷ segment (D.word s 0) 0 p.gloabl_fid
        else []

    dump_module_lem : p.gloabl_fid ≤ 0xffff_e000 → dump_module D p s ≡ some statics_of
    unfolding dump_module
    dump_module_lem small = elim (Bool-cases p.is_master) [
      | inl m ↦ rw (m, dump_module) (dump_shared_memory_lem D s 0 p.gloabl_fid small 0xffff_ffff)
      | inr m ↦ rw (m, dump_module) refl
    ]

    words_written :
        (func : Callback) (statics words : List ℕ)
        → dump_module D p s ≡ some statics
        → dump_objects D s p.object_list ≡ some words
        → checkpoint_words D func s p ≡ some (file_words func statics words p)
    unfolding checkpoint_words
    words_written func statics words e f = rw (e, f, checkpoint_words) refl

    check_point_goes_on :
        (func : Callback) (d : Disk) (words : List ℕ)
        → checkpoint_words D func s p ≡ some words
        → check_point_unless D false func s p d ≡ some (true, (after func p, saved p words d))
    unfolding check_point_unless
    check_point_goes_on func d words e = rw (e, check_point_unless) refl

    goes_on :
        p.checkboject ≡ true
        → p.checkpointlock ≡ 0
        → (not p.checkboject || (p.checkpointlock == 1)) ≡ false
    goes_on o l = rw (o, l) refl

    checkpoint_made :
        (func : Callback) (d : Disk) (words : List ℕ)
        → p.checkboject ≡ true
        → p.checkpointlock ≡ 0
        → checkpoint_words D func s p ≡ some words
        → do_check_point D func s p d ≡ some (true, (after func p, saved p words d))
    unfolding do_check_point
    checkpoint_made func d words o l e =
        ap (λ b. check_point_unless D b func s p d) (goes_on o l)
        ∙ check_point_goes_on func d words e

    -- DoCheckPoint writes its file, and the words of the objects in it restore them.
    pub do_check_point_lem :
        (func : Callback) (d : Disk)
        → p.checkboject ≡ true
        → p.checkpointlock ≡ 0
        → p.gloabl_fid ≤ 0xffff_e000
        → IsSorted p.object_list
        → AllSaveable D s p.object_list
        → (words : List ℕ) × ((do_check_point D func s p d
              ≡ some (true, (after func p, saved p (file_words func statics_of words p) d)))
            × Restores D s p.object_list words)
    do_check_point_lem func d o l small sorted saveable =
        let (words, (dumped, restores)) = dump_objects_lem D s p.object_list saveable sorted in
        (
          words,
          (
            checkpoint_made func d (file_words func statics_of words p) o l
                (words_written func statics_of words (dump_module_lem small) dumped),
            restores,
          ),
        )
