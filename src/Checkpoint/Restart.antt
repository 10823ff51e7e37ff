-- ===== src/Checkpoint/Restart.antt =====
-- A checkpoint and the restart from it (Dogee/DogeeCheckpoint.cpp).
use dogee.Prelude.{
  ℕ, suc, ◌%◌, ◌<◌, ◌≤◌, ◌≡◌, refl, ap, subst, ◌∙◌, List, [], ◌∷◌, ◌++◌, map, some, Bool-cases,
  true, false, length, arith, if◌then◌else◌, inl, inr,
}
use dogee.Checkpoint.Store.{SharedStore}
use dogee.Checkpoint.Stream.{write_members}
use dogee.Checkpoint.Dump.{restore_shared_memory}
use dogee.Checkpoint.Process.{
  Process, Disk, do_check_point, init_shared_const, restore_objects, restart_objects, restart_from,
  do_restart,
}
use dogee.Checkpoint.Segment.{segment}
use dogee.Checkpoint.Restore.{restore_shared_memory_lem}
use dogee.Checkpoint.Objects.{
  IsSorted, AllSaveable, AllFree, AllCopied, still-AllFree, nil-Precedes, one-Precedes, push_last,
}
use dogee.Checkpoint.Saving.{
  Callback, after, saved, file_found, file_words, statics_of, do_check_point_lem,
}
use dogee.Checkpoint.Loading.{
  objects_restarted, members_read, module_restarted, from_slave, from_master, file_restarted,
}

module _ (D : SharedStore) where
  module _ (func func_restart : Callback) (s t : D.Store) (p q : Process) (d : Disk) where
    -- What a restart leaves: the checkpoint object, the list of objects with the keys `first` before those
    -- that were in it, the objects in the storage, and on the master the static variables.
    abbrev pub Recovered : List ℕ → Process → Disk → D.Store → Process → Type 0
    Recovered first p' d' t' q' =
        (do_check_point D func s p d ≡ some (true, (p', d')))
        × (do_restart D func_restart t q d' ≡ some (t', q'))
        × (q'.object ≡ func_restart (func p.object))
        × (q'.object_list ≡ first ++ p.object_list)
        × (q'.checkpoint_cnt ≡ p'.checkpoint_cnt)
        × AllCopied D s t' p.object_list
        × ((x : ℕ) → x < (if p.is_master then p.gloabl_fid else 0) → D.word t' 0 x ≡ D.word s 0 x)

    abbrev pub Recovers : List ℕ → Type 0
    Recovers first =
        (p' : Process) × ((d' : Disk) × ((t' : D.Store) × ((q' : Process) × Recovered first p' d' t'
                q')))

    module _ (o : p.checkboject ≡ true) (l : p.checkpointlock ≡ 0)
        (small : p.gloabl_fid ≤ 0xffff_e000) (few : length p.object_list < 0x8000_0000)
        (sorted : IsSorted (0 ∷ p.object_list)) (saveable : AllSaveable D s p.object_list)
        (free : AllFree D t (0 ∷ p.object_list)) (qo : q.checkboject ≡ true)
        (cnt : q.checkpoint_cnt ≡ p.checkpoint_cnt) (fresh : q.object_list ≡ [])
        (layout : map length q.object ≡ map length (func p.object)) where
      slave_restart : p.is_master ≡ false → q.is_master ≡ false → Recovers []
      slave_restart pm qm =
          let (words, (made, restores)) =
            do_check_point_lem D s p func d o l small (sorted.1) saveable in
          let file = file_words D func (statics_of D s p) words p in
          let d' = saved p file d in
          let q1 : Process = record q { checkpoint_cnt = suc q.checkpoint_cnt } in
          let members = write_members (func p.object) in
          let nothing : statics_of D s p ≡ [] = rw pm refl in
          let (t', (run, (copied, unmoved))) =
            restores members [] t (free.1) (nil-Precedes p.object_list) in
          (
            after func p,
            (
              d',
              (
                t',
                (
                  record q1 {
                    object_list = [] ++ p.object_list;
                    object = func_restart (func p.object);
                  },
                  (
                    made,
                    file_restarted D func_restart file t q d' false qo qm
                          (ap d'.checkpoints cnt ∙ file_found p.checkpoint_cnt file d.checkpoints)
                        ∙ from_slave D func_restart file t q1
                        ∙ ap
                            (λ ws.
                              restart_objects D func_restart
                                (ws
                                  ++ ((length p.object_list % 0x1_0000_0000) ∷ (words ++ members)))
                                t q1)
                            nothing
                        ∙ objects_restarted D func_restart (length p.object_list) (words ++ members)
                            members p.object_list [] (func p.object) t t' q1 few
                            (ap (restore_objects D (length p.object_list) (words ++ members) t)
                                fresh
                              ∙ run)
                            (members_read D (map length q.object) (func p.object) layout),
                    refl,
                    refl,
                    ap suc cnt,
                    copied,
                    λ x lt. absurd (ground (arith, pm)),
                  ),
                ),
              ),
            ),
          )

      master_restart : p.is_master ≡ true → q.is_master ≡ true → Recovers (0 ∷ [])
      master_restart pm qm =
          let (words, (made, restores)) =
            do_check_point_lem D s p func d o l small (sorted.1) saveable in
          let file = file_words D func (statics_of D s p) words p in
          let d' = saved p file d in
          let q1 : Process = record q { checkpoint_cnt = suc q.checkpoint_cnt } in
          let members = write_members (func p.object) in
          let statics = 0 ∷ p.gloabl_fid ∷ 0xffff_ffff ∷ segment (D.word s 0) 0 p.gloabl_fid in
          let all : statics_of D s p ≡ statics = rw pm refl in
          let behind = (length p.object_list % 0x1_0000_0000) ∷ (words ++ members) in
          let (t1, (run, (inside, (info, (others, infos))))) =
            restore_shared_memory_lem D 0 p.gloabl_fid small (D.word s 0) 0xffff_ffff behind [] t
              (free.0) (omega arith) in
          let q2 : Process = record q1 {
            object_list = 0 ∷ [];
            registered = false;
            constants = init_shared_const D q1.registered t1 q1.constants;
          } in
          let (t', (run', (copied, (words_same, infos_same)))) =
            restores members (0 ∷ []) t1
              (still-AllFree D t t1 0 p.object_list (free.1) (sorted.0) infos)
              (one-Precedes 0 p.object_list (sorted.0)) in
          (
            after func p,
            (
              d',
              (
                t',
                (
                  record q2 {
                    object_list = 0 ∷ p.object_list;
                    object = func_restart (func p.object);
                  },
                  (
                    made,
                    file_restarted D func_restart file t q d' true qo qm
                          (ap d'.checkpoints cnt ∙ file_found p.checkpoint_cnt file d.checkpoints)
                        ∙ ap (λ ws. restart_from D true func_restart (ws ++ behind) t q1) all
                        ∙ from_master D func_restart (statics ++ behind) behind t t1 q1 q2 (
                            module_restarted D (statics ++ behind) behind (0 ∷ []) t t1 q1 (
                              ap (restore_shared_memory D (statics ++ behind) t) fresh
                              ∙ run
                              ∙ ap (λ os. some (0, (behind, (t1, os)))) (push_last 0 [] tt)))
                        ∙ objects_restarted D func_restart (length p.object_list) (words ++ members)
                            members (0 ∷ p.object_list) [] (func p.object) t1 t' q2 few run'
                            (members_read D (map length q.object) (func p.object) layout),
                    refl,
                    refl,
                    ap suc cnt,
                    copied,
                    λ x lt.
                        let below : x < p.gloabl_fid = ground (arith, pm) in
                        words_same 0 x sorted.0 (omega arith) ∙ inside x below,
                  ),
                ),
              ),
            ),
          )

  -- DoCheckPoint and then DoRestart, in another process of the same program and over a storage that has none
  -- of the objects, both end: the process has its checkpoint object, to which funcRestart is applied, and its list of objects, on the
  -- master with the key 0 in front, and the storage has every object with its flag, its size and all its
  -- words, on the master the static variables too. The objects are those of the list, which is in order and
  -- has no 0, they have at most 2 ^ 32 - 8192 words, and there are fewer than 2 ^ 31 of them. The lock is free,
  -- and the callbacks change only the checkpoint object and keep the layout of its members.
  pub do_restart-do_check_point :
      (func func_restart : Callback) (s t : D.Store) (p q : Process) (d : Disk)
      → p.checkboject ≡ true
      → p.checkpointlock ≡ 0
      → p.gloabl_fid ≤ 0xffff_e000
      → length p.object_list < 0x8000_0000
      → IsSorted (0 ∷ p.object_list)
      → AllSaveable D s p.object_list
      → AllFree D t (0 ∷ p.object_list)
      → q.checkboject ≡ true
      → q.is_master ≡ p.is_master
      → q.checkpoint_cnt ≡ p.checkpoint_cnt
      → q.object_list ≡ []
      → map length q.object ≡ map length (func p.object)
      → Recovers func func_restart s t p q d (if p.is_master then 0 ∷ [] else [])
  do_restart-do_check_point func func_restart s t p q d o l small few sorted saveable free qo same
        cnt fresh layout =
      elim (Bool-cases p.is_master) [
        | inl m ↦
            let e : (0 ∷ []) ≡ (if p.is_master then 0 ∷ [] else []) = rw m refl in
            subst (λ first. Recovers func func_restart s t p q d first) e
              (master_restart func func_restart s t p q d o l small few sorted saveable free qo cnt
                fresh layout m (same ∙ m))
        | inr m ↦
            let e : [] ≡ (if p.is_master then 0 ∷ [] else []) = rw m refl in
            subst (λ first. Recovers func func_restart s t p q d first) e
              (slave_restart func func_restart s t p q d o l small few sorted saveable free qo cnt
                fresh layout m (same ∙ m))
      ]
