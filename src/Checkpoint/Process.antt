-- ===== src/Checkpoint/Process.antt =====
-- `DoCheckPoint`, `DoRestart` and `MasterCheckCheckPoint` of Dogee/DogeeCheckpoint.cpp, for one process.
use dogee.Prelude.{
  ℕ, zero, suc, ◌-◌, ◌%◌, List, [], ◌∷◌, ◌++◌, map, Option, none, some, Bool, true, false, not,
  ◌&&◌, ◌||◌, length, ◌==◌, ltb, leb, if◌then◌else◌,
}
use dogee.Prelude.Int.{ℤ, pos, negsuc}
use dogee.Checkpoint.Store.{SharedStore}
use dogee.Checkpoint.Stream.{write_members, read_members}
use dogee.Checkpoint.Dump.{dump_shared_memory, restore_shared_memory}

-- The variables of a process: `DogeeEnv::isMaster()`, whether there is a `DogeeEnv::checkboject`, the lock
-- and the counter, `gloabl_fid`, `object_list`, whether the shared constants are still to be loaded, their
-- fields and values, and the
-- members of the checkpoint object.
pub record Process : Type 0 where
  pub is_master : Bool
  pub checkboject : Bool
  pub checkpointlock : ℕ
  pub checkpoint_cnt : ℕ
  pub gloabl_fid : ℕ
  pub object_list : List ℕ
  pub registered : Bool
  pub constants : List (ℕ × ℕ)
  pub object : List (List ℕ)

-- The files `<application>.<node>.<number>.checkpoint` of the node, and `<application>.master`.
pub record Disk : Type 0 where
  pub checkpoints : ℕ → Option (List ℕ)
  pub master : Option ℕ

-- A file is written.
unfoldable pub write_file : ℕ → List ℕ → (ℕ → Option (List ℕ)) → ℕ → Option (List ℕ)
write_file n words files k = if k == n then some words else files k

-- `remove` of the file with the number cnt - 2; there is none with a negative number.
unfoldable pub remove_old : ℕ → (ℕ → Option (List ℕ)) → ℕ → Option (List ℕ)
remove_old cnt files k = if leb 2 cnt && (k == cnt - 2) then none else files k

-- `remove` of the file with the number cnt - 1
unfoldable pub remove_last : ℕ → (ℕ → Option (List ℕ)) → ℕ → Option (List ℕ)
remove_last cnt files k = if leb 1 cnt && (k == cnt - 1) then none else files k

-- `remove_checkpoint_files`
unfoldable pub remove_checkpoint_files : Process → Disk → Disk
remove_checkpoint_files p d = record {
  checkpoints = remove_old p.checkpoint_cnt (remove_last p.checkpoint_cnt d.checkpoints);
  master = none;
}

-- `MasterCheckCheckPoint`: it returns the number in the file, which becomes the counter of the process, or -1
-- where there is no file.
unfoldable pub master_check_check_point : Process → Disk → ℤ × Process
master_check_check_point p d = elim d.master [
  | none ↦ (negsuc 0, p)
  | some n ↦ (pos n, record p { checkpoint_cnt = n })
]

module _ (D : SharedStore) where
  -- `ForEachObject` with the call of `DumpSharedMemory`; without an info the flag and the size are
  -- undefined.
  unfoldable pub dump_objects : D.Store → List ℕ → Option (List ℕ)
  dump_objects s [] = some []
  dump_objects s (key ∷ keys) = elim (D.getinfo s key) [
    | none ↦ none
    | some (flag, size) ↦ elim (dump_shared_memory D s key size flag) [
      | none ↦ none
      | some words ↦ elim (dump_objects s keys) [ none ↦ none | some rest ↦ some (words ++ rest) ]
    ]
  ]

  -- The static variables, which the master saves.
  unfoldable pub dump_module : Process → D.Store → Option (List ℕ)
  dump_module p s =
      if p.is_master then dump_shared_memory D s 0 p.gloabl_fid 0xffff_ffff else some []

  -- What `DoCheckPoint` writes in its file. `funcCheckPoint`, which is the program's, is a function on its
  -- checkpoint object.
  unfoldable pub checkpoint_words :
      (List (List ℕ) → List (List ℕ)) → D.Store → Process → Option (List ℕ)
  checkpoint_words func_check_point s p = elim (dump_module p s) [
    | none ↦ none
    | some statics ↦ elim (dump_objects s p.object_list) [
      | none ↦ none
      | some words ↦ some (
          statics
          ++ ((length p.object_list % 0x1_0000_0000)
              ∷ (words ++ write_members (func_check_point p.object))))
    ]
  ]

  -- `DoCheckPoint` behind its two tests, `quits` if one of them makes it return; `none` where it reads an
  -- undefined size or its loop does not end.
  unfoldable pub check_point_unless :
      (quits : Bool)
      → (List (List ℕ) → List (List ℕ))
      → D.Store
      → Process
      → Disk
      → Option (Bool × (Process × Disk))
  check_point_unless true func_check_point s p d = some (false, (p, d))
  check_point_unless false func_check_point s p d = elim (checkpoint_words func_check_point s p) [
    | none ↦ none
    | some words ↦ some (
      true,
      (
        record p {
          checkpointlock = 1;
          checkpoint_cnt = suc p.checkpoint_cnt;
          object = func_check_point p.object;
        },
        record {
          checkpoints =
              remove_old p.checkpoint_cnt (write_file p.checkpoint_cnt words d.checkpoints);
          master = if p.is_master then some p.checkpoint_cnt else d.master;
        },
      ),
    )
  ]

  -- `DoCheckPoint`
  unfoldable pub do_check_point :
      (List (List ℕ) → List (List ℕ)) → D.Store → Process → Disk → Option (Bool × (Process × Disk))
  do_check_point func_check_point s p d =
      check_point_unless (not p.checkboject || (p.checkpointlock == 1)) func_check_point s p d

  -- `ResetCheckpointLock`
  unfoldable pub reset_checkpoint_lock : Process → Process
  reset_checkpoint_lock p = record p { checkpointlock = 0 }

  -- `SharedConst::load` of every constant, from its field
  unfoldable pub load_constants : D.Store → List (ℕ × ℕ) → List (ℕ × ℕ)
  load_constants s [] = []
  load_constants s ((field, value) ∷ constants) =
      (field, D.word s 0 field) ∷ load_constants s constants

  -- `InitSharedConst`, which loads the constants once
  unfoldable pub init_shared_const : (registered : Bool) → D.Store → List (ℕ × ℕ) → List (ℕ × ℕ)
  init_shared_const false s constants = constants
  init_shared_const true s constants = load_constants s constants

  -- The loop of `DoRestart` over the objects.
  unfoldable pub restore_objects :
      ℕ → List ℕ → D.Store → List ℕ → Option (List ℕ × (D.Store × List ℕ))
  restore_objects zero stream s objects = some (stream, (s, objects))
  restore_objects (suc n) stream s objects = elim (restore_shared_memory D stream s objects) [
    | none ↦ none
    | some (okey, (rest, (s', objects'))) ↦ restore_objects n rest s' objects'
  ]

  -- `DoRestart` from the number of objects on; a negative number makes no round. `funcRestart` is a function
  -- on the checkpoint object too.
  unfoldable pub restart_objects :
      (List (List ℕ) → List (List ℕ)) → List ℕ → D.Store → Process → Option (D.Store × Process)
  restart_objects func_restart [] s p = none
  restart_objects func_restart (numobj ∷ stream) s p =
      elim (restore_objects (if ltb numobj 0x8000_0000 then numobj else 0) stream s p.object_list) [
        | none ↦ none
        | some (rest, (s', objects)) ↦ elim (read_members (map length p.object) rest) [
          | none ↦ none
          | some (members, end) ↦
              some (s', record p { object_list = objects; object = func_restart members })
        ]
      ]

  -- The part of `DoRestart` for the master, with `assert(modulekey == 0)`.
  unfoldable pub restart_module : List ℕ → D.Store → Process → Option (List ℕ × (D.Store × Process))
  restart_module stream s p = elim (restore_shared_memory D stream s p.object_list) [
    | none ↦ none
    | some (suc modulekey, found) ↦ none
    | some (zero, (rest, (s', objects))) ↦ some (
      rest,
      (
        s',
        record p {
          object_list = objects;
          registered = false;
          constants = init_shared_const p.registered s' p.constants;
        },
      ),
    )
  ]

  -- `DoRestart` with its file, on the master or not; `none` where an `assert` or a read fails.
  unfoldable pub restart_from :
      (is_master : Bool)
      → (List (List ℕ) → List (List ℕ))
      → List ℕ
      → D.Store
      → Process
      → Option (D.Store × Process)
  restart_from false func_restart stream s p = restart_objects func_restart stream s p
  restart_from true func_restart stream s p = elim (restart_module stream s p) [
    | none ↦ none
    | some (rest, (s', p')) ↦ restart_objects func_restart rest s' p'
  ]

  unfoldable pub restart_if :
      (checkboject : Bool)
      → (List (List ℕ) → List (List ℕ))
      → D.Store
      → Process
      → Disk
      → Option (D.Store × Process)
  restart_if false func_restart s p d = some (s, p)
  restart_if true func_restart s p d = elim (d.checkpoints p.checkpoint_cnt) [
    | none ↦ none
    | some stream ↦
        restart_from p.is_master func_restart stream s
          (record p { checkpoint_cnt = suc p.checkpoint_cnt })
  ]

  -- `DoRestart`
  unfoldable pub do_restart :
      (List (List ℕ) → List (List ℕ)) → D.Store → Process → Disk → Option (D.Store × Process)
  do_restart func_restart s p d = restart_if p.checkboject func_restart s p d

  -- Calls of `DCheckpointBarrier::Enter` one after the other, without its barriers: each calls `DoCheckPoint`
  -- and resets the lock if that took it. A call has its callback and the storage that it finds.
  unfoldable pub enter_all :
      List ((List (List ℕ) → List (List ℕ)) × D.Store) → Process → Disk → Option (Process × Disk)
  enter_all [] p d = some (p, d)
  enter_all ((func_check_point, s) ∷ calls) p d = elim (do_check_point func_check_point s p d) [
    | none ↦ none
    | some (false, (p', d')) ↦ enter_all calls p' d'
    | some (true, (p', d')) ↦ enter_all calls (reset_checkpoint_lock p') d'
  ]
