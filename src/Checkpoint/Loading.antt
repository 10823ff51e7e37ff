-- ===== src/Checkpoint/Loading.antt =====
-- The parts of `DoRestart` of Dogee/DogeeCheckpoint.cpp.
use dogee.Prelude.{
  ℕ, suc, ◌%◌, ◌<◌, ◌≡◌, refl, sym, ap, ◌∙◌, List, [], ◌∷◌, map, some, Bool, true, false, length,
  ltb, arith,
}
use mathlib.Core.List.{append-nil}
use dogee.Checkpoint.Store.{SharedStore}
use dogee.Checkpoint.Stream.{write_members, read_members, read_members_lem}
use dogee.Checkpoint.Dump.{restore_shared_memory}
use dogee.Checkpoint.Process.{
  Process, Disk, init_shared_const, restore_objects, restart_objects, restart_module, restart_from,
  restart_if, do_restart,
}
use dogee.Checkpoint.Saving.{Callback}

module _ (D : SharedStore) where
  pub objects_restarted :
      (func : Callback) (numobj : ℕ) (stream rest objects end : List ℕ) (members : List (List ℕ))
      (t t' : D.Store) (q : Process)
      → numobj < 0x8000_0000
      → restore_objects D numobj stream t q.object_list ≡ some (rest, (t', objects))
      → read_members (map length q.object) rest ≡ some (members, end)
      → restart_objects D func ((numobj % 0x1_0000_0000) ∷ stream) t q
        ≡ some (t', record q { object_list = objects; object = func members })
  unfolding restart_objects
  objects_restarted func numobj stream rest objects end members t t' q small e f =
      let same : numobj % 0x1_0000_0000 ≡ numobj = omega arith in
      let few : ltb numobj 0x8000_0000 ≡ true = ground arith in
      rw (same, few, e, f, restart_objects) refl

  pub members_read :
      (sizes : List ℕ) (members : List (List ℕ))
      → sizes ≡ map length members
      → read_members sizes (write_members members) ≡ some (members, [])
  members_read sizes members e =
      ap (λ ns. read_members ns (write_members members)) e
      ∙ ap (read_members (map length members)) (sym (append-nil (write_members members)))
      ∙ read_members_lem members []

  pub module_restarted :
      (stream rest objects : List ℕ) (t t' : D.Store) (q : Process)
      → restore_shared_memory D stream t q.object_list ≡ some (0, (rest, (t', objects)))
      → restart_module D stream t q
        ≡ some (
          rest,
          (
            t',
            record q {
              object_list = objects;
              registered = false;
              constants = init_shared_const D q.registered t' q.constants;
            },
          ),
        )
  unfolding restart_module
  module_restarted stream rest objects t t' q e = rw (e, restart_module) refl

  pub from_slave :
      (func : Callback) (stream : List ℕ) (t : D.Store) (q : Process)
      → restart_from D false func stream t q ≡ restart_objects D func stream t q
  unfolding restart_from
  from_slave func stream t q = refl

  pub from_master :
      (func : Callback) (stream rest : List ℕ) (t t' : D.Store) (q q' : Process)
      → restart_module D stream t q ≡ some (rest, (t', q'))
      → restart_from D true func stream t q ≡ restart_objects D func rest t' q'
  unfolding restart_from
  from_master func stream rest t t' q q' f = rw (f, restart_from) refl

  pub file_opened :
      (func : Callback) (stream : List ℕ) (t : D.Store) (q : Process) (d : Disk)
      → d.checkpoints q.checkpoint_cnt ≡ some stream
      → restart_if D true func t q d
        ≡ restart_from D q.is_master func stream t
            (record q { checkpoint_cnt = suc q.checkpoint_cnt })
  unfolding restart_if
  file_opened func stream t q d f = rw (f, restart_if) refl

  pub file_restarted :
      (func : Callback) (stream : List ℕ) (t : D.Store) (q : Process) (d : Disk) (master : Bool)
      → q.checkboject ≡ true
      → q.is_master ≡ master
      → d.checkpoints q.checkpoint_cnt ≡ some stream
      → do_restart D func t q d
        ≡ restart_from D master func stream t (record q { checkpoint_cnt = suc q.checkpoint_cnt })
  unfolding do_restart
  file_restarted func stream t q d master e m f =
      ap (λ b. restart_if D b func t q d) e
      ∙ file_opened func stream t q d f
      ∙ ap
          (λ b. restart_from D b func stream t (record q { checkpoint_cnt = suc q.checkpoint_cnt }))
          m
