-- ===== src/Tests/CheckpointTests.antt =====
-- Concrete runs of the checkpoints, over the storage of words in a table.
use dogee.Prelude.{
  ℕ, ◌+◌, ◌*◌, ◌/◌, ◌%◌, ◌≡◌, ◌≢◌, refl, ap, ◌∙◌, [], ◌∷◌, Option, none, some, Bool, true, false,
  arith, ◌==◌, ltb, if◌then◌else◌,
}
use dogee.Prelude.Int.{pos}
use dogee.Cache.Node.{update}
use dogee.Cache.Sound.{update_self, update_ne}
use dogee.Storage.Memcached.{
  MemcachedAdd, get_info, get_chunk, get_words, store_items, clear, info_key,
}
use dogee.Checkpoint.Store.{SharedStore}
use dogee.Checkpoint.Segment.{segment}
use dogee.Checkpoint.Words.{shared_words, chunk_list}
use dogee.Checkpoint.Stream.{write_members}
use dogee.Checkpoint.Dump.{dump_words, dump_shared_memory, the_size}
use dogee.Checkpoint.Process.{
  Process, Disk, enter_all, checkpoint_words, dump_module, dump_objects, master_check_check_point,
  remove_checkpoint_files,
}
use dogee.Checkpoint.Objects.{AllSaveable, AllFree}
use dogee.Checkpoint.Saving.{Callback}
use dogee.Checkpoint.Restart.{Recovers, do_restart-do_check_point}
use dogee.Checkpoint.Files.{LastTwo, enter_all_lem}
use dogee.Tests.StorageTests.{Table, table_server}

abbrev add_to : Option ℕ → Table → ℕ → ℕ → Table × Bool
add_to none s k v = (update s k (some v), true)
add_to (some w) s k v = (s, false)

add_to_self : (s : Table) (k v : ℕ) → s k ≡ none → (add_to (s k) s k v).0 k ≡ some v
add_to_self s k v e = ap (λ o. (add_to o s k v).0 k) e ∙ update_self s k (some v)

add_to_ne : (o : Option ℕ) (s : Table) (k v j : ℕ) → j ≢ k → (add_to o s k v).0 j ≡ s j
add_to_ne none s k v j h = update_ne s k j (some v) h
add_to_ne (some w) s k v j h = refl

abbrev table_add : MemcachedAdd table_server
table_add = record {
  memcached_add = λ s k v. add_to (s k) s k v;
  add_self = add_to_self;
  add_ne = λ s k v j h. add_to_ne (s k) s k v j h;
}

abbrev table : SharedStore
table = shared_words table_server table_add (λ y. 99) (λ s k n. refl)

-- A master with two static variables and an object 7 of three words, and the storage after its end.
abbrev full : Table
full k =
    if k == info_key 7
    then some (5 + 3 * 0x1_0000_0000)
    else if k / 0x1_0000_0000 == 7
    then some (7 + 10 * (k % 0x1_0000_0000))
    else if ltb k 2
    then some (10 * k)
    else none

abbrev lost : Table
lost k = none

abbrev process : Process
process = record {
  is_master = true;
  checkboject = true;
  checkpointlock = 0;
  checkpoint_cnt = 0;
  gloabl_fid = 2;
  object_list = 7 ∷ [];
  registered = true;
  constants = (1, 0) ∷ [];
  object = (8 ∷ []) ∷ (9 ∷ 10 ∷ []) ∷ [];
}

abbrev started : Process
started = record process { object_list = []; object = (0 ∷ []) ∷ (0 ∷ 0 ∷ []) ∷ [] }

abbrev no_files : Disk
no_files = record { checkpoints = λ k. none; master = none }

abbrev same : Callback
same members = members

info_of_object : get_info table_server table_add full 7 ≡ some (5, 3)
unfolding get_info
info_of_object = refl

free_key : (k : ℕ) → get_info table_server table_add lost k ≡ none
unfolding get_info
free_key k = refl

abbrev saved_object : AllSaveable table full (7 ∷ [])
saved_object = (((5, 3), (info_of_object, omega arith, omega arith)), tt)

-- What the file holds: the static variables, the number of objects, the object, and the members.
file_of_process :
    checkpoint_words table same full process
    ≡ some (0 ∷ 2 ∷ 0xffff_ffff ∷ 0 ∷ 10 ∷ 1 ∷ 7 ∷ 3 ∷ 5 ∷ 7 ∷ 17 ∷ 27 ∷ 8 ∷ 9 ∷ 10 ∷ [])
unfolding checkpoint_words dump_module dump_objects dump_shared_memory dump_words the_size segment
    write_members chunk_list get_chunk get_words store_items clear get_info
file_of_process = refl

abbrev free_keys : AllFree table lost (0 ∷ 7 ∷ [])
free_keys = (free_key 0, (free_key 7, tt))

do_restart-do_check_point_example :
    Recovers table same same full lost process started no_files (0 ∷ [])
do_restart-do_check_point_example =
    do_restart-do_check_point table same same full lost process started no_files refl refl
      (omega arith) (omega arith) ((omega arith, tt), (tt, tt)) saved_object free_keys refl refl
      refl refl refl

enter_all_lem_example :
    (p' : Process) × ((d' : Disk) × ((enter_all table
            ((same, full) ∷ (same, full) ∷ (same, full) ∷ [])
            process
            no_files
          ≡ some (p', d'))
        × (p'.checkpoint_cnt ≡ 3)
        × LastTwo 3 d'.checkpoints
        × (master_check_check_point started d' ≡ (pos 2, record started { checkpoint_cnt = 2 }))
        × ((k : ℕ) → (remove_checkpoint_files p' d').checkpoints k ≡ none)))
enter_all_lem_example =
    enter_all_lem table ((same, full) ∷ (same, full) ∷ (same, full) ∷ []) process started no_files
      refl refl refl (omega arith) (tt, tt) (saved_object, (saved_object, (saved_object, tt)))
      (λ k. refl)
