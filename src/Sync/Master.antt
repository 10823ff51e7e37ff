-- ===== src/Sync/Master.antt =====
-- The master's side of Dogee/DogeeRemote.cpp: the class `SyncManager` as one state, the commands
-- that its listener `RcMasterListen` obeys, and the calls `RcEnterBarrier` to `RcLeaveSemaphore`
-- that a thread makes on the master or on a slave.
use dogee.Prelude.{ℕ, zero, suc, ◌≡◌, refl, List, [], Option, none, some, ◌==◌, if◌then◌else◌}
use dogee.Sync.Node.{SyncThreadNode, SyncData, Memory, Handled}
use dogee.Sync.Barrier.{barrier_msg}
use dogee.Sync.Semaphore.{semaphore_msg, semaphore_leave_msg}
use dogee.Sync.Event.{event_wait_msg, set_event_msg, reset_event_msg}

pub data RcCommand : Type 0 where
  cmd_close cmd_create_thread cmd_suspend_thread cmd_stop_thread cmd_trigger_gc cmd_do_gc
        cmd_done_gc cmd_wake_sync cmd_enter_barrier cmd_enter_semaphore cmd_leave_semaphore
        cmd_wait_for_event cmd_set_event cmd_reset_event cmd_alive cmd_restart :
      RcCommand

pub record RcCommandPack : Type 0 where
  pub cmd : RcCommand
  pub param : ℕ
  pub param2 : ℕ

pub record SyncManager : Type 0 where
  pub sync_data : SyncData
  pub clocks : ℕ → ℕ

-- The manager after a message, and the wake-ups in order.
pub record Outcome : Type 0 where
  pub manager : SyncManager
  pub woken : List SyncThreadNode

abbrev pub outcome : SyncManager → Handled → Outcome
outcome sm h = record { manager = record sm { sync_data = h.table }; woken = h.woken }

abbrev pub outcome? : SyncManager → Option Handled → Option Outcome
outcome? sm none = none
outcome? sm (some h) = some (outcome sm h)

unfoldable pub init : ℕ → SyncManager
init now = record { sync_data = λ k. none; clocks = λ i. now }

unfoldable pub alive : SyncManager → ℕ → ℕ → SyncManager
alive sm src now = record sm { clocks = λ i. if i == src then now else sm.clocks i }

-- The switch of `RcMasterListen`, at the command that node `i` sent. `none` is the invalid read of
-- `SemaphoreLeaveMsg`; a command that is not for the master is reported and dropped.
unfoldable pub obey : Memory → ℕ → SyncManager → ℕ → RcCommandPack → RcCommand → Option Outcome
unfolding alive
obey memory now sm i p cmd_enter_barrier = some (
    outcome sm
      (barrier_msg memory sm.sync_data (record { machine = i; thread_id = p.param2 }) p.param))
obey memory now sm i p cmd_enter_semaphore = some (
    outcome sm
      (semaphore_msg memory sm.sync_data (record { machine = i; thread_id = p.param2 }) p.param))
obey memory now sm i p cmd_leave_semaphore = outcome? sm (semaphore_leave_msg sm.sync_data p.param)
obey memory now sm i p cmd_wait_for_event = some (
    outcome sm
      (event_wait_msg memory sm.sync_data (record { machine = i; thread_id = p.param2 }) p.param))
obey memory now sm i p cmd_set_event = some (outcome sm (set_event_msg memory sm.sync_data p.param))
obey memory now sm i p cmd_reset_event =
    some (outcome sm (reset_event_msg memory sm.sync_data p.param))
obey memory now sm i p cmd_alive = some (record { manager = alive sm i now; woken = [] })
obey memory now sm i p _ = some (record { manager = sm; woken = [] })

abbrev pub master_listen : Memory → ℕ → SyncManager → ℕ → RcCommandPack → Option Outcome
master_listen memory now sm i p = obey memory now sm i p p.cmd

-- What a thread asks of an object.
pub data Request : Type 0 where
  enter_barrier enter_semaphore leave_semaphore wait_for_event set_event reset_event : Request

-- The packet that a slave sends. The fields that it does not write are what the stack held, `junk`.
unfoldable pub pack : Request → ℕ → ℕ → ℕ → RcCommandPack
pack enter_barrier okey tid junk = record { cmd = cmd_enter_barrier; param = okey; param2 = tid }
pack enter_semaphore okey tid junk = record {
  cmd = cmd_enter_semaphore;
  param = okey;
  param2 = tid;
}
pack leave_semaphore okey tid junk = record {
  cmd = cmd_leave_semaphore;
  param = okey;
  param2 = tid;
}
pack wait_for_event okey tid junk = record { cmd = cmd_wait_for_event; param = okey; param2 = tid }
pack set_event okey tid junk = record { cmd = cmd_set_event; param = okey; param2 = junk }
pack reset_event okey tid junk = record { cmd = cmd_reset_event; param = okey; param2 = junk }

-- The call that a thread of the master makes itself.
unfoldable pub call_master : Memory → SyncManager → Request → ℕ → ℕ → Option Outcome
call_master memory sm enter_barrier okey tid =
    some
      (outcome sm (barrier_msg memory sm.sync_data (record { machine = 0; thread_id = tid }) okey))
call_master memory sm enter_semaphore okey tid =
    some (
      outcome sm (semaphore_msg memory sm.sync_data (record { machine = 0; thread_id = tid }) okey))
call_master memory sm leave_semaphore okey tid = outcome? sm (semaphore_leave_msg sm.sync_data okey)
call_master memory sm wait_for_event okey tid =
    some (
      outcome sm
        (event_wait_msg memory sm.sync_data (record { machine = 0; thread_id = tid }) okey))
call_master memory sm set_event okey tid =
    some (outcome sm (set_event_msg memory sm.sync_data okey))
call_master memory sm reset_event okey tid =
    some (outcome sm (reset_event_msg memory sm.sync_data okey))

-- `RcEnterBarrier`, `RcEnterSemaphore`, `RcLeaveSemaphore`, `RcWaitForEvent`, `RcSetEvent` and
-- `RcResetEvent` on node `i`, up to the wait for the wake-up; node 0 is the master.
unfoldable pub request : Memory → ℕ → SyncManager → ℕ → Request → ℕ → ℕ → ℕ → Option Outcome
unfolding pack call_master obey
request memory now sm zero r okey tid junk = call_master memory sm r okey tid
request memory now sm (suc i) r okey tid junk =
    master_listen memory now sm (suc i) (pack r okey tid junk)

-- What each request does to the table, for the thread that asks, wherever it runs.
unfoldable pub handle : Memory → SyncData → Request → ℕ → SyncThreadNode → Option Handled
handle memory m enter_barrier okey th = some (barrier_msg memory m th okey)
handle memory m enter_semaphore okey th = some (semaphore_msg memory m th okey)
handle memory m leave_semaphore okey th = semaphore_leave_msg m okey
handle memory m wait_for_event okey th = some (event_wait_msg memory m th okey)
handle memory m set_event okey th = some (set_event_msg memory m okey)
handle memory m reset_event okey th = some (reset_event_msg memory m okey)

-- A request has the same effect from the master and, through a packet and the listener, from a
-- slave: only the machine to wake differs, and the fields of the packet that the slave leaves
-- unwritten do not matter.
pub request_lem :
    (memory : Memory) (now : ℕ) (sm : SyncManager) (i : ℕ) (r : Request) (okey tid junk : ℕ)
    → request memory now sm i r okey tid junk
      ≡ outcome? sm (handle memory sm.sync_data r okey (record { machine = i; thread_id = tid }))
unfolding request handle
request_lem memory now sm zero enter_barrier okey tid junk = refl
request_lem memory now sm zero r okey tid junk = refl
request_lem memory now sm (suc i) enter_barrier okey tid junk = refl
request_lem memory now sm (suc i) r okey tid junk = refl
