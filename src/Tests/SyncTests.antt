-- ===== src/Tests/SyncTests.antt =====
-- Tests of the master's synchronisation (Dogee/DogeeRemote.cpp).
use dogee.Prelude.{ℕ, ◌+◌, ◌≤◌, ◌≡◌, refl, inr, List, [], ◌∷◌, ◌++◌, none, some, length}
use dogee.Prelude.Int.{pos}
use dogee.Sync.Node.{SyncThreadNode, SyncNode, Memory, Kind, barrier, event}
use dogee.Sync.Barrier.{new_barrier, barrier_msg, barrier_msgs, barrier_round}
use dogee.Sync.Semaphore
use dogee.Sync.Semaphore.{new_semaphore, enters, leaves, semaphore_safe, semaphore_starves}
use dogee.Sync.Event
use dogee.Sync.Event.{waits, sets, resets, event_fifo, auto_reset_bound, manual_set}
use dogee.Sync.Master.{
  enter_barrier, leave_semaphore, Outcome, init, request, handle, outcome?, request_lem,
}
use dogee.Sync.Reach.{Reach, here, next, handles, TableIsValid, Reach-TableIsValid}

abbrev first : SyncThreadNode
first = record { machine = 1; thread_id = 4 }

abbrev second : SyncThreadNode
second = record { machine = 2; thread_id = 9 }

abbrev third : SyncThreadNode
third = record { machine = 0; thread_id = 1 }

-- every word is 3
abbrev threes : Memory
threes = λ k f. 3

abbrev zeros : Memory
zeros = λ k f. 0

run_program : Unit {0}
unfolding barrier_msgs barrier_msg new_barrier init request
run_program = tt

three_arrivals :
    (barrier_msgs threes (λ k. none) 7 (first ∷ second ∷ third ∷ [])).woken
    ≡ third ∷ first ∷ second ∷ []
unfolding run_program
three_arrivals = refl

barrier_round_example :
    ((barrier_msgs threes (λ k. none) 7 (first ∷ second ∷ [])).woken ≡ [])
    × ((barrier_msgs threes (λ k. none) 7 ((first ∷ second ∷ []) ++ third ∷ [])).woken
        ≡ third ∷ first ∷ second ∷ [])
    × ((barrier_msgs threes (λ k. none) 7 ((first ∷ second ∷ []) ++ third ∷ [])).table 7
        ≡ some (new_barrier threes 7))
barrier_round_example = barrier_round threes 7 (λ k. none) (first ∷ second ∷ []) third refl refl

semaphore_safe_example :
    (length (Semaphore.run (new_semaphore threes 7) (enters first ∷ leaves ∷ enters second ∷ [])).1
      ≤ 3 + 1)
    × (length
            (Semaphore.run (new_semaphore threes 7) (enters first ∷ leaves ∷ enters second ∷ [])).1
          + length
              (Semaphore.run
                (new_semaphore threes 7)
                (enters first ∷ leaves ∷ enters second ∷ [])).0.waiting
        ≡ 2)
semaphore_safe_example = semaphore_safe threes 7 3 (enters first ∷ leaves ∷ enters second ∷ []) refl

semaphore_starves_example :
    Semaphore.run (new_semaphore zeros 7) (enters first ∷ enters second ∷ leaves ∷ leaves ∷ [])
    ≡ (record (new_semaphore zeros 7) { val = pos 0; waiting = second ∷ [] }, first ∷ [])
semaphore_starves_example = semaphore_starves zeros 7 first (second ∷ []) refl

abbrev auto_event : SyncNode
auto_event = record { kind = event; val = pos 1; count = pos 1; waiting = [] }

abbrev manual_event : SyncNode
manual_event = record { kind = event; val = pos 0; count = pos 0; waiting = first ∷ [] }

abbrev history : List Event.Move
history = waits first ∷ waits second ∷ sets ∷ resets ∷ waits third ∷ []

event_fifo_example :
    Event.IsValid (Event.run auto_event history).0
    × ((Event.run auto_event history).1 ++ (Event.run auto_event history).0.waiting
        ≡ first ∷ second ∷ third ∷ [])
event_fifo_example = event_fifo auto_event history (inr refl)

auto_reset_bound_example :
    length (Event.run auto_event history).1 + Event.signal (Event.run auto_event history).0 ≤ 1 + 1
auto_reset_bound_example = auto_reset_bound auto_event history refl

manual_set_example :
    Event.run manual_event (sets ∷ waits second ∷ [])
    ≡ (record manual_event { val = pos 1; waiting = [] }, first ∷ second ∷ [])
manual_set_example = manual_set manual_event (second ∷ []) refl

request_lem_example :
    request threes 0 (init 0) 2 enter_barrier 7 9 55
    ≡ outcome? (init 0) (handle threes (init 0).sync_data enter_barrier 7 second)
request_lem_example = request_lem threes 0 (init 0) 2 enter_barrier 7 9 55

-- a release before the first request reads through the address 3
early_release : request threes 0 (init 0) 2 leave_semaphore 7 9 55 ≡ none
unfolding run_program Semaphore.semaphore_leave_msg
early_release = refl

abbrev all_barriers : ℕ → Kind
all_barriers = λ k. barrier

abbrev after_first : Outcome
after_first = record {
  manager = record { sync_data = (barrier_msg threes (λ k. none) first 7).table; clocks = λ i. 0 };
  woken = [];
}

one_step : Reach all_barriers (init 0) after_first.manager
unfolding run_program
one_step = next here (handles threes 0 1 enter_barrier 7 4 0 (λ k e. cc) refl refl)

Reach-TableIsValid_example : TableIsValid all_barriers after_first.manager.sync_data
Reach-TableIsValid_example = Reach-TableIsValid all_barriers 0 one_step
