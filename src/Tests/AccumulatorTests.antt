-- ===== src/Tests/AccumulatorTests.antt =====
-- Concrete runs of the accumulator.
use dogee.Prelude.{
  ℕ, ◌+◌, ◌-◌, ◌*◌, ◌<◌, ◌≤◌, ◌≡◌, refl, List, [], ◌∷◌, some, arith, length, take, drop, true,
}
use dogee.Prelude.Int.{ℤ, pos, negsuc}
use dogee.Accumulator.Partition.{
  blocks_per_node, node_base, node_size, send_begin, send_end, partition_agrees, partition_tiles,
}
use dogee.Accumulator.Sparse.{
  make_sparse, add_words, accumulate, dense_mode, sparse_mode, type_dense, type_sparse,
  prepare_buffer, accumulate_dense, accumulate_sparse,
}
use dogee.Accumulator.Pieces.{make_sparse-fits, prepare_buffer-adds}
use dogee.Accumulator.Sending.{messages, receive, ends_once, receive-messages}
use dogee.Accumulator.Rounds.{rounds, begin, own_empty_part_loses}
use dogee.Accumulator.Message.{DataSyncNode, Event, comes, is_done, master_run}
use dogee.Accumulator.Steps.{threads, dones, sum, reset, round_effects}
use dogee.Accumulator.Wake.{round_wakes}

-- A vector of 40 words on two nodes: the second part is cut short.
partition_agrees_example :
    (send_begin 1 1 ≡ node_base 1 1) × (send_end 40 1 1 - send_begin 1 1 ≡ node_size 40 1 1)
partition_agrees_example = partition_agrees 40 1 1 (omega arith)

partition_tiles_example :
    (i : ℕ) × ((i < 2)
      × (node_base (blocks_per_node 40 2) i ≤ 39)
      × (39 < node_base (blocks_per_node 40 2) i + node_size 40 (blocks_per_node 40 2) i)
      × ((j : ℕ)
          → node_base (blocks_per_node 40 2) j ≤ 39
          → 39 < node_base (blocks_per_node 40 2) j + node_size 40 (blocks_per_node 40 2) j
          → j ≡ i))
partition_tiles_example = partition_tiles 40 2 39 (omega arith) (omega arith) (omega arith)

abbrev three_words : List ℤ
three_words = pos 1 ∷ pos 0 ∷ negsuc 2 ∷ []

abbrev three_sums : List ℤ
three_sums = pos 5 ∷ pos 6 ∷ pos 7 ∷ []

make_sparse-fits_example :
    let made = make_sparse 3 0 three_words (pos 0) 0 in
    (made.used ≡ 0 + 8 * length made.elements) × (made.used < 16384) × (made.count ≤ 3)
make_sparse-fits_example = make_sparse-fits 3 0 three_words (pos 0) 0 (omega arith)

prepare_buffer-adds_example :
    let p = prepare_buffer sparse_mode (pos 0) three_words 0 3 in
    (0 < p.1)
    × (0 + p.1 ≤ 3)
    × (accumulate p.0 0 three_sums 0
        ≡ some (add_words (take p.1 (drop 0 three_words)) (0 - 0) three_sums))
prepare_buffer-adds_example =
    prepare_buffer-adds three_words 0 3 three_sums 0 (omega arith) (omega arith) (omega arith)
      (omega arith) sparse_mode

receive-messages_example :
    (receive (messages 3 dense_mode (pos 0) three_words 0 3) three_sums 0
      ≡ some (add_words (take (3 - 0) (drop 0 three_words)) (0 - 0) three_sums))
    × (ends_once (messages 3 dense_mode (pos 0) three_words 0 3) ≡ true)
receive-messages_example =
    receive-messages 3 dense_mode three_words 0 3 three_sums 0 (omega arith) (omega arith)
      (omega arith) (omega arith) (omega arith)

own_empty_part_loses_example :
    let s =
      rounds 2 dense_mode
        (pos 0)
        three_words
        3
        (blocks_per_node 3 2)
        1
        ((0 ∷ []) ∷ [])
        (begin 2 3 (blocks_per_node 3 2) 1) in
    (s.sent ≡ []) × (s.empties ≡ []) × (s.send_idx 0 < send_end 3 (blocks_per_node 3 2) 0)
own_empty_part_loses_example =
    own_empty_part_loses dense_mode (pos 0) three_words 3 ((0 ∷ []) ∷ []) (omega arith)
      (omega arith)

abbrev master_node : DataSyncNode
master_node = record {
  done_node_cnt = 0;
  val = 0;
  count = 2;
  waitlist = [];
  outarray = 7;
  base = 0;
  buf = pos 0 ∷ pos 0 ∷ [];
}

-- Node 1 sends a dense piece, is done with its part, and node 0 sends a sparse one.
abbrev round_events : List Event
round_events =
    comes (record { machine = 1; thread_id = 7 }) 0 (type_dense (pos 1 ∷ pos 2 ∷ []))
    ∷ is_done
    ∷ comes (record { machine = 0; thread_id = 3 }) 0
        (type_sparse (record { index = 1; value = pos 5 } ∷ []))
    ∷ []

round_events-sum : sum round_events (pos 0 ∷ pos 0 ∷ []) 0 ≡ some (pos 1 ∷ pos 7 ∷ [])
unfolding sum accumulate accumulate_dense accumulate_sparse add_words
round_events-sum = refl

round_events-threads : (length (threads round_events) ≡ 2) × (dones round_events + 1 ≡ 2)
unfolding threads dones
round_events-threads = (refl, refl)

round_wakes_example :
    master_run 2 master_node round_events
    ≡ some (
      reset master_node (pos 1 ∷ pos 7 ∷ []),
      round_effects master_node (pos 1 ∷ pos 7 ∷ []) (threads round_events),
    )
round_wakes_example =
    round_wakes 2 master_node round_events (pos 1 ∷ pos 7 ∷ []) refl refl refl
      (λ e. absurd (omega arith), (λ e. absurd (omega arith), tt)) (omega arith)
      round_events-threads.0 round_events-threads.1 round_events-sum
