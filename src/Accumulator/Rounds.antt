-- ===== src/Accumulator/Rounds.antt =====
-- The rounds of `_DoAccumulateAndWait` (Dogee/DogeeAccumulator.cpp) over all nodes, and when they end.
use dogee.Prelude.{
  ℕ, zero, suc, ◌+◌, ◌*◌, ◌<◌, ◌≤◌, ◌≡◌, refl, ap, List, [], ◌∷◌, ◌++◌, arith, true, false, not,
  ◌&&◌, ltb, leb, ◌==◌, if◌then◌else◌,
}
use dogee.Prelude.Int.{ℤ}
use dogee.Accumulator.Partition.{blocks_per_node, send_begin, send_end, round_up}
use dogee.Accumulator.Sparse.{AccumulatorMode}
use dogee.Accumulator.Sending.{Message, next_message}

-- Where the next piece for each node begins, the count `done`, and the pieces sent, with the receivers.
-- The message to a node whose part is empty has no data, and stands in `empties`.
pub record Sending : Type 0 where
  pub send_idx : ℕ → ℕ
  pub done : ℕ
  pub sent : List (ℕ × Message)
  pub empties : List ℕ

-- The first loop: `n` nodes from `i` on. A node whose part is empty is done.
unfoldable pub skip_empty : ℕ → ℕ → ℕ → ℕ → ℕ → Sending → Sending
skip_empty zero i sz blocks self s = s
skip_empty (suc n) i sz blocks self s =
    let s' =
      if leb (send_end sz blocks i) (send_begin blocks i)
      then record s {
        done = suc s.done;
        empties = if i == self then s.empties else s.empties ++ (i ∷ []);
      }
      else s in
    skip_empty n (suc i) sz blocks self s'

-- Before the rounds: the node itself is done, since it adds its own part at once.
unfoldable pub begin : ℕ → ℕ → ℕ → ℕ → Sending
begin nodes sz blocks self =
    let s =
      skip_empty nodes 0 sz blocks self
        (record { send_idx = send_begin blocks; done = 1; sent = []; empties = [] }) in
    record s { send_idx = λ j. if j == self then send_end sz blocks self else s.send_idx j }

-- A node whose socket can be written to.
unfoldable pub send_piece : AccumulatorMode → ℤ → List ℤ → ℕ → ℕ → ℕ → ℕ → Sending → Sending
send_piece mode threshold src sz blocks self i s =
    let end = send_end sz blocks i in
    let (m, idx) = next_message mode threshold src (s.send_idx i) end in
    if ltb (s.send_idx i) end && not (i == self)
    then record s {
      send_idx = λ j. if j == i then idx else s.send_idx j;
      done = if idx == end then suc s.done else s.done;
      sent = s.sent ++ ((i, m) ∷ []);
    }
    else s

unfoldable pub round : AccumulatorMode → ℤ → List ℤ → ℕ → ℕ → ℕ → List ℕ → Sending → Sending
round mode threshold src sz blocks self [] s = s
round mode threshold src sz blocks self (i ∷ ready) s =
    round mode threshold src sz blocks self ready (send_piece mode threshold src sz blocks self i s)

-- The loop, where each round has the nodes that can be written to, in their order.
unfoldable pub rounds :
    ℕ → AccumulatorMode → ℤ → List ℤ → ℕ → ℕ → ℕ → List (List ℕ) → Sending → Sending
rounds nodes mode threshold src sz blocks self [] s = s
rounds nodes mode threshold src sz blocks self (ready ∷ later) s =
    let next =
      rounds nodes mode threshold src sz blocks self later
        (round mode threshold src sz blocks self ready s) in
    if ltb s.done nodes then next else s

rounds-stop :
    (nodes : ℕ) (mode : AccumulatorMode) (threshold : ℤ) (src : List ℤ) (sz blocks self : ℕ)
    (schedule : List (List ℕ)) (s : Sending)
    → nodes ≤ s.done
    → rounds nodes mode threshold src sz blocks self schedule s ≡ s
unfolding rounds
rounds-stop nodes mode threshold src sz blocks self [] s h = refl
rounds-stop nodes mode threshold src sz blocks self (ready ∷ later) s h = ground arith

one_block : (sz : ℕ) → 0 < sz → sz ≤ 32 → blocks_per_node sz 2 ≡ 1
unfolding blocks_per_node
one_block sz pos small = let e : round_up sz 32 ≡ 1 = ground arith in ap (λ b. round_up b 2) e

begin_done :
    (sz : ℕ)
    → 0 < sz
    → sz ≤ 32
    → ((begin 2 sz 1 1).done ≡ 2)
      × ((begin 2 sz 1 1).sent ≡ [])
      × ((begin 2 sz 1 1).empties ≡ [])
      × ((begin 2 sz 1 1).send_idx 0 ≡ 0)
      × (0 < send_end sz 1 0)
unfolding begin skip_empty send_begin send_end
begin_done sz pos small =
    let first : leb (if ltb sz (1 * 32 + 0 * 1 * 32) then sz else 0 * 1 * 32 + 1 * 32) (0 * 1 * 32)
        ≡ false =
      ground arith in
    let second : leb (if ltb sz (1 * 32 + 1 * 1 * 32) then sz else 1 * 1 * 32 + 1 * 32) (1 * 1 * 32)
        ≡ true =
      ground arith in
    rw (first, second) (refl, refl, refl, refl, ground arith)

-- With two nodes and a vector of at most one block, node 1, whose own part is empty, counts itself twice:
-- its loop ends before the first round, whatever can be written, and it sends nothing to node 0.
pub own_empty_part_loses :
    (mode : AccumulatorMode) (threshold : ℤ) (src : List ℤ) (sz : ℕ) (schedule : List (List ℕ))
    → 0 < sz
    → sz ≤ 32
    → let blocks = blocks_per_node sz 2 in
      let s = rounds 2 mode threshold src sz blocks 1 schedule (begin 2 sz blocks 1) in
      (s.sent ≡ []) × (s.empties ≡ []) × (s.send_idx 0 < send_end sz blocks 0)
own_empty_part_loses mode threshold src sz schedule pos small =
    let (done, sent, empties, idx, more) = begin_done sz pos small in
    let e = one_block sz pos small in
    let stop =
      rounds-stop 2 mode threshold src sz 1 1 schedule (begin 2 sz 1 1) (omega (arith, done)) in
    rw (e, stop) (sent, empties, omega (arith, idx, more))
