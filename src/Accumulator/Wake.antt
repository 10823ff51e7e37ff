-- ===== src/Accumulator/Wake.antt =====
-- A round of an accumulator on the master (Dogee/DogeeAccumulator.cpp): what all vectors and all other
-- nodes together bring about, in whatever order their messages come.
use mathlib.Core.List.{append-nil, append_assoc}
use mathlib.Core.Option.{some-injective}
use native.Mathlib.Decide.{ℕ_discrete}
use dogee.Prelude.{
  ℕ, suc, ◌+◌, ◌<◌, ◌≤◌, ◌≡◌, refl, sym, ap, ◌∙◌, List, [], ◌∷◌, ◌++◌, some, arith, true, false,
  ◌==◌, length, replicate, Bool-cases, Option-cases, inl, inr, subst,
}
use dogee.Prelude.Int.{ℤ, pos}
use dogee.Sync.Node.{SyncThreadNode}
use dogee.Accumulator.Sparse.{accumulate, Piece}
use dogee.Accumulator.Message.{
  DataSyncNode, nothing, Event, comes, is_done, master_step, master_run,
}
use dogee.Accumulator.Steps.{
  threads, dones, LastIsLast, sum, over, master_run-cons, step_done_waits, step_done_wakes,
  step_adds, step_waits, step_fills, reset, the_wake, chunk_of, part_wakes, part_waits,
  round_effects, also-nothing,
}

-- The own part is done and the buffer is clear: the other nodes are waited for.
rest_of_round :
    (nodes : ℕ) (node : DataSyncNode) (es : List Event)
    → LastIsLast es
    → length (threads es) ≡ 0
    → node.done_node_cnt + dones es ≡ nodes
    → 0 < dones es
    → master_run nodes node es
      ≡ some (
        record node { done_node_cnt = 0; waitlist = [] },
        record { chunks = []; tells = 0; woken = node.waitlist },
      )
unfolding master_run threads dones
rest_of_round nodes node [] h a d more = absurd (omega arith)
rest_of_round nodes node (comes th offset piece ∷ es) h a d more =
    elim (Bool-cases (th.thread_id == 0)) [
      | inl t ↦ absurd (omega (arith, h.0 (ground arith), rw t at a))
      | inr t ↦ absurd (omega (arith, rw t at a))
    ]
rest_of_round nodes node (is_done ∷ es) h a d more = elim (ℕ_discrete (dones es) 0) [
  | yes none_left ↦
      subst
        (λ xs.
          master_run nodes node (is_done ∷ xs)
          ≡ some (
            record node { done_node_cnt = 0; waitlist = [] },
            record { chunks = []; tells = 0; woken = node.waitlist },
          ))
        (sym (over es h a none_left))
        (master_run-cons nodes node is_done [] _ (_, nothing)
            (step_done_wakes nodes node (omega (arith, d, none_left))) refl
          ∙ unfold nothing in
            ap (λ ths. some (record node { done_node_cnt = 0; waitlist = [] }, the_wake ths))
              (append-nil node.waitlist))
  | no left ↦
      master_run-cons nodes node is_done es _ _ (step_done_waits nodes node (omega (arith, d))) (
        rest_of_round nodes (record node { done_node_cnt = suc node.done_node_cnt }) es h a
          (omega (arith, d)) (omega arith))
      ∙ unfold nothing in refl
]

sum-over :
    (es : List Event) (buf : List ℤ) (base : ℕ)
    → LastIsLast es
    → length (threads es) ≡ 0
    → sum es buf base ≡ some buf
unfolding sum threads
sum-over [] buf base h a = refl
sum-over (comes th offset piece ∷ es) buf base h a = elim (Bool-cases (th.thread_id == 0)) [
  | inl t ↦ absurd (omega (arith, h.0 (ground arith), rw t at a))
  | inr t ↦ absurd (omega (arith, rw t at a))
]
sum-over (is_done ∷ es) buf base h a = sum-over es buf base h a

master_run-nil : (nodes : ℕ) (node : DataSyncNode) → master_run nodes node [] ≡ some (node, nothing)
unfolding master_run
master_run-nil nodes node = refl

-- The last message of the last sender, after which the other nodes may still be waited for.
last_comes :
    (nodes : ℕ) (node : DataSyncNode) (es : List Event) (th : SyncThreadNode) (offset : ℕ)
    (piece : Piece) (buf : List ℤ)
    → accumulate piece offset node.buf node.base ≡ some buf
    → (th.thread_id == 0) ≡ false
    → LastIsLast es
    → length (threads es) ≡ 0
    → node.count ≤ suc node.val
    → node.done_node_cnt + dones es + 1 ≡ nodes
    → master_run nodes node (comes th offset piece ∷ es)
      ≡ some (reset node buf, round_effects node buf (node.waitlist ++ (th ∷ [])))
last_comes nodes node es th offset piece buf adds t h a v d =
    let node2 : DataSyncNode = record node {
      buf = buf;
      val = suc node.val;
      waitlist = node.waitlist ++ (th ∷ []);
    } in
    let fills = step_fills nodes node th offset piece buf adds t v in
    elim (ℕ_discrete (dones es) 0) [
      | yes none_left ↦
          subst
            (λ xs.
              master_run nodes node (comes th offset piece ∷ xs)
              ≡ some (reset node buf, round_effects node buf (node.waitlist ++ (th ∷ []))))
            (sym (over es h a none_left))
            (master_run-cons nodes node (comes th offset piece) [] _ (_, nothing)
                (fills ∙ ap some (part_wakes nodes node2 (omega (arith, d, none_left))))
                (master_run-nil nodes (reset node buf))
              ∙ ap (λ e. some (reset node buf, e))
                  (also-nothing (round_effects node buf node2.waitlist)))
      | no left ↦
          master_run-cons nodes node (comes th offset piece) es _ _
            (fills ∙ ap some (part_waits nodes node2 (omega (arith, d))))
            (rest_of_round nodes
              (record node2 {
                done_node_cnt = suc node.done_node_cnt;
                val = 0;
                buf = replicate (length buf) (pos 0);
              })
              es h a (omega (arith, d)) (omega arith))
          ∙ ap
              (λ c. some (reset node buf, record { chunks = c; tells = 0; woken = node2.waitlist }))
              (append-nil (chunk_of node buf))
    ]

length-nil : (xs : List SyncThreadNode) → length xs ≡ 0 → xs ≡ []
length-nil [] h = refl
length-nil (x ∷ xs) h = absurd (omega (arith, h))

threads-plain :
    (th : SyncThreadNode) (offset : ℕ) (piece : Piece) (es : List Event)
    → (th.thread_id == 0) ≡ true
    → threads (comes th offset piece ∷ es) ≡ threads es
unfolding threads
threads-plain th offset piece es t = rw t refl

threads-last :
    (th : SyncThreadNode) (offset : ℕ) (piece : Piece) (es : List Event)
    → (th.thread_id == 0) ≡ false
    → threads (comes th offset piece ∷ es) ≡ th ∷ threads es
unfolding threads
threads-last th offset piece es t = rw t refl

sum-comes :
    (th : SyncThreadNode) (offset : ℕ) (piece : Piece) (es : List Event) (buf buf' : List ℤ)
    (base : ℕ)
    → accumulate piece offset buf base ≡ some buf'
    → sum (comes th offset piece ∷ es) buf base ≡ sum es buf' base
unfolding sum
sum-comes th offset piece es buf buf' base e = rw (e, sum) refl

sum-adds :
    (th : SyncThreadNode) (offset : ℕ) (piece : Piece) (es : List Event) (buf : List ℤ) (base : ℕ)
    (total : List ℤ)
    → sum (comes th offset piece ∷ es) buf base ≡ some total
    → (buf' : List ℤ) × (accumulate piece offset buf base ≡ some buf')
unfolding sum
sum-adds th offset piece es buf base total s =
    elim (Option-cases (accumulate piece offset buf base)) [
      | inl bad ↦ absurd (ground (arith, s, bad))
      | inr found ↦ found
    ]

-- A step without effects.
quiet_step :
    (nodes : ℕ) (node now final : DataSyncNode) (e : Event) (es : List Event) (total : List ℤ)
    (ths : List SyncThreadNode)
    → master_step nodes node e ≡ some (now, nothing)
    → master_run nodes now es ≡ some (final, round_effects node total ths)
    → master_run nodes node (e ∷ es) ≡ some (final, round_effects node total ths)
unfolding nothing
quiet_step nodes node now final e es total ths a b = master_run-cons nodes node e es _ _ a b

is_done_lem :
    (es : List Event) (buf : List ℤ) (base : ℕ)
    → (threads (is_done ∷ es) ≡ threads es) × (sum (is_done ∷ es) buf base ≡ sum es buf base)
unfolding threads sum
is_done_lem es buf base = (refl, refl)

-- The master, in the middle of a round.
round_from :
    (nodes : ℕ) (node : DataSyncNode) (es : List Event) (total : List ℤ)
    → LastIsLast es
    → 0 < length (threads es)
    → node.val + length (threads es) ≡ node.count
    → node.done_node_cnt + dones es + 1 ≡ nodes
    → sum es node.buf node.base ≡ some total
    → master_run nodes node es
      ≡ some (reset node total, round_effects node total (node.waitlist ++ threads es))
unfolding dones
round_from nodes node [] total h more v d s = absurd (unfold threads in omega (arith, more))
round_from nodes node (is_done ∷ es) total h more v d s =
    let (e, f) = is_done_lem es node.buf node.base in
    rw e (
      quiet_step nodes node _ _ is_done es total _ (step_done_waits nodes node (omega (arith, d))) (
        round_from nodes (record node { done_node_cnt = suc node.done_node_cnt }) es total h
          (rw e at more) (rw e at v) (omega (arith, d)) (sym f ∙ s)))
round_from nodes node (comes th offset piece ∷ es) total h more v d s =
    let (buf, adds) = sum-adds th offset piece es node.buf node.base total s in
    let s' : sum es buf node.base ≡ some total =
      sym (sum-comes th offset piece es node.buf buf node.base adds) ∙ s in
    elim (Bool-cases (th.thread_id == 0)) [
      | inl t ↦
          let e = threads-plain th offset piece es t in
          rw e (
            quiet_step nodes node _ _ (comes th offset piece) es total _
              (step_adds nodes node th offset piece buf adds t)
              (round_from nodes (record node { buf = buf }) es total h.1 (h.0 (ground arith))
                (rw e at v) d s'))
      | inr t ↦
          let e = threads-last th offset piece es t in
          elim (ℕ_discrete (length (threads es)) 0) [
            | yes a ↦
                let same : buf ≡ total =
                  some-injective buf total (sym (sum-over es buf node.base h.1 a) ∙ s') in
                let alone : node.waitlist ++ (th ∷ []) ≡ node.waitlist ++ (th ∷ threads es) =
                  ap (λ ths. node.waitlist ++ (th ∷ ths)) (sym (length-nil (threads es) a)) in
                rw e (
                  last_comes nodes node es th offset piece buf adds t h.1 a
                    (omega (arith, a, rw e at v)) d
                  ∙ ap (λ b. some (reset node b, round_effects node b (node.waitlist ++ (th ∷ []))))
                      same
                  ∙ ap (λ ths. some (reset node total, round_effects node total ths)) alone)
            | no others ↦
                let v' : node.val + suc (length (threads es)) ≡ node.count = rw e at v in
                rw e (
                  quiet_step nodes node _ _ (comes th offset piece) es total _
                    (step_waits nodes node th offset piece buf adds t (omega (arith, v')))
                    (round_from nodes
                      (record node {
                        buf = buf;
                        val = suc node.val;
                        waitlist = node.waitlist ++ (th ∷ []);
                      })
                      es total h.1 (omega arith) (omega (arith, v')) d s')
                  ∙ ap (λ ths. some (reset node total, round_effects node total ths))
                      (append_assoc node.waitlist (th ∷ []) (threads es)))
          ]
    ]

-- A round on the master, which begins with no sender counted and no thread waiting: the last messages
-- of all senders, the pieces before them and the messages of the other nodes that their parts are done
-- may come in any order in which a sender's last message is its last. Then the master puts the sum of all
-- pieces into the shared array once, from the start of its part on, unless its part is empty, wakes the threads of all senders, in the
-- order of their last messages and once each, and is as before the round, with a clear buffer. Every
-- piece lies in the part of the master, so that no `assert` fails.
pub round_wakes :
    (nodes : ℕ) (node : DataSyncNode) (es : List Event) (total : List ℤ)
    → node.val ≡ 0
    → node.done_node_cnt ≡ 0
    → node.waitlist ≡ []
    → LastIsLast es
    → 0 < node.count
    → length (threads es) ≡ node.count
    → dones es + 1 ≡ nodes
    → sum es node.buf node.base ≡ some total
    → master_run nodes node es ≡ some (reset node total, round_effects node total (threads es))
round_wakes nodes node es total a b c h pos_count all others s =
    round_from nodes node es total h (omega arith) (omega arith) (omega arith) s
    ∙ ap (λ w. some (reset node total, round_effects node total (w ++ threads es))) c
