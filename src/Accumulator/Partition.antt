-- ===== src/Accumulator/Partition.antt =====
-- The part of a vector that each node is responsible for, as the receiver computes it
-- (`init_data_node` of Dogee/DogeeAccumulator.cpp) and as a sender does (`_DoAccumulateAndWait`).
-- `sz` is the length of the vector in words, `nodes` the number of the nodes. The products are below
-- sz + 32 * (nodes + 1), so that in 32 bits they do not wrap around.
use native.Mathlib.Nat.{
  mul_comm, mul-zero, mul_right_comm, mul_assoc, mul-add, add-mul, suc-mul, div-add-mod, mod-lt,
  le-div_iff_mul-le, div-lt_iff_lt-mul, mul-le-mul_right, div-mul-le_self, lt-div-mul-add,
}
use dogee.Prelude.{
  ℕ, zero, suc, ◌+◌, ◌-◌, ◌*◌, ◌/◌, ◌%◌, ◌<◌, ◌≤◌, ◌≡◌, ap, ◌∙◌, inl, inr, arith, ltb, ◌==◌,
  if◌then◌else◌, Bool-cases,
}

-- `a / b`, rounded up
abbrev pub round_up : ℕ → ℕ → ℕ
round_up a b = if a % b == 0 then a / b else a / b + 1

-- `blocks`: the blocks of a part
unfoldable pub blocks_per_node : ℕ → ℕ → ℕ
blocks_per_node sz nodes = round_up (round_up sz 32) nodes

-- `node->base` and `node->size` of node `self`; `blocks` are the blocks of a part. The size is 0 for a
-- vector of more than 2 ^ 27 words, whose base is not set and has no buffer to be the base of.
unfoldable pub node_base : ℕ → ℕ → ℕ
node_base blocks self = blocks * self * 32

unfoldable pub node_size : ℕ → ℕ → ℕ → ℕ
node_size sz blocks self =
    if ltb 0x800_0000 sz
    then 0
    else if ltb sz (blocks * 32 * (self + 1))
    then (if ltb sz (blocks * self * 32) then 0 else sz - blocks * self * 32)
    else blocks * 32

-- `send_idx[i]` and `send_size[i]`: where the part of node `i` begins and ends
unfoldable pub send_begin : ℕ → ℕ → ℕ
send_begin blocks i = i * blocks * 32

unfoldable pub send_end : ℕ → ℕ → ℕ → ℕ
send_end sz blocks i =
    if ltb sz (blocks * 32 + send_begin blocks i) then sz else send_begin blocks i + blocks * 32

-- The sender and the receiver agree on the part of every node, also on one that is cut short or empty, for a
-- vector of at most 2 ^ 27 words.
pub partition_agrees :
    (sz blocks i : ℕ)
    → sz ≤ 0x800_0000
    → (send_begin blocks i ≡ node_base blocks i)
      × (send_end sz blocks i - send_begin blocks i ≡ node_size sz blocks i)
unfolding send_begin send_end node_base node_size
partition_agrees sz blocks i small =
    let a : i * blocks ≡ blocks * i = mul_comm i blocks in
    let b : blocks * 32 * (i + 1) ≡ blocks * i * 32 + blocks * 32 =
      mul-add (blocks * 32) i 1
      ∙ ap (λ y. y + blocks * 32 * 1) (mul_right_comm blocks 32 i)
      ∙ omega arith in
    (ap (λ x. x * 32) a, rw (a, b) (ground arith))

round_up_lem : (a b : ℕ) → 0 < b → a ≤ round_up a b * b
round_up_lem a b h =
    let d = div-add-mod a b in
    let c = mul_comm b (a / b) in
    let e = suc-mul (a / b) b in
    let m = mod-lt a h in
    elim (Bool-cases (a % b == 0)) [
      | inl t ↦ let z : a % b ≡ 0 = ground arith in rw t (omega (arith, d, c, z))
      | inr t ↦
          let f : a / b + 1 ≡ suc (a / b) = omega arith in rw (t, f) (omega (arith, d, c, e, m))
    ]

positive : (n part : ℕ) → 0 < n * part → 0 < part
positive n zero h = absurd (omega (arith, h, mul-zero n))
positive n (suc part) h = omega arith

-- With `part` words in a part, node `i` has the words from `part * i` up to `part * i + part`, as far as
-- the vector goes.
in_part :
    (sz blocks i x : ℕ)
    → sz ≤ 0x800_0000
    → x < sz
    → ((node_base blocks i ≤ x) × (x < node_base blocks i + node_size sz blocks i)
        → (i * (blocks * 32) ≤ x) × (x < (i + 1) * (blocks * 32)))
      × ((i * (blocks * 32) ≤ x) × (x < (i + 1) * (blocks * 32))
          → (node_base blocks i ≤ x) × (x < node_base blocks i + node_size sz blocks i))
unfolding node_base node_size
in_part sz blocks i x small lt =
    let a : blocks * i * 32 ≡ i * (blocks * 32) =
      ap (λ y. y * 32) (mul_comm blocks i) ∙ mul_assoc i blocks 32 in
    let b : blocks * 32 * (i + 1) ≡ (i + 1) * (blocks * 32) = mul_comm (blocks * 32) (i + 1) in
    let c : (i + 1) * (blocks * 32) ≡ i * (blocks * 32) + blocks * 32 =
      add-mul i 1 (blocks * 32) ∙ omega arith in
    rw (a, b, c) (λ h. ground (arith, h.0, h.1), λ h. ground (arith, h.0, h.1))

enough_parts : (sz nodes : ℕ) → 0 < nodes → sz ≤ nodes * (blocks_per_node sz nodes * 32)
unfolding blocks_per_node
enough_parts sz nodes pos =
    let b = round_up sz 32 in
    let lo : sz ≤ b * 32 = round_up_lem sz 32 (omega arith) in
    let hi : b * 32 ≤ round_up b nodes * nodes * 32 =
      mul-le-mul_right 32 (round_up_lem b nodes pos) in
    let e : round_up b nodes * nodes * 32 ≡ nodes * (round_up b nodes * 32) =
      ap (λ y. y * 32) (mul_comm (round_up b nodes) nodes)
      ∙ mul_assoc nodes (round_up b nodes) 32 in
    omega (arith, lo, hi, e)

-- The parts of the nodes cover a vector of at most 2 ^ 27 words and do not overlap: every word is in the part
-- of exactly one node.
pub partition_tiles :
    (sz nodes x : ℕ)
    → 0 < nodes
    → sz ≤ 0x800_0000
    → x < sz
    → (i : ℕ) × ((i < nodes)
        × (node_base (blocks_per_node sz nodes) i ≤ x)
        × (x < node_base (blocks_per_node sz nodes) i + node_size sz (blocks_per_node sz nodes) i)
        × ((j : ℕ)
            → node_base (blocks_per_node sz nodes) j ≤ x
            → x < node_base (blocks_per_node sz nodes) j + node_size sz (blocks_per_node sz nodes) j
            → j ≡ i))
partition_tiles sz nodes x pos small lt =
    let blocks = blocks_per_node sz nodes in
    let part = blocks * 32 in
    let enough = enough_parts sz nodes pos in
    let some_words : 0 < part = positive nodes part (omega arith) in
    let i = x / part in
    let lo : i * part ≤ x = div-mul-le_self x part in
    let hi : x < (i + 1) * part =
      rw (add-mul i 1 part) (omega (arith, lt-div-mul-add {a = x} some_words)) in
    let (at, after) = (in_part sz blocks i x small lt).1 (lo, hi) in
    (
      i,
      (
        (div-lt_iff_lt-mul some_words).1 (omega arith),
        at,
        after,
        λ j le' lt'.
            let (l, u) = (in_part sz blocks j x small lt).0 (le', lt') in
            let below : j ≤ i = (le-div_iff_mul-le some_words).1 l in
            let above : i < j + 1 = (div-lt_iff_lt-mul some_words).1 u in omega arith,
      ),
    )
