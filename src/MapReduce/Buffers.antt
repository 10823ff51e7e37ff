-- ===== src/MapReduce/Buffers.antt =====
-- The buffers of `DMapReduce` of include/DogeeMR.h: `Map` fills them by its function PrepareBuf, and
-- `BaseDoAccumulateDense` reads them.
use mathlib.Core.List.{append_assoc, append-nil}
use dogee.Prelude.{
  ℕ, zero, suc, ◌+◌, ◌<◌, ◌≤◌, ◌≡◌, ◌≢◌, refl, sym, ap, ◌∙◌, List, [], ◌∷◌, ◌++◌, Option, none,
  some, true, false, ◌&&◌, ltb, leb, ◌==◌, if◌then◌else◌, length, length-append, drop, arith,
  lt→ltb, Bool-cases, inl, inr,
}
use dogee.MapReduce.Serializer.{InputSerializer, RoundTrips, drop_written}

le→leb : (a b : ℕ) → a ≤ b → leb a b ≡ true
le→leb a b h = ground arith

eq_false : (a b : ℕ) → a ≢ b → (a == b) ≡ false
eq_false a b h = ground arith

fits_lem : (idx n buflen : ℕ) → (ltb idx buflen && leb (idx + n) buflen) ≡ true → idx + n ≤ buflen
fits_lem idx n buflen h = ground arith

room_lem : (n buflen : ℕ) → 0 < n → n ≤ buflen → (ltb 0 buflen && leb (0 + n) buflen) ≡ true
room_lem n buflen pos h = ground arith

no_room : (n buflen : ℕ) → buflen < n → (ltb 0 buflen && leb (0 + n) buflen) ≡ false
no_room n buflen h = ground arith

module _ {K V : Type 0} (key_serializer : InputSerializer K)
    (value_serializer : InputSerializer V) where
  abbrev pub size_of : K × V → ℕ
  size_of (k, v) = key_serializer.get_size k + value_serializer.get_size v

  abbrev pub cells_of : K × V → List ℕ
  cells_of (k, v) = key_serializer.serialize k ++ value_serializer.serialize v

  -- PrepareBuf, with `idx` cells and `elements` pairs in the buffer: the cells that it adds, and the pairs
  -- that are left. `limit` is `cnt / num_nodes + 1`, the number of pairs
  -- after which a buffer is sent.
  unfoldable pub prepare_buf : ℕ → ℕ → ℕ → ℕ → List (K × V) → List ℕ × List (K × V)
  prepare_buf buflen limit idx elements [] = ([], [])
  prepare_buf buflen limit idx elements (e ∷ es) =
      let later = prepare_buf buflen limit (idx + length (cells_of e)) (suc elements) es in
      let added =
        if leb limit (suc elements) then (cells_of e, es) else (cells_of e ++ later.0, later.1) in
      if ltb idx buflen && leb (idx + size_of e) buflen then added else ([], e ∷ es)

  -- `DecodeKeyValue`
  unfoldable pub decode_key_value : List ℕ → Option ((K × V) × ℕ)
  decode_key_value buf = elim (key_serializer.deserialize buf) [
    | none ↦ none
    | some (k, n) ↦
        if ltb n (length buf)
        then (elim (value_serializer.deserialize (drop n buf)) [
          | none ↦ none
          | some (v, m) ↦ if leb (n + m) (length buf) then some ((k, v), n + m) else none
        ])
        else none
  ]

  module _ {M : Type 0} (do_map : K × V → M → M) where
    -- The loop of `BaseDoAccumulateDense` over the cells of a message; a pair has a cell at least.
    unfoldable pub accumulate_cells : ℕ → List ℕ → M → Option M
    accumulate_cells zero buf m = none
    accumulate_cells (suc fuel) buf m =
        let rest = elim (decode_key_value buf) as (λ x. Option M) [
          | none ↦ none
          | some (e, n) ↦ accumulate_cells fuel (drop n buf) (do_map e m)
        ] in
        if length buf == 0 then some m else rest

    unfoldable pub base_do_accumulate_dense : List ℕ → M → Option M
    base_do_accumulate_dense buf m = accumulate_cells (suc (length buf)) buf m

    abbrev pub map_pairs : List (K × V) → M → M
    map_pairs [] m = m
    map_pairs (e ∷ es) m = map_pairs es (do_map e m)

  abbrev pub write_pairs : List (K × V) → List ℕ
  write_pairs [] = []
  write_pairs (e ∷ es) = cells_of e ++ write_pairs es

  -- A pair that can be sent: its parts are serialized and read again, its value takes a cell, and it fits into
  -- a buffer.
  abbrev pub Sendable : ℕ → K × V → Type 0
  Sendable buflen (k, v) =
      RoundTrips key_serializer k
      × RoundTrips value_serializer v
      × (0 < value_serializer.get_size v)
      × (key_serializer.get_size k + value_serializer.get_size v ≤ buflen)

  abbrev pub AllSendable : ℕ → List (K × V) → Type 0
  AllSendable buflen [] = Unit
  AllSendable buflen (e ∷ es) = Sendable buflen e × AllSendable buflen es

  size_of_cells : (buflen : ℕ) (e : K × V) → Sendable buflen e → size_of e ≡ length (cells_of e)
  size_of_cells buflen (k, v) s = omega (
    arith,
    s.0.1,
    s.1.1,
    length-append (key_serializer.serialize k) (value_serializer.serialize v),
  )

  -- What a call of PrepareBuf takes: the first pairs, in their order, as many as fit.
  abbrev pub Takes : ℕ → ℕ → List ℕ → List (K × V) → List (K × V) → Type 0
  Takes buflen idx cells rest es =
      (taken : List (K × V)) × ((es ≡ taken ++ rest)
        × (cells ≡ write_pairs taken)
        × (idx + length cells ≤ buflen))

  Takes-none : (buflen idx : ℕ) (es : List (K × V)) → idx ≤ buflen → Takes buflen idx [] es es
  Takes-none buflen idx es h = ([], (refl, refl, omega arith))

  Takes-more :
      (buflen idx : ℕ) (cells : List ℕ) (rest es : List (K × V)) (e : K × V)
      → Takes buflen (idx + length (cells_of e)) cells rest es
      → Takes buflen idx (cells_of e ++ cells) rest (e ∷ es)
  Takes-more buflen idx cells rest es e (taken, (same, written, fits)) = (
    e ∷ taken,
    (
      ap (λ xs. e ∷ xs) same,
      ap (λ xs. cells_of e ++ xs) written,
      omega (arith, length-append (cells_of e) cells),
    ),
  )

  Takes-one :
      (buflen idx : ℕ) (es : List (K × V)) (e : K × V)
      → idx + length (cells_of e) ≤ buflen
      → Takes buflen idx (cells_of e) es (e ∷ es)
  Takes-one buflen idx es e h = (e ∷ [], (refl, sym (append-nil (cells_of e)), h))

  rest_shorter :
      (buflen limit idx elements : ℕ) (es : List (K × V))
      → length (prepare_buf buflen limit idx elements es).1 ≤ length es
  unfolding prepare_buf
  rest_shorter buflen limit idx elements [] = omega arith
  rest_shorter buflen limit idx elements (e ∷ es) =
      let ih = rest_shorter buflen limit (idx + length (cells_of e)) (suc elements) es in
      elim (Bool-cases (ltb idx buflen && leb (idx + size_of e) buflen)) [
        | inr full ↦ rw full (omega arith)
        | inl room ↦ elim (Bool-cases (leb limit (suc elements))) [
          | inl enough ↦ rw (room, enough) (omega arith)
          | inr more ↦ rw (room, more) (omega (arith, ih))
        ]
      ]

  pub prepare_buf_lem :
      (buflen limit idx elements : ℕ) (es : List (K × V))
      → AllSendable buflen es
      → idx ≤ buflen
      → Takes buflen idx
          (prepare_buf buflen limit idx elements es).0
          (prepare_buf buflen limit idx elements es).1
          es
  unfolding prepare_buf
  prepare_buf_lem buflen limit idx elements [] s h = Takes-none buflen idx [] h
  prepare_buf_lem buflen limit idx elements (e ∷ es) s h =
      elim (Bool-cases (ltb idx buflen && leb (idx + size_of e) buflen)) [
        | inr full ↦ rw full (Takes-none buflen idx (e ∷ es) h)
        | inl room ↦
            let fits : idx + length (cells_of e) ≤ buflen =
              omega (arith, size_of_cells buflen e s.0, fits_lem idx (size_of e) buflen room) in
            elim (Bool-cases (leb limit (suc elements))) [
              | inl enough ↦ rw (room, enough) (Takes-one buflen idx es e fits)
              | inr more ↦
                  rw (room, more)
                    (Takes-more buflen idx _ _ es e (
                      prepare_buf_lem buflen limit (idx + length (cells_of e)) (suc elements) es s.1
                        fits))
            ]
      ]

  -- An empty buffer takes a pair at least.
  pub prepare_buf_progress :
      (buflen limit : ℕ) (e : K × V) (es : List (K × V))
      → Sendable buflen e
      → AllSendable buflen es
      → length (prepare_buf buflen limit 0 0 (e ∷ es)).1 ≤ length es
  unfolding prepare_buf
  prepare_buf_progress buflen limit (k, v) es s all =
      let room : (ltb 0 buflen && leb (0 + size_of (k, v)) buflen) ≡ true =
        room_lem (size_of (k, v)) buflen (omega (arith, s.2)) s.3 in
      elim (Bool-cases (leb limit 1)) [
        | inl enough ↦ rw (room, enough) (omega arith)
        | inr more ↦ rw (room, more) (rest_shorter buflen limit (0 + length (cells_of (k, v))) 1 es)
      ]

  -- A pair that is larger than a buffer is never taken.
  pub too_large :
      (buflen limit : ℕ) (e : K × V) (es : List (K × V))
      → buflen < size_of e
      → prepare_buf buflen limit 0 0 (e ∷ es) ≡ ([], e ∷ es)
  unfolding prepare_buf
  too_large buflen limit e es h = rw (no_room (size_of e) buflen h) refl

module _ {K V M : Type 0} (key_serializer : InputSerializer K)
    (value_serializer : InputSerializer V) (do_map : K × V → M → M) (buflen : ℕ) where
  abbrev cells : K × V → List ℕ
  cells = cells_of key_serializer value_serializer

  abbrev all_cells : List (K × V) → List ℕ
  all_cells = write_pairs key_serializer value_serializer

  decode_step :
      (buf : List ℕ) (k : K) (v : V) (n m : ℕ)
      → key_serializer.deserialize buf ≡ some (k, n)
      → ltb n (length buf) ≡ true
      → value_serializer.deserialize (drop n buf) ≡ some (v, m)
      → leb (n + m) (length buf) ≡ true
      → decode_key_value key_serializer value_serializer buf ≡ some ((k, v), n + m)
  unfolding decode_key_value
  decode_step buf k v n m e f g h = rw (e, decode_key_value, g, f, h) refl

  decode_lem :
      (e : K × V) (rest : List ℕ)
      → Sendable key_serializer value_serializer buflen e
      → decode_key_value key_serializer value_serializer (cells e ++ rest)
        ≡ some (e, length (cells e))
  decode_lem (k, v) rest s =
      let a = key_serializer.serialize k in
      let b = value_serializer.serialize v in
      let both = length-append a b in
      let long : length ((a ++ b) ++ rest) ≡ (length a + length b) + length rest =
        omega (arith, length-append (a ++ b) rest, both) in
      let first : key_serializer.deserialize ((a ++ b) ++ rest) ≡ some (k, length a) =
        rw (append_assoc a b rest) (s.0.0 (b ++ rest)) in
      let second : value_serializer.deserialize (drop (length a) ((a ++ b) ++ rest))
          ≡ some (v, length b) =
        rw (append_assoc a b rest, drop_written key_serializer a (b ++ rest)) (s.1.0 rest) in
      decode_step ((a ++ b) ++ rest) k v (length a) (length b) first
        (lt→ltb _ _ (omega (arith, long, s.1.1, s.2))) second (le→leb _ _ (omega (arith, long)))
      ∙ ap (λ (n : ℕ). some ((k, v), n)) (sym both)

  cells_pos : (e : K × V) → Sendable key_serializer value_serializer buflen e → 0 < length (cells e)
  cells_pos (k, v) s =
      omega (
        arith,
        s.2,
        s.1.1,
        length-append (key_serializer.serialize k) (value_serializer.serialize v),
      )

  accumulate_end :
      (fuel : ℕ) (m : M)
      → accumulate_cells key_serializer value_serializer do_map (suc fuel) [] m ≡ some m
  unfolding accumulate_cells
  accumulate_end fuel m = refl

  accumulate_step :
      (fuel n : ℕ) (buf : List ℕ) (m : M) (e : K × V)
      → (length buf == 0) ≡ false
      → decode_key_value key_serializer value_serializer buf ≡ some (e, n)
      → accumulate_cells key_serializer value_serializer do_map (suc fuel) buf m
        ≡ accumulate_cells key_serializer value_serializer do_map fuel (drop n buf) (do_map e m)
  unfolding accumulate_cells
  accumulate_step fuel n buf m e f d = rw (f, d) refl

  accumulate_lem :
      (fuel : ℕ) (es : List (K × V)) (m : M)
      → AllSendable key_serializer value_serializer buflen es
      → length (all_cells es) < fuel
      → accumulate_cells key_serializer value_serializer do_map fuel (all_cells es) m
        ≡ some (map_pairs key_serializer value_serializer do_map es m)
  accumulate_lem zero es m s f = absurd (omega arith)
  accumulate_lem (suc fuel) [] m s f = accumulate_end fuel m
  accumulate_lem (suc fuel) (e ∷ es) m s f =
      let long = length-append (cells e) (all_cells es) in
      let some_cell : 0 < length (cells e) = cells_pos e s.0 in
      accumulate_step fuel (length (cells e)) (cells e ++ all_cells es) m e
        (eq_false (length (cells e ++ all_cells es)) 0 (omega (arith, long, some_cell)))
        (decode_lem e (all_cells es) s.0)
      ∙ ap (λ buf. accumulate_cells key_serializer value_serializer do_map fuel buf (do_map e m))
          (drop_written key_serializer (cells e) (all_cells es))
      ∙ accumulate_lem fuel es (do_map e m) s.1 (omega (arith, long, some_cell))

  -- A buffer that holds pairs is read to its end, and each pair is mapped once, in their order.
  pub base_do_accumulate_dense_lem :
      (es : List (K × V)) (m : M)
      → AllSendable key_serializer value_serializer buflen es
      → base_do_accumulate_dense key_serializer value_serializer do_map (all_cells es) m
        ≡ some (map_pairs key_serializer value_serializer do_map es m)
  unfolding base_do_accumulate_dense
  base_do_accumulate_dense_lem es m s =
      accumulate_lem (suc (length (all_cells es))) es m s (omega arith)
