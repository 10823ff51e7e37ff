-- ===== src/MapReduce/Rounds.antt =====
-- The loop of `_Map` of Dogee/DogeeAccumulator.cpp, with PrepareBuf of include/DogeeMR.h.
use mathlib.Core.List.{append_assoc, append-nil}
use dogee.Prelude.{
  ℕ, zero, suc, ◌<◌, ◌≤◌, ◌≡◌, refl, sym, ap, ◌∙◌, List, [], ◌∷◌, ◌++◌, some, length, arith, subst,
  ◌-◌,
}
use dogee.MapReduce.Serializer.{InputSerializer}
use dogee.MapReduce.Buffers.{
  prepare_buf, AllSendable, prepare_buf_lem, prepare_buf_progress, base_do_accumulate_dense,
  base_do_accumulate_dense_lem, map_pairs,
}

-- `BD_DATA_PROCESS_SIZE / sizeof(uint32_t)`
abbrev pub buflen : ℕ
buflen = 4096

module _ {K V : Type 0} (key_serializer : InputSerializer K) (value_serializer : InputSerializer V)
    (limit : ℕ) where
  -- The buffers that a round sends to `n` nodes, and the pairs that are left.
  unfoldable pub send_round : ℕ → List (K × V) → List (List ℕ) × List (K × V)
  send_round zero es = ([], es)
  send_round (suc n) es =
      let (buf, rest) = prepare_buf key_serializer value_serializer buflen limit 0 0 es in
      let (bufs, left) = send_round n rest in (buf ∷ bufs, left)

  -- The loop, which runs while there are pairs. A round is the turn of the node itself, or it goes to the
  -- nodes whose sockets are ready; the list has their number for each round.
  unfoldable pub map_rounds : List ℕ → List (K × V) → List (List ℕ) × List (K × V)
  map_rounds [] es = ([], es)
  map_rounds (n ∷ ns) [] = ([], [])
  map_rounds (n ∷ ns) (e ∷ es) =
      let (bufs, rest) = send_round n (e ∷ es) in
      let (later, left) = map_rounds ns rest in (bufs ++ later, left)

abbrev pub concat {ℓ} : {A : Type ℓ} → List (List A) → List A
concat [] = []
concat (xs ∷ xss) = xs ++ concat xss

concat-append {ℓ} :
    {A : Type ℓ} (xss yss : List (List A)) → concat (xss ++ yss) ≡ concat xss ++ concat yss
concat-append [] yss = refl
concat-append (xs ∷ xss) yss =
    ap (λ r. xs ++ r) (concat-append xss yss) ∙ sym (append_assoc xs (concat xss) (concat yss))

prepare_none :
    {K V : Type 0} (kc : InputSerializer K) (vc : InputSerializer V) (n limit idx elements : ℕ)
    → prepare_buf kc vc n limit idx elements [] ≡ ([], [])
unfolding prepare_buf
prepare_none kc vc n limit idx elements = refl

abbrev pub AllPositive : List ℕ → Type 0
AllPositive [] = Unit
AllPositive (n ∷ ns) = (0 < n) × AllPositive ns

empty {ℓ} : {A : Type ℓ} (xs : List A) → length xs ≤ 0 → xs ≡ []
empty [] h = refl
empty (x ∷ xs) h = absurd (omega arith)

module _ {K V M : Type 0} (key_serializer : InputSerializer K)
    (value_serializer : InputSerializer V) (do_map : K × V → M → M) (limit : ℕ) where
  -- Each buffer is not too long, and a node that receives it maps the pairs of its part.
  abbrev pub Carries : List (List ℕ) → List (List (K × V)) → Type 0
  Carries [] [] = Unit
  Carries [] (p ∷ ps) = ⊥
  Carries (b ∷ bs) [] = ⊥
  Carries (b ∷ bs) (p ∷ ps) =
      (length b ≤ buflen)
      × ((m : M)
          → base_do_accumulate_dense key_serializer value_serializer do_map b m
            ≡ some (map_pairs key_serializer value_serializer do_map p m))
      × Carries bs ps

  Carries-append :
      (bs cs : List (List ℕ)) (ps qs : List (List (K × V)))
      → Carries bs ps
      → Carries cs qs
      → Carries (bs ++ cs) (ps ++ qs)
  Carries-append [] cs [] qs h k = k
  Carries-append [] cs (p ∷ ps) qs h k = absurd h
  Carries-append (b ∷ bs) cs [] qs h k = absurd h
  Carries-append (b ∷ bs) cs (p ∷ ps) qs h k = (h.0, h.1, Carries-append bs cs ps qs h.2 k)

  abbrev AreSendable : List (K × V) → Type 0
  AreSendable = AllSendable key_serializer value_serializer buflen

  AreSendable-parts :
      (xs ys : List (K × V)) → AreSendable (xs ++ ys) → AreSendable xs × AreSendable ys
  AreSendable-parts [] ys s = (tt, s)
  AreSendable-parts (x ∷ xs) ys s = let (a, b) = AreSendable-parts xs ys s.1 in ((s.0, a), b)

  -- What is sent so far: some parts of the pairs, each in a buffer, and the rest, which is not longer than `n`.
  abbrev pub Sends : List (List ℕ) → List (K × V) → List (K × V) → ℕ → Type 0
  Sends bufs rest es n =
      (parts : List (List (K × V))) × (Carries bufs parts
        × (es ≡ concat parts ++ rest)
        × AreSendable rest
        × (length rest ≤ n))

  left_shorter :
      (es : List (K × V))
      → AreSendable es
      → length (prepare_buf key_serializer value_serializer buflen limit 0 0 es).1 ≤ length es - 1
  left_shorter [] s =
      rw (prepare_none key_serializer value_serializer buflen limit 0 0) (omega arith)
  left_shorter (e ∷ es) s =
      omega (arith, prepare_buf_progress key_serializer value_serializer buflen limit e es s.0 s.1)

  -- Two times of sending, one after the other.
  then-Sends :
      (bufs later : List (List ℕ)) (es rest left : List (K × V)) (n m : ℕ)
      → Sends bufs rest es n
      → (AreSendable rest → Sends later left rest m)
      → Sends (bufs ++ later) left es m
  then-Sends bufs later es rest left n m (ps, (carried, same, s, short)) next =
      let (qs, (carried', same', s', short')) = next s in
      (
        ps ++ qs,
        (
          Carries-append bufs later ps qs carried carried',
          same
              ∙ ap (λ xs. concat ps ++ xs) same'
              ∙ sym (append_assoc (concat ps) (concat qs) left)
              ∙ ap (λ xs. xs ++ left) (sym (concat-append ps qs)),
          s',
          short',
        ),
      )

  one_buffer :
      (es : List (K × V))
      → AreSendable es
      → let (buf, rest) = prepare_buf key_serializer value_serializer buflen limit 0 0 es in
        Sends (buf ∷ []) rest es (length es - 1)
  one_buffer es s =
      let (buf, rest) = prepare_buf key_serializer value_serializer buflen limit 0 0 es in
      let (taken, (same, written, fits)) =
        prepare_buf_lem key_serializer value_serializer buflen limit 0 0 es s (omega arith) in
      let (sent, left) = AreSendable-parts taken rest (subst AreSendable same s) in
      (
        taken ∷ [],
        (
          (
            omega (arith, fits),
            λ m.
                ap (λ b. base_do_accumulate_dense key_serializer value_serializer do_map b m)
                  written
                ∙ base_do_accumulate_dense_lem key_serializer value_serializer do_map buflen taken m
                    sent,
            tt,
          ),
          same ∙ ap (λ xs. xs ++ rest) (sym (append-nil taken)),
          left,
          left_shorter es s,
        ),
      )

  at_most :
      (bufs : List (List ℕ)) (rest es : List (K × V)) (n m : ℕ)
      → Sends bufs rest es n
      → n ≤ m
      → Sends bufs rest es m
  at_most bufs rest es n m (ps, (carried, same, s, short)) h = (ps, (carried, same, s, omega arith))

  send_round_lem :
      (n : ℕ) (es : List (K × V))
      → AreSendable es
      → let (bufs, rest) = send_round key_serializer value_serializer limit n es in
        Sends bufs rest es (length es - n)
  unfolding send_round
  send_round_lem zero es s = ([], (tt, refl, s, omega arith))
  send_round_lem (suc n) es s =
      let (buf, rest) = prepare_buf key_serializer value_serializer buflen limit 0 0 es in
      let (bufs, left) = send_round key_serializer value_serializer limit n rest in
      then-Sends (buf ∷ []) bufs es rest left (length es - 1) (length es - suc n) (one_buffer es s)
        (λ s'.
          at_most bufs left rest (length rest - n) (length es - suc n) (send_round_lem n rest s')
            (omega (arith, left_shorter es s)))

  map_rounds_lem :
      (ns : List ℕ) (es : List (K × V))
      → AreSendable es
      → AllPositive ns
      → let (bufs, left) = map_rounds key_serializer value_serializer limit ns es in
        Sends bufs left es (length es - length ns)
  unfolding map_rounds
  map_rounds_lem [] es s p = ([], (tt, refl, s, omega arith))
  map_rounds_lem (n ∷ ns) [] s p = ([], (tt, refl, tt, omega arith))
  map_rounds_lem (n ∷ ns) (e ∷ es) s p =
      let (bufs, rest) = send_round key_serializer value_serializer limit n (e ∷ es) in
      let (later, left) = map_rounds key_serializer value_serializer limit ns rest in
      let first = send_round_lem n (e ∷ es) s in
      then-Sends bufs later (e ∷ es) rest left (length (e ∷ es) - n)
        (length (e ∷ es) - length (n ∷ ns)) first
        (λ s'.
          at_most later left rest (length rest - length ns) (length (e ∷ es) - length (n ∷ ns))
            (map_rounds_lem ns rest s' p.1) (omega (arith, first.1.3, p.0)))

  -- However many sockets are ready in each round, the loop of `_Map` ends after as many rounds as there are
  -- pairs, at most. Its buffers are not too long, and the nodes that receive them map every pair once: what they
  -- map, put together in the order of the buffers, are the pairs. Each pair fits into a buffer, its parts are
  -- read as they are written, and a round sends one buffer at least.
  pub map_delivers :
      (ns : List ℕ) (es : List (K × V))
      → AllSendable key_serializer value_serializer buflen es
      → AllPositive ns
      → length es ≤ length ns
      → ((map_rounds key_serializer value_serializer limit ns es).1 ≡ [])
        × ((parts : List (List (K × V))) × (Carries
                (map_rounds key_serializer value_serializer limit ns es).0
                parts
              × (concat parts ≡ es)))
  map_delivers ns es s p enough =
      let left = (map_rounds key_serializer value_serializer limit ns es).1 in
      let (parts, (carried, same, s', short)) = map_rounds_lem ns es s p in
      let none_left : left ≡ [] = empty left (omega (arith, short)) in
      (
        none_left,
        (
          parts,
          (
            carried,
            sym (same ∙ ap (λ xs. concat parts ++ xs) none_left ∙ append-nil (concat parts)),
          ),
        ),
      )
