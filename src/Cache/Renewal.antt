-- ===== src/Cache/Renewal.antt =====
-- What the loop of `ServerWrite` and `ServerWriteMiss` (Dogee/DogeeDirectoryCache.cpp) that renews the copies of
-- a block does to the nodes, when its messages have arrived.
use dogee.Prelude.{
  ℕ, zero, suc, ◌+◌, ◌-◌, ◌/◌, ◌%◌, ◌<◌, ◌≡◌, refl, ap, ◌∙◌, ◌≢◌, sym, inl, inr, List, [], ◌∷◌,
  ◌++◌, arith, Bool, false, not, ◌&&◌, ◌==◌, leb, ltb, if◌then◌else◌, Bool-cases, subst,
}
use native.Mathlib.Decide.{ℕ_discrete}
use dogee.Cache.Bits.{test_bit, test_bit-zero}
use dogee.Cache.Node.{Node, Cluster, set_node}
use dogee.Cache.Server.{server_renew, renew_at, renew_loop, deliver, renew}
use mathlib.Core.Path.{fun_ext}

-- Whether the loop that is at node `i` with the bits `old` will renew node `j`.
renewed : ℕ → ℕ → ℕ → ℕ → Bool
renewed src_id i old j = leb i j && test_bit old (j - i) && not (src_id == j)

renewed_first : (src_id i old : ℕ) → renewed src_id i old i ≡ ((old % 2 == 1) && not (src_id == i))
unfolding renewed test_bit
renewed_first src_id i old = let e : i - i ≡ 0 = omega arith in rw e (ground arith)

renewed_later :
    (src_id i old j : ℕ) → i ≢ j → renewed src_id i old j ≡ renewed src_id (suc i) (old / 2) j
unfolding renewed
renewed_later src_id i old j h = elim (Bool-cases (ltb i j)) [
  | inl before ↦ ground (arith, later)
  | inr after ↦ ground arith
]
  where
    later : i < j → test_bit old (j - i) ≡ test_bit (old / 2) (j - suc i)
    later lt = let e : j - i ≡ suc (j - suc i) = omega arith in rw e (unfold test_bit in refl)

renewed_past : (src_id i old j : ℕ) → j < i → renewed src_id i old j ≡ false
unfolding renewed
renewed_past src_id i old j h = ground arith

-- The nodes of the messages are behind the loop.
abbrev AllPassed : List ℕ → ℕ → Type 0
AllPassed [] i = Unit
AllPassed (m ∷ messages) i = (m < i) × AllPassed messages i

AllPassed-suc : (messages : List ℕ) (i : ℕ) → AllPassed messages i → AllPassed messages (suc i)
AllPassed-suc [] i h = tt
AllPassed-suc (m ∷ messages) i (lt, h) = (omega arith, AllPassed-suc messages i h)

AllPassed-snoc :
    (messages : List ℕ) (i : ℕ) → AllPassed messages i → AllPassed (messages ++ (i ∷ [])) (suc i)
AllPassed-snoc [] i h = (omega arith, tt)
AllPassed-snoc (m ∷ messages) i (lt, h) = (omega arith, AllPassed-snoc messages i h)

-- The loop with the messages of each round delivered at once.
module _ {S : Type 0} where
  unfoldable apply_at : ℕ → ℕ → ℕ → ℕ → List ℕ → Cluster S → Cluster S
  apply_at i old src_id addr v cl =
      if (old % 2 == 1) && not (src_id == i)
      then set_node cl i (server_renew (cl.node i) addr v)
      else cl

  unfoldable apply_loop : ℕ → ℕ → ℕ → ℕ → ℕ → List ℕ → Cluster S → Cluster S
  apply_loop zero i old src_id addr v cl = cl
  apply_loop (suc n) i old src_id addr v cl =
      apply_loop n (suc i) (old / 2) src_id addr v (apply_at i old src_id addr v cl)

module _ {S : Type 0} (src_id addr : ℕ) (v : List ℕ) where
  apply_at_node :
      (i old j : ℕ) (cl : Cluster S)
      → (apply_at i old src_id addr v cl).node j ≡ (
          if (i == j) && renewed src_id i old i then server_renew (cl.node j) addr v else cl.node j)
  unfolding apply_at set_node
  apply_at_node i old j cl = elim (ℕ_discrete i j) [
    | yes e ↦
        subst
          (λ a. (apply_at i old src_id addr v cl).node a ≡ (
            if (i == a) && renewed src_id i old i
            then server_renew (cl.node a) addr v
            else cl.node a))
          e (rw (renewed_first src_id i old) (ground arith))
    | no e ↦ ground arith
  ]

  apply_at_rest :
      (i old : ℕ) (cl : Cluster S)
      → ((apply_at i old src_id addr v cl).store ≡ cl.store)
        × ((apply_at i old src_id addr v cl).caches ≡ cl.caches)
  unfolding apply_at set_node
  apply_at_rest i old cl = ground arith

  apply_loop_node :
      (n i old j : ℕ) (cl : Cluster S)
      → (apply_loop n i old src_id addr v cl).node j ≡ (
          if ltb j (i + n) && renewed src_id i old j
          then server_renew (cl.node j) addr v
          else cl.node j)
  unfolding apply_loop
  apply_loop_node zero i old j cl = unfold renewed in ground arith
  apply_loop_node (suc n) i old j cl =
      apply_loop_node n (suc i) (old / 2) j (apply_at i old src_id addr v cl)
      ∙ elim (ℕ_discrete i j) [
        | yes e ↦ ground (
          arith,
          apply_at_node i old j cl,
          renewed_past src_id (suc i) (old / 2) j (omega arith),
          ap (renewed src_id i old) e,
        )
        | no e ↦ ground (arith, apply_at_node i old j cl, renewed_later src_id i old j e)
      ]

  apply_loop_rest :
      (n i old : ℕ) (cl : Cluster S)
      → ((apply_loop n i old src_id addr v cl).store ≡ cl.store)
        × ((apply_loop n i old src_id addr v cl).caches ≡ cl.caches)
  unfolding apply_loop
  apply_loop_rest zero i old cl = (refl, refl)
  apply_loop_rest (suc n) i old cl =
      let (a, b) = apply_loop_rest n (suc i) (old / 2) (apply_at i old src_id addr v cl) in
      let (c, d) = apply_at_rest i old cl in (a ∙ c, b ∙ d)

  set_node_comm :
      (cl : Cluster S) (i j : ℕ) (a b : Node)
      → j ≢ i
      → set_node (set_node cl i a) j b ≡ set_node (set_node cl j b) i a
  unfolding set_node
  set_node_comm cl i j a b h =
      ap (λ (f : ℕ → Node). record cl { node = f }) (fun_ext λ k. ground arith)

  set_node_other :
      (cl : Cluster S) (i j : ℕ) (a : Node) → j ≢ i → (set_node cl i a).node j ≡ cl.node j
  unfolding set_node
  set_node_other cl i j a h = ground arith

  -- A node that renews its block first or last.
  deliver-set_node :
      (messages : List ℕ) (i : ℕ) (cl : Cluster S)
      → AllPassed messages i
      → deliver addr v messages (set_node cl i (server_renew (cl.node i) addr v))
        ≡ set_node
            (deliver addr v messages cl)
            i
            (server_renew ((deliver addr v messages cl).node i) addr v)
  unfolding deliver
  deliver-set_node [] i cl h = refl
  deliver-set_node (m ∷ messages) i cl (lt, h) =
      let new = server_renew (cl.node i) addr v in
      let cl1 = set_node cl m (server_renew (cl.node m) addr v) in
      ap (λ n. deliver addr v messages (set_node (set_node cl i new) m (server_renew n addr v)))
        (set_node_other cl i m new (λ e. omega arith))
      ∙ ap (deliver addr v messages) (
          set_node_comm cl i m new (server_renew (cl.node m) addr v) (λ e. omega arith)
          ∙ ap (λ n. set_node cl1 i (server_renew n addr v))
              (sym (set_node_other cl m i (server_renew (cl.node m) addr v) (λ e. omega arith))))
      ∙ deliver-set_node messages i cl1 h

  deliver-append :
      (messages : List ℕ) (i : ℕ) (cl : Cluster S)
      → deliver addr v (messages ++ (i ∷ [])) cl
        ≡ set_node
            (deliver addr v messages cl)
            i
            (server_renew ((deliver addr v messages cl).node i) addr v)
  unfolding deliver
  deliver-append [] i cl = refl
  deliver-append (m ∷ messages) i cl =
      deliver-append messages i (set_node cl m (server_renew (cl.node m) addr v))

  deliver-renew_at :
      (here i old : ℕ) (cl : Cluster S) (messages : List ℕ)
      → AllPassed messages i
      → (deliver addr v
            (renew_at here i old src_id addr v (cl, messages)).1
            (renew_at here i old src_id addr v (cl, messages)).0
          ≡ apply_at i old src_id addr v (deliver addr v messages cl))
        × AllPassed (renew_at here i old src_id addr v (cl, messages)).1 (suc i)
  unfolding renew_at apply_at
  deliver-renew_at here i old cl messages h =
      elim (Bool-cases ((old % 2 == 1) && not (src_id == i))) [
        | inl t ↦ elim (Bool-cases (i == here)) [
          | inl own ↦ rw (t, own) (deliver-set_node messages i cl h, AllPassed-suc messages i h)
          | inr other ↦ rw (t, other) (deliver-append messages i cl, AllPassed-snoc messages i h)
        ]
        | inr t ↦ rw t (refl, AllPassed-suc messages i h)
      ]

  deliver-renew_loop :
      (n here i old : ℕ) (cl : Cluster S) (messages : List ℕ)
      → AllPassed messages i
      → deliver addr v
          (renew_loop n here i old src_id addr v (cl, messages)).1
          (renew_loop n here i old src_id addr v (cl, messages)).0
        ≡ apply_loop n i old src_id addr v (deliver addr v messages cl)
  unfolding renew_loop apply_loop
  deliver-renew_loop zero here i old cl messages h = refl
  deliver-renew_loop (suc n) here i old cl messages h =
      let next = renew_at here i old src_id addr v (cl, messages) in
      let (e, passed) = deliver-renew_at here i old cl messages h in
      deliver-renew_loop n here (suc i) (old / 2) (next.0) (next.1) passed
      ∙ ap (apply_loop n (suc i) (old / 2) src_id addr v) e

  pub renew_rest :
      (here old : ℕ) (cl : Cluster S)
      → ((renew here old src_id addr v cl).store ≡ cl.store)
        × ((renew here old src_id addr v cl).caches ≡ cl.caches)
  unfolding renew deliver
  renew_rest here old cl =
      let e = deliver-renew_loop cl.caches here 0 old cl [] tt in
      let (a, b) = apply_loop_rest cl.caches 0 old cl in
      elim (Bool-cases (old == 0)) [
        | inl z ↦ rw z (refl, refl)
        | inr z ↦
            let f : renew here old src_id addr v cl ≡ apply_loop cl.caches 0 old src_id addr v cl =
              rw z e in
            (ap (λ c. c.store) f ∙ a, ap (λ c. c.caches) f ∙ b)
      ]

  -- A node with a bit renews its block, but not the node that wrote; all others stay as they are.
  pub renew_node :
      (here old j : ℕ) (cl : Cluster S)
      → j < cl.caches
      → (renew here old src_id addr v cl).node j ≡ (
          if test_bit old j && not (src_id == j)
          then server_renew (cl.node j) addr v
          else cl.node j)
  unfolding renew renewed deliver
  renew_node here old j cl h =
      let e = deliver-renew_loop cl.caches here 0 old cl [] tt in
      let e0 : j - 0 ≡ j = omega arith in
      let f0 : 0 + cl.caches ≡ cl.caches = omega arith in
      elim (Bool-cases (old == 0)) [
        | inl z ↦ ground (arith, test_bit-zero j)
        | inr z ↦
            let f : renew here old src_id addr v cl ≡ apply_loop cl.caches 0 old src_id addr v cl =
              rw z e in
            ap (λ c. c.node j) f
            ∙ ground (arith, apply_loop_node cl.caches 0 old j cl, ap (test_bit old) e0)
      ]
