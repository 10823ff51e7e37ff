-- ===== src/Cache/PutNew.antt =====
-- A write that misses (`WriteMiss` and the end of `doput` of Dogee/DogeeDirectoryCache.cpp).
use dogee.Prelude.{
  ℕ, ◌+◌, ◌<◌, ◌≤◌, ◌≡◌, refl, ap, ◌∙◌, List, [], ◌∷◌, Option, some, arith, take, true, ◌==◌,
  if◌then◌else◌, length, ==_iff,
}
use dogee.Cache.Address.{high_mask, low_mask, home}
use dogee.Cache.Backend.{Backend, copy}
use dogee.Cache.Bits.{set_bit}
use dogee.Cache.Node.{Cluster, set_node, Run, ok, ◌>>=◌}
use dogee.Cache.Server.{sharers, set_directory, fill, server_write_miss, write_miss}
use dogee.Cache.Client.{touch_block, put_new}
use dogee.Cache.Directory.{home-high_mask, set_directory-Same}
use dogee.Cache.Renewal.{renew_rest}
use dogee.Cache.Writes.{clock-renew, word_after}
use dogee.Cache.Answers.{Ready, told_miss, Answered-write}
use dogee.Cache.Filled.{filled-Coherent, filled_key, filled_rest}
use dogee.Cache.Hits.{Readable, Stores}

-- The words that the home stores for a write of `v` by node `id` that misses: where the node is the
-- home itself, `WriteMiss` hands over the length 1.
unfoldable pub sent : {S : Type 0} → Cluster S → ℕ → ℕ → List ℕ → List ℕ
sent cl id addr v = if home cl.caches addr == id then take 1 v else v

pub sent-fits :
    {S : Type 0} (cl : Cluster S) (id addr : ℕ) (v : List ℕ)
    → low_mask addr + length v ≤ 32
    → low_mask addr + length (sent cl id addr v) ≤ 32
unfolding sent
sent-fits cl id addr [] h = ground arith
sent-fits cl id addr (x ∷ v) h = ground arith

module _ (B : Backend) where
  open B use {Store, word, putchunk, getblock-word}

  server_write_miss_lem :
      (cl : Cluster Store) (id addr : ℕ) (v : List ℕ)
      → server_write_miss B cl (home cl.caches addr) addr id v
        ≡ ok
            (told_miss B cl id addr v, B.getblock (told_miss B cl id addr v).store (high_mask addr))
  unfolding server_write_miss
  server_write_miss_lem cl id addr v =
      let here : (home cl.caches addr == home cl.caches addr) ≡ true = (==_iff _ _).1 refl in
      let block : home cl.caches (high_mask addr) ≡ home cl.caches addr =
        home-high_mask cl.caches addr in
      rw (block, here) (ground arith)

  told_miss_rest :
      (cl : Cluster Store) (id addr : ℕ) (v : List ℕ)
      → low_mask addr + length v ≤ 32
      → (word (told_miss B cl id addr v).store ≡ copy addr v (word cl.store))
        × ((told_miss B cl id addr v).caches ≡ cl.caches)
        × ((j : ℕ) → j < cl.caches → ((told_miss B cl id addr v).node j).clock ≡ (cl.node j).clock)
  unfolding set_directory set_node
  told_miss_rest cl id addr v fits =
      let k = high_mask addr in
      let h0 = home cl.caches k in
      let stored : Cluster Store = record cl { store = putchunk cl.store addr v } in
      let old = sharers cl h0 k in
      let entry : Option ℕ = some (set_bit old id) in
      let noted = set_directory stored h0 k entry in
      let (same_store, same_caches) = renew_rest id addr v h0 old noted in
      (
        ap word same_store ∙ word_after B cl.store addr v fits,
        same_caches,
        λ j lt.
            clock-renew h0 id addr v old j noted lt ∙ (set_directory-Same stored h0 k entry j).time,
      )

  write_miss_runs :
      (cl : Cluster Store) (id addr i : ℕ) (v : List ℕ) (words : ℕ → ℕ)
      → B.getblock (told_miss B cl id addr (sent cl id addr v)).store (high_mask addr) ≡ some words
      → write_miss B cl id addr v i
        ≡ ok
            (fill B (told_miss B cl id addr (sent cl id addr v)) id i (high_mask addr) (some words))
  unfolding write_miss sent
  write_miss_runs cl id addr i v words read =
      ap
        (λ (r : Run (Cluster Store × Option (ℕ → ℕ))).
          r >>= λ p. ok (fill B p.0 id i (high_mask addr) p.1))
        (server_write_miss_lem cl id addr (sent cl id addr v))
      ∙ rw read refl

  put_new_runs :
      (cl : Cluster Store) (id addr i : ℕ) (v : List ℕ) (words : ℕ → ℕ)
      → B.getblock (told_miss B cl id addr (sent cl id addr v)).store (high_mask addr) ≡ some words
      → ((told_miss B cl id addr (sent cl id addr v)).node id).clock < 0xffff_ffff
      → put_new B cl id addr v i
        ≡ ok (
            touch_block
              (fill B
                (told_miss B cl id addr (sent cl id addr v))
                id
                i
                (high_mask addr)
                (some words))
              id
              i)
  unfolding put_new
  put_new_runs cl id addr i v words read small =
      let cl2 = told_miss B cl id addr (sent cl id addr v) in
      rw
        (
          write_miss_runs cl id addr i v words read,
          filled_key B cl2 id (high_mask addr) i words small,
        )
        refl

  pub put_new_lem :
      (cl : Cluster Store) (id addr i : ℕ) (v : List ℕ)
      → Readable B
      → low_mask addr + length v ≤ 32
      → id < cl.caches
      → (cl.node id).clock < 0xffff_ffff
      → Ready B cl id (high_mask addr) i (copy addr (sent cl id addr v) (word cl.store))
      → (cl' : Cluster Store) × ((put_new B cl id addr v i ≡ ok cl')
          × Stores B cl cl' addr (sent cl id addr v))
  put_new_lem cl id addr i v readable fits lt small h =
      let k = high_mask addr in
      let u = sent cl id addr v in
      let cl2 = told_miss B cl id addr u in
      let (words, read) = readable cl2.store k in
      let (same_word, same_caches, same_clocks) =
        told_miss_rest cl id addr u (sent-fits cl id addr v fits) in
      let small2 : (cl2.node id).clock < 0xffff_ffff = rw (same_clocks id lt) small in
      (
        touch_block (fill B cl2 id i k (some words)) id i,
        (
          put_new_runs cl id addr i v words read small2,
          record {
            coherent =
                filled-Coherent B cl2 id k i words small2
                  (Answered-write B cl id addr i u (sent-fits cl id addr v fits) lt h)
                  (λ x lt'. getblock-word cl2.store k words x read lt');
            words = ap word (filled_rest B cl2 id k i words small2).0 ∙ same_word;
            count = (filled_rest B cl2 id k i words small2).1 ∙ same_caches;
            clocks =
                λ j lt'. rw⁻¹ (same_clocks j lt') ((filled_rest B cl2 id k i words small2).2 j);
          },
        ),
      )
