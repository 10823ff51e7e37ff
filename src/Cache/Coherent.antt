-- ===== src/Cache/Coherent.antt =====
-- The invariant of a cluster of directory caches (Dogee/DogeeDirectoryCache.cpp) between two calls,
-- and what the loop that renews the copies of a block does to it.
use dogee.Prelude.{
  ℕ, ◌+◌, ◌<◌, ◌≤◌, ◌≡◌, refl, inl, inr, List, some, arith, true, length, Option-cases, ==_iff,
}
use dogee.Cache.Address.{high_mask, low_mask, home}
use dogee.Cache.Backend.{Backend, copy}
use dogee.Cache.Bits.{test_bit}
use dogee.Cache.Node.{Node, Cluster}
use dogee.Cache.Server.{server_renew, sharers}
use dogee.Cache.Sound.{Sound, rewrite-Sound, unheld-Sound}

abbrev pub NodeIsSound : (ℕ → ℕ) → Node → Type 0
NodeIsSound w n = Sound w n.block_cache n.block_queue n.cache n.clock

module _ (B : Backend) where
  open B use {Store, word}

  -- Every block in use holds the words of the store, and the home of the block knows its holders, for which
  -- a directory entry has 64 bits.
  pub record Coherent (cl : Cluster Store) : Type 0 where
    pub few : cl.caches ≤ 64
    pub sound : (j : ℕ) → j < cl.caches → NodeIsSound (word cl.store) (cl.node j)
    pub shared :
        (j k i : ℕ)
        → j < cl.caches
        → (cl.node j).cache k ≡ some i
        → test_bit (sharers cl (home cl.caches k) k) j ≡ true

pub server_renew_same :
    (n : Node) (addr : ℕ) (v : List ℕ)
    → ((server_renew n addr v).cache ≡ n.cache)
      × ((server_renew n addr v).directory ≡ n.directory)
      × ((server_renew n addr v).block_queue ≡ n.block_queue)
      × ((server_renew n addr v).clock ≡ n.clock)
unfolding server_renew
server_renew_same n addr v = ground arith

pub server_renew-Sound :
    (w : ℕ → ℕ) (n : Node) (addr : ℕ) (v : List ℕ)
    → low_mask addr + length v ≤ 32
    → NodeIsSound w n
    → NodeIsSound (copy addr v w) (server_renew n addr v)
unfolding server_renew
server_renew-Sound w n addr v fits s = elim (Option-cases (n.cache (high_mask addr))) [
  | inl miss ↦ rw (miss, server_renew) (unheld-Sound addr v s miss fits)
  | inr (i, hit) ↦
      let key : (n.block_cache i).key ≡ high_mask addr = s.keyed (high_mask addr) i hit in
      rw (hit, server_renew, (==_iff _ _).1 key)
        (rewrite-Sound addr v i (n.block_cache i).lru n.clock s hit fits (omega arith) (inl refl)
          (s.recent i (omega arith)))
]
