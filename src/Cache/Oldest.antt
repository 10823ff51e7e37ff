-- ===== src/Cache/Oldest.antt =====
-- The block that `getblock` of Dogee/DogeeDirectoryCache.cpp takes when the free queue is empty.
use dogee.Prelude.{
  ℕ, zero, suc, ◌+◌, ◌<◌, ◌≤◌, ◌≡◌, refl, ◌≢◌, Option, none, some, arith, true, not, ◌&&◌, ◌==◌,
  ltb, [], Bool-cases, inl, inr,
}
use dogee.Cache.Client.{oldest}
use dogee.Cache.Sound.{Blocks, Sound}

-- Block `i` is in use, and no block in use below `n` was used before it.
pub record IsOldest (n : ℕ) (blocks : Blocks) (i : ℕ) : Type 0 where
  pub inside : i < n
  pub in_use : (blocks i).key ≢ 31
  pub least : (j : ℕ) → j < n → (blocks j).key ≢ 31 → (blocks i).lru ≤ (blocks j).lru

oldest_from :
    (n i : ℕ) (blocks : Blocks) (mini : ℕ)
    → IsOldest i blocks mini
    → (r : ℕ) × ((oldest n i blocks (blocks mini).lru (some mini) ≡ some r)
        × IsOldest (i + n) blocks r)
unfolding oldest
oldest_from zero i blocks mini h = let e : i + 0 ≡ i = omega arith in (mini, (refl, rw e h))
oldest_from (suc n) i blocks mini h =
    let e : i + suc n ≡ suc i + n = omega arith in
    elim (Bool-cases (not ((blocks i).key == 31) && ltb (blocks i).lru (blocks mini).lru)) [
      | inl t ↦
          rw (t, e)
            (oldest_from n (suc i) blocks i (record {
              inside = omega arith;
              in_use = ground arith;
              least = λ j lt busy. ground (arith, h.least j);
            }))
      | inr t ↦
          rw (t, e)
            (oldest_from n (suc i) blocks mini (record {
              inside = ground (arith, h.inside);
              in_use = h.in_use;
              least = λ j lt busy. ground (arith, h.least j);
            }))
    ]

-- With no block free there is a block to take, and it is a least recently used one: no block in use
-- has an older time. The cache is sound and its clock has not come to its end.
pub oldest_lem :
    {w : ℕ → ℕ} {blocks : Blocks} {cache : ℕ → Option ℕ} {clock : ℕ}
    → Sound w blocks [] cache clock
    → clock < 0xffff_ffff
    → (r : ℕ) × ((oldest 1024 0 blocks 0xffff_ffff none ≡ some r) × IsOldest 1024 blocks r)
unfolding oldest
oldest_lem {blocks = blocks} {clock = clock} s small =
    let used : (j : ℕ) → j < 1024 → (blocks j).key ≢ 31 = λ j lt e. s.covered j lt e in
    let first : (not ((blocks 0).key == 31) && ltb (blocks 0).lru 0xffff_ffff) ≡ true =
      ground (arith, used 0, s.recent 0) in
    rw first (
      oldest_from 1023 1 blocks 0 (record {
        inside = omega arith;
        in_use = used 0 (omega arith);
        least = λ j lt h. ground arith;
      }))
