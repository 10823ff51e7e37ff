-- ===== src/Cache/Node.antt =====
-- The state of the caches of a cluster: the blocks, the hash table and the free queue of each node
-- (include/DogeeDirectoryCache.h), and the directory of the blocks whose home it is. A node is known
-- by its `cache_id`.
use dogee.Prelude.{ℕ, zero, suc, ◌+◌, ◌%◌, List, [], ◌∷◌, Option, none, ◌==◌, if◌then◌else◌}
use dogee.Cache.Address.{cache_size, bad_key}

pub record CacheBlock : Type 0 where
  pub words : ℕ → ℕ
  pub lru : ℕ
  pub key : ℕ

pub record Node : Type 0 where
  pub block_cache : ℕ → CacheBlock
  pub block_queue : List ℕ
  pub cache : ℕ → Option ℕ
  pub directory : ℕ → Option ℕ
  pub clock : ℕ

-- The caches of all nodes, `0` to `caches - 1`, over one store.
pub record Cluster (S : Type 0) : Type 0 where
  pub caches : ℕ
  pub store : S
  pub node : ℕ → Node

-- `map[k] = v`, and `map.erase(k)`
abbrev pub update {ℓ} : {A : Type ℓ} → (ℕ → A) → ℕ → A → ℕ → A
update m k v j = if j == k then v else m j

unfoldable pub set_node : {S : Type 0} → Cluster S → ℕ → Node → Cluster S
set_node cl j n = record cl { node = update cl.node j n }

-- `CacheClock()`: a 32-bit counter.
abbrev pub next_clock : ℕ → ℕ
next_clock c = (c + 1) % 0x1_0000_0000

unfoldable pub touch : Node → ℕ → Node
touch n i = record n {
  block_cache = update n.block_cache i (record (n.block_cache i) { lru = n.clock });
  clock = next_clock n.clock;
}

-- The free blocks in their order, `n` of them from `i` on.
unfoldable pub count_up : ℕ → ℕ → List ℕ
count_up zero i = []
count_up (suc n) i = i ∷ count_up n (suc i)

-- The constructor `DSMDirectoryCache`; the words of the blocks are what the memory held.
unfoldable pub init : (ℕ → ℕ → ℕ) → Node
init junk = record {
  block_cache = λ i. record { words = junk i; lru = 0; key = bad_key };
  block_queue = count_up cache_size 0;
  cache = λ k. none;
  directory = λ k. none;
  clock = 0;
}

-- What a call does: it returns, it stops at a break point or a failed `assert`, or it goes round
-- `goto MISS` for ever, since nothing changes the block that it looks at.
pub data Run {ℓ} (A : Type ℓ) : Type ℓ where
  ok : A → Run A
  stopped spins : Run A

infixl 5 ◌>>=◌
abbrev pub ◌>>=◌ {ℓ κ} : {A : Type ℓ} {B : Type κ} → Run A → (A → Run B) → Run B
ok a >>= f = f a
stopped >>= f = stopped
spins >>= f = spins
