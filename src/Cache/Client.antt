-- ===== src/Cache/Client.antt =====
-- The calls of `DSMDirectoryCache` (Dogee/DogeeDirectoryCache.cpp) on a node of the cluster, one at
-- a time: no other thread holds a lock or changes a block while a call runs.
use dogee.Prelude.{
  ℕ, zero, suc, List, [], ◌∷◌, Option, none, some, Bool, true, false, not, ◌&&◌, ltb, ◌==◌,
  if◌then◌else◌,
}
use dogee.Cache.Address.{high_mask, low_mask, make64, bad_key, cache_size}
use dogee.Cache.Backend.{Backend, copy}
use dogee.Cache.Node.{
  CacheBlock, Node, Cluster, update, set_node, touch, Run, ok, stopped, spins, ◌>>=◌,
}
use dogee.Cache.Server.{writeback, write, write_miss, read_miss}

-- The loop for the block in use that was used longest ago: `n` blocks from `i` on.
unfoldable pub oldest : ℕ → ℕ → (ℕ → CacheBlock) → ℕ → Option ℕ → Option ℕ
oldest zero i blocks minlru mini = mini
oldest (suc n) i blocks minlru mini =
    let better = not ((blocks i).key == bad_key) && ltb (blocks i).lru minlru in
    oldest n (suc i) blocks (if better then (blocks i).lru else minlru)
      (if better then some i else mini)

-- The node after block `i` was taken from the block `oldkey` for the block `k`.
unfoldable pub swap_out : Node → ℕ → ℕ → Node
swap_out n i k = record n {
  block_cache =
      update n.block_cache i (record (n.block_cache i) { key = bad_key; lru = 0xffff_ffff });
  cache = update (update n.cache (n.block_cache i).key none) k (some i);
}

-- The node after block `i` was taken from the free queue, of which `rest` is left.
unfoldable pub take_free : Node → ℕ → List ℕ → ℕ → Node
take_free n i rest k = record n { block_queue = rest; cache = update n.cache k (some i) }

-- A block for a key, and whether another request for the key is pending.
pub record Found (S : Type 0) : Type 0 where
  pub cluster : Cluster S
  pub block : ℕ
  pub is_pending : Bool

module _ {S : Type 0} where
  unfoldable pub getblock_free : Cluster S → ℕ → ℕ → List ℕ → Run (Found S)
  getblock_free cl id k [] = elim (oldest cache_size 0 (cl.node id).block_cache 0xffff_ffff none) [
    | none ↦ stopped
    | some i ↦ do
      let n = cl.node id
      cl' ← writeback (set_node cl id (swap_out n i k)) id (n.block_cache i).key
      ok (record { cluster = cl'; block = i; is_pending = false })
  ]
  getblock_free cl id k (i ∷ rest) = ok (record {
    cluster = set_node cl id (take_free (cl.node id) i rest k);
    block = i;
    is_pending = false;
  })

  unfoldable pub getblock : Cluster S → ℕ → ℕ → Run (Found S)
  getblock cl id k = elim ((cl.node id).cache k) [
    | some i ↦ ok (record { cluster = cl; block = i; is_pending = true })
    | none ↦ getblock_free cl id k (cl.node id).block_queue
  ]

  unfoldable pub touch_block : Cluster S → ℕ → ℕ → Cluster S
  touch_block cl id i = set_node cl id (touch (cl.node id) i)

  unfoldable pub copy_block : Cluster S → ℕ → ℕ → ℕ → List ℕ → Cluster S
  copy_block cl id i off v =
      let n = cl.node id in
      set_node cl id (record n {
        block_cache =
            update n.block_cache i
              (record (n.block_cache i) { words = copy off v (n.block_cache i).words });
      })

module _ (B : Backend) where
  open B use {Store}

  -- A write into block `i`, which holds the address.
  unfoldable pub put_hit : Cluster Store → ℕ → ℕ → ℕ → List ℕ → Run (Cluster Store)
  put_hit cl id i addr v =
      write B (copy_block (touch_block cl id i) id i (low_mask addr) v) id addr v

  -- A new block, which is filled by the reply of the home.
  unfoldable pub put_new : Cluster Store → ℕ → ℕ → List ℕ → ℕ → Run (Cluster Store)
  put_new cl id addr v i = do
    cl' ← write_miss B cl id addr v i
    let cl'' = touch_block cl' id i
    (if ((cl''.node id).block_cache i).key == high_mask addr then ok cl'' else stopped)

  -- A block that the table names: it is used if its key is still the right one.
  unfoldable pub put_found : Cluster Store → ℕ → ℕ → List ℕ → ℕ → Run (Cluster Store)
  put_found cl id addr v i =
      if ((cl.node id).block_cache i).key == high_mask addr then put_hit cl id i addr v else spins

  -- From the label `MISS` on.
  unfoldable pub put_miss : Cluster Store → ℕ → ℕ → List ℕ → Run (Cluster Store)
  put_miss cl id addr v = do
    f ← getblock cl id (high_mask addr)
    (if f.is_pending
        then put_found f.cluster id addr v f.block
        else put_new f.cluster id addr v f.block)

  unfoldable pub doput : Cluster Store → ℕ → ℕ → List ℕ → Run (Cluster Store)
  doput cl id addr v = elim ((cl.node id).cache (high_mask addr)) [
    | none ↦ put_miss cl id addr v
    | some i ↦
        if ((cl.node id).block_cache i).key == high_mask addr
        then put_hit cl id i addr v
        else put_miss cl id addr v
  ]

  -- The words of the block, which `func` is given.
  unfoldable pub get_hit : Cluster Store → ℕ → ℕ → Run (Cluster Store × (ℕ → ℕ))
  get_hit cl id i = ok (touch_block cl id i, ((cl.node id).block_cache i).words)

  unfoldable pub get_new : Cluster Store → ℕ → ℕ → ℕ → Run (Cluster Store × (ℕ → ℕ))
  get_new cl id k i = do
    cl' ← read_miss B cl id k i
    (if ((cl'.node id).block_cache i).key == k then get_hit cl' id i else stopped)

  unfoldable pub get_found : Cluster Store → ℕ → ℕ → ℕ → Run (Cluster Store × (ℕ → ℕ))
  get_found cl id k i = if ((cl.node id).block_cache i).key == k then get_hit cl id i else spins

  unfoldable pub get_miss : Cluster Store → ℕ → ℕ → Run (Cluster Store × (ℕ → ℕ))
  get_miss cl id k = do
    f ← getblock cl id k
    (if f.is_pending then get_found f.cluster id k f.block else get_new f.cluster id k f.block)

  unfoldable pub doget : Cluster Store → ℕ → ℕ → Run (Cluster Store × (ℕ → ℕ))
  doget cl id addr =
      let k = high_mask addr in
      elim ((cl.node id).cache k) [
        | none ↦ get_miss cl id k
        | some i ↦
            if ((cl.node id).block_cache i).key == k then get_hit cl id i else get_miss cl id k
      ]

  unfoldable pub get : Cluster Store → ℕ → ℕ → ℕ → Run (Cluster Store × ℕ)
  get cl id okey fldid = do
    (cl', words) ← doget cl id (make64 okey fldid)
    ok (cl', words (low_mask fldid))

  unfoldable pub put : Cluster Store → ℕ → ℕ → ℕ → ℕ → Run (Cluster Store)
  put cl id okey fldid v = doput cl id (make64 okey fldid) (v ∷ [])
