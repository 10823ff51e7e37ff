-- ===== src/Cache/Server.antt =====
-- The class `DSMCacheProtocal` of Dogee/DogeeDirectoryCache.cpp. A request runs to its end before
-- the next begins: its message is handled, its reply read, and the renewals that it sends arrive.
use dogee.Prelude.{
  ℕ, zero, suc, ◌/◌, ◌%◌, List, [], ◌∷◌, ◌++◌, Option, none, some, Bool, not, ◌&&◌, ◌==◌,
  if◌then◌else◌, take,
}
use dogee.Cache.Address.{high_mask, low_mask, home}
use dogee.Cache.Bits.{set_bit, clear_bit}
use dogee.Cache.Backend.{Backend, copy}
use dogee.Cache.Node.{Node, Cluster, update, set_node, Run, ok, stopped, ◌>>=◌}

abbrev pub get_or {ℓ} : {A : Type ℓ} → Option A → A → A
get_or none d = d
get_or (some a) d = a

-- `ServerRenew` on a node
unfoldable pub server_renew : Node → ℕ → List ℕ → Node
server_renew n addr v = elim (n.cache (high_mask addr)) [
  | none ↦ n
  | some i ↦
      let blk = n.block_cache i in
      if blk.key == high_mask addr
      then record n {
        block_cache =
            update n.block_cache i (record blk { words = copy (low_mask addr) v blk.words });
      }
      else n
]

module _ {S : Type 0} where
  -- One round of the loop over the caches on node `here`: node `i` is sent a `MsgRenew` if its bit is set and
  -- it is not the writer, and node `here` renews its own block. The nodes are collected to which
  -- messages are on their way, which have the same address and words.
  unfoldable pub renew_at :
      (here i old src_id addr : ℕ) → List ℕ → Cluster S × List ℕ → Cluster S × List ℕ
  renew_at here i old src_id addr v (cl, messages) =
      if (old % 2 == 1) && not (src_id == i)
      then (if i == here
          then (set_node cl i (server_renew (cl.node i) addr v), messages)
          else (cl, messages ++ (i ∷ [])))
      else (cl, messages)

  unfoldable pub renew_loop :
      (n here i old src_id addr : ℕ) → List ℕ → Cluster S × List ℕ → Cluster S × List ℕ
  renew_loop zero here i old src_id addr v sent = sent
  renew_loop (suc n) here i old src_id addr v sent =
      renew_loop n here (suc i) (old / 2) src_id addr v (renew_at here i old src_id addr v sent)

  -- The case `MsgRenew` of the listeners of the nodes `messages`, in the order of the messages.
  unfoldable pub deliver : ℕ → List ℕ → List ℕ → Cluster S → Cluster S
  deliver addr v [] cl = cl
  deliver addr v (i ∷ messages) cl =
      deliver addr v messages (set_node cl i (server_renew (cl.node i) addr v))

  -- The messages of a write are sent, and all of them arrive. The source does not wait for an acknowledgement,
  -- so that this holds of calls between which the network has the time to deliver them.
  unfoldable pub renew : (here old src_id addr : ℕ) → List ℕ → Cluster S → Cluster S
  renew here old src_id addr v cl =
      let (cl', messages) = renew_loop cl.caches here 0 old src_id addr v (cl, []) in
      if old == 0 then cl else deliver addr v messages cl'

  -- the entry of the block in the directory of its home; 0 if there is none
  abbrev pub sharers : Cluster S → ℕ → ℕ → ℕ
  sharers cl id addr = get_or ((cl.node id).directory addr) 0

  -- the check that a request of another node came to the home of its address
  abbrev pub misdirected : Cluster S → ℕ → ℕ → ℕ → Bool
  misdirected cl id src_id addr = not (src_id == id) && not (home cl.caches addr == id)

  unfoldable pub set_directory : Cluster S → ℕ → ℕ → Option ℕ → Cluster S
  set_directory cl id addr entry =
      set_node cl id (record (cl.node id) { directory = update (cl.node id).directory addr entry })

  unfoldable pub server_writeback : Cluster S → ℕ → ℕ → ℕ → Run (Cluster S)
  server_writeback cl id addr src_id =
      if not (home cl.caches addr == id)
      then stopped
      else ok (elim ((cl.node id).directory addr) [
        | none ↦ cl
        | some old ↦
            let newv = clear_bit old src_id in
            set_directory cl id addr (if newv == 0 then none else some newv)
      ])

  -- `Writeback` on node `id`
  unfoldable pub writeback : Cluster S → ℕ → ℕ → Run (Cluster S)
  writeback cl id addr = server_writeback cl (home cl.caches addr) addr id

module _ (B : Backend) where
  open B use {Store, putchunk, getblock}

  unfoldable pub server_write : Cluster Store → ℕ → ℕ → ℕ → List ℕ → Run (Cluster Store)
  server_write cl id addr src_id v =
      if misdirected cl id src_id addr
      then stopped
      else ok (
          renew id (sharers cl id (high_mask addr)) src_id addr v
            (record cl { store = putchunk cl.store addr v }))

  -- The block that the requester gets, or `none` for `MsgReplyBadAddress`.
  unfoldable pub server_write_miss :
      Cluster Store → ℕ → ℕ → ℕ → List ℕ → Run (Cluster Store × Option (ℕ → ℕ))
  server_write_miss cl id addr src_id v =
      if misdirected cl id src_id addr
      then stopped
      else let baddr = high_mask addr in
        let old = sharers cl id baddr in
        let stored : Cluster Store = record cl { store = putchunk cl.store addr v } in
        let noted = set_directory stored id baddr (some (set_bit old src_id)) in
        let renewed = renew id old src_id addr v noted in ok (renewed, getblock renewed.store baddr)

  unfoldable pub server_read_miss : Cluster Store → ℕ → ℕ → ℕ → Run (Cluster Store × Option (ℕ → ℕ))
  server_read_miss cl id addr src_id =
      if misdirected cl id src_id addr
      then stopped
      else let old = sharers cl id addr in
        let noted = set_directory cl id addr (some (set_bit old src_id)) in
        ok (noted, getblock noted.store addr)

  -- `Write` on node `id`
  unfoldable pub write : Cluster Store → ℕ → ℕ → List ℕ → Run (Cluster Store)
  write cl id addr v = server_write cl (home cl.caches addr) addr id v

  -- The reply into block `i` of node `id`, and its key; with no reply the block stays as it is.
  unfoldable pub fill : Cluster Store → ℕ → ℕ → ℕ → Option (ℕ → ℕ) → Cluster Store
  fill cl id i key none = cl
  fill cl id i key (some words) =
      let n = cl.node id in
      set_node cl id (record n {
        block_cache =
            update n.block_cache i (record (n.block_cache i) { words = words; key = key });
      })

  -- `WriteMiss` on node `id` into its block `i`. The home of the block passes the length 1 on.
  unfoldable pub write_miss : Cluster Store → ℕ → ℕ → List ℕ → ℕ → Run (Cluster Store)
  write_miss cl id addr v i = do
    let target = home cl.caches addr
    (cl', reply) ← server_write_miss cl target addr id (if target == id then take 1 v else v)
    ok (fill cl' id i (high_mask addr) reply)

  -- `ReadMiss` on node `id` into its block `i`
  unfoldable pub read_miss : Cluster Store → ℕ → ℕ → ℕ → Run (Cluster Store)
  read_miss cl id addr i = do
    (cl', reply) ← server_read_miss cl (home cl.caches addr) addr id
    ok (fill cl' id i addr reply)
