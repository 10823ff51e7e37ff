-- ===== src/Cache/Loss.antt =====
-- A write that misses at the home of its block (`WriteMiss` of Dogee/DogeeDirectoryCache.cpp).
use dogee.Prelude.{ℕ, ◌+◌, ◌<◌, ◌≤◌, ◌≡◌, refl, ap, ◌∙◌, List, [], ◌∷◌, none, length, ==_iff}
use dogee.Cache.Address.{high_mask, low_mask, home}
use dogee.Cache.Backend.{Backend, copy}
use dogee.Cache.Node.{Cluster, update, ok}
use dogee.Cache.Client.{doput}
use dogee.Cache.Coherent.{Coherent}
use dogee.Cache.Hits.{Readable}
use dogee.Cache.Puts.{stored_miss, stored, doput_lem}
use dogee.Cache.PutNew.{sent}
use dogee.Cache.Memory.{copy_word}

-- A node that writes several words into a block whose home it is, and which its cache does not have,
-- stores the first word only: the call returns, and all other words of the store are as they were. The
-- words lie in one block, the store can be read, the caches, at most 64, agree with it before, and the clock
-- of the node does not wrap around.
pub local_miss_loses :
    (B : Backend) (cl : Cluster B.Store) (id addr x : ℕ) (v : List ℕ)
    → Readable B
    → Coherent B cl
    → low_mask addr + length (x ∷ v) ≤ 32
    → id < cl.caches
    → (cl.node id).clock < 0xffff_ffff
    → (cl.node id).cache (high_mask addr) ≡ none
    → home cl.caches addr ≡ id
    → (cl' : Cluster B.Store) × ((doput B cl id addr (x ∷ v) ≡ ok cl')
        × (B.word cl'.store ≡ update (B.word cl.store) addr x))
local_miss_loses B cl id addr x v readable h fits lt small miss same =
    let (cl', (runs, s)) = doput_lem B cl id addr (x ∷ v) readable h fits lt small in
    let one : stored B cl id addr (x ∷ v) ≡ x ∷ [] =
      stored_miss B cl id addr (x ∷ v) miss ∙ unfold sent in rw ((==_iff _ _).1 same) refl in
    (
      cl',
      (
        runs,
        s.words ∙ ap (λ u. copy addr u (B.word cl.store)) one ∙ copy_word (B.word cl.store) addr x,
      ),
    )
