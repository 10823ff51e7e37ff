-- ===== src/Cache/Address.antt =====
-- The addresses of the shared memory: the masks of include/DogeeStorage.h, and the node that is
-- the home of a block (Dogee/DogeeDirectoryCache.cpp). An address is a 64-bit number: the object in
-- the upper half, the field in the lower.
use dogee.Prelude.{ℕ, ◌+◌, ◌*◌, ◌/◌, ◌%◌}

-- `DSM_CACHE_BLOCK_SIZE`, the words of a block
abbrev pub block_size : ℕ
block_size = 32

-- `DSM_CACHE_SIZE`, the blocks of a cache
abbrev pub cache_size : ℕ
cache_size = 1024

-- `DSM_CACHE_BAD_KEY`, the key of a block that is not in use
abbrev pub bad_key : ℕ
bad_key = 31

-- `addr & DSM_CACHE_HIGH_MASK_64`
abbrev pub high_mask : ℕ → ℕ
high_mask addr = addr / 32 * 32

-- `addr & DSM_CACHE_LOW_MASK_64`
abbrev pub low_mask : ℕ → ℕ
low_mask addr = addr % 32

-- `MAKE64(okey, fldid)`
abbrev pub make64 : ℕ → ℕ → ℕ
make64 okey fldid = okey * 0x1_0000_0000 + fldid

-- `(addr >> DSM_CACHE_BITS) % caches`
abbrev pub home : ℕ → ℕ → ℕ
home caches addr = addr / 32 % caches
