-- ===== src/Cache.antt =====
-- The directory cache: the cached blocks of every node, the directory of each home, and the calls that
-- read and write the shared memory (include/DogeeDirectoryCache.h, Dogee/DogeeDirectoryCache.cpp).
pub mod Address
pub mod Bits
pub mod Backend
pub mod Node
pub mod Server
pub mod Client
pub mod Sound
pub mod Coherent
pub mod Renewal
pub mod Directory
pub mod Writes
pub mod Oldest
pub mod Answers
pub mod Filled
pub mod Blocks
pub mod Hits
pub mod PutNew
pub mod Puts
pub mod Gets
pub mod Memory
pub mod Chunk
pub mod PutChunk
pub mod GetChunk
pub mod Loss
