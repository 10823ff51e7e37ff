-- ===== src/Storage.antt =====
-- The storage in memcached, with one item for each word or for each block (`SoStorageMemcached` and
-- `SoStorageChunkMemcached` of Dogee/DogeeMemcachedStorage.cpp).
pub mod Memcached
pub mod Fetch
pub mod Words
pub mod Blocks
pub mod ChunkWords
pub mod Chunks
pub mod ChunkWrites
pub mod ChunkParts
pub mod ChunkPut
