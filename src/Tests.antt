-- ===== src/Tests.antt =====
-- Tests of the definitions on concrete inputs, and each theorem applied to such an input.
mod AccumulatorTests
mod BlockTests
mod CacheTests
mod CheckpointTests
mod DMapTests
mod MapReduceTests
mod ObjectTests
mod StartupTests
mod StorageTests
mod SyncTests
