-- ===== src/Checkpoint.antt =====
-- The checkpoints of Dogee/DogeeCheckpoint.cpp.
pub mod Store
pub mod Stream
pub mod Dump
pub mod Process
pub mod Segment
pub mod Restore
pub mod Objects
pub mod Saving
pub mod Loading
pub mod Restart
pub mod Files
pub mod Words
