-- ===== src/Accumulator.antt =====
-- The accumulator: the sum of a vector of every node, of which each node adds up one part
-- (Dogee/DogeeAccumulator.cpp, include/DogeeAccumulator.h).
pub mod Partition
pub mod Sparse
pub mod Pieces
pub mod Sending
pub mod Rounds
pub mod Message
pub mod Steps
pub mod Wake
