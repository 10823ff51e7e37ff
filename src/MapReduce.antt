-- ===== src/MapReduce.antt =====
-- The pairs of a MapReduce on their way from the master to the nodes (include/DogeeMR.h and
-- include/DogeeSerializerImpl.h).
pub mod Serializer
pub mod Text
pub mod Buffers
pub mod Rounds
