-- ===== src/Objects.antt =====
-- The identifiers of shared objects and the list of them that a process keeps (Dogee/DogeeShared.cpp).
pub mod Alloc
