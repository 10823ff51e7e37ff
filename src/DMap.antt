-- ===== src/DMap.antt =====
-- The map of include/DMap.h, a red-black tree whose nodes are shared objects.
pub mod Node
pub mod Tree
pub mod Search
pub mod Bounds
pub mod Destroy
pub mod Insert
pub mod Zipper
pub mod Writes
pub mod RotateLeft
pub mod RotateRight
pub mod Balance
pub mod Recolor
pub mod Exit
pub mod FixLeft
pub mod FixRight
pub mod RedUncle
pub mod FixUp
pub mod Order
pub mod Descend
pub mod Attach
pub mod Insertion
pub mod Height
pub mod Build
pub mod Neighbours
