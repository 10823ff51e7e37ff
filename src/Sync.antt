-- ===== src/Sync.antt =====
-- The synchronisation of Dogee/DogeeRemote.cpp: the data that the master keeps for each barrier,
-- semaphore and event (`MasterZone::SyncManager`), over the reads of the shared memory that create
-- it. The handlers are in `Sync.Barrier`, `Sync.Semaphore` and `Sync.Event`.
pub mod Node
pub mod Barrier
pub mod Semaphore
pub mod Event
pub mod Master
pub mod Reach
