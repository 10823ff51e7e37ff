-- ===== src/Startup.antt =====
-- The strings that a process is started with (Dogee/DogeeShared.cpp).
pub mod Split
