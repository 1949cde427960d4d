-- ===== src/Tests.antt =====
-- The theorems at concrete inputs.
pub mod Fixtures
pub mod Queues
pub mod Calls
pub mod Pool
pub mod Items
pub mod Workers
pub mod Threads
pub mod Rounds
pub mod Xp
pub mod LostWakeup
pub mod ThreeCpus
pub mod Crew
pub mod Platforms
