-- ===== src/Windows.antt =====
-- src/windows/manager.c: the manager for Windows XP (PROVIDE_LEGACY_XP_SUPPORT), which runs items
-- with QueueUserWorkItem, and the one on thread pools.
pub mod Legacy
pub mod Pools
pub mod Times
pub mod Semaphore
pub mod Platform
