-- ===== src/SyncJobs.antt =====
-- The worker of synchronization jobs. jobs/syncJobs.ts
pub mod Types
pub mod Worker
pub mod Rounds
pub mod Queue
pub mod Attempts
