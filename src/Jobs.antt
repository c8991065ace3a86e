-- ===== src/Jobs.antt =====
-- Durable background jobs: internal/jobs (jobs.go, batch_jobs.go, scheduler.go and the table of
-- migrations/001_jobs.sql).
pub mod Defs
pub mod Table
pub mod Store
pub mod Transitions
pub mod Scheduler
pub mod Finalize
pub mod Lifecycle
pub mod Evolution
pub mod Admission
pub mod Claim
pub mod System
pub mod Durable
pub mod History
pub mod Workers
pub mod Exclusive
pub mod Batches
pub mod Stays
pub mod Proposals
mod Samples
