-- ===== src/Jobs.antt =====
-- The agent-job queue: internal/application/jobservice.go, supportjobs.go and worker.go, and the part of
-- internal/scheduler/scheduler.go that recovers jobs.
pub mod Model
pub mod Support
pub mod Queue
pub mod Runs
pub mod Worker
pub mod Recovery
pub mod Rows
pub mod Table
pub mod Steps
pub mod Results
pub mod Machine
pub mod Order
mod Examples
