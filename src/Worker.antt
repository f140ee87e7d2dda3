-- ===== src/Worker.antt =====
-- cmd/worker/main.go: the worker pool's handling of one job.
pub mod Retry
pub mod Process
pub mod Lifecycle
pub mod Shutdown
pub mod Ending
pub mod LifecycleExamples
pub mod Publish
pub mod Interrupted
pub mod Laws
pub mod Outcome
pub mod Jobs
pub mod Examples
