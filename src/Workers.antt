-- ===== src/Workers.antt =====
-- internal/workers: the life of a monitoring job.
pub mod Window
pub mod Pool
pub mod Progress
pub mod Heartbeats
pub mod CallsJob
pub mod StreamsJob
pub mod Job
pub mod Traces
pub mod Events
pub mod Quiet
pub mod Settled
pub mod Runs
pub mod ClientErrors
pub mod Sources
