-- ===== src/Snapshots.antt =====
-- internal/snapshots/generator.go: the day's figures of an exophone, added up batch by batch.
pub mod Accumulate
pub mod Batches
pub mod Health
pub mod Rows
