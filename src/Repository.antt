-- ===== src/Repository.antt =====
-- internal/repository: the queries whose conditions and order the worker relies on.
pub mod CallLogs
pub mod Due
pub mod Recompute
pub mod Snapshots
pub mod Tables
