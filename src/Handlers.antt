-- ===== src/Handlers.antt =====
-- internal/handlers: what the HTTP endpoints make of their payloads.
pub mod Accounts
pub mod Backfill
pub mod Dashboard
pub mod Exophones
pub mod Heartbeat
pub mod Paging
pub mod Pushed
pub mod Rebuild
pub mod Reprocess
