-- ===== src/Models.antt =====
-- The rows of internal/models. Left out: columns that the database fills (id of a new row,
-- created_at, updated_at) and the CreatedBy and UpdatedBy labels. An instant (time.Time) is its
-- number of nanoseconds since the Unix epoch.
mod Calls
mod Jobs
mod Alerts
mod Snapshots
pub use Calls.*
pub use Jobs.*
pub use Alerts.*
pub use Snapshots.*
