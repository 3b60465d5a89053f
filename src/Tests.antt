-- ===== src/Tests.antt =====
-- Runs of the models at concrete inputs.
mod Fixtures
mod Codec
mod Dashboards
mod Summaries
mod Accounts
mod Bulks
mod Rebuilds
mod Rows
mod Stored
mod Switches
mod Fetches
mod Runs
