-- ===== src/Metrics/Summary.antt =====
-- ProcessCallRecords of internal/metrics/engine.go. The fields of CallSummary stand in groups that
-- the code's steps write: `Outcomes` (the status switch), `LegStatuses` (the two leg switches) and
-- the rest. The local leg1Connected stands with the outcomes.
pub mod Loop
pub mod Rates
pub mod Counts
pub mod Panel
pub mod Sums
pub mod LegSums
pub mod Logs
pub mod Order
pub mod Append
