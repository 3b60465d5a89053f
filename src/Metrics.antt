-- ===== src/Metrics.antt =====
-- internal/metrics/engine.go: from raw call records to the day's figures.
pub mod Legs
pub mod Times
pub mod Breakdown
pub mod Summary
pub mod Hours
