-- ===== src/Models/Snapshots.antt =====
-- internal/models/snapshot.go and metrics.go: the rows with figures. R is the type of float64.
use exotel_monitoring_platfo.Prelude.{ℕ, ℤ, Option, Text}
use exotel_monitoring_platfo.Models.Calls.{Instant}

pub data HeartbeatStatus : Type 0 where
  healthy degraded outage unknown : HeartbeatStatus

pub record HeartbeatMetric : Type 0 where
  pub transaction_id : Text
  pub account_id : ℕ
  pub exophone_id : ℕ
  pub status_type : HeartbeatStatus
  pub incoming_affected : ℕ
  pub outgoing_affected : ℕ
  pub response_time_ms : Option ℕ
  pub raw_status : Text

pub record StreamMetric (R : Type 0) : Type 0 where
  pub transaction_id : Text
  pub account_id : ℕ
  pub exophone_id : ℕ
  pub active_streams : ℤ
  pub max_allowed_streams : ℤ
  pub utilization_percent : R

pub record Metric (R : Type 0) : Type 0 where
  pub transaction_id : Text
  pub exophone_id : ℕ
  pub account_id : ℕ
  pub metric_name : Text
  pub metric_value : R
  pub metric_unit : Text
  pub metric_timestamp : Instant
  pub aggregation_type : Text

-- The JSON columns hold text; snapshot_date is the day's number since the Unix epoch.
pub record CallMetricsSnapshot (R : Type 0) : Type 0 where
  pub snapshot_date : ℕ
  pub account_id : ℕ
  pub exophone_id : ℕ
  pub total_calls : ℕ
  pub leg1_total : ℕ
  pub leg1_drops : ℕ
  pub leg2_total : ℕ
  pub leg2_drops : ℕ
  pub connected_calls : ℕ
  pub dropped_calls : ℕ
  pub failed_calls : ℕ
  pub no_answer_calls : ℕ
  pub busy_calls : ℕ
  pub canceled_calls : ℕ
  pub other_calls : ℕ
  pub leg1_no_answer : ℕ
  pub leg1_busy : ℕ
  pub leg1_failed : ℕ
  pub leg2_no_answer : ℕ
  pub leg2_busy : ℕ
  pub leg2_failed : ℕ
  pub leg2_canceled : ℕ
  pub avg_duration_sec : R
  pub answer_rate : R
  pub drop_rate : R
  pub leg1_drop_rate : R
  pub success_rate : R
  pub hourly_distribution : Text
  pub peak_hour : ℕ
  pub leg_breakdown : Text

pub record ExophoneHealthSnapshot (R : Type 0) : Type 0 where
  pub exophone_id : ℕ
  pub account_id : ℕ
  pub heartbeat_status : HeartbeatStatus
  pub availability_percent : R
  pub last_api_latency_ms : Option ℕ
  pub active_streams : ℤ
  pub last_checked_at : Option Instant

pub record StreamUtilizationSnapshot (R : Type 0) : Type 0 where
  pub snapshot_hour : ℕ
  pub account_id : ℕ
  pub exophone_id : ℕ
  pub avg_active_streams : R
  pub max_active_streams : ℤ
  pub utilization_percent : R

pub record AccountDashboardSnapshot (R : Type 0) : Type 0 where
  pub snapshot_date : ℕ
  pub account_id : ℕ
  pub total_exophones : ℕ
  pub active_exophones : ℕ
  pub total_calls : ℕ
  pub failed_calls : ℕ
  pub success_rate : R
  pub avg_latency_ms : Option ℤ
  pub alert_count : ℕ
