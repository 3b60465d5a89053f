-- ===== src/Models/Alerts.antt =====
-- internal/models/alert.go: alerts and the log of their dispatch. A message is its format and the
-- values put into it, less the rates, which are in the metrics of the same run.
use exotel_monitoring_platfo.Prelude.{ℤ, ℕ, List, Option, Text}
use exotel_monitoring_platfo.Models.Calls.{Instant}
use exotel_monitoring_platfo.Models.Jobs.{Failure, JobType}

pub data AlertType : Type 0 where
  api_failure heartbeat_failure high_latency retry_exhausted vendor_throttling : AlertType
  exophone_down cache_failure call_drop : AlertType

pub data Severity : Type 0 where
  critical warning info : Severity

pub data AlertStatus : Type 0 where
  open_alert acknowledged resolved : AlertStatus

pub data Channel : Type 0 where
  slack email webhook : Channel

pub data Message : Type 0 where
  throttled : ℕ → Message
  exhausted : JobType → ℕ → Failure → Message
  failing : JobType → ℕ → Failure → Message
  slow : JobType → ℕ → Message
  vn_heartbeat : Text → Text → List Text → List Text → Message
  incoming_degraded outgoing_degraded : Text → Message
  incoming_pushed outgoing_pushed : Text → Text → Option Text → Message
  leg2_drops leg1_drops : Text → ℕ → ℕ → Message
  busy_streams : ℤ → ℤ → Message

pub record Alert : Type 0 where
  pub transaction_id : Text
  pub exophone_id : ℕ
  pub account_id : ℕ
  pub alert_type : AlertType
  pub severity : Severity
  pub alert_status : AlertStatus
  pub message : Message
  pub channel : Channel
  pub triggered_at : Instant

pub data DispatchStatus : Type 0 where
  sent undelivered : DispatchStatus

pub record AlertDispatchLog : Type 0 where
  pub channel : Channel
  pub status : DispatchStatus
  pub response_code : ℕ
  pub error_message : Option Text
