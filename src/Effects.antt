-- ===== src/Effects.antt =====
-- What a job run does to the outside: the writes of internal/repository and of the cache, in order,
-- and the environment that answers it. A write may fail; then it leaves no trace but its error.
use exotel_monitoring_platfo.Prelude.{
  ℕ, suc, Bool, true, false, List, [], ◌∷◌, ◌++◌, Option, Text, if◌then◌else◌, Float64, Json,
}
use exotel_monitoring_platfo.Models.{
  Instant, CallLog, JobTransaction, JobResponse, TxnStatus, Failure, Alert, AlertDispatchLog,
  HeartbeatMetric, StreamMetric, Metric, CallMetricsSnapshot, StreamUtilizationSnapshot,
  ExophoneHealthSnapshot, Account, Exophone, RetryPolicy,
}
use exotel_monitoring_platfo.Exotel.Types.{ActiveStreamsEntry}
use exotel_monitoring_platfo.Exotel.Http.{Reply}
use exotel_monitoring_platfo.Exotel.Calls.{CallsApi}
use exotel_monitoring_platfo.Exotel.Heartbeat.{HeartbeatApi}
use exotel_monitoring_platfo.Metrics.Times.{TimeParsers}
use exotel_monitoring_platfo.Metrics.Breakdown.{Breakdown}
use exotel_monitoring_platfo.Cache.Dedup.{Redis, SidSet}

-- what a request of the vendor's API is made with
pub record Credentials : Type 0 where
  pub sid : Text
  pub subdomain : Text
  pub api_key : Text
  pub api_token : Text

-- cache.Delete of MetricsKey, of KeyDashboardSum, of HealthSnapKey
pub data CacheKey : Type 0 where
  metrics_key health_snap_key : ℕ → CacheKey
  dashboard_key : CacheKey

pub data Write (R : Type 0) : Type 0 where
  create_transaction : JobTransaction → Write R
  update_transaction_status : Text → TxnStatus → Option ℕ → ℕ → Option Failure → Instant → Write R
  advance_next_run : ℕ → Instant → Instant → TxnStatus → Write R
  save_job_response : JobResponse → Write R
  save_call_logs : List CallLog → Write R
  create_alert : Alert → Write R
  create_dispatch_log : AlertDispatchLog → Write R
  save_heartbeat_metric : HeartbeatMetric → Write R
  save_stream_metric : StreamMetric R → Write R
  save_metrics : List (Metric R) → Write R
  upsert_call_metrics_snapshot : CallMetricsSnapshot R → Write R
  upsert_stream_utilization_snapshot : StreamUtilizationSnapshot R → Write R
  upsert_exophone_health_snapshot : ExophoneHealthSnapshot R → Write R
  accumulate_account_dashboard : ℕ → Write R
  recompute_account_dashboard : ℕ → Write R
  delete_cached : CacheKey → Write R

-- `tried` is the number of writes so far, failed ones included.
pub record World (R : Type 0) : Type 0 where
  pub writes : List (Write R)
  pub tried : ℕ

-- Everything that a run is told: the configuration, what its queries find, the replies of the
-- vendor at each attempt, the clock at its three readings, and what fails.
pub record Env (R : Type 0) : Type 0 where
  pub float : Float64 R
  pub times : TimeParsers
  pub hours_json : Json (List ℕ)
  pub map_json : Json Breakdown
  pub write_fails : ℕ → Bool
  pub slack_enabled : Bool
  pub slack_reply : ℕ → Reply
  pub started_at : Instant
  pub window_end : Instant
  pub completed_at : Instant
  pub zone_offset : ℕ
  pub account : Option Account
  pub exophone : Option Exophone
  pub decrypt : Text → Option Text
  pub unmarshal_policy : Text → Option RetryPolicy
  pub cancelled : ℕ → Bool
  pub heartbeat_api : Credentials → ℕ → HeartbeatApi
  pub calls_api : Credentials → Text → Instant → Instant → ℕ → CallsApi
  pub streams_reply : Credentials → ℕ → Reply
  pub unmarshal_streams : Text → Option (List ActiveStreamsEntry)
  pub redis : Redis
  pub sids_today : SidSet
  pub snapshot_today : Option (CallMetricsSnapshot R)
  pub latest_heartbeat : Option HeartbeatMetric
  pub latest_streams : Option (StreamMetric R)
  pub skip_call_logs_write : Bool
  pub high_latency_threshold_ms : ℕ

-- One write: whether it succeeded, and the world after it.
module _ {R : Type 0} (env : Env R) where
  unfoldable pub attempt_write : Write R → World R → Bool × World R
  attempt_write x w =
      if env.write_fails w.tried
      then (false, record w { tried = suc w.tried })
      else (true, record w { writes = w.writes ++ x ∷ []; tried = suc w.tried })

  -- _ = repository.…
  unfoldable pub write_anyway : Write R → World R → World R
  unfolding attempt_write
  write_anyway x w = (attempt_write x w).1
