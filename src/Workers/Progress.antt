-- ===== src/Workers/Progress.antt =====
-- What the three executions of internal/workers/job_worker.go share: the variables that the retried
-- closures write, the credentials, and handleRetryExhausted.
use exotel_monitoring_platfo.Prelude.{
  [], ℕ, ℤ, pos, negsuc, Bool, true, Option, none, some, Text, is_empty, if◌then◌else◌, leb, ltb,
}
use exotel_monitoring_platfo.Models.{
  MonitoringJob, JobType, TxnStatus, Failure, Alert, AlertType, Severity, Message, slack,
  open_alert, api_failure, retry_exhausted, high_latency, critical, warning, exhausted, failing,
  slow, RetryPolicy,
}
use exotel_monitoring_platfo.Utils.Retry.{RetryConfig, default_retry_config}
use exotel_monitoring_platfo.Effects.{Env, World, write_anyway, save_job_response}
use exotel_monitoring_platfo.Alerts.{trigger_alert}

-- `tries` counts the calls of the closure.
pub record Progress (R Res : Type 0) : Type 0 where
  pub latency_ms : ℕ
  pub retry_count : ℕ
  pub http_status : ℕ
  pub raw_body : Text
  pub result : Option Res
  pub tries : ℕ
  pub world : World R

-- What an execution leaves behind for the transaction.
pub record Finish : Type 0 where
  pub status : TxnStatus
  pub latency_ms : ℕ
  pub retry_count : ℕ
  pub error_message : Option Failure

-- the retry policy of the job, if its JSON parses
unfoldable pub retry_config : (Text → Option RetryPolicy) → Text → RetryConfig
retry_config unmarshal policy =
    if is_empty policy then default_retry_config else elim (unmarshal policy) [
      | none ↦ default_retry_config
      | some rp ↦ record {
        max_retries = rp.max_retries;
        base_delay_ms = rp.base_delay_ms;
        max_delay_ms = rp.max_delay_ms;
      }
    ]

-- utils.Decrypt with the raw value as the fallback
unfoldable pub credential : (Text → Option Text) → Text → Text
credential decrypt stored = elim (decrypt stored) [ none ↦ stored | some plain ↦ plain ]

-- retryCount >= maxRetries
unfoldable pub used_up : ℕ → ℤ → Bool
used_up retry_count (pos n) = leb n retry_count
used_up retry_count (negsuc n) = true

module _ {R : Type 0} where
  unfoldable pub start_progress : {Res : Type 0} → World R → Progress R Res
  start_progress w = record {
    latency_ms = 0;
    retry_count = 0;
    http_status = 0;
    raw_body = [];
    result = none;
    tries = 0;
    world = w;
  }

  unfoldable pub finish : {Res : Type 0} → TxnStatus → Option Failure → Progress R Res → Finish
  finish status err p = record {
    status = status;
    latency_ms = p.latency_ms;
    retry_count = p.retry_count;
    error_message = err;
  }

module _ {R : Type 0} (env : Env R) (txn_id : Text) (job : MonitoringJob) where
  unfoldable pub job_alert : AlertType → Severity → Message → Alert
  job_alert alert_type severity message = record {
    transaction_id = txn_id;
    exophone_id = job.exophone_id;
    account_id = job.account_id;
    alert_type = alert_type;
    severity = severity;
    alert_status = open_alert;
    message = message;
    channel = slack;
    triggered_at = env.completed_at;
  }

  unfoldable pub raise_alert : AlertType → Severity → Message → World R → World R
  unfolding job_alert trigger_alert
  raise_alert alert_type severity message w =
      trigger_alert env (job_alert alert_type severity message) w

  unfoldable pub handle_retry_exhausted : JobType → ℕ → Failure → ℕ → ℤ → World R → World R
  unfolding raise_alert used_up
  handle_retry_exhausted job_type subject err retry_count max_retries w =
      if used_up retry_count max_retries
      then raise_alert retry_exhausted critical (exhausted job_type job.id err) w
      else raise_alert api_failure warning (failing job_type subject err) w

  unfoldable pub alert_latency : JobType → ℕ → World R → World R
  unfolding raise_alert
  alert_latency job_type latency w =
      if ltb env.high_latency_threshold_ms latency
      then raise_alert high_latency warning (slow job_type latency) w
      else w

  unfoldable pub save_response : JobType → ℕ → Text → World R → World R
  unfolding write_anyway
  save_response job_type http_status raw w =
      write_anyway env
        (save_job_response (record {
          transaction_id = txn_id;
          response_type = job_type;
          http_status = http_status;
          raw_response = raw;
        }))
        w
