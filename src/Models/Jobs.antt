-- ===== src/Models/Jobs.antt =====
-- internal/models/job.go, transaction.go and exophone.go: jobs, their transactions and responses.
use exotel_monitoring_platfo.Prelude.{ℕ, ℤ, Option, Text}
use exotel_monitoring_platfo.Models.Calls.{Instant}

-- Why a call of the vendor's API failed: the errors that the worker builds or passes on.
pub data Failure : Type 0 where
  transport : Text → Failure
  unparsable : Text → Failure
  auth_failure : ℕ → Failure
  rate_limited : Failure
  server_error : ℕ → Failure
  context_done : Failure
  not_found : Failure
  unknown_job_type : Text → Failure

pub data JobType : Type 0 where
  heartbeat calls streams : JobType
  other_type : Text → JobType

-- TxnStatus constants; RETRYING and TIMEOUT are declared in the source and never written
pub data TxnStatus : Type 0 where
  running success failed : TxnStatus

-- the JSON of monitoring_jobs.retry_policy
pub record RetryPolicy : Type 0 where
  pub max_retries : ℤ
  pub base_delay_ms : ℕ
  pub max_delay_ms : ℕ

pub record MonitoringJob : Type 0 where
  pub id : ℕ
  pub exophone_id : ℕ
  pub account_id : ℕ
  pub job_type : JobType
  pub priority : Text
  pub frequency_minutes : ℕ
  pub retry_policy : Text
  pub next_run_at : Instant
  pub last_run_at : Option Instant
  pub last_status : Option TxnStatus
  pub is_active : ℕ
  pub is_deleted : ℕ

pub record JobTransaction : Type 0 where
  pub transaction_id : Text
  pub job_id : ℕ
  pub account_id : ℕ
  pub exophone_id : ℕ
  pub job_type : JobType
  pub status : TxnStatus
  pub api_latency_ms : Option ℕ
  pub retry_count : ℕ
  pub error_message : Option Failure
  pub started_at : Instant
  pub completed_at : Option Instant

pub record JobResponse : Type 0 where
  pub transaction_id : Text
  pub response_type : JobType
  pub http_status : ℕ
  pub raw_response : Text

pub record Exophone : Type 0 where
  pub id : ℕ
  pub account_id : ℕ
  pub exophone_number : Text
  pub status : Text
  pub priority : Text
  pub skip_call_logs : ℕ
  pub is_cron_applicable : ℕ
  pub is_deleted : ℕ

pub record Account : Type 0 where
  pub id : ℕ
  pub account_name : Text
  pub sid : Text
  pub api_key : Text
  pub api_token : Text
  pub subdomain : Text
  pub is_active : ℕ
  pub is_deleted : ℕ
