-- ===== src/Workers/Job.antt =====
-- ExecuteJob (internal/workers/job_worker.go). The refresh of the health snapshot, which the source
-- starts as a goroutine of its own, stands here before the last write of the run.
use exotel_monitoring_platfo.Prelude.{◌+◌, ◌*◌, Option, none, some, Text, if◌then◌else◌}
use exotel_monitoring_platfo.Models.{
  MonitoringJob, JobType, heartbeat, calls, streams, other_type, JobTransaction, TxnStatus, running,
  not_found, unknown_job_type, Account,
}
use exotel_monitoring_platfo.Utils.Retry.{RetryConfig}
use exotel_monitoring_platfo.Snapshots.Accumulate.{minute}
use exotel_monitoring_platfo.Snapshots.Health.{refresh_exophone_health}
use exotel_monitoring_platfo.Effects.{
  Env, World, Credentials, attempt_write, write_anyway, create_transaction,
  update_transaction_status, advance_next_run, upsert_exophone_health_snapshot, delete_cached,
  health_snap_key,
}
use exotel_monitoring_platfo.Workers.Progress.{Finish, retry_config, credential}
use exotel_monitoring_platfo.Workers.Heartbeats.{execute_heartbeat}
use exotel_monitoring_platfo.Workers.CallsJob.{execute_calls}
use exotel_monitoring_platfo.Workers.StreamsJob.{execute_streams}

module _ {R : Type 0} (env : Env R) (txn_id : Text) (job : MonitoringJob) where
  unfoldable pub new_transaction : JobTransaction
  new_transaction = record {
    transaction_id = txn_id;
    job_id = job.id;
    account_id = job.account_id;
    exophone_id = job.exophone_id;
    job_type = job.job_type;
    status = running;
    api_latency_ms = none;
    retry_count = 0;
    error_message = none;
    started_at = env.started_at;
    completed_at = none;
  }

  unfoldable pub credentials : Account → Credentials
  unfolding credential
  credentials account = record {
    sid = account.sid;
    subdomain = account.subdomain;
    api_key = credential env.decrypt account.api_key;
    api_token = credential env.decrypt account.api_token;
  }

  -- the switch on the job's type
  unfoldable pub execute_type : JobType → Credentials → RetryConfig → World R → Finish × World R
  unfolding execute_heartbeat execute_calls execute_streams
  execute_type heartbeat creds cfg w = execute_heartbeat env txn_id job creds cfg w
  execute_type calls creds cfg w = execute_calls env txn_id job creds cfg w
  execute_type streams creds cfg w = execute_streams env txn_id job creds cfg w
  execute_type (other_type name) creds cfg w = (
    record {
      status = TxnStatus.failed;
      latency_ms = 0;
      retry_count = 0;
      error_message = some (unknown_job_type name);
    },
    w,
  )

  unfoldable pub update_transaction : Finish → World R → World R
  unfolding write_anyway
  update_transaction f w =
      write_anyway env
        (update_transaction_status txn_id f.status (some f.latency_ms) f.retry_count f.error_message
          env.completed_at)
        w

  -- AdvanceNextRun: last_run_at is now, next_run_at a period later
  unfoldable pub advance : TxnStatus → World R → World R
  unfolding write_anyway
  advance status w =
      write_anyway env
        (advance_next_run job.id (env.completed_at + job.frequency_minutes * minute)
          env.completed_at status)
        w

  -- RefreshExophoneHealth: the cache is invalidated only behind a row that was written
  unfoldable pub refresh_health : World R → World R
  unfolding attempt_write write_anyway refresh_exophone_health
  refresh_health w =
      let (stored, w') =
        attempt_write env
          (upsert_exophone_health_snapshot (
            refresh_exophone_health env.float job.exophone_id job.account_id env.completed_at
              env.latest_heartbeat env.latest_streams))
          w in
      if stored then write_anyway env (delete_cached (health_snap_key job.exophone_id)) w' else w'

  -- behind the switch: the transaction, the health snapshot, the next run
  unfoldable pub conclude : Finish × World R → World R
  unfolding update_transaction refresh_health advance
  conclude (f, w) = advance f.status (refresh_health (update_transaction f w))

  -- by what the query finds of the account
  unfoldable pub run_job : Option Account → World R → World R
  unfolding conclude execute_type credentials retry_config write_anyway advance
  run_job none w = advance TxnStatus.failed (
      write_anyway env
        (update_transaction_status txn_id TxnStatus.failed none 0 (some not_found) env.completed_at)
        w)
  run_job (some account) w = conclude (
      execute_type job.job_type (credentials account)
        (retry_config env.unmarshal_policy job.retry_policy) w)

  unfoldable pub execute_job : World R → World R
  unfolding run_job attempt_write new_transaction
  execute_job w =
      let (created, w') = attempt_write env (create_transaction new_transaction) w in
      if created then run_job env.account w' else w'
