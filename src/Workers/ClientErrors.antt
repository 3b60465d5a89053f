-- ===== src/Workers/ClientErrors.antt =====
-- How the executions of internal/workers/job_worker.go take a reply of 4xx.
use exotel_monitoring_platfo.Prelude.{
  ◌≤◌, ◌<◌, ◌≢◌, arith, ℕ, ◌≡◌, refl, ◌∙◌, ap, pos, false, Text, leb, ◌==◌, none, some,
}
use exotel_monitoring_platfo.Models.{MonitoringJob, streams, TxnStatus, context_done}
use exotel_monitoring_platfo.Exotel.Http.{answered, is_success}
use exotel_monitoring_platfo.Exotel.Heartbeat.{FetchStreamsResult, fetch_active_streams}
use exotel_monitoring_platfo.Utils.Retry.{RetryConfig, succeeded}
use exotel_monitoring_platfo.Utils.Retry.Laws.{do_with_retry_first}
use exotel_monitoring_platfo.Effects.{Env, World, Credentials}
use exotel_monitoring_platfo.Workers.Progress.{Progress, finish, start_progress, save_response}
use exotel_monitoring_platfo.Workers.StreamsJob.{
  read_streams, streams_call, end_streams, execute_streams,
}

module _ {R : Type 0} (env : Env R) (txn_id : Text) (job : MonitoringJob) (creds : Credentials)
    (ms status : ℕ) (raw : Text) where
  -- what the closure has written when such a reply came at the first attempt
  answered_once : World R → Progress R FetchStreamsResult
  answered_once w = record {
    latency_ms = ms;
    retry_count = 0;
    http_status = status;
    raw_body = raw;
    result =
        some (record { http_status = status; latency_ms = ms; response = none; raw_body = raw });
    tries = 1;
    world = w;
  }

  refused_fetch :
      env.streams_reply creds 0 ≡ answered ms status raw
      → is_success status ≡ false
      → fetch_active_streams (env.streams_reply creds 0) env.unmarshal_streams
        ≡ (record { http_status = status; latency_ms = ms; response = none; raw_body = raw }, none)
  unfolding fetch_active_streams
  refused_fetch reply refused = rw (reply, refused, fetch_active_streams) refl

  refused_call :
      (w : World R)
      → env.streams_reply creds 0 ≡ answered ms status raw
      → is_success status ≡ false
      → (status == 429) ≡ false
      → leb 500 status ≡ false
      → streams_call env txn_id job creds (start_progress w) ≡ (succeeded, answered_once w)
  unfolding streams_call read_streams start_progress answered_once
  refused_call w reply refused limited server =
      ap (λ r. read_streams env txn_id job r (start_progress w)) (refused_fetch reply refused)
      ∙ rw (limited, server) refl

  -- With MaxRetries >= 0, a poll of the streams whose first reply is a client error other than 429,
  -- such as 401 or 404, is not retried and ends in success without an error; the reply is stored,
  -- and nothing else.
  pub client_error_succeeds :
      (cfg : RetryConfig) (n : ℕ) (w : World R)
      → cfg.max_retries ≡ pos n
      → env.streams_reply creds 0 ≡ answered ms status raw
      → 400 ≤ status
      → status < 500
      → status ≢ 429
      → let (f, w') = execute_streams env txn_id job creds cfg w in
        (f.status ≡ TxnStatus.success)
        × (f.error_message ≡ none)
        × (f.retry_count ≡ 0)
        × (w' ≡ save_response env txn_id job streams status raw w)
  unfolding execute_streams end_streams finish answered_once is_success
  client_error_succeeds cfg n w retries reply low high limited =
      rw
        (
          do_with_retry_first env.cancelled context_done (streams_call env txn_id job creds) cfg n
              (start_progress w) (answered_once w) retries
              (refused_call w reply (ground (arith, low)) (ground (arith, limited))
                (ground (arith, high))),
          execute_streams,
        )
        (refl, refl, refl, refl)
