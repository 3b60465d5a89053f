-- ===== src/Workers/StreamsJob.antt =====
-- executeStreams (internal/workers/job_worker.go).
use exotel_monitoring_platfo.Prelude.{
  suc, ◌+◌, pos, is_positive, List, Option, none, some, Text, if◌then◌else◌, leb, ◌==◌,
}
use exotel_monitoring_platfo.Models.{
  MonitoringJob, streams, Failure, rate_limited, server_error, context_done, TxnStatus,
  exophone_down, warning, busy_streams,
}
use exotel_monitoring_platfo.Exotel.Types.{ActiveStreamsEntry}
use exotel_monitoring_platfo.Exotel.Streams.{active_streams, max_allowed_streams}
use exotel_monitoring_platfo.Exotel.Heartbeat.{FetchStreamsResult, fetch_active_streams}
use exotel_monitoring_platfo.Utils.Retry.{
  RetryConfig, Outcome, succeeded, retry, stop, do_with_retry,
}
use exotel_monitoring_platfo.Snapshots.Health.{update_stream_utilization_snapshot}
use exotel_monitoring_platfo.Effects.{
  Credentials, Env, World, write_anyway, save_stream_metric, upsert_stream_utilization_snapshot,
}
use exotel_monitoring_platfo.Workers.Progress.{
  Progress, start_progress, Finish, finish, raise_alert, handle_retry_exhausted, save_response,
}

module _ {R : Type 0} (env : Env R) (txn_id : Text) (job : MonitoringJob) where
  open env.float use {of_int, mul, div, gt}

  -- what the closure makes of a result and its error
  unfoldable pub read_streams :
      FetchStreamsResult × Option Failure
      → Progress R FetchStreamsResult
      → Outcome Failure × Progress R FetchStreamsResult
  read_streams (result, err) p =
      let q : Progress R FetchStreamsResult = record {
        latency_ms = result.latency_ms;
        retry_count = p.retry_count;
        http_status = result.http_status;
        raw_body = result.raw_body;
        result = some result;
        tries = suc p.tries;
        world = p.world;
      } in
      elim err [
        | some e ↦ (retry e, record q { retry_count = q.retry_count + 1 })
        | none ↦
            if result.http_status == 429
            then (stop rate_limited, q)
            else if leb 500 result.http_status
            then (
              retry (server_error result.http_status),
              record q { retry_count = q.retry_count + 1 },
            )
            else (succeeded, q)
      ]

  -- the closure that is retried
  unfoldable pub streams_call :
      Credentials → Progress R FetchStreamsResult → Outcome Failure × Progress R FetchStreamsResult
  unfolding read_streams
  streams_call creds p =
      read_streams (fetch_active_streams (env.streams_reply creds p.tries) env.unmarshal_streams) p

  -- 0 where there is no limit
  unfoldable pub utilization : List ActiveStreamsEntry → R
  utilization entries =
      if is_positive (max_allowed_streams entries)
      then mul (div (of_int (active_streams entries)) (of_int (max_allowed_streams entries)))
          (of_int (pos 100))
      else of_int (pos 0)

  unfoldable pub report_streams : List ActiveStreamsEntry → World R → World R
  unfolding raise_alert write_anyway utilization update_stream_utilization_snapshot
  report_streams entries w =
      let active = active_streams entries in
      let max_allowed = max_allowed_streams entries in
      let util_pct = utilization entries in
      let w1 =
        write_anyway env
          (save_stream_metric (record {
            transaction_id = txn_id;
            account_id = job.account_id;
            exophone_id = job.exophone_id;
            active_streams = active;
            max_allowed_streams = max_allowed;
            utilization_percent = util_pct;
          }))
          w in
      let w2 =
        write_anyway env
          (upsert_stream_utilization_snapshot (
            update_stream_utilization_snapshot env.float env.zone_offset job.account_id
              job.exophone_id env.completed_at active util_pct))
          w1 in
      if gt util_pct (of_int (pos 90))
      then raise_alert env txn_id job exophone_down warning (busy_streams active max_allowed) w2
      else w2

  -- behind the retry loop: its error, and what its closure has written
  unfoldable pub end_streams :
      RetryConfig → Option Failure × Progress R FetchStreamsResult → Finish × World R
  unfolding report_streams finish save_response handle_retry_exhausted
  end_streams cfg (some e, p) = (
    finish TxnStatus.failed (some e) p,
    handle_retry_exhausted env txn_id job streams job.exophone_id e p.retry_count cfg.max_retries
        (save_response env txn_id job streams p.http_status p.raw_body p.world),
  )
  end_streams cfg (none, p) =
      let w = save_response env txn_id job streams p.http_status p.raw_body p.world in
      let entries : Option (List ActiveStreamsEntry) = elim p.result [
        | none ↦ none
        | some r ↦ r.response
      ] in
      (finish TxnStatus.success none p, elim entries [ none ↦ w | some es ↦ report_streams es w ])

  unfoldable pub execute_streams : Credentials → RetryConfig → World R → Finish × World R
  unfolding streams_call end_streams do_with_retry start_progress
  execute_streams creds cfg w =
      end_streams cfg
        (do_with_retry env.cancelled context_done (streams_call creds) cfg (start_progress w))
