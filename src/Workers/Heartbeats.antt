-- ===== src/Workers/Heartbeats.antt =====
-- executeHeartbeat (internal/workers/job_worker.go).
use exotel_monitoring_platfo.Prelude.{
  ℕ, suc, ◌+◌, pos, Bool, true, false, not, ◌&&◌, ◌||◌, [], ◌∷◌, Option, none, some, Text, codes,
  text_eq, is_empty, if◌then◌else◌, leb, ◌==◌, length,
}
use exotel_monitoring_platfo.Models.{
  MonitoringJob, heartbeat, Failure, rate_limited, server_error, context_done, HeartbeatStatus,
  healthy, degraded, outage, TxnStatus, vendor_throttling, heartbeat_failure, exophone_down,
  critical, warning, throttled, vn_heartbeat, incoming_degraded, outgoing_degraded,
}
use exotel_monitoring_platfo.Exotel.Types.{HeartbeatResponse, no_one, affects_vn}
use exotel_monitoring_platfo.Exotel.Heartbeat.{FetchHeartbeatResult, fetch_heartbeat}
use exotel_monitoring_platfo.Utils.Retry.{
  RetryConfig, Outcome, succeeded, retry, stop, do_with_retry,
}
use exotel_monitoring_platfo.Effects.{
  Credentials, Env, World, write_anyway, save_heartbeat_metric, save_metrics,
}
use exotel_monitoring_platfo.Workers.Progress.{
  Progress, start_progress, Finish, finish, raise_alert, handle_retry_exhausted, alert_latency,
  save_response,
}

-- The worker's status for a heartbeat response: from the affected lists, and OUTAGE for CRITICAL.
unfoldable pub status_of : HeartbeatResponse → HeartbeatStatus
status_of hb =
    if text_eq hb.status_type (codes "CRITICAL")
    then outage
    else if not (no_one hb.incoming_affected) || not (no_one hb.outgoing_affected)
    then degraded
    else healthy

abbrev pub is_healthy : HeartbeatStatus → Bool
is_healthy healthy = true
is_healthy other = false

module _ {R : Type 0} (env : Env R) (txn_id : Text) (job : MonitoringJob) where
  -- the closure that is retried
  unfoldable pub heartbeat_call :
      Credentials
      → Text
      → Progress R FetchHeartbeatResult
      → Outcome Failure × Progress R FetchHeartbeatResult
  unfolding raise_alert
  heartbeat_call creds vn p =
      let (result, err) = fetch_heartbeat (env.heartbeat_api creds p.tries) vn in
      let q : Progress R FetchHeartbeatResult = record {
        latency_ms = result.latency_ms;
        retry_count = p.retry_count;
        http_status = result.http_status;
        raw_body = result.raw_body;
        result = some result;
        tries = suc p.tries;
        world = p.world;
      } in
      elim err [
        | some e ↦ (retry e, record q { retry_count = q.retry_count + 1 })
        | none ↦
            if result.http_status == 429
            then (
              stop rate_limited,
              record q {
                world =
                    raise_alert env txn_id job vendor_throttling warning (throttled job.account_id)
                      q.world;
              },
            )
            else if leb 500 result.http_status
            then (
              retry (server_error result.http_status),
              record q { retry_count = q.retry_count + 1 },
            )
            else (succeeded, q)
      ]

  -- the two alerts for the directions in which the number is affected
  unfoldable pub alert_directions : Text → HeartbeatResponse → World R → World R
  unfolding raise_alert
  alert_directions vn hb w =
      let (inc_down, out_down) = affects_vn hb vn in
      let w1 =
        if inc_down
        then raise_alert env txn_id job exophone_down critical (incoming_degraded vn) w
        else w in
      if out_down
      then raise_alert env txn_id job exophone_down critical (outgoing_degraded vn) w1
      else w1

  -- what a response makes the worker store and alert
  unfoldable pub report_heartbeat : Text → ℕ → HeartbeatResponse → World R → World R
  unfolding status_of alert_directions raise_alert write_anyway
  report_heartbeat vn latency hb w =
      let status = status_of hb in
      let w1 =
        if not (is_healthy status) && not (is_empty vn)
        then raise_alert env txn_id job heartbeat_failure critical
            (vn_heartbeat vn hb.status_type hb.incoming_affected hb.outgoing_affected) w
        else w in
      let w2 = if is_empty vn then w1 else alert_directions vn hb w1 in
      let w3 =
        write_anyway env
          (save_heartbeat_metric (record {
            transaction_id = txn_id;
            account_id = job.account_id;
            exophone_id = job.exophone_id;
            status_type = status;
            incoming_affected = length hb.incoming_affected;
            outgoing_affected = length hb.outgoing_affected;
            response_time_ms = some latency;
            raw_status = hb.status_type;
          }))
          w2 in
      write_anyway env
        (save_metrics (
          record {
            transaction_id = txn_id;
            exophone_id = job.exophone_id;
            account_id = job.account_id;
            metric_name = codes "availability";
            metric_value = env.float.of_int (if is_healthy status then pos 100 else pos 0);
            metric_unit = codes "percent";
            metric_timestamp = env.completed_at;
            aggregation_type = codes "INSTANT";
          }
          ∷ []))
        w3

  -- the number of the job's exophone, empty where the query finds none
  unfoldable pub vn_number : Text
  vn_number = elim env.exophone [ none ↦ [] | some ep ↦ ep.exophone_number ]

  -- behind the retry loop: its error, and what its closure has written
  unfoldable pub end_heartbeat :
      RetryConfig → Option Failure × Progress R FetchHeartbeatResult → Finish × World R
  unfolding vn_number report_heartbeat finish save_response alert_latency handle_retry_exhausted
  end_heartbeat cfg (some e, p) = (
    finish TxnStatus.failed (some e) p,
    handle_retry_exhausted env txn_id job heartbeat job.account_id e p.retry_count cfg.max_retries
        (save_response env txn_id job heartbeat p.http_status p.raw_body p.world),
  )
  end_heartbeat cfg (none, p) =
      let w =
        alert_latency env txn_id job heartbeat p.latency_ms
          (save_response env txn_id job heartbeat p.http_status p.raw_body p.world) in
      let hb : Option HeartbeatResponse = elim p.result [ none ↦ none | some r ↦ r.response ] in
      (
        finish TxnStatus.success none p,
        elim hb [ none ↦ w | some h ↦ report_heartbeat vn_number p.latency_ms h w ],
      )

  unfoldable pub execute_heartbeat : Credentials → RetryConfig → World R → Finish × World R
  unfolding vn_number heartbeat_call end_heartbeat do_with_retry start_progress
  execute_heartbeat creds cfg w = end_heartbeat cfg (
      do_with_retry env.cancelled context_done (heartbeat_call creds vn_number) cfg
        (start_progress w))
