-- ===== src/Workers/CallsJob.antt =====
-- executeCalls (internal/workers/job_worker.go).
use exotel_monitoring_platfo.Prelude.{
  ℕ, suc, ◌+◌, ℤ, pos, Bool, false, ◌&&◌, ◌||◌, List, [], ◌∷◌, Option, none, some, Text,
  if◌then◌else◌, leb, ltb, ◌==◌,
}
use exotel_monitoring_platfo.Models.{
  Instant, MonitoringJob, calls, Failure, rate_limited, server_error, context_done, auth_failure,
  TxnStatus, Severity, critical, warning, Message, Metric, call_drop, leg1_drops, leg2_drops,
}
use exotel_monitoring_platfo.Exotel.Types.{CallRecord, CallsResponse}
use exotel_monitoring_platfo.Exotel.Calls.{FetchCallsResult, fetch_calls}
use exotel_monitoring_platfo.Utils.Retry.{
  RetryConfig, Outcome, succeeded, retry, stop, do_with_retry,
}
use exotel_monitoring_platfo.Cache.Dedup.{filter_new_records}
use exotel_monitoring_platfo.Metrics.Summary.Rates.{CallSummary, process_call_records}
use exotel_monitoring_platfo.Snapshots.Accumulate.{accumulate_call_metrics}
use exotel_monitoring_platfo.Effects.{
  Env, World, Credentials, write_anyway, save_call_logs, save_metrics, upsert_call_metrics_snapshot,
  accumulate_account_dashboard, recompute_account_dashboard, delete_cached, metrics_key,
  dashboard_key,
}
use exotel_monitoring_platfo.Workers.Window.{window_start}
use exotel_monitoring_platfo.Workers.Heartbeats.{vn_number}
use exotel_monitoring_platfo.Workers.Progress.{
  Progress, start_progress, Finish, finish, raise_alert, handle_retry_exhausted, alert_latency,
  save_response,
}

-- metrics.DropRateWarningPct and DropRateCriticalPct
abbrev pub drop_rate_warning_pct : ℤ
drop_rate_warning_pct = pos 10

abbrev pub drop_rate_critical_pct : ℤ
drop_rate_critical_pct = pos 25

module _ {R : Type 0} (env : Env R) (txn_id : Text) (job : MonitoringJob) where
  open env.float use {of_int, ge}

  unfoldable pub window_from : Instant
  unfolding window_start
  window_from = window_start env.window_end job.frequency_minutes job.last_run_at

  -- the closure that is retried; the pagination never runs out of its fuel
  unfoldable pub calls_call :
      Credentials
      → Text
      → Progress R FetchCallsResult
      → Outcome Failure × Progress R FetchCallsResult
  unfolding window_from
  calls_call creds vn p =
      elim (fetch_calls (env.calls_api creds vn window_from env.window_end p.tries)) [
        | none ↦ (stop context_done, p)
        | some (result, err) ↦
            let q : Progress R FetchCallsResult = record {
              latency_ms = result.latency_ms;
              retry_count = p.retry_count;
              http_status = result.http_status;
              raw_body = result.raw_body;
              result = some result;
              tries = suc p.tries;
              world = p.world;
            } in
            let again : Progress R FetchCallsResult = record q {
              retry_count = q.retry_count + 1;
            } in
            elim err [
              | some e ↦ (retry e, again)
              | none ↦
                  if result.http_status == 401 || result.http_status == 403
                  then (stop (auth_failure result.http_status), q)
                  else if result.http_status == 429
                  then (stop rate_limited, q)
                  else if leb 500 result.http_status
                  then (retry (server_error result.http_status), again)
                  else (succeeded, q)
            ]
      ]

  unfoldable pub save_pages : ℕ → List Text → World R → World R
  unfolding save_response
  save_pages http_status [] w = w
  save_pages http_status (raw ∷ bodies) w =
      save_pages http_status bodies (save_response env txn_id job calls http_status raw w)

  -- one row for each page, or else the raw body
  unfoldable pub save_bodies : Progress R FetchCallsResult → World R
  unfolding save_pages save_response
  save_bodies p =
      let bodies : List Text = elim p.result [ none ↦ [] | some r ↦ r.page_bodies ] in
      elim bodies [
        | [] ↦ save_response env txn_id job calls p.http_status p.raw_body p.world
        | raw ∷ rest ↦ save_pages p.http_status (raw ∷ rest) p.world
      ]

  -- the severity that a drop rate is alerted with, `none` where it is not
  unfoldable pub drop_severity : ℕ → R → Option Severity
  drop_severity leg_total rate =
      if ltb 0 leg_total && ge rate (of_int drop_rate_warning_pct)
      then some (if ge rate (of_int drop_rate_critical_pct) then critical else warning)
      else none

  unfoldable pub alert_drops : ℕ → R → Message → World R → World R
  unfolding drop_severity raise_alert
  alert_drops leg_total rate message w = elim (drop_severity leg_total rate) [
    | none ↦ w
    | some severity ↦ raise_alert env txn_id job call_drop severity message w
  ]

  -- call_logs rows are not written: by the global flag, or for this exophone
  unfoldable pub skips_call_logs : Bool
  skips_call_logs =
      env.skip_call_logs_write
      || (elim env.exophone [ none ↦ false | some ep ↦ ep.skip_call_logs == 1 ])

  -- the rows of the batch: call logs, metrics, and the alerts on its drop rates
  unfoldable pub report_batch : Text → CallSummary R → List (Metric R) → World R → World R
  unfolding write_anyway alert_drops skips_call_logs
  report_batch vn s mets w =
      let w1 = if skips_call_logs then w else write_anyway env (save_call_logs s.call_logs) w in
      let w2 = write_anyway env (save_metrics mets) w1 in
      let w3 = alert_drops s.leg2_total s.drop_rate (leg2_drops vn s.dropped_leg2 s.total) w2 in
      alert_drops s.leg1_total s.leg1_drop_rate (leg1_drops vn s.dropped_leg1 s.total) w3

  -- the snapshots that the batch changes, and the cached views of them
  unfoldable pub refresh_call_snapshots : CallSummary R → World R → World R
  unfolding write_anyway skips_call_logs accumulate_call_metrics
  refresh_call_snapshots s w =
      let row =
        accumulate_call_metrics env.float env.hours_json env.map_json job.account_id job.exophone_id
          env.completed_at env.snapshot_today s in
      let w1 : World R = elim row [
        | none ↦ w
        | some snap ↦ write_anyway env (upsert_call_metrics_snapshot snap) w
      ] in
      let dashboard =
        if skips_call_logs
        then accumulate_account_dashboard job.account_id
        else recompute_account_dashboard job.account_id in
      write_anyway env (delete_cached dashboard_key) (
        write_anyway env (delete_cached (metrics_key job.exophone_id))
          (write_anyway env dashboard w1))

  -- a response's records: those not seen today, summed up and reported
  unfoldable pub report_calls : Text → List CallRecord → World R → World R
  unfolding filter_new_records process_call_records report_batch refresh_call_snapshots
  report_calls vn records w =
      let (fresh, seen) = filter_new_records env.redis env.sids_today records in
      let (s, mets) =
        process_call_records env.float env.times env.completed_at txn_id job vn fresh in
      refresh_call_snapshots s (report_batch vn s mets w)

  -- behind the retry loop: its error, and what its closure has written
  unfoldable pub end_calls :
      RetryConfig → Option Failure × Progress R FetchCallsResult → Finish × World R
  unfolding save_bodies report_calls finish alert_latency handle_retry_exhausted vn_number
  end_calls cfg (some e, p) = (
    finish TxnStatus.failed (some e) p,
    handle_retry_exhausted env txn_id job calls job.exophone_id e p.retry_count cfg.max_retries
        (save_bodies p),
  )
  end_calls cfg (none, p) =
      let w = alert_latency env txn_id job calls p.latency_ms (save_bodies p) in
      let response : Option CallsResponse = elim p.result [ none ↦ none | some r ↦ r.response ] in
      (
        finish TxnStatus.success none p,
        elim response [ none ↦ w | some r ↦ report_calls (vn_number env txn_id job) r.result w ],
      )

  unfoldable pub execute_calls : Credentials → RetryConfig → World R → Finish × World R
  unfolding calls_call end_calls do_with_retry start_progress vn_number
  execute_calls creds cfg w = end_calls cfg (
      do_with_retry env.cancelled context_done (calls_call creds (vn_number env txn_id job)) cfg
        (start_progress w))
