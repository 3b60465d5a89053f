-- ===== src/Handlers/Rebuild.antt =====
-- What reprocess.go and backfill.go of internal/handlers share: the row of a day that is rebuilt
-- from all its records, and what follows its upsert. The set is the Redis set of the exophone for the
-- day on which the handler runs.
use exotel_monitoring_platfo.Prelude.{
  ℕ, ◌+◌, ◌&&◌, not, Bool, List, [], map, none, Text, if◌then◌else◌, ltb, length,
}
use exotel_monitoring_platfo.Models.{CallMetricsSnapshot, CallLog, MonitoringJob, other_type}
use exotel_monitoring_platfo.Exotel.Types.{CallRecord}
use exotel_monitoring_platfo.Metrics.Breakdown.{leg_breakdown_json}
use exotel_monitoring_platfo.Metrics.Summary.Rates.{CallSummary, process_call_records}
use exotel_monitoring_platfo.Cache.Dedup.{SidSet, add_call_sids}
use exotel_monitoring_platfo.Effects.{
  Env, World, write_anyway, save_call_logs, accumulate_account_dashboard, delete_cached,
  metrics_key, dashboard_key,
}

-- fakeJob: every other field has its zero value
unfoldable pub bare_job : ℕ → ℕ → MonitoringJob
bare_job account_id exophone_id = record {
  id = 0;
  exophone_id = exophone_id;
  account_id = account_id;
  job_type = other_type [];
  priority = [];
  frequency_minutes = 0;
  retry_policy = [];
  next_run_at = 0;
  last_run_at = none;
  last_status = none;
  is_active = 0;
  is_deleted = 0;
}

-- The two stores that a rebuild changes.
pub record Stores (R : Type 0) : Type 0 where
  pub world : World R
  pub sids : SidSet

module _ {R : Type 0} (env : Env R) (account_id exophone_id : ℕ) where
  -- a clean snapshot of the day, which overwrites the row
  unfoldable pub rebuilt_snapshot : ℕ → CallSummary R → CallMetricsSnapshot R
  unfolding leg_breakdown_json
  rebuilt_snapshot snap_date s = record {
    snapshot_date = snap_date;
    account_id = account_id;
    exophone_id = exophone_id;
    total_calls = s.total;
    leg1_total = s.leg1_total;
    leg1_drops = s.dropped_leg1;
    leg2_total = s.leg2_total;
    leg2_drops = s.dropped_leg2;
    connected_calls = s.connected;
    dropped_calls = s.dropped_leg1 + s.dropped_leg2;
    failed_calls = s.failed_calls;
    no_answer_calls = s.no_answer_calls;
    busy_calls = s.busy_calls;
    canceled_calls = s.canceled_calls;
    other_calls = s.other_calls;
    leg1_no_answer = s.leg1_no_answer;
    leg1_busy = s.leg1_busy;
    leg1_failed = s.leg1_failed;
    leg2_no_answer = s.leg2_no_answer;
    leg2_busy = s.leg2_busy;
    leg2_failed = s.leg2_failed;
    leg2_canceled = s.leg2_canceled;
    avg_duration_sec = s.avg_duration_sec;
    answer_rate = s.answer_rate;
    drop_rate = s.drop_rate;
    leg1_drop_rate = s.leg1_drop_rate;
    success_rate = s.success_rate;
    hourly_distribution = env.hours_json.marshal s.hourly_distribution;
    peak_hour = s.peak;
    leg_breakdown = leg_breakdown_json env.map_json s.leg_status_breakdown;
  }

  -- the summary of the records under fakeJob; the metric rows are thrown away
  unfoldable pub rebuilt_summary : Text → Text → List CallRecord → CallSummary R
  unfolding process_call_records bare_job
  rebuilt_summary txn_id vn rs =
      (process_call_records env.float env.times env.completed_at txn_id
        (bare_job account_id exophone_id) vn rs).0

  -- if !skipLogs && len(callLogs) > 0
  unfoldable pub save_rebuilt_logs : Bool → List CallLog → World R → World R
  unfolding write_anyway
  save_rebuilt_logs skip_logs logs w =
      if not skip_logs && ltb 0 (length logs) then write_anyway env (save_call_logs logs) w else w

  -- AddCallSids, the account's dashboard, and the two cached views
  unfoldable pub refresh_rebuilt : List CallRecord → Stores R → Stores R
  unfolding write_anyway add_call_sids
  refresh_rebuilt rs st = record {
    world = write_anyway env (delete_cached dashboard_key) (
        write_anyway env (delete_cached (metrics_key exophone_id))
          (write_anyway env (accumulate_account_dashboard account_id) st.world));
    sids = (add_call_sids env.redis st.sids (map (λ (c : CallRecord). c.sid) rs)).1;
  }
