-- ===== src/Workers/Sources.antt =====
-- Where the dashboard's figures come from after a run of executeCalls
-- (internal/workers/job_worker.go): from the call_logs rows, or from the snapshots.
use mathlib.Core.List.{append_assoc, append-nil}
use exotel_monitoring_platfo.Prelude.{
  ℕ, ◌≡◌, refl, ap, sym, ◌∙◌, Bool, true, false, List, [], ◌∷◌, ◌++◌, Option, none, some, Text,
  if◌then◌else◌, Option-cases, inl, inr,
}
use exotel_monitoring_platfo.Models.{
  MonitoringJob, Message, Metric, leg1_drops, leg2_drops, CallMetricsSnapshot,
}
use exotel_monitoring_platfo.Exotel.Types.{CallRecord}
use exotel_monitoring_platfo.Cache.Dedup.{filter_new_records}
use exotel_monitoring_platfo.Metrics.Summary.Rates.{CallSummary, process_call_records}
use exotel_monitoring_platfo.Effects.{
  Env, World, Write, write_anyway, attempt_write, save_call_logs, save_metrics,
  upsert_call_metrics_snapshot, accumulate_account_dashboard, recompute_account_dashboard,
}
use exotel_monitoring_platfo.Workers.CallsJob.{
  alert_drops, drop_severity, skips_call_logs, report_batch, refresh_call_snapshots, report_calls,
}
use exotel_monitoring_platfo.Workers.Traces.{traced_snoc, said, write_silent, raise_alert_silent}

pub data Source : Type 0 where
  call_logs_saved dashboard_recomputed dashboard_accumulated : Source

module _ {R : Type 0} where
  abbrev pub source : Write R → List Source
  source (save_call_logs logs) = call_logs_saved ∷ []
  source (recompute_account_dashboard id) = dashboard_recomputed ∷ []
  source (accumulate_account_dashboard id) = dashboard_accumulated ∷ []
  source other = []

  abbrev pub sources : World R → List Source
  sources w = said source w

-- what a report should say, by the skip flag
abbrev pub consistent_sources : Bool → List Source
consistent_sources true = dashboard_accumulated ∷ []
consistent_sources false = call_logs_saved ∷ dashboard_recomputed ∷ []

module _ {R : Type 0} (env : Env R) (txn_id : Text) (job : MonitoringJob) where
  alert_drops_silent :
      (n : ℕ) (rate : R) (m : Message) (w : World R)
      → sources (alert_drops env txn_id job n rate m w) ≡ sources w
  unfolding alert_drops
  alert_drops_silent n rate m w = elim (Option-cases (drop_severity env txn_id job n rate)) [
    | inl e ↦ rw (e, alert_drops) refl
    | inr (s, e) ↦
        rw (e, alert_drops)
          (raise_alert_silent source env (λ a. refl) (λ d. refl) txn_id job _ s m w)
  ]

  module _ (no_fault : (n : ℕ) → env.write_fails n ≡ false) where
    written : (x : Write R) (w : World R) → sources (write_anyway env x w) ≡ sources w ++ source x
    unfolding write_anyway attempt_write
    written x w = rw (no_fault w.tried, write_anyway) (traced_snoc source w.writes x)

    logs_saved :
        (skips : Bool) (s : CallSummary R) (w : World R)
        → sources (if skips then w else write_anyway env (save_call_logs s.call_logs) w)
          ≡ sources w ++ (if skips then [] else call_logs_saved ∷ [])
    logs_saved true s w = sym (append-nil (sources w))
    logs_saved false s w = written (save_call_logs s.call_logs) w

    report_batch-sources :
        (vn : Text) (s : CallSummary R) (mets : List (Metric R)) (w : World R)
        → sources (report_batch env txn_id job vn s mets w)
          ≡ sources w ++ (if skips_call_logs env txn_id job then [] else call_logs_saved ∷ [])
    unfolding report_batch
    report_batch-sources vn s mets w =
        alert_drops_silent s.leg1_total s.leg1_drop_rate (leg1_drops vn s.dropped_leg1 s.total) w3
        ∙ alert_drops_silent s.leg2_total s.drop_rate (leg2_drops vn s.dropped_leg2 s.total) w2
        ∙ write_silent source env (save_metrics mets) refl w1
        ∙ logs_saved (skips_call_logs env txn_id job) s w
      where
        w1 : World R
        w1 =
            if skips_call_logs env txn_id job
            then w
            else write_anyway env (save_call_logs s.call_logs) w

        w2 : World R
        w2 = write_anyway env (save_metrics mets) w1

        w3 : World R
        w3 =
            alert_drops env txn_id job s.leg2_total s.drop_rate
              (leg2_drops vn s.dropped_leg2 s.total) w2

    dashboard_written :
        (skips : Bool) (w : World R)
        → sources (
            write_anyway env
              (if skips
                then accumulate_account_dashboard job.account_id
                else recompute_account_dashboard job.account_id)
              w)
          ≡ sources w ++ (if skips then dashboard_accumulated ∷ [] else dashboard_recomputed ∷ [])
    dashboard_written true w = written (accumulate_account_dashboard job.account_id) w
    dashboard_written false w = written (recompute_account_dashboard job.account_id) w

    upsert_silent :
        (row : Option (CallMetricsSnapshot R)) (w : World R)
        → let w' : World R = elim row [
          | none ↦ w
          | some snap ↦ write_anyway env (upsert_call_metrics_snapshot snap) w
        ] in
          sources w' ≡ sources w
    upsert_silent none w = refl
    upsert_silent (some snap) w = write_silent source env _ refl w

    refresh-sources :
        (s : CallSummary R) (w : World R)
        → sources (refresh_call_snapshots env txn_id job s w)
          ≡ sources w
            ++ (if skips_call_logs env txn_id job
                then dashboard_accumulated ∷ []
                else dashboard_recomputed ∷ [])
    unfolding refresh_call_snapshots
    refresh-sources s w =
        write_silent source env _ refl _
        ∙ write_silent source env _ refl _
        ∙ dashboard_written (skips_call_logs env txn_id job) _
        ∙ ap
            (λ es.
              es
              ++ (if skips_call_logs env txn_id job
                  then dashboard_accumulated ∷ []
                  else dashboard_recomputed ∷ []))
            (upsert_silent _ w)

    joined :
        (skips : Bool) (es : List Source)
        → (es ++ (if skips then [] else call_logs_saved ∷ []))
            ++ (if skips then dashboard_accumulated ∷ [] else dashboard_recomputed ∷ [])
          ≡ es ++ consistent_sources skips
    joined true es = ap (λ xs. xs ++ dashboard_accumulated ∷ []) (append-nil es)
    joined false es = append_assoc es (call_logs_saved ∷ []) (dashboard_recomputed ∷ [])

    -- Where no write fails, a fetched batch makes the worker recompute the dashboard from call_logs
    -- exactly when it has saved the batch's rows there, and after that; where the rows are skipped,
    -- by the global flag or for the exophone, it accumulates the dashboard from the snapshots.
    pub report_calls-sources :
        (vn : Text) (rs : List CallRecord) (w : World R)
        → sources (report_calls env txn_id job vn rs w)
          ≡ sources w ++ consistent_sources (skips_call_logs env txn_id job)
    unfolding report_calls
    report_calls-sources vn rs w =
        refresh-sources batch.0 (report_batch env txn_id job vn batch.0 batch.1 w)
        ∙ ap
            (λ es.
              es
              ++ (if skips_call_logs env txn_id job
                  then dashboard_accumulated ∷ []
                  else dashboard_recomputed ∷ []))
            (report_batch-sources vn batch.0 batch.1 w)
        ∙ joined (skips_call_logs env txn_id job) (sources w)
      where
        batch : CallSummary R × List (Metric R)
        batch =
            process_call_records env.float env.times env.completed_at txn_id job vn
              (filter_new_records env.redis env.sids_today rs).0
