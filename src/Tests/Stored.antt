-- ===== src/Tests/Stored.antt =====
-- The tables of snapshots: a batch's upsert, and a recomputation.
use exotel_monitoring_platfo.Prelude.{
  ℕ, ◌+◌, ◌≡◌, refl, List, [], ◌∷◌, map, codes, if◌then◌else◌, ltb, ◌&&◌, count_if,
}
use exotel_monitoring_platfo.Models.{CallMetricsSnapshot, calls}
use exotel_monitoring_platfo.Metrics.Summary.Loop.{call_log_of}
use exotel_monitoring_platfo.Metrics.Summary.Rates.{CallSummary, process_call_records}
use exotel_monitoring_platfo.Metrics.Summary.Counts.{is_bridged, is_first_leg, is_second_leg}
use exotel_monitoring_platfo.Metrics.Summary.Panel.{summary}
use exotel_monitoring_platfo.Snapshots.Accumulate.{
  new_snapshot, add_summary, accumulate_call_metrics,
}
use exotel_monitoring_platfo.Repository.Snapshots.{
  Mysql, upsert_metrics_row, get_call_metrics_snapshot, dashboard_from_snapshots,
}
use exotel_monitoring_platfo.Repository.Snapshots.Growth.{dashboard_grows}
use exotel_monitoring_platfo.Repository.Recompute.{aggregate}
use exotel_monitoring_platfo.Repository.Recompute.Agreement.{recomputed_agrees}
use exotel_monitoring_platfo.Tests.Fixtures.{
  exophone, whole, morning, job_of, vn, batch, hours_json, map_json,
}

abbrev figures : CallSummary ℕ
figures = summary whole morning 2_002 (codes "TXN-1") (job_of calls) vn batch

-- the rows of two exophones of the account
abbrev pub rows : List (CallMetricsSnapshot ℕ)
rows = new_snapshot whole 1 2 0 ∷ new_snapshot whole 1 3 0 ∷ []

abbrev pub mysql : Mysql ℕ
mysql = record { date_of = λ t. 0; hour_of_row = λ t. 10; round_percent = λ a b. a }

abbrev grown : CallMetricsSnapshot ℕ
grown = add_summary whole hours_json map_json figures (new_snapshot whole 1 3 0)

dashboard_grows_example :
    let before = dashboard_from_snapshots whole mysql 0 1 (exophone ∷ []) rows in
    let later =
      dashboard_from_snapshots whole mysql 0 1 (exophone ∷ []) (upsert_metrics_row grown rows) in
    (later.total_calls ≡ before.total_calls + figures.total)
    × (later.failed_calls ≡ before.failed_calls + (figures.failed_calls + figures.no_answer_calls))
unfolding accumulate_call_metrics process_call_records get_call_metrics_snapshot new_snapshot
dashboard_grows_example =
    dashboard_grows whole hours_json map_json mysql 1 3 2_002 rows figures (exophone ∷ []) grown
      refl (λ row e. cc e)

-- under another account than the row that stands there
abbrev moved : CallMetricsSnapshot ℕ
moved = record (new_snapshot whole 9 3 0) { total_calls = 4 }

recomputed_agrees_example :
    let s = summary whole morning 2_002 (codes "TXN-1") (job_of calls) vn batch in
    let a = aggregate (map (call_log_of morning (codes "TXN-1") (job_of calls) vn) batch) in
    (a.total ≡ s.total)
    × (a.leg1_total ≡ s.leg1_total)
    × (a.leg2_total ≡ s.leg2_total)
    × (a.leg1_drops + a.leg2_drops ≡ s.dropped_leg1 + s.dropped_leg2)
    × (a.failed_calls ≡ s.failed_calls)
    × (a.no_answer_calls ≡ s.no_answer_calls)
    × (a.busy_calls ≡ s.busy_calls)
    × (a.canceled_calls ≡ s.canceled_calls)
    × (a.other_calls ≡ s.other_calls)
    × (a.connected
        ≡ s.connected
          + (if ltb 0 (count_if (is_second_leg vn) batch)
              then count_if (λ r. is_bridged r && is_first_leg vn r) batch
              else 0))
recomputed_agrees_example =
    recomputed_agrees whole morning 2_002 (codes "TXN-1") (job_of calls) vn batch
      ((refl, refl), ((refl, refl), ((refl, refl), ((refl, refl), tt))))
