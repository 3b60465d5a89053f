-- ===== src/Tests/Rows.antt =====
-- Snapshot rows: two batches into the row of a new day.
use exotel_monitoring_platfo.Prelude.{
  ℕ, ◌+◌, ◌≡◌, refl, List, [], ◌∷◌, ◌++◌, none, codes, count_if, arith,
}
use exotel_monitoring_platfo.Models.{calls, CallMetricsSnapshot}
use exotel_monitoring_platfo.Exotel.Types.{CallRecord}
use exotel_monitoring_platfo.Metrics.Legs.{classify_leg}
use exotel_monitoring_platfo.Metrics.Summary.Rates.{CallSummary, process_call_records}
use exotel_monitoring_platfo.Metrics.Summary.Counts.{is_bridged}
use exotel_monitoring_platfo.Metrics.Summary.Panel.{summary, legs_partition}
use exotel_monitoring_platfo.Snapshots.Accumulate.{
  new_snapshot, add_summary, accumulate_call_metrics,
}
use exotel_monitoring_platfo.Snapshots.Batches.{
  IsConsistent, SameCounts, accumulate-IsConsistent, two_batches, connected_drift,
}
use exotel_monitoring_platfo.Tests.Fixtures.{
  whole, morning, job_of, vn, batch, bridged, missed, second, dropped, hours_json, map_json,
}

abbrev figures : List CallRecord → CallSummary ℕ
figures rs = summary whole morning 2_002 (codes "TXN-1") (job_of calls) vn rs

abbrev new_row : CallMetricsSnapshot ℕ
new_row = new_snapshot whole 1 3 0

abbrev after : CallSummary ℕ → CallMetricsSnapshot ℕ → CallMetricsSnapshot ℕ
after = add_summary whole hours_json map_json

accumulate-IsConsistent_example : IsConsistent (after (figures batch) new_row)
unfolding accumulate_call_metrics process_call_records
accumulate-IsConsistent_example =
    accumulate-IsConsistent whole hours_json map_json 1 3 2_002 none (figures batch)
      (after (figures batch) new_row)
      (legs_partition whole morning 2_002 (codes "TXN-1") (job_of calls) vn batch).3
      (λ snap e. cc e) refl

two_batches_example :
    SameCounts
      (after (figures (second ∷ dropped ∷ [])) (after (figures (bridged ∷ missed ∷ [])) new_row))
      (after (figures ((bridged ∷ missed ∷ []) ++ (second ∷ dropped ∷ []))) new_row)
two_batches_example =
    two_batches whole hours_json map_json morning 2_002 (codes "TXN-1") (job_of calls) vn
      (bridged ∷ missed ∷ []) (second ∷ dropped ∷ []) new_row

connected_drift_example :
    (after
      (figures (second ∷ dropped ∷ []))
      (after (figures (bridged ∷ missed ∷ [])) new_row)).connected_calls
    ≡ (after (figures ((bridged ∷ missed ∷ []) ++ (second ∷ dropped ∷ []))) new_row).connected_calls
      + count_if is_bridged (bridged ∷ missed ∷ [])
unfolding classify_leg
connected_drift_example =
    connected_drift whole hours_json map_json morning 2_002 (codes "TXN-1") (job_of calls) vn
      (bridged ∷ missed ∷ []) (second ∷ dropped ∷ []) new_row refl (omega arith)
