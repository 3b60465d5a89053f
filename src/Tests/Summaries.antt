-- ===== src/Tests/Summaries.antt =====
-- Call records summed up: two first legs and two second legs.
use mathlib.Core.List.{Permᴰ}
use exotel_monitoring_platfo.Prelude.{
  ℕ, ◌+◌, ◌≡◌, refl, ◌&&◌, List, [], ◌∷◌, Text, codes, if◌then◌else◌, ltb, length, count_if, arith,
}
use exotel_monitoring_platfo.Models.{calls}
use exotel_monitoring_platfo.Exotel.Types.{CallRecord}
use exotel_monitoring_platfo.Metrics.Breakdown.{
  cell, merge_with_breakdown_map, merge_leg_breakdown, leg_breakdown_json,
}
use exotel_monitoring_platfo.Metrics.Breakdown.Stored.{
  stored, merge_with_breakdown_map-merge_leg_breakdown,
}
use exotel_monitoring_platfo.Tests.Codec.{codec, codec-RoundTrips}
use exotel_monitoring_platfo.Metrics.Hours.{InDay, HoursInDay}
use exotel_monitoring_platfo.Metrics.Summary.Loop.{empty_tally, process_from}
use exotel_monitoring_platfo.Metrics.Summary.Counts.{
  counted, is_bridged, is_first_leg, is_second_leg, has_statuses,
}
use exotel_monitoring_platfo.Metrics.Summary.Panel.{
  summary, outcomes_partition, legs_partition, connected_exact, breakdown_exact,
}
use exotel_monitoring_platfo.Metrics.Summary.Order.{process_from-perm}
use exotel_monitoring_platfo.Metrics.Summary.Rates.{CallSummary}
use exotel_monitoring_platfo.Tests.Fixtures.{whole, morning, job_of, vn, batch, bridged, second}

abbrev figures : List CallRecord → CallSummary ℕ
figures rs = summary whole morning 2_002 (codes "TXN-1") (job_of calls) vn rs

outcomes_partition_example :
    counted (figures batch).outcomes
      + (if ltb 0 (count_if (is_second_leg vn) batch)
          then count_if (λ r. is_bridged r && is_first_leg vn r) batch
          else 0)
    ≡ 4
outcomes_partition_example =
    outcomes_partition whole morning 2_002 (codes "TXN-1") (job_of calls) vn batch

legs_partition_example :
    ((figures batch).total ≡ length batch)
    × ((figures batch).leg1_total ≡ count_if (is_first_leg vn) batch)
    × ((figures batch).leg2_total ≡ count_if (is_second_leg vn) batch)
    × ((figures batch).leg1_total + (figures batch).leg2_total ≡ (figures batch).total)
legs_partition_example = legs_partition whole morning 2_002 (codes "TXN-1") (job_of calls) vn batch

connected_exact_example : (figures batch).connected ≡ (
    if ltb 0 (count_if (is_second_leg vn) batch)
    then count_if (λ r. is_bridged r && is_second_leg vn r) batch
    else count_if is_bridged batch)
connected_exact_example =
    connected_exact whole morning 2_002 (codes "TXN-1") (job_of calls) vn batch

breakdown_exact_example :
    cell (codes "completed") (codes "no-answer") (figures batch).leg_status_breakdown
    ≡ count_if (has_statuses (codes "completed") (codes "no-answer")) batch
breakdown_exact_example =
    breakdown_exact whole morning 2_002 (codes "TXN-1") (job_of calls) vn batch (codes "completed")
      (codes "no-answer")

morning-HoursInDay : HoursInDay morning
morning-HoursInDay = record {
  bare = λ s. elim s as (λ t. InDay (morning.bare_ist t)) [ [] ↦ tt | c ∷ rest ↦ omega arith ];
  offset = λ s. tt;
  mail = λ s. tt;
}

process_from-perm_example :
    let s =
      process_from morning (codes "TXN-1") (job_of calls) vn empty_tally (bridged ∷ second ∷ []) in
    let t =
      process_from morning (codes "TXN-1") (job_of calls) vn empty_tally (second ∷ bridged ∷ []) in
    (s.outcomes ≡ t.outcomes)
    × (s.leg_statuses ≡ t.leg_statuses)
    × (s.leg1_total ≡ t.leg1_total)
    × (s.leg2_total ≡ t.leg2_total)
    × (s.total_duration_sec ≡ t.total_duration_sec)
    × ((l1 l2 : Text) → cell l1 l2 s.leg_status_breakdown ≡ cell l1 l2 t.leg_status_breakdown)
process_from-perm_example =
    process_from-perm morning (codes "TXN-1") (job_of calls) vn ∣ Permᴰ.swap refl refl ∣₁

abbrev day_so_far : Text
day_so_far = codec.marshal ((codes "completed", (codes "busy", 2) ∷ []) ∷ [])

merge_with_breakdown_map-merge_leg_breakdown_example :
    stored codec
      (codes "completed")
      (codes "busy")
      (merge_with_breakdown_map codec day_so_far ((codes "failed", (codes "busy", 3) ∷ []) ∷ []))
    ≡ stored codec (codes "completed") (codes "busy") (
        merge_leg_breakdown codec day_so_far
          (leg_breakdown_json codec ((codes "failed", (codes "busy", 3) ∷ []) ∷ [])))
merge_with_breakdown_map-merge_leg_breakdown_example =
    merge_with_breakdown_map-merge_leg_breakdown codec codec-RoundTrips (codes "completed")
      (codes "busy") day_so_far ((codes "failed", (codes "busy", 3) ∷ []) ∷ [])
