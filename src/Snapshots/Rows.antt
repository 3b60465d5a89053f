-- ===== src/Snapshots/Rows.antt =====
-- The row that AccumulateCallMetrics (internal/snapshots/generator.go) adds a batch to: the one that is
-- stored, or a new one.
use exotel_monitoring_platfo.Prelude.{
  ℕ, ◌≡◌, refl, true, false, inl, inr, Bool-cases, List, Option, none, some, ◌==◌, Float64, Json,
}
use exotel_monitoring_platfo.Models.{CallMetricsSnapshot, Instant}
use exotel_monitoring_platfo.Metrics.Breakdown.{Breakdown}
use exotel_monitoring_platfo.Metrics.Summary.Rates.{CallSummary}
use exotel_monitoring_platfo.Snapshots.Accumulate.{
  ist_day, new_snapshot, add_summary, accumulate_call_metrics,
}

module _ {R : Type 0} (float : Float64 R) (hours_json : Json (List ℕ)) (map_json : Json Breakdown)
    (account_id exophone_id : ℕ) where
  abbrev pub base_row : Instant → Option (CallMetricsSnapshot R) → CallMetricsSnapshot R
  base_row now none = new_snapshot float account_id exophone_id (ist_day now)
  base_row now (some old) = old

  module _ (now : Instant) (s : CallSummary R) where
    abbrev row_after : Option (CallMetricsSnapshot R) → Option (CallMetricsSnapshot R)
    row_after old =
        accumulate_call_metrics float hours_json map_json account_id exophone_id now old s

    pub accumulate_none :
        (old : Option (CallMetricsSnapshot R)) → (s.total == 0) ≡ true → row_after old ≡ none
    unfolding accumulate_call_metrics
    accumulate_none old e = rw (e, accumulate_call_metrics)

    pub accumulate_some :
        (old : Option (CallMetricsSnapshot R))
        → (s.total == 0) ≡ false
        → row_after old ≡ some (add_summary float hours_json map_json s (base_row now old))
    unfolding accumulate_call_metrics
    accumulate_some none e = rw (e, accumulate_call_metrics) refl
    accumulate_some (some old) e = rw (e, accumulate_call_metrics) refl

    -- A row that goes back is the one before with the batch added.
    pub accumulated_row :
        (old : Option (CallMetricsSnapshot R)) (new : CallMetricsSnapshot R)
        → row_after old ≡ some new
        → new ≡ add_summary float hours_json map_json s (base_row now old)
    accumulated_row old new e = elim (Bool-cases (s.total == 0)) [
      | inl empty ↦ absurd (cc (accumulate_none old empty, e))
      | inr full ↦ cc (accumulate_some old full, e)
    ]
