-- ===== src/Snapshots/Batches.antt =====
-- The day's row after several batches (AccumulateCallMetrics of internal/snapshots/generator.go).
use exotel_monitoring_platfo.Prelude.{
  ℕ, ◌+◌, ◌<◌, ◌≡◌, refl, Bool, ◌&&◌, List, [], ◌∷◌, ◌++◌, Option, none, some, Text, count_if,
  count_if-append, arith, Float64, Json,
}
use exotel_monitoring_platfo.Models.{CallMetricsSnapshot, Instant, MonitoringJob}
use exotel_monitoring_platfo.Exotel.Types.{CallRecord}
use exotel_monitoring_platfo.Metrics.Times.{TimeParsers}
use exotel_monitoring_platfo.Metrics.Breakdown.{Breakdown}
use exotel_monitoring_platfo.Metrics.Summary.Rates.{CallSummary}
use exotel_monitoring_platfo.Metrics.Summary.Counts.{is_bridged, is_second_leg}
use exotel_monitoring_platfo.Metrics.Summary.LegSums.{add_leg_statuses}
use exotel_monitoring_platfo.Metrics.Summary.Panel.{summary, connected_exact}
use exotel_monitoring_platfo.Metrics.Summary.Append.{Adds, summary-Adds}
use exotel_monitoring_platfo.Snapshots.Accumulate.{add_counts, add_summary, accumulate_call_metrics}

-- What must hold of every stored row: the drops of the two legs make up DroppedCalls, the two legs
-- make up the total, and SuccessRate is AnswerRate.
pub record IsConsistent {R : Type 0} (snap : CallMetricsSnapshot R) : Type 0 where
  pub drops : snap.dropped_calls ≡ snap.leg1_drops + snap.leg2_drops
  pub legs : snap.leg1_total + snap.leg2_total ≡ snap.total_calls
  pub rates : snap.success_rate ≡ snap.answer_rate

-- The rows agree in every count but ConnectedCalls.
pub record SameCounts {R : Type 0} (a b : CallMetricsSnapshot R) : Type 0 where
  pub total_calls : a.total_calls ≡ b.total_calls
  pub leg1_total : a.leg1_total ≡ b.leg1_total
  pub leg1_drops : a.leg1_drops ≡ b.leg1_drops
  pub leg2_total : a.leg2_total ≡ b.leg2_total
  pub leg2_drops : a.leg2_drops ≡ b.leg2_drops
  pub dropped_calls : a.dropped_calls ≡ b.dropped_calls
  pub failed_calls : a.failed_calls ≡ b.failed_calls
  pub no_answer_calls : a.no_answer_calls ≡ b.no_answer_calls
  pub busy_calls : a.busy_calls ≡ b.busy_calls
  pub canceled_calls : a.canceled_calls ≡ b.canceled_calls
  pub other_calls : a.other_calls ≡ b.other_calls
  pub leg1_no_answer : a.leg1_no_answer ≡ b.leg1_no_answer
  pub leg1_busy : a.leg1_busy ≡ b.leg1_busy
  pub leg1_failed : a.leg1_failed ≡ b.leg1_failed
  pub leg2_no_answer : a.leg2_no_answer ≡ b.leg2_no_answer
  pub leg2_busy : a.leg2_busy ≡ b.leg2_busy
  pub leg2_failed : a.leg2_failed ≡ b.leg2_failed
  pub leg2_canceled : a.leg2_canceled ≡ b.leg2_canceled

no_second :
    {A : Type 0} (second bridged : A → Bool) (xs : List A)
    → count_if second xs ≡ 0
    → count_if (λ r. bridged r && second r) xs ≡ 0
no_second second bridged [] h = refl
no_second second bridged (x ∷ xs) h = ground (arith, no_second second bridged xs)

module _ {R : Type 0} (float : Float64 R) (hours_json : Json (List ℕ))
    (map_json : Json Breakdown) where
  abbrev after : CallSummary R → CallMetricsSnapshot R → CallMetricsSnapshot R
  after = add_summary float hours_json map_json

  -- Only add_counts writes a count.
  pub counts-after :
      (s : CallSummary R) (snap : CallMetricsSnapshot R)
      → SameCounts (after s snap) (add_counts float s snap)
        × ((after s snap).connected_calls ≡ snap.connected_calls + s.connected)
  unfolding add_summary
  counts-after s snap = ground arith

  -- Where the two legs of a batch make up its total, and those of the day's row, if it has one,
  -- make up the row's, the row that is stored is consistent: its drops make up DroppedCalls, its
  -- legs make up its total, and SuccessRate is AnswerRate.
  pub accumulate-IsConsistent :
      (account_id exophone_id : ℕ) (now : Instant) (existing : Option (CallMetricsSnapshot R))
      (s : CallSummary R) (row : CallMetricsSnapshot R)
      → s.leg1_total + s.leg2_total ≡ s.total
      → ((snap : CallMetricsSnapshot R)
          → existing ≡ some snap
          → snap.leg1_total + snap.leg2_total ≡ snap.total_calls)
      → accumulate_call_metrics float hours_json map_json account_id exophone_id now existing s
        ≡ some row
      → IsConsistent row
  unfolding accumulate_call_metrics
  accumulate-IsConsistent account_id exophone_id now none s row e old h = ground arith
  accumulate-IsConsistent account_id exophone_id now (some snap) s row e old h =
      ground (arith, old snap refl)

  -- Adding the summaries of two batches gives the row that one batch of both would have given, in
  -- every count but ConnectedCalls.
  add_summaries :
      (s1 s2 s : CallSummary R) (snap : CallMetricsSnapshot R)
      → Adds s1 s2 s
      → SameCounts (after s2 (after s1 snap)) (after s snap)
  unfolding add_counts add_leg_statuses
  add_summaries s1 s2 s snap a =
      grind (arith, counts-after s2 (after s1 snap), counts-after s1 snap, counts-after s snap)

  module _ (p : TimeParsers) (now : Instant) (txn_id : Text) (job : MonitoringJob) (vn : Text) where
    abbrev figures : List CallRecord → CallSummary R
    figures rs = summary float p now txn_id job vn rs

    -- Accumulating two batches of records leaves the same counts as accumulating all the records
    -- in one batch: totals, drops, statuses and leg statuses do not depend on where the window cut.
    pub two_batches :
        (xs ys : List CallRecord) (snap : CallMetricsSnapshot R)
        → SameCounts
            (after (figures ys) (after (figures xs) snap))
            (after (figures (xs ++ ys)) snap)
    two_batches xs ys snap =
        add_summaries (figures xs) (figures ys) (figures (xs ++ ys)) snap
          (summary-Adds float p now txn_id job vn xs ys)

    connected_twice :
        (s1 s2 : CallSummary R) (snap : CallMetricsSnapshot R)
        → (after s2 (after s1 snap)).connected_calls
          ≡ snap.connected_calls + s1.connected + s2.connected
    connected_twice s1 s2 snap =
        omega (arith, (counts-after s2 (after s1 snap)).1, (counts-after s1 snap).1)

    -- ConnectedCalls does depend on where the window cut: where the first batch has no second leg
    -- and the second has one, the conversations of the first batch's first legs stay counted on
    -- top of what one batch would have given.
    pub connected_drift :
        (xs ys : List CallRecord) (snap : CallMetricsSnapshot R)
        → count_if (is_second_leg vn) xs ≡ 0
        → 0 < count_if (is_second_leg vn) ys
        → (after (figures ys) (after (figures xs) snap)).connected_calls
          ≡ (after (figures (xs ++ ys)) snap).connected_calls + count_if is_bridged xs
    connected_drift xs ys snap none_yet some_now = ground (
      arith,
      connected_twice (figures xs) (figures ys) snap,
      (counts-after (figures (xs ++ ys)) snap).1,
      connected_exact float p now txn_id job vn xs,
      connected_exact float p now txn_id job vn ys,
      connected_exact float p now txn_id job vn (xs ++ ys),
      count_if-append (is_second_leg vn) xs ys,
      count_if-append (λ r. is_bridged r && is_second_leg vn r) xs ys,
      no_second (is_second_leg vn) is_bridged xs none_yet,
    )
