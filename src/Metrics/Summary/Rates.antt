-- ===== src/Metrics/Summary/Rates.antt =====
-- ProcessCallRecords behind its loop (internal/metrics/engine.go): the Panel correction, the rates,
-- the peak hour and the metric rows. `total` and the rates join the loop's tally here.
use exotel_monitoring_platfo.Prelude.{
  ℕ, ◌+◌, ◌-◌, pos, List, [], ◌∷◌, Text, codes, if◌then◌else◌, ltb, ◌==◌, length, Float64,
}
use exotel_monitoring_platfo.Models.{MonitoringJob, Instant, Metric}
use exotel_monitoring_platfo.Exotel.Types.{CallRecord}
use exotel_monitoring_platfo.Metrics.Times.{TimeParsers, peak_hour}
use exotel_monitoring_platfo.Metrics.Summary.Loop.{Tally, Outcomes, empty_tally, process_from}

pub record CallSummary (R : Type 0) : Type 0 where
  pub tally : Tally
  pub open tally use *
  pub total : ℕ
  pub answer_rate : R
  pub success_rate : R
  pub drop_rate : R
  pub leg1_drop_rate : R
  pub leg2_drop_rate : R
  pub avg_duration_sec : R
  pub peak : ℕ

-- Connected -= leg1Connected where there are second legs
unfoldable pub correct_connected : Tally → Tally
correct_connected t =
    if ltb 0 t.leg2_total
    then record t { outcomes = record o { connected = o.connected - o.leg1_connected } }
    else t
  where
    o : Outcomes
    o = t.outcomes

module _ {R : Type 0} (float : Float64 R) where
  open float use {of_int, mul, div}

  -- float64(n)
  abbrev pub of_nat : ℕ → R
  of_nat n = of_int (pos n)

  -- float64(a) / float64(b) * 100
  unfoldable pub percent : ℕ → ℕ → R
  percent a b = mul (div (of_nat a) (of_nat b)) (of_nat 100)

  -- the summary of a batch with no record: every figure is 0
  unfoldable pub unrated : ℕ → Tally → CallSummary R
  unrated n t = record {
    tally = t;
    total = n;
    answer_rate = of_nat 0;
    success_rate = of_nat 0;
    drop_rate = of_nat 0;
    leg1_drop_rate = of_nat 0;
    leg2_drop_rate = of_nat 0;
    avg_duration_sec = of_nat 0;
    peak = 0;
  }

  -- the rates of a batch of n > 0 records, its tally corrected; rateDenom is never 0 there
  unfoldable pub rate_summary : ℕ → Tally → CallSummary R
  unfolding percent
  rate_summary n t =
      let rate_denom = if ltb 0 t.leg2_total then t.leg2_total else n in
      let answer = if ltb 0 rate_denom then percent t.connected rate_denom else of_nat 0 in
      record {
        tally = t;
        total = n;
        answer_rate = answer;
        success_rate = answer;
        drop_rate =
            if ltb 0 t.leg2_total
            then percent t.dropped_leg2 t.leg2_total
            else percent t.dropped_leg2 n;
        leg1_drop_rate =
            if ltb 0 t.leg1_total
            then percent t.dropped_leg1 t.leg1_total
            else if ltb 0 n
            then percent t.dropped_leg1 n
            else of_nat 0;
        leg2_drop_rate = percent t.dropped_leg2 n;
        avg_duration_sec = div (of_int t.total_duration_sec) (of_nat n);
        peak = peak_hour t.hourly_distribution;
      }

  unfoldable pub build_metric : Text → MonitoringJob → Instant → Text → R → Text → Metric R
  build_metric txn_id job now name value unit = record {
    transaction_id = txn_id;
    exophone_id = job.exophone_id;
    account_id = job.account_id;
    metric_name = name;
    metric_value = value;
    metric_unit = unit;
    metric_timestamp = now;
    aggregation_type = codes "SUM";
  }

  unfoldable pub metric_rows : Text → MonitoringJob → Instant → CallSummary R → List (Metric R)
  unfolding build_metric percent
  metric_rows txn_id job now s =
      count (codes "total_calls") s.total
      ∷ count (codes "leg1_total") s.leg1_total
      ∷ count (codes "leg2_total") s.leg2_total
      ∷ count (codes "connected_calls") s.connected
      ∷ count (codes "dropped_leg1") s.dropped_leg1
      ∷ count (codes "dropped_leg2") s.dropped_leg2
      ∷ count (codes "failed_calls") s.failed_calls
      ∷ count (codes "no_answer_calls") s.no_answer_calls
      ∷ count (codes "busy_calls") s.busy_calls
      ∷ count (codes "canceled_calls") s.canceled_calls
      ∷ count (codes "other_calls") s.other_calls
      ∷ build_metric txn_id job now (codes "avg_duration_sec") s.avg_duration_sec (codes "seconds")
      ∷ rate (codes "answer_rate") s.answer_rate
      ∷ rate (codes "drop_rate") s.drop_rate
      ∷ rate (codes "leg1_drop_rate") s.leg1_drop_rate
      ∷ rate (codes "leg2_drop_rate") s.leg2_drop_rate
      ∷ rate (codes "failure_percent") (percent (s.failed_calls + s.no_answer_calls) s.total)
      ∷ []
    where
      count : Text → ℕ → Metric R
      count name n = build_metric txn_id job now name (of_nat n) (codes "count")

      rate : Text → R → Metric R
      rate name value = build_metric txn_id job now name value (codes "percent")

  unfoldable pub summarise : ℕ → Tally → CallSummary R
  unfolding unrated rate_summary correct_connected
  summarise n t = if n == 0 then unrated n t else rate_summary n (correct_connected t)

  -- the call log rows stand in the summary's tally
  unfoldable pub process_call_records :
      TimeParsers
      → Instant
      → Text
      → MonitoringJob
      → Text
      → List CallRecord
      → CallSummary R × List (Metric R)
  unfolding summarise metric_rows process_from empty_tally
  process_call_records p now txn_id job vn records =
      let n = length records in
      let s = summarise n (process_from p txn_id job vn empty_tally records) in
      (s, if n == 0 then [] else metric_rows txn_id job now s)
