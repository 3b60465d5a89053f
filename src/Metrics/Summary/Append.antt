-- ===== src/Metrics/Summary/Append.antt =====
-- Two batches of call records against one batch of both (ProcessCallRecords of
-- internal/metrics/engine.go): every count adds up, but Connected.
use mathlib.Core.Path.{ap₂}
use exotel_monitoring_platfo.Prelude.{
  ◌+◌, ◌≡◌, refl, sym, ap, subst, ◌∙◌, List, ◌++◌, Text, length-append, count_if-append, arith,
  Float64,
}
use exotel_monitoring_platfo.Models.{MonitoringJob, Instant}
use exotel_monitoring_platfo.Exotel.Types.{CallRecord}
use exotel_monitoring_platfo.Metrics.Times.{TimeParsers}
use exotel_monitoring_platfo.Metrics.Summary.Loop.{Outcomes, Tally, empty_tally, process_from}
use exotel_monitoring_platfo.Metrics.Summary.Rates.{CallSummary, correct_connected}
use exotel_monitoring_platfo.Metrics.Summary.Counts.{is_first_leg, is_second_leg}
use exotel_monitoring_platfo.Metrics.Summary.Sums.{
  add_outcomes, add_outcomes_right, sum_outcomes, sum_outcomes-append, outcomes-process_from,
}
use exotel_monitoring_platfo.Metrics.Summary.LegSums.{
  add_leg_statuses, zero_leg_statuses, sum_leg_statuses, sum_leg_statuses-append,
  leg_statuses-process_from, add_leg_statuses_zero, add_leg_statuses_comm,
}
use exotel_monitoring_platfo.Metrics.Summary.Panel.{
  summary, summary-tally, summary_total, legs_partition,
}

-- The counts of `s` are the sums of those of `s1` and `s2`; Connected is left out.
pub record Adds {R : Type 0} (s1 s2 s : CallSummary R) : Type 0 where
  pub total : s.total ≡ s1.total + s2.total
  pub leg1_total : s.leg1_total ≡ s1.leg1_total + s2.leg1_total
  pub leg2_total : s.leg2_total ≡ s1.leg2_total + s2.leg2_total
  pub dropped_leg1 : s.dropped_leg1 ≡ s1.dropped_leg1 + s2.dropped_leg1
  pub dropped_leg2 : s.dropped_leg2 ≡ s1.dropped_leg2 + s2.dropped_leg2
  pub failed_calls : s.failed_calls ≡ s1.failed_calls + s2.failed_calls
  pub no_answer_calls : s.no_answer_calls ≡ s1.no_answer_calls + s2.no_answer_calls
  pub busy_calls : s.busy_calls ≡ s1.busy_calls + s2.busy_calls
  pub canceled_calls : s.canceled_calls ≡ s1.canceled_calls + s2.canceled_calls
  pub other_calls : s.other_calls ≡ s1.other_calls + s2.other_calls
  pub leg_statuses : s.leg_statuses ≡ add_leg_statuses s1.leg_statuses s2.leg_statuses

-- The outcomes that the Panel correction leaves alone.
abbrev pub SameButConnected : Outcomes → Outcomes → Type 0
SameButConnected a b =
    (a.dropped_leg1 ≡ b.dropped_leg1)
    × (a.dropped_leg2 ≡ b.dropped_leg2)
    × (a.failed_calls ≡ b.failed_calls)
    × (a.no_answer_calls ≡ b.no_answer_calls)
    × (a.busy_calls ≡ b.busy_calls)
    × (a.canceled_calls ≡ b.canceled_calls)
    × (a.other_calls ≡ b.other_calls)

correct_connected_rest :
    (t : Tally)
    → SameButConnected (correct_connected t).outcomes t.outcomes
      × ((correct_connected t).leg_statuses ≡ t.leg_statuses)
unfolding correct_connected
correct_connected_rest t = ground arith

abbrev SumsAdd : Outcomes → Outcomes → Outcomes → Type 0
SumsAdd a b c =
    (c.dropped_leg1 ≡ a.dropped_leg1 + b.dropped_leg1)
    × (c.dropped_leg2 ≡ a.dropped_leg2 + b.dropped_leg2)
    × (c.failed_calls ≡ a.failed_calls + b.failed_calls)
    × (c.no_answer_calls ≡ a.no_answer_calls + b.no_answer_calls)
    × (c.busy_calls ≡ a.busy_calls + b.busy_calls)
    × (c.canceled_calls ≡ a.canceled_calls + b.canceled_calls)
    × (c.other_calls ≡ a.other_calls + b.other_calls)

module _ {R : Type 0} (float : Float64 R) (p : TimeParsers) (now : Instant) (txn_id : Text)
    (job : MonitoringJob) (vn : Text) where
  abbrev summary_of : List CallRecord → CallSummary R
  summary_of rs = summary float p now txn_id job vn rs

  pub outcomes_summary :
      (rs : List CallRecord) → SameButConnected (summary_of rs).outcomes (sum_outcomes vn rs)
  unfolding empty_tally
  outcomes_summary rs =
      let e =
        outcomes-process_from p txn_id job vn empty_tally rs
        ∙ add_outcomes_right (sum_outcomes vn rs) in
      let q : SameButConnected
          (correct_connected (process_from p txn_id job vn empty_tally rs)).outcomes
          (sum_outcomes vn rs) =
        subst
          (SameButConnected
            (correct_connected (process_from p txn_id job vn empty_tally rs)).outcomes)
          e (correct_connected_rest (process_from p txn_id job vn empty_tally rs)).0 in
      subst (λ (t : Tally). SameButConnected t.outcomes (sum_outcomes vn rs))
        (sym (summary-tally float p now txn_id job vn rs)) q

  pub leg_statuses_summary :
      (rs : List CallRecord) → (summary_of rs).leg_statuses ≡ sum_leg_statuses rs
  unfolding empty_tally
  leg_statuses_summary rs =
      ap (λ (t : Tally). t.leg_statuses) (summary-tally float p now txn_id job vn rs)
      ∙ (correct_connected_rest (process_from p txn_id job vn empty_tally rs)).1
      ∙ leg_statuses-process_from p txn_id job vn empty_tally rs
      ∙ add_leg_statuses_comm (sum_leg_statuses rs) zero_leg_statuses
      ∙ add_leg_statuses_zero (sum_leg_statuses rs)

  sums :
      (xs ys : List CallRecord)
      → SumsAdd (sum_outcomes vn xs) (sum_outcomes vn ys) (sum_outcomes vn (xs ++ ys))
  unfolding add_outcomes
  sums xs ys = rw (sum_outcomes-append vn xs ys) (refl, refl, refl, refl, refl, refl, refl)

  -- The summary of two batches together adds the counts of their summaries.
  pub summary-Adds :
      (xs ys : List CallRecord) → Adds (summary_of xs) (summary_of ys) (summary_of (xs ++ ys))
  summary-Adds xs ys = record {
    total = omega (
      arith,
      summary_total float p now txn_id job vn xs,
      summary_total float p now txn_id job vn ys,
      summary_total float p now txn_id job vn (xs ++ ys),
      length-append {0} xs ys,
    );
    leg1_total = omega (
      arith,
      legs_partition float p now txn_id job vn xs,
      legs_partition float p now txn_id job vn ys,
      legs_partition float p now txn_id job vn (xs ++ ys),
      count_if-append {0} (is_first_leg vn) xs ys,
    );
    leg2_total = omega (
      arith,
      legs_partition float p now txn_id job vn xs,
      legs_partition float p now txn_id job vn ys,
      legs_partition float p now txn_id job vn (xs ++ ys),
      count_if-append {0} (is_second_leg vn) xs ys,
    );
    dropped_leg1 =
        omega (
          arith,
          outcomes_summary xs,
          outcomes_summary ys,
          outcomes_summary (xs ++ ys),
          sums xs ys,
        );
    dropped_leg2 =
        omega (
          arith,
          outcomes_summary xs,
          outcomes_summary ys,
          outcomes_summary (xs ++ ys),
          sums xs ys,
        );
    failed_calls =
        omega (
          arith,
          outcomes_summary xs,
          outcomes_summary ys,
          outcomes_summary (xs ++ ys),
          sums xs ys,
        );
    no_answer_calls =
        omega (
          arith,
          outcomes_summary xs,
          outcomes_summary ys,
          outcomes_summary (xs ++ ys),
          sums xs ys,
        );
    busy_calls =
        omega (
          arith,
          outcomes_summary xs,
          outcomes_summary ys,
          outcomes_summary (xs ++ ys),
          sums xs ys,
        );
    canceled_calls =
        omega (
          arith,
          outcomes_summary xs,
          outcomes_summary ys,
          outcomes_summary (xs ++ ys),
          sums xs ys,
        );
    other_calls =
        omega (
          arith,
          outcomes_summary xs,
          outcomes_summary ys,
          outcomes_summary (xs ++ ys),
          sums xs ys,
        );
    leg_statuses =
        leg_statuses_summary (xs ++ ys)
        ∙ sum_leg_statuses-append xs ys
        ∙ ap₂ add_leg_statuses (sym (leg_statuses_summary xs)) (sym (leg_statuses_summary ys));
  }
