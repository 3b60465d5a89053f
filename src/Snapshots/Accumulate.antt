-- ===== src/Snapshots/Accumulate.antt =====
-- AccumulateCallMetrics (internal/snapshots/generator.go). The texts of the JSON columns go through
-- a parameter for encoding/json. The upsert is the row that goes back.
use exotel_monitoring_platfo.Prelude.{
  ℕ, ◌+◌, ◌-◌, ◌/◌, pos, List, [], ◌∷◌, Option, none, some, Text, is_empty, if◌then◌else◌, ltb,
  ◌==◌, Float64, Json,
}
use exotel_monitoring_platfo.Models.{CallMetricsSnapshot, Instant}
use exotel_monitoring_platfo.Metrics.Times.{empty_hours, peak_hour}
use exotel_monitoring_platfo.Metrics.Breakdown.{Breakdown, merge_with_breakdown_map}
use exotel_monitoring_platfo.Metrics.Summary.Rates.{CallSummary, percent}

-- nanoseconds
abbrev pub second : ℕ
second = 1_000_000_000

abbrev pub minute : ℕ
minute = 60_000_000_000

abbrev pub day : ℕ
day = 86_400_000_000_000

-- time.FixedZone("IST", 5*60*60+30*60)
abbrev pub ist_offset : ℕ
ist_offset = 19_800_000_000_000

-- the calendar day in IST, as a number of days since the Unix epoch
abbrev pub ist_day : Instant → ℕ
ist_day now = (now + ist_offset) / day

-- for h, v := range s.HourlyDistribution { dist[h] += v }
unfoldable pub add_hours : List ℕ → List ℕ → List ℕ
add_hours [] added = []
add_hours (n ∷ dist) [] = n ∷ dist
add_hours (n ∷ dist) (v ∷ added) = (n + v) ∷ add_hours dist added

module _ {R : Type 0} (float : Float64 R) where
  open float use {of_int, add, mul, div}

  -- the row of a day with no figures yet
  unfoldable pub new_snapshot : ℕ → ℕ → ℕ → CallMetricsSnapshot R
  new_snapshot account_id exophone_id today = record {
    snapshot_date = today;
    account_id = account_id;
    exophone_id = exophone_id;
    total_calls = 0;
    leg1_total = 0;
    leg1_drops = 0;
    leg2_total = 0;
    leg2_drops = 0;
    connected_calls = 0;
    dropped_calls = 0;
    failed_calls = 0;
    no_answer_calls = 0;
    busy_calls = 0;
    canceled_calls = 0;
    other_calls = 0;
    leg1_no_answer = 0;
    leg1_busy = 0;
    leg1_failed = 0;
    leg2_no_answer = 0;
    leg2_busy = 0;
    leg2_failed = 0;
    leg2_canceled = 0;
    avg_duration_sec = of_int (pos 0);
    answer_rate = of_int (pos 0);
    drop_rate = of_int (pos 0);
    leg1_drop_rate = of_int (pos 0);
    success_rate = of_int (pos 0);
    hourly_distribution = [];
    peak_hour = 0;
    leg_breakdown = [];
  }

  -- snap.X += s.Y for the counts, with DroppedCalls recomputed from the two drops
  unfoldable pub add_counts : CallSummary R → CallMetricsSnapshot R → CallMetricsSnapshot R
  add_counts s snap = record snap {
    total_calls = snap.total_calls + s.total;
    leg1_total = snap.leg1_total + s.leg1_total;
    leg1_drops = snap.leg1_drops + s.dropped_leg1;
    leg2_total = snap.leg2_total + s.leg2_total;
    leg2_drops = snap.leg2_drops + s.dropped_leg2;
    connected_calls = snap.connected_calls + s.connected;
    dropped_calls = snap.leg1_drops + s.dropped_leg1 + (snap.leg2_drops + s.dropped_leg2);
    failed_calls = snap.failed_calls + s.failed_calls;
    no_answer_calls = snap.no_answer_calls + s.no_answer_calls;
    busy_calls = snap.busy_calls + s.busy_calls;
    canceled_calls = snap.canceled_calls + s.canceled_calls;
    other_calls = snap.other_calls + s.other_calls;
    leg1_no_answer = snap.leg1_no_answer + s.leg1_no_answer;
    leg1_busy = snap.leg1_busy + s.leg1_busy;
    leg1_failed = snap.leg1_failed + s.leg1_failed;
    leg2_no_answer = snap.leg2_no_answer + s.leg2_no_answer;
    leg2_busy = snap.leg2_busy + s.leg2_busy;
    leg2_failed = snap.leg2_failed + s.leg2_failed;
    leg2_canceled = snap.leg2_canceled + s.leg2_canceled;
  }

  -- the average over the day, its old total reconstructed from the old average
  unfoldable pub update_average : CallSummary R → CallMetricsSnapshot R → CallMetricsSnapshot R
  update_average s snap =
      let existing = mul snap.avg_duration_sec (of_int (pos (snap.total_calls - s.total))) in
      let all = add existing (of_int s.total_duration_sec) in
      if ltb 0 snap.total_calls
      then record snap { avg_duration_sec = div all (of_int (pos snap.total_calls)) }
      else snap

  -- the rates, from the accumulated counts
  unfoldable pub update_rates : CallMetricsSnapshot R → CallMetricsSnapshot R
  update_rates snap =
      let denom = if ltb 0 snap.leg2_total then snap.leg2_total else snap.total_calls in
      let answer =
        if ltb 0 denom then percent float snap.connected_calls denom else snap.answer_rate in
      record snap {
        drop_rate =
            if ltb 0 snap.leg2_total
            then percent float snap.leg2_drops snap.leg2_total
            else if ltb 0 snap.total_calls
            then percent float snap.leg2_drops snap.total_calls
            else snap.drop_rate;
        answer_rate = answer;
        success_rate = answer;
        leg1_drop_rate =
            if ltb 0 snap.leg1_total
            then percent float snap.leg1_drops snap.leg1_total
            else snap.leg1_drop_rate;
      }

  module _ (hours_json : Json (List ℕ)) (map_json : Json Breakdown) where
    -- json.Unmarshal into a zeroed [24]int; a text that is no JSON leaves it zero
    unfoldable pub read_hours : Text → List ℕ
    read_hours s =
        if is_empty s
        then empty_hours
        else elim (hours_json.unmarshal s) [ none ↦ empty_hours | some dist ↦ dist ]

    unfoldable pub update_hours : CallSummary R → CallMetricsSnapshot R → CallMetricsSnapshot R
    unfolding read_hours
    update_hours s snap =
        let dist = add_hours (read_hours snap.hourly_distribution) s.hourly_distribution in
        record snap { hourly_distribution = hours_json.marshal dist; peak_hour = peak_hour dist }

    unfoldable pub update_breakdown : CallSummary R → CallMetricsSnapshot R → CallMetricsSnapshot R
    update_breakdown s snap = record snap {
      leg_breakdown = merge_with_breakdown_map map_json snap.leg_breakdown s.leg_status_breakdown;
    }

    -- all updates of a row by one batch, in the code's order
    unfoldable pub add_summary : CallSummary R → CallMetricsSnapshot R → CallMetricsSnapshot R
    unfolding add_counts update_average update_rates update_hours update_breakdown
    add_summary s snap =
        update_rates (update_hours s (update_average s (update_breakdown s (add_counts s snap))))

    -- The row to upsert, `none` for a batch with no record. `existing` is today's row, if the
    -- query finds one.
    unfoldable pub accumulate_call_metrics :
        ℕ
        → ℕ
        → Instant
        → Option (CallMetricsSnapshot R)
        → CallSummary R
        → Option (CallMetricsSnapshot R)
    unfolding add_summary new_snapshot
    accumulate_call_metrics account_id exophone_id now existing s =
        if s.total == 0
        then none
        else some (
            add_summary s (elim existing [
              | none ↦ new_snapshot account_id exophone_id (ist_day now)
              | some snap ↦ snap
            ]))
