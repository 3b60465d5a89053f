-- ===== src/Repository/Recompute.antt =====
-- RecomputeCallMetricsForDate (internal/repository/snapshot_repo.go): the row of an exophone and a date
-- rebuilt by MySQL from call_logs. A row of call_logs whose start_time is NULL is of no date.
pub mod Agreement
use exotel_monitoring_platfo.Prelude.{
  ℕ, zero, suc, ◌+◌, ℤ, pos, ◌+ℤ◌, is_positive, is_zero, Bool, true, false, ◌&&◌, ◌||◌, not, List,
  [], ◌∷◌, map, Option, none, some, Text, codes, is_empty, if◌then◌else◌, ◌==◌, ltb, leb, keep_if,
  count_if, length, Float64, Json,
}
use exotel_monitoring_platfo.Models.{is_leg1, is_leg2, CallLog, CallMetricsSnapshot}
use exotel_monitoring_platfo.Metrics.Summary.Rates.{percent}
use exotel_monitoring_platfo.Repository.Tables.{upsert}
use exotel_monitoring_platfo.Repository.Snapshots.{Mysql, sql_eq, metrics_row_key}

-- what the SELECT aggregates; the average is of the sum and the number of rows
pub record Agg : Type 0 where
  pub total : ℕ
  pub leg1_total : ℕ
  pub leg1_drops : ℕ
  pub leg2_total : ℕ
  pub leg2_drops : ℕ
  pub connected : ℕ
  pub failed_calls : ℕ
  pub no_answer_calls : ℕ
  pub busy_calls : ℕ
  pub canceled_calls : ℕ
  pub other_calls : ℕ
  pub duration_sum : ℤ
  pub leg1_no_answer : ℕ
  pub leg1_busy : ℕ
  pub leg1_failed : ℕ
  pub leg2_no_answer : ℕ
  pub leg2_busy : ℕ
  pub leg2_failed : ℕ
  pub leg2_canceled : ℕ

-- status = '…'
abbrev pub status_is : Text → CallLog → Bool
status_is literal cl = sql_eq cl.status literal

-- status = 'completed' AND conversation_duration = 0
abbrev pub is_drop : CallLog → Bool
is_drop cl = status_is (codes "completed") cl && is_zero cl.conversation_duration

-- status NOT IN (…)
abbrev pub is_other : CallLog → Bool
is_other cl = not (
    status_is (codes "completed") cl
    || status_is (codes "failed") cl
    || status_is (codes "no-answer") cl
    || status_is (codes "busy") cl
    || status_is (codes "canceled") cl)

unfoldable pub sum_duration_sec : List CallLog → ℤ
sum_duration_sec [] = pos 0
sum_duration_sec (cl ∷ logs) = cl.duration_sec +ℤ sum_duration_sec logs

unfoldable pub aggregate : List CallLog → Agg
unfolding sql_eq sum_duration_sec
aggregate logs = record {
  total = length logs;
  leg1_total = count_if (λ (cl : CallLog). is_leg1 cl.leg_number) logs;
  leg1_drops = count_if (λ (cl : CallLog). is_drop cl && is_empty cl.leg2_status) logs;
  leg2_total = count_if (λ (cl : CallLog). is_leg2 cl.leg_number) logs;
  leg2_drops = count_if (λ (cl : CallLog). is_drop cl && not (is_empty cl.leg2_status)) logs;
  connected =
      count_if
        (λ (cl : CallLog). status_is (codes "completed") cl && is_positive cl.conversation_duration)
        logs;
  failed_calls = count_if (status_is (codes "failed")) logs;
  no_answer_calls = count_if (status_is (codes "no-answer")) logs;
  busy_calls = count_if (status_is (codes "busy")) logs;
  canceled_calls = count_if (status_is (codes "canceled")) logs;
  other_calls = count_if is_other logs;
  duration_sum = sum_duration_sec logs;
  leg1_no_answer = on_leg1 (codes "no-answer");
  leg1_busy = on_leg1 (codes "busy");
  leg1_failed = on_leg1 (codes "failed");
  leg2_no_answer = on_leg2 (codes "no-answer");
  leg2_busy = on_leg2 (codes "busy");
  leg2_failed = on_leg2 (codes "failed");
  leg2_canceled = on_leg2 (codes "canceled");
}
  where
    on_leg1 : Text → ℕ
    on_leg1 literal =
        count_if (λ (cl : CallLog). is_leg1 cl.leg_number && status_is literal cl) logs

    on_leg2 : Text → ℕ
    on_leg2 literal =
        count_if (λ (cl : CallLog). is_leg2 cl.leg_number && status_is literal cl) logs

-- the hours of a day from h on, with the number of rows of each
unfoldable pub hours_from : (CallLog → Option ℕ) → List CallLog → ℕ → ℕ → List ℕ
hours_from hour logs h zero = []
hours_from hour logs h (suc n) =
    count_if (λ cl. elim (hour cl) [ none ↦ false | some k ↦ k == h ]) logs
    ∷ hours_from hour logs (suc h) n

-- if r.Count > peakCount over the rows of the GROUP BY, in the order in which they come
unfoldable pub peak_row : ℕ → ℕ → List (ℕ × ℕ) → ℕ
peak_row peak_hour peak_count [] = peak_hour
peak_row peak_hour peak_count ((h, c) ∷ rows) =
    if ltb h 24 && ltb peak_count c then peak_row h c rows else peak_row peak_hour peak_count rows

module _ {R : Type 0} (float : Float64 R) (mysql : Mysql R) (average : ℤ → ℕ → R)
    (hours_json : Json (List ℕ)) where
  -- the rows of the exophone that started on the date
  unfoldable pub log_of_date : ℕ → ℕ → CallLog → Bool
  log_of_date exophone_id date cl = elim cl.start_time [
    | none ↦ false
    | some t ↦ cl.exophone_id == exophone_id && mysql.date_of t == date
  ]

  abbrev pub hour_of_log : CallLog → Option ℕ
  hour_of_log cl = elim cl.start_time [ none ↦ none | some t ↦ some (mysql.hour_of_row t) ]

  -- steps 3 and 4: the row; `rows` is the result of the GROUP BY
  unfoldable pub recomputed_row :
      ℕ → ℕ → ℕ → List CallLog → List (ℕ × ℕ) → Agg → CallMetricsSnapshot R
  unfolding percent hours_from peak_row
  recomputed_row account_id exophone_id date logs rows a =
      let denominator = if ltb 0 a.leg2_total then a.leg2_total else a.total in
      let answer_rate =
        if ltb 0 denominator then percent float a.connected denominator else float.of_int (pos 0) in
      record {
        snapshot_date = date;
        account_id = account_id;
        exophone_id = exophone_id;
        total_calls = a.total;
        leg1_total = a.leg1_total;
        leg1_drops = a.leg1_drops;
        leg2_total = a.leg2_total;
        leg2_drops = a.leg2_drops;
        connected_calls = a.connected;
        dropped_calls =
            if ltb 0 a.leg2_total
            then a.leg1_drops + a.leg2_drops
            else if ltb 0 a.total
            then a.leg1_drops + a.leg2_drops
            else 0;
        failed_calls = a.failed_calls;
        no_answer_calls = a.no_answer_calls;
        busy_calls = a.busy_calls;
        canceled_calls = a.canceled_calls;
        other_calls = a.other_calls;
        leg1_no_answer = a.leg1_no_answer;
        leg1_busy = a.leg1_busy;
        leg1_failed = a.leg1_failed;
        leg2_no_answer = a.leg2_no_answer;
        leg2_busy = a.leg2_busy;
        leg2_failed = a.leg2_failed;
        leg2_canceled = a.leg2_canceled;
        avg_duration_sec =
            if a.total == 0 then float.of_int (pos 0) else average a.duration_sum a.total;
        answer_rate = answer_rate;
        drop_rate =
            if ltb 0 a.leg2_total
            then percent float a.leg2_drops a.leg2_total
            else if ltb 0 a.total
            then percent float a.leg2_drops a.total
            else float.of_int (pos 0);
        leg1_drop_rate =
            if ltb 0 a.leg1_total
            then percent float a.leg1_drops a.leg1_total
            else if ltb 0 a.total
            then percent float a.leg1_drops a.total
            else float.of_int (pos 0);
        success_rate = answer_rate;
        hourly_distribution = hours_json.marshal (hours_from hour_of_log logs 0 24);
        peak_hour = peak_row 0 0 rows;
        leg_breakdown = [];
      }

  -- the update leaves the account and the breakdown as they are
  unfoldable pub update_recomputed :
      CallMetricsSnapshot R → CallMetricsSnapshot R → CallMetricsSnapshot R
  update_recomputed new old = record new {
    account_id = old.account_id;
    leg_breakdown = old.leg_breakdown;
  }

  -- `group` is MySQL's GROUP BY HOUR(start_time), in whatever order
  unfoldable pub recompute_call_metrics_for_date :
      (List CallLog → List (ℕ × ℕ))
      → ℕ
      → ℕ
      → ℕ
      → List CallLog
      → List (CallMetricsSnapshot R)
      → List (CallMetricsSnapshot R)
  unfolding upsert update_recomputed recomputed_row aggregate log_of_date
  recompute_call_metrics_for_date group account_id exophone_id date call_logs rows =
      let logs = keep_if (log_of_date exophone_id date) call_logs in
      upsert metrics_row_key update_recomputed
        (recomputed_row account_id exophone_id date logs (group logs) (aggregate logs)) rows
