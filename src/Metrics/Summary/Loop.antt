-- ===== src/Metrics/Summary/Loop.antt =====
-- The loop of ProcessCallRecords (internal/metrics/engine.go): one round for each record.
use exotel_monitoring_platfo.Prelude.{
  ℕ, ◌+◌, ℤ, pos, ◌+ℤ◌, is_positive, Bool, true, false, List, [], ◌∷◌, ◌++◌, none, Text, codes,
  text_eq, to_lower, is_empty, if◌then◌else◌, ◌||◌,
}
use exotel_monitoring_platfo.Models.{Leg, leg1, leg2, CallLog, MonitoringJob}
use exotel_monitoring_platfo.Exotel.Types.{CallRecord}
use exotel_monitoring_platfo.Metrics.Legs.{classify_leg}
use exotel_monitoring_platfo.Metrics.Times.{TimeParsers, parsed, start_of, count_hour, empty_hours}
use exotel_monitoring_platfo.Metrics.Breakdown.{Breakdown, add_cell}

-- The texts that the status switches tell apart.
pub data CallStatus : Type 0 where
  completed failed no_answer busy canceled in_flight other_status : CallStatus

unfoldable pub call_status : Text → CallStatus
call_status s =
    if text_eq s (codes "completed")
    then completed
    else if text_eq s (codes "failed")
    then failed
    else if text_eq s (codes "no-answer") || text_eq s (codes "noanswer")
    then no_answer
    else if text_eq s (codes "busy")
    then busy
    else if text_eq s (codes "canceled") || text_eq s (codes "cancelled")
    then canceled
    else if text_eq s (codes "in-progress")
        || text_eq s (codes "queued")
        || text_eq s (codes "initiated")
        || text_eq s (codes "ringing")
    then in_flight
    else other_status

pub record Outcomes : Type 0 where
  pub connected : ℕ
  pub leg1_connected : ℕ
  pub dropped_leg1 : ℕ
  pub dropped_leg2 : ℕ
  pub failed_calls : ℕ
  pub no_answer_calls : ℕ
  pub busy_calls : ℕ
  pub canceled_calls : ℕ
  pub other_calls : ℕ

pub record LegStatuses : Type 0 where
  pub leg1_no_answer : ℕ
  pub leg1_busy : ℕ
  pub leg1_failed : ℕ
  pub leg2_no_answer : ℕ
  pub leg2_busy : ℕ
  pub leg2_failed : ℕ
  pub leg2_canceled : ℕ

pub record Tally : Type 0 where
  pub call_logs : List CallLog
  pub outcomes : Outcomes
  pub open outcomes use *
  pub leg_statuses : LegStatuses
  pub open leg_statuses use *
  pub leg1_total : ℕ
  pub leg2_total : ℕ
  pub total_duration_sec : ℤ
  pub hourly_distribution : List ℕ
  pub leg_status_breakdown : Breakdown

unfoldable pub empty_tally : Tally
empty_tally = record {
  call_logs = [];
  outcomes = record {
    connected = 0;
    leg1_connected = 0;
    dropped_leg1 = 0;
    dropped_leg2 = 0;
    failed_calls = 0;
    no_answer_calls = 0;
    busy_calls = 0;
    canceled_calls = 0;
    other_calls = 0;
  };
  leg_statuses = record {
    leg1_no_answer = 0;
    leg1_busy = 0;
    leg1_failed = 0;
    leg2_no_answer = 0;
    leg2_busy = 0;
    leg2_failed = 0;
    leg2_canceled = 0;
  };
  leg1_total = 0;
  leg2_total = 0;
  total_duration_sec = pos 0;
  hourly_distribution = empty_hours;
  leg_status_breakdown = [];
}

-- case "completed": connected, or dropped on the one leg or the other
count_completed : Bool → Leg → Bool → Outcomes → Outcomes
count_completed true leg1 unrouted o = record o {
  connected = o.connected + 1;
  leg1_connected = o.leg1_connected + 1;
}
count_completed true leg2 unrouted o = record o { connected = o.connected + 1 }
count_completed false leg2 unrouted o = record o { dropped_leg2 = o.dropped_leg2 + 1 }
count_completed false leg1 true o = record o { dropped_leg1 = o.dropped_leg1 + 1 }
count_completed false leg1 false o = record o { dropped_leg2 = o.dropped_leg2 + 1 }

-- switch status: `talked` is ConversationDuration > 0, `unrouted` is Leg2Status == ""
unfoldable pub count_outcome : CallStatus → Bool → Leg → Bool → Outcomes → Outcomes
unfolding count_completed
count_outcome completed talked leg unrouted o = count_completed talked leg unrouted o
count_outcome failed talked leg unrouted o = record o { failed_calls = o.failed_calls + 1 }
count_outcome no_answer talked leg unrouted o = record o { no_answer_calls = o.no_answer_calls + 1 }
count_outcome busy talked leg unrouted o = record o { busy_calls = o.busy_calls + 1 }
count_outcome canceled talked leg unrouted o = record o { canceled_calls = o.canceled_calls + 1 }
count_outcome in_flight talked leg unrouted o = record o { other_calls = o.other_calls + 1 }
count_outcome other_status talked leg unrouted o = record o { other_calls = o.other_calls + 1 }

-- switch strings.ToLower(r.Details.Leg1Status)
unfoldable pub count_leg1_status : CallStatus → LegStatuses → LegStatuses
count_leg1_status no_answer l = record l { leg1_no_answer = l.leg1_no_answer + 1 }
count_leg1_status busy l = record l { leg1_busy = l.leg1_busy + 1 }
count_leg1_status failed l = record l { leg1_failed = l.leg1_failed + 1 }
count_leg1_status other l = l

-- switch strings.ToLower(r.Details.Leg2Status)
unfoldable pub count_leg2_status : CallStatus → LegStatuses → LegStatuses
count_leg2_status no_answer l = record l { leg2_no_answer = l.leg2_no_answer + 1 }
count_leg2_status busy l = record l { leg2_busy = l.leg2_busy + 1 }
count_leg2_status failed l = record l { leg2_failed = l.leg2_failed + 1 }
count_leg2_status canceled l = record l { leg2_canceled = l.leg2_canceled + 1 }
count_leg2_status other l = l

unfoldable pub add_leg1 : Leg → ℕ → ℕ
add_leg1 leg1 n = n + 1
add_leg1 leg2 n = n

unfoldable pub add_leg2 : Leg → ℕ → ℕ
add_leg2 leg1 n = n
add_leg2 leg2 n = n + 1

module _ (p : TimeParsers) (txn_id : Text) (job : MonitoringJob) (vn : Text) where
  unfoldable pub call_log_of : CallRecord → CallLog
  call_log_of r = record {
    transaction_id = txn_id;
    account_id = job.account_id;
    exophone_id = job.exophone_id;
    call_sid = r.sid;
    parent_call_sid = r.parent_call_sid;
    leg_number = classify_leg r vn;
    call_from = r.from;
    call_to = r.to;
    status = r.status;
    direction = r.direction;
    duration_sec = r.duration;
    conversation_duration = r.details.conversation_duration;
    start_time = start_of p r.start_time r.date_created;
    end_time = if is_empty r.end_time then none else parsed p r.end_time;
    recording_url = r.recording_url;
    leg1_status = r.details.leg1_status;
    leg2_status = r.details.leg2_status;
  }

  unfoldable pub process_record : CallRecord → Tally → Tally
  unfolding call_log_of
  process_record r t =
      let leg = classify_leg r vn in
      let leg1_key = to_lower r.details.leg1_status in
      let leg2_key = to_lower r.details.leg2_status in
      let talked = is_positive r.details.conversation_duration in
      record {
        call_logs = t.call_logs ++ call_log_of r ∷ [];
        outcomes =
            count_outcome (call_status (to_lower r.status)) talked leg (is_empty leg2_key)
              t.outcomes;
        leg_statuses =
            count_leg2_status (call_status leg2_key)
              (count_leg1_status (call_status leg1_key) t.leg_statuses);
        leg1_total = add_leg1 leg t.leg1_total;
        leg2_total = add_leg2 leg t.leg2_total;
        total_duration_sec = t.total_duration_sec +ℤ r.duration;
        hourly_distribution =
            count_hour (start_of p r.start_time r.date_created) t.hourly_distribution;
        leg_status_breakdown = add_cell leg1_key leg2_key 1 t.leg_status_breakdown;
      }

  unfoldable pub process_from : Tally → List CallRecord → Tally
  process_from t [] = t
  process_from t (r ∷ rs) = process_from (process_record r t) rs
