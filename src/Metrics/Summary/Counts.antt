-- ===== src/Metrics/Summary/Counts.antt =====
-- What the loop of ProcessCallRecords adds up, as counts over the records.
use exotel_monitoring_platfo.Prelude.{
  ℕ, suc, ◌+◌, ◌≡◌, is_positive, Bool, true, false, ◌&&◌, List, [], ◌∷◌, ◌++◌, map, Text, text_eq,
  to_lower, is_empty, one_if, count_if, length, arith,
}
use mathlib.Core.List.{append-nil, append_assoc}
use exotel_monitoring_platfo.Models.{Leg, leg1, leg2, is_leg1, is_leg2, MonitoringJob}
use exotel_monitoring_platfo.Exotel.Types.{CallRecord}
use exotel_monitoring_platfo.Metrics.Legs.{classify_leg}
use exotel_monitoring_platfo.Metrics.Times.{TimeParsers}
use exotel_monitoring_platfo.Metrics.Breakdown.{cell}
use exotel_monitoring_platfo.Metrics.Breakdown.Merge.{cell-add_cell}
use exotel_monitoring_platfo.Metrics.Summary.Loop.{
  CallStatus, completed, failed, no_answer, busy, canceled, in_flight, other_status, call_status,
  Outcomes, Tally, count_outcome, add_leg1, add_leg2, call_log_of, process_record, process_from,
}

abbrev pub is_completed : CallStatus → Bool
is_completed completed = true
is_completed other = false

-- A record of a conversation: completed, with a ConversationDuration above 0.
abbrev pub is_bridged : CallRecord → Bool
is_bridged r =
    is_completed (call_status (to_lower r.status)) && is_positive r.details.conversation_duration

abbrev pub is_first_leg : Text → CallRecord → Bool
is_first_leg vn r = is_leg1 (classify_leg r vn)

abbrev pub is_second_leg : Text → CallRecord → Bool
is_second_leg vn r = is_leg2 (classify_leg r vn)

-- The number of records that the status switch has counted.
abbrev pub counted : Outcomes → ℕ
counted o =
    o.connected + o.dropped_leg1 + o.dropped_leg2 + o.failed_calls + o.no_answer_calls
    + o.busy_calls + o.canceled_calls + o.other_calls

counted-count_outcome :
    (s : CallStatus) (talked : Bool) (leg : Leg) (unrouted : Bool) (o : Outcomes)
    → counted (count_outcome s talked leg unrouted o) ≡ suc (counted o)
unfolding count_outcome
counted-count_outcome completed true leg1 unrouted o = omega arith
counted-count_outcome completed true leg2 unrouted o = omega arith
counted-count_outcome completed false leg1 true o = omega arith
counted-count_outcome completed false leg1 false o = omega arith
counted-count_outcome completed false leg2 unrouted o = omega arith
counted-count_outcome failed talked leg unrouted o = omega arith
counted-count_outcome no_answer talked leg unrouted o = omega arith
counted-count_outcome busy talked leg unrouted o = omega arith
counted-count_outcome canceled talked leg unrouted o = omega arith
counted-count_outcome in_flight talked leg unrouted o = omega arith
counted-count_outcome other_status talked leg unrouted o = omega arith

connected-count_outcome :
    (s : CallStatus) (talked : Bool) (leg : Leg) (unrouted : Bool) (o : Outcomes)
    → ((count_outcome s talked leg unrouted o).connected
        ≡ one_if (is_completed s && talked) + o.connected)
      × ((count_outcome s talked leg unrouted o).leg1_connected
          ≡ one_if ((is_completed s && talked) && is_leg1 leg) + o.leg1_connected)
unfolding count_outcome
connected-count_outcome completed true leg1 unrouted o = omega arith
connected-count_outcome completed true leg2 unrouted o = omega arith
connected-count_outcome completed false leg1 true o = omega arith
connected-count_outcome completed false leg1 false o = omega arith
connected-count_outcome completed false leg2 unrouted o = omega arith
connected-count_outcome other talked leg unrouted o = omega arith

add_leg_counts :
    (leg : Leg) (m n : ℕ)
    → (add_leg1 leg m ≡ one_if (is_leg1 leg) + m) × (add_leg2 leg n ≡ one_if (is_leg2 leg) + n)
unfolding add_leg1 add_leg2
add_leg_counts leg1 m n = omega arith
add_leg_counts leg2 m n = omega arith

-- Whether a record has this pair of leg statuses, in lower case.
abbrev pub has_statuses : Text → Text → CallRecord → Bool
has_statuses l1 l2 r =
    text_eq (to_lower r.details.leg1_status) l1 && text_eq (to_lower r.details.leg2_status) l2

module _ (p : TimeParsers) (txn_id : Text) (job : MonitoringJob) (vn : Text) where
  pub counted-process_from :
      (t : Tally) (rs : List CallRecord)
      → counted (process_from p txn_id job vn t rs).outcomes ≡ counted t.outcomes + length rs
  unfolding process_from process_record
  counted-process_from t [] = omega arith
  counted-process_from t (r ∷ rs) = omega (
    arith,
    counted-process_from (process_record p txn_id job vn r t) rs,
    counted-count_outcome (call_status (to_lower r.status))
        (is_positive r.details.conversation_duration) (classify_leg r vn)
        (is_empty (to_lower r.details.leg2_status)) t.outcomes,
  )

  -- The number of conversations, and of those on a first leg.
  pub connected-process_from :
      (t : Tally) (rs : List CallRecord)
      → ((process_from p txn_id job vn t rs).connected ≡ count_if is_bridged rs + t.connected)
        × ((process_from p txn_id job vn t rs).leg1_connected
            ≡ count_if (λ r. is_bridged r && is_first_leg vn r) rs + t.leg1_connected)
  unfolding process_from process_record
  connected-process_from t [] = omega arith
  connected-process_from t (r ∷ rs) = omega (
    arith,
    connected-process_from (process_record p txn_id job vn r t) rs,
    connected-count_outcome (call_status (to_lower r.status))
        (is_positive r.details.conversation_duration) (classify_leg r vn)
        (is_empty (to_lower r.details.leg2_status)) t.outcomes,
  )

  pub legs-process_from :
      (t : Tally) (rs : List CallRecord)
      → ((process_from p txn_id job vn t rs).leg1_total
          ≡ count_if (is_first_leg vn) rs + t.leg1_total)
        × ((process_from p txn_id job vn t rs).leg2_total
            ≡ count_if (is_second_leg vn) rs + t.leg2_total)
  unfolding process_from process_record
  legs-process_from t [] = omega arith
  legs-process_from t (r ∷ rs) = omega (
    arith,
    legs-process_from (process_record p txn_id job vn r t) rs,
    add_leg_counts (classify_leg r vn) t.leg1_total t.leg2_total,
  )

  pub cell-process_from :
      (l1 l2 : Text) (t : Tally) (rs : List CallRecord)
      → cell l1 l2 (process_from p txn_id job vn t rs).leg_status_breakdown
        ≡ count_if (has_statuses l1 l2) rs + cell l1 l2 t.leg_status_breakdown
  unfolding process_from process_record
  cell-process_from l1 l2 t [] = omega arith
  cell-process_from l1 l2 t (r ∷ rs) = ground (
    arith,
    cell-process_from l1 l2 (process_record p txn_id job vn r t) rs,
    cell-add_cell (to_lower r.details.leg1_status) (to_lower r.details.leg2_status) l1 l2 1
        t.leg_status_breakdown,
  )

  pub call_logs-process_from :
      (t : Tally) (rs : List CallRecord)
      → (process_from p txn_id job vn t rs).call_logs
        ≡ t.call_logs ++ map (call_log_of p txn_id job vn) rs
  unfolding process_from process_record
  call_logs-process_from t [] = rw append-nil
  call_logs-process_from t (r ∷ rs) =
      rw (call_logs-process_from (process_record p txn_id job vn r t) rs) (
        append_assoc t.call_logs (call_log_of p txn_id job vn r ∷ [])
          (map (call_log_of p txn_id job vn) rs))
