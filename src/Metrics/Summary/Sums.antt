-- ===== src/Metrics/Summary/Sums.antt =====
-- The loop of ProcessCallRecords as a sum over its records: each record adds its own figures,
-- whatever the figures before it.
use exotel_monitoring_platfo.Prelude.{
  ◌+◌, ◌≡◌, refl, sym, ◌∙◌, ap, is_positive, Bool, true, false, List, [], ◌∷◌, ◌++◌, Text, to_lower,
  is_empty, arith,
}
use exotel_monitoring_platfo.Models.{Leg, leg1, leg2, MonitoringJob}
use exotel_monitoring_platfo.Exotel.Types.{CallRecord}
use exotel_monitoring_platfo.Metrics.Legs.{classify_leg}
use exotel_monitoring_platfo.Metrics.Times.{TimeParsers}
use exotel_monitoring_platfo.Metrics.Summary.Loop.{
  CallStatus, completed, failed, no_answer, busy, canceled, in_flight, other_status, call_status,
  Outcomes, Tally, count_outcome, process_record, process_from,
}

unfoldable pub add_outcomes : Outcomes → Outcomes → Outcomes
add_outcomes a b = record {
  connected = a.connected + b.connected;
  leg1_connected = a.leg1_connected + b.leg1_connected;
  dropped_leg1 = a.dropped_leg1 + b.dropped_leg1;
  dropped_leg2 = a.dropped_leg2 + b.dropped_leg2;
  failed_calls = a.failed_calls + b.failed_calls;
  no_answer_calls = a.no_answer_calls + b.no_answer_calls;
  busy_calls = a.busy_calls + b.busy_calls;
  canceled_calls = a.canceled_calls + b.canceled_calls;
  other_calls = a.other_calls + b.other_calls;
}

abbrev pub zero_outcomes : Outcomes
zero_outcomes = record {
  connected = 0;
  leg1_connected = 0;
  dropped_leg1 = 0;
  dropped_leg2 = 0;
  failed_calls = 0;
  no_answer_calls = 0;
  busy_calls = 0;
  canceled_calls = 0;
  other_calls = 0;
}

pub add_outcomes_zero : (o : Outcomes) → add_outcomes zero_outcomes o ≡ o
unfolding add_outcomes
add_outcomes_zero o = ground arith

pub add_outcomes_right : (o : Outcomes) → add_outcomes o zero_outcomes ≡ o
unfolding add_outcomes
add_outcomes_right o = ground arith

add_outcomes_swap :
    (a b c : Outcomes) → add_outcomes a (add_outcomes b c) ≡ add_outcomes (add_outcomes b a) c
unfolding add_outcomes
add_outcomes_swap a b c = ground arith

pub add_outcomes_assoc :
    (a b c : Outcomes) → add_outcomes (add_outcomes a b) c ≡ add_outcomes a (add_outcomes b c)
unfolding add_outcomes
add_outcomes_assoc a b c = ground arith

pub add_outcomes_comm : (a b : Outcomes) → add_outcomes a b ≡ add_outcomes b a
unfolding add_outcomes
add_outcomes_comm a b = ground arith

-- What one record adds to the outcomes.
unfoldable pub outcome_of : Text → CallRecord → Outcomes
outcome_of vn r =
    count_outcome (call_status (to_lower r.status)) (is_positive r.details.conversation_duration)
      (classify_leg r vn) (is_empty (to_lower r.details.leg2_status)) zero_outcomes

unfoldable pub sum_outcomes : Text → List CallRecord → Outcomes
sum_outcomes vn [] = zero_outcomes
sum_outcomes vn (r ∷ rs) = add_outcomes (outcome_of vn r) (sum_outcomes vn rs)

pub sum_outcomes-cons :
    (vn : Text) (r : CallRecord) (rs : List CallRecord)
    → sum_outcomes vn (r ∷ rs) ≡ add_outcomes (outcome_of vn r) (sum_outcomes vn rs)
unfolding sum_outcomes
sum_outcomes-cons vn r rs = refl

count_outcome-add :
    (s : CallStatus) (talked : Bool) (leg : Leg) (unrouted : Bool) (o : Outcomes)
    → count_outcome s talked leg unrouted o
      ≡ add_outcomes (count_outcome s talked leg unrouted zero_outcomes) o
unfolding count_outcome add_outcomes
count_outcome-add completed true leg1 unrouted o = ground arith
count_outcome-add completed true leg2 unrouted o = ground arith
count_outcome-add completed false leg1 true o = ground arith
count_outcome-add completed false leg1 false o = ground arith
count_outcome-add completed false leg2 unrouted o = ground arith
count_outcome-add failed talked leg unrouted o = ground arith
count_outcome-add no_answer talked leg unrouted o = ground arith
count_outcome-add busy talked leg unrouted o = ground arith
count_outcome-add canceled talked leg unrouted o = ground arith
count_outcome-add in_flight talked leg unrouted o = ground arith
count_outcome-add other_status talked leg unrouted o = ground arith

pub sum_outcomes-append :
    (vn : Text) (xs ys : List CallRecord)
    → sum_outcomes vn (xs ++ ys) ≡ add_outcomes (sum_outcomes vn xs) (sum_outcomes vn ys)
unfolding sum_outcomes
sum_outcomes-append vn [] ys = sym (add_outcomes_zero (sum_outcomes vn ys))
sum_outcomes-append vn (x ∷ xs) ys =
    ap (add_outcomes (outcome_of vn x)) (sum_outcomes-append vn xs ys)
    ∙ sym (add_outcomes_assoc (outcome_of vn x) (sum_outcomes vn xs) (sum_outcomes vn ys))

module _ (p : TimeParsers) (txn_id : Text) (job : MonitoringJob) (vn : Text) where
  pub outcomes-process_from :
      (t : Tally) (rs : List CallRecord)
      → (process_from p txn_id job vn t rs).outcomes ≡ add_outcomes (sum_outcomes vn rs) t.outcomes
  unfolding process_from process_record sum_outcomes outcome_of
  outcomes-process_from t [] = sym (add_outcomes_zero t.outcomes)
  outcomes-process_from t (r ∷ rs) =
      outcomes-process_from (process_record p txn_id job vn r t) rs
      ∙ ap (add_outcomes (sum_outcomes vn rs)) (
          count_outcome-add (call_status (to_lower r.status))
            (is_positive r.details.conversation_duration) (classify_leg r vn)
            (is_empty (to_lower r.details.leg2_status)) t.outcomes)
      ∙ add_outcomes_swap (sum_outcomes vn rs) (outcome_of vn r) t.outcomes
