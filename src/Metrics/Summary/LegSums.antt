-- ===== src/Metrics/Summary/LegSums.antt =====
-- The leg status counts of ProcessCallRecords as sums over the records.
use exotel_monitoring_platfo.Prelude.{
  ◌+◌, ◌≡◌, refl, sym, ◌∙◌, ap, ℤ, pos, ◌+ℤ◌, +ℤ_assoc, +ℤ-zero, List, [], ◌∷◌, ◌++◌, Text,
  to_lower, arith,
}
use exotel_monitoring_platfo.Models.{MonitoringJob}
use exotel_monitoring_platfo.Exotel.Types.{CallRecord}
use exotel_monitoring_platfo.Metrics.Times.{TimeParsers}
use exotel_monitoring_platfo.Metrics.Summary.Loop.{
  CallStatus, failed, no_answer, busy, canceled, call_status, LegStatuses, Tally, count_leg1_status,
  count_leg2_status, process_record, process_from,
}

unfoldable pub add_leg_statuses : LegStatuses → LegStatuses → LegStatuses
add_leg_statuses a b = record {
  leg1_no_answer = a.leg1_no_answer + b.leg1_no_answer;
  leg1_busy = a.leg1_busy + b.leg1_busy;
  leg1_failed = a.leg1_failed + b.leg1_failed;
  leg2_no_answer = a.leg2_no_answer + b.leg2_no_answer;
  leg2_busy = a.leg2_busy + b.leg2_busy;
  leg2_failed = a.leg2_failed + b.leg2_failed;
  leg2_canceled = a.leg2_canceled + b.leg2_canceled;
}

abbrev pub zero_leg_statuses : LegStatuses
zero_leg_statuses = record {
  leg1_no_answer = 0;
  leg1_busy = 0;
  leg1_failed = 0;
  leg2_no_answer = 0;
  leg2_busy = 0;
  leg2_failed = 0;
  leg2_canceled = 0;
}

pub add_leg_statuses_zero : (l : LegStatuses) → add_leg_statuses zero_leg_statuses l ≡ l
unfolding add_leg_statuses
add_leg_statuses_zero l = ground arith

pub add_leg_statuses_assoc :
    (a b c : LegStatuses)
    → add_leg_statuses (add_leg_statuses a b) c ≡ add_leg_statuses a (add_leg_statuses b c)
unfolding add_leg_statuses
add_leg_statuses_assoc a b c = ground arith

pub add_leg_statuses_comm : (a b : LegStatuses) → add_leg_statuses a b ≡ add_leg_statuses b a
unfolding add_leg_statuses
add_leg_statuses_comm a b = ground arith

add_leg_statuses_swap :
    (a b c : LegStatuses)
    → add_leg_statuses a (add_leg_statuses b c) ≡ add_leg_statuses (add_leg_statuses b a) c
unfolding add_leg_statuses
add_leg_statuses_swap a b c = ground arith

-- What the two leg statuses of a record add.
pub leg_statuses_of : CallRecord → LegStatuses
leg_statuses_of r =
    count_leg2_status (call_status (to_lower r.details.leg2_status))
      (count_leg1_status (call_status (to_lower r.details.leg1_status)) zero_leg_statuses)

pub sum_leg_statuses : List CallRecord → LegStatuses
sum_leg_statuses [] = zero_leg_statuses
sum_leg_statuses (r ∷ rs) = add_leg_statuses (leg_statuses_of r) (sum_leg_statuses rs)

pub sum_leg_statuses-append :
    (xs ys : List CallRecord)
    → sum_leg_statuses (xs ++ ys) ≡ add_leg_statuses (sum_leg_statuses xs) (sum_leg_statuses ys)
unfolding sum_leg_statuses
sum_leg_statuses-append [] ys = sym (add_leg_statuses_zero (sum_leg_statuses ys))
sum_leg_statuses-append (x ∷ xs) ys =
    ap (add_leg_statuses (leg_statuses_of x)) (sum_leg_statuses-append xs ys)
    ∙ sym (add_leg_statuses_assoc (leg_statuses_of x) (sum_leg_statuses xs) (sum_leg_statuses ys))

pub sum_leg_statuses-cons :
    (r : CallRecord) (rs : List CallRecord)
    → sum_leg_statuses (r ∷ rs) ≡ add_leg_statuses (leg_statuses_of r) (sum_leg_statuses rs)
unfolding sum_leg_statuses
sum_leg_statuses-cons r rs = refl

count_leg1_status-add :
    (s : CallStatus) (l : LegStatuses)
    → count_leg1_status s l ≡ add_leg_statuses (count_leg1_status s zero_leg_statuses) l
unfolding count_leg1_status add_leg_statuses
count_leg1_status-add no_answer l = ground arith
count_leg1_status-add busy l = ground arith
count_leg1_status-add failed l = ground arith
count_leg1_status-add _ l = ground arith

count_leg2_status-add :
    (s : CallStatus) (l m : LegStatuses)
    → count_leg2_status s (add_leg_statuses l m) ≡ add_leg_statuses (count_leg2_status s l) m
unfolding count_leg2_status add_leg_statuses
count_leg2_status-add no_answer l m = ground arith
count_leg2_status-add busy l m = ground arith
count_leg2_status-add failed l m = ground arith
count_leg2_status-add canceled l m = ground arith
count_leg2_status-add _ l m = ground arith

module _ (p : TimeParsers) (txn_id : Text) (job : MonitoringJob) (vn : Text) where
  pub leg_statuses-process_from :
      (t : Tally) (rs : List CallRecord)
      → (process_from p txn_id job vn t rs).leg_statuses
        ≡ add_leg_statuses (sum_leg_statuses rs) t.leg_statuses
  unfolding process_from process_record sum_leg_statuses leg_statuses_of
  leg_statuses-process_from t [] = sym (add_leg_statuses_zero t.leg_statuses)
  leg_statuses-process_from t (r ∷ rs) =
      let one = call_status (to_lower r.details.leg1_status) in
      let two = call_status (to_lower r.details.leg2_status) in
      leg_statuses-process_from (process_record p txn_id job vn r t) rs
      ∙ ap (λ l. add_leg_statuses (sum_leg_statuses rs) (count_leg2_status two l))
          (count_leg1_status-add one t.leg_statuses)
      ∙ ap (add_leg_statuses (sum_leg_statuses rs))
          (count_leg2_status-add two (count_leg1_status one zero_leg_statuses) t.leg_statuses)
      ∙ add_leg_statuses_swap (sum_leg_statuses rs) (leg_statuses_of r) t.leg_statuses

-- TotalDurationSec
pub sum_durations : List CallRecord → ℤ
sum_durations [] = pos 0
sum_durations (r ∷ rs) = r.duration +ℤ sum_durations rs

pub durations-process_from :
    (p : TimeParsers) (txn_id : Text) (job : MonitoringJob) (vn : Text) (t : Tally)
    (rs : List CallRecord)
    → (process_from p txn_id job vn t rs).total_duration_sec
      ≡ t.total_duration_sec +ℤ sum_durations rs
unfolding process_from process_record sum_durations
durations-process_from p txn_id job vn t [] = sym (+ℤ-zero t.total_duration_sec)
durations-process_from p txn_id job vn t (r ∷ rs) =
    durations-process_from p txn_id job vn (process_record p txn_id job vn r t) rs
    ∙ +ℤ_assoc t.total_duration_sec r.duration (sum_durations rs)

pub sum_durations-cons :
    (r : CallRecord) (rs : List CallRecord)
    → sum_durations (r ∷ rs) ≡ r.duration +ℤ sum_durations rs
unfolding sum_durations
sum_durations-cons r rs = refl
