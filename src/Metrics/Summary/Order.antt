-- ===== src/Metrics/Summary/Order.antt =====
-- The order of the records does not matter to the counts of ProcessCallRecords
-- (internal/metrics/engine.go): a page may deliver them in any order.
use mathlib.Core.List.{Perm, Permᴰ}
use mathlib.Core.Logic.{∥∥₁_elim}
use native.Mathlib.Nat.{ℕ_set}
use exotel_monitoring_platfo.Prelude.{
  ◌+◌, ◌≡◌, refl, sym, ◌∙◌, ap, ℤ, ◌+ℤ◌, +ℤ_comm, +ℤ_assoc, Bool, List, ◌∷◌, Text, one_if, count_if,
  arith,
}
use exotel_monitoring_platfo.Models.{MonitoringJob}
use exotel_monitoring_platfo.Exotel.Types.{CallRecord}
use exotel_monitoring_platfo.Metrics.Times.{TimeParsers}
use exotel_monitoring_platfo.Metrics.Breakdown.{cell}
use exotel_monitoring_platfo.Metrics.Summary.Loop.{Outcomes, LegStatuses, empty_tally, process_from}
use exotel_monitoring_platfo.Metrics.Summary.Counts.{
  is_first_leg, is_second_leg, has_statuses, legs-process_from, cell-process_from,
}
use exotel_monitoring_platfo.Metrics.Summary.Sums.{outcome_of, sum_outcomes-cons}
use exotel_monitoring_platfo.Metrics.Summary.LegSums.{
  leg_statuses_of, sum_leg_statuses-cons, sum_durations-cons,
}
use exotel_monitoring_platfo.Metrics.Summary.Sums.{
  add_outcomes, add_outcomes_assoc, add_outcomes_comm, sum_outcomes, outcomes-process_from,
}
use exotel_monitoring_platfo.Metrics.Summary.LegSums.{
  add_leg_statuses, add_leg_statuses_assoc, add_leg_statuses_comm, leg_statuses_of,
  sum_leg_statuses, sum_leg_statuses-cons, sum_durations-cons, leg_statuses-process_from,
  sum_durations, durations-process_from,
}

-- A sum by a commutative operation is that of any rearrangement.
module _ {A B : Type 0} (plus : B → B → B)
    (assoc : (a b c : B) → plus (plus a b) c ≡ plus a (plus b c))
    (comm : (a b : B) → plus a b ≡ plus b a) (figure : A → B) (total : List A → B)
    (step : (x : A) (xs : List A) → total (x ∷ xs) ≡ plus (figure x) (total xs)) where
  total-permᴰ : {xs ys : List A} → Permᴰ xs ys → total xs ≡ total ys
  total-permᴰ Permᴰ.nil = refl
  total-permᴰ (Permᴰ.cons {a} {b} {l₁} {l₂} e q) = cc (e, total-permᴰ q, step a l₁, step b l₂)
  total-permᴰ (Permᴰ.swap {a} {b} {a'} {b'} {l} e f) = cc (
    e,
    f,
    step a (b ∷ l),
    step b l,
    step a' (b' ∷ l),
    step b' l,
    assoc (figure a) (figure b) (total l),
    comm (figure a) (figure b),
    assoc (figure b) (figure a) (total l),
  )
  total-permᴰ (Permᴰ.trans q r) = total-permᴰ q ∙ total-permᴰ r

  total-perm : IsSet B → {xs ys : List A} → Perm xs ys → total xs ≡ total ys
  total-perm set q = ∥∥₁_elim q (set _ _) total-permᴰ

count_if-perm :
    {A : Type 0} (q : A → Bool) {xs ys : List A} → Perm xs ys → count_if q xs ≡ count_if q ys
count_if-perm q =
    total-perm ◌+◌ (λ a b c. omega arith) (λ a b. omega arith) (λ x. one_if (q x)) (count_if q)
      (λ x xs. refl) ℕ_set

Outcomes-set : IsSet Outcomes
Outcomes-set = hlevel

LegStatuses-set : IsSet LegStatuses
LegStatuses-set = hlevel

ℤ-set : IsSet ℤ
ℤ-set = hlevel

-- Any rearrangement of the records gives the same outcomes, leg status counts, leg totals, total
-- duration and breakdown.
pub process_from-perm :
    (p : TimeParsers) (txn_id : Text) (job : MonitoringJob) (vn : Text) {xs ys : List CallRecord}
    → Perm xs ys
    → let s = process_from p txn_id job vn empty_tally xs in
      let t = process_from p txn_id job vn empty_tally ys in
      (s.outcomes ≡ t.outcomes)
      × (s.leg_statuses ≡ t.leg_statuses)
      × (s.leg1_total ≡ t.leg1_total)
      × (s.leg2_total ≡ t.leg2_total)
      × (s.total_duration_sec ≡ t.total_duration_sec)
      × ((l1 l2 : Text) → cell l1 l2 s.leg_status_breakdown ≡ cell l1 l2 t.leg_status_breakdown)
process_from-perm p txn_id job vn {xs} {ys} q = (
  outcomes-process_from p txn_id job vn empty_tally xs
      ∙ ap (λ o. add_outcomes o empty_tally.outcomes)
          (total-perm add_outcomes add_outcomes_assoc add_outcomes_comm (outcome_of vn)
            (sum_outcomes vn) (sum_outcomes-cons vn) Outcomes-set q)
      ∙ sym (outcomes-process_from p txn_id job vn empty_tally ys),
  leg_statuses-process_from p txn_id job vn empty_tally xs
      ∙ ap (λ l. add_leg_statuses l empty_tally.leg_statuses)
          (total-perm add_leg_statuses add_leg_statuses_assoc add_leg_statuses_comm leg_statuses_of
            sum_leg_statuses sum_leg_statuses-cons LegStatuses-set q)
      ∙ sym (leg_statuses-process_from p txn_id job vn empty_tally ys),
  omega (
    arith,
    legs-process_from p txn_id job vn empty_tally xs,
    legs-process_from p txn_id job vn empty_tally ys,
    count_if-perm (is_first_leg vn) q,
  ),
  omega (
    arith,
    legs-process_from p txn_id job vn empty_tally xs,
    legs-process_from p txn_id job vn empty_tally ys,
    count_if-perm (is_second_leg vn) q,
  ),
  durations-process_from p txn_id job vn empty_tally xs
      ∙ ap (λ d. empty_tally.total_duration_sec +ℤ d)
          (total-perm ◌+ℤ◌ +ℤ_assoc +ℤ_comm (λ r. r.duration) sum_durations sum_durations-cons ℤ-set
            q)
      ∙ sym (durations-process_from p txn_id job vn empty_tally ys),
  λ l1 l2. omega (
    arith,
    cell-process_from p txn_id job vn l1 l2 empty_tally xs,
    cell-process_from p txn_id job vn l1 l2 empty_tally ys,
    count_if-perm (has_statuses l1 l2) q,
  ),
)
