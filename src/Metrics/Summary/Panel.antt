-- ===== src/Metrics/Summary/Panel.antt =====
-- The figures of a whole summary (ProcessCallRecords of internal/metrics/engine.go), counted over
-- the records that it was given.
use exotel_monitoring_platfo.Prelude.{
  ℕ, ◌+◌, ◌-◌, ◌≤◌, ◌≡◌, refl, sym, ap, inl, inr, Bool-cases, ==_iff, Bool, true, false, ◌&&◌, List,
  [], ◌∷◌, Text, if◌then◌else◌, one_if, ltb, ◌==◌, count_if, length, arith, Float64,
}
use exotel_monitoring_platfo.Models.{Leg, leg1, leg2, is_leg1, is_leg2, MonitoringJob, Instant}
use exotel_monitoring_platfo.Exotel.Types.{CallRecord}
use exotel_monitoring_platfo.Metrics.Legs.{classify_leg}
use exotel_monitoring_platfo.Metrics.Times.{TimeParsers}
use exotel_monitoring_platfo.Metrics.Breakdown.{cell}
use exotel_monitoring_platfo.Metrics.Summary.Loop.{Tally, empty_tally, process_from}
use exotel_monitoring_platfo.Metrics.Summary.Rates.{
  CallSummary, correct_connected, summarise, unrated, rate_summary, process_call_records,
}
use exotel_monitoring_platfo.Metrics.Summary.Counts.{
  is_bridged, is_first_leg, is_second_leg, counted, has_statuses, counted-process_from,
  connected-process_from, legs-process_from, cell-process_from,
}

-- A record is of one leg.
pub legs_split :
    (q : CallRecord → Bool) (vn : Text) (rs : List CallRecord)
    → count_if (λ r. q r && is_first_leg vn r) rs + count_if (λ r. q r && is_second_leg vn r) rs
      ≡ count_if q rs
legs_split q vn [] = omega arith
legs_split q vn (r ∷ rs) = ground (arith, legs_split q vn rs, one_leg (q r) (classify_leg r vn))
  where
    one_leg :
        (b : Bool) (leg : Leg) → one_if (b && is_leg1 leg) + one_if (b && is_leg2 leg) ≡ one_if b
    one_leg true leg1 = omega arith
    one_leg true leg2 = omega arith
    one_leg false leg1 = omega arith
    one_leg false leg2 = omega arith

count_and_le :
    (q s : CallRecord → Bool) (rs : List CallRecord) → count_if (λ r. q r && s r) rs ≤ count_if s rs
count_and_le q s [] = omega arith
count_and_le q s (r ∷ rs) = ground (arith, count_and_le q s rs)

correct_connected_without : (t : Tally) → t.leg2_total ≡ 0 → correct_connected t ≡ t
unfolding correct_connected
correct_connected_without t e = rw (e, correct_connected)

-- The tally of the summary is that of the loop, corrected.
summarise-tally :
    {R : Type 0} (float : Float64 R) (n : ℕ) (t : Tally)
    → (n ≡ 0 → t.leg2_total ≡ 0)
    → (summarise float n t).tally ≡ correct_connected t
unfolding summarise rate_summary unrated
summarise-tally float n t h = elim (Bool-cases (n == 0)) [
  | inl e ↦ rw (e, summarise) (sym (correct_connected_without t (h ((==_iff n 0).0 e))))
  | inr e ↦ rw (e, summarise)
]

connected-correct_connected :
    (t : Tally)
    → (correct_connected t).connected
      ≡ (if ltb 0 t.leg2_total then t.connected - t.leg1_connected else t.connected)
unfolding correct_connected
connected-correct_connected t = ground arith

counted-correct_connected :
    (t : Tally)
    → t.leg1_connected ≤ t.connected
    → counted (correct_connected t).outcomes + (if ltb 0 t.leg2_total then t.leg1_connected else 0)
      ≡ counted t.outcomes
unfolding correct_connected
counted-correct_connected t h = ground arith

-- The correction leaves the rest of the tally alone.
totals-correct_connected :
    (t : Tally)
    → ((correct_connected t).leg1_total ≡ t.leg1_total)
      × ((correct_connected t).leg2_total ≡ t.leg2_total)
unfolding correct_connected
totals-correct_connected t = ground arith

breakdown-correct_connected :
    (l1 l2 : Text) (t : Tally)
    → cell l1 l2 (correct_connected t).leg_status_breakdown ≡ cell l1 l2 t.leg_status_breakdown
unfolding correct_connected
breakdown-correct_connected l1 l2 t = ground arith

count_all : {A : Type 0} (rs : List A) → count_if (λ _. true) rs ≡ length rs
count_all [] = refl
count_all (r ∷ rs) = omega (arith, count_all rs)

total-summarise :
    {R : Type 0} (float : Float64 R) (n : ℕ) (t : Tally) → (summarise float n t).total ≡ n
unfolding summarise rate_summary unrated
total-summarise float n t = elim (Bool-cases (n == 0)) [
  | inl e ↦ rw (e, summarise)
  | inr e ↦ rw (e, summarise)
]

no_records : {A : Type 0} (q : A → Bool) (rs : List A) → length rs ≡ 0 → count_if q rs ≡ 0
no_records q [] h = refl
no_records q (r ∷ rs) h = absurd (omega arith)

module _ {R : Type 0} (float : Float64 R) (p : TimeParsers) (now : Instant) (txn_id : Text)
    (job : MonitoringJob) (vn : Text) (rs : List CallRecord) where
  abbrev pub summary : CallSummary R
  summary = (process_call_records float p now txn_id job vn rs).0

  pub summary-tally :
      summary.tally ≡ correct_connected (process_from p txn_id job vn empty_tally rs)
  unfolding process_call_records empty_tally
  summary-tally =
      summarise-tally float (length rs) (process_from p txn_id job vn empty_tally rs) λ e. omega (
        arith,
        legs-process_from p txn_id job vn empty_tally rs,
        no_records (is_second_leg vn) rs e,
      )

  pub summary_total : summary.total ≡ length rs
  unfolding process_call_records
  summary_total = total-summarise float (length rs) (process_from p txn_id job vn empty_tally rs)

  -- Connected is the number of conversations that reached the customer: with second legs among the
  -- records it is that of the completed second legs with a conversation, else that of all records
  -- with one.
  pub connected_exact : summary.connected ≡ (
      if ltb 0 (count_if (is_second_leg vn) rs)
      then count_if (λ r. is_bridged r && is_second_leg vn r) rs
      else count_if is_bridged rs)
  unfolding empty_tally
  connected_exact = ground (
    arith,
    ap (λ (t : Tally). t.connected) summary-tally,
    connected-correct_connected (process_from p txn_id job vn empty_tally rs),
    connected-process_from p txn_id job vn empty_tally rs,
    legs-process_from p txn_id job vn empty_tally rs,
    legs_split is_bridged vn rs,
  )

  -- The eight outcomes of a summary and the conversations of first legs that the correction took
  -- out add up to the number of records: each record is counted once, whatever its status.
  pub outcomes_partition :
      counted summary.outcomes
        + (if ltb 0 (count_if (is_second_leg vn) rs)
            then count_if (λ r. is_bridged r && is_first_leg vn r) rs
            else 0)
      ≡ length rs
  unfolding empty_tally
  outcomes_partition = ground (
    arith,
    ap (λ (t : Tally). counted t.outcomes) summary-tally,
    counted-correct_connected (process_from p txn_id job vn empty_tally rs),
    counted-process_from p txn_id job vn empty_tally rs,
    connected-process_from p txn_id job vn empty_tally rs,
    legs-process_from p txn_id job vn empty_tally rs,
    legs_split is_bridged vn rs,
  )

  -- The total is the number of records, and the two legs' totals count the first and the second
  -- legs and add up to it.
  pub legs_partition :
      (summary.total ≡ length rs)
      × (summary.leg1_total ≡ count_if (is_first_leg vn) rs)
      × (summary.leg2_total ≡ count_if (is_second_leg vn) rs)
      × (summary.leg1_total + summary.leg2_total ≡ summary.total)
  unfolding empty_tally
  legs_partition =
      let first = ap (λ (t : Tally). t.leg1_total) summary-tally in
      let second = ap (λ (t : Tally). t.leg2_total) summary-tally in
      let (one, two) = totals-correct_connected (process_from p txn_id job vn empty_tally rs) in
      let (a, b) = legs-process_from p txn_id job vn empty_tally rs in
      let whole = legs_split (λ _. true) vn rs in
      let all = count_all rs in
      (
        summary_total,
        omega (arith, first, one, a),
        omega (arith, second, two, b),
        ground (arith, summary_total, first, second, one, two, a, b, whole, all),
      )

  -- The breakdown holds for each pair of leg statuses the number of records with that pair.
  pub breakdown_exact :
      (l1 l2 : Text) → cell l1 l2 summary.leg_status_breakdown ≡ count_if (has_statuses l1 l2) rs
  unfolding empty_tally cell
  breakdown_exact l1 l2 = omega (
    arith,
    ap (λ (t : Tally). cell l1 l2 t.leg_status_breakdown) summary-tally,
    breakdown-correct_connected l1 l2 (process_from p txn_id job vn empty_tally rs),
    cell-process_from p txn_id job vn l1 l2 empty_tally rs,
  )
