-- ===== src/Metrics/Summary/Logs.antt =====
-- What the figures of ProcessCallRecords (internal/metrics/engine.go) are made of: neither the ids of
-- the transaction and the job nor the columns that only the call logs hold.
use exotel_monitoring_platfo.Prelude.{
  ℕ, ◌≡◌, refl, ap, sym, ◌∙◌, inl, inr, Bool-cases, List, [], ◌∷◌, map, Text, ltb, ◌==◌, length,
  arith, Float64,
}
use exotel_monitoring_platfo.Models.{MonitoringJob, Instant}
use exotel_monitoring_platfo.Exotel.Types.{CallRecord}
use exotel_monitoring_platfo.Metrics.Legs.{classify_leg}
use exotel_monitoring_platfo.Metrics.Times.{TimeParsers, start_of, count_hour}
use exotel_monitoring_platfo.Metrics.Summary.Loop.{
  Tally, empty_tally, call_log_of, process_record, process_from,
}
use exotel_monitoring_platfo.Metrics.Summary.Rates.{
  CallSummary, correct_connected, summarise, unrated, rate_summary, process_call_records,
}
use exotel_monitoring_platfo.Metrics.Summary.Panel.{summary, summary-tally}
use exotel_monitoring_platfo.Metrics.Summary.Counts.{call_logs-process_from}

unfoldable pub without_logs : Tally → Tally
without_logs t = record t { call_logs = [] }

-- a summary with its call log rows left out
unfoldable pub figures_of : {R : Type 0} → CallSummary R → CallSummary R
unfolding without_logs
figures_of s = record s { tally = without_logs s.tally }

pub length-map : {A B : Type 0} (f : A → B) (xs : List A) → length (map f xs) ≡ length xs
length-map f [] = refl
length-map f (x ∷ xs) = omega (arith, length-map f xs)

map-itself : {A : Type 0} (xs : List A) → map (λ x. x) xs ≡ xs
map-itself [] = refl
map-itself (x ∷ xs) = ap (λ rest. x ∷ rest) (map-itself xs)

correct_connected-without_logs :
    (t : Tally) → without_logs (correct_connected t) ≡ correct_connected (without_logs t)
unfolding correct_connected without_logs
correct_connected-without_logs t = elim (Bool-cases (ltb 0 t.leg2_total)) [
  | inl e ↦ rw (e, correct_connected, without_logs) refl
  | inr e ↦ rw (e, correct_connected, without_logs) refl
]

call_logs-correct_connected : (t : Tally) → (correct_connected t).call_logs ≡ t.call_logs
unfolding correct_connected
call_logs-correct_connected t = elim (Bool-cases (ltb 0 t.leg2_total)) [
  | inl e ↦ rw (e, correct_connected) refl
  | inr e ↦ rw (e, correct_connected) refl
]

-- The figures that are worked out of a tally do not look at its call logs.
figures-summarise :
    {R : Type 0} (float : Float64 R) (n : ℕ) (t : Tally)
    → figures_of (summarise float n t) ≡ figures_of (summarise float n (without_logs t))
unfolding figures_of summarise without_logs unrated rate_summary
figures-summarise float n t = elim (Bool-cases (n == 0)) [
  | inl e ↦ rw (e, summarise) refl
  | inr e ↦
      rw (e, summarise)
        (ap (λ u. figures_of (rate_summary float n u)) (correct_connected-without_logs t))
]

module _ (p : TimeParsers) (vn : Text) where
  -- Two records that the loop counts alike.
  pub record CountedAlike (r r' : CallRecord) : Type 0 where
    pub leg : classify_leg r vn ≡ classify_leg r' vn
    pub status : r.status ≡ r'.status
    pub details : r.details ≡ r'.details
    pub duration : r.duration ≡ r'.duration
    pub hour :
        (dist : List ℕ)
        → count_hour (start_of p r.start_time r.date_created) dist
          ≡ count_hour (start_of p r'.start_time r'.date_created) dist

  module _ (txn_id txn_id' : Text) (job job' : MonitoringJob) where
    without_logs-process_record :
        (r r' : CallRecord) (t t' : Tally)
        → CountedAlike r r'
        → without_logs t ≡ without_logs t'
        → without_logs (process_record p txn_id job vn r t)
          ≡ without_logs (process_record p txn_id' job' vn r' t')
    unfolding without_logs process_record
    without_logs-process_record r r' t t' alike e =
        ap (λ u. without_logs (process_record p txn_id' job' vn r u)) e ∙ same
      where
        same :
            without_logs (process_record p txn_id' job' vn r t')
            ≡ without_logs (process_record p txn_id' job' vn r' t')
        same = rw (
          alike.leg,
          alike.status,
          alike.details,
          alike.duration,
          alike.hour t'.hourly_distribution,
          process_record,
        )

    without_logs-process_from :
        (f : CallRecord → CallRecord) (alike : (r : CallRecord) → CountedAlike r (f r))
        (rs : List CallRecord) (t t' : Tally)
        → without_logs t ≡ without_logs t'
        → without_logs (process_from p txn_id job vn t rs)
          ≡ without_logs (process_from p txn_id' job' vn t' (map f rs))
    unfolding process_from
    without_logs-process_from f alike [] t t' e = e
    without_logs-process_from f alike (r ∷ rs) t t' e =
        without_logs-process_from f alike rs (process_record p txn_id job vn r t)
          (process_record p txn_id' job' vn (f r) t')
          (without_logs-process_record r (f r) t t' (alike r) e)

    -- Records that are counted alike make the same figures, whatever the transaction and the job.
    pub figures_alike :
        {R : Type 0} (float : Float64 R) (now now' : Instant) (f : CallRecord → CallRecord)
        (alike : (r : CallRecord) → CountedAlike r (f r)) (rs : List CallRecord)
        → figures_of (summary float p now txn_id job vn rs)
          ≡ figures_of (summary float p now' txn_id' job' vn (map f rs))
    unfolding process_call_records
    figures_alike float now now' f alike rs =
        figures-summarise float (length rs) (process_from p txn_id job vn empty_tally rs)
        ∙ rw (length-map f rs) (
            ap (λ t. figures_of (summarise float (length rs) t))
              (without_logs-process_from f alike rs empty_tally empty_tally refl))
        ∙ sym (
            figures-summarise float (length (map f rs))
              (process_from p txn_id' job' vn empty_tally (map f rs)))

    alike_itself : (r : CallRecord) → CountedAlike r r
    alike_itself r = record {
      leg = refl;
      status = refl;
      details = refl;
      duration = refl;
      hour = λ dist. refl;
    }

    -- The figures of a batch are the same whatever the transaction and the job.
    pub figures_same :
        {R : Type 0} (float : Float64 R) (now now' : Instant) (rs : List CallRecord)
        → figures_of (summary float p now txn_id job vn rs)
          ≡ figures_of (summary float p now' txn_id' job' vn rs)
    figures_same float now now' rs =
        figures_alike float now now' (λ r. r) alike_itself rs
        ∙ ap (λ xs. figures_of (summary float p now' txn_id' job' vn xs)) (map-itself rs)

module _ {R : Type 0} (float : Float64 R) (p : TimeParsers) (now : Instant) (txn_id : Text)
    (job : MonitoringJob) (vn : Text) (rs : List CallRecord) where
  -- The summary carries a call log row for each record, in order.
  pub call_logs-summary :
      (summary float p now txn_id job vn rs).call_logs ≡ map (call_log_of p txn_id job vn) rs
  unfolding empty_tally
  call_logs-summary =
      ap (λ (t : Tally). t.call_logs) (summary-tally float p now txn_id job vn rs)
      ∙ call_logs-correct_connected (process_from p txn_id job vn empty_tally rs)
      ∙ call_logs-process_from p txn_id job vn empty_tally rs
