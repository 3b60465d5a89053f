-- ===== src/Handlers/Reprocess/Stored.antt =====
-- The fallback of a reprocessing (callLogToRecord of internal/handlers/reprocess.go): records that
-- come back from the call_logs rows that the engine made of them, by way of the table.
use exotel_monitoring_platfo.Prelude.{
  Bool, true, All, ℕ, ◌≡◌, refl, ap, sym, ◌∙◌, false, List, [], ◌∷◌, map, Option, none, some, Text,
  is_empty,
}
use exotel_monitoring_platfo.Models.{Time, MonitoringJob, CallLog}
use exotel_monitoring_platfo.Handlers.Paging.{order_by}
use exotel_monitoring_platfo.Repository.CallLogs.{
  is_of_day, start_second, save_log_rows, get_call_logs_for_reprocess,
}
use exotel_monitoring_platfo.Repository.CallLogs.Kept.{AreNew, order_by-map, saved_and_read}
use exotel_monitoring_platfo.Exotel.Types.{CallRecord}
use exotel_monitoring_platfo.Metrics.Legs.{classify_leg}
use exotel_monitoring_platfo.Metrics.Times.{
  TimeParsers, hour_of, parse_exotel_time, parsed, start_of, count_hour, bump_hour,
}
use exotel_monitoring_platfo.Metrics.Summary.Loop.{call_log_of}
use exotel_monitoring_platfo.Metrics.Summary.Rates.{CallSummary}
use exotel_monitoring_platfo.Metrics.Summary.Panel.{summary}
use exotel_monitoring_platfo.Metrics.Summary.Logs.{
  CountedAlike, figures_of, figures_alike, call_logs-summary,
}
use exotel_monitoring_platfo.Effects.{Env}
use exotel_monitoring_platfo.Handlers.Rebuild.{bare_job, rebuilt_snapshot, rebuilt_summary}
use exotel_monitoring_platfo.Handlers.Reprocess.{call_log_to_record}

-- What package time promises of the layout "2006-01-02 15:04:05": a formatted time is not empty and
-- reads as a time of the same hour.
pub record ReadsBack (p : TimeParsers) (format : Time → Text) : Type 0 where
  pub not_empty : (t : Time) → is_empty (format t) ≡ false
  pub reads :
      (t : Time) → (t' : Time) × (p.bare_ist (format t) ≡ some t') × (hour_of t' ≡ hour_of t)

module _ (p : TimeParsers) (format : Time → Text) (back : ReadsBack p format) where
  start_text : Option Time → Text
  start_text o = elim o [ none ↦ [] | some t ↦ format t ]

  parsed_as : (s : Text) (t : Time) → p.bare_ist s ≡ some t → parsed p s ≡ some t
  unfolding parsed parse_exotel_time
  parsed_as s t e = rw (e, parse_exotel_time)

  hour_back :
      (o : Option Time) (dist : List ℕ)
      → count_hour o dist ≡ count_hour (start_of p (start_text o) []) dist
  unfolding start_text start_of parsed parse_exotel_time count_hour
  hour_back none dist = refl
  hour_back (some t) dist =
      let (t', reads, same) = back.reads t in
      rw (back.not_empty t, parsed_as (format t) t' reads) (ap (λ h. bump_hour h dist) (sym same))

  stored_alike :
      (txn_id : Text) (job : MonitoringJob) (vn : Text) (r : CallRecord)
      → CountedAlike p vn r (call_log_to_record format (call_log_of p txn_id job vn r))
  unfolding call_log_to_record call_log_of classify_leg start_text
  stored_alike txn_id job vn r = record {
    leg = refl;
    status = refl;
    details = refl;
    duration = refl;
    hour = λ dist. hour_back (start_of p r.start_time r.date_created) dist;
  }

map-map :
    {A B C : Type 0} (f : A → B) (g : B → C) (xs : List A)
    → map g (map f xs) ≡ map (λ x. g (f x)) xs
map-map f g [] = refl
map-map f g (x ∷ xs) = ap (λ rest. g (f x) ∷ rest) (map-map f g xs)

-- the call logs of a run's records
abbrev pub logs_of_run :
    {R : Type 0} → Env R → Text → MonitoringJob → Text → List CallRecord → List CallLog
logs_of_run env txn_id job vn rs =
    (summary env.float env.times env.completed_at txn_id job vn rs).call_logs

module _ {R : Type 0} (env : Env R) (account_id exophone_id : ℕ) where
  rebuilt_snapshot-figures :
      (day : ℕ) (s s' : CallSummary R)
      → figures_of s ≡ figures_of s'
      → rebuilt_snapshot env account_id exophone_id day s
        ≡ rebuilt_snapshot env account_id exophone_id day s'
  unfolding rebuilt_snapshot figures_of
  rebuilt_snapshot-figures day s s' e =
      ap (λ u. rebuilt_snapshot env account_id exophone_id day u) e

  -- records that were made into call logs and back make the same row
  row_of_logs :
      (format : Time → Text) (back : ReadsBack env.times format) (day : ℕ) (txn_id txn_id' : Text)
      (job : MonitoringJob) (vn : Text) (rs : List CallRecord)
      → rebuilt_snapshot env account_id exophone_id day (
          rebuilt_summary env account_id exophone_id txn_id' vn
            (map (call_log_to_record format) (map (call_log_of env.times txn_id job vn) rs)))
        ≡ rebuilt_snapshot env account_id exophone_id day
            (rebuilt_summary env account_id exophone_id txn_id' vn rs)
  unfolding rebuilt_summary
  row_of_logs format back day txn_id txn_id' job vn rs = rebuilt_snapshot-figures day _ _ (
      ap (λ xs. figures_of (rebuilt_summary env account_id exophone_id txn_id' vn xs))
        (map-map (call_log_of env.times txn_id job vn) (call_log_to_record format) rs)
      ∙ sym (
          figures_alike env.times vn txn_id' txn_id' (bare_job account_id exophone_id)
            (bare_job account_id exophone_id) env.float env.completed_at env.completed_at
            (λ r. call_log_to_record format (call_log_of env.times txn_id job vn r))
            (stored_alike env.times format back txn_id job vn) rs))

  -- A run's records are saved as rows of call_logs, by the INSERT IGNORE of each batch, none of which
  -- fails. No row of the table has the exophone and the sid of one of them, nor have two of them; the
  -- table has no row of the exophone that started on the day, and they all are of the exophone and
  -- started on it; package time reads a formatted start as a time of the same hour. Then all are saved,
  -- and the rows that the fallback reads of the exophone and the day make the same snapshot, in every
  -- column, as the records themselves in the order of their starts.
  pub rebuilt_from_logs :
      (format : Time → Text) (back : ReadsBack env.times format) (second_of : Time → ℕ)
      (fails : ℕ → Bool) (day : ℕ) (txn_id txn_id' : Text) (job : MonitoringJob) (vn : Text)
      (rs : List CallRecord) (table : List CallLog)
      → ((k : ℕ) → fails k ≡ false)
      → AreNew table (logs_of_run env txn_id job vn rs)
      → All (λ log. is_of_day second_of exophone_id day log ≡ false) table
      → All
          (λ log. is_of_day second_of exophone_id day log ≡ true)
          (logs_of_run env txn_id job vn rs)
      → let (saved, later) = save_log_rows fails (logs_of_run env txn_id job vn rs) table in
        let found = get_call_logs_for_reprocess second_of exophone_id day later in
        (saved ≡ true)
        × (rebuilt_snapshot env account_id exophone_id day (
              rebuilt_summary env account_id exophone_id txn_id' vn
                (map (call_log_to_record format) found))
            ≡ rebuilt_snapshot env account_id exophone_id day (
                rebuilt_summary env account_id exophone_id txn_id' vn (
                  order_by
                    (λ (r : CallRecord).
                      start_second second_of (start_of env.times r.start_time r.date_created))
                    rs)))
  unfolding call_log_of
  rebuilt_from_logs format back second_of fails day txn_id txn_id' job vn rs table works new empty
        ours =
      let logs = logs_of_run env txn_id job vn rs in
      let f = call_log_of env.times txn_id job vn in
      let start : CallLog → ℕ = λ log. start_second second_of log.start_time in
      let (saved, read) =
        saved_and_read second_of fails works exophone_id day logs table new empty ours in
      let sorted =
        order_by
          (λ (r : CallRecord).
            start_second second_of (start_of env.times r.start_time r.date_created))
          rs in
      let same =
        read
        ∙ ap (order_by start)
            (call_logs-summary env.float env.times env.completed_at txn_id job vn rs)
        ∙ order_by-map f start rs in
      (
        saved,
        ap
              (λ rows. rebuilt_snapshot env account_id exophone_id day (
                rebuilt_summary env account_id exophone_id txn_id' vn
                  (map (call_log_to_record format) rows)))
              same
            ∙ row_of_logs format back day txn_id txn_id' job vn sorted,
      )
