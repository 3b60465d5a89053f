-- ===== src/Handlers/Reprocess/Live.antt =====
-- The row that a reprocessing writes against the row that a day of live runs leaves: executeCalls of
-- internal/workers/job_worker.go with AccumulateCallMetrics of internal/snapshots/generator.go, and
-- ReprocessExophoneSnapshot of internal/handlers/reprocess.go.
use mathlib.Core.List.{append-nil, append_assoc}
use exotel_monitoring_platfo.Prelude.{
  ℕ, ◌<◌, ◌≡◌, refl, ap, sym, subst, ◌∙◌, inl, inr, Bool-cases, List, [], ◌∷◌, ◌++◌, map, Option,
  none, some, Text, length, ◌==◌, ==_iff, arith,
}
use exotel_monitoring_platfo.Models.{Instant, MonitoringJob, CallMetricsSnapshot}
use exotel_monitoring_platfo.Exotel.Types.{CallRecord, CallsResponse}
use exotel_monitoring_platfo.Metrics.Summary.Rates.{CallSummary, process_call_records, unrated}
use exotel_monitoring_platfo.Metrics.Summary.Loop.{empty_tally, process_from}
use exotel_monitoring_platfo.Metrics.Summary.LegSums.{add_leg_statuses}
use exotel_monitoring_platfo.Metrics.Summary.Panel.{summary, summary_total}
use exotel_monitoring_platfo.Metrics.Summary.Logs.{without_logs, figures_of, figures_same}
use exotel_monitoring_platfo.Metrics.Summary.Append.{Adds, summary-Adds}
use exotel_monitoring_platfo.Snapshots.Accumulate.{
  new_snapshot, add_counts, add_summary, accumulate_call_metrics, ist_day,
}
use exotel_monitoring_platfo.Snapshots.Batches.{SameCounts, counts-after}
use exotel_monitoring_platfo.Snapshots.Rows.{base_row, accumulate_none, accumulate_some}
use exotel_monitoring_platfo.Cache.Dedup.{SidSet, up, filter_new_records}
use exotel_monitoring_platfo.Cache.Once.{flagged, passed, fetched, passed_as_one}
use exotel_monitoring_platfo.Effects.{Env}
use exotel_monitoring_platfo.Handlers.Rebuild.{bare_job, rebuilt_snapshot, rebuilt_summary}
use exotel_monitoring_platfo.Handlers.Reprocess.{gather_pages, nothing_gathered}
use exotel_monitoring_platfo.Handlers.Reprocess.Unique.{vn_batches, gathered_as_live}

-- What a run of an exophone's CALLS job brings to its row.
pub record Run : Type 0 where
  pub txn_id : Text
  pub now : Instant
  pub records : List CallRecord

abbrev pub batches_of : List Run → List (List CallRecord)
batches_of runs = map (λ (run : Run). run.records) runs

kept_row : {A : Type 0} → Option A → Option A → Option A
kept_row none old = old
kept_row (some row) old = some row

Adds-figures :
    {R : Type 0} (s1 s2 s2' s : CallSummary R)
    → figures_of s2 ≡ figures_of s2'
    → Adds s1 s2' s
    → Adds s1 s2 s
unfolding figures_of without_logs
Adds-figures s1 s2 s2' s e a = grind (arith, e, a)

module _ {R : Type 0} (env : Env R) (job : MonitoringJob) (vn : Text) where
  -- the row that the runs leave, one after the other, with Redis up
  pub live_day : SidSet → List Run → Option (CallMetricsSnapshot R) → Option (CallMetricsSnapshot R)
  unfolding kept_row
  live_day seen [] row = row
  live_day seen (run ∷ runs) row =
      let (kept, seen') = filter_new_records up seen run.records in
      let s = summary env.float env.times run.now run.txn_id job vn kept in
      live_day seen' runs (
        kept_row
          (accumulate_call_metrics env.float env.hours_json env.map_json job.account_id
            job.exophone_id run.now row s)
          row)

  module _ (day : ℕ) where
    abbrev figures : List CallRecord → CallSummary R
    figures rs = rebuilt_summary env job.account_id job.exophone_id [] vn rs

    abbrev rebuilt : List CallRecord → CallMetricsSnapshot R
    rebuilt rs = rebuilt_snapshot env job.account_id job.exophone_id day (figures rs)

    -- The stored row has the counts of the records.
    Matches : Option (CallMetricsSnapshot R) → List CallRecord → Type 0
    Matches none acc = acc ≡ []
    Matches (some row) acc = SameCounts row (rebuilt acc)

    new_row-SameCounts :
        (today : ℕ)
        → SameCounts (new_snapshot env.float job.account_id job.exophone_id today) (rebuilt [])
    unfolding new_snapshot rebuilt_snapshot rebuilt_summary process_call_records empty_tally
        process_from unrated
    new_row-SameCounts today = ground arith

    abbrev after : CallSummary R → CallMetricsSnapshot R → CallMetricsSnapshot R
    after s row = add_summary env.float env.hours_json env.map_json s row

    -- Adding a summary to a row with the counts of the records before.
    add_summary-SameCounts :
        (s1 s2 s : CallSummary R) (row : CallMetricsSnapshot R)
        → Adds s1 s2 s
        → SameCounts row (rebuilt_snapshot env job.account_id job.exophone_id day s1)
        → SameCounts (after s2 row) (rebuilt_snapshot env job.account_id job.exophone_id day s)
    unfolding add_counts add_leg_statuses rebuilt_snapshot
    add_summary-SameCounts s1 s2 s row a h =
        grind (arith, counts-after env.float env.hours_json env.map_json s2 row)

    -- Neither the transaction nor the job shows in the counts that a summary adds.
    any_transaction :
        (now : Instant) (txn_id : Text) (rs : List CallRecord)
        → figures_of (summary env.float env.times now txn_id job vn rs) ≡ figures_of (figures rs)
    unfolding rebuilt_summary
    any_transaction now txn_id rs =
        figures_same env.times vn txn_id [] job (bare_job job.account_id job.exophone_id) env.float
          now env.completed_at rs

    abbrev base : Instant → Option (CallMetricsSnapshot R) → CallMetricsSnapshot R
    base now row =
        base_row env.float env.hours_json env.map_json job.account_id job.exophone_id now row

    base-SameCounts :
        (now : Instant) (row : Option (CallMetricsSnapshot R)) (acc : List CallRecord)
        → Matches row acc
        → SameCounts (base now row) (rebuilt acc)
    unfolding Matches
    base-SameCounts now none acc e =
        subst (λ xs. SameCounts (base now none) (rebuilt xs)) (sym e)
          (new_row-SameCounts (ist_day now))
    base-SameCounts now (some row) acc h = h

    accumulated :
        Instant → Option (CallMetricsSnapshot R) → CallSummary R → Option (CallMetricsSnapshot R)
    accumulated now row s =
        accumulate_call_metrics env.float env.hours_json env.map_json job.account_id job.exophone_id
          now row s

    no_records : (rs : List CallRecord) → length rs ≡ 0 → rs ≡ []
    no_records [] e = refl
    no_records (r ∷ rs) e = absurd (omega (arith, e))

    run-Matches :
        (now : Instant) (txn_id : Text) (row : Option (CallMetricsSnapshot R))
        (acc kept : List CallRecord)
        → Matches row acc
        → Matches
            (kept_row
              (accumulated now row (summary env.float env.times now txn_id job vn kept))
              row)
            (acc ++ kept)
    unfolding Matches kept_row rebuilt_summary accumulated
    run-Matches now txn_id row acc kept h =
        let s = summary env.float env.times now txn_id job vn kept in
        let total = summary_total env.float env.times now txn_id job vn kept in
        elim (Bool-cases (s.total == 0)) [
          | inl e ↦
              subst (λ o. Matches (kept_row o row) (acc ++ kept))
                (sym (
                  accumulate_none env.float env.hours_json env.map_json job.account_id
                    job.exophone_id now s row e))
                (subst (Matches row)
                  (sym (
                    ap (λ xs. acc ++ xs) (no_records kept (sym total ∙ (==_iff s.total 0).0 e))
                    ∙ append-nil acc))
                  h)
          | inr e ↦
              subst (λ o. Matches (kept_row o row) (acc ++ kept))
                (sym (
                  accumulate_some env.float env.hours_json env.map_json job.account_id
                    job.exophone_id now s row e))
                (add_summary-SameCounts (figures acc) s (figures (acc ++ kept)) (base now row)
                  (Adds-figures (figures acc) s (figures kept) (figures (acc ++ kept))
                    (any_transaction now txn_id kept)
                    (summary-Adds env.float env.times env.completed_at []
                      (bare_job job.account_id job.exophone_id) vn acc kept))
                  (base-SameCounts now row acc h))
        ]

    live_day-Matches :
        (runs : List Run) (seen : SidSet) (row : Option (CallMetricsSnapshot R))
        (acc : List CallRecord)
        → Matches row acc
        → Matches (live_day seen runs row) (acc ++ passed seen (batches_of runs))
    unfolding live_day passed accumulated
    live_day-Matches [] seen row acc h = subst (Matches row) (sym (append-nil acc)) h
    live_day-Matches (run ∷ runs) seen row acc h =
        let out = filter_new_records up seen run.records in
        let all = append_assoc acc out.0 (passed out.1 (batches_of runs)) in
        subst (Matches _) all (
          live_day-Matches runs out.1 _ (acc ++ out.0)
            (run-Matches run.now run.txn_id row acc out.0 h))

    matched :
        (row : Option (CallMetricsSnapshot R)) (acc : List CallRecord)
        → 0 < length acc
        → Matches row acc
        → (snap : CallMetricsSnapshot R) × (row ≡ some snap) × SameCounts snap (rebuilt acc)
    unfolding Matches
    matched none acc some_records h = absurd (omega (arith, some_records, ap length h))
    matched (some snap) acc some_records h = (snap, refl, h)

    -- Where the saved pages that parse hold, cut down to the number and in order, the records that
    -- a day's live runs fetched, however the runs were cut into pages, and there is any, the runs
    -- leave a row, and a reprocessing of the pages writes one with the same counts, ConnectedCalls
    -- left out: the runs each accumulated their new records, the reprocessing counts all at once.
    pub reprocessed_as_live :
        (runs : List Run) (vn_bare : Text) (pages : List (Option CallsResponse))
        → fetched (batches_of runs) ≡ fetched (vn_batches vn_bare pages)
        → 0 < length (gather_pages vn_bare pages nothing_gathered).all_records
        → (snap : CallMetricsSnapshot R) × (live_day [] runs none ≡ some snap)
          × SameCounts snap (rebuilt (gather_pages vn_bare pages nothing_gathered).all_records)
    unfolding Matches
    reprocessed_as_live runs vn_bare pages same some_records =
        let gathered = (gather_pages vn_bare pages nothing_gathered).all_records in
        let all : passed [] (batches_of runs) ≡ gathered =
          passed_as_one [] (batches_of runs)
          ∙ ap (flagged []) same
          ∙ sym (passed_as_one [] (vn_batches vn_bare pages))
          ∙ sym (gathered_as_live vn_bare pages).0 in
        matched (live_day [] runs none) gathered some_records
          (subst (Matches (live_day [] runs none)) all (live_day-Matches runs [] none [] refl))
