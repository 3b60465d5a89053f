-- ===== src/Handlers/Reprocess/Replies.antt =====
-- What ReprocessExophoneSnapshot (internal/handlers/reprocess.go) answers and stores, on every branch.
use exotel_monitoring_platfo.Prelude.{
  ℕ, ◌-◌, ◌<◌, ◌≡◌, refl, ap, sym, subst, ◌∙◌, Bool, true, false, not, inl, inr, Bool-cases, List,
  [], ◌∷◌, map, Option, none, some, Text, codes, ◌==◌, length, arith,
}
use exotel_monitoring_platfo.Models.{CallLog, JobResponse, Exophone}
use exotel_monitoring_platfo.Exotel.Types.{CallRecord}
use exotel_monitoring_platfo.Metrics.Summary.Panel.{summary_total}
use exotel_monitoring_platfo.Cache.Dedup.{SidSet, up, add_call_sids, filter_new_records}
use exotel_monitoring_platfo.Cache.Once.{sids_of, add_call_sids_up, registered_never_pass}
use exotel_monitoring_platfo.Effects.{Env, World, attempt_write, upsert_call_metrics_snapshot}
use exotel_monitoring_platfo.Handlers.Rebuild.{
  Stores, bare_job, rebuilt_snapshot, rebuilt_summary, save_rebuilt_logs, refresh_rebuilt,
}
use exotel_monitoring_platfo.Handlers.Reprocess.{
  ReprocessReply, ReprocessQueries, RecordSource, snapshot_not_saved, reprocessed, Report, rebuild,
  from_logs, from_pages, reprocess_responses, reprocess_exophone, reprocess_date,
  reprocess_exophone_snapshot, from_job_responses, from_call_logs, call_log_to_record,
}

-- What holds of a reply and the stores behind it: a report has counted each record, and at least
-- one; where the row was not saved, no sid is registered; every other reply leaves the stores alone.
pub IsSound : {R : Type 0} → Stores R → ReprocessReply R → Stores R → Type 0
IsSound st (reprocessed r) st' = (r.unique_call_records ≡ r.summary.total) × (0 < r.summary.total)
IsSound st snapshot_not_saved st' = st'.sids ≡ st.sids
IsSound st other st' = st' ≡ st

module _ {R : Type 0} (env : Env R) (q : ReprocessQueries) where
  -- the upsert of the row, and what a rebuild makes of its outcome
  abbrev saved_row : Exophone → ℕ → List CallRecord → Stores R → Bool × World R
  saved_row ep snap_date rs st =
      let s = rebuilt_summary env ep.account_id ep.id (codes "REPROCESS") ep.exophone_number rs in
      attempt_write env
        (upsert_call_metrics_snapshot (rebuilt_snapshot env ep.account_id ep.id snap_date s))
        (save_rebuilt_logs env ep.account_id ep.id (not (ep.skip_call_logs == 0)) s.call_logs
          st.world)

  module _ (ep : Exophone) (snap_date checked : ℕ) (source : RecordSource) (skipped : ℕ)
      (rs : List CallRecord) (st : Stores R) where
    report : Report R
    report = record {
      source = source;
      responses_processed = checked - skipped;
      responses_skipped = skipped;
      unique_call_records = length rs;
      summary = rebuilt_summary env ep.account_id ep.id (codes "REPROCESS") ep.exophone_number rs;
    }

    saved :
        (saved_row ep snap_date rs st).0 ≡ true
        → rebuild env q ep snap_date checked source skipped rs st ≡ (
          reprocessed report,
          refresh_rebuilt env ep.account_id ep.id rs
              (record st { world = (saved_row ep snap_date rs st).1 }),
        )
    unfolding rebuild report
    saved e = rw (e, rebuild) refl

    not_saved :
        (saved_row ep snap_date rs st).0 ≡ false
        → rebuild env q ep snap_date checked source skipped rs st
          ≡ (snapshot_not_saved, record st { world = (saved_row ep snap_date rs st).1 })
    unfolding rebuild
    not_saved e = rw (e, rebuild) refl

    total_of_rebuilt : report.summary.total ≡ length rs
    unfolding report rebuilt_summary
    total_of_rebuilt =
        summary_total env.float env.times env.completed_at (codes "REPROCESS")
          (bare_job ep.account_id ep.id) ep.exophone_number rs

    -- Where Redis is up and a rebuild is reported, a live run of the same day that fetches the same
    -- records again lets none of them pass: what was reprocessed is not counted a second time.
    pub rebuilt_not_recounted :
        (r : Report R)
        → env.redis ≡ up
        → (rebuild env q ep snap_date checked source skipped rs st).0 ≡ reprocessed r
        → (filter_new_records up
            (rebuild env q ep snap_date checked source skipped rs st).1.sids
            rs).0
          ≡ []
    unfolding refresh_rebuilt
    rebuilt_not_recounted r redis e = elim (Bool-cases (saved_row ep snap_date rs st).0) [
      | inl ok ↦
          ap (λ (o : ReprocessReply R × Stores R). (filter_new_records up o.1.sids rs).0) (saved ok)
          ∙ ap (λ seen. (filter_new_records up seen rs).0)
              (ap (λ x. (add_call_sids x st.sids (sids_of rs)).1) redis
                ∙ ap (λ (o : List Bool × SidSet). o.1) (add_call_sids_up st.sids (sids_of rs)))
          ∙ registered_never_pass st.sids rs
      | inr bad ↦ absurd (cc (ap (λ (o : ReprocessReply R × Stores R). o.0) (not_saved bad), e))
    ]

    rebuild-IsSound :
        0 < length rs
        → let (reply, st') = rebuild env q ep snap_date checked source skipped rs st in
          IsSound st reply st'
    unfolding IsSound report
    rebuild-IsSound some_records = elim (Bool-cases (saved_row ep snap_date rs st).0) [
      | inl ok ↦
          subst (λ (o : ReprocessReply R × Stores R). IsSound st o.0 o.1) (sym (saved ok))
            (sym total_of_rebuilt, omega (arith, some_records, total_of_rebuilt))
      | inr bad ↦
          subst (λ (o : ReprocessReply R × Stores R). IsSound st o.0 o.1) (sym (not_saved bad)) refl
    ]

  abbrev Sound : Stores R → ReprocessReply R × Stores R → Type 0
  Sound st (reply, st') = IsSound st reply st'

  logs-IsSound :
      (ep : Exophone) (snap_date checked skipped : ℕ) (logs : Option (List CallLog)) (st : Stores R)
      → Sound st (from_logs env q ep snap_date checked skipped logs st)
  unfolding from_logs IsSound
  logs-IsSound ep snap_date checked skipped none st = refl
  logs-IsSound ep snap_date checked skipped (some []) st = refl
  logs-IsSound ep snap_date checked skipped (some (cl ∷ logs)) st =
      rebuild-IsSound ep snap_date checked from_call_logs 0
        (map (call_log_to_record q.format_time) (cl ∷ logs)) st (omega arith)

  pages-IsSound :
      (ep : Exophone) (date : Text) (snap_date checked skipped : ℕ) (rs : List CallRecord)
      (st : Stores R)
      → Sound st (from_pages env q ep date snap_date checked skipped rs st)
  unfolding from_pages
  pages-IsSound ep date snap_date checked skipped [] st =
      logs-IsSound ep snap_date checked skipped (q.call_logs ep.id date) st
  pages-IsSound ep date snap_date checked skipped (r ∷ rs) st =
      rebuild-IsSound ep snap_date checked from_job_responses skipped (r ∷ rs) st (omega arith)

  responses-IsSound :
      (ep : Exophone) (date : Text) (snap_date : ℕ) (responses : Option (List JobResponse))
      (st : Stores R)
      → Sound st (reprocess_responses env q ep date snap_date responses st)
  unfolding reprocess_responses IsSound
  responses-IsSound ep date snap_date none st = refl
  responses-IsSound ep date snap_date (some responses) st = pages-IsSound ep date snap_date _ _ _ st

  exophone-IsSound :
      (date : Text) (snap_date : ℕ) (ep : Option Exophone) (st : Stores R)
      → Sound st (reprocess_exophone env q date snap_date ep st)
  unfolding reprocess_exophone IsSound
  exophone-IsSound date snap_date none st = refl
  exophone-IsSound date snap_date (some ep) st =
      responses-IsSound ep date snap_date (q.job_responses ep.id date) st

  date-IsSound :
      (exophone_id : ℕ) (date : Text) (snap_date : Option ℕ) (st : Stores R)
      → Sound st (reprocess_date env q exophone_id date snap_date st)
  unfolding reprocess_date IsSound
  date-IsSound exophone_id date none st = refl
  date-IsSound exophone_id date (some snap_date) st =
      exophone-IsSound date snap_date (q.exophone_by_id exophone_id) st

  -- Whatever the request and the tables: a reprocessing that is reported has counted each record that
  -- it found, and at least one, so that no row is overwritten with an empty day; where the row could
  -- not be saved no sid is registered; and every refusal, for an id, a date, an exophone that is not
  -- found, an error of a query or a day without data, leaves tables, cache and sids as they were.
  pub reprocess-IsSound :
      (exophone_id : ℕ) (query_date : Text) (st : Stores R)
      → let (reply, st') = reprocess_exophone_snapshot env q exophone_id query_date st in
        IsSound st reply st'
  unfolding reprocess_exophone_snapshot IsSound
  reprocess-IsSound exophone_id query_date st = elim (Bool-cases (exophone_id == 0)) [
    | inl e ↦ rw (e, reprocess_exophone_snapshot) refl
    | inr e ↦ rw (e, reprocess_exophone_snapshot) (date-IsSound exophone_id _ _ st)
  ]
