-- ===== src/Handlers/Backfill/Whole.antt =====
-- What a backfill (internal/handlers/backfill.go) has done when it ends, on every branch.
use exotel_monitoring_platfo.Prelude.{
  ℕ, ◌≡◌, refl, ap, sym, ◌∙◌, Bool, true, inl, inr, Bool-cases, Option, none, some, Text, length,
}
use exotel_monitoring_platfo.Models.{Failure, Exophone, Account, MonitoringJob}
use exotel_monitoring_platfo.Exotel.Types.{CallsResponse}
use exotel_monitoring_platfo.Exotel.Http.{is_success}
use exotel_monitoring_platfo.Exotel.Calls.{FetchCallsResult, CallsApi, fetch_calls}
use exotel_monitoring_platfo.Exotel.Pages.{records_of, fetch_calls_whole}
use exotel_monitoring_platfo.Exotel.Answered.{fetch_calls-response}
use exotel_monitoring_platfo.Metrics.Summary.Panel.{summary_total}
use exotel_monitoring_platfo.Cache.Dedup.{add_call_sids}
use exotel_monitoring_platfo.Cache.Once.{sids_of}
use exotel_monitoring_platfo.Effects.{Env, Credentials}
use exotel_monitoring_platfo.Handlers.Rebuild.{Stores, bare_job, rebuilt_summary, refresh_rebuilt}
use exotel_monitoring_platfo.Handlers.Backfill.{
  save_failed, BackfillEnd, backfill_failed, backfill_done, usable_fetch, fetched_records,
  backfill_summary, store_fetched, refresh_fetched, end_of, backfill_fetched, bulk_fetched,
  day_start, day_end, run_backfill, run_bulk_task, backfill_txn_id,
}

fetched_records-response :
    (r : FetchCallsResult) (page : CallsResponse)
    → r.response ≡ some page
    → fetched_records r ≡ page.result
unfolding fetched_records
fetched_records-response r page e = rw (e, fetched_records)

module _ {R : Type 0} (env : Env R) where
  -- What holds of a backfill of the day that `api` serves. One that is done has fetched every page
  -- without an error, has counted the records of all saved pages, and has registered their sids;
  -- one that could not save the row has registered none, and one that the vendor or the account
  -- failed has left everything as it was.
  pub IsWholeDay : CallsApi → Stores R → BackfillEnd R → Stores R → Type 0
  IsWholeDay api st (backfill_done total answer pages) st' =
      (r : FetchCallsResult) × (fetch_calls api ≡ some (r, none))
      × (total ≡ length (records_of api r.page_bodies))
      × (pages ≡ length r.page_bodies)
      × (st'.sids ≡ (add_call_sids env.redis st.sids (sids_of (records_of api r.page_bodies))).1)
  IsWholeDay api st (backfill_failed save_failed) st' = st'.sids ≡ st.sids
  IsWholeDay api st (backfill_failed other) st' = st' ≡ st

  -- What holds of a task of the bulk backfill: as of a backfill, but no task ends for a row that could
  -- not be saved, as the error of the save is not looked at.
  pub IsTaskDay : CallsApi → Stores R → BackfillEnd R → Stores R → Type 0
  IsTaskDay api st (backfill_done total answer pages) st' =
      IsWholeDay api st (backfill_done total answer pages) st'
  IsTaskDay api st (backfill_failed save_failed) st' = ⊥
  IsTaskDay api st (backfill_failed other) st' = st' ≡ st

  module _ (calls_job : ℕ → Option MonitoringJob) (ep : Exophone) (acc : Account) (date : Text)
      (snap_date : ℕ) (skip_logs : Bool) where
    -- what the pages of a usable fetch make of the end
    done_whole :
        (api : CallsApi) (r : FetchCallsResult) (st st' : Stores R)
        → fetch_calls api ≡ some (r, none)
        → is_success r.http_status ≡ true
        → st'.sids ≡ (add_call_sids env.redis st.sids (sids_of (fetched_records r))).1
        → IsWholeDay api st (end_of env calls_job ep acc date snap_date skip_logs r) st'
    unfolding IsWholeDay end_of backfill_summary rebuilt_summary
    done_whole api r st st' fetched ok sids =
        let (page, found) = fetch_calls-response api r fetched ok in
        let (records, bodies, no_error) = fetch_calls_whole api r none page fetched found in
        let same = fetched_records-response r page found ∙ records in
        (
          r,
          fetched,
          summary_total env.float env.times env.completed_at (backfill_txn_id ep.id date)
                (bare_job acc.id ep.id) ep.exophone_number (fetched_records r)
              ∙ ap length same,
          sym bodies,
          sids ∙ ap (λ rs. (add_call_sids env.redis st.sids (sids_of rs)).1) same,
        )

    abbrev Ends : CallsApi → Stores R → BackfillEnd R × Stores R → Type 0
    Ends api st (e, st') = IsWholeDay api st e st'

    abbrev TaskEnds : CallsApi → Stores R → BackfillEnd R × Stores R → Type 0
    TaskEnds api st (e, st') = IsTaskDay api st e st'

    -- the stores behind a fetch whose row was tried to be saved
    abbrev after : FetchCallsResult → Stores R → Stores R
    after r st =
        refresh_fetched env calls_job ep acc date snap_date skip_logs r
          (store_fetched env calls_job ep acc date snap_date skip_logs r st.world).1 st

    backfill_usable :
        (api : CallsApi) (o : Option (FetchCallsResult × Option Failure)) (st : Stores R)
        → fetch_calls api ≡ o
        → Ends api st
            (backfill_fetched env calls_job ep acc date snap_date skip_logs (usable_fetch o) st)
    unfolding usable_fetch backfill_fetched IsWholeDay refresh_fetched refresh_rebuilt
    backfill_usable api none st e = refl
    backfill_usable api (some (r, some failure)) st e = refl
    backfill_usable api (some (r, none)) st e = elim (Bool-cases (is_success r.http_status)) [
      | inr bad ↦ rw (bad, usable_fetch) refl
      | inl ok ↦
          elim (Bool-cases
            (store_fetched env calls_job ep acc date snap_date skip_logs r st.world).0) [
              | inl saved ↦
                  rw (ok, saved, usable_fetch, backfill_fetched)
                    (done_whole api r st (after r st) e ok refl)
              | inr lost ↦ rw (ok, lost, usable_fetch, backfill_fetched) refl
            ]
    ]

    bulk_usable :
        (api : CallsApi) (o : Option (FetchCallsResult × Option Failure)) (st : Stores R)
        → fetch_calls api ≡ o
        → TaskEnds api st
            (bulk_fetched env calls_job ep acc date snap_date skip_logs (usable_fetch o) st)
    unfolding usable_fetch bulk_fetched IsWholeDay IsTaskDay end_of refresh_fetched refresh_rebuilt
    bulk_usable api none st e = refl
    bulk_usable api (some (r, some failure)) st e = refl
    bulk_usable api (some (r, none)) st e = elim (Bool-cases (is_success r.http_status)) [
      | inr bad ↦ rw (bad, usable_fetch) refl
      | inl ok ↦ rw (ok, usable_fetch) (done_whole api r st (after r st) e ok refl)
    ]

    -- A backfill of a day always ends. One that is done has fetched every page without an error, has
    -- counted the records of all saved pages and registered their sids; one whose row could not be
    -- saved has registered none; and one that the vendor failed has left everything as it was. A task
    -- of the bulk backfill that is done, which it also is where its row could not be saved, has fetched
    -- every page, counted the records and registered their sids in the same way; one that failed has
    -- left everything as it was, and none fails because its row could not be saved.
    pub backfill_whole :
        (creds : Credentials) (st : Stores R)
        → let api =
            env.calls_api creds ep.exophone_number (day_start snap_date) (day_end snap_date) 0 in
          let (single, st1) = run_backfill env calls_job ep acc date snap_date skip_logs creds st in
          let (task, st2) = run_bulk_task env calls_job ep acc date snap_date skip_logs creds st in
          IsWholeDay api st single st1 × IsTaskDay api st task st2
    unfolding run_backfill run_bulk_task
    backfill_whole creds st =
        let api =
          env.calls_api creds ep.exophone_number (day_start snap_date) (day_end snap_date) 0 in
        (backfill_usable api (fetch_calls api) st refl, bulk_usable api (fetch_calls api) st refl)
