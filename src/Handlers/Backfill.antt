-- ===== src/Handlers/Backfill.antt =====
-- The run of a backfill (internal/handlers/backfill.go): a day of an exophone fetched from the vendor
-- and its row overwritten. The day's number counts from the Unix epoch, and is at least 1, so that its
-- midnight in IST is not before the epoch.
pub mod Whole
pub mod Jobs
pub mod Bulk
use exotel_monitoring_platfo.Prelude.{
  ℕ, ◌+◌, ◌-◌, ◌*◌, Bool, true, false, ◌||◌, List, [], ◌∷◌, ◌++◌, map, Option, none, some, Text,
  codes, text_eq, decimal, if◌then◌else◌, ◌==◌,
}
use exotel_monitoring_platfo.Models.{
  Instant, Failure, JobTransaction, Exophone, Account, MonitoringJob, calls, other_type, TxnStatus,
}
use exotel_monitoring_platfo.Exotel.Types.{CallRecord}
use exotel_monitoring_platfo.Exotel.Http.{is_success}
use exotel_monitoring_platfo.Exotel.Calls.{FetchCallsResult, fetch_calls}
use exotel_monitoring_platfo.Metrics.Summary.Rates.{CallSummary}
use exotel_monitoring_platfo.Snapshots.Accumulate.{second, day, ist_offset}
use exotel_monitoring_platfo.Effects.{
  Env, World, Credentials, attempt_write, write_anyway, create_transaction, save_job_response,
  upsert_call_metrics_snapshot,
}
use exotel_monitoring_platfo.Handlers.Rebuild.{
  Stores, rebuilt_snapshot, rebuilt_summary, save_rebuilt_logs, refresh_rebuilt,
}

-- dayStart: midnight in IST
unfoldable pub day_start : ℕ → Instant
day_start snap_date = snap_date * day - ist_offset

-- dayEnd: 23:59:59 in IST
unfoldable pub day_end : ℕ → Instant
unfolding day_start
day_end snap_date = day_start snap_date + 86_399 * second

-- the query skip_call_logs overrides the setting of the exophone
unfoldable pub skips_logs : Exophone → Text → Bool
skips_logs ep query =
    if text_eq query (codes "1") || text_eq query (codes "true")
    then true
    else if text_eq query (codes "0") || text_eq query (codes "false")
    then false
    else ep.skip_call_logs == 1

unfoldable pub backfill_txn_id : ℕ → Text → Text
backfill_txn_id exophone_id date = codes "BACKFILL-" ++ (decimal exophone_id ++ (codes "-" ++ date))

-- what a backfill fails with
pub data BackfillError : Type 0 where
  api_error : ℕ → Option Failure → BackfillError
  save_failed account_not_found : BackfillError

pub data BackfillEnd (R : Type 0) : Type 0 where
  backfill_failed : BackfillError → BackfillEnd R
  backfill_done : (total_calls : ℕ) (answer_rate : R) (pages_hit : ℕ) → BackfillEnd R

-- fetchErr != nil || result == nil || !isHTTPSuccess(result.HTTPStatus), else the result
unfoldable pub usable_fetch :
    Option (FetchCallsResult × Option Failure) → BackfillError × Option FetchCallsResult
unfolding is_success
usable_fetch none = (api_error 0 none, none)
usable_fetch (some (result, some failure)) = (api_error result.http_status (some failure), none)
usable_fetch (some (result, none)) =
    (api_error result.http_status none, if is_success result.http_status then some result else none)

-- result.Response.Result
unfoldable pub fetched_records : FetchCallsResult → List CallRecord
fetched_records result = elim result.response [ none ↦ [] | some page ↦ page.result ]

module _ {R : Type 0} (env : Env R) (calls_job : ℕ → Option MonitoringJob) where
  unfoldable pub backfill_transaction : ℕ → ℕ → Text → ℕ → JobTransaction
  backfill_transaction account_id exophone_id txn_id latency_ms = record {
    transaction_id = txn_id;
    job_id = elim (calls_job exophone_id) [ none ↦ 0 | some job ↦ job.id ];
    account_id = account_id;
    exophone_id = exophone_id;
    job_type = other_type (codes "BACKFILL");
    status = TxnStatus.success;
    api_latency_ms = some latency_ms;
    retry_count = 0;
    error_message = none;
    started_at = env.completed_at;
    completed_at = some env.completed_at;
  }

  unfoldable pub save_fetched_pages : Text → ℕ → List Text → World R → World R
  unfolding write_anyway
  save_fetched_pages txn_id http_status [] w = w
  save_fetched_pages txn_id http_status (raw ∷ bodies) w =
      save_fetched_pages txn_id http_status bodies (
        write_anyway env
          (save_job_response (record {
            transaction_id = txn_id;
            response_type = calls;
            http_status = http_status;
            raw_response = raw;
          }))
          w)

  module _ (ep : Exophone) (acc : Account) (date : Text) (snap_date : ℕ) (skip_logs : Bool) where
    abbrev txn_id : Text
    txn_id = backfill_txn_id ep.id date

    unfoldable pub backfill_summary : FetchCallsResult → CallSummary R
    unfolding rebuilt_summary fetched_records backfill_txn_id
    backfill_summary result =
        rebuilt_summary env acc.id ep.id txn_id ep.exophone_number (fetched_records result)

    -- the transaction, the pages, the call logs and the row; whether the row was saved
    unfoldable pub store_fetched : FetchCallsResult → World R → Bool × World R
    unfolding write_anyway attempt_write backfill_transaction save_fetched_pages backfill_summary
        save_rebuilt_logs rebuilt_snapshot backfill_txn_id
    store_fetched result w =
        let s = backfill_summary result in
        let w1 =
          write_anyway env
            (create_transaction (backfill_transaction acc.id ep.id txn_id result.latency_ms)) w in
        let w2 = save_fetched_pages txn_id result.http_status result.page_bodies w1 in
        let w3 = save_rebuilt_logs env acc.id ep.id skip_logs s.call_logs w2 in
        attempt_write env
          (upsert_call_metrics_snapshot (rebuilt_snapshot env acc.id ep.id snap_date s)) w3

    unfoldable pub refresh_fetched : FetchCallsResult → World R → Stores R → Stores R
    unfolding refresh_rebuilt fetched_records
    refresh_fetched result w st =
        refresh_rebuilt env acc.id ep.id (fetched_records result) (record st { world = w })

    unfoldable pub end_of : FetchCallsResult → BackfillEnd R
    unfolding backfill_summary
    end_of result =
        let s = backfill_summary result in backfill_done s.total s.answer_rate result.pages_fetched

    -- the goroutine of BackfillExophoneSnapshot, which a row that is not saved fails
    unfoldable pub backfill_fetched :
        BackfillError × Option FetchCallsResult → Stores R → BackfillEnd R × Stores R
    unfolding store_fetched refresh_fetched end_of
    backfill_fetched (err, none) st = (backfill_failed err, st)
    backfill_fetched (err, some result) st =
        let (saved, w) = store_fetched result st.world in
        if saved
        then (end_of result, refresh_fetched result w st)
        else (backfill_failed save_failed, record st { world = w })

    -- a task of BulkBackfill, which goes on whether the row was saved or not
    unfoldable pub bulk_fetched :
        BackfillError × Option FetchCallsResult → Stores R → BackfillEnd R × Stores R
    unfolding store_fetched refresh_fetched end_of
    bulk_fetched (err, none) st = (backfill_failed err, st)
    bulk_fetched (err, some result) st =
        let (saved, w) = store_fetched result st.world in
        (end_of result, refresh_fetched result w st)

    abbrev fetch_day : Credentials → Option (FetchCallsResult × Option Failure)
    fetch_day creds =
        fetch_calls
          (env.calls_api creds ep.exophone_number (day_start snap_date) (day_end snap_date) 0)

    unfoldable pub run_backfill : Credentials → Stores R → BackfillEnd R × Stores R
    unfolding backfill_fetched usable_fetch fetch_calls day_start day_end
    run_backfill creds st = backfill_fetched (usable_fetch (fetch_day creds)) st

    unfoldable pub run_bulk_task : Credentials → Stores R → BackfillEnd R × Stores R
    unfolding bulk_fetched usable_fetch fetch_calls day_start day_end
    run_bulk_task creds st = bulk_fetched (usable_fetch (fetch_day creds)) st
