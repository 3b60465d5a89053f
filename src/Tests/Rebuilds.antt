-- ===== src/Tests/Rebuilds.antt =====
-- Reprocessings and backfills of one exophone's day, and a bulk backfill of one task.
use exotel_monitoring_platfo.Prelude.{
  ◌*◌, true, All, ℕ, ◌≡◌, refl, false, List, [], ◌∷◌, map, Option, none, some, Text, codes, one_if,
  count_if, arith,
}
use exotel_monitoring_platfo.Models.{CallLog, Time, at, calls, CallMetricsSnapshot, MonitoringJob}
use exotel_monitoring_platfo.Exotel.Types.{CallsResponse, CallRecord}
use exotel_monitoring_platfo.Utils.Phone.{normalize_phone}
use exotel_monitoring_platfo.Metrics.Times.{TimeParsers, hour_of, start_of}
use exotel_monitoring_platfo.Snapshots.Batches.{SameCounts}
use exotel_monitoring_platfo.Cache.Dedup.{up, filter_new_records}
use exotel_monitoring_platfo.Cache.Once.{passed, fetched}
use exotel_monitoring_platfo.Effects.{Env, Credentials, attempt_write, write_anyway}
use exotel_monitoring_platfo.Handlers.Rebuild.{
  Stores, rebuilt_snapshot, rebuilt_summary, save_rebuilt_logs,
}
use exotel_monitoring_platfo.Handlers.Reprocess.{
  belongs, gather_pages, nothing_gathered, call_log_to_record, ReprocessQueries, Report,
  from_job_responses, rebuild, reprocess_exophone_snapshot,
}
use exotel_monitoring_platfo.Handlers.Reprocess.Unique.{vn_batches, gathered_as_live}
use exotel_monitoring_platfo.Handlers.Reprocess.Stored.{ReadsBack, logs_of_run, rebuilt_from_logs}
use exotel_monitoring_platfo.Repository.CallLogs.{
  same_call, is_of_day, start_second, save_log_rows, get_call_logs_for_reprocess,
}
use exotel_monitoring_platfo.Repository.CallLogs.Kept.{AreNew}
use exotel_monitoring_platfo.Handlers.Paging.{order_by}
use exotel_monitoring_platfo.Metrics.Summary.Loop.{call_log_of, process_record, add_leg2}
use exotel_monitoring_platfo.Metrics.Summary.Rates.{process_call_records}
use exotel_monitoring_platfo.Metrics.Legs.{classify_leg}
use exotel_monitoring_platfo.Handlers.Reprocess.Replies.{
  IsSound, reprocess-IsSound, rebuilt_not_recounted,
}
use exotel_monitoring_platfo.Handlers.Reprocess.Live.{Run, live_day, reprocessed_as_live}
use exotel_monitoring_platfo.Handlers.Backfill.{day_start, day_end, run_backfill, run_bulk_task}
use exotel_monitoring_platfo.Handlers.Backfill.Whole.{IsTaskDay, IsWholeDay, backfill_whole}
use exotel_monitoring_platfo.Handlers.Backfill.Jobs.{
  Goroutine, BackfillQueries, Backfills, shown_running, backfill_exophone_snapshot, requested,
  no_backfills, initial, moved,
}
use exotel_monitoring_platfo.Handlers.Backfill.Jobs.Single.{one_backfill}
use exotel_monitoring_platfo.Handlers.Backfill.Jobs.Tracked.{runs_for}
use exotel_monitoring_platfo.Tests.Fixtures.{
  env, idle_world, account, exophone, vn, job_of, bridged, missed, second, batch,
}

-- two saved pages that share a record, and one that does not parse
abbrev pages : List (Option CallsResponse)
pages =
    some (record { next_page_uri = []; result = bridged ∷ missed ∷ [] })
    ∷ none
    ∷ some (record { next_page_uri = []; result = missed ∷ second ∷ [] })
    ∷ []

gathered_as_live_example :
    ((gather_pages (normalize_phone vn) pages nothing_gathered).all_records
      ≡ passed [] (vn_batches (normalize_phone vn) pages))
    × ((gather_pages (normalize_phone vn) pages nothing_gathered).skipped ≡ 1)
gathered_as_live_example = gathered_as_live (normalize_phone vn) pages

-- the two runs that had fetched the pages
abbrev runs : List Run
runs =
    record { txn_id = codes "TXN-1"; now = 2_000; records = bridged ∷ missed ∷ [] }
    ∷ record { txn_id = codes "TXN-2"; now = 2_500; records = missed ∷ second ∷ [] }
    ∷ []

reprocessed_as_live_example :
    (snap : CallMetricsSnapshot ℕ) × (live_day env (job_of calls) vn [] runs none ≡ some snap)
    × SameCounts snap (
        rebuilt_snapshot env 1 3 0 (
          rebuilt_summary env 1 3 [] vn
            (gather_pages (normalize_phone vn) pages nothing_gathered).all_records))
unfolding vn_batches fetched belongs normalize_phone gather_pages nothing_gathered
reprocessed_as_live_example =
    reprocessed_as_live env (job_of calls) vn 0 runs (normalize_phone vn) pages refl (omega arith)

-- times written and read by their hour
abbrev by_hour : TimeParsers
by_hour = record {
  bare_ist = λ s. elim s [ [] ↦ none | h ∷ rest ↦ some (at 0 h) ];
  rfc3339 = λ s. none;
  rfc1123z = λ s. none;
}

abbrev hour_text : Time → Text
hour_text t = hour_of t ∷ []

by_hour-ReadsBack : ReadsBack by_hour hour_text
by_hour-ReadsBack = record { not_empty = λ t. refl; reads = λ t. (at 0 (hour_of t), refl, refl) }

abbrev hours_env : Env ℕ
hours_env = record env { times = by_hour }

abbrev second_by_hour : Time → ℕ
second_by_hour t = hour_of t * 3_600

-- the second leg of a call is saved behind the first one and has started before it
abbrev two_started : List CallRecord
two_started = record bridged { start_time = 9 ∷ [] } ∷ record second { start_time = 7 ∷ [] } ∷ []

-- a row with the first one's sid, of another exophone
abbrev logged : List CallLog
logged = record (call_log_of by_hour [] (job_of calls) vn bridged) { exophone_id = 5 } ∷ []

rebuilt_from_logs_example :
    let (saved, later) =
      save_log_rows
        (λ k. false)
        (logs_of_run hours_env (codes "TXN-1") (job_of calls) vn two_started)
        logged in
    let found = get_call_logs_for_reprocess second_by_hour 3 0 later in
    (saved ≡ true)
    × (rebuilt_snapshot hours_env 1 3 0 (
          rebuilt_summary hours_env 1 3
            (codes "REPROCESS")
            vn
            (map (call_log_to_record hour_text) found))
        ≡ rebuilt_snapshot hours_env 1 3 0 (
            rebuilt_summary hours_env 1 3 (codes "REPROCESS") vn (
              order_by
                (λ (r : CallRecord).
                  start_second second_by_hour (start_of by_hour r.start_time r.date_created))
                two_started)))
unfolding AreNew same_call is_of_day call_log_of start_of process_call_records process_record
    add_leg2 classify_leg
rebuilt_from_logs_example =
    rebuilt_from_logs hours_env 1 3 hour_text by_hour-ReadsBack second_by_hour (λ k. false) 0
      (codes "TXN-1") (codes "REPROCESS") (job_of calls) vn two_started logged (λ k. refl)
      (refl, (refl, tt)) (refl, tt) (refl, (refl, tt))

abbrev stores : Stores ℕ
stores = record { world = idle_world; sids = codes "s9" ∷ [] }

-- one saved page, and no call logs
abbrev queries : ReprocessQueries
queries = record {
  today = codes "2024-05-01";
  parse_date = λ s. some 19_844;
  exophone_by_id = λ id. some exophone;
  job_responses = λ id date. some (
      record {
        transaction_id = codes "TXN-1";
        response_type = calls;
        http_status = 200;
        raw_response = codes "{}";
      }
      ∷ []);
  call_logs = λ id date. some [];
  unmarshal_page = λ raw. some (record { next_page_uri = []; result = batch });
  format_time = hour_text;
}

reprocess-IsSound_example :
    let (reply, st) = reprocess_exophone_snapshot env queries 3 [] stores in IsSound stores reply st
reprocess-IsSound_example = reprocess-IsSound env queries 3 [] stores

abbrev rebuild_report : Report ℕ
rebuild_report = record {
  source = from_job_responses;
  responses_processed = 1;
  responses_skipped = 0;
  unique_call_records = 4;
  summary = rebuilt_summary env 1 3 (codes "REPROCESS") vn batch;
}

rebuilt_not_recounted_example :
    (filter_new_records up
      (rebuild env queries exophone 19_844 1 from_job_responses 0 batch stores).1.sids
      batch).0
    ≡ []
unfolding rebuild attempt_write save_rebuilt_logs write_anyway
rebuilt_not_recounted_example =
    rebuilt_not_recounted env queries exophone 19_844 1 from_job_responses 0 batch stores
      rebuild_report refl refl

abbrev no_job : ℕ → Option MonitoringJob
no_job id = none

abbrev creds : Credentials
creds = record {
  sid = codes "acme1";
  subdomain = codes "api.in.exotel.com";
  api_key = codes "key";
  api_token = codes "token";
}

backfill_whole_example :
    let api = env.calls_api creds vn (day_start 19_844) (day_end 19_844) 0 in
    let (single, st1) =
      run_backfill env no_job exophone account (codes "2024-05-01") 19_844 false creds stores in
    let (task, st2) =
      run_bulk_task env no_job exophone account (codes "2024-05-01") 19_844 false creds stores in
    IsWholeDay env api stores single st1 × IsTaskDay env api stores task st2
backfill_whole_example =
    backfill_whole env no_job exophone account (codes "2024-05-01") 19_844 false creds stores

abbrev backfill_queries : BackfillQueries
backfill_queries = record {
  today = codes "2024-05-01";
  parse_date = λ s. some 19_844;
  exophone_by_id = λ id. some exophone;
  account_by_id = λ id. some account;
  decrypt = λ s. none;
}

-- after one request
abbrev requested_backfill : Backfills ℕ
requested_backfill =
    (backfill_exophone_snapshot 0 backfill_queries 3 [] [] (no_backfills 0 stores)).1

one_backfill_example :
    (count_if (runs_for (3, codes "2024-05-01")) requested_backfill.goroutines
      ≡ one_if (shown_running 0 (3, codes "2024-05-01") requested_backfill))
    × All
        (λ (g : Goroutine). requested_backfill.jobs g.key ≡ some g.job)
        requested_backfill.goroutines
one_backfill_example =
    one_backfill 0 (3, codes "2024-05-01")
      (moved (no_backfills 0 stores) requested_backfill initial
        (requested backfill_queries 3 [] [] (no_backfills 0 stores)))
