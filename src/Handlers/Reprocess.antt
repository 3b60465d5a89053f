-- ===== src/Handlers/Reprocess.antt =====
-- ReprocessExophoneSnapshot and callLogToRecord (internal/handlers/reprocess.go). The id is parsed,
-- and an absent date is that of today in the server's zone.
pub mod Unique
pub mod Stored
pub mod Live
pub mod Replies
use exotel_monitoring_platfo.Prelude.{
  ℕ, suc, ◌-◌, Bool, true, false, ◌||◌, List, [], ◌∷◌, ◌++◌, map, Option, none, some, Text, codes,
  text_eq, is_empty, not, if◌then◌else◌, ◌==◌, length,
}
use exotel_monitoring_platfo.Models.{Time, CallLog, JobResponse, Exophone, CallMetricsSnapshot}
use exotel_monitoring_platfo.Exotel.Types.{CallRecord, CallsResponse}
use exotel_monitoring_platfo.Utils.Phone.{normalize_phone}
use exotel_monitoring_platfo.Metrics.Summary.Rates.{CallSummary}
use exotel_monitoring_platfo.Cache.Dedup.{SidSet, contains}
use exotel_monitoring_platfo.Effects.{Env, World, attempt_write, upsert_call_metrics_snapshot}
use exotel_monitoring_platfo.Handlers.Rebuild.{
  Stores, rebuilt_snapshot, rebuilt_summary, save_rebuilt_logs, refresh_rebuilt,
}

-- whether a record involves the number vnBare
unfoldable pub belongs : Text → CallRecord → Bool
unfolding normalize_phone
belongs vn_bare rec =
    is_empty vn_bare
    || text_eq (normalize_phone rec.phone_number) vn_bare
    || text_eq (normalize_phone rec.to) vn_bare
    || text_eq (normalize_phone rec.from) vn_bare

-- the variables of the loop over the pages
pub record Gathered : Type 0 where
  pub seen : SidSet
  pub all_records : List CallRecord
  pub skipped : ℕ

unfoldable pub gather_record : Text → CallRecord → Gathered → Gathered
unfolding belongs
gather_record vn_bare rec g =
    if belongs vn_bare rec
    then if contains g.seen rec.sid
      then g
      else record g { seen = rec.sid ∷ g.seen; all_records = g.all_records ++ rec ∷ [] }
    else g

unfoldable pub gather_records : Text → List CallRecord → Gathered → Gathered
unfolding gather_record
gather_records vn_bare [] g = g
gather_records vn_bare (rec ∷ rs) g = gather_records vn_bare rs (gather_record vn_bare rec g)

-- `none` is a page that does not parse
unfoldable pub gather_page : Text → Option CallsResponse → Gathered → Gathered
unfolding gather_records
gather_page vn_bare none g = record g { skipped = suc g.skipped }
gather_page vn_bare (some cr) g = gather_records vn_bare cr.result g

unfoldable pub gather_pages : Text → List (Option CallsResponse) → Gathered → Gathered
unfolding gather_page
gather_pages vn_bare [] g = g
gather_pages vn_bare (page ∷ pages) g = gather_pages vn_bare pages (gather_page vn_bare page g)

unfoldable pub nothing_gathered : Gathered
nothing_gathered = record { seen = []; all_records = []; skipped = 0 }

-- callLogToRecord; `format` is StartTime.Format("2006-01-02 15:04:05")
unfoldable pub call_log_to_record : (Time → Text) → CallLog → CallRecord
call_log_to_record format cl = record {
  sid = cl.call_sid;
  parent_call_sid = cl.parent_call_sid;
  from = cl.call_from;
  to = cl.call_to;
  phone_number = [];
  status = cl.status;
  direction = cl.direction;
  duration = cl.duration_sec;
  start_time = elim cl.start_time [ none ↦ [] | some t ↦ format t ];
  end_time = [];
  date_created = [];
  recording_url = [];
  details = record {
    conversation_duration = cl.conversation_duration;
    leg1_status = cl.leg1_status;
    leg2_status = cl.leg2_status;
  };
}

pub data RecordSource : Type 0 where
  from_job_responses from_call_logs : RecordSource

pub record Report (R : Type 0) : Type 0 where
  pub source : RecordSource
  pub responses_processed : ℕ
  pub responses_skipped : ℕ
  pub unique_call_records : ℕ
  pub summary : CallSummary R

pub data ReprocessReply (R : Type 0) : Type 0 where
  invalid_id invalid_date exophone_not_found responses_error call_logs_error : ReprocessReply R
  no_data : ℕ → ℕ → ReprocessReply R
  snapshot_not_saved : ReprocessReply R
  reprocessed : Report R → ReprocessReply R

-- What the handler's own queries and parsers find: `none` is an error.
pub record ReprocessQueries : Type 0 where
  pub today : Text
  pub parse_date : Text → Option ℕ
  pub exophone_by_id : ℕ → Option Exophone
  pub job_responses : ℕ → Text → Option (List JobResponse)
  pub call_logs : ℕ → Text → Option (List CallLog)
  pub unmarshal_page : Text → Option CallsResponse
  pub format_time : Time → Text

module _ {R : Type 0} (env : Env R) (q : ReprocessQueries) where
  -- the records that were found and where, with the number of pages that were skipped
  unfoldable pub rebuild :
      Exophone → ℕ → ℕ → RecordSource → ℕ → List CallRecord → Stores R → ReprocessReply R × Stores R
  unfolding rebuilt_summary save_rebuilt_logs rebuilt_snapshot attempt_write refresh_rebuilt
  rebuild ep snap_date checked source skipped rs st =
      let s = rebuilt_summary env ep.account_id ep.id (codes "REPROCESS") ep.exophone_number rs in
      let w1 =
        save_rebuilt_logs env ep.account_id ep.id (not (ep.skip_call_logs == 0)) s.call_logs
          st.world in
      let snap : CallMetricsSnapshot R = rebuilt_snapshot env ep.account_id ep.id snap_date s in
      let (saved, w2) = attempt_write env (upsert_call_metrics_snapshot snap) w1 in
      if saved
      then (
        reprocessed (record {
          source = source;
          responses_processed = checked - skipped;
          responses_skipped = skipped;
          unique_call_records = length rs;
          summary = s;
        }),
        refresh_rebuilt env ep.account_id ep.id rs (record st { world = w2 }),
      )
      else (snapshot_not_saved, record st { world = w2 })

  -- the fallback to the rows of call_logs
  unfoldable pub from_logs :
      Exophone → ℕ → ℕ → ℕ → Option (List CallLog) → Stores R → ReprocessReply R × Stores R
  unfolding rebuild call_log_to_record
  from_logs ep snap_date checked skipped none st = (call_logs_error, st)
  from_logs ep snap_date checked skipped (some []) st = (no_data checked skipped, st)
  from_logs ep snap_date checked skipped (some (cl ∷ logs)) st =
      rebuild ep snap_date checked from_call_logs 0
        (map (call_log_to_record q.format_time) (cl ∷ logs)) st

  -- the records of the pages, or else those of the rows
  unfoldable pub from_pages :
      Exophone → Text → ℕ → ℕ → ℕ → List CallRecord → Stores R → ReprocessReply R × Stores R
  unfolding rebuild from_logs
  from_pages ep date snap_date checked skipped [] st =
      from_logs ep snap_date checked skipped (q.call_logs ep.id date) st
  from_pages ep date snap_date checked skipped (rec ∷ rs) st =
      rebuild ep snap_date checked from_job_responses skipped (rec ∷ rs) st

  abbrev pub pages_of : List JobResponse → List (Option CallsResponse)
  pages_of responses = map (λ (r : JobResponse). q.unmarshal_page r.raw_response) responses

  unfoldable pub reprocess_responses :
      Exophone → Text → ℕ → Option (List JobResponse) → Stores R → ReprocessReply R × Stores R
  unfolding from_pages gather_pages nothing_gathered
  reprocess_responses ep date snap_date none st = (responses_error, st)
  reprocess_responses ep date snap_date (some responses) st =
      let g =
        gather_pages (normalize_phone ep.exophone_number) (pages_of responses) nothing_gathered in
      from_pages ep date snap_date (length responses) g.skipped g.all_records st

  unfoldable pub reprocess_exophone :
      Text → ℕ → Option Exophone → Stores R → ReprocessReply R × Stores R
  unfolding reprocess_responses
  reprocess_exophone date snap_date none st = (exophone_not_found, st)
  reprocess_exophone date snap_date (some ep) st =
      reprocess_responses ep date snap_date (q.job_responses ep.id date) st

  unfoldable pub reprocess_date : ℕ → Text → Option ℕ → Stores R → ReprocessReply R × Stores R
  unfolding reprocess_exophone
  reprocess_date exophone_id date none st = (invalid_date, st)
  reprocess_date exophone_id date (some snap_date) st =
      reprocess_exophone date snap_date (q.exophone_by_id exophone_id) st

  unfoldable pub reprocess_exophone_snapshot : ℕ → Text → Stores R → ReprocessReply R × Stores R
  unfolding reprocess_date
  reprocess_exophone_snapshot exophone_id query_date st =
      let date = if is_empty query_date then q.today else query_date in
      if exophone_id == 0
      then (invalid_id, st)
      else reprocess_date exophone_id date (q.parse_date date) st
