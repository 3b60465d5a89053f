-- ===== src/Tests/Fixtures.antt =====
-- Inputs that the tests share: jobs, call records, and stand-ins for the code that is not modelled.
use exotel_monitoring_platfo.Prelude.{
  if◌then◌else◌, ◌==◌, ℕ, ◌+◌, ◌*◌, ◌/◌, pos, negsuc, false, List, [], ◌∷◌, none, some, Text, codes,
  ltb, leb, Float64, Json,
}
use exotel_monitoring_platfo.Models.{MonitoringJob, JobType, Account, Exophone, at}
use exotel_monitoring_platfo.Exotel.Types.{CallRecord, HeartbeatResponse}
use exotel_monitoring_platfo.Exotel.Http.{broken, answered}
use exotel_monitoring_platfo.Exotel.Calls.{CallsApi}
use exotel_monitoring_platfo.Exotel.Heartbeat.{HeartbeatApi}
use exotel_monitoring_platfo.Metrics.Times.{TimeParsers}
use exotel_monitoring_platfo.Metrics.Breakdown.{Breakdown}
use exotel_monitoring_platfo.Cache.Dedup.{up}
use exotel_monitoring_platfo.Effects.{Env, World}

-- figures rounded down to whole numbers
abbrev pub whole : Float64 ℕ
whole = record {
  of_int = λ n. elim n [ pos m ↦ m | negsuc m ↦ 0 ];
  add = λ a b. a + b;
  mul = λ a b. a * b;
  div = λ a b. a / b;
  ge = λ a b. leb b a;
  gt = λ a b. ltb b a;
}

-- every text is read as ten in the morning, and one with no layout as none
abbrev pub morning : TimeParsers
morning = record {
  bare_ist = λ s. elim s [ [] ↦ none | c ∷ rest ↦ some (at 1_700_000_000 10) ];
  rfc3339 = λ s. none;
  rfc1123z = λ s. none;
}

abbrev pub unreadable : TimeParsers
unreadable = record { bare_ist = λ s. none; rfc3339 = λ s. none; rfc1123z = λ s. none }

abbrev pub hours_json : Json (List ℕ)
hours_json = record { marshal = λ hours. hours; unmarshal = λ s. some s }

abbrev pub map_json : Json Breakdown
map_json = record { marshal = λ m. []; unmarshal = λ s. none }

abbrev pub vn : Text
vn = codes "08047181234"

abbrev pub job_of : JobType → MonitoringJob
job_of t = record {
  id = 7;
  exophone_id = 3;
  account_id = 1;
  job_type = t;
  priority = codes "P1";
  frequency_minutes = 30;
  retry_policy = [];
  next_run_at = 1_000;
  last_run_at = none;
  last_status = none;
  is_active = 1;
  is_deleted = 0;
}

-- a call's record by its sid, parent, status and seconds of conversation
abbrev pub call : Text → Text → Text → ℕ → CallRecord
call sid parent status talked = record {
  sid = sid;
  parent_call_sid = parent;
  from = codes "09876543210";
  to = vn;
  phone_number = vn;
  status = status;
  direction = codes "inbound";
  duration = pos 60;
  start_time = codes "2024-05-01 10:00:00";
  end_time = [];
  date_created = [];
  recording_url = [];
  details = record {
    conversation_duration = pos talked;
    leg1_status = codes "completed";
    leg2_status = codes "no-answer";
  };
}

abbrev pub bridged : CallRecord
bridged = call (codes "s1") [] (codes "completed") 42

abbrev pub missed : CallRecord
missed = call (codes "s2") [] (codes "no-answer") 0

abbrev pub second : CallRecord
second = call (codes "s3") (codes "s1") (codes "completed") 42

abbrev pub dropped : CallRecord
dropped = call (codes "s4") (codes "s1") (codes "completed") 0

abbrev pub batch : List CallRecord
batch = bridged ∷ missed ∷ second ∷ dropped ∷ []

abbrev pub exophone : Exophone
exophone = record {
  id = 3;
  account_id = 1;
  exophone_number = vn;
  status = codes "active";
  priority = codes "P1";
  skip_call_logs = 0;
  is_cron_applicable = 1;
  is_deleted = 0;
}

abbrev pub account : Account
account = record {
  id = 1;
  account_name = codes "Acme";
  sid = codes "acme1";
  api_key = codes "key";
  api_token = codes "token";
  subdomain = codes "api.in.exotel.com";
  is_active = 1;
  is_deleted = 0;
}

-- two pages, the first with a cursor
abbrev pub two_pages : CallsApi
two_pages = record {
  get = λ n after. elim after [
    | [] ↦ answered 100 200 (codes "?one")
    | c ∷ rest ↦ answered 150 200 (codes "two")
  ];
  unmarshal = λ raw. elim raw [
    | [] ↦ none
    | c ∷ rest ↦ some (record {
      next_page_uri = if c == b'?' then c ∷ rest else [];
      result = if c == b'?' then bridged ∷ missed ∷ [] else second ∷ [];
    })
  ];
  query_after = λ query. some query;
}

abbrev pub all_degraded : HeartbeatApi
all_degraded = record {
  get_v2 = broken 10 (codes "timeout");
  get_v1 = answered 80 404 (codes "{}");
  unmarshal_v2 = λ raw. none;
  unmarshal_v1 = λ raw. none;
}

abbrev pub pushed : HeartbeatResponse
pushed = record {
  status_type = codes "WARNING";
  incoming_affected = vn ∷ codes "0801" ∷ vn ∷ [];
  outgoing_affected = codes "0801" ∷ [];
  info = [];
}

abbrev pub env : Env ℕ
env = record {
  float = whole;
  times = morning;
  hours_json = hours_json;
  map_json = map_json;
  write_fails = λ n. false;
  slack_enabled = false;
  slack_reply = λ n. broken 0 [];
  started_at = 2_000;
  window_end = 2_001;
  completed_at = 2_002;
  zone_offset = 0;
  account = some account;
  exophone = some exophone;
  decrypt = λ s. none;
  unmarshal_policy = λ s. none;
  cancelled = λ n. false;
  heartbeat_api = λ creds n. all_degraded;
  calls_api = λ creds number from to n. two_pages;
  streams_reply = λ creds n. broken 5 [];
  unmarshal_streams = λ s. none;
  redis = up;
  sids_today = [];
  snapshot_today = none;
  latest_heartbeat = none;
  latest_streams = none;
  skip_call_logs_write = false;
  high_latency_threshold_ms = 3_000;
}

abbrev pub idle_world : World ℕ
idle_world = record { writes = []; tried = 0 }
