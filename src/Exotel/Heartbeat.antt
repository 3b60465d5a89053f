-- ===== src/Exotel/Heartbeat.antt =====
-- FetchHeartbeat (internal/exotel/heartbeat.go) and FetchActiveStreams (internal/exotel/streams.go).
use exotel_monitoring_platfo.Prelude.{
  ℕ, not, ◌&&◌, ◌||◌, List, [], ◌∷◌, Option, none, some, Text, codes, text_eq, is_empty,
  if◌then◌else◌, ◌==◌,
}
use exotel_monitoring_platfo.Models.{Failure, transport}
use exotel_monitoring_platfo.Exotel.Types.{ExoPhoneData, HeartbeatResponse, ActiveStreamsEntry}
use exotel_monitoring_platfo.Exotel.Http.{Reply, broken, answered, is_success}

pub record FetchHeartbeatResult : Type 0 where
  pub http_status : ℕ
  pub latency_ms : ℕ
  pub response : Option HeartbeatResponse
  pub raw_body : Text

-- The vendor's two endpoints, and json.Unmarshal at vnDetailV2 and at vnDetailV1, the latter as its
-- PhoneNumber and HealthSetting.
pub record HeartbeatApi : Type 0 where
  pub get_v2 : Reply
  pub get_v1 : Reply
  pub unmarshal_v2 : Text → Option ExoPhoneData
  pub unmarshal_v1 : Text → Option (Text × Text)

affected : Text → List Text → List Text → HeartbeatResponse
affected status incoming outgoing = record {
  status_type = status;
  incoming_affected = incoming;
  outgoing_affected = outgoing;
  info = [];
}

-- the response for a connectivity block of the v2 endpoint
unfoldable pub response_v2 : Text → ExoPhoneData → HeartbeatResponse
unfolding affected
response_v2 vn detail =
    let inc_down = text_eq detail.incoming_call.status (codes "major_outage") in
    let out_down = text_eq detail.outgoing_call.status (codes "major_outage") in
    let hb =
      if inc_down && out_down
      then affected (codes "CRITICAL") (vn ∷ []) (vn ∷ [])
      else if inc_down
      then affected (codes "WARNING") (vn ∷ []) []
      else if out_down
      then affected (codes "WARNING") [] (vn ∷ [])
      else affected (codes "OK") [] [] in
    record hb { info = (vn, detail) ∷ [] }

-- the v1 endpoint's 200 for a number: degraded by a HealthSetting other than "" and "0"
unfoldable pub health_v1 : Text → Option (Text × Text) → HeartbeatResponse
unfolding affected
health_v1 vn none = affected (codes "OK") [] []
health_v1 vn (some (phone_number, health_setting)) =
    if not (is_empty phone_number)
      && (not (is_empty health_setting) && not (text_eq health_setting (codes "0")))
    then affected (codes "WARNING") (vn ∷ []) []
    else affected (codes "OK") [] []

-- the switch on the v1 endpoint's status
unfoldable pub response_v1 : HeartbeatApi → Text → ℕ → Text → HeartbeatResponse
unfolding health_v1
response_v1 api vn status raw =
    let vn_mode = not (is_empty vn) in
    if status == 200 && vn_mode
    then health_v1 vn (api.unmarshal_v1 raw)
    else if status == 200
    then affected (codes "OK") [] []
    else if status == 404 && vn_mode
    then affected (codes "CRITICAL") (vn ∷ []) (vn ∷ [])
    else if status == 401 || status == 403
    then affected (codes "CRITICAL") [] []
    else affected (codes "WARNING") [] []

unfoldable pub fetch_v1 : HeartbeatApi → Text → FetchHeartbeatResult × Option Failure
unfolding response_v1
fetch_v1 api vn = elim api.get_v1 [
  | broken ms text ↦ (
    record { http_status = 0; latency_ms = ms; response = none; raw_body = text },
    some (transport text),
  )
  | answered ms status raw ↦ (
    record {
      http_status = status;
      latency_ms = ms;
      response = some (response_v1 api vn status raw);
      raw_body = raw;
    },
    none,
  )
]

-- the v2 attempt: only a 200 whose body parses
unfoldable pub fetch_v2 : HeartbeatApi → Text → Option FetchHeartbeatResult
unfolding response_v2
fetch_v2 api vn = elim api.get_v2 [
  | broken ms text ↦ none
  | answered ms status raw ↦
      if status == 200
      then elim (api.unmarshal_v2 raw) [
        | none ↦ none
        | some detail ↦ some (record {
          http_status = status;
          latency_ms = ms;
          response = some (response_v2 vn detail);
          raw_body = raw;
        })
      ]
      else none
]

unfoldable pub fetch_heartbeat : HeartbeatApi → Text → FetchHeartbeatResult × Option Failure
unfolding fetch_v1 fetch_v2
fetch_heartbeat api vn =
    if is_empty vn
    then fetch_v1 api vn
    else elim (fetch_v2 api vn) [ none ↦ fetch_v1 api vn | some result ↦ (result, none) ]

pub record FetchStreamsResult : Type 0 where
  pub http_status : ℕ
  pub latency_ms : ℕ
  pub response : Option (List ActiveStreamsEntry)
  pub raw_body : Text

-- `reply` is the client's, `unmarshal` json.Unmarshal at ActiveStreamsResponse
unfoldable pub fetch_active_streams :
    Reply → (Text → Option (List ActiveStreamsEntry)) → FetchStreamsResult × Option Failure
fetch_active_streams (broken ms text) unmarshal = (
  record { http_status = 0; latency_ms = ms; response = none; raw_body = text },
  some (transport text),
)
fetch_active_streams (answered ms status raw) unmarshal = (
  record {
    http_status = status;
    latency_ms = ms;
    response = if is_success status then unmarshal raw else none;
    raw_body = raw;
  },
  none,
)
