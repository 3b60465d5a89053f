-- ===== src/Handlers/Heartbeat.antt =====
-- ExotelHeartbeat and fireVNAlerts (internal/handlers/webhook.go), the pushed heartbeat. Go visits the
-- keys of a map in any order; here it is that of their insertion. The exophones that a number has are
-- what the query GetExophonesByNumber finds.
use exotel_monitoring_platfo.Prelude.{
  pos, Bool, true, false, ◌&&◌, ◌||◌, not, List, [], ◌∷◌, Option, none, some, Text, codes, text_eq,
  is_empty, if◌then◌else◌, length,
}
use exotel_monitoring_platfo.Models.{
  HeartbeatStatus, healthy, degraded, outage, ExophoneHealthSnapshot, Exophone, Alert, Message,
  exophone_down, critical, slack, open_alert, incoming_pushed, outgoing_pushed,
}
use exotel_monitoring_platfo.Exotel.Types.{HeartbeatResponse, ExoPhoneData, Connectivity, no_one}
use exotel_monitoring_platfo.Effects.{
  Env, World, write_anyway, save_heartbeat_metric, upsert_exophone_health_snapshot,
}
use exotel_monitoring_platfo.Alerts.{trigger_alert}
use exotel_monitoring_platfo.Workers.Heartbeats.{is_healthy}

-- vnFlags
pub record VnFlags : Type 0 where
  pub inc : Bool
  pub out : Bool

abbrev pub no_flags : VnFlags
no_flags = record { inc = false; out = false }

abbrev pub Affected : Type 0
Affected = List (Text × VnFlags)

unfoldable pub lookup_flags : Text → Affected → Option VnFlags
lookup_flags sid [] = none
lookup_flags sid ((key, flags) ∷ rest) =
    let found = lookup_flags sid rest in if text_eq key sid then some flags else found

-- f := affected[sid]; …; affected[sid] = f
unfoldable pub update_flags : (VnFlags → VnFlags) → Text → Affected → Affected
update_flags change sid [] = (sid, change no_flags) ∷ []
update_flags change sid ((key, flags) ∷ rest) =
    let changed = update_flags change sid rest in
    if text_eq key sid then (key, change flags) ∷ rest else (key, flags) ∷ changed

abbrev pub mark_inc : VnFlags → VnFlags
mark_inc f = record f { inc = true }

abbrev pub mark_out : VnFlags → VnFlags
mark_out f = record f { out = true }

unfoldable pub mark_all : (VnFlags → VnFlags) → List Text → Affected → Affected
unfolding update_flags
mark_all change [] seen = seen
mark_all change (sid ∷ sids) seen = mark_all change sids (update_flags change sid seen)

-- the two loops that merge the lists into one set
unfoldable pub affected_vns : HeartbeatResponse → Affected
unfolding mark_all
affected_vns hb = mark_all mark_out hb.outgoing_affected (mark_all mark_inc hb.incoming_affected [])

-- statusType of the handler
unfoldable pub pushed_status : HeartbeatResponse → HeartbeatStatus
pushed_status hb =
    let listed =
      if not (no_one hb.incoming_affected) || not (no_one hb.outgoing_affected)
      then degraded
      else healthy in
    if text_eq hb.status_type (codes "CRITICAL") then outage else listed

-- hb.Data[vnSID]
unfoldable pub lookup_data : Text → List (Text × ExoPhoneData) → Option ExoPhoneData
lookup_data sid [] = none
lookup_data sid ((key, vn_data) ∷ rest) =
    let found = lookup_data sid rest in if text_eq key sid then some vn_data else found

-- the fallback number that a message suggests
unfoldable pub fallback : Option Connectivity → Option Text
fallback none = none
fallback (some c) = elim c.alternate_exophone [
  | none ↦ none
  | some alt ↦ if is_empty alt then none else some alt
]

abbrev pub is_active : Connectivity → Bool
is_active c = text_eq c.status (codes "active")

unfoldable pub incoming_of : Option ExoPhoneData → Option Connectivity
incoming_of none = none
incoming_of (some d) = some d.incoming_call

unfoldable pub outgoing_of : Option ExoPhoneData → Option Connectivity
outgoing_of none = none
outgoing_of (some d) = some d.outgoing_call

module _ {R : Type 0} (env : Env R) (exophones_by_number : Text → List Exophone)
    (hb : HeartbeatResponse) where
  -- the row of an exophone, whose last_checked_at and streams stay unset
  unfoldable pub pushed_snapshot :
      HeartbeatStatus → Option ExoPhoneData → Exophone → ExophoneHealthSnapshot R
  pushed_snapshot status vn_data ep =
      let snap : ExophoneHealthSnapshot R = record {
        exophone_id = ep.id;
        account_id = ep.account_id;
        heartbeat_status = elim status [ outage ↦ outage | other ↦ degraded ];
        availability_percent = env.float.of_int (pos 0);
        last_api_latency_ms = none;
        active_streams = pos 0;
        last_checked_at = none;
      } in
      elim vn_data [
        | none ↦ snap
        | some d ↦
            if is_active d.incoming_call && is_active d.outgoing_call
            then record snap {
              heartbeat_status = healthy;
              availability_percent = env.float.of_int (pos 100);
            }
            else if is_active d.incoming_call || is_active d.outgoing_call
            then record snap {
              heartbeat_status = degraded;
              availability_percent = env.float.of_int (pos 50);
            }
            else snap
      ]

  unfoldable pub pushed_alert : Exophone → Message → Alert
  pushed_alert ep message = record {
    transaction_id = codes "WEBHOOK";
    exophone_id = ep.id;
    account_id = ep.account_id;
    alert_type = exophone_down;
    severity = critical;
    alert_status = open_alert;
    message = message;
    channel = slack;
    triggered_at = env.completed_at;
  }

  -- one exophone of an affected number
  unfoldable pub push_exophone : HeartbeatStatus → Text → VnFlags → Exophone → World R → World R
  unfolding write_anyway pushed_snapshot pushed_alert trigger_alert fallback lookup_data incoming_of
      outgoing_of
  push_exophone status vn flags ep w =
      let vn_data = lookup_data vn hb.info in
      let w1 =
        write_anyway env (upsert_exophone_health_snapshot (pushed_snapshot status vn_data ep)) w in
      let w2 =
        if flags.inc
        then trigger_alert env
            (pushed_alert ep (incoming_pushed vn hb.status_type (fallback (incoming_of vn_data))))
            w1
        else w1 in
      if flags.out
      then trigger_alert env
          (pushed_alert ep (outgoing_pushed vn hb.status_type (fallback (outgoing_of vn_data)))) w2
      else w2

  unfoldable pub push_exophones :
      HeartbeatStatus → Text → VnFlags → List Exophone → World R → World R
  unfolding push_exophone
  push_exophones status vn flags [] w = w
  push_exophones status vn flags (ep ∷ eps) w =
      push_exophones status vn flags eps (push_exophone status vn flags ep w)

  unfoldable pub push_all : HeartbeatStatus → Affected → World R → World R
  unfolding push_exophones
  push_all status [] w = w
  push_all status ((vn, flags) ∷ rest) w =
      push_all status rest (push_exophones status vn flags (exophones_by_number vn) w)

  -- fireVNAlerts
  unfoldable pub fire_vn_alerts : HeartbeatStatus → World R → World R
  unfolding push_all affected_vns
  fire_vn_alerts status w = push_all status (affected_vns hb) w

  -- ExotelHeartbeat, of a payload that parses; the reply is 200 whatever happens
  unfoldable pub exotel_heartbeat : World R → World R
  unfolding write_anyway pushed_status fire_vn_alerts
  exotel_heartbeat w =
      let status = pushed_status hb in
      let w1 =
        write_anyway env
          (save_heartbeat_metric (record {
            transaction_id = codes "WEBHOOK";
            account_id = 0;
            exophone_id = 0;
            status_type = status;
            incoming_affected = length hb.incoming_affected;
            outgoing_affected = length hb.outgoing_affected;
            response_time_ms = none;
            raw_status = hb.status_type;
          }))
          w in
      if is_healthy status then w1 else fire_vn_alerts status w1
