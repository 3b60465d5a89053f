-- ===== src/Exotel/Affected.antt =====
-- Whom a fetched heartbeat names (FetchHeartbeat of internal/exotel/heartbeat.go, AffectsVN of
-- internal/exotel/client.go).
use exotel_monitoring_platfo.Prelude.{
  subst, ℕ, ◌≡◌, refl, inl, inr, not, Option, none, some, Text, text_eq_refl, is_empty,
  Option-cases, Bool-cases, arith,
}
use exotel_monitoring_platfo.Models.{Failure}
use exotel_monitoring_platfo.Exotel.Types.{ExoPhoneData, HeartbeatResponse, no_one, affects_vn}
use exotel_monitoring_platfo.Exotel.Http.{Reply, broken, answered}
use exotel_monitoring_platfo.Exotel.Heartbeat.{
  HeartbeatApi, FetchHeartbeatResult, response_v2, health_v1, response_v1, fetch_v1, fetch_v2,
  fetch_heartbeat,
}

-- The lists name the number itself or nobody.
abbrev NamesOnly : Text → HeartbeatResponse → Type 0
NamesOnly vn hb =
    affects_vn hb vn ≡ (not (no_one hb.incoming_affected), not (no_one hb.outgoing_affected))

names_v2 : (vn : Text) (detail : ExoPhoneData) → NamesOnly vn (response_v2 vn detail)
unfolding response_v2 affects_vn
names_v2 vn detail = ground (arith, text_eq_refl vn)

names_v1 :
    (api : HeartbeatApi) (vn : Text) (status : ℕ) (raw : Text)
    → NamesOnly vn (response_v1 api vn status raw)
unfolding response_v1 health_v1 affects_vn
names_v1 api vn status raw = ground (arith, text_eq_refl vn)

abbrev Named : Text → FetchHeartbeatResult × Option Failure → Type 0
Named vn result = (hb : HeartbeatResponse) → result.0.response ≡ some hb → NamesOnly vn hb

Named-v1 : (api : HeartbeatApi) (vn : Text) → Named vn (fetch_v1 api vn)
unfolding fetch_v1
Named-v1 api vn hb = split api.get_v1 refl
  where
    split : (r : Reply) → api.get_v1 ≡ r → (fetch_v1 api vn).0.response ≡ some hb → NamesOnly vn hb
    split (broken ms text) e h = cc (rw (e, fetch_v1) at h)
    split (answered ms status raw) e h =
        let q : response_v1 api vn status raw ≡ hb = ground arith in
        subst (NamesOnly vn) q (names_v1 api vn status raw)

Named-v2 :
    (api : HeartbeatApi) (vn : Text) (result : FetchHeartbeatResult)
    → fetch_v2 api vn ≡ some result
    → Named vn (result, none)
unfolding fetch_v2
Named-v2 api vn result = split api.get_v2 refl
  where
    split : (r : Reply) → api.get_v2 ≡ r → fetch_v2 api vn ≡ some result → Named vn (result, none)
    split (broken ms text) e h hb q = cc (rw (e, fetch_v2) at h)
    split (answered ms status raw) e h hb q = elim (Option-cases (api.unmarshal_v2 raw)) [
      | inl bad ↦ ground arith
      | inr (detail, good) ↦
          let w : response_v2 vn detail ≡ hb = ground arith in
          subst (NamesOnly vn) w (names_v2 vn detail)
    ]

-- A fetched heartbeat affects the number that was asked for in exactly the directions whose list
-- is not empty: its lists never name another number.
pub fetch_heartbeat-affects :
    (api : HeartbeatApi) (vn : Text) (hb : HeartbeatResponse)
    → (fetch_heartbeat api vn).0.response ≡ some hb
    → affects_vn hb vn ≡ (not (no_one hb.incoming_affected), not (no_one hb.outgoing_affected))
unfolding fetch_heartbeat
fetch_heartbeat-affects api vn hb h = elim (Bool-cases (is_empty vn)) [
  | inl e ↦ Named-v1 api vn hb (rw (e, fetch_heartbeat) at h)
  | inr e ↦ elim (Option-cases (fetch_v2 api vn)) [
    | inl n ↦ Named-v1 api vn hb (rw (e, n, fetch_heartbeat) at h)
    | inr (result, is_result) ↦
        Named-v2 api vn result is_result hb (rw (e, is_result, fetch_heartbeat) at h)
  ]
]
