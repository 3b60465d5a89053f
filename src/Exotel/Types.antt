-- ===== src/Exotel/Types.antt =====
-- internal/exotel/client.go: the payloads of the vendor's API, as json.Unmarshal fills them.
-- Fields that no Go code of the repository reads (Price, AnsweredBy, Legs) are left out.
use exotel_monitoring_platfo.Prelude.{
  ℤ, Bool, true, false, ◌||◌, ◌&&◌, List, [], ◌∷◌, Option, Text, codes, text_eq, any_of,
}

pub record CallDetails : Type 0 where
  pub conversation_duration : ℤ
  pub leg1_status : Text
  pub leg2_status : Text

pub record CallRecord : Type 0 where
  pub sid : Text
  pub parent_call_sid : Text
  pub from : Text
  pub to : Text
  pub phone_number : Text
  pub status : Text
  pub direction : Text
  pub duration : ℤ
  pub start_time : Text
  pub end_time : Text
  pub date_created : Text
  pub recording_url : Text
  pub details : CallDetails

-- The page's Metadata is its NextPageUri, the one field that is read.
pub record CallsResponse : Type 0 where
  pub next_page_uri : Text
  pub result : List CallRecord

pub record Connectivity : Type 0 where
  pub status : Text
  pub alternate_exophone : Option Text

pub record ExoPhoneData : Type 0 where
  pub incoming_call : Connectivity
  pub outgoing_call : Connectivity

pub record HeartbeatResponse : Type 0 where
  pub status_type : Text
  pub incoming_affected : List Text
  pub outgoing_affected : List Text
  pub info : List (Text × ExoPhoneData)

abbrev pub no_one : List Text → Bool
no_one [] = true
no_one (x ∷ xs) = false

unfoldable pub is_ok : HeartbeatResponse → Bool
is_ok h =
    text_eq h.status_type (codes "OK") || (no_one h.incoming_affected && no_one h.outgoing_affected)

-- AffectsVN: each loop stops at the first sid that is the number
unfoldable pub affects_vn : HeartbeatResponse → Text → Bool × Bool
affects_vn h vn = (
  any_of (λ sid. text_eq sid vn) h.incoming_affected,
  any_of (λ sid. text_eq sid vn) h.outgoing_affected,
)

-- Of the entries of an ActiveStreamsResponse.
pub record ActiveStreamsEntry : Type 0 where
  pub active_stream_count : ℤ
  pub throttle_limit : ℤ
