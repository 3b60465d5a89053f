-- ===== src/Models/Calls.antt =====
-- internal/models/transaction.go: the legs of a call, and the call_logs row.
use exotel_monitoring_platfo.Prelude.{ℕ, ℤ, Bool, true, false, Option, Text}

-- time.Time, in nanoseconds
abbrev pub Instant : Type 0
Instant = ℕ

-- A time.Time that a parser returns: time.Time{}, or an instant with the hour that its own zone
-- shows (Hour()).
pub data Time : Type 0 where
  zero_time : Time
  at : Instant → ℕ → Time

-- models.Leg1 = 1, models.Leg2 = 2; LegUnknown is never assigned by ClassifyLeg
pub data Leg : Type 0 where
  leg1 leg2 : Leg

abbrev pub is_leg1 : Leg → Bool
is_leg1 leg1 = true
is_leg1 leg2 = false

abbrev pub is_leg2 : Leg → Bool
is_leg2 leg1 = false
is_leg2 leg2 = true

pub record CallLog : Type 0 where
  pub transaction_id : Text
  pub account_id : ℕ
  pub exophone_id : ℕ
  pub call_sid : Text
  pub parent_call_sid : Text
  pub leg_number : Leg
  pub call_from : Text
  pub call_to : Text
  pub status : Text
  pub direction : Text
  pub duration_sec : ℤ
  pub conversation_duration : ℤ
  pub start_time : Option Time
  pub end_time : Option Time
  pub recording_url : Text
  pub leg1_status : Text
  pub leg2_status : Text
