-- ===== src/Metrics/Legs.antt =====
-- ClassifyLeg and normalise of internal/metrics/engine.go.
use exotel_monitoring_platfo.Prelude.{
  ◌≡◌, refl, true, false, ◌++◌, Text, codes, text_eq, is_empty, has_prefix, trim_prefix, to_lower,
  if◌then◌else◌, arith,
}
use exotel_monitoring_platfo.Models.{Leg, leg1, leg2}
use exotel_monitoring_platfo.Exotel.Types.{CallRecord}

unfoldable pub normalise : Text → Text
normalise num =
    let n1 = trim_prefix num (codes "+91") in
    let n2 = trim_prefix n1 (codes "91") in trim_prefix n2 (codes "0")

unfoldable pub classify_leg : CallRecord → Text → Leg
classify_leg r exophone_number =
    let dir = to_lower r.direction in
    if is_empty r.parent_call_sid
    then if text_eq dir (codes "inbound")
      then leg1
      else if has_prefix dir (codes "outbound")
      then leg1
      else if text_eq (normalise r.to) (normalise exophone_number)
      then leg1
      else leg2
    else leg2

-- A record whose parent is named is the second leg, whatever its direction and numbers; without
-- a parent, an inbound or outbound record is the first leg whatever its numbers.
pub classify_leg_parent :
    (r : CallRecord) (vn : Text)
    → (is_empty r.parent_call_sid ≡ false → classify_leg r vn ≡ leg2)
      × (is_empty r.parent_call_sid ≡ true
          → has_prefix (to_lower r.direction) (codes "outbound") ≡ true
          → classify_leg r vn ≡ leg1)
unfolding classify_leg
classify_leg_parent r vn = (λ h. ground arith, λ h k. ground arith)

-- A subscriber number that itself begins with 91 is not recognised across its two spellings: with
-- the trunk prefix it keeps its first two digits, with the country code it loses them.
pub normalise_ambiguous :
    (rest : Text)
    → (normalise (codes "091" ++ rest) ≡ codes "91" ++ rest)
      × (normalise (codes "+91" ++ (codes "91" ++ rest)) ≡ trim_prefix rest (codes "0"))
unfolding normalise
normalise_ambiguous rest = (refl, refl)
