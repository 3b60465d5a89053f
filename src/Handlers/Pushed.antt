-- ===== src/Handlers/Pushed.antt =====
-- What the pushed heartbeat (internal/handlers/webhook.go) stores and alerts.
use exotel_monitoring_platfo.Prelude.{
  text_eq_refl, text_eq_sound, ◌≡◌, refl, ◌∙◌, ap, sym, pos, Bool, true, false, List, [], ◌∷◌,
  Option, none, some, Text, text_eq, if◌then◌else◌, any_of, Bool-cases, inl, inr, ◌⊎◌,
}
use exotel_monitoring_platfo.Models.{unknown, HeartbeatStatus, healthy, degraded, outage, Exophone}
use exotel_monitoring_platfo.Exotel.Types.{HeartbeatResponse, ExoPhoneData, affects_vn}
use exotel_monitoring_platfo.Snapshots.Health.{heartbeat_to_availability}
use exotel_monitoring_platfo.Workers.Heartbeats.{status_of}
use exotel_monitoring_platfo.Effects.{Env}
use exotel_monitoring_platfo.Handlers.Heartbeat.{
  VnFlags, no_flags, Affected, lookup_flags, update_flags, mark_inc, mark_out, mark_all,
  affected_vns, pushed_status, pushed_snapshot, is_active,
}

-- The pushed heartbeat and the polled one are read as the same status.
pub pushed_is_polled : (hb : HeartbeatResponse) → pushed_status hb ≡ status_of hb
unfolding pushed_status status_of
pushed_is_polled hb = refl

flags_or : Option VnFlags → VnFlags
flags_or none = no_flags
flags_or (some f) = f

-- the flags of a key, as `affected[sid]` reads them
unfoldable pub flags_at : Text → Affected → VnFlags
unfolding flags_or lookup_flags
flags_at vn seen = flags_or (lookup_flags vn seen)

text_eq_of_neq :
    (key sid vn : Text) → text_eq key sid ≡ false → text_eq key vn ≡ true → text_eq sid vn ≡ false
text_eq_of_neq key sid vn h k = elim (Bool-cases (text_eq sid vn)) [
  | inl e ↦ cc (
    h,
    text_eq_refl sid,
    ap (λ t. text_eq t sid) (text_eq_sound key vn k ∙ sym (text_eq_sound sid vn e)),
  )
  | inr e ↦ e
]

update_flags_at :
    (change : VnFlags → VnFlags) (sid vn : Text) (seen : Affected)
    → flags_at vn (update_flags change sid seen)
      ≡ (if text_eq sid vn then change (flags_at vn seen) else flags_at vn seen)
unfolding flags_at flags_or lookup_flags update_flags
update_flags_at change sid vn [] = elim (Bool-cases (text_eq sid vn)) [
  | inl e ↦ rw e refl
  | inr e ↦ rw e refl
]
update_flags_at change sid vn ((key, flags) ∷ rest) = elim (Bool-cases (text_eq key sid)) [
  | inl same ↦ elim (Bool-cases (text_eq key vn)) [
    | inl e ↦ rw (same, e, sym (ap (λ t. text_eq t vn) (text_eq_sound key sid same)) ∙ e) refl
    | inr e ↦ rw (same, e, sym (ap (λ t. text_eq t vn) (text_eq_sound key sid same)) ∙ e) refl
  ]
  | inr apart ↦ elim (Bool-cases (text_eq key vn)) [
    | inl e ↦ rw (apart, e, text_eq_of_neq key sid vn apart e) refl
    | inr e ↦ rw (apart, e) (update_flags_at change sid vn rest)
  ]
]

mark_all_at :
    (change : VnFlags → VnFlags) (again : (f : VnFlags) → change (change f) ≡ change f) (vn : Text)
    (sids : List Text) (seen : Affected)
    → flags_at vn (mark_all change sids seen) ≡ (
        if any_of (λ sid. text_eq sid vn) sids then change (flags_at vn seen) else flags_at vn seen)
unfolding mark_all
mark_all_at change again vn [] seen = refl
mark_all_at change again vn (sid ∷ sids) seen =
    mark_all_at change again vn sids (update_flags change sid seen) ∙ join
  where
    join :
        (if any_of (λ s. text_eq s vn) sids
          then change (flags_at vn (update_flags change sid seen))
          else flags_at vn (update_flags change sid seen))
        ≡ (if any_of (λ s. text_eq s vn) (sid ∷ sids)
            then change (flags_at vn seen)
            else flags_at vn seen)
    join = elim (Bool-cases (text_eq sid vn)) [
      | inl e ↦ elim (Bool-cases (any_of (λ s. text_eq s vn) sids)) [
        | inl a ↦ rw (a, e, update_flags_at change sid vn seen, e) (again (flags_at vn seen))
        | inr a ↦ rw (a, e, update_flags_at change sid vn seen, e) refl
      ]
      | inr e ↦ rw (update_flags_at change sid vn seen, e) refl
    ]

-- The set that the handler merges from the two lists flags a number in exactly the directions in
-- which the response affects it, however often the lists name it.
pub affected_vns-affects :
    (hb : HeartbeatResponse) (vn : Text)
    → flags_at vn (affected_vns hb)
      ≡ record { inc = (affects_vn hb vn).0; out = (affects_vn hb vn).1 }
unfolding affected_vns affects_vn flags_at flags_or lookup_flags
affected_vns-affects hb vn =
    mark_all_at mark_out (λ f. refl) vn hb.outgoing_affected
      (mark_all mark_inc hb.incoming_affected [])
    ∙ ap (λ f. if any_of (λ sid. text_eq sid vn) hb.outgoing_affected then mark_out f else f)
        (mark_all_at mark_inc (λ f. refl) vn hb.incoming_affected [])
    ∙ merged (any_of (λ sid. text_eq sid vn) hb.incoming_affected)
        (any_of (λ sid. text_eq sid vn) hb.outgoing_affected)
  where
    merged :
        (i o : Bool)
        → (if o
            then mark_out (if i then mark_inc no_flags else no_flags)
            else if i
            then mark_inc no_flags
            else no_flags)
          ≡ record { inc = i; out = o }
    merged true true = refl
    merged true false = refl
    merged false true = refl
    merged false false = refl

module _ {R : Type 0} (env : Env R) (exophones_by_number : Text → List Exophone)
    (hb : HeartbeatResponse) where
  -- A pushed row's availability is that of its status, or the row is DEGRADED with availability 0.
  pub pushed_availability :
      (status : HeartbeatStatus) (d : Option ExoPhoneData) (ep : Exophone)
      → let snap = pushed_snapshot env exophones_by_number hb status d ep in
        (snap.availability_percent ≡ heartbeat_to_availability env.float snap.heartbeat_status)
        ⊎ ((snap.heartbeat_status ≡ degraded)
            × (snap.availability_percent ≡ env.float.of_int (pos 0)))
  unfolding pushed_snapshot heartbeat_to_availability
  pushed_availability healthy none ep = inr (refl, refl)
  pushed_availability degraded none ep = inr (refl, refl)
  pushed_availability outage none ep = inl refl
  pushed_availability unknown none ep = inr (refl, refl)
  pushed_availability status (some d) ep = elim (Bool-cases (is_active d.incoming_call)) [
    | inl i ↦ elim (Bool-cases (is_active d.outgoing_call)) [
      | inl o ↦ rw (i, o, pushed_snapshot) (inl refl)
      | inr o ↦ rw (i, o, pushed_snapshot) (inl refl)
    ]
    | inr i ↦ elim (Bool-cases (is_active d.outgoing_call)) [
      | inl o ↦ rw (i, o, pushed_snapshot) (inl refl)
      | inr o ↦ rw (i, o, pushed_snapshot) (inactive status)
    ]
  ]
    where
      inactive :
          (s : HeartbeatStatus)
          → let h : HeartbeatStatus = elim s [ outage ↦ outage | other ↦ degraded ] in
            (env.float.of_int (pos 0) ≡ heartbeat_to_availability env.float h)
            ⊎ ((h ≡ degraded) × (env.float.of_int (pos 0) ≡ env.float.of_int (pos 0)))
      inactive healthy = inr (refl, refl)
      inactive degraded = inr (refl, refl)
      inactive outage = inl refl
      inactive unknown = inr (refl, refl)
