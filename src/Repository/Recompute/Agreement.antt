-- ===== src/Repository/Recompute/Agreement.antt =====
-- The row that MySQL recomputes (RecomputeCallMetricsForDate of internal/repository/snapshot_repo.go)
-- against the summary of the engine (ProcessCallRecords of internal/metrics/engine.go) of the same calls.
use exotel_monitoring_platfo.Prelude.{
  ◌+◌, ◌≡◌, refl, ap, sym, subst, ◌∙◌, ℤ, pos, negsuc, is_positive, is_zero, is_natural, Bool, true,
  false, ◌&&◌, ◌||◌, not, inl, inr, Bool-cases, List, [], ◌∷◌, map, Text, codes, text_eq,
  text_eq_sound, to_lower, is_empty, if◌then◌else◌, one_if, ltb, count_if, length, All, arith,
  Float64, ◌⊎◌,
}
use exotel_monitoring_platfo.Models.{Leg, leg1, leg2, CallLog, MonitoringJob, Instant}
use exotel_monitoring_platfo.Exotel.Types.{CallRecord}
use exotel_monitoring_platfo.Metrics.Legs.{classify_leg}
use exotel_monitoring_platfo.Metrics.Times.{TimeParsers}
use exotel_monitoring_platfo.Metrics.Summary.Loop.{
  Outcomes, in_flight, other_status, call_status, count_outcome, call_log_of,
}
use exotel_monitoring_platfo.Metrics.Summary.Counts.{
  is_completed, is_bridged, is_first_leg, is_second_leg,
}
use exotel_monitoring_platfo.Metrics.Summary.Sums.{
  add_outcomes, zero_outcomes, outcome_of, sum_outcomes,
}
use exotel_monitoring_platfo.Metrics.Summary.Panel.{
  summary, legs_partition, connected_exact, legs_split,
}
use exotel_monitoring_platfo.Metrics.Summary.Logs.{length-map}
use exotel_monitoring_platfo.Metrics.Summary.Append.{outcomes_summary}
use exotel_monitoring_platfo.Repository.Snapshots.{sql_eq}
use exotel_monitoring_platfo.Repository.Recompute.{Agg, aggregate, is_drop}

-- The statuses that the SELECT tells apart, and any other.
by_status :
    (P : Text → Type 0)
    → P (codes "completed")
    → P (codes "failed")
    → P (codes "no-answer")
    → P (codes "busy")
    → P (codes "canceled")
    → ((t : Text)
        → text_eq t (codes "completed") ≡ false
        → text_eq t (codes "failed") ≡ false
        → text_eq t (codes "no-answer") ≡ false
        → text_eq t (codes "busy") ≡ false
        → text_eq t (codes "canceled") ≡ false
        → P t)
    → (t : Text) → P t
by_status P p1 p2 p3 p4 p5 rest t = elim (Bool-cases (text_eq t (codes "completed"))) [
  | inl e ↦ subst P (sym (text_eq_sound t (codes "completed") e)) p1
  | inr n1 ↦ elim (Bool-cases (text_eq t (codes "failed"))) [
    | inl e ↦ subst P (sym (text_eq_sound t (codes "failed") e)) p2
    | inr n2 ↦ elim (Bool-cases (text_eq t (codes "no-answer"))) [
      | inl e ↦ subst P (sym (text_eq_sound t (codes "no-answer") e)) p3
      | inr n3 ↦ elim (Bool-cases (text_eq t (codes "busy"))) [
        | inl e ↦ subst P (sym (text_eq_sound t (codes "busy") e)) p4
        | inr n4 ↦ elim (Bool-cases (text_eq t (codes "canceled"))) [
          | inl e ↦ subst P (sym (text_eq_sound t (codes "canceled") e)) p5
          | inr n5 ↦ rest t n1 n2 n3 n4 n5
        ]
      ]
    ]
  ]
]

-- The spellings that the engine reads as no-answer and canceled, and the SELECT does not.
abbrev pub is_variant : Text → Bool
is_variant t = text_eq t (codes "noanswer") || text_eq t (codes "cancelled")

-- What the SELECT counts of a status, in lower case, with or without a conversation.
abbrev Counts : Outcomes → Text → Bool → Type 0
Counts o t talked =
    (o.dropped_leg1 + o.dropped_leg2 ≡ one_if (text_eq t (codes "completed") && not talked))
    × (o.failed_calls ≡ one_if (text_eq t (codes "failed")))
    × (o.no_answer_calls ≡ one_if (text_eq t (codes "no-answer")))
    × (o.busy_calls ≡ one_if (text_eq t (codes "busy")))
    × (o.canceled_calls ≡ one_if (text_eq t (codes "canceled")))
    × (o.other_calls
        ≡ one_if (
            not (
              text_eq t (codes "completed")
              || text_eq t (codes "failed")
              || text_eq t (codes "no-answer")
              || text_eq t (codes "busy")
              || text_eq t (codes "canceled"))))

either_false : (a b : Bool) → (a || b) ≡ false → (a ≡ false) × (b ≡ false)
either_false true b e = absurd (cc e)
either_false false b e = (refl, e)

call_status-other :
    (t : Text)
    → text_eq t (codes "completed") ≡ false
    → text_eq t (codes "failed") ≡ false
    → text_eq t (codes "no-answer") ≡ false
    → text_eq t (codes "busy") ≡ false
    → text_eq t (codes "canceled") ≡ false
    → text_eq t (codes "noanswer") ≡ false
    → text_eq t (codes "cancelled") ≡ false
    → (call_status t ≡ in_flight) ⊎ (call_status t ≡ other_status)
unfolding call_status
call_status-other t n1 n2 n3 n4 n5 v1 v2 =
    elim (Bool-cases (
      text_eq t (codes "in-progress")
      || text_eq t (codes "queued")
      || text_eq t (codes "initiated")
      || text_eq t (codes "ringing"))) [
        | inl e ↦ inl (rw (n1, n2, n3, v1, n4, n5, v2, e, call_status) refl)
        | inr e ↦ inr (rw (n1, n2, n3, v1, n4, n5, v2, e, call_status) refl)
      ]

module _ (talked : Bool) (leg : Leg) (unrouted : Bool) where
  abbrev one : Text → Outcomes
  one t = count_outcome (call_status t) talked leg unrouted zero_outcomes

  completed_counts :
      (talked : Bool) (leg : Leg) (unrouted : Bool)
      → Counts
          (count_outcome (call_status (codes "completed")) talked leg unrouted zero_outcomes)
          (codes "completed")
          talked
  unfolding count_outcome call_status
  completed_counts true leg1 u = (refl, refl, refl, refl, refl, refl)
  completed_counts true leg2 u = (refl, refl, refl, refl, refl, refl)
  completed_counts false leg1 true = (refl, refl, refl, refl, refl, refl)
  completed_counts false leg1 false = (refl, refl, refl, refl, refl, refl)
  completed_counts false leg2 u = (refl, refl, refl, refl, refl, refl)

  other_counts :
      (t : Text)
      → text_eq t (codes "completed") ≡ false
      → text_eq t (codes "failed") ≡ false
      → text_eq t (codes "no-answer") ≡ false
      → text_eq t (codes "busy") ≡ false
      → text_eq t (codes "canceled") ≡ false
      → (call_status t ≡ in_flight) ⊎ (call_status t ≡ other_status)
      → Counts (one t) t talked
  unfolding count_outcome
  other_counts t n1 n2 n3 n4 n5 (inl e) =
      subst (λ s. Counts (count_outcome s talked leg unrouted zero_outcomes) t talked) (sym e)
        (rw (n1, n2, n3, n4, n5) (refl, refl, refl, refl, refl, refl))
  other_counts t n1 n2 n3 n4 n5 (inr e) =
      subst (λ s. Counts (count_outcome s talked leg unrouted zero_outcomes) t talked) (sym e)
        (rw (n1, n2, n3, n4, n5) (refl, refl, refl, refl, refl, refl))

  status_counts : (t : Text) → is_variant t ≡ false → Counts (one t) t talked
  unfolding count_outcome call_status
  status_counts t v =
      by_status (λ t. is_variant t ≡ false → Counts (one t) t talked)
        (λ _. completed_counts talked leg unrouted) (λ _. (refl, refl, refl, refl, refl, refl))
        (λ _. (refl, refl, refl, refl, refl, refl)) (λ _. (refl, refl, refl, refl, refl, refl))
        (λ _. (refl, refl, refl, refl, refl, refl))
        (λ t n1 n2 n3 n4 n5 v.
          other_counts t n1 n2 n3 n4 n5
            (call_status-other t n1 n2 n3 n4 n5 (either_false _ _ v).0 (either_false _ _ v).1))
        t v

completed_only : (t : Text) → text_eq t (codes "completed") ≡ is_completed (call_status t)
unfolding call_status
completed_only t = ground arith

drop_talked : (n : ℤ) → is_natural n ≡ true → is_zero n ≡ not (is_positive n)
drop_talked (pos n) h = ground arith
drop_talked (negsuc n) h = absurd (cc h)

-- A record whose status both read alike, and whose conversation is not negative.
abbrev pub IsPlain : CallRecord → Type 0
IsPlain r =
    (is_variant (to_lower r.status) ≡ false) × (is_natural r.details.conversation_duration ≡ true)

-- The counts of the SELECT that no correction changes, over the call logs of some records.
abbrev AggCounts : Outcomes → Agg → Type 0
AggCounts o a =
    (o.dropped_leg1 + o.dropped_leg2 ≡ a.leg1_drops + a.leg2_drops)
    × (o.failed_calls ≡ a.failed_calls)
    × (o.no_answer_calls ≡ a.no_answer_calls)
    × (o.busy_calls ≡ a.busy_calls)
    × (o.canceled_calls ≡ a.canceled_calls)
    × (o.other_calls ≡ a.other_calls)

module _ (p : TimeParsers) (txn_id : Text) (job : MonitoringJob) (vn : Text) where
  abbrev logs_of : List CallRecord → List CallLog
  logs_of rs = map (call_log_of p txn_id job vn) rs

  split_drop : (b u : Bool) → one_if (b && u) + one_if (b && not u) ≡ one_if b
  split_drop true true = refl
  split_drop true false = refl
  split_drop false u = refl

  outcomes_agree :
      (rs : List CallRecord)
      → All IsPlain rs
      → AggCounts (sum_outcomes vn rs) (aggregate (logs_of rs))
  unfolding aggregate sum_outcomes add_outcomes outcome_of call_log_of sql_eq
  outcomes_agree [] h = (refl, refl, refl, refl, refl, refl)
  outcomes_agree (r ∷ rs) ((v, natural), h) =
      let (d, f, n, b, c, o) = outcomes_agree rs h in
      let (d1, f1, n1, b1, c1, o1) =
        status_counts (is_positive r.details.conversation_duration) (classify_leg r vn)
          (is_empty (to_lower r.details.leg2_status)) (to_lower r.status) v in
      (
        omega (
          arith,
          d,
          d1,
          split_drop (is_drop (call_log_of p txn_id job vn r)) (is_empty r.details.leg2_status),
          ap (λ z. one_if (text_eq (to_lower r.status) (codes "completed") && z))
              (drop_talked r.details.conversation_duration natural),
        ),
        omega (arith, f, f1),
        omega (arith, n, n1),
        omega (arith, b, b1),
        omega (arith, c, c1),
        omega (arith, o, o1),
      )

  count-logs :
      (q : CallLog → Bool) (s : CallRecord → Bool) (rs : List CallRecord)
      → ((r : CallRecord) → q (call_log_of p txn_id job vn r) ≡ s r)
      → count_if q (logs_of rs) ≡ count_if s rs
  count-logs q s [] same = refl
  count-logs q s (r ∷ rs) same = omega (arith, ap one_if (same r), count-logs q s rs same)

  bridged_is_completed :
      (r : CallRecord)
      → (sql_eq r.status (codes "completed") && is_positive r.details.conversation_duration)
        ≡ is_bridged r
  unfolding sql_eq call_status
  bridged_is_completed r =
      ap (λ b. b && is_positive r.details.conversation_duration)
        (completed_only (to_lower r.status))

  aggregate_counts :
      (rs : List CallRecord)
      → ((aggregate (logs_of rs)).total ≡ length rs)
        × ((aggregate (logs_of rs)).leg1_total ≡ count_if (is_first_leg vn) rs)
        × ((aggregate (logs_of rs)).leg2_total ≡ count_if (is_second_leg vn) rs)
        × ((aggregate (logs_of rs)).connected ≡ count_if is_bridged rs)
  unfolding aggregate call_log_of
  aggregate_counts rs = (
    length-map (call_log_of p txn_id job vn) rs,
    count-logs _ (is_first_leg vn) rs (λ r. refl),
    count-logs _ (is_second_leg vn) rs (λ r. refl),
    count-logs _ is_bridged rs bridged_is_completed,
  )

module _ {R : Type 0} (float : Float64 R) (p : TimeParsers) (now : Instant) (txn_id : Text)
    (job : MonitoringJob) (vn : Text) where
  -- Over the call logs of records whose status is spelled as the SELECT spells it and whose
  -- conversation is not negative, MySQL recomputes the engine's totals, drops in sum, and statuses, where
  -- a drop is, for both, a completed call with no conversation, whatever its duration;
  -- but it does not make the Panel correction: with second legs among the records, it counts as
  -- connected the conversations of the first legs as well.
  pub recomputed_agrees :
      (rs : List CallRecord)
      → All IsPlain rs
      → let s = summary float p now txn_id job vn rs in
        let a = aggregate (map (call_log_of p txn_id job vn) rs) in
        (a.total ≡ s.total)
        × (a.leg1_total ≡ s.leg1_total)
        × (a.leg2_total ≡ s.leg2_total)
        × (a.leg1_drops + a.leg2_drops ≡ s.dropped_leg1 + s.dropped_leg2)
        × (a.failed_calls ≡ s.failed_calls)
        × (a.no_answer_calls ≡ s.no_answer_calls)
        × (a.busy_calls ≡ s.busy_calls)
        × (a.canceled_calls ≡ s.canceled_calls)
        × (a.other_calls ≡ s.other_calls)
        × (a.connected
            ≡ s.connected
              + (if ltb 0 (count_if (is_second_leg vn) rs)
                  then count_if (λ r. is_bridged r && is_first_leg vn r) rs
                  else 0))
  recomputed_agrees rs plain =
      let (total, first, second, connected) = aggregate_counts p txn_id job vn rs in
      let (n, l1, l2, _) = legs_partition float p now txn_id job vn rs in
      let (d, f, na, b, c, o) = outcomes_agree p txn_id job vn rs plain in
      let (d1, d2, f', na', b', c', o') = outcomes_summary float p now txn_id job vn rs in
      (
        total ∙ sym n,
        first ∙ sym l1,
        second ∙ sym l2,
        omega (arith, d, d1, d2),
        sym (f' ∙ f),
        sym (na' ∙ na),
        sym (b' ∙ b),
        sym (c' ∙ c),
        sym (o' ∙ o),
        ground (
          arith,
          connected,
          connected_exact float p now txn_id job vn rs,
          legs_split is_bridged vn rs,
        ),
      )
