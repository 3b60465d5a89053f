-- ===== src/Metrics/Hours.antt =====
-- The hourly distribution and the peak hour (ProcessCallRecords of internal/metrics/engine.go).
use exotel_monitoring_platfo.Prelude.{
  ℕ, zero, suc, ◌+◌, ◌≤◌, ◌<◌, ◌≡◌, refl, ◌⊎◌, inl, inr, Bool, false, not, ◌||◌, List, [], ◌∷◌,
  Option, none, some, Text, is_empty, if◌then◌else◌, one_if, count_if, length, ltb, Bool-cases,
  arith,
}
use exotel_monitoring_platfo.Models.{Time, zero_time, MonitoringJob}
use exotel_monitoring_platfo.Exotel.Types.{CallRecord}
use exotel_monitoring_platfo.Metrics.Times.{
  TimeParsers, hour_of, parsed, start_of, bump_hour, count_hour, peak_from, peak_hour,
}
use exotel_monitoring_platfo.Metrics.Summary.Loop.{Tally, empty_tally, process_record, process_from}

pub sum_hours : List ℕ → ℕ
sum_hours [] = 0
sum_hours (n ∷ dist) = n + sum_hours dist

sum-bump_hour :
    (h : ℕ) (dist : List ℕ)
    → h < length dist
    → (sum_hours (bump_hour h dist) ≡ suc (sum_hours dist))
      × (length (bump_hour h dist) ≡ length dist)
unfolding sum_hours bump_hour
sum-bump_hour h [] lt = absurd (omega arith)
sum-bump_hour zero (n ∷ dist) lt = omega arith
sum-bump_hour (suc h) (n ∷ dist) lt = omega (arith, sum-bump_hour h dist)

-- An hour of the day, as package time documents of Hour().
abbrev pub InDay : Option Time → Type 0
InDay none = Unit
InDay (some t) = hour_of t < 24

pub record HoursInDay (p : TimeParsers) : Type 0 where
  pub bare : (s : Text) → InDay (p.bare_ist s)
  pub offset : (s : Text) → InDay (p.rfc3339 s)
  pub mail : (s : Text) → InDay (p.rfc1123z s)

abbrev pub is_dated : CallRecord → Bool
is_dated r = not (is_empty r.start_time) || not (is_empty r.date_created)

-- A text that is not "" always yields a time, of an hour of the day.
module _ (p : TimeParsers) (hours : HoursInDay p) where
  parsed-some : (s : Text) → (t : Time) × (parsed p s ≡ some t) × (hour_of t < 24)
  unfolding parsed
  parsed-some s =
      pick (p.bare_ist s) (p.rfc3339 s) (p.rfc1123z s) (hours.bare s) (hours.offset s)
        (hours.mail s) refl refl refl
    where
      pick :
          (a b c : Option Time)
          → InDay a
          → InDay b
          → InDay c
          → p.bare_ist s ≡ a
          → p.rfc3339 s ≡ b
          → p.rfc1123z s ≡ c
          → (t : Time) × (parsed p s ≡ some t) × (hour_of t < 24)
      pick (some t) b c ha hb hc ea eb ec = (t, ground arith, ha)
      pick none (some t) c ha hb hc ea eb ec = (t, ground arith, hb)
      pick none none (some t) ha hb hc ea eb ec = (t, ground arith, hc)
      pick none none none ha hb hc ea eb ec = (zero_time, ground arith, omega arith)

  count_start_of :
      (start created : Text) (dist : List ℕ)
      → length dist ≡ 24
      → (sum_hours (count_hour (start_of p start created) dist)
          ≡ one_if (not (is_empty start) || not (is_empty created)) + sum_hours dist)
        × (length (count_hour (start_of p start created) dist) ≡ 24)
  unfolding start_of count_hour
  count_start_of [] [] dist e = omega arith
  count_start_of [] (c ∷ created) dist e =
      let (t, is_t, small) = parsed-some (c ∷ created) in
      rw is_t (omega (arith, sum-bump_hour (hour_of t) dist))
  count_start_of (c ∷ start) created dist e =
      let (t, is_t, small) = parsed-some (c ∷ start) in
      rw is_t (omega (arith, sum-bump_hour (hour_of t) dist))

  pub hours-process_from :
      (txn_id : Text) (job : MonitoringJob) (vn : Text) (t : Tally) (rs : List CallRecord)
      → length t.hourly_distribution ≡ 24
      → (sum_hours (process_from p txn_id job vn t rs).hourly_distribution
          ≡ count_if is_dated rs + sum_hours t.hourly_distribution)
        × (length (process_from p txn_id job vn t rs).hourly_distribution ≡ 24)
  unfolding process_from process_record
  hours-process_from txn_id job vn t [] e = omega arith
  hours-process_from txn_id job vn t (r ∷ rs) e = omega (
    arith,
    hours-process_from txn_id job vn (process_record p txn_id job vn r t) rs
        (count_start_of r.start_time r.date_created t.hourly_distribution e).1,
    count_start_of r.start_time r.date_created t.hourly_distribution e,
  )

  -- Where the parsers give hours of a day, the 24 hours add up to the number of records that carry
  -- a start or creation text at all, readable or not.
  pub hours_partition :
      (txn_id : Text) (job : MonitoringJob) (vn : Text) (rs : List CallRecord)
      → (sum_hours (process_from p txn_id job vn empty_tally rs).hourly_distribution
          ≡ count_if is_dated rs)
        × (length (process_from p txn_id job vn empty_tally rs).hourly_distribution ≡ 24)
  unfolding empty_tally sum_hours
  hours_partition txn_id job vn rs =
      omega (arith, hours-process_from txn_id job vn empty_tally rs refl)

-- A start text that no layout fits is counted at hour 0, since the parser returns time.Time{}
-- with no error.
pub unreadable_at_midnight :
    (p : TimeParsers) (txn_id : Text) (job : MonitoringJob) (vn : Text) (r : CallRecord) (t : Tally)
    → is_empty r.start_time ≡ false
    → p.bare_ist r.start_time ≡ none
    → p.rfc3339 r.start_time ≡ none
    → p.rfc1123z r.start_time ≡ none
    → (process_record p txn_id job vn r t).hourly_distribution ≡ bump_hour 0 t.hourly_distribution
unfolding process_record start_of count_hour
unreadable_at_midnight p txn_id job vn r t given a b c = ground arith

-- dist[h], which is 0 past the end
abbrev pub at_hour : List ℕ → ℕ → ℕ
at_hour [] h = 0
at_hour (n ∷ dist) zero = n
at_hour (n ∷ dist) (suc h) = at_hour dist h

busiest : ℕ → List ℕ → ℕ
busiest m [] = m
busiest m (n ∷ dist) = let on = busiest n dist in if ltb m n then on else busiest m dist

busiest_bounds :
    (m : ℕ) (dist : List ℕ) → (m ≤ busiest m dist) × ((h : ℕ) → at_hour dist h ≤ busiest m dist)
unfolding busiest
busiest_bounds m [] = (omega arith, λ h. omega arith)
busiest_bounds m (n ∷ dist) = (
  ground (arith, (busiest_bounds n dist).0, (busiest_bounds m dist).0),
  elim [
    | zero ↦ ground (arith, (busiest_bounds n dist).0, (busiest_bounds m dist).0)
    | suc h ↦ ground (arith, (busiest_bounds n dist).1 h, (busiest_bounds m dist).1 h)
  ],
)

peak_from-busiest :
    (i m k : ℕ) (dist : List ℕ)
    → ((peak_from i m k dist ≡ k) × (busiest m dist ≡ m))
      ⊎ ((j : ℕ) × (peak_from i m k dist ≡ i + j) × (at_hour dist j ≡ busiest m dist))
unfolding peak_from busiest
peak_from-busiest i m k [] = inl (refl, refl)
peak_from-busiest i m k (n ∷ dist) = elim (Bool-cases (ltb m n)) [
  | inl e ↦ rw e (elim (peak_from-busiest (suc i) n i dist) [
    | inl (a, b) ↦ inr (0, omega arith, omega arith)
    | inr (j, a, b) ↦ inr (suc j, omega arith, b)
  ])
  | inr e ↦ rw e (elim (peak_from-busiest (suc i) m k dist) [
    | inl (a, b) ↦ inl (a, b)
    | inr (j, a, b) ↦ inr (suc j, omega arith, b)
  ])
]

-- No hour has more calls than the peak hour.
pub peak_hour_busiest : (dist : List ℕ) (h : ℕ) → at_hour dist h ≤ at_hour dist (peak_hour dist)
unfolding peak_hour
peak_hour_busiest dist h = elim (peak_from-busiest 0 0 0 dist) [
  | inl (a, b) ↦ omega (arith, (busiest_bounds 0 dist).1 h)
  | inr (j, a, b) ↦
      let e : peak_from 0 0 0 dist ≡ j = omega arith in
      rw e (omega (arith, (busiest_bounds 0 dist).1 h))
]
