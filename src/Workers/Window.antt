-- ===== src/Workers/Window.antt =====
-- The time window of executeCalls (internal/workers/job_worker.go). Instants are nanoseconds since
-- the Unix epoch; a time before the epoch is 0, which the cap at midnight replaces all the same.
use exotel_monitoring_platfo.Prelude.{
  ℕ, ◌+◌, ◌-◌, ◌*◌, ◌/◌, ◌≤◌, ◌<◌, max, ◌≡◌, Option, none, some, if◌then◌else◌, ltb, arith,
}
use exotel_monitoring_platfo.Models.{Instant}
use exotel_monitoring_platfo.Snapshots.Accumulate.{minute, day, ist_offset, ist_day}

-- time.Date(…, 0, 0, 0, 0, ist) of the day of an instant
unfoldable pub midnight_ist : Instant → Instant
midnight_ist to = ist_day to * day - ist_offset

unfoldable pub window_start : Instant → ℕ → Option Instant → Instant
unfolding midnight_ist
window_start to frequency last_run =
    let max_lookback = to - frequency * 4 * minute in
    let asked : Instant = elim last_run [
      | none ↦ to - frequency * minute
      | some last ↦ last - minute
    ] in
    let from = if ltb asked (midnight_ist to) then midnight_ist to else asked in
    if ltb from max_lookback then max_lookback else from

-- what the window asks to be after without its caps, or its end where that is earlier
abbrev pub latest_start : Instant → Option Instant → Instant
latest_start to none = to
latest_start to (some last) = max to (last - 60_000_000_000)

midnight_exact :
    (to : Instant)
    → 86_400_000_000_000 ≤ to
    → (midnight_ist to + 19_800_000_000_000
        ≡ 86_400_000_000_000 * ((midnight_ist to + 19_800_000_000_000) / 86_400_000_000_000))
      × (midnight_ist to ≤ to)
      × (to < midnight_ist to + 86_400_000_000_000)
unfolding midnight_ist
midnight_exact to late = omega arith

window_capped :
    (to : Instant) (frequency : ℕ) (last_run : Option Instant)
    → (midnight_ist to ≤ window_start to frequency last_run)
      × (to ≤ window_start to frequency last_run + frequency * 4 * 60_000_000_000)
      × (window_start to frequency last_run ≤ latest_start to last_run)
unfolding window_start midnight_ist
window_capped to frequency none = ground arith
window_capped to frequency (some last) = ground arith

-- Of an instant a day or more after the Unix epoch: there is an instant that is midnight on a clock five
-- and a half hours ahead of UTC, with the end of the window in the day that it begins, and the window
-- never starts before it. Nor does it start more than four periods of minutes back, nor later than its
-- end or, where that lies in the future, a minute before the last run.
pub window_bounds :
    (to : Instant) (frequency : ℕ) (last_run : Option Instant)
    → 86_400_000_000_000 ≤ to
    → (midnight : Instant) × ((days : ℕ) × (midnight + 19_800_000_000_000
          ≡ 86_400_000_000_000 * days))
      × (midnight ≤ to)
      × (to < midnight + 86_400_000_000_000)
      × (midnight ≤ window_start to frequency last_run)
      × (to ≤ window_start to frequency last_run + frequency * 4 * 60_000_000_000)
      × (window_start to frequency last_run ≤ latest_start to last_run)
window_bounds to frequency last_run late =
    let (exact, before, within) = midnight_exact to late in
    let (start, back, latest) = window_capped to frequency last_run in
    (
      midnight_ist to,
      ((midnight_ist to + 19_800_000_000_000) / 86_400_000_000_000, exact),
      before,
      within,
      start,
      back,
      latest,
    )

-- Where the last run lies a minute or more behind midnight in India, and a minute before it lies
-- within four periods of the end, the window starts exactly one minute before the last run.
pub window_overlap :
    (to : Instant) (frequency : ℕ) (last : Instant)
    → midnight_ist to + minute ≤ last
    → to ≤ last - minute + frequency * 4 * minute
    → window_start to frequency (some last) + minute ≡ last
unfolding window_start
window_overlap to frequency last a b = ground arith
