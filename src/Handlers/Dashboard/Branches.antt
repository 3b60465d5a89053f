-- ===== src/Handlers/Dashboard/Branches.antt =====
-- The order in which DashboardCalls (internal/handlers/dashboard.go) asks for today's row.
use exotel_monitoring_platfo.Prelude.{ℕ, ◌≡◌, refl, true, false, List, none, some}
use exotel_monitoring_platfo.Models.{CallMetricsSnapshot}
use exotel_monitoring_platfo.Handlers.Dashboard.{
  Cache, Faults, cache_get, find_exact, find_latest, fresh, answer_latest, calls_of_today,
}

module _ {R : Type 0} (faults : Faults) (today id : ℕ) (rows : List (CallMetricsSnapshot R))
    (cache : Cache (CallMetricsSnapshot R)) where
  pub cached_first :
      (row : CallMetricsSnapshot R)
      → cache_get faults.read_fails id cache ≡ some row
      → calls_of_today faults today id rows cache ≡ (fresh faults today id true row today, none)
  unfolding calls_of_today
  cached_first row hit = rw (hit, calls_of_today) refl

  pub exact_second :
      (row : CallMetricsSnapshot R)
      → cache_get faults.read_fails id cache ≡ none
      → find_exact faults today id today rows ≡ some row
      → calls_of_today faults today id rows cache
        ≡ (fresh faults today id false row today, some row)
  unfolding calls_of_today
  exact_second row miss found = rw (miss, found, calls_of_today) refl

  pub latest_last :
      cache_get faults.read_fails id cache ≡ none
      → find_exact faults today id today rows ≡ none
      → calls_of_today faults today id rows cache
        ≡ (answer_latest faults today id (find_latest faults today id rows), none)
  unfolding calls_of_today
  latest_last miss no_row = rw (miss, no_row, calls_of_today) refl
