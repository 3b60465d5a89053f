-- ===== src/Handlers/Dashboard/Fallback.antt =====
-- What DashboardCalls (internal/handlers/dashboard.go) answers before the day's first row.
use exotel_monitoring_platfo.Prelude.{
  ℕ, ◌≡◌, refl, ap, ◌∙◌, Bool, true, false, List, Option, none, some, Text, if◌then◌else◌, ◌==◌,
}
use exotel_monitoring_platfo.Models.{CallMetricsSnapshot}
use exotel_monitoring_platfo.Repository.Snapshots.{
  get_call_metrics_snapshot, get_latest_call_metrics_snapshot,
}
use exotel_monitoring_platfo.Repository.Snapshots.Keys.{IsNewest, get_latest-IsNewest}
use exotel_monitoring_platfo.Handlers.Dashboard.{
  CallsAnswer, served, sync_pending, Cache, cache_get, Faults, CallsRequest, asked_today,
  day_of_request, parse_uint, find_exact, find_latest, answer_latest, answer_calls, read_calls,
  fill_cache, dashboard_calls,
}
use exotel_monitoring_platfo.Handlers.Dashboard.Branches.{latest_last}

none_anyway {ℓ} :
    {A : Type ℓ} (fails : Bool) → (λ (o : Option A). if fails then none else o) none ≡ none
none_anyway true = refl
none_anyway false = refl

module _ {R : Type 0} where
  -- the answer to a request of today where this is the newest row
  abbrev pub fallback_told : ℕ → ℕ → Option (CallMetricsSnapshot R) → CallsAnswer R
  fallback_told today exophone_id none = sync_pending exophone_id
  fallback_told today exophone_id (some row) = served record {
    from_cache = false;
    row = row;
    date = today;
    stale = true;
    data_as_of = row.snapshot_date;
  }

  answer_latest-told :
      (faults : Faults) (today exophone_id : ℕ) (latest : Option (CallMetricsSnapshot R))
      → answer_latest faults today exophone_id latest ≡ fallback_told today exophone_id latest
  answer_latest-told faults today exophone_id none = refl
  answer_latest-told faults today exophone_id (some row) = refl

  -- For a request of today of an exophone with no cached copy and no row of today: the answer is a row
  -- of the table that is the exophone's newest of all, told to be stale and dated by its own day, or,
  -- only where the exophone has no row at all, that the first sync is pending; the cache is left as it
  -- is. No query of the table fails.
  pub falls_back_to_newest :
      (parse_date : Text → Option ℕ) (faults : Faults) (today : ℕ) (request : CallsRequest)
      (rows : List (CallMetricsSnapshot R)) (cache : Cache (CallMetricsSnapshot R))
      → (parse_uint request.id == 0) ≡ false
      → day_of_request parse_date request.date ≡ asked_today
      → faults.exact_fails ≡ false
      → faults.latest_fails ≡ false
      → cache (parse_uint request.id) ≡ none
      → get_call_metrics_snapshot (parse_uint request.id) today rows ≡ none
      → (latest : Option (CallMetricsSnapshot R)) × IsNewest (parse_uint request.id) rows latest
        × (dashboard_calls parse_date faults today request rows cache
            ≡ (fallback_told today (parse_uint request.id) latest, cache))
  unfolding dashboard_calls read_calls fill_cache answer_calls find_exact find_latest cache_get
  falls_back_to_newest parse_date faults today request rows cache id asked exact latest miss
        no_row =
      let k = parse_uint request.id in
      let unread : cache_get faults.read_fails k cache ≡ none =
        rw (miss, cache_get) (none_anyway faults.read_fails) in
      let unfound : find_exact faults today k today rows ≡ none = rw exact no_row in
      let filled : CallsAnswer R × Option (CallMetricsSnapshot R)
          → CallsAnswer R × Cache (CallMetricsSnapshot R) =
        λ x. (x.0, fill_cache faults.write_fails k x.1 cache) in
      let newest : find_latest faults today k rows ≡ get_latest_call_metrics_snapshot k rows =
        rw latest refl in
      (
        get_latest_call_metrics_snapshot k rows,
        get_latest-IsNewest k rows,
        rw (dashboard_calls, id, read_calls, asked, answer_calls)
            (ap filled (
                latest_last faults today k rows cache unread unfound
                ∙ ap (λ x. (answer_latest faults today k x, none)) newest)
              ∙ ap (λ x. (x, cache))
                  (answer_latest-told faults today k (get_latest_call_metrics_snapshot k rows))),
      )
