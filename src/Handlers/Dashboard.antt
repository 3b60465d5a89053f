-- ===== src/Handlers/Dashboard.antt =====
-- DashboardCalls (internal/handlers/dashboard.go), and the cache of internal/cache/cache.go as what a
-- key of it finds. A row is cached as its JSON; here it is the row. A time to live ends by itself, and
-- is a step of Dashboard/Coherent. The handler reads first and fills the cache afterwards, with no lock:
-- what is read comes with the row that is still to be cached, and the filling is a function of its own. What time.Parse makes of a date, as the number of its day, is a
-- parameter.
pub mod Branches
pub mod Coherent
pub mod Current
pub mod Fallback
pub mod Recounted
pub mod Summary
use exotel_monitoring_platfo.Prelude.{
  ℕ, ◌+◌, ◌*◌, ◌-◌, ◌^◌, Bool, true, false, ◌&&◌, ◌||◌, not, List, [], ◌∷◌, Option, none, some,
  Text, codes, text_eq, is_empty, is_digit, if◌then◌else◌, ◌==◌, ltb,
}
use exotel_monitoring_platfo.Models.{CallMetricsSnapshot}
use exotel_monitoring_platfo.Repository.Snapshots.{
  get_call_metrics_snapshot, get_latest_call_metrics_snapshot,
}

-- The loop of strconv.ParseUint at 64 bits: a syntax error gives 0, a number out of range the
-- largest one.
unfoldable pub parse_digits : ℕ → Text → ℕ
parse_digits n [] = n
parse_digits n (c ∷ s) =
    let next = n * 10 + (c - b'0') in
    let rest = parse_digits next s in
    if not (is_digit c) then 0 else if ltb (2 ^ 64 - 1) next then 2 ^ 64 - 1 else rest

unfoldable pub parse_uint : Text → ℕ
unfolding parse_digits
parse_uint s = if is_empty s then 0 else parse_digits 0 s

abbrev pub Cache : Type 0 → Type 0
Cache A = ℕ → Option A

module _ {A : Type 0} where
  -- Get: a miss and an error are both passed over
  unfoldable pub cache_get : Bool → ℕ → Cache A → Option A
  cache_get fails key cache = if fails then none else cache key

  unfoldable pub cache_set : Bool → ℕ → A → Cache A → Cache A
  cache_set fails key value cache other =
      if not fails && other == key then some value else cache other

  unfoldable pub cache_delete : ℕ → Cache A → Cache A
  cache_delete key cache other = if other == key then none else cache other

-- which of the calls of the cache and of the database fail
pub record Faults : Type 0 where
  pub read_fails : Bool
  pub write_fails : Bool
  pub exact_fails : Bool
  pub latest_fails : Bool

-- the parameters of the request, an absent date as the empty one
pub record CallsRequest : Type 0 where
  pub id : Text
  pub date : Text

pub record ServedCalls (R : Type 0) : Type 0 where
  pub from_cache : Bool
  pub row : CallMetricsSnapshot R
  pub date : ℕ
  pub stale : Bool
  pub data_as_of : ℕ

-- 400 twice, 200, 404 for a day of the past, 404 with "pending"
pub data CallsAnswer (R : Type 0) : Type 0 where
  invalid_id invalid_date : CallsAnswer R
  served : ServedCalls R → CallsAnswer R
  none_on : ℕ → ℕ → CallsAnswer R
  sync_pending : ℕ → CallsAnswer R

pub data AskedDay : Type 0 where
  asked_today asked_badly : AskedDay
  asked_day : ℕ → AskedDay

unfoldable pub day_of_request : (Text → Option ℕ) → Text → AskedDay
day_of_request parse_date date =
    if is_empty date || text_eq date (codes "today")
    then asked_today
    else elim (parse_date date) [ none ↦ asked_badly | some day ↦ asked_day day ]

module _ {R : Type 0} (faults : Faults) (today exophone_id : ℕ) where
  abbrev pub fresh : Bool → CallMetricsSnapshot R → ℕ → CallsAnswer R
  fresh from_cache row day =
      served
        record { from_cache = from_cache; row = row; date = day; stale = false; data_as_of = day }

  unfoldable pub find_exact : ℕ → List (CallMetricsSnapshot R) → Option (CallMetricsSnapshot R)
  unfolding get_call_metrics_snapshot
  find_exact day rows =
      if faults.exact_fails then none else get_call_metrics_snapshot exophone_id day rows

  unfoldable pub find_latest : List (CallMetricsSnapshot R) → Option (CallMetricsSnapshot R)
  unfolding get_latest_call_metrics_snapshot
  find_latest rows =
      if faults.latest_fails then none else get_latest_call_metrics_snapshot exophone_id rows

  -- the most recent row, marked as stale
  abbrev pub answer_latest : Option (CallMetricsSnapshot R) → CallsAnswer R
  answer_latest none = sync_pending exophone_id
  answer_latest (some row) = served record {
    from_cache = false;
    row = row;
    date = today;
    stale = true;
    data_as_of = row.snapshot_date;
  }

  -- the answer, and the row with which the cache is to be filled
  unfoldable pub calls_of_today :
      List (CallMetricsSnapshot R)
      → Cache (CallMetricsSnapshot R)
      → CallsAnswer R × Option (CallMetricsSnapshot R)
  unfolding cache_get find_exact find_latest
  calls_of_today rows cache = elim (cache_get faults.read_fails exophone_id cache) [
    | some row ↦ (fresh true row today, none)
    | none ↦ elim (find_exact today rows) [
      | some row ↦ (fresh false row today, some row)
      | none ↦ (answer_latest (find_latest rows), none)
    ]
  ]

  unfoldable pub calls_of_day : ℕ → List (CallMetricsSnapshot R) → CallsAnswer R
  unfolding find_exact
  calls_of_day day rows = elim (find_exact day rows) [
    | some row ↦ fresh false row day
    | none ↦ none_on exophone_id day
  ]

module _ {R : Type 0} where
  unfoldable pub answer_calls :
      Faults
      → ℕ
      → ℕ
      → AskedDay
      → List (CallMetricsSnapshot R)
      → Cache (CallMetricsSnapshot R)
      → CallsAnswer R × Option (CallMetricsSnapshot R)
  unfolding calls_of_today calls_of_day
  answer_calls faults today exophone_id asked_today rows cache =
      calls_of_today faults today exophone_id rows cache
  answer_calls faults today exophone_id asked_badly rows cache = (invalid_date, none)
  answer_calls faults today exophone_id (asked_day day) rows cache =
      (calls_of_day faults today exophone_id day rows, none)

  -- a request up to the filling of the cache
  unfoldable pub read_calls :
      (Text → Option ℕ)
      → Faults
      → ℕ
      → CallsRequest
      → List (CallMetricsSnapshot R)
      → Cache (CallMetricsSnapshot R)
      → CallsAnswer R × Option (CallMetricsSnapshot R)
  unfolding parse_uint day_of_request answer_calls
  read_calls parse_date faults today request rows cache =
      let exophone_id = parse_uint request.id in
      let answer =
        answer_calls faults today exophone_id (day_of_request parse_date request.date) rows cache in
      if exophone_id == 0 then (invalid_id, none) else answer

  unfoldable pub fill_cache :
      Bool
      → ℕ
      → Option (CallMetricsSnapshot R)
      → Cache (CallMetricsSnapshot R)
      → Cache (CallMetricsSnapshot R)
  unfolding cache_set
  fill_cache fails exophone_id none cache = cache
  fill_cache fails exophone_id (some row) cache = cache_set fails exophone_id row cache

  -- the whole request, where nothing comes between its steps
  unfoldable pub dashboard_calls :
      (Text → Option ℕ)
      → Faults
      → ℕ
      → CallsRequest
      → List (CallMetricsSnapshot R)
      → Cache (CallMetricsSnapshot R)
      → CallsAnswer R × Cache (CallMetricsSnapshot R)
  unfolding read_calls fill_cache
  dashboard_calls parse_date faults today request rows cache =
      let (answer, fill) = read_calls parse_date faults today request rows cache in
      (answer, fill_cache faults.write_fails (parse_uint request.id) fill cache)
