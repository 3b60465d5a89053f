-- ===== src/Handlers/Dashboard/Coherent.antt =====
-- One day of DashboardCalls (internal/handlers/dashboard.go) beside the writers of the table: a request
-- reads in one step and fills the cache in a later one, an upsert of a snapshot and the deletion of its
-- cached copy are steps of their own, in this order, and copies expire at any time. An upsert that
-- comes between the two steps of a request overtakes its filling.
use exotel_monitoring_platfo.Prelude.{
  ◌++◌, map, [], ◌∷◌, All, ℕ, ◌≡◌, subst, Bool, true, false, ◌⊎◌, ◌&&◌, ◌||◌, not, inl, inr,
  Bool-cases, List, Option, none, some, Option-cases, Text, if◌then◌else◌, ◌==◌, ==_iff, arith,
}
use exotel_monitoring_platfo.Models.{CallMetricsSnapshot}
use exotel_monitoring_platfo.Repository.Snapshots.{upsert_metrics_row, get_call_metrics_snapshot}
use exotel_monitoring_platfo.Handlers.Dashboard.Branches.{cached_first, exact_second, latest_last}
use exotel_monitoring_platfo.Handlers.Dashboard.{
  Cache, cache_get, cache_set, cache_delete, Faults, CallsRequest, CallsAnswer, AskedDay,
  asked_today, asked_badly, asked_day, day_of_request, parse_uint, find_exact, calls_of_today,
  answer_calls, read_calls, fill_cache,
}

module _ {A : Type 0} where
  unless_failed :
      (fails : Bool) (o : Option A) (a : A) → (if fails then none else o) ≡ some a → o ≡ some a
  unless_failed true o a e = absurd (cc e)
  unless_failed false o a e = e

  some_inj : (a b : A) → some a ≡ some b → a ≡ b
  some_inj a b e = cc e

  pub cache_get-finds :
      (fails : Bool) (key : ℕ) (cache : Cache A) (a : A)
      → cache_get fails key cache ≡ some a
      → cache key ≡ some a
  unfolding cache_get
  cache_get-finds fails key cache a e = unless_failed fails (cache key) a e

  -- what a write leaves under a key is the written value or what was there
  pub cache_set-finds :
      (fails : Bool) (key k : ℕ) (value a : A) (cache : Cache A)
      → cache_set fails key value cache k ≡ some a
      → ((k ≡ key) × (value ≡ a)) ⊎ (cache k ≡ some a)
  unfolding cache_set
  cache_set-finds fails key k value a cache e = elim (Bool-cases (not fails && k == key)) [
    | inl hit ↦ inl (
      (==_iff k key).0 (ground (arith, hit)),
      some_inj value a (subst (λ b. (if b then some value else cache k) ≡ some a) hit e),
    )
    | inr miss ↦ inr (subst (λ b. (if b then some value else cache k) ≡ some a) miss e)
  ]

  pub deleted-finds :
      (key k : ℕ) (cache : Cache A) (a : A)
      → cache_delete key cache k ≡ some a
      → ((k == key) ≡ false) × (cache k ≡ some a)
  unfolding cache_delete
  deleted-finds key k cache a e = elim (Bool-cases (k == key)) [
    | inl hit ↦ absurd (cc (subst (λ b. (if b then none else cache k) ≡ some a) hit e))
    | inr miss ↦ (miss, subst (λ b. (if b then none else cache k) ≡ some a) miss e)
  ]

-- a row that a request has read and not yet put into the cache, and whether an upsert has overtaken it
pub record Fill (R : Type 0) : Type 0 where
  pub key : ℕ
  pub row : CallMetricsSnapshot R
  pub overtaken : Bool

-- The table, the cache, the fillings on their way, the exophones whose copy is still to be deleted, and
-- those whose copy was filled by an overtaken request and not removed since.
pub record DayStore (R : Type 0) : Type 0 where
  pub rows : List (CallMetricsSnapshot R)
  pub cache : Cache (CallMetricsSnapshot R)
  pub fills : List (Fill R)
  pub to_delete : ℕ → Bool
  pub outdated : ℕ → Bool

module _ {R : Type 0} where
  unfoldable pub with_fill : ℕ → Option (CallMetricsSnapshot R) → List (Fill R) → List (Fill R)
  with_fill key none fills = fills
  with_fill key (some row) fills = fills ++ record { key = key; row = row; overtaken = false } ∷ []

  abbrev pub overtake : ℕ → Fill R → Fill R
  overtake key f = record { key = f.key; row = f.row; overtaken = f.key == key || f.overtaken }

  abbrev pub without_copy : ℕ → DayStore R → DayStore R
  without_copy key st = record st {
    cache = cache_delete key st.cache;
    outdated = λ k. not (k == key) && st.outdated k;
  }

  module _ (parse_date : Text → Option ℕ) (today : ℕ) where
    pub data DayStep : DayStore R → DayStore R → Type 0 where
      read :
          (st : DayStore R) (faults : Faults) (request : CallsRequest)
          → DayStep st (record st {
            fills =
                with_fill
                  (parse_uint request.id)
                  (read_calls parse_date faults today request st.rows st.cache).1
                  st.fills;
          })
      fill :
          (st : DayStore R) (before after : List (Fill R)) (f : Fill R) (fails : Bool)
          → st.fills ≡ before ++ f ∷ after
          → DayStep st (record {
            rows = st.rows;
            cache = fill_cache fails f.key (some f.row) st.cache;
            fills = before ++ after;
            to_delete = st.to_delete;
            outdated = λ k. k == f.key && f.overtaken || st.outdated k;
          })
      write_row :
          (st : DayStore R) (snap : CallMetricsSnapshot R)
          → DayStep st (record {
            rows = upsert_metrics_row snap st.rows;
            cache = st.cache;
            fills = map (overtake snap.exophone_id) st.fills;
            to_delete = λ k. k == snap.exophone_id || st.to_delete k;
            outdated = st.outdated;
          })
      delete_copy :
          (st : DayStore R) (key : ℕ)
          → DayStep st
              (record (without_copy key st) { to_delete = λ k. not (k == key) && st.to_delete k })
      expire : (st : DayStore R) (key : ℕ) → DayStep st (without_copy key st)

    pub data DayRun : DayStore R → DayStore R → Type 0 where
      no_step : (st : DayStore R) → DayRun st st
      then_step : (a b c : DayStore R) → DayRun a b → DayStep b c → DayRun a c

  abbrev pub IsCurrent : ℕ → List (CallMetricsSnapshot R) → Fill R → Type 0
  IsCurrent today rows f =
      f.overtaken ≡ false → get_call_metrics_snapshot f.key today rows ≡ some f.row

  -- A cached row is the one of the day, unless its deletion is still to come or an overtaken request
  -- filled it; and so is a row on its way that no upsert has overtaken.
  pub record IsCoherent (today : ℕ) (st : DayStore R) : Type 0 where
    pub cached :
        (k : ℕ) (row : CallMetricsSnapshot R)
        → st.to_delete k ≡ false
        → st.outdated k ≡ false
        → st.cache k ≡ some row
        → get_call_metrics_snapshot k today st.rows ≡ some row
    pub filling : All (IsCurrent today st.rows) st.fills

  find_exact-finds :
      (faults : Faults) (today id day : ℕ) (rows : List (CallMetricsSnapshot R))
      (row : CallMetricsSnapshot R)
      → find_exact faults today id day rows ≡ some row
      → get_call_metrics_snapshot id day rows ≡ some row
  unfolding find_exact
  find_exact-finds faults today id day rows row e =
      unless_failed faults.exact_fails (get_call_metrics_snapshot id day rows) row e

  -- a row that a request is to cache is the day's
  calls_of_today-finds :
      (faults : Faults) (today id : ℕ) (rows : List (CallMetricsSnapshot R))
      (cache : Cache (CallMetricsSnapshot R)) (row : CallMetricsSnapshot R)
      → (calls_of_today faults today id rows cache).1 ≡ some row
      → get_call_metrics_snapshot id today rows ≡ some row
  calls_of_today-finds faults today id rows cache row e =
      let next = λ (x : CallsAnswer R × Option (CallMetricsSnapshot R)). x.1 ≡ some row in
      elim (Option-cases (cache_get faults.read_fails id cache)) [
        | inr (cached, hit) ↦
            absurd (cc (subst next (cached_first faults today id rows cache cached hit) e))
        | inl miss ↦ elim (Option-cases (find_exact faults today id today rows)) [
          | inl no_row ↦
              absurd (cc (subst next (latest_last faults today id rows cache miss no_row) e))
          | inr (found, there) ↦
              let same =
                some_inj found row
                  (subst next (exact_second faults today id rows cache found miss there) e) in
              let exact = find_exact-finds faults today id today rows found there in
              cc (exact, same)
        ]
      ]

  answer_calls-finds :
      (faults : Faults) (today id : ℕ) (day : AskedDay) (rows : List (CallMetricsSnapshot R))
      (cache : Cache (CallMetricsSnapshot R)) (row : CallMetricsSnapshot R)
      → (answer_calls faults today id day rows cache).1 ≡ some row
      → get_call_metrics_snapshot id today rows ≡ some row
  unfolding answer_calls
  answer_calls-finds faults today id asked_today rows cache row e =
      calls_of_today-finds faults today id rows cache row e
  answer_calls-finds faults today id asked_badly rows cache row e = absurd (cc e)
  answer_calls-finds faults today id (asked_day day) rows cache row e = absurd (cc e)

  pub read_calls-finds :
      (parse_date : Text → Option ℕ) (faults : Faults) (today : ℕ) (request : CallsRequest)
      (rows : List (CallMetricsSnapshot R)) (cache : Cache (CallMetricsSnapshot R))
      (row : CallMetricsSnapshot R)
      → (read_calls parse_date faults today request rows cache).1 ≡ some row
      → get_call_metrics_snapshot (parse_uint request.id) today rows ≡ some row
  unfolding read_calls
  read_calls-finds parse_date faults today request rows cache row e =
      elim (Bool-cases (parse_uint request.id == 0)) [
        | inl zero ↦ absurd (cc (rw (zero, read_calls) at e))
        | inr id ↦
            answer_calls-finds faults today (parse_uint request.id)
              (day_of_request parse_date request.date) rows cache row (rw (id, read_calls) at e)
      ]
