-- ===== src/Handlers/Dashboard/Current.antt =====
-- What DashboardCalls (internal/handlers/dashboard.go) answers along a day's steps.
use exotel_monitoring_platfo.Prelude.{
  not, ◌&&◌, ◌||◌, [], ◌∷◌, ◌++◌, map, subst, All, All-append, ==_iff, ℕ, ◌≡◌, refl, sym, ap, ◌∙◌,
  Bool, true, false, inl, inr, Bool-cases, List, Option, none, some, Option-cases, Text, ◌==◌,
  arith,
}
use exotel_monitoring_platfo.Models.{CallMetricsSnapshot}
use exotel_monitoring_platfo.Repository.Tables.{pair_eq}
use exotel_monitoring_platfo.Repository.Snapshots.{
  metrics_row_key, upsert_metrics_row, get_call_metrics_snapshot,
}
use exotel_monitoring_platfo.Repository.Snapshots.Keys.{upsert_then_get}
use exotel_monitoring_platfo.Handlers.Dashboard.{
  Cache, cache_get, Faults, CallsRequest, CallsAnswer, served, invalid_id, invalid_date, none_on,
  sync_pending, AskedDay, asked_today, asked_badly, asked_day, day_of_request, parse_uint,
  find_exact, calls_of_today, answer_calls, read_calls, fill_cache, cache_delete,
}
use exotel_monitoring_platfo.Handlers.Dashboard.Branches.{cached_first, exact_second, latest_last}
use exotel_monitoring_platfo.Handlers.Dashboard.Coherent.{
  Fill, DayStore, DayStep, with_fill, overtake, read, fill, write_row, delete_copy, expire, DayRun,
  no_step, then_step, IsCurrent, IsCoherent, cache_set-finds, read_calls-finds, deleted-finds,
  cache_get-finds,
}

module _ {R : Type 0} where
  -- an answer but for where its row comes from
  unfoldable pub told : CallsAnswer R → CallsAnswer R
  told invalid_id = invalid_id
  told invalid_date = invalid_date
  told (served s) = served (record s { from_cache = false })
  told (none_on k day) = none_on k day
  told (sync_pending k) = sync_pending k

  abbrev pub no_copies : Cache (CallMetricsSnapshot R)
  no_copies k = none

  -- another exophone's row of the day is not touched by an upsert
  other_row :
      (snap : CallMetricsSnapshot R) (rows : List (CallMetricsSnapshot R)) (k today : ℕ)
      → (k == snap.exophone_id) ≡ false
      → get_call_metrics_snapshot k today (upsert_metrics_row snap rows)
        ≡ get_call_metrics_snapshot k today rows
  other_row snap rows k today other =
      let apart : pair_eq (metrics_row_key snap) (today, k) ≡ false = ground arith in
      (upsert_then_get snap rows k today).0 ∙ rw apart refl

  -- a row that stays current through an upsert that does not overtake it
  overtake-IsCurrent :
      (snap : CallMetricsSnapshot R) (rows : List (CallMetricsSnapshot R)) (today : ℕ) (f : Fill R)
      → IsCurrent today rows f
      → IsCurrent today (upsert_metrics_row snap rows) (overtake snap.exophone_id f)
  overtake-IsCurrent snap rows today f current kept =
      let other : (f.key == snap.exophone_id) ≡ false = ground (arith, kept) in
      let still : f.overtaken ≡ false = ground (arith, kept) in
      other_row snap rows f.key today other ∙ current still

  fills_passed :
      (snap : CallMetricsSnapshot R) (rows : List (CallMetricsSnapshot R)) (today : ℕ)
      (fills : List (Fill R))
      → All (IsCurrent today rows) fills
      → All (IsCurrent today (upsert_metrics_row snap rows)) (map (overtake snap.exophone_id) fills)
  fills_passed snap rows today [] h = tt
  fills_passed snap rows today (f ∷ fills) (current, h) =
      (overtake-IsCurrent snap rows today f current, fills_passed snap rows today fills h)

  with_fill-IsCurrent :
      (today key : ℕ) (rows : List (CallMetricsSnapshot R)) (found : Option (CallMetricsSnapshot R))
      (fills : List (Fill R))
      → ((row : CallMetricsSnapshot R)
          → found ≡ some row
          → get_call_metrics_snapshot key today rows ≡ some row)
      → All (IsCurrent today rows) fills
      → All (IsCurrent today rows) (with_fill key found fills)
  unfolding with_fill
  with_fill-IsCurrent today key rows none fills finds h = h
  with_fill-IsCurrent today key rows (some row) fills finds h =
      All-append (IsCurrent today rows) fills
        (record { key = key; row = row; overtaken = false } ∷ []) h (λ kept. finds row refl, tt)

  All-split :
      (P : Fill R → Type 0) (before after : List (Fill R)) (f : Fill R)
      → All P (before ++ f ∷ after)
      → P f × All P (before ++ after)
  All-split P [] after f h = h
  All-split P (g ∷ before) after f (first, h) =
      let (here, others) = All-split P before after f h in (here, (first, others))

  without_copy-cached :
      (today key : ℕ) (st : DayStore R)
      → IsCoherent today st
      → (k : ℕ) (row : CallMetricsSnapshot R) → ((k == key) ≡ false → st.to_delete k ≡ false)
      → (not (k == key) && st.outdated k) ≡ false
      → cache_delete key st.cache k ≡ some row
      → get_call_metrics_snapshot k today st.rows ≡ some row
  without_copy-cached today key st h k row left fresh e =
      let (other, there) = deleted-finds key k st.cache row e in
      let kept : st.outdated k ≡ false = ground (arith, other, fresh) in
      h.cached k row (left other) kept there

  fill-cached :
      (today : ℕ) (st : DayStore R) (f : Fill R) (fails : Bool)
      → IsCoherent today st
      → IsCurrent today st.rows f
      → (k : ℕ) (row : CallMetricsSnapshot R) → st.to_delete k ≡ false
      → (k == f.key && f.overtaken || st.outdated k) ≡ false
      → fill_cache fails f.key (some f.row) st.cache k ≡ some row
      → get_call_metrics_snapshot k today st.rows ≡ some row
  unfolding fill_cache
  fill-cached today st f fails h current k row left fresh e =
      let kept : st.outdated k ≡ false = ground (arith, fresh) in
      elim (cache_set-finds fails f.key k f.row row st.cache e) [
        | inl (here, same) ↦
            let hit = (==_iff k f.key).1 here in
            let on_time : f.overtaken ≡ false = ground (arith, fresh, hit) in
            let found = current on_time in cc (found, here, same)
        | inr there ↦ h.cached k row left kept there
      ]

  module _ (parse_date : Text → Option ℕ) (today : ℕ) where
    step-IsCoherent :
        (st next : DayStore R)
        → DayStep parse_date today st next
        → IsCoherent today st
        → IsCoherent today next
    step-IsCoherent st next (read now faults request) h = record {
      cached = h.cached;
      filling =
          with_fill-IsCurrent today (parse_uint request.id) now.rows
            (read_calls parse_date faults today request now.rows now.cache).1 now.fills
            (read_calls-finds parse_date faults today request now.rows now.cache) h.filling;
    }
    step-IsCoherent st next (fill now before after f fails here) h =
        let (current, others) =
          All-split (IsCurrent today now.rows) before after f
            (subst (All (IsCurrent today now.rows)) here h.filling) in
        record { cached = fill-cached today now f fails h current; filling = others }
    step-IsCoherent st next (write_row now snap) h = record {
      cached = λ k row left fresh e.
          let other : (k == snap.exophone_id) ≡ false = ground (arith, left) in
          let kept : now.to_delete k ≡ false = ground (arith, left) in
          other_row snap now.rows k today other ∙ h.cached k row kept fresh e;
      filling = fills_passed snap now.rows today now.fills h.filling;
    }
    step-IsCoherent st next (delete_copy now key) h = record {
      cached = λ k row left.
          without_copy-cached today key now h k row (λ other. ground (arith, other, left));
      filling = h.filling;
    }
    step-IsCoherent st next (expire now key) h = record {
      cached = λ k row left. without_copy-cached today key now h k row (λ other. left);
      filling = h.filling;
    }

    run-IsCoherent :
        (st next : DayStore R)
        → DayRun parse_date today st next
        → IsCoherent today st
        → IsCoherent today next
    run-IsCoherent st next (no_step same) h = h
    run-IsCoherent st next (then_step start middle end run step) h =
        step-IsCoherent middle end step (run-IsCoherent start middle run h)

  none_is_not : (row : CallMetricsSnapshot R) → none ≡ some row → ⊥
  none_is_not row e = cc e

  no_copy : (fails : Bool) (id : ℕ) → cache_get fails id no_copies ≡ none
  unfolding cache_get
  no_copy true id = refl
  no_copy false id = refl

  exact_row :
      (faults : Faults) (today id day : ℕ) (rows : List (CallMetricsSnapshot R))
      → faults.exact_fails ≡ false
      → find_exact faults today id day rows ≡ get_call_metrics_snapshot id day rows
  unfolding find_exact
  exact_row faults today id day rows works = rw works refl

  today_told :
      (faults : Faults) (today id : ℕ) (st : DayStore R)
      → faults.exact_fails ≡ false
      → IsCoherent today st
      → st.to_delete id ≡ false
      → st.outdated id ≡ false
      → told (calls_of_today faults today id st.rows st.cache).0
        ≡ told (calls_of_today faults today id st.rows no_copies).0
  unfolding told
  today_told faults today id st works h left fresh =
      let tell = λ (x : CallsAnswer R × Option (CallMetricsSnapshot R)). told x.0 in
      elim (Option-cases (cache_get faults.read_fails id st.cache)) [
        | inr (row, hit) ↦
            let here =
              h.cached id row left fresh (cache_get-finds faults.read_fails id st.cache row hit) in
            let exact = exact_row faults today id today st.rows works ∙ here in
            ap tell (cached_first faults today id st.rows st.cache row hit)
            ∙ sym (
                ap tell (
                  exact_second faults today id st.rows no_copies row (no_copy faults.read_fails id)
                    exact))
        | inl miss ↦ elim (Option-cases (find_exact faults today id today st.rows)) [
          | inr (row, exact) ↦
              ap tell (exact_second faults today id st.rows st.cache row miss exact)
              ∙ sym (
                  ap tell (
                    exact_second faults today id st.rows no_copies row
                      (no_copy faults.read_fails id) exact))
          | inl no_row ↦
              ap tell (latest_last faults today id st.rows st.cache miss no_row)
              ∙ sym (
                  ap tell (
                    latest_last faults today id st.rows no_copies (no_copy faults.read_fails id)
                      no_row))
        ]
      ]

  answer_told :
      (faults : Faults) (today id : ℕ) (day : AskedDay) (st : DayStore R)
      → faults.exact_fails ≡ false
      → IsCoherent today st
      → st.to_delete id ≡ false
      → st.outdated id ≡ false
      → told (answer_calls faults today id day st.rows st.cache).0
        ≡ told (answer_calls faults today id day st.rows no_copies).0
  unfolding answer_calls
  answer_told faults today id asked_today st works h left fresh =
      today_told faults today id st works h left fresh
  answer_told faults today id asked_badly st works h left fresh = refl
  answer_told faults today id (asked_day day) st works h left fresh = refl

  -- Along the steps of one day that begin with an empty cache and no request under way, in which
  -- the reads of requests, their later fillings of the cache, upserts into the table, deletions of cached
  -- copies and expiries come in any order: a request says the same as one that is read from the table
  -- alone, whether or not the cache has a copy, if no deletion of a copy of the exophone is still to come,
  -- its copy was not filled, since it was last removed, by a request that an upsert of the exophone
  -- overtook between its read and its filling, and the query of the day's row does not fail.
  pub answers_current :
      (parse_date : Text → Option ℕ) (today : ℕ) (first st : DayStore R) (faults : Faults)
      (request : CallsRequest)
      → ((k : ℕ) → first.cache k ≡ none)
      → first.fills ≡ []
      → DayRun parse_date today first st
      → st.to_delete (parse_uint request.id) ≡ false
      → st.outdated (parse_uint request.id) ≡ false
      → faults.exact_fails ≡ false
      → told (read_calls parse_date faults today request st.rows st.cache).0
        ≡ told (read_calls parse_date faults today request st.rows no_copies).0
  unfolding read_calls
  answers_current parse_date today first st faults request empty idle run left fresh works =
      let started : IsCoherent today first = record {
        cached = λ k row l f e. absurd (none_is_not row (sym (empty k) ∙ e));
        filling = subst (All (IsCurrent today first.rows)) (sym idle) tt;
      } in
      let h = run-IsCoherent parse_date today first st run started in
      elim (Bool-cases (parse_uint request.id == 0)) [
        | inl zero ↦ rw (zero, read_calls) refl
        | inr id ↦
            rw (id, read_calls)
              (answer_told faults today (parse_uint request.id)
                (day_of_request parse_date request.date) st works h left fresh)
      ]
