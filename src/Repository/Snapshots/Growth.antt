-- ===== src/Repository/Snapshots/Growth.antt =====
-- The account's dashboard (AccumulateAccountDashboardFromSnapshots of
-- internal/repository/snapshot_repo.go) after a batch of a live run (AccumulateCallMetrics of
-- internal/snapshots/generator.go).
use exotel_monitoring_platfo.Prelude.{
  ℕ, ◌+◌, ◌≡◌, refl, ap, sym, subst, ◌∙◌, List, Option, none, some, ==_iff, arith, Float64, Json,
}
use exotel_monitoring_platfo.Models.{Exophone, CallMetricsSnapshot, Instant}
use exotel_monitoring_platfo.Metrics.Breakdown.{Breakdown}
use exotel_monitoring_platfo.Metrics.Summary.Rates.{CallSummary}
use exotel_monitoring_platfo.Snapshots.Accumulate.{
  ist_day, new_snapshot, add_counts, add_summary, accumulate_call_metrics,
}
use exotel_monitoring_platfo.Snapshots.Batches.{counts-after}
use exotel_monitoring_platfo.Snapshots.Rows.{base_row, accumulated_row}
use exotel_monitoring_platfo.Repository.Tables.{
  first_row, sum_rows, upsert, has_key, stored_row, pair_eq_sound, sum_rows-upsert, of_row,
  first_row-holds,
}
use exotel_monitoring_platfo.Repository.Snapshots.{
  Mysql, metrics_row_key, update_metrics, upsert_metrics_row, get_call_metrics_snapshot, on_account,
  dashboard_row, dashboard_from_snapshots,
}

module _ {R : Type 0} (account_id exophone_id today : ℕ) (rows : List (CallMetricsSnapshot R)) where
  abbrev found : Option (CallMetricsSnapshot R)
  found = get_call_metrics_snapshot exophone_id today rows

  -- a sum whose stored row has grown
  sum_grows :
      (f : CallMetricsSnapshot R → ℕ) (inc : ℕ) (new : CallMetricsSnapshot R)
      → metrics_row_key new ≡ (today, exophone_id)
      → f (stored_row metrics_row_key update_metrics new found) ≡ of_row f found + inc
      → sum_rows f (upsert_metrics_row new rows) ≡ sum_rows f rows + inc
  unfolding upsert_metrics_row get_call_metrics_snapshot
  sum_grows f inc new at grown = omega (
    arith,
    grown,
    subst
        (λ k.
          sum_rows f (upsert metrics_row_key update_metrics new rows)
            + of_row f (first_row (has_key metrics_row_key update_metrics k) rows)
          ≡ sum_rows f rows
            + f (
                stored_row metrics_row_key update_metrics new
                  (first_row (has_key metrics_row_key update_metrics k) rows)))
        at (sum_rows-upsert metrics_row_key update_metrics f new rows),
  )

  found-key :
      (old : CallMetricsSnapshot R) → found ≡ some old → metrics_row_key old ≡ (today, exophone_id)
  unfolding get_call_metrics_snapshot
  found-key old e =
      pair_eq_sound (metrics_row_key old) (today, exophone_id)
        (first_row-holds (has_key metrics_row_key update_metrics (today, exophone_id)) rows old e)

module _ {R : Type 0} (float : Float64 R) (hours_json : Json (List ℕ)) (map_json : Json Breakdown)
    (mysql : Mysql R) where
  abbrev after : CallSummary R → CallMetricsSnapshot R → CallMetricsSnapshot R
  after = add_summary float hours_json map_json

  -- A batch changes neither the key nor the account of the row.
  row-after :
      (s : CallSummary R) (snap : CallMetricsSnapshot R)
      → (metrics_row_key (after s snap) ≡ metrics_row_key snap)
        × ((after s snap).account_id ≡ snap.account_id)
  unfolding add_summary
  row-after s snap =
      let date : (after s snap).snapshot_date ≡ snap.snapshot_date = ground arith in
      let exophone : (after s snap).exophone_id ≡ snap.exophone_id = ground arith in
      (cc (date, exophone), ground arith)

  module _ (account_id exophone_id : ℕ) (now : Instant) (rows : List (CallMetricsSnapshot R))
      (s : CallSummary R) where
    abbrev today : ℕ
    today = ist_day now

    abbrev base : Option (CallMetricsSnapshot R) → CallMetricsSnapshot R
    base old = base_row float hours_json map_json account_id exophone_id now old

    counts_on :
        (g : CallMetricsSnapshot R → ℕ) (row : CallMetricsSnapshot R)
        → row.account_id ≡ account_id
        → row.snapshot_date ≡ today
        → on_account account_id today g row ≡ g row
    counts_on g row acc date =
        rw ((==_iff row.account_id account_id).1 acc, (==_iff row.snapshot_date today).1 date)

    -- what the batch stores, and what stood there
    stored_grows :
        (g : CallMetricsSnapshot R → ℕ) (inc : ℕ) (old : Option (CallMetricsSnapshot R))
        → (base old).account_id ≡ account_id
        → metrics_row_key (base old) ≡ (today, exophone_id)
        → g (new_snapshot float account_id exophone_id today) ≡ 0
        → g (after s (base old)) ≡ g (base old) + inc
        → ((new row : CallMetricsSnapshot R) → g (update_metrics new row) ≡ g new)
        → on_account account_id today g
            (stored_row metrics_row_key update_metrics (after s (base old)) old)
          ≡ of_row (on_account account_id today g) old + inc
    unfolding update_metrics
    stored_grows g inc none acc key zero grown keeps =
        let (same_key, same_account) = row-after s (base none) in
        omega (
          arith,
          counts_on g (after s (base none)) (same_account ∙ acc)
              (ap (λ (x : ℕ × ℕ). x.0) (same_key ∙ key)),
          zero,
          grown,
        )
    stored_grows g inc (some row) acc key zero grown keeps =
        let (same_key, same_account) = row-after s row in
        let new = update_metrics (after s row) row in
        omega (
          arith,
          counts_on g (update_metrics (after s row) row) acc
              (ap (λ (x : ℕ × ℕ). x.0) (same_key ∙ key)),
          counts_on g row acc (ap (λ (x : ℕ × ℕ). x.0) key),
          keeps (after s row) row,
          grown,
        )

    -- A count of the row that a batch adds to adds to the sum over the account's rows.
    count_grows :
        (g : CallMetricsSnapshot R → ℕ) (inc : ℕ) (old : Option (CallMetricsSnapshot R))
        → found account_id exophone_id today rows ≡ old
        → (base old).account_id ≡ account_id
        → metrics_row_key (base old) ≡ (today, exophone_id)
        → g (new_snapshot float account_id exophone_id today) ≡ 0
        → g (after s (base old)) ≡ g (base old) + inc
        → ((new row : CallMetricsSnapshot R) → g (update_metrics new row) ≡ g new)
        → sum_rows (on_account account_id today g) (upsert_metrics_row (after s (base old)) rows)
          ≡ sum_rows (on_account account_id today g) rows + inc
    count_grows g inc old e acc key zero grown keeps =
        sum_grows account_id exophone_id today rows (on_account account_id today g) inc
          (after s (base old)) ((row-after s (base old)).0 ∙ key)
          (subst
            (λ o.
              on_account account_id today g
                (stored_row metrics_row_key update_metrics (after s (base old)) o)
              ≡ of_row (on_account account_id today g) o + inc)
            (sym e) (stored_grows g inc old acc key zero grown keeps))

    -- The two counts of the dashboard that a batch moves, before and after its upsert.
    dashboard_counts :
        (old : Option (CallMetricsSnapshot R))
        → found account_id exophone_id today rows ≡ old
        → (base old).account_id ≡ account_id
        → metrics_row_key (base old) ≡ (today, exophone_id)
        → (exophones : List Exophone)
        → let before = dashboard_from_snapshots float mysql today account_id exophones rows in
          let later =
            dashboard_from_snapshots float mysql today account_id exophones
              (upsert_metrics_row (after s (base old)) rows) in
          (later.total_calls ≡ before.total_calls + s.total)
          × (later.failed_calls ≡ before.failed_calls + (s.failed_calls + s.no_answer_calls))
    unfolding dashboard_from_snapshots dashboard_row update_metrics new_snapshot add_counts
    dashboard_counts old e acc key exophones =
        let (same, connected) = counts-after float hours_json map_json s (base old) in
        (
          count_grows (λ r. r.total_calls) s.total old e acc key refl same.total_calls
              (λ new row. refl),
          count_grows (λ r. r.failed_calls + r.no_answer_calls) (s.failed_calls + s.no_answer_calls)
              old e acc key (omega arith) (omega (arith, same.failed_calls, same.no_answer_calls))
              (λ new row. refl),
        )

    key_of_base :
        (old : Option (CallMetricsSnapshot R))
        → found account_id exophone_id today rows ≡ old
        → metrics_row_key (base old) ≡ (today, exophone_id)
    unfolding new_snapshot
    key_of_base none e = refl
    key_of_base (some old) e = found-key account_id exophone_id today rows old e

    account_of_base :
        (old : Option (CallMetricsSnapshot R))
        → ((row : CallMetricsSnapshot R) → old ≡ some row → row.account_id ≡ account_id)
        → (base old).account_id ≡ account_id
    unfolding new_snapshot
    account_of_base none own = refl
    account_of_base (some old) own = own old refl

    -- Where a batch of a live run goes into the row of the exophone and the IST day that is in the
    -- table, or into a new one, and a row that is there is the account's, the upsert of the row raises
    -- the total of the account's dashboard by exactly the calls of the batch, and its failed calls by
    -- those of the batch that failed or were not answered, whatever else the table holds.
    pub dashboard_grows :
        (exophones : List Exophone) (new : CallMetricsSnapshot R)
        → accumulate_call_metrics float hours_json map_json account_id exophone_id now
            (get_call_metrics_snapshot exophone_id (ist_day now) rows)
            s
          ≡ some new
        → ((row : CallMetricsSnapshot R)
            → get_call_metrics_snapshot exophone_id (ist_day now) rows ≡ some row
            → row.account_id ≡ account_id)
        → let before =
            dashboard_from_snapshots float mysql (ist_day now) account_id exophones rows in
          let later =
            dashboard_from_snapshots float mysql
              (ist_day now)
              account_id
              exophones
              (upsert_metrics_row new rows) in
          (later.total_calls ≡ before.total_calls + s.total)
          × (later.failed_calls ≡ before.failed_calls + (s.failed_calls + s.no_answer_calls))
    dashboard_grows exophones new stored own =
        let old = found account_id exophone_id today rows in
        let same =
          accumulated_row float hours_json map_json account_id exophone_id now s old new stored in
        subst
          (λ row.
            let before = dashboard_from_snapshots float mysql today account_id exophones rows in
            let later =
              dashboard_from_snapshots float mysql today account_id exophones
                (upsert_metrics_row row rows) in
            (later.total_calls ≡ before.total_calls + s.total)
            × (later.failed_calls ≡ before.failed_calls + (s.failed_calls + s.no_answer_calls)))
          (sym same)
          (dashboard_counts old refl (account_of_base old own) (key_of_base old refl) exophones)
