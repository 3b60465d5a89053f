-- ===== src/Handlers/Dashboard/Recounted.antt =====
-- DashboardSummary (internal/handlers/dashboard.go) behind AccumulateAccountDashboardFromSnapshots
-- (internal/repository/snapshot_repo.go).
use exotel_monitoring_platfo.Prelude.{
  ℕ, pos, Bool, true, ◌&&◌, ◌+◌, ◌≤◌, ap, ==_iff, codes, text_eq, to_lower, if◌then◌else◌, ◌==◌,
  max, ◌≡◌, refl, ◌∙◌, false, Bool-cases, inl, inr, List, [], ◌∷◌, map, Option, none, some,
  count_if, Float64, arith,
}
use exotel_monitoring_platfo.Models.{
  Account, Exophone, AccountDashboardSnapshot, CallMetricsSnapshot,
}
use exotel_monitoring_platfo.Repository.Tables.{
  first_row, first_row-holds, sum_rows, last_row, has_key, upsert, stored_row, pair_eq_refl,
  first_row-upsert, count-upsert, last_row-first_row, sum_rows,
}
use exotel_monitoring_platfo.Repository.Snapshots.{
  Mysql, dashboard_row_key, update_dashboard, dashboard_from_snapshots, on_account, success_rate_of,
  accumulate_account_dashboard_from_snapshots,
}
use exotel_monitoring_platfo.Handlers.Dashboard.Summary.{
  SummaryTables, SummaryFaults, SummaryRow, SummaryAnswer, summary_cached, summary_read,
  summary_unavailable, get_active_accounts, snapshot_of_account, live_row, row_of_snapshot,
  summary_row, read_summary, summary_from_tables, dashboard_summary,
}

module _ {R : Type 0} where
  abbrev pub rows_told : SummaryAnswer R → List (SummaryRow R)
  rows_told (summary_cached rows) = rows
  rows_told (summary_read rows) = rows
  rows_told summary_unavailable = []

  update-dashboard_key :
      (new old : AccountDashboardSnapshot R)
      → dashboard_row_key old ≡ dashboard_row_key new
      → dashboard_row_key (update_dashboard new old) ≡ dashboard_row_key new
  unfolding update_dashboard
  update-dashboard_key new old e = e

  -- the row under a unique key after its upsert
  last_row-upsert :
      (new : AccountDashboardSnapshot R) (dashboards : List (AccountDashboardSnapshot R))
      → count_if (has_key dashboard_row_key update_dashboard (dashboard_row_key new)) dashboards ≤ 1
      → last_row
          (has_key dashboard_row_key update_dashboard (dashboard_row_key new))
          (upsert dashboard_row_key update_dashboard new dashboards)
        ≡ some (
            stored_row dashboard_row_key update_dashboard new (
              first_row
                (has_key dashboard_row_key update_dashboard (dashboard_row_key new))
                dashboards))
  last_row-upsert new dashboards unique =
      let k = dashboard_row_key new in
      let same = pair_eq_refl k in
      let counted =
        count-upsert dashboard_row_key update_dashboard update-dashboard_key new k dashboards in
      let one : count_if (has_key dashboard_row_key update_dashboard k)
            (upsert dashboard_row_key update_dashboard new dashboards)
          ≡ max 1 (count_if (has_key dashboard_row_key update_dashboard k) dashboards) =
        counted ∙ rw same refl in
      last_row-first_row (has_key dashboard_row_key update_dashboard k)
        (upsert dashboard_row_key update_dashboard new dashboards) (omega (arith, one, unique))
      ∙ first_row-upsert dashboard_row_key update_dashboard update-dashboard_key new k dashboards
      ∙ rw same refl

module _ {R : Type 0} (float : Float64 R) (faults : SummaryFaults) (today : ℕ)
    (t : SummaryTables R) where
  id_either :
      (acc : Account) (found : Option (AccountDashboardSnapshot R))
      → snapshot_of_account float faults today t acc.id ≡ found
      → (summary_row float faults today t acc).account_id ≡ acc.id
  unfolding summary_row live_row row_of_snapshot
  id_either acc none e = rw (e, summary_row) refl
  id_either acc (some snap) e = rw (e, summary_row) refl

  id_of_row : (acc : Account) → (summary_row float faults today t acc).account_id ≡ acc.id
  id_of_row acc = id_either acc (snapshot_of_account float faults today t acc.id) refl

  ids_of_rows :
      (accounts : List Account)
      → map (λ (r : SummaryRow R). r.account_id) (map (summary_row float faults today t) accounts)
        ≡ map (λ (a : Account). a.id) accounts
  ids_of_rows [] = refl
  ids_of_rows (acc ∷ accounts) = cc (id_of_row acc, ids_of_rows accounts)

  ids_told :
      (accounts : List Account)
      → map
          (λ (r : SummaryRow R). r.account_id)
          (rows_told (read_summary float faults today t accounts none).0)
        ≡ map (λ (a : Account). a.id) accounts
  unfolding read_summary
  ids_told [] = refl
  ids_told (acc ∷ accounts) = ids_of_rows (acc ∷ accounts)

  -- Where no summary is cached and the query of the accounts does not fail, the summary has one row for
  -- each active account, in the order of the query, whatever the snapshots and the counts do.
  pub summary_covers :
      faults.accounts_fail ≡ false
      → map
          (λ (r : SummaryRow R). r.account_id)
          (rows_told (dashboard_summary float faults today t none).0)
        ≡ map (λ (a : Account). a.id) (get_active_accounts t.accounts)
  unfolding dashboard_summary summary_from_tables
  summary_covers works = elim (Bool-cases faults.cache_read_fails) [
    | inl e ↦
        rw (e, dashboard_summary, works, summary_from_tables)
          (ids_told (get_active_accounts t.accounts))
    | inr e ↦
        rw (e, dashboard_summary, works, summary_from_tables)
          (ids_told (get_active_accounts t.accounts))
  ]

  row_behind :
      (acc : Account) (snap : AccountDashboardSnapshot R)
      → faults.snapshots_fail ≡ false
      → last_row (has_key dashboard_row_key update_dashboard (today, acc.id)) t.dashboards
        ≡ some snap
      → summary_row float faults today t acc ≡ row_of_snapshot float faults today t acc snap
  unfolding summary_row snapshot_of_account
  row_behind acc snap works found =
      let e : snapshot_of_account float faults today t acc.id ≡ some snap = rw works found in
      rw (e, summary_row) refl

and_left : (a b : Bool) → (a && b) ≡ true → a ≡ true
and_left true b e = refl
and_left false b e = e

-- an exophone of the account that is not deleted
abbrev pub is_there : ℕ → Exophone → Bool
is_there account_id e = e.account_id == account_id && e.is_deleted == 0

module _ {R : Type 0} where
  -- the sum of a figure over the rows of the account and the day
  abbrev pub sum_of_day : ℕ → ℕ → List (CallMetricsSnapshot R) → (CallMetricsSnapshot R → ℕ) → ℕ
  sum_of_day account_id day [] f = 0
  sum_of_day account_id day (row ∷ rows) f =
      (if row.account_id == account_id && row.snapshot_date == day then f row else 0)
      + sum_of_day account_id day rows f

  day_summed :
      (account_id day : ℕ) (rows : List (CallMetricsSnapshot R)) (f : CallMetricsSnapshot R → ℕ)
      → sum_rows (on_account account_id day f) rows ≡ sum_of_day account_id day rows f
  unfolding sum_rows
  day_summed account_id day [] f = refl
  day_summed account_id day (row ∷ rows) f =
      ap (λ n. (if row.account_id == account_id && row.snapshot_date == day then f row else 0) + n)
        (day_summed account_id day rows f)

there_active :
    (account_id : ℕ) (exophones : List Exophone)
    → count_if
        (λ (e : Exophone).
          e.account_id == account_id
          && (text_eq (to_lower e.status) (codes "active") && e.is_deleted == 0))
        exophones
      ≡ count_if
          (λ (e : Exophone). is_there account_id e && text_eq (to_lower e.status) (codes "active"))
          exophones
there_active account_id [] = refl
there_active account_id (e ∷ exophones) = ground (arith, there_active account_id exophones)

module _ {R : Type 0} (float : Float64 R) (mysql : Mysql R) (faults : SummaryFaults) (today : ℕ)
    (acc : Account) (calls : List (CallMetricsSnapshot R)) where
  abbrev pub recounted_tables : SummaryTables R → SummaryTables R
  recounted_tables t = record t {
    dashboards =
        accumulate_account_dashboard_from_snapshots float mysql today acc.id t.exophones calls
          t.dashboards;
  }

  rates_same :
      success_rate_of float mysql
        (sum_rows (on_account acc.id today λ r. r.connected_calls) calls)
        (sum_rows (on_account acc.id today λ r. r.total_calls) calls)
      ≡ (if sum_of_day acc.id today calls (λ r. r.total_calls) == 0
          then float.of_int (pos 0)
          else mysql.round_percent
              (sum_of_day acc.id today calls λ r. r.connected_calls)
              (sum_of_day acc.id today calls λ r. r.total_calls))
  unfolding success_rate_of
  rates_same =
      rw
        (
          day_summed acc.id today calls (λ r. r.connected_calls),
          day_summed acc.id today calls (λ r. r.total_calls),
        )
        refl

  -- what the update of a row leaves of the figures that the summary shows
  shown_of_stored :
      (t u : SummaryTables R) (old : Option (AccountDashboardSnapshot R))
      → ((row : AccountDashboardSnapshot R) → old ≡ some row → (row.snapshot_date ≡ today))
      → let new = dashboard_from_snapshots float mysql today acc.id t.exophones calls in
        let row =
          row_of_snapshot float faults today u acc
            (stored_row dashboard_row_key update_dashboard new old) in
        let of_today = sum_of_day acc.id today calls in
        (row.account_id ≡ acc.id)
        × (row.snapshot_date ≡ today)
        × (row.total_exophones ≡ count_if (λ (e : Exophone). is_there acc.id e) t.exophones)
        × (row.active_exophones
            ≡ count_if
                (λ (e : Exophone).
                  is_there acc.id e && text_eq (to_lower e.status) (codes "active"))
                t.exophones)
        × (row.total_calls ≡ of_today λ r. r.total_calls)
        × (row.failed_calls ≡ of_today λ r. r.failed_calls + r.no_answer_calls)
        × (row.success_rate ≡ (
            if (of_today λ r. r.total_calls) == 0
            then float.of_int (pos 0)
            else mysql.round_percent
                (of_today λ r. r.connected_calls)
                (of_today λ r. r.total_calls)))
  unfolding dashboard_from_snapshots row_of_snapshot update_dashboard
  shown_of_stored t u none keeps = (
    refl,
    refl,
    refl,
    there_active acc.id t.exophones,
    day_summed acc.id today calls (λ r. r.total_calls),
    day_summed acc.id today calls (λ r. r.failed_calls + r.no_answer_calls),
    rates_same,
  )
  shown_of_stored t u (some old) keeps = (
    refl,
    keeps old refl,
    refl,
    there_active acc.id t.exophones,
    day_summed acc.id today calls (λ r. r.total_calls),
    day_summed acc.id today calls (λ r. r.failed_calls + r.no_answer_calls),
    rates_same,
  )

  -- The row of an account, after its dashboard was accumulated from the snapshots of the day that the
  -- summary is of, shows the sums of that day's rows of the account's exophones, the rounded percentage
  -- of their connected calls, or 0 where there are no calls, and the counts of the account's exophones
  -- and active exophones that are not deleted, over whatever row of the account stood there before, if
  -- at most one did and the query of the dashboards does not fail.
  pub summary_recounted :
      (t : SummaryTables R)
      → faults.snapshots_fail ≡ false
      → count_if (has_key dashboard_row_key update_dashboard (today, acc.id)) t.dashboards ≤ 1
      → let row = summary_row float faults today (recounted_tables t) acc in
        let of_today = sum_of_day acc.id today calls in
        (row.account_id ≡ acc.id)
        × (row.snapshot_date ≡ today)
        × (row.total_exophones ≡ count_if (λ (e : Exophone). is_there acc.id e) t.exophones)
        × (row.active_exophones
            ≡ count_if
                (λ (e : Exophone).
                  is_there acc.id e && text_eq (to_lower e.status) (codes "active"))
                t.exophones)
        × (row.total_calls ≡ of_today λ r. r.total_calls)
        × (row.failed_calls ≡ of_today λ r. r.failed_calls + r.no_answer_calls)
        × (row.success_rate ≡ (
            if (of_today λ r. r.total_calls) == 0
            then float.of_int (pos 0)
            else mysql.round_percent
                (of_today λ r. r.connected_calls)
                (of_today λ r. r.total_calls)))
  unfolding accumulate_account_dashboard_from_snapshots dashboard_from_snapshots
  summary_recounted t works unique =
      let new = dashboard_from_snapshots float mysql today acc.id t.exophones calls in
      let old =
        first_row (has_key dashboard_row_key update_dashboard (today, acc.id)) t.dashboards in
      let found = last_row-upsert new t.dashboards unique in
      rw
        (row_behind float faults today (recounted_tables t) acc
          (stored_row dashboard_row_key update_dashboard new old) works found)
        (shown_of_stored t (recounted_tables t) old (λ row e. (==_iff row.snapshot_date today).0 (
          and_left (row.snapshot_date == today) (row.account_id == acc.id) (
            first_row-holds (has_key dashboard_row_key update_dashboard (today, acc.id))
              t.dashboards row e))))
