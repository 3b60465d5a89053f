-- ===== src/Repository/Snapshots.antt =====
-- The snapshot tables (internal/repository/snapshot_repo.go): their upserts, the queries that find a
-- row, and the account's dashboard. MySQL's clock stands in IST, so that DATE(NOW()) is the IST day.
-- The surrogate ids and the columns created_at and updated_at are left out.
pub mod Growth
pub mod Keys
use exotel_monitoring_platfo.Prelude.{
  ℕ, ◌+◌, ◌-◌, ◌*◌, pos, Bool, true, false, ◌&&◌, not, List, [], ◌∷◌, Option, none, some, Text,
  codes, text_eq, to_lower, if◌then◌else◌, ◌==◌, leb, ltb, is_positive, keep_if, count_if, drop,
  length, Float64,
}
use exotel_monitoring_platfo.Models.{
  Instant, Time, CallLog, CallMetricsSnapshot, ExophoneHealthSnapshot, StreamUtilizationSnapshot,
  AccountDashboardSnapshot, Exophone,
}
use exotel_monitoring_platfo.Repository.Tables.{first_row, sum_rows, upsert, has_key}

module _ {R : Type 0} where
  -- uk_snapshot_date_exophone
  abbrev pub metrics_row_key : CallMetricsSnapshot R → ℕ × ℕ
  metrics_row_key s = (s.snapshot_date, s.exophone_id)

  -- every column but the account is overwritten
  unfoldable pub update_metrics :
      CallMetricsSnapshot R → CallMetricsSnapshot R → CallMetricsSnapshot R
  update_metrics new old = record new { account_id = old.account_id }

  unfoldable pub upsert_metrics_row :
      CallMetricsSnapshot R → List (CallMetricsSnapshot R) → List (CallMetricsSnapshot R)
  unfolding update_metrics upsert
  upsert_metrics_row s rows = upsert metrics_row_key update_metrics s rows

  -- GetCallMetricsSnapshot
  unfoldable pub get_call_metrics_snapshot :
      ℕ → ℕ → List (CallMetricsSnapshot R) → Option (CallMetricsSnapshot R)
  unfolding first_row
  get_call_metrics_snapshot exophone_id date rows =
      first_row (has_key metrics_row_key update_metrics (date, exophone_id)) rows

  -- the later of two rows by their date, the first where the dates are the same
  later_row : Option (CallMetricsSnapshot R) → CallMetricsSnapshot R → CallMetricsSnapshot R
  later_row none row = row
  later_row (some other) row = if ltb row.snapshot_date other.snapshot_date then other else row

  -- GetLatestCallMetricsSnapshot
  unfoldable pub get_latest_call_metrics_snapshot :
      ℕ → List (CallMetricsSnapshot R) → Option (CallMetricsSnapshot R)
  unfolding later_row
  get_latest_call_metrics_snapshot exophone_id [] = none
  get_latest_call_metrics_snapshot exophone_id (row ∷ rows) =
      let rest = get_latest_call_metrics_snapshot exophone_id rows in
      if row.exophone_id == exophone_id then some (later_row rest row) else rest

  abbrev pub of_account : ℕ → ℕ → CallMetricsSnapshot R → Bool
  of_account account_id date row = row.account_id == account_id && row.snapshot_date == date

  -- f on the rows of the account and the day
  abbrev pub on_account : ℕ → ℕ → (CallMetricsSnapshot R → ℕ) → CallMetricsSnapshot R → ℕ
  on_account account_id today f row = if of_account account_id today row then f row else 0

  -- GetCallMetricsSnapshotsByAccount, as the list that goes into the map
  unfoldable pub get_call_metrics_snapshots_by_account :
      ℕ → ℕ → List (CallMetricsSnapshot R) → List (CallMetricsSnapshot R)
  get_call_metrics_snapshots_by_account account_id date rows =
      keep_if (of_account account_id date) rows

  -- uk_ehs_exophone
  abbrev pub health_key : ExophoneHealthSnapshot R → ℕ × ℕ
  health_key s = (s.exophone_id, 0)

  unfoldable pub update_health :
      ExophoneHealthSnapshot R → ExophoneHealthSnapshot R → ExophoneHealthSnapshot R
  update_health new old = record new { account_id = old.account_id }

  -- UpsertExophoneHealthSnapshot: last_checked_at is the database's clock
  unfoldable pub upsert_health_row :
      Instant
      → ExophoneHealthSnapshot R
      → List (ExophoneHealthSnapshot R)
      → List (ExophoneHealthSnapshot R)
  unfolding update_health upsert
  upsert_health_row now s rows =
      upsert health_key update_health (record s { last_checked_at = some now }) rows

  -- uk_sus_hour_exophone
  abbrev pub stream_key : StreamUtilizationSnapshot R → ℕ × ℕ
  stream_key s = (s.snapshot_hour, s.exophone_id)

  unfoldable pub update_stream :
      StreamUtilizationSnapshot R → StreamUtilizationSnapshot R → StreamUtilizationSnapshot R
  update_stream new old = record new { account_id = old.account_id }

  -- UpsertStreamUtilizationSnapshot
  unfoldable pub upsert_stream_row :
      StreamUtilizationSnapshot R
      → List (StreamUtilizationSnapshot R)
      → List (StreamUtilizationSnapshot R)
  unfolding update_stream upsert
  upsert_stream_row s rows = upsert stream_key update_stream s rows

  -- uk_ads_date_account
  abbrev pub dashboard_row_key : AccountDashboardSnapshot R → ℕ × ℕ
  dashboard_row_key s = (s.snapshot_date, s.account_id)

  -- the update of the two that aggregate calls
  unfoldable pub update_dashboard :
      AccountDashboardSnapshot R → AccountDashboardSnapshot R → AccountDashboardSnapshot R
  update_dashboard new old = record old {
    total_exophones = new.total_exophones;
    active_exophones = new.active_exophones;
    total_calls = new.total_calls;
    failed_calls = new.failed_calls;
    success_rate = new.success_rate;
  }

  -- UpsertAccountDashboardSnapshot counts exophones only
  unfoldable pub update_exophone_counts :
      AccountDashboardSnapshot R → AccountDashboardSnapshot R → AccountDashboardSnapshot R
  update_exophone_counts new old = record old {
    total_exophones = new.total_exophones;
    active_exophones = new.active_exophones;
  }

  unfoldable pub upsert_exophone_counts :
      AccountDashboardSnapshot R
      → List (AccountDashboardSnapshot R)
      → List (AccountDashboardSnapshot R)
  unfolding update_exophone_counts upsert
  upsert_exophone_counts s rows = upsert dashboard_row_key update_exophone_counts s rows

-- What MySQL works out of a date and of numbers: DATE(start_time) and HOUR(start_time) of a row, AVG
-- of a column with its sum and its number of rows, and ROUND(a * 100.0 / b, 2) for b > 0.
pub record Mysql (R : Type 0) : Type 0 where
  pub date_of : Time → ℕ
  pub hour_of_row : Time → ℕ
  pub round_percent : ℕ → ℕ → R

-- `=` on a column of a case-insensitive collation
unfoldable pub sql_eq : Text → Text → Bool
sql_eq column literal = text_eq (to_lower column) literal

-- the two COUNTs of the exophones of an account
unfoldable pub count_exophones : ℕ → List Exophone → ℕ
count_exophones account_id exophones =
    count_if (λ (e : Exophone). e.account_id == account_id && e.is_deleted == 0) exophones

unfoldable pub count_active_exophones : ℕ → List Exophone → ℕ
unfolding sql_eq
count_active_exophones account_id exophones =
    count_if
      (λ (e : Exophone).
        e.account_id == account_id && (sql_eq e.status (codes "active") && e.is_deleted == 0))
      exophones

module _ {R : Type 0} (float : Float64 R) (mysql : Mysql R) where
  -- COALESCE(ROUND(… / NULLIF(total, 0), 2), 0)
  unfoldable pub success_rate_of : ℕ → ℕ → R
  success_rate_of connected total =
      if total == 0 then float.of_int (pos 0) else mysql.round_percent connected total

  -- the two counts of exophones, the day and the account
  unfoldable pub dashboard_row :
      ℕ → ℕ → ℕ → ℕ → (total_calls failed_calls connected : ℕ) → AccountDashboardSnapshot R
  unfolding success_rate_of
  dashboard_row today account_id exophones active total failed connected = record {
    snapshot_date = today;
    account_id = account_id;
    total_exophones = exophones;
    active_exophones = active;
    total_calls = total;
    failed_calls = failed;
    success_rate = success_rate_of connected total;
    avg_latency_ms = none;
    alert_count = 0;
  }

  -- the SELECT of AccumulateAccountDashboardFromSnapshots
  unfoldable pub dashboard_from_snapshots :
      ℕ → ℕ → List Exophone → List (CallMetricsSnapshot R) → AccountDashboardSnapshot R
  unfolding sum_rows dashboard_row count_exophones count_active_exophones
  dashboard_from_snapshots today account_id exophones rows =
      dashboard_row today account_id (count_exophones account_id exophones)
        (count_active_exophones account_id exophones)
        (sum_rows (on_account account_id today λ r. r.total_calls) rows)
        (sum_rows (on_account account_id today λ r. r.failed_calls + r.no_answer_calls) rows)
        (sum_rows (on_account account_id today λ r. r.connected_calls) rows)

  unfoldable pub accumulate_account_dashboard_from_snapshots :
      ℕ
      → ℕ
      → List Exophone
      → List (CallMetricsSnapshot R)
      → List (AccountDashboardSnapshot R)
      → List (AccountDashboardSnapshot R)
  unfolding update_dashboard upsert dashboard_from_snapshots
  accumulate_account_dashboard_from_snapshots today account_id exophones rows dashboards =
      upsert dashboard_row_key update_dashboard
        (dashboard_from_snapshots today account_id exophones rows) dashboards

  -- whether a call log is the account's and of today
  unfoldable pub log_of_account : ℕ → ℕ → CallLog → Bool
  log_of_account account_id today cl = elim cl.start_time [
    | none ↦ false
    | some t ↦ cl.account_id == account_id && mysql.date_of t == today
  ]

  -- the SELECT of RecomputeAccountDashboardSnapshot
  unfoldable pub dashboard_from_logs :
      ℕ → ℕ → List Exophone → List CallLog → AccountDashboardSnapshot R
  unfolding log_of_account sql_eq dashboard_row count_exophones count_active_exophones
  dashboard_from_logs today account_id exophones all_logs =
      let logs = keep_if (log_of_account account_id today) all_logs in
      dashboard_row today account_id (count_exophones account_id exophones)
        (count_active_exophones account_id exophones) (length logs)
        (count_if (λ (cl : CallLog). sql_eq cl.status (codes "failed")) logs
          + count_if (λ (cl : CallLog). sql_eq cl.status (codes "no-answer")) logs)
        (count_if
          (λ (cl : CallLog).
            sql_eq cl.status (codes "completed") && is_positive cl.conversation_duration)
          logs)

  unfoldable pub recompute_account_dashboard_snapshot :
      ℕ
      → ℕ
      → List Exophone
      → List CallLog
      → List (AccountDashboardSnapshot R)
      → List (AccountDashboardSnapshot R)
  unfolding update_dashboard upsert dashboard_from_logs
  recompute_account_dashboard_snapshot today account_id exophones logs dashboards =
      upsert dashboard_row_key update_dashboard
        (dashboard_from_logs today account_id exophones logs) dashboards
