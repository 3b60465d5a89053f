-- ===== src/Handlers/Dashboard/Summary.antt =====
-- DashboardSummary (internal/handlers/dashboard.go) and the queries that it makes
-- (internal/repository/account_repo.go, snapshot_repo.go). `today` is the day that
-- time.Now().Truncate(24 * time.Hour) is in, which is one of UTC. A row's date is a time in the answer
-- where it comes from a snapshot, and a text where it does not; here both are the day's number.
use exotel_monitoring_platfo.Prelude.{
  ℕ, ℤ, pos, Bool, ◌&&◌, List, [], ◌∷◌, map, Option, none, some, Text, if◌then◌else◌, ◌==◌, keep_if,
  Float64,
}
use exotel_monitoring_platfo.Models.{Account, Exophone, AccountDashboardSnapshot}
use exotel_monitoring_platfo.Repository.Tables.{last_row, has_key}
use exotel_monitoring_platfo.Repository.Snapshots.{
  dashboard_row_key, update_dashboard, count_exophones, count_active_exophones,
}

-- GetActiveAccounts
unfoldable pub get_active_accounts : List Account → List Account
get_active_accounts accounts = keep_if (λ a. a.is_active == 1 && a.is_deleted == 0) accounts

pub record SummaryRow (R : Type 0) : Type 0 where
  pub account_id : ℕ
  pub account_name : Text
  pub total_exophones : ℕ
  pub active_exophones : ℕ
  pub total_calls : ℕ
  pub failed_calls : ℕ
  pub success_rate : R
  pub avg_latency_ms : Option ℤ
  pub alert_count : ℕ
  pub snapshot_date : ℕ

pub data SummaryAnswer (R : Type 0) : Type 0 where
  summary_cached summary_read : List (SummaryRow R) → SummaryAnswer R
  summary_unavailable : SummaryAnswer R

-- which of the calls of the cache and of the database fail
pub record SummaryFaults : Type 0 where
  pub cache_read_fails : Bool
  pub cache_write_fails : Bool
  pub accounts_fail : Bool
  pub snapshots_fail : Bool
  pub counts_fail : Bool

-- the tables that the summary is read from
pub record SummaryTables (R : Type 0) : Type 0 where
  pub accounts : List Account
  pub exophones : List Exophone
  pub dashboards : List (AccountDashboardSnapshot R)

module _ {R : Type 0} (float : Float64 R) (faults : SummaryFaults) (today : ℕ)
    (t : SummaryTables R) where
  -- GetAllAccountDashboardSnapshots, as what its map has under an account
  unfoldable pub snapshot_of_account : ℕ → Option (AccountDashboardSnapshot R)
  unfolding last_row
  snapshot_of_account account_id =
      if faults.snapshots_fail
      then none
      else last_row (has_key dashboard_row_key update_dashboard (today, account_id)) t.dashboards

  -- a Count that fails leaves its variable 0
  unfoldable pub live_row : Account → SummaryRow R
  unfolding count_exophones count_active_exophones
  live_row acc = record {
    account_id = acc.id;
    account_name = acc.account_name;
    total_exophones = if faults.counts_fail then 0 else count_exophones acc.id t.exophones;
    active_exophones = if faults.counts_fail then 0 else count_active_exophones acc.id t.exophones;
    total_calls = 0;
    failed_calls = 0;
    success_rate = float.of_int (pos 0);
    avg_latency_ms = none;
    alert_count = 0;
    snapshot_date = today;
  }

  unfoldable pub row_of_snapshot : Account → AccountDashboardSnapshot R → SummaryRow R
  row_of_snapshot acc snap = record {
    account_id = acc.id;
    account_name = acc.account_name;
    total_exophones = snap.total_exophones;
    active_exophones = snap.active_exophones;
    total_calls = snap.total_calls;
    failed_calls = snap.failed_calls;
    success_rate = snap.success_rate;
    avg_latency_ms = snap.avg_latency_ms;
    alert_count = snap.alert_count;
    snapshot_date = snap.snapshot_date;
  }

  unfoldable pub summary_row : Account → SummaryRow R
  unfolding snapshot_of_account live_row row_of_snapshot
  summary_row acc = elim (snapshot_of_account acc.id) [
    | some snap ↦ row_of_snapshot acc snap
    | none ↦ live_row acc
  ]

  -- no account: an empty list, which is not cached
  unfoldable pub read_summary :
      List Account → Option (List (SummaryRow R)) → SummaryAnswer R × Option (List (SummaryRow R))
  unfolding summary_row
  read_summary [] cache = (summary_read [], cache)
  read_summary (acc ∷ accounts) cache =
      let results = map summary_row (acc ∷ accounts) in
      (summary_read results, if faults.cache_write_fails then cache else some results)

  unfoldable pub summary_from_tables :
      Option (List (SummaryRow R)) → SummaryAnswer R × Option (List (SummaryRow R))
  unfolding read_summary get_active_accounts
  summary_from_tables cache =
      if faults.accounts_fail
      then (summary_unavailable, cache)
      else read_summary (get_active_accounts t.accounts) cache

  -- the cached summary, and the one after the request
  unfoldable pub dashboard_summary :
      Option (List (SummaryRow R)) → SummaryAnswer R × Option (List (SummaryRow R))
  unfolding summary_from_tables
  dashboard_summary cache = elim (if faults.cache_read_fails then none else cache) [
    | some summary ↦ (summary_cached summary, cache)
    | none ↦ summary_from_tables cache
  ]
