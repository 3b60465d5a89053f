-- ===== src/Handlers/Accounts/Synced.antt =====
-- What SyncExophones (internal/handlers/accounts.go) leaves of the tables.
use exotel_monitoring_platfo.Prelude.{
  map, ◌++◌, Option-cases, ℕ, ◌≡◌, Option-cases, List, ◌++◌, Text,
}
use exotel_monitoring_platfo.Utils.Phone.{normalize_phone}
use exotel_monitoring_platfo.Handlers.Accounts.{Registry, Draft}
use exotel_monitoring_platfo.Handlers.Accounts.Growth.{ExophonesAdded}
use exotel_monitoring_platfo.Handlers.Accounts.Onboarded.{IsSound}
use exotel_monitoring_platfo.Handlers.Accounts.Sync.{
  SyncReply, bad_account_id, unknown_account, fetch_failed, synced, SyncEnv,
}

-- Sound tables with new exophones of these numbers, and no more accounts.
pub record Extended (account_id : ℕ) (numbers : List Text) (t later : Registry) : Type 0 where
  pub sound : IsSound later
  pub exophones_added : ExophonesAdded account_id numbers t later
  pub accounts_kept : later.accounts ≡ t.accounts

-- numbers in their normal form
abbrev pub normal_forms : List Text → List Text
normal_forms numbers = map normalize_phone numbers

module _ (env : SyncEnv) (account_id : ℕ) where
  -- the numbers that the loop adds to those told already, and their exophones
  record AddedExactly (added : List Text) (d : Draft) (end : List Text × Draft) : Type 0 where
    numbers : List Text
    told : end.0 ≡ added ++ numbers
    extended : Extended account_id (normal_forms numbers) d.tables end.1.tables

-- A synchronisation of an account names the numbers of its new exophones; any other reply leaves the
-- tables as they were.
pub SyncedFrom : ℕ → Registry → SyncReply × Registry → Type 0
SyncedFrom account_id t (bad_account_id, later) = later ≡ t
SyncedFrom account_id t (unknown_account, later) = later ≡ t
SyncedFrom account_id t (fetch_failed, later) = later ≡ t
SyncedFrom account_id t (synced total tracked added, later) =
    Extended account_id (normal_forms added) t later
