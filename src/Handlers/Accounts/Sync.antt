-- ===== src/Handlers/Accounts/Sync.antt =====
-- SyncExophones (internal/handlers/accounts.go). Go visits the vendor's set in any order; here it is
-- that of the replies. The order of the existing exophones by priority counts only beyond the 10000 that
-- are read; here it is the table's. UpdateLastSynced changes a column that is left out.
use exotel_monitoring_platfo.Prelude.{
  ◌||◌, ℕ, suc, Bool, true, false, ◌&&◌, List, [], ◌∷◌, ◌++◌, map, Option, none, some, Text, codes,
  if◌then◌else◌, ◌==◌, keep_if, length,
}
use exotel_monitoring_platfo.Models.{Instant, Account, Exophone, JobType}
use exotel_monitoring_platfo.Effects.{Credentials}
use exotel_monitoring_platfo.Exotel.Numbers.{NumbersReply, list_incoming_phone_numbers, has_number}
use exotel_monitoring_platfo.Utils.Phone.{normalize_phone}
use exotel_monitoring_platfo.Handlers.Dashboard.{parse_uint}
use exotel_monitoring_platfo.Handlers.Exophones.{default_frequency}
use exotel_monitoring_platfo.Handlers.Paging.{rows_of_page}
use exotel_monitoring_platfo.Handlers.Accounts.{
  never_taken, number_taken, Registry, Draft, freq_map, minutes_or_zero, with_exophone, with_job,
  job_types, account_credentials,
}
use exotel_monitoring_platfo.Handlers.Accounts.Add.{get_account_by_id}

-- 400, 404, 502, 200 with total_from_exotel, already_tracked and added_numbers
pub data SyncReply : Type 0 where
  bad_account_id unknown_account fetch_failed : SyncReply
  synced : (total already_tracked : ℕ) → List Text → SyncReply

pub record SyncEnv : Type 0 where
  pub now : Instant
  pub pages : Credentials → ℕ → NumbersReply
  pub configs : Option (List (Text × ℕ))
  pub decrypt : Text → Option Text
  pub existing_fails : Bool
  pub fails : ℕ → Bool

-- the numbers of GetExophonesByAccount(accountID, 1, 10000); none where the query fails
unfoldable pub tracked_numbers : Bool → ℕ → List Exophone → List Text
unfolding rows_of_page
tracked_numbers fails account_id exophones =
    let ours =
      keep_if (λ (e : Exophone). e.account_id == account_id && e.is_deleted == 0) exophones in
    if fails then [] else map (λ (e : Exophone). e.exophone_number) (rows_of_page 1 10_000 ours)

-- existingSet, whose size is that of the numbers without repetitions
unfoldable pub distinct_count : List Text → ℕ
distinct_count [] = 0
distinct_count (n ∷ numbers) =
    let rest = distinct_count numbers in if has_number n numbers then rest else suc rest

-- an insert outside of any transaction
unfoldable pub try_row :
    (ℕ → Bool) → (Registry → Bool) → (Registry → Registry) → Draft → Bool × Draft
try_row fails taken change d =
    if fails d.tried || taken d.tables
    then (false, record d { tried = suc d.tried })
    else (true, record { tables = change d.tables; tried = suc d.tried })

module _ (env : SyncEnv) (account_id : ℕ) where
  -- the jobs of a new exophone, whose errors are ignored
  unfoldable pub try_jobs : ℕ → ℕ → List JobType → Draft → Draft
  unfolding try_row with_job
  try_jobs exophone_id freq [] d = d
  try_jobs exophone_id freq (t ∷ ts) d =
      try_jobs exophone_id freq ts
        (try_row env.fails never_taken (with_job account_id exophone_id (codes "P1") freq env.now t)
          d).1

  -- the loop over the vendor's numbers, with those that were added
  unfoldable pub sync_numbers : List Text → ℕ → List Text → Draft → List Text → List Text × Draft
  unfolding try_row number_taken with_exophone try_jobs normalize_phone
  sync_numbers tracked freq [] d added = (added, d)
  sync_numbers tracked freq (number ∷ numbers) d added =
      let id = d.tables.next_exophone in
      let (ok, next) =
        try_row env.fails (number_taken account_id (normalize_phone number))
          (with_exophone account_id (normalize_phone number) (codes "P1")) d in
      let skipped = sync_numbers tracked freq numbers d added in
      let refused = sync_numbers tracked freq numbers next added in
      let inserted =
        sync_numbers tracked freq numbers (try_jobs id freq (job_types env.fails env.now) next)
          (added ++ number ∷ []) in
      if has_number number tracked then skipped else if ok then inserted else refused

  unfoldable pub sync_set : List Text → Registry → SyncReply × Registry
  unfolding tracked_numbers default_frequency sync_numbers distinct_count
  sync_set vendor t =
      let tracked = tracked_numbers env.existing_fails account_id t.monitored.exophones in
      let freq = minutes_or_zero (default_frequency (codes "P1") (freq_map env.configs)) in
      let (added, d) = sync_numbers tracked freq vendor (record { tables = t; tried = 0 }) [] in
      (synced (length vendor) (distinct_count tracked) added, d.tables)

  unfoldable pub sync_account : Account → Registry → SyncReply × Registry
  unfolding account_credentials list_incoming_phone_numbers sync_set
  sync_account account t =
      elim (list_incoming_phone_numbers (env.pages (account_credentials env.decrypt account))) [
        | none ↦ (fetch_failed, t)
        | some vendor ↦ sync_set vendor t
      ]

  unfoldable pub sync_found : Registry → SyncReply × Registry
  unfolding get_account_by_id sync_account
  sync_found t = elim (get_account_by_id account_id t.accounts) [
    | none ↦ (unknown_account, t)
    | some account ↦ sync_account account t
  ]

unfoldable pub sync_exophones : SyncEnv → Text → Registry → SyncReply × Registry
unfolding parse_uint sync_found
sync_exophones env id t =
    let answer = sync_found env (parse_uint id) t in
    if parse_uint id == 0 then (bad_account_id, t) else answer
