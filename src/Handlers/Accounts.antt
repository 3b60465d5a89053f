-- ===== src/Handlers/Accounts.antt =====
-- CreateAccount and AddExophone (internal/handlers/accounts.go). A row that is inserted gets the next
-- id of its table. The columns that say who wrote a row, a job's name and timeout, and the cluster and
-- settings of an account are left out; a job's last_status PENDING, which no run writes, is none.
pub mod Add
pub mod Appended
pub mod Create
pub mod Founded
pub mod Growth
pub mod Inserts
pub mod Onboarded
pub mod Sync
pub mod Synced
pub mod Whole
use exotel_monitoring_platfo.Prelude.{
  ◌&&◌, ◌||◌, false, text_eq, to_lower, any_of, ◌==◌, ℕ, suc, ◌+◌, ◌*◌, Bool, true, false, ◌&&◌,
  not, List, [], ◌∷◌, ◌++◌, map, Option, none, some, Text, codes, text_eq, is_empty, if◌then◌else◌,
  ◌==◌, ltb, leb, ◌-◌, length, keep_if, any_of,
}
use exotel_monitoring_platfo.Models.{
  Instant, Account, Exophone, MonitoringJob, JobType, heartbeat, calls, streams,
}
use exotel_monitoring_platfo.Effects.{Credentials}
use exotel_monitoring_platfo.Exotel.Numbers.{
  NumbersReply, list_incoming_phone_numbers, has_number, validate_exophone,
}
use exotel_monitoring_platfo.Workers.Progress.{credential}
use exotel_monitoring_platfo.Utils.Phone.{normalize_phone}
use exotel_monitoring_platfo.Repository.Tables.{first_row}
use exotel_monitoring_platfo.Handlers.Dashboard.{parse_uint}
use exotel_monitoring_platfo.Handlers.Exophones.{Monitored, default_frequency}

-- the three tables, and the next id of each
pub record Registry : Type 0 where
  pub accounts : List Account
  pub monitored : Monitored
  pub next_account : ℕ
  pub next_exophone : ℕ
  pub next_job : ℕ

-- A transaction so far: its tables, and the number of its statements.
pub record Draft : Type 0 where
  pub tables : Registry
  pub tried : ℕ

abbrev pub default_retry_policy : Text
default_retry_policy = codes "{\"max_retries\":3,\"base_delay_ms\":1000,\"max_delay_ms\":30000}"

abbrev pub fallback_frequency : List (Text × ℕ)
fallback_frequency = (codes "P0", 15) ∷ (codes "P1", 30) ∷ (codes "P2", 60) ∷ (codes "P3", 60) ∷ []

-- freqMap, which only an error of the query replaces by the defaults
abbrev pub freq_map : Option (List (Text × ℕ)) → List (Text × ℕ)
freq_map none = fallback_frequency
freq_map (some configs) = configs

-- freqMap[priority], 0 where it has none
abbrev pub minutes_or_zero : Option ℕ → ℕ
minutes_or_zero none = 0
minutes_or_zero (some minutes) = minutes

-- strings.ToUpper, on the letters of ASCII
abbrev pub upper : ℕ → ℕ
upper c = if leb b'a' c && leb c b'z' then c - 32 else c

abbrev pub to_upper : Text → Text
to_upper s = map upper s

-- the priority if the map has it, else P1
unfoldable pub priority_or_p1 : List (Text × ℕ) → Text → Text
unfolding default_frequency
priority_or_p1 configs asked = elim (default_frequency (to_upper asked) configs) [
  | none ↦ codes "P1"
  | some minutes ↦ to_upper asked
]

unfoldable pub new_exophone : ℕ → ℕ → Text → Text → Exophone
new_exophone id account_id number priority = record {
  id = id;
  account_id = account_id;
  exophone_number = number;
  status = codes "active";
  priority = priority;
  skip_call_logs = 0;
  is_cron_applicable = 1;
  is_deleted = 0;
}

-- gorm stores the column's default for a frequency of 0
abbrev pub stored_minutes : ℕ → ℕ
stored_minutes minutes = if minutes == 0 then 30 else minutes

unfoldable pub new_monitoring_job : ℕ → ℕ → ℕ → JobType → Text → ℕ → Instant → MonitoringJob
new_monitoring_job id account_id exophone_id job_type priority freq now = record {
  id = id;
  exophone_id = exophone_id;
  account_id = account_id;
  job_type = job_type;
  priority = priority;
  frequency_minutes = stored_minutes freq;
  retry_policy = default_retry_policy;
  next_run_at = now;
  last_run_at = none;
  last_status = none;
  is_active = 1;
  is_deleted = 0;
}

-- the rows of the inserts, with the next ids of their tables
unfoldable pub with_account : (ℕ → Account) → Registry → Registry
with_account account t = record t {
  accounts = t.accounts ++ account t.next_account ∷ [];
  next_account = suc t.next_account;
}

unfoldable pub with_exophone : ℕ → Text → Text → Registry → Registry
unfolding new_exophone
with_exophone account_id number priority t = record t {
  monitored = record {
    exophones =
        t.monitored.exophones ++ new_exophone t.next_exophone account_id number priority ∷ [];
    jobs = t.monitored.jobs;
  };
  next_exophone = suc t.next_exophone;
}

unfoldable pub with_job : ℕ → ℕ → Text → ℕ → Instant → JobType → Registry → Registry
unfolding new_monitoring_job
with_job account_id exophone_id priority freq now job_type t = record t {
  monitored = record {
    exophones = t.monitored.exophones;
    jobs =
        t.monitored.jobs
        ++ new_monitoring_job t.next_job account_id exophone_id job_type priority freq now ∷ [];
  };
  next_job = suc t.next_job;
}

-- the unique key on the sid of an account, without regard to case
unfoldable pub sid_taken : Text → Registry → Bool
sid_taken sid t = any_of (λ (a : Account). text_eq (to_lower a.sid) (to_lower sid)) t.accounts

-- uk_account_number, which deleted rows keep as well
unfoldable pub number_taken : ℕ → Text → Registry → Bool
number_taken account_id number t =
    any_of (λ (e : Exophone). e.account_id == account_id && text_eq e.exophone_number number)
      t.monitored.exophones

abbrev pub never_taken : Registry → Bool
never_taken t = false

-- tx.Create: none is its error, for a key that is taken or by a failure; `fails` is of the
-- transaction's statements by their number
unfoldable pub insert_row :
    (ℕ → Bool) → (Registry → Bool) → (Registry → Registry) → Draft → Option Draft
insert_row fails taken change d =
    if fails d.tried || taken d.tables
    then none
    else some record { tables = change d.tables; tried = suc d.tried }

module _ (fails : ℕ → Bool) (now : Instant) where
  -- the loop over the types of jobs
  unfoldable pub insert_jobs : ℕ → ℕ → Text → ℕ → List JobType → Draft → Option Draft
  unfolding insert_row with_job
  insert_jobs account_id exophone_id priority freq [] d = some d
  insert_jobs account_id exophone_id priority freq (t ∷ ts) d =
      elim (insert_row fails never_taken (with_job account_id exophone_id priority freq now t) d) [
        | none ↦ none
        | some next ↦ insert_jobs account_id exophone_id priority freq ts next
      ]

  abbrev pub job_types : List JobType
  job_types = heartbeat ∷ calls ∷ streams ∷ []

  -- an exophone and its three jobs
  unfoldable pub insert_monitored : ℕ → Text → Text → ℕ → Draft → Option Draft
  unfolding insert_row number_taken with_exophone insert_jobs
  insert_monitored account_id number priority freq d =
      let id = d.tables.next_exophone in
      elim (insert_row fails (number_taken account_id number)
        (with_exophone account_id number priority) d) [
          | none ↦ none
          | some next ↦ insert_jobs account_id id priority freq job_types next
        ]

  -- the end of the transaction, whose commit is its last statement
  abbrev pub commit : Option Draft → Option Registry
  commit none = none
  commit (some d) = if fails d.tried then none else some d.tables

-- apiKey and apiToken, decrypted, or as they are where they cannot be
unfoldable pub account_credentials : (Text → Option Text) → Account → Credentials
unfolding credential
account_credentials decrypt account = record {
  sid = account.sid;
  subdomain = account.subdomain;
  api_key = credential decrypt account.api_key;
  api_token = credential decrypt account.api_token;
}
