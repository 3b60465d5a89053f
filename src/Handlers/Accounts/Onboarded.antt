-- ===== src/Handlers/Accounts/Onboarded.antt =====
-- What the transactions of internal/handlers/accounts.go leave of the tables.
use exotel_monitoring_platfo.Prelude.{
  ℕ, suc, ◌<◌, ◌≡◌, true, List, [], ◌∷◌, ◌++◌, All, All-append, Text, text_eq_refl, arith,
}
use exotel_monitoring_platfo.Models.{Account, Instant, Exophone, MonitoringJob, JobType}
use exotel_monitoring_platfo.Handlers.Exophones.Agreement.{agrees, InStep}
use exotel_monitoring_platfo.Handlers.Accounts.{
  Registry, new_exophone, new_monitoring_job, with_account, with_exophone, with_job,
}

-- Each job is in step with its exophone and is of an exophone that has had its id, and the ids of all
-- three tables lie below the next ones.
pub record IsSound (t : Registry) : Type 0 where
  pub in_step : InStep t.monitored
  pub exophones_below : All (λ (e : Exophone). e.id < t.next_exophone) t.monitored.exophones
  pub accounts_below : All (λ (a : Account). a.id < t.next_account) t.accounts
  pub job_ids_below : All (λ (j : MonitoringJob). j.id < t.next_job) t.monitored.jobs
  pub jobs_below : All (λ (j : MonitoringJob). j.exophone_id < t.next_exophone) t.monitored.jobs

-- a job with these columns is in step with every exophone of the table
unfoldable pub Fits : ℕ → Text → Registry → Type 0
Fits exophone_id priority t =
    (exophone_id < t.next_exophone)
    × ((id account_id freq : ℕ) (now : Instant) (job_type : JobType)
        → All
            (λ e.
              agrees e (new_monitoring_job id account_id exophone_id job_type priority freq now)
              ≡ true)
            t.monitored.exophones)

jobs_more :
    (exophones : List Exophone) (jobs : List MonitoringJob) (j : MonitoringJob)
    → All (λ e. All (λ j. agrees e j ≡ true) jobs) exophones
    → All (λ e. agrees e j ≡ true) exophones
    → All (λ e. All (λ j. agrees e j ≡ true) (jobs ++ j ∷ [])) exophones
jobs_more [] jobs j h k = tt
jobs_more (e ∷ exophones) jobs j (h, hs) (k, ks) =
    (All-append (λ j. agrees e j ≡ true) jobs (j ∷ []) h (k, tt), jobs_more exophones jobs j hs ks)

-- no job is a new exophone's yet
jobs_of_others :
    (id account_id : ℕ) (number priority : Text) (jobs : List MonitoringJob)
    → All (λ (j : MonitoringJob). j.exophone_id < id) jobs
    → All (λ j. agrees (new_exophone id account_id number priority) j ≡ true) jobs
unfolding new_exophone
jobs_of_others id account_id number priority [] h = tt
jobs_of_others id account_id number priority (j ∷ jobs) (h, hs) =
    (ground (arith, h), jobs_of_others id account_id number priority jobs hs)

exophones_of_others :
    (exophone_id : ℕ) (priority : Text) (exophones : List Exophone)
    → All (λ (e : Exophone). e.id < exophone_id) exophones
    → (id account_id freq : ℕ) (now : Instant) (job_type : JobType)
    → All
        (λ e.
          agrees e (new_monitoring_job id account_id exophone_id job_type priority freq now) ≡ true)
        exophones
unfolding new_monitoring_job
exophones_of_others exophone_id priority [] h id account_id freq now job_type = tt
exophones_of_others exophone_id priority (e ∷ exophones) (h, hs) id account_id freq now job_type = (
  ground (arith, h),
  exophones_of_others exophone_id priority exophones hs id account_id freq now job_type,
)

own_job :
    (n account_id : ℕ) (number priority : Text) (id acc freq : ℕ) (now : Instant)
    (job_type : JobType)
    → agrees
        (new_exophone n account_id number priority)
        (new_monitoring_job id acc n job_type priority freq now)
      ≡ true
unfolding new_exophone new_monitoring_job
own_job n account_id number priority id acc freq now job_type =
    ground (arith, text_eq_refl priority)

exophones_rise :
    (n : ℕ) (exophones : List Exophone)
    → All (λ (e : Exophone). e.id < n) exophones
    → All (λ (e : Exophone). e.id < suc n) exophones
exophones_rise n [] h = tt
exophones_rise n (e ∷ exophones) (h, hs) = (omega (arith, h), exophones_rise n exophones hs)

jobs_rise :
    (n : ℕ) (jobs : List MonitoringJob)
    → All (λ (j : MonitoringJob). j.exophone_id < n) jobs
    → All (λ (j : MonitoringJob). j.exophone_id < suc n) jobs
jobs_rise n [] h = tt
jobs_rise n (j ∷ jobs) (h, hs) = (omega (arith, h), jobs_rise n jobs hs)

job_ids_rise :
    (n : ℕ) (jobs : List MonitoringJob)
    → All (λ (j : MonitoringJob). j.id < n) jobs
    → All (λ (j : MonitoringJob). j.id < suc n) jobs
job_ids_rise n [] h = tt
job_ids_rise n (j ∷ jobs) (h, hs) = (omega (arith, h), job_ids_rise n jobs hs)

accounts_rise :
    (n : ℕ) (accounts : List Account)
    → All (λ (a : Account). a.id < n) accounts
    → All (λ (a : Account). a.id < suc n) accounts
accounts_rise n [] h = tt
accounts_rise n (a ∷ accounts) (h, hs) = (omega (arith, h), accounts_rise n accounts hs)

new_below : (n : ℕ) → n < suc n
new_below n = omega arith

pub with_account-IsSound :
    (account : ℕ → Account) (t : Registry)
    → ((n : ℕ) → (account n).id ≡ n)
    → IsSound t
    → IsSound (with_account account t)
unfolding with_account
with_account-IsSound account t own h = record {
  in_step = h.in_step;
  exophones_below = h.exophones_below;
  accounts_below =
      All-append (λ (a : Account). a.id < suc t.next_account) t.accounts
        (account t.next_account ∷ []) (accounts_rise t.next_account t.accounts h.accounts_below)
        (omega (arith, own t.next_account), tt);
  job_ids_below = h.job_ids_below;
  jobs_below = h.jobs_below;
}

pub with_exophone-IsSound :
    (account_id : ℕ) (number priority : Text) (t : Registry)
    → IsSound t
    → IsSound (with_exophone account_id number priority t)
unfolding with_exophone InStep
with_exophone-IsSound account_id number priority t h =
    let n = t.next_exophone in
    let e = new_exophone n account_id number priority in
    record {
      in_step =
          All-append (λ e. All (λ j. agrees e j ≡ true) t.monitored.jobs) t.monitored.exophones
            (e ∷ []) h.in_step
            (jobs_of_others n account_id number priority t.monitored.jobs h.jobs_below, tt);
      exophones_below =
          All-append (λ (e : Exophone). e.id < suc n) t.monitored.exophones (e ∷ [])
            (exophones_rise n t.monitored.exophones h.exophones_below) (omega arith, tt);
      accounts_below = h.accounts_below;
      job_ids_below = h.job_ids_below;
      jobs_below = jobs_rise n t.monitored.jobs h.jobs_below;
    }

pub with_exophone-Fits :
    (account_id : ℕ) (number priority : Text) (t : Registry)
    → IsSound t
    → Fits t.next_exophone priority (with_exophone account_id number priority t)
unfolding with_exophone Fits
with_exophone-Fits account_id number priority t h = (
  omega arith,
  λ id acc freq now job_type.
      All-append
        (λ e.
          agrees e (new_monitoring_job id acc t.next_exophone job_type priority freq now) ≡ true)
        t.monitored.exophones (new_exophone t.next_exophone account_id number priority ∷ [])
        (exophones_of_others t.next_exophone priority t.monitored.exophones h.exophones_below id acc
          freq now job_type)
        (own_job t.next_exophone account_id number priority id acc freq now job_type, tt),
)

pub with_job-IsSound :
    (account_id exophone_id : ℕ) (priority : Text) (freq : ℕ) (now : Instant) (job_type : JobType)
    (t : Registry)
    → IsSound t
    → Fits exophone_id priority t
    → IsSound (with_job account_id exophone_id priority freq now job_type t)
unfolding with_job InStep Fits
with_job-IsSound account_id exophone_id priority freq now job_type t h (below, fits) =
    let j = new_monitoring_job t.next_job account_id exophone_id job_type priority freq now in
    record {
      in_step =
          jobs_more t.monitored.exophones t.monitored.jobs j h.in_step
            (fits t.next_job account_id freq now job_type);
      accounts_below = h.accounts_below;
      job_ids_below =
          All-append (λ (j : MonitoringJob). j.id < suc t.next_job) t.monitored.jobs (j ∷ [])
            (job_ids_rise t.next_job t.monitored.jobs h.job_ids_below) (new_below t.next_job, tt);
      exophones_below = h.exophones_below;
      jobs_below =
          All-append (λ (j : MonitoringJob). j.exophone_id < t.next_exophone) t.monitored.jobs
            (j ∷ []) h.jobs_below (below, tt);
    }
