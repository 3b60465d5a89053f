-- ===== src/Handlers/Accounts/Growth.antt =====
-- What the inserts of internal/handlers/accounts.go add to the tables.
use exotel_monitoring_platfo.Prelude.{ℕ, ◌≡◌, refl, ◌∙◌, List, [], ◌∷◌, ◌++◌, Text}
use exotel_monitoring_platfo.Models.{
  Instant, Exophone, MonitoringJob, JobType, heartbeat, calls, streams,
}
use exotel_monitoring_platfo.Handlers.Accounts.{
  Registry, new_exophone, new_monitoring_job, with_exophone, with_job,
}
use exotel_monitoring_platfo.Handlers.Accounts.Appended.{
  Appended, appending_nothing, appending_one, appending_both,
}
use exotel_monitoring_platfo.Handlers.Accounts.Onboarded.{
  IsSound, Fits, with_exophone-IsSound, with_job-IsSound,
}

-- The table of exophones has new rows of the account with these numbers, monitored and not deleted.
abbrev pub ExophonesAdded : ℕ → List Text → Registry → Registry → Type 0
ExophonesAdded account_id numbers t later =
    Appended (λ (e : Exophone). e.exophone_number) (λ (e : Exophone). e.id)
      (λ (e : Exophone).
        (e.account_id ≡ account_id) × (e.is_cron_applicable ≡ 1) × (e.is_deleted ≡ 0))
      numbers t.monitored.exophones t.next_exophone later.monitored.exophones later.next_exophone

-- The table of jobs has new active rows of the account, of these exophones and types.
abbrev pub JobsAdded : ℕ → List (ℕ × JobType) → Registry → Registry → Type 0
JobsAdded account_id kinds t later =
    Appended (λ (j : MonitoringJob). (j.exophone_id, j.job_type)) (λ (j : MonitoringJob). j.id)
      (λ (j : MonitoringJob). (j.account_id ≡ account_id) × (j.is_active ≡ 1) × (j.is_deleted ≡ 0))
      kinds t.monitored.jobs t.next_job later.monitored.jobs later.next_job

-- Sound tables with these exophones and jobs of the account behind those before, and no more accounts.
pub record Grown (account_id : ℕ) (numbers : List Text) (kinds : List (ℕ × JobType))
    (t later : Registry) : Type 0 where
  pub sound : IsSound later
  pub exophones_added : ExophonesAdded account_id numbers t later
  pub jobs_added : JobsAdded account_id kinds t later
  pub accounts_kept : later.accounts ≡ t.accounts

-- a job of each type of an exophone
abbrev pub three_jobs : ℕ → List (ℕ × JobType)
three_jobs id = (id, heartbeat) ∷ (id, calls) ∷ (id, streams) ∷ []

pub added_up :
    (account_id : ℕ) (xs ys : List Text) (ks ls : List (ℕ × JobType)) (a b c : Registry)
    → Grown account_id xs ks a b
    → Grown account_id ys ls b c
    → Grown account_id (xs ++ ys) (ks ++ ls) a c
added_up account_id xs ys ks ls a b c g h = record {
  sound = h.sound;
  exophones_added =
      appending_both _ _ _ xs ys a.monitored.exophones b.monitored.exophones c.monitored.exophones
        a.next_exophone b.next_exophone c.next_exophone g.exophones_added h.exophones_added;
  jobs_added =
      appending_both _ _ _ ks ls a.monitored.jobs b.monitored.jobs c.monitored.jobs a.next_job
        b.next_job c.next_job g.jobs_added h.jobs_added;
  accounts_kept = h.accounts_kept ∙ g.accounts_kept;
}

pub nothing-Grown : (account_id : ℕ) (t : Registry) → IsSound t → Grown account_id [] [] t t
nothing-Grown account_id t h = record {
  sound = h;
  exophones_added = appending_nothing _ _ _ t.monitored.exophones t.next_exophone;
  jobs_added = appending_nothing _ _ _ t.monitored.jobs t.next_job;
  accounts_kept = refl;
}

pub with_job-Grown :
    (account_id exophone_id : ℕ) (priority : Text) (freq : ℕ) (now : Instant) (job_type : JobType)
    (t : Registry)
    → IsSound t
    → Fits exophone_id priority t
    → Grown account_id []
        ((exophone_id, job_type) ∷ [])
        t
        (with_job account_id exophone_id priority freq now job_type t)
      × Fits exophone_id priority (with_job account_id exophone_id priority freq now job_type t)
unfolding with_job Fits new_monitoring_job
with_job-Grown account_id exophone_id priority freq now job_type t h fits = (
  record {
    sound = with_job-IsSound account_id exophone_id priority freq now job_type t h fits;
    exophones_added = appending_nothing _ _ _ t.monitored.exophones t.next_exophone;
    jobs_added =
        appending_one _ _ _ t.monitored.jobs t.next_job
          (new_monitoring_job t.next_job account_id exophone_id job_type priority freq now)
          (exophone_id, job_type) refl refl (refl, refl, refl);
    accounts_kept = refl;
  },
  fits,
)

pub with_exophone-Grown :
    (account_id : ℕ) (number priority : Text) (t : Registry)
    → IsSound t
    → Grown account_id (number ∷ []) [] t (with_exophone account_id number priority t)
unfolding with_exophone new_exophone
with_exophone-Grown account_id number priority t h = record {
  sound = with_exophone-IsSound account_id number priority t h;
  exophones_added =
      appending_one _ _ _ t.monitored.exophones t.next_exophone
        (new_exophone t.next_exophone account_id number priority) number refl refl
        (refl, refl, refl);
  jobs_added = appending_nothing _ _ _ t.monitored.jobs t.next_job;
  accounts_kept = refl;
}
