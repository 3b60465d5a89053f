-- ===== src/Workers/Runs.antt =====
-- A whole run of ExecuteJob (internal/workers/job_worker.go): its transaction is settled once, and
-- the job's next run set once, by the same status.
use mathlib.Core.List.{append_assoc}
use exotel_monitoring_platfo.Prelude.{
  ℕ, suc, ◌≡◌, refl, ap, ◌∙◌, true, false, List, [], ◌∷◌, ◌++◌, Option, none, some, Text,
}
use exotel_monitoring_platfo.Models.{MonitoringJob, TxnStatus, Failure, not_found, Account}
use exotel_monitoring_platfo.Effects.{
  Env, World, Write, write_anyway, attempt_write, create_transaction, delete_cached,
  health_snap_key,
}
use exotel_monitoring_platfo.Workers.Progress.{Finish}
use exotel_monitoring_platfo.Workers.Job.{
  update_transaction, advance, refresh_health, conclude, run_job, execute_job, new_transaction,
}
use exotel_monitoring_platfo.Workers.Traces.{traced_snoc}
use exotel_monitoring_platfo.Workers.Events.{
  event, events, write_quiet, then_quiet, attempt_quiet, Event, created, settled, advanced,
}
use exotel_monitoring_platfo.Workers.Settled.{
  IsOutcome, failed_is, IsExecution, execute_type-IsExecution,
}

module _ {R : Type 0} (env : Env R) (txn_id : Text) (job : MonitoringJob) where
  -- what the writes of a run should say of its life
  unfoldable pub life : TxnStatus → Option Failure → List Event
  unfolding new_transaction
  life status err =
      created (new_transaction env txn_id job)
      ∷ settled txn_id status err
      ∷ advanced job.id status
      ∷ []

  -- A run whose transaction cannot be created does nothing but this failed write.
  pub creation_failure :
      (w : World R)
      → env.write_fails w.tried ≡ true
      → execute_job env txn_id job w ≡ record w { tried = suc w.tried }
  unfolding execute_job attempt_write
  creation_failure w e = rw (e, execute_job) refl

  refresh_health_quiet :
      (w : World R) → events (refresh_health env txn_id job w).writes ≡ events w.writes
  unfolding refresh_health
  refresh_health_quiet w =
      then_quiet env _ (write_anyway env (delete_cached (health_snap_key job.exophone_id))) _
        (write_quiet env _ refl) (attempt_quiet env _ refl w)

  module _ (no_fault : (n : ℕ) → env.write_fails n ≡ false) where
    written : (x : Write R) (w : World R) → (write_anyway env x w).writes ≡ w.writes ++ x ∷ []
    unfolding write_anyway attempt_write
    written x w = rw (no_fault w.tried, write_anyway) refl

    written_event :
        (x : Write R) (w : World R)
        → events (write_anyway env x w).writes ≡ events w.writes ++ event x
    written_event x w = ap (λ xs. events xs) (written x w) ∙ traced_snoc event w.writes x

    advance_event :
        (status : TxnStatus) (w : World R)
        → events (advance env txn_id job status w).writes
          ≡ events w.writes ++ advanced job.id status ∷ []
    unfolding advance
    advance_event status w = written_event _ w

    conclude-events :
        (es : List Event) (r : Finish × World R)
        → IsExecution env txn_id job es r
        → (status : TxnStatus) × (err : Option Failure) × IsOutcome status err
          × (events (conclude env txn_id job r).writes
              ≡ es ++ settled txn_id status err ∷ advanced job.id status ∷ [])
    unfolding conclude update_transaction IsExecution
    conclude-events es (f, w) (o, e) = (
      f.status,
      f.error_message,
      o,
      advance_event f.status _
          ∙ ap (λ xs. xs ++ advanced job.id f.status ∷ [])
              (refresh_health_quiet _
                ∙ written_event _ w
                ∙ ap (λ xs. xs ++ settled txn_id f.status f.error_message ∷ []) e)
          ∙ append_assoc es _ _,
    )

    run_job-events :
        (account : Option Account) (w : World R)
        → (status : TxnStatus) × (err : Option Failure) × IsOutcome status err
          × (events (run_job env txn_id job account w).writes
              ≡ events w.writes ++ settled txn_id status err ∷ advanced job.id status ∷ [])
    unfolding run_job
    run_job-events none w = (
      TxnStatus.failed,
      some not_found,
      failed_is not_found,
      advance_event TxnStatus.failed _
          ∙ ap (λ xs. xs ++ advanced job.id TxnStatus.failed ∷ []) (written_event _ w)
          ∙ append_assoc (events w.writes) _ _,
    )
    run_job-events (some account) w =
        conclude-events (events w.writes) _
          (execute_type-IsExecution env txn_id job job.job_type _ _ w)

    started :
        (w : World R)
        → execute_job env txn_id job w
          ≡ run_job env txn_id job env.account
              (write_anyway env (create_transaction (new_transaction env txn_id job)) w)
    unfolding execute_job write_anyway attempt_write
    started w = rw (no_fault w.tried, execute_job, write_anyway) refl

    -- A run in which no write fails creates its transaction as running, then settles it once and
    -- advances the job once, both by one status: success without an error, or failure with one.
    pub one_life :
        (w : World R)
        → (status : TxnStatus) × (err : Option Failure) × IsOutcome status err
          × (events (execute_job env txn_id job w).writes ≡ events w.writes ++ life status err)
    unfolding life
    one_life w =
        let (status, err, o, e) = run_job-events env.account after in
        (
          status,
          err,
          o,
          ap (λ (v : World R). events v.writes) (started w)
              ∙ e
              ∙ ap (λ xs. xs ++ settled txn_id status err ∷ advanced job.id status ∷ [])
                  (written_event _ w)
              ∙ append_assoc (events w.writes) _ _,
        )
      where
        after : World R
        after = write_anyway env (create_transaction (new_transaction env txn_id job)) w
