-- ===== src/Tests/Switches.antt =====
-- The switches of an exophone and the pages of a day.
use exotel_monitoring_platfo.Prelude.{
  ℕ, ◌≡◌, refl, Bool, false, [], ◌∷◌, some, codes, count_if, keep_if, arith, ◌==◌,
}
use exotel_monitoring_platfo.Models.{CallMetricsSnapshot, MonitoringJob, calls, streams}
use exotel_monitoring_platfo.Snapshots.Accumulate.{new_snapshot}
use exotel_monitoring_platfo.Repository.Snapshots.{of_account}
use exotel_monitoring_platfo.Repository.Due.{get_due_jobs}
use exotel_monitoring_platfo.Handlers.Dashboard.{parse_uint}
use exotel_monitoring_platfo.Handlers.Exophones.{
  Monitored, TxFaults, cron_updated, toggle_cron, parse_flag,
}
use exotel_monitoring_platfo.Handlers.Exophones.Agreement.{
  InStep, cron_request, handle_exophone, handled-InStep,
}
use exotel_monitoring_platfo.Handlers.Exophones.Toggled.{toggled_due}
use exotel_monitoring_platfo.Handlers.Paging.{metrics_of_day, get_call_metrics_by_date, total_pages}
use exotel_monitoring_platfo.Handlers.Paging.Cover.{listed_from, day_listed}
use exotel_monitoring_platfo.Tests.Fixtures.{exophone, job_of}
use exotel_monitoring_platfo.Tests.Stored.{rows}

abbrev monitored : Monitored
monitored = record { exophones = exophone ∷ []; jobs = job_of calls ∷ job_of streams ∷ [] }

abbrev nothing_fails : TxFaults
nothing_fails = record { first_fails = false; second_fails = false; commit_fails = false }

handled-InStep_example :
    InStep
      (handle_exophone nothing_fails (cron_request (codes "3") (some (codes "false"))) monitored).1
unfolding InStep
handled-InStep_example =
    handled-InStep nothing_fails (cron_request (codes "3") (some (codes "false"))) monitored
      ((refl, (refl, tt)), tt)

toggled_due_example :
    let after = toggle_cron nothing_fails (codes "3") (some (codes "true")) monitored in
    (after.0 ≡ cron_updated 3 1)
    × (count_if
          (λ (j : MonitoringJob). j.exophone_id == 3)
          (get_due_jobs 5_000 after.1.exophones after.1.jobs)
        ≡ 2)
unfolding parse_uint parse_flag
toggled_due_example =
    toggled_due nothing_fails (codes "3") (codes "true") 1 monitored 5_000 refl refl refl

-- two rows, one on a page
day_listed_example :
    (listed_from 1 0 1 rows 2 1 ≡ metrics_of_day 1 0 rows)
    × ((p : CallMetricsSnapshot ℕ → Bool)
        → count_if p (listed_from 1 0 1 rows 2 1) ≡ count_if p (keep_if (of_account 1 0) rows))
unfolding get_call_metrics_by_date total_pages new_snapshot
day_listed_example = day_listed 1 0 1 rows (omega arith) (omega arith) (omega arith)
