-- ===== src/Tests/Runs.antt =====
-- Runs of jobs, the pool that starts them, and the pushed heartbeat.
use exotel_monitoring_platfo.Prelude.{
  ◌<◌, ℕ, ◌+◌, ◌*◌, ◌≤◌, ◌≡◌, refl, Bool, true, List, [], ◌∷◌, ◌++◌, Option, none, codes, length,
  count_if, arith,
}
use exotel_monitoring_platfo.Models.{streams, MonitoringJob, heartbeat, calls, TxnStatus, Failure}
use exotel_monitoring_platfo.Effects.{Credentials, Env}
use exotel_monitoring_platfo.Workers.Window.{window_start, window_bounds}
use exotel_monitoring_platfo.Exotel.Http.{answered}
use exotel_monitoring_platfo.Utils.Retry.{default_retry_config}
use exotel_monitoring_platfo.Workers.Progress.{save_response}
use exotel_monitoring_platfo.Workers.CallsJob.{report_calls, skips_call_logs}
use exotel_monitoring_platfo.Workers.StreamsJob.{execute_streams}
use exotel_monitoring_platfo.Workers.ClientErrors.{client_error_succeeds}
use exotel_monitoring_platfo.Workers.Sources.{sources, consistent_sources, report_calls-sources}
use exotel_monitoring_platfo.Workers.Job.{execute_job, credentials}
use exotel_monitoring_platfo.Workers.Events.{events}
use exotel_monitoring_platfo.Workers.Settled.{IsOutcome}
use exotel_monitoring_platfo.Workers.Runs.{life, one_life}
use exotel_monitoring_platfo.Repository.Due.{get_due_jobs}
use exotel_monitoring_platfo.Workers.Pool.{
  Pool, tick, start, end_job, starts, panics, ticks, Reached, initial, moved,
}
use exotel_monitoring_platfo.Workers.Pool.Invariant.{
  pool_invariant, pool_drains, Works, resting, then_work, left,
}
use exotel_monitoring_platfo.Workers.Pool.Ticks.{repeated_tick}
use exotel_monitoring_platfo.Tests.Fixtures.{account, batch, job_of, env, idle_world, exophone, vn}

one_life_example :
    (status : TxnStatus) × (err : Option Failure) × IsOutcome status err
    × (events (execute_job env (codes "TXN-1") (job_of calls) idle_world).writes
        ≡ events idle_world.writes ++ life env (codes "TXN-1") (job_of calls) status err)
one_life_example = one_life env (codes "TXN-1") (job_of calls) (λ n. refl) idle_world

abbrev broken_database : Env ℕ
broken_database = record env { write_fails = λ n. true }

-- six in the morning in India on the second day after the epoch, with a run half an hour before
abbrev now : ℕ
now = 88_200_000_000_000

abbrev last : ℕ
last = 86_400_000_000_000

abbrev late : ℕ
late = 1_714_550_000_000_000_000

window_bounds_example :
    (midnight : ℕ) × ((days : ℕ) × (midnight + 19_800_000_000_000 ≡ 86_400_000_000_000 * days))
    × (midnight ≤ late)
    × (late < midnight + 86_400_000_000_000)
    × (midnight ≤ window_start late 30 none)
    × (late ≤ window_start late 30 none + 30 * 4 * 60_000_000_000)
    × (window_start late 30 none ≤ late)
window_bounds_example = window_bounds late 30 none (omega arith)

abbrev urgent : MonitoringJob
urgent = record (job_of heartbeat) { id = 8; priority = codes "P0" }

abbrev jobs : List MonitoringJob
jobs = job_of calls ∷ urgent ∷ []

abbrev idle_pool : Pool
idle_pool = record { table = jobs; waiting = []; running = []; done = [] }

abbrev asked_pool : Pool
asked_pool = record idle_pool { waiting = urgent ∷ job_of calls ∷ [] }

reached : Reached 1 jobs ([] ++ urgent ∷ job_of calls ∷ []) asked_pool
unfolding get_due_jobs tick
reached =
    moved [] (urgent ∷ job_of calls ∷ []) idle_pool asked_pool initial
      (ticks 2_000 (exophone ∷ []) idle_pool)

pool_invariant_example :
    (length asked_pool.running ≤ 1)
    × ((p : MonitoringJob → Bool)
        → count_if p asked_pool.waiting + count_if p asked_pool.running + count_if p asked_pool.done
          ≡ count_if p (urgent ∷ job_of calls ∷ []))
pool_invariant_example = pool_invariant reached

-- the urgent job runs and panics
abbrev busy_pool : Pool
busy_pool = record asked_pool { waiting = job_of calls ∷ []; running = urgent ∷ [] }

abbrev spent_pool : Pool
spent_pool = record busy_pool { running = []; done = urgent ∷ [] }

drain : Works 1 2 asked_pool spent_pool
unfolding start end_job
drain =
    then_work asked_pool busy_pool spent_pool
      (then_work asked_pool asked_pool busy_pool (resting asked_pool)
        (starts [] urgent (job_of calls ∷ []) asked_pool refl (omega arith)))
      (panics [] urgent [] busy_pool refl)

pool_drains_example : 2 + left spent_pool ≡ left asked_pool
pool_drains_example = pool_drains drain

repeated_tick_example :
    count_if (λ j. true) idle_pool.waiting
      + 2 * count_if (λ j. true) (get_due_jobs 2_000 (exophone ∷ []) jobs)
    ≤ count_if
        (λ j. true)
        (tick 60_000 (exophone ∷ []) (tick 2_000 (exophone ∷ []) idle_pool)).waiting
repeated_tick_example =
    repeated_tick 2_000 60_000 (exophone ∷ []) idle_pool (λ j. true) (omega arith)

abbrev unauthorised : Env ℕ
unauthorised = record env { streams_reply = λ creds n. answered 40 401 (codes "{}") }

abbrev creds : Credentials
creds = credentials env (codes "TXN-1") (job_of streams) account

client_error_succeeds_example :
    let (f, w) =
      execute_streams unauthorised
        (codes "TXN-1")
        (job_of streams)
        creds
        default_retry_config
        idle_world in
    (f.status ≡ TxnStatus.success)
    × (f.error_message ≡ none)
    × (f.retry_count ≡ 0)
    × (w
        ≡ save_response unauthorised
            (codes "TXN-1")
            (job_of streams)
            streams
            401
            (codes "{}")
            idle_world)
client_error_succeeds_example =
    client_error_succeeds unauthorised (codes "TXN-1") (job_of streams) creds 40 401 (codes "{}")
      default_retry_config 3 idle_world refl refl (omega arith) (omega arith) (omega arith)

report_calls-sources_example :
    sources (report_calls env (codes "TXN-1") (job_of calls) vn batch idle_world)
    ≡ sources idle_world ++ consistent_sources (skips_call_logs env (codes "TXN-1") (job_of calls))
report_calls-sources_example =
    report_calls-sources env (codes "TXN-1") (job_of calls) (λ n. refl) vn batch idle_world
