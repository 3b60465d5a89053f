-- ===== src/Workers/Pool.antt =====
-- RunDueJobs (internal/workers/dispatcher.go) and the pool of internal/workers/pool.go. The channel
-- that is used as a semaphore holds a token for each job that runs. What happens is a sequence of
-- steps: the scheduler's tick queues the due jobs for Submit, a submit that finds a free slot starts
-- its job, and a job that ends, by its return or by a panic, gives its slot back.
pub mod Invariant
pub mod Ticks
use exotel_monitoring_platfo.Prelude.{
  Bool-cases, keep_if, ◌*◌, ℕ, zero, suc, ◌+◌, ◌≤◌, ◌<◌, ◌≡◌, refl, ap, ℤ, pos, negsuc, Bool, true,
  List, [], ◌∷◌, ◌++◌, length, length-append, count_if, count_if-append, inl, inr, arith,
}
use exotel_monitoring_platfo.Models.{Instant, MonitoringJob, Exophone, TxnStatus}
use exotel_monitoring_platfo.Repository.Due.{
  is_due, get_due_jobs-InOrder, get_due_jobs, advance_next_run_of,
}

-- InitPool: the configured size, or 20
unfoldable pub pool_size : ℤ → ℕ
pool_size (pos zero) = 20
pool_size (pos (suc n)) = suc n
pool_size (negsuc n) = 20

pub record Pool : Type 0 where
  pub table : List MonitoringJob
  pub waiting : List MonitoringJob
  pub running : List MonitoringJob
  pub done : List MonitoringJob

unfoldable pub tick : Instant → List Exophone → Pool → Pool
tick now exophones s = record s { waiting = s.waiting ++ get_due_jobs now exophones s.table }

-- The tick that has queued a job waits in Submit, and another tick may wait there too, so that any
-- job of the queue may be the next to get a slot.
unfoldable pub start : List MonitoringJob → MonitoringJob → List MonitoringJob → Pool → Pool
start before j after s = record s { waiting = before ++ after; running = j ∷ s.running }

-- the end of a job between those that started after it and before it
unfoldable pub end_job :
    List MonitoringJob → MonitoringJob → List MonitoringJob → List MonitoringJob → Pool → Pool
end_job later j earlier table s = record s {
  table = table;
  running = later ++ earlier;
  done = j ∷ s.done;
}

-- What the pool does between ticks. A job ends by AdvanceNextRun, or by a panic that `recover` stops,
-- which leaves its row as it was.
pub data Work (size : ℕ) : Pool → Pool → Type 0 where
  starts :
      (before : List MonitoringJob) (j : MonitoringJob) (after : List MonitoringJob) (s : Pool)
      → s.waiting ≡ before ++ j ∷ after
      → length s.running < size
      → Work size s (start before j after s)
  returns :
      (now : Instant) (status : TxnStatus) (later : List MonitoringJob) (j : MonitoringJob)
      (earlier : List MonitoringJob) (s : Pool)
      → s.running ≡ later ++ j ∷ earlier
      → Work size s (end_job later j earlier (advance_next_run_of j.id now status s.table) s)
  panics :
      (later : List MonitoringJob) (j : MonitoringJob) (earlier : List MonitoringJob) (s : Pool)
      → s.running ≡ later ++ j ∷ earlier
      → Work size s (end_job later j earlier s.table s)

-- A step, with the due jobs that it asks the pool to run.
pub data Step (size : ℕ) : List MonitoringJob → Pool → Pool → Type 0 where
  ticks :
      (now : Instant) (exophones : List Exophone) (s : Pool)
      → Step size (get_due_jobs now exophones s.table) s (tick now exophones s)
  works : {s s' : Pool} → Work size s s' → Step size [] s s'

-- Reached from the idle pool, with all that was asked on the way.
pub data Reached (size : ℕ) (table : List MonitoringJob) : List MonitoringJob → Pool → Type 0 where
  initial : Reached size table [] (record { table = table; waiting = []; running = []; done = [] })
  moved :
      (asked more : List MonitoringJob) (s s' : Pool)
      → Reached size table asked s
      → Step size more s s'
      → Reached size table (asked ++ more) s'
