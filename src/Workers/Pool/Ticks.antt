-- ===== src/Workers/Pool/Ticks.antt =====
-- Two ticks of RunDueJobs (internal/workers/dispatcher.go) with no end of a run between them.
use exotel_monitoring_platfo.Prelude.{
  Bool-cases, keep_if, ◌*◌, ◌+◌, ◌≤◌, ◌≡◌, Bool, true, List, [], ◌∷◌, ◌++◌, count_if,
  count_if-append, inl, inr, arith,
}
use exotel_monitoring_platfo.Models.{Instant, MonitoringJob, Exophone}
use exotel_monitoring_platfo.Repository.Due.{is_due, get_due_jobs-InOrder, get_due_jobs}
use exotel_monitoring_platfo.Workers.Pool.{Pool, tick}

still_due :
    (now later : Instant) (exophones : List Exophone) (j : MonitoringJob)
    → now ≤ later
    → is_due now exophones j ≡ true
    → is_due later exophones j ≡ true
unfolding is_due
still_due now later exophones j h due = ground (arith, h, due)

still_due_count :
    (p : MonitoringJob → Bool) (now later : Instant) (exophones : List Exophone)
    (js : List MonitoringJob)
    → now ≤ later
    → count_if p (keep_if (is_due now exophones) js)
      ≤ count_if p (keep_if (is_due later exophones) js)
still_due_count p now later exophones [] h = omega arith
still_due_count p now later exophones (j ∷ js) h = elim (Bool-cases (is_due now exophones j)) [
  | inl due ↦
      rw (due, still_due now later exophones j h due)
        (omega (arith, still_due_count p now later exophones js h))
  | inr idle ↦ elim (Bool-cases (is_due later exophones j)) [
    | inl due ↦ rw (idle, due) (omega (arith, still_due_count p now later exophones js h))
    | inr gone ↦ rw (idle, gone) (still_due_count p now later exophones js h)
  ]
]

-- A job stays due until its run ends: where a second tick follows a first one, no earlier and for
-- the same exophones, the queue holds of every kind of job what waited before and at least twice
-- what the first tick has asked for.
pub repeated_tick :
    (now later : Instant) (exophones : List Exophone) (s : Pool) (p : MonitoringJob → Bool)
    → now ≤ later
    → count_if p s.waiting + 2 * count_if p (get_due_jobs now exophones s.table)
      ≤ count_if p (tick later exophones (tick now exophones s)).waiting
unfolding tick
repeated_tick now later exophones s p h = omega (
  arith,
  count_if-append p (s.waiting ++ get_due_jobs now exophones s.table)
      (get_due_jobs later exophones s.table),
  count_if-append p s.waiting (get_due_jobs now exophones s.table),
  (get_due_jobs-InOrder now exophones s.table).1 p,
  (get_due_jobs-InOrder later exophones s.table).1 p,
  still_due_count p now later exophones s.table h,
)
