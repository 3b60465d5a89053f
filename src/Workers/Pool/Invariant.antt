-- ===== src/Workers/Pool/Invariant.antt =====
-- Every state that the pool of internal/workers/pool.go reaches, and the end of its work.
use exotel_monitoring_platfo.Prelude.{
  ◌*◌, ℕ, zero, suc, ◌+◌, ◌≤◌, ◌<◌, ◌≡◌, refl, ap, ℤ, pos, negsuc, Bool, List, [], ◌∷◌, ◌++◌,
  length, length-append, count_if, count_if-append, arith,
}
use exotel_monitoring_platfo.Models.{MonitoringJob, TxnStatus}
use exotel_monitoring_platfo.Repository.Due.{get_due_jobs, advance_next_run_of}
use exotel_monitoring_platfo.Workers.Pool.{
  Pool, pool_size, tick, start, end_job, Work, starts, returns, panics, Step, ticks, works, Reached,
  initial, moved,
}

pub pool_size_positive : (n : ℤ) → 0 < pool_size n
unfolding pool_size
pool_size_positive (pos zero) = omega arith
pool_size_positive (pos (suc n)) = omega arith
pool_size_positive (negsuc n) = omega arith

-- Where a job asked for is: waiting, running or done.
abbrev placed : (MonitoringJob → Bool) → Pool → ℕ
placed p s = count_if p s.waiting + count_if p s.running + count_if p s.done

ended_count :
    (p : MonitoringJob → Bool) (later : List MonitoringJob) (j : MonitoringJob)
    (earlier table : List MonitoringJob) (s : Pool)
    → s.running ≡ later ++ j ∷ earlier
    → placed p (end_job later j earlier table s) ≡ placed p s
unfolding end_job
ended_count p later j earlier table s e = omega (
  arith,
  ap (count_if p) e,
  count_if-append p later (j ∷ earlier),
  count_if-append p later earlier,
)

Step-count :
    {size : ℕ} {more : List MonitoringJob} {s s' : Pool} (p : MonitoringJob → Bool)
    → Step size more s s'
    → placed p s' ≡ placed p s + count_if p more
unfolding tick start
Step-count p (ticks now exophones s) =
    omega (arith, count_if-append p s.waiting (get_due_jobs now exophones s.table))
Step-count p (works (starts before j after s e room)) =
    omega (
      arith,
      ap (count_if p) e,
      count_if-append p before (j ∷ after),
      count_if-append p before after,
    )
Step-count p (works (returns now status later j earlier s e)) =
    omega (arith, ended_count p later j earlier (advance_next_run_of j.id now status s.table) s e)
Step-count p (works (panics later j earlier s e)) =
    omega (arith, ended_count p later j earlier s.table s e)

ended_length :
    (later : List MonitoringJob) (j : MonitoringJob) (earlier running : List MonitoringJob)
    → running ≡ later ++ j ∷ earlier
    → suc (length (later ++ earlier)) ≡ length running
ended_length later j earlier running e =
    omega (arith, ap length e, length-append later (j ∷ earlier), length-append later earlier)

Step-bound :
    {size : ℕ} {more : List MonitoringJob} {s s' : Pool}
    → Step size more s s'
    → length s.running ≤ size
    → length s'.running ≤ size
unfolding tick start end_job
Step-bound (ticks now exophones s) h = h
Step-bound (works (starts before j after s e room)) h = omega (arith, room)
Step-bound (works (returns now status later j earlier s e)) h =
    omega (arith, h, ended_length later j earlier s.running e)
Step-bound (works (panics later j earlier s e)) h =
    omega (arith, h, ended_length later j earlier s.running e)

-- In every state that the pool reaches no more jobs run than it has slots; and of every kind of job,
-- those waiting, running and done are together as many as the ticks have asked for.
pub pool_invariant :
    {size : ℕ} {table asked : List MonitoringJob} {s : Pool}
    → Reached size table asked s
    → (length s.running ≤ size)
      × ((p : MonitoringJob → Bool)
          → count_if p s.waiting + count_if p s.running + count_if p s.done ≡ count_if p asked)
pool_invariant initial = (omega arith, λ p. refl)
pool_invariant (moved asked more s s' reached step) =
    let (bound, counts) = pool_invariant reached in
    (
      Step-bound step bound,
      λ p. omega (arith, Step-count p step, counts p, count_if-append p asked more),
    )

-- the work of a pool whose lists are known
Work-from :
    {size : ℕ} (waiting running : List MonitoringJob) (s : Pool)
    → s.waiting ≡ waiting
    → s.running ≡ running
    → 0 < size
    → 0 < length waiting + length running
    → (s' : Pool) × Work size s s'
Work-from waiting (j ∷ earlier) s w r pos_size busy =
    (_, returns 0 TxnStatus.success [] j earlier s r)
Work-from (j ∷ rest) [] s w r pos_size busy =
    (_, starts [] j rest s w (omega (arith, ap length r, pos_size)))
Work-from [] [] s w r pos_size busy = elim nothing [ ]
  where
    nothing : ⊥
    nothing = omega (arith, busy)

-- What is left to do: a start and an end for each waiting job, an end for each running one.
abbrev pub left : Pool → ℕ
left s = 2 * length s.waiting + length s.running

Work-left : {size : ℕ} {s s' : Pool} → Work size s s' → suc (left s') ≡ left s
unfolding start end_job
Work-left (starts before j after s e room) =
    omega (arith, ap length e, length-append before (j ∷ after), length-append before after)
Work-left (returns now status later j earlier s e) =
    omega (arith, ended_length later j earlier s.running e)
Work-left (panics later j earlier s e) = omega (arith, ended_length later j earlier s.running e)

-- A number of works, one after the other.
pub data Works (size : ℕ) : ℕ → Pool → Pool → Type 0 where
  resting : (s : Pool) → Works size 0 s s
  then_work :
      {k : ℕ} (s s' s'' : Pool) → Works size k s s' → Work size s' s'' → Works size (suc k) s s''

-- Each work between two ticks takes one from what is left to do, two for each waiting job and one
-- for each running one: k works and what they leave are what was left before them.
pub pool_drains : {size k : ℕ} {s s' : Pool} → Works size k s s' → k + left s' ≡ left s
pool_drains (resting s) = omega arith
pool_drains (then_work s s' s'' before work) = omega (arith, pool_drains before, Work-left work)

-- A pool of any configured size is never stuck: while a job waits or runs, some job can start or
-- end.
pub pool_progress :
    (n : ℤ) (s : Pool)
    → 0 < length s.waiting + length s.running
    → (s' : Pool) × Work (pool_size n) s s'
pool_progress n s busy = Work-from s.waiting s.running s refl refl (pool_size_positive n) busy
