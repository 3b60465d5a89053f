-- ===== src/Repository/Due.antt =====
-- GetDueJobs and AdvanceNextRun (internal/repository/job_repo.go), on the tables as lists of rows.
-- The query's ORDER BY leaves rows with equal keys in any order; here they keep the table's.
use exotel_monitoring_platfo.Prelude.{
  ℕ, ◌+◌, ◌*◌, ◌≡◌, refl, Bool, true, false, ◌&&◌, ◌||◌, List, [], ◌∷◌, map, some, Text, codes,
  text_eq, if◌then◌else◌, ltb, leb, ◌==◌, one_if, count_if, keep_if, any_of, All, Bool-cases, inl,
  inr, arith,
}
use exotel_monitoring_platfo.Models.{Instant, MonitoringJob, Exophone, TxnStatus}
use exotel_monitoring_platfo.Snapshots.Accumulate.{minute}

-- FIELD(priority, 'P0', 'P1', 'P2', 'P3'): 0 for any other text
unfoldable pub priority_field : Text → ℕ
priority_field p =
    if text_eq p (codes "P0")
    then 1
    else if text_eq p (codes "P1")
    then 2
    else if text_eq p (codes "P2")
    then 3
    else if text_eq p (codes "P3")
    then 4
    else 0

-- the JOIN and the WHERE of the query
unfoldable pub is_due : Instant → List Exophone → MonitoringJob → Bool
is_due now exophones job =
    leb job.next_run_at now
    && (job.is_active == 1
        && (job.is_deleted == 0
            && any_of
                (λ (ep : Exophone).
                  ep.id == job.exophone_id && (ep.is_cron_applicable == 1 && ep.is_deleted == 0))
                exophones))

-- ORDER BY the field of the priority, next_run_at ASC
unfoldable pub goes_first : MonitoringJob → MonitoringJob → Bool
unfolding priority_field
goes_first a b =
    let pa = priority_field a.priority in
    let pb = priority_field b.priority in ltb pa pb || (pa == pb && leb a.next_run_at b.next_run_at)

unfoldable pub insert_job : MonitoringJob → List MonitoringJob → List MonitoringJob
unfolding goes_first
insert_job j [] = j ∷ []
insert_job j (x ∷ xs) =
    let rest = insert_job j xs in if goes_first j x then j ∷ x ∷ xs else x ∷ rest

unfoldable pub sort_jobs : List MonitoringJob → List MonitoringJob
unfolding insert_job
sort_jobs [] = []
sort_jobs (j ∷ js) = insert_job j (sort_jobs js)

unfoldable pub get_due_jobs : Instant → List Exophone → List MonitoringJob → List MonitoringJob
unfolding is_due sort_jobs
get_due_jobs now exophones jobs = sort_jobs (keep_if (is_due now exophones) jobs)

-- The row of an id, updated: run now, next run a period later.
unfoldable pub advance_next_run_of :
    ℕ → Instant → TxnStatus → List MonitoringJob → List MonitoringJob
advance_next_run_of id now status jobs =
    map
      (λ (job : MonitoringJob).
        if job.id == id
        then record job {
          next_run_at = now + job.frequency_minutes * minute;
          last_run_at = some now;
          last_status = some status;
        }
        else job)
      jobs

unfoldable pub InOrder : List MonitoringJob → Type 0
InOrder [] = Unit
InOrder (x ∷ xs) = All (λ y. goes_first x y ≡ true) xs × InOrder xs

goes_first_total : (a b : MonitoringJob) → goes_first a b ≡ false → goes_first b a ≡ true
unfolding goes_first
goes_first_total a b h = ground (arith, h)

goes_first_trans :
    (a b c : MonitoringJob) → goes_first a b ≡ true → goes_first b c ≡ true → goes_first a c ≡ true
unfolding goes_first
goes_first_trans a b c h k = ground (arith, h, k)

goes_first-All :
    (a b : MonitoringJob) (xs : List MonitoringJob)
    → goes_first a b ≡ true
    → All (λ y. goes_first b y ≡ true) xs
    → All (λ y. goes_first a y ≡ true) xs
goes_first-All a b [] h k = k
goes_first-All a b (x ∷ xs) h (k, ks) = (goes_first_trans a b x h k, goes_first-All a b xs h ks)

insert-All :
    (a j : MonitoringJob) (xs : List MonitoringJob)
    → goes_first a j ≡ true
    → All (λ y. goes_first a y ≡ true) xs
    → All (λ y. goes_first a y ≡ true) (insert_job j xs)
unfolding insert_job
insert-All a j [] h k = (h, tt)
insert-All a j (x ∷ xs) h (k, ks) = elim (Bool-cases (goes_first j x)) [
  | inl e ↦ rw (e, insert_job) (h, (k, ks))
  | inr e ↦ rw (e, insert_job) (k, insert-All a j xs h ks)
]

insert-InOrder :
    (j : MonitoringJob) (xs : List MonitoringJob) → InOrder xs → InOrder (insert_job j xs)
unfolding insert_job InOrder
insert-InOrder j [] _ = (tt, tt)
insert-InOrder j (x ∷ xs) (a, o) = elim (Bool-cases (goes_first j x)) [
  | inl e ↦ rw (e, insert_job) ((e, goes_first-All j x xs e a), (a, o))
  | inr e ↦ rw (e, insert_job) (insert-All x j xs (goes_first_total j x e) a, insert-InOrder j xs o)
]

sort-InOrder : (js : List MonitoringJob) → InOrder (sort_jobs js)
unfolding sort_jobs InOrder
sort-InOrder [] = tt
sort-InOrder (j ∷ js) = insert-InOrder j (sort_jobs js) (sort-InOrder js)

insert_count :
    (p : MonitoringJob → Bool) (j : MonitoringJob) (xs : List MonitoringJob)
    → count_if p (insert_job j xs) ≡ one_if (p j) + count_if p xs
unfolding insert_job
insert_count p j [] = refl
insert_count p j (x ∷ xs) = elim (Bool-cases (goes_first j x)) [
  | inl e ↦ rw (e, insert_job) refl
  | inr e ↦ rw (e, insert_job) (omega (arith, insert_count p j xs))
]

sort_count :
    (p : MonitoringJob → Bool) (js : List MonitoringJob) → count_if p (sort_jobs js) ≡ count_if p js
unfolding sort_jobs
sort_count p [] = refl
sort_count p (j ∷ js) = omega (arith, insert_count p j (sort_jobs js), sort_count p js)

-- The due jobs come in the order of their priority and, within one, of their next run; and of every
-- kind of job there are as many as the table holds due ones.
pub get_due_jobs-InOrder :
    (now : Instant) (exophones : List Exophone) (jobs : List MonitoringJob)
    → InOrder (get_due_jobs now exophones jobs)
      × ((p : MonitoringJob → Bool)
          → count_if p (get_due_jobs now exophones jobs)
            ≡ count_if p (keep_if (is_due now exophones) jobs))
unfolding get_due_jobs
get_due_jobs-InOrder now exophones jobs = (
  sort-InOrder (keep_if (is_due now exophones) jobs),
  λ p. sort_count p (keep_if (is_due now exophones) jobs),
)
