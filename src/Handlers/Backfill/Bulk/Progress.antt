-- ===== src/Handlers/Backfill/Bulk/Progress.antt =====
-- The counters and results of the bulk backfill (internal/handlers/backfill.go), in every state that
-- its steps lead to.
use exotel_monitoring_platfo.Prelude.{
  ℕ, suc, ◌+◌, ◌*◌, ◌≤◌, ◌<◌, ◌≡◌, refl, ap, subst, ◌∙◌, Bool, true, false, ◌&&◌, List, [], ◌∷◌,
  ◌++◌, Option, none, some, Text, text_eq, ◌==◌, one_if, count_if, count_if-append, length,
  length-append, inl, inr, Bool-cases, arith,
}
use exotel_monitoring_platfo.Models.{Exophone, Account}
use exotel_monitoring_platfo.Handlers.Rebuild.{Stores}
use exotel_monitoring_platfo.Handlers.Backfill.{BackfillEnd, backfill_failed, backfill_done}
use exotel_monitoring_platfo.Handlers.Backfill.Bulk.{
  BulkTask, BulkResult, Bulk, CredCache, BulkWork, Phase, idle, loading, working, Server,
  BulkRequest, concurrency, tasks_for, tasks_of, bad_date, claim_bulk, check_dates, request_bulk,
  give_up, load_bulk, take, run_task, failures_of, record_end, end_task, end_bulk, BulkStep,
  requested, loaded, taken, ended, waited, no_bulk, Reached, initial, moved,
}

-- Whether a task, a result is of the exophone and the date.
abbrev pub task_of : ℕ → Text → BulkTask → Bool
task_of id date t = t.ep.id == id && text_eq t.date date

abbrev pub result_of : {R : Type 0} → ℕ → Text → BulkResult R → Bool
result_of id date r = r.exophone_id == id && text_eq r.date date

abbrev pub is_failure : {R : Type 0} → BulkResult R → Bool
is_failure r = elim r.outcome [ backfill_failed err ↦ true | backfill_done a b c ↦ false ]

-- The counters and the lists of a backfill that goes on.
pub record IsWorking {R : Type 0} (w : BulkWork) (b : Bulk R) : Type 0 where
  pub running : b.running ≡ true
  pub total : b.total ≡ length w.enqueued
  pub finished : b.finished + length w.queued + length w.in_flight ≡ b.total
  pub workers : length w.in_flight ≤ 3
  pub results : length b.results ≡ b.finished
  pub failures : count_if is_failure b.results ≡ b.failures
  pub placed :
      (id : ℕ) (date : Text)
      → count_if (result_of id date) b.results
          + count_if (task_of id date) w.queued
          + count_if (task_of id date) w.in_flight
        ≡ count_if (task_of id date) w.enqueued

length-tasks_for :
    (body : BulkRequest) (ep : Exophone) (dates : List Text)
    → length (tasks_for body ep dates) ≡ length dates
unfolding tasks_for
length-tasks_for body ep [] = refl
length-tasks_for body ep (d ∷ dates) = omega (arith, length-tasks_for body ep dates)

length-tasks_of :
    (body : BulkRequest) (eps : List Exophone)
    → length (tasks_of body eps) ≡ length eps * length body.dates
unfolding tasks_of
length-tasks_of body [] = omega arith
length-tasks_of body (ep ∷ eps) = omega (
  arith,
  length-append (tasks_for body ep body.dates) (tasks_of body eps),
  length-tasks_for body ep body.dates,
  length-tasks_of body eps,
)

module _ {R : Type 0} where
  InPhase : Phase → Bulk R → Type 0
  InPhase idle b = b.running ≡ false
  InPhase loading b = (b.running ≡ true) × (b.finished ≡ 0) × (b.failures ≡ 0) × (b.results ≡ [])
  InPhase (working w) b = IsWorking w b

  failure_counted :
      (t : BulkTask) (end : BackfillEnd R)
      → one_if (
          is_failure (record {
            exophone_id = t.ep.id;
            exophone_number = t.ep.exophone_number;
            date = t.date;
            outcome = end;
          }))
        ≡ failures_of end
  unfolding failures_of
  failure_counted t (backfill_failed err) = refl
  failure_counted t (backfill_done a b c) = refl

  take-IsWorking :
      (t : BulkTask) (rest : List BulkTask) (w : BulkWork) (b : Bulk R)
      → IsWorking w b
      → w.queued ≡ t ∷ rest
      → length w.in_flight < concurrency
      → IsWorking (take t rest w) b
  unfolding take
  take-IsWorking t rest w b ok q room = record {
    running = ok.running;
    total = ok.total;
    finished = omega (arith, ok.finished, ap length q);
    workers = omega (arith, room);
    results = ok.results;
    failures = ok.failures;
    placed = λ id date. omega (arith, ok.placed id date, ap (count_if (task_of id date)) q);
  }

  end-IsWorking :
      (later : List BulkTask) (t : BulkTask) (earlier : List BulkTask) (end : BackfillEnd R)
      (w : BulkWork) (b : Bulk R)
      → IsWorking w b
      → w.in_flight ≡ later ++ t ∷ earlier
      → IsWorking (record w { in_flight = later ++ earlier }) (record_end t end b)
  unfolding record_end
  end-IsWorking later t earlier end w b ok at = record {
    running = ok.running;
    total = ok.total;
    finished = omega (arith, ok.finished, sizes, whole);
    workers = omega (arith, ok.workers, sizes, whole);
    results = omega (arith, ok.results, length-append b.results (one ∷ []));
    failures = omega (
      arith,
      ok.failures,
      count_if-append is_failure b.results (one ∷ []),
      failure_counted t end,
    );
    placed = λ id date. omega (
      arith,
      ok.placed id date,
      ap (count_if (task_of id date)) at,
      count_if-append (task_of id date) later (t ∷ earlier),
      count_if-append (task_of id date) later earlier,
      count_if-append (result_of id date) b.results (one ∷ []),
    );
  }
    where
      one : BulkResult R
      one = record {
        exophone_id = t.ep.id;
        exophone_number = t.ep.exophone_number;
        date = t.date;
        outcome = end;
      }

      sizes : length (later ++ earlier) ≡ length later + length earlier
      sizes = length-append later earlier

      whole : length w.in_flight ≡ length later + suc (length earlier)
      whole = ap length at ∙ length-append later (t ∷ earlier)

  started-IsWorking :
      (enqueued : List BulkTask) (cache : CredCache) (total : ℕ) (b : Bulk R)
      → InPhase loading b
      → length enqueued ≡ total
      → IsWorking
          (record { enqueued = enqueued; cred_cache = cache; queued = enqueued; in_flight = [] })
          (record b { total = total })
  unfolding InPhase
  started-IsWorking enqueued cache total b (running, finished, failures, results) e = record {
    running = running;
    total = omega (arith, e);
    finished = omega (arith, finished, e);
    workers = omega arith;
    results = omega (arith, ap length results, finished);
    failures = omega (arith, ap (count_if is_failure) results, failures);
    placed = λ id date. omega (arith, ap (count_if (result_of id date)) results);
  }

  claim-InPhase :
      (s : Server R) → InPhase s.phase s.bulk → InPhase (claim_bulk s).1.phase (claim_bulk s).1.bulk
  unfolding claim_bulk InPhase
  claim-InPhase s ok = elim (Bool-cases s.bulk.running) [
    | inl busy ↦ simp (busy, claim_bulk) ok
    | inr free ↦ rw (free, claim_bulk) (refl, refl, refl, refl)
  ]

  check-InPhase :
      (bad : Option Text) (s : Server R)
      → InPhase s.phase s.bulk
      → InPhase (check_dates bad s).1.phase (check_dates bad s).1.bulk
  unfolding check_dates
  check-InPhase (some d) s ok = ok
  check-InPhase none s ok = claim-InPhase s ok

  request-InPhase :
      (parse : Text → Option ℕ) (dates : List Text) (s : Server R)
      → InPhase s.phase s.bulk
      → InPhase (request_bulk parse dates s).1.phase (request_bulk parse dates s).1.bulk
  unfolding request_bulk
  request-InPhase parse [] s ok = ok
  request-InPhase parse (d ∷ dates) s ok = check-InPhase (bad_date parse (d ∷ dates)) s ok

  in_phase : (s : Server R) (x : Phase) → s.phase ≡ x → InPhase s.phase s.bulk → InPhase x s.bulk
  in_phase s x e ok = subst (λ y. InPhase y s.bulk) e ok

  load-InPhase :
      (decrypt : Text → Option Text) (account_by_id : ℕ → Option Account) (body : BulkRequest)
      (found : Option (List Exophone)) (s : Server R)
      → InPhase loading s.bulk
      → InPhase
          (load_bulk decrypt account_by_id body found s).1.phase
          (load_bulk decrypt account_by_id body found s).1.bulk
  unfolding load_bulk give_up InPhase
  load-InPhase decrypt account_by_id body none s ok = refl
  load-InPhase decrypt account_by_id body (some []) s ok = refl
  load-InPhase decrypt account_by_id body (some (ep ∷ eps)) s ok =
      started-IsWorking (tasks_of body (ep ∷ eps)) _ _ s.bulk ok (length-tasks_of body (ep ∷ eps))

  BulkStep-InPhase :
      {s s' : Server R} → BulkStep s s' → InPhase s.phase s.bulk → InPhase s'.phase s'.bulk
  unfolding InPhase end_task end_bulk
  BulkStep-InPhase (requested parse dates s) ok = request-InPhase parse dates s ok
  BulkStep-InPhase (loaded decrypt account_by_id body found s at) ok =
      load-InPhase decrypt account_by_id body found s (in_phase s loading at ok)
  BulkStep-InPhase (taken t rest w s at q room) ok =
      take-IsWorking t rest w s.bulk (in_phase s (working w) at ok) q room
  BulkStep-InPhase (ended env calls_job parse acc later t earlier w s at flying) ok =
      end-IsWorking later t earlier (run_task env calls_job parse w.cred_cache t acc s.stores).0 w
        s.bulk (in_phase s (working w) at ok) flying
  BulkStep-InPhase (waited w s at q flying) ok = refl

  Reached-InPhase : {stores : Stores R} {s : Server R} → Reached stores s → InPhase s.phase s.bulk
  unfolding InPhase no_bulk
  Reached-InPhase initial = refl
  Reached-InPhase (moved s s' reached step) = BulkStep-InPhase step (Reached-InPhase reached)

  -- In every state of a bulk backfill that goes on, at most three tasks are in flight; those that are
  -- queued, in flight and finished are together the total, which is that of all enqueued tasks; each
  -- finished one has a result, and the failures are the results that are errors; and of every
  -- exophone and date, the results and the tasks left are as many as were enqueued: none is lost, and
  -- none is run twice.
  pub bulk_progress :
      {stores : Stores R} {s : Server R} (w : BulkWork)
      → Reached stores s
      → s.phase ≡ working w
      → IsWorking w s.bulk
  unfolding InPhase
  bulk_progress {stores} {s} w reached at = in_phase s (working w) at (Reached-InPhase reached)

  -- When the workers have been waited for, the backfill is shown as no longer running, with as many
  -- results as tasks, and for every exophone and date as many results as tasks of it.
  pub bulk_complete :
      {stores : Stores R} {s : Server R} (w : BulkWork)
      → Reached stores s
      → s.phase ≡ working w
      → w.queued ≡ []
      → w.in_flight ≡ []
      → ((end_bulk s).bulk.running ≡ false)
        × ((end_bulk s).bulk.finished ≡ (end_bulk s).bulk.total)
        × (length (end_bulk s).bulk.results ≡ (end_bulk s).bulk.total)
        × ((id : ℕ) (date : Text)
            → count_if (result_of id date) (end_bulk s).bulk.results
              ≡ count_if (task_of id date) w.enqueued)
  unfolding end_bulk
  bulk_complete w reached at q flying =
      let ok = bulk_progress w reached at in
      (
        refl,
        omega (arith, ok.finished, ap length q, ap length flying),
        omega (arith, ok.finished, ok.results, ap length q, ap length flying),
        λ id date. omega (
          arith,
          ok.placed id date,
          ap (count_if (task_of id date)) q,
          ap (count_if (task_of id date)) flying,
        ),
      )
