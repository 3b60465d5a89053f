-- ===== src/Handlers/Backfill/Jobs/Single.antt =====
-- One backfill at a time for an exophone and date (internal/handlers/backfill.go), in every state that
-- requests and runs lead to.
use exotel_monitoring_platfo.Prelude.{
  ℕ, ◌+◌, ◌<◌, ◌≡◌, refl, ap, sym, subst, ◌∙◌, Bool, true, false, List, [], ◌∷◌, ◌++◌, Option, none,
  some, Text, is_empty, if◌then◌else◌, ◌==◌, ==_iff, one_if, count_if, count_if-append, All, inl,
  inr, Bool-cases, arith,
}
use exotel_monitoring_platfo.Models.{Instant, Exophone, Account, MonitoringJob}
use exotel_monitoring_platfo.Effects.{Env}
use exotel_monitoring_platfo.Handlers.Rebuild.{Stores}
use exotel_monitoring_platfo.Handlers.Backfill.{
  BackfillEnd, backfill_failed, backfill_done, run_backfill,
}
use exotel_monitoring_platfo.Handlers.Backfill.Jobs.{
  Key, key_eq, BackfillJob, Goroutine, Backfills, is_running, BackfillQueries, new_goroutine,
  shown_running, start_backfill, finish_job, end_backfill, start_for, start_on, start_at,
  backfill_exophone_snapshot, BackfillStep, requested, ended, no_backfills, Reached, initial, moved,
}
use exotel_monitoring_platfo.Handlers.Backfill.Jobs.Tracked.{
  IsTracked, runs_for, key_eq_refl, key_eq_sound, same_number, other_number, shown_of, shown_same,
  launch-IsTracked,
}

one_if_bound : (b : Bool) → one_if b < 2
one_if_bound true = omega arith
one_if_bound false = omega arith

All-without :
    {A : Type 0} (P : A → Type 0) (xs : List A) (x : A) (ys : List A)
    → All P (xs ++ x ∷ ys)
    → P x × All P (xs ++ ys)
All-without P [] x ys (p, h) = (p, h)
All-without P (y ∷ xs) x ys (q, h) = let (p, rest) = All-without P xs x ys h in (p, (q, rest))

module _ {R : Type 0} (zero_rate : R) where
  finish-key :
      (now : Instant) (end : BackfillEnd R) (job : BackfillJob R)
      → (finish_job zero_rate now end job).key ≡ job.key
  unfolding finish_job
  finish-key now (backfill_failed err) job = refl
  finish-key now (backfill_done total rate pages) job = refl

  finish_stops :
      (now : Instant) (end : BackfillEnd R) (job : BackfillJob R)
      → is_running (finish_job zero_rate now end job).status ≡ false
  unfolding finish_job is_running
  finish_stops now (backfill_failed err) job = refl
  finish_stops now (backfill_done total rate pages) job = refl

  module _ (env : Env R) (calls_job : ℕ → Option MonitoringJob) (later : List Goroutine)
      (g : Goroutine) (earlier : List Goroutine) (s : Backfills R) (ok : IsTracked zero_rate s)
      (at : s.goroutines ≡ later ++ g ∷ earlier) where
    after : Backfills R
    after = end_backfill zero_rate env calls_job later g earlier s

    pointed_at :
        (s.jobs g.key ≡ some g.job)
        × All (λ (x : Goroutine). s.jobs x.key ≡ some x.job) (later ++ earlier)
    pointed_at =
        All-without _ later g earlier
          (subst (All (λ (x : Goroutine). s.jobs x.key ≡ some x.job)) at ok.pointed)

    end : BackfillEnd R
    end = (run_backfill env calls_job g.ep g.acc g.key.1 g.snap_date g.skip_logs g.creds s.stores).0

    heap_ended : after.heap g.job ≡ finish_job zero_rate env.completed_at end (s.heap g.job)
    unfolding after end_backfill end
    heap_ended = rw (same_number g.job) refl

    heap_kept : (r : ℕ) → ((r ≡ g.job) → ⊥) → after.heap r ≡ s.heap r
    unfolding after end_backfill
    heap_kept r apart = rw (other_number r g.job apart) refl

    jobs_kept : (k : Key) → after.jobs k ≡ s.jobs k
    unfolding after end_backfill
    jobs_kept k = refl

    key_kept : (r : ℕ) → (after.heap r).key ≡ (s.heap r).key
    key_kept r = elim (Bool-cases (r == g.job)) [
      | inl e ↦
          let same = (==_iff r g.job).0 e in
          ap (λ x. (after.heap x).key) same
          ∙ ap (λ (job : BackfillJob R). job.key) heap_ended
          ∙ finish-key env.completed_at end (s.heap g.job)
          ∙ ap (λ x. (s.heap x).key) (sym same)
      | inr e ↦
          ap (λ (job : BackfillJob R). job.key) (heap_kept r λ h. cc (e, (==_iff r g.job).1 h))
    ]

    -- another key has another job
    apart : (k : Key) (r : ℕ) → key_eq g.key k ≡ false → s.jobs k ≡ some r → (r ≡ g.job) → ⊥
    apart k r e h same = cc (
      e,
      key_eq_refl g.key,
      ap (key_eq g.key) (
          sym (ok.owned g.key g.job pointed_at.0)
          ∙ ap (λ x. (s.heap x).key) (sym same)
          ∙ ok.owned k r h),
    )

    split_count :
        (k : Key)
        → count_if (runs_for k) s.goroutines
          ≡ one_if (key_eq g.key k) + count_if (runs_for k) (later ++ earlier)
    split_count k = omega (
      arith,
      ap (count_if (runs_for k)) at,
      count_if-append (runs_for k) later (g ∷ earlier),
      count_if-append (runs_for k) later earlier,
    )

    counted_ended :
        (k : Key)
        → count_if (runs_for k) (later ++ earlier) ≡ one_if (shown_running zero_rate k after)
    counted_ended k = elim (Bool-cases (key_eq g.key k)) [
      | inl e ↦ omega (
        arith,
        split_count k,
        ap one_if e,
        ok.counted k,
        one_if_bound (shown_running zero_rate k s),
        ap (λ x. one_if (shown_running zero_rate x after)) (key_eq_sound g.key k e),
        ap one_if (shown_of zero_rate after g.key g.job (jobs_kept g.key ∙ pointed_at.0)),
        ap (λ (job : BackfillJob R). one_if (is_running job.status)) heap_ended,
        ap one_if (finish_stops env.completed_at end (s.heap g.job)),
      )
      | inr e ↦ omega (
        arith,
        split_count k,
        ap one_if e,
        ok.counted k,
        ap one_if
            (shown_same zero_rate s after k (jobs_kept k) (λ r h. heap_kept r (apart k r e h))),
      )
    ]

    end-IsTracked : IsTracked zero_rate (end_backfill zero_rate env calls_job later g earlier s)
    unfolding after end_backfill
    end-IsTracked = record {
      below = ok.below;
      owned = λ k r h. key_kept r ∙ ok.owned k r h;
      pointed = pointed_at.1;
      counted = counted_ended;
    }

  start-IsTracked :
      (g : Goroutine) (s : Backfills R)
      → IsTracked zero_rate s
      → IsTracked zero_rate (start_backfill zero_rate g s).1
  unfolding start_backfill
  start-IsTracked g s ok = elim (Bool-cases (shown_running zero_rate g.key s)) [
    | inl busy ↦ rw (busy, start_backfill) ok
    | inr free ↦ rw (free, start_backfill) (launch-IsTracked zero_rate g s ok free)
  ]

  module _ (q : BackfillQueries) (s : Backfills R) (ok : IsTracked zero_rate s) where
    for-IsTracked :
        (exophone_id : ℕ) (date skip_query : Text) (snap_date : ℕ) (ep : Exophone)
        (acc : Option Account)
        → IsTracked zero_rate
            (start_for zero_rate q exophone_id date skip_query snap_date ep acc s).1
    unfolding start_for
    for-IsTracked exophone_id date skip_query snap_date ep none = ok
    for-IsTracked exophone_id date skip_query snap_date ep (some acc) =
        start-IsTracked (new_goroutine zero_rate q exophone_id date skip_query snap_date ep acc) s
          ok

    on-IsTracked :
        (exophone_id : ℕ) (date skip_query : Text) (snap_date : ℕ) (ep : Option Exophone)
        → IsTracked zero_rate (start_on zero_rate q exophone_id date skip_query snap_date ep s).1
    unfolding start_on
    on-IsTracked exophone_id date skip_query snap_date none = ok
    on-IsTracked exophone_id date skip_query snap_date (some ep) =
        for-IsTracked exophone_id date skip_query snap_date ep (q.account_by_id ep.account_id)

    at-IsTracked :
        (exophone_id : ℕ) (date skip_query : Text) (snap_date : Option ℕ)
        → IsTracked zero_rate (start_at zero_rate q exophone_id date skip_query snap_date s).1
    unfolding start_at
    at-IsTracked exophone_id date skip_query none = ok
    at-IsTracked exophone_id date skip_query (some snap_date) =
        on-IsTracked exophone_id date skip_query snap_date (q.exophone_by_id exophone_id)

    request-IsTracked :
        (exophone_id : ℕ) (query_date skip_query : Text)
        → IsTracked zero_rate
            (backfill_exophone_snapshot zero_rate q exophone_id query_date skip_query s).1
    unfolding backfill_exophone_snapshot
    request-IsTracked exophone_id query_date skip_query = elim (Bool-cases (exophone_id == 0)) [
      | inl e ↦ rw (e, backfill_exophone_snapshot) ok
      | inr e ↦
          rw (e, backfill_exophone_snapshot)
            (at-IsTracked exophone_id (if is_empty query_date then q.today else query_date)
              skip_query (q.parse_date (if is_empty query_date then q.today else query_date)))
    ]

  BackfillStep-IsTracked :
      {s s' : Backfills R}
      → BackfillStep zero_rate s s'
      → IsTracked zero_rate s
      → IsTracked zero_rate s'
  BackfillStep-IsTracked (requested q exophone_id query_date skip_query s) ok =
      request-IsTracked q s ok exophone_id query_date skip_query
  BackfillStep-IsTracked (ended env calls_job later g earlier s at) ok =
      end-IsTracked env calls_job later g earlier s ok at

  Reached-IsTracked :
      {stores : Stores R} {s : Backfills R} → Reached zero_rate stores s → IsTracked zero_rate s
  unfolding no_backfills shown_running
  Reached-IsTracked initial = record {
    below = λ k r h. absurd (cc h);
    owned = λ k r h. absurd (cc h);
    pointed = tt;
    counted = λ k. refl;
  }
  Reached-IsTracked (moved s s' reached step) =
      BackfillStep-IsTracked step (Reached-IsTracked reached)

  -- In every state that requests and runs lead to, a key is shown as running where exactly one
  -- goroutine runs for it, and no goroutine runs for any other key: a second one is never started. And
  -- the pointer that each goroutine writes its end to is the one that the map has under its key.
  pub one_backfill :
      {stores : Stores R} {s : Backfills R} (k : Key)
      → Reached zero_rate stores s
      → (count_if (runs_for k) s.goroutines ≡ one_if (shown_running zero_rate k s))
        × All (λ (g : Goroutine). s.jobs g.key ≡ some g.job) s.goroutines
  one_backfill k reached =
      ((Reached-IsTracked reached).counted k, (Reached-IsTracked reached).pointed)
