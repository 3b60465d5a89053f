-- ===== src/Handlers/Backfill/Jobs/Tracked.antt =====
-- The map of backfill jobs against the goroutines that run (internal/handlers/backfill.go).
use exotel_monitoring_platfo.Prelude.{
  ℕ, ◌<◌, ◌≡◌, refl, ap, sym, ◌∙◌, Bool, true, false, List, [], ◌∷◌, Option, none, some,
  text_eq_refl, text_eq_sound, if◌then◌else◌, ◌==◌, ==_iff, one_if, count_if, All, ◌⊎◌, inl, inr,
  Bool-cases, Option-cases, arith,
}
use exotel_monitoring_platfo.Handlers.Backfill.Jobs.{
  Key, key_eq, BackfillJob, Goroutine, Backfills, is_running, new_job, launch, shown_running,
}

pub key_eq_refl : (k : Key) → key_eq k k ≡ true
key_eq_refl (a, d) = ground (arith, text_eq_refl d)

pub key_eq_sound : (k k' : Key) → key_eq k k' ≡ true → k ≡ k'
key_eq_sound (a, d) (b, e) h =
    let same_id : a ≡ b = ground arith in
    let same_date : d ≡ e = text_eq_sound d e (ground arith) in cc (same_id, same_date)

abbrev pub runs_for : Key → Goroutine → Bool
runs_for key g = key_eq g.key key

if_some :
    {A : Type 0} (b : Bool) (a r : A) (o : Option A)
    → (if b then some a else o) ≡ some r
    → ((b ≡ true) × (a ≡ r)) ⊎ ((b ≡ false) × (o ≡ some r))
if_some true a r o e = inl (refl, cc e)
if_some false a r o e = inr (refl, e)

pub same_number : (r : ℕ) → (r == r) ≡ true
same_number r = (==_iff r r).1 refl

pub other_number : (r n : ℕ) → ((r ≡ n) → ⊥) → (r == n) ≡ false
other_number r n apart = elim (Bool-cases (r == n)) [
  | inl e ↦ absurd (apart ((==_iff r n).0 e))
  | inr e ↦ e
]

module _ {R : Type 0} (zero_rate : R) where
  -- What holds of the map, the heap and the goroutines between two steps.
  pub record IsTracked (s : Backfills R) : Type 0 where
    pub below : (k : Key) (r : ℕ) → s.jobs k ≡ some r → r < s.next
    pub owned : (k : Key) (r : ℕ) → s.jobs k ≡ some r → (s.heap r).key ≡ k
    pub pointed : All (λ (g : Goroutine). s.jobs g.key ≡ some g.job) s.goroutines
    pub counted :
        (k : Key) → count_if (runs_for k) s.goroutines ≡ one_if (shown_running zero_rate k s)

  pub shown_of :
      (s : Backfills R) (k : Key) (r : ℕ)
      → s.jobs k ≡ some r
      → shown_running zero_rate k s ≡ is_running (s.heap r).status
  unfolding shown_running
  shown_of s k r e = rw (e, shown_running)

  pub shown_none :
      (s : Backfills R) (k : Key) → s.jobs k ≡ none → shown_running zero_rate k s ≡ false
  unfolding shown_running
  shown_none s k e = rw (e, shown_running)

  -- The map, as a key finds it.
  pub shown_same :
      (s s' : Backfills R) (k : Key)
      → s'.jobs k ≡ s.jobs k
      → ((r : ℕ) → s.jobs k ≡ some r → s'.heap r ≡ s.heap r)
      → shown_running zero_rate k s' ≡ shown_running zero_rate k s
  shown_same s s' k same kept = elim (Option-cases (s.jobs k)) [
    | inl e ↦ shown_none s' k (same ∙ e) ∙ sym (shown_none s k e)
    | inr (r, e) ↦
        shown_of s' k r (same ∙ e)
        ∙ ap (λ (job : BackfillJob R). is_running job.status) (kept r e)
        ∙ sym (shown_of s k r e)
  ]

  module _ (g : Goroutine) (s : Backfills R) (ok : IsTracked s)
      (free : shown_running zero_rate g.key s ≡ false) where
    launched : Backfills R
    launched = launch zero_rate g s

    jobs_new : (k : Key) → key_eq g.key k ≡ true → launched.jobs k ≡ some s.next
    unfolding launched launch
    jobs_new k e = rw e refl

    jobs_old : (k : Key) → key_eq g.key k ≡ false → launched.jobs k ≡ s.jobs k
    unfolding launched launch
    jobs_old k e = rw e refl

    heap_new : launched.heap s.next ≡ new_job zero_rate g.key
    unfolding launched launch
    heap_new = rw (same_number s.next) refl

    heap_old : (r : ℕ) → r < s.next → launched.heap r ≡ s.heap r
    unfolding launched launch
    heap_old r h = rw (other_number r s.next λ e. omega (arith, h, e)) refl

    none_running : count_if (runs_for g.key) s.goroutines ≡ 0
    none_running = omega (arith, ok.counted g.key, ap one_if free)

    pointed_still :
        (gs : List Goroutine)
        → All (λ (x : Goroutine). s.jobs x.key ≡ some x.job) gs
        → count_if (runs_for g.key) gs ≡ 0
        → All (λ (x : Goroutine). launched.jobs x.key ≡ some x.job) gs
    pointed_still [] h z = tt
    pointed_still (x ∷ gs) (p, h) z = (
      jobs_old x.key (ground (arith, z, key_eq_sound g.key x.key, key_eq_refl x.key)) ∙ p,
      pointed_still gs h (ground (arith, z)),
    )

    counted_launch :
        (k : Key)
        → count_if (runs_for k) launched.goroutines ≡ one_if (shown_running zero_rate k launched)
    unfolding launched launch is_running new_job
    counted_launch k = elim (Bool-cases (key_eq g.key k)) [
      | inl e ↦ omega (
        arith,
        ap one_if (shown_of launched k s.next (jobs_new k e)),
        ap (λ (job : BackfillJob R). one_if (is_running job.status)) heap_new,
        ap one_if e,
        ap (λ x. count_if (runs_for x) s.goroutines) (key_eq_sound g.key k e),
        none_running,
        new_runs,
      )
      | inr e ↦ omega (
        arith,
        ap one_if (shown_same s launched k (jobs_old k e) (λ r h. heap_old r (ok.below k r h))),
        ap one_if e,
        ok.counted k,
      )
    ]
      where
        new_runs : one_if (is_running (new_job zero_rate g.key).status) ≡ 1
        new_runs = refl

    pub launch-IsTracked : IsTracked (launch zero_rate g s)
    unfolding launched launch new_job
    launch-IsTracked = record {
      below = λ k r h. elim (if_some (key_eq g.key k) s.next r (s.jobs k) h) [
        | inl (e, same) ↦ omega (arith, same)
        | inr (e, old) ↦ omega (arith, ok.below k r old)
      ];
      owned = λ k r h. elim (if_some (key_eq g.key k) s.next r (s.jobs k) h) [
        | inl (e, same) ↦
            ap (λ x. (launched.heap x).key) (sym same)
            ∙ ap (λ (job : BackfillJob R). job.key) heap_new
            ∙ key_eq_sound g.key k e
        | inr (e, old) ↦
            ap (λ (job : BackfillJob R). job.key) (heap_old r (ok.below k r old)) ∙ ok.owned k r old
      ];
      pointed =
          (jobs_new g.key (key_eq_refl g.key), pointed_still s.goroutines ok.pointed none_running);
      counted = counted_launch;
    }
