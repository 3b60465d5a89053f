-- ===== src/Handlers/Exophones/Toggled.antt =====
-- ToggleCron (internal/handlers/exophones.go) before GetDueJobs (internal/repository/job_repo.go).
use exotel_monitoring_platfo.Prelude.{
  ℕ, ◌+◌, ◌≡◌, refl, ap, ◌∙◌, subst, Bool, true, false, ◌&&◌, ◌||◌, List, [], ◌∷◌, map, some,
  Bool-cases, inl, inr, Text, if◌then◌else◌, ◌==◌, ==_iff, leb, one_if, count_if, keep_if, any_of,
  arith,
}
use exotel_monitoring_platfo.Models.{Instant, Exophone, MonitoringJob}
use exotel_monitoring_platfo.Repository.Due.{is_due, get_due_jobs, get_due_jobs-InOrder}
use exotel_monitoring_platfo.Handlers.Dashboard.{parse_uint}
use exotel_monitoring_platfo.Handlers.Exophones.{
  Monitored, TxFaults, update_exophone, update_jobs, update_both, set_cron_applicable, cron_updated,
  reply_after, parse_flag, parse_flag_body, toggle_cron,
}
use exotel_monitoring_platfo.Handlers.Exophones.Agreement.{at_exophone, at_job, unless_failed}

count_if-keep_if :
    {A : Type 0} (p q : A → Bool) (xs : List A)
    → count_if p (keep_if q xs) ≡ count_if (λ x. p x && q x) xs
count_if-keep_if p q [] = refl
count_if-keep_if p q (x ∷ xs) = ground (arith, count_if-keep_if p q xs)

abbrev with_flag : ℕ → Exophone → Exophone
with_flag val e = record e { is_cron_applicable = val }

abbrev with_active : ℕ → MonitoringJob → MonitoringJob
with_active val j = record j { is_active = val }

-- an exophone of the id that is not deleted
abbrev pub is_there : ℕ → Exophone → Bool
is_there id e = e.id == id && e.is_deleted == 0

-- a job of the exophone that is not deleted and whose time has come
abbrev pub is_waiting : ℕ → Instant → MonitoringJob → Bool
is_waiting id now j = j.exophone_id == id && (j.is_deleted == 0 && leb j.next_run_at now)

-- a sum under a condition
gated :
    (b w : Bool) (x c m : ℕ)
    → x ≡ one_if (b && w)
    → c ≡ (if b then m else 0)
    → x + c ≡ (if b then one_if w + m else 0)
gated true w x c m h k = omega (arith, h, k)
gated false w x c m h k = omega (arith, h, k)

module _ (id val : ℕ) where
  flagged :
      (exophones : List Exophone)
      → any_of
          (λ (ep : Exophone). ep.id == id && (ep.is_cron_applicable == 1 && ep.is_deleted == 0))
          (map (at_exophone id (with_flag val)) exophones)
        ≡ (val == 1 && any_of (is_there id) exophones)
  flagged [] = ground arith
  flagged (e ∷ exophones) = ground (arith, flagged exophones)

  module _ (now : Instant) (exophones : List Exophone) where
    mine_due :
        (j : MonitoringJob)
        → (j.exophone_id == id) ≡ true
        → is_due now
            (map (at_exophone id (with_flag val)) exophones)
            (at_job id (with_active val) j)
          ≡ ((val == 1 && any_of (is_there id) exophones) && is_waiting id now j)
    unfolding is_due
    mine_due j mine =
        let same : j.exophone_id ≡ id = (==_iff j.exophone_id id).0 mine in
        let flags : any_of
              (λ (ep : Exophone).
                ep.id == j.exophone_id && (ep.is_cron_applicable == 1 && ep.is_deleted == 0))
              (map (at_exophone id (with_flag val)) exophones)
            ≡ (val == 1 && any_of (is_there id) exophones) =
          ap
            (λ k.
              any_of
                (λ (ep : Exophone).
                  ep.id == k && (ep.is_cron_applicable == 1 && ep.is_deleted == 0))
                (map (at_exophone id (with_flag val)) exophones))
            same
          ∙ flagged exophones in
        elim (Bool-cases (j.is_deleted == 0)) [
          | inl live ↦ rw (mine, live) (ground (arith, flags))
          | inr gone ↦ rw (mine, gone) (ground arith)
        ]

    one_due :
        (j : MonitoringJob)
        → ((at_job id (with_active val) j).exophone_id == id
            && is_due now
                (map (at_exophone id (with_flag val)) exophones)
                (at_job id (with_active val) j))
          ≡ ((val == 1 && any_of (is_there id) exophones) && is_waiting id now j)
    one_due j = elim (Bool-cases (j.exophone_id == id)) [
      | inl mine ↦ ground (arith, mine, mine_due j mine)
      | inr other ↦ rw other (ground (arith, other))
    ]

    due_of :
        (jobs : List MonitoringJob)
        → count_if
            (λ (j : MonitoringJob).
              j.exophone_id == id && is_due now (map (at_exophone id (with_flag val)) exophones) j)
            (map (at_job id (with_active val)) jobs)
          ≡ (if val == 1 && any_of (is_there id) exophones
              then count_if (is_waiting id now) jobs
              else 0)
    due_of [] = ground arith
    due_of (j ∷ jobs) =
        gated (val == 1 && any_of (is_there id) exophones) (is_waiting id now j)
          (one_if (
            (at_job id (with_active val) j).exophone_id == id
            && is_due now (map (at_exophone id (with_flag val)) exophones)
                (at_job id (with_active val) j)))
          (count_if
            (λ (j : MonitoringJob).
              j.exophone_id == id && is_due now (map (at_exophone id (with_flag val)) exophones) j)
            (map (at_job id (with_active val)) jobs))
          (count_if (is_waiting id now) jobs) (ap one_if (one_due j)) (due_of jobs)

    toggled_both :
        (faults : TxFaults) (jobs : List MonitoringJob)
        → (done : Monitored)
        → update_both faults id
            (with_flag val)
            (with_active val)
            (record { exophones = exophones; jobs = jobs })
          ≡ some done
        → count_if
            (λ (j : MonitoringJob). j.exophone_id == id)
            (get_due_jobs now done.exophones done.jobs)
          ≡ (if val == 1 && any_of (is_there id) exophones
              then count_if (is_waiting id now) jobs
              else 0)
    unfolding update_both update_exophone update_jobs
    toggled_both faults jobs done e =
        let next : Monitored = record {
          exophones = map (at_exophone id (with_flag val)) exophones;
          jobs = map (at_job id (with_active val)) jobs;
        } in
        let same : next ≡ done =
          unless_failed (faults.first_fails || (faults.second_fails || faults.commit_fails)) next
            done e in
        subst
          (λ (st : Monitored).
            count_if (λ (j : MonitoringJob). j.exophone_id == id)
              (get_due_jobs now st.exophones st.jobs)
            ≡ (if val == 1 && any_of (is_there id) exophones
                then count_if (is_waiting id now) jobs
                else 0))
          same
          ((get_due_jobs-InOrder now next.exophones next.jobs).1
              (λ (j : MonitoringJob). j.exophone_id == id)
            ∙ count_if-keep_if (λ (j : MonitoringJob). j.exophone_id == id)
                (is_due now next.exophones) next.jobs
            ∙ due_of jobs)

toggle_done :
    (faults : TxFaults) (id raw : Text) (val : ℕ) (st : Monitored)
    → (parse_uint id == 0) ≡ false
    → parse_flag raw ≡ some val
    → toggle_cron faults id (some raw) st
      ≡ reply_after
          (set_cron_applicable faults (parse_uint id) val st)
          (cron_updated (parse_uint id) val)
          st
unfolding toggle_cron parse_flag_body
toggle_done faults id raw val st positive e = rw (positive, toggle_cron, e) refl

-- A toggle of the cron flag that succeeds: of the exophone's jobs, all those that are not deleted and
-- whose time has come are due afterwards where the flag is set and the exophone is not deleted, and none
-- is where it is cleared or the exophone is deleted, whatever was active before. The id is positive, the
-- raw value is one of the four that are read, and no statement of the transaction fails.
pub toggled_due :
    (faults : TxFaults) (id raw : Text) (val : ℕ) (st : Monitored) (now : Instant)
    → (parse_uint id == 0) ≡ false
    → parse_flag raw ≡ some val
    → (faults.first_fails || (faults.second_fails || faults.commit_fails)) ≡ false
    → let after = toggle_cron faults id (some raw) st in
      (after.0 ≡ cron_updated (parse_uint id) val)
      × (count_if
            (λ (j : MonitoringJob). j.exophone_id == parse_uint id)
            (get_due_jobs now after.1.exophones after.1.jobs)
          ≡ (if val == 1 && any_of (is_there (parse_uint id)) st.exophones
              then count_if (is_waiting (parse_uint id) now) st.jobs
              else 0))
unfolding set_cron_applicable update_both
toggled_due faults id raw val st now positive e works =
    let next =
      update_jobs (parse_uint id) (with_active val)
        (update_exophone (parse_uint id) (with_flag val) st) in
    let done : set_cron_applicable faults (parse_uint id) val st ≡ some next = rw works refl in
    rw (toggle_done faults id raw val st positive e, done)
      (refl, toggled_both (parse_uint id) val now st.exophones faults st.jobs next done)
