-- ===== src/Handlers/Exophones/Agreement.antt =====
-- The exophones against their jobs (internal/handlers/exophones.go).
use exotel_monitoring_platfo.Prelude.{
  ℕ, ◌≡◌, refl, subst, Bool, true, false, ◌&&◌, ◌||◌, not, List, [], ◌∷◌, map, Option, none, some,
  Option-cases, Bool-cases, inl, inr, All, Text, text_eq, text_eq_refl, if◌then◌else◌, ◌==◌, arith,
}
use exotel_monitoring_platfo.Models.{Exophone, MonitoringJob}
use exotel_monitoring_platfo.Handlers.Dashboard.{parse_uint}
use exotel_monitoring_platfo.Handlers.Exophones.{
  Monitored, TxFaults, update_exophone, update_jobs, update_both, update_priority_of,
  set_cron_applicable, set_skip_call_logs, ExophoneReply, priority_updated, cron_updated,
  skip_updated, reply_after, chosen_frequency, PriorityBody, update_priority, parse_flag_body,
  toggle_cron, toggle_skip_call_logs,
}

-- a job belongs to the exophone, and neither is deleted
abbrev pub is_job_of : Exophone → MonitoringJob → Bool
is_job_of e j = j.exophone_id == e.id && (e.is_deleted == 0 && j.is_deleted == 0)

-- then it runs only and always under the exophone's cron flag, and has its priority
abbrev pub agrees : Exophone → MonitoringJob → Bool
agrees e j =
    not (is_job_of e j) || (j.is_active == e.is_cron_applicable && text_eq j.priority e.priority)

unfoldable pub InStep : Monitored → Type 0
InStep st = All (λ e. All (λ j. agrees e j ≡ true) st.jobs) st.exophones

abbrev pub at_exophone : ℕ → (Exophone → Exophone) → Exophone → Exophone
at_exophone id change e = if e.id == id && e.is_deleted == 0 then change e else e

abbrev pub at_job : ℕ → (MonitoringJob → MonitoringJob) → MonitoringJob → MonitoringJob
at_job id change j = if j.exophone_id == id && j.is_deleted == 0 then change j else j

module _ (f : Exophone → Exophone) (g : MonitoringJob → MonitoringJob)
    (keeps : (e : Exophone) (j : MonitoringJob)
      → agrees e j ≡ true
      → agrees (f e) (g j) ≡ true) where
  jobs_keep :
      (e : Exophone) (jobs : List MonitoringJob)
      → All (λ j. agrees e j ≡ true) jobs
      → All (λ j. agrees (f e) j ≡ true) (map g jobs)
  jobs_keep e [] h = tt
  jobs_keep e (j ∷ jobs) (h, hs) = (keeps e j h, jobs_keep e jobs hs)

  exophones_keep :
      (exophones : List Exophone) (jobs : List MonitoringJob)
      → All (λ e. All (λ j. agrees e j ≡ true) jobs) exophones
      → All (λ e. All (λ j. agrees e j ≡ true) (map g jobs)) (map f exophones)
  exophones_keep [] jobs h = tt
  exophones_keep (e ∷ exophones) jobs (h, hs) =
      (jobs_keep e jobs h, exophones_keep exophones jobs hs)

cron_keeps :
    (id val : ℕ) (e : Exophone) (j : MonitoringJob)
    → agrees e j ≡ true
    → agrees
        (at_exophone id (λ e. record e { is_cron_applicable = val }) e)
        (at_job id (λ j. record j { is_active = val }) j)
      ≡ true
cron_keeps id val e j h = ground (arith, h)

priority_keeps :
    (id : ℕ) (priority : Text) (minutes : ℕ) (e : Exophone) (j : MonitoringJob)
    → agrees e j ≡ true
    → agrees
        (at_exophone id (λ e. record e { priority = priority }) e)
        (at_job id (λ j. record j { priority = priority; frequency_minutes = minutes }) j)
      ≡ true
priority_keeps id priority minutes e j h = ground (arith, h, text_eq_refl priority)

skip_keeps :
    (id val : ℕ) (e : Exophone) (j : MonitoringJob)
    → agrees e j ≡ true
    → agrees (at_exophone id (λ e. record e { skip_call_logs = val }) e) j ≡ true
skip_keeps id val e j h = ground (arith, h)

-- the store of a reply keeps a property that both outcomes of the transaction have
reply_keeps :
    (P : Monitored → Type 0) (next : Option Monitored) (reply : ExophoneReply) (st : Monitored)
    → P st
    → ((done : Monitored) → next ≡ some done → P done)
    → P (reply_after next reply st).1
reply_keeps P none reply st h k = h
reply_keeps P (some done) reply st h k = k done refl

pub unless_failed :
    (fails : Bool) (done st : Monitored) → (if fails then none else some done) ≡ some st → done ≡ st
unless_failed true done st e = absurd (cc e)
unless_failed false done st e = cc e

both_keep :
    (faults : TxFaults) (id : ℕ) (f : Exophone → Exophone) (g : MonitoringJob → MonitoringJob)
    (st done : Monitored)
    → ((e : Exophone) (j : MonitoringJob)
        → agrees e j ≡ true
        → agrees (at_exophone id f e) (at_job id g j) ≡ true)
    → InStep st
    → update_both faults id f g st ≡ some done
    → InStep done
unfolding update_both update_exophone update_jobs InStep
both_keep faults id f g st done keeps h e =
    subst InStep
      (unless_failed (faults.first_fails || (faults.second_fails || faults.commit_fails))
        (update_jobs id g (update_exophone id f st)) done e)
      (exophones_keep (at_exophone id f) (at_job id g) keeps st.exophones st.jobs h)

map_same : (jobs : List MonitoringJob) → map (λ j. j) jobs ≡ jobs
map_same [] = refl
map_same (j ∷ jobs) = cc (map_same jobs)

skip_keep :
    (faults : TxFaults) (id val : ℕ) (st done : Monitored)
    → InStep st
    → set_skip_call_logs faults id val st ≡ some done
    → InStep done
unfolding set_skip_call_logs update_exophone InStep
skip_keep faults id val st done h e =
    subst InStep
      (unless_failed (faults.first_fails || faults.commit_fails)
        (update_exophone id (λ e. record e { skip_call_logs = val }) st) done e)
      (subst
        (λ js.
          All (λ e. All (λ j. agrees e j ≡ true) js)
            (map (at_exophone id λ e. record e { skip_call_logs = val }) st.exophones))
        (map_same st.jobs)
        (exophones_keep (at_exophone id λ e. record e { skip_call_logs = val }) (λ j. j)
          (skip_keeps id val) st.exophones st.jobs h))

-- a request of one of the three handlers
pub data ExophoneRequest : Type 0 where
  priority_request : List (Text × ℕ) → Text → Option PriorityBody → ExophoneRequest
  cron_request skip_request : Text → Option Text → ExophoneRequest

abbrev pub handle_exophone : TxFaults → ExophoneRequest → Monitored → ExophoneReply × Monitored
handle_exophone faults (priority_request configs id body) st =
    update_priority configs faults id body st
handle_exophone faults (cron_request id body) st = toggle_cron faults id body st
handle_exophone faults (skip_request id body) st = toggle_skip_call_logs faults id body st

-- Every request that changes an exophone, on every branch of it and with any of its statements failing,
-- keeps each job that is not deleted in step with its exophone: it is active just where the exophone's
-- cron flag is set, and has the exophone's priority.
pub handled-InStep :
    (faults : TxFaults) (request : ExophoneRequest) (st : Monitored)
    → InStep st
    → InStep (handle_exophone faults request st).1
unfolding update_priority toggle_cron toggle_skip_call_logs
handled-InStep faults (priority_request configs id none) st h = h
handled-InStep faults (priority_request configs id (some body)) st h =
    elim (Bool-cases (parse_uint id == 0)) [
      | inl zero ↦ rw (zero, update_priority) h
      | inr positive ↦ elim (Option-cases (chosen_frequency configs body)) [
        | inl e ↦ rw (positive, update_priority, e) h
        | inr (minutes, e) ↦
            rw (positive, update_priority, e)
              (reply_keeps InStep
                (update_priority_of faults (parse_uint id) body.priority minutes st)
                (priority_updated (parse_uint id) body.priority minutes) st h
                (λ done d.
                  both_keep faults (parse_uint id) (λ e. record e { priority = body.priority })
                    (λ j. record j { priority = body.priority; frequency_minutes = minutes }) st
                    done (priority_keeps (parse_uint id) body.priority minutes) h d))
      ]
    ]
handled-InStep faults (cron_request id body) st h = elim (Bool-cases (parse_uint id == 0)) [
  | inl zero ↦ rw (zero, toggle_cron) h
  | inr positive ↦ elim (Option-cases (parse_flag_body body)) [
    | inl e ↦ rw (positive, toggle_cron, e) h
    | inr (val, e) ↦
        rw (positive, toggle_cron, e)
          (reply_keeps InStep (set_cron_applicable faults (parse_uint id) val st)
            (cron_updated (parse_uint id) val) st h
            (λ done d.
              both_keep faults (parse_uint id) (λ e. record e { is_cron_applicable = val })
                (λ j. record j { is_active = val }) st done (cron_keeps (parse_uint id) val) h d))
  ]
]
handled-InStep faults (skip_request id body) st h = elim (Bool-cases (parse_uint id == 0)) [
  | inl zero ↦ rw (zero, toggle_skip_call_logs) h
  | inr positive ↦ elim (Option-cases (parse_flag_body body)) [
    | inl e ↦ rw (positive, toggle_skip_call_logs, e) h
    | inr (val, e) ↦
        rw (positive, toggle_skip_call_logs, e)
          (reply_keeps InStep (set_skip_call_logs faults (parse_uint id) val st)
            (skip_updated (parse_uint id) val) st h
            (λ done d. skip_keep faults (parse_uint id) val st done h d))
  ]
]
