-- ===== src/Handlers/Exophones.antt =====
-- UpdatePriority, ToggleCron and ToggleSkipCallLogs (internal/handlers/exophones.go) with the updates of
-- internal/repository/exophone_repo.go that they call. A body that does not bind is none; a raw JSON
-- value is its text. The columns updated_by and updated_at are left out.
pub mod Agreement
pub mod Toggled
use exotel_monitoring_platfo.Prelude.{
  ℕ, ℤ, pos, negsuc, Bool, true, false, ◌&&◌, ◌||◌, List, [], ◌∷◌, map, Option, none, some, Text,
  codes, text_eq, is_empty, if◌then◌else◌, ◌==◌, is_positive, pos_part,
}
use exotel_monitoring_platfo.Models.{Exophone, MonitoringJob}
use exotel_monitoring_platfo.Handlers.Dashboard.{parse_uint}

-- the tables exophones and monitoring_jobs
pub record Monitored : Type 0 where
  pub exophones : List Exophone
  pub jobs : List MonitoringJob

-- which statement of a transaction fails, or its commit
pub record TxFaults : Type 0 where
  pub first_fails : Bool
  pub second_fails : Bool
  pub commit_fails : Bool

-- WHERE id = ? AND is_deleted = 0
unfoldable pub update_exophone : ℕ → (Exophone → Exophone) → Monitored → Monitored
update_exophone id change st = record st {
  exophones =
      map (λ (e : Exophone). if e.id == id && e.is_deleted == 0 then change e else e) st.exophones;
}

-- WHERE exophone_id = ? AND is_deleted = 0
unfoldable pub update_jobs : ℕ → (MonitoringJob → MonitoringJob) → Monitored → Monitored
update_jobs id change st = record st {
  jobs =
      map (λ (j : MonitoringJob). if j.exophone_id == id && j.is_deleted == 0 then change j else j)
        st.jobs;
}

-- database.DB.Transaction of the two updates; none is the error, after the rollback
unfoldable pub update_both :
    TxFaults
    → ℕ
    → (Exophone → Exophone)
    → (MonitoringJob → MonitoringJob)
    → Monitored
    → Option Monitored
unfolding update_exophone update_jobs
update_both faults id change_exophone change_job st =
    if faults.first_fails || (faults.second_fails || faults.commit_fails)
    then none
    else some (update_jobs id change_job (update_exophone id change_exophone st))

unfoldable pub update_priority_of : TxFaults → ℕ → Text → ℕ → Monitored → Option Monitored
unfolding update_both
update_priority_of faults id priority freq_minutes st =
    update_both faults id (λ e. record e { priority = priority })
      (λ j. record j { priority = priority; frequency_minutes = freq_minutes }) st

unfoldable pub set_cron_applicable : TxFaults → ℕ → ℕ → Monitored → Option Monitored
unfolding update_both
set_cron_applicable faults id val st =
    update_both faults id (λ e. record e { is_cron_applicable = val })
      (λ j. record j { is_active = val }) st

unfoldable pub set_skip_call_logs : TxFaults → ℕ → ℕ → Monitored → Option Monitored
unfolding update_exophone
set_skip_call_logs faults id val st =
    if faults.first_fails || faults.commit_fails
    then none
    else some (update_exophone id (λ e. record e { skip_call_logs = val }) st)

pub data ExophoneReply : Type 0 where
  refused not_updated : ExophoneReply
  priority_updated : ℕ → Text → ℕ → ExophoneReply
  cron_updated skip_updated : ℕ → ℕ → ExophoneReply

-- 500 with the error, or 200
abbrev pub reply_after : Option Monitored → ExophoneReply → Monitored → ExophoneReply × Monitored
reply_after none reply st = (not_updated, st)
reply_after (some next) reply st = (reply, next)

-- configMap of the priorities: the defaults where the table is empty or cannot be read
unfoldable pub priority_configs : List (Text × ℕ) → List (Text × ℕ)
priority_configs [] = (codes "P0", 15) ∷ (codes "P1", 30) ∷ (codes "P2", 60) ∷ (codes "P3", 60) ∷ []
priority_configs (config ∷ configs) = config ∷ configs

-- a priority in the map, which a later row of the table overwrites
unfoldable pub default_frequency : Text → List (Text × ℕ) → Option ℕ
default_frequency priority [] = none
default_frequency priority ((key, minutes) ∷ configs) = elim (default_frequency priority configs) [
  | some later ↦ some later
  | none ↦ if text_eq key priority then some minutes else none
]

pub record PriorityBody : Type 0 where
  pub priority : Text
  pub frequency_minutes : Option ℤ

-- the frequency of the body, at least 1, or the default one
unfoldable pub frequency_of : ℕ → Option ℤ → Option ℕ
frequency_of default_minutes none = some default_minutes
frequency_of default_minutes (some minutes) =
    if is_positive minutes then some (pos_part minutes) else none

unfoldable pub chosen_frequency : List (Text × ℕ) → PriorityBody → Option ℕ
unfolding priority_configs default_frequency frequency_of
chosen_frequency configs body =
    if is_empty body.priority
    then none
    else elim (default_frequency body.priority (priority_configs configs)) [
      | none ↦ none
      | some minutes ↦ frequency_of minutes body.frequency_minutes
    ]

unfoldable pub update_priority :
    List (Text × ℕ) → TxFaults → Text → Option PriorityBody → Monitored → ExophoneReply × Monitored
unfolding chosen_frequency update_priority_of parse_uint
update_priority configs faults id none st = (refused, st)
update_priority configs faults id (some body) st =
    let exophone_id = parse_uint id in
    if exophone_id == 0 then (refused, st) else elim (chosen_frequency configs body) [
      | none ↦ (refused, st)
      | some minutes ↦
          reply_after (update_priority_of faults exophone_id body.priority minutes st)
            (priority_updated exophone_id body.priority minutes) st
    ]

-- the switch of the raw value
unfoldable pub parse_flag : Text → Option ℕ
parse_flag s =
    if text_eq s (codes "1") || text_eq s (codes "true")
    then some 1
    else if text_eq s (codes "0") || text_eq s (codes "false")
    then some 0
    else none

unfoldable pub parse_flag_body : Option Text → Option ℕ
unfolding parse_flag
parse_flag_body none = none
parse_flag_body (some raw) = parse_flag raw

unfoldable pub toggle_cron : TxFaults → Text → Option Text → Monitored → ExophoneReply × Monitored
unfolding parse_flag_body set_cron_applicable parse_uint
toggle_cron faults id body st =
    let exophone_id = parse_uint id in
    if exophone_id == 0 then (refused, st) else elim (parse_flag_body body) [
      | none ↦ (refused, st)
      | some val ↦
          reply_after (set_cron_applicable faults exophone_id val st) (cron_updated exophone_id val)
            st
    ]

unfoldable pub toggle_skip_call_logs :
    TxFaults → Text → Option Text → Monitored → ExophoneReply × Monitored
unfolding parse_flag_body set_skip_call_logs parse_uint
toggle_skip_call_logs faults id body st =
    let exophone_id = parse_uint id in
    if exophone_id == 0 then (refused, st) else elim (parse_flag_body body) [
      | none ↦ (refused, st)
      | some val ↦
          reply_after (set_skip_call_logs faults exophone_id val st) (skip_updated exophone_id val)
            st
    ]
