-- ===== src/Workers/Settled.antt =====
-- What a run of ExecuteJob (internal/workers/job_worker.go) makes of its transaction and its job.
use exotel_monitoring_platfo.Prelude.{◌≡◌, refl, ◌∙◌, List, Option, none, some, Text}
use exotel_monitoring_platfo.Models.{
  MonitoringJob, heartbeat, calls, streams, other_type, TxnStatus, Failure, context_done, JobType,
}
use exotel_monitoring_platfo.Exotel.Types.{HeartbeatResponse, CallsResponse, ActiveStreamsEntry}
use exotel_monitoring_platfo.Exotel.Heartbeat.{FetchHeartbeatResult, FetchStreamsResult}
use exotel_monitoring_platfo.Exotel.Calls.{FetchCallsResult}
use exotel_monitoring_platfo.Utils.Retry.{RetryConfig, Outcome, do_with_retry}
use exotel_monitoring_platfo.Utils.Retry.Laws.{do_with_retry_keeps}
use exotel_monitoring_platfo.Effects.{Env, World, Credentials}
use exotel_monitoring_platfo.Workers.Progress.{
  Progress, Finish, start_progress, finish, save_response, alert_latency,
}
use exotel_monitoring_platfo.Workers.Heartbeats.{
  heartbeat_call, vn_number, report_heartbeat, end_heartbeat, execute_heartbeat,
}
use exotel_monitoring_platfo.Workers.CallsJob.{
  calls_call, save_bodies, report_calls, end_calls, execute_calls,
}
use exotel_monitoring_platfo.Workers.StreamsJob.{
  streams_call, end_streams, report_streams, execute_streams,
}
use exotel_monitoring_platfo.Workers.Job.{execute_type}
use exotel_monitoring_platfo.Workers.Events.{
  events, alert_latency_quiet, save_response_quiet, handle_retry_exhausted_quiet, Event,
}
use exotel_monitoring_platfo.Workers.Quiet.{
  HasEvents, heartbeat_call_quiet, calls_call_quiet, streams_call_quiet, report_heartbeat_quiet,
  report_calls_quiet, report_streams_quiet, save_bodies_quiet,
}

-- A run ends in success without an error, or in failure with one.
pub data IsOutcome : TxnStatus → Option Failure → Type 0 where
  success_is : IsOutcome TxnStatus.success none
  failed_is : (e : Failure) → IsOutcome TxnStatus.failed (some e)

module _ {R : Type 0} (env : Env R) (txn_id : Text) (job : MonitoringJob) where
  -- an execution's end: an outcome, and the events there were before
  unfoldable pub IsExecution : List Event → Finish × World R → Type 0
  IsExecution es (f, w) = IsOutcome f.status f.error_message × (events w.writes ≡ es)

  end_streams-IsExecution :
      (cfg : RetryConfig) (es : List Event) (r : Option Failure × Progress R FetchStreamsResult)
      → HasEvents env txn_id job es r.1
      → IsExecution es (end_streams env txn_id job cfg r)
  unfolding IsExecution end_streams finish HasEvents
  end_streams-IsExecution cfg es (some e, p) h = (
    failed_is e,
    handle_retry_exhausted_quiet env txn_id job _ _ e p.retry_count cfg.max_retries _
        ∙ save_response_quiet env txn_id job _ _ _ p.world
        ∙ h,
  )
  end_streams-IsExecution cfg es (none, p) h = (
    success_is,
    reported (elim p.result [ none ↦ none | some r ↦ r.response ])
        ∙ save_response_quiet env txn_id job _ _ _ p.world
        ∙ h,
  )
    where
      reported :
          (entries : Option (List ActiveStreamsEntry))
          → let w : World R =
              save_response env txn_id job streams p.http_status p.raw_body p.world in
            let w' : World R = elim entries [
              | none ↦ w
              | some es ↦ report_streams env txn_id job es w
            ] in
            events w'.writes ≡ events w.writes
      reported none = refl
      reported (some es) = report_streams_quiet env txn_id job es _

  end_heartbeat-IsExecution :
      (cfg : RetryConfig) (es : List Event) (r : Option Failure × Progress R FetchHeartbeatResult)
      → HasEvents env txn_id job es r.1
      → IsExecution es (end_heartbeat env txn_id job cfg r)
  unfolding IsExecution end_heartbeat finish HasEvents
  end_heartbeat-IsExecution cfg es (some e, p) h = (
    failed_is e,
    handle_retry_exhausted_quiet env txn_id job _ _ e p.retry_count cfg.max_retries _
        ∙ save_response_quiet env txn_id job _ _ _ p.world
        ∙ h,
  )
  end_heartbeat-IsExecution cfg es (none, p) h = (
    success_is,
    reported (elim p.result [ none ↦ none | some r ↦ r.response ])
        ∙ alert_latency_quiet env txn_id job _ p.latency_ms _
        ∙ save_response_quiet env txn_id job _ _ _ p.world
        ∙ h,
  )
    where
      w : World R
      w =
          alert_latency env txn_id job heartbeat p.latency_ms
            (save_response env txn_id job heartbeat p.http_status p.raw_body p.world)

      reported :
          (response : Option HeartbeatResponse)
          → let w' : World R = elim response [
            | none ↦ w
            | some hb ↦ report_heartbeat env txn_id job (vn_number env txn_id job) p.latency_ms hb w
          ] in
            events w'.writes ≡ events w.writes
      reported none = refl
      reported (some hb) = report_heartbeat_quiet env txn_id job _ p.latency_ms hb w

  end_calls-IsExecution :
      (cfg : RetryConfig) (es : List Event) (r : Option Failure × Progress R FetchCallsResult)
      → HasEvents env txn_id job es r.1
      → IsExecution es (end_calls env txn_id job cfg r)
  unfolding IsExecution end_calls finish HasEvents
  end_calls-IsExecution cfg es (some e, p) h = (
    failed_is e,
    handle_retry_exhausted_quiet env txn_id job _ _ e p.retry_count cfg.max_retries _
        ∙ save_bodies_quiet env txn_id job p
        ∙ h,
  )
  end_calls-IsExecution cfg es (none, p) h = (
    success_is,
    reported (elim p.result [ none ↦ none | some r ↦ r.response ])
        ∙ alert_latency_quiet env txn_id job _ p.latency_ms _
        ∙ save_bodies_quiet env txn_id job p
        ∙ h,
  )
    where
      w : World R
      w = alert_latency env txn_id job calls p.latency_ms (save_bodies env txn_id job p)

      reported :
          (response : Option CallsResponse)
          → let w' : World R = elim response [
            | none ↦ w
            | some page ↦ report_calls env txn_id job (vn_number env txn_id job) page.result w
          ] in
            events w'.writes ≡ events w.writes
      reported none = refl
      reported (some page) = report_calls_quiet env txn_id job _ page.result w

  -- a retry loop of calls that keep the events
  retried-HasEvents :
      {Res : Type 0} (fn : Progress R Res → Outcome Failure × Progress R Res) (cfg : RetryConfig)
      (w : World R)
      → ((p : Progress R Res)
          → HasEvents env txn_id job (events w.writes) p
          → HasEvents env txn_id job (events w.writes) (fn p).1)
      → HasEvents env txn_id job
          (events w.writes)
          (do_with_retry env.cancelled context_done fn cfg (start_progress w)).1
  unfolding HasEvents start_progress
  retried-HasEvents fn cfg w keeps =
      do_with_retry_keeps env.cancelled context_done fn (HasEvents env txn_id job (events w.writes))
        keeps cfg (start_progress w) refl

  pub execute_type-IsExecution :
      (t : JobType) (creds : Credentials) (cfg : RetryConfig) (w : World R)
      → IsExecution (events w.writes) (execute_type env txn_id job t creds cfg w)
  unfolding execute_type execute_heartbeat execute_calls execute_streams IsExecution
  execute_type-IsExecution heartbeat creds cfg w =
      end_heartbeat-IsExecution cfg (events w.writes)
        (do_with_retry env.cancelled context_done call cfg (start_progress w))
        (retried-HasEvents call cfg w
          (heartbeat_call_quiet env txn_id job creds (vn_number env txn_id job) (events w.writes)))
    where
      call : Progress R FetchHeartbeatResult → Outcome Failure × Progress R FetchHeartbeatResult
      call = heartbeat_call env txn_id job creds (vn_number env txn_id job)
  execute_type-IsExecution calls creds cfg w =
      end_calls-IsExecution cfg (events w.writes)
        (do_with_retry env.cancelled context_done call cfg (start_progress w))
        (retried-HasEvents call cfg w
          (calls_call_quiet env txn_id job creds (vn_number env txn_id job) (events w.writes)))
    where
      call : Progress R FetchCallsResult → Outcome Failure × Progress R FetchCallsResult
      call = calls_call env txn_id job creds (vn_number env txn_id job)
  execute_type-IsExecution streams creds cfg w =
      end_streams-IsExecution cfg (events w.writes)
        (do_with_retry env.cancelled context_done (streams_call env txn_id job creds) cfg
          (start_progress w))
        (retried-HasEvents (streams_call env txn_id job creds) cfg w
          (streams_call_quiet env txn_id job creds (events w.writes)))
  execute_type-IsExecution (other_type name) creds cfg w = (failed_is _, refl)
