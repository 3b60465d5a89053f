-- ===== src/Workers/Quiet.antt =====
-- Neither the retried calls nor the reports of a run (internal/workers/job_worker.go) touch its
-- transaction or its job's next run.
use exotel_monitoring_platfo.Prelude.{
  arith, ℕ, ◌≡◌, refl, ◌∙◌, Bool, true, false, not, ◌&&◌, List, [], ◌∷◌, Option, none, some, Text,
  is_empty, if◌then◌else◌, Option-cases, inl, inr,
}
use exotel_monitoring_platfo.Models.{
  leg1_drops, leg2_drops, heartbeat_failure, vn_heartbeat, Metric, CallMetricsSnapshot,
  vendor_throttling, warning, throttled, MonitoringJob, Message, critical,
}
use exotel_monitoring_platfo.Exotel.Types.{
  HeartbeatResponse, affects_vn, CallRecord, ActiveStreamsEntry,
}
use exotel_monitoring_platfo.Exotel.Heartbeat.{FetchHeartbeatResult, FetchStreamsResult}
use exotel_monitoring_platfo.Exotel.Calls.{FetchCallsResult}
use exotel_monitoring_platfo.Metrics.Summary.Rates.{process_call_records, CallSummary}
use exotel_monitoring_platfo.Cache.Dedup.{filter_new_records}
use exotel_monitoring_platfo.Effects.{
  save_metrics, save_call_logs, accumulate_account_dashboard, recompute_account_dashboard,
  upsert_call_metrics_snapshot, Env, World, Credentials, write_anyway,
}
use exotel_monitoring_platfo.Workers.Progress.{raise_alert, Progress}
use exotel_monitoring_platfo.Workers.Heartbeats.{
  is_healthy, heartbeat_call, alert_directions, report_heartbeat, status_of,
}
use exotel_monitoring_platfo.Workers.CallsJob.{
  skips_call_logs, calls_call, save_pages, save_bodies, alert_drops, drop_severity, report_batch,
  refresh_call_snapshots, report_calls,
}
use exotel_monitoring_platfo.Workers.StreamsJob.{streams_call, report_streams}
use exotel_monitoring_platfo.Workers.Events.{
  either_quiet, events, write_quiet, if_quiet, raise_alert_quiet, save_response_quiet, Event,
}

module _ {R : Type 0} (env : Env R) (txn_id : Text) (job : MonitoringJob) where
  -- a closure's step from a state with given events
  unfoldable pub HasEvents : {Res : Type 0} → List Event → Progress R Res → Type 0
  HasEvents es p = events p.world.writes ≡ es

  pub streams_call_quiet :
      (creds : Credentials) (es : List Event) (p : Progress R FetchStreamsResult)
      → HasEvents es p
      → HasEvents es (streams_call env txn_id job creds p).1
  unfolding HasEvents streams_call
  streams_call_quiet creds es p h = ground (arith, h)

  pub heartbeat_call_quiet :
      (creds : Credentials) (vn : Text) (es : List Event) (p : Progress R FetchHeartbeatResult)
      → HasEvents es p
      → HasEvents es (heartbeat_call env txn_id job creds vn p).1
  unfolding HasEvents heartbeat_call
  heartbeat_call_quiet creds vn es p h = ground (
    arith,
    h,
    raise_alert_quiet env txn_id job vendor_throttling warning (throttled job.account_id) p.world,
  )

  pub calls_call_quiet :
      (creds : Credentials) (vn : Text) (es : List Event) (p : Progress R FetchCallsResult)
      → HasEvents es p
      → HasEvents es (calls_call env txn_id job creds vn p).1
  unfolding HasEvents calls_call
  calls_call_quiet creds vn es p h = ground (arith, h)

  alert_directions_quiet :
      (vn : Text) (hb : HeartbeatResponse) (w : World R)
      → events (alert_directions env txn_id job vn hb w).writes ≡ events w.writes
  unfolding alert_directions
  alert_directions_quiet vn hb w =
      if_quiet env (affects_vn hb vn).1 _ _ (raise_alert_quiet env txn_id job _ _ _ _)
      ∙ if_quiet env (affects_vn hb vn).0 _ w (raise_alert_quiet env txn_id job _ _ _ w)

  pub report_heartbeat_quiet :
      (vn : Text) (ms : ℕ) (hb : HeartbeatResponse) (w : World R)
      → events (report_heartbeat env txn_id job vn ms hb w).writes ≡ events w.writes
  unfolding report_heartbeat
  report_heartbeat_quiet vn ms hb w =
      write_quiet env _ refl _
      ∙ write_quiet env _ refl _
      ∙ back
      ∙ if_quiet env _ _ w (raise_alert_quiet env txn_id job _ _ _ w)
    where
      w1 : World R
      w1 =
          if not (is_healthy (status_of hb)) && not (is_empty vn)
          then raise_alert env txn_id job heartbeat_failure critical
              (vn_heartbeat vn hb.status_type hb.incoming_affected hb.outgoing_affected) w
          else w

      back :
          events (if is_empty vn then w1 else alert_directions env txn_id job vn hb w1).writes
          ≡ events w1.writes
      back =
          either_quiet env (is_empty vn) w1 (alert_directions env txn_id job vn hb w1) w1 refl
            (alert_directions_quiet vn hb w1)

  pub report_streams_quiet :
      (es : List ActiveStreamsEntry) (w : World R)
      → events (report_streams env txn_id job es w).writes ≡ events w.writes
  unfolding report_streams
  report_streams_quiet es w =
      if_quiet env _ _ _ (raise_alert_quiet env txn_id job _ _ _ _)
      ∙ write_quiet env _ refl _
      ∙ write_quiet env _ refl w

  alert_drops_quiet :
      (n : ℕ) (rate : R) (m : Message) (w : World R)
      → events (alert_drops env txn_id job n rate m w).writes ≡ events w.writes
  unfolding alert_drops
  alert_drops_quiet n rate m w = elim (Option-cases (drop_severity env txn_id job n rate)) [
    | inl e ↦ rw (e, alert_drops) refl
    | inr (s, e) ↦ rw (e, alert_drops) (raise_alert_quiet env txn_id job _ s m w)
  ]

  report_batch_quiet :
      (vn : Text) (s : CallSummary R) (mets : List (Metric R)) (w : World R)
      → events (report_batch env txn_id job vn s mets w).writes ≡ events w.writes
  unfolding report_batch
  report_batch_quiet vn s mets w =
      alert_drops_quiet s.leg1_total s.leg1_drop_rate (leg1_drops vn s.dropped_leg1 s.total) w3
      ∙ alert_drops_quiet s.leg2_total s.drop_rate (leg2_drops vn s.dropped_leg2 s.total) w2
      ∙ write_quiet env (save_metrics mets) refl w1
      ∙ either_quiet env skips w _ w refl (write_quiet env (save_call_logs s.call_logs) refl w)
    where
      skips : Bool
      skips = skips_call_logs env txn_id job

      w1 : World R
      w1 = if skips then w else write_anyway env (save_call_logs s.call_logs) w

      w2 : World R
      w2 = write_anyway env (save_metrics mets) w1

      w3 : World R
      w3 =
          alert_drops env txn_id job s.leg2_total s.drop_rate (leg2_drops vn s.dropped_leg2 s.total)
            w2

  dashboard_quiet :
      (test : Bool) (w : World R)
      → events
          (write_anyway env
            (if test
              then accumulate_account_dashboard job.account_id
              else recompute_account_dashboard job.account_id)
            w).writes
        ≡ events w.writes
  dashboard_quiet true w = write_quiet env _ refl w
  dashboard_quiet false w = write_quiet env _ refl w

  upsert_quiet :
      (row : Option (CallMetricsSnapshot R)) (w : World R)
      → let w' : World R = elim row [
        | none ↦ w
        | some snap ↦ write_anyway env (upsert_call_metrics_snapshot snap) w
      ] in
        events w'.writes ≡ events w.writes
  upsert_quiet none w = refl
  upsert_quiet (some snap) w = write_quiet env _ refl w

  refresh_call_snapshots_quiet :
      (s : CallSummary R) (w : World R)
      → events (refresh_call_snapshots env txn_id job s w).writes ≡ events w.writes
  unfolding refresh_call_snapshots
  refresh_call_snapshots_quiet s w =
      write_quiet env _ refl _ ∙ write_quiet env _ refl _ ∙ dashboard_quiet _ _ ∙ upsert_quiet _ w

  pub report_calls_quiet :
      (vn : Text) (rs : List CallRecord) (w : World R)
      → events (report_calls env txn_id job vn rs w).writes ≡ events w.writes
  unfolding report_calls
  report_calls_quiet vn rs w =
      refresh_call_snapshots_quiet batch.0 (report_batch env txn_id job vn batch.0 batch.1 w)
      ∙ report_batch_quiet vn batch.0 batch.1 w
    where
      batch : CallSummary R × List (Metric R)
      batch =
          process_call_records env.float env.times env.completed_at txn_id job vn
            (filter_new_records env.redis env.sids_today rs).0

  save_pages_quiet :
      (status : ℕ) (bodies : List Text) (w : World R)
      → events (save_pages env txn_id job status bodies w).writes ≡ events w.writes
  unfolding save_pages
  save_pages_quiet status [] w = refl
  save_pages_quiet status (raw ∷ bodies) w =
      save_pages_quiet status bodies _ ∙ save_response_quiet env txn_id job _ status raw w

  pub save_bodies_quiet :
      (p : Progress R FetchCallsResult)
      → events (save_bodies env txn_id job p).writes ≡ events p.world.writes
  unfolding save_bodies
  save_bodies_quiet p =
      elim p.result
        as (λ r.
          events (save_bodies env txn_id job (record p { result = r })).writes
          ≡ events p.world.writes) [
            | none ↦ save_response_quiet env txn_id job _ _ _ _
            | some r ↦
                elim r.page_bodies
                  as (λ bs.
                    events
                      (save_bodies env txn_id job
                        (record p { result = some (record r { page_bodies = bs }) })).writes
                    ≡ events p.world.writes) [
                      | [] ↦ save_response_quiet env txn_id job _ _ _ _
                      | raw ∷ rest ↦ save_pages_quiet p.http_status (raw ∷ rest) p.world
                    ]
          ]
