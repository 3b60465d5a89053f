-- ===== src/Snapshots/Health.antt =====
-- RefreshExophoneHealth, UpdateStreamUtilizationSnapshot and heartbeatToAvailability of
-- internal/snapshots/generator.go. The rows that the queries find are arguments, and the upsert is
-- the row that goes back.
use exotel_monitoring_platfo.Prelude.{
  ℕ, ◌+◌, ◌-◌, ◌*◌, ◌/◌, ◌≡◌, refl, ℤ, pos, Option, none, some, Float64,
}
use exotel_monitoring_platfo.Models.{
  Instant, HeartbeatStatus, healthy, degraded, outage, unknown, HeartbeatMetric, StreamMetric,
  ExophoneHealthSnapshot, StreamUtilizationSnapshot,
}

module _ {R : Type 0} (float : Float64 R) where
  open float use {of_int}

  unfoldable pub heartbeat_to_availability : HeartbeatStatus → R
  heartbeat_to_availability healthy = of_int (pos 100)
  heartbeat_to_availability degraded = of_int (pos 50)
  heartbeat_to_availability outage = of_int (pos 0)
  heartbeat_to_availability unknown = of_int (pos 0)

  unfoldable pub with_heartbeat :
      Option HeartbeatMetric → ExophoneHealthSnapshot R → ExophoneHealthSnapshot R
  unfolding heartbeat_to_availability
  with_heartbeat none snap = snap
  with_heartbeat (some hb) snap = record snap {
    heartbeat_status = hb.status_type;
    availability_percent = heartbeat_to_availability hb.status_type;
    last_api_latency_ms = elim hb.response_time_ms [
      | none ↦ snap.last_api_latency_ms
      | some ms ↦ some ms
    ];
  }

  unfoldable pub with_streams :
      Option (StreamMetric R) → ExophoneHealthSnapshot R → ExophoneHealthSnapshot R
  with_streams none snap = snap
  with_streams (some sm) snap = record snap { active_streams = sm.active_streams }

  unfoldable pub refresh_exophone_health :
      ℕ → ℕ → Instant → Option HeartbeatMetric → Option (StreamMetric R) → ExophoneHealthSnapshot R
  unfolding with_heartbeat with_streams
  refresh_exophone_health exophone_id account_id now hb sm = with_streams sm (
      with_heartbeat hb (record {
        exophone_id = exophone_id;
        account_id = account_id;
        heartbeat_status = unknown;
        availability_percent = of_int (pos 0);
        last_api_latency_ms = none;
        active_streams = pos 0;
        last_checked_at = some now;
      }))

  -- The hour of the instant in the server's zone, `zone_offset` east of Greenwich.
  unfoldable pub update_stream_utilization_snapshot :
      ℕ → ℕ → ℕ → Instant → ℤ → R → StreamUtilizationSnapshot R
  update_stream_utilization_snapshot zone_offset account_id exophone_id now active util_pct =
      record {
        snapshot_hour = (now + zone_offset) / 3_600_000_000_000 * 3_600_000_000_000 - zone_offset;
        account_id = account_id;
        exophone_id = exophone_id;
        avg_active_streams = of_int active;
        max_active_streams = active;
        utilization_percent = util_pct;
      }

  -- In every refreshed row the availability is that of its heartbeat status, UNKNOWN with 0 where
  -- no heartbeat is found, and the row is stamped with the time of the check.
  pub refresh-availability :
      (exophone_id account_id : ℕ) (now : Instant) (hb : Option HeartbeatMetric)
      (sm : Option (StreamMetric R))
      → let snap = refresh_exophone_health exophone_id account_id now hb sm in
        (snap.availability_percent ≡ heartbeat_to_availability snap.heartbeat_status)
        × (snap.last_checked_at ≡ some now)
        × (snap.exophone_id ≡ exophone_id)
  unfolding refresh_exophone_health
  refresh-availability exophone_id account_id now none none = (refl, refl, refl)
  refresh-availability exophone_id account_id now none (some sm) = (refl, refl, refl)
  refresh-availability exophone_id account_id now (some hb) none = (refl, refl, refl)
  refresh-availability exophone_id account_id now (some hb) (some sm) = (refl, refl, refl)
