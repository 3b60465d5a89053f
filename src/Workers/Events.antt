-- ===== src/Workers/Events.antt =====
-- The life of a run, read off its writes: the transaction that is created and settled, and the job's
-- next run.
use exotel_monitoring_platfo.Prelude.{
  ℤ, ℕ, ◌≡◌, refl, Bool, List, [], ◌∷◌, Option, Text, if◌then◌else◌, Bool-cases, inl, inr,
}
use exotel_monitoring_platfo.Models.{
  JobTransaction, TxnStatus, Failure, JobType, MonitoringJob, AlertType, Severity, Message,
}
use exotel_monitoring_platfo.Effects.{
  Env, World, Write, create_transaction, update_transaction_status, advance_next_run, attempt_write,
  write_anyway,
}
use exotel_monitoring_platfo.Workers.Traces.{
  traced, attempt_silent, write_silent, then_silent, either_silent, raise_alert_silent,
}
use exotel_monitoring_platfo.Workers.Progress.{
  used_up, raise_alert, handle_retry_exhausted, alert_latency, save_response,
}

pub data Event : Type 0 where
  created : JobTransaction → Event
  settled : Text → TxnStatus → Option Failure → Event
  advanced : ℕ → TxnStatus → Event

module _ {R : Type 0} where
  abbrev pub event : Write R → List Event
  event (create_transaction txn) = created txn ∷ []
  event (update_transaction_status id status ms retries err now) = settled id status err ∷ []
  event (advance_next_run id next now status) = advanced id status ∷ []
  event other = []

  abbrev pub events : List (Write R) → List Event
  events = traced event

module _ {R : Type 0} (env : Env R) where
  -- Writes that are no event of the life leave it as it is, stored or not.
  pub attempt_quiet :
      (x : Write R)
      → event x ≡ []
      → (w : World R) → events (attempt_write env x w).1.writes ≡ events w.writes
  attempt_quiet x e w = attempt_silent event env x e w

  pub write_quiet :
      (x : Write R)
      → event x ≡ []
      → (w : World R) → events (write_anyway env x w).writes ≡ events w.writes
  write_quiet x e w = write_silent event env x e w

  pub then_quiet :
      (r : Bool × World R) (next : World R → World R) (es : List Event)
      → ((w : World R) → events (next w).writes ≡ events w.writes)
      → events r.1.writes ≡ es
      → events (if r.0 then next r.1 else r.1).writes ≡ es
  then_quiet r next es keeps e = then_silent event env r next es keeps e

  pub either_quiet :
      (test : Bool) (a b w : World R)
      → events a.writes ≡ events w.writes
      → events b.writes ≡ events w.writes
      → events (if test then a else b).writes ≡ events w.writes
  either_quiet test a b w e e' = either_silent event env test a b w e e'

  -- a step under a test
  pub if_quiet :
      (test : Bool) (w' w : World R)
      → events w'.writes ≡ events w.writes
      → events (if test then w' else w).writes ≡ events w.writes
  if_quiet test w' w e = either_quiet test w' w w e refl

module _ {R : Type 0} (env : Env R) (txn_id : Text) (job : MonitoringJob) where
  pub raise_alert_quiet :
      (t : AlertType) (s : Severity) (m : Message) (w : World R)
      → events (raise_alert env txn_id job t s m w).writes ≡ events w.writes
  raise_alert_quiet t s m w =
      raise_alert_silent event env (λ a. refl) (λ d. refl) txn_id job t s m w

  pub alert_latency_quiet :
      (t : JobType) (ms : ℕ) (w : World R)
      → events (alert_latency env txn_id job t ms w).writes ≡ events w.writes
  unfolding alert_latency
  alert_latency_quiet t ms w = if_quiet env _ _ w (raise_alert_quiet _ _ _ w)

  pub save_response_quiet :
      (t : JobType) (status : ℕ) (raw : Text) (w : World R)
      → events (save_response env txn_id job t status raw w).writes ≡ events w.writes
  unfolding save_response
  save_response_quiet t status raw w = write_quiet env _ refl w

  pub handle_retry_exhausted_quiet :
      (t : JobType) (subject : ℕ) (err : Failure) (retries : ℕ) (most : ℤ) (w : World R)
      → events (handle_retry_exhausted env txn_id job t subject err retries most w).writes
        ≡ events w.writes
  unfolding handle_retry_exhausted
  handle_retry_exhausted_quiet t subject err retries most w =
      elim (Bool-cases (used_up retries most)) [
        | inl e ↦ rw (e, handle_retry_exhausted) (raise_alert_quiet _ _ _ w)
        | inr e ↦ rw (e, handle_retry_exhausted) (raise_alert_quiet _ _ _ w)
      ]
