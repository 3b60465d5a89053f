-- ===== src/Workers/Traces.antt =====
-- A run seen through what each of its writes is taken to say: the part of the list of writes that a
-- property is about. Alerts (internal/alerts) say nothing.
use mathlib.Core.List.{append_assoc, append-nil}
use exotel_monitoring_platfo.Prelude.{
  suc, ◌≡◌, refl, ap, sym, ◌∙◌, Bool, true, false, List, [], ◌∷◌, ◌++◌, Text, if◌then◌else◌,
}
use exotel_monitoring_platfo.Models.{
  Alert, AlertDispatchLog, Channel, slack, email, webhook, AlertType, Severity, Message,
  MonitoringJob,
}
use exotel_monitoring_platfo.Effects.{
  Env, World, Write, create_alert, create_dispatch_log, attempt_write, write_anyway,
}
use exotel_monitoring_platfo.Alerts.{dispatch, trigger_alert}
use exotel_monitoring_platfo.Workers.Progress.{raise_alert, job_alert}

module _ {R E : Type 0} (says : Write R → List E) where
  unfoldable pub traced : List (Write R) → List E
  traced [] = []
  traced (x ∷ xs) = says x ++ traced xs

  pub traced-append : (xs ys : List (Write R)) → traced (xs ++ ys) ≡ traced xs ++ traced ys
  unfolding traced
  traced-append [] ys = refl
  traced-append (x ∷ xs) ys =
      ap (λ rest. says x ++ rest) (traced-append xs ys)
      ∙ sym (append_assoc (says x) (traced xs) (traced ys))

  pub traced_snoc :
      (xs : List (Write R)) (x : Write R) → traced (xs ++ x ∷ []) ≡ traced xs ++ says x
  unfolding traced
  traced_snoc xs x = traced-append xs (x ∷ []) ∙ ap (λ es. traced xs ++ es) (append-nil (says x))

  -- the trace of a world
  abbrev pub said : World R → List E
  said w = traced w.writes

  module _ (env : Env R) where
    attempt_traced :
        (fails : Bool) (x : Write R)
        → says x ≡ []
        → (w : World R)
        → let r : Bool × World R =
            if fails
            then (false, record w { tried = suc w.tried })
            else (true, record w { writes = w.writes ++ x ∷ []; tried = suc w.tried }) in
          said r.1 ≡ said w
    attempt_traced true x e w = refl
    attempt_traced false x e w =
        traced_snoc w.writes x ∙ ap (λ es. said w ++ es) e ∙ append-nil (said w)

    -- Writes that say nothing leave the trace as it is, stored or not.
    pub attempt_silent :
        (x : Write R) → says x ≡ [] → (w : World R) → said (attempt_write env x w).1 ≡ said w
    unfolding attempt_write
    attempt_silent x e w = attempt_traced (env.write_fails w.tried) x e w

    pub write_silent :
        (x : Write R) → says x ≡ [] → (w : World R) → said (write_anyway env x w) ≡ said w
    unfolding write_anyway
    write_silent x e w = attempt_silent x e w

    -- a write, and what follows it where it succeeded
    pub then_silent :
        (r : Bool × World R) (next : World R → World R) (es : List E)
        → ((w : World R) → said (next w) ≡ said w)
        → said r.1 ≡ es
        → said (if r.0 then next r.1 else r.1) ≡ es
    then_silent (true, w) next es keeps e = keeps w ∙ e
    then_silent (false, w) next es keeps e = e

    -- one of two steps
    pub either_silent :
        (test : Bool) (a b w : World R)
        → said a ≡ said w
        → said b ≡ said w
        → said (if test then a else b) ≡ said w
    either_silent true a b w e e' = e
    either_silent false a b w e e' = e'

    module _ (no_alert : (a : Alert) → says (create_alert a) ≡ [])
        (no_log : (d : AlertDispatchLog) → says (create_dispatch_log d) ≡ []) where
      dispatch_silent : (c : Channel) (w : World R) → said (dispatch env c w) ≡ said w
      unfolding dispatch
      dispatch_silent slack w = write_silent _ (no_log _) w
      dispatch_silent email w = refl
      dispatch_silent webhook w = refl

      pub raise_alert_silent :
          (txn_id : Text) (job : MonitoringJob) (t : AlertType) (s : Severity) (m : Message)
          (w : World R)
          → said (raise_alert env txn_id job t s m w) ≡ said w
      unfolding raise_alert trigger_alert job_alert
      raise_alert_silent txn_id job t s m w =
          then_silent _ (dispatch env slack) _ (dispatch_silent slack)
            (attempt_silent _ (no_alert _) w)
