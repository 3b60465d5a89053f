-- ===== src/Handlers/Accounts/Inserts.antt =====
-- What the transactions of internal/handlers/accounts.go have added where their inserts succeed.
use exotel_monitoring_platfo.Prelude.{
  ℕ, suc, ◌≡◌, refl, sym, ap, ◌∙◌, subst, Bool, ◌||◌, List, [], ◌∷◌, map, Option, none, some,
  Option-cases, Bool-cases, inl, inr, Text, if◌then◌else◌,
}
use exotel_monitoring_platfo.Models.{Instant, JobType}
use exotel_monitoring_platfo.Handlers.Accounts.{
  Registry, Draft, number_taken, never_taken, with_exophone, with_job, insert_row, insert_jobs,
  insert_monitored, job_types,
}
use exotel_monitoring_platfo.Handlers.Accounts.Onboarded.{IsSound, Fits, with_exophone-Fits}
use exotel_monitoring_platfo.Handlers.Accounts.Growth.{
  Grown, three_jobs, added_up, nothing-Grown, with_job-Grown, with_exophone-Grown,
}

-- the tables of a draft that is there
abbrev pub tables_of : Option Draft → Registry → Registry
tables_of none other = other
tables_of (some d) other = d.tables

pub none_is_not : {A : Type 0} (a : A) → none ≡ some a → ⊥
none_is_not a e = cc e

pub insert_row-changes :
    (fails : ℕ → Bool) (taken : Registry → Bool) (change : Registry → Registry) (d next : Draft)
    → insert_row fails taken change d ≡ some next
    → change d.tables ≡ next.tables
unfolding insert_row
insert_row-changes fails taken change d next e =
    let outcome : Bool → Option Draft =
      λ b. if b then none else some record { tables = change d.tables; tried = suc d.tried } in
    elim (Bool-cases (fails d.tried || taken d.tables)) [
      | inl failed ↦ absurd (none_is_not next (subst (λ b. outcome b ≡ some next) failed e))
      | inr works ↦ ap (λ o. tables_of o d.tables) (subst (λ b. outcome b ≡ some next) works e)
    ]

insert_jobs-Grown :
    (fails : ℕ → Bool) (now : Instant) (account_id exophone_id : ℕ) (priority : Text) (freq : ℕ)
    (types : List JobType) (d next : Draft)
    → IsSound d.tables
    → Fits exophone_id priority d.tables
    → insert_jobs fails now account_id exophone_id priority freq types d ≡ some next
    → Grown account_id [] (map (λ t. (exophone_id, t)) types) d.tables next.tables
unfolding insert_jobs
insert_jobs-Grown fails now account_id exophone_id priority freq [] d next h fits e =
    subst (λ t. Grown account_id [] [] d.tables t) (ap (λ o. tables_of o d.tables) e)
      (nothing-Grown account_id d.tables h)
insert_jobs-Grown fails now account_id exophone_id priority freq (t ∷ ts) d next h fits e =
    let change = with_job account_id exophone_id priority freq now t in
    elim (Option-cases (insert_row fails never_taken change d)) [
      | inl failed ↦ absurd (none_is_not next (sym (rw (failed, insert_jobs) refl) ∙ e))
      | inr (middle, inserted) ↦
          let same = insert_row-changes fails never_taken change d middle inserted in
          let (grown, still) =
            subst
              (λ r.
                Grown account_id [] ((exophone_id, t) ∷ []) d.tables r
                × Fits exophone_id priority r)
              same (with_job-Grown account_id exophone_id priority freq now t d.tables h fits) in
          let left : insert_jobs fails now account_id exophone_id priority freq ts middle
              ≡ some next =
            sym (rw (inserted, insert_jobs) refl) ∙ e in
          added_up account_id [] [] ((exophone_id, t) ∷ []) (map (λ t. (exophone_id, t)) ts)
            d.tables middle.tables next.tables grown
            (insert_jobs-Grown fails now account_id exophone_id priority freq ts middle next
              grown.sound still left)
    ]

pub insert_monitored-Grown :
    (fails : ℕ → Bool) (now : Instant) (account_id : ℕ) (number priority : Text) (freq : ℕ)
    (d next : Draft)
    → IsSound d.tables
    → insert_monitored fails now account_id number priority freq d ≡ some next
    → Grown account_id (number ∷ []) (three_jobs d.tables.next_exophone) d.tables next.tables
unfolding insert_monitored
insert_monitored-Grown fails now account_id number priority freq d next h e =
    let change = with_exophone account_id number priority in
    let id = d.tables.next_exophone in
    elim (Option-cases (insert_row fails (number_taken account_id number) change d)) [
      | inl failed ↦ absurd (none_is_not next (sym (rw (failed, insert_monitored) refl) ∙ e))
      | inr (middle, inserted) ↦
          let same =
            insert_row-changes fails (number_taken account_id number) change d middle inserted in
          let grown =
            subst (Grown account_id (number ∷ []) [] d.tables) same
              (with_exophone-Grown account_id number priority d.tables h) in
          let fits =
            subst (Fits id priority) same
              (with_exophone-Fits account_id number priority d.tables h) in
          let left : insert_jobs fails now account_id id priority freq (job_types fails now) middle
              ≡ some next =
            sym (rw (inserted, insert_monitored) refl) ∙ e in
          added_up account_id (number ∷ []) [] [] (three_jobs id) d.tables middle.tables next.tables
            grown
            (insert_jobs-Grown fails now account_id id priority freq (job_types fails now) middle
              next grown.sound fits left)
    ]
