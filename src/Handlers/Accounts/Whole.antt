-- ===== src/Handlers/Accounts/Whole.antt =====
-- All or nothing: what a reply of internal/handlers/accounts.go says of the tables.
use exotel_monitoring_platfo.Prelude.{
  map, ℕ, ◌≡◌, subst, Bool, [], ◌∷◌, Option, none, some, Bool-cases, inl, inr, Text, if◌then◌else◌,
}
use exotel_monitoring_platfo.Models.{Exophone, MonitoringJob, Instant}
use exotel_monitoring_platfo.Handlers.Accounts.{Registry, Draft, commit}
use exotel_monitoring_platfo.Handlers.Accounts.Add.{
  ExophoneInput, AddReply, bad_exophone, no_account, panicked, not_inserted, not_on_account,
  duplicate_of, exophone_added, AddedExophone,
}
use exotel_monitoring_platfo.Handlers.Accounts.Growth.{Grown, three_jobs}
use exotel_monitoring_platfo.Handlers.Accounts.Inserts.{none_is_not}

-- The tables have one exophone more, with the reply's number and id, and one job of each type for it, with
-- the reply's ids, all of the account.
pub record Added (account_id : ℕ) (t : Registry) (a : AddedExophone) (later : Registry)
    : Type 0 where
  pub grown : Grown account_id (a.number ∷ []) (three_jobs a.exophone_id) t later
  pub new_exophone : map (λ (e : Exophone). e.id) grown.exophones_added.rows ≡ a.exophone_id ∷ []
  pub new_jobs : map (λ (j : MonitoringJob). j.id) grown.jobs_added.rows ≡ a.job_ids

-- What a request of an account for a number leaves: an added exophone is of that number, and any other
-- reply comes with the tables as they were.
pub AddedFrom : ℕ → Text → Registry → AddReply × Registry → Type 0
AddedFrom account_id number t (bad_exophone, later) = later ≡ t
AddedFrom account_id number t (no_account, later) = later ≡ t
AddedFrom account_id number t (panicked, later) = later ≡ t
AddedFrom account_id number t (not_inserted, later) = later ≡ t
AddedFrom account_id number t (not_on_account other, later) = later ≡ t
AddedFrom account_id number t (duplicate_of id, later) = later ≡ t
AddedFrom account_id number t (exophone_added a, later) =
    (a.number ≡ number) × Added account_id t a later

same_tables : (a b : Registry) → some a ≡ some b → a ≡ b
same_tables a b e = cc e

pub committed_draft :
    (fails : ℕ → Bool) (now : Instant) (d : Draft) (later : Registry)
    → commit fails now (some d) ≡ some later
    → d.tables ≡ later
committed_draft fails now d later e = elim (Bool-cases (fails d.tried)) [
  | inl failed ↦
      absurd
        (none_is_not later (subst (λ b. (if b then none else some d.tables) ≡ some later) failed e))
  | inr works ↦
      same_tables d.tables later
        (subst (λ b. (if b then none else some d.tables) ≡ some later) works e)
]

abbrev pub number_asked : Option ExophoneInput → Text
number_asked none = []
number_asked (some req) = req.number
