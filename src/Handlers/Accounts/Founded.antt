-- ===== src/Handlers/Accounts/Founded.antt =====
-- All or nothing: what CreateAccount (internal/handlers/accounts.go) leaves.
use exotel_monitoring_platfo.Prelude.{
  map, ◌++◌, ℕ, suc, ◌*◌, ◌≡◌, refl, List, [], ◌∷◌, Option, none, some, Text, length,
}
use exotel_monitoring_platfo.Models.{JobType, Account}
use exotel_monitoring_platfo.Utils.Phone.{normalize_phone}
use exotel_monitoring_platfo.Handlers.Accounts.{Registry, with_account}
use exotel_monitoring_platfo.Handlers.Accounts.Add.{ExophoneInput}
use exotel_monitoring_platfo.Handlers.Accounts.Create.{
  CreateAccountRequest, CreateReply, bad_account, credential_check_failed, not_encrypted,
  not_created, rejected_numbers, account_created, CreateEnv, new_account,
}
use exotel_monitoring_platfo.Handlers.Accounts.Growth.{ExophonesAdded, JobsAdded, three_jobs}
use exotel_monitoring_platfo.Handlers.Accounts.Onboarded.{IsSound}

-- the numbers that a request names, in their normal form
abbrev pub numbers_named : List ExophoneInput → List Text
numbers_named exophones = map (λ (ep : ExophoneInput). normalize_phone ep.number) exophones

-- three jobs for each of so many exophones from an id on
abbrev pub three_jobs_each : ℕ → List ExophoneInput → List (ℕ × JobType)
three_jobs_each id [] = []
three_jobs_each id (ep ∷ exophones) = three_jobs id ++ three_jobs_each (suc id) exophones

-- The tables have the account of the request, one exophone for each number that it names, and one job
-- of each type for each of these.
pub record Founded (req : CreateAccountRequest) (t later : Registry) : Type 0 where
  pub sound : IsSound later
  pub new_account : Account
  pub accounts_are : later.accounts ≡ t.accounts ++ new_account ∷ []
  pub id_is : new_account.id ≡ t.next_account
  pub sid_is : new_account.sid ≡ req.sid
  pub name_is : new_account.account_name ≡ req.account_name
  pub exophones_added : ExophonesAdded t.next_account (numbers_named req.exophones) t later
  pub jobs_added : JobsAdded t.next_account (three_jobs_each t.next_exophone req.exophones) t later

-- What a request leaves: a created account is its, and any other reply comes with the tables as they
-- were.
pub CreatedFrom : Option CreateAccountRequest → Registry → CreateReply × Registry → Type 0
CreatedFrom body t (bad_account, later) = later ≡ t
CreatedFrom body t (credential_check_failed, later) = later ≡ t
CreatedFrom body t (not_encrypted, later) = later ≡ t
CreatedFrom body t (not_created, later) = later ≡ t
CreatedFrom body t (rejected_numbers numbers, later) = later ≡ t
CreatedFrom none t (account_created id exophones jobs, later) = ⊥
CreatedFrom (some req) t (account_created id exophones jobs, later) =
    (id ≡ t.next_account)
    × (exophones ≡ length req.exophones)
    × (jobs ≡ 3 * length req.exophones)
    × Founded req t later

module _ (env : CreateEnv) where
  module _ (t : Registry) (h : IsSound t) where
    -- the loop starts at the same exophone
    started_at :
        (req : CreateAccountRequest) (secrets : Text × Text)
        → (with_account (new_account req secrets) t).next_exophone ≡ t.next_exophone
    unfolding with_account
    started_at req secrets = refl
