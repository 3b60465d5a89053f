-- ===== src/Handlers/Accounts/Add.antt =====
-- AddExophone (internal/handlers/accounts.go).
use exotel_monitoring_platfo.Prelude.{
  ℕ, suc, Bool, true, false, ◌&&◌, List, [], ◌∷◌, Option, none, some, Text, text_eq, is_empty,
  if◌then◌else◌, ◌==◌,
}
use exotel_monitoring_platfo.Models.{Instant, Account, Exophone}
use exotel_monitoring_platfo.Effects.{Credentials}
use exotel_monitoring_platfo.Exotel.Numbers.{validate_exophone}
use exotel_monitoring_platfo.Utils.Phone.{normalize_phone}
use exotel_monitoring_platfo.Repository.Tables.{first_row}
use exotel_monitoring_platfo.Handlers.Dashboard.{parse_uint}
use exotel_monitoring_platfo.Handlers.Exophones.{default_frequency}
use exotel_monitoring_platfo.Handlers.Accounts.{
  Registry, fallback_frequency, freq_map, minutes_or_zero, priority_or_p1, insert_monitored, commit,
  account_credentials,
}

pub record ExophoneInput : Type 0 where
  pub number : Text
  pub priority : Text

pub record AddedExophone : Type 0 where
  pub exophone_id : ℕ
  pub number : Text
  pub priority : Text
  pub freq : ℕ
  pub job_ids : List ℕ

-- 400, 404, 500 by a panic, 422, 409, 500, 201; no request gets the 502 of the code
pub data AddReply : Type 0 where
  bad_exophone no_account panicked not_inserted : AddReply
  not_on_account : Text → AddReply
  duplicate_of : ℕ → AddReply
  exophone_added : AddedExophone → AddReply

-- What the handler is told: the clock, the vendor's status for a number, the table of the
-- priorities, the decryption, and which statement of the transaction fails.
pub record AddEnv : Type 0 where
  pub now : Instant
  pub status_of : Credentials → Text → Option ℕ
  pub configs : Option (List (Text × ℕ))
  pub decrypt : Text → Option Text
  pub lookup_fails : Bool
  pub fails : ℕ → Bool

-- GetAccountByID
unfoldable pub get_account_by_id : ℕ → List Account → Option Account
unfolding first_row
get_account_by_id id accounts =
    first_row (λ (a : Account). a.id == id && a.is_deleted == 0) accounts

-- the first of GetExophonesByNumber that is the account's; none where the query fails
unfoldable pub find_duplicate : Bool → ℕ → Text → List Exophone → Option Exophone
unfolding first_row normalize_phone
find_duplicate lookup_fails account_id number exophones =
    if lookup_fails
    then none
    else first_row
        (λ (e : Exophone).
          text_eq e.exophone_number (normalize_phone number)
          && (e.is_deleted == 0 && e.account_id == account_id))
        exophones

module _ (env : AddEnv) (account_id : ℕ) where
  abbrev pub add_reply_after : Option Registry → AddReply → Registry → AddReply × Registry
  add_reply_after none reply t = (not_inserted, t)
  add_reply_after (some next) reply t = (reply, next)

  -- the transaction and its reply
  unfoldable pub insert_added : Text → Text → Registry → AddReply × Registry
  unfolding default_frequency insert_monitored
  insert_added number priority t =
      let freq = minutes_or_zero (default_frequency priority (freq_map env.configs)) in
      add_reply_after
        (commit env.fails env.now (
          insert_monitored env.fails env.now account_id number priority freq
            (record { tables = t; tried = 0 })))
        (exophone_added record {
          exophone_id = t.next_exophone;
          number = number;
          priority = priority;
          freq = freq;
          job_ids = t.next_job ∷ suc t.next_job ∷ suc (suc t.next_job) ∷ [];
        })
        t

  unfoldable pub add_checked : Account → ExophoneInput → Registry → AddReply × Registry
  unfolding validate_exophone find_duplicate insert_added priority_or_p1 normalize_phone
      account_credentials
  add_checked account req t =
      let number = normalize_phone req.number in
      let priority = priority_or_p1 fallback_frequency req.priority in
      elim (validate_exophone (env.status_of (account_credentials env.decrypt account)) number) [
        | none ↦ (panicked, t)
        | some belongs ↦ elim belongs [
          | false ↦ (not_on_account number, t)
          | true ↦ elim (find_duplicate env.lookup_fails account_id number t.monitored.exophones) [
            | some e ↦ (duplicate_of e.id, t)
            | none ↦ insert_added number priority t
          ]
        ]
      ]

  unfoldable pub add_to_account : ExophoneInput → Registry → AddReply × Registry
  unfolding get_account_by_id add_checked
  add_to_account req t = elim (get_account_by_id account_id t.accounts) [
    | none ↦ (no_account, t)
    | some account ↦ add_checked account req t
  ]

-- the id of the path, and a body that binds or does not
unfoldable pub add_exophone : AddEnv → Text → Option ExophoneInput → Registry → AddReply × Registry
unfolding parse_uint add_to_account
add_exophone env id none t = (bad_exophone, t)
add_exophone env id (some req) t =
    let account_id = parse_uint id in
    let answer = add_to_account env account_id req t in
    if account_id == 0
    then (bad_exophone, t)
    else if is_empty req.number
    then (bad_exophone, t)
    else answer
