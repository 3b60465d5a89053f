-- ===== src/Handlers/Accounts/Create.antt =====
-- CreateAccount (internal/handlers/accounts.go).
use exotel_monitoring_platfo.Prelude.{
  ℕ, ◌*◌, Bool, ◌||◌, not, List, [], ◌∷◌, map, Option, none, some, Text, is_empty, if◌then◌else◌,
  ◌==◌, length, keep_if,
}
use exotel_monitoring_platfo.Models.{Instant, Account}
use exotel_monitoring_platfo.Effects.{Credentials}
use exotel_monitoring_platfo.Exotel.Numbers.{NumbersReply, list_incoming_phone_numbers, has_number}
use exotel_monitoring_platfo.Utils.Phone.{normalize_phone}
use exotel_monitoring_platfo.Handlers.Exophones.{default_frequency}
use exotel_monitoring_platfo.Handlers.Accounts.{
  Registry, Draft, freq_map, minutes_or_zero, priority_or_p1, with_account, sid_taken, insert_row,
  insert_monitored, commit,
}
use exotel_monitoring_platfo.Handlers.Accounts.Add.{ExophoneInput}

pub record CreateAccountRequest : Type 0 where
  pub account_name : Text
  pub sid : Text
  pub api_key : Text
  pub api_token : Text
  pub subdomain : Text
  pub exophones : List ExophoneInput

-- binding:"required" of the fields, and min=1
unfoldable pub lacks_field : CreateAccountRequest → Bool
lacks_field req =
    is_empty req.account_name
    || (is_empty req.sid
        || (is_empty req.api_key
            || (is_empty req.api_token || (is_empty req.subdomain || length req.exophones == 0))))

-- 400, 502, 422, 500 twice, 201
pub data CreateReply : Type 0 where
  bad_account credential_check_failed not_encrypted not_created : CreateReply
  rejected_numbers : List Text → CreateReply
  account_created : (account_id exophones_created jobs_created : ℕ) → CreateReply

pub record CreateEnv : Type 0 where
  pub now : Instant
  pub pages : Credentials → ℕ → NumbersReply
  pub configs : Option (List (Text × ℕ))
  pub encrypt : Text → Option Text
  pub fails : ℕ → Bool

-- the submitted numbers that the vendor's set does not have
unfoldable pub rejected_of : List Text → List ExophoneInput → List Text
unfolding normalize_phone
rejected_of valid exophones =
    map (λ (ep : ExophoneInput). ep.number)
      (keep_if (λ (ep : ExophoneInput). not (has_number (normalize_phone ep.number) valid))
        exophones)

-- the two encrypted secrets
abbrev pub both_encrypted : Option Text → Option Text → Option (Text × Text)
both_encrypted none token = none
both_encrypted (some key) none = none
both_encrypted (some key) (some token) = some (key, token)

unfoldable pub new_account : CreateAccountRequest → Text × Text → ℕ → Account
new_account req (key, token) id = record {
  id = id;
  account_name = req.account_name;
  sid = req.sid;
  api_key = key;
  api_token = token;
  subdomain = req.subdomain;
  is_active = 1;
  is_deleted = 0;
}

module _ (env : CreateEnv) where
  -- the loop over the exophones
  unfoldable pub insert_all : ℕ → List ExophoneInput → Draft → Option Draft
  unfolding insert_monitored priority_or_p1 default_frequency normalize_phone
  insert_all account_id [] d = some d
  insert_all account_id (ep ∷ exophones) d =
      let configs = freq_map env.configs in
      let priority = priority_or_p1 configs ep.priority in
      elim (insert_monitored env.fails env.now account_id (normalize_phone ep.number) priority
        (minutes_or_zero (default_frequency priority configs)) d) [
          | none ↦ none
          | some next ↦ insert_all account_id exophones next
        ]

  -- the transaction
  unfoldable pub insert_organisation :
      CreateAccountRequest → Text × Text → Registry → Option Registry
  unfolding insert_all sid_taken insert_row with_account new_account
  insert_organisation req secrets t =
      let id = t.next_account in
      elim (insert_row env.fails (sid_taken req.sid) (with_account (new_account req secrets))
        (record { tables = t; tried = 0 })) [
          | none ↦ none
          | some d ↦ commit env.fails env.now (insert_all id req.exophones d)
        ]

  abbrev pub create_reply_after : Option Registry → CreateReply → Registry → CreateReply × Registry
  create_reply_after none reply t = (not_created, t)
  create_reply_after (some next) reply t = (reply, next)

  unfoldable pub create_encrypted : CreateAccountRequest → Registry → CreateReply × Registry
  unfolding insert_organisation
  create_encrypted req t =
      elim (both_encrypted (env.encrypt req.api_key) (env.encrypt req.api_token)) [
        | none ↦ (not_encrypted, t)
        | some secrets ↦
            create_reply_after (insert_organisation req secrets t)
              (account_created t.next_account (length req.exophones) (3 * length req.exophones)) t
      ]

  unfoldable pub create_validated :
      List Text → CreateAccountRequest → Registry → CreateReply × Registry
  unfolding rejected_of create_encrypted
  create_validated valid req t = elim (rejected_of valid req.exophones) [
    | [] ↦ create_encrypted req t
    | n ∷ numbers ↦ (rejected_numbers (n ∷ numbers), t)
  ]

  -- a body that does not bind is none
  unfoldable pub create_account : Option CreateAccountRequest → Registry → CreateReply × Registry
  unfolding lacks_field list_incoming_phone_numbers create_validated
  create_account none t = (bad_account, t)
  create_account (some req) t =
      let creds : Credentials = record {
        sid = req.sid;
        subdomain = req.subdomain;
        api_key = req.api_key;
        api_token = req.api_token;
      } in
      let answer : CreateReply × Registry = elim (list_incoming_phone_numbers (env.pages creds)) [
        | none ↦ (credential_check_failed, t)
        | some valid ↦ create_validated valid req t
      ] in
      if lacks_field req then (bad_account, t) else answer
