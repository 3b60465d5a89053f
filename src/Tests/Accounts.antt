-- ===== src/Tests/Accounts.antt =====
-- An account and an exophone that are added.
use exotel_monitoring_platfo.Prelude.{◌≡◌, refl, false, [], ◌∷◌, none, some, codes}
use exotel_monitoring_platfo.Models.{calls}
use exotel_monitoring_platfo.Exotel.Numbers.{replied}
use exotel_monitoring_platfo.Handlers.Accounts.{Registry}
use exotel_monitoring_platfo.Handlers.Accounts.Add.{AddEnv, add_exophone, exophone_added}
use exotel_monitoring_platfo.Handlers.Accounts.Create.{
  CreateEnv, CreateAccountRequest, create_account, account_created,
}
use exotel_monitoring_platfo.Handlers.Accounts.Sync.{SyncEnv}
use exotel_monitoring_platfo.Tests.Fixtures.{account, exophone, job_of}

abbrev registry : Registry
registry = record {
  accounts = account ∷ [];
  monitored = record { exophones = exophone ∷ []; jobs = job_of calls ∷ [] };
  next_account = 2;
  next_exophone = 4;
  next_job = 8;
}

abbrev add_env : AddEnv
add_env = record {
  now = 5;
  status_of = λ creds number. some 200;
  configs = none;
  decrypt = λ s. none;
  lookup_fails = false;
  fails = λ n. false;
}

abbrev create_env : CreateEnv
create_env = record {
  now = 5;
  pages =
      λ creds page. replied 200 (record { numbers = codes "07948224931" ∷ []; next_page_uri = [] });
  configs = none;
  encrypt = λ s. some s;
  fails = λ n. false;
}

abbrev organisation : CreateAccountRequest
organisation = record {
  account_name = codes "Other";
  sid = codes "other1";
  api_key = codes "key";
  api_token = codes "token";
  subdomain = codes "api.in.exotel.com";
  exophones = record { number = codes "7948224931"; priority = [] } ∷ [];
}

abbrev sync_env : SyncEnv
sync_env = record {
  now = 5;
  pages =
      λ creds page. replied 200 (record { numbers = codes "07948224931" ∷ []; next_page_uri = [] });
  configs = none;
  decrypt = λ s. none;
  existing_fails = false;
  fails = λ n. false;
}

-- the two requests succeed, so that the replies tell of new rows
added_number :
    (add_exophone add_env
      (codes "1")
      (some (record { number = codes "+917948224931"; priority = codes "p0" }))
      registry).0
    ≡ exophone_added record {
      exophone_id = 4;
      number = codes "07948224931";
      priority = codes "P0";
      freq = 15;
      job_ids = 8 ∷ 9 ∷ 10 ∷ [];
    }
unfolding add_exophone
added_number = refl

created_account : (create_account create_env (some organisation) registry).0 ≡ account_created 2 1 3
unfolding create_account
created_account = refl
