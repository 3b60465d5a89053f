-- ===== src/Handlers/Backfill/Bulk.antt =====
-- BulkBackfill and BulkBackfillStatus (internal/handlers/backfill.go): a backfill of every monitored
-- exophone and date by three workers that take tasks from a channel. The run of a task is one step, in
-- which the mutex is taken once. `enqueued` keeps all tasks that went into the channel.
pub mod Progress
use exotel_monitoring_platfo.Prelude.{
  ℕ, zero, suc, ◌+◌, ◌*◌, ◌<◌, ◌≡◌, Bool, true, false, ◌||◌, List, [], ◌∷◌, ◌++◌, Option, none,
  some, Text, if◌then◌else◌, ◌==◌, length,
}
use exotel_monitoring_platfo.Models.{Exophone, Account, MonitoringJob}
use exotel_monitoring_platfo.Workers.Progress.{credential}
use exotel_monitoring_platfo.Effects.{Env, Credentials}
use exotel_monitoring_platfo.Handlers.Rebuild.{Stores}
use exotel_monitoring_platfo.Handlers.Backfill.{
  BackfillEnd, backfill_failed, backfill_done, account_not_found, run_bulk_task,
}

-- task
pub record BulkTask : Type 0 where
  pub ep : Exophone
  pub date : Text
  pub skip_logs : Bool

-- bulkResult; its Status, Error and figures are the end of the task
pub record BulkResult (R : Type 0) : Type 0 where
  pub exophone_id : ℕ
  pub exophone_number : Text
  pub date : Text
  pub outcome : BackfillEnd R

-- bulkBackfillState
pub record Bulk (R : Type 0) : Type 0 where
  pub total : ℕ
  pub finished : ℕ
  pub failures : ℕ
  pub running : Bool
  pub results : List (BulkResult R)

-- creds, by account
pub record ApiKeys : Type 0 where
  pub api_key : Text
  pub api_token : Text

abbrev pub CredCache : Type 0
CredCache = List (ℕ × ApiKeys)

pub record BulkWork : Type 0 where
  pub enqueued : List BulkTask
  pub cred_cache : CredCache
  pub queued : List BulkTask
  pub in_flight : List BulkTask

pub data Phase : Type 0 where
  idle loading : Phase
  working : BulkWork → Phase

pub record Server (R : Type 0) : Type 0 where
  pub bulk : Bulk R
  pub phase : Phase
  pub stores : Stores R

pub record BulkRequest : Type 0 where
  pub dates : List Text
  pub skip_call_logs : Bool

pub data BulkReply : Type 0 where
  dates_required conflict load_error : BulkReply
  invalid_date : Text → BulkReply
  started : (total_jobs dates exophones : ℕ) → BulkReply

unfoldable pub lookup_creds : ℕ → CredCache → Option ApiKeys
lookup_creds account_id [] = none
lookup_creds account_id ((id, creds) ∷ rest) =
    let found = lookup_creds account_id rest in if id == account_id then some creds else found

module _ (decrypt : Text → Option Text) (account_by_id : ℕ → Option Account) where
  -- the credentials of an account that is not cached yet; one that is not found is left out
  unfoldable pub cache_account : ℕ → Option ApiKeys → Option Account → CredCache → CredCache
  unfolding credential
  cache_account account_id (some creds) acc cache = cache
  cache_account account_id none none cache = cache
  cache_account account_id none (some acc) cache =
      (
        account_id,
        record {
          api_key = credential decrypt acc.api_key;
          api_token = credential decrypt acc.api_token;
        },
      )
      ∷ cache

  unfoldable pub cache_credentials : List Exophone → CredCache → CredCache
  unfolding cache_account lookup_creds
  cache_credentials [] cache = cache
  cache_credentials (ep ∷ eps) cache = cache_credentials eps (
      cache_account ep.account_id (lookup_creds ep.account_id cache) (account_by_id ep.account_id)
        cache)

unfoldable pub tasks_for : BulkRequest → Exophone → List Text → List BulkTask
tasks_for body ep [] = []
tasks_for body ep (d ∷ dates) =
    record { ep = ep; date = d; skip_logs = body.skip_call_logs || ep.skip_call_logs == 1 }
    ∷ tasks_for body ep dates

-- the tasks in the order in which they are enqueued
unfoldable pub tasks_of : BulkRequest → List Exophone → List BulkTask
unfolding tasks_for
tasks_of body [] = []
tasks_of body (ep ∷ eps) = tasks_for body ep body.dates ++ tasks_of body eps

-- the first date that does not parse
unfoldable pub bad_date : (Text → Option ℕ) → List Text → Option Text
bad_date parse [] = none
bad_date parse (d ∷ dates) = elim (parse d) [
  | none ↦ some d
  | some snap_date ↦ bad_date parse dates
]

-- for t := range taskCh
unfoldable pub take : BulkTask → List BulkTask → BulkWork → BulkWork
take t rest w = record w { queued = rest; in_flight = t ∷ w.in_flight }

-- the credentials of a task: those of an account that was not cached are empty
unfoldable pub task_creds : CredCache → BulkTask → Account → Credentials
unfolding lookup_creds
task_creds cache t acc =
    let cached : ApiKeys = elim (lookup_creds t.ep.account_id cache) [
      | none ↦ record { api_key = []; api_token = [] }
      | some creds ↦ creds
    ] in
    record {
      sid = acc.sid;
      subdomain = acc.subdomain;
      api_key = cached.api_key;
      api_token = cached.api_token;
    }

-- concurrency = 3
abbrev pub concurrency : ℕ
concurrency = 3

module _ {R : Type 0} where
  -- the critical section behind the checks of the dates
  unfoldable pub claim_bulk : Server R → Option BulkReply × Server R
  claim_bulk s = if s.bulk.running then (some conflict, s) else (
    none,
    record s {
      bulk = record {
        total = s.bulk.total;
        finished = 0;
        failures = 0;
        running = true;
        results = [];
      };
      phase = loading;
    },
  )

  unfoldable pub check_dates : Option Text → Server R → Option BulkReply × Server R
  unfolding claim_bulk
  check_dates (some d) s = (some (invalid_date d), s)
  check_dates none s = claim_bulk s

  -- the handler until it loads the exophones: `none` goes on
  unfoldable pub request_bulk :
      (Text → Option ℕ) → List Text → Server R → Option BulkReply × Server R
  unfolding check_dates bad_date
  request_bulk parse [] s = (some dates_required, s)
  request_bulk parse (d ∷ dates) s = check_dates (bad_date parse (d ∷ dates)) s

  unfoldable pub give_up : Server R → BulkReply × Server R
  give_up s = (load_error, record s { bulk = record b { running = false }; phase = idle })
    where
      b : Bulk R
      b = s.bulk

  -- the rest of the handler, by what GetMonitoredExophones finds
  unfoldable pub load_bulk :
      (Text → Option Text)
      → (ℕ → Option Account)
      → BulkRequest
      → Option (List Exophone)
      → Server R
      → BulkReply × Server R
  unfolding give_up tasks_of cache_credentials
  load_bulk decrypt account_by_id body none s = give_up s
  load_bulk decrypt account_by_id body (some []) s = give_up s
  load_bulk decrypt account_by_id body (some (ep ∷ eps)) s = (
    started (length (ep ∷ eps) * length body.dates) (length body.dates) (length (ep ∷ eps)),
    record s {
      bulk = record b { total = length (ep ∷ eps) * length body.dates };
      phase = working (record {
        enqueued = tasks_of body (ep ∷ eps);
        cred_cache = cache_credentials decrypt account_by_id (ep ∷ eps) [];
        queued = tasks_of body (ep ∷ eps);
        in_flight = [];
      });
    },
  )
    where
      b : Bulk R
      b = s.bulk

  module _ (env : Env R) (calls_job : ℕ → Option MonitoringJob) (parse : Text → Option ℕ) where
    -- a task, by what GetAccountByID finds; its date has been checked
    unfoldable pub run_task :
        CredCache → BulkTask → Option Account → Stores R → BackfillEnd R × Stores R
    unfolding run_bulk_task task_creds
    run_task cache t none st = (backfill_failed account_not_found, st)
    run_task cache t (some acc) st =
        let snap_date : ℕ = elim (parse t.date) [ none ↦ 0 | some d ↦ d ] in
        run_bulk_task env calls_job t.ep acc t.date snap_date t.skip_logs (task_creds cache t acc)
          st

  unfoldable pub failures_of : BackfillEnd R → ℕ
  failures_of (backfill_failed err) = 1
  failures_of (backfill_done total rate pages) = 0

  -- bulk.Failed++ where the task failed, bulk.Done++, and the result
  unfoldable pub record_end : BulkTask → BackfillEnd R → Bulk R → Bulk R
  unfolding failures_of
  record_end t end b = record b {
    finished = b.finished + 1;
    failures = b.failures + failures_of end;
    results =
        b.results
        ++ record {
          exophone_id = t.ep.id;
          exophone_number = t.ep.exophone_number;
          date = t.date;
          outcome = end;
        }
          ∷ [];
  }

  -- the task between those that were taken after it and before it ends
  unfoldable pub end_task :
      Env R
      → (ℕ → Option MonitoringJob)
      → (Text → Option ℕ)
      → Option Account
      → List BulkTask
      → BulkTask
      → List BulkTask
      → BulkWork
      → Server R
      → Server R
  unfolding run_task record_end
  end_task env calls_job parse acc later t earlier w s =
      let (end, stores) = run_task env calls_job parse w.cred_cache t acc s.stores in
      record {
        bulk = record_end t end s.bulk;
        phase = working (record w { in_flight = later ++ earlier });
        stores = stores;
      }

  -- behind wg.Wait()
  unfoldable pub end_bulk : Server R → Server R
  end_bulk s = record s { bulk = record b { running = false }; phase = idle }
    where
      b : Bulk R
      b = s.bulk

  pub data BulkStep : Server R → Server R → Type 0 where
    requested :
        (parse : Text → Option ℕ) (dates : List Text) (s : Server R)
        → BulkStep s (request_bulk parse dates s).1
    loaded :
        (decrypt : Text → Option Text) (account_by_id : ℕ → Option Account) (body : BulkRequest)
        (found : Option (List Exophone)) (s : Server R)
        → s.phase ≡ loading
        → BulkStep s (load_bulk decrypt account_by_id body found s).1
    taken :
        (t : BulkTask) (rest : List BulkTask) (w : BulkWork) (s : Server R)
        → s.phase ≡ working w
        → w.queued ≡ t ∷ rest
        → length w.in_flight < concurrency
        → BulkStep s (record s { phase = working (take t rest w) })
    ended :
        (env : Env R) (calls_job : ℕ → Option MonitoringJob) (parse : Text → Option ℕ)
        (acc : Option Account) (later : List BulkTask) (t : BulkTask) (earlier : List BulkTask)
        (w : BulkWork) (s : Server R)
        → s.phase ≡ working w
        → w.in_flight ≡ later ++ t ∷ earlier
        → BulkStep s (end_task env calls_job parse acc later t earlier w s)
    waited :
        (w : BulkWork) (s : Server R)
        → s.phase ≡ working w
        → w.queued ≡ []
        → w.in_flight ≡ []
        → BulkStep s (end_bulk s)

  -- var bulk = &bulkBackfillState{}
  unfoldable pub no_bulk : Stores R → Server R
  no_bulk stores = record {
    bulk = record { total = 0; finished = 0; failures = 0; running = false; results = [] };
    phase = idle;
    stores = stores;
  }

  pub data Reached (stores : Stores R) : Server R → Type 0 where
    initial : Reached stores (no_bulk stores)
    moved : (s s' : Server R) → Reached stores s → BulkStep s s' → Reached stores s'
