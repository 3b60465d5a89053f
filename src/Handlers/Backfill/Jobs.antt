-- ===== src/Handlers/Backfill/Jobs.antt =====
-- The backfills of one exophone and date (internal/handlers/backfill.go): the map of jobs, the goroutine
-- that BackfillExophoneSnapshot starts, and BackfillStatus. The map holds pointers: a job is a number of
-- the heap. The key "%d-%s" is the pair of the id and the date, and the run of a goroutine is one step.
pub mod Tracked
pub mod Single
use exotel_monitoring_platfo.Prelude.{
  ℕ, zero, suc, ◌≡◌, Bool, true, false, ◌&&◌, List, [], ◌∷◌, ◌++◌, Option, none, some, Text,
  text_eq, is_empty, if◌then◌else◌, ◌==◌, pos,
}
use exotel_monitoring_platfo.Models.{Instant, Exophone, Account, MonitoringJob}
use exotel_monitoring_platfo.Workers.Progress.{credential}
use exotel_monitoring_platfo.Effects.{Env, Credentials}
use exotel_monitoring_platfo.Handlers.Rebuild.{Stores}
use exotel_monitoring_platfo.Handlers.Backfill.{
  BackfillError, BackfillEnd, backfill_failed, backfill_done, run_backfill, skips_logs,
}

abbrev pub Key : Type 0
Key = ℕ × Text

-- `==` on keys
abbrev pub key_eq : Key → Key → Bool
key_eq (id, date) (id', date') = id == id' && text_eq date date'

pub data JobStatus : Type 0 where
  running done error : JobStatus

pub record BackfillJob (R : Type 0) : Type 0 where
  pub key : Key
  pub status : JobStatus
  pub error_message : Option BackfillError
  pub total_calls : ℕ
  pub answer_rate : R
  pub pages_hit : ℕ
  pub finished_at : Option Instant

-- what the closure of the goroutine has captured
pub record Goroutine : Type 0 where
  pub key : Key
  pub job : ℕ
  pub ep : Exophone
  pub acc : Account
  pub snap_date : ℕ
  pub skip_logs : Bool
  pub creds : Credentials

pub record Backfills (R : Type 0) : Type 0 where
  pub jobs : Key → Option ℕ
  pub heap : ℕ → BackfillJob R
  pub next : ℕ
  pub goroutines : List Goroutine
  pub stores : Stores R

unfoldable pub is_running : JobStatus → Bool
is_running running = true
is_running done = false
is_running error = false

pub data BackfillReply : Type 0 where
  invalid_id invalid_date exophone_not_found account_error conflict accepted : BackfillReply

-- What the queries of the handler find, and the parser of dates.
pub record BackfillQueries : Type 0 where
  pub today : Text
  pub parse_date : Text → Option ℕ
  pub exophone_by_id : ℕ → Option Exophone
  pub account_by_id : ℕ → Option Account
  pub decrypt : Text → Option Text

module _ {R : Type 0} (zero_rate : R) where
  -- &backfillJob{…}
  unfoldable pub new_job : Key → BackfillJob R
  new_job key = record {
    key = key;
    status = running;
    error_message = none;
    total_calls = 0;
    answer_rate = zero_rate;
    pages_hit = 0;
    finished_at = none;
  }

  -- backfillJobs[key] = job, and go func() { … }()
  unfoldable pub launch : Goroutine → Backfills R → Backfills R
  unfolding new_job
  launch g s = record s {
    jobs = λ k. if key_eq g.key k then some s.next else s.jobs k;
    heap = λ r. if r == s.next then new_job g.key else s.heap r;
    next = suc s.next;
    goroutines = record g { job = s.next } ∷ s.goroutines;
  }

  -- existing, ok := backfillJobs[key]; ok && existing.Status == "running"
  unfoldable pub shown_running : Key → Backfills R → Bool
  unfolding is_running
  shown_running key s = elim (s.jobs key) [ none ↦ false | some r ↦ is_running (s.heap r).status ]

  unfoldable pub start_backfill : Goroutine → Backfills R → BackfillReply × Backfills R
  unfolding shown_running launch
  start_backfill g s = if shown_running g.key s then (conflict, s) else (accepted, launch g s)

  unfoldable pub finish_job : Instant → BackfillEnd R → BackfillJob R → BackfillJob R
  finish_job now (backfill_failed err) job = record job {
    status = error;
    error_message = some err;
    finished_at = some now;
  }
  finish_job now (backfill_done total rate pages) job = record job {
    status = done;
    total_calls = total;
    answer_rate = rate;
    pages_hit = pages;
    finished_at = some now;
  }

  -- the goroutine between those that started after it and before it runs and ends
  unfoldable pub end_backfill :
      Env R
      → (ℕ → Option MonitoringJob)
      → List Goroutine
      → Goroutine
      → List Goroutine
      → Backfills R
      → Backfills R
  unfolding finish_job run_backfill
  end_backfill env calls_job later g earlier s =
      let (end, stores) =
        run_backfill env calls_job g.ep g.acc g.key.1 g.snap_date g.skip_logs g.creds s.stores in
      record s {
        heap = λ r. if r == g.job then finish_job env.completed_at end (s.heap r) else s.heap r;
        goroutines = later ++ earlier;
        stores = stores;
      }

  module _ (q : BackfillQueries) where
    -- what the goroutine captures, before it has its job; the credentials are decrypted
    unfoldable pub new_goroutine : ℕ → Text → Text → ℕ → Exophone → Account → Goroutine
    unfolding skips_logs credential
    new_goroutine exophone_id date skip_query snap_date ep acc = record {
      key = (exophone_id, date);
      job = 0;
      ep = ep;
      acc = acc;
      snap_date = snap_date;
      skip_logs = skips_logs ep skip_query;
      creds = record {
        sid = acc.sid;
        subdomain = acc.subdomain;
        api_key = credential q.decrypt acc.api_key;
        api_token = credential q.decrypt acc.api_token;
      };
    }

    unfoldable pub start_for :
        ℕ → Text → Text → ℕ → Exophone → Option Account → Backfills R → BackfillReply × Backfills R
    unfolding start_backfill new_goroutine
    start_for exophone_id date skip_query snap_date ep none s = (account_error, s)
    start_for exophone_id date skip_query snap_date ep (some acc) s =
        start_backfill (new_goroutine exophone_id date skip_query snap_date ep acc) s

    unfoldable pub start_on :
        ℕ → Text → Text → ℕ → Option Exophone → Backfills R → BackfillReply × Backfills R
    unfolding start_for
    start_on exophone_id date skip_query snap_date none s = (exophone_not_found, s)
    start_on exophone_id date skip_query snap_date (some ep) s =
        start_for exophone_id date skip_query snap_date ep (q.account_by_id ep.account_id) s

    unfoldable pub start_at : ℕ → Text → Text → Option ℕ → Backfills R → BackfillReply × Backfills R
    unfolding start_on
    start_at exophone_id date skip_query none s = (invalid_date, s)
    start_at exophone_id date skip_query (some snap_date) s =
        start_on exophone_id date skip_query snap_date (q.exophone_by_id exophone_id) s

    unfoldable pub backfill_exophone_snapshot :
        ℕ → Text → Text → Backfills R → BackfillReply × Backfills R
    unfolding start_at
    backfill_exophone_snapshot exophone_id query_date skip_query s =
        let date = if is_empty query_date then q.today else query_date in
        if exophone_id == 0
        then (invalid_id, s)
        else start_at exophone_id date skip_query (q.parse_date date) s

  -- BackfillStatus: `none` is 404. The figures of the job are shown where it is done.
  unfoldable pub backfill_status : Key → Backfills R → Option (BackfillJob R)
  backfill_status key s = elim (s.jobs key) [ none ↦ none | some r ↦ some (s.heap r) ]

  pub data BackfillStep : Backfills R → Backfills R → Type 0 where
    requested :
        (q : BackfillQueries) (exophone_id : ℕ) (query_date skip_query : Text) (s : Backfills R)
        → BackfillStep s (backfill_exophone_snapshot q exophone_id query_date skip_query s).1
    ended :
        (env : Env R) (calls_job : ℕ → Option MonitoringJob) (later : List Goroutine)
        (g : Goroutine) (earlier : List Goroutine) (s : Backfills R)
        → s.goroutines ≡ later ++ g ∷ earlier
        → BackfillStep s (end_backfill env calls_job later g earlier s)

  -- a server that has just started
  unfoldable pub no_backfills : Stores R → Backfills R
  unfolding new_job
  no_backfills stores = record {
    jobs = λ k. none;
    heap = λ r. new_job (0, []);
    next = 0;
    goroutines = [];
    stores = stores;
  }

  pub data Reached (stores : Stores R) : Backfills R → Type 0 where
    initial : Reached stores (no_backfills stores)
    moved : (s s' : Backfills R) → Reached stores s → BackfillStep s s' → Reached stores s'
