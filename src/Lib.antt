-- ===== src/Lib.antt =====
-- A model of the Go server of the Exotel monitoring platform, and proofs about it. The server runs
-- monitoring jobs on a schedule. A job polls one of three endpoints of the vendor for an exophone (a
-- virtual number, VN), stores the raw reply, sums it up into metrics and snapshot rows, and raises
-- alerts. The vendor also pushes heartbeats to a webhook.
--
-- How the parts interact. A scheduler's tick asks internal/repository for the due jobs and submits them
-- to the worker pool (internal/workers/dispatcher.go, pool.go). ExecuteJob (internal/workers/job_worker.go)
-- creates a transaction, reads the account, and runs one of executeHeartbeat, executeCalls and
-- executeStreams; each retries (internal/utils/retry.go) a request of internal/exotel. The calls of a
-- window go through the Redis set of known sids (internal/cache/dedup.go), are summed up by
-- ProcessCallRecords (internal/metrics/engine.go) and added to the row of the day by
-- AccumulateCallMetrics (internal/snapshots/generator.go). Alerts are stored and sent by
-- internal/alerts. A row that has drifted is rebuilt by internal/handlers: reprocess.go from the
-- replies that the runs saved, backfill.go from the vendor. All of them meet in the tables of
-- internal/repository/snapshot_repo.go, which the account's dashboard is summed up from.
--
-- Files and the code they follow:
--   Models/Calls, Jobs, Alerts, Snapshots: the structs and constants of internal/models.
--   Exotel/Types, Http, Streams: the payloads and the small functions of internal/exotel/client.go.
--   Exotel/Calls: FetchCalls and extractAfterCursor (internal/exotel/calls.go); Exotel/Pages and
--     Exotel/Answered prove.
--   Exotel/Heartbeat: FetchHeartbeat (heartbeat.go) and FetchActiveStreams (streams.go);
--     Exotel/Affected proves.
--   Metrics/Legs, Times, Breakdown, Summary/Loop, Summary/Rates: ClassifyLeg, parseExotelTime, the
--     breakdown's merges, and ProcessCallRecords, its loop and what follows the loop
--     (internal/metrics/engine.go). Summary/Counts, Panel, Sums, LegSums, Logs, Order, Append,
--     Breakdown/Merge, Breakdown/Stored and Hours prove.
--   Snapshots/Accumulate, Health: internal/snapshots/generator.go; Snapshots/Rows and Batches prove.
--   Utils/Retry: BackoffDuration and DoWithRetry; Utils/Retry/Laws proves. Utils/Phone: NormalizePhone
--     (internal/utils/phone.go) and dedupeFormats (internal/exotel/client.go).
--   Cache/Dedup: AddCallSids and filterNewRecords; Cache/Once proves.
--   Effects: the writes of a run, in order, and the environment that answers it. Alerts: TriggerAlert
--     and SendSlackAlert (internal/alerts).
--   Workers/Window, Progress, Heartbeats, CallsJob, StreamsJob, Job: internal/workers/job_worker.go.
--     Workers/Traces, Events, Quiet, Settled and Runs prove what a run leaves of its transaction,
--     Workers/Sources what it leaves of the dashboard, Workers/ClientErrors how it takes a 4xx.
--   Workers/Pool: RunDueJobs and the pool, as a step relation; Pool/Invariant and Pool/Ticks prove.
--     Repository/Due: GetDueJobs and
--     AdvanceNextRun (internal/repository/job_repo.go).
--   Handlers/Heartbeat: ExotelHeartbeat and fireVNAlerts (internal/handlers/webhook.go);
--     Handlers/Pushed proves.
--   Handlers/Rebuild: the row and the refresh that reprocess.go and backfill.go share. Handlers/Reprocess:
--     ReprocessExophoneSnapshot and callLogToRecord (internal/handlers/reprocess.go); Reprocess/Unique,
--     Stored, Live and Replies prove. Handlers/Backfill: the run of a backfill
--     (internal/handlers/backfill.go), Backfill/Whole proves; Backfill/Jobs: its map of jobs and its
--     goroutines, Jobs/Tracked and Jobs/Single prove; Backfill/Bulk: BulkBackfill, Bulk/Progress proves.
--   Handlers/Dashboard: DashboardCalls (internal/handlers/dashboard.go) and its cache
--     (internal/cache/cache.go), Dashboard/Branches and Fallback prove; Dashboard/Coherent: the steps of a
--     day, Dashboard/Current proves; Dashboard/Summary: DashboardSummary, Dashboard/Recounted proves.
--   Exotel/Numbers: ListIncomingPhoneNumbers and ValidateExophoneOnAccount (internal/exotel/client.go).
--   Handlers/Accounts: the tables and the transactions of internal/handlers/accounts.go; Accounts/Create:
--     CreateAccount, Accounts/Add: AddExophone, Accounts/Sync: SyncExophones; Accounts/Onboarded,
--     Appended, Growth, Inserts, Whole, Founded and Synced prove.
--   Handlers/Exophones: UpdatePriority, ToggleCron and ToggleSkipCallLogs
--     (internal/handlers/exophones.go, internal/repository/exophone_repo.go); Exophones/Agreement and
--     Toggled prove. Handlers/Paging: parsePage and TodayPerformance; Paging/Cover proves.
--   Repository/CallLogs: SaveCallLogs (internal/repository/transaction_repo.go) and
--     GetCallLogsForReprocess, on the rows of call_logs; CallLogs/Kept proves.
--   Repository/Tables, Snapshots, Recompute: the snapshot tables of internal/repository/snapshot_repo.go
--     as lists of rows; Snapshots/Keys, Snapshots/Growth and Recompute/Agreement prove.
--   Prelude and its children: names passed on from the libraries, tests on numbers, lists, texts.
--   Tests and its children: runs at concrete inputs.
--
-- How the code is read. A string is a list of code points; strings.ToLower is that of ASCII. Integers
-- of a payload are signed; counters and sizes are natural numbers without a bound, which a 64-bit int
-- holds for any number of calls that a day has. An instant is the nanoseconds since the Unix epoch. A
-- float64 is a type with the operations that the code uses and no laws, so that what is proved of a
-- figure holds for every rounding. JSON, the parsers of package time, url.ParseQuery, resty, the
-- decryption, the database and Redis are parameters: a reply, a row, a failure may be anything. A write
-- to the database or the cache is an event in a list; it may fail, by its number. The texts of alerts
-- are constructors with the values that go into them, without the rates; log lines are left out.
-- The health snapshot's goroutine is run in sequence, before the job's next run is set.
--
-- Fuel. The batches of SaveCallLogs have as many rounds as there are rows, of which each takes one at
-- least. The pagination of the calls has 500 rounds and that of the account's numbers 50, which are their
-- own caps, so that they never run out. The retry loop runs
-- MaxRetries + 1 rounds. All else is structural recursion.
--
-- A request of the dashboard is two steps of its day, the read of the cache and the table and the filling
-- of the cache, and other steps may come between them. Its calls before the filling are one step.
-- The inserts of internal/handlers/accounts.go may fail by their number, and do fail on the unique keys of
-- scripts/init.sql; a frequency of 0 is stored as the column's default.
--
-- MySQL compares texts without regard to case and stands in IST; what it rounds is a parameter. The
-- goroutine of a backfill and a task of the bulk backfill are one step each. A date of a backfill is
-- after the Unix epoch.
--
-- Not modelled: the HTTP handlers of settings, streams, alerts and transactions, the lists of
-- internal/handlers/exophones.go other than the day's, the SQL of internal/repository other than that
-- of the due jobs, the call logs, the snapshots and an exophone's switches, the
-- scheduler's clockwork,
-- configuration, logging, server start, encryption, and the commands under cmd. Clocks that are read
-- twice in a run are one reading for each of start, window and end.
pub mod Prelude
pub mod Models
pub mod Exotel
pub mod Cache
pub mod Effects
pub mod Alerts
pub mod Repository
pub mod Workers
pub mod Handlers
pub mod Utils
pub mod Metrics
pub mod Snapshots
pub mod Tests
