-- ===== src/Tests/Bulks.antt =====
-- A bulk backfill of one exophone and date, and the tables of snapshots.
use exotel_monitoring_platfo.Prelude.{
  ℕ, ◌≡◌, refl, false, [], ◌∷◌, Option, none, some, Text, codes, count_if, length, arith,
}
use exotel_monitoring_platfo.Models.{MonitoringJob}
use exotel_monitoring_platfo.Handlers.Rebuild.{Stores}
use exotel_monitoring_platfo.Handlers.Backfill.Bulk.{
  Server, BulkWork, BulkRequest, BulkTask, working, request_bulk, load_bulk, take, end_task,
  end_bulk, no_bulk, tasks_of, cache_credentials, requested, loaded, taken, ended, Reached, initial,
  moved,
}
use exotel_monitoring_platfo.Handlers.Backfill.Bulk.Progress.{
  IsWorking, result_of, task_of, bulk_progress, bulk_complete,
}
use exotel_monitoring_platfo.Tests.Fixtures.{env, idle_world, account, exophone}

abbrev stores : Stores ℕ
stores = record { world = idle_world; sids = [] }

abbrev body : BulkRequest
body = record { dates = codes "2024-05-01" ∷ []; skip_call_logs = false }

abbrev parse : Text → Option ℕ
parse s = some 19_844

abbrev task : BulkTask
task = record { ep = exophone; date = codes "2024-05-01"; skip_logs = false }

abbrev claimed : Server ℕ
claimed = (request_bulk parse body.dates (no_bulk stores)).1

abbrev begun : Server ℕ
begun = (load_bulk (λ s. none) (λ id. some account) body (some (exophone ∷ [])) claimed).1

abbrev queue : BulkWork
queue = record {
  enqueued = task ∷ [];
  cred_cache = cache_credentials (λ s. none) (λ id. some account) (exophone ∷ []) [];
  queued = task ∷ [];
  in_flight = [];
}

abbrev flying : Server ℕ
flying = record begun { phase = working (take task [] queue) }

abbrev no_job : ℕ → Option MonitoringJob
no_job id = none

abbrev landed : Server ℕ
landed = end_task env no_job parse (some account) [] task [] (take task [] queue) flying

-- no task is left
abbrev last : BulkWork
last = record queue { queued = []; in_flight = [] }

begun-Reached : Reached stores begun
unfolding no_bulk request_bulk
begun-Reached =
    moved claimed begun
      (moved (no_bulk stores) claimed initial (requested parse body.dates (no_bulk stores)))
      (loaded (λ s. none) (λ id. some account) body (some (exophone ∷ [])) claimed refl)

flying-Reached : Reached stores flying
unfolding no_bulk request_bulk load_bulk tasks_of
flying-Reached =
    moved begun flying begun-Reached (taken task [] queue begun refl refl (omega arith))

landed-Reached : Reached stores landed
unfolding take
landed-Reached =
    moved flying landed flying-Reached
      (ended env no_job parse (some account) [] task [] (take task [] queue) flying refl refl)

bulk_progress_example : IsWorking queue begun.bulk
unfolding no_bulk request_bulk load_bulk tasks_of
bulk_progress_example = bulk_progress queue begun-Reached refl

bulk_complete_example :
    ((end_bulk landed).bulk.running ≡ false)
    × ((end_bulk landed).bulk.finished ≡ (end_bulk landed).bulk.total)
    × (length (end_bulk landed).bulk.results ≡ (end_bulk landed).bulk.total)
    × ((id : ℕ) (date : Text)
        → count_if (result_of id date) (end_bulk landed).bulk.results
          ≡ count_if (task_of id date) last.enqueued)
unfolding end_task take
bulk_complete_example = bulk_complete last landed-Reached refl refl refl
