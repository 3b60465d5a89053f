-- ===== src/Tests/Dashboards.antt =====
-- The dashboard: a day's steps of its cache, the fallback, and the summary.
use exotel_monitoring_platfo.Prelude.{
  ℕ, ◌≡◌, refl, ◌&&◌, ◌||◌, not, ◌==◌, arith, false, List, [], ◌∷◌, map, Option, none, some, Bool,
  true, Text, codes,
}
use exotel_monitoring_platfo.Models.{CallMetricsSnapshot}
use exotel_monitoring_platfo.Snapshots.Accumulate.{new_snapshot}
use exotel_monitoring_platfo.Repository.Snapshots.{upsert_metrics_row, get_call_metrics_snapshot}
use exotel_monitoring_platfo.Repository.Snapshots.Keys.{IsNewest}
use exotel_monitoring_platfo.Handlers.Dashboard.{
  Faults, CallsRequest, read_calls, fill_cache, cache_delete, dashboard_calls, parse_uint,
  day_of_request,
}
use exotel_monitoring_platfo.Handlers.Dashboard.Coherent.{
  Fill, DayStore, DayRun, with_fill, overtake, without_copy, no_step, then_step, read, fill,
  write_row, delete_copy, expire,
}
use exotel_monitoring_platfo.Handlers.Dashboard.Current.{told, no_copies, answers_current}
use exotel_monitoring_platfo.Handlers.Dashboard.Fallback.{fallback_told, falls_back_to_newest}
use exotel_monitoring_platfo.Handlers.Dashboard.Summary.{
  SummaryFaults, SummaryRow, SummaryTables, get_active_accounts, summary_row, dashboard_summary,
}
use exotel_monitoring_platfo.Handlers.Dashboard.Recounted.{
  rows_told, summary_covers, summary_recounted, recounted_tables,
}
use exotel_monitoring_platfo.Tests.Fixtures.{whole, account, exophone}
use exotel_monitoring_platfo.Tests.Stored.{mysql}

abbrev no_date : Text → Option ℕ
no_date s = none

abbrev no_faults : Faults
no_faults = record {
  read_fails = false;
  write_fails = false;
  exact_fails = false;
  latest_fails = false;
}

abbrev of_three : CallsRequest
of_three = record { id = codes "3"; date = [] }

abbrev rows_of_three : List (CallMetricsSnapshot ℕ)
rows_of_three = new_snapshot whole 1 3 0 ∷ []

abbrev busier : CallMetricsSnapshot ℕ
busier = record (new_snapshot whole 1 3 0) { total_calls = 4 }

abbrev started : DayStore ℕ
started = record {
  rows = rows_of_three;
  cache = no_copies;
  fills = [];
  to_delete = λ k. false;
  outdated = λ k. false;
}

abbrev read_once : DayStore ℕ
read_once = record started {
  fills =
      with_fill (parse_uint of_three.id)
        (read_calls no_date no_faults 0 of_three rows_of_three no_copies).1 [];
}

abbrev first_row : CallMetricsSnapshot ℕ
first_row = new_snapshot whole 1 3 0

abbrev on_its_way : Bool → Fill ℕ
on_its_way overtaken = record { key = 3; row = first_row; overtaken = overtaken }

-- one request has read; an upsert overtakes it, its filling comes after the deletion, and the outdated
-- copy expires
abbrev written : DayStore ℕ
written = record {
  rows = upsert_metrics_row busier rows_of_three;
  cache = no_copies;
  fills = map (overtake busier.exophone_id) read_once.fills;
  to_delete = λ k. k == busier.exophone_id || false;
  outdated = λ k. false;
}

abbrev deleted : DayStore ℕ
deleted = record (without_copy 3 written) { to_delete = λ k. not (k == 3) && written.to_delete k }

abbrev filled : DayStore ℕ
filled = record {
  rows = deleted.rows;
  cache = fill_cache false 3 (some first_row) deleted.cache;
  fills = [];
  to_delete = deleted.to_delete;
  outdated = λ k. k == 3 && true || deleted.outdated k;
}

abbrev expired : DayStore ℕ
expired = without_copy 3 filled

-- the next request reads the new row and fills the cache with it
abbrev read_again : DayStore ℕ
read_again = record expired {
  fills =
      with_fill (parse_uint of_three.id)
        (read_calls no_date no_faults 0 of_three expired.rows expired.cache).1 [];
}

abbrev filled_again : DayStore ℕ
filled_again = record {
  rows = read_again.rows;
  cache = fill_cache false 3 (some busier) read_again.cache;
  fills = [];
  to_delete = read_again.to_delete;
  outdated = λ k. k == 3 && false || read_again.outdated k;
}

overtaken_run : DayRun no_date 0 started filled
unfolding new_snapshot parse_uint read_calls with_fill
overtaken_run =
    then_step started deleted filled
      (then_step started written deleted
        (then_step started read_once written
          (then_step started started read_once (no_step started) (read started no_faults of_three))
          (write_row read_once busier))
        (delete_copy written 3))
      (fill deleted [] [] (on_its_way true) false refl)

current_run : DayRun no_date 0 started filled_again
unfolding new_snapshot parse_uint read_calls with_fill upsert_metrics_row cache_delete
current_run =
    then_step started read_again filled_again
      (then_step started expired read_again
        (then_step started filled expired overtaken_run (expire filled 3))
        (read expired no_faults of_three))
      (fill read_again [] [] (record { key = 3; row = busier; overtaken = false }) false refl)

answers_current_example :
    told (read_calls no_date no_faults 0 of_three filled_again.rows filled_again.cache).0
    ≡ told (read_calls no_date no_faults 0 of_three filled_again.rows no_copies).0
unfolding new_snapshot parse_uint
answers_current_example =
    answers_current no_date 0 started filled_again no_faults of_three (λ k. refl) refl current_run
      refl refl refl

-- the copy of an overtaken request is not the row of the table, with no deletion to come
outdated_copy :
    (filled.to_delete 3 ≡ false)
    × (filled.cache 3 ≡ some first_row)
    × (get_call_metrics_snapshot 3 0 filled.rows ≡ some busier)
unfolding new_snapshot fill_cache upsert_metrics_row get_call_metrics_snapshot
outdated_copy = (refl, refl, refl)

falls_back_to_newest_example :
    (latest : Option (CallMetricsSnapshot ℕ)) × IsNewest 3 rows_of_three latest
    × (dashboard_calls no_date no_faults 1 of_three rows_of_three no_copies
        ≡ (fallback_told 1 3 latest, no_copies))
unfolding new_snapshot parse_uint get_call_metrics_snapshot day_of_request
falls_back_to_newest_example =
    falls_back_to_newest no_date no_faults 1 of_three rows_of_three no_copies refl refl refl refl
      refl refl

abbrev working : SummaryFaults
working = record {
  cache_read_fails = false;
  cache_write_fails = false;
  accounts_fail = false;
  snapshots_fail = false;
  counts_fail = false;
}

abbrev tables : SummaryTables ℕ
tables = record { accounts = account ∷ []; exophones = exophone ∷ []; dashboards = [] }

summary_covers_example :
    map
      (λ (r : SummaryRow ℕ). r.account_id)
      (rows_told (dashboard_summary whole working 0 tables none).0)
    ≡ 1 ∷ []
unfolding get_active_accounts
summary_covers_example = summary_covers whole working 0 tables refl

-- two rows of the account and the day, one of another day
abbrev day_rows : List (CallMetricsSnapshot ℕ)
day_rows =
    record (new_snapshot whole 1 3 0) { total_calls = 4; connected_calls = 3; failed_calls = 1 }
    ∷ record (new_snapshot whole 1 2 0) { total_calls = 2; no_answer_calls = 1 }
    ∷ record (new_snapshot whole 1 3 1) { total_calls = 9 }
    ∷ []

summary_recounted_example :
    let row =
      summary_row whole working 0
        (recounted_tables whole mysql working 0 account day_rows tables)
        account in
    (row.account_id ≡ 1)
    × (row.snapshot_date ≡ 0)
    × (row.total_exophones ≡ 1)
    × (row.active_exophones ≡ 1)
    × (row.total_calls ≡ 6)
    × (row.failed_calls ≡ 2)
    × (row.success_rate ≡ 3)
unfolding new_snapshot
summary_recounted_example =
    summary_recounted whole mysql working 0 account day_rows tables refl (omega arith)
