-- ===== src/Repository/CallLogs.antt =====
-- SaveCallLogs (internal/repository/transaction_repo.go) and GetCallLogsForReprocess
-- (internal/repository/snapshot_repo.go). A start is written as the wall clock of its own zone; which
-- second that is in the column's calendar is a parameter.
pub mod Kept
use exotel_monitoring_platfo.Prelude.{
  ℕ, zero, suc, ◌*◌, Bool, true, false, ◌&&◌, List, [], ◌∷◌, ◌++◌, Option, none, some, to_lower,
  text_eq, if◌then◌else◌, ◌==◌, ltb, leb, length, drop, any_of, keep_if,
}
use exotel_monitoring_platfo.Models.{Time, CallLog}
use exotel_monitoring_platfo.Handlers.Paging.{take_rows, order_by}

-- uk_cl_exophone_callsid, whose text is compared without regard to case
unfoldable pub same_call : CallLog → CallLog → Bool
same_call a b =
    a.exophone_id == b.exophone_id && text_eq (to_lower a.call_sid) (to_lower b.call_sid)

-- one INSERT IGNORE: a row whose key is there is passed over
unfoldable pub insert_ignore : List CallLog → List CallLog → List CallLog
unfolding same_call
insert_ignore [] rows = rows
insert_ignore (log ∷ logs) rows =
    insert_ignore logs (if any_of (same_call log) rows then rows else rows ++ log ∷ [])

abbrev pub batch_size : ℕ
batch_size = 500

-- the loop over the batches from number `i` on, of which the first that fails is the last
unfoldable pub save_batches : (ℕ → Bool) → ℕ → ℕ → List CallLog → List CallLog → Bool × List CallLog
unfolding insert_ignore
save_batches fails zero i logs rows = (true, rows)
save_batches fails (suc n) i [] rows = (true, rows)
save_batches fails (suc n) i (log ∷ logs) rows =
    let rest =
      save_batches fails n (suc i) (drop batch_size (log ∷ logs))
        (insert_ignore (take_rows batch_size (log ∷ logs)) rows) in
    if fails i then (false, rows) else rest

-- each round takes a row at least
unfoldable pub save_log_rows : (ℕ → Bool) → List CallLog → List CallLog → Bool × List CallLog
unfolding save_batches
save_log_rows fails logs rows = save_batches fails (length logs) 0 logs rows

module _ (second_of : Time → ℕ) where
  -- start_time >= dayStart AND start_time < dayEnd, which NULL is not
  abbrev pub starts_on : ℕ → Option Time → Bool
  starts_on day none = false
  starts_on day (some t) = leb (day * 86_400) (second_of t) && ltb (second_of t) (suc day * 86_400)

  unfoldable pub is_of_day : ℕ → ℕ → CallLog → Bool
  is_of_day exophone_id day log = log.exophone_id == exophone_id && starts_on day log.start_time

  abbrev pub start_second : Option Time → ℕ
  start_second none = 0
  start_second (some t) = second_of t

  -- rows with the same start come in the table's order
  unfoldable pub get_call_logs_for_reprocess : ℕ → ℕ → List CallLog → List CallLog
  unfolding is_of_day order_by
  get_call_logs_for_reprocess exophone_id day rows =
      order_by (λ (log : CallLog). start_second log.start_time)
        (keep_if (is_of_day exophone_id day) rows)
