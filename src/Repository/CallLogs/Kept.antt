-- ===== src/Repository/CallLogs/Kept.antt =====
-- What a day of call_logs keeps of the rows that SaveCallLogs (internal/repository/transaction_repo.go)
-- is given.
use exotel_monitoring_platfo.Prelude.{
  ℕ, zero, suc, ◌≤◌, ◌≡◌, refl, ap, sym, ◌∙◌, Bool, true, false, List, [], ◌∷◌, ◌++◌, map, All,
  if◌then◌else◌, length, drop, any_of, keep_if, leb, inl, inr, Bool-cases, arith,
}
use mathlib.Core.List.{append_assoc, append-nil}
use exotel_monitoring_platfo.Models.{Time, CallLog}
use exotel_monitoring_platfo.Handlers.Paging.{take_rows, insert_by, order_by}
use exotel_monitoring_platfo.Repository.CallLogs.{
  same_call, insert_ignore, batch_size, save_batches, save_log_rows, is_of_day, start_second,
  get_call_logs_for_reprocess,
}

-- no row has the key of one of the rows that come in, nor have two of these
unfoldable pub AreNew : List CallLog → List CallLog → Type 0
AreNew rows [] = Unit
AreNew rows (log ∷ logs) = (any_of (same_call log) rows ≡ false) × AreNew (rows ++ log ∷ []) logs

module _ {A : Type 0} where
  length-drop : (m : ℕ) (xs : List A) → length (drop m xs) ≤ length xs
  length-drop zero xs = omega arith
  length-drop (suc m) [] = omega arith
  length-drop (suc m) (x ∷ xs) = omega (arith, length-drop m xs)

  keep_if-append :
      (p : A → Bool) (xs ys : List A) → keep_if p (xs ++ ys) ≡ keep_if p xs ++ keep_if p ys
  keep_if-append p [] ys = refl
  keep_if-append p (x ∷ xs) ys = elim (Bool-cases (p x)) [
    | inl kept ↦ rw kept (ap (λ rest. x ∷ rest) (keep_if-append p xs ys))
    | inr left ↦ rw left (keep_if-append p xs ys)
  ]

  keep_if_none : (p : A → Bool) (xs : List A) → All (λ x. p x ≡ false) xs → keep_if p xs ≡ []
  keep_if_none p [] h = refl
  keep_if_none p (x ∷ xs) (left, h) = rw left (keep_if_none p xs h)

  kept_whole : (p : A → Bool) (xs : List A) → All (λ x. p x ≡ true) xs → keep_if p xs ≡ xs
  kept_whole p [] h = refl
  kept_whole p (x ∷ xs) (kept, h) = rw kept (ap (λ rest. x ∷ rest) (kept_whole p xs h))

module _ {A B : Type 0} (f : A → B) (key : B → ℕ) where
  insert_by-map :
      (a : A) (rows : List A)
      → insert_by key (f a) (map f rows) ≡ map f (insert_by (λ r. key (f r)) a rows)
  unfolding insert_by
  insert_by-map a [] = refl
  insert_by-map a (other ∷ rows) = elim (Bool-cases (leb (key (f a)) (key (f other)))) [
    | inl before ↦ rw (before, insert_by) refl
    | inr behind ↦ rw (behind, insert_by) (ap (λ rest. f other ∷ rest) (insert_by-map a rows))
  ]

  -- rows that are made of others come in the order of these
  pub order_by-map :
      (rows : List A) → order_by key (map f rows) ≡ map f (order_by (λ r. key (f r)) rows)
  unfolding order_by
  order_by-map [] = refl
  order_by-map (a ∷ rows) =
      ap (insert_by key (f a)) (order_by-map rows)
      ∙ insert_by-map a (order_by (λ r. key (f r)) rows)

insert_ignore_split :
    (m : ℕ) (logs rows : List CallLog)
    → insert_ignore (drop m logs) (insert_ignore (take_rows m logs) rows) ≡ insert_ignore logs rows
unfolding insert_ignore
insert_ignore_split zero logs rows = refl
insert_ignore_split (suc m) [] rows = refl
insert_ignore_split (suc m) (log ∷ logs) rows =
    insert_ignore_split m logs (if any_of (same_call log) rows then rows else rows ++ log ∷ [])

insert_ignore_new :
    (logs rows : List CallLog) → AreNew rows logs → insert_ignore logs rows ≡ rows ++ logs
unfolding insert_ignore AreNew
insert_ignore_new [] rows h = sym (append-nil rows)
insert_ignore_new (log ∷ logs) rows (new, h) =
    rw (new, insert_ignore) (insert_ignore_new logs (rows ++ log ∷ []) h)
    ∙ append_assoc rows (log ∷ []) logs

saved_whole :
    (fails : ℕ → Bool) (n i : ℕ) (logs rows : List CallLog)
    → ((k : ℕ) → fails k ≡ false)
    → length logs ≤ n
    → save_batches fails n i logs rows ≡ (true, insert_ignore logs rows)
unfolding save_batches insert_ignore
saved_whole fails zero i [] rows works le = refl
saved_whole fails zero i (log ∷ logs) rows works le = absurd (omega (arith, le))
saved_whole fails (suc n) i [] rows works le = refl
saved_whole fails (suc n) i (log ∷ logs) rows works le =
    rw (works i, save_batches)
      (saved_whole fails n (suc i) (drop batch_size (log ∷ logs))
          (insert_ignore (take_rows batch_size (log ∷ logs)) rows) works
          (omega (arith, length-drop 499 logs, le))
        ∙ ap (λ after. (true, after)) (insert_ignore_split batch_size (log ∷ logs) rows))

module _ (second_of : Time → ℕ) (fails : ℕ → Bool) (works : (k : ℕ) → fails k ≡ false) where
  -- New rows of a day that had none are read back in the order of their starts.
  pub saved_and_read :
      (exophone_id day : ℕ) (logs table : List CallLog)
      → AreNew table logs
      → All (λ log. is_of_day second_of exophone_id day log ≡ false) table
      → All (λ log. is_of_day second_of exophone_id day log ≡ true) logs
      → let (saved, later) = save_log_rows fails logs table in
        (saved ≡ true)
        × (get_call_logs_for_reprocess second_of exophone_id day later
            ≡ order_by (λ (log : CallLog). start_second second_of log.start_time) logs)
  unfolding save_log_rows get_call_logs_for_reprocess
  saved_and_read exophone_id day logs table new empty ours =
      let all = saved_whole fails (length logs) 0 logs table works (omega arith) in
      let p = is_of_day second_of exophone_id day in
      (
        ap (λ x. x.0) all,
        ap
              (λ x.
                order_by (λ (log : CallLog). start_second second_of log.start_time) (keep_if p x.1))
              all
            ∙ ap (λ rows. order_by (λ (log : CallLog). start_second second_of log.start_time) rows)
                (ap (keep_if p) (insert_ignore_new logs table new)
                  ∙ keep_if-append p table logs
                  ∙ ap (λ rows. rows ++ keep_if p logs) (keep_if_none p table empty)
                  ∙ kept_whole p logs ours),
      )
