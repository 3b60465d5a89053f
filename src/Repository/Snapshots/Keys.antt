-- ===== src/Repository/Snapshots/Keys.antt =====
-- What the queries of the snapshot tables find behind the upserts (internal/repository/snapshot_repo.go).
use exotel_monitoring_platfo.Prelude.{
  ℕ, ◌≤◌, max, ◌≡◌, refl, ap, ◌∙◌, subst, ◌&&◌, ◌⊎◌, Bool, true, false, inl, inr, Bool-cases, List,
  [], ◌∷◌, Option, none, some, if◌then◌else◌, ◌==◌, ==_iff, ltb, count_if, All, arith, sym,
}
use exotel_monitoring_platfo.Models.{CallMetricsSnapshot}
use exotel_monitoring_platfo.Repository.Tables.{stored_row, first_row-upsert, count-upsert}
use exotel_monitoring_platfo.Repository.Snapshots.{
  metrics_row_key, update_metrics, upsert_metrics_row, get_call_metrics_snapshot, later_row,
  get_latest_call_metrics_snapshot,
}

module _ {R : Type 0} where
  update-key :
      (new old : CallMetricsSnapshot R)
      → metrics_row_key old ≡ metrics_row_key new
      → metrics_row_key (update_metrics new old) ≡ metrics_row_key new
  unfolding update_metrics
  update-key new old e = refl

  -- what the table has of a snapshot behind its upsert: every column is the snapshot's but the account,
  -- which is that of the row that stood there
  abbrev pub replaced :
      CallMetricsSnapshot R → Option (CallMetricsSnapshot R) → CallMetricsSnapshot R
  replaced snap none = snap
  replaced snap (some old) = record snap { account_id = old.account_id }

  stored_as_replaced :
      (snap : CallMetricsSnapshot R) (old : Option (CallMetricsSnapshot R))
      → stored_row metrics_row_key update_metrics snap old ≡ replaced snap old
  unfolding update_metrics
  stored_as_replaced snap none = refl
  stored_as_replaced snap (some old) = refl

  -- whether a row is the exophone's and of the date
  abbrev pub is_row_of : ℕ → ℕ → CallMetricsSnapshot R → Bool
  is_row_of exophone_id date row = row.snapshot_date == date && row.exophone_id == exophone_id

  pub upsert_then_get :
      (snap : CallMetricsSnapshot R) (rows : List (CallMetricsSnapshot R)) (exophone_id date : ℕ)
      → (get_call_metrics_snapshot exophone_id date (upsert_metrics_row snap rows) ≡ (
          if is_row_of exophone_id date snap
          then some
              (replaced snap (get_call_metrics_snapshot snap.exophone_id snap.snapshot_date rows))
          else get_call_metrics_snapshot exophone_id date rows))
        × (count_if (is_row_of exophone_id date) (upsert_metrics_row snap rows) ≡ (
            if is_row_of exophone_id date snap
            then max 1 (count_if (is_row_of exophone_id date) rows)
            else count_if (is_row_of exophone_id date) rows))
  unfolding get_call_metrics_snapshot upsert_metrics_row
  upsert_then_get snap rows exophone_id date = (
    first_row-upsert metrics_row_key update_metrics update-key snap (date, exophone_id) rows
        ∙ ap
            (λ row.
              if is_row_of exophone_id date snap
              then some row
              else get_call_metrics_snapshot exophone_id date rows)
            (stored_as_replaced snap
              (get_call_metrics_snapshot snap.exophone_id snap.snapshot_date rows)),
    count-upsert metrics_row_key update_metrics update-key snap (date, exophone_id) rows,
  )

  -- one of the rows
  abbrev pub IsAmong : CallMetricsSnapshot R → List (CallMetricsSnapshot R) → Type 0
  IsAmong row [] = ⊥
  IsAmong row (r ∷ rows) = (row ≡ r) ⊎ IsAmong row rows

  -- It is one of the rows and the exophone's, and of the rows of the exophone none is later; there is
  -- none only if no row is the exophone's.
  pub IsNewest : ℕ → List (CallMetricsSnapshot R) → Option (CallMetricsSnapshot R) → Type 0
  IsNewest exophone_id rows none =
      All (λ (r : CallMetricsSnapshot R). (r.exophone_id == exophone_id) ≡ false) rows
  IsNewest exophone_id rows (some row) =
      IsAmong row rows
      × (row.exophone_id ≡ exophone_id)
      × All
          (λ (r : CallMetricsSnapshot R).
            ((if r.exophone_id == exophone_id then r.snapshot_date else 0) ≤ row.snapshot_date))
          rows

  within :
      (exophone_id : ℕ) (rows : List (CallMetricsSnapshot R)) (a b : ℕ)
      → a ≤ b
      → All
          (λ (r : CallMetricsSnapshot R).
            ((if r.exophone_id == exophone_id then r.snapshot_date else 0) ≤ a))
          rows
      → All
          (λ (r : CallMetricsSnapshot R).
            ((if r.exophone_id == exophone_id then r.snapshot_date else 0) ≤ b))
          rows
  within exophone_id [] a b le h = tt
  within exophone_id (r ∷ rows) a b le (x, h) =
      (omega (arith, le, x), within exophone_id rows a b le h)

  none_within :
      (exophone_id : ℕ) (rows : List (CallMetricsSnapshot R)) (b : ℕ)
      → All (λ (r : CallMetricsSnapshot R). (r.exophone_id == exophone_id) ≡ false) rows
      → All
          (λ (r : CallMetricsSnapshot R).
            ((if r.exophone_id == exophone_id then r.snapshot_date else 0) ≤ b))
          rows
  none_within exophone_id [] b h = tt
  none_within exophone_id (r ∷ rows) b (x, h) =
      (ground (arith, x), none_within exophone_id rows b h)

  later_other :
      (row other : CallMetricsSnapshot R)
      → ltb row.snapshot_date other.snapshot_date ≡ true
      → later_row (some other) row ≡ other
  unfolding later_row
  later_other row other e = rw e refl

  later_itself :
      (row other : CallMetricsSnapshot R)
      → ltb row.snapshot_date other.snapshot_date ≡ false
      → later_row (some other) row ≡ row
  unfolding later_row
  later_itself row other e = rw e refl

  later-IsNewest :
      (exophone_id : ℕ) (row : CallMetricsSnapshot R) (rows : List (CallMetricsSnapshot R))
      (rest : Option (CallMetricsSnapshot R))
      → (row.exophone_id == exophone_id) ≡ true
      → IsNewest exophone_id rows rest
      → IsNewest exophone_id (row ∷ rows) (some (later_row rest row))
  unfolding IsNewest later_row
  later-IsNewest exophone_id row rows none mine h = (
    inl refl,
    (==_iff row.exophone_id exophone_id).0 mine,
    (ground arith, none_within exophone_id rows row.snapshot_date h),
  )
  later-IsNewest exophone_id row rows (some other) mine (among, e, h) =
      elim (Bool-cases (ltb row.snapshot_date other.snapshot_date)) [
        | inl earlier ↦
            subst (λ x. IsNewest exophone_id (row ∷ rows) (some x))
              (sym (later_other row other earlier)) (inr among, e, (ground arith, h))
        | inr not_earlier ↦
            subst (λ x. IsNewest exophone_id (row ∷ rows) (some x))
              (sym (later_itself row other not_earlier))
              (
                inl refl,
                (==_iff row.exophone_id exophone_id).0 mine,
                (
                  ground arith,
                  within exophone_id rows other.snapshot_date row.snapshot_date (ground arith) h,
                ),
              )
      ]

  skip-IsNewest :
      (exophone_id : ℕ) (row : CallMetricsSnapshot R) (rows : List (CallMetricsSnapshot R))
      (rest : Option (CallMetricsSnapshot R))
      → (row.exophone_id == exophone_id) ≡ false
      → IsNewest exophone_id rows rest
      → IsNewest exophone_id (row ∷ rows) rest
  unfolding IsNewest
  skip-IsNewest exophone_id row rows none other h = (other, h)
  skip-IsNewest exophone_id row rows (some r) other (among, e, h) =
      (inr among, e, (ground (arith, other), h))

  -- The snapshot that is served where today's is missing is one of the exophone with the latest date of
  -- all, and none is served only where the exophone has none at all.
  pub get_latest-IsNewest :
      (exophone_id : ℕ) (rows : List (CallMetricsSnapshot R))
      → IsNewest exophone_id rows (get_latest_call_metrics_snapshot exophone_id rows)
  unfolding IsNewest get_latest_call_metrics_snapshot
  get_latest-IsNewest exophone_id [] = tt
  get_latest-IsNewest exophone_id (row ∷ rows) =
      elim (Bool-cases (row.exophone_id == exophone_id)) [
        | inl mine ↦
            rw (mine, get_latest_call_metrics_snapshot)
              (later-IsNewest exophone_id row rows
                (get_latest_call_metrics_snapshot exophone_id rows) mine
                (get_latest-IsNewest exophone_id rows))
        | inr other ↦
            rw (other, get_latest_call_metrics_snapshot)
              (skip-IsNewest exophone_id row rows
                (get_latest_call_metrics_snapshot exophone_id rows) other
                (get_latest-IsNewest exophone_id rows))
      ]
