-- ===== src/Metrics/Breakdown/Merge.antt =====
-- What the merges of the status breakdown do to each count.
use exotel_monitoring_platfo.Prelude.{
  ℕ, ◌+◌, ◌≡◌, [], ◌∷◌, Text, text_eq, text_eq_iff, if◌then◌else◌, arith,
}
use exotel_monitoring_platfo.Metrics.Breakdown.{
  Counts, Breakdown, count_of, add_count, cell, add_cell, ensure_row, merge_row, merge_map,
}

count_of-add_count :
    (k j : Text) (n : ℕ) (m : Counts)
    → count_of j (add_count k n m) ≡ (if text_eq k j then n else 0) + count_of j m
unfolding count_of add_count
count_of-add_count k j n [] = omega arith
count_of-add_count k j n ((i, c) ∷ m) =
    ground (arith, text_eq_iff k j, text_eq_iff i k, text_eq_iff i j, count_of-add_count k j n m)

-- Adding at one cell changes that cell alone.
pub cell-add_cell :
    (k1 k2 l1 l2 : Text) (n : ℕ) (m : Breakdown)
    → cell l1 l2 (add_cell k1 k2 n m)
      ≡ (if text_eq k1 l1 then if text_eq k2 l2 then n else 0 else 0) + cell l1 l2 m
unfolding cell add_cell count_of
cell-add_cell k1 k2 l1 l2 n [] = ground arith
cell-add_cell k1 k2 l1 l2 n ((i, row) ∷ m) = ground (
  arith,
  text_eq_iff k1 l1,
  text_eq_iff i k1,
  text_eq_iff i l1,
  count_of-add_count k2 l2 n row,
  cell-add_cell k1 k2 l1 l2 n m,
)

cell-ensure_row : (k l1 l2 : Text) (m : Breakdown) → cell l1 l2 (ensure_row k m) ≡ cell l1 l2 m
unfolding cell ensure_row count_of
cell-ensure_row k l1 l2 [] = ground arith
cell-ensure_row k l1 l2 ((i, row) ∷ m) = ground (arith, cell-ensure_row k l1 l2 m)

cell-merge_row :
    (k l1 l2 : Text) (row : Counts) (m : Breakdown)
    → cell l1 l2 (merge_row k row m) ≡ (if text_eq k l1 then count_of l2 row else 0) + cell l1 l2 m
unfolding merge_row count_of
cell-merge_row k l1 l2 [] m = ground arith
cell-merge_row k l1 l2 ((j, n) ∷ row) m =
    ground (arith, cell-merge_row k l1 l2 row (add_cell k j n m), cell-add_cell k j l1 l2 n m)

-- After a merge each cell is the sum of the two maps' cells, in whatever order the maps are read.
pub cell-merge_map :
    (l1 l2 : Text) (m merged : Breakdown)
    → cell l1 l2 (merge_map m merged) ≡ cell l1 l2 m + cell l1 l2 merged
unfolding merge_map cell
cell-merge_map l1 l2 [] merged = omega arith
cell-merge_map l1 l2 ((k, row) ∷ m) merged = omega (
  arith,
  cell-merge_map l1 l2 m (merge_row k row (ensure_row k merged)),
  cell-merge_row k l1 l2 row (ensure_row k merged),
  cell-ensure_row k l1 l2 merged,
)
