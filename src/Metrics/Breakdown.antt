-- ===== src/Metrics/Breakdown.antt =====
-- The map leg1_status → leg2_status → count of internal/metrics/engine.go, and its merges.
-- A Go map is an association list. A key stands in a map once, so that the sums that read a count
-- have one summand at most; the laws below hold for any list.
pub mod Merge
pub mod Stored
use exotel_monitoring_platfo.Prelude.{
  ℕ, zero, suc, ◌+◌, ◌≡◌, refl, sym, Bool, true, false, List, [], ◌∷◌, Option, none, some, Text,
  text_eq, text_eq_iff, text_eq_refl, is_empty, if◌then◌else◌, arith, Json, inl, inr, Bool-cases,
  Option-cases,
}

abbrev pub Counts : Type 0
Counts = List (Text × ℕ)

abbrev pub Breakdown : Type 0
Breakdown = List (Text × Counts)

-- m[k], which is 0 where the key is missing
unfoldable pub count_of : Text → Counts → ℕ
count_of k [] = 0
count_of k ((j, n) ∷ m) = (if text_eq j k then n else 0) + count_of k m

-- m[k] += n
unfoldable pub add_count : Text → ℕ → Counts → Counts
add_count k n [] = (k, n) ∷ []
add_count k n ((j, c) ∷ m) =
    let rest = add_count k n m in if text_eq j k then (j, c + n) ∷ m else (j, c) ∷ rest

-- m[l1][l2]
unfoldable pub cell : Text → Text → Breakdown → ℕ
unfolding count_of
cell l1 l2 [] = 0
cell l1 l2 ((j, row) ∷ m) = (if text_eq j l1 then count_of l2 row else 0) + cell l1 l2 m

-- if m[l1] == nil { m[l1] = make(map[string]int) }; m[l1][l2] += n
unfoldable pub add_cell : Text → Text → ℕ → Breakdown → Breakdown
unfolding add_count
add_cell l1 l2 n [] = (l1, (l2, n) ∷ []) ∷ []
add_cell l1 l2 n ((j, row) ∷ m) =
    let rest = add_cell l1 l2 n m in
    if text_eq j l1 then (j, add_count l2 n row) ∷ m else (j, row) ∷ rest

-- if merged[l1] == nil { merged[l1] = make(map[string]int) }
unfoldable pub ensure_row : Text → Breakdown → Breakdown
ensure_row l1 [] = (l1, []) ∷ []
ensure_row l1 ((j, row) ∷ m) =
    let rest = ensure_row l1 m in if text_eq j l1 then (j, row) ∷ m else (j, row) ∷ rest

-- for l2, cnt := range l2map { merged[l1][l2] += cnt }
unfoldable pub merge_row : Text → Counts → Breakdown → Breakdown
merge_row l1 [] merged = merged
merge_row l1 ((l2, n) ∷ row) merged = merge_row l1 row (add_cell l1 l2 n merged)

-- for l1, l2map := range m { … }
unfoldable pub merge_map : Breakdown → Breakdown → Breakdown
unfolding merge_row ensure_row
merge_map [] merged = merged
merge_map ((l1, row) ∷ m) merged = merge_map m (merge_row l1 row (ensure_row l1 merged))

abbrev pub no_rows : Breakdown → Bool
no_rows [] = true
no_rows (r ∷ m) = false

module _ (json : Json Breakdown) where
  -- the text of a map, "" for an empty one
  unfoldable pub leg_breakdown_json : Breakdown → Text
  leg_breakdown_json m = if no_rows m then [] else json.marshal m

  -- one round of the loop of MergeLegBreakdown: "" and an unreadable text add nothing
  unfoldable pub merge_text : Text → Breakdown → Breakdown
  merge_text s merged =
      if is_empty s
      then merged
      else elim (json.unmarshal s) [ none ↦ merged | some m ↦ merge_map m merged ]

  unfoldable pub merge_leg_breakdown : Text → Text → Text
  unfolding merge_text leg_breakdown_json
  merge_leg_breakdown existing incoming =
      leg_breakdown_json (merge_text incoming (merge_text existing []))

  -- the copy of the existing map, row by row, is the map itself
  unfoldable pub read_existing : Text → Breakdown
  read_existing s = if is_empty s then [] else elim (json.unmarshal s) [ none ↦ [] | some m ↦ m ]

  unfoldable pub merge_with_breakdown_map : Text → Breakdown → Text
  unfolding leg_breakdown_json read_existing
  merge_with_breakdown_map existing incoming =
      if no_rows incoming
      then existing
      else leg_breakdown_json (merge_map incoming (read_existing existing))
