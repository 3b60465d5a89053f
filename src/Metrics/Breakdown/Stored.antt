-- ===== src/Metrics/Breakdown/Stored.antt =====
-- The breakdown as it is stored (LegBreakdownJSON, MergeLegBreakdown and MergeWithBreakdownMap of
-- internal/metrics/engine.go), under what encoding/json promises of maps.
use exotel_monitoring_platfo.Prelude.{
  ℕ, ◌+◌, ◌≡◌, refl, sym, ap, ◌∙◌, true, false, [], ◌∷◌, some, Text, is_empty, Bool-cases,
  Option-cases, inl, inr, arith, Json,
}
use exotel_monitoring_platfo.Metrics.Breakdown.{
  Breakdown, cell, merge_map, no_rows, leg_breakdown_json, merge_text, merge_leg_breakdown,
  read_existing, merge_with_breakdown_map,
}
use exotel_monitoring_platfo.Metrics.Breakdown.Merge.{cell-merge_map}

-- A map's text is not empty, and reads as a map with the same counts, in whatever order.
pub record RoundTrips (json : Json Breakdown) : Type 0 where
  pub not_empty : (m : Breakdown) → is_empty (json.marshal m) ≡ false
  pub reads :
      (m : Breakdown)
      → (m' : Breakdown) × (json.unmarshal (json.marshal m) ≡ some m')
        × ((l1 l2 : Text) → cell l1 l2 m' ≡ cell l1 l2 m)

module _ (json : Json Breakdown) where
  -- the count that a stored text holds of two leg statuses
  unfoldable pub stored : Text → Text → Text → ℕ
  unfolding cell read_existing
  stored l1 l2 s = cell l1 l2 (read_existing json s)

  no_rows-cell : (l1 l2 : Text) (m : Breakdown) → no_rows m ≡ true → cell l1 l2 m ≡ 0
  unfolding cell
  no_rows-cell l1 l2 [] e = refl
  no_rows-cell l1 l2 (r ∷ m) e = cc e

  merge_text_read :
      (s : Text) (merged : Breakdown)
      → merge_text json s merged ≡ merge_map (read_existing json s) merged
  unfolding merge_text read_existing merge_map
  merge_text_read s merged = elim (Bool-cases (is_empty s)) [
    | inl e ↦ rw (e, merge_text, read_existing) refl
    | inr e ↦ elim (Option-cases (json.unmarshal s)) [
      | inl bad ↦ rw (e, bad, merge_text, read_existing) refl
      | inr (m, good) ↦ rw (e, good, merge_text, read_existing) refl
    ]
  ]

  module _ (trips : RoundTrips json) where
    stored_json :
        (l1 l2 : Text) (m : Breakdown) → stored l1 l2 (leg_breakdown_json json m) ≡ cell l1 l2 m
    unfolding stored leg_breakdown_json read_existing cell
    stored_json l1 l2 m = elim (Bool-cases (no_rows m)) [
      | inl e ↦ rw (e, leg_breakdown_json) (sym (no_rows-cell l1 l2 m e))
      | inr e ↦
          let (m', reads, same) = trips.reads m in
          rw (e, trips.not_empty m, reads, leg_breakdown_json, stored) (same l1 l2)
    ]

    -- Merging a map into a stored breakdown adds its counts to the stored ones, where a text that
    -- is empty or unreadable holds none.
    pub stored-merge_with_breakdown_map :
        (l1 l2 existing : Text) (incoming : Breakdown)
        → stored l1 l2 (merge_with_breakdown_map json existing incoming)
          ≡ stored l1 l2 existing + cell l1 l2 incoming
    unfolding merge_with_breakdown_map stored
    stored-merge_with_breakdown_map l1 l2 existing incoming = elim (Bool-cases (no_rows incoming)) [
      | inl e ↦ rw (e, merge_with_breakdown_map) (omega (arith, no_rows-cell l1 l2 incoming e))
      | inr e ↦ rw (e, merge_with_breakdown_map) merged
    ]
      where
        merged :
            stored l1 l2
              (leg_breakdown_json json (merge_map incoming (read_existing json existing)))
            ≡ stored l1 l2 existing + cell l1 l2 incoming
        merged = omega (
          arith,
          stored_json l1 l2 (merge_map incoming (read_existing json existing)),
          cell-merge_map l1 l2 incoming (read_existing json existing),
        )

    stored-merge_leg_breakdown :
        (l1 l2 existing incoming : Text)
        → stored l1 l2 (merge_leg_breakdown json existing incoming)
          ≡ stored l1 l2 existing + stored l1 l2 incoming
    unfolding merge_leg_breakdown stored cell
    stored-merge_leg_breakdown l1 l2 existing incoming =
        stored_json l1 l2 _
        ∙ ap (cell l1 l2)
            (merge_text_read incoming _ ∙ ap (merge_map _) (merge_text_read existing []))
        ∙ omega (
          arith,
          cell-merge_map l1 l2 (read_existing json incoming)
              (merge_map (read_existing json existing) []),
          cell-merge_map l1 l2 (read_existing json existing) [],
        )

    -- MergeWithBreakdownMap, which saves a round of encoding, stores the same counts as encoding the
    -- map by LegBreakdownJSON and merging the two texts by MergeLegBreakdown.
    pub merge_with_breakdown_map-merge_leg_breakdown :
        (l1 l2 existing : Text) (incoming : Breakdown)
        → stored l1 l2 (merge_with_breakdown_map json existing incoming)
          ≡ stored l1 l2 (merge_leg_breakdown json existing (leg_breakdown_json json incoming))
    merge_with_breakdown_map-merge_leg_breakdown l1 l2 existing incoming = omega (
      arith,
      stored-merge_with_breakdown_map l1 l2 existing incoming,
      stored-merge_leg_breakdown l1 l2 existing (leg_breakdown_json json incoming),
      stored_json l1 l2 incoming,
    )
