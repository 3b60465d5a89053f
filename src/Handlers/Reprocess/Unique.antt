-- ===== src/Handlers/Reprocess/Unique.antt =====
-- The loop over the saved pages (internal/handlers/reprocess.go) against the deduplication of the live
-- runs (filterNewRecords of internal/workers/job_worker.go).
use mathlib.Core.List.{append-nil, append_assoc}
use exotel_monitoring_platfo.Prelude.{
  ℕ, suc, ◌+◌, min, ◌≡◌, refl, ap, sym, ◌∙◌, Bool, true, false, ◌&&◌, List, [], ◌∷◌, ◌++◌, Option,
  none, some, Text, keep_if, count_if, count_if-append, Bool-cases, inl, inr, arith,
}
use exotel_monitoring_platfo.Exotel.Types.{CallRecord, CallsResponse}
use exotel_monitoring_platfo.Cache.Dedup.{SidSet, contains, sadd_all, keep_new}
use exotel_monitoring_platfo.Cache.Once.{
  has_sid, sids_of, flagged, sadd_all_old, sadd_all_new, passed, fetched, passed_exactly_once,
  filter-flagged,
}
use exotel_monitoring_platfo.Handlers.Reprocess.{
  Gathered, belongs, gather_record, gather_records, gather_page, gather_pages, nothing_gathered,
}

-- The records of the number, page by page, of the pages that parse.
unfoldable pub vn_batches : Text → List (Option CallsResponse) → List (List CallRecord)
vn_batches vn_bare [] = []
vn_batches vn_bare (none ∷ pages) = vn_batches vn_bare pages
vn_batches vn_bare (some cr ∷ pages) =
    keep_if (belongs vn_bare) cr.result ∷ vn_batches vn_bare pages

-- the pages that do not parse
abbrev unread : List (Option CallsResponse) → ℕ
unread pages =
    count_if (λ (o : Option CallsResponse). elim o [ none ↦ true | some _ ↦ false ]) pages

-- what the answers of the pipeline add to the variables
from_flags : List CallRecord → Gathered → List Bool × SidSet → Gathered
from_flags rs g (flags, seen) = record g {
  seen = seen;
  all_records = g.all_records ++ keep_new flags rs;
}

add_batch : List CallRecord → Gathered → Gathered
add_batch rs g = from_flags rs g (sadd_all g.seen (sids_of rs))

add_batch_old :
    (r : CallRecord) (rs : List CallRecord) (g : Gathered)
    → contains g.seen r.sid ≡ true
    → add_batch (r ∷ rs) g ≡ add_batch rs g
unfolding add_batch from_flags keep_new
add_batch_old r rs g old = ap (from_flags (r ∷ rs) g) (sadd_all_old g.seen r.sid (sids_of rs) old)

add_batch_new :
    (r : CallRecord) (rs : List CallRecord) (g : Gathered)
    → contains g.seen r.sid ≡ false
    → add_batch (r ∷ rs) g
      ≡ add_batch rs (record g { seen = r.sid ∷ g.seen; all_records = g.all_records ++ r ∷ [] })
unfolding add_batch from_flags keep_new
add_batch_new r rs g new =
    ap (from_flags (r ∷ rs) g) (sadd_all_new g.seen r.sid (sids_of rs) new)
    ∙ ap (λ all. record g { seen = (sadd_all (r.sid ∷ g.seen) (sids_of rs)).1; all_records = all })
        (sym (append_assoc g.all_records (r ∷ []) (flagged (r.sid ∷ g.seen) rs)))

add_nothing : (g : Gathered) → add_batch [] g ≡ g
unfolding add_batch from_flags sadd_all keep_new
add_nothing g = rw (append-nil g.all_records)

gather_records-add_batch :
    (vn_bare : Text) (rs : List CallRecord) (g : Gathered)
    → gather_records vn_bare rs g ≡ add_batch (keep_if (belongs vn_bare) rs) g
unfolding gather_records gather_record
gather_records-add_batch vn_bare [] g = sym (add_nothing g)
gather_records-add_batch vn_bare (r ∷ rs) g = elim (Bool-cases (belongs vn_bare r)) [
  | inr other ↦ rw (other, gather_record) (gather_records-add_batch vn_bare rs g)
  | inl own ↦ elim (Bool-cases (contains g.seen r.sid)) [
    | inl old ↦
        rw (own, old, gather_record, add_batch_old r (keep_if (belongs vn_bare) rs) g old)
          (gather_records-add_batch vn_bare rs g)
    | inr new ↦
        rw (own, new, gather_record, add_batch_new r (keep_if (belongs vn_bare) rs) g new)
          (gather_records-add_batch vn_bare rs _)
  ]
]

-- the variables after the pages
add_batches :
    (vn_bare : Text) (pages : List (Option CallsResponse)) (g : Gathered)
    → ((gather_pages vn_bare pages g).all_records
        ≡ g.all_records ++ passed g.seen (vn_batches vn_bare pages))
      × ((gather_pages vn_bare pages g).skipped ≡ g.skipped + unread pages)
unfolding gather_pages gather_page vn_batches passed add_batch from_flags
add_batches vn_bare [] g = (sym (append-nil g.all_records), omega arith)
add_batches vn_bare (none ∷ pages) g =
    let (all, skipped) = add_batches vn_bare pages (record g { skipped = suc g.skipped }) in
    (all, omega (arith, skipped))
add_batches vn_bare (some cr ∷ pages) g =
    let mine = keep_if (belongs vn_bare) cr.result in
    let rest = vn_batches vn_bare pages in
    let same = gather_records-add_batch vn_bare cr.result g in
    let (all, skipped) = add_batches vn_bare pages (gather_records vn_bare cr.result g) in
    (
      all
          ∙ ap (λ (h : Gathered). h.all_records ++ passed h.seen rest) same
          ∙ append_assoc g.all_records (flagged g.seen mine)
              (passed (sadd_all g.seen (sids_of mine)).1 rest)
          ∙ ap (λ (o : List CallRecord × SidSet). g.all_records ++ (o.0 ++ passed o.1 rest))
              (sym (filter-flagged g.seen mine)),
      omega (arith, skipped, ap (λ (h : Gathered). h.skipped) same),
    )

-- The records that a reprocessing gathers from the saved pages are those, in the same order, that the
-- deduplication of live runs would have passed on a day that starts with an empty set, had each page
-- that parses been a run's batch, cut down to the records of the number. The pages that do not parse
-- are counted as skipped.
pub gathered_as_live :
    (vn_bare : Text) (pages : List (Option CallsResponse))
    → ((gather_pages vn_bare pages nothing_gathered).all_records
        ≡ passed [] (vn_batches vn_bare pages))
      × ((gather_pages vn_bare pages nothing_gathered).skipped ≡ unread pages)
unfolding nothing_gathered
gathered_as_live vn_bare pages =
    let (all, skipped) = add_batches vn_bare pages nothing_gathered in (all, omega (arith, skipped))

keep-count :
    (q s : CallRecord → Bool) (rs : List CallRecord)
    → count_if q (keep_if s rs) ≡ count_if (λ r. s r && q r) rs
keep-count q s [] = refl
keep-count q s (r ∷ rs) = ground (arith, keep-count q s rs)

-- Whether a record is of the number and has the sid.
abbrev pub is_call : Text → Text → CallRecord → Bool
is_call vn_bare sid r = belongs vn_bare r && has_sid sid r

-- all records of the pages that parse
pub records_of : List (Option CallsResponse) → List CallRecord
records_of [] = []
records_of (none ∷ pages) = records_of pages
records_of (some cr ∷ pages) = cr.result ++ records_of pages

fetched-count :
    (vn_bare sid : Text) (pages : List (Option CallsResponse))
    → count_if (has_sid sid) (fetched (vn_batches vn_bare pages))
      ≡ count_if (is_call vn_bare sid) (records_of pages)
unfolding vn_batches fetched records_of
fetched-count vn_bare sid [] = refl
fetched-count vn_bare sid (none ∷ pages) = fetched-count vn_bare sid pages
fetched-count vn_bare sid (some cr ∷ pages) = omega (
  arith,
  count_if-append (has_sid sid) (keep_if (belongs vn_bare) cr.result)
      (fetched (vn_batches vn_bare pages)),
  count_if-append (is_call vn_bare sid) cr.result (records_of pages),
  keep-count (has_sid sid) (belongs vn_bare) cr.result,
  fetched-count vn_bare sid pages,
)

-- A reprocessing gathers a sid once if some saved page that parses has a record of the number with
-- it, however many do, and not at all otherwise.
pub gathered_once :
    (vn_bare sid : Text) (pages : List (Option CallsResponse))
    → count_if (has_sid sid) (gather_pages vn_bare pages nothing_gathered).all_records
      ≡ min 1 (count_if (is_call vn_bare sid) (records_of pages))
gathered_once vn_bare sid pages = omega (
  arith,
  ap (count_if (has_sid sid)) (gathered_as_live vn_bare pages).0,
  (passed_exactly_once sid (vn_batches vn_bare pages)).0,
  fetched-count vn_bare sid pages,
)
