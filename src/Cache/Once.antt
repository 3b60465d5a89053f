-- ===== src/Cache/Once.antt =====
-- Each call is counted once a day, however often the windows of the jobs overlap
-- (internal/cache/dedup.go, filterNewRecords of internal/workers/job_worker.go).
use exotel_monitoring_platfo.Prelude.{
  subst, text_eq_sound, ◌<◌, min, ◌≡◌, refl, ap, sym, ◌∙◌, Bool, true, false, ◌||◌, List, [], ◌∷◌,
  ◌++◌, map, Text, All, text_eq, text_eq_iff, text_eq_refl, if◌then◌else◌, any_of, count_if,
  count_if-append, Bool-cases, inl, inr, arith,
}
use exotel_monitoring_platfo.Exotel.Types.{CallRecord}
use exotel_monitoring_platfo.Cache.Dedup.{
  SidSet, contains, sadd, sadd_all, add_call_sids, up, down, keep_new, filter_new_records,
}

abbrev pub has_sid : Text → CallRecord → Bool
has_sid sid r = text_eq r.sid sid

abbrev pub sids_of : List CallRecord → List Text
sids_of rs = map (λ (c : CallRecord). c.sid) rs

abbrev pub flagged : SidSet → List CallRecord → List CallRecord
flagged seen rs = keep_new (sadd_all seen (sids_of rs)).0 rs

contains-sadd :
    (seen : SidSet) (s sid : Text)
    → contains (sadd seen s).1 sid ≡ (text_eq s sid || contains seen sid)
unfolding sadd
contains-sadd seen s sid = elim (Bool-cases (contains seen s)) [
  | inl old ↦ rw (old, sadd) (ground (arith, text_eq_iff s sid))
  | inr new ↦ rw (new, sadd) (ground arith)
]

sadd_old : (seen : SidSet) (s : Text) → contains seen s ≡ true → sadd seen s ≡ (false, seen)
unfolding sadd
sadd_old seen s h = rw h

sadd_new : (seen : SidSet) (s : Text) → contains seen s ≡ false → sadd seen s ≡ (true, s ∷ seen)
unfolding sadd
sadd_new seen s h = rw h

pub sadd_all_old :
    (seen : SidSet) (s : Text) (sids : List Text)
    → contains seen s ≡ true
    → sadd_all seen (s ∷ sids) ≡ (false ∷ (sadd_all seen sids).0, (sadd_all seen sids).1)
unfolding sadd_all
sadd_all_old seen s sids old = rw (sadd_old seen s old)

pub sadd_all_new :
    (seen : SidSet) (s : Text) (sids : List Text)
    → contains seen s ≡ false
    → sadd_all seen (s ∷ sids) ≡ (true ∷ (sadd_all (s ∷ seen) sids).0, (sadd_all (s ∷ seen) sids).1)
unfolding sadd_all
sadd_all_new seen s sids new = rw (sadd_new seen s new)

-- The batch's first record is known, or passes.
flagged_old :
    (seen : SidSet) (r : CallRecord) (rs : List CallRecord)
    → contains seen r.sid ≡ true
    → flagged seen (r ∷ rs) ≡ flagged seen rs
unfolding keep_new
flagged_old seen r rs old =
    ap (λ (o : List Bool × SidSet). keep_new o.0 (r ∷ rs))
      (sadd_all_old seen r.sid (sids_of rs) old)

flagged_new :
    (seen : SidSet) (r : CallRecord) (rs : List CallRecord)
    → contains seen r.sid ≡ false
    → flagged seen (r ∷ rs) ≡ r ∷ flagged (r.sid ∷ seen) rs
unfolding keep_new
flagged_new seen r rs new =
    ap (λ (o : List Bool × SidSet). keep_new o.0 (r ∷ rs))
      (sadd_all_new seen r.sid (sids_of rs) new)

abbrev known_after : SidSet → List CallRecord → SidSet
known_after seen rs = (sadd_all seen (sids_of rs)).1

-- One batch of two batches' records.
flagged-append :
    (seen : SidSet) (xs ys : List CallRecord)
    → flagged seen (xs ++ ys) ≡ flagged seen xs ++ flagged (known_after seen xs) ys
unfolding sadd_all keep_new
flagged-append seen [] ys = refl
flagged-append seen (x ∷ xs) ys = elim (Bool-cases (contains seen x.sid)) [
  | inl old ↦
      flagged_old seen x (xs ++ ys) old
      ∙ flagged-append seen xs ys
      ∙ ap (λ zs. zs ++ flagged (known_after seen xs) ys) (sym (flagged_old seen x xs old))
      ∙ ap (λ (o : List Bool × SidSet). flagged seen (x ∷ xs) ++ flagged o.1 ys)
          (sym (sadd_all_old seen x.sid (sids_of xs) old))
  | inr new ↦
      flagged_new seen x (xs ++ ys) new
      ∙ ap (λ zs. x ∷ zs) (flagged-append (x.sid ∷ seen) xs ys)
      ∙ ap (λ zs. zs ++ flagged (known_after (x.sid ∷ seen) xs) ys)
          (sym (flagged_new seen x xs new))
      ∙ ap (λ (o : List Bool × SidSet). flagged seen (x ∷ xs) ++ flagged o.1 ys)
          (sym (sadd_all_new seen x.sid (sids_of xs) new))
]

known :
    (seen : SidSet) (s sid : Text)
    → contains seen s ≡ true
    → text_eq s sid ≡ true
    → contains seen sid ≡ true
known seen s sid h e = subst (λ t. contains seen t ≡ true) (text_eq_sound s sid e) h

known_new :
    (seen : SidSet) (s sid : Text)
    → contains seen s ≡ false
    → text_eq s sid ≡ true
    → contains seen sid ≡ false
known_new seen s sid h e = subst (λ t. contains seen t ≡ false) (text_eq_sound s sid e) h

keep_all : (rs : List CallRecord) → keep_new (map (λ _. true) (sids_of rs)) rs ≡ rs
unfolding keep_new
keep_all [] = refl
keep_all (r ∷ rs) = ap (λ rest. r ∷ rest) (keep_all rs)

some_has :
    (sid : Text) (rs : List CallRecord)
    → any_of (has_sid sid) rs ≡ true
    → 0 < count_if (has_sid sid) rs
some_has sid [] h = cc
some_has sid (r ∷ rs) h = ground (arith, some_has sid rs)

none_has :
    (sid : Text) (rs : List CallRecord)
    → any_of (has_sid sid) rs ≡ false
    → count_if (has_sid sid) rs ≡ 0
none_has sid [] h = refl
none_has sid (r ∷ rs) h = ground (arith, none_has sid rs)

-- A sid is kept once if it was not known and occurs, and is known afterwards if it occurs.
flagged_once :
    (sid : Text) (seen : SidSet) (rs : List CallRecord)
    → (count_if (has_sid sid) (flagged seen rs)
        ≡ (if contains seen sid then 0 else min 1 (count_if (has_sid sid) rs)))
      × (contains (sadd_all seen (sids_of rs)).1 sid
          ≡ (contains seen sid || any_of (has_sid sid) rs))
unfolding sadd_all keep_new
flagged_once sid seen [] = (ground arith, ground arith)
flagged_once sid seen (r ∷ rs) = elim (Bool-cases (contains seen r.sid)) [
  | inl old ↦ rw (sadd_old seen r.sid old) (
    ground (arith, flagged_once sid seen rs, known seen r.sid sid old),
    ground (arith, flagged_once sid seen rs, known seen r.sid sid old),
  )
  | inr new ↦ rw (sadd_new seen r.sid new) (
    ground (arith, flagged_once sid (r.sid ∷ seen) rs, known_new seen r.sid sid new),
    ground (arith, flagged_once sid (r.sid ∷ seen) rs),
  )
]

-- Every record passes where Redis fails, so that none is lost; where it does not fail, of the
-- records with a sid that is not known one passes, and none of those with a known one.
pub filter_new_records_once :
    (seen : SidSet) (rs : List CallRecord)
    → ((left : SidSet) → (filter_new_records (down left) seen rs).0 ≡ rs)
      × ((sid : Text)
          → count_if (has_sid sid) (filter_new_records up seen rs).0
            ≡ (if contains seen sid then 0 else min 1 (count_if (has_sid sid) rs)))
unfolding filter_new_records
filter_new_records_once seen [] = (λ left. refl, λ sid. ground arith)
filter_new_records_once seen (r ∷ rs) =
    (λ left. keep_all (r ∷ rs), λ sid. (flagged_once sid seen (r ∷ rs)).0)

pub filter-known :
    (sid : Text) (seen : SidSet) (rs : List CallRecord)
    → contains (filter_new_records up seen rs).1 sid
      ≡ (contains seen sid || any_of (has_sid sid) rs)
unfolding filter_new_records
filter-known sid seen [] = ground arith
filter-known sid seen (r ∷ rs) = (flagged_once sid seen (r ∷ rs)).1

pub filter-flagged :
    (seen : SidSet) (rs : List CallRecord)
    → filter_new_records up seen rs ≡ (flagged seen rs, (sadd_all seen (sids_of rs)).1)
unfolding filter_new_records sadd_all keep_new
filter-flagged seen [] = refl
filter-flagged seen (r ∷ rs) = refl

pub add_call_sids_up :
    (seen : SidSet) (sids : List Text) → add_call_sids up seen sids ≡ sadd_all seen sids
unfolding add_call_sids sadd_all
add_call_sids_up seen [] = refl
add_call_sids_up seen (sid ∷ sids) = refl

contains-sadd_all :
    (sid : Text) (seen : SidSet) (sids : List Text)
    → contains seen sid ≡ true
    → contains (sadd_all seen sids).1 sid ≡ true
unfolding sadd_all
contains-sadd_all sid seen [] h = h
contains-sadd_all sid seen (s ∷ sids) h =
    contains-sadd_all sid (sadd seen s).1 sids (contains-sadd seen s sid ∙ ground (arith, h))

All-contained :
    (seen : SidSet) (rs : List CallRecord)
    → All (λ (r : CallRecord). contains (known_after seen rs) r.sid ≡ true) rs
unfolding sadd_all
All-contained seen [] = tt
All-contained seen (r ∷ rs) = (
  contains-sadd_all r.sid (sadd seen r.sid).1 (sids_of rs)
      (contains-sadd seen r.sid r.sid ∙ ground (arith, text_eq_refl r.sid)),
  All-contained (sadd seen r.sid).1 rs,
)

flagged_none :
    (seen : SidSet) (rs : List CallRecord)
    → All (λ (r : CallRecord). contains seen r.sid ≡ true) rs
    → flagged seen rs ≡ []
unfolding sadd_all keep_new
flagged_none seen [] h = refl
flagged_none seen (r ∷ rs) (old, h) = flagged_old seen r rs old ∙ flagged_none seen rs h

-- Records whose sids have been registered do not pass again.
pub registered_never_pass :
    (seen : SidSet) (rs : List CallRecord)
    → (filter_new_records up (sadd_all seen (sids_of rs)).1 rs).0 ≡ []
registered_never_pass seen rs =
    ap (λ (o : List CallRecord × SidSet). o.0) (filter-flagged (known_after seen rs) rs)
    ∙ flagged_none (known_after seen rs) rs (All-contained seen rs)

-- The records that pass in a day's runs, one batch of fetched records after the other, Redis up.
unfoldable pub passed : SidSet → List (List CallRecord) → List CallRecord
passed seen [] = []
passed seen (batch ∷ batches) =
    let (kept, seen') = filter_new_records up seen batch in kept ++ passed seen' batches

unfoldable pub fetched : List (List CallRecord) → List CallRecord
fetched [] = []
fetched (batch ∷ batches) = batch ++ fetched batches

-- What passes does not depend on how the day is cut into batches.
pub passed_as_one :
    (seen : SidSet) (batches : List (List CallRecord))
    → passed seen batches ≡ flagged seen (fetched batches)
unfolding passed fetched sadd_all keep_new
passed_as_one seen [] = refl
passed_as_one seen (batch ∷ batches) =
    ap (λ (o : List CallRecord × SidSet). o.0 ++ passed o.1 batches) (filter-flagged seen batch)
    ∙ ap (λ rest. flagged seen batch ++ rest) (passed_as_one (known_after seen batch) batches)
    ∙ sym (flagged-append seen batch (fetched batches))

passed_once :
    (sid : Text) (seen : SidSet) (batches : List (List CallRecord))
    → count_if (has_sid sid) (passed seen batches)
      ≡ (if contains seen sid then 0 else min 1 (count_if (has_sid sid) (fetched batches)))
unfolding passed fetched
passed_once sid seen [] = ground arith
passed_once sid seen (batch ∷ batches) = ground (
  arith,
  count_if-append (has_sid sid) (filter_new_records up seen batch).0
      (passed (filter_new_records up seen batch).1 batches),
  count_if-append (has_sid sid) batch (fetched batches),
  (filter_new_records_once seen batch).1 sid,
  filter-known sid seen batch,
  some_has sid batch,
  none_has sid batch,
  passed_once sid (filter_new_records up seen batch).1 batches,
)

-- Over a day that starts with an empty set and on which Redis never fails, each sid that any batch
-- fetched passes exactly once. Where Redis fails, the filter is open: all records of the batch pass,
-- whatever the set knows of them, so that none is lost and one may pass again.
pub passed_exactly_once :
    (sid : Text) (batches : List (List CallRecord))
    → (count_if (has_sid sid) (passed [] batches)
        ≡ min 1 (count_if (has_sid sid) (fetched batches)))
      × ((seen left : SidSet) (batch : List CallRecord)
          → (filter_new_records (down left) seen batch).0 ≡ batch)
passed_exactly_once sid batches =
    (passed_once sid [] batches, λ seen left batch. (filter_new_records_once seen batch).0 left)
