-- ===== src/Cache/Dedup.antt =====
-- AddCallSids (internal/cache/dedup.go) and filterNewRecords (internal/workers/job_worker.go). The
-- state is the Redis set of the key for one exophone and IST day. Its expiry after 25 hours lies
-- behind the day.
use exotel_monitoring_platfo.Prelude.{
  Bool, true, false, List, [], ◌∷◌, map, Text, text_eq, if◌then◌else◌, any_of,
}
use exotel_monitoring_platfo.Exotel.Types.{CallRecord}

abbrev pub SidSet : Type 0
SidSet = List Text

abbrev pub contains : SidSet → Text → Bool
contains seen sid = any_of (λ s. text_eq s sid) seen

-- SADD: 1 for a new member
unfoldable pub sadd : SidSet → Text → Bool × SidSet
sadd seen sid = if contains seen sid then (false, seen) else (true, sid ∷ seen)

-- the commands of the pipeline, one after the other
unfoldable pub sadd_all : SidSet → List Text → List Bool × SidSet
unfolding sadd
sadd_all seen [] = ([], seen)
sadd_all seen (sid ∷ sids) =
    let (new, seen') = sadd seen sid in
    let (rest, seen'') = sadd_all seen' sids in (new ∷ rest, seen'')

-- The pipeline succeeds, or fails and leaves some set behind.
pub data Redis : Type 0 where
  up : Redis
  down : SidSet → Redis

unfoldable pub add_call_sids : Redis → SidSet → List Text → List Bool × SidSet
unfolding sadd_all
add_call_sids redis seen [] = ([], seen)
add_call_sids up seen (sid ∷ sids) = sadd_all seen (sid ∷ sids)
add_call_sids (down left) seen (sid ∷ sids) = (map (λ _. true) (sid ∷ sids), left)

-- for i, r := range records { if isNew[i] { out = append(out, r) } }
unfoldable pub keep_new : List Bool → List CallRecord → List CallRecord
keep_new [] rs = []
keep_new (new ∷ flags) [] = []
keep_new (new ∷ flags) (r ∷ rs) = let rest = keep_new flags rs in if new then r ∷ rest else rest

unfoldable pub filter_new_records : Redis → SidSet → List CallRecord → List CallRecord × SidSet
unfolding add_call_sids keep_new
filter_new_records redis seen [] = ([], seen)
filter_new_records redis seen (r ∷ rs) =
    let (flags, seen') = add_call_sids redis seen (map (λ (c : CallRecord). c.sid) (r ∷ rs)) in
    (keep_new flags (r ∷ rs), seen')
