-- ===== src/Exotel/Pages.antt =====
-- The pagination loop of FetchCalls (internal/exotel/calls.go) ends, and loses no record.
use mathlib.Core.List.{append_assoc, append-nil}
use exotel_monitoring_platfo.Prelude.{
  subst, ◌==◌, ℕ, zero, suc, ◌+◌, ◌≤◌, ◌<◌, ◌≡◌, refl, sym, ap, ◌∙◌, List, [], ◌∷◌, ◌++◌, Option,
  none, some, Text, is_empty, length, length-append, if◌then◌else◌, leb, Bool-cases, Option-cases,
  inl, inr, arith,
}
use exotel_monitoring_platfo.Models.{Failure}
use exotel_monitoring_platfo.Exotel.Types.{CallRecord, CallsResponse}
use exotel_monitoring_platfo.Exotel.Http.{Reply, broken, answered, is_success}
use exotel_monitoring_platfo.Exotel.Calls.{
  add_page, failed_fetch, complete_fetch, after_page, read_page, FetchCallsResult, CallsApi, Paging,
  first_page, max_pages, Round, returns, continues, fetch_round, fetch_from, fetch_calls,
}

-- The records of saved page bodies, read again one after the other.
pub records_of : CallsApi → List Text → List CallRecord
records_of api [] = []
records_of api (b ∷ bs) =
    elim (api.unmarshal b) [ none ↦ [] | some page ↦ page.result ] ++ records_of api bs

records_of-append :
    (api : CallsApi) (bs cs : List Text)
    → records_of api (bs ++ cs) ≡ records_of api bs ++ records_of api cs
unfolding records_of
records_of-append api [] cs = refl
records_of-append api (b ∷ bs) cs =
    ap (λ rest. elim (api.unmarshal b) [ none ↦ [] | some page ↦ page.result ] ++ rest)
      (records_of-append api bs cs)
    ∙ sym (
        append_assoc (elim (api.unmarshal b) [ none ↦ [] | some page ↦ page.result ])
          (records_of api bs) (records_of api cs))

records_of_one :
    (api : CallsApi) (raw : Text) (page : CallsResponse)
    → api.unmarshal raw ≡ some page
    → records_of api (raw ∷ []) ≡ page.result
unfolding records_of
records_of_one api raw page e = rw (e, records_of) (append-nil page.result)

-- Before a round: one body for each page, whose records are those gathered.
record IsPaged (api : CallsApi) (st : Paging) : Type 0 where
  counted : length st.page_raw_bodies ≡ st.pages
  gathered : st.all_records ≡ records_of api st.page_raw_bodies

-- What holds of a round's end: of the result, or of the state to go on with.
abbrev Good : CallsApi → ℕ → Round → Type 0
Good api pages (returns r err) =
    (1 ≤ r.pages_fetched)
    × (r.pages_fetched ≡ suc pages)
    × ((page : CallsResponse)
        → r.response ≡ some page
        → (page.result ≡ records_of api r.page_bodies)
          × (length r.page_bodies ≡ r.pages_fetched)
          × (err ≡ none))
Good api pages (continues st) = IsPaged api st × (st.pages ≡ suc pages) × (st.pages < max_pages)

after_page-Good :
    (api : CallsApi) (status : ℕ) (st : Paging) (pages : ℕ)
    → IsPaged api st
    → st.pages ≡ suc pages
    → Good api pages (after_page status st)
unfolding after_page
after_page-Good api status st pages v e = elim (Bool-cases (is_empty st.after_cursor)) [
  | inl last ↦ rw (last, after_page) whole
  | inr more ↦ elim (Bool-cases (leb max_pages st.pages)) [
    | inl full ↦ rw (more, full, after_page) whole
    | inr room ↦ rw (more, room, after_page) (v, e, ground arith)
  ]
]
  where
    whole : Good api pages (returns (complete_fetch status st) none)
    whole = (omega arith, e, λ page q. (cc, v.counted, refl))

read_page-Good :
    (api : CallsApi) (status : ℕ) (raw : Text) (st : Paging) (pages : ℕ)
    → st.all_records ≡ records_of api st.page_raw_bodies
    → suc (length st.page_raw_bodies) ≡ st.pages
    → st.pages ≡ suc pages
    → Good api pages (read_page api status raw st)
unfolding read_page records_of add_page failed_fetch
read_page-Good api status raw st pages g c e = elim (Bool-cases (is_success status)) [
  | inr bad ↦ rw (bad, read_page) (omega arith, e, λ page q. cc)
  | inl good ↦ elim (Option-cases (api.unmarshal raw)) [
    | inl no_page ↦ rw (good, no_page, read_page) (omega arith, e, λ page q. cc)
    | inr (page, is_page) ↦
        rw (good, is_page, read_page)
          (after_page-Good api status (add_page api raw page st) pages
            (record {
              counted = omega (arith, length-append {0} st.page_raw_bodies (raw ∷ []));
              gathered = cc (
                g,
                records_of-append api st.page_raw_bodies (raw ∷ []),
                records_of_one api raw page is_page,
              );
            })
            e)
  ]
]

-- the state that a reply is read in
counted_page : ℕ → Text → Paging → Paging
counted_page ms raw st = record st {
  total_latency = st.total_latency + ms;
  pages = st.pages + 1;
  first_raw_body = if st.pages + 1 == 1 then raw else st.first_raw_body;
}

fetch_round-Good :
    (api : CallsApi) (st : Paging) → IsPaged api st → Good api st.pages (fetch_round api st)
unfolding fetch_round failed_fetch counted_page
fetch_round-Good api st v = split (api.get st.pages st.after_cursor) refl
  where
    split :
        (r : Reply) → api.get st.pages st.after_cursor ≡ r → Good api st.pages (fetch_round api st)
    split (broken ms text) e = rw (e, fetch_round) (omega arith, omega arith, λ page q. cc)
    split (answered ms status raw) e =
        rw (e, fetch_round)
          (read_page-Good api status raw (counted_page ms raw st) st.pages v.gathered
            (omega (arith, v.counted)) (omega arith))

-- What a fetch brings back: 1 to 500 pages, and where it has a response no error, a body for each
-- page, and all records of those bodies in their order.
abbrev IsWhole : CallsApi → FetchCallsResult → Option Failure → Type 0
IsWhole api r err =
    (1 ≤ r.pages_fetched)
    × (r.pages_fetched ≤ max_pages)
    × ((page : CallsResponse)
        → r.response ≡ some page
        → (page.result ≡ records_of api r.page_bodies)
          × (length r.page_bodies ≡ r.pages_fetched)
          × (err ≡ none))

abbrev Fetches : CallsApi → Option (FetchCallsResult × Option Failure) → Type 0
Fetches api o =
    (r : FetchCallsResult) × (err : Option Failure) × (o ≡ some (r, err)) × IsWhole api r err

fetch_from-Good :
    (api : CallsApi) (fuel : ℕ) (st : Paging)
    → IsPaged api st
    → max_pages ≤ st.pages + fuel
    → st.pages < max_pages
    → Fetches api (fetch_from api fuel st)
unfolding fetch_from
fetch_from-Good api zero st v enough below = absurd (omega arith)
fetch_from-Good api (suc fuel) st v enough below =
    split (fetch_round api st) refl (fetch_round-Good api st v) (fetch_from-Good api fuel)
  where
    split :
        (r : Round)
        → fetch_round api st ≡ r
        → Good api st.pages r
        → ((st' : Paging)
            → IsPaged api st'
            → max_pages ≤ st'.pages + fuel
            → st'.pages < max_pages
            → Fetches api (fetch_from api fuel st'))
        → Fetches api (fetch_from api (suc fuel) st)
    split (returns r err) e (one, count, whole) rest =
        (r, err, rw (e, fetch_from), (one, omega arith, whole))
    split (continues st') e (v', next, room) rest =
        rw (e, fetch_from) (rest st' v' (omega arith) room)

fetched-IsWhole :
    (api : CallsApi)
    → (r : FetchCallsResult) × (err : Option Failure) × (fetch_calls api ≡ some (r, err))
      × IsWhole api r err
unfolding fetch_calls first_page records_of
fetched-IsWhole api =
    fetch_from-Good api max_pages first_page (record { counted = refl; gathered = refl })
      (omega arith) (omega arith)

-- The loop always returns: 500 rounds are enough, since the cap of 500 pages breaks it. It has
-- fetched 1 to 500 pages.
pub fetch_calls_returns :
    (api : CallsApi)
    → (r : FetchCallsResult) × (err : Option Failure) × (fetch_calls api ≡ some (r, err))
      × (1 ≤ r.pages_fetched)
      × (r.pages_fetched ≤ 500)
fetch_calls_returns api =
    let (r, err, e, (one, most, whole)) = fetched-IsWhole api in (r, err, e, one, most)

-- Where a fetch brings back a response, there is no error, a body is saved for each fetched page,
-- and the response's records are those of all saved bodies, in their order.
pub fetch_calls_whole :
    (api : CallsApi) (r : FetchCallsResult) (err : Option Failure) (page : CallsResponse)
    → fetch_calls api ≡ some (r, err)
    → r.response ≡ some page
    → (page.result ≡ records_of api r.page_bodies)
      × (length r.page_bodies ≡ r.pages_fetched)
      × (err ≡ none)
fetch_calls_whole api r err page fetched h =
    let (r', err', e, (one, most, whole)) = fetched-IsWhole api in
    let same : (r', err') ≡ (r, err) = cc (e, fetched) in
    subst
      (λ (x : FetchCallsResult × Option Failure).
        (q : CallsResponse)
        → x.0.response ≡ some q
        → (q.result ≡ records_of api x.0.page_bodies)
          × (length x.0.page_bodies ≡ x.0.pages_fetched)
          × (x.1 ≡ none))
      same whole page h
