-- ===== src/Exotel/Calls.antt =====
-- FetchCalls (internal/exotel/calls.go): cursor pagination over the Bulk Calls API.
use exotel_monitoring_platfo.Prelude.{
  ℕ, zero, suc, ◌+◌, List, [], ◌∷◌, ◌++◌, Option, none, some, Text, is_empty, if◌then◌else◌, leb,
  ◌==◌,
}
use exotel_monitoring_platfo.Models.{Failure, transport, unparsable}
use exotel_monitoring_platfo.Exotel.Types.{CallRecord, CallsResponse}
use exotel_monitoring_platfo.Exotel.Http.{Reply, broken, answered, is_success}

pub record FetchCallsResult : Type 0 where
  pub http_status : ℕ
  pub latency_ms : ℕ
  pub response : Option CallsResponse
  pub raw_body : Text
  pub pages_fetched : ℕ
  pub page_bodies : List Text

-- What the loop needs of other code: the client's reply to the request for a page, by the number
-- of pages fetched before and the After parameter; json.Unmarshal at a page; and
-- url.ParseQuery(q).Get("After"), `none` for a query that does not parse.
pub record CallsApi : Type 0 where
  pub get : ℕ → Text → Reply
  pub unmarshal : Text → Option CallsResponse
  pub query_after : Text → Option Text

-- the text behind the first '?', `none` where strings.Index finds none
behind_question : Text → Option Text
behind_question [] = none
behind_question (c ∷ s) = if c == b'?' then some s else behind_question s

unfoldable pub extract_after_cursor : CallsApi → Text → Text
unfolding behind_question
extract_after_cursor api uri = if is_empty uri then [] else elim (behind_question uri) [
  | none ↦ []
  | some query ↦ elim (api.query_after query) [ none ↦ [] | some token ↦ token ]
]

-- the variables of the loop
pub record Paging : Type 0 where
  pub all_records : List CallRecord
  pub page_raw_bodies : List Text
  pub first_raw_body : Text
  pub total_latency : ℕ
  pub pages : ℕ
  pub after_cursor : Text

unfoldable pub first_page : Paging
first_page = record {
  all_records = [];
  page_raw_bodies = [];
  first_raw_body = [];
  total_latency = 0;
  pages = 0;
  after_cursor = [];
}

abbrev pub max_pages : ℕ
max_pages = 500

-- A page that was read: its records and body join the others, and its cursor is the next.
unfoldable pub add_page : CallsApi → Text → CallsResponse → Paging → Paging
unfolding extract_after_cursor
add_page api raw page st = record st {
  page_raw_bodies = st.page_raw_bodies ++ raw ∷ [];
  all_records = st.all_records ++ page.result;
  after_cursor = extract_after_cursor api page.next_page_uri;
}

unfoldable pub failed_fetch : ℕ → Text → Paging → List Text → FetchCallsResult
failed_fetch status raw st bodies = record {
  http_status = status;
  latency_ms = st.total_latency;
  response = none;
  raw_body = raw;
  pages_fetched = st.pages;
  page_bodies = bodies;
}

unfoldable pub complete_fetch : ℕ → Paging → FetchCallsResult
complete_fetch status st = record {
  http_status = status;
  latency_ms = st.total_latency;
  response = some (record { next_page_uri = []; result = st.all_records });
  raw_body = st.first_raw_body;
  pages_fetched = st.pages;
  page_bodies = st.page_raw_bodies;
}

-- A round of the loop: it returns, or goes on with a next state.
pub data Round : Type 0 where
  returns : FetchCallsResult → Option Failure → Round
  continues : Paging → Round

-- what a read page makes of the round: the two breaks, or the next page
unfoldable pub after_page : ℕ → Paging → Round
unfolding complete_fetch
after_page status st =
    if is_empty st.after_cursor
    then returns (complete_fetch status st) none
    else if leb max_pages st.pages
    then returns (complete_fetch status st) none
    else continues st

-- a reply that resty brings back, in the state where its latency and page are counted
unfoldable pub read_page : CallsApi → ℕ → Text → Paging → Round
unfolding after_page failed_fetch add_page
read_page api status raw st =
    if is_success status
    then elim (api.unmarshal raw) [
      | none ↦ returns (failed_fetch status raw st st.page_raw_bodies) (some (unparsable raw))
      | some page ↦ after_page status (add_page api raw page st)
    ]
    else returns (failed_fetch status raw st st.page_raw_bodies) none

unfoldable pub fetch_round : CallsApi → Paging → Round
unfolding read_page failed_fetch
fetch_round api st = elim (api.get st.pages st.after_cursor) [
  | broken ms text ↦
      returns
        (failed_fetch 0 text
          (record st { total_latency = st.total_latency + ms; pages = st.pages + 1 }) [])
        (some (transport text))
  | answered ms status raw ↦ read_page api status raw (record st {
    total_latency = st.total_latency + ms;
    pages = st.pages + 1;
    first_raw_body = if st.pages + 1 == 1 then raw else st.first_raw_body;
  })
]

-- `none` is the end of the fuel
unfoldable pub fetch_from : CallsApi → ℕ → Paging → Option (FetchCallsResult × Option Failure)
fetch_from api zero st = none
fetch_from api (suc fuel) st = elim (fetch_round api st) [
  | returns r err ↦ some (r, err)
  | continues st' ↦ fetch_from api fuel st'
]

unfoldable pub fetch_calls : CallsApi → Option (FetchCallsResult × Option Failure)
unfolding fetch_from fetch_round first_page
fetch_calls api = fetch_from api max_pages first_page
