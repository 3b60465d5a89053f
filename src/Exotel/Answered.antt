-- ===== src/Exotel/Answered.antt =====
-- Which fetches of internal/exotel/calls.go bring back a response: a reply of 2xx without an error has
-- one.
use exotel_monitoring_platfo.Prelude.{
  ℕ, zero, suc, ◌+◌, ◌≡◌, refl, subst, Bool, true, false, not, ◌||◌, ◌==◌, if◌then◌else◌, leb,
  Option, none, some, Text, is_empty, inl, inr, Bool-cases, Option-cases,
}
use exotel_monitoring_platfo.Models.{Failure}
use exotel_monitoring_platfo.Exotel.Types.{CallsResponse}
use exotel_monitoring_platfo.Exotel.Http.{Reply, broken, answered, is_success}
use exotel_monitoring_platfo.Exotel.Calls.{
  FetchCallsResult, CallsApi, Paging, add_page, failed_fetch, complete_fetch, after_page, read_page,
  first_page, max_pages, Round, returns, continues, fetch_round, fetch_from, fetch_calls,
}

has_response : FetchCallsResult → Bool
has_response r = elim r.response [ none ↦ false | some page ↦ true ]

-- an error, a status that is no success, or a response
is_answered : FetchCallsResult → Option Failure → Bool
is_answered r (some failure) = true
is_answered r none = not (is_success r.http_status) || has_response r

round_answered : Round → Bool
round_answered (returns r err) = is_answered r err
round_answered (continues st) = true

complete-answered : (status : ℕ) (st : Paging) → is_answered (complete_fetch status st) none ≡ true
unfolding is_answered has_response complete_fetch
complete-answered status st = elim (Bool-cases (is_success status)) [
  | inl e ↦ rw e refl
  | inr e ↦ rw e refl
]

after_page-answered : (status : ℕ) (st : Paging) → round_answered (after_page status st) ≡ true
unfolding after_page round_answered
after_page-answered status st = elim (Bool-cases (is_empty st.after_cursor)) [
  | inl last ↦ rw (last, after_page) (complete-answered status st)
  | inr more ↦ elim (Bool-cases (leb max_pages st.pages)) [
    | inl full ↦ rw (more, full, after_page) (complete-answered status st)
    | inr room ↦ rw (more, room, after_page) refl
  ]
]

module _ (api : CallsApi) where
  read_page-answered :
      (status : ℕ) (raw : Text) (st : Paging) → round_answered (read_page api status raw st) ≡ true
  unfolding read_page round_answered is_answered failed_fetch
  read_page-answered status raw st = elim (Bool-cases (is_success status)) [
    | inr bad ↦ rw (bad, read_page, bad) refl
    | inl good ↦ elim (Option-cases (api.unmarshal raw)) [
      | inl no_page ↦ rw (good, no_page, read_page) refl
      | inr (page, is_page) ↦
          rw (good, is_page, read_page) (after_page-answered status (add_page api raw page st))
    ]
  ]

  round-answered : (st : Paging) → round_answered (fetch_round api st) ≡ true
  unfolding fetch_round round_answered is_answered
  round-answered st = split (api.get st.pages st.after_cursor) refl
    where
      split :
          (r : Reply)
          → api.get st.pages st.after_cursor ≡ r
          → round_answered (fetch_round api st) ≡ true
      split (broken ms text) e = rw (e, fetch_round) refl
      split (answered ms status raw) e =
          rw (e, fetch_round)
            (read_page-answered status raw (record st {
              total_latency = st.total_latency + ms;
              pages = st.pages + 1;
              first_raw_body = if st.pages + 1 == 1 then raw else st.first_raw_body;
            }))

  from_round :
      (x : Round) (next : Paging → Option (FetchCallsResult × Option Failure))
      (r : FetchCallsResult) (err : Option Failure)
      → round_answered x ≡ true
      → ((st : Paging) → next st ≡ some (r, err) → is_answered r err ≡ true)
      → let out : Option (FetchCallsResult × Option Failure) = elim x [
        | returns r' err' ↦ some (r', err')
        | continues st ↦ next st
      ] in
        out ≡ some (r, err) → is_answered r err ≡ true
  unfolding round_answered
  from_round (returns r' err') next r err h later e =
      let same : (r', err') ≡ (r, err) = cc e in
      subst (λ (x : FetchCallsResult × Option Failure). is_answered x.0 x.1 ≡ true) same h
  from_round (continues st) next r err h later e = later st e

  fetch_from-answered :
      (fuel : ℕ) (st : Paging) (r : FetchCallsResult) (err : Option Failure)
      → fetch_from api fuel st ≡ some (r, err)
      → is_answered r err ≡ true
  unfolding fetch_from
  fetch_from-answered zero st r err e = absurd (cc e)
  fetch_from-answered (suc fuel) st r err e =
      from_round (fetch_round api st) (fetch_from api fuel) r err (round-answered st)
        (λ st'. fetch_from-answered fuel st' r err) e

  -- A fetch without an error whose status is a success has a response.
  pub fetch_calls-response :
      (r : FetchCallsResult)
      → fetch_calls api ≡ some (r, none)
      → is_success r.http_status ≡ true
      → (page : CallsResponse) × (r.response ≡ some page)
  unfolding fetch_calls is_answered has_response
  fetch_calls-response r fetched ok = elim (Option-cases r.response) [
    | inl e ↦ absurd (cc (unanswered e, fetch_from-answered max_pages first_page r none fetched))
    | inr found ↦ found
  ]
    where
      unanswered : r.response ≡ none → is_answered r none ≡ false
      unanswered e = rw (ok, e, is_answered) refl
