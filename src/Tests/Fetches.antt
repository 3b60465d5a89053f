-- ===== src/Tests/Fetches.antt =====
-- Replies of the vendor, retries, the set of sids, and phone numbers.
use exotel_monitoring_platfo.Cache.Dedup.{SidSet, filter_new_records, down}
use exotel_monitoring_platfo.Prelude.{
  List, ◌==◌, ℕ, suc, ◌≡◌, ◌⊎◌, refl, negsuc, false, [], ◌∷◌, Option, none, some, Text, codes,
  if◌then◌else◌, length, count_if, min,
}
use exotel_monitoring_platfo.Models.{Failure}
use exotel_monitoring_platfo.Exotel.Types.{CallRecord, HeartbeatResponse}
use exotel_monitoring_platfo.Exotel.Http.{is_success}
use exotel_monitoring_platfo.Exotel.Calls.{FetchCallsResult, fetch_calls}
use exotel_monitoring_platfo.Exotel.Pages.{records_of, fetch_calls_whole}
use exotel_monitoring_platfo.Utils.Retry.{
  default_retry_config, Outcome, succeeded, retry, do_with_retry,
}
use exotel_monitoring_platfo.Utils.Retry.Laws.{do_with_retry_nil}
use exotel_monitoring_platfo.Cache.Once.{has_sid, passed, fetched, passed_exactly_once}
use exotel_monitoring_platfo.Tests.Fixtures.{two_pages, vn, batch, bridged, missed, second}

abbrev both_pages : FetchCallsResult
both_pages = record {
  http_status = 200;
  latency_ms = 250;
  response = some (record { next_page_uri = []; result = bridged ∷ missed ∷ second ∷ [] });
  raw_body = codes "?one";
  pages_fetched = 2;
  page_bodies = codes "?one" ∷ codes "two" ∷ [];
}

abbrev no_failure : Option Failure
no_failure = none

fetch_calls_whole_example :
    (bridged ∷ missed ∷ second ∷ [] ≡ records_of two_pages (codes "?one" ∷ codes "two" ∷ []))
    × (length both_pages.page_bodies ≡ both_pages.pages_fetched)
    × (no_failure ≡ none)
unfolding fetch_calls is_success
fetch_calls_whole_example =
    fetch_calls_whole two_pages both_pages no_failure
      (record { next_page_uri = []; result = bridged ∷ missed ∷ second ∷ [] }) refl refl

abbrev critical_response : HeartbeatResponse
critical_response = record {
  status_type = codes "CRITICAL";
  incoming_affected = vn ∷ [];
  outgoing_affected = vn ∷ [];
  info = [];
}

abbrev three : ℕ
three = 3

-- a call that succeeds the third time, on the number of calls so far
abbrev third_time : ℕ → Outcome Text × ℕ
third_time n = (if n == 2 then succeeded else retry (codes "503"), suc n)

do_with_retry_nil_example :
    ((at : ℕ) × (third_time at ≡ (succeeded, three)))
    ⊎ ((n : ℕ) × (default_retry_config.max_retries ≡ negsuc n) × (three ≡ 0))
unfolding do_with_retry
do_with_retry_nil_example =
    do_with_retry_nil (λ n. false) (codes "cancelled") third_time default_retry_config 0 three refl

passed_exactly_once_example :
    (count_if (has_sid (codes "s2")) (passed [] (batch ∷ (missed ∷ second ∷ []) ∷ []))
      ≡ min 1 (count_if (has_sid (codes "s2")) (fetched (batch ∷ (missed ∷ second ∷ []) ∷ []))))
    × ((seen left : SidSet) (rs : List CallRecord)
        → (filter_new_records (down left) seen rs).0 ≡ rs)
passed_exactly_once_example = passed_exactly_once (codes "s2") (batch ∷ (missed ∷ second ∷ []) ∷ [])
