-- ===== src/Handlers/Paging.antt =====
-- parsePage and TodayPerformance (internal/handlers/exophones.go) with GetCallMetricsByDate
-- (internal/repository/snapshot_repo.go). An int has 64 bits. A parameter of the query that is absent is
-- none. The ceiling of total / limit, which the code takes of two doubles, is that of the exact quotient
-- here: they are the same for less than 2 ^ 53 rows, where a quotient that is not whole is never rounded to the
-- whole number below it.
pub mod Cover
use exotel_monitoring_platfo.Prelude.{
  ℕ, zero, suc, ℤ, pos, negsuc, ◌+◌, ◌*◌, ◌-◌, ◌/◌, ◌%◌, ◌^◌, min, Bool, true, false, ◌&&◌, List,
  [], ◌∷◌, Option, none, some, Text, codes, text_eq, is_empty, if◌then◌else◌, ◌==◌, ltb, leb,
  length, drop, keep_if,
}
use exotel_monitoring_platfo.Models.{CallMetricsSnapshot}
use exotel_monitoring_platfo.Repository.Snapshots.{of_account}
use exotel_monitoring_platfo.Handlers.Dashboard.{
  parse_uint, AskedDay, asked_today, asked_badly, asked_day, day_of_request,
}

abbrev pub minus : ℕ → ℤ
minus zero = pos 0
minus (suc n) = negsuc n

-- strconv.Atoi, without its error: 0 on a syntax error, the nearest number out of range
unfoldable pub parse_int : Text → ℤ
unfolding parse_uint
parse_int [] = pos 0
parse_int (c ∷ s) =
    if c == b'-'
    then minus (min (parse_uint s) (2 ^ 63))
    else if c == b'+'
    then pos (min (parse_uint s) (2 ^ 63 - 1))
    else pos (min (parse_uint (c ∷ s)) (2 ^ 63 - 1))

-- DefaultQuery
abbrev pub query_or : Text → Option Text → Text
query_or fallback none = fallback
query_or fallback (some s) = s

-- if page < 1
abbrev pub page_number : ℤ → ℕ
page_number (pos n) = if n == 0 then 1 else n
page_number (negsuc n) = 1

abbrev pub page_limit : ℤ → ℕ
page_limit (pos n) = if n == 0 then 20 else if ltb 1000 n then 1000 else n
page_limit (negsuc n) = 20

unfoldable pub parse_page : Option Text → Option Text → ℕ × ℕ
unfolding parse_int
parse_page page limit = (
  page_number (parse_int (query_or (codes "1") page)),
  page_limit (parse_int (query_or (codes "20") limit)),
)

-- (page - 1) * limit as an int, which the query leaves out where it is not positive
unfoldable pub offset_of : ℕ → ℕ → ℕ
offset_of page limit =
    let wrapped = ((page - 1) * limit) % 2 ^ 64 in if ltb wrapped (2 ^ 63) then wrapped else 0

unfoldable pub total_pages : ℕ → ℕ → ℕ
total_pages total limit = (total + (limit - 1)) / limit

module _ {A : Type 0} where
  abbrev pub take_rows : ℕ → List A → List A
  take_rows zero xs = []
  take_rows (suc n) [] = []
  take_rows (suc n) (x ∷ xs) = x ∷ take_rows n xs

  -- Offset and Limit
  unfoldable pub rows_of_page : ℕ → ℕ → List A → List A
  unfolding offset_of
  rows_of_page page limit rows = take_rows limit (drop (offset_of page limit) rows)

  unfoldable pub insert_by : (A → ℕ) → A → List A → List A
  insert_by key row [] = row ∷ []
  insert_by key row (other ∷ rows) =
      let rest = insert_by key row rows in
      if leb (key row) (key other) then row ∷ other ∷ rows else other ∷ rest

  -- ORDER BY a column, ASC; rows with equal keys keep the table's order
  unfoldable pub order_by : (A → ℕ) → List A → List A
  unfolding insert_by
  order_by key [] = []
  order_by key (row ∷ rows) = insert_by key row (order_by key rows)

module _ {R : Type 0} where
  -- the query of an account's rows of a day, in its order
  unfoldable pub metrics_of_day :
      ℕ → ℕ → List (CallMetricsSnapshot R) → List (CallMetricsSnapshot R)
  unfolding order_by
  metrics_of_day account_id date rows =
      order_by (λ (s : CallMetricsSnapshot R). s.exophone_id)
        (keep_if (of_account account_id date) rows)

  -- the page, and the total of its query
  unfoldable pub get_call_metrics_by_date :
      ℕ → ℕ → ℕ → ℕ → List (CallMetricsSnapshot R) → List (CallMetricsSnapshot R) × ℕ
  unfolding rows_of_page metrics_of_day
  get_call_metrics_by_date account_id date page limit rows = (
    rows_of_page page limit (metrics_of_day account_id date rows),
    length (keep_if (of_account account_id date) rows),
  )

pub record Listing (R : Type 0) : Type 0 where
  pub rows : List (CallMetricsSnapshot R)
  pub total : ℕ
  pub page : ℕ
  pub limit : ℕ
  pub pages : ℕ
  pub date : ℕ

-- 400 twice, 500, 200
pub data PerformanceReply (R : Type 0) : Type 0 where
  invalid_account invalid_day query_failed : PerformanceReply R
  listed : Listing R → PerformanceReply R

pub record PerformanceRequest : Type 0 where
  pub account_id : Text
  pub date : Text
  pub page : Option Text
  pub limit : Option Text

module _ {R : Type 0} (query_fails : Bool) (account_id : ℕ)
    (rows : List (CallMetricsSnapshot R)) where
  unfoldable pub list_day : ℕ → ℕ × ℕ → PerformanceReply R
  unfolding get_call_metrics_by_date total_pages
  list_day date (page, limit) =
      let found = get_call_metrics_by_date account_id date page limit rows in
      if query_fails
      then query_failed
      else listed record {
        rows = found.0;
        total = found.1;
        page = page;
        limit = limit;
        pages = total_pages found.1 limit;
        date = date;
      }

  unfoldable pub list_asked : ℕ → AskedDay → ℕ × ℕ → PerformanceReply R
  unfolding list_day
  list_asked today asked_today paging = list_day today paging
  list_asked today asked_badly paging = invalid_day
  list_asked today (asked_day day) paging = list_day day paging

unfoldable pub today_performance :
    {R : Type 0}
    → (Text → Option ℕ)
    → Bool
    → ℕ
    → PerformanceRequest
    → List (CallMetricsSnapshot R)
    → PerformanceReply R
unfolding parse_uint parse_page day_of_request list_asked
today_performance parse_date query_fails today request rows =
    let account_id = parse_uint request.account_id in
    if account_id == 0
    then invalid_account
    else list_asked query_fails account_id rows today (day_of_request parse_date request.date)
        (parse_page request.page request.limit)
