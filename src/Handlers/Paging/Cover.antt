-- ===== src/Handlers/Paging/Cover.antt =====
-- The pages of a listing together (internal/handlers/exophones.go).
use exotel_monitoring_platfo.Prelude.{
  ℕ, zero, suc, ℤ, ◌+◌, ◌*◌, ◌-◌, ◌/◌, ◌%◌, ◌^◌, ◌≤◌, ◌<◌, ◌≡◌, refl, sym, ap, ◌∙◌, subst, Bool,
  true, List, [], ◌∷◌, ◌++◌, Option, Text, one_if, count_if, ltb, leb, length, drop, keep_if,
  Bool-cases, inl, inr, arith, codes,
}
use exotel_monitoring_platfo.Models.{CallMetricsSnapshot}
use exotel_monitoring_platfo.Repository.Snapshots.{of_account}
use native.Mathlib.Nat.{suc-mul, mul-le-mul_right, mod-eq_of_lt, mod-lt, div-add-mod'}
use exotel_monitoring_platfo.Handlers.Paging.{
  parse_int, query_or, page_number, page_limit, parse_page, offset_of, total_pages, take_rows,
  rows_of_page, insert_by, order_by, metrics_of_day, get_call_metrics_by_date,
}

page_positive : (n : ℤ) → 1 ≤ page_number n
page_positive n = ground arith

limit_within : (n : ℤ) → (1 ≤ page_limit n) × (page_limit n ≤ 1000)
limit_within n = ground arith

zero_plus : (m : ℕ) → 0 + m ≡ m
zero_plus m = omega arith

-- Whatever the request says, the page is at least 1, and the limit from 1 to 1000.
pub parse_page_bounds :
    (page limit : Option Text)
    → let (p, l) = parse_page page limit in (1 ≤ p) × (1 ≤ l) × (l ≤ 1000)
unfolding parse_page
parse_page_bounds page limit = (
  page_positive (parse_int (query_or (codes "1") page)),
  (limit_within (parse_int (query_or (codes "20") limit))).0,
  (limit_within (parse_int (query_or (codes "20") limit))).1,
)

offset_below : (i limit : ℕ) → i * limit < 2 ^ 63 → offset_of (suc i) limit ≡ i * limit
unfolding offset_of
offset_below i limit below =
    let before : suc i - 1 ≡ i = omega arith in
    let small : i * limit < 2 ^ 64 = omega (arith, below) in
    let same : ((suc i - 1) * limit) % 2 ^ 64 ≡ i * limit =
      ap (λ k. (k * limit) % 2 ^ 64) before ∙ mod-eq_of_lt small in
    let kept : ltb (i * limit) (2 ^ 63) ≡ true = ground (arith, below) in rw (same, kept) refl

module _ {A : Type 0} where
  abbrev the_empty : List A
  the_empty = []

  drop_none : (m : ℕ) → drop m (the_empty) ≡ the_empty
  drop_none zero = refl
  drop_none (suc m) = refl

  whole_again : (n : ℕ) (xs : List A) → take_rows n xs ++ drop n xs ≡ xs
  whole_again zero xs = refl
  whole_again (suc n) [] = refl
  whole_again (suc n) (x ∷ xs) = cc (whole_again n xs)

  drop-drop : (n m : ℕ) (xs : List A) → drop m (drop n xs) ≡ drop (n + m) xs
  drop-drop zero m xs = rw (zero_plus m) refl
  drop-drop (suc n) m [] = drop_none m ∙ sym (drop_none (suc n + m))
  drop-drop (suc n) m (x ∷ xs) =
      let e : suc n + m ≡ suc (n + m) = omega arith in
      drop-drop n m xs ∙ sym (ap (λ k. drop k (x ∷ xs)) e)

  drop_all : (n : ℕ) (xs : List A) → length xs ≤ n → drop n xs ≡ []
  drop_all zero [] le = refl
  drop_all zero (x ∷ xs) le = absurd (omega (arith, le))
  drop_all (suc n) [] le = refl
  drop_all (suc n) (x ∷ xs) le = drop_all n xs (omega (arith, le))

  -- the rows of some pages, one after the other, from a first page on
  abbrev pub pages_from : ℕ → ℕ → ℕ → List A → List A
  pages_from zero page limit rows = []
  pages_from (suc count) page limit rows =
      rows_of_page page limit rows ++ pages_from count (suc page) limit rows

  -- the pages from i on are the rows from there on
  pages_rest :
      (count i limit : ℕ) (rows : List A)
      → (i + count) * limit < 2 ^ 63
      → length rows ≤ (i + count) * limit
      → pages_from count (suc i) limit rows ≡ drop (i * limit) rows
  unfolding rows_of_page
  pages_rest zero i limit rows below enough =
      let end : i + 0 ≡ i = omega arith in
      sym (drop_all (i * limit) rows (subst (λ k. length rows ≤ k * limit) end enough))
  pages_rest (suc count) i limit rows below enough =
      let next : i + suc count ≡ suc i + count = omega arith in
      let first : i * limit ≤ (i + suc count) * limit = mul-le-mul_right limit (omega arith) in
      let rest =
        pages_rest count (suc i) limit rows (subst (λ k. k * limit < 2 ^ 63) next below)
          (subst (λ k. length rows ≤ k * limit) next enough) in
      let beyond : drop (suc i * limit) rows ≡ drop limit (drop (i * limit) rows) =
        ap (λ k. drop k rows) (suc-mul i limit) ∙ sym (drop-drop (i * limit) limit rows) in
      let here : offset_of (suc i) limit ≡ i * limit =
        offset_below i limit (omega (arith, first, below)) in
      rw (here, rest, beyond) (whole_again limit (drop (i * limit) rows))

  -- the pages from the first to the last one
  pages_cover :
      (limit : ℕ) (rows : List A)
      → 1 ≤ limit
      → limit ≤ 1000
      → length rows < 2 ^ 53
      → pages_from (total_pages (length rows) limit) 1 limit rows ≡ rows
  unfolding total_pages
  pages_cover limit rows positive bound few =
      let sum = length rows + (limit - 1) in
      let whole : sum / limit * limit + sum % limit ≡ sum = div-add-mod' sum limit in
      let rest : sum % limit < limit = mod-lt sum (omega (arith, positive)) in
      let start : 0 + sum / limit ≡ sum / limit = omega arith in
      let enough : length rows ≤ (0 + sum / limit) * limit =
        subst (λ k. length rows ≤ k * limit) (sym start) (omega (arith, whole, rest, positive)) in
      let below : (0 + sum / limit) * limit < 2 ^ 63 =
        subst (λ k. k * limit < 2 ^ 63) (sym start) (omega (arith, whole, few, bound)) in
      let none_before : 0 * limit ≡ 0 = omega arith in
      pages_rest (sum / limit) 0 limit rows below enough ∙ ap (λ k. drop k rows) none_before

  insert_by_count :
      (key : A → ℕ) (p : A → Bool) (row : A) (rows : List A)
      → count_if p (insert_by key row rows) ≡ one_if (p row) + count_if p rows
  unfolding insert_by
  insert_by_count key p row [] = refl
  insert_by_count key p row (other ∷ rows) = elim (Bool-cases (leb (key row) (key other))) [
    | inl e ↦ rw (e, insert_by) refl
    | inr e ↦ rw (e, insert_by) (omega (arith, insert_by_count key p row rows))
  ]

  order_by_count :
      (key : A → ℕ) (p : A → Bool) (rows : List A)
      → count_if p (order_by key rows) ≡ count_if p rows
  unfolding order_by
  order_by_count key p [] = refl
  order_by_count key p (row ∷ rows) =
      omega (arith, insert_by_count key p row (order_by key rows), order_by_count key p rows)

  length_counts : (rows : List A) → length rows ≡ count_if (λ row. true) rows
  length_counts [] = refl
  length_counts (row ∷ rows) = omega (arith, length_counts rows)

  order_by-length : (key : A → ℕ) (rows : List A) → length (order_by key rows) ≡ length rows
  order_by-length key rows =
      length_counts (order_by key rows)
      ∙ order_by_count key (λ row. true) rows
      ∙ sym (length_counts rows)

module _ {R : Type 0} (account_id date limit : ℕ) (table : List (CallMetricsSnapshot R)) where
  -- the rows of the replies of some pages, one after the other
  abbrev pub listed_from : ℕ → ℕ → List (CallMetricsSnapshot R)
  listed_from zero page = []
  listed_from (suc count) page =
      (get_call_metrics_by_date account_id date page limit table).0 ++ listed_from count (suc page)

  listed_pages :
      (count page : ℕ)
      → listed_from count page ≡ pages_from count page limit (metrics_of_day account_id date table)
  unfolding get_call_metrics_by_date
  listed_pages zero page = refl
  listed_pages (suc count) page = cc (listed_pages count (suc page))

  -- The pages of an account's day from the first to the one that total_pages says is the last give the
  -- rows of the query, in its order, each of them once and none left out, and these are the rows of the
  -- account and the day that the table holds, as many of each kind; the limit is one that parsePage can
  -- give, and the day has fewer than 2 ^ 53 rows.
  pub day_listed :
      1 ≤ limit
      → limit ≤ 1000
      → length (keep_if (of_account account_id date) table) < 2 ^ 53
      → let total = (get_call_metrics_by_date account_id date 1 limit table).1 in
        (listed_from (total_pages total limit) 1 ≡ metrics_of_day account_id date table)
        × ((p : CallMetricsSnapshot R → Bool)
            → count_if p (listed_from (total_pages total limit) 1)
              ≡ count_if p (keep_if (of_account account_id date) table))
  unfolding get_call_metrics_by_date metrics_of_day
  day_listed positive bound few =
      let ours = keep_if (of_account account_id date) table in
      let key = λ (s : CallMetricsSnapshot R). s.exophone_id in
      let same = order_by-length key ours in
      let count = total_pages (length ours) limit in
      let cover : pages_from count 1 limit (order_by key ours) ≡ order_by key ours =
        subst
          (λ n. pages_from (total_pages n limit) 1 limit (order_by key ours) ≡ order_by key ours)
          same (pages_cover limit (order_by key ours) positive bound (omega (arith, same, few))) in
      let whole = listed_pages count 1 ∙ cover in
      (whole, λ p. ap (count_if p) whole ∙ order_by_count key p ours)
