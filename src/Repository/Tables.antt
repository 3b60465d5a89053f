-- ===== src/Repository/Tables.antt =====
-- A table of internal/repository with a unique key of two numbers, as the list of its rows.
use exotel_monitoring_platfo.Prelude.{
  ℕ, ◌+◌, ◌≤◌, max, ◌≡◌, refl, ap, sym, subst, ◌∙◌, Bool, true, false, ◌&&◌, List, [], ◌∷◌, Option,
  none, some, if◌then◌else◌, ◌==◌, count_if, inl, inr, Bool-cases, arith,
}

-- `==` on the columns of a key
abbrev pub pair_eq : ℕ × ℕ → ℕ × ℕ → Bool
pair_eq (a, b) (c, d) = a == c && b == d

pub pair_eq_refl : (k : ℕ × ℕ) → pair_eq k k ≡ true
pair_eq_refl (a, b) = ground arith

pub pair_eq_sound : (k k' : ℕ × ℕ) → pair_eq k k' ≡ true → k ≡ k'
pair_eq_sound (a, b) (c, d) h =
    let first : a ≡ c = ground arith in let second : b ≡ d = ground arith in cc (first, second)

module _ {A : Type 0} where
  -- First: the first row that a condition finds
  unfoldable pub first_row : (A → Bool) → List A → Option A
  first_row p [] = none
  first_row p (row ∷ rows) = let found = first_row p rows in if p row then some row else found

  abbrev pub last_found : Option A → Option A → Option A
  last_found (some later) here = some later
  last_found none here = here

  -- the last row that a condition finds, as a map keeps it that a loop over the rows fills
  unfoldable pub last_row : (A → Bool) → List A → Option A
  last_row p [] = none
  last_row p (row ∷ rows) = last_found (last_row p rows) (if p row then some row else none)

  -- SUM over the rows
  unfoldable pub sum_rows : (A → ℕ) → List A → ℕ
  sum_rows f [] = 0
  sum_rows f (row ∷ rows) = f row + sum_rows f rows

  abbrev pub of_row : (A → ℕ) → Option A → ℕ
  of_row f none = 0
  of_row f (some row) = f row

  found_here :
      (p : A → Bool) (row : A) (rows : List A) → p row ≡ true → first_row p (row ∷ rows) ≡ some row
  unfolding first_row
  found_here p row rows e = rw e

  found_on :
      (p : A → Bool) (row : A) (rows : List A)
      → p row ≡ false
      → first_row p (row ∷ rows) ≡ first_row p rows
  unfolding first_row
  found_on p row rows e = rw e

  pub first_row-holds :
      (p : A → Bool) (rows : List A) (row : A) → first_row p rows ≡ some row → p row ≡ true
  unfolding first_row
  first_row-holds p [] row e = absurd (cc e)
  first_row-holds p (r ∷ rows) row e = elim (Bool-cases (p r)) [
    | inl hit ↦
        let here : r ≡ row = cc (found_here p r rows hit, e) in subst (λ x. p x ≡ true) here hit
    | inr miss ↦ first_row-holds p rows row (sym (found_on p r rows miss) ∙ e)
  ]

  keep_found : (o : Option A) → last_found o none ≡ o
  keep_found none = refl
  keep_found (some row) = refl

  none_counted : (p : A → Bool) (rows : List A) → count_if p rows ≡ 0 → first_row p rows ≡ none
  unfolding first_row
  none_counted p [] e = refl
  none_counted p (row ∷ rows) e = elim (Bool-cases (p row)) [
    | inl hit ↦ ground (arith, e, hit)
    | inr miss ↦ found_on p row rows miss ∙ none_counted p rows (ground (arith, e, miss))
  ]

  -- Where at most one row is found, the last one is the first one.
  pub last_row-first_row :
      (p : A → Bool) (rows : List A) → count_if p rows ≤ 1 → last_row p rows ≡ first_row p rows
  unfolding first_row last_row
  last_row-first_row p [] le = refl
  last_row-first_row p (row ∷ rows) le = elim (Bool-cases (p row)) [
    | inl hit ↦
        let no_other = none_counted p rows (ground (arith, le, hit)) in
        let below : count_if p rows ≤ 1 = ground (arith, le, hit) in
        rw (last_row-first_row p rows below, no_other, hit) refl
    | inr miss ↦
        let below : count_if p rows ≤ 1 = ground (arith, le, miss) in
        rw (last_row-first_row p rows below, miss) (keep_found (first_row p rows))
  ]

  -- INSERT … ON DUPLICATE KEY UPDATE: `keep new old` is the row that an update leaves.
  module _ (key : A → ℕ × ℕ) (keep : A → A → A) where
    unfoldable pub upsert : A → List A → List A
    upsert new [] = new ∷ []
    upsert new (old ∷ rows) =
        let rest = upsert new rows in
        if pair_eq (key old) (key new) then keep new old ∷ rows else old ∷ rest

    abbrev pub has_key : ℕ × ℕ → A → Bool
    has_key k row = pair_eq (key row) k

    -- what an upsert stores, by the row that is there
    abbrev pub stored_row : A → Option A → A
    stored_row new none = new
    stored_row new (some old) = keep new old

    upsert_old :
        (new old : A) (rows : List A)
        → pair_eq (key old) (key new) ≡ true
        → upsert new (old ∷ rows) ≡ keep new old ∷ rows
    unfolding upsert
    upsert_old new old rows e = rw e

    upsert_on :
        (new old : A) (rows : List A)
        → pair_eq (key old) (key new) ≡ false
        → upsert new (old ∷ rows) ≡ old ∷ upsert new rows
    unfolding upsert
    upsert_on new old rows e = rw e

    -- An upsert moves a sum from the row that was there to the one that is stored.
    pub sum_rows-upsert :
        (f : A → ℕ) (new : A) (rows : List A)
        → sum_rows f (upsert new rows) + of_row f (first_row (has_key (key new)) rows)
          ≡ sum_rows f rows + f (stored_row new (first_row (has_key (key new)) rows))
    unfolding sum_rows upsert first_row
    sum_rows-upsert f new [] = omega arith
    sum_rows-upsert f new (old ∷ rows) = elim (Bool-cases (pair_eq (key old) (key new))) [
      | inl e ↦
          rw (upsert_old new old rows e, found_here (has_key (key new)) old rows e) (omega arith)
      | inr e ↦
          rw (upsert_on new old rows e, found_on (has_key (key new)) old rows e)
            (omega (arith, sum_rows-upsert f new rows))
    ]

    -- An update leaves the key as it is.
    module _ (keeps : (new old : A) → key old ≡ key new → key (keep new old) ≡ key new) where
      key_of_kept :
          (new old : A) → pair_eq (key old) (key new) ≡ true → key (keep new old) ≡ key new
      key_of_kept new old e = keeps new old (pair_eq_sound (key old) (key new) e)

      apart_from :
          (new old : A) (k : ℕ × ℕ)
          → pair_eq (key old) (key new) ≡ false
          → pair_eq (key new) k ≡ true
          → pair_eq (key old) k ≡ false
      apart_from new old k e n = ap (pair_eq (key old)) (sym (pair_eq_sound (key new) k n)) ∙ e

      same_as :
          (new old : A) (k : ℕ × ℕ)
          → pair_eq (key old) (key new) ≡ true
          → pair_eq (key old) k ≡ pair_eq (key new) k
      same_as new old k e = ap (λ x. pair_eq x k) (pair_eq_sound (key old) (key new) e)

      -- The row that is found after an upsert is the stored one under the row's key, and under
      -- any other key the one before.
      pub first_row-upsert :
          (new : A) (k : ℕ × ℕ) (rows : List A)
          → first_row (has_key k) (upsert new rows) ≡ (
              if pair_eq (key new) k
              then some (stored_row new (first_row (has_key (key new)) rows))
              else first_row (has_key k) rows)
      unfolding first_row upsert
      first_row-upsert new k [] = elim (Bool-cases (pair_eq (key new) k)) [
        | inl n ↦ rw n refl
        | inr n ↦ rw n refl
      ]
      first_row-upsert new k (old ∷ rows) = elim (Bool-cases (pair_eq (key old) (key new))) [
        | inl e ↦ elim (Bool-cases (pair_eq (key new) k)) [
          | inl n ↦
              rw (n, upsert_old new old rows e, found_here (has_key (key new)) old rows e)
                (found_here (has_key k) (keep new old) rows
                  (ap (λ x. pair_eq x k) (key_of_kept new old e) ∙ n))
          | inr n ↦
              rw (n, upsert_old new old rows e)
                (found_on (has_key k) (keep new old) rows
                    (ap (λ x. pair_eq x k) (key_of_kept new old e) ∙ n)
                  ∙ sym (found_on (has_key k) old rows (same_as new old k e ∙ n)))
        ]
        | inr e ↦ elim (Bool-cases (pair_eq (key new) k)) [
          | inl n ↦
              rw (n, upsert_on new old rows e, found_on (has_key (key new)) old rows e)
                (found_on (has_key k) old (upsert new rows) (apart_from new old k e n)
                  ∙ first_row-upsert new k rows
                  ∙ rw n refl)
          | inr n ↦ elim (Bool-cases (pair_eq (key old) k)) [
            | inl o ↦
                rw (n, upsert_on new old rows e)
                  (found_here (has_key k) old (upsert new rows) o
                    ∙ sym (found_here (has_key k) old rows o))
            | inr o ↦
                rw (n, upsert_on new old rows e)
                  (found_on (has_key k) old (upsert new rows) o
                    ∙ first_row-upsert new k rows
                    ∙ rw n (sym (found_on (has_key k) old rows o)))
          ]
        ]
      ]

      -- A key has one row after an upsert of it if it had none, and else as many as before, so that
      -- a unique key stays unique.
      pub count-upsert :
          (new : A) (k : ℕ × ℕ) (rows : List A)
          → count_if (has_key k) (upsert new rows) ≡ (
              if pair_eq (key new) k
              then max 1 (count_if (has_key k) rows)
              else count_if (has_key k) rows)
      unfolding upsert
      count-upsert new k [] = ground arith
      count-upsert new k (old ∷ rows) = elim (Bool-cases (pair_eq (key old) (key new))) [
        | inl e ↦
            rw (upsert_old new old rows e)
              (ground (arith, ap (λ x. pair_eq x k) (key_of_kept new old e), same_as new old k e))
        | inr e ↦
            rw (upsert_on new old rows e)
              (ground (arith, count-upsert new k rows, apart_from new old k e))
      ]
