-- ===== src/Handlers/Accounts/Appended.antt =====
-- Rows that are appended to a table of internal/handlers/accounts.go, each with the next id.
use mathlib.Core.List.{append_assoc, append-nil}
use exotel_monitoring_platfo.Prelude.{
  ℕ, suc, ◌+◌, ◌≡◌, refl, sym, ap, ◌∙◌, List, [], ◌∷◌, ◌++◌, map, length, length-append, All,
  All-append, arith,
}

module _ {A : Type 0} where
  -- consecutive numbers, as many as there are elements
  abbrev pub ids_from : ℕ → List A → List ℕ
  ids_from n [] = []
  ids_from n (x ∷ xs) = n ∷ ids_from (suc n) xs

  ids_from-append :
      (n : ℕ) (xs ys : List A)
      → ids_from n (xs ++ ys) ≡ ids_from n xs ++ ids_from (n + length xs) ys
  ids_from-append n [] ys = let e : n + 0 ≡ n = omega arith in sym (ap (λ k. ids_from k ys) e)
  ids_from-append n (x ∷ xs) ys =
      let e : suc n + length xs ≡ n + suc (length xs) = omega arith in
      ap (λ rest. n ∷ rest)
        (ids_from-append (suc n) xs ys ∙ ap (λ k. ids_from (suc n) xs ++ ids_from k ys) e)

map-append : {A B : Type 0} (f : A → B) (xs ys : List A) → map f (xs ++ ys) ≡ map f xs ++ map f ys
map-append f [] ys = refl
map-append f (x ∷ xs) ys = ap (λ rest. f x ∷ rest) (map-append f xs ys)

module _ {A K : Type 0} (key : A → K) (id_of : A → ℕ) (P : A → Type 0) where
  -- The table has the old rows and behind them new ones with these keys and consecutive ids, and the
  -- next id lies behind them; P holds of the new rows.
  pub record Appended (keys : List K) (old : List A) (n : ℕ) (table : List A) (m : ℕ) : Type 0 where
    pub rows : List A
    pub rows_are : table ≡ old ++ rows
    pub keys_are : map key rows ≡ keys
    pub ids_are : map id_of rows ≡ ids_from n keys
    pub next_is : m ≡ n + length keys
    pub hold : All P rows

  pub appending_nothing : (old : List A) (n : ℕ) → Appended [] old n old n
  appending_nothing old n = record {
    rows = [];
    rows_are = sym (append-nil old);
    keys_are = refl;
    ids_are = refl;
    next_is = omega arith;
    hold = tt;
  }

  pub appending_one :
      (old : List A) (n : ℕ) (row : A) (k : K)
      → key row ≡ k
      → id_of row ≡ n
      → P row
      → Appended (k ∷ []) old n (old ++ row ∷ []) (suc n)
  appending_one old n row k same_key same_id p = record {
    rows = row ∷ [];
    rows_are = refl;
    keys_are = ap (λ x. x ∷ []) same_key;
    ids_are = ap (λ x. x ∷ []) same_id;
    next_is = omega arith;
    hold = (p, tt);
  }

  pub appending_both :
      (xs ys : List K) (a b c : List A) (n m l : ℕ)
      → Appended xs a n b m
      → Appended ys b m c l
      → Appended (xs ++ ys) a n c l
  appending_both xs ys a b c n m l g h = record {
    rows = g.rows ++ h.rows;
    rows_are = h.rows_are ∙ ap (λ t. t ++ h.rows) g.rows_are ∙ append_assoc a g.rows h.rows;
    keys_are =
        map-append key g.rows h.rows
        ∙ ap (λ zs. zs ++ map key h.rows) g.keys_are
        ∙ ap (λ zs. xs ++ zs) h.keys_are;
    ids_are =
        map-append id_of g.rows h.rows
        ∙ ap (λ zs. zs ++ map id_of h.rows) g.ids_are
        ∙ ap (λ zs. ids_from n xs ++ zs) h.ids_are
        ∙ ap (λ k. ids_from n xs ++ ids_from k ys) g.next_is
        ∙ sym (ids_from-append n xs ys);
    next_is = omega (arith, g.next_is, h.next_is, length-append xs ys);
    hold = All-append P g.rows h.rows g.hold h.hold;
  }
