-- ===== src/Tests/Codec.antt =====
-- A text for a breakdown, read back from its end: 0 closes a row, 1 a pair, 2 counts one, and the
-- others are the letters of a key, raised by 3.
use exotel_monitoring_platfo.Prelude.{ℕ, zero, suc, ◌≡◌, refl, ap, [], ◌∷◌, some, Text, Json}
use exotel_monitoring_platfo.Metrics.Breakdown.{Breakdown, Counts}
use exotel_monitoring_platfo.Metrics.Breakdown.Stored.{RoundTrips}

record Read : Type 0 where
  key : Text
  num : ℕ
  row : Counts
  rows : Breakdown

abbrev state : Text → ℕ → Counts → Breakdown → Read
state key num row rows = record { key = key; num = num; row = row; rows = rows }

step : ℕ → Read → Read
step zero r = state [] 0 [] ((r.key, r.row) ∷ r.rows)
step (suc zero) r = state [] 0 ((r.key, r.num) ∷ r.row) r.rows
step (suc (suc zero)) r = record r { num = suc r.num }
step (suc (suc (suc c))) r = record r { key = c ∷ r.key }

read : Text → Read
unfolding step
read [] = state [] 0 [] []
read (c ∷ s) = step c (read s)

put_key : Text → Text → Text
put_key [] t = t
put_key (c ∷ k) t = suc (suc (suc c)) ∷ put_key k t

put_num : ℕ → Text → Text
put_num zero t = t
put_num (suc n) t = 2 ∷ put_num n t

put_row : Counts → Text → Text
unfolding put_key put_num
put_row [] t = t
put_row ((k, n) ∷ row) t = 1 ∷ put_key k (put_num n (put_row row t))

put : Breakdown → Text
unfolding put_row
put [] = []
put ((k, row) ∷ m) = 0 ∷ put_key k (put_row row (put m))

read-put_key :
    (k t : Text) (n : ℕ) (row : Counts) (m : Breakdown)
    → read t ≡ state [] n row m
    → read (put_key k t) ≡ state k n row m
unfolding put_key read step
read-put_key [] t n row m e = e
read-put_key (c ∷ k) t n row m e = ap (step (suc (suc (suc c)))) (read-put_key k t n row m e)

read-put_num :
    (n : ℕ) (t : Text) (row : Counts) (m : Breakdown)
    → read t ≡ state [] 0 row m
    → read (put_num n t) ≡ state [] n row m
unfolding put_num read step
read-put_num zero t row m e = e
read-put_num (suc n) t row m e = ap (step 2) (read-put_num n t row m e)

read-put_row :
    (row : Counts) (t : Text) (m : Breakdown)
    → read t ≡ state [] 0 [] m
    → read (put_row row t) ≡ state [] 0 row m
unfolding put_row read step
read-put_row [] t m e = e
read-put_row ((k, n) ∷ row) t m e = ap (step 1) (
    read-put_key k (put_num n (put_row row t)) n row m
      (read-put_num n (put_row row t) row m (read-put_row row t m e)))

read-put : (m : Breakdown) → read (put m) ≡ state [] 0 [] m
unfolding put read step
read-put [] = refl
read-put ((k, row) ∷ m) =
    ap (step 0)
      (read-put_key k (put_row row (put m)) 0 row m (read-put_row row (put m) m (read-put m)))

unfoldable pub codec : Json Breakdown
unfolding read put
codec = record { marshal = λ m. 3 ∷ put m; unmarshal = λ s. some (read s).rows }

pub codec-RoundTrips : RoundTrips codec
unfolding codec read step put
codec-RoundTrips = record {
  not_empty = λ m. refl;
  reads = λ m. (m, ap (λ (r : Read). some r.rows) (read-put m), λ l1 l2. refl);
}
