-- ===== src/Utils/Phone.antt =====
-- NormalizePhone (internal/utils/phone.go) and dedupeFormats (internal/exotel/client.go). The
-- length in bytes of a text of digits is its number of code points.
use exotel_monitoring_platfo.Prelude.{
  ℕ, zero, suc, ◌-◌, ◌<◌, ◌≡◌, refl, ap, ◌∙◌, true, List, [], ◌∷◌, ◌++◌, Option, none, some, Text,
  codes, text_eq, is_empty, is_digit, has_prefix, if◌then◌else◌, keep_if, any_of, length, drop, ltb,
  ◌==◌, ◌⊎◌, ◌↔◌, inl, inr, All, arith,
}

-- the digits of a text, in order
unfoldable pub digits_of : Text → Text
digits_of s = keep_if is_digit s

-- the switch on the number of digits
unfoldable pub canonical : Text → Text
canonical digits =
    if length digits == 10
    then b'0' ∷ digits
    else if length digits == 11
    then digits
    else if length digits == 12
    then if has_prefix digits (codes "91") then b'0' ∷ drop 2 digits else digits
    else if length digits == 13
    then if has_prefix digits (codes "091") then b'0' ∷ drop 3 digits else digits
    else digits

unfoldable pub normalize_phone : Text → Text
unfolding digits_of canonical
normalize_phone s = canonical (digits_of s)

-- d[len(d)-10:], which panics on fewer than ten digits
unfoldable pub last_ten : Text → Option Text
last_ten d = if ltb (length d) 10 then none else some (drop (length d - 10) d)

-- appends v unless it is empty or there already
add_new : Text → List Text → List Text
add_new v out =
    if is_empty v then out else if any_of (λ u. text_eq u v) out then out else out ++ v ∷ []

-- `none` is a panic
unfoldable pub dedupe_formats : Text → Option (List Text)
unfolding digits_of last_ten add_new
dedupe_formats number =
    let d = digits_of number in
    elim (last_ten d) [
      | none ↦ none
      | some tail ↦ some (
          add_new tail
            (add_new (codes "+91" ++ tail) (add_new (b'0' ∷ tail) (add_new d (add_new number [])))))
    ]

digits-keep : (s : Text) → All (λ c. is_digit c ≡ true) (keep_if is_digit s)
digits-keep [] = tt
digits-keep (c ∷ s) = ground (arith, digits-keep s)

keep-digits : (s : Text) → All (λ c. is_digit c ≡ true) s → keep_if is_digit s ≡ s
keep-digits [] h = refl
keep-digits (c ∷ s) h = ground (arith, keep-digits s h.1)

length-drop : (n : ℕ) (s : Text) → length (drop n s) ≡ length s - n
length-drop zero s = omega arith
length-drop (suc n) [] = omega arith
length-drop (suc n) (c ∷ s) = omega (arith, length-drop n s)

digits-drop :
    (n : ℕ) (s : Text) → All (λ c. is_digit c ≡ true) s → All (λ c. is_digit c ≡ true) (drop n s)
digits-drop zero s h = h
digits-drop (suc n) [] h = tt
digits-drop (suc n) (c ∷ s) h = digits-drop n s h.1

canonical-digits :
    (s : Text) → All (λ c. is_digit c ≡ true) s → All (λ c. is_digit c ≡ true) (canonical s)
unfolding canonical
canonical-digits s h = ground (arith, digits-drop 2 s h, digits-drop 3 s h)

canonical_cases : (s : Text) → (canonical s ≡ s) ⊎ (length (canonical s) ≡ 11)
unfolding canonical
canonical_cases s = ground (arith, length-drop 2 s, length-drop 3 s)

canonical_eleven : (s : Text) → length s ≡ 11 → canonical s ≡ s
unfolding canonical
canonical_eleven s h = ground arith

canonical_idem : (s : Text) → canonical (canonical s) ≡ canonical s
canonical_idem s = elim (canonical_cases s) [
  | inl e ↦ ap canonical e
  | inr e ↦ canonical_eleven (canonical s) e
]

-- Normalising a number again changes nothing, whatever the text.
pub normalize_phone_idem : (s : Text) → normalize_phone (normalize_phone s) ≡ normalize_phone s
unfolding normalize_phone
normalize_phone_idem s =
    ap canonical
      (keep-digits (canonical (digits_of s)) (canonical-digits (digits_of s) (digits-keep s)))
    ∙ canonical_idem (digits_of s)

-- The five accepted spellings of a ten-digit number go to the one canonical form, its digits
-- behind a 0.
pub normalize_phone_formats :
    (n : Text)
    → length n ≡ 10
    → All (λ c. is_digit c ≡ true) n
    → (normalize_phone n ≡ b'0' ∷ n)
      × (normalize_phone (codes "0" ++ n) ≡ b'0' ∷ n)
      × (normalize_phone (codes "91" ++ n) ≡ b'0' ∷ n)
      × (normalize_phone (codes "+91" ++ n) ≡ b'0' ∷ n)
      × (normalize_phone (codes "091" ++ n) ≡ b'0' ∷ n)
unfolding normalize_phone
normalize_phone_formats n h d =
    rw (keep-digits n d) (ground arith, ground arith, ground arith, ground arith, ground arith)

-- The formats to try are there exactly for numbers of at least ten digits; a shorter number makes
-- the slice expression panic.
pub dedupe_formats_panics :
    (number : Text) → (dedupe_formats number ≡ none) ↔ (length (digits_of number) < 10)
unfolding dedupe_formats
dedupe_formats_panics number = (λ h. ground arith, λ h. ground arith)
