-- ===== src/Exotel/Numbers.antt =====
-- ListIncomingPhoneNumbers and ValidateExophoneOnAccount (internal/exotel/client.go), over what the
-- vendor replies to a page and to a number. The set of numbers is a list in the order of the replies.
use exotel_monitoring_platfo.Prelude.{
  ℕ, zero, suc, Bool, true, false, ◌||◌, List, [], ◌∷◌, ◌++◌, Option, none, some, Text, text_eq,
  is_empty, if◌then◌else◌, ◌==◌, any_of,
}
use exotel_monitoring_platfo.Utils.Phone.{dedupe_formats}

-- incomingPhoneNumbersResponse
pub record NumbersPage : Type 0 where
  pub numbers : List Text
  pub next_page_uri : Text

-- an error of the request, or a status with the payload
pub data NumbersReply : Type 0 where
  unreachable : NumbersReply
  replied : ℕ → NumbersPage → NumbersReply

abbrev pub has_number : Text → List Text → Bool
has_number n set = any_of (λ m. text_eq m n) set

-- set[n] = struct{}{}, for n != ""
unfoldable pub put_number : List Text → Text → List Text
put_number set n = if is_empty n || has_number n set then set else set ++ n ∷ []

unfoldable pub put_numbers : List Text → List Text → List Text
unfolding put_number
put_numbers set [] = set
put_numbers set (n ∷ numbers) = put_numbers (put_number set n) numbers

-- an empty page, or no next one
abbrev pub no_more : NumbersPage → Bool
no_more reply = elim reply.numbers [ [] ↦ true | n ∷ numbers ↦ is_empty reply.next_page_uri ]

-- the pages that are left of the 50
unfoldable pub list_pages : ℕ → (ℕ → NumbersReply) → ℕ → List Text → Option (List Text)
unfolding put_numbers
list_pages zero api page set = some set
list_pages (suc left) api page set = elim (api page) [
  | unreachable ↦ none
  | replied status reply ↦
      let more = put_numbers set reply.numbers in
      let rest = list_pages left api (suc page) more in
      if status == 200 then if no_more reply then some more else rest else none
]

unfoldable pub list_incoming_phone_numbers : (ℕ → NumbersReply) → Option (List Text)
unfolding list_pages
list_incoming_phone_numbers api = list_pages 50 api 0 []

-- the loop over the candidates: a failed request and any status but 200 are passed over
unfoldable pub any_found : (Text → Option ℕ) → List Text → Bool
any_found status_of [] = false
any_found status_of (candidate ∷ candidates) =
    let rest = any_found status_of candidates in
    elim (status_of candidate) [ none ↦ rest | some status ↦ if status == 200 then true else rest ]

-- `none` is the panic of dedupeFormats; no reply gives an error
unfoldable pub validate_exophone : (Text → Option ℕ) → Text → Option Bool
unfolding any_found dedupe_formats
validate_exophone status_of number = elim (dedupe_formats number) [
  | none ↦ none
  | some candidates ↦ some (any_found status_of candidates)
]
