-- ===== src/Metrics/Times.antt =====
-- parseExotelTime and the hourly distribution of internal/metrics/engine.go. The layouts are
-- parsed by package time, so a parser for each is a parameter.
use exotel_monitoring_platfo.Prelude.{
  ℕ, zero, suc, Bool, false, List, [], ◌∷◌, Option, none, some, Text, is_empty, if◌then◌else◌,
  replicate, ltb,
}
use exotel_monitoring_platfo.Models.{Time, zero_time, at}

-- time.ParseInLocation for "2006-01-02 15:04:05" in IST, time.Parse for RFC 3339 and for
-- "Mon, 02 Jan 2006 15:04:05 -0700"; `none` is an error.
pub record TimeParsers : Type 0 where
  pub bare_ist : Text → Option Time
  pub rfc3339 : Text → Option Time
  pub rfc1123z : Text → Option Time

-- t.Hour()
abbrev pub hour_of : Time → ℕ
hour_of zero_time = 0
hour_of (at instant hour) = hour

-- the layouts of the loop, tried in turn
first_layout : List (Option Time) → Option Time
first_layout [] = none
first_layout (none ∷ rest) = first_layout rest
first_layout (some t ∷ rest) = some t

-- The result and the error that go back: the code returns time.Time{} with a nil error where no
-- layout fits, so that the error is never there.
unfoldable pub parse_exotel_time : TimeParsers → Text → Time × Bool
unfolding first_layout
parse_exotel_time p s = elim (p.bare_ist s) [
  | some t ↦ (t, false)
  | none ↦ elim (first_layout (p.rfc3339 s ∷ p.rfc1123z s ∷ [])) [
    | some t ↦ (t, false)
    | none ↦ (zero_time, false)
  ]
]

-- if t, err := parseExotelTime(s); err == nil { … } for a text that is not ""
unfoldable pub parsed : TimeParsers → Text → Option Time
unfolding parse_exotel_time
parsed p s = let (t, failed) = parse_exotel_time p s in if failed then none else some t

-- StartTime if it is given, else DateCreated if it is given
unfoldable pub start_of : TimeParsers → Text → Text → Option Time
unfolding parsed
start_of p start_time date_created =
    if is_empty start_time
    then if is_empty date_created then none else parsed p date_created
    else parsed p start_time

-- dist[h]++ on a [24]int
unfoldable pub bump_hour : ℕ → List ℕ → List ℕ
bump_hour h [] = []
bump_hour zero (n ∷ dist) = suc n ∷ dist
bump_hour (suc h) (n ∷ dist) = n ∷ bump_hour h dist

unfoldable pub count_hour : Option Time → List ℕ → List ℕ
unfolding bump_hour
count_hour none dist = dist
count_hour (some t) dist = bump_hour (hour_of t) dist

abbrev pub empty_hours : List ℕ
empty_hours = replicate 24 0

-- for h, count := range dist { if count > maxCalls { maxCalls = count; peak = h } }, from hour h
unfoldable pub peak_from : ℕ → ℕ → ℕ → List ℕ → ℕ
peak_from h max_calls peak [] = peak
peak_from h max_calls peak (n ∷ dist) =
    if ltb max_calls n then peak_from (suc h) n h dist else peak_from (suc h) max_calls peak dist

unfoldable pub peak_hour : List ℕ → ℕ
unfolding peak_from
peak_hour dist = peak_from 0 0 0 dist
