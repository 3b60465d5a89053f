-- ===== src/Prelude/Strings.antt =====
-- Go strings as lists of code points, with the functions of package strings that the source calls.
use Prim.Native.Nat.{ℕ, zero, suc, ◌+◌, ◌/◌, ◌%◌}
use Prim.Native.Char.{code}
use Prim.Native.String.{String}
use mathlib.Core.Path.{◌≡◌, refl, subst}
use mathlib.Core.Logic.{◌↔◌}
use mathlib.Core.Bool.{Bool, true, false, ◌&&◌}
use mathlib.Core.List.{List, [], ◌∷◌, map}
use mathlib.Core.Option.{Option, none, some}
use native.Mathlib.Omega.{arith}
use exotel_monitoring_platfo.Prelude.Tests.{◌==◌, leb, ltb, if◌then◌else◌}

abbrev pub Text : Type 0
Text = List ℕ

-- A literal of the source.
abbrev pub codes : String → Text
codes String.[] = []
codes (String.◌∷◌ c s) = code c ∷ codes s

-- `==` on strings
abbrev pub text_eq : Text → Text → Bool
text_eq [] [] = true
text_eq [] (d ∷ t) = false
text_eq (c ∷ s) [] = false
text_eq (c ∷ s) (d ∷ t) = c == d && text_eq s t

pub text_eq_refl : (s : Text) → text_eq s s ≡ true
text_eq_refl [] = refl
text_eq_refl (c ∷ s) = ground (arith, text_eq_refl s)

pub text_eq_sound : (s t : Text) → text_eq s t ≡ true → s ≡ t
text_eq_sound [] [] h = refl
text_eq_sound [] (d ∷ t) h = cc
text_eq_sound (c ∷ s) [] h = cc
text_eq_sound (c ∷ s) (d ∷ t) h = ground (arith, text_eq_sound s t)

pub text_eq_iff : (s t : Text) → (text_eq s t ≡ true) ↔ (s ≡ t)
text_eq_iff s t = (text_eq_sound s t, λ e. subst (λ u. text_eq s u ≡ true) e (text_eq_refl s))

abbrev pub is_empty : Text → Bool
is_empty [] = true
is_empty (c ∷ s) = false

-- The rest of a text behind a prefix.
abbrev pub strip_prefix? : Text → Text → Option Text
strip_prefix? [] s = some s
strip_prefix? (p ∷ ps) [] = none
strip_prefix? (p ∷ ps) (c ∷ s) = if p == c then strip_prefix? ps s else none

-- strings.HasPrefix(s, p)
abbrev pub has_prefix : Text → Text → Bool
has_prefix s p = elim (strip_prefix? p s) [ none ↦ false | some _ ↦ true ]

-- strings.TrimPrefix(s, p)
abbrev pub trim_prefix : Text → Text → Text
trim_prefix s p = elim (strip_prefix? p s) [ none ↦ s | some rest ↦ rest ]

abbrev pub lower : ℕ → ℕ
lower c = if leb b'A' c && leb c b'Z' then c + 32 else c

-- strings.ToLower, on the letters of ASCII
abbrev pub to_lower : Text → Text
to_lower s = map lower s

abbrev pub is_digit : ℕ → Bool
is_digit c = leb b'0' c && leb c b'9'

-- strings.Contains(s, c) for a one-character text
abbrev pub contains_char : ℕ → Text → Bool
contains_char d [] = false
contains_char d (c ∷ s) = if c == d then true else contains_char d s

-- The digits of a number in front of a text. The fuel is a bound on their number.
abbrev pub digits_from : ℕ → ℕ → Text → Text
digits_from zero n s = s
digits_from (suc fuel) n s =
    let digit = b'0' + n % 10 in
    let rest = digits_from fuel (n / 10) (digit ∷ s) in if ltb n 10 then digit ∷ s else rest

-- fmt's %d for a number that is not negative; it has no more digits than its value and one
abbrev pub decimal : ℕ → Text
decimal n = digits_from (suc n) n []
