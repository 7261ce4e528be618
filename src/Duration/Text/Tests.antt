-- ===== src/Duration/Text/Tests.antt =====
-- Examples for durations as text of source/containers/vinstant.cpp: an hour and a half, and seconds beyond an int.
use code_vault.Base.{
  ℕ, ◌≡◌, refl, List, [], ◌∷◌, ◌++◌, Result, err, ok, range_error, ℤ, pos, negsuc, arith,
}
use code_vault.Duration.Text.{get_duration_string, set_duration_string}
use code_vault.Duration.Text.RoundTrip.{set_duration_string-get_duration_string}
use code_vault.Strings.{decimal, digits_back}

-- A parser of fractional seconds that refuses everything.
abbrev no_fractions : List ℕ → Result ℤ
no_fractions s = err range_error

ninety_minutes : get_duration_string (pos 5400000) ≡ b'9' ∷ b'0' ∷ b'm' ∷ []
unfolding get_duration_string decimal digits_back
ninety_minutes = refl

-- 2147483648 seconds, as the conversion to int makes them.
wrapped_seconds : get_duration_string (pos 2147483648000) ≡ decimal (negsuc 2147483647) ++ b's' ∷ []
unfolding get_duration_string
wrapped_seconds = refl

set_duration_string-get_duration_string_example :
    set_duration_string no_fractions (get_duration_string (negsuc 5399999)) ≡ ok (negsuc 5399999)
set_duration_string-get_duration_string_example =
    set_duration_string-get_duration_string no_fractions (negsuc 5399999) (λ h. omega arith)
