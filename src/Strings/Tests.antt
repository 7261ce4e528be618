-- ===== src/Strings/Tests.antt =====
-- Examples for the parsing of integers of source/containers/vstring.cpp.
use code_vault.Base.{◌≡◌, refl, [], ◌∷◌, ok, err, range_error, fault, pos, negsuc, arith}
use code_vault.Duration.{vs64}
use code_vault.Strings.{parse_s64, parse_int, decimal, digits_back}
use code_vault.Strings.RoundTrip.{parse_s64-decimal}
use code_vault.Strings.Overflow.{parse_s64-decimal_overflow}

unsigned_sign : parse_s64 (b'+' ∷ b'4' ∷ b'2' ∷ []) ≡ ok (pos 42)
unfolding parse_s64 vs64
unsigned_sign = refl

sign_behind : parse_s64 (b'4' ∷ b'-' ∷ []) ≡ err range_error
unfolding parse_s64 vs64
sign_behind = refl

-- parseInt on the least int, and on the number below it.
least_int : parse_int (decimal (negsuc 0x7fffffff)) ≡ ok (negsuc 0x7fffffff)
unfolding parse_int decimal digits_back vs64
least_int = refl

below_int : parse_int (decimal (negsuc 0x80000000)) ≡ err range_error
unfolding parse_int decimal digits_back vs64
below_int = refl

parse_s64-decimal_example : parse_s64 (decimal (negsuc 1233)) ≡ ok (negsuc 1233)
parse_s64-decimal_example = parse_s64-decimal (negsuc 1233) (omega arith)

-- The greatest Vs64.
parse_s64-decimal_overflow_example : parse_s64 (decimal (pos 0x7fffffffffffffff)) ≡ err fault
parse_s64-decimal_overflow_example =
    parse_s64-decimal_overflow (pos 0x7fffffffffffffff) (omega arith)
