-- ===== src/Strings.antt =====
-- source/containers/vstring.cpp: VString, as the list of its bytes: the parsing of integers.
pub mod Integers
pub mod RoundTrip
mod Overflow
mod Tests
use code_vault.Base.{
  ℕ, zero, suc, ◌+◌, ◌-◌, ◌*◌, ◌/◌, ◌%◌, Bool, true, false, ◌&&◌, ◌||◌, List, [], ◌∷◌, ◌++◌, Result,
  ok, err, range_error, fault, ◌>>=◌, ◌==◌, ltb, leb, if◌then◌else◌, ℤ, pos, negsuc, ◌+ℤ◌, ltb_ℤ,
}
use code_vault.Duration.{vs64, negate_ℤ}

abbrev pub reverse : List ℕ → List ℕ
reverse [] = []
reverse (c ∷ s) = reverse s ++ c ∷ []

-- The multiplier, which must not overflow.
pub grow : ℕ → Result ℕ
grow m = if ltb (m * 10) 0x8000000000000000 then ok (m * 10) else err fault

-- What a character does to the result; `rest` are those in front of it, its index their number.
pub add_character : ℕ → (rest : List ℕ) → ℤ → ℕ → Result ℤ
add_character c [] result m =
    if c == b'-'
    then vs64 (negate_ℤ result)
    else (if c == b'+'
        then ok result
        else (if leb b'0' c && leb c b'9'
            then (vs64 (pos (m * (c - b'0'))) >>= λ p. vs64 (result +ℤ p))
            else err range_error))
add_character c (d ∷ rest) result m =
    if leb b'0' c && leb c b'9'
    then (vs64 (pos (m * (c - b'0'))) >>= λ p. vs64 (result +ℤ p))
    else err range_error

-- The loop of _parseSignedInteger, on the characters from the last one back.
pub parse_back : List ℕ → ℤ → ℕ → Result ℤ
unfolding add_character grow
parse_back [] result m = ok result
parse_back (c ∷ rest) result m = do
  result' ← add_character c rest result m
  m' ← grow m
  parse_back rest result' m'

-- parseS64.
pub parse_s64 : List ℕ → Result ℤ
unfolding parse_back
parse_s64 s = parse_back (reverse s) (pos 0) 1

-- parseInt, where int has 32 bits.
pub parse_int : List ℕ → Result ℤ
unfolding parse_s64
parse_int s = do
  result ← parse_s64 s
  if ltb_ℤ result (negsuc 0x7fffffff) || ltb_ℤ (pos 0x7fffffff) result
      then err range_error
      else ok result

-- A number in decimal digits, as the C library formats it, the last digit first; a Vs64 has at most 19 digits.
unfoldable pub digits_back : (fuel : ℕ) → ℕ → List ℕ
digits_back zero n = []
digits_back (suc fuel) n =
    let rest = digits_back fuel (n / 10) in (b'0' + n % 10) ∷ (if n / 10 == 0 then [] else rest)

abbrev pub decimal_back : ℤ → List ℕ
decimal_back (pos n) = digits_back 19 n
decimal_back (negsuc n) = digits_back 19 (suc n) ++ b'-' ∷ []

-- What operator=(Vs64) formats.
unfoldable pub decimal : ℤ → List ℕ
decimal z = reverse (decimal_back z)
