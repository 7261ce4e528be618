-- ===== src/Duration/Text.antt =====
-- source/containers/vinstant.cpp: durations as text.
mod Suffixes
mod Units
mod RoundTrip
mod Tests
use code_vault.Base.{
  ℕ, zero, suc, ◌+◌, ◌-◌, ◌*◌, ◌/◌, ◌%◌, Bool, true, false, not, ◌&&◌, ◌||◌, List, [], ◌∷◌, ◌++◌,
  Result, ok, err, ◌>>=◌, ◌==◌, ltb, leb, ltb_ℤ, if◌then◌else◌, ℤ, pos, negsuc, length, take,
}
use code_vault.Duration.{
  unspecified, positive_infinity, negative_infinity, eq_ℤ, negate_ℤ, times_ℕ, quotient_ℕ,
  remainder_ℕ, vs64,
}
use code_vault.Strings.{parse_s64, decimal, reverse}

-- kMillisecondsPerSecond, kMillisecondsPerMinute, kMillisecondsPerHour and kMillisecondsPerDay.
abbrev pub per_second : ℕ
per_second = 1000

abbrev pub per_minute : ℕ
per_minute = 60000

abbrev pub per_hour : ℕ
per_hour = 3600000

abbrev pub per_day : ℕ
per_day = 86400000

-- static_cast<int> of a Vs64, to 32 bits.
abbrev pub to_int : ℤ → ℤ
to_int (pos n) =
    let r = n % 0x100000000 in if ltb r 0x80000000 then pos r else negsuc (0xffffffff - r)
to_int (negsuc n) =
    let r = n % 0x100000000 in if ltb r 0x80000000 then negsuc r else pos (0xffffffff - r)

abbrev pub is_multiple : ℤ → ℕ → Bool
is_multiple d unit = eq_ℤ (remainder_ℕ d unit) (pos 0)

-- "UNSPECIFIED", "INFINITY" and "-INFINITY".
abbrev pub unspecified_word : List ℕ
unspecified_word = b'U' ∷ b'N' ∷ b'S' ∷ b'P' ∷ b'E' ∷ b'C' ∷ b'I' ∷ b'F' ∷ b'I' ∷ b'E' ∷ b'D' ∷ []

abbrev pub infinity_word : List ℕ
infinity_word = b'I' ∷ b'N' ∷ b'F' ∷ b'I' ∷ b'N' ∷ b'I' ∷ b'T' ∷ b'Y' ∷ []

abbrev pub negative_infinity_word : List ℕ
negative_infinity_word = b'-' ∷ infinity_word

-- getDurationString.
pub get_duration_string : ℤ → List ℕ
get_duration_string d =
    if not (ltb_ℤ d (pos 0)) && ltb_ℤ d (pos per_second)
    then decimal d ++ b'm' ∷ b's' ∷ []
    else (if eq_ℤ d unspecified
        then unspecified_word
        else (if eq_ℤ d positive_infinity
            then infinity_word
            else (if eq_ℤ d negative_infinity
                then negative_infinity_word
                else (if is_multiple d per_day
                    then decimal (to_int (quotient_ℕ d per_day)) ++ b'd' ∷ []
                    else (if is_multiple d per_hour
                        then decimal (to_int (quotient_ℕ d per_hour)) ++ b'h' ∷ []
                        else (if is_multiple d per_minute
                            then decimal (to_int (quotient_ℕ d per_minute)) ++ b'm' ∷ []
                            else (if is_multiple d per_second
                                then decimal (to_int (quotient_ℕ d per_second)) ++ b's' ∷ []
                                else decimal d ++ b'm' ∷ b's' ∷ [])))))))

-- The suffixes of a string, by its characters from the last one back.
abbrev pub starts_with : List ℕ → List ℕ → Bool
starts_with s [] = true
starts_with [] (d ∷ t) = false
starts_with (c ∷ s) (d ∷ t) = c == d && starts_with s t

-- endsWith, of a suffix that is not empty.
pub ends_with : List ℕ → List ℕ → Bool
ends_with s suffix = starts_with (reverse s) (reverse suffix)

-- truncateLength, to the length less `count`, where the string is that long.
pub truncated : List ℕ → (count : ℕ) → List ℕ
truncated s count = take (length s - count) s

abbrev pub lower : ℕ → ℕ
lower c = if leb b'A' c && leb c b'Z' then c + 32 else c

-- equalsIgnoreCase, on strings without a 0 byte.
abbrev pub equals_ignore_case : List ℕ → List ℕ → Bool
equals_ignore_case [] [] = true
equals_ignore_case (c ∷ s) (d ∷ t) = lower c == lower d && equals_ignore_case s t
equals_ignore_case _ _ = false

-- A number of units, from a string without the suffix.
pub units : ℕ → List ℕ → Result ℤ
unfolding vs64
units unit s = parse_s64 s >>= λ n. vs64 (times_ℕ n unit)

-- setDurationString; `fractional` is parseDouble with the conversion to milliseconds.
pub set_duration_string : (fractional : List ℕ → Result ℤ) → List ℕ → Result ℤ
unfolding ends_with truncated units
set_duration_string fractional s =
    if ends_with s (b'm' ∷ b's' ∷ [])
    then parse_s64 (truncated s 2)
    else (if ends_with s (b's' ∷ [])
        then units per_second (truncated s 1)
        else (if ends_with s (b'm' ∷ [])
            then units per_minute (truncated s 1)
            else (if ends_with s (b'h' ∷ [])
                then units per_hour (truncated s 1)
                else (if equals_ignore_case s unspecified_word
                    then ok unspecified
                    else (if equals_ignore_case s infinity_word
                        then ok positive_infinity
                        else (if equals_ignore_case s negative_infinity_word
                            then ok negative_infinity
                            else (if ends_with s (b'd' ∷ [])
                                then units per_day (truncated s 1)
                                else fractional s)))))))
