-- ===== src/Duration.antt =====
-- source/containers/vinstant.cpp, vinstant.h: VDuration, a count of milliseconds in 64 bits, three values of
-- which are special.
pub mod Arithmetic
pub mod Spec
pub mod Text
mod Tests
use code_vault.Base.{
  ℕ, zero, suc, ◌+◌, ◌*◌, ◌/◌, ◌%◌, Bool, true, false, not, ◌&&◌, ◌||◌, Result, ok, err, fault,
  ◌==◌, ltb, if◌then◌else◌, ℤ, pos, negsuc, ◌+ℤ◌, ◌-ℤ◌, ltb_ℤ,
}

-- V_MAX_S64, V_MAX_S64 - 1 and V_MIN_S64.
abbrev pub unspecified : ℤ
unspecified = pos 0x7fffffffffffffff

abbrev pub positive_infinity : ℤ
positive_infinity = pos 0x7ffffffffffffffe

abbrev pub negative_infinity : ℤ
negative_infinity = negsuc 0x7fffffffffffffff

abbrev pub eq_ℤ : ℤ → ℤ → Bool
eq_ℤ (pos m) (pos n) = m == n
eq_ℤ (negsuc m) (negsuc n) = m == n
eq_ℤ _ _ = false

abbrev pub negate_ℤ : ℤ → ℤ
negate_ℤ (pos zero) = pos 0
negate_ℤ (pos (suc n)) = negsuc n
negate_ℤ (negsuc n) = pos (suc n)

abbrev pub times_ℕ : ℤ → ℕ → ℤ
times_ℕ (pos m) n = pos (m * n)
times_ℕ (negsuc m) n = negate_ℤ (pos (suc m * n))

abbrev pub times_ℤ : ℤ → ℤ → ℤ
times_ℤ a (pos n) = times_ℕ a n
times_ℤ a (negsuc n) = negate_ℤ (times_ℕ a (suc n))

-- Division by a number above 0, and remainder, with the quotient truncated.
abbrev pub quotient_ℕ : ℤ → ℕ → ℤ
quotient_ℕ (pos m) n = pos (m / n)
quotient_ℕ (negsuc m) n = negate_ℤ (pos (suc m / n))

abbrev quotient_ℤ : ℤ → ℤ → ℤ
quotient_ℤ a (pos n) = quotient_ℕ a n
quotient_ℤ a (negsuc n) = negate_ℤ (quotient_ℕ a (suc n))

abbrev pub remainder_ℕ : ℤ → ℕ → ℤ
remainder_ℕ (pos m) n = pos (m % n)
remainder_ℕ (negsuc m) n = negate_ℤ (pos (suc m % n))

abbrev remainder_ℤ : ℤ → ℤ → ℤ
remainder_ℤ a (pos n) = remainder_ℕ a n
remainder_ℤ a (negsuc n) = remainder_ℕ a (suc n)

-- The result of an operation on Vs64: an overflow is undefined.
unfoldable pub vs64 : ℤ → Result ℤ
vs64 (pos n) = if ltb n 0x8000000000000000 then ok (pos n) else err fault
vs64 (negsuc n) = if ltb n 0x8000000000000000 then ok (negsuc n) else err fault

-- isSpecific.
abbrev pub is_specific : ℤ → Bool
is_specific d =
    not (eq_ℤ d unspecified) && not (eq_ℤ d negative_infinity) && not (eq_ℤ d positive_infinity)

-- operator+=.
pub add : ℤ → ℤ → Result ℤ
unfolding vs64
add a b =
    if is_specific a
    then (if is_specific b
        then vs64 (a +ℤ b)
        else (if eq_ℤ b positive_infinity
            then ok positive_infinity
            else (if eq_ℤ b negative_infinity then ok negative_infinity else ok a)))
    else (if eq_ℤ a positive_infinity && eq_ℤ b negative_infinity
        then ok (pos 0)
        else (if eq_ℤ a negative_infinity && eq_ℤ b positive_infinity then ok (pos 0) else ok a))

-- operator-=.
pub subtract : ℤ → ℤ → Result ℤ
unfolding vs64
subtract a b =
    if is_specific a
    then (if is_specific b
        then vs64 (a -ℤ b)
        else (if eq_ℤ b positive_infinity
            then ok negative_infinity
            else (if eq_ℤ b negative_infinity then ok positive_infinity else ok a)))
    else (if eq_ℤ a positive_infinity && eq_ℤ b positive_infinity
        then ok (pos 0)
        else (if eq_ℤ a negative_infinity && eq_ℤ b negative_infinity then ok (pos 0) else ok a))

-- operator*=.
pub multiply : ℤ → ℤ → Result ℤ
unfolding vs64
multiply a m =
    if is_specific a
    then vs64 (times_ℤ a m)
    else (if eq_ℤ m (pos 0)
        then ok (pos 0)
        else (if ltb_ℤ m (pos 0)
            then (if eq_ℤ a positive_infinity
                then ok negative_infinity
                else (if eq_ℤ a negative_infinity then ok positive_infinity else ok a))
            else ok a))

-- operator/=, by an int; the quotient of a specific value has no overflow.
pub divide : ℤ → ℤ → ℤ
divide a d =
    if is_specific a
    then (if not (eq_ℤ d (pos 0))
        then quotient_ℤ a d
        else (if not (ltb_ℤ a (pos 0)) then positive_infinity else negative_infinity))
    else a

-- operator%=.
pub modulo : ℤ → ℤ → ℤ
modulo a d =
    if is_specific a
    then (if is_specific d && not (eq_ℤ d (pos 0)) then remainder_ℤ a d else a)
    else a

-- operator-. The negative of a specific value has no overflow.
pub negate : ℤ → ℤ
negate a =
    if is_specific a
    then negate_ℤ a
    else (if eq_ℤ a positive_infinity
        then negative_infinity
        else (if eq_ℤ a negative_infinity then positive_infinity else a))

-- operator+, operator- and operator* of two values, with _complexAdd, _complexSubtract and _complexMultiply.
pub plus : ℤ → ℤ → Result ℤ
unfolding add vs64
plus a b = if is_specific a && is_specific b then vs64 (a +ℤ b) else add a b

pub minus : ℤ → ℤ → Result ℤ
unfolding subtract vs64
minus a b = if is_specific a && is_specific b then vs64 (a -ℤ b) else subtract a b

pub times : ℤ → ℤ → Result ℤ
unfolding multiply vs64
times a m = if is_specific a then vs64 (times_ℤ a m) else multiply a m

-- min and max, with _complexMin and _complexMax, whose first test is the same as theirs.
pub min_duration : ℤ → ℤ → ℤ
min_duration a b =
    if is_specific a && is_specific b
    then (if ltb_ℤ a b then a else b)
    else (if eq_ℤ a unspecified || eq_ℤ b unspecified
        then unspecified
        else (if eq_ℤ a negative_infinity || eq_ℤ b negative_infinity
            then negative_infinity
            else (if eq_ℤ a positive_infinity then b else a)))

pub max_duration : ℤ → ℤ → ℤ
max_duration a b =
    if is_specific a && is_specific b
    then (if ltb_ℤ b a then a else b)
    else (if eq_ℤ a unspecified || eq_ℤ b unspecified
        then unspecified
        else (if eq_ℤ a positive_infinity || eq_ℤ b positive_infinity
            then positive_infinity
            else (if eq_ℤ a negative_infinity then b else a)))

-- abs, with _complexAbs.
pub abs_duration : ℤ → ℤ
unfolding negate
abs_duration d =
    if is_specific d
    then (if ltb_ℤ d (pos 0) then negate d else d)
    else (if eq_ℤ d negative_infinity || eq_ℤ d positive_infinity then positive_infinity else d)
