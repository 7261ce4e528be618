-- ===== src/Duration/Text/Units.antt =====
-- Durations of source/containers/vinstant.cpp that are whole numbers of a unit.
use native.Mathlib.Nat.{div-add-mod', mul-le-mul_left}
use code_vault.Base.{
  ℕ, zero, suc, ◌*◌, ◌/◌, ◌%◌, ◌≤◌, ◌<◌, ◌≡◌, refl, ap, ◌∙◌, true, [], ◌∷◌, ◌++◌, ok, ℤ, pos,
  negsuc, arith, lt→ltb, ==_iff,
}
use code_vault.Duration.{eq_ℤ, negate_ℤ, times_ℕ, quotient_ℕ, vs64}
use code_vault.Strings.{decimal}
use code_vault.Strings.RoundTrip.{magnitude}
use code_vault.Duration.Text.{to_int, is_multiple, truncated, units}
use code_vault.Duration.Text.Suffixes.{suffix_read}

magnitude-negate : (z : ℤ) → magnitude (negate_ℤ z) ≡ magnitude z
magnitude-negate (pos zero) = refl
magnitude-negate (pos (suc n)) = refl
magnitude-negate (negsuc n) = refl

to_int_small : (z : ℤ) → magnitude z < 0x80000000 → to_int z ≡ z
to_int_small (pos n) h = let e : n % 0x100000000 ≡ n = omega arith in rw (e, lt→ltb n 0x80000000 h)
to_int_small (negsuc n) h =
    let e : n % 0x100000000 ≡ n = omega arith in rw (e, lt→ltb n 0x80000000 (omega arith))

vs64_small : (z : ℤ) → magnitude z < 0x8000000000000000 → vs64 z ≡ ok z
unfolding vs64
vs64_small (pos n) h = rw (lt→ltb n 0x8000000000000000 h)
vs64_small (negsuc n) h = rw (lt→ltb n 0x8000000000000000 (omega arith))

negate_zero : (n : ℕ) → eq_ℤ (negate_ℤ (pos n)) (pos 0) ≡ true → n ≡ 0
negate_zero zero h = refl
negate_zero (suc n) h = absurd (cc h)

negated_times : (n q unit : ℕ) → q * unit ≡ suc n → times_ℕ (negate_ℤ (pos q)) unit ≡ negsuc n
negated_times n zero unit e = absurd (omega arith)
negated_times n (suc q) unit e = rw e

exact : (n unit : ℕ) → n % unit ≡ 0 → n / unit * unit ≡ n
exact n unit e = omega (arith, e, div-add-mod' n unit)

whole : (d : ℤ) (unit : ℕ) → is_multiple d unit ≡ true → times_ℕ (quotient_ℕ d unit) unit ≡ d
whole (pos n) unit h = ap pos (exact n unit ((==_iff (n % unit) 0).0 h))
whole (negsuc n) unit h =
    negated_times n (suc n / unit) unit (exact (suc n) unit (negate_zero (suc n % unit) h))

quotient_small :
    (d : ℤ) (unit : ℕ)
    → 1000 ≤ unit
    → magnitude d < 2147483648000
    → magnitude (quotient_ℕ d unit) < 0x80000000
quotient_small (pos n) unit u h = omega (arith, div-add-mod' n unit, mul-le-mul_left (n / unit) u)
quotient_small (negsuc n) unit u h = omega (
  arith,
  magnitude-negate (pos (suc n / unit)),
  div-add-mod' (suc n) unit,
  mul-le-mul_left (suc n / unit) u,
)

-- A multiple of a unit is read back from its text without the unit's letter.
pub units_read :
    (d : ℤ) (c unit : ℕ)
    → 1000 ≤ unit
    → magnitude d < 2147483648000
    → is_multiple d unit ≡ true
    → units unit (truncated (decimal (to_int (quotient_ℕ d unit)) ++ c ∷ []) 1) ≡ ok d
units_read d c unit u h multiple =
    let q = quotient_ℕ d unit in
    let small = quotient_small d unit u h in
    let e : to_int q ≡ q = to_int_small q small in
    rw e (
      suffix_read q c unit (omega (arith, small))
      ∙ ap vs64 (whole d unit multiple)
      ∙ vs64_small d (omega (arith, h)))
