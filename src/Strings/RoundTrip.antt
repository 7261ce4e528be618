-- ===== src/Strings/RoundTrip.antt =====
-- parseS64 of source/containers/vstring.cpp on the decimal form of a number.
use native.Mathlib.Nat.{mul_assoc, mul-le-mul_left}
use code_vault.Base.{
  ℕ, zero, suc, ◌+◌, ◌*◌, ◌/◌, ◌%◌, ◌≤◌, ◌<◌, ◌≡◌, refl, ap, ◌∙◌, true, ◌&&◌, List, [], ◌∷◌, ◌++◌,
  append-nil, ok, ◌==◌, leb, ℤ, pos, negsuc, arith, subst, lt→ltb, Bool-cases, inl, inr,
}
use code_vault.Duration.{vs64}
use code_vault.Strings.{reverse, add_character, parse_back, parse_s64, digits_back, decimal}
use code_vault.Strings.Integers.{value_of, raised, AreDigits, digits_parsed, grow_fits}

pub reverse-snoc : (s : List ℕ) (c : ℕ) → reverse (s ++ c ∷ []) ≡ c ∷ reverse s
reverse-snoc [] c = refl
reverse-snoc (d ∷ s) c = rw (reverse-snoc s c)

pub reverse-reverse : (s : List ℕ) → reverse (reverse s) ≡ s
reverse-reverse [] = refl
reverse-reverse (c ∷ s) = rw (reverse-snoc (reverse s) c, reverse-reverse s)

abbrev pub magnitude : ℤ → ℕ
magnitude (pos n) = n
magnitude (negsuc n) = suc n

abbrev pub power : ℕ → ℕ
power zero = 1
power (suc f) = 10 * power f

a_digit : (n : ℕ) → (leb b'0' (b'0' + n % 10) && leb (b'0' + n % 10) b'9') ≡ true
a_digit n = ground arith

pub digits_back-AreDigits : (f n : ℕ) → AreDigits (digits_back f n)
unfolding digits_back
digits_back-AreDigits zero n = tt
digits_back-AreDigits (suc f) n = elim (Bool-cases (n / 10 == 0)) [
  | inl small ↦ rw small (a_digit n, tt)
  | inr more ↦ rw more (a_digit n, digits_back-AreDigits f (n / 10))
]

value_of-digits_back : (f n : ℕ) → n < power f → value_of (digits_back f n) ≡ n
unfolding digits_back
value_of-digits_back zero n h = omega arith
value_of-digits_back (suc f) n h =
    let rec : value_of (digits_back f (n / 10)) ≡ n / 10 =
      value_of-digits_back f (n / 10) (omega arith) in
    ground (arith, rec)

pub power-pos : (k : ℕ) → 0 < power k
power-pos zero = omega arith
power-pos (suc k) = omega (arith, power-pos k)

raised_most : (k f m n : ℕ) → n < power (suc k) → raised m (digits_back f n) ≤ m * power (suc k)
unfolding digits_back
raised_most k zero m n h = omega (arith, mul-le-mul_left m (power-pos (suc k)))
raised_most zero (suc f) m n h = elim (Bool-cases (n / 10 == 0)) [
  | inl small ↦ rw small (omega arith)
  | inr more ↦ absurd (ground (arith, more))
]
raised_most (suc k) (suc f) m n h = elim (Bool-cases (n / 10 == 0)) [
  | inl small ↦
      rw small (
        omega (arith, mul-le-mul_left (m * 10) (power-pos (suc k)), mul_assoc m 10 (power (suc k))))
  | inr more ↦
      let rec = raised_most k f (m * 10) (n / 10) (omega arith) in
      rw more (omega (arith, rec, mul_assoc m 10 (power (suc k))))
]

raised_small :
    (n : ℕ) → n < 100000000000000000 → raised 1 (digits_back 19 n) * 10 < 0x8000000000000000
raised_small n h = omega (arith, raised_most 16 19 1 n h)

parsed :
    (n : ℕ) (rest : List ℕ)
    → n < 100000000000000000
    → parse_back (digits_back 19 n ++ rest) (pos 0) 1
      ≡ parse_back rest (pos n) (raised 1 (digits_back 19 n))
parsed n rest h =
    let v = value_of-digits_back 19 n (omega arith) in
    let small : 0 + 1 * value_of (digits_back 19 n) < 0x8000000000000000 = omega (arith, v) in
    digits_parsed (digits_back 19 n) rest 0 1 (digits_back-AreDigits 19 n) small
      (omega (arith, raised_small n h))
    ∙ ap (λ w. parse_back rest (pos w) (raised 1 (digits_back 19 n))) (omega (arith, v))

pub reversed_reads : (s : List ℕ) → parse_s64 (reverse s) ≡ parse_back s (pos 0) 1
unfolding parse_s64
reversed_reads s = rw (reverse-reverse s)

minus_taken :
    (n m : ℕ)
    → n < 0x8000000000000000
    → m * 10 < 0x8000000000000000
    → parse_back (b'-' ∷ []) (pos (suc n)) m ≡ ok (negsuc n)
unfolding parse_back add_character vs64
minus_taken n m h fits = rw (lt→ltb n 0x8000000000000000 h, grow_fits m fits)

-- A number closer to zero than 100000000000000000 is read back from its decimal form, with its sign.
pub parse_s64-decimal : (z : ℤ) → magnitude z < 100000000000000000 → parse_s64 (decimal z) ≡ ok z
unfolding decimal parse_back
parse_s64-decimal (pos n) h =
    let e : parse_s64 (reverse (digits_back 19 n ++ [])) ≡ ok (pos n) =
      reversed_reads (digits_back 19 n ++ []) ∙ parsed n [] h in
    subst (λ s. parse_s64 (reverse s) ≡ ok (pos n)) (append-nil (digits_back 19 n)) e
parse_s64-decimal (negsuc n) h =
    reversed_reads (digits_back 19 (suc n) ++ b'-' ∷ [])
    ∙ parsed (suc n) (b'-' ∷ []) h
    ∙ minus_taken n (raised 1 (digits_back 19 (suc n))) (omega arith) (raised_small (suc n) h)
