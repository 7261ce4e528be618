-- ===== src/Strings/Overflow.antt =====
-- parseS64 of source/containers/vstring.cpp on the decimal form of a number of nineteen digits.
use native.Mathlib.Nat.{mul_assoc}
use code_vault.Base.{
  ℕ, zero, suc, ◌+◌, ◌-◌, ◌*◌, ◌/◌, ◌≤◌, ◌<◌, ◌≡◌, ◌∙◌, true, ◌&&◌, List, [], ◌∷◌, ◌++◌, append-nil,
  Result, err, fault, ◌>>=◌, ◌==◌, ltb, leb, ℤ, pos, negsuc, ◌+ℤ◌, arith, Bool-cases, inl, inr,
  subst,
}
use code_vault.Duration.{vs64}
use code_vault.Strings.{reverse, grow, add_character, parse_back, parse_s64, digits_back, decimal}
use code_vault.Strings.Integers.{raised, raised_grows, AreDigits, not_minus, not_plus, plus_pos}
use code_vault.Strings.RoundTrip.{
  power, power-pos, magnitude, digits_back-AreDigits, reversed_reads,
}

-- The addition behind a digit, whose overflow is a fault.
after_digit :
    (c : ℕ) (rest : List ℕ) (z : ℤ) (m : ℕ)
    → (leb b'0' c && leb c b'9') ≡ true
    → add_character c rest z m ≡ (vs64 (pos (m * (c - b'0'))) >>= λ p. vs64 (z +ℤ p))
unfolding add_character
after_digit c [] z m h = rw (not_minus c h, not_plus c h, h)
after_digit c (d ∷ rest) z m h = rw h

-- What is behind a digit is a fault when it is one for every result from zero up.
fault_behind :
    (c : ℕ) (rest : List ℕ) (r m : ℕ) (k : ℤ → Result ℤ)
    → (leb b'0' c && leb c b'9') ≡ true
    → ((r' : ℕ) → k (pos r') ≡ err fault)
    → (add_character c rest (pos r) m >>= k) ≡ err fault
unfolding vs64
fault_behind c rest r m k h ks =
    let p = m * (c - b'0') in
    rw (after_digit c rest (pos r) m h) (elim (Bool-cases (ltb p 0x8000000000000000)) [
      | inr big ↦ rw big
      | inl fits ↦ rw fits (
          rw (plus_pos r p) (elim (Bool-cases (ltb (r + p) 0x8000000000000000)) [
            | inr big ↦ rw big
            | inl small ↦ rw small (ks (r + p))
          ]))
    ])

overflows :
    (s rest : List ℕ) (r m : ℕ)
    → AreDigits s
    → m < 0x8000000000000000
    → 0x8000000000000000 ≤ raised m s
    → parse_back (s ++ rest) (pos r) m ≡ err fault
unfolding parse_back grow
overflows [] rest r m d small big = absurd (omega arith)
overflows (c ∷ s) rest r m (h, d) small big =
    fault_behind c (s ++ rest) r m (λ z. grow m >>= λ m'. parse_back (s ++ rest) z m') h
      λ r'. elim (Bool-cases (ltb (m * 10) 0x8000000000000000)) [
        | inr over ↦ rw over
        | inl fits ↦ rw fits (overflows s rest r' (m * 10) d (ground (arith, fits)) big)
      ]

raised_least :
    (k f m n : ℕ) → k ≤ f → power k ≤ n → m * power (suc k) ≤ raised m (digits_back (suc f) n)
unfolding digits_back
raised_least zero f m n h p = elim (Bool-cases (n / 10 == 0)) [
  | inl small ↦ rw small (omega arith)
  | inr more ↦ rw more (omega (arith, raised_grows (m * 10) (digits_back f (n / 10))))
]
raised_least (suc k) zero m n h p = absurd (omega arith)
raised_least (suc k) (suc f) m n h p = elim (Bool-cases (n / 10 == 0)) [
  | inl small ↦ absurd (ground (arith, small, power-pos k))
  | inr more ↦
      let rec = raised_least k f (m * 10) (n / 10) (omega arith) (omega arith) in
      rw more (omega (arith, rec, mul_assoc m 10 (power (suc k))))
]

nineteen : (n : ℕ) → 1000000000000000000 ≤ n → 0x8000000000000000 ≤ raised 1 (digits_back 19 n)
nineteen n h = omega (arith, raised_least 18 18 1 n (omega arith) h)

digits_fault :
    (n : ℕ) (rest : List ℕ)
    → 1000000000000000000 ≤ n
    → parse_back (digits_back 19 n ++ rest) (pos 0) 1 ≡ err fault
digits_fault n rest h =
    overflows (digits_back 19 n) rest 0 1 (digits_back-AreDigits 19 n) (omega arith) (nineteen n h)

-- A number of at least 1000000000000000000 in magnitude is not read back from its decimal form: the
-- computation overflows.
pub parse_s64-decimal_overflow :
    (z : ℤ) → 1000000000000000000 ≤ magnitude z → parse_s64 (decimal z) ≡ err fault
unfolding decimal
parse_s64-decimal_overflow (pos n) h =
    let e : parse_s64 (reverse (digits_back 19 n ++ [])) ≡ err fault =
      reversed_reads (digits_back 19 n ++ []) ∙ digits_fault n [] h in
    subst (λ s. parse_s64 (reverse s) ≡ err fault) (append-nil (digits_back 19 n)) e
parse_s64-decimal_overflow (negsuc n) h =
    reversed_reads (digits_back 19 (suc n) ++ b'-' ∷ []) ∙ digits_fault (suc n) (b'-' ∷ []) h
