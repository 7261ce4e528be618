-- ===== src/Strings/Integers.antt =====
-- parseS64 of source/containers/vstring.cpp on digits, and the digits of a number.
use native.Mathlib.Nat.{mul-add, mul_assoc}
use code_vault.Base.{
  ℕ, ◌+◌, ◌-◌, ◌*◌, ◌≤◌, ◌<◌, ◌≡◌, ap, ◌∙◌, true, false, ◌&&◌, List, [], ◌∷◌, ◌++◌, ok, ◌>>=◌, ◌==◌,
  leb, pos, ◌+ℤ◌, arith, lt→ltb,
}
use code_vault.Duration.{vs64}
use code_vault.Strings.{grow, add_character, parse_back}

-- The number that digits stand for, the last one first.
abbrev pub value_of : List ℕ → ℕ
value_of [] = 0
value_of (c ∷ s) = (c - b'0') + 10 * value_of s

-- The multiplier behind the digits.
abbrev pub raised : ℕ → List ℕ → ℕ
raised m [] = m
raised m (c ∷ s) = raised (m * 10) s

abbrev pub AreDigits : List ℕ → Type 0
AreDigits [] = Unit
AreDigits (c ∷ s) = ((leb b'0' c && leb c b'9') ≡ true) × AreDigits s

pub raised_grows : (m : ℕ) (s : List ℕ) → m ≤ raised m s
raised_grows m [] = omega arith
raised_grows m (c ∷ s) = omega (arith, raised_grows (m * 10) s)

pub vs64_fits : (n : ℕ) → n < 0x8000000000000000 → vs64 (pos n) ≡ ok (pos n)
unfolding vs64
vs64_fits n h = rw (lt→ltb n 0x8000000000000000 h)

pub grow_fits : (m : ℕ) → m * 10 < 0x8000000000000000 → grow m ≡ ok (m * 10)
unfolding grow
grow_fits m h = rw (lt→ltb (m * 10) 0x8000000000000000 h)

split_value : (r m d v : ℕ) → r + m * (d + 10 * v) ≡ (r + m * d) + (m * 10) * v
split_value r m d v = omega (arith, mul-add m d (10 * v), mul_assoc m 10 v)

pub plus_pos : (r p : ℕ) → pos r +ℤ pos p ≡ pos (r + p)
plus_pos r p = ground arith

added :
    (r p : ℕ)
    → r + p < 0x8000000000000000
    → (vs64 (pos p) >>= λ q. vs64 (pos r +ℤ q)) ≡ ok (pos (r + p))
added r p h =
    ap (λ v. v >>= λ q. vs64 (pos r +ℤ q)) (vs64_fits p (omega arith))
    ∙ ap vs64 (plus_pos r p)
    ∙ vs64_fits (r + p) h

pub not_minus : (c : ℕ) → (leb b'0' c && leb c b'9') ≡ true → (c == b'-') ≡ false
not_minus c h = ground arith

pub not_plus : (c : ℕ) → (leb b'0' c && leb c b'9') ≡ true → (c == b'+') ≡ false
not_plus c h = ground arith

digit_taken :
    (c : ℕ) (rest : List ℕ) (r m : ℕ)
    → (leb b'0' c && leb c b'9') ≡ true
    → r + m * (c - b'0') < 0x8000000000000000
    → add_character c rest (pos r) m ≡ ok (pos (r + m * (c - b'0')))
unfolding add_character
digit_taken c [] r m h small = rw (not_minus c h, not_plus c h, h, added r (m * (c - b'0')) small)
digit_taken c (d ∷ rest) r m h small = rw (h, added r (m * (c - b'0')) small)

pub digits_parsed :
    (s rest : List ℕ) (r m : ℕ)
    → AreDigits s
    → r + m * value_of s < 0x8000000000000000
    → raised m s < 0x8000000000000000
    → parse_back (s ++ rest) (pos r) m ≡ parse_back rest (pos (r + m * value_of s)) (raised m s)
unfolding parse_back
digits_parsed [] rest r m d small fits = let e : r + m * 0 ≡ r = omega arith in rw e
digits_parsed (c ∷ s) rest r m (h, d) small fits =
    let e = split_value r m (c - b'0') (value_of s) in
    rw (
      digit_taken c (s ++ rest) r m h (omega arith),
      grow_fits m (omega (arith, raised_grows (m * 10) s)),
      digits_parsed s rest (r + m * (c - b'0')) (m * 10) d (omega arith) fits,
      e,
    )
