-- ===== src/Duration/Text/Suffixes.antt =====
-- The suffixes of a duration's text of source/containers/vinstant.cpp, and the words for special durations.
use code_vault.Base.{
  ℕ, suc, ◌+◌, ◌-◌, ◌%◌, ◌<◌, ◌≡◌, refl, sym, ap, ◌∙◌, Bool, true, false, ◌&&◌, ◌||◌, List, [], ◌∷◌,
  ◌++◌, ◌==◌, leb, ℤ, pos, negsuc, arith, length, append_assoc, length-append, take-append, ==_iff,
  append-nil, subst, Bool-cases, inl, inr,
}
use code_vault.Duration.{times_ℕ, vs64}
use code_vault.Strings.{decimal, decimal_back, digits_back, reverse}
use code_vault.Strings.Integers.{AreDigits}
use code_vault.Strings.RoundTrip.{
  magnitude, digits_back-AreDigits, reverse-snoc, reverse-reverse, parse_s64-decimal,
}
use code_vault.Duration.Text.{
  unspecified_word, infinity_word, negative_infinity_word, starts_with, ends_with, truncated, lower,
  equals_ignore_case, units,
}

pub truncated-append : (s t : List ℕ) → truncated (s ++ t) (length t) ≡ s
unfolding truncated
truncated-append s t =
    take-append s t (length (s ++ t) - length t) (omega (arith, length-append s t))

and_parts : (a b : Bool) → (a && b) ≡ true → (a ≡ true) × (b ≡ true)
and_parts true b e = (refl, e)
and_parts false b e = absurd (cc e)

pub has_i : List ℕ → Bool
has_i [] = false
has_i (c ∷ s) = lower c == b'i' || has_i s

equal-has_i : (s t : List ℕ) → equals_ignore_case s t ≡ true → has_i s ≡ has_i t
unfolding has_i
equal-has_i [] [] e = refl
equal-has_i [] (d ∷ t) e = absurd (cc e)
equal-has_i (c ∷ s) [] e = absurd (cc e)
equal-has_i (c ∷ s) (d ∷ t) e =
    let (same, rest) = and_parts (lower c == lower d) (equals_ignore_case s t) e in
    rw ((==_iff (lower c) (lower d)).0 same, equal-has_i s t rest)

digit_no_i : (c : ℕ) → (leb b'0' c && leb c b'9') ≡ true → (lower c == b'i') ≡ false
digit_no_i c h = ground arith

has_i-digits : (s rest : List ℕ) → AreDigits s → has_i (reverse s ++ rest) ≡ has_i rest
unfolding has_i
has_i-digits [] rest d = refl
has_i-digits (c ∷ s) rest (h, d) =
    let e : has_i ((reverse s ++ c ∷ []) ++ rest) ≡ has_i (reverse s ++ c ∷ rest) =
      ap has_i (append_assoc (reverse s) (c ∷ []) rest) in
    e ∙ has_i-digits s (c ∷ rest) d ∙ (rw (digit_no_i c h))

has_i-decimal : (z : ℤ) (c : ℕ) → (lower c == b'i') ≡ false → has_i (decimal z ++ c ∷ []) ≡ false
unfolding decimal has_i
has_i-decimal (pos n) c h =
    has_i-digits (digits_back 19 n) (c ∷ []) (digits_back-AreDigits 19 n) ∙ (rw h)
has_i-decimal (negsuc n) c h =
    let e : reverse (digits_back 19 (suc n) ++ b'-' ∷ [])
        ≡ b'-' ∷ reverse (digits_back 19 (suc n)) =
      reverse-snoc (digits_back 19 (suc n)) b'-' in
    ap (λ s. has_i (s ++ c ∷ [])) e
    ∙ has_i-digits (digits_back 19 (suc n)) (c ∷ []) (digits_back-AreDigits 19 (suc n))
    ∙ (rw h)

-- A decimal form and a suffix without the letter are none of the words.
pub no_word :
    (z : ℤ) (c : ℕ) (word : List ℕ)
    → (lower c == b'i') ≡ false
    → has_i word ≡ true
    → equals_ignore_case (decimal z ++ c ∷ []) word ≡ false
no_word z c word h w = elim (Bool-cases (equals_ignore_case (decimal z ++ c ∷ []) word)) [
  | inr other ↦ other
  | inl same ↦ absurd (cc (equal-has_i (decimal z ++ c ∷ []) word same, w, has_i-decimal z c h))
]

-- A decimal form with a unit behind it is read as that many units.
pub suffix_read :
    (z : ℤ) (c unit : ℕ)
    → magnitude z < 100000000000000000
    → units unit (truncated (decimal z ++ c ∷ []) 1) ≡ vs64 (times_ℕ z unit)
unfolding units
suffix_read z c unit h = rw (truncated-append (decimal z) (c ∷ []), parse_s64-decimal z h)

reversed : (s t : List ℕ) → reverse (reverse s ++ t) ≡ reverse t ++ s
reversed s [] = ap reverse (append-nil (reverse s)) ∙ reverse-reverse s
reversed s (c ∷ t) =
    let e : reverse (reverse s ++ c ∷ t) ≡ reverse ((reverse s ++ c ∷ []) ++ t) =
      ap reverse (sym (append_assoc (reverse s) (c ∷ []) t)) in
    e ∙ reversed (c ∷ s) t ∙ sym (append_assoc (reverse t) (c ∷ []) s)

pub ends_with-decimal :
    (z : ℤ) (t suffix : List ℕ)
    → ends_with (decimal z ++ t) suffix ≡ starts_with (reverse t ++ decimal_back z) (reverse suffix)
unfolding ends_with decimal
ends_with-decimal z t suffix =
    ap (λ u. starts_with u (reverse suffix)) (reversed (decimal_back z) t)

no_m : (f n : ℕ) (rest : List ℕ) → starts_with (digits_back (suc f) n ++ rest) (b'm' ∷ []) ≡ false
unfolding digits_back
no_m f n rest = let e : ((b'0' + n % 10) == b'm') ≡ false = ground arith in rw e

pub decimal_back-no_m : (z : ℤ) → starts_with (decimal_back z) (b'm' ∷ []) ≡ false
decimal_back-no_m (pos n) =
    subst (λ s. starts_with s (b'm' ∷ []) ≡ false) (append-nil (digits_back 19 n)) (no_m 18 n [])
decimal_back-no_m (negsuc n) = no_m 18 (suc n) (b'-' ∷ [])

pub words-has_i :
    (has_i unspecified_word ≡ true)
    × (has_i infinity_word ≡ true)
    × (has_i negative_infinity_word ≡ true)
unfolding has_i
words-has_i = (refl, refl, refl)
