-- ===== src/CodePoint/Utf16.antt =====
-- UTF-16 in source/containers/vcodepoint.cpp: toUTF16WideString and the constructor from a wide
-- string.
use code_vault.Base.{
  ℕ, ◌+◌, ◌-◌, ◌*◌, ◌/◌, ◌%◌, ◌≤◌, ◌<◌, ◌≡◌, refl, ap, ◌∙◌, ◌⊎◌, true, false, none, some, List, [],
  ◌∷◌, ◌++◌, ok, err, eof, length, arith, inl, inr, bit_or, ◌>>>◌, bit_or-shift, bit_and-mask,
  get_elem?, subst, get_elem?-append_end, get_elem?-lt, length-append, leb,
}
use code_vault.CodePoint.{
  value_of_surrogates, of_int, of_utf16, to_utf16, init_from_utf16_surrogates,
  utf16_length_of_value, is_utf16_surrogate_code_unit, byte_at_lem,
}
use code_vault.CodePoint.Utf8.{StandsAt}

-- The value that two units stand for, as arithmetic.
pub value_of_surrogates_lem :
    (lead trail : ℕ)
    → value_of_surrogates lead trail ≡ ((lead / 64 % 32 + 1) * 64 + lead % 64) * 1024 + trail % 1024
unfolding value_of_surrogates
value_of_surrogates_lem lead trail =
    rw (bit_and-mask 5 (lead >>> 6), bit_and-mask 6 lead, bit_and-mask 10 trail)
      (ap (bit_or ((lead / 64 % 32 + 1) * 65536))
          (bit_or-shift 10 (lead % 64) (trail % 1024) (omega arith))
        ∙ bit_or-shift 16 (lead / 64 % 32 + 1) (lead % 64 * 1024 + trail % 1024) (omega arith)
        ∙ omega arith)

two_units : (n : ℕ) → 0x10000 ≤ n → utf16_length_of_value n ≡ 2
unfolding utf16_length_of_value
two_units n lo = ground arith

is_lead : (u : ℕ) → 0xd800 ≤ u → u ≤ 0xdfff → is_utf16_surrogate_code_unit u ≡ true
unfolding is_utf16_surrogate_code_unit
is_lead u lo hi = ground arith

no_surrogate :
    (u : ℕ) → (u < 0xd800) ⊎ ((0xe000 ≤ u) × (u < 0x10000)) → is_utf16_surrogate_code_unit u ≡ false
unfolding is_utf16_surrogate_code_unit
no_surrogate u plain = ground arith

le-or-lt : (a b : ℕ) → (a ≤ b) ⊎ (b < a)
le-or-lt a b = ground arith

of_single :
    (n : ℕ) (units : List ℕ) (i : ℕ)
    → get_elem? units i ≡ some n
    → is_utf16_surrogate_code_unit n ≡ false
    → of_utf16 units i ≡ ok (record { int_value = n; utf8_length = none; utf16_length = none })
unfolding of_utf16
of_single n units i e0 plain = simp (byte_at_lem units i n e0, plain)

of_pair :
    (n : ℕ) (units : List ℕ) (i lead trail : ℕ)
    → get_elem? units i ≡ some lead
    → get_elem? units (i + 1) ≡ some trail
    → is_utf16_surrogate_code_unit lead ≡ true
    → value_of_surrogates lead trail ≡ n
    → utf16_length_of_value n ≡ 2
    → of_utf16 units i ≡ of_int n
unfolding of_utf16 init_from_utf16_surrogates of_int
of_pair n units i lead trail e0 e1 surrogate value two =
    let inside : leb (length units) (i + 1) ≡ false =
      ground (arith, get_elem?-lt units (i + 1) trail e1) in
    simp (
      byte_at_lem units i lead e0,
      surrogate,
      inside,
      byte_at_lem units (i + 1) trail e1,
      value,
      two,
    )

-- The units of a value in the higher planes.
pair_of :
    (n : ℕ)
    → 0x10000 ≤ n
    → n < 0x110000
    → to_utf16 n ≡ ((n - 0x10000) / 1024 + 0xd800) ∷ ((n - 0x10000) % 1024 + 0xdc00) ∷ []
unfolding to_utf16
pair_of n lo hi =
    let two : utf16_length_of_value n ≡ 2 = two_units n lo in
    rw (two, bit_and-mask 10 (n - 0x10000)) refl

single : (n : ℕ) → (n < 0xd800) ⊎ ((0xe000 ≤ n) × (n < 0x10000)) → to_utf16 n ≡ n ∷ []
unfolding to_utf16 utf16_length_of_value
single n plain = ground arith

of_higher :
    (n : ℕ) (units : List ℕ) (i : ℕ)
    → 0x10000 ≤ n
    → n < 0x110000
    → StandsAt units i (to_utf16 n)
    → of_utf16 units i ≡ of_int n
of_higher n units i lo hi at =
    let m = n - 0x10000 in
    let (e0, (e1, _)) = subst (StandsAt units i) (pair_of n lo hi) at in
    of_pair n units i (m / 1024 + 0xd800) (m % 1024 + 0xdc00) e0 e1
      (is_lead (m / 1024 + 0xd800) (omega arith) (omega arith))
      (value_of_surrogates_lem (m / 1024 + 0xd800) (m % 1024 + 0xdc00) ∙ omega arith)
      (two_units n lo)

-- A value that is no surrogate, written by toUTF16WideString anywhere in a wide string, is read back
-- from there. From 0x10000 on the code point is the one that its value makes. Below, where it is one
-- unit, the constructor sets neither of its lengths.
pub of_utf16-to_utf16 :
    (n : ℕ) (units : List ℕ) (i : ℕ)
    → (n < 0xd800) ⊎ ((0xe000 ≤ n) × (n < 0x110000))
    → StandsAt units i (to_utf16 n)
    → ((0x10000 ≤ n) × (of_utf16 units i ≡ of_int n))
      ⊎ ((n < 0x10000)
          × (of_utf16 units i
              ≡ ok (record { int_value = n; utf8_length = none; utf16_length = none })))
of_utf16-to_utf16 n units i scalar at = elim (le-or-lt 0x10000 n) [
  | inl lo ↦ inl (lo, of_higher n units i lo (ground arith) at)
  | inr hi ↦
      let (e0, _) = subst (StandsAt units i) (single n (ground arith)) at in
      inr (hi, of_single n units i e0 (no_surrogate n (ground arith)))
]

-- A lead surrogate that ends the wide string makes the constructor throw the EOF exception.
pub of_utf16-lead_at_end :
    (units : List ℕ) (lead : ℕ)
    → is_utf16_surrogate_code_unit lead ≡ true
    → of_utf16 (units ++ lead ∷ []) (length units) ≡ err eof
unfolding of_utf16
of_utf16-lead_at_end units lead surrogate =
    let ended : leb (length (units ++ lead ∷ [])) (length units + 1) ≡ true =
      ground (arith, length-append units (lead ∷ [])) in
    simp (
      byte_at_lem (units ++ lead ∷ []) (length units) lead (get_elem?-append_end units lead),
      surrogate,
      ended,
    )
