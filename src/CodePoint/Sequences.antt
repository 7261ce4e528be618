-- ===== src/CodePoint/Sequences.antt =====
-- The form of the bytes that source/containers/vcodepoint.cpp writes: a start byte, then continuation
-- bytes.
use code_vault.Base.{
  ℕ, suc, ◌+◌, ◌/◌, ◌%◌, ◌≤◌, ◌<◌, ◌≡◌, ◌∙◌, ◌⊎◌, true, false, List, [], ◌∷◌, ok, err, range_error,
  length, arith, inl, inr,
}
use code_vault.CodePoint.{
  utf8_length_of_start_byte, utf8_length_of_value, to_utf8, utf8_bytes, is_utf8_continuation_byte,
}
use code_vault.CodePoint.Utf8.{
  announced, utf8_length_of_start_byte_lem, is_utf8_continuation_byte_lem,
}

continues : (b : ℕ) → b < 256 → 0x80 ≤ b → b < 0xc0 → is_utf8_continuation_byte b ≡ true
continues b h lo hi = is_utf8_continuation_byte_lem b h ∙ ground arith

starts : (b : ℕ) → b < 256 → (b < 0x80) ⊎ (0xc0 ≤ b) → is_utf8_continuation_byte b ≡ false
starts b h out = is_utf8_continuation_byte_lem b h ∙ ground arith

encoded_split :
    (n : ℕ)
    → (n < 0x80)
      ⊎ ((0x80 ≤ n) × (n < 0x800))
      ⊎ ((0x800 ≤ n) × (n < 0x10000))
      ⊎ ((0x10000 ≤ n) × (n < 0x110000))
      ⊎ (0x110000 ≤ n)
encoded_split n = ground arith

-- A start byte and behind it continuation bytes, as many as it announces.
abbrev pub Follow : List ℕ → Type 0
Follow [] = Unit {0}
Follow (b ∷ bs) = (is_utf8_continuation_byte b ≡ true) × Follow bs

abbrev pub IsSequence : List ℕ → Type 0
IsSequence [] = ⊥
IsSequence (b ∷ bs) =
    (is_utf8_continuation_byte b ≡ false)
    × (utf8_length_of_start_byte b ≡ suc (length bs))
    × Follow bs

sequence :
    (b : ℕ) (bs : List ℕ)
    → b < 256
    → (b < 0x80) ⊎ (0xc0 ≤ b)
    → announced b ≡ suc (length bs)
    → Follow bs
    → IsSequence (b ∷ bs)
sequence b bs h out count follow =
    (starts b h out, utf8_length_of_start_byte_lem b h ∙ count, follow)

-- Every value has either a sequence of bytes, of the length that its value asks for, or is at least
-- 0x110000, and is refused with the range exception.
pub to_utf8-IsSequence :
    (n : ℕ)
    → ((n < 0x110000)
        × ((bytes : List ℕ) × (to_utf8 n ≡ ok bytes)
            × (utf8_length_of_value n ≡ ok (length bytes))
            × IsSequence bytes))
      ⊎ ((0x110000 ≤ n) × (to_utf8 n ≡ err range_error))
unfolding to_utf8 utf8_bytes utf8_length_of_value
to_utf8-IsSequence n = elim (encoded_split n) [
  | inl k ↦ inl (
    omega arith,
    (n ∷ [], ground arith, ground arith, sequence n [] (omega arith) (inl k) (ground arith) tt),
  )
  | inr (inl (h, k)) ↦ inl (
    omega arith,
    (
      (0xc0 + n / 64) ∷ (0x80 + n % 64) ∷ [],
      ground arith,
      ground arith,
      sequence (0xc0 + n / 64) ((0x80 + n % 64) ∷ []) (omega arith) (inr (omega arith))
          (ground arith) (continues (0x80 + n % 64) (omega arith) (omega arith) (omega arith), tt),
    ),
  )
  | inr (inr (inl (h, k))) ↦ inl (
    omega arith,
    (
      (0xe0 + n / 4096) ∷ (0x80 + n / 64 % 64) ∷ (0x80 + n % 64) ∷ [],
      ground arith,
      ground arith,
      sequence (0xe0 + n / 4096) ((0x80 + n / 64 % 64) ∷ (0x80 + n % 64) ∷ []) (omega arith)
          (inr (omega arith)) (ground arith)
          (
            continues (0x80 + n / 64 % 64) (omega arith) (omega arith) (omega arith),
            (continues (0x80 + n % 64) (omega arith) (omega arith) (omega arith), tt),
          ),
    ),
  )
  | inr (inr (inr (inl (h, k)))) ↦ inl (
    k,
    (
      (0xf0 + n / 262144) ∷ (0x80 + n / 4096 % 64) ∷ (0x80 + n / 64 % 64) ∷ (0x80 + n % 64) ∷ [],
      ground arith,
      ground arith,
      sequence (0xf0 + n / 262144)
          ((0x80 + n / 4096 % 64) ∷ (0x80 + n / 64 % 64) ∷ (0x80 + n % 64) ∷ []) (omega arith)
          (inr (omega arith)) (ground arith)
          (
            continues (0x80 + n / 4096 % 64) (omega arith) (omega arith) (omega arith),
            (
              continues (0x80 + n / 64 % 64) (omega arith) (omega arith) (omega arith),
              (continues (0x80 + n % 64) (omega arith) (omega arith) (omega arith), tt),
            ),
          ),
    ),
  )
  | inr (inr (inr (inr h))) ↦ inr (h, ground arith)
]
