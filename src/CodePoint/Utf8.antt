-- ===== src/CodePoint/Utf8.antt =====
-- UTF-8 in source/containers/vcodepoint.cpp: decoding is arithmetic on the bytes, and undoes encoding.
use code_vault.Base.{
  ℕ, ◌+◌, ◌*◌, ◌/◌, ◌%◌, ◌≤◌, ◌<◌, ◌≡◌, refl, ap, ◌∙◌, ◌⊎◌, ◌&&◌, some, List, [], ◌∷◌, ok,
  get_elem?, ltb, leb, if◌then◌else◌, bit_or, arith, bit_or-shift, bit_and-mask, on_bytes,
  tests_on_bytes, all_below, inl, inr, subst,
}
use code_vault.CodePoint.{
  utf8_length_of_start_byte, utf8_length_of_value, value_of_utf8, init_from_utf8_bytes, of_buffer,
  byte_at_lem, of_int, to_utf8, is_utf8_continuation_byte,
}

-- The length that a start byte announces, by ranges of bytes.
abbrev pub announced : ℕ → ℕ
announced b = if ltb b 0xc0 then 1 else (if ltb b 0xe0 then 2 else (if ltb b 0xf0 then 3 else 4))

pub utf8_length_of_start_byte_lem : (b : ℕ) → b < 256 → utf8_length_of_start_byte b ≡ announced b
unfolding utf8_length_of_start_byte all_below
utf8_length_of_start_byte_lem b h = on_bytes utf8_length_of_start_byte announced refl b h

pub is_utf8_continuation_byte_lem :
    (b : ℕ) → b < 256 → is_utf8_continuation_byte b ≡ (leb 0x80 b && ltb b 0xc0)
unfolding is_utf8_continuation_byte all_below
is_utf8_continuation_byte_lem b h =
    tests_on_bytes is_utf8_continuation_byte (λ x. leb 0x80 x && ltb x 0xc0) refl b h

value_of_2 : (b0 b1 b2 b3 : ℕ) → value_of_utf8 2 b0 b1 b2 b3 ≡ b0 % 32 * 64 + b1 % 64
unfolding value_of_utf8
value_of_2 b0 b1 b2 b3 =
    rw (bit_and-mask 5 b0, bit_and-mask 6 b1) (bit_or-shift 6 (b0 % 32) (b1 % 64) (omega arith))

value_of_3 :
    (b0 b1 b2 b3 : ℕ) → value_of_utf8 3 b0 b1 b2 b3 ≡ (b0 % 16 * 64 + b1 % 64) * 64 + b2 % 64
unfolding value_of_utf8
value_of_3 b0 b1 b2 b3 =
    rw (bit_and-mask 4 b0, bit_and-mask 6 b1, bit_and-mask 6 b2)
      (rw (bit_or-shift 12 (b0 % 16) (b1 % 64 * 64) (omega arith)) (
        ap (λ (t : ℕ). bit_or t (b2 % 64)) (omega arith)
        ∙ bit_or-shift 6 (b0 % 16 * 64 + b1 % 64) (b2 % 64) (omega arith)))

value_of_4 :
    (b0 b1 b2 b3 : ℕ)
    → value_of_utf8 4 b0 b1 b2 b3 ≡ ((b0 % 8 * 64 + b1 % 64) * 64 + b2 % 64) * 64 + b3 % 64
unfolding value_of_utf8
value_of_4 b0 b1 b2 b3 =
    rw (bit_and-mask 3 b0, bit_and-mask 6 b1, bit_and-mask 6 b2, bit_and-mask 6 b3)
      (rw (bit_or-shift 18 (b0 % 8) (b1 % 64 * 4096) (omega arith)) (
        ap (λ (t : ℕ). bit_or (bit_or t (b2 % 64 * 64)) (b3 % 64)) (omega arith)
        ∙ ap (λ (t : ℕ). bit_or t (b3 % 64))
            (bit_or-shift 12 (b0 % 8 * 64 + b1 % 64) (b2 % 64 * 64) (omega arith))
        ∙ ap (λ (t : ℕ). bit_or t (b3 % 64)) (omega arith)
        ∙ bit_or-shift 6 ((b0 % 8 * 64 + b1 % 64) * 64 + b2 % 64) (b3 % 64) (omega arith)))

-- These bytes stand in the buffer from offset `i` on.
abbrev pub StandsAt : List ℕ → ℕ → List ℕ → Type 0
StandsAt buffer i [] = Unit {0}
StandsAt buffer i (b ∷ bs) = (get_elem? buffer i ≡ some b) × StandsAt buffer (i + 1) bs

-- The bytes of a code point, without the casts: they all fit a byte.
pub encoded_cases :
    (n : ℕ) (bytes : List ℕ)
    → to_utf8 n ≡ ok bytes
    → ((n < 0x80) × (bytes ≡ n ∷ []))
      ⊎ ((0x80 ≤ n) × (n < 0x800) × (bytes ≡ (0xc0 + n / 64) ∷ (0x80 + n % 64) ∷ []))
      ⊎ ((0x800 ≤ n)
          × (n < 0x10000)
          × (bytes ≡ (0xe0 + n / 4096) ∷ (0x80 + n / 64 % 64) ∷ (0x80 + n % 64) ∷ []))
      ⊎ ((0x10000 ≤ n)
          × (n < 0x110000)
          × (bytes
              ≡ (0xf0 + n / 262144)
                ∷ (0x80 + n / 4096 % 64)
                ∷ (0x80 + n / 64 % 64)
                ∷ (0x80 + n % 64)
                ∷ []))
unfolding to_utf8 utf8_length_of_value
encoded_cases n bytes e = ground arith

-- The bytes make the code point of their value, when the value is one of their length.
made :
    (count n b0 b1 b2 b3 : ℕ)
    → value_of_utf8 count b0 b1 b2 b3 ≡ n
    → utf8_length_of_value n ≡ ok count
    → ok (init_from_utf8_bytes count b0 b1 b2 b3) ≡ of_int n
unfolding init_from_utf8_bytes of_int
made count n b0 b1 b2 b3 e size = simp (e, size)

module _ (buffer : List ℕ) (i : ℕ) where
  pub decode_1 :
      (b0 : ℕ)
      → b0 < 0x80
      → StandsAt buffer i (b0 ∷ [])
      → of_buffer buffer i ≡ ok (init_from_utf8_bytes 1 b0 0 0 0)
  unfolding of_buffer
  decode_1 b0 h (e0, _) =
      let count : utf8_length_of_start_byte b0 ≡ 1 =
        utf8_length_of_start_byte_lem b0 (omega arith) ∙ ground arith in
      simp (byte_at_lem buffer i b0 e0, count)

  pub decode_2 :
      (b0 b1 : ℕ)
      → 0xc0 ≤ b0
      → b0 < 0xe0
      → StandsAt buffer i (b0 ∷ b1 ∷ [])
      → of_buffer buffer i ≡ ok (init_from_utf8_bytes 2 b0 b1 0 0)
  unfolding of_buffer
  decode_2 b0 b1 h k (e0, (e1, _)) =
      let count : utf8_length_of_start_byte b0 ≡ 2 =
        utf8_length_of_start_byte_lem b0 (omega arith) ∙ ground arith in
      simp (byte_at_lem buffer i b0 e0, count, byte_at_lem buffer (i + 1) b1 e1)

  pub decode_3 :
      (b0 b1 b2 : ℕ)
      → 0xe0 ≤ b0
      → b0 < 0xf0
      → StandsAt buffer i (b0 ∷ b1 ∷ b2 ∷ [])
      → of_buffer buffer i ≡ ok (init_from_utf8_bytes 3 b0 b1 b2 0)
  unfolding of_buffer
  decode_3 b0 b1 b2 h k (e0, (e1, (e2, _))) =
      let count : utf8_length_of_start_byte b0 ≡ 3 =
        utf8_length_of_start_byte_lem b0 (omega arith) ∙ ground arith in
      let two : i + 2 ≡ i + 1 + 1 = omega arith in
      simp (
        byte_at_lem buffer i b0 e0,
        count,
        byte_at_lem buffer (i + 1) b1 e1,
        two,
        byte_at_lem buffer (i + 1 + 1) b2 e2,
      )

  pub decode_4 :
      (b0 b1 b2 b3 : ℕ)
      → 0xf0 ≤ b0
      → b0 < 0x100
      → StandsAt buffer i (b0 ∷ b1 ∷ b2 ∷ b3 ∷ [])
      → of_buffer buffer i ≡ ok (init_from_utf8_bytes 4 b0 b1 b2 b3)
  unfolding of_buffer
  decode_4 b0 b1 b2 b3 h k (e0, (e1, (e2, (e3, _)))) =
      let count : utf8_length_of_start_byte b0 ≡ 4 =
        utf8_length_of_start_byte_lem b0 (omega arith) ∙ ground arith in
      let two : i + 2 ≡ i + 1 + 1 = omega arith in
      let three : i + 3 ≡ i + 1 + 1 + 1 = omega arith in
      simp (
        byte_at_lem buffer i b0 e0,
        count,
        byte_at_lem buffer (i + 1) b1 e1,
        two,
        byte_at_lem buffer (i + 1 + 1) b2 e2,
        three,
        byte_at_lem buffer (i + 1 + 1 + 1) b3 e3,
      )

  -- The bytes that a code point is written as, standing in a buffer at any offset, are read back as
  -- the code point that its value makes: the same value and the same lengths in UTF-8 and in UTF-16.
  pub of_buffer-to_utf8 :
      (n : ℕ) (bytes : List ℕ)
      → to_utf8 n ≡ ok bytes
      → StandsAt buffer i bytes
      → of_buffer buffer i ≡ of_int n
  unfolding utf8_length_of_value value_of_utf8
  of_buffer-to_utf8 n bytes e at = elim (encoded_cases n bytes e) [
    | inl (k, e1) ↦
        decode_1 n k (subst (StandsAt buffer i) e1 at) ∙ made 1 n n 0 0 0 refl (ground arith)
    | inr (inl (h, k, e2)) ↦
        decode_2 (0xc0 + n / 64) (0x80 + n % 64) (omega arith) (omega arith)
          (subst (StandsAt buffer i) e2 at)
        ∙ made 2 n (0xc0 + n / 64) (0x80 + n % 64) 0 0
            (value_of_2 (0xc0 + n / 64) (0x80 + n % 64) 0 0 ∙ omega arith) (ground arith)
    | inr (inr (inl (h, k, e3))) ↦
        decode_3 (0xe0 + n / 4096) (0x80 + n / 64 % 64) (0x80 + n % 64) (omega arith) (omega arith)
          (subst (StandsAt buffer i) e3 at)
        ∙ made 3 n (0xe0 + n / 4096) (0x80 + n / 64 % 64) (0x80 + n % 64) 0
            (value_of_3 (0xe0 + n / 4096) (0x80 + n / 64 % 64) (0x80 + n % 64) 0 ∙ omega arith)
            (ground arith)
    | inr (inr (inr (h, k, e4))) ↦
        decode_4 (0xf0 + n / 262144) (0x80 + n / 4096 % 64) (0x80 + n / 64 % 64) (0x80 + n % 64)
          (omega arith) (omega arith) (subst (StandsAt buffer i) e4 at)
        ∙ made 4 n (0xf0 + n / 262144) (0x80 + n / 4096 % 64) (0x80 + n / 64 % 64) (0x80 + n % 64)
            (value_of_4 (0xf0 + n / 262144) (0x80 + n / 4096 % 64) (0x80 + n / 64 % 64)
                (0x80 + n % 64)
              ∙ omega arith)
            (ground arith)
  ]
