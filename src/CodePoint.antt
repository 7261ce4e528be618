-- ===== src/CodePoint.antt =====
-- source/containers/vcodepoint.cpp: VCodePoint and its UTF-8 and UTF-16 forms. A `char` or Vu8 is its
-- unsigned value.
pub mod Utf8
pub mod Sequences
pub mod Utf16
pub mod Scan
pub mod Streamed
pub mod Tests
use code_vault.Base.{
  ◌≡◌, refl, ℕ, zero, suc, ◌+◌, ◌-◌, ◌*◌, ◌/◌, ◌%◌, ◌^◌, Bool, true, false, not, ◌&&◌, ◌||◌, Option,
  none, some, List, [], ◌∷◌, Result, ok, err, eof, range_error, fault, guard, ◌>>=◌, ◌>>◌, length,
  get_elem?, drop, ltb, leb, ◌==◌, if◌then◌else◌, bit_and, bit_or, ◌<<<◌, ◌>>>◌, u8,
}
use code_vault.Streams.Raw.{RawStream, read_guaranteed_byte}

-- mUTF8Length is `none` where a constructor leaves it without a value.
pub record CodePoint : Type 0 where
  pub int_value : ℕ
  pub utf8_length : Option ℕ
  pub utf16_length : Option ℕ

-- getUTF8LengthFromUTF8StartByte.
pub utf8_length_of_start_byte : ℕ → ℕ
utf8_length_of_start_byte b =
    if not (bit_and b 0x80 == 0) && not (bit_and b 0x40 == 0)
    then (if not (bit_and b 0x20 == 0) then (if not (bit_and b 0x10 == 0) then 4 else 3) else 2)
    else 1

-- getUTF8LengthFromCodePointValue.
pub utf8_length_of_value : ℕ → Result ℕ
utf8_length_of_value n =
    if ltb n 0x80
    then ok 1
    else (if ltb n 0x800
        then ok 2
        else (if ltb n 0x10000 then ok 3 else (if ltb n 0x110000 then ok 4 else err range_error)))

-- isUTF8ContinuationByte.
pub is_utf8_continuation_byte : ℕ → Bool
is_utf8_continuation_byte b = bit_and b 0xc0 == 0x80

-- isUTF16SurrogateCodeUnit.
pub is_utf16_surrogate_code_unit : ℕ → Bool
is_utf16_surrogate_code_unit u = (leb 0xd800 u && leb u 0xdfff) || leb 0x10000 u

-- getUTF16LengthFromCodePointValue.
pub utf16_length_of_value : ℕ → ℕ
utf16_length_of_value n = if leb n 0xd7ff || (leb 0xe000 n && leb n 0xffff) then 1 else 2

-- VCodePoint(int), of a value that is not negative.
pub of_int : ℕ → Result CodePoint
of_int n = do
  size ← utf8_length_of_value n
  ok (record {
    int_value = n;
    utf8_length = some size;
    utf16_length = some (utf16_length_of_value n);
  })

-- The value that _initFromUTF8Bytes puts together, by the number of bytes.
pub value_of_utf8 : ℕ → ℕ → ℕ → ℕ → ℕ → ℕ
value_of_utf8 count b0 b1 b2 b3 =
    if count == 1
    then b0
    else (if count == 2
        then bit_or (bit_and b0 0x1f <<< 6) (bit_and b1 0x3f)
        else (if count == 3
            then bit_or (bit_or (bit_and b0 0x0f <<< 12) (bit_and b1 0x3f <<< 6)) (bit_and b2 0x3f)
            else bit_or
                (bit_or (bit_or (bit_and b0 0x07 <<< 18) (bit_and b1 0x3f <<< 12))
                  (bit_and b2 0x3f <<< 6))
                (bit_and b3 0x3f)))

-- _initFromUTF8Bytes.
pub init_from_utf8_bytes : ℕ → ℕ → ℕ → ℕ → ℕ → CodePoint
init_from_utf8_bytes count b0 b1 b2 b3 =
    let n = value_of_utf8 count b0 b1 b2 b3 in
    record {
      int_value = n;
      utf8_length = some count;
      utf16_length = some (utf16_length_of_value n);
    }

-- A byte of a buffer; reading past its end is undefined.
byte_at : List ℕ → ℕ → Result ℕ
byte_at bytes i = elim (get_elem? bytes i) [ none ↦ err fault | some b ↦ ok b ]

byte_at_lem : (bytes : List ℕ) (i b : ℕ) → get_elem? bytes i ≡ some b → byte_at bytes i ≡ ok b
unfolding byte_at
byte_at_lem bytes i b e = rw (e, byte_at) refl

-- The i-th byte, if the code point is that long; else 0, and nothing is read.
byte_if : Bool → Result ℕ → Result ℕ
byte_if true b = b
byte_if false b = ok 0

-- VCodePoint(const Vu8*, int).
pub of_buffer : List ℕ → ℕ → Result CodePoint
unfolding byte_if
of_buffer bytes i = do
  b0 ← byte_at bytes i
  let count = utf8_length_of_start_byte b0
  b1 ← byte_if (ltb 1 count) (byte_at bytes (i + 1))
  b2 ← byte_if (ltb 2 count) (byte_at bytes (i + 2))
  b3 ← byte_if (ltb 3 count) (byte_at bytes (i + 3))
  ok (init_from_utf8_bytes count b0 b1 b2 b3)

module _ {S : Type 0} (raw : RawStream S) where
  next_byte_if : Bool → S → Result (ℕ × S)
  next_byte_if true s = read_guaranteed_byte raw s
  next_byte_if false s = ok (0, s)

  -- VCodePoint(VBinaryIOStream&) and VCodePoint(VTextIOStream&). The compiler chooses the order in
  -- which the arguments of _initFromUTF8Bytes are read; here it is the order in which they are written.
  pub of_stream : S → Result (CodePoint × S)
  unfolding next_byte_if
  of_stream s = do
    (b0, s0) ← read_guaranteed_byte raw s
    let count = utf8_length_of_start_byte b0
    (b1, s1) ← next_byte_if (ltb 1 count) s0
    (b2, s2) ← next_byte_if (ltb 2 count) s1
    (b3, s3) ← next_byte_if (ltb 3 count) s2
    ok (init_from_utf8_bytes count b0 b1 b2 b3, s3)

utf8_bytes : ℕ → ℕ → Result (List ℕ)
utf8_bytes n count =
    if count == 1
    then ok (u8 n ∷ [])
    else (if count == 2
        then ok (u8 (0xc0 + n / 0x40) ∷ u8 (0x80 + n % 0x40) ∷ [])
        else (if count == 3
            then ok
                (u8 (0xe0 + n / 0x1000) ∷ u8 (0x80 + n / 0x40 % 0x40) ∷ u8 (0x80 + n % 0x40) ∷ [])
            else (if count == 4
                then ok (
                    u8 (0xf0 + n / 0x40000)
                    ∷ u8 (0x80 + n / 0x1000 % 0x40)
                    ∷ u8 (0x80 + n / 0x40 % 0x40)
                    ∷ u8 (0x80 + n % 0x40)
                    ∷ [])
                else err range_error)))

-- toString: the bytes of the string; writeToBinaryStream puts the same bytes on a stream.
pub to_utf8 : ℕ → Result (List ℕ)
unfolding utf8_bytes
to_utf8 n = utf8_length_of_value n >>= utf8_bytes n

put_all : {S : Type 0} (raw : RawStream S) → List ℕ → S → Result S
put_all raw [] s = ok s
put_all raw (b ∷ bs) s = raw.put (b ∷ []) s >>= put_all raw bs

-- writeToBinaryStream writes them one by one.
pub write_to_binary_stream : {S : Type 0} (raw : RawStream S) → ℕ → S → Result S
unfolding put_all
write_to_binary_stream raw n s = to_utf8 n >>= λ bytes. put_all raw bytes s

-- toUTF16WideString, where a wchar_t holds a code unit.
pub to_utf16 : ℕ → List ℕ
to_utf16 n =
    if utf16_length_of_value n == 1
    then n ∷ []
    else ((n - 0x10000) >>> 10 + 0xd800) ∷ (bit_and (n - 0x10000) 0x3ff + 0xdc00) ∷ []

-- The value that _initFromUTF16Surrogates puts together.
pub value_of_surrogates : ℕ → ℕ → ℕ
value_of_surrogates lead trail =
    let x = bit_or (bit_and lead (2 ^ 6 - 1) <<< 10) (bit_and trail (2 ^ 10 - 1)) in
    let w = bit_and (lead >>> 6) (2 ^ 5 - 1) in let u = w + 1 in bit_or (u <<< 16) x

-- _initFromUTF16Surrogates.
pub init_from_utf16_surrogates : ℕ → ℕ → Result CodePoint
init_from_utf16_surrogates lead trail =
    let n = value_of_surrogates lead trail in
    utf8_length_of_value n >>= λ size.
    ok (record { int_value = n; utf8_length = some size; utf16_length = some 2 })

-- VCodePoint(const std::wstring&, int). A single unit sets neither length.
pub of_utf16 : List ℕ → ℕ → Result CodePoint
of_utf16 units i = do
  first ← byte_at units i
  if not (is_utf16_surrogate_code_unit first)
      then ok (record { int_value = first; utf8_length = none; utf16_length = none })
      else (if leb (length units) (i + 1)
          then err eof
          else (byte_at units (i + 1) >>= init_from_utf16_surrogates first))
