-- ===== src/Hex/RoundTrip.antt =====
-- The digits of source/toolbox/vhex.cpp are undone by its decoding, with and without a leading
-- "0x", and an odd count of digits is read as if a zero stood in front.
use code_vault.Base.{
  ℕ, zero, suc, ◌+◌, ◌-◌, ◌*◌, ◌/◌, ◌%◌, ◌≤◌, ◌<◌, ◌≡◌, ◌⊎◌, bit_and-mask, bit_or-shift, u8, ◌>>>◌,
  bit_and, refl, sym, ap, ◌∙◌, Bool, true, false, List, [], ◌∷◌, ◌++◌, ok, length, take, drop, leb,
  lt→ltb, ◌==◌, if◌then◌else◌, arith, on_bytes, all_below, take_all, ==_iff,
}
use code_vault.Hex.{
  nibble_to_hex_char, hex_char_to_nibble, byte_to_hex_chars, hex_chars_to_byte, digits_of,
  leading_0x, hex_text, buffer_to_hex_string, bytes_of, hex_string_to_buffer, hex_to_string,
}

abbrev pub AreBytes : List ℕ → Type 0
AreBytes [] = Unit {0}
AreBytes (b ∷ bytes) = (b < 256) × AreBytes bytes

both_digits :
    (b : ℕ) → b < 256 → hex_chars_to_byte (byte_to_hex_chars b).0 (byte_to_hex_chars b).1 ≡ b
unfolding hex_chars_to_byte byte_to_hex_chars nibble_to_hex_char hex_char_to_nibble all_below
both_digits b h =
    on_bytes (λ x. hex_chars_to_byte (byte_to_hex_chars x).0 (byte_to_hex_chars x).1) (λ x. x) refl
      b h

bytes_of-digits_of : (bytes : List ℕ) → AreBytes bytes → bytes_of false (digits_of bytes) ≡ bytes
unfolding bytes_of digits_of
bytes_of-digits_of [] h = refl
bytes_of-digits_of (b ∷ bytes) (h, rest) = simp (bytes_of-digits_of bytes rest, both_digits b h)

length-digits_of : (bytes : List ℕ) → length (digits_of bytes) ≡ length bytes + length bytes
unfolding digits_of
length-digits_of [] = refl
length-digits_of (b ∷ bytes) = omega (arith, length-digits_of bytes)

length-hex_text :
    (bytes : List ℕ) (want : Bool)
    → length (hex_text bytes want) ≡ length bytes + length bytes + (if want then 2 else 0)
unfolding hex_text leading_0x
length-hex_text bytes want = ground (arith, length-digits_of bytes)

behind_leading :
    (bytes : List ℕ) (want : Bool)
    → bytes_of false (if want then drop 2 (hex_text bytes want) else hex_text bytes want)
      ≡ bytes_of false (digits_of bytes)
unfolding hex_text leading_0x
behind_leading bytes true = refl
behind_leading bytes false = refl

hex_string_to_buffer-hex_text :
    (bytes : List ℕ) (want : Bool)
    → AreBytes bytes
    → hex_string_to_buffer (hex_text bytes want) want ≡ bytes
unfolding hex_string_to_buffer hex_text leading_0x
hex_string_to_buffer-hex_text bytes want h =
    let even : (length (hex_text bytes want) % 2 == 1) ≡ false =
      ground (arith, length-hex_text bytes want) in
    rw even (behind_leading bytes want ∙ bytes_of-digits_of bytes h)

-- A buffer whose digits an int can count.
short_enough :
    (bytes : List ℕ) (want : Bool)
    → length bytes < 0x3fffffe0
    → buffer_to_hex_string bytes want ≡ ok (hex_text bytes want)
unfolding buffer_to_hex_string
short_enough bytes want short =
    let whole : length bytes * 2 % 0x100000000 ≡ length bytes * 2 = omega arith in
    let fits : length bytes * 2 < 0x80000000 = omega arith in
    let same : (length bytes * 2 == length bytes * 2) ≡ true = (==_iff _ _).1 refl in
    let room : length bytes * 2 + (if want then 2 else 0) < 0x80000000 = ground arith in
    rw (whole, lt→ltb _ _ fits, same, lt→ltb _ _ room)

-- The digits of a buffer of fewer than 2^30 - 32 bytes, with or without the leading "0x", decode to the bytes.
pub hex_string_to_buffer-buffer_to_hex_string :
    (bytes : List ℕ) (want : Bool)
    → AreBytes bytes
    → length bytes < 0x3fffffe0
    → (digits : List ℕ) × (buffer_to_hex_string bytes want ≡ ok digits)
      × (hex_string_to_buffer digits want ≡ bytes)
hex_string_to_buffer-buffer_to_hex_string bytes want h short =
    (hex_text bytes want, short_enough bytes want short, hex_string_to_buffer-hex_text bytes want h)

-- An odd count of digits is decoded as if a zero digit stood in front of them.
pub hex_string_to_buffer-odd :
    (digits : List ℕ)
    → length digits % 2 ≡ 1
    → hex_string_to_buffer digits false ≡ hex_string_to_buffer (48 ∷ digits) false
unfolding hex_string_to_buffer bytes_of
hex_string_to_buffer-odd [] odd = absurd (omega (arith, odd))
hex_string_to_buffer-odd (d ∷ digits) odd =
    let before : (length (d ∷ digits) % 2 == 1) ≡ true = ground arith in
    let after : (length (48 ∷ d ∷ digits) % 2 == 1) ≡ false = ground arith in
    ap (λ (t : Bool). bytes_of t (d ∷ digits)) before
    ∙ sym (ap (λ (t : Bool). bytes_of t (48 ∷ d ∷ digits)) after)

-- The text of a buffer of bytes, as hexadecimal and back, is the same text, with and without "0x".
hex_to_string-hex_text :
    (bytes : List ℕ) (want : Bool)
    → AreBytes bytes
    → hex_to_string (hex_text bytes want) want ≡ ok bytes
unfolding hex_to_string
hex_to_string-hex_text bytes true h =
    let size = length-hex_text bytes true in
    let half : length (hex_text bytes true) / 2 ≡ length bytes + 1 = omega (arith, size) in
    let room : (length bytes + 1 == 0) ≡ false = ground arith in
    rw (half, room, hex_string_to_buffer-hex_text bytes true h)
      (ap ok (take_all (length bytes + 1 - 1) bytes (omega arith)))
hex_to_string-hex_text bytes false h =
    let size = length-hex_text bytes false in
    rw (hex_string_to_buffer-hex_text bytes false h)
      (ap ok (take_all (length (hex_text bytes false) / 2) bytes (omega (arith, size))))

length-bytes_of : (digits : List ℕ) → length (bytes_of false digits) ≡ (length digits + 1) / 2
unfolding bytes_of
length-bytes_of [] = refl
length-bytes_of (high ∷ []) = refl
length-bytes_of (high ∷ low ∷ digits) = omega (arith, length-bytes_of digits)

split_last : (xs : List ℕ) (k : ℕ) → length xs ≡ suc k → (last : ℕ) × (xs ≡ take k xs ++ last ∷ [])
split_last [] k e = absurd (omega (arith, e))
split_last (x ∷ []) zero e = (x, refl)
split_last (x ∷ y ∷ xs) zero e = absurd (omega (arith, e))
split_last (x ∷ xs) (suc k) e =
    let (last, parts) = split_last xs k (omega (arith, e)) in (last, ap (λ t. x ∷ t) parts)

length-odd :
    (digits : List ℕ)
    → length digits % 2 ≡ 1
    → length (bytes_of true digits) ≡ suc (length digits / 2)
unfolding bytes_of
length-odd [] odd = absurd (omega (arith, odd))
length-odd (d ∷ digits) odd = omega (arith, length-bytes_of digits)

-- But of an odd count of digits without "0x", the last byte that they decode to is cut off.
hex_to_string-odd :
    (digits : List ℕ)
    → length digits % 2 ≡ 1
    → (last : ℕ) × (text : List ℕ) × (hex_to_string digits false ≡ ok text)
      × (hex_string_to_buffer digits false ≡ text ++ last ∷ [])
unfolding hex_to_string hex_string_to_buffer
hex_to_string-odd digits odd =
    let flag : (length digits % 2 == 1) ≡ true = ground arith in
    let size : length (bytes_of true digits) ≡ suc (length digits / 2) = length-odd digits odd in
    let (last, parts) = split_last (bytes_of true digits) (length digits / 2) size in
    let written = ap (λ (t : Bool). bytes_of t digits) flag in
    (
      last,
      take (length digits / 2) (hex_string_to_buffer digits false),
      refl,
      written ∙ parts ∙ ap (λ t. take (length digits / 2) t ++ last ∷ []) (sym written),
    )

-- An upper-case or lower-case hexadecimal digit, and its upper case.
abbrev pub IsDigit : ℕ → Type 0
IsDigit c = ((48 ≤ c) × (c ≤ 57)) ⊎ ((65 ≤ c) × (c ≤ 70)) ⊎ ((97 ≤ c) × (c ≤ 102))

abbrev pub AreDigits : List ℕ → Type 0
AreDigits [] = Unit {0}
AreDigits (c ∷ cs) = IsDigit c × AreDigits cs

abbrev pub upper_case : List ℕ → List ℕ
upper_case [] = []
upper_case (c ∷ cs) = (if leb 97 c then c - 32 else c) ∷ upper_case cs

nibble_lt : (c : ℕ) → hex_char_to_nibble c < 16
unfolding hex_char_to_nibble
nibble_lt c = ground arith

digit_again :
    (c : ℕ)
    → IsDigit c
    → nibble_to_hex_char (hex_char_to_nibble c) ≡ (if leb 97 c then c - 32 else c)
unfolding hex_char_to_nibble nibble_to_hex_char
digit_again c digit =
    let low : bit_and (hex_char_to_nibble c) 15 ≡ hex_char_to_nibble c =
      bit_and-mask 4 (hex_char_to_nibble c) ∙ omega (arith, nibble_lt c) in
    rw low (ground arith)

joined :
    (high low : ℕ)
    → hex_chars_to_byte high low ≡ hex_char_to_nibble high * 16 + hex_char_to_nibble low
unfolding hex_chars_to_byte
joined high low =
    ap u8 (bit_or-shift 4 (hex_char_to_nibble high) (hex_char_to_nibble low) (nibble_lt low))
    ∙ omega (arith, nibble_lt high, nibble_lt low)

digits_again :
    (high low : ℕ)
    → IsDigit high
    → IsDigit low
    → ((byte_to_hex_chars (hex_chars_to_byte high low)).0
        ≡ (if leb 97 high then high - 32 else high))
      × ((byte_to_hex_chars (hex_chars_to_byte high low)).1
          ≡ (if leb 97 low then low - 32 else low))
unfolding byte_to_hex_chars
digits_again high low hh hl =
    let a = hex_char_to_nibble high in
    let b = hex_char_to_nibble low in
    let top : (a * 16 + b) >>> 4 ≡ a = omega (arith, nibble_lt low) in
    let bottom : bit_and (a * 16 + b) 15 ≡ b =
      bit_and-mask 4 (a * 16 + b) ∙ omega (arith, nibble_lt low) in
    (
      ap (λ (t : ℕ). nibble_to_hex_char (t >>> 4)) (joined high low)
          ∙ ap nibble_to_hex_char top
          ∙ digit_again high hh,
      ap (λ (t : ℕ). nibble_to_hex_char (bit_and t 15)) (joined high low)
          ∙ ap nibble_to_hex_char bottom
          ∙ digit_again low hl,
    )

digits_of-bytes_of :
    (digits : List ℕ)
    → AreDigits digits
    → length digits % 2 ≡ 0
    → digits_of (bytes_of false digits) ≡ upper_case digits
unfolding digits_of bytes_of
digits_of-bytes_of [] h even = refl
digits_of-bytes_of (high ∷ []) h even = absurd (omega (arith, even))
digits_of-bytes_of (high ∷ low ∷ digits) (hh, (hl, h)) even =
    let (first, second) = digits_again high low hh hl in
    simp (first, second, digits_of-bytes_of digits h (omega (arith, even)))

-- An even count of hexadecimal digits, decoded and encoded again, gives the digits in upper case.
hex_text-hex_string_to_buffer :
    (digits : List ℕ)
    → AreDigits digits
    → length digits % 2 ≡ 0
    → hex_text (hex_string_to_buffer digits false) false ≡ upper_case digits
unfolding hex_text hex_string_to_buffer leading_0x
hex_text-hex_string_to_buffer digits h even =
    let flag : (length digits % 2 == 1) ≡ false = ground arith in
    rw flag (digits_of-bytes_of digits h even)
