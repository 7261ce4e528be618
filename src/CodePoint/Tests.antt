-- ===== src/CodePoint/Tests.antt =====
-- Examples for source/containers/vcodepoint.cpp: the euro sign, and a character outside the first plane.
use code_vault.Base.{ℕ, ◌≤◌, ◌<◌, ◌≡◌, refl, ◌⊎◌, none, List, [], ◌∷◌, ok, some, arith, inr}
use code_vault.Streams.Raw.{read_guaranteed, read_guaranteed_byte}
use code_vault.Streams.Tests.{list_raw}
use code_vault.CodePoint.{
  CodePoint, of_stream, next_byte_if, init_from_utf8_bytes, value_of_utf8,
  utf8_length_of_start_byte, of_buffer, of_int, to_utf8, utf8_bytes, utf8_length_of_value, to_utf16,
  utf16_length_of_value, of_utf16,
}
use code_vault.CodePoint.Utf8.{of_buffer-to_utf8}
use code_vault.CodePoint.Scan.{count_utf8_code_points, count-encode}
use code_vault.CodePoint.Utf16.{of_utf16-to_utf16}

abbrev euro : List ℕ
euro = 0xe2 ∷ 0x82 ∷ 0xac ∷ []

-- The letter a, and the euro sign.
abbrev text : List ℕ
text = 97 ∷ euro

euro_bytes : to_utf8 0x20ac ≡ ok euro
unfolding to_utf8 utf8_length_of_value utf8_bytes
euro_bytes = refl

of_buffer-to_utf8_example : of_buffer text 1 ≡ of_int 0x20ac
of_buffer-to_utf8_example =
    of_buffer-to_utf8 text 1 0x20ac euro euro_bytes (refl, (refl, (refl, tt)))

count-encode_example : count_utf8_code_points text 4 ≡ ok 2
unfolding to_utf8 utf8_length_of_value utf8_bytes
count-encode_example = count-encode (97 ∷ 0x20ac ∷ []) text refl

of_utf16-to_utf16_example :
    ((0x10000 ≤ 0x1f600) × (of_utf16 (97 ∷ 0xd83d ∷ 0xde00 ∷ []) 1 ≡ of_int 0x1f600))
    ⊎ ((0x1f600 < 0x10000)
        × (of_utf16 (97 ∷ 0xd83d ∷ 0xde00 ∷ []) 1
            ≡ ok (record { int_value = 0x1f600; utf8_length = none; utf16_length = none })))
unfolding to_utf16 utf16_length_of_value
of_utf16-to_utf16_example =
    of_utf16-to_utf16 0x1f600 (97 ∷ 0xd83d ∷ 0xde00 ∷ []) 1 (inr (omega arith, omega arith))
      (refl, (refl, tt))

-- e with an acute accent, and the letter b.
abbrev pub accented : List ℕ
accented = 0xc3 ∷ 0xa9 ∷ 98 ∷ []

abbrev pub e_acute : CodePoint
e_acute = record { int_value = 0xe9; utf8_length = some 2; utf16_length = some 1 }

pub accented_bytes : to_utf8 0xe9 ≡ ok (0xc3 ∷ 0xa9 ∷ [])
unfolding to_utf8 utf8_length_of_value utf8_bytes
accented_bytes = refl

pub of_stream-accented : of_stream list_raw accented ≡ ok (e_acute, 98 ∷ [])
unfolding of_stream next_byte_if init_from_utf8_bytes value_of_utf8 utf8_length_of_start_byte
    utf16_length_of_value read_guaranteed_byte read_guaranteed
of_stream-accented = refl
