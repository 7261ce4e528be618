-- ===== src/Hex.antt =====
-- source/toolbox/vhex.cpp: bytes as hexadecimal digits and back. A `char` is its unsigned value; a
-- string is the list of its bytes.
pub mod RoundTrip
pub mod Print
mod Tests
use code_vault.Base.{
  ℕ, zero, suc, ◌+◌, ◌-◌, ◌*◌, ◌/◌, ◌%◌, ◌^◌, Bool, true, false, not, ◌&&◌, ◌||◌, List, [], ◌∷◌,
  ◌++◌, Result, ok, err, range_error, fault, ◌>>=◌, length, take, drop, ltb, leb, ◌==◌,
  if◌then◌else◌, bit_and, bit_or, ◌<<<◌, ◌>>>◌, u8,
}

-- nibbleToHexChar.
pub nibble_to_hex_char : ℕ → ℕ
nibble_to_hex_char nibble =
    let low = bit_and nibble 0x0f in if ltb low 0x0a then 48 + low else 65 + (low - 0x0a)

-- hexCharToNibble: 0 for what is no digit.
pub hex_char_to_nibble : ℕ → ℕ
hex_char_to_nibble c =
    if leb 48 c && leb c 57
    then c - 48
    else (if leb 65 c && leb c 70
        then 0x0a + c - 65
        else (if leb 97 c && leb c 102 then 0x0a + c - 97 else 0))

-- byteToHexChars: the high digit, then the low one.
pub byte_to_hex_chars : ℕ → ℕ × ℕ
byte_to_hex_chars b = (nibble_to_hex_char (b >>> 4), nibble_to_hex_char (bit_and b 0x0f))

-- hexCharsToByte and hexStringToByte.
pub hex_chars_to_byte : ℕ → ℕ → ℕ
hex_chars_to_byte high low = u8 (bit_or (hex_char_to_nibble high <<< 4) (hex_char_to_nibble low))

digits_of : List ℕ → List ℕ
digits_of [] = []
digits_of (b ∷ bytes) = let (high, low) = byte_to_hex_chars b in high ∷ low ∷ digits_of bytes

leading_0x : Bool → List ℕ
leading_0x want = if want then 48 ∷ 120 ∷ [] else []

-- What bufferToHexString writes.
hex_text : List ℕ → Bool → List ℕ
unfolding digits_of leading_0x
hex_text buffer want_leading = leading_0x want_leading ++ digits_of buffer

-- bufferToHexString and stringToHex. The length of the string is cut down to an int: where that is negative,
-- preflight throws; where it is another than that of the text, the text goes past the end of the string; and it
-- may itself overflow by the leading "0x".
pub buffer_to_hex_string : List ℕ → Bool → Result (List ℕ)
unfolding hex_text
buffer_to_hex_string buffer want_leading =
    let cut = length buffer * 2 % 0x100000000 in
    let extra = if want_leading then 2 else 0 in
    if ltb cut 0x80000000
    then (if cut == length buffer * 2 && ltb (cut + extra) 0x80000000
        then ok (hex_text buffer want_leading)
        else err fault)
    else (if ltb (cut + extra) 0x100000000 then err range_error else err fault)

-- The loop of hexStringToBuffer, with its flag; charAt at the end of a string is the 0 that ends it.
bytes_of : (odd : Bool) → List ℕ → List ℕ
bytes_of odd [] = []
bytes_of true (low ∷ digits) = hex_chars_to_byte 48 low ∷ bytes_of false digits
bytes_of false (high ∷ []) = hex_chars_to_byte high 0 ∷ []
bytes_of false (high ∷ low ∷ digits) = hex_chars_to_byte high low ∷ bytes_of false digits

-- hexStringToBuffer: the bytes that it puts in the buffer.
pub hex_string_to_buffer : List ℕ → Bool → List ℕ
unfolding bytes_of
hex_string_to_buffer digits has_leading =
    bytes_of (length digits % 2 == 1) (if has_leading then drop 2 digits else digits)

-- hexToString: the string has room for half as many bytes as there are digits, and is cut there. A
-- string too short for the leading "0x" has a negative length, which preflight does not take.
pub hex_to_string : List ℕ → Bool → Result (List ℕ)
hex_to_string digits has_leading =
    let half = length digits / 2 in
    if has_leading && half == 0
    then err range_error
    else ok
        (take (if has_leading then half - 1 else half) (hex_string_to_buffer digits has_leading))

-- A `char` that is a space, a control character or, where it has a sign, negative.
at_most_space : (signed : Bool) → ℕ → Bool
at_most_space signed b = leb b 0x20 || (signed && leb 0x80 b)

beyond_tilde : (signed : Bool) → ℕ → Bool
beyond_tilde signed b = ltb 0x7e b && not (signed && leb 0x80 b)

-- The character that bufferToPrintableASCIIString and _printPending show for a byte.
pub printable : (signed : Bool) → ℕ → ℕ
unfolding at_most_space beyond_tilde
printable signed b = if at_most_space signed b || beyond_tilde signed b then 46 else b

-- bufferToPrintableASCIIString, of an empty string.
pub buffer_to_printable : (signed : Bool) → List ℕ → List ℕ
buffer_to_printable signed [] = []
buffer_to_printable signed (b ∷ bytes) = printable signed b ∷ buffer_to_printable signed bytes
