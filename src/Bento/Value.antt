-- ===== src/Bento/Value.antt =====
-- How source/containers/vbento.h, vgeometry.h and vcolor.h write values on a binary stream, and read them.
pub mod Format
pub mod Laws
pub mod Lengths
pub mod Shrink
use code_vault.Base.{
  bad_alloc, ℕ, zero, suc, ◌+◌, ◌*◌, ◌/◌, ◌%◌, ◌^◌, Bool, List, [], ◌∷◌, Result, ok, err, fault,
  ◌>>=◌, length, ℤ, pos, negsuc,
}
use code_vault.Streams.Raw.{RawStream}
use code_vault.Streams.Binary.{
  read_unsigned, read_signed, read_bool, read_string, read_dynamic_count, write_unsigned,
  write_signed, write_bool, write_string, write_dynamic_count, dynamic_count_length,
}
use code_vault.CodePoint.{CodePoint, of_stream, write_to_binary_stream, utf8_length_of_value}
use code_vault.Bento.{
  Shape, unsigned, signed, flag, text, code_point, rgba, bytes, pair, array, Color, Payload,
  DataType, s8, u8, s16, u16, s32, u32, s64, u64, boolean, string, character, float, double,
  duration, instant, size, isize, point, ipoint, point3d, ipoint3d, line, iline, rect, irect,
  polygon, ipolygon, color, binary, s8_array, s16_array, s32_array, s64_array, string_array,
  bool_array, double_array, duration_array, instant_array, shape_of,
}

-- VColor::_getStreamValue and _setStreamValue, where a byte is below 256.
pub stream_value : Color → ℕ
stream_value c = c.red * 0x100_0000 + c.green * 0x1_0000 + c.blue * 0x100 + c.alpha

pub of_stream_value : ℕ → Color
of_stream_value n = record {
  red = n / 0x100_0000 % 256;
  green = n / 0x1_0000 % 256;
  blue = n / 0x100 % 256;
  alpha = n % 256;
}

-- The rounds of a loop up to an int.
abbrev pub rounds : ℤ → ℕ
rounds (pos n) = n
rounds (negsuc n) = 0

module _ {S : Type 0} (raw : RawStream S) (little : Bool) where
  unfoldable pub write_many : {A : Type 0} → (A → S → Result S) → List A → S → Result S
  write_many write [] s = ok s
  write_many write (a ∷ as') s = write a s >>= write_many write as'

  pub read_many : {A : Type 0} → (S → Result (A × S)) → ℕ → S → Result (List A × S)
  read_many read zero s = ok ([], s)
  read_many read (suc n) s = do (a, s') ← read s; (as', t) ← read_many read n s'; ok (a ∷ as', t)

  -- VStream::streamCopy into a memory stream whose buffer was made for the length. There is memory for a
  -- length that is not negative; a negative one is, as a size_t, more than can be had.
  pub copy_of_count : ℤ → S → Result (List ℕ × S)
  copy_of_count (pos n) s = raw.get n s
  copy_of_count (negsuc n) s = err bad_alloc

  -- writeDataToBinaryStream.
  unfoldable pub write_value : (a : Shape) → Payload a → S → Result S
  unfolding write_many
  write_value (unsigned w) n s = write_unsigned raw little w n s
  write_value (signed w) z s = write_signed raw little w z s
  write_value flag b s = write_bool raw little b s
  write_value text str s = write_string raw little str s
  write_value code_point c s = write_to_binary_stream raw c s
  write_value rgba c s = write_unsigned raw little 4 (stream_value c) s
  write_value bytes bs s = write_dynamic_count raw little (length bs) s >>= raw.put bs
  write_value (pair a b) (x, y) s = write_value a x s >>= write_value b y
  write_value (array a) xs s =
      write_signed raw little 4 (pos (length xs)) s >>= write_many (write_value a) xs

  -- The constructors from a stream, behind the name.
  pub read_value : (a : Shape) → S → Result (Payload a × S)
  unfolding read_many copy_of_count
  read_value (unsigned w) s = read_unsigned raw little w s
  read_value (signed w) s = read_signed raw little w s
  read_value flag s = read_bool raw little s
  read_value text s = read_string raw little s
  read_value code_point s = do (c, s') ← of_stream raw s; ok (c.int_value, s')
  read_value rgba s = do (n, s') ← read_unsigned raw little 4 s; ok (of_stream_value n, s')
  read_value bytes s = do (n, s') ← read_dynamic_count raw little s; copy_of_count n s'
  read_value (pair a b) s = do (x, s') ← read_value a s; (y, t) ← read_value b s'; ok ((x, y), t)
  read_value (array a) s = do
    (n, s') ← read_signed raw little 4 s
    read_many (read_value a) (rounds n) s'

-- VBentoNode::_getBinaryStringLength.
unfoldable pub binary_string_length : List ℕ → ℕ
binary_string_length str = dynamic_count_length (length str) + length str

pub sum_of_lengths : List (List ℕ) → ℕ
unfolding binary_string_length
sum_of_lengths [] = 0
sum_of_lengths (str ∷ more) = binary_string_length str + sum_of_lengths more

-- VCodePoint::getUTF8Length of a code point that can be had.
pub utf8_length : ℕ → ℕ
utf8_length n = elim (utf8_length_of_value n) [ ok k ↦ k | err f ↦ 0 ]

-- getDataLength.
unfoldable pub data_length : (d : DataType) → Payload (shape_of d) → ℕ
unfolding binary_string_length sum_of_lengths utf8_length
data_length s8 v = 1
data_length u8 v = 1
data_length s16 v = 2
data_length u16 v = 2
data_length s32 v = 4
data_length u32 v = 4
data_length s64 v = 8
data_length u64 v = 8
data_length boolean v = 1
data_length string (encoding, str) = binary_string_length encoding + binary_string_length str
data_length character c = utf8_length c
data_length float v = 4
data_length double v = 8
data_length duration v = 8
data_length instant v = 8
data_length size v = 16
data_length isize v = 8
data_length point v = 16
data_length ipoint v = 8
data_length point3d v = 24
data_length ipoint3d v = 12
data_length line v = 32
data_length iline v = 16
data_length rect v = 32
data_length irect v = 16
data_length polygon v = 4 + 16 * length v
data_length ipolygon v = 4 + 8 * length v
data_length color v = 4
data_length binary v = dynamic_count_length (length v) + length v
data_length s8_array v = 4 + 1 * length v
data_length s16_array v = 4 + 2 * length v
data_length s32_array v = 4 + 4 * length v
data_length s64_array v = 4 + 8 * length v
data_length string_array v = 4 + sum_of_lengths v
data_length bool_array v = 4 + 1 * length v
data_length double_array v = 4 + 8 * length v
data_length duration_array v = 4 + 8 * length v
data_length instant_array v = 4 + 8 * length v
