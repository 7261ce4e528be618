-- ===== src/Bento/Value/Lengths.antt =====
-- getDataLength of each class in source/containers/vbento.h, against the bytes of its values.
use code_vault.Base.{
  ℕ, ◌+◌, ◌<◌, ◌≡◌, refl, sym, ap, ◌∙◌, List, ℤ, length-append, ok, length, pos, arith, inl, inr,
  if◌then◌else◌,
}
use code_vault.Streams.Order.{pattern_of}
use code_vault.Streams.Order.Laws.{be_bytes, length-be_bytes}
use code_vault.CodePoint.{to_utf8}
use code_vault.CodePoint.Sequences.{to_utf8-IsSequence}
use code_vault.Bento.{
  unsigned, signed, flag, text, array, Payload, DataType, s8, u8, s16, u16, s32, u32, s64, u64,
  boolean, string, character, float, double, duration, instant, size, isize, point, ipoint, point3d,
  ipoint3d, line, iline, rect, irect, polygon, ipolygon, color, binary, s8_array, s16_array,
  s32_array, s64_array, string_array, bool_array, double_array, duration_array, instant_array,
  shape_of, pair_of,
}
use code_vault.Bento.Value.{stream_value, sum_of_lengths, utf8_length, data_length}
use code_vault.Bento.Value.Format.{
  encode_value, encode_many, encode_string, encode_point, Fits, length-encode_string,
  length-encode_array, length-encode_strings, length-pair,
}

pub encoded_point :
    (n : ℕ)
    → n < 0x110000
    → (to_utf8 n ≡ ok (encode_point n)) × (utf8_length n ≡ length (encode_point n))
unfolding utf8_length
encoded_point n small = elim (to_utf8-IsSequence n) [
  | inl (_, (ys, e, k, _)) ↦
      let same : encode_point n ≡ ys = rw (e, encode_point) refl in
      (e ∙ ap (λ zs. ok zs) (sym same), rw (k, utf8_length) (ap length (sym same)))
  | inr (large, _) ↦ absurd (omega arith)
]

-- Pairs and triplets of doubles, and of ints.
doubles : (v : Payload (pair_of (unsigned 8))) → length (encode_value (pair_of (unsigned 8)) v) ≡ 16
doubles (x, y) =
    length-pair (unsigned 8) (unsigned 8) 8 8 x y (length-be_bytes 8 x) (length-be_bytes 8 y)

ints : (v : Payload (pair_of (signed 4))) → length (encode_value (pair_of (signed 4)) v) ≡ 8
ints (x, y) =
    length-pair (signed 4) (signed 4) 4 4 x y (length-be_bytes 4 (pattern_of 4 x))
      (length-be_bytes 4 (pattern_of 4 y))

two_doubles :
    (v : Payload (pair_of (pair_of (unsigned 8))))
    → length (encode_value (pair_of (pair_of (unsigned 8))) v) ≡ 32
two_doubles (p, q) =
    length-pair (pair_of (unsigned 8)) (pair_of (unsigned 8)) 16 16 p q (doubles p) (doubles q)

two_ints :
    (v : Payload (pair_of (pair_of (signed 4))))
    → length (encode_value (pair_of (pair_of (signed 4))) v) ≡ 16
two_ints (p, q) = length-pair (pair_of (signed 4)) (pair_of (signed 4)) 8 8 p q (ints p) (ints q)

signed_bytes : (w : ℕ) (z : ℤ) → length (encode_value (signed w) z) ≡ w
signed_bytes w z = length-be_bytes w (pattern_of w z)

strings : (xs : List (List ℕ)) → length (encode_value (array text) xs) ≡ 4 + sum_of_lengths xs
strings xs =
    length-append (be_bytes 4 (pattern_of 4 (pos (length xs)))) (encode_many encode_string xs)
    ∙ omega (arith, length-be_bytes 4 (pattern_of 4 (pos (length xs))), length-encode_strings xs)

-- getDataLength is the number of bytes that writeDataToBinaryStream writes, for every class.
pub length-encode_value :
    (d : DataType) (v : Payload (shape_of d))
    → Fits (shape_of d) v
    → length (encode_value (shape_of d) v) ≡ data_length d v
unfolding data_length
length-encode_value s8 v fits = signed_bytes 1 v
length-encode_value u8 v fits = length-be_bytes 1 v
length-encode_value s16 v fits = signed_bytes 2 v
length-encode_value u16 v fits = length-be_bytes 2 v
length-encode_value s32 v fits = signed_bytes 4 v
length-encode_value u32 v fits = length-be_bytes 4 v
length-encode_value s64 v fits = signed_bytes 8 v
length-encode_value u64 v fits = length-be_bytes 8 v
length-encode_value boolean v fits = length-be_bytes 1 (if v then 1 else 0)
length-encode_value string (x, y) fits =
    length-pair text text _ _ x y (length-encode_string x) (length-encode_string y)
length-encode_value character v fits = sym (encoded_point v fits).1
length-encode_value float v fits = length-be_bytes 4 v
length-encode_value double v fits = length-be_bytes 8 v
length-encode_value duration v fits = signed_bytes 8 v
length-encode_value instant v fits = signed_bytes 8 v
length-encode_value size v fits = doubles v
length-encode_value isize v fits = ints v
length-encode_value point v fits = doubles v
length-encode_value ipoint v fits = ints v
length-encode_value point3d (x, p) fits =
    length-pair (unsigned 8) (pair_of (unsigned 8)) 8 16 x p (length-be_bytes 8 x) (doubles p)
length-encode_value ipoint3d (x, p) fits =
    length-pair (signed 4) (pair_of (signed 4)) 4 8 x p (signed_bytes 4 x) (ints p)
length-encode_value line v fits = two_doubles v
length-encode_value iline v fits = two_ints v
length-encode_value rect v fits = two_doubles v
length-encode_value irect v fits = two_ints v
length-encode_value polygon v fits = length-encode_array (pair_of (unsigned 8)) 16 v doubles
length-encode_value ipolygon v fits = length-encode_array (pair_of (signed 4)) 8 v ints
length-encode_value color v fits = length-be_bytes 4 (stream_value v)
length-encode_value binary v fits = length-encode_string v
length-encode_value s8_array v fits = length-encode_array (signed 1) 1 v (signed_bytes 1)
length-encode_value s16_array v fits = length-encode_array (signed 2) 2 v (signed_bytes 2)
length-encode_value s32_array v fits = length-encode_array (signed 4) 4 v (signed_bytes 4)
length-encode_value s64_array v fits = length-encode_array (signed 8) 8 v (signed_bytes 8)
length-encode_value string_array v fits = strings v
length-encode_value bool_array v fits =
    length-encode_array flag 1 v (λ b. length-be_bytes 1 (if b then 1 else 0))
length-encode_value double_array v fits = length-encode_array (unsigned 8) 8 v (length-be_bytes 8)
length-encode_value duration_array v fits = length-encode_array (signed 8) 8 v (signed_bytes 8)
length-encode_value instant_array v fits = length-encode_array (signed 8) 8 v (signed_bytes 8)
