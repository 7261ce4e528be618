-- ===== src/Streams/Binary.antt =====
-- source/streams/vbinaryiostream.cpp: VBinaryIOStream, over a raw stream.
pub mod Write
pub mod RoundTrip
pub mod Limits
pub mod Shrink
mod Tests
use code_vault.Base.{
  ℕ, zero, suc, ◌+◌, ◌-◌, ◌%◌, ◌^◌, Bool, true, false, not, List, [], ◌∷◌, ◌++◌, Result, ok, err,
  range_error, stack_trace, fault, guard, ◌>>=◌, ◌>>◌, length, ltb, leb, ◌==◌, if◌then◌else◌, ℤ,
  pos, negsuc,
}
use code_vault.Streams.{max_s32}
use code_vault.Streams.Raw.{RawStream, read_guaranteed, read_guaranteed_byte}
use code_vault.Streams.Order.{in_memory, of_memory, swap_if_needed, pattern_of, signed_of}

abbrev pub max_u16 : ℕ
max_u16 = 0xffff

abbrev pub max_u32 : ℕ
max_u32 = 0xffff_ffff

-- MAX_ONE_BYTE_LENGTH and the indicator bytes for longer counts.
abbrev pub max_one_byte_length : ℕ
max_one_byte_length = 0xfc

abbrev pub three_byte_indicator : ℕ
three_byte_indicator = 0xff

abbrev pub five_byte_indicator : ℕ
five_byte_indicator = 0xfe

abbrev pub nine_byte_indicator : ℕ
nine_byte_indicator = 0xfd

-- `little` says whether the machine is little-endian.
module _ {S : Type 0} (raw : RawStream S) (little : Bool) where
  -- readU8, readU16, readU32 and readU64, for `w` of 1, 2, 4 and 8: the bytes go into the variable's
  -- memory, and are then swapped in place where the orders differ.
  pub read_unsigned : ℕ → S → Result (ℕ × S)
  read_unsigned w s = do
    (bytes, s') ← read_guaranteed raw w s
    ok (swap_if_needed little w (of_memory little bytes), s')

  -- readS8, readS16, readS32 (readInt32) and readS64.
  pub read_signed : ℕ → S → Result (ℤ × S)
  unfolding read_unsigned
  read_signed w s = do (n, s') ← read_unsigned w s; ok (signed_of w n, s')

  -- readBool.
  pub read_bool : S → Result (Bool × S)
  unfolding read_unsigned
  read_bool s = do (n, s') ← read_unsigned 1 s; ok (not (n == 0), s')

  -- writeU8, writeU16, writeU32 and writeU64.
  unfoldable pub write_unsigned : ℕ → ℕ → S → Result S
  write_unsigned w n s = raw.put (in_memory little w (swap_if_needed little w n)) s

  -- writeS8, writeS16, writeS32 (writeInt32, writeSize32) and writeS64.
  unfoldable pub write_signed : ℕ → ℤ → S → Result S
  unfolding write_unsigned
  write_signed w z s = write_unsigned w (pattern_of w z) s

  -- writeBool.
  unfoldable pub write_bool : Bool → S → Result S
  unfolding write_unsigned
  write_bool b s = write_unsigned 1 (if b then 1 else 0) s

  -- readDynamicCount. A count of eight bytes is turned into a Vs64.
  pub read_dynamic_count : S → Result (ℤ × S)
  unfolding read_unsigned
  read_dynamic_count s = do
    (kind, s') ← read_unsigned 1 s
    if kind == three_byte_indicator
        then (read_unsigned 2 s' >>= λ (n, t). ok (pos n, t))
        else (if kind == five_byte_indicator
            then (read_unsigned 4 s' >>= λ (n, t). ok (pos n, t))
            else (if kind == nine_byte_indicator
                then (read_unsigned 8 s' >>= λ (n, t). ok (signed_of 8 n, t))
                else ok (pos kind, s')))

  -- writeDynamicCount, of a count that is not negative.
  unfoldable pub write_dynamic_count : ℕ → S → Result S
  unfolding write_unsigned
  write_dynamic_count n s =
      if leb n max_one_byte_length
      then write_unsigned 1 n s
      else (if leb n max_u16
          then (write_unsigned 1 three_byte_indicator s >>= write_unsigned 2 n)
          else (if leb n max_u32
              then (write_unsigned 1 five_byte_indicator s >>= write_unsigned 4 n)
              else (write_unsigned 1 nine_byte_indicator s >>= write_unsigned 8 n)))

  -- VString::preflight lets a length pass that is not negative, where there is memory for it, and it is so far
  -- below 2^31 that the rounding up of the buffer's size does not overflow.
  preflight : ℤ → Result (Unit {0})
  preflight (pos n) = ok tt
  preflight (negsuc n) = err range_error

  -- The rest of readString, by the count that was read. A negative count passes the test for 2GB; it is
  -- cut down to an int for preflight, and then taken whole as the size to read, which is outside of what a raw
  -- stream promises: `fault` stands for whatever follows.
  string_of_count : ℤ → S → Result (List ℕ × S)
  unfolding preflight
  string_of_count (pos zero) s = ok ([], s)
  string_of_count (pos (suc n)) s = do
    guard (not (ltb max_s32 (suc n))) stack_trace
    preflight (pos (suc n))
    read_guaranteed raw (suc n) s
  string_of_count (negsuc n) s = do
    preflight (signed_of 4 (pattern_of 8 (negsuc n) % 256 ^ 4))
    err fault

  -- readString.
  pub read_string : S → Result (List ℕ × S)
  unfolding read_dynamic_count string_of_count
  read_string s = do (count, s') ← read_dynamic_count s; string_of_count count s'

  string_of_length : ℤ → S → Result (List ℕ × S)
  unfolding preflight
  string_of_length (pos zero) s = ok ([], s)
  string_of_length (pos (suc n)) s = do preflight (pos (suc n)); read_guaranteed raw (suc n) s
  string_of_length (negsuc n) s = do preflight (negsuc n); err fault

  -- readString32.
  pub read_string32 : S → Result (List ℕ × S)
  unfolding read_signed string_of_length
  read_string32 s = do (size, s') ← read_signed 4 s; string_of_length size s'

  -- writeString.
  unfoldable pub write_string : List ℕ → S → Result S
  unfolding write_dynamic_count
  write_string bytes s = write_dynamic_count (length bytes) s >>= raw.put bytes

  -- writeString32, of a string whose length is an int.
  pub write_string32 : List ℕ → S → Result S
  unfolding write_signed
  write_string32 bytes s = write_signed 4 (pos (length bytes)) s >>= raw.put bytes

-- getDynamicCountLength.
unfoldable pub dynamic_count_length : ℕ → ℕ
dynamic_count_length n =
    if leb n max_one_byte_length
    then 1
    else (if leb n max_u16 then 3 else (if leb n max_u32 then 5 else 9))
