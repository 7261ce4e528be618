-- ===== src/Bento.antt =====
-- VBento (source/containers/vbento.h, vbento.cpp): the data types of attributes, and their values.
pub mod Value
pub mod Node
pub mod Types
pub mod Text
use code_vault.Base.{
  ℕ, Bool, true, false, ◌&&◌, Option, none, some, List, [], ◌∷◌, ◌==◌, if◌then◌else◌, ℤ,
}

-- What a value is made of on a binary stream: an integer of some bytes, a bool, a string, a code point, a
-- colour, a block of bytes behind its length, two values, or values behind their count.
pub data Shape : Type 0 where
  unsigned signed : (width : ℕ) → Shape
  flag text code_point rgba bytes : Shape
  pair : Shape → Shape → Shape
  array : Shape → Shape

-- VColor.
pub record Color : Type 0 where
  pub red : ℕ
  pub green : ℕ
  pub blue : ℕ
  pub alpha : ℕ

abbrev pub Payload : Shape → Type 0
Payload (unsigned w) = ℕ
Payload (signed w) = ℤ
Payload flag = Bool
Payload text = List ℕ
Payload code_point = ℕ
Payload rgba = Color
Payload bytes = List ℕ
Payload (pair a b) = Payload a × Payload b
Payload (array a) = List (Payload a)

-- VGeometry::writePairToStream and readPairFromStream; writeTripletToStream and readTripletFromStream.
abbrev pub pair_of : Shape → Shape
pair_of a = pair a a

abbrev pub triplet_of : Shape → Shape
triplet_of a = pair a (pair_of a)

-- The classes of attributes but VBentoUnknownValue.
pub data DataType : Type 0 where
  s8 u8 s16 u16 s32 u32 s64 u64 boolean string character float double duration instant size isize
        point ipoint point3d ipoint3d line iline rect irect polygon ipolygon color binary s8_array
        s16_array s32_array s64_array string_array bool_array double_array duration_array
        instant_array :
      DataType

-- What each class reads in its constructor from a stream and writes in writeDataToBinaryStream. A float
-- or a double is its bits; a duration and an instant are the 64-bit integers in them.
abbrev pub shape_of : DataType → Shape
shape_of s8 = signed 1
shape_of u8 = unsigned 1
shape_of s16 = signed 2
shape_of u16 = unsigned 2
shape_of s32 = signed 4
shape_of u32 = unsigned 4
shape_of s64 = signed 8
shape_of u64 = unsigned 8
shape_of boolean = flag
shape_of string = pair text text
shape_of character = code_point
shape_of float = unsigned 4
shape_of double = unsigned 8
shape_of duration = signed 8
shape_of instant = signed 8
shape_of size = pair_of (unsigned 8)
shape_of isize = pair_of (signed 4)
shape_of point = pair_of (unsigned 8)
shape_of ipoint = pair_of (signed 4)
shape_of point3d = triplet_of (unsigned 8)
shape_of ipoint3d = triplet_of (signed 4)
shape_of line = pair_of (pair_of (unsigned 8))
shape_of iline = pair_of (pair_of (signed 4))
shape_of rect = pair_of (pair_of (unsigned 8))
shape_of irect = pair_of (pair_of (signed 4))
shape_of polygon = array (pair_of (unsigned 8))
shape_of ipolygon = array (pair_of (signed 4))
shape_of color = rgba
shape_of binary = bytes
shape_of s8_array = array (signed 1)
shape_of s16_array = array (signed 2)
shape_of s32_array = array (signed 4)
shape_of s64_array = array (signed 8)
shape_of string_array = array text
shape_of bool_array = array flag
shape_of double_array = array (unsigned 8)
shape_of duration_array = array (signed 8)
shape_of instant_array = array (signed 8)

-- DATA_TYPE_ID.
abbrev pub data_type_id : DataType → List ℕ
data_type_id s8 = b'v' ∷ b's' ∷ b'_' ∷ b'8' ∷ []
data_type_id u8 = b'v' ∷ b'u' ∷ b'_' ∷ b'8' ∷ []
data_type_id s16 = b'v' ∷ b's' ∷ b'1' ∷ b'6' ∷ []
data_type_id u16 = b'v' ∷ b'u' ∷ b'1' ∷ b'6' ∷ []
data_type_id s32 = b'v' ∷ b's' ∷ b'3' ∷ b'2' ∷ []
data_type_id u32 = b'v' ∷ b'u' ∷ b'3' ∷ b'2' ∷ []
data_type_id s64 = b'v' ∷ b's' ∷ b'6' ∷ b'4' ∷ []
data_type_id u64 = b'v' ∷ b'u' ∷ b'6' ∷ b'4' ∷ []
data_type_id boolean = b'b' ∷ b'o' ∷ b'o' ∷ b'l' ∷ []
data_type_id string = b'v' ∷ b's' ∷ b't' ∷ b'r' ∷ []
data_type_id character = b'u' ∷ b'8' ∷ b'c' ∷ b'h' ∷ []
data_type_id float = b'f' ∷ b'l' ∷ b'o' ∷ b't' ∷ []
data_type_id double = b'd' ∷ b'o' ∷ b'u' ∷ b'b' ∷ []
data_type_id duration = b'd' ∷ b'u' ∷ b'r' ∷ b'a' ∷ []
data_type_id instant = b'i' ∷ b'n' ∷ b's' ∷ b't' ∷ []
data_type_id size = b's' ∷ b'i' ∷ b'z' ∷ b'd' ∷ []
data_type_id isize = b's' ∷ b'i' ∷ b'z' ∷ b'i' ∷ []
data_type_id point = b'p' ∷ b't' ∷ b'_' ∷ b'd' ∷ []
data_type_id ipoint = b'p' ∷ b't' ∷ b'_' ∷ b'i' ∷ []
data_type_id point3d = b'p' ∷ b't' ∷ b'3' ∷ b'd' ∷ []
data_type_id ipoint3d = b'p' ∷ b't' ∷ b'3' ∷ b'i' ∷ []
data_type_id line = b'l' ∷ b'i' ∷ b'n' ∷ b'e' ∷ []
data_type_id iline = b'l' ∷ b'i' ∷ b'n' ∷ b'i' ∷ []
data_type_id rect = b'r' ∷ b'e' ∷ b'c' ∷ b'd' ∷ []
data_type_id irect = b'r' ∷ b'e' ∷ b'c' ∷ b'i' ∷ []
data_type_id polygon = b'p' ∷ b'o' ∷ b'l' ∷ b'd' ∷ []
data_type_id ipolygon = b'p' ∷ b'o' ∷ b'l' ∷ b'i' ∷ []
data_type_id color = b'r' ∷ b'g' ∷ b'b' ∷ b'a' ∷ []
data_type_id binary = b'b' ∷ b'i' ∷ b'n' ∷ b'a' ∷ []
data_type_id s8_array = b's' ∷ b'8' ∷ b'_' ∷ b'a' ∷ []
data_type_id s16_array = b's' ∷ b'1' ∷ b'6' ∷ b'a' ∷ []
data_type_id s32_array = b's' ∷ b'3' ∷ b'2' ∷ b'a' ∷ []
data_type_id s64_array = b's' ∷ b'6' ∷ b'4' ∷ b'a' ∷ []
data_type_id string_array = b'v' ∷ b's' ∷ b't' ∷ b'a' ∷ []
data_type_id bool_array = b'b' ∷ b'o' ∷ b'o' ∷ b'a' ∷ []
data_type_id double_array = b'd' ∷ b'u' ∷ b'b' ∷ b'a' ∷ []
data_type_id duration_array = b'd' ∷ b'r' ∷ b'a' ∷ b'a' ∷ []
data_type_id instant_array = b'i' ∷ b'n' ∷ b's' ∷ b'a' ∷ []

-- VBentoChar::LEGACY_DATA_TYPE_ID.
abbrev pub legacy_data_type_id : List ℕ
legacy_data_type_id = b'c' ∷ b'h' ∷ b'a' ∷ b'r' ∷ []

-- Equality of strings.
pub same_text : List ℕ → List ℕ → Bool
same_text [] [] = true
same_text (a ∷ xs) (b ∷ ys) = a == b && same_text xs ys
same_text _ _ = false

-- What newObjectFromStream makes of a data type.
pub data Reader : Type 0 where
  reads : DataType → Reader
  reads_legacy_char reads_unknown : Reader

-- The chain of tests in newObjectFromStream, in its order.
pub first_of : List (List ℕ × Reader) → List ℕ → Reader
unfolding same_text
first_of [] id = reads_unknown
first_of ((known, reader) ∷ more) id = if same_text id known then reader else first_of more id

abbrev readers : List (List ℕ × Reader)
readers =
    (data_type_id s32, reads s32)
    ∷ (data_type_id string, reads string)
    ∷ (data_type_id boolean, reads boolean)
    ∷ (data_type_id character, reads character)
    ∷ (legacy_data_type_id, reads_legacy_char)
    ∷ (data_type_id s64, reads s64)
    ∷ (data_type_id double, reads double)
    ∷ (data_type_id duration, reads duration)
    ∷ (data_type_id instant, reads instant)
    ∷ (data_type_id s8, reads s8)
    ∷ (data_type_id u8, reads u8)
    ∷ (data_type_id s16, reads s16)
    ∷ (data_type_id u16, reads u16)
    ∷ (data_type_id u32, reads u32)
    ∷ (data_type_id u64, reads u64)
    ∷ (data_type_id float, reads float)
    ∷ (data_type_id size, reads size)
    ∷ (data_type_id isize, reads isize)
    ∷ (data_type_id point, reads point)
    ∷ (data_type_id ipoint, reads ipoint)
    ∷ (data_type_id point3d, reads point3d)
    ∷ (data_type_id ipoint3d, reads ipoint3d)
    ∷ (data_type_id line, reads line)
    ∷ (data_type_id iline, reads iline)
    ∷ (data_type_id rect, reads rect)
    ∷ (data_type_id irect, reads irect)
    ∷ (data_type_id polygon, reads polygon)
    ∷ (data_type_id ipolygon, reads ipolygon)
    ∷ (data_type_id color, reads color)
    ∷ (data_type_id binary, reads binary)
    ∷ (data_type_id s8_array, reads s8_array)
    ∷ (data_type_id s16_array, reads s16_array)
    ∷ (data_type_id s32_array, reads s32_array)
    ∷ (data_type_id s64_array, reads s64_array)
    ∷ (data_type_id string_array, reads string_array)
    ∷ (data_type_id bool_array, reads bool_array)
    ∷ (data_type_id double_array, reads double_array)
    ∷ (data_type_id duration_array, reads duration_array)
    ∷ (data_type_id instant_array, reads instant_array)
    ∷ []

pub reader_of : List ℕ → Reader
unfolding first_of
reader_of id = first_of readers id
