-- ===== src/Bento/Text/Values.antt =====
-- source/containers/vbento.cpp: newObjectFromBentoTextValues, which finds the class of an attribute and the text
-- of its value, and VBentoStringArray::newFromBentoTextString. A value of another class than string, char, bool
-- and array of strings stands here as the class and the text that its conversion is given: what the conversion of
-- a text into a number, a time, a figure or an array of these makes of it, and what it throws, is left out.
use code_vault.Base.{
  ℕ, ◌-◌, Bool, false, not, ◌&&◌, ◌||◌, List, [], ◌∷◌, ◌++◌, Result, ok, err, exception, ◌>>=◌,
  length, take, drop, ◌==◌, leb, if◌then◌else◌,
}
use code_vault.Bento.{
  DataType, data_type_id, legacy_data_type_id, same_text, Reader, reads, reads_legacy_char,
  reads_unknown, first_of, s8, u8, s16, u16, s32, u32, s64, u64, boolean, string, character, float,
  double, duration, instant, size, isize, point, ipoint, point3d, ipoint3d, line, iline, rect,
  irect, polygon, ipolygon, color, binary, s8_array, s16_array, s32_array, s64_array, string_array,
  bool_array, double_array, duration_array, instant_array,
}

-- An attribute by its class: a string with the name of its encoding, a char, an int as its text, a bool, an
-- array of strings, or another class, with the text of the value.
pub data Value : Type 0 where
  string_value : (text encoding : List ℕ) → Value
  char_value : ℕ → Value
  integer_value : List ℕ → Value
  bool_value : Bool → Value
  array_value : List (List ℕ) → Value
  typed_value : DataType → List ℕ → Value

-- What is read may also be an instant from its local name, or a char of the older class.
pub data Parsed : Type 0 where
  parsed : Value → Parsed
  local_instant legacy_char : List ℕ → Parsed

-- VString::replace of a pair of characters by one.
unfoldable pub replace_pair : ℕ → ℕ → ℕ → List ℕ → List ℕ
replace_pair a b by [] = []
replace_pair a b by (x ∷ []) = x ∷ []
replace_pair a b by (x ∷ y ∷ more) =
    let skipped = replace_pair a b by more in
    let kept = replace_pair a b by (y ∷ more) in if x == a && y == b then by ∷ skipped else x ∷ kept

-- _unescapeString.
unfoldable pub unescape : List ℕ → List ℕ
unfolding replace_pair
unescape s = replace_pair b'\\' b'\\' b'\\' (
    replace_pair b'\\' b'{' b'{' (
      replace_pair b'\\' b'}' b'}'
        (replace_pair b'\\' b'"' b'"' (replace_pair b'\\' b'\'' b'\'' s))))

-- The substring without the first and the last character, which are quotes.
abbrev pub inner : List ℕ → List ℕ
inner s = take (length s - 2) (drop 1 s)

abbrev starts_with : ℕ → List ℕ → Bool
starts_with q [] = false
starts_with q (c ∷ s) = c == q

-- The first code point, and 0 where there is none.
abbrev first_or_zero : List ℕ → ℕ
first_or_zero [] = 0
first_or_zero (c ∷ s) = c

-- StringArrayParseState.
pub data ArrayState : Type 0 where
  init in_array in_element element_ended escape_pending done : ArrayState

-- VCodePoint::isWhitespace.
is_whitespace : ℕ → Bool
is_whitespace c = leb c 0x20 || c == 0x7f

-- VBentoStringArray::newFromBentoTextString, from a state with a pending string and the elements so far.
unfoldable pub read_elements :
    ArrayState → (pending : List ℕ) → List (List ℕ) → List ℕ → Result (List (List ℕ))
unfolding is_whitespace
read_elements state pending es [] = ok es
read_elements init pending es (c ∷ s) =
    let next = read_elements in_array pending es s in if c == b'"' then next else err exception
read_elements in_array pending es (c ∷ s) =
    let next = read_elements in_element pending es s in if c == b'"' then next else err exception
read_elements in_element pending es (c ∷ s) =
    let closed = read_elements element_ended [] (es ++ pending ∷ []) s in
    let escaped = read_elements escape_pending pending es s in
    let next = read_elements in_element (pending ++ c ∷ []) es s in
    if c == b'"' then closed else (if c == b'\\' then escaped else next)
read_elements element_ended pending es (c ∷ s) =
    let another = read_elements in_array pending es s in
    let last = read_elements done pending es s in
    let next = read_elements element_ended pending es s in
    if c == b','
    then another
    else (if c == b'"' then last else (if is_whitespace c then next else err exception))
read_elements escape_pending pending es (c ∷ s) = read_elements in_element (pending ++ c ∷ []) es s
read_elements done pending es (c ∷ s) =
    let next = read_elements done pending es s in if is_whitespace c then next else err exception

abbrev named : DataType → List ℕ × Reader
named d = (data_type_id d, reads d)

-- The chain of tests on the data type.
abbrev text_readers : List (List ℕ × Reader)
text_readers =
    named s8
    ∷ named u8
    ∷ named s16
    ∷ named u16
    ∷ named s32
    ∷ named u32
    ∷ named s64
    ∷ named u64
    ∷ named boolean
    ∷ named string
    ∷ named character
    ∷ (legacy_data_type_id, reads_legacy_char)
    ∷ named float
    ∷ named double
    ∷ named duration
    ∷ named instant
    ∷ named size
    ∷ named isize
    ∷ named point
    ∷ named ipoint
    ∷ named point3d
    ∷ named ipoint3d
    ∷ named line
    ∷ named iline
    ∷ named rect
    ∷ named irect
    ∷ named polygon
    ∷ named ipolygon
    ∷ named color
    ∷ named binary
    ∷ named s8_array
    ∷ named s16_array
    ∷ named s32_array
    ∷ named s64_array
    ∷ named string_array
    ∷ named bool_array
    ∷ named double_array
    ∷ named duration_array
    ∷ named instant_array
    ∷ []

unfoldable pub text_reader_of : List ℕ → Reader
unfolding first_of
text_reader_of id = first_of text_readers id

abbrev pub true_text : List ℕ
true_text = b't' ∷ b'r' ∷ b'u' ∷ b'e' ∷ []

abbrev pub false_text : List ℕ
false_text = b'f' ∷ b'a' ∷ b'l' ∷ b's' ∷ b'e' ∷ []

-- What each class makes of the text of its value.
unfoldable pub typed_of : Reader → (text qualifier : List ℕ) → Result Parsed
unfolding read_elements
typed_of (reads string) text qualifier = ok (parsed (string_value text qualifier))
typed_of (reads character) text qualifier = ok (parsed (char_value (first_or_zero text)))
typed_of (reads s32) text qualifier = ok (parsed (integer_value text))
typed_of (reads boolean) text qualifier = ok (parsed (bool_value (same_text text true_text)))
typed_of (reads string_array) text qualifier = do
  es ← read_elements in_array [] [] text
  ok (parsed (array_value es))
typed_of (reads d) text qualifier = ok (parsed (typed_value d text))
typed_of reads_legacy_char text qualifier = ok (legacy_char text)
typed_of reads_unknown text qualifier = err exception

-- A text with a data type: without its quotes, and unescaped but for an array of strings.
abbrev typed_text : (data_type value : List ℕ) → List ℕ
typed_text data_type value =
    if starts_with b'"' value || starts_with b'\'' value
    then (if not (same_text data_type (data_type_id string_array))
        then unescape (inner value)
        else inner value)
    else value

-- "NOW", "NEVER", "PAST", "FUTURE".
abbrev is_local_instant : List ℕ → Bool
is_local_instant s =
    same_text s (b'N' ∷ b'O' ∷ b'W' ∷ [])
    || same_text s (b'N' ∷ b'E' ∷ b'V' ∷ b'E' ∷ b'R' ∷ [])
    || same_text s (b'P' ∷ b'A' ∷ b'S' ∷ b'T' ∷ [])
    || same_text s (b'F' ∷ b'U' ∷ b'T' ∷ b'U' ∷ b'R' ∷ b'E' ∷ [])

-- The class that the format of a value without a data type stands for.
unfoldable pub inferred_of : (value qualifier : List ℕ) → Result Parsed
unfolding unescape same_text
inferred_of value qualifier =
    if same_text value true_text || same_text value false_text
    then ok (parsed (bool_value (same_text value true_text)))
    else (if is_local_instant value
        then ok (local_instant value)
        else (if starts_with b'"' value || starts_with b'(' value
            then ok (parsed (string_value (unescape (inner value)) qualifier))
            else (if starts_with b'\'' value
                then ok (parsed (char_value (first_or_zero (unescape (inner value)))))
                else ok (parsed (integer_value value)))))

-- newObjectFromBentoTextValues.
unfoldable pub of_text_values : (data_type value qualifier : List ℕ) → Result Parsed
unfolding text_reader_of typed_of inferred_of same_text unescape
of_text_values [] value qualifier = inferred_of value qualifier
of_text_values (c ∷ more) value qualifier =
    typed_of (text_reader_of (c ∷ more)) (typed_text (c ∷ more) value) qualifier
