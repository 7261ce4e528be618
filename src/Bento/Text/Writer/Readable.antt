-- ===== src/Bento/Text/Writer/Readable.antt =====
-- source/containers/vbento.cpp: the texts that the parser passes on of a value as it is written, and the
-- values for which it does.
use code_vault.Base.{
  ℕ, ◌≡◌, refl, Bool, true, false, not, ◌&&◌, ◌||◌, List, [], ◌∷◌, ◌++◌, ◌==◌, if◌then◌else◌, leb,
}
use code_vault.Bento.{DataType, data_type_id, s32, boolean, string, character, string_array}
use code_vault.Bento.Text.Values.{
  Value, string_value, char_value, integer_value, bool_value, array_value, typed_value, Parsed,
  parsed, unescape,
}
use code_vault.Bento.Text.Writer.{is_special, bool_text}

-- No backslash stands in front of a character that it could escape.
unfoldable pub settled : List ℕ → Bool
unfolding is_special
settled [] = true
settled (x ∷ []) = true
settled (x ∷ y ∷ more) = not (x == b'\\' && is_special y) && settled (y ∷ more)

abbrev pub all_of : (ℕ → Bool) → List ℕ → Bool
all_of p [] = true
all_of p (c ∷ s) = p c && all_of p s

abbrev pub is_digit : ℕ → Bool
is_digit c = leb b'0' c && leb c b'9'

-- Digits, with or without a minus sign in front; the sign alone is one value for the parser too.
abbrev pub is_number : List ℕ → Bool
is_number [] = false
is_number (c ∷ s) = (c == b'-' || is_digit c) && all_of is_digit s

-- Neither a backslash nor a single quote.
abbrev pub is_plain : List ℕ → Bool
is_plain s = all_of (λ c. not (c == b'\\' || c == b'\'')) s

abbrev pub all_plain : List (List ℕ) → Bool
all_plain [] = true
all_plain (e ∷ es) = is_plain e && all_plain es

-- The classes that are written with their data type, but the array of strings.
abbrev pub is_typed : DataType → Bool
is_typed string = false
is_typed character = false
is_typed s32 = false
is_typed boolean = false
is_typed string_array = false
is_typed _ = true

abbrev pub no_parenthesis : List ℕ → Bool
no_parenthesis s = all_of (λ c. not (c == b')')) s

-- The values whose text the parser takes for one value: an encoding has no parenthesis, an int is a number,
-- the elements of an array of strings are plain.
abbrev pub IsReadable : Value → Type 0
IsReadable (string_value text encoding) = no_parenthesis encoding ≡ true
IsReadable (char_value c) = Unit
IsReadable (integer_value text) = is_number text ≡ true
IsReadable (bool_value b) = Unit
IsReadable (array_value es) = all_plain es ≡ true
IsReadable (typed_value d text) = is_typed d ≡ true

-- What is read: a text between double quotes is unescaped once more, after the parser has done so.
abbrev pub read_back : Value → Parsed
read_back (string_value text encoding) = parsed (string_value (unescape text) encoding)
read_back (typed_value d text) = parsed (typed_value d (unescape text))
read_back v = parsed v

abbrev pub IsSettled : Value → Type 0
IsSettled (string_value text encoding) = settled text ≡ true
IsSettled (typed_value d text) = settled text ≡ true
IsSettled v = Unit

pub and_both : (a b : Bool) → (a && b) ≡ true → (a ≡ true) × (b ≡ true)
and_both true true h = (refl, refl)
and_both true false h = absurd (cc)
and_both false b h = absurd (cc)

pub not_or : (a b : Bool) → not (a || b) ≡ true → (a ≡ false) × (b ≡ false)
not_or false false h = (refl, refl)
not_or false true h = absurd (cc)
not_or true b h = absurd (cc)

-- What the parser passes on of a value: its data type, the text of the value with its quotes, and the
-- qualifier.
abbrev pub type_text : Value → List ℕ
type_text (array_value es) = data_type_id string_array
type_text (typed_value d text) = data_type_id d
type_text _ = []

abbrev pub qualifier_text : Value → List ℕ
qualifier_text (string_value text encoding) = encoding
qualifier_text _ = []

-- An array of strings, with one backslash in front of a quote in an element.
abbrev pub quotes_once : List ℕ → List ℕ
quotes_once [] = []
quotes_once (c ∷ s) = if c == b'"' then b'\\' ∷ c ∷ quotes_once s else c ∷ quotes_once s

abbrev pub element_once : List ℕ → List ℕ
element_once e = b'"' ∷ (quotes_once e ++ b'"' ∷ [])

abbrev pub more_once : List (List ℕ) → List ℕ
more_once [] = []
more_once (e ∷ es) = b',' ∷ (element_once e ++ more_once es)

abbrev pub array_once : List (List ℕ) → List ℕ
array_once [] = []
array_once (e ∷ es) = element_once e ++ more_once es

abbrev pub token_text : Value → List ℕ
token_text (string_value text encoding) = b'"' ∷ (text ++ b'"' ∷ [])
token_text (char_value c) = b'\'' ∷ (c ∷ b'\'' ∷ [])
token_text (integer_value text) = text
token_text (bool_value b) = bool_text b
token_text (array_value es) = b'\'' ∷ (array_once es ++ b'\'' ∷ [])
token_text (typed_value d text) = b'"' ∷ (text ++ b'"' ∷ [])
