-- ===== src/Bento/Value/Format.antt =====
-- The bytes that a value of source/containers/vbento.h stands as on a stream, and how many they are.
use code_vault.Base.{
  ℕ, ◌+◌, ◌*◌, ◌^◌, ◌≤◌, ◌<◌, ◌≡◌, refl, ◌∙◌, if◌then◌else◌, List, [], ◌∷◌, ◌++◌, ok, err, length,
  pos, arith, length-append,
}
use code_vault.Streams.{max_s32}
use code_vault.Streams.Order.{pattern_of}
use code_vault.Streams.Order.Laws.{be_bytes, length-be_bytes, InRange}
use code_vault.Streams.Binary.Write.{encode_count, length-encode_count}
use code_vault.CodePoint.{to_utf8}
use code_vault.Bento.{
  Shape, unsigned, signed, flag, text, code_point, rgba, bytes, pair, array, Payload,
}
use code_vault.Bento.Value.{stream_value, binary_string_length, sum_of_lengths}

abbrev pub encode_string : List ℕ → List ℕ
encode_string str = encode_count (length str) ++ str

-- The bytes of a code point, if it can be had.
abbrev pub encode_point : ℕ → List ℕ
encode_point n = elim (to_utf8 n) [ ok ys ↦ ys | err f ↦ [] ]

abbrev pub encode_many : {A : Type 0} → (A → List ℕ) → List A → List ℕ
encode_many encode [] = []
encode_many encode (a ∷ as') = encode a ++ encode_many encode as'

abbrev pub encode_value : (a : Shape) → Payload a → List ℕ
encode_value (unsigned w) n = be_bytes w n
encode_value (signed w) z = be_bytes w (pattern_of w z)
encode_value flag b = be_bytes 1 (if b then 1 else 0)
encode_value text str = encode_string str
encode_value code_point c = encode_point c
encode_value rgba c = be_bytes 4 (stream_value c)
encode_value bytes bs = encode_string bs
encode_value (pair a b) (x, y) = encode_value a x ++ encode_value b y
encode_value (array a) xs =
    be_bytes 4 (pattern_of 4 (pos (length xs))) ++ encode_many (encode_value a) xs

-- Every element of a list.
abbrev pub Each : {A : Type 0} → (A → Type 0) → List A → Type 0
Each P [] = Unit {0}
Each P (a ∷ as') = P a × Each P as'

-- The values that C++ can hold: integers within their width, strings that an int counts, arrays too, and code
-- points of Unicode.
abbrev pub Fits : (a : Shape) → Payload a → Type 0
Fits (unsigned w) n = n < 256 ^ w
Fits (signed w) z = (0 < w) × InRange w z
Fits flag b = Unit {0}
Fits text str = length str ≤ max_s32
Fits code_point c = c < 0x110000
Fits rgba c = (c.red < 256) × (c.green < 256) × (c.blue < 256) × (c.alpha < 256)
Fits bytes bs = length bs + length bs < 256 ^ 8
Fits (pair a b) (x, y) = Fits a x × Fits b y
Fits (array a) xs = (length xs ≤ max_s32) × Each (Fits a) xs

pub length-encode_string : (str : List ℕ) → length (encode_string str) ≡ binary_string_length str
unfolding binary_string_length
length-encode_string str =
    omega (arith, length-append (encode_count (length str)) str, length-encode_count (length str))

pub length-encode_many :
    {A : Type 0} (encode : A → List ℕ) (k : ℕ) (xs : List A)
    → ((x : A) → length (encode x) ≡ k)
    → length (encode_many encode xs) ≡ k * length xs
length-encode_many encode k [] each = omega arith
length-encode_many encode k (x ∷ xs) each = grind (
  arith,
  length-append (encode x) (encode_many encode xs),
  each x,
  length-encode_many encode k xs each,
)

pub length-encode_array :
    (a : Shape) (k : ℕ) (xs : List (Payload a))
    → ((x : Payload a) → length (encode_value a x) ≡ k)
    → length (encode_value (array a) xs) ≡ 4 + k * length xs
length-encode_array a k xs each =
    length-append (be_bytes 4 (pattern_of 4 (pos (length xs)))) (encode_many (encode_value a) xs)
    ∙ omega (
      arith,
      length-be_bytes 4 (pattern_of 4 (pos (length xs))),
      length-encode_many (encode_value a) k xs each,
    )

pub length-encode_strings :
    (xs : List (List ℕ)) → length (encode_many encode_string xs) ≡ sum_of_lengths xs
unfolding sum_of_lengths
length-encode_strings [] = refl
length-encode_strings (x ∷ xs) = omega (
  arith,
  length-append (encode_string x) (encode_many encode_string xs),
  length-encode_string x,
  length-encode_strings xs,
)

pub length-pair :
    (a b : Shape) (j k : ℕ) (x : Payload a) (y : Payload b)
    → length (encode_value a x) ≡ j
    → length (encode_value b y) ≡ k
    → length (encode_value (pair a b) (x, y)) ≡ j + k
length-pair a b j k x y e f = omega (arith, length-append (encode_value a x) (encode_value b y))
