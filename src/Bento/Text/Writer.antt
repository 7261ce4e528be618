-- ===== src/Bento/Text/Writer.antt =====
-- source/containers/vbento.cpp: the Bento text format of attributes and nodes.
pub mod Steps
pub mod Attributes
pub mod Classes
pub mod Converted
pub mod Readable
pub mod RoundTrip
pub mod Settled
mod Tests
pub mod Tokens
pub mod Nodes
use code_vault.Base.{
  ℕ, zero, suc, Bool, true, false, ◌&&◌, ◌||◌, List, [], ◌∷◌, ◌++◌, ◌==◌, if◌then◌else◌, replicate,
}
use code_vault.Bento.{data_type_id, string_array}
use code_vault.Bento.Text.Values.{
  Value, string_value, char_value, integer_value, bool_value, array_value, typed_value, true_text,
  false_text,
}
use code_vault.Bento.Text.{Tree, Trees, tree, no_trees, branch}

-- The characters that _escapeString puts a backslash in front of.
pub is_special : ℕ → Bool
is_special c = c == b'\\' || c == b'{' || c == b'}' || c == b'"' || c == b'\''

-- _escapeString.
pub escape : List ℕ → List ℕ
unfolding is_special
escape [] = []
escape (c ∷ s) = if is_special c then b'\\' ∷ c ∷ escape s else c ∷ escape s

-- VBentoStringArray::_appendElementBentoText: a quote in an element gets two backslashes.
pub escape_quotes : List ℕ → List ℕ
escape_quotes [] = []
escape_quotes (c ∷ s) =
    if c == b'"' then b'\\' ∷ b'\\' ∷ c ∷ escape_quotes s else c ∷ escape_quotes s

pub element_text : List ℕ → List ℕ
unfolding escape_quotes
element_text e = b'"' ∷ (escape_quotes e ++ b'"' ∷ [])

-- VBentoArray::_getValueAsBentoTextString, behind the first element.
pub more_elements : List (List ℕ) → List ℕ
unfolding element_text
more_elements [] = []
more_elements (e ∷ es) = b',' ∷ (element_text e ++ more_elements es)

pub array_text : List (List ℕ) → List ℕ
unfolding element_text more_elements
array_text [] = []
array_text (e ∷ es) = element_text e ++ more_elements es

abbrev pub bool_text : Bool → List ℕ
bool_text b = if b then true_text else false_text

-- What stands behind the name in VBentoAttribute::writeToBentoTextStream.
pub value_text : Value → List ℕ
unfolding escape array_text
value_text (string_value text []) = b'=' ∷ b'"' ∷ (escape text ++ b'"' ∷ [])
value_text (string_value text (c ∷ encoding)) =
    b'=' ∷ b'(' ∷ ((c ∷ encoding) ++ (b')' ∷ b'"' ∷ (escape text ++ b'"' ∷ [])))
value_text (char_value c) = b'=' ∷ b'\'' ∷ (escape (c ∷ []) ++ b'\'' ∷ [])
value_text (integer_value text) = b'=' ∷ text
value_text (bool_value b) = b'=' ∷ bool_text b
value_text (array_value es) =
    b'('
    ∷ (escape (data_type_id string_array) ++ (b')' ∷ b'=' ∷ b'\'' ∷ (array_text es ++ b'\'' ∷ [])))
value_text (typed_value d text) =
    b'(' ∷ (escape (data_type_id d) ++ (b')' ∷ b'=' ∷ b'"' ∷ (escape text ++ b'"' ∷ [])))

-- VBentoAttribute::writeToBentoTextStream.
pub attribute_text : List ℕ × Value → List ℕ
unfolding value_text
attribute_text (name, v) = b'[' ∷ b'"' ∷ (escape name ++ (b'"' ∷ (value_text v ++ b']' ∷ [])))

pub attributes_text : List (List ℕ × Value) → List ℕ
unfolding attribute_text
attributes_text [] = []
attributes_text (a ∷ more) = attribute_text a ++ (b' ' ∷ attributes_text more)

-- The characters of a line end are those that the stream writes; the number of spaces is the depth.
module _ (line_end : List ℕ) (line_wrap : Bool) where
  -- _lineEndIfRequested and _indentIfRequested.
  pub new_line : ℕ → List ℕ
  new_line depth = if line_wrap then line_end ++ replicate depth b' ' else []

  abbrev pub last_line : Trees Value → ℕ → List ℕ
  last_line no_trees depth = []
  last_line (branch t more) depth = new_line depth

  -- VBentoNode::writeToBentoTextStream.
  mutual
    unfolding new_line escape attributes_text

    pub tree_text : ℕ → Tree Value → List ℕ
    tree_text depth (tree name attributes children) =
        new_line depth
        ++ (b'{'
            ∷ b' '
            ∷ b'"'
            ∷ (escape name
                ++ (b'"'
                    ∷ b' '
                    ∷ (attributes_text attributes
                        ++ (trees_text (suc depth) children
                            ++ (last_line children depth ++ b'}' ∷ []))))))

    pub trees_text : ℕ → Trees Value → List ℕ
    trees_text depth no_trees = []
    trees_text depth (branch t more) = tree_text depth t ++ (b' ' ∷ trees_text depth more)
