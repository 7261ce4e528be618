-- ===== src/Bento/Text/Writer/Attributes.antt =====
-- source/containers/vbento.cpp: an attribute as it is written is one that _parseCharacter adds to the node.
use code_vault.Base.{ℕ, ◌≡◌, refl, ap, true, false, List, [], ◌∷◌, ◌++◌, ok}
use code_vault.Bento.{DataType, data_type_id, s8, string_array}
use code_vault.Bento.Text.{
  Tree, in_node, in_attribute, in_attribute_name, in_attribute_type, in_attribute_pre_value,
  in_attribute_pre_value_qualifier, in_attribute_value_single_quoted, in_attribute_value_unquoted,
  Open, Build, Parser, parser, quoted, is_skippable, end_attribute, parse_character,
  parse_characters,
}
use code_vault.Bento.Text.Values.{
  Value, string_value, char_value, integer_value, bool_value, array_value, typed_value, Parsed,
}
use code_vault.Bento.Text.Writer.{
  is_special, escape, array_text, value_text, attribute_text, bool_text,
}
use code_vault.Bento.Text.Writer.Steps.{
  Reads, Reads-append, Reads-cons, Reads-step, Reads-text, Reads-escape, in_attribute_name-Quotes,
  single_quoted-Quotes,
}
use code_vault.Bento.Text.Writer.Classes.{class_lem, starts_number, differs}
use code_vault.Bento.Text.Writer.Readable.{
  IsReadable, no_parenthesis, type_text, qualifier_text, token_text, read_back, and_both, all_of,
  is_digit, array_once,
}
use code_vault.Bento.Text.Writer.Tokens.{
  Reads-type, Reads-qualifier, Reads-digits, Reads-array, Reads-double_quoted, Reads-single_quoted,
}

-- The parser behind the text of a value: what has a quote at its end is stored, and the rest is still a token.
abbrev with_texts : Build → Value → Build
with_texts b v = record b {
  data_type = type_text v;
  qualifier = qualifier_text v;
  value = token_text v;
}

abbrev behind_value : Build → Value → Parser
behind_value b (integer_value text) = parser in_attribute_value_unquoted text false b
behind_value b (bool_value on) = parser in_attribute_value_unquoted (bool_text on) false b
behind_value b v = parser in_attribute [] false (with_texts b v)

-- The type has no character that is escaped, and no parenthesis.
id_escapes :
    (d : DataType)
    → (escape (data_type_id d) ≡ data_type_id d) × (no_parenthesis (data_type_id d) ≡ true)
unfolding escape is_special
id_escapes s8 = (refl, refl)
id_escapes _ = (refl, refl)

-- The type in front of a value.
Reads-typed :
    (d : DataType) (b : Build) (s : List ℕ) (q : Parser)
    → Reads (parser in_attribute_pre_value [] false (record b { data_type = data_type_id d })) s q
    → Reads
        (parser in_attribute [] false b)
        (b'(' ∷ (escape (data_type_id d) ++ (b')' ∷ b'=' ∷ s)))
        q
unfolding parse_character
Reads-typed d b s q h =
    let (same, open_until) = id_escapes d in
    let id = data_type_id d in
    let typed = record b { data_type = id } in
    Reads-text (parser in_attribute [] false b) q _ (b'(' ∷ (id ++ (b')' ∷ b'=' ∷ s)))
      (ap (λ x. b'(' ∷ (x ++ (b')' ∷ b'=' ∷ s))) same)
      (Reads-cons _ (parser in_attribute_type [] false b) q b'(' (id ++ (b')' ∷ b'=' ∷ s)) refl (
        Reads-append _ (parser in_attribute_type id false b) q id (b')' ∷ b'=' ∷ s)
          (Reads-type id b open_until)
          (Reads-cons _ (parser in_attribute [] false typed) q b')' (b'=' ∷ s) refl
            (Reads-cons _ (parser in_attribute_pre_value [] false typed) q b'=' s refl h))))

module _ (root : Tree Parsed) (nodes : List Open) (name : List ℕ) where
  abbrev pub named_build : Build
  named_build = record {
    root = root;
    nodes = nodes;
    name = name;
    data_type = [];
    qualifier = [];
    value = [];
  }

  abbrev here_start : Parser
  here_start = parser in_attribute [] false named_build

  abbrev pre : Parser
  pre = parser in_attribute_pre_value [] false named_build

  number_step :
      (c : ℕ)
      → starts_number c ≡ true
      → parse_character (parser in_attribute_pre_value [] false named_build) c
        ≡ ok (parser in_attribute_value_unquoted (c ∷ []) false named_build)
  unfolding parse_character
  number_step c starts = rw (
    differs c b'(' starts refl,
    differs c b'\\' starts refl,
    differs c b'"' starts refl,
    differs c b'\'' starts refl,
  )

  Reads-value_text :
      (v : Value)
      → IsReadable v
      → Reads (parser in_attribute [] false named_build) (value_text v) (behind_value named_build v)
  unfolding parse_character value_text quoted is_skippable parse_characters
  Reads-value_text (string_value text []) h =
      Reads-cons here_start pre (behind_value named_build (string_value text [])) b'='
        (b'"' ∷ (escape text ++ b'"' ∷ [])) refl (Reads-double_quoted text named_build)
  Reads-value_text (string_value text (c ∷ encoding)) h =
      let last = behind_value named_build (string_value text (c ∷ encoding)) in
      let qualified = record named_build { qualifier = c ∷ encoding } in
      let in_qualifier : List ℕ → Parser =
        λ token. parser in_attribute_pre_value_qualifier token false named_build in
      let value = b'"' ∷ (escape text ++ b'"' ∷ []) in
      Reads-cons here_start pre last b'=' (b'(' ∷ ((c ∷ encoding) ++ (b')' ∷ value))) refl (
        Reads-cons pre (in_qualifier []) last b'(' ((c ∷ encoding) ++ (b')' ∷ value)) refl (
          Reads-append (in_qualifier []) (in_qualifier (c ∷ encoding)) last (c ∷ encoding)
            (b')' ∷ value) (Reads-qualifier (c ∷ encoding) named_build h)
            (Reads-cons (in_qualifier (c ∷ encoding))
              (parser in_attribute_pre_value [] false qualified) last b')' value refl
              (Reads-double_quoted text qualified))))
  Reads-value_text (char_value c) h =
      Reads-cons here_start pre (behind_value named_build (char_value c)) b'='
        (b'\'' ∷ (escape (c ∷ []) ++ b'\'' ∷ [])) refl
        (Reads-single_quoted (escape (c ∷ [])) (c ∷ []) named_build (
          Reads-escape in_attribute_value_single_quoted named_build
            (single_quoted-Quotes named_build) (c ∷ []) (b'\'' ∷ [])))
  Reads-value_text (integer_value []) h = absurd (cc)
  Reads-value_text (integer_value (c ∷ s)) h =
      let (starts, digits) = and_both (starts_number c) (all_of is_digit s) h in
      let token = parser in_attribute_value_unquoted (c ∷ []) false named_build in
      let last = behind_value named_build (integer_value (c ∷ s)) in
      Reads-cons here_start pre last b'=' (c ∷ s) refl (
        Reads-cons pre token last c s (number_step c starts)
          (Reads-digits s (c ∷ []) named_build digits))
  Reads-value_text (bool_value true) h = λ rest. refl
  Reads-value_text (bool_value false) h = λ rest. refl
  Reads-value_text (array_value es) h =
      let typed = record named_build { data_type = data_type_id string_array } in
      Reads-typed string_array named_build (b'\'' ∷ (array_text es ++ b'\'' ∷ []))
        (behind_value named_build (array_value es))
        (Reads-single_quoted (array_text es) (array_once es) typed
          (Reads-array es (b'\'' ∷ []) typed h))
  Reads-value_text (typed_value d text) h =
      Reads-typed d named_build (b'"' ∷ (escape text ++ b'"' ∷ []))
        (behind_value named_build (typed_value d text))
        (Reads-double_quoted text (record named_build { data_type = data_type_id d }))

-- The node with one more attribute, as it is read back.
abbrev pub add_attribute : Open → List ℕ → Value → Open
add_attribute n name v = record n { attributes = n.attributes ++ (name, read_back v) ∷ [] }

-- Between two attributes or nodes.
abbrev pub between : Tree Parsed → List Open → Parser
between root nodes = parser in_node [] false (named_build root nodes [])

end_attribute_lem :
    (root : Tree Parsed) (n : Open) (below : List Open) (name : List ℕ) (v : Value)
    → IsReadable v
    → end_attribute (with_texts (named_build root (n ∷ below) name) v)
      ≡ ok (between root (add_attribute n name v ∷ below))
unfolding end_attribute
end_attribute_lem root n below name v h = rw (class_lem v h)

end_lem :
    (root : Tree Parsed) (n : Open) (below : List Open) (name : List ℕ) (v : Value)
    → IsReadable v
    → parse_character (behind_value (named_build root (n ∷ below) name) v) b']'
      ≡ ok (between root (add_attribute n name v ∷ below))
unfolding parse_character quoted is_skippable
end_lem root n below name (integer_value text) h =
    end_attribute_lem root n below name (integer_value text) h
end_lem root n below name (bool_value on) h = end_attribute_lem root n below name (bool_value on) h
end_lem root n below name v h = end_attribute_lem root n below name v h

-- An attribute is added to the node that is open.
pub Reads-attribute_text :
    (root : Tree Parsed) (n : Open) (below : List Open) (name : List ℕ) (v : Value)
    → IsReadable v
    → Reads
        (between root (n ∷ below))
        (attribute_text (name, v))
        (between root (add_attribute n name v ∷ below))
unfolding parse_character quoted is_skippable attribute_text
Reads-attribute_text root n below name v h =
    let b = named_build root (n ∷ below) [] in
    let b' = named_build root (n ∷ below) name in
    let last = between root (add_attribute n name v ∷ below) in
    let in_name : List ℕ → Parser = λ token. parser in_attribute_name token false b in
    Reads-cons _ (parser in_attribute [] false b) last b'['
      (b'"' ∷ (escape name ++ (b'"' ∷ (value_text v ++ b']' ∷ [])))) refl
      (Reads-cons _ (in_name []) last b'"' (escape name ++ (b'"' ∷ (value_text v ++ b']' ∷ [])))
        refl
        (Reads-append (in_name []) (in_name name) last (escape name)
          (b'"' ∷ (value_text v ++ b']' ∷ []))
          (Reads-escape in_attribute_name b (in_attribute_name-Quotes b) name [])
          (Reads-cons (in_name name) (parser in_attribute [] false b') last b'"'
            (value_text v ++ b']' ∷ []) refl
            (Reads-append _ (behind_value b' v) last (value_text v) (b']' ∷ [])
              (Reads-value_text root (n ∷ below) name v h)
              (Reads-step (behind_value b' v) last b']' (end_lem root n below name v h))))))
