-- ===== src/Bento/Text.antt =====
-- source/containers/vbento.cpp: VBentoTextNodeParser, which reads a tree of nodes from the Bento text format.
-- A text is the list of its code points. No text holds the code point 0, at which the C strings in
-- VString::replace and in the formats end.
pub mod Values
pub mod Writer
use code_vault.Base.{
  ℕ, Bool, true, false, ◌&&◌, ◌||◌, List, [], ◌∷◌, ◌++◌, Result, ok, err, exception, fault, ◌>>=◌,
  ◌==◌, leb, if◌then◌else◌,
}
use code_vault.Bento.Text.Values.{Parsed, of_text_values}

-- VBentoNode, with what its attributes hold as a parameter.
mutual
  pub data Tree (V : Type 0) : Type 0 where
    tree : (name : List ℕ) → List (List ℕ × V) → Trees V → Tree V

  pub data Trees (V : Type 0) : Type 0 where
    no_trees : Trees V
    branch : Tree V → Trees V → Trees V

-- push_back on mChildNodes.
abbrev pub add_tree : {V : Type 0} → Trees V → Tree V → Trees V
add_tree no_trees t = branch t no_trees
add_tree (branch u more) t = branch u (add_tree more t)

-- TokenState.
pub data TokenState : Type 0 where
  start in_node in_node_name in_attribute in_attribute_name in_attribute_type in_attribute_pre_value
        in_attribute_pre_value_qualifier in_attribute_value_double_quoted
        in_attribute_value_single_quoted in_attribute_value_unquoted :
      TokenState

-- A node of mParseNodeStack. Its last child, when that is on the stack too, is joined to it when it is popped.
pub record Open : Type 0 where
  pub name : List ℕ
  pub attributes : List (List ℕ × Parsed)
  pub children : Trees Parsed

abbrev pub open_of : Tree Parsed → Open
open_of (tree name attributes children) = record {
  name = name;
  attributes = attributes;
  children = children;
}

abbrev pub tree_of : Open → Tree Parsed
tree_of n = tree n.name n.attributes n.children

abbrev pub add_child : Open → Tree Parsed → Open
add_child n t = record n { children = add_tree n.children t }

-- mRootNode while it is not on the stack; mParseNodeStack, its back first, which is mPendingNode, or NULL
-- where the stack is empty; and the four pending texts of an attribute.
pub record Build : Type 0 where
  pub root : Tree Parsed
  pub nodes : List Open
  pub name : List ℕ
  pub data_type : List ℕ
  pub qualifier : List ℕ
  pub value : List ℕ

-- mTokenState, mPendingToken, mTokenEscapePending, and the rest.
pub data Parser : Type 0 where
  parser : TokenState → List ℕ → Bool → Build → Parser

-- _isSkippable.
pub is_skippable : ℕ → Bool
is_skippable c = leb c 0x20 || c == 0x7f

abbrev pub clear : Build → Build
clear b = record b { name = []; data_type = []; qualifier = []; value = [] }

-- VBentoNode(), whose name is "uninitialized".
abbrev pub new_node : Open
new_node = record {
  name =
      b'u' ∷ b'n' ∷ b'i' ∷ b'n' ∷ b'i' ∷ b't' ∷ b'i' ∷ b'a' ∷ b'l' ∷ b'i' ∷ b'z' ∷ b'e' ∷ b'd' ∷ [];
  attributes = [];
  children = no_trees;
}

-- Through mPendingNode, which may be NULL.
abbrev on_pending : Build → (Open → Open) → Result Build
on_pending b change = elim b.nodes [
  | [] ↦ err fault
  | n ∷ below ↦ ok (record b { nodes = change n ∷ below })
]

-- At `{` in a node.
abbrev push_child : Build → Result Build
push_child b = elim b.nodes [
  | [] ↦ err fault
  | n ∷ below ↦ ok (record b { nodes = new_node ∷ n ∷ below })
]

-- At `}` in a node. pop_back on an empty vector is undefined.
abbrev pop_node : Build → Result Build
pop_node b = elim b.nodes [
  | [] ↦ err fault
  | n ∷ [] ↦ ok (record b { root = tree_of n; nodes = [] })
  | n ∷ parent ∷ below ↦ ok (record b { nodes = add_child parent (tree_of n) ∷ below })
]

-- At `]`. The object is made before it is added.
pub end_attribute : Build → Result Parser
end_attribute b = do
  v ← of_text_values b.data_type b.value b.qualifier
  b' ← on_pending b (λ n. record n { attributes = n.attributes ++ (b.name, v) ∷ [] })
  ok (parser in_node [] false (clear b'))

-- A backslash makes the next character part of the token, whatever it is; `closes` says whether the
-- character, unescaped, ends the token, and `closed` what happens then.
pub quoted :
    (closes : Bool) → Result Parser → TokenState → List ℕ → Bool → Build → ℕ → Result Parser
quoted closes closed state token escaped b c =
    if c == b'\\'
    then (if escaped
        then ok (parser state (token ++ c ∷ []) false b)
        else ok (parser state token true b))
    else (if closes
        then (if escaped then ok (parser state (token ++ c ∷ []) false b) else closed)
        else ok (parser state (token ++ c ∷ []) false b))

-- _parseCharacter.
pub parse_character : Parser → ℕ → Result Parser
unfolding is_skippable end_attribute quoted
parse_character (parser start token escaped b) c =
    if is_skippable c
    then ok (parser start token escaped b)
    else (if c == b'{'
        then ok (parser in_node token escaped (record b { nodes = open_of b.root ∷ b.nodes }))
        else err exception)
parse_character (parser in_node token escaped b) c =
    if is_skippable c
    then ok (parser in_node token escaped b)
    else (if c == b'"'
        then ok (parser in_node_name token escaped b)
        else (if c == b'['
            then ok (parser in_attribute token escaped (clear b))
            else (if c == b'{'
                then (push_child b >>= λ b'. ok (parser in_node token escaped b'))
                else (if c == b'}'
                    then (pop_node b >>= λ b'. ok (parser in_node token escaped b'))
                    else err exception))))
parse_character (parser in_node_name token escaped b) c =
    let closed =
      on_pending b (λ n. record n { name = token }) >>= λ b'. ok (parser in_node [] escaped b') in
    quoted (c == b'"') closed in_node_name token escaped b c
parse_character (parser in_attribute token escaped b) c =
    if is_skippable c
    then ok (parser in_attribute token escaped b)
    else (if c == b'"'
        then ok (parser in_attribute_name token escaped b)
        else (if c == b'('
            then ok (parser in_attribute_type token escaped b)
            else (if c == b'='
                then ok (parser in_attribute_pre_value token escaped b)
                else (if c == b']' then end_attribute b else err exception))))
parse_character (parser in_attribute_name token escaped b) c =
    quoted (c == b'"') (ok (parser in_attribute [] escaped (record b { name = token })))
      in_attribute_name token escaped b c
parse_character (parser in_attribute_type token escaped b) c =
    if c == b')'
    then ok (parser in_attribute [] escaped (record b { data_type = token }))
    else ok (parser in_attribute_type (token ++ c ∷ []) escaped b)
parse_character (parser in_attribute_pre_value token escaped b) c =
    if c == b'('
    then ok (parser in_attribute_pre_value_qualifier token escaped b)
    else (if c == b'\\'
        then ok (parser in_attribute_value_unquoted token true b)
        else (if c == b'"'
            then (if escaped
                then ok (parser in_attribute_pre_value (token ++ c ∷ []) false b)
                else ok (parser in_attribute_value_double_quoted (token ++ c ∷ []) escaped b))
            else (if c == b'\''
                then (if escaped
                    then ok (parser in_attribute_pre_value (token ++ c ∷ []) false b)
                    else ok (parser in_attribute_value_single_quoted (token ++ c ∷ []) escaped b))
                else ok (parser in_attribute_value_unquoted (token ++ c ∷ []) false b))))
parse_character (parser in_attribute_pre_value_qualifier token escaped b) c =
    if c == b')'
    then ok (parser in_attribute_pre_value [] escaped (record b { qualifier = token }))
    else ok (parser in_attribute_pre_value_qualifier (token ++ c ∷ []) escaped b)
parse_character (parser in_attribute_value_double_quoted token escaped b) c =
    quoted (c == b'"') (ok (parser in_attribute [] escaped (record b { value = token ++ c ∷ [] })))
      in_attribute_value_double_quoted token escaped b c
parse_character (parser in_attribute_value_single_quoted token escaped b) c =
    quoted (c == b'\'') (ok (parser in_attribute [] escaped (record b { value = token ++ c ∷ [] })))
      in_attribute_value_single_quoted token escaped b c
parse_character (parser in_attribute_value_unquoted token escaped b) c =
    let closed =
      if is_skippable c
      then ok (parser in_attribute [] escaped (record b { value = token }))
      else end_attribute (record b { value = token }) in
    quoted (is_skippable c || c == b']') closed in_attribute_value_unquoted token escaped b c

-- The loop of parse over a text.
pub parse_characters : Parser → List ℕ → Result Parser
unfolding parse_character
parse_characters p [] = ok p
parse_characters p (c ∷ cs) = parse_character p c >>= λ q. parse_characters q cs

abbrev pub initial : Tree Parsed → Parser
initial root =
    parser start [] false
      (record { root = root; nodes = []; name = []; data_type = []; qualifier = []; value = [] })

-- The nodes that are still open belong to the tree.
abbrev join_open : Tree Parsed → List Open → Tree Parsed
join_open t [] = t
join_open t (n ∷ below) = join_open (tree_of (add_child n t)) below

abbrev pub built : Parser → Tree Parsed
built (parser _ _ _ b) = elim b.nodes [ [] ↦ b.root | n ∷ below ↦ join_open (tree_of n) below ]

-- parse, into a node. An exception is thrown on as a VException.
pub parse : List ℕ → Tree Parsed → Result (Tree Parsed)
unfolding parse_characters
parse s root = do p ← parse_characters (initial root) s; ok (built p)
