-- ===== src/Bento/Text/Writer/RoundTrip.antt =====
-- source/containers/vbento.cpp: a tree of nodes in the Bento text format reads back.
use code_vault.Base.{
  ℕ, ◌≡◌, sym, ap, ◌∙◌, Bool, List, [], ◌∷◌, ◌++◌, append-nil, ok, err, fault, ◌⊎◌, inl, inr, ◌>>=◌,
}
use code_vault.Bento.Text.{
  Tree, tree, built, initial, is_skippable, parse_character, parse_characters, parse,
}
use code_vault.Bento.Text.Values.{Value, Parsed}
use code_vault.Bento.Text.Writer.{tree_text}
use code_vault.Bento.Text.Writer.Steps.{AllBlank}
use code_vault.Bento.Text.Writer.Attributes.{between}
use code_vault.Bento.Text.Writer.Converted.{IsConvertedTree}
use code_vault.Bento.Text.Writer.Nodes.{tree_back, IsReadableTree, added_to, Reads-whole}

-- No node is open.
no_node :
    (root : Tree Parsed) (c : ℕ) (more : List ℕ)
    → (c ≡ b'{') ⊎ (c ≡ b'}')
    → parse_characters (between root []) (c ∷ more) ≡ err fault
unfolding parse_characters parse_character is_skippable
no_node root c more (inl e) = rw e
no_node root c more (inr e) = rw e

module _ (line_end : List ℕ) (blank : AllBlank line_end) (line_wrap : Bool) where
  -- A node is written as Bento text, on one line or on several, and white space may follow. Its attributes, and
  -- those of its child nodes, of any depth, are strings, chars, ints of 32 bits in decimal, bools and arrays of
  -- strings, and no text has the code point 0. Then reading it into a node succeeds, gives that node the name, and
  -- adds the attributes and the child nodes in their order. A string comes back as _unescapeString leaves it; every
  -- other value comes back as it was, an int as its decimal text. An encoding must have no closing parenthesis, and
  -- the elements of arrays of strings no backslash and no single quote. Line ends are white space.
  pub parse-tree_text :
      (t : Tree Value) (blanks : List ℕ) (root : Tree Parsed)
      → IsReadableTree t
      → IsConvertedTree t
      → AllBlank blanks
      → parse (tree_text line_end line_wrap 0 t ++ blanks) root ≡ ok (added_to root (tree_back t))
  unfolding parse parse_characters
  parse-tree_text (tree name vs ts) blanks (tree old vs' ts') readable converted h =
      let root = tree old vs' ts' in
      let text = tree_text line_end line_wrap 0 (tree name vs ts) ++ blanks in
      ap (λ r. r >>= λ p. ok (built p))
        (ap (parse_characters (initial root)) (sym (append-nil text))
          ∙ Reads-whole line_end blank line_wrap name vs ts blanks root readable h [])

  -- Behind the node that it read, the parser has no node: a further node or closing brace in the text makes it
  -- go through a null pointer, or take the last element of an empty vector.
  pub parse-tree_text_twice :
      (t : Tree Value) (blanks : List ℕ) (root : Tree Parsed) (c : ℕ) (more : List ℕ)
      → IsReadableTree t
      → AllBlank blanks
      → (c ≡ b'{') ⊎ (c ≡ b'}')
      → parse ((tree_text line_end line_wrap 0 t ++ blanks) ++ c ∷ more) root ≡ err fault
  unfolding parse parse_characters parse_character is_skippable
  parse-tree_text_twice (tree name vs ts) blanks root c more readable h brace =
      ap (λ r. r >>= λ p. ok (built p))
        (Reads-whole line_end blank line_wrap name vs ts blanks root readable h (c ∷ more)
          ∙ no_node _ c more brace)
