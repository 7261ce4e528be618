-- ===== src/Bento/Text/Writer/Settled.antt =====
-- source/containers/vbento.cpp: the trees that the Bento text format gives back as they were.
use code_vault.Base.{ℕ, ◌≡◌, refl, ap, ap₂, ◌∙◌, Bool, List, [], ◌∷◌, ◌++◌, ok}
use code_vault.Bento.Text.{Tree, Trees, tree, no_trees, branch, new_node, tree_of, parse}
use code_vault.Bento.Text.Values.{Value, Parsed, parsed}
use code_vault.Bento.Text.Writer.{tree_text}
use code_vault.Bento.Text.Writer.Steps.{AllBlank}
use code_vault.Bento.Text.Writer.Classes.{read_back_settled}
use code_vault.Bento.Text.Writer.Converted.{IsConvertedTree}
use code_vault.Bento.Text.Writer.Readable.{IsSettled}
use code_vault.Bento.Text.Writer.RoundTrip.{parse-tree_text}
use code_vault.Bento.Text.Writer.Nodes.{attributes_back, tree_back, trees_back, IsReadableTree}

-- A tree with settled texts is read back as it was written.
abbrev pub AllSettled : List (List ℕ × Value) → Type 0
AllSettled [] = Unit
AllSettled ((name, v) ∷ more) = IsSettled v × AllSettled more

abbrev mutual
  pub IsSettledTree : Tree Value → Type 0
  IsSettledTree (tree name attributes children) = AllSettled attributes × TreesSettled children

  pub TreesSettled : Trees Value → Type 0
  TreesSettled no_trees = Unit
  TreesSettled (branch t more) = IsSettledTree t × TreesSettled more

abbrev pub parsed_attributes : List (List ℕ × Value) → List (List ℕ × Parsed)
parsed_attributes [] = []
parsed_attributes ((name, v) ∷ more) = (name, parsed v) ∷ parsed_attributes more

abbrev mutual
  pub parsed_tree : Tree Value → Tree Parsed
  parsed_tree (tree name attributes children) =
      tree name (parsed_attributes attributes) (parsed_trees children)

  pub parsed_trees : Trees Value → Trees Parsed
  parsed_trees no_trees = no_trees
  parsed_trees (branch t more) = branch (parsed_tree t) (parsed_trees more)

attributes_back_settled :
    (vs : List (List ℕ × Value)) → AllSettled vs → attributes_back vs ≡ parsed_attributes vs
attributes_back_settled [] h = refl
attributes_back_settled ((name, v) ∷ more) (here, later) =
    ap₂ (λ w ws. (name, w) ∷ ws) (read_back_settled v here) (attributes_back_settled more later)

mutual
  tree_back_settled : (t : Tree Value) → IsSettledTree t → tree_back t ≡ parsed_tree t
  tree_back_settled (tree name vs ts) (some, all) =
      ap₂ (tree name) (attributes_back_settled vs some) (trees_back_settled ts all)

  trees_back_settled : (ts : Trees Value) → TreesSettled ts → trees_back ts ≡ parsed_trees ts
  trees_back_settled no_trees h = refl
  trees_back_settled (branch t more) (here, later) =
      ap₂ branch (tree_back_settled t here) (trees_back_settled more later)

module _ (line_end : List ℕ) (blank : AllBlank line_end) (line_wrap : Bool) where
  -- Bento text that was written of a tree reads back, into a new node, as the same tree: the same names, classes
  -- and values, an int by its decimal text. The attributes are strings, chars, ints of 32 bits in decimal, bools and
  -- arrays of strings, no text has the code point 0, an encoding has no closing parenthesis, the elements of arrays
  -- have no backslash and no single quote, and no backslash in a string stands in front of a character that it
  -- could escape. White space may follow, and line ends are white space.
  pub parse-tree_text_settled :
      (t : Tree Value) (blanks : List ℕ)
      → IsReadableTree t
      → IsConvertedTree t
      → IsSettledTree t
      → AllBlank blanks
      → parse (tree_text line_end line_wrap 0 t ++ blanks) (tree_of new_node) ≡ ok (parsed_tree t)
  parse-tree_text_settled (tree name vs ts) blanks readable converted calm h =
      parse-tree_text line_end blank line_wrap (tree name vs ts) blanks (tree_of new_node) readable
        converted h
      ∙ ap ok (tree_back_settled (tree name vs ts) calm)
