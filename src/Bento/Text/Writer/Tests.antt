-- ===== src/Bento/Text/Writer/Tests.antt =====
-- Examples for the Bento text format of source/containers/vbento.cpp: a node with an int, a string that has a
-- quote in it, an array of strings, a bool and a char, and a child node with a bool.
use code_vault.Base.{
  ℕ, negsuc, arith, ◌≡◌, refl, true, false, List, [], ◌∷◌, ◌++◌, ok, err, fault, inr,
}
use code_vault.Strings.{decimal, digits_back}
use code_vault.Bento.Text.Writer.Converted.{IsConvertedTree}
use code_vault.Bento.Text.{Tree, tree, no_trees, branch, tree_of, new_node, is_skippable, parse}
use code_vault.Bento.Text.Values.{
  Value, Parsed, parsed, string_value, char_value, integer_value, bool_value, array_value, unescape,
  replace_pair,
}
use code_vault.Bento.Text.Writer.{
  tree_text, new_line, attributes_text, value_text, escape, is_special,
}
use code_vault.Bento.Text.Writer.Readable.{settled}
use code_vault.Bento.Text.Writer.RoundTrip.{parse-tree_text, parse-tree_text_twice}
use code_vault.Bento.Text.Writer.Nodes.{added_to, tree_back}
use code_vault.Bento.Text.Writer.Settled.{parsed_tree, parse-tree_text_settled}

abbrev line_end : List ℕ
line_end = b'\n' ∷ []

abbrev sample : Tree Value
sample =
    tree (b't' ∷ [])
      ((b'n' ∷ [], integer_value (b'-' ∷ b'7' ∷ []))
        ∷ (b's' ∷ [], string_value (b'a' ∷ b'"' ∷ b'b' ∷ []) (b'U' ∷ []))
        ∷ (b'a' ∷ [], array_value ((b'x' ∷ b'"' ∷ []) ∷ [] ∷ []))
        ∷ (b'b' ∷ [], bool_value false)
        ∷ (b'c' ∷ [], char_value b'\'')
        ∷ [])
      (branch (tree (b'k' ∷ []) ((b'd' ∷ [], bool_value true) ∷ []) no_trees) no_trees)

-- { "t" ["b"=true] }
abbrev short_text : List ℕ
short_text =
    b'{' ∷ b' ' ∷ b'"' ∷ b't' ∷ b'"' ∷ b' ' ∷ b'[' ∷ b'"' ∷ b'b' ∷ b'"' ∷ b'=' ∷ b't' ∷ b'r' ∷ b'u'
    ∷ b'e' ∷ b']' ∷ b' ' ∷ b'}' ∷ []

short_written :
    tree_text line_end false 0 (tree (b't' ∷ []) ((b'b' ∷ [], bool_value true) ∷ []) no_trees)
    ≡ short_text
unfolding tree_text new_line attributes_text value_text escape is_special
short_written = refl

-- A backslash in front of a quote is lost.
backslash_lost : unescape (b'\\' ∷ b'"' ∷ []) ≡ b'"' ∷ []
unfolding unescape replace_pair
backslash_lost = refl

sample-IsConvertedTree : IsConvertedTree sample
unfolding decimal digits_back
sample-IsConvertedTree = (
  (
    refl,
    (
      (refl, (negsuc 6, refl, omega arith)),
      ((refl, (refl, refl)), ((refl, (refl, (refl, tt))), ((refl, tt), ((refl, refl), tt)))),
    ),
  ),
  (((refl, ((refl, tt), tt)), tt), tt),
)

abbrev sample_root : Tree Parsed
sample_root = tree (b'r' ∷ []) ((b'o' ∷ [], parsed (bool_value true)) ∷ []) no_trees

parse-tree_text_example :
    parse (tree_text line_end true 0 sample ++ b' ' ∷ []) sample_root
    ≡ ok (added_to sample_root (tree_back sample))
unfolding is_skippable
parse-tree_text_example =
    parse-tree_text line_end (refl, tt) true sample (b' ' ∷ []) sample_root
      ((refl, (refl, (refl, (tt, (tt, tt))))), (((tt, tt), tt), tt)) sample-IsConvertedTree
      (refl, tt)

parse-tree_text_settled_example :
    parse (tree_text line_end true 0 sample ++ b' ' ∷ []) (tree_of new_node)
    ≡ ok (parsed_tree sample)
unfolding is_skippable settled is_special
parse-tree_text_settled_example =
    parse-tree_text_settled line_end (refl, tt) true sample (b' ' ∷ [])
      ((refl, (refl, (refl, (tt, (tt, tt))))), (((tt, tt), tt), tt)) sample-IsConvertedTree
      ((tt, (refl, (tt, (tt, (tt, tt))))), (((tt, tt), tt), tt)) (refl, tt)

parse-tree_text_twice_example :
    parse ((tree_text line_end false 0 sample ++ b' ' ∷ []) ++ b'}' ∷ []) sample_root ≡ err fault
unfolding is_skippable
parse-tree_text_twice_example =
    parse-tree_text_twice line_end (refl, tt) false sample (b' ' ∷ []) sample_root b'}' []
      ((refl, (refl, (refl, (tt, (tt, tt))))), (((tt, tt), tt), tt)) (refl, tt) (inr refl)
