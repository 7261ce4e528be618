-- ===== src/Bento/Text/Writer/Nodes.antt =====
-- source/containers/vbento.cpp: what the parser makes of nodes as they are written.
use code_vault.Base.{
  ℕ, zero, suc, ◌≡◌, refl, sym, ap, subst, Bool, true, false, List, [], ◌∷◌, ◌++◌, append_assoc,
  append-nil, ok, if◌then◌else◌, replicate,
}
use code_vault.Bento.Text.{
  Tree, Trees, tree, no_trees, branch, add_tree, start, in_node_name, Open, Build, Parser, parser,
  new_node, open_of, tree_of, add_child, initial, quoted, is_skippable, parse_character,
  parse_characters,
}
use code_vault.Bento.Text.Values.{Value, Parsed}
use code_vault.Bento.Text.Writer.{
  escape, attribute_text, attributes_text, new_line, last_line, tree_text, trees_text,
}
use code_vault.Bento.Text.Writer.Steps.{
  Reads, Reads-append, Reads-cons, Reads-step, Reads-escape, Reads-blanks, AllBlank,
  in_node_name-Quotes,
}
use code_vault.Bento.Text.Writer.Readable.{IsReadable, read_back}
use code_vault.Bento.Text.Writer.Attributes.{
  named_build, between, add_attribute, Reads-attribute_text,
}

-- What is read of a tree that was written.
abbrev pub attributes_back : List (List ℕ × Value) → List (List ℕ × Parsed)
attributes_back [] = []
attributes_back ((name, v) ∷ more) = (name, read_back v) ∷ attributes_back more

abbrev mutual
  pub tree_back : Tree Value → Tree Parsed
  tree_back (tree name attributes children) =
      tree name (attributes_back attributes) (trees_back children)

  pub trees_back : Trees Value → Trees Parsed
  trees_back no_trees = no_trees
  trees_back (branch t more) = branch (tree_back t) (trees_back more)

abbrev pub AllReadable : List (List ℕ × Value) → Type 0
AllReadable [] = Unit
AllReadable ((name, v) ∷ more) = IsReadable v × AllReadable more

abbrev mutual
  pub IsReadableTree : Tree Value → Type 0
  IsReadableTree (tree name attributes children) = AllReadable attributes × TreesReadable children

  pub TreesReadable : Trees Value → Type 0
  TreesReadable no_trees = Unit
  TreesReadable (branch t more) = IsReadableTree t × TreesReadable more

abbrev pub add_trees : Trees Parsed → Trees Parsed → Trees Parsed
add_trees no_trees us = us
add_trees (branch t more) us = branch t (add_trees more us)

-- A node that is read into another: the name is new, attributes and child nodes come behind the old ones.
abbrev pub added_to : Tree Parsed → Tree Parsed → Tree Parsed
added_to (tree old vs' ts') (tree name vs ts) = tree name (vs' ++ vs) (add_trees ts' ts)

add_trees-add_tree :
    (ts us : Trees Parsed) (t : Tree Parsed)
    → add_trees (add_tree ts t) us ≡ add_trees ts (branch t us)
add_trees-add_tree no_trees us t = refl
add_trees-add_tree (branch u more) us t = ap (branch u) (add_trees-add_tree more us t)

add_trees_none : (ts : Trees Parsed) → add_trees ts no_trees ≡ ts
add_trees_none no_trees = refl
add_trees_none (branch u more) = ap (branch u) (add_trees_none more)

-- A node that has taken the attributes and the child nodes.
abbrev with_children : Open → Trees Parsed → Open
with_children n ts = record n { children = add_trees n.children ts }

abbrev with_attributes : Open → List (List ℕ × Parsed) → Open
with_attributes n vs = record n { attributes = n.attributes ++ vs }

abbrev pub filled : Open → List ℕ → List (List ℕ × Value) → Trees Value → Open
filled n name vs ts = record {
  name = name;
  attributes = n.attributes ++ attributes_back vs;
  children = add_trees n.children (trees_back ts);
}

Reads-attributes_text :
    (root : Tree Parsed) (below : List Open) (vs : List (List ℕ × Value)) (n : Open)
    → AllReadable vs
    → Reads
        (between root (n ∷ below))
        (attributes_text vs)
        (between root (with_attributes n (attributes_back vs) ∷ below))
unfolding attributes_text parse_character is_skippable
Reads-attributes_text root below [] n h = λ rest.
    ap (λ vs. parse_characters (between root (record n { attributes = vs } ∷ below)) rest)
      (sym (append-nil n.attributes))
Reads-attributes_text root below ((name, v) ∷ more) n (here, later) =
    let at : List (List ℕ × Parsed) → Parser =
      λ vs. between root (record n { attributes = vs } ∷ below) in
    let first = n.attributes ++ (name, read_back v) ∷ [] in
    let last = n.attributes ++ attributes_back ((name, v) ∷ more) in
    Reads-append (at n.attributes) (at first) (at last) (attribute_text (name, v))
      (b' ' ∷ attributes_text more) (Reads-attribute_text root n below name v here)
      (Reads-cons (at first) (at first) (at last) b' ' (attributes_text more) refl (
        subst (λ vs. Reads (at first) (attributes_text more) (at vs))
          (append_assoc n.attributes ((name, read_back v) ∷ []) (attributes_back more))
          (Reads-attributes_text root below more (add_attribute n name v) later)))

AllBlank-append : (s t : List ℕ) → AllBlank s → AllBlank t → AllBlank (s ++ t)
AllBlank-append [] t h k = k
AllBlank-append (c ∷ s) t (here, later) k = (here, AllBlank-append s t later k)

AllBlank-replicate : (n : ℕ) → AllBlank (replicate n b' ')
unfolding is_skippable
AllBlank-replicate zero = tt
AllBlank-replicate (suc n) = (refl, AllBlank-replicate n)

module _ (line_end : List ℕ) (blank : AllBlank line_end) (line_wrap : Bool) where
  new_line-AllBlank : (depth : ℕ) → AllBlank (new_line line_end line_wrap depth)
  unfolding new_line
  new_line-AllBlank depth = go line_wrap
    where
      go : (wrap : Bool) → AllBlank (if wrap then line_end ++ replicate depth b' ' else [])
      go true = AllBlank-append line_end (replicate depth b' ') blank (AllBlank-replicate depth)
      go false = tt

  last_line-AllBlank :
      (ts : Trees Value) (depth : ℕ) → AllBlank (last_line line_end line_wrap ts depth)
  last_line-AllBlank no_trees depth = tt
  last_line-AllBlank (branch t more) depth = new_line-AllBlank depth

  -- What stands behind `{`, up to `}`.
  abbrev inside_text : ℕ → List ℕ → List (List ℕ × Value) → Trees Value → List ℕ
  inside_text depth name vs ts =
      attributes_text vs
      ++ (trees_text line_end line_wrap (suc depth) ts
          ++ (last_line line_end line_wrap ts depth ++ b'}' ∷ []))

  Reads-inside :
      (root : Tree Parsed) (below : List Open) (depth : ℕ) (name : List ℕ)
      → (vs : List (List ℕ × Value)) (ts : Trees Value) (n : Open) (p : Parser) → AllReadable vs
      → ((m : Open)
          → Reads
              (between root (m ∷ below))
              (trees_text line_end line_wrap (suc depth) ts)
              (between root (with_children m (trees_back ts) ∷ below)))
      → parse_character (between root (filled n name vs ts ∷ below)) b'}' ≡ ok p
      → Reads
          (between root (n ∷ below))
          (b' ' ∷ b'"' ∷ (escape name ++ (b'"' ∷ b' ' ∷ inside_text depth name vs ts)))
          p
  unfolding parse_character quoted is_skippable
  Reads-inside root below depth name vs ts n p survives children closed =
      let inside = inside_text depth name vs ts in
      let named = between root (record n { name = name } ∷ below) in
      let in_name : List ℕ → Parser =
        λ token. parser in_node_name token false (named_build root (n ∷ below) []) in
      let m = with_attributes (record n { name = name }) (attributes_back vs) in
      let end = between root (filled n name vs ts ∷ below) in
      let last = last_line line_end line_wrap ts depth in
      let start = between root (n ∷ below) in
      Reads-cons start start p b' ' (b'"' ∷ (escape name ++ (b'"' ∷ b' ' ∷ inside))) refl (
        Reads-cons start (in_name []) p b'"' (escape name ++ (b'"' ∷ b' ' ∷ inside)) refl (
          Reads-append (in_name []) (in_name name) p (escape name) (b'"' ∷ b' ' ∷ inside)
            (Reads-escape in_node_name (named_build root (n ∷ below) [])
              (in_node_name-Quotes (named_build root (n ∷ below) [])) name [])
            (Reads-cons (in_name name) named p b'"' (b' ' ∷ inside) refl (
              Reads-cons named named p b' ' inside refl (
                Reads-append named (between root (m ∷ below)) p (attributes_text vs)
                  (trees_text line_end line_wrap (suc depth) ts ++ (last ++ b'}' ∷ []))
                  (Reads-attributes_text root below vs (record n { name = name }) survives)
                  (Reads-append (between root (m ∷ below)) end p
                    (trees_text line_end line_wrap (suc depth) ts) (last ++ b'}' ∷ []) (children m)
                    (Reads-append end end p last (b'}' ∷ [])
                      (Reads-blanks last [] false
                        (named_build root (filled n name vs ts ∷ below) [])
                        (last_line-AllBlank ts depth))
                      (Reads-step end p b'}' closed))))))))

  mutual
    unfolding parse_character is_skippable tree_text

    Reads-tree_text :
        (root : Tree Parsed) (below : List Open) (depth : ℕ) (t : Tree Value) (n : Open)
        → IsReadableTree t
        → Reads
            (between root (n ∷ below))
            (tree_text line_end line_wrap depth t)
            (between root (add_child n (tree_back t) ∷ below))
    Reads-tree_text root below depth (tree name vs ts) n (some, all) =
        let here = between root (n ∷ below) in
        let last = between root (add_child n (tree_back (tree name vs ts)) ∷ below) in
        let body = b' ' ∷ b'"' ∷ (escape name ++ (b'"' ∷ b' ' ∷ inside_text depth name vs ts)) in
        Reads-append here here last (new_line line_end line_wrap depth) (b'{' ∷ body)
          (Reads-blanks (new_line line_end line_wrap depth) [] false
            (named_build root (n ∷ below) []) (new_line-AllBlank depth))
          (Reads-cons here (between root (new_node ∷ n ∷ below)) last b'{' body refl (
            Reads-inside root (n ∷ below) depth name vs ts new_node last some
              (λ m. Reads-trees_text root (n ∷ below) (suc depth) ts m all) refl))

    Reads-trees_text :
        (root : Tree Parsed) (below : List Open) (depth : ℕ) (ts : Trees Value) (n : Open)
        → TreesReadable ts
        → Reads
            (between root (n ∷ below))
            (trees_text line_end line_wrap depth ts)
            (between root (with_children n (trees_back ts) ∷ below))
    Reads-trees_text root below depth no_trees n h = λ rest.
        ap (λ us. parse_characters (between root (record n { children = us } ∷ below)) rest)
          (sym (add_trees_none n.children))
    Reads-trees_text root below depth (branch t more) n (first, others) =
        let at : Trees Parsed → Parser = λ us. between root (record n { children = us } ∷ below) in
        let some = add_tree n.children (tree_back t) in
        let all = add_trees n.children (trees_back (branch t more)) in
        Reads-append (at n.children) (at some) (at all) (tree_text line_end line_wrap depth t)
          (b' ' ∷ trees_text line_end line_wrap depth more)
          (Reads-tree_text root below depth t n first)
          (Reads-cons (at some) (at some) (at all) b' ' (trees_text line_end line_wrap depth more)
            refl
            (subst (λ us. Reads (at some) (trees_text line_end line_wrap depth more) (at us))
              (add_trees-add_tree n.children (trees_back more) (tree_back t))
              (Reads-trees_text root below depth more (record n { children = some }) others)))

  blanks_at_start :
      (s : List ℕ) (b : Build)
      → AllBlank s
      → Reads (parser start [] false b) s (parser start [] false b)
  unfolding parse_character
  blanks_at_start [] b h = λ rest. refl
  blanks_at_start (c ∷ s) b (here, later) =
      let p = parser start [] false b in Reads-cons p p p c s (rw here) (blanks_at_start s b later)

  -- A whole text, from the node that it is read into.
  pub Reads-whole :
      (name : List ℕ) (vs : List (List ℕ × Value)) (ts : Trees Value) (blanks : List ℕ)
      (root : Tree Parsed)
      → IsReadableTree (tree name vs ts)
      → AllBlank blanks
      → Reads
          (initial root)
          (tree_text line_end line_wrap 0 (tree name vs ts) ++ blanks)
          (between (tree_of (filled (open_of root) name vs ts)) [])
  unfolding parse_character is_skippable tree_text
  Reads-whole name vs ts blanks root (some, all) h =
      let n = filled (open_of root) name vs ts in
      let b = named_build root [] [] in
      let end = between (tree_of n) [] in
      let opened = between root (open_of root ∷ []) in
      let body = b' ' ∷ b'"' ∷ (escape name ++ (b'"' ∷ b' ' ∷ inside_text 0 name vs ts)) in
      let text = new_line line_end line_wrap 0 ++ b'{' ∷ body in
      Reads-append (initial root) end end text blanks
        (Reads-append (initial root) (initial root) end (new_line line_end line_wrap 0)
          (b'{' ∷ body) (blanks_at_start (new_line line_end line_wrap 0) b (new_line-AllBlank 0))
          (Reads-cons (initial root) opened end b'{' body refl (
            Reads-inside root [] 0 name vs ts (open_of root) end some
              (λ m. Reads-trees_text root [] 1 ts m all) refl)))
        (Reads-blanks blanks [] false (named_build (tree_of n) [] []) h)
