-- ===== src/Bento/Text/Writer/Converted.antt =====
-- source/containers/vbento.cpp: the values whose Bento text stands for them without a conversion that is left out
-- here: strings, chars, ints, bools and arrays of strings, without the code point 0, at which a C string ends.
use code_vault.Base.{ℕ, ◌≤◌, ◌≡◌, true, false, not, ◌==◌, List, [], ◌∷◌, ℤ, pos, negsuc}
use code_vault.Strings.{decimal}
use code_vault.Bento.Text.{Tree, Trees, tree, no_trees, branch}
use code_vault.Bento.Text.Values.{
  Value, string_value, char_value, integer_value, bool_value, array_value, typed_value,
}
use code_vault.Bento.Text.Writer.Readable.{all_of}

abbrev pub HasNoZero : List ℕ → Type 0
HasNoZero s = all_of (λ c. not (c == 0)) s ≡ true

abbrev pub HaveNoZero : List (List ℕ) → Type 0
HaveNoZero [] = Unit
HaveNoZero (s ∷ more) = HasNoZero s × HaveNoZero more

-- A Vs32.
abbrev pub IsInt : ℤ → Type 0
IsInt (pos n) = n ≤ 0x7fffffff
IsInt (negsuc n) = n ≤ 0x7fffffff

abbrev pub IsConverted : Value → Type 0
IsConverted (string_value text encoding) = HasNoZero text × HasNoZero encoding
IsConverted (char_value c) = (c == 0) ≡ false
IsConverted (integer_value text) = (z : ℤ) × (text ≡ decimal z) × IsInt z
IsConverted (bool_value b) = Unit
IsConverted (array_value es) = HaveNoZero es
IsConverted (typed_value d text) = true ≡ false

abbrev pub AllConverted : List (List ℕ × Value) → Type 0
AllConverted [] = Unit
AllConverted ((name, v) ∷ more) = (HasNoZero name × IsConverted v) × AllConverted more

abbrev mutual
  pub IsConvertedTree : Tree Value → Type 0
  IsConvertedTree (tree name attributes children) =
      (HasNoZero name × AllConverted attributes) × TreesConverted children

  pub TreesConverted : Trees Value → Type 0
  TreesConverted no_trees = Unit
  TreesConverted (branch t more) = IsConvertedTree t × TreesConverted more
