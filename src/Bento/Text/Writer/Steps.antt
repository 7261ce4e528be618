-- ===== src/Bento/Text/Writer/Steps.antt =====
-- source/containers/vbento.cpp: _parseCharacter over several characters.
use code_vault.Base.{
  ◌∙◌, ap, ℕ, ◌≡◌, refl, sym, subst, Bool, true, false, List, [], ◌∷◌, ◌++◌, append_assoc,
  append-nil, ok, ◌>>=◌, inl, inr, Bool-cases, arith,
}
use code_vault.Bento.Text.{
  TokenState, in_node, in_node_name, in_attribute_name, in_attribute_value_double_quoted,
  in_attribute_value_single_quoted, Build, Parser, parser, quoted, is_skippable, parse_character,
  parse_characters,
}
use code_vault.Bento.Text.Writer.{is_special, escape}

-- From one state the characters lead to another, whatever follows them.
abbrev pub Reads : Parser → List ℕ → Parser → Type 0
Reads p s q = (rest : List ℕ) → parse_characters p (s ++ rest) ≡ parse_characters q rest

pub Reads-append : (p q r : Parser) (s t : List ℕ) → Reads p s q → Reads q t r → Reads p (s ++ t) r
Reads-append p q r s t first second rest =
    ap (parse_characters p) (append_assoc s t rest) ∙ first (t ++ rest) ∙ second rest

pub Reads-cons :
    (p q r : Parser) (c : ℕ) (s : List ℕ)
    → parse_character p c ≡ ok q
    → Reads q s r
    → Reads p (c ∷ s) r
unfolding parse_characters
Reads-cons p q r c s first second rest =
    ap (λ r. r >>= λ q. parse_characters q (s ++ rest)) first ∙ second rest

pub Reads-step : (p q : Parser) (c : ℕ) → parse_character p c ≡ ok q → Reads p (c ∷ []) q
unfolding parse_characters
Reads-step p q c first rest = rw first

pub Reads-text : (p q : Parser) (s t : List ℕ) → s ≡ t → Reads p t q → Reads p s q
Reads-text p q s t e h rest = ap (λ u. parse_characters p (u ++ rest)) e ∙ h rest

-- Spaces, and what the parser takes for them.
abbrev pub AllBlank : List ℕ → Type 0
AllBlank [] = Unit
AllBlank (c ∷ s) = (is_skippable c ≡ true) × AllBlank s

pub Reads-blanks :
    (s t : List ℕ) (e : Bool) (b : Build)
    → AllBlank s
    → Reads (parser in_node t e b) s (parser in_node t e b)
unfolding parse_character
Reads-blanks [] t e b h = λ rest. refl
Reads-blanks (c ∷ s) t e b (here, later) =
    let p = parser in_node t e b in Reads-cons p p p c s (rw here) (Reads-blanks s t e b later)

-- The states in which a backslash makes the next character part of the token.
pub record Quotes (state : TokenState) (b : Build) : Type 0 where
  pub backslash :
      (t : List ℕ) → parse_character (parser state t false b) b'\\' ≡ ok (parser state t true b)
  pub escaped :
      (t : List ℕ) (c : ℕ)
      → parse_character (parser state t true b) c ≡ ok (parser state (t ++ c ∷ []) false b)
  pub plain :
      (t : List ℕ) (c : ℕ)
      → is_special c ≡ false
      → parse_character (parser state t false b) c ≡ ok (parser state (t ++ c ∷ []) false b)

pub in_node_name-Quotes : (b : Build) → Quotes in_node_name b
unfolding parse_character quoted is_special
in_node_name-Quotes b = record {
  backslash = λ t. refl;
  escaped = λ t c. ground arith;
  plain = λ t c h. ground arith;
}

pub in_attribute_name-Quotes : (b : Build) → Quotes in_attribute_name b
unfolding parse_character quoted is_special
in_attribute_name-Quotes b = record {
  backslash = λ t. refl;
  escaped = λ t c. ground arith;
  plain = λ t c h. ground arith;
}

pub double_quoted-Quotes : (b : Build) → Quotes in_attribute_value_double_quoted b
unfolding parse_character quoted is_special
double_quoted-Quotes b = record {
  backslash = λ t. refl;
  escaped = λ t c. ground arith;
  plain = λ t c h. ground arith;
}

pub single_quoted-Quotes : (b : Build) → Quotes in_attribute_value_single_quoted b
unfolding parse_character quoted is_special
single_quoted-Quotes b = record {
  backslash = λ t. refl;
  escaped = λ t c. ground arith;
  plain = λ t c h. ground arith;
}

-- An escaped text is read as the text.
pub Reads-escape :
    (state : TokenState) (b : Build)
    → Quotes state b
    → (s t : List ℕ) → Reads (parser state t false b) (escape s) (parser state (t ++ s) false b)
unfolding escape
Reads-escape state b q [] t =
    λ rest. ap (λ u. parse_characters (parser state u false b) rest) (sym (append-nil t))
Reads-escape state b q (c ∷ s) t =
    let token = t ++ c ∷ [] in
    let last = parser state (t ++ c ∷ s) false b in
    let later : Reads (parser state token false b) (escape s) last =
      subst (λ u. Reads (parser state token false b) (escape s) (parser state u false b))
        (append_assoc t (c ∷ []) s) (Reads-escape state b q s token) in
    elim (Bool-cases (is_special c)) [
      | inl special ↦
          Reads-text (parser state t false b) last _ (b'\\' ∷ c ∷ escape s) (rw special) (
            Reads-cons _ (parser state t true b) last b'\\' (c ∷ escape s) (q.backslash t)
              (Reads-cons _ (parser state token false b) last c (escape s) (q.escaped t c) later))
      | inr ordinary ↦
          Reads-text (parser state t false b) last _ (c ∷ escape s) (rw ordinary) (
            Reads-cons _ (parser state token false b) last c (escape s) (q.plain t c ordinary)
              later)
    ]
