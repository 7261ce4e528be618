-- ===== src/Bento/Text/Writer/Tokens.antt =====
-- source/containers/vbento.cpp: what _parseCharacter makes of a value as it is written.
use code_vault.Base.{
  ℕ, ◌≡◌, refl, sym, ap, ◌∙◌, subst, Bool, true, false, not, ◌||◌, List, [], ◌∷◌, ◌++◌,
  append_assoc, append-nil, ok, ◌==◌, if◌then◌else◌, arith,
}
use code_vault.Bento.Text.{
  TokenState, in_attribute, in_attribute_type, in_attribute_pre_value,
  in_attribute_pre_value_qualifier, in_attribute_value_double_quoted,
  in_attribute_value_single_quoted, in_attribute_value_unquoted, Build, Parser, parser, quoted,
  is_skippable, parse_character, parse_characters,
}
use code_vault.Bento.Text.Writer.{escape, escape_quotes, element_text, more_elements, array_text}
use code_vault.Bento.Text.Writer.Steps.{
  Reads, Reads-append, Reads-cons, Reads-step, Reads-escape, double_quoted-Quotes,
}
use code_vault.Bento.Text.Writer.Readable.{
  no_parenthesis, and_both, not_or, is_plain, all_plain, quotes_once, element_once, more_once,
  array_once, all_of, is_digit,
}

-- Characters that are each put behind the token.
Reads-all_of :
    (state : TokenState) (b : Build) (p : ℕ → Bool)
    → ((t : List ℕ) (c : ℕ)
        → p c ≡ true
        → parse_character (parser state t false b) c ≡ ok (parser state (t ++ c ∷ []) false b))
    → (s t : List ℕ) → all_of p s ≡ true
    → Reads (parser state t false b) s (parser state (t ++ s) false b)
Reads-all_of state b p each [] t h =
    λ rest. ap (λ u. parse_characters (parser state u false b) rest) (sym (append-nil t))
Reads-all_of state b p each (c ∷ s) t h =
    let (here, later) = and_both (p c) (all_of p s) h in
    let token = t ++ c ∷ [] in
    Reads-cons _ (parser state token false b) _ c s (each t c here) (
      subst (λ u. Reads (parser state token false b) s (parser state u false b))
        (append_assoc t (c ∷ []) s) (Reads-all_of state b p each s token later))

pub Reads-type :
    (s : List ℕ) (b : Build)
    → no_parenthesis s ≡ true
    → Reads (parser in_attribute_type [] false b) s (parser in_attribute_type s false b)
unfolding parse_character
Reads-type s b =
    Reads-all_of in_attribute_type b (λ c. not (c == b')')) (λ t c h. ground arith) s []

pub Reads-qualifier :
    (s : List ℕ) (b : Build)
    → no_parenthesis s ≡ true
    → Reads
        (parser in_attribute_pre_value_qualifier [] false b)
        s
        (parser in_attribute_pre_value_qualifier s false b)
unfolding parse_character
Reads-qualifier s b =
    Reads-all_of in_attribute_pre_value_qualifier b (λ c. not (c == b')')) (λ t c h. ground arith) s
      []

pub Reads-digits :
    (s t : List ℕ) (b : Build)
    → all_of is_digit s ≡ true
    → Reads
        (parser in_attribute_value_unquoted t false b)
        s
        (parser in_attribute_value_unquoted (t ++ s) false b)
unfolding parse_character quoted is_skippable
Reads-digits s t b = Reads-all_of in_attribute_value_unquoted b is_digit (λ t c h. ground arith) s t

plain_step :
    (t : List ℕ) (c : ℕ) (b : Build)
    → not (c == b'\\' || c == b'\'') ≡ true
    → parse_character (parser in_attribute_value_single_quoted t false b) c
      ≡ ok (parser in_attribute_value_single_quoted (t ++ c ∷ []) false b)
unfolding parse_character quoted
plain_step t c b h = let (one, two) = not_or (c == b'\\') (c == b'\'') h in rw (one, two)

-- Characters that lead from a token to a longer one, and then further characters.
Reads-then :
    (b : Build) (s s' t u w : List ℕ)
    → Reads
        (parser in_attribute_value_single_quoted t false b)
        s
        (parser in_attribute_value_single_quoted (t ++ u) false b)
    → Reads
        (parser in_attribute_value_single_quoted (t ++ u) false b)
        s'
        (parser in_attribute_value_single_quoted ((t ++ u) ++ w) false b)
    → Reads
        (parser in_attribute_value_single_quoted t false b)
        (s ++ s')
        (parser in_attribute_value_single_quoted (t ++ (u ++ w)) false b)
Reads-then b s s' t u w first second =
    let at : List ℕ → Parser = λ token. parser in_attribute_value_single_quoted token false b in
    Reads-append (at t) (at (t ++ u)) (at (t ++ (u ++ w))) s s' first
      (subst (λ token. Reads (at (t ++ u)) s' (at token)) (append_assoc t u w) second)

Reads-if :
    (b : Build) (t : List ℕ) (test : Bool) (s s' u u' : List ℕ)
    → Reads
        (parser in_attribute_value_single_quoted t false b)
        s
        (parser in_attribute_value_single_quoted (t ++ u) false b)
    → Reads
        (parser in_attribute_value_single_quoted t false b)
        s'
        (parser in_attribute_value_single_quoted (t ++ u') false b)
    → Reads
        (parser in_attribute_value_single_quoted t false b)
        (if test then s else s')
        (parser in_attribute_value_single_quoted (t ++ (if test then u else u')) false b)
Reads-if b t true s s' u u' first second = first
Reads-if b t false s s' u u' first second = second

-- An element of an array of strings, between single quotes.
Reads-escape_quotes :
    (e t : List ℕ) (b : Build)
    → is_plain e ≡ true
    → Reads
        (parser in_attribute_value_single_quoted t false b)
        (escape_quotes e)
        (parser in_attribute_value_single_quoted (t ++ quotes_once e) false b)
unfolding parse_character quoted escape_quotes
Reads-escape_quotes [] t b h = λ rest.
    ap (λ u. parse_characters (parser in_attribute_value_single_quoted u false b) rest)
      (sym (append-nil t))
Reads-escape_quotes (c ∷ e) t b h =
    let (here, later) = and_both (not (c == b'\\' || c == b'\'')) (is_plain e) h in
    let at : List ℕ → Parser = λ token. parser in_attribute_value_single_quoted token false b in
    let slash = t ++ b'\\' ∷ [] in
    let pair : Reads (at t) (b'\\' ∷ b'\\' ∷ c ∷ []) (at (t ++ b'\\' ∷ c ∷ [])) =
      Reads-cons (at t) (parser in_attribute_value_single_quoted t true b)
        (at (t ++ b'\\' ∷ c ∷ [])) b'\\' (b'\\' ∷ c ∷ []) refl
        (Reads-cons _ (at slash) (at (t ++ b'\\' ∷ c ∷ [])) b'\\' (c ∷ []) refl (
          Reads-step (at slash) _ c (
            plain_step slash c b here
            ∙ ap (λ u. ok (at u)) (append_assoc t (b'\\' ∷ []) (c ∷ []))))) in
    Reads-if b t (c == b'"') (b'\\' ∷ b'\\' ∷ c ∷ escape_quotes e) (c ∷ escape_quotes e)
      (b'\\' ∷ c ∷ quotes_once e) (c ∷ quotes_once e)
      (Reads-then b (b'\\' ∷ b'\\' ∷ c ∷ []) (escape_quotes e) t (b'\\' ∷ c ∷ []) (quotes_once e)
        pair (Reads-escape_quotes e (t ++ b'\\' ∷ c ∷ []) b later))
      (Reads-then b (c ∷ []) (escape_quotes e) t (c ∷ []) (quotes_once e)
        (Reads-step (at t) (at (t ++ c ∷ [])) c (plain_step t c b here))
        (Reads-escape_quotes e (t ++ c ∷ []) b later))

Reads-element :
    (e t : List ℕ) (b : Build)
    → is_plain e ≡ true
    → Reads
        (parser in_attribute_value_single_quoted t false b)
        (element_text e)
        (parser in_attribute_value_single_quoted (t ++ element_once e) false b)
unfolding parse_character quoted element_text
Reads-element e t b h =
    let at : List ℕ → Parser = λ token. parser in_attribute_value_single_quoted token false b in
    let quote : (t : List ℕ) → Reads (at t) (b'"' ∷ []) (at (t ++ b'"' ∷ [])) =
      λ t. Reads-step (at t) (at (t ++ b'"' ∷ [])) b'"' refl in
    Reads-then b (b'"' ∷ []) (escape_quotes e ++ b'"' ∷ []) t (b'"' ∷ [])
      (quotes_once e ++ b'"' ∷ []) (quote t)
      (Reads-then b (escape_quotes e) (b'"' ∷ []) (t ++ b'"' ∷ []) (quotes_once e) (b'"' ∷ [])
        (Reads-escape_quotes e (t ++ b'"' ∷ []) b h) (quote ((t ++ b'"' ∷ []) ++ quotes_once e)))

Reads-more_elements :
    (es : List (List ℕ)) (t : List ℕ) (b : Build)
    → all_plain es ≡ true
    → Reads
        (parser in_attribute_value_single_quoted t false b)
        (more_elements es)
        (parser in_attribute_value_single_quoted (t ++ more_once es) false b)
unfolding more_elements parse_character quoted
Reads-more_elements [] t b h = λ rest.
    ap (λ u. parse_characters (parser in_attribute_value_single_quoted u false b) rest)
      (sym (append-nil t))
Reads-more_elements (e ∷ es) t b h =
    let (here, later) = and_both (is_plain e) (all_plain es) h in
    let at : List ℕ → Parser = λ token. parser in_attribute_value_single_quoted token false b in
    Reads-then b (b',' ∷ []) (element_text e ++ more_elements es) t (b',' ∷ [])
      (element_once e ++ more_once es) (Reads-step (at t) (at (t ++ b',' ∷ [])) b',' refl)
      (Reads-then b (element_text e) (more_elements es) (t ++ b',' ∷ []) (element_once e)
        (more_once es) (Reads-element e (t ++ b',' ∷ []) b here)
        (Reads-more_elements es ((t ++ b',' ∷ []) ++ element_once e) b later))

pub Reads-array :
    (es : List (List ℕ)) (t : List ℕ) (b : Build)
    → all_plain es ≡ true
    → Reads
        (parser in_attribute_value_single_quoted t false b)
        (array_text es)
        (parser in_attribute_value_single_quoted (t ++ array_once es) false b)
unfolding array_text
Reads-array [] t b h = λ rest.
    ap (λ u. parse_characters (parser in_attribute_value_single_quoted u false b) rest)
      (sym (append-nil t))
Reads-array (e ∷ es) t b h =
    let (here, later) = and_both (is_plain e) (all_plain es) h in
    Reads-then b (element_text e) (more_elements es) t (element_once e) (more_once es)
      (Reads-element e t b here) (Reads-more_elements es (t ++ element_once e) b later)

-- A quoted value, whatever is read between its quotes.
pub Reads-double_quoted :
    (text : List ℕ) (b : Build)
    → Reads
        (parser in_attribute_pre_value [] false b)
        (b'"' ∷ (escape text ++ b'"' ∷ []))
        (parser in_attribute [] false (record b { value = b'"' ∷ (text ++ b'"' ∷ []) }))
unfolding parse_character quoted
Reads-double_quoted text b =
    let at : List ℕ → Parser = λ token. parser in_attribute_value_double_quoted token false b in
    let last = parser in_attribute [] false (record b { value = b'"' ∷ (text ++ b'"' ∷ []) }) in
    Reads-cons _ (at (b'"' ∷ [])) last b'"' (escape text ++ b'"' ∷ []) refl (
      Reads-append (at (b'"' ∷ [])) (at (b'"' ∷ text)) last (escape text) (b'"' ∷ [])
        (Reads-escape in_attribute_value_double_quoted b (double_quoted-Quotes b) text (b'"' ∷ []))
        (Reads-step (at (b'"' ∷ text)) last b'"' refl))

pub Reads-single_quoted :
    (s token : List ℕ) (b : Build)
    → Reads
        (parser in_attribute_value_single_quoted (b'\'' ∷ []) false b)
        s
        (parser in_attribute_value_single_quoted (b'\'' ∷ token) false b)
    → Reads
        (parser in_attribute_pre_value [] false b)
        (b'\'' ∷ (s ++ b'\'' ∷ []))
        (parser in_attribute [] false (record b { value = b'\'' ∷ (token ++ b'\'' ∷ []) }))
unfolding parse_character quoted
Reads-single_quoted s token b h =
    let at : List ℕ → Parser = λ token. parser in_attribute_value_single_quoted token false b in
    let last = parser in_attribute [] false (record b { value = b'\'' ∷ (token ++ b'\'' ∷ []) }) in
    Reads-cons _ (at (b'\'' ∷ [])) last b'\'' (s ++ b'\'' ∷ []) refl (
      Reads-append (at (b'\'' ∷ [])) (at (b'\'' ∷ token)) last s (b'\'' ∷ []) h
        (Reads-step (at (b'\'' ∷ token)) last b'\'' refl))
