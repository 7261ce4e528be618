-- ===== src/Bento/Text/Writer/Classes.antt =====
-- source/containers/vbento.cpp: the class that newObjectFromBentoTextValues finds for a value as it is written.
use code_vault.Base.{
  ℕ, ◌≡◌, refl, sym, ap, ◌∙◌, Bool, true, false, not, ◌&&◌, ◌||◌, List, [], ◌∷◌, ◌++◌, append_assoc,
  append-nil, ok, ◌>>=◌, ◌==◌, length-append, take-append, Bool-cases, ==_iff, inl, inr, subst,
  arith,
}
use code_vault.Bento.{
  DataType, data_type_id, same_text, first_of, s32, boolean, string, character, string_array,
}
use code_vault.Bento.Text.Values.{
  Value, string_value, char_value, integer_value, bool_value, array_value, typed_value, parsed,
  replace_pair, unescape, inner, in_array, in_element, element_ended, read_elements, text_reader_of,
  typed_of, inferred_of, of_text_values,
}
use code_vault.Bento.Text.Writer.{is_special}
use code_vault.Bento.Text.Writer.Readable.{
  settled, all_of, is_digit, is_number, is_plain, all_plain, is_typed, IsReadable, read_back,
  IsSettled, and_both, not_or, type_text, qualifier_text, quotes_once, more_once, array_once,
  token_text,
}

and_false : (a b special : Bool) → special ≡ true → not (a && special) ≡ true → (a && b) ≡ false
and_false false b special e h = refl
and_false true b special e h = absurd (ground arith)

no_pair :
    (x y q : ℕ)
    → is_special q ≡ true
    → not (x == b'\\' && is_special y) ≡ true
    → (x == b'\\' && y == q) ≡ false
no_pair x y q special h = elim (Bool-cases (y == q)) [
  | inl same ↦
      and_false (x == b'\\') (y == q) (is_special y)
        (subst (λ z. is_special z ≡ true) (sym ((==_iff y q).0 same)) special) h
  | inr differs ↦ ground (arith, differs)
]

replace_pair-settled :
    (q : ℕ) (s : List ℕ) → is_special q ≡ true → settled s ≡ true → replace_pair b'\\' q q s ≡ s
unfolding replace_pair settled is_special
replace_pair-settled q [] special h = refl
replace_pair-settled q (x ∷ []) special h = refl
replace_pair-settled q (x ∷ y ∷ more) special h =
    let (here, later) = and_both (not (x == b'\\' && is_special y)) (settled (y ∷ more)) h in
    rw (no_pair x y q special here, replace_pair-settled q (y ∷ more) special later)

pub unescape-settled : (s : List ℕ) → settled s ≡ true → unescape s ≡ s
unfolding unescape is_special
unescape-settled s h = simp (
  replace_pair-settled b'\'' s refl h,
  replace_pair-settled b'"' s refl h,
  replace_pair-settled b'}' s refl h,
  replace_pair-settled b'{' s refl h,
  replace_pair-settled b'\\' s refl h,
)

pub inner_lem : (q r : ℕ) (s : List ℕ) → inner (q ∷ (s ++ r ∷ [])) ≡ s
inner_lem q r s = take-append s (r ∷ []) _ (omega (arith, length-append s (r ∷ [])))

read_element :
    (e pending rest : List ℕ) (es : List (List ℕ))
    → is_plain e ≡ true
    → read_elements in_element pending es (quotes_once e ++ (b'"' ∷ rest))
      ≡ read_elements element_ended [] (es ++ (pending ++ e) ∷ []) rest
unfolding read_elements
read_element [] pending rest es h =
    ap (λ p. read_elements element_ended [] (es ++ p ∷ []) rest) (sym (append-nil pending))
read_element (c ∷ e) pending rest es h =
    let (here, later) = and_both (not (c == b'\\' || c == b'\'')) (is_plain e) h in
    let ih =
      read_element e (pending ++ c ∷ []) rest es later
      ∙ ap (λ p. read_elements element_ended [] (es ++ p ∷ []) rest)
          (append_assoc pending (c ∷ []) e) in
    elim (Bool-cases (c == b'"')) [
      | inl quote ↦ rw (quote, ih)
      | inr other ↦ rw (other, other, (not_or (c == b'\\') (c == b'\'') here).0, ih)
    ]

read_more :
    (es done : List (List ℕ))
    → all_plain es ≡ true
    → read_elements element_ended [] done (more_once es) ≡ ok (done ++ es)
unfolding read_elements
read_more [] done h = ap ok (sym (append-nil done))
read_more (e ∷ es) done h =
    let (here, later) = and_both (is_plain e) (all_plain es) h in
    ap (λ s. read_elements in_element [] done s)
      (append_assoc (quotes_once e) (b'"' ∷ []) (more_once es))
    ∙ read_element e [] (more_once es) done here
    ∙ read_more es (done ++ e ∷ []) later
    ∙ ap ok (append_assoc done (e ∷ []) es)

read_array :
    (es : List (List ℕ))
    → all_plain es ≡ true
    → read_elements in_array [] [] (array_once es) ≡ ok es
unfolding read_elements
read_array [] h = refl
read_array (e ∷ es) h =
    let (here, later) = and_both (is_plain e) (all_plain es) h in
    ap (λ s. read_elements in_element [] [] s)
      (append_assoc (quotes_once e) (b'"' ∷ []) (more_once es))
    ∙ read_element e [] (more_once es) [] here
    ∙ read_more es (e ∷ []) later

typed_of_text :
    (d : DataType) (text : List ℕ)
    → is_typed d ≡ true
    → of_text_values (data_type_id d) (b'"' ∷ (text ++ b'"' ∷ [])) []
      ≡ ok (parsed (typed_value d (unescape (inner (b'"' ∷ (text ++ b'"' ∷ []))))))
unfolding of_text_values text_reader_of typed_of first_of same_text
typed_of_text string text h = absurd (cc)
typed_of_text character text h = absurd (cc)
typed_of_text s32 text h = absurd (cc)
typed_of_text boolean text h = absurd (cc)
typed_of_text string_array text h = absurd (cc)
typed_of_text _ text h = refl

abbrev pub starts_number : ℕ → Bool
starts_number c = c == b'-' || is_digit c

pub differs : (c k : ℕ) → starts_number c ≡ true → starts_number k ≡ false → (c == k) ≡ false
differs c k h e = elim (Bool-cases (c == k)) [
  | inl same ↦ absurd (cc (subst (λ z. starts_number z ≡ true) ((==_iff c k).0 same) h, e))
  | inr other ↦ other
]

number_of_text :
    (s : List ℕ) → is_number s ≡ true → inferred_of s [] ≡ ok (parsed (integer_value s))
unfolding inferred_of same_text
number_of_text [] h = absurd (cc)
number_of_text (c ∷ s) h =
    let starts = (and_both (starts_number c) (all_of is_digit s) h).0 in
    rw (
      differs c b't' starts refl,
      differs c b'f' starts refl,
      differs c b'N' starts refl,
      differs c b'P' starts refl,
      differs c b'F' starts refl,
      differs c b'"' starts refl,
      differs c b'(' starts refl,
      differs c b'\'' starts refl,
    )

-- The object that newObjectFromBentoTextValues makes of the written texts.
pub class_lem :
    (v : Value)
    → IsReadable v
    → of_text_values (type_text v) (token_text v) (qualifier_text v) ≡ ok (read_back v)
unfolding of_text_values inferred_of typed_of text_reader_of first_of same_text unescape
    replace_pair
class_lem (string_value text encoding) h =
    ap (λ s. ok (parsed (string_value (unescape s) encoding))) (inner_lem b'"' b'"' text)
class_lem (char_value c) h = refl
class_lem (integer_value text) h = number_of_text text h
class_lem (bool_value true) h = refl
class_lem (bool_value false) h = refl
class_lem (array_value es) h =
    ap (λ r. r >>= λ es'. ok (parsed (array_value es')))
      (ap (read_elements in_array [] []) (inner_lem b'\'' b'\'' (array_once es)) ∙ read_array es h)
class_lem (typed_value d text) typed =
    typed_of_text d text typed
    ∙ ap (λ s. ok (parsed (typed_value d (unescape s)))) (inner_lem b'"' b'"' text)

-- Where no backslash can escape, the value is what was written.
pub read_back_settled : (v : Value) → IsSettled v → read_back v ≡ parsed v
read_back_settled (string_value text encoding) h =
    ap (λ s. parsed (string_value s encoding)) (unescape-settled text h)
read_back_settled (typed_value d text) h =
    ap (λ s. parsed (typed_value d s)) (unescape-settled text h)
read_back_settled (char_value c) h = refl
read_back_settled (integer_value text) h = refl
read_back_settled (bool_value b) h = refl
read_back_settled (array_value es) h = refl
