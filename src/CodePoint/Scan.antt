-- ===== src/CodePoint/Scan.antt =====
-- The walks over a buffer of UTF-8 in source/containers/vcodepoint.cpp: countUTF8CodePoints forward,
-- getPreviousUTF8CodePointOffset backward.
use code_vault.Base.{
  ℕ, zero, suc, ◌+◌, ◌≤◌, ◌<◌, ◌≡◌, refl, sym, ap, ◌∙◌, Bool, true, false, none, some, ℤ, pos,
  negsuc, List, [], ◌∷◌, ◌++◌, Result, ok, err, fault, ◌>>=◌, length, get_elem?, ltb, if◌then◌else◌,
  arith, subst, inl, inr, append_assoc, ok-injective, bind-eq-ok, length-append, lt→ltb, ltb-false,
}
use code_vault.CodePoint.{
  CodePoint, of_buffer, of_int, to_utf8, byte_at, byte_at_lem, is_utf8_continuation_byte,
  utf16_length_of_value,
}
use code_vault.CodePoint.Utf8.{StandsAt, of_buffer-to_utf8}
use code_vault.CodePoint.Sequences.{IsSequence, Follow, to_utf8-IsSequence}

-- getUTF8Length; it is not set where the constructor left it unset.
size_of : CodePoint → Result ℕ
size_of c = elim c.utf8_length [ none ↦ err fault | some n ↦ ok n ]

-- The loop of countUTF8CodePoints. A code point takes a byte at least, so that as many rounds as
-- there are bytes are enough.
count_from : (fuel : ℕ) → List ℕ → (offset num_bytes : ℕ) → Result ℕ
unfolding size_of
count_from zero buffer offset num_bytes = if ltb offset num_bytes then err fault else ok 0
count_from (suc fuel) buffer offset num_bytes = elim (ltb offset num_bytes) [
  | false ↦ ok 0
  | true ↦ of_buffer buffer offset >>= λ c.
      size_of c >>= λ size. count_from fuel buffer (offset + size) num_bytes >>= λ n. ok (n + 1)
]

-- countUTF8CodePoints.
pub count_utf8_code_points : List ℕ → ℕ → Result ℕ
unfolding count_from
count_utf8_code_points buffer num_bytes = count_from num_bytes buffer 0 num_bytes

-- The loop of getPreviousUTF8CodePointOffset.
back_from : List ℕ → ℕ → Result ℕ
back_from buffer zero = ok 0
back_from buffer (suc k) = byte_at buffer (suc k) >>= λ b. elim (is_utf8_continuation_byte b) [
  | true ↦ back_from buffer k
  | false ↦ ok (suc k)
]

-- getPreviousUTF8CodePointOffset: -1 before the start.
pub previous_offset : List ℕ → ℕ → Result ℤ
unfolding back_from
previous_offset buffer zero = ok (negsuc 0)
previous_offset buffer (suc k) = back_from buffer k >>= λ i. ok (pos i)

-- The text of a sequence of values.
abbrev pub encode : List ℕ → Result (List ℕ)
encode [] = ok []
encode (n ∷ ns) = to_utf8 n >>= λ bytes. encode ns >>= λ rest. ok (bytes ++ rest)

stands_left :
    (buffer : List ℕ) (i : ℕ) (xs ys : List ℕ) → StandsAt buffer i (xs ++ ys) → StandsAt buffer i xs
stands_left buffer i [] ys at = tt
stands_left buffer i (x ∷ xs) ys (e, at) = (e, stands_left buffer (i + 1) xs ys at)

stands_right :
    (buffer : List ℕ) (i : ℕ) (xs ys : List ℕ)
    → StandsAt buffer i (xs ++ ys)
    → StandsAt buffer (i + length xs) ys
stands_right buffer i [] ys at = subst (λ k. StandsAt buffer k ys) (omega arith) at
stands_right buffer i (x ∷ xs) ys (e, at) =
    subst (λ k. StandsAt buffer k ys) (omega arith) (stands_right buffer (i + 1) xs ys at)

get_elem?-behind :
    (before xs : List ℕ) (x : ℕ) → get_elem? (before ++ x ∷ xs) (length before) ≡ some x
get_elem?-behind [] xs x = refl
get_elem?-behind (y ∷ before) xs x = get_elem?-behind before xs x

pub stands_behind : (before xs : List ℕ) → StandsAt (before ++ xs) (length before) xs
stands_behind before [] = tt
stands_behind before (x ∷ xs) = (
  get_elem?-behind before xs x,
  subst (λ k. StandsAt (before ++ x ∷ xs) k xs) (length-append before (x ∷ []))
      (subst (λ buffer. StandsAt buffer (length (before ++ x ∷ [])) xs)
        (append_assoc before (x ∷ []) xs) (stands_behind (before ++ x ∷ []) xs)),
)

-- What toString and the constructor from a value say of one value.
sized :
    (n : ℕ) (bytes : List ℕ)
    → to_utf8 n ≡ ok bytes
    → (c : CodePoint) × (of_int n ≡ ok c) × (size_of c ≡ ok (length bytes)) × IsSequence bytes
unfolding of_int size_of
sized n bytes e = elim (to_utf8-IsSequence n) [
  | inl (h, (bytes', e', size, form)) ↦
      let same : bytes' ≡ bytes = ok-injective bytes' bytes (sym e' ∙ e) in
      (
        record {
          int_value = n;
          utf8_length = some (length bytes);
          utf16_length = some (utf16_length_of_value n);
        },
        simp (size, same),
        refl,
        subst IsSequence same form,
      )
  | inr (h, e') ↦ absurd (cc)
]

IsSequence-length : (bytes : List ℕ) → IsSequence bytes → 0 < length bytes
IsSequence-length [] form = elim form [ ]
IsSequence-length (b ∷ bs) form = omega arith

-- One round of the loop, in front of the bytes of a value.
count_step :
    (n : ℕ) (first buffer : List ℕ) (offset fuel num_bytes rest : ℕ)
    → to_utf8 n ≡ ok first
    → StandsAt buffer offset first
    → offset < num_bytes
    → count_from fuel buffer (offset + length first) num_bytes ≡ ok rest
    → count_from (suc fuel) buffer offset num_bytes ≡ ok (rest + 1)
unfolding count_from
count_step n first buffer offset fuel num_bytes rest e at lt loop =
    let (c, made, size, _) = sized n first e in
    ap
      (λ (t : Bool). elim t [
        | false ↦ ok 0
        | true ↦ of_buffer buffer offset >>= λ d.
            size_of d >>= λ k. count_from fuel buffer (offset + k) num_bytes >>= λ m. ok (m + 1)
      ])
      (lt→ltb offset num_bytes lt)
    ∙ simp (of_buffer-to_utf8 buffer offset n first e at, made, size, loop)

count_from-encode :
    (ns bytes buffer : List ℕ) (offset fuel num_bytes : ℕ)
    → encode ns ≡ ok bytes
    → StandsAt buffer offset bytes
    → num_bytes ≡ offset + length bytes
    → length bytes ≤ fuel
    → count_from fuel buffer offset num_bytes ≡ ok (length ns)
unfolding count_from
count_from-encode [] bytes buffer offset zero num_bytes e at last enough =
    ground (arith, ok-injective [] bytes e)
count_from-encode [] bytes buffer offset (suc fuel) num_bytes e at last enough =
    let none_left : length bytes ≡ 0 = ap length (sym (ok-injective [] bytes e)) in
    let stops : ltb offset num_bytes ≡ false = ltb-false offset num_bytes (omega arith) in
    rw (stops, count_from) refl
count_from-encode (n ∷ ns) bytes buffer offset zero num_bytes e at last enough =
    let (first, e1, rest_ok) =
      bind-eq-ok (to_utf8 n) (λ xs. encode ns >>= λ rest. ok (xs ++ rest)) bytes e in
    let (rest, e2, e3) = bind-eq-ok (encode ns) (λ xs. ok (first ++ xs)) bytes rest_ok in
    let (c, made, size, form) = sized n first e1 in
    let parts = ap length (ok-injective (first ++ rest) bytes e3) in
    absurd (omega (arith, IsSequence-length first form, parts, length-append first rest))
count_from-encode (n ∷ ns) bytes buffer offset (suc fuel) num_bytes e at last enough =
    let (first, e1, rest_ok) =
      bind-eq-ok (to_utf8 n) (λ xs. encode ns >>= λ rest. ok (xs ++ rest)) bytes e in
    let (rest, e2, e3) = bind-eq-ok (encode ns) (λ xs. ok (first ++ xs)) bytes rest_ok in
    let parts = ok-injective (first ++ rest) bytes e3 in
    let sizes : length first + length rest ≡ length bytes =
      sym (length-append first rest) ∙ ap length parts in
    let (c, made, size, form) = sized n first e1 in
    let some_byte = IsSequence-length first form in
    let here = subst (StandsAt buffer offset) (sym parts) at in
    let loop =
      count_from-encode ns rest buffer (offset + length first) fuel num_bytes e2
        (stands_right buffer offset first rest here) (omega arith) (omega arith) in
    count_step n first buffer offset fuel num_bytes (length ns) e1
      (stands_left buffer offset first rest here) (omega arith) loop
    ∙ ap ok (omega arith)

-- Of the bytes that a sequence of values is written as, each with toString, countUTF8CodePoints says
-- how many values they are.
pub count-encode :
    (ns bytes : List ℕ)
    → encode ns ≡ ok bytes
    → count_utf8_code_points bytes (length bytes) ≡ ok (length ns)
unfolding count_utf8_code_points
count-encode ns bytes e =
    count_from-encode ns bytes bytes 0 (length bytes) (length bytes) e (stands_behind [] bytes)
      (omega arith) (omega arith)

back_over :
    (buffer : List ℕ) (b i : ℕ)
    → get_elem? buffer (suc i) ≡ some b
    → is_utf8_continuation_byte b ≡ true
    → back_from buffer (suc i) ≡ back_from buffer i
unfolding back_from
back_over buffer b i e continues =
    rw (byte_at_lem buffer (suc i) b e, back_from)
      (ap (λ (t : Bool). elim t [ true ↦ back_from buffer i | false ↦ ok (suc i) ]) continues)

back_from-Follow :
    (buffer bytes : List ℕ) (i : ℕ)
    → StandsAt buffer (i + 1) bytes
    → Follow bytes
    → back_from buffer (i + length bytes) ≡ back_from buffer i
unfolding back_from
back_from-Follow buffer [] i at follow = ap (back_from buffer) (omega arith)
back_from-Follow buffer (b ∷ bs) i (e, at) (continues, follow) =
    ap (back_from buffer) {y = i + 1 + length bs} (omega arith)
    ∙ back_from-Follow buffer bs (i + 1) at follow
    ∙ ap (back_from buffer) {y = suc i} (omega arith)
    ∙ back_over buffer b i (subst (λ k. get_elem? buffer k ≡ some b) (omega arith) e) continues

back_from-start :
    (buffer : List ℕ) (b i : ℕ)
    → get_elem? buffer i ≡ some b
    → is_utf8_continuation_byte b ≡ false
    → back_from buffer i ≡ ok i
unfolding back_from
back_from-start buffer b zero e start = refl
back_from-start buffer b (suc i) e start =
    rw (byte_at_lem buffer (suc i) b e, back_from)
      (ap (λ (t : Bool). elim t [ true ↦ back_from buffer i | false ↦ ok (suc i) ]) start)

behind_start :
    (bytes buffer : List ℕ) (i : ℕ)
    → IsSequence bytes
    → StandsAt buffer i bytes
    → previous_offset buffer (i + length bytes) ≡ ok (pos i)
unfolding previous_offset
behind_start [] buffer i form at = elim form [ ]
behind_start (b ∷ bs) buffer i (start, _, follow) (e, at) =
    ap (previous_offset buffer) {y = suc (i + length bs)} (omega arith)
    ∙ ap (λ r. r >>= λ k. ok (pos k))
        (back_from-Follow buffer bs i at follow ∙ back_from-start buffer b i e start)

-- From the offset behind the bytes of a value, wherever they stand in a buffer,
-- getPreviousUTF8CodePointOffset returns the offset where they start.
previous_offset-to_utf8 :
    (n : ℕ) (bytes buffer : List ℕ) (i : ℕ)
    → to_utf8 n ≡ ok bytes
    → StandsAt buffer i bytes
    → previous_offset buffer (i + length bytes) ≡ ok (pos i)
previous_offset-to_utf8 n bytes buffer i e at =
    let (c, made, size, form) = sized n bytes e in behind_start bytes buffer i form at
