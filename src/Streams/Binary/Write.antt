-- ===== src/Streams/Binary/Write.antt =====
-- The bytes that the write functions of source/streams/vbinaryiostream.cpp put on a stream.
use code_vault.Base.{
  ℕ, ◌≡◌, sym, ap, ◌∙◌, Bool, List, [], ◌++◌, Result, ok, ok-injective, append-nil, ℤ, ◌>>=◌,
  length, leb, if◌then◌else◌, pos, arith, append_assoc, bind-eq-ok, Bool-cases, inl, inr,
  length-append, subst,
}
use code_vault.Streams.Raw.{RawStream, IsSink}
use code_vault.Streams.Order.{in_memory, swap_if_needed, pattern_of}
use code_vault.Streams.Order.Laws.{be_bytes, in_memory-swap_if_needed, length-be_bytes}
use code_vault.Streams.Binary.{
  write_unsigned, write_signed, write_bool, write_dynamic_count, write_string, write_string32,
  dynamic_count_length, max_one_byte_length, max_u16, max_u32, three_byte_indicator,
  five_byte_indicator, nine_byte_indicator,
}

-- The format of a dynamic count, as the comment in writeDynamicCount gives it.
abbrev pub encode_count : ℕ → List ℕ
encode_count n =
    if leb n max_one_byte_length
    then be_bytes 1 n
    else (if leb n max_u16
        then be_bytes 1 three_byte_indicator ++ be_bytes 2 n
        else (if leb n max_u32
            then be_bytes 1 five_byte_indicator ++ be_bytes 4 n
            else be_bytes 1 nine_byte_indicator ++ be_bytes 8 n))

pub length-encode_count : (n : ℕ) → length (encode_count n) ≡ dynamic_count_length n
unfolding dynamic_count_length
length-encode_count n = ground (
  arith,
  length-be_bytes 1 n,
  length-append (be_bytes 1 three_byte_indicator) (be_bytes 2 n),
  length-append (be_bytes 1 five_byte_indicator) (be_bytes 4 n),
  length-append (be_bytes 1 nine_byte_indicator) (be_bytes 8 n),
  length-be_bytes 1 three_byte_indicator,
  length-be_bytes 1 five_byte_indicator,
  length-be_bytes 1 nine_byte_indicator,
  length-be_bytes 2 n,
  length-be_bytes 4 n,
  length-be_bytes 8 n,
)

module _ {S : Type 0} (raw : RawStream S) (sink : IsSink raw) (little : Bool) where
  open sink use {Ready, written, put_lem}

  -- A write that returned has appended these bytes.
  abbrev pub Appends : List ℕ → S → S → Type 0
  Appends ys s s' = Ready s' × (written s' ≡ written s ++ ys)

  pub Appends-trans :
      (xs ys : List ℕ) (s t u : S) → Appends xs s t → Appends ys t u → Appends (xs ++ ys) s u
  Appends-trans xs ys s t u (rt, et) (ru, eu) =
      (ru, eu ∙ ap (λ b. b ++ ys) et ∙ append_assoc (written s) xs ys)

  -- A write that appends these bytes when it returns.
  abbrev pub Writes : List ℕ → (S → Result S) → Type 0
  Writes ys write = (s s' : S) → Ready s → write s ≡ ok s' → Appends ys s s'

  pub Writes-bind :
      (xs ys : List ℕ) (f g : S → Result S)
      → Writes xs f
      → Writes ys g
      → Writes (xs ++ ys) (λ s. f s >>= g)
  Writes-bind xs ys f g wf wg s s' ready e =
      let (t, e1, e2) = bind-eq-ok (f s) g s' e in
      let first = wf s t ready e1 in Appends-trans xs ys s t s' first (wg t s' first.0 e2)

  pub Writes-nothing : Writes [] (λ s. ok s)
  Writes-nothing s s' ready e =
      let same = ok-injective s s' e in
      (subst Ready same ready, ap written (sym same) ∙ sym (append-nil (written s)))

  pub write_unsigned_lem :
      (w n : ℕ) (s s' : S)
      → Ready s
      → write_unsigned raw little w n s ≡ ok s'
      → Appends (be_bytes w n) s s'
  unfolding write_unsigned
  write_unsigned_lem w n s s' ready e =
      subst (λ ys. Appends ys s s') (in_memory-swap_if_needed little w n)
        (put_lem (in_memory little w (swap_if_needed little w n)) s s' ready e)

  indicated :
      (indicator w n : ℕ) (s s' : S)
      → Ready s
      → (write_unsigned raw little 1 indicator s >>= write_unsigned raw little w n) ≡ ok s'
      → Appends (be_bytes 1 indicator ++ be_bytes w n) s s'
  indicated indicator w n s s' ready e =
      let (t, e1, e2) =
        bind-eq-ok (write_unsigned raw little 1 indicator s) (write_unsigned raw little w n) s' e in
      let first = write_unsigned_lem 1 indicator s t ready e1 in
      Appends-trans (be_bytes 1 indicator) (be_bytes w n) s t s' first
        (write_unsigned_lem w n t s' first.0 e2)

  pub write_dynamic_count_lem :
      (n : ℕ) (s s' : S)
      → Ready s
      → write_dynamic_count raw little n s ≡ ok s'
      → Appends (encode_count n) s s'
  unfolding write_dynamic_count
  write_dynamic_count_lem n s s' ready e = elim (Bool-cases (leb n max_one_byte_length)) [
    | inl one ↦ rw one (write_unsigned_lem 1 n s s' ready (rw one at e))
    | inr more ↦ elim (Bool-cases (leb n max_u16)) [
      | inl two ↦
          rw (more, two) (indicated three_byte_indicator 2 n s s' ready (rw (more, two) at e))
      | inr longer ↦ elim (Bool-cases (leb n max_u32)) [
        | inl four ↦
            rw (more, longer, four)
              (indicated five_byte_indicator 4 n s s' ready (rw (more, longer, four) at e))
        | inr eight ↦
            rw (more, longer, eight)
              (indicated nine_byte_indicator 8 n s s' ready (rw (more, longer, eight) at e))
      ]
    ]
  ]

  pub write_string_lem :
      (bytes : List ℕ) (s s' : S)
      → Ready s
      → write_string raw little bytes s ≡ ok s'
      → Appends (encode_count (length bytes) ++ bytes) s s'
  unfolding write_string
  write_string_lem bytes s s' ready e =
      let (t, e1, e2) =
        bind-eq-ok (write_dynamic_count raw little (length bytes) s) (raw.put bytes) s' e in
      let first = write_dynamic_count_lem (length bytes) s t ready e1 in
      Appends-trans (encode_count (length bytes)) bytes s t s' first (put_lem bytes t s' first.0 e2)

  pub write_string32_lem :
      (bytes : List ℕ) (s s' : S)
      → Ready s
      → write_string32 raw little bytes s ≡ ok s'
      → Appends (be_bytes 4 (pattern_of 4 (pos (length bytes))) ++ bytes) s s'
  unfolding write_string32 write_signed
  write_string32_lem bytes s s' ready e =
      let (t, e1, e2) =
        bind-eq-ok (write_signed raw little 4 (pos (length bytes)) s) (raw.put bytes) s' e in
      let first = write_unsigned_lem 4 (pattern_of 4 (pos (length bytes))) s t ready e1 in
      Appends-trans (be_bytes 4 (pattern_of 4 (pos (length bytes)))) bytes s t s' first
        (put_lem bytes t s' first.0 e2)

  pub write_signed_lem :
      (w : ℕ) (z : ℤ) → Writes (be_bytes w (pattern_of w z)) (write_signed raw little w z)
  unfolding write_signed
  write_signed_lem w z = write_unsigned_lem w (pattern_of w z)

  pub write_bool_lem :
      (b : Bool) → Writes (be_bytes 1 (if b then 1 else 0)) (write_bool raw little b)
  unfolding write_bool
  write_bool_lem b = write_unsigned_lem 1 (if b then 1 else 0)
