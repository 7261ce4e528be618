-- ===== src/CodePoint/Streamed.antt =====
-- The constructors from a stream in source/containers/vcodepoint.cpp, on the bytes of ASCII.
use code_vault.Base.{
  true, false, ltb, length, subst, bind-eq-ok, Result, err, ℕ, ◌+◌, ◌/◌, ◌%◌, ◌<◌, ◌≡◌, Bool, refl,
  sym, ap, ◌∙◌, some, List, [], ◌∷◌, ◌++◌, ok, arith, inl, inr,
}
use code_vault.Streams.Raw.{
  RawStream, IsSink, IsSource, read_guaranteed_byte, read_guaranteed_prefix,
}
use code_vault.Streams.Binary.Write.{Writes, Writes-bind, Writes-nothing}
use code_vault.Streams.Binary.Shrink.{Shrinks, Shrinks-ok, read_guaranteed_byte-Shrinks}
use code_vault.CodePoint.{
  next_byte_if, put_all, write_to_binary_stream, CodePoint, of_buffer, of_int, to_utf8, utf8_bytes,
  utf8_length_of_value, of_stream, init_from_utf8_bytes, value_of_utf8, utf8_length_of_start_byte,
  utf16_length_of_value,
}
use code_vault.CodePoint.Utf8.{
  utf8_length_of_start_byte_lem, StandsAt, of_buffer-to_utf8, encoded_cases, decode_2, decode_3,
  decode_4,
}

abbrev pub ascii_point : ℕ → CodePoint
ascii_point b = record { int_value = b; utf8_length = some 1; utf16_length = some 1 }

pub to_utf8_ascii : (b : ℕ) → b < 0x80 → to_utf8 b ≡ ok (b ∷ [])
unfolding to_utf8 utf8_bytes utf8_length_of_value
to_utf8_ascii b small = ground arith

pub int_value-of_int : (n : ℕ) (c : CodePoint) → of_int n ≡ ok c → c.int_value ≡ n
unfolding of_int utf8_length_of_value
int_value-of_int n c e = ground arith

module _ {S : Type 0} (raw : RawStream S) (source : IsSource raw) where
  byte_prefix :
      (b : ℕ) (rest : List ℕ) (s : S)
      → source.Ready s
      → source.unread s ≡ b ∷ rest
      → (s' : S) × (read_guaranteed_byte raw s ≡ ok (b, s'))
        × source.Ready s'
        × (source.unread s' ≡ rest)
  unfolding read_guaranteed_byte
  byte_prefix b rest s ready e =
      let (s', reads, ready', left) =
        read_guaranteed_prefix raw source (b ∷ []) rest s 1 ready e refl in
      (s', simp reads, ready', left)

  -- An ASCII byte that comes next is read as its code point, and nothing more.
  pub of_stream_ascii :
      (b : ℕ) (rest : List ℕ) (s : S)
      → b < 0x80
      → source.Ready s
      → source.unread s ≡ b ∷ rest
      → (s' : S) × (of_stream raw s ≡ ok (ascii_point b, s'))
        × source.Ready s'
        × (source.unread s' ≡ rest)
  unfolding of_stream init_from_utf8_bytes value_of_utf8 utf16_length_of_value
  of_stream_ascii b rest s small ready e =
      let (s', reads, ready', left) = byte_prefix b rest s ready e in
      let count : utf8_length_of_start_byte b ≡ 1 =
        utf8_length_of_start_byte_lem b (omega arith) ∙ ground arith in
      let one : utf16_length_of_value b ≡ 1 = ground arith in
      (s', simp (reads, count, one), ready', left)

  -- A code point is read from the bytes that stand next, and nothing more.
  abbrev pub Reads : CodePoint → List ℕ → S → Type 0
  Reads c rest s =
      (s' : S) × (of_stream raw s ≡ ok (c, s')) × source.Ready s' × (source.unread s' ≡ rest)

  of_stream_2 :
      (b0 b1 : ℕ) (rest : List ℕ) (s : S)
      → utf8_length_of_start_byte b0 ≡ 2
      → source.Ready s
      → source.unread s ≡ b0 ∷ b1 ∷ rest
      → Reads (init_from_utf8_bytes 2 b0 b1 0 0) rest s
  unfolding of_stream
  of_stream_2 b0 b1 rest s count ready e =
      let (s0, reads0, ready0, left0) = byte_prefix b0 (b1 ∷ rest) s ready e in
      let (s1, reads1, ready1, left1) = byte_prefix b1 rest s0 ready0 left0 in
      (s1, simp (reads0, count, reads1), ready1, left1)

  of_stream_3 :
      (b0 b1 b2 : ℕ) (rest : List ℕ) (s : S)
      → utf8_length_of_start_byte b0 ≡ 3
      → source.Ready s
      → source.unread s ≡ b0 ∷ b1 ∷ b2 ∷ rest
      → Reads (init_from_utf8_bytes 3 b0 b1 b2 0) rest s
  unfolding of_stream
  of_stream_3 b0 b1 b2 rest s count ready e =
      let (s0, reads0, ready0, left0) = byte_prefix b0 (b1 ∷ b2 ∷ rest) s ready e in
      let (s1, reads1, ready1, left1) = byte_prefix b1 (b2 ∷ rest) s0 ready0 left0 in
      let (s2, reads2, ready2, left2) = byte_prefix b2 rest s1 ready1 left1 in
      (s2, simp (reads0, count, reads1, reads2), ready2, left2)

  of_stream_4 :
      (b0 b1 b2 b3 : ℕ) (rest : List ℕ) (s : S)
      → utf8_length_of_start_byte b0 ≡ 4
      → source.Ready s
      → source.unread s ≡ b0 ∷ b1 ∷ b2 ∷ b3 ∷ rest
      → Reads (init_from_utf8_bytes 4 b0 b1 b2 b3) rest s
  unfolding of_stream
  of_stream_4 b0 b1 b2 b3 rest s count ready e =
      let (s0, reads0, ready0, left0) = byte_prefix b0 (b1 ∷ b2 ∷ b3 ∷ rest) s ready e in
      let (s1, reads1, ready1, left1) = byte_prefix b1 (b2 ∷ b3 ∷ rest) s0 ready0 left0 in
      let (s2, reads2, ready2, left2) = byte_prefix b2 (b3 ∷ rest) s1 ready1 left1 in
      let (s3, reads3, ready3, left3) = byte_prefix b3 rest s2 ready2 left2 in
      (s3, simp (reads0, count, reads1, reads2, reads3), ready3, left3)

  point_of :
      (n : ℕ) (ys : List ℕ) (c : CodePoint)
      → to_utf8 n ≡ ok ys
      → StandsAt ys 0 ys
      → of_buffer ys 0 ≡ ok c
      → of_int n ≡ ok c
  point_of n ys c e at d = sym (of_buffer-to_utf8 ys 0 n ys e at) ∙ d

  -- The bytes that a code point is written as are read back from a stream as the code point of its value.
  pub of_stream-to_utf8 :
      (n : ℕ) (ys rest : List ℕ) (s : S)
      → to_utf8 n ≡ ok ys
      → source.Ready s
      → source.unread s ≡ ys ++ rest
      → (c : CodePoint) × (of_int n ≡ ok c) × Reads c rest s
  unfolding of_int utf8_length_of_value utf16_length_of_value
  of_stream-to_utf8 n ys rest s e ready left = elim (encoded_cases n ys e) [
    | inl (k, e1) ↦ (
      ascii_point n,
      ground arith,
      of_stream_ascii n rest s k ready (left ∙ ap (λ zs. zs ++ rest) e1),
    )
    | inr (inl (h, k, e2)) ↦
        let b0 : ℕ = 0xc0 + n / 64 in
        let b1 : ℕ = 0x80 + n % 64 in
        let count : utf8_length_of_start_byte b0 ≡ 2 =
          utf8_length_of_start_byte_lem b0 (omega arith) ∙ ground arith in
        (
          init_from_utf8_bytes 2 b0 b1 0 0,
          point_of n (b0 ∷ b1 ∷ []) _ (e ∙ ap (λ zs. ok zs) e2) (refl, (refl, tt))
              (decode_2 (b0 ∷ b1 ∷ []) 0 b0 b1 (omega arith) (omega arith) (refl, (refl, tt))),
          of_stream_2 b0 b1 rest s count ready (left ∙ ap (λ zs. zs ++ rest) e2),
        )
    | inr (inr (inl (h, k, e3))) ↦
        let b0 : ℕ = 0xe0 + n / 4096 in
        let b1 : ℕ = 0x80 + n / 64 % 64 in
        let b2 : ℕ = 0x80 + n % 64 in
        let count : utf8_length_of_start_byte b0 ≡ 3 =
          utf8_length_of_start_byte_lem b0 (omega arith) ∙ ground arith in
        (
          init_from_utf8_bytes 3 b0 b1 b2 0,
          point_of n (b0 ∷ b1 ∷ b2 ∷ []) _ (e ∙ ap (λ zs. ok zs) e3) (refl, (refl, (refl, tt)))
              (decode_3 (b0 ∷ b1 ∷ b2 ∷ []) 0 b0 b1 b2 (omega arith) (omega arith)
                (refl, (refl, (refl, tt)))),
          of_stream_3 b0 b1 b2 rest s count ready (left ∙ ap (λ zs. zs ++ rest) e3),
        )
    | inr (inr (inr (h, k, e4))) ↦
        let b0 : ℕ = 0xf0 + n / 262144 in
        let b1 : ℕ = 0x80 + n / 4096 % 64 in
        let b2 : ℕ = 0x80 + n / 64 % 64 in
        let b3 : ℕ = 0x80 + n % 64 in
        let count : utf8_length_of_start_byte b0 ≡ 4 =
          utf8_length_of_start_byte_lem b0 (omega arith) ∙ ground arith in
        (
          init_from_utf8_bytes 4 b0 b1 b2 b3,
          point_of n (b0 ∷ b1 ∷ b2 ∷ b3 ∷ []) _ (e ∙ ap (λ zs. ok zs) e4)
              (refl, (refl, (refl, (refl, tt))))
              (decode_4 (b0 ∷ b1 ∷ b2 ∷ b3 ∷ []) 0 b0 b1 b2 b3 (omega arith) (omega arith)
                (refl, (refl, (refl, (refl, tt))))),
          of_stream_4 b0 b1 b2 b3 rest s count ready (left ∙ ap (λ zs. zs ++ rest) e4),
        )
  ]

-- writeToBinaryStream writes the bytes of the code point.
module _ {S : Type 0} (raw : RawStream S) (sink : IsSink raw) (little : Bool) where
  put_all_lem : (ys : List ℕ) → Writes raw sink little ys (put_all raw ys)
  unfolding put_all
  put_all_lem [] = Writes-nothing raw sink little
  put_all_lem (y ∷ ys) =
      Writes-bind raw sink little (y ∷ []) ys (raw.put (y ∷ [])) (put_all raw ys)
        (sink.put_lem (y ∷ [])) (put_all_lem ys)

  pub write_to_binary_stream_lem :
      (n : ℕ) (ys : List ℕ)
      → to_utf8 n ≡ ok ys
      → Writes raw sink little ys (write_to_binary_stream raw n)
  unfolding write_to_binary_stream
  write_to_binary_stream_lem n ys e s s' ready w = put_all_lem ys s s' ready (rw e at w)

-- Reading a code point gives nothing back.
module _ {S : Type 0} (raw : RawStream S) (source : IsSource raw) where
  next_byte_if-Shrinks : (more : Bool) → Shrinks raw source 0 (next_byte_if raw more)
  unfolding next_byte_if
  next_byte_if-Shrinks true = read_guaranteed_byte-Shrinks raw source
  next_byte_if-Shrinks false = Shrinks-ok raw source 0

  pub of_stream-Shrinks : Shrinks raw source 0 (of_stream raw)
  unfolding of_stream
  of_stream-Shrinks s s' c ready e =
      let ((b0, s0), e0, f0) = bind-eq-ok (read_guaranteed_byte raw s) _ (c, s') e in
      let (ready0, less0) = read_guaranteed_byte-Shrinks raw source s s0 b0 ready e0 in
      let count = utf8_length_of_start_byte b0 in
      let ((b1, s1), e1, f1) = bind-eq-ok (next_byte_if raw (ltb 1 count) s0) _ (c, s') f0 in
      let (ready1, less1) = next_byte_if-Shrinks (ltb 1 count) s0 s1 b1 ready0 e1 in
      let ((b2, s2), e2, f2) = bind-eq-ok (next_byte_if raw (ltb 2 count) s1) _ (c, s') f1 in
      let (ready2, less2) = next_byte_if-Shrinks (ltb 2 count) s1 s2 b2 ready1 e2 in
      let ((b3, s3), e3, f3) = bind-eq-ok (next_byte_if raw (ltb 3 count) s2) _ (c, s') f2 in
      let (ready3, less3) = next_byte_if-Shrinks (ltb 3 count) s2 s3 b3 ready2 e3 in
      let same : s3 ≡ s' =
        ap (λ (r : Result (CodePoint × S)). elim r [ ok (d, u) ↦ u | err f ↦ s3 ]) f3 in
      (subst source.Ready same ready3, omega (arith, ap (λ u. length (source.unread u)) same))
