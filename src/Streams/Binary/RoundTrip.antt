-- ===== src/Streams/Binary/RoundTrip.antt =====
-- What the write functions of source/streams/vbinaryiostream.cpp put on a stream, the read functions
-- get back, also on a machine of the other byte order.
use code_vault.Base.{
  ℕ, suc, ◌+◌, ◌^◌, ◌≤◌, ◌<◌, ◌≡◌, refl, sym, ap, ◌∙◌, Bool, true, false, if◌then◌else◌, List, [],
  ◌∷◌, ◌++◌, Result, ok, length, leb, ℤ, pos, arith, append_assoc, Bool-cases, inl, inr, drop,
  drop-append, ltb-false,
}
use code_vault.Streams.{max_s32}
use code_vault.Streams.Raw.{RawStream, IsSink, IsSource, read_guaranteed_prefix}
use code_vault.Streams.Order.{pattern_of}
use code_vault.Streams.Order.Laws.{
  be_bytes, length-be_bytes, swap_if_needed-of_memory, InRange, pattern_of-lt, signed_of-pattern_of,
  signed_of-small,
}
use code_vault.Streams.Binary.{
  read_bool, read_unsigned, read_signed, read_dynamic_count, read_string, read_string32,
  write_unsigned, write_signed, write_dynamic_count, write_string, write_string32, string_of_count,
  string_of_length, max_one_byte_length, max_u16, max_u32, three_byte_indicator,
  five_byte_indicator, nine_byte_indicator,
}
use code_vault.Streams.Binary.Write.{
  encode_count, write_unsigned_lem, write_dynamic_count_lem, write_string_lem, write_string32_lem,
}

module _ {S : Type 0} (raw : RawStream S) (source : IsSource raw) (little : Bool) where
  open source use {Ready, unread}

  -- The read `r` returns `a` and leaves `rest` to be read.
  abbrev pub Gets : {A : Type 0} → A → List ℕ → Result (A × S) → Type 0
  Gets a rest r = (s' : S) × (r ≡ ok (a, s')) × Ready s' × (unread s' ≡ rest)

  pub read_unsigned_prefix :
      (w n : ℕ) (rest : List ℕ) (s : S)
      → Ready s
      → unread s ≡ be_bytes w n ++ rest
      → n < 256 ^ w
      → Gets n rest (read_unsigned raw little w s)
  unfolding read_unsigned
  read_unsigned_prefix w n rest s ready e lt =
      let (s', reads, ready', left) =
        read_guaranteed_prefix raw source (be_bytes w n) rest s w ready e
          (sym (length-be_bytes w n)) in
      (
        s',
        simp reads (ap (λ (k : ℕ). ok (k, s')) (swap_if_needed-of_memory little w n lt)),
        ready',
        left,
      )

  pub read_signed_prefix :
      (w : ℕ) (z : ℤ) (rest : List ℕ) (s : S)
      → Ready s
      → unread s ≡ be_bytes w (pattern_of w z) ++ rest
      → 0 < w
      → InRange w z
      → Gets z rest (read_signed raw little w s)
  unfolding read_signed
  read_signed_prefix w z rest s ready e p h =
      let (s', reads, ready', left) =
        read_unsigned_prefix w (pattern_of w z) rest s ready e (pattern_of-lt w z) in
      (s', simp reads (ap (λ (k : ℤ). ok (k, s')) (signed_of-pattern_of w z p h)), ready', left)

  pub read_bool_prefix :
      (b : Bool) (rest : List ℕ) (s : S)
      → Ready s
      → unread s ≡ be_bytes 1 (if b then 1 else 0) ++ rest
      → Gets b rest (read_bool raw little s)
  unfolding read_bool
  read_bool_prefix true rest s ready e =
      let (s', reads, ready', left) = read_unsigned_prefix 1 1 rest s ready e (omega arith) in
      (s', simp reads, ready', left)
  read_bool_prefix false rest s ready e =
      let (s', reads, ready', left) = read_unsigned_prefix 1 0 rest s ready e (omega arith) in
      (s', simp reads, ready', left)

  -- A count behind an indicator byte.
  pub indicated_prefix :
      (indicator w n : ℕ) (rest : List ℕ) (s : S)
      → Ready s
      → unread s ≡ (be_bytes 1 indicator ++ be_bytes w n) ++ rest
      → indicator < 256
      → n < 256 ^ w
      → (t : S) × (read_unsigned raw little 1 s ≡ ok (indicator, t))
        × Gets n rest (read_unsigned raw little w t)
  indicated_prefix indicator w n rest s ready e small lt =
      let (t, reads, ready', left) =
        read_unsigned_prefix 1 indicator (be_bytes w n ++ rest) s ready
          (e ∙ append_assoc (be_bytes 1 indicator) (be_bytes w n) rest) (omega arith) in
      (t, reads, read_unsigned_prefix w n rest t ready' left lt)

  pub read_dynamic_count_prefix :
      (n : ℕ) (rest : List ℕ) (s : S)
      → Ready s
      → unread s ≡ encode_count n ++ rest
      → n + n < 256 ^ 8
      → Gets (pos n) rest (read_dynamic_count raw little s)
  unfolding read_dynamic_count
  read_dynamic_count_prefix n rest s ready e lt = elim (Bool-cases (leb n max_one_byte_length)) [
    | inl one ↦
        let (t, reads, ready', left) =
          read_unsigned_prefix 1 n rest s ready (rw one at e) (ground arith) in
        (t, simp reads (ground arith), ready', left)
    | inr more ↦ elim (Bool-cases (leb n max_u16)) [
      | inl two ↦
          let (t, reads, (u, reads', ready', left)) =
            indicated_prefix three_byte_indicator 2 n rest s ready (rw (more, two) at e)
              (omega arith) (ground arith) in
          (u, simp (reads, reads'), ready', left)
      | inr longer ↦ elim (Bool-cases (leb n max_u32)) [
        | inl four ↦
            let (t, reads, (u, reads', ready', left)) =
              indicated_prefix five_byte_indicator 4 n rest s ready (rw (more, longer, four) at e)
                (omega arith) (ground arith) in
            (u, simp (reads, reads'), ready', left)
        | inr eight ↦
            let (t, reads, (u, reads', ready', left)) =
              indicated_prefix nine_byte_indicator 8 n rest s ready (rw (more, longer, eight) at e)
                (omega arith) (omega arith) in
            (
              u,
              simp (reads, reads') (ap (λ (k : ℤ). ok (k, u)) (signed_of-small 8 n lt)),
              ready',
              left,
            )
      ]
    ]
  ]

  string_of_count_prefix :
      (bytes rest : List ℕ) (s : S)
      → Ready s
      → unread s ≡ bytes ++ rest
      → length bytes ≤ max_s32
      → Gets bytes rest (string_of_count raw little (pos (length bytes)) s)
  unfolding string_of_count
  string_of_count_prefix [] rest s ready e short = (s, refl, ready, e)
  string_of_count_prefix (b ∷ bs) rest s ready e short =
      let (u, found, ready', left) =
        read_guaranteed_prefix raw source (b ∷ bs) rest s (suc (length bs)) ready e refl in
      (u, rw (ltb-false max_s32 (suc (length bs)) short) found, ready', left)

  string_of_length_prefix :
      (bytes rest : List ℕ) (s : S)
      → Ready s
      → unread s ≡ bytes ++ rest
      → Gets bytes rest (string_of_length raw little (pos (length bytes)) s)
  unfolding string_of_length
  string_of_length_prefix [] rest s ready e = (s, refl, ready, e)
  string_of_length_prefix (b ∷ bs) rest s ready e =
      read_guaranteed_prefix raw source (b ∷ bs) rest s (suc (length bs)) ready e refl

  read_string32_prefix :
      (bytes rest : List ℕ) (s : S)
      → Ready s
      → unread s ≡ (be_bytes 4 (pattern_of 4 (pos (length bytes))) ++ bytes) ++ rest
      → length bytes ≤ max_s32
      → Gets bytes rest (read_string32 raw little s)
  unfolding read_string32
  read_string32_prefix bytes rest s ready e short =
      let (t, reads, ready', left) =
        read_signed_prefix 4 (pos (length bytes)) (bytes ++ rest) s ready
          (e ∙ append_assoc (be_bytes 4 (pattern_of 4 (pos (length bytes)))) bytes rest)
          (omega arith) (omega arith) in
      let (u, found, ready'', left') = string_of_length_prefix bytes rest t ready' left in
      (u, simp reads found, ready'', left')

  pub read_string_prefix :
      (bytes rest : List ℕ) (s : S)
      → Ready s
      → unread s ≡ (encode_count (length bytes) ++ bytes) ++ rest
      → length bytes ≤ max_s32
      → Gets bytes rest (read_string raw little s)
  unfolding read_string
  read_string_prefix bytes rest s ready e short =
      let (t, reads, ready', left) =
        read_dynamic_count_prefix (length bytes) (bytes ++ rest) s ready
          (e ∙ append_assoc (encode_count (length bytes)) bytes rest) (omega arith) in
      let (u, found, ready'', left') = string_of_count_prefix bytes rest t ready' left short in
      (u, simp reads found, ready'', left')

-- A writer and a reader, on streams of their own and machines of any byte order. The reader's stream
-- has to carry what the writer has appended, with `rest` behind it.
module _ {S T : Type 0} (out : RawStream S) (sink : IsSink out) (here : Bool) (into : RawStream T)
    (source : IsSource into) (there : Bool) (s s' : S) (t : T) (rest : List ℕ)
    (open_sink : sink.Ready s) (open_source : source.Ready t)
    (carried : source.unread t ≡ drop (length (sink.written s)) (sink.written s') ++ rest) where
  -- The reader finds what the writer has appended.
  pub arrives :
      (ys : List ℕ) → sink.written s' ≡ sink.written s ++ ys → source.unread t ≡ ys ++ rest
  arrives ys e =
      carried
      ∙ ap (λ b. drop (length (sink.written s)) b ++ rest) e
      ∙ ap (λ b. b ++ rest) (drop-append (sink.written s) ys (length (sink.written s)) refl)

  -- When an unsigned integer that fits its width in bytes has been written, and a stream carries what
  -- was written, then reading that stream, on a machine of the same or the other byte order, returns
  -- the integer and leaves what follows to be read.
  read-write_unsigned :
      (w n : ℕ)
      → n < 256 ^ w
      → write_unsigned out here w n s ≡ ok s'
      → Gets into source there n rest (read_unsigned into there w t)
  read-write_unsigned w n lt e =
      read_unsigned_prefix into source there w n rest t open_source
        (arrives (be_bytes w n) (write_unsigned_lem out sink here w n s s' open_sink e).1) lt

  -- When a signed integer in the range of its width, negative or not, has been written, and a stream
  -- carries what was written, then reading that stream, on a machine of the same or the other byte
  -- order, returns the integer and leaves what follows to be read.
  read-write_signed :
      (w : ℕ) (z : ℤ)
      → 0 < w
      → InRange w z
      → write_signed out here w z s ≡ ok s'
      → Gets into source there z rest (read_signed into there w t)
  unfolding write_signed
  read-write_signed w z p h e =
      read_signed_prefix into source there w z rest t open_source
        (arrives (be_bytes w (pattern_of w z))
          (write_unsigned_lem out sink here w (pattern_of w z) s s' open_sink e).1)
        p h

  -- When writeDynamicCount has written a count below 2^63, in one, three, five or nine bytes, and a
  -- stream carries what was written, then readDynamicCount on that stream returns the count and leaves
  -- what follows to be read.
  read-write_dynamic_count :
      (n : ℕ)
      → n + n < 256 ^ 8
      → write_dynamic_count out here n s ≡ ok s'
      → Gets into source there (pos n) rest (read_dynamic_count into there t)
  read-write_dynamic_count n lt e =
      read_dynamic_count_prefix into source there n rest t open_source
        (arrives (encode_count n) (write_dynamic_count_lem out sink here n s s' open_sink e).1) lt

  -- When writeString has written a string of at most 2^31 - 1 bytes, and a stream carries what was
  -- written, then readString on that stream returns the string and leaves what follows to be read.
  pub read-write_string :
      (bytes : List ℕ)
      → length bytes ≤ max_s32
      → write_string out here bytes s ≡ ok s'
      → Gets into source there bytes rest (read_string into there t)
  read-write_string bytes short e =
      read_string_prefix into source there bytes rest t open_source
        (arrives (encode_count (length bytes) ++ bytes)
          (write_string_lem out sink here bytes s s' open_sink e).1)
        short

  -- When writeString32 has written a string of at most 2^31 - 1 bytes, and a stream carries what was
  -- written, then readString32 on that stream returns the string and leaves what follows to be read.
  read-write_string32 :
      (bytes : List ℕ)
      → length bytes ≤ max_s32
      → write_string32 out here bytes s ≡ ok s'
      → Gets into source there bytes rest (read_string32 into there t)
  read-write_string32 bytes short e =
      read_string32_prefix into source there bytes rest t open_source
        (arrives (be_bytes 4 (pattern_of 4 (pos (length bytes))) ++ bytes)
          (write_string32_lem out sink here bytes s s' open_sink e).1)
        short
