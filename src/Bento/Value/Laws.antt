-- ===== src/Bento/Value/Laws.antt =====
-- What source/containers/vbento.h writes of a value is what it reads back.
use code_vault.Base.{
  ℕ, ◌^◌, ◌<◌, ◌≡◌, refl, ap, ◌∙◌, Bool, List, [], ◌∷◌, ◌++◌, Result, ok, length, pos, arith,
  append_assoc, take, take-append, drop, drop-append,
}
use code_vault.Streams.Raw.{RawStream, IsSink, IsSource}
use code_vault.Streams.Order.{pattern_of}
use code_vault.Streams.Order.Laws.{be_bytes}
use code_vault.Streams.Binary.{write_signed, write_dynamic_count}
use code_vault.Streams.Binary.Write.{
  encode_count, Writes, Writes-bind, Writes-nothing, write_signed_lem, write_bool_lem,
  write_unsigned_lem, write_dynamic_count_lem, write_string_lem,
}
use code_vault.Streams.Binary.RoundTrip.{
  Gets, read_unsigned_prefix, read_signed_prefix, read_dynamic_count_prefix, read_string_prefix,
  read_bool_prefix,
}
use code_vault.CodePoint.Streamed.{of_stream-to_utf8, int_value-of_int, write_to_binary_stream_lem}
use code_vault.Bento.{
  Shape, unsigned, signed, flag, text, code_point, rgba, bytes, pair, array, Color, Payload,
}
use code_vault.Bento.Value.{
  stream_value, of_stream_value, write_many, read_many, write_value, read_value, copy_of_count,
}
use code_vault.Bento.Value.Format.{encode_many, encode_value, encode_point, Each, Fits}
use code_vault.Bento.Value.Lengths.{encoded_point}

pub Each-map :
    {A : Type 0} {P Q : A → Type 0} (xs : List A) → ((x : A) → P x → Q x) → Each P xs → Each Q xs
Each-map [] f each = tt
Each-map (x ∷ xs) f (here, more) = (f x here, Each-map xs f more)

module _ {S : Type 0} (raw : RawStream S) (sink : IsSink raw) (little : Bool) where
  pub write_many_lem :
      {A : Type 0} (encode : A → List ℕ) (write : A → S → Result S) (xs : List A)
      → Each (λ x. Writes raw sink little (encode x) (write x)) xs
      → Writes raw sink little (encode_many encode xs) (write_many raw little write xs)
  unfolding write_many
  write_many_lem encode write [] each = Writes-nothing raw sink little
  write_many_lem encode write (x ∷ xs) (here, more) =
      Writes-bind raw sink little (encode x) (encode_many encode xs) (write x)
        (write_many raw little write xs) here (write_many_lem encode write xs more)

  pub write_value_lem :
      (a : Shape) (v : Payload a)
      → Fits a v
      → Writes raw sink little (encode_value a v) (write_value raw little a v)
  unfolding write_value
  write_value_lem (unsigned w) n fits = write_unsigned_lem raw sink little w n
  write_value_lem (signed w) z fits = write_signed_lem raw sink little w z
  write_value_lem flag b fits = write_bool_lem raw sink little b
  write_value_lem text str fits = write_string_lem raw sink little str
  write_value_lem code_point c fits =
      write_to_binary_stream_lem raw sink little c (encode_point c) (encoded_point c fits).0
  write_value_lem rgba c fits = write_unsigned_lem raw sink little 4 (stream_value c)
  write_value_lem bytes bs fits =
      Writes-bind raw sink little (encode_count (length bs)) bs
        (write_dynamic_count raw little (length bs)) (raw.put bs)
        (write_dynamic_count_lem raw sink little (length bs)) (sink.put_lem bs)
  write_value_lem (pair a b) (x, y) (fx, fy) =
      Writes-bind raw sink little (encode_value a x) (encode_value b y) (write_value raw little a x)
        (write_value raw little b y) (write_value_lem a x fx) (write_value_lem b y fy)
  write_value_lem (array a) xs (few, each) =
      Writes-bind raw sink little (be_bytes 4 (pattern_of 4 (pos (length xs))))
        (encode_many (encode_value a) xs) (write_signed raw little 4 (pos (length xs)))
        (write_many raw little (write_value raw little a) xs)
        (write_signed_lem raw sink little 4 (pos (length xs)))
        (write_many_lem (encode_value a) (write_value raw little a) xs
          (Each-map xs (write_value_lem a) each))

stream_value-lt : (c : Color) → Fits rgba c → stream_value c < 256 ^ 4
unfolding stream_value
stream_value-lt c (r, g, b, a) = omega arith

of_stream_value-stream_value : (c : Color) → Fits rgba c → of_stream_value (stream_value c) ≡ c
unfolding of_stream_value stream_value
of_stream_value-stream_value c (r, g, b, a) = ground arith

module _ {S : Type 0} (raw : RawStream S) (source : IsSource raw) (little : Bool) where
  -- A read that takes these bytes, where they come next, for `a`.
  abbrev pub Takes : {A : Type 0} → List ℕ → A → (S → Result (A × S)) → Type 0
  Takes ys a read =
      (rest : List ℕ) (s : S)
      → source.Ready s
      → source.unread s ≡ ys ++ rest
      → Gets raw source little a rest (read s)

  pub read_many_lem :
      {A : Type 0} (encode : A → List ℕ) (read : S → Result (A × S)) (xs : List A)
      → Each (λ x. Takes (encode x) x read) xs
      → Takes (encode_many encode xs) xs (read_many raw little read (length xs))
  unfolding read_many
  read_many_lem encode read [] each rest s ready e = (s, refl, ready, e)
  read_many_lem encode read (x ∷ xs) (here, more) rest s ready e =
      let (t, reads, ready', left) =
        here (encode_many encode xs ++ rest) s ready
          (e ∙ append_assoc (encode x) (encode_many encode xs) rest) in
      let (u, reads', ready'', left') = read_many_lem encode read xs more rest t ready' left in
      (u, simp (reads, reads'), ready'', left')

  pub copy_of_count_lem :
      (ys rest : List ℕ) (n : ℕ) (s : S)
      → source.Ready s
      → source.unread s ≡ ys ++ rest
      → n ≡ length ys
      → Gets raw source little ys rest (copy_of_count raw little (pos n) s)
  unfolding copy_of_count
  copy_of_count_lem ys rest n s ready e whole =
      let (t, gets, ready', left) = source.get_lem n s ready in
      (
        t,
        gets ∙ ap (λ zs. ok (zs, t)) (ap (take n) e ∙ take-append ys rest n whole),
        ready',
        left ∙ ap (drop n) e ∙ drop-append ys rest n whole,
      )

  pub read_value_lem :
      (a : Shape) (v : Payload a) → Fits a v → Takes (encode_value a v) v (read_value raw little a)
  unfolding read_value
  read_value_lem (unsigned w) n fits rest s ready e =
      read_unsigned_prefix raw source little w n rest s ready e fits
  read_value_lem (signed w) z (p, h) rest s ready e =
      read_signed_prefix raw source little w z rest s ready e p h
  read_value_lem flag b fits rest s ready e = read_bool_prefix raw source little b rest s ready e
  read_value_lem text str fits rest s ready e =
      read_string_prefix raw source little str rest s ready e fits
  read_value_lem code_point c fits rest s ready e =
      let (p, made, (t, reads, ready', left)) =
        of_stream-to_utf8 raw source c (encode_point c) rest s (encoded_point c fits).0 ready e in
      (t, simp reads (ap (λ (k : ℕ). ok (k, t)) (int_value-of_int c p made)), ready', left)
  read_value_lem rgba c fits rest s ready e =
      let (t, reads, ready', left) =
        read_unsigned_prefix raw source little 4 (stream_value c) rest s ready e
          (stream_value-lt c fits) in
      (t, simp reads (ap (λ k. ok (k, t)) (of_stream_value-stream_value c fits)), ready', left)
  read_value_lem bytes bs fits rest s ready e =
      let (t, reads, ready', left) =
        read_dynamic_count_prefix raw source little (length bs) (bs ++ rest) s ready
          (e ∙ append_assoc (encode_count (length bs)) bs rest) fits in
      let (u, gets, ready'', left') = copy_of_count_lem bs rest (length bs) t ready' left refl in
      (u, simp (reads, gets), ready'', left')
  read_value_lem (pair a b) (x, y) (fx, fy) rest s ready e =
      let (t, reads, ready', left) =
        read_value_lem a x fx (encode_value b y ++ rest) s ready
          (e ∙ append_assoc (encode_value a x) (encode_value b y) rest) in
      let (u, reads', ready'', left') = read_value_lem b y fy rest t ready' left in
      (u, simp (reads, reads'), ready'', left')
  read_value_lem (array a) xs (few, each) rest s ready e =
      let count = be_bytes 4 (pattern_of 4 (pos (length xs))) in
      let (t, reads, ready', left) =
        read_signed_prefix raw source little 4 (pos (length xs))
          (encode_many (encode_value a) xs ++ rest) s ready
          (e ∙ append_assoc count (encode_many (encode_value a) xs) rest) (omega arith)
          (omega arith) in
      let (u, reads', ready'', left') =
        read_many_lem (encode_value a) (read_value raw little a) xs
          (Each-map xs (read_value_lem a) each) rest t ready' left in
      (u, simp (reads, reads'), ready'', left')
