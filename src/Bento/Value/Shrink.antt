-- ===== src/Bento/Value/Shrink.antt =====
-- No value of source/containers/vbento.h gives back what it read of a stream.
use code_vault.Base.{
  bad_alloc, ℕ, zero, suc, Bool, [], ◌∷◌, Result, ok, ◌>>=◌, ℤ, pos, negsuc, arith,
}
use code_vault.Streams.Raw.{RawStream, IsSource}
use code_vault.Streams.Binary.{
  read_signed, read_bool, read_string, read_unsigned, read_dynamic_count,
}
use code_vault.Streams.Binary.Shrink.{
  Shrinks, Shrinks-ok, Shrinks-bind, Shrinks-weaken, Shrinks-err, map-Shrinks, get-Shrinks,
  read_unsigned-Shrinks, read_signed-Shrinks, read_bool-Shrinks, read_dynamic_count-Shrinks,
  read_string-Shrinks,
}
use code_vault.CodePoint.{of_stream}
use code_vault.CodePoint.Streamed.{of_stream-Shrinks}
use code_vault.Bento.{Shape, unsigned, signed, flag, text, code_point, rgba, bytes, pair, array}
use code_vault.Bento.Value.{read_many, read_value, rounds, copy_of_count, of_stream_value}

module _ {S : Type 0} (raw : RawStream S) (source : IsSource raw) (little : Bool) where
  pub read_many-Shrinks :
      {A : Type 0} (read : S → Result (A × S)) (n : ℕ)
      → Shrinks raw source 0 read
      → Shrinks raw source 0 (read_many raw little read n)
  unfolding read_many
  read_many-Shrinks read zero shrinks = Shrinks-ok raw source []
  read_many-Shrinks read (suc n) shrinks =
      Shrinks-bind raw source 0 0 read
        (λ a s'. read_many raw little read n s' >>= λ (as', t). ok (a ∷ as', t)) shrinks
        λ a.
          Shrinks-bind raw source 0 0 (read_many raw little read n) (λ as' t. ok (a ∷ as', t))
            (read_many-Shrinks read n shrinks) λ as'. Shrinks-ok raw source (a ∷ as')

  pub copy_of_count-Shrinks : (z : ℤ) → Shrinks raw source 0 (copy_of_count raw little z)
  unfolding copy_of_count
  copy_of_count-Shrinks (pos n) = get-Shrinks raw source n
  copy_of_count-Shrinks (negsuc n) = Shrinks-err raw source 0 bad_alloc

  pub read_value-Shrinks : (a : Shape) → Shrinks raw source 0 (read_value raw little a)
  unfolding read_value
  read_value-Shrinks (unsigned w) =
      Shrinks-weaken raw source w 0 (read_unsigned raw little w) (omega arith)
        (read_unsigned-Shrinks raw source little w)
  read_value-Shrinks (signed w) =
      Shrinks-weaken raw source w 0 (read_signed raw little w) (omega arith)
        (read_signed-Shrinks raw source little w)
  read_value-Shrinks flag =
      Shrinks-weaken raw source 1 0 (read_bool raw little) (omega arith)
        (read_bool-Shrinks raw source little)
  read_value-Shrinks text =
      Shrinks-weaken raw source 1 0 (read_string raw little) (omega arith)
        (read_string-Shrinks raw source little)
  read_value-Shrinks code_point =
      map-Shrinks raw source little 0 (of_stream raw) (λ c. c.int_value)
        (of_stream-Shrinks raw source)
  read_value-Shrinks rgba =
      Shrinks-weaken raw source 4 0
        (λ s. read_unsigned raw little 4 s >>= λ (n, t). ok (of_stream_value n, t)) (omega arith)
        (map-Shrinks raw source little 4 (read_unsigned raw little 4) of_stream_value
          (read_unsigned-Shrinks raw source little 4))
  read_value-Shrinks bytes =
      Shrinks-weaken raw source 1 0
        (λ s. read_dynamic_count raw little s >>= λ (n, t). copy_of_count raw little n t)
        (omega arith)
        (Shrinks-bind raw source 1 0 (read_dynamic_count raw little) (copy_of_count raw little)
          (read_dynamic_count-Shrinks raw source little) copy_of_count-Shrinks)
  read_value-Shrinks (pair a b) =
      Shrinks-bind raw source 0 0 (read_value raw little a)
        (λ x s'. read_value raw little b s' >>= λ (y, t). ok ((x, y), t)) (read_value-Shrinks a)
        λ x.
          Shrinks-bind raw source 0 0 (read_value raw little b) (λ y t. ok ((x, y), t))
            (read_value-Shrinks b) λ y. Shrinks-ok raw source (x, y)
  read_value-Shrinks (array a) =
      Shrinks-weaken raw source 4 0
        (λ s. read_signed raw little 4 s >>= λ (n, t).
          read_many raw little (read_value raw little a) (rounds n) t)
        (omega arith)
        (Shrinks-bind raw source 4 0 (read_signed raw little 4)
          (λ n t. read_many raw little (read_value raw little a) (rounds n) t)
          (read_signed-Shrinks raw source little 4)
          λ n. read_many-Shrinks (read_value raw little a) (rounds n) (read_value-Shrinks a))
