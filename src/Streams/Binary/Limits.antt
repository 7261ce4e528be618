-- ===== src/Streams/Binary/Limits.antt =====
-- The size of a dynamic count of source/streams/vbinaryiostream.cpp.
use code_vault.Base.{ℕ, ◌+◌, ◌≡◌, ap, ◌∙◌, Bool, ok, length, arith, length-append}
use code_vault.Streams.Raw.{RawStream, IsSink}
use code_vault.Streams.Binary.{write_dynamic_count, dynamic_count_length}
use code_vault.Streams.Binary.Write.{encode_count, write_dynamic_count_lem, length-encode_count}

-- A dynamic count takes up as many bytes as getDynamicCountLength says.
dynamic_count_length_lem :
    {S : Type 0} (raw : RawStream S) (sink : IsSink raw) (little : Bool) (n : ℕ) (s s' : S)
    → sink.Ready s
    → write_dynamic_count raw little n s ≡ ok s'
    → length (sink.written s') ≡ length (sink.written s) + dynamic_count_length n
dynamic_count_length_lem raw sink little n s s' ready e =
    ap length (write_dynamic_count_lem raw sink little n s s' ready e).1
    ∙ omega (arith, length-append (sink.written s) (encode_count n), length-encode_count n)
