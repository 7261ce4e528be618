-- ===== src/Bento/Node/Unknown.antt =====
-- An attribute of a class that newObjectFromStream of source/containers/vbento.cpp does not know.
use code_vault.Base.{
  ℕ, ◌+◌, ◌^◌, ◌≤◌, ◌<◌, ◌≡◌, sym, ◌∙◌, Bool, List, ◌++◌, length, arith, append_assoc,
  length-append,
}
use code_vault.Streams.{max_s32}
use code_vault.Streams.Raw.{RawStream, IsSource}
use code_vault.Streams.Binary.Write.{encode_count}
use code_vault.Streams.Binary.RoundTrip.{Gets, read_dynamic_count_prefix, read_string_prefix}
use code_vault.Bento.{reads_unknown, reader_of}
use code_vault.Bento.Value.{binary_string_length}
use code_vault.Bento.Value.Laws.{copy_of_count_lem}
use code_vault.Bento.Value.Format.{encode_string, length-encode_string}
use code_vault.Bento.Node.{unknown, read_attribute_as, read_attribute}
use code_vault.Bento.Node.Format.{attribute_body, encode_attribute}
use code_vault.Bento.Node.RoundTrip.{read_code_lem}

module _ {S : Type 0} (raw : RawStream S) (source : IsSource raw) (little : Bool) (stale : List ℕ)
    (four : length stale ≡ 4) where
  -- The length in front of an attribute counts its data type and its name too, but the constructor of
  -- VBentoUnknownValue copies as many bytes as its contents. So it takes, behind the contents, as many bytes of
  -- what follows as the data type and the name take up, and leaves the reader in the middle of something else.
  pub read_attribute_overreads :
      (name id contents extra rest : List ℕ) (s : S)
      → length id ≡ 4
      → reader_of id ≡ reads_unknown
      → length name ≤ max_s32
      → length (attribute_body (unknown name id contents))
          + length (attribute_body (unknown name id contents))
        < 256 ^ 8
      → length extra ≡ 4 + binary_string_length name
      → source.Ready s
      → source.unread s ≡ encode_attribute (unknown name id contents) ++ (extra ++ rest)
      → Gets raw source little
          (unknown name id (contents ++ extra))
          rest
          (read_attribute raw little stale s)
  unfolding read_attribute read_attribute_as
  read_attribute_overreads name id contents extra rest s whole not_known short small more ready e =
      let body = encode_string name ++ contents in
      let n = length (id ++ body) in
      let (s1, counted, ready1, left1) =
        read_dynamic_count_prefix raw source little n ((id ++ body) ++ (extra ++ rest)) s ready
          (e ∙ append_assoc (encode_count n) (id ++ body) (extra ++ rest)) small in
      let (s2, coded, ready2, left2) =
        read_code_lem raw source little stale four id whole (body ++ (extra ++ rest)) s1 ready1
          (left1 ∙ append_assoc id body (extra ++ rest)) in
      let (s3, named, ready3, left3) =
        read_string_prefix raw source little name (contents ++ (extra ++ rest)) s2 ready2
          (left2 ∙ append_assoc (encode_string name) contents (extra ++ rest)) short in
      let covers : n ≡ length (contents ++ extra) = omega (
        arith,
        length-append id body,
        length-append (encode_string name) contents,
        length-append contents extra,
        length-encode_string name,
      ) in
      let (s4, gets, ready4, left4) =
        copy_of_count_lem raw source little (contents ++ extra) rest n s3 ready3
          (left3 ∙ sym (append_assoc contents extra rest)) covers in
      (s4, simp (counted, coded, not_known, named, gets), ready4, left4)
