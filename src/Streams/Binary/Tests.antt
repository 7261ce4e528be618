-- ===== src/Streams/Binary/Tests.antt =====
-- Examples for the formats of source/streams/vbinaryiostream.cpp, on a stream that is a list of bytes.
use code_vault.Base.{refl, true, false, [], ◌∷◌, arith}
use code_vault.Streams.Order.{
  in_memory, of_memory, swap_if_needed, le_bytes, of_le_bytes, byte_swap,
}
use code_vault.Streams.Binary.{read_string, write_unsigned, write_dynamic_count, write_string}
use code_vault.Streams.Binary.RoundTrip.{Gets, read-write_string}
use code_vault.Streams.Tests.{list_raw, list-IsSource, list-IsSink}

read-write_string_example :
    Gets list_raw list-IsSource true
      (104 ∷ 105 ∷ [])
      (7 ∷ [])
      (read_string list_raw true (2 ∷ 104 ∷ 105 ∷ 7 ∷ []))
unfolding write_string write_dynamic_count write_unsigned in_memory swap_if_needed le_bytes
    of_le_bytes of_memory byte_swap
read-write_string_example =
    read-write_string list_raw list-IsSink false list_raw list-IsSource true [] (2 ∷ 104 ∷ 105 ∷ [])
      (2 ∷ 104 ∷ 105 ∷ 7 ∷ []) (7 ∷ []) tt tt refl (104 ∷ 105 ∷ []) (omega arith) refl
