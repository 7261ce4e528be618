-- ===== src/Bento/Node/Tests.antt =====
-- Examples for source/containers/vbento.cpp: a node with an integer and a child node, and an unknown attribute.
use code_vault.Base.{endless, fault, ℕ, ◌≡◌, refl, true, false, List, [], ◌∷◌, ◌++◌, ok, pos, arith}
use code_vault.Streams.Order.{
  in_memory, swap_if_needed, pattern_of, le_bytes, of_memory, of_le_bytes, byte_swap,
}
use code_vault.Streams.Binary.{
  write_unsigned, write_signed, write_dynamic_count, write_string, dynamic_count_length,
}
use code_vault.Streams.Binary.Write.{Appends}
use code_vault.Streams.Binary.RoundTrip.{Gets}
use code_vault.Streams.Tests.{list_raw, list-IsSource, list-IsSink}
use code_vault.Bento.{s32, reader_of, same_text, first_of}
use code_vault.Bento.Value.{write_many, write_value, binary_string_length, data_length}
use code_vault.Bento.Node.{
  known, unknown, Node, node, no_nodes, child, count_nodes, content_size, total_size, total_sizes,
  node_content_size, node_total_sizes, write_code, write_attribute, write_node, write_nodes,
  read_node, read_attribute,
}
use code_vault.Bento.Node.Format.{encode_node, write_node_lem}
use code_vault.Bento.Node.RoundTrip.{read-write_node, depth, depth_nodes}
use code_vault.Bento.Node.Termination.{read_node_enough}
use code_vault.Bento.Node.Unknown.{read_attribute_overreads}

abbrev tree : Node
tree =
    node (b't' ∷ []) (known (b'n' ∷ []) s32 (pos 5) ∷ [])
      (child (node (b'c' ∷ []) [] no_nodes) no_nodes)

abbrev tree_bytes : List ℕ
tree_bytes =
    32 ∷ 0 ∷ 0 ∷ 0 ∷ 1 ∷ 0 ∷ 0 ∷ 0 ∷ 1 ∷ 1 ∷ b't' ∷ 10 ∷ b'v' ∷ b's' ∷ b'3' ∷ b'2' ∷ 1 ∷ b'n' ∷ 0
    ∷ 0 ∷ 0 ∷ 5 ∷ 10 ∷ 0 ∷ 0 ∷ 0 ∷ 0 ∷ 0 ∷ 0 ∷ 0 ∷ 0 ∷ 1 ∷ b'c' ∷ []

abbrev stale : List ℕ
stale = 0 ∷ 0 ∷ 0 ∷ 0 ∷ []

tree_written : write_node list_raw true tree [] ≡ ok tree_bytes
unfolding write_node write_nodes write_attribute write_code write_many write_value node_content_size
    node_total_sizes total_sizes total_size content_size data_length binary_string_length
    count_nodes dynamic_count_length write_dynamic_count write_string write_signed write_unsigned
    in_memory swap_if_needed pattern_of le_bytes of_memory of_le_bytes byte_swap
tree_written = refl

write_node_lem_example : Appends list_raw list-IsSink true (encode_node tree) [] tree_bytes
unfolding count_nodes
write_node_lem_example =
    write_node_lem list_raw list-IsSink true tree [] tree_bytes (omega arith) tt tree_written

read-write_node_example :
    Gets list_raw list-IsSource false tree
      (7 ∷ [])
      (read_node list_raw false stale endless 2 (tree_bytes ++ 7 ∷ []))
unfolding depth depth_nodes count_nodes pattern_of le_bytes
read-write_node_example =
    read-write_node list_raw list-IsSink true list_raw list-IsSource false stale refl tree 2 []
      tree_bytes (tree_bytes ++ 7 ∷ []) (7 ∷ []) (omega arith) (omega arith) (omega arith) tt tt
      refl tree_written

read_node_enough_example :
    read_node list_raw true stale endless 4 (3 ∷ 0 ∷ 0 ∷ [])
    ≡ read_node list_raw true stale fault 9 (3 ∷ 0 ∷ 0 ∷ [])
read_node_enough_example =
    read_node_enough list_raw list-IsSource true stale endless fault 4 9 (3 ∷ 0 ∷ 0 ∷ []) tt
      (omega arith) (omega arith)

-- An attribute of the class "abcd", named n, with one byte, and in front of ten more.
abbrev odd_bytes : List ℕ
odd_bytes = 7 ∷ b'a' ∷ b'b' ∷ b'c' ∷ b'd' ∷ 1 ∷ b'n' ∷ 9 ∷ []

read_attribute_overreads_example :
    Gets list_raw list-IsSource true
      (unknown (b'n' ∷ []) (b'a' ∷ b'b' ∷ b'c' ∷ b'd' ∷ []) (9 ∷ 1 ∷ 2 ∷ 3 ∷ 4 ∷ 5 ∷ 6 ∷ []))
      (7 ∷ 8 ∷ [])
      (read_attribute list_raw true stale (odd_bytes ++ (1 ∷ 2 ∷ 3 ∷ 4 ∷ 5 ∷ 6 ∷ 7 ∷ 8 ∷ [])))
unfolding le_bytes reader_of same_text first_of binary_string_length dynamic_count_length
read_attribute_overreads_example =
    read_attribute_overreads list_raw list-IsSource true stale refl (b'n' ∷ [])
      (b'a' ∷ b'b' ∷ b'c' ∷ b'd' ∷ []) (9 ∷ []) (1 ∷ 2 ∷ 3 ∷ 4 ∷ 5 ∷ 6 ∷ []) (7 ∷ 8 ∷ [])
      (odd_bytes ++ (1 ∷ 2 ∷ 3 ∷ 4 ∷ 5 ∷ 6 ∷ 7 ∷ 8 ∷ [])) refl refl (omega arith) (omega arith) refl
      tt refl
