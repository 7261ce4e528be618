-- ===== src/Bento/Node.antt =====
-- source/containers/vbento.cpp: attributes and nodes on a binary stream.
pub mod Format
pub mod RoundTrip
pub mod Termination
pub mod Unknown
mod Tests
use code_vault.Base.{
  ℕ, zero, suc, ◌+◌, ◌-◌, Bool, List, [], ◌∷◌, ◌++◌, Result, Failure, ok, err, ◌>>=◌, length, take,
  drop, replicate, pos, negsuc, ℤ, min,
}
use code_vault.Streams.Raw.{RawStream}
use code_vault.Streams.Binary.{
  read_signed, read_unsigned, read_string, read_dynamic_count, write_signed, write_string,
  write_dynamic_count, dynamic_count_length,
}
use code_vault.Bento.{
  Payload, DataType, character, shape_of, data_type_id, Reader, reads, reads_legacy_char,
  reads_unknown, reader_of,
}
use code_vault.Bento.Value.{
  write_many, read_many, write_value, read_value, rounds, copy_of_count, binary_string_length,
  data_length,
}

-- VBentoUnknownValue keeps the data type that it was read with.
pub data Attribute : Type 0 where
  known : (name : List ℕ) (d : DataType) → Payload (shape_of d) → Attribute
  unknown : (name data_type contents : List ℕ) → Attribute

-- VBentoNode: its name, its attributes and its child nodes.
mutual
  pub data Node : Type 0 where
    node : (name : List ℕ) → List Attribute → Nodes → Node

  pub data Nodes : Type 0 where
    no_nodes : Nodes
    child : Node → Nodes → Nodes

pub count_nodes : Nodes → ℕ
count_nodes no_nodes = 0
count_nodes (child n more) = suc (count_nodes more)

-- VBentoAttribute::calculateContentSize and calculateTotalSize.
pub content_size : Attribute → ℕ
content_size (known name d v) = 4 + binary_string_length name + data_length d v
content_size (unknown name data_type contents) = 4 + binary_string_length name + length contents

pub total_size : Attribute → ℕ
unfolding content_size
total_size a = dynamic_count_length (content_size a) + content_size a

pub total_sizes : List Attribute → ℕ
unfolding total_size
total_sizes [] = 0
total_sizes (a ∷ more) = total_size a + total_sizes more

-- VBentoNode::_calculateContentSize and _calculateTotalSize.
mutual
  unfolding total_sizes

  pub node_content_size : Node → ℕ
  node_content_size (node name attributes children) =
      8 + binary_string_length name + total_sizes attributes + node_total_sizes children

  pub node_total_sizes : Nodes → ℕ
  node_total_sizes no_nodes = 0
  node_total_sizes (child n more) =
      dynamic_count_length (node_content_size n) + node_content_size n + node_total_sizes more

module _ {S : Type 0} (raw : RawStream S) (little : Bool) where
  -- _writeFourCharCodeToStream, which pads a shorter code with spaces.
  pub write_code : List ℕ → S → Result S
  write_code code s =
      raw.put (take (min 4 (length code)) code) s
      >>= write_many raw little (λ c. write_signed raw little 1 (pos c))
          (replicate (4 - length code) b' ')

  -- VBentoAttribute::writeToStream. An unknown value goes to the stream as streamCopy copies it.
  pub write_attribute : Attribute → S → Result S
  unfolding write_code
  write_attribute (known name d v) s = do
    s1 ← write_dynamic_count raw little (content_size (known name d v)) s
    s2 ← write_code (data_type_id d) s1
    s3 ← write_string raw little name s2
    write_value raw little (shape_of d) v s3
  write_attribute (unknown name data_type contents) s = do
    s1 ← write_dynamic_count raw little (content_size (unknown name data_type contents)) s
    s2 ← write_code data_type s1
    s3 ← write_string raw little name s2
    raw.put contents s3

  -- VBentoNode::writeToStream.
  mutual
    unfolding write_attribute

    pub write_node : Node → S → Result S
    write_node (node name attributes children) s = do
      s1 ← write_dynamic_count raw little (node_content_size (node name attributes children)) s
      s2 ← write_signed raw little 4 (pos (length attributes)) s1
      s3 ← write_signed raw little 4 (pos (count_nodes children)) s2
      s4 ← write_string raw little name s3
      s5 ← write_many raw little write_attribute attributes s4
      write_nodes children s5

    pub write_nodes : Nodes → S → Result S
    write_nodes no_nodes s = ok s
    write_nodes (child n more) s = write_node n s >>= write_nodes more

module _ {S : Type 0} (raw : RawStream S) (little : Bool) (stale : List ℕ) where
  -- _readFourCharCodeFromStream. Where fewer than four bytes come, the rest is what the string held before.
  pub read_code : S → Result (List ℕ × S)
  read_code s = do (code, s') ← raw.get 4 s; ok (code ++ drop (length code) stale, s')

  -- VBentoAttribute::newObjectFromStream, behind the length and the data type: a byte of a legacy char is
  -- the code point of the same value, and an unknown value takes as many bytes as the length says.
  read_attribute_as : ℤ → List ℕ → Reader → S → Result (Attribute × S)
  read_attribute_as count id (reads d) s = do
    (name, s') ← read_string raw little s
    (v, t) ← read_value raw little (shape_of d) s'
    ok (known name d v, t)
  read_attribute_as count id reads_legacy_char s = do
    (name, s') ← read_string raw little s
    (c, t) ← read_unsigned raw little 1 s'
    ok (known name character c, t)
  read_attribute_as count id reads_unknown s = do
    (name, s') ← read_string raw little s
    (contents, t) ← copy_of_count raw little count s'
    ok (unknown name id contents, t)

  pub read_attribute : S → Result (Attribute × S)
  unfolding read_code read_attribute_as
  read_attribute s = do
    (count, s') ← read_dynamic_count raw little s
    (id, t) ← read_code s'
    read_attribute_as count id (reader_of id) t

  -- The loop over the child nodes.
  read_nodes : (S → Result (Node × S)) → ℕ → S → Result (Nodes × S)
  read_nodes read zero s = ok (no_nodes, s)
  read_nodes read (suc n) s = do
    (first, s') ← read s
    (more, t) ← read_nodes read n s'
    ok (child first more, t)

  -- VBentoNode::readFromStream, on fuel for the depth of the tree; `stopped` is the result where the fuel has
  -- run out.
  pub read_node : (stopped : Failure) (fuel : ℕ) → S → Result (Node × S)
  unfolding read_attribute read_nodes
  read_node stopped zero s = err stopped
  read_node stopped (suc fuel) s = do
    (count, s1) ← read_dynamic_count raw little s
    (attributes, s2) ← read_signed raw little 4 s1
    (children, s3) ← read_signed raw little 4 s2
    (name, s4) ← read_string raw little s3
    (as', s5) ← read_many raw little read_attribute (rounds attributes) s4
    (nodes, s6) ← read_nodes (read_node stopped fuel) (rounds children) s5
    ok (node name as' nodes, s6)
