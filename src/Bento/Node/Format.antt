-- ===== src/Bento/Node/Format.antt =====
-- The Bento format, as source/containers/vbento.cpp writes it: behind each node and each attribute's length
-- stand as many bytes.
use code_vault.Base.{
  ℕ, ◌+◌, ◌≤◌, ◌≡◌, refl, sym, ap, ◌∙◌, Bool, List, [], ◌∷◌, ◌++◌, Result, ok, ◌>>=◌, length, pos,
  arith, append-nil, length-append, take, take_all, min, ◌-◌, ap₂, subst, replicate,
}
use code_vault.Streams.{max_s32}
use code_vault.Streams.Raw.{RawStream, IsSink}
use code_vault.Streams.Order.{pattern_of}
use code_vault.Streams.Order.Laws.{be_bytes, length-be_bytes}
use code_vault.Streams.Binary.{
  write_signed, write_string, write_dynamic_count, dynamic_count_length,
}
use code_vault.Streams.Binary.Write.{
  encode_count, length-encode_count, Appends, Writes, Writes-bind, Writes-nothing, write_signed_lem,
  write_dynamic_count_lem, write_string_lem,
}
use code_vault.Bento.{
  DataType, shape_of, data_type_id, s8, u8, s16, u16, s32, u32, s64, u64, boolean, string,
  character, float, double, duration, instant, size, isize, point, ipoint, point3d, ipoint3d, line,
  iline, rect, irect, polygon, ipolygon, color, binary, s8_array, s16_array, s32_array, s64_array,
  string_array, bool_array, double_array, duration_array, instant_array,
}
use code_vault.Bento.Value.{write_many, write_value}
use code_vault.Bento.Value.Format.{
  encode_many, encode_string, length-encode_string, encode_value, Each, Fits,
}
use code_vault.Bento.Value.Lengths.{length-encode_value}
use code_vault.Bento.Value.Laws.{write_many_lem, write_value_lem, Each-map}
use code_vault.Bento.Node.{
  Attribute, known, unknown, Node, node, Nodes, no_nodes, child, count_nodes, content_size,
  total_size, total_sizes, node_content_size, node_total_sizes, write_code, write_attribute,
  write_node, write_nodes,
}

-- Bytes behind their length.
abbrev pub with_length : List ℕ → List ℕ
with_length ys = encode_count (length ys) ++ ys

abbrev pub attribute_body : Attribute → List ℕ
attribute_body (known name d v) =
    data_type_id d ++ (encode_string name ++ encode_value (shape_of d) v)
attribute_body (unknown name id contents) = id ++ (encode_string name ++ contents)

abbrev pub encode_attribute : Attribute → List ℕ
encode_attribute a = with_length (attribute_body a)

abbrev pub int_bytes : ℕ → List ℕ
int_bytes n = be_bytes 4 (pattern_of 4 (pos n))

abbrev mutual
  pub node_body : Node → List ℕ
  node_body (node name attributes children) =
      int_bytes (length attributes)
      ++ (int_bytes (count_nodes children)
          ++ (encode_string name
              ++ (encode_many encode_attribute attributes ++ encode_nodes children)))

  pub encode_nodes : Nodes → List ℕ
  encode_nodes no_nodes = []
  encode_nodes (child n more) = with_length (node_body n) ++ encode_nodes more

abbrev pub encode_node : Node → List ℕ
encode_node n = with_length (node_body n)

-- Attributes and nodes that C++ can hold, with data types of four characters.
abbrev pub AttributeFits : Attribute → Type 0
AttributeFits (known name d v) = (length name ≤ max_s32) × Fits (shape_of d) v
AttributeFits (unknown name id contents) = (length name ≤ max_s32) × (length id ≡ 4)

abbrev mutual
  pub NodeFits : Node → Type 0
  NodeFits (node name attributes children) =
      (length name ≤ max_s32)
      × (length attributes ≤ max_s32)
      × (count_nodes children ≤ max_s32)
      × Each AttributeFits attributes
      × NodesFit children

  pub NodesFit : Nodes → Type 0
  NodesFit no_nodes = Unit {0}
  NodesFit (child n more) = NodeFits n × NodesFit more

pub length-data_type_id : (d : DataType) → length (data_type_id d) ≡ 4
length-data_type_id s8 = refl
length-data_type_id u8 = refl
length-data_type_id s16 = refl
length-data_type_id u16 = refl
length-data_type_id s32 = refl
length-data_type_id u32 = refl
length-data_type_id s64 = refl
length-data_type_id u64 = refl
length-data_type_id boolean = refl
length-data_type_id string = refl
length-data_type_id character = refl
length-data_type_id float = refl
length-data_type_id double = refl
length-data_type_id duration = refl
length-data_type_id instant = refl
length-data_type_id size = refl
length-data_type_id isize = refl
length-data_type_id point = refl
length-data_type_id ipoint = refl
length-data_type_id point3d = refl
length-data_type_id ipoint3d = refl
length-data_type_id line = refl
length-data_type_id iline = refl
length-data_type_id rect = refl
length-data_type_id irect = refl
length-data_type_id polygon = refl
length-data_type_id ipolygon = refl
length-data_type_id color = refl
length-data_type_id binary = refl
length-data_type_id s8_array = refl
length-data_type_id s16_array = refl
length-data_type_id s32_array = refl
length-data_type_id s64_array = refl
length-data_type_id string_array = refl
length-data_type_id bool_array = refl
length-data_type_id double_array = refl
length-data_type_id duration_array = refl
length-data_type_id instant_array = refl

length-attribute_body :
    (a : Attribute) → AttributeFits a → length (attribute_body a) ≡ content_size a
unfolding content_size
length-attribute_body (known name d v) (short, fits) = omega (
  arith,
  length-append (data_type_id d) (encode_string name ++ encode_value (shape_of d) v),
  length-append (encode_string name) (encode_value (shape_of d) v),
  length-data_type_id d,
  length-encode_string name,
  length-encode_value d v fits,
)
length-attribute_body (unknown name id contents) (short, four) = omega (
  arith,
  length-append id (encode_string name ++ contents),
  length-append (encode_string name) contents,
  length-encode_string name,
)

length-with_length :
    (ys : List ℕ) (k : ℕ) → length ys ≡ k → length (with_length ys) ≡ dynamic_count_length k + k
length-with_length ys k e =
    length-append (encode_count (length ys)) ys
    ∙ omega (arith, length-encode_count (length ys))
    ∙ ap (λ (n : ℕ). dynamic_count_length n + n) e

total_sizes_lem :
    (as' : List Attribute)
    → Each AttributeFits as'
    → length (encode_many encode_attribute as') ≡ total_sizes as'
unfolding total_sizes total_size
total_sizes_lem [] fits = refl
total_sizes_lem (a ∷ as') (here, more) = omega (
  arith,
  length-append (encode_attribute a) (encode_many encode_attribute as'),
  length-with_length (attribute_body a) (content_size a) (length-attribute_body a here),
  total_sizes_lem as' more,
)

mutual
  unfolding node_content_size node_total_sizes

  length-node_body : (n : Node) → NodeFits n → length (node_body n) ≡ node_content_size n
  length-node_body (node name as' children) (short, few, few', fits, more) = omega (
    arith,
    length-append (int_bytes (length as')) (
        int_bytes (count_nodes children)
        ++ (encode_string name ++ (encode_many encode_attribute as' ++ encode_nodes children))),
    length-append (int_bytes (count_nodes children))
        (encode_string name ++ (encode_many encode_attribute as' ++ encode_nodes children)),
    length-append (encode_string name) (encode_many encode_attribute as' ++ encode_nodes children),
    length-append (encode_many encode_attribute as') (encode_nodes children),
    length-be_bytes 4 (pattern_of 4 (pos (length as'))),
    length-be_bytes 4 (pattern_of 4 (pos (count_nodes children))),
    length-encode_string name,
    total_sizes_lem as' fits,
    length-encode_nodes children more,
  )

  length-encode_nodes : (ns : Nodes) → NodesFit ns → length (encode_nodes ns) ≡ node_total_sizes ns
  length-encode_nodes no_nodes fits = refl
  length-encode_nodes (child n more) (here, rest) = omega (
    arith,
    length-append (with_length (node_body n)) (encode_nodes more),
    length-with_length (node_body n) (node_content_size n) (length-node_body n here),
    length-encode_nodes more rest,
  )

module _ {S : Type 0} (raw : RawStream S) (sink : IsSink raw) (little : Bool) where
  -- A length, and what follows it.
  Writes-with_length :
      (ys : List ℕ) (k : ℕ) (rest : S → Result S)
      → length ys ≡ k
      → Writes raw sink little ys rest
      → Writes raw sink little (with_length ys) (λ s. write_dynamic_count raw little k s >>= rest)
  Writes-with_length ys k rest e w s s' ready h =
      Writes-bind raw sink little (encode_count (length ys)) ys
        (write_dynamic_count raw little (length ys)) rest
        (write_dynamic_count_lem raw sink little (length ys)) w s s' ready
        (ap (λ (n : ℕ). write_dynamic_count raw little n s >>= rest) e ∙ h)

  write_code_lem :
      (id : List ℕ) → length id ≡ 4 → Writes raw sink little id (write_code raw little id)
  unfolding write_code
  write_code_lem id four s s' ready h =
      let whole : take (min 4 (length id)) id ≡ id =
        take_all (min 4 (length id)) id (omega arith) in
      let full : 4 - length id ≡ 0 = omega arith in
      let pad = λ (c : ℕ). write_signed raw little 1 (pos c) in
      subst (λ ys. Appends raw sink little ys s s') (append-nil id)
        (Writes-bind raw sink little id [] (raw.put id) (write_many raw little pad [])
          (sink.put_lem id) (write_many_lem raw sink little (λ c. []) pad [] tt) s s' ready
          (ap₂ (λ ys (k : ℕ). raw.put ys s >>= write_many raw little pad (replicate k b' '))
              (sym whole) (sym full)
            ∙ h))

  attribute_lem :
      (id name ys : List ℕ) (k : ℕ) (write : S → Result S)
      → length id ≡ 4
      → length (id ++ (encode_string name ++ ys)) ≡ k
      → Writes raw sink little ys write
      → Writes raw sink little (with_length (id ++ (encode_string name ++ ys))) (λ s.
        write_dynamic_count raw little k s >>= λ s1.
        write_code raw little id s1 >>= λ s2. write_string raw little name s2 >>= write)
  attribute_lem id name ys k write four e w =
      Writes-with_length (id ++ (encode_string name ++ ys)) k
        (λ s1. write_code raw little id s1 >>= λ s2. write_string raw little name s2 >>= write) e
        (Writes-bind raw sink little id (encode_string name ++ ys) (write_code raw little id)
          (λ s2. write_string raw little name s2 >>= write) (write_code_lem id four)
          (Writes-bind raw sink little (encode_string name) ys (write_string raw little name) write
            (write_string_lem raw sink little name) w))

  pub write_attribute_lem :
      (a : Attribute)
      → AttributeFits a
      → Writes raw sink little (encode_attribute a) (write_attribute raw little a)
  unfolding write_attribute
  write_attribute_lem (known name d v) (short, fits) s s' ready h =
      attribute_lem (data_type_id d) name (encode_value (shape_of d) v)
        (content_size (known name d v)) (write_value raw little (shape_of d) v)
        (length-data_type_id d) (length-attribute_body (known name d v) (short, fits))
        (write_value_lem raw sink little (shape_of d) v fits) s s' ready h
  write_attribute_lem (unknown name id contents) (short, four) s s' ready h =
      attribute_lem id name contents (content_size (unknown name id contents)) (raw.put contents)
        four (length-attribute_body (unknown name id contents) (short, four))
        (sink.put_lem contents) s s' ready h

  body_lem :
      (n m : ℕ) (name : List ℕ) (as' : List Attribute) (ys : List ℕ) (write : S → Result S)
      → Each AttributeFits as'
      → Writes raw sink little ys write
      → Writes raw sink little
          (int_bytes n
            ++ (int_bytes m ++ (encode_string name ++ (encode_many encode_attribute as' ++ ys))))
          (λ s1. write_signed raw little 4 (pos n) s1 >>= λ s2.
            write_signed raw little 4 (pos m) s2 >>= λ s3. write_string raw little name s3 >>= λ s4.
            write_many raw little (write_attribute raw little) as' s4 >>= write)
  body_lem n m name as' ys write fits w =
      let attributes : S → Result S =
        λ s4. write_many raw little (write_attribute raw little) as' s4 >>= write in
      let named : S → Result S = λ s3. write_string raw little name s3 >>= attributes in
      let w1 =
        Writes-bind raw sink little (encode_many encode_attribute as') ys
          (write_many raw little (write_attribute raw little) as') write
          (write_many_lem raw sink little encode_attribute (write_attribute raw little) as'
            (Each-map as' write_attribute_lem fits))
          w in
      let w2 =
        Writes-bind raw sink little (encode_string name) (encode_many encode_attribute as' ++ ys)
          (write_string raw little name) attributes (write_string_lem raw sink little name) w1 in
      let w3 =
        Writes-bind raw sink little (int_bytes m)
          (encode_string name ++ (encode_many encode_attribute as' ++ ys))
          (write_signed raw little 4 (pos m)) named (write_signed_lem raw sink little 4 (pos m))
          w2 in
      Writes-bind raw sink little (int_bytes n)
        (int_bytes m ++ (encode_string name ++ (encode_many encode_attribute as' ++ ys)))
        (write_signed raw little 4 (pos n)) (λ s2. write_signed raw little 4 (pos m) s2 >>= named)
        (write_signed_lem raw sink little 4 (pos n)) w3

  mutual
    unfolding write_node write_nodes

    write_node_appends :
        (n : Node) → NodeFits n → Writes raw sink little (encode_node n) (write_node raw little n)
    write_node_appends (node name as' children) (short, few, few', fits, more) =
        Writes-with_length (node_body (node name as' children))
          (node_content_size (node name as' children))
          (λ s1. write_signed raw little 4 (pos (length as')) s1 >>= λ s2.
            write_signed raw little 4 (pos (count_nodes children)) s2 >>= λ s3.
            write_string raw little name s3 >>= λ s4.
            write_many raw little (write_attribute raw little) as' s4
            >>= write_nodes raw little children)
          (length-node_body (node name as' children) (short, few, few', fits, more))
          (body_lem (length as') (count_nodes children) name as' (encode_nodes children)
            (write_nodes raw little children) fits (write_nodes_append children more))

    write_nodes_append :
        (ns : Nodes)
        → NodesFit ns
        → Writes raw sink little (encode_nodes ns) (write_nodes raw little ns)
    write_nodes_append no_nodes fits = Writes-nothing raw sink little
    write_nodes_append (child n more) (here, rest) =
        Writes-bind raw sink little (encode_node n) (encode_nodes more) (write_node raw little n)
          (write_nodes raw little more) (write_node_appends n here) (write_nodes_append more rest)

  -- A writeToStream that returns has appended the format of the tree, known attributes or not: in front of each
  -- node and each attribute stands the number of bytes that it takes up, which calculateContentSize,
  -- getDataLength and their like have computed before anything was written.
  pub write_node_lem :
      (n : Node) (s s' : S)
      → NodeFits n
      → sink.Ready s
      → write_node raw little n s ≡ ok s'
      → Appends raw sink little (encode_node n) s s'
  write_node_lem n s s' fits ready e = write_node_appends n fits s s' ready e
