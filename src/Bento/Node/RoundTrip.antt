-- ===== src/Bento/Node/RoundTrip.antt =====
-- A tree that writeToStream of source/containers/vbento.cpp wrote, as readFromStream takes it.
use code_vault.Base.{
  endless, ℕ, zero, suc, ◌+◌, ◌^◌, ◌≤◌, ◌<◌, ◌≡◌, refl, sym, ap, ◌∙◌, Bool, List, [], ◌∷◌, ◌++◌,
  Result, ok, ◌>>=◌, length, pos, arith, max, append-nil, append_assoc, take, take-append, drop,
  drop-append, drop_past, ℤ,
}
use code_vault.Streams.{max_s32}
use code_vault.Streams.Raw.{RawStream, IsSink, IsSource}
use code_vault.Streams.Binary.{read_dynamic_count}
use code_vault.Streams.Binary.Write.{encode_count}
use code_vault.Streams.Binary.RoundTrip.{
  Gets, arrives, read_signed_prefix, read_dynamic_count_prefix, read_string_prefix,
}
use code_vault.Bento.{Payload, DataType, shape_of, data_type_id, reads}
use code_vault.Bento.Types.{reader_of-data_type_id}
use code_vault.Bento.Value.Format.{encode_many, encode_string, encode_value, Each, Fits}
use code_vault.Bento.Value.Laws.{Takes, read_many_lem, read_value_lem}
use code_vault.Bento.Node.{
  Attribute, known, unknown, Node, node, Nodes, no_nodes, child, count_nodes, read_code,
  read_attribute_as, read_attribute, read_nodes, read_node, write_node,
}
use code_vault.Bento.Node.Format.{
  with_length, attribute_body, encode_attribute, int_bytes, node_body, encode_node, encode_nodes,
  AttributeFits, NodeFits, NodesFit, write_node_lem, length-data_type_id,
}

-- An attribute of a class that the source knows, short enough for its length to fit.
abbrev pub IsKnown : Attribute → Type 0
IsKnown (known name d v) =
    length (attribute_body (known name d v)) + length (attribute_body (known name d v)) < 256 ^ 8
IsKnown (unknown name id contents) = ⊥

-- Every attribute in a tree is one.
abbrev mutual
  pub AllKnown : Node → Type 0
  AllKnown (node name attributes children) =
      (length (node_body (node name attributes children))
          + length (node_body (node name attributes children))
        < 256 ^ 8)
      × Each IsKnown attributes
      × EachKnown children

  pub EachKnown : Nodes → Type 0
  EachKnown no_nodes = Unit {0}
  EachKnown (child n more) = AllKnown n × EachKnown more

-- The levels of a tree.
unfoldable mutual
  pub depth : Node → ℕ
  depth (node name attributes children) = suc (depth_nodes children)

  pub depth_nodes : Nodes → ℕ
  depth_nodes no_nodes = 0
  depth_nodes (child n more) = max (depth n) (depth_nodes more)

module _ {S : Type 0} (raw : RawStream S) (source : IsSource raw) (little : Bool) (stale : List ℕ)
    (four : length stale ≡ 4) where
  Takes-with_length :
      {A : Type 0} (ys : List ℕ) (a : A) (read : S → Result (A × S))
      → length ys + length ys < 256 ^ 8
      → Takes raw source little ys a read
      → Takes raw source little
          (with_length ys)
          a
          (λ s. read_dynamic_count raw little s >>= λ (count, s'). read s')
  Takes-with_length ys a read short takes rest s ready e =
      let (t, reads', ready', left) =
        read_dynamic_count_prefix raw source little (length ys) (ys ++ rest) s ready
          (e ∙ append_assoc (encode_count (length ys)) ys rest) short in
      let (u, reads'', ready'', left') = takes rest t ready' left in
      (u, simp (reads', reads''), ready'', left')

  pub read_code_lem :
      (id : List ℕ) → length id ≡ 4 → Takes raw source little id id (read_code raw little stale)
  unfolding read_code
  read_code_lem id whole rest s ready e =
      let (t, gets, ready', left) = source.get_lem 4 s ready in
      let found : take 4 (source.unread s) ≡ id =
        ap (take 4) e ∙ take-append id rest 4 (sym whole) in
      let none_left : drop (length id) stale ≡ [] = drop_past (length id) stale (omega arith) in
      (
        t,
        simp gets (simp found (simp none_left (ap (λ ys. ok (ys, t)) (append-nil id)))),
        ready',
        left ∙ ap (drop 4) e ∙ drop-append id rest 4 (sym whole),
      )

  -- What newObjectFromStream reads behind the length and the data type.
  read_attribute_as_lem :
      (count : ℤ) (name id : List ℕ) (d : DataType) (v : Payload (shape_of d))
      → length name ≤ max_s32
      → Fits (shape_of d) v
      → Takes raw source little
          (encode_string name ++ encode_value (shape_of d) v)
          (known name d v)
          (read_attribute_as raw little stale count id (reads d))
  unfolding read_attribute_as
  read_attribute_as_lem count name id d v short fits rest s ready e =
      let (t, named, ready', left) =
        read_string_prefix raw source little name (encode_value (shape_of d) v ++ rest) s ready
          (e ∙ append_assoc (encode_string name) (encode_value (shape_of d) v) rest) short in
      let (u, valued, ready'', left') =
        read_value_lem raw source little (shape_of d) v fits rest t ready' left in
      (u, simp (named, valued), ready'', left')

  read_attribute_lem :
      (a : Attribute)
      → IsKnown a
      → AttributeFits a
      → Takes raw source little (encode_attribute a) a (read_attribute raw little stale)
  unfolding read_attribute
  read_attribute_lem (unknown name id contents) small fits rest s ready e = absurd small
  read_attribute_lem (known name d v) small (short, fits) rest s ready e =
      let id = data_type_id d in
      let body = encode_string name ++ encode_value (shape_of d) v in
      let (s1, counted, ready1, left1) =
        read_dynamic_count_prefix raw source little (length (id ++ body)) ((id ++ body) ++ rest) s
          ready (e ∙ append_assoc (encode_count (length (id ++ body))) (id ++ body) rest) small in
      let (s2, coded, ready2, left2) =
        read_code_lem id (length-data_type_id d) (body ++ rest) s1 ready1
          (left1 ∙ append_assoc id body rest) in
      let (s3, made, ready3, left3) =
        read_attribute_as_lem (pos (length (id ++ body))) name id d v short fits rest s2 ready2
          left2 in
      (s3, simp (counted, coded, reader_of-data_type_id d, made), ready3, left3)

  attributes_taken :
      (as' : List Attribute)
      → Each IsKnown as'
      → Each AttributeFits as'
      → Each
          (λ a. Takes raw source little (encode_attribute a) a (read_attribute raw little stale))
          as'
  attributes_taken [] all fits = tt
  attributes_taken (a ∷ as') (here, all) (fit, fits) =
      (read_attribute_lem a here fit, attributes_taken as' all fits)

  -- What readFromStream reads behind the length, where the child nodes are read as they should be.
  read_body_lem :
      (fuel : ℕ) (name : List ℕ) (as' : List Attribute) (ns : Nodes)
      → length name ≤ max_s32
      → length as' ≤ max_s32
      → count_nodes ns ≤ max_s32
      → Each
          (λ a. Takes raw source little (encode_attribute a) a (read_attribute raw little stale))
          as'
      → Takes raw source little
          (encode_nodes ns)
          ns
          (read_nodes raw little stale (read_node raw little stale endless fuel) (count_nodes ns))
      → (count : ℕ) (rest : List ℕ) (s s1 : S)
      → read_dynamic_count raw little s ≡ ok (pos count, s1)
      → source.Ready s1
      → source.unread s1 ≡ node_body (node name as' ns) ++ rest
      → Gets raw source little
          (node name as' ns)
          rest
          (read_node raw little stale endless (suc fuel) s)
  unfolding read_node
  read_body_lem fuel name as' ns short few few' each nodes count rest s s1 counted ready1 e =
      let b4 = encode_many encode_attribute as' ++ encode_nodes ns in
      let b3 = encode_string name ++ b4 in
      let b2 = int_bytes (count_nodes ns) ++ b3 in
      let (s2, r2, ready2, left2) =
        read_signed_prefix raw source little 4 (pos (length as')) (b2 ++ rest) s1 ready1
          (e ∙ append_assoc (int_bytes (length as')) b2 rest) (omega arith) (omega arith) in
      let (s3, r3, ready3, left3) =
        read_signed_prefix raw source little 4 (pos (count_nodes ns)) (b3 ++ rest) s2 ready2
          (left2 ∙ append_assoc (int_bytes (count_nodes ns)) b3 rest) (omega arith) (omega arith) in
      let (s4, r4, ready4, left4) =
        read_string_prefix raw source little name (b4 ++ rest) s3 ready3
          (left3 ∙ append_assoc (encode_string name) b4 rest) short in
      let (s5, r5, ready5, left5) =
        read_many_lem raw source little encode_attribute (read_attribute raw little stale) as' each
          (encode_nodes ns ++ rest) s4 ready4
          (left4 ∙ append_assoc (encode_many encode_attribute as') (encode_nodes ns) rest) in
      let (s6, r6, ready6, left6) = nodes rest s5 ready5 left5 in
      (s6, simp (counted, r2, r3, r4, r5, r6), ready6, left6)

  mutual
    unfolding depth depth_nodes read_nodes count_nodes

    node_taken :
        (n : Node) (fuel : ℕ)
        → depth n ≤ fuel
        → AllKnown n
        → NodeFits n
        → Takes raw source little (encode_node n) n (read_node raw little stale endless fuel)
    node_taken (node name as' ns) zero deep all fits rest s ready e = absurd (omega arith)
    node_taken (node name as' ns) (suc fuel) deep (small, all, every) (short, few, few', fits, more)
          rest s ready e =
        let body = node_body (node name as' ns) in
        let (s1, counted, ready1, left1) =
          read_dynamic_count_prefix raw source little (length body) (body ++ rest) s ready
            (e ∙ append_assoc (encode_count (length body)) body rest) small in
        read_body_lem fuel name as' ns short few few' (attributes_taken as' all fits)
          (nodes_taken ns fuel (omega arith) every more) (length body) rest s s1 counted ready1
          left1

    nodes_taken :
        (ns : Nodes) (fuel : ℕ)
        → depth_nodes ns ≤ fuel
        → EachKnown ns
        → NodesFit ns
        → Takes raw source little
            (encode_nodes ns)
            ns
            (read_nodes raw little stale (read_node raw little stale endless fuel) (count_nodes ns))
    nodes_taken no_nodes fuel deep all fits rest s ready e = (s, refl, ready, e)
    nodes_taken (child n more) fuel deep (here, every) (fits, others) rest s ready e =
        let (t, r1, ready', left) =
          node_taken n fuel (omega arith) here fits (encode_nodes more ++ rest) s ready
            (e ∙ append_assoc (encode_node n) (encode_nodes more) rest) in
        let (u, r2, ready'', left') =
          nodes_taken more fuel (omega arith) every others rest t ready' left in
        (u, simp (r1, r2), ready'', left')

-- A writer and a reader, on streams of their own and machines of any byte order.
module _ {S T : Type 0} (out : RawStream S) (sink : IsSink out) (here : Bool) (into : RawStream T)
    (source : IsSource into) (there : Bool) (stale : List ℕ) (four : length stale ≡ 4) where
  -- When writeToStream has written a tree of nodes whose attributes are of the known classes, with values that
  -- C++ can hold, and a stream carries what was written, then readFromStream on that stream, on a machine of the
  -- same or the other byte order, returns the tree, and leaves what follows to be read. As many levels as the
  -- tree has are fuel enough.
  pub read-write_node :
      (n : Node) (fuel : ℕ) (s s' : S) (t : T) (rest : List ℕ)
      → depth n ≤ fuel
      → AllKnown n
      → NodeFits n
      → sink.Ready s
      → source.Ready t
      → source.unread t ≡ drop (length (sink.written s)) (sink.written s') ++ rest
      → write_node out here n s ≡ ok s'
      → Gets into source there n rest (read_node into there stale endless fuel t)
  read-write_node n fuel s s' t rest deep all fits ready ready' carried e =
      node_taken into source there stale four n fuel deep all fits rest t ready' (
        arrives out sink here into source there s s' t rest ready ready' carried (encode_node n)
          (write_node_lem out sink here n s s' fits ready e).1)
