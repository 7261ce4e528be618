-- ===== src/Bento/Node/Termination.antt =====
-- readFromStream of source/containers/vbento.cpp ends on every stream: each node takes a byte at least.
use code_vault.Base.{
  ℕ, zero, suc, ◌-◌, ◌≤◌, ◌<◌, ◌≡◌, refl, ap, ◌∙◌, Bool, List, ◌++◌, drop, Result, Failure, ok, err,
  ◌>>=◌, length, ℤ, arith,
}
use code_vault.Streams.Raw.{RawStream, IsSource}
use code_vault.Streams.Binary.{read_signed, read_string, read_unsigned, read_dynamic_count}
use code_vault.Streams.Binary.Shrink.{
  Shrinks, Shrinks-ok, Shrinks-bind, Shrinks-weaken, Shrinks-err, get-Shrinks,
  read_unsigned-Shrinks, read_signed-Shrinks, map-Shrinks, read_dynamic_count-Shrinks,
  read_string-Shrinks,
}
use code_vault.Bento.{
  character, shape_of, Reader, reads, reads_legacy_char, reads_unknown, reader_of,
}
use code_vault.Bento.Value.{read_many, read_value, rounds, copy_of_count}
use code_vault.Bento.Value.Shrink.{read_many-Shrinks, read_value-Shrinks, copy_of_count-Shrinks}
use code_vault.Bento.Node.{
  Attribute, known, unknown, Node, node, Nodes, no_nodes, child, read_code, read_attribute_as,
  read_attribute, read_nodes, read_node,
}

module _ {S : Type 0} (raw : RawStream S) (source : IsSource raw) where
  -- Two reads agree where less than `b` bytes are left.
  abbrev Agree : {A : Type 0} → ℕ → (S → Result (A × S)) → (S → Result (A × S)) → Type 0
  Agree b f g = (s : S) → source.Ready s → length (source.unread s) < b → f s ≡ g s

  bind-Agree :
      {A B : Type 0} (m : Result (A × S)) (f g : A → S → Result (B × S))
      → ((a : A) (t : S) → m ≡ ok (a, t) → f a t ≡ g a t)
      → (m >>= λ (a, t). f a t) ≡ (m >>= λ (a, t). g a t)
  bind-Agree (ok (a, t)) f g same = same a t refl
  bind-Agree (err e) f g same = refl

  Agree-bind :
      {A B : Type 0} (b k : ℕ) (read : S → Result (A × S)) (f g : A → S → Result (B × S))
      → Shrinks raw source k read
      → ((a : A) → Agree (b - k) (f a) (g a))
      → Agree b (λ s. read s >>= λ (a, t). f a t) (λ s. read s >>= λ (a, t). g a t)
  Agree-bind b k read f g shrinks same s ready less =
      bind-Agree (read s) f g
        λ a t e. let (ready', fewer) = shrinks s t a ready e in same a t ready' (omega arith)

  Agree-behind :
      {A B : Type 0} (b : ℕ) (read : S → Result (A × S)) (f g : A → S → Result (B × S))
      → Shrinks raw source 0 read
      → ((a : A) → Agree b (f a) (g a))
      → Agree b (λ s. read s >>= λ (a, t). f a t) (λ s. read s >>= λ (a, t). g a t)
  Agree-behind b read f g shrinks same =
      Agree-bind b 0 read f g shrinks λ a t ready less. same a t ready (omega arith)

  module _ (little : Bool) (stale : List ℕ) where
    named :
        {A : Type 0} (read : S → Result (A × S)) (f : List ℕ → A → Attribute)
        → Shrinks raw source 0 read
        → Shrinks raw source 0
            (λ s. read_string raw little s >>= λ (name, s'). read s' >>= λ (v, t). ok (f name v, t))
    named read f shrinks s s' a ready e =
        let (ready', less) =
          Shrinks-bind raw source 1 0 (read_string raw little)
            (λ name s'. read s' >>= λ (v, t). ok (f name v, t))
            (read_string-Shrinks raw source little)
            (λ name. map-Shrinks raw source little 0 read (f name) shrinks) s s' a ready e in
        (ready', omega arith)

    read_attribute_as-Shrinks :
        (count : ℤ) (id : List ℕ) (r : Reader)
        → Shrinks raw source 0 (read_attribute_as raw little stale count id r)
    unfolding read_attribute_as
    read_attribute_as-Shrinks count id (reads d) =
        named (read_value raw little (shape_of d)) (λ name v. known name d v)
          (read_value-Shrinks raw source little (shape_of d))
    read_attribute_as-Shrinks count id reads_legacy_char =
        named (read_unsigned raw little 1) (λ name c. known name character c)
          (Shrinks-weaken raw source 1 0 (read_unsigned raw little 1) (omega arith)
            (read_unsigned-Shrinks raw source little 1))
    read_attribute_as-Shrinks count id reads_unknown =
        named (copy_of_count raw little count) (λ name ys. unknown name id ys)
          (copy_of_count-Shrinks raw source little count)

    read_code-Shrinks : Shrinks raw source 0 (read_code raw little stale)
    unfolding read_code
    read_code-Shrinks =
        map-Shrinks raw source little 0 (raw.get 4) (λ code. code ++ drop (length code) stale)
          (get-Shrinks raw source 4)

    read_attribute-Shrinks : Shrinks raw source 0 (read_attribute raw little stale)
    unfolding read_attribute
    read_attribute-Shrinks s s' a ready e =
        let (ready', less) =
          Shrinks-bind raw source 1 0 (read_dynamic_count raw little)
            (λ count s'. read_code raw little stale s' >>= λ (id, t).
              read_attribute_as raw little stale count id (reader_of id) t)
            (read_dynamic_count-Shrinks raw source little)
            (λ count.
              Shrinks-bind raw source 0 0 (read_code raw little stale)
                (λ id t. read_attribute_as raw little stale count id (reader_of id) t)
                read_code-Shrinks (λ id. read_attribute_as-Shrinks count id (reader_of id)))
            s s' a ready e in
        (ready', omega arith)

    -- The loop over the child nodes.
    read_nodes-Shrinks :
        (read : S → Result (Node × S)) (n : ℕ)
        → Shrinks raw source 0 read
        → Shrinks raw source 0 (read_nodes raw little stale read n)
    unfolding read_nodes
    read_nodes-Shrinks read zero shrinks = Shrinks-ok raw source no_nodes
    read_nodes-Shrinks read (suc n) shrinks =
        Shrinks-bind raw source 0 0 read
          (λ first s'.
            read_nodes raw little stale read n s' >>= λ (more, t). ok (child first more, t))
          shrinks
          λ first.
            map-Shrinks raw source little 0 (read_nodes raw little stale read n) (child first)
              (read_nodes-Shrinks read n shrinks)

    read_nodes-Agree :
        (b : ℕ) (read read' : S → Result (Node × S)) (n : ℕ)
        → Shrinks raw source 0 read
        → Agree b read read'
        → Agree b (read_nodes raw little stale read n) (read_nodes raw little stale read' n)
    unfolding read_nodes
    read_nodes-Agree b read read' zero shrinks same s ready less = refl
    read_nodes-Agree b read read' (suc n) shrinks same s ready less =
        let rest : (S → Result (Node × S)) → Node → S → Result (Nodes × S) = λ q first s'.
          read_nodes raw little stale q n s' >>= λ (more, t). ok (child first more, t) in
        Agree-behind b read (rest read) (rest read') shrinks
          (λ first t ready' less'.
            ap (λ r. r >>= λ (more, u). ok (child first more, u))
              (read_nodes-Agree b read read' n shrinks same t ready' less'))
          s ready less
        ∙ ap (λ r. r >>= λ (first, s'). rest read' first s') (same s ready less)

    -- What readFromStream reads behind the length.
    abbrev body : (S → Result (Node × S)) → S → Result (Node × S)
    body read s1 = read_signed raw little 4 s1 >>= λ (attributes, s2).
        read_signed raw little 4 s2 >>= λ (children, s3).
        read_string raw little s3 >>= λ (name, s4).
        read_many raw little (read_attribute raw little stale) (rounds attributes) s4
        >>= λ (as', s5). read_nodes raw little stale read (rounds children) s5 >>= λ (nodes, s6).
            ok (node name as' nodes, s6)

    int-Shrinks : Shrinks raw source 0 (read_signed raw little 4)
    int-Shrinks =
        Shrinks-weaken raw source 4 0 (read_signed raw little 4) (omega arith)
          (read_signed-Shrinks raw source little 4)

    string-Shrinks : Shrinks raw source 0 (read_string raw little)
    string-Shrinks =
        Shrinks-weaken raw source 1 0 (read_string raw little) (omega arith)
          (read_string-Shrinks raw source little)

    attributes-Shrinks :
        (n : ℕ) → Shrinks raw source 0 (read_many raw little (read_attribute raw little stale) n)
    attributes-Shrinks n =
        read_many-Shrinks raw source little (read_attribute raw little stale) n
          read_attribute-Shrinks

    body-Shrinks :
        (read : S → Result (Node × S))
        → Shrinks raw source 0 read
        → Shrinks raw source 0 (body read)
    body-Shrinks read shrinks =
        Shrinks-bind raw source 0 0 (read_signed raw little 4) _ int-Shrinks λ attributes.
          Shrinks-bind raw source 0 0 (read_signed raw little 4) _ int-Shrinks λ children.
            Shrinks-bind raw source 0 0 (read_string raw little) _ string-Shrinks λ name.
              Shrinks-bind raw source 0 0
                (read_many raw little (read_attribute raw little stale) (rounds attributes)) _
                (attributes-Shrinks (rounds attributes))
                λ as'.
                  map-Shrinks raw source little 0
                    (read_nodes raw little stale read (rounds children)) (node name as')
                    (read_nodes-Shrinks read (rounds children) shrinks)

    body-Agree :
        (b : ℕ) (read read' : S → Result (Node × S))
        → Shrinks raw source 0 read
        → Agree b read read'
        → Agree b (body read) (body read')
    body-Agree b read read' shrinks same =
        Agree-behind b (read_signed raw little 4) _ _ int-Shrinks λ attributes.
          Agree-behind b (read_signed raw little 4) _ _ int-Shrinks λ children.
            Agree-behind b (read_string raw little) _ _ string-Shrinks λ name.
              Agree-behind b
                (read_many raw little (read_attribute raw little stale) (rounds attributes)) _ _
                (attributes-Shrinks (rounds attributes))
                λ as' t ready less.
                  ap (λ r. r >>= λ (nodes, s6). ok (node name as' nodes, s6))
                    (read_nodes-Agree b read read' (rounds children) shrinks same t ready less)

    read_node-Shrinks :
        (stopped : Failure) (fuel : ℕ)
        → Shrinks raw source 0 (read_node raw little stale stopped fuel)
    unfolding read_node
    read_node-Shrinks stopped zero = Shrinks-err raw source 0 stopped
    read_node-Shrinks stopped (suc fuel) =
        Shrinks-weaken raw source 1 0 (read_node raw little stale stopped (suc fuel)) (omega arith)
          (Shrinks-bind raw source 1 0 (read_dynamic_count raw little)
            (λ count. body (read_node raw little stale stopped fuel))
            (read_dynamic_count-Shrinks raw source little)
            (λ count.
              body-Shrinks (read_node raw little stale stopped fuel)
                (read_node-Shrinks stopped fuel)))

    fuels-Agree :
        (stopped stopped' : Failure) (b fuel fuel' : ℕ)
        → b ≤ fuel
        → b ≤ fuel'
        → Agree b
            (read_node raw little stale stopped fuel)
            (read_node raw little stale stopped' fuel')
    unfolding read_node
    fuels-Agree stopped stopped' b zero fuel' h h' s ready less = absurd (omega arith)
    fuels-Agree stopped stopped' b (suc fuel) zero h h' s ready less = absurd (omega arith)
    fuels-Agree stopped stopped' b (suc fuel) (suc fuel') h h' s ready less =
        Agree-bind b 1 (read_dynamic_count raw little)
          (λ count. body (read_node raw little stale stopped fuel))
          (λ count. body (read_node raw little stale stopped' fuel'))
          (read_dynamic_count-Shrinks raw source little)
          (λ count.
            body-Agree (b - 1) (read_node raw little stale stopped fuel)
              (read_node raw little stale stopped' fuel') (read_node-Shrinks stopped fuel)
              (fuels-Agree stopped stopped' (b - 1) fuel fuel' (omega arith) (omega arith)))
          s ready less

    -- readFromStream ends on a stream of bytes whose reads return what there is, whatever bytes it carries, also
    -- where the counts in it are wrong: the recursion does not go deeper than there are bytes to read. With more
    -- fuel than that the fuel does not run out, since the result, or the exception, is the same whatever stands
    -- for having run out, and the same for any two such amounts of fuel. The memory that the code takes by the
    -- counts is taken to be there.
    pub read_node_enough :
        (stopped stopped' : Failure) (fuel fuel' : ℕ) (s : S)
        → source.Ready s
        → length (source.unread s) < fuel
        → length (source.unread s) < fuel'
        → read_node raw little stale stopped fuel s ≡ read_node raw little stale stopped' fuel' s
    read_node_enough stopped stopped' fuel fuel' s ready h h' =
        fuels-Agree stopped stopped' (suc (length (source.unread s))) fuel fuel' (omega arith)
          (omega arith) s ready (omega arith)
