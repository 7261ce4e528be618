-- ===== src/Streams/Copier/Loop.antt =====
-- source/streams/vstreamcopier.cpp: the loop over copyChunk moves all the bytes, chunk by chunk.
use code_vault.Base.{
  ℕ, zero, suc, ◌+◌, ◌≤◌, ◌<◌, min, ◌≡◌, refl, ap, ap₂, ◌∙◌, Bool, some, List, [], ◌++◌,
  append_assoc, Result, ok, err, endless, ◌>>=◌, length, take, drop, ◌==◌, if◌then◌else◌, arith,
  inl, inr, Bool-cases, ==_iff, length-take, length-drop, take_all, drop_past, take-append-drop,
}
use code_vault.Heap.{Heap}
use code_vault.Streams.{Platform, new_new_buffer}
use code_vault.Streams.Raw.{RawStream, IsSource, IsSink}
use code_vault.Streams.Transfer.{copy_streams}
use code_vault.Streams.Transfer.Loop.{copy_streams_lem}
use code_vault.Streams.Copier.{Copier, new_copier, copy_between, copy_chunk, copy_all}

module _ {S T : Type 0} (p : Platform) (raw_source : RawStream S) (source : IsSource raw_source)
    (raw_sink : RawStream T) (sink : IsSink raw_sink)
    (accepts : (ys : List ℕ) (t : T) → sink.Ready t → (t' : T) × (raw_sink.put ys t ≡ ok t'))
    (temp : ℕ) (width : 0 < temp) (h : Heap) where
  abbrev pub copier : ℕ → ℕ → S → T → Copier S T
  copier chunk done s t = record {
    chunk_size = chunk;
    from = some s;
    to = some t;
    num_bytes_copied = done;
  }

  -- A chunk: as streamCopy leaves the streams, and whether it was a whole one.
  copy_chunk_lem :
      (h' : Heap) (chunk done : ℕ) (s : S) (t : T)
      → new_new_buffer p (min chunk temp) h ≡ ok h'
      → source.Ready s
      → sink.Ready t
      → (s' : S) × (t' : T) × (copy_chunk p raw_source raw_sink temp h (copier chunk done s t)
          ≡ ok (
            length (take chunk (source.unread s)) == chunk,
            copier chunk (done + length (take chunk (source.unread s))) s' t',
          ))
        × source.Ready s'
        × sink.Ready t'
        × (source.unread s' ≡ drop chunk (source.unread s))
        × (sink.written t' ≡ sink.written t ++ take chunk (source.unread s))
  unfolding copy_chunk copy_between
  copy_chunk_lem h' chunk done s t memory rs rt =
      let m =
        copy_streams_lem raw_source source raw_sink sink accepts p h h' chunk temp s t width memory
          rs rt in
      let returns : copy_streams p raw_source raw_sink chunk temp h s t
          ≡ ok (length (take chunk (source.unread s)), m.source_after, m.sink_after) =
        m.returns ∙ ap (λ (n : ℕ). ok (n, m.source_after, m.sink_after)) (omega arith) in
      (m.source_after, m.sink_after, rw returns, m.still_source, m.still_sink, m.left, m.moved)

  -- The loop that calls copyChunk until it returns false ends, for a chunk size above 0, when the bytes are
  -- there in the source, the sink takes every write, and there is memory for the buffer: all that was to be
  -- read has been appended to what was written, in its order, nothing is left to be read, and the count of bytes
  -- copied has grown by as many. Each call but the last moves a whole chunk, so that one more round than there
  -- are bytes is enough.
  pub copy_all_lem :
      (h' : Heap) (fuel chunk done : ℕ) (s : S) (t : T)
      → 0 < chunk
      → new_new_buffer p (min chunk temp) h ≡ ok h'
      → source.Ready s
      → sink.Ready t
      → length (source.unread s) < fuel
      → (s' : S) × (t' : T) × (copy_all p raw_source raw_sink temp h fuel (copier chunk done s t)
          ≡ ok (copier chunk (done + length (source.unread s)) s' t'))
        × (source.unread s' ≡ [])
        × (sink.written t' ≡ sink.written t ++ source.unread s)
  unfolding copy_all
  copy_all_lem h' zero chunk done s t some_chunk memory rs rt enough =
      absurd (omega (arith, enough))
  copy_all_lem h' (suc fuel) chunk done s t some_chunk memory rs rt enough =
      let u = source.unread s in
      let (s1, t1, copies, rs1, rt1, left, moved) = copy_chunk_lem h' chunk done s t memory rs rt in
      let k = length (take chunk u) in
      let ends : Bool → Result (Copier S T) = λ more.
        if more
        then copy_all p raw_source raw_sink temp h fuel (copier chunk (done + k) s1 t1)
        else ok (copier chunk (done + k) s1 t1) in
      let chosen : copy_all p raw_source raw_sink temp h (suc fuel) (copier chunk done s t)
          ≡ ends (k == chunk) =
        ap
          (λ r.
            r >>= λ (more, c). if more then copy_all p raw_source raw_sink temp h fuel c else ok c)
          copies in
      elim (Bool-cases (k == chunk)) [
        | inl whole ↦
            let full : k ≡ chunk = (==_iff k chunk).0 whole in
            let (s2, t2, rest, none_left, all) =
              copy_all_lem h' fuel chunk (done + k) s1 t1 some_chunk memory rs1 rt1 (
                omega (
                  arith,
                  ap length left,
                  length-drop chunk u,
                  length-take chunk u,
                  full,
                  enough,
                )) in
            (
              s2,
              t2,
              chosen
                  ∙ ap ends whole
                  ∙ rest
                  ∙ ap (λ (n : ℕ). ok (copier chunk n s2 t2))
                      (omega
                        (arith, ap length left, length-drop chunk u, length-take chunk u, full)),
              none_left,
              all
                  ∙ ap₂ ◌++◌ moved left
                  ∙ append_assoc (sink.written t) (take chunk u) (drop chunk u)
                  ∙ ap (λ ys. sink.written t ++ ys) (take-append-drop chunk u),
            )
        | inr partial ↦
            let few : length u ≤ chunk = ground (arith, length-take chunk u, partial) in
            (
              s1,
              t1,
              chosen
                  ∙ ap ends partial
                  ∙ ap (λ (ys : List ℕ). ok (copier chunk (done + length ys) s1 t1))
                      (take_all chunk u few),
              left ∙ drop_past chunk u few,
              moved ∙ ap (λ ys. sink.written t ++ ys) (take_all chunk u few),
            )
      ]

module _ {S T : Type 0} (p : Platform) (raw_source : RawStream S) (raw_sink : RawStream T)
    (temp : ℕ) (h : Heap) where
  -- The loop over copyChunk of a copier that was constructed without streams does not end: every call returns
  -- true, throws nothing and does nothing undefined, so that the loop runs out of any number of rounds.
  pub copy_all_idle :
      (fuel : ℕ) → copy_all p raw_source raw_sink temp h fuel new_copier ≡ err endless
  unfolding copy_all copy_chunk copy_between
  copy_all_idle zero = refl
  copy_all_idle (suc fuel) = copy_all_idle fuel
