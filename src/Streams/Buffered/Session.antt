-- ===== src/Streams/Buffered/Session.antt =====
-- source/streams/vwritebufferedstream.cpp: what is written to the buffer reaches the raw stream.
use code_vault.Base.{
  ℕ, ◌≡◌, refl, sym, ap, ap₂, ◌∙◌, List, [], ◌∷◌, ◌++◌, append_assoc, append-nil, Result, ok, err,
  ◌>>=◌, bind-eq-ok, ok-injective, subst, length, take, pos, arith, take_all,
}
use code_vault.Streams.{Platform}
use code_vault.Streams.Raw.{RawStream, IsSink}
use code_vault.Streams.Memory.{World, write, seek, seek_set, set_eof, finish_read}
use code_vault.Streams.Memory.Invariant.{IsValid, contents, length-contents, with_offsets-IsValid}
use code_vault.Streams.Memory.Access.{read_valid}
use code_vault.Streams.Memory.Seek.{at_offset, seek_set_within}
use code_vault.Streams.Memory.Truncate.{with_eof, set_eof_truncates}
use code_vault.Streams.Memory.Upper.{IsAtEnd, appended}
use code_vault.Streams.Transfer.{copy_out}
use code_vault.Streams.Transfer.Out.{copy_out-eq-put}
use code_vault.Streams.Buffered.{flush, Call, writes, flushes, call, calls}

module _ {T : Type 0} (p : Platform) (raw : RawStream T) (sink : IsSink raw) where
  bind-then :
      (m : Result T) (n : ℕ) (u : World) (rest : ℕ × World × T → Result (World × T)) (w' : World)
      → ((t' : T) → rest (n, u, t') ≡ ok (w', t'))
      → ((m >>= λ t'. ok (n, u, t')) >>= rest) ≡ (m >>= λ t'. ok (w', t'))
  bind-then (ok t') n u rest w' h = h t'
  bind-then (err e) n u rest w' h = refl

  -- A flush is one write of all the buffered bytes to the raw stream; then the buffer is empty, and what is
  -- written next is at its end.
  pub flush_lem :
      (w : World) (t : T)
      → IsAtEnd w
      → (w' : World) × (flush p raw w t ≡ (raw.put (contents w) t >>= λ t'. ok (w', t')))
        × IsAtEnd w'
        × (contents w' ≡ [])
  unfolding flush
  flush_lem w t (v, at_end) =
      let w1 = at_offset w 0 in
      let v1 : IsValid w1 = with_offsets-IsValid w 0 w.this.eof_offset v v.eof_fits (omega arith) in
      let (reads, v2, same, moved) = read_valid p [] w1 v1 w.this.eof_offset in
      let got = take w.this.eof_offset (contents w1) in
      let w2 = finish_read (length got) w1 in
      let w3 = at_offset w2 0 in
      let v3 : IsValid w3 =
        with_offsets-IsValid w2 0 w2.this.eof_offset v2 v2.eof_fits (omega arith) in
      let (v4, cut, io) = set_eof_truncates 0 w3 v3 (omega arith) in
      let w4 = with_eof 0 w3 in
      let rest : ℕ × World × T → Result (World × T) = λ (count, u, t').
        (seek p (pos 0) seek_set u).0 >>= λ _. ok (
          record ((seek p (pos 0) seek_set u).1) {
            this = set_eof 0 (seek p (pos 0) seek_set u).1.this;
          },
          t',
        ) in
      let resets : (t' : T) → rest (length got, w2, t') ≡ ok (w4, t') = λ t'.
        ap (λ x. x.0 >>= λ _. ok (record (x.1) { this = set_eof 0 x.1.this }, t'))
          (seek_set_within p 0 w2 (omega arith)) in
      let whole : got ≡ contents w =
        take_all w.this.eof_offset (contents w) (omega (arith, length-contents w v)) in
      let copies : copy_out raw w.this.eof_offset w1 t
          ≡ (raw.put got t >>= λ t'. ok (length got, w2, t')) =
        copy_out-eq-put p raw w.this.eof_offset w1 t v1
        ∙ ap (λ r. r >>= λ (bytes, u). raw.put bytes t >>= λ t'. ok (length bytes, u, t')) reads in
      (
        w4,
        ap (λ x. x.0 >>= λ _. copy_out raw x.1.this.eof_offset x.1 t >>= rest)
              (seek_set_within p 0 w (omega arith))
            ∙ ap (λ r. r >>= rest) copies
            ∙ bind-then (raw.put got t) (length got) w2 rest w4 resets
            ∙ ap (λ bytes. raw.put bytes t >>= λ t'. ok (w4, t')) whole,
        (v4, omega (arith, io, ap length cut, length-contents w4 v4)),
        cut,
      )

  -- What the calls write.
  abbrev pub bytes_of : Call p raw → List ℕ
  bytes_of (writes ys) = ys
  bytes_of flushes = []

  abbrev pub all_bytes : List (Call p raw) → List ℕ
  all_bytes [] = []
  all_bytes (c ∷ more) = bytes_of c ++ all_bytes more

  -- The stream is at its end and the raw stream takes writes; what is on the raw stream and, behind it, what is
  -- still in the buffer.
  abbrev Holds : List ℕ → World × T → Type 0
  Holds bytes (w, t) = IsAtEnd w × sink.Ready t × (sink.written t ++ contents w ≡ bytes)

  call_lem :
      (c : Call p raw) (bytes : List ℕ) (w w' : World) (t t' : T)
      → Holds bytes (w, t)
      → call p raw c w t ≡ ok (w', t')
      → Holds (bytes ++ bytes_of c) (w', t')
  unfolding call
  call_lem (writes ys) bytes w w' t t' (at_end, ready, e) returns =
      let (u, wrote, same) = bind-eq-ok (write p ys w) (λ v. ok (v, t)) (w', t') returns in
      let (at_end', grown) = appended p ys w u at_end wrote in
      subst (Holds (bytes ++ ys)) (ok-injective (u, t) (w', t') same) (
        at_end',
        ready,
        ap (λ s. sink.written t ++ s) grown
            ∙ sym (append_assoc (sink.written t) (contents w) ys)
            ∙ ap (λ s. s ++ ys) e,
      )
  call_lem flushes bytes w w' t t' (at_end, ready, e) returns =
      let (u, flushed, at_end', empty) = flush_lem w t at_end in
      let (t1, puts, same) =
        bind-eq-ok (raw.put (contents w) t) (λ v. ok (u, v)) (w', t') (sym flushed ∙ returns) in
      let (ready', grown) = sink.put_lem (contents w) t t1 ready puts in
      subst (Holds (bytes ++ [])) (ok-injective (u, t1) (w', t') same)
        (at_end', ready', ap₂ ◌++◌ grown empty ∙ ap (λ s. s ++ []) e)

  -- On a raw stream without a buffer of its own, on which a write takes all of its bytes or throws, nothing is
  -- lost, repeated or put out of order: after any calls that write to the buffered stream or flush it, from a
  -- state in which it is at its end, and that all return, the bytes on the raw stream followed by those in the buffer are the ones from before,
  -- followed by all that the calls wrote; and the stream is again at its end.
  pub calls_lem :
      (cs : List (Call p raw)) (w w' : World) (t t' : T)
      → IsAtEnd w
      → sink.Ready t
      → calls p raw cs w t ≡ ok (w', t')
      → IsAtEnd w'
        × sink.Ready t'
        × (sink.written t' ++ contents w' ≡ (sink.written t ++ contents w) ++ all_bytes cs)
  unfolding calls
  calls_lem cs w w' t t' at_end ready returns =
      go cs (sink.written t ++ contents w) w t (at_end, ready, refl) returns
    where
      go :
          (cs : List (Call p raw)) (bytes : List ℕ) (w : World) (t : T)
          → Holds bytes (w, t)
          → calls p raw cs w t ≡ ok (w', t')
          → Holds (bytes ++ all_bytes cs) (w', t')
      go [] bytes w t h returns =
          subst (Holds (bytes ++ [])) (ok-injective (w, t) (w', t') returns)
            (h.0, h.1, h.2 ∙ sym (append-nil bytes))
      go (c ∷ more) bytes w t h returns =
          let ((u, s), first, rest) =
            bind-eq-ok (call p raw c w t) (λ (v, r). calls p raw more v r) (w', t') returns in
          subst (λ b. Holds b (w', t')) (append_assoc bytes (bytes_of c) (all_bytes more))
            (go more (bytes ++ bytes_of c) u s (call_lem c bytes w u t s h first) rest)
