-- ===== src/Streams/Buffered/ToMemory.antt =====
-- source/streams/vwritebufferedstream.cpp: a flush to a memory stream.
use code_vault.Base.{
  ℕ, ◌≡◌, ◌≢◌, refl, ap, ap₂, min, ◌∙◌, Result, ok, err, ◌>>=◌, length, take, pos, arith, take_all,
}
use code_vault.Streams.{Platform}
use code_vault.Streams.Memory.{MemoryStream, World, write, seek, seek_set, set_eof, finish_read}
use code_vault.Streams.Memory.Invariant.{IsValid, contents, length-contents, with_offsets-IsValid}
use code_vault.Streams.Memory.Seek.{at_offset, seek_set_within}
use code_vault.Streams.Transfer.{copy_memories}
use code_vault.Streams.Transfer.Memories.{copy_memories-eq-write}
use code_vault.Streams.Buffered.{flush_to_memory}

-- The buffered stream without data, its buffer kept.
abbrev pub emptied : MemoryStream → MemoryStream
emptied s = record s { io_offset = 0; eof_offset = 0 }

bind-last :
    {A B C : Type 0} (m : Result A) (f : A → B) (rest : B → Result C) (g : A → C)
    → ((a : A) → rest (f a) ≡ ok (g a))
    → ((m >>= λ a. ok (f a)) >>= rest) ≡ (m >>= λ a. ok (g a))
bind-last (ok a) f rest g h = h a
bind-last (err e) f rest g h = refl

set_eof-zero : (s : MemoryStream) → set_eof 0 s ≡ emptied s
unfolding set_eof
set_eof-zero s =
    let none : min s.buffer_size 0 ≡ 0 = omega arith in
    let start : min (min s.buffer_size 0) s.io_offset ≡ 0 = omega arith in
    ap₂ (λ end io. record s { eof_offset = end; io_offset = io }) none start

module _ (p : Platform) (target : MemoryStream) (w : World) (v : IsValid w)
    (vt : IsValid (record w { this = target })) (apart : target.buffer ≢ w.this.buffer) where
  -- A flush to a memory stream with a buffer of its own, both streams valid and their buffers different, wherever
  -- their offsets stand, is one write of all the buffered bytes to that stream, at its offset, with the same
  -- exception where the write throws one; then the buffered stream is empty, keeps its buffer, and is at offset 0.
  pub flush_to_memory-eq-write : flush_to_memory p target w ≡ (
      write p (contents w) (record w { this = target }) >>= λ after. ok (emptied (w.this), after))
  unfolding flush_to_memory finish_read
  flush_to_memory-eq-write =
      let n = w.this.eof_offset in
      let w1 = at_offset w 0 in
      let wt : World = record w { this = target } in
      let v1 : IsValid w1 = with_offsets-IsValid w 0 n v v.eof_fits (omega arith) in
      let got = take n (contents w1) in
      let after = (finish_read (length got) w1).this in
      let rest : ℕ × MemoryStream × World → Result (MemoryStream × World) = λ (count, s, w2).
        (seek p (pos 0) seek_set (record w2 { this = s })).0 >>= λ _. ok (
          set_eof 0 (seek p (pos 0) seek_set (record w2 { this = s })).1.this,
          record ((seek p (pos 0) seek_set (record w2 { this = s })).1) { this = w2.this },
        ) in
      let resets : (w2 : World) → rest (length got, after, w2) ≡ ok (emptied (w.this), w2) = λ w2.
        ap (λ x. x.0 >>= λ _. ok (set_eof 0 x.1.this, record (x.1) { this = w2.this }))
          (seek_set_within p 0 (record w2 { this = after }) (omega arith))
        ∙ ap (λ (s : MemoryStream). ok (s, w2)) (set_eof-zero (record after { io_offset = 0 })) in
      let whole : got ≡ contents w = take_all n (contents w) (omega (arith, length-contents w v)) in
      ap
        (λ x. x.0 >>= λ _.
          copy_memories p x.1.this.eof_offset x.1.this (record (x.1) { this = target }) >>= rest)
        (seek_set_within p 0 w (omega arith))
      ∙ ap (λ r. r >>= rest) (copy_memories-eq-write p n (w1.this) wt vt v1 apart)
      ∙ bind-last (write p got wt) (λ w2. (length got, after, w2)) rest
          (λ w2. (emptied (w.this), w2)) resets
      ∙ ap (λ bytes. write p bytes wt >>= λ w2. ok (emptied (w.this), w2)) whole
