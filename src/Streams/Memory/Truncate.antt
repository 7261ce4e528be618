-- ===== src/Streams/Memory/Truncate.antt =====
-- setEOF and skip of source/streams/vmemorystream.cpp, and what a seek after setEOF brings back.
use code_vault.Base.{
  ℕ, ◌+◌, ◌≤◌, ◌<◌, ◌≡◌, sym, ap, ◌∙◌, ◌↔◌, min, true, ok, take, arith, pos, take-take,
}
use code_vault.Streams.{Platform}
use code_vault.Streams.Memory.{World, seek, skip, set_eof, seek_set}
use code_vault.Streams.Memory.Invariant.{
  IsValid, contents, contents_valid, up_to, block_valid, with_offsets, with_offsets-IsValid,
}
use code_vault.Streams.Memory.Seek.{seek_keeps_heap}

abbrev pub with_eof : ℕ → World → World
with_eof n w = record w { this = set_eof n w.this }

set_eof-IsValid : (n : ℕ) (w : World) → IsValid w → IsValid (with_eof n w)
unfolding set_eof
set_eof-IsValid n w v = with_offsets-IsValid w _ _ v (omega arith) (omega arith)

-- setEOF to an offset within the data cuts them off there, and pulls the i/o offset back if it stood
-- behind; the stream stays valid.
pub set_eof_truncates :
    (n : ℕ) (w : World)
    → IsValid w
    → n ≤ w.this.eof_offset
    → IsValid (with_eof n w)
      × (contents (with_eof n w) ≡ take n (contents w))
      × ((with_eof n w).this.io_offset ≡ min n w.this.io_offset)
unfolding set_eof
set_eof_truncates n w v h = (
  set_eof-IsValid n w v,
  ap (up_to (with_eof n w).this.eof_offset) (block_valid w v)
      ∙ ap (λ k. take k v.bytes) (omega (arith, v.eof_fits))
      ∙ sym (take-take n w.this.eof_offset v.bytes h)
      ∙ ap (take n) (sym (contents_valid w v)),
  omega (arith, v.eof_fits),
)

-- The data that setEOF cut off come back, in place of zeroes: after setEOF to `k`, a seek to an offset
-- `n` between `k` and the old end leaves a stream whose data are the first `n` bytes of the old ones.
pub seek-set_eof_stale :
    (p : Platform) (w : World) (k n : ℕ)
    → IsValid w
    → k < n
    → n ≤ w.this.eof_offset
    → (w' : World) × (seek p (pos n) seek_set (with_eof k w) ≡ (ok true, w'))
      × (contents w' ≡ take n (contents w))
unfolding set_eof
seek-set_eof_stale p w k n v h fits = (
  with_offsets w n n,
  seek_keeps_heap p (with_eof k w) n (set_eof-IsValid k w v) (omega (arith, v.eof_fits))
      (omega (arith, v.eof_fits)),
  ap (up_to n) (block_valid w v)
      ∙ sym (take-take n w.this.eof_offset v.bytes fits)
      ∙ ap (take n) (sym (contents_valid w v)),
)

-- skip stays within the data: it advances the i/o offset by the bytes asked for, or to the end where
-- there are fewer, and reports whether there were as many; the stream stays valid.
skip_lem :
    (n : ℕ) (w : World)
    → IsValid w
    → let (w', all) = skip n w in
      IsValid w'
      × (w'.this.io_offset ≡ min (w.this.io_offset + n) w.this.eof_offset)
      × ((all ≡ true) ↔ (w.this.io_offset + n ≤ w.this.eof_offset))
unfolding skip
skip_lem n w v =
    (with_offsets-IsValid w _ _ v v.eof_fits (omega (arith, v.io_fits)), ground arith, ground arith)
