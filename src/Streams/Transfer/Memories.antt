-- ===== src/Streams/Transfer/Memories.antt =====
-- VStream::streamCopy in source/streams/vstream.cpp between memory streams is a read of the one and a
-- write to the other.
use code_vault.Base.{
  ℕ, ◌-◌, ◌≡◌, ◌≢◌, sym, ap, ◌∙◌, inl, inr, min, List, ok, ◌>>=◌, length, drop, some, take_all,
  bind_assoc,
}
use native.Mathlib.Nat.{le_refl}
use code_vault.Heap.{load, store, block_at}
use code_vault.Heap.Laws.{load_live, block_at-lt}
use code_vault.Streams.{Platform, copy_memory}
use code_vault.Streams.Copy.{copy_memory_within}
use code_vault.Streams.Memory.{MemoryStream, World, write, finish_read, finish_write}
use code_vault.Streams.Memory.Invariant.{IsValid}
use code_vault.Streams.Memory.Ready.{IsReady, prepare_to_write_lem}
use code_vault.Streams.Memory.Access.{bytes_read, read_count, copied_bytes}
use code_vault.Streams.Transfer.{copy_memories, prepare_to_read, advance}

module _ (p : Platform) (n : ℕ) (source : MemoryStream) (w : World) (v : IsValid w)
    (vs : IsValid (record w { this = source })) (apart : w.this.buffer ≢ source.buffer) where
  abbrev got : List ℕ
  got = bytes_read p n (record w { this = source }) vs

  still_there : (r : World) → IsReady (length got) w r → load r.heap source.buffer ≡ ok vs.bytes
  still_there r ready =
      let other : w.this.buffer ≢ some vs.place = λ e. apart (e ∙ sym vs.points) in
      let kept =
        ready.elsewhere vs.place other (block_at-lt w.heap vs.place vs.origin vs.bytes vs.holds) in
      load_live r.heap source.buffer vs.origin vs.bytes
        (ap (block_at r.heap) vs.points ∙ kept ∙ vs.holds)

  whole : copy_memory p got (length got) ≡ ok got
  whole =
      copy_memory_within p got (length got) (le_refl _)
      ∙ ap ok (take_all (length got) got (le_refl _))

  count : min n (source.eof_offset - source.io_offset) ≡ length got
  count = read_count p n (record w { this = source }) vs

  taken : copy_memory p (drop source.io_offset vs.bytes) (length got) ≡ ok got
  taken =
      ap (copy_memory p (drop source.io_offset vs.bytes)) (sym count)
      ∙ copied_bytes p n (record w { this = source }) vs

  -- Between two memory streams with buffers of their own, streamCopy does what a read of as many bytes
  -- from the one and a write of the bytes read to the other does: with the same count, the same streams
  -- afterwards, and the same exception where the write throws one.
  pub copy_memories-eq-write : copy_memories p n source w ≡ (
      write p got w >>= λ w'.
      ok (length got, (finish_read (length got) (record w { this = source })).this, w'))
  unfolding copy_memories write prepare_to_read advance finish_read
  copy_memories-eq-write = elim (prepare_to_write_lem p (length got) w v) [
    | inr (e, why, fails) ↦ simp (count, fails)
    | inl (r, why, ready_at, ready) ↦
        simp (count, ready_at, still_there r ready, taken, whole)
          (sym (
            bind_assoc (store r.heap r.this.buffer r.this.io_offset got)
              (λ written. ok (finish_write (length got) (record r { heap = written })))
              (λ w'.
                ok (length got, (finish_read (length got) (record w { this = source })).this, w'))))
  ]
