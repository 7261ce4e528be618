-- ===== src/Messages/Data.antt =====
-- The data of a message in source/server/vmessage.cpp: copying them leaves the message as it was.
use code_vault.Base.{
  ℕ, ◌+◌, ◌≤◌, ◌≡◌, ◌≢◌, ap, ◌∙◌, ◌⊎◌, inl, inr, List, Result, Failure, ok, err, ◌>>=◌, length,
  arith, take_all,
}
use code_vault.Streams.{Platform}
use code_vault.Streams.Memory.{MemoryStream, World, write, finish_read}
use code_vault.Streams.Memory.Invariant.{IsValid, contents, with_offsets-IsValid, length-contents}
use code_vault.Streams.Memory.Access.{IsWritten, write_lem}
use code_vault.Streams.Memory.Seek.{seek_set_within}
use code_vault.Streams.Transfer.{copy_memories}
use code_vault.Streams.Transfer.Memories.{copy_memories-eq-write}
use code_vault.Messages.{seek_set_to, copy_message_data}

-- Seeks that stay within the data, by what they leave of the stream.
abbrev rewound : MemoryStream → MemoryStream
rewound source = record source { io_offset = 0 }

seek_back :
    (p : Platform) (k : ℕ) (source : MemoryStream) (w : World)
    → source.io_offset ≤ source.eof_offset
    → seek_set_to p source.io_offset (record w { this = record source { io_offset = k } })
      ≡ record w { this = source }
unfolding seek_set_to
seek_back p k source w h =
    ap (λ r. r.1)
      (seek_set_within p source.io_offset (record w { this = record source { io_offset = k } }) h)

module _ (p : Platform) (source : MemoryStream) (w : World) (v : IsValid w)
    (vs : IsValid (record w { this = source })) (apart : w.this.buffer ≢ source.buffer) where
  -- What follows the copy.
  abbrev finish : ℕ × MemoryStream × World → Result (MemoryStream × World)
  finish (count, read_from, w') =
      let back = seek_set_to p source.io_offset (record w' { this = read_from }) in
      ok (back.this, record back { this = w'.this })

  abbrev bytes : List ℕ
  bytes = contents (record w { this = source })

  -- The copy from the start is one write of all the data.
  copied_all : copy_memories p source.eof_offset (rewound source) w ≡ (
      write p bytes w >>= λ w'.
      ok (length bytes, record source { io_offset = 0 + length bytes }, w'))
  unfolding finish_read
  copied_all =
      copy_memories-eq-write p source.eof_offset (rewound source) w v
        (with_offsets-IsValid (record w { this = source }) 0 source.eof_offset vs vs.eof_fits
          (omega arith))
        apart
      ∙ ap
          (λ ys. write p ys w >>= λ w'.
            ok (length ys, (finish_read (length ys) (record w { this = rewound source })).this, w'))
          (take_all source.eof_offset bytes
            (omega (arith, length-contents (record w { this = source }) vs)))

  rewind : seek_set_to p 0 (record w { this = source }) ≡ record w { this = rewound source }
  unfolding seek_set_to
  rewind = ap (λ r. r.1) (seek_set_within p 0 (record w { this = source }) (omega arith))

  steps : copy_message_data p source w ≡ (
      (write p bytes w >>= λ w'.
      ok (length bytes, record source { io_offset = 0 + length bytes }, w'))
      >>= finish)
  unfolding copy_message_data
  steps =
      ap
        (λ (start : World).
          copy_memories p source.eof_offset start.this (record start { this = w.this }) >>= finish)
        rewind
      ∙ ap (λ r. r >>= finish) copied_all

  back :
      (w' : World)
      → finish (length bytes, record source { io_offset = 0 + length bytes }, w') ≡ ok (source, w')
  back w' =
      ap (λ (t : World). ok (t.this, record t { this = w'.this }))
        (seek_back p (0 + length bytes) source w' vs.io_fits)

-- copyMessageData to a message with a buffer of its own either returns, with all the data of this
-- message written at the target's i/o offset as by one write, and this message's buffer as it was, its
-- i/o offset included; or throws what that write throws.
copy_message_data_lem :
    (p : Platform) (source : MemoryStream) (w : World)
    → IsValid w
    → IsValid (record w { this = source })
    → w.this.buffer ≢ source.buffer
    → let bytes = contents (record w { this = source }) in
      ((w' : World) × (write p bytes w ≡ ok w')
        × (copy_message_data p source w ≡ ok (source, w'))
        × IsWritten bytes w w')
      ⊎ ((e : Failure) × (write p bytes w ≡ err e) × (copy_message_data p source w ≡ err e))
copy_message_data_lem p source w v vs apart = elim (write_lem p (bytes p source w v vs apart) w v) [
  | inl (w', _, writes, written) ↦ inl (
    w',
    writes,
    steps p source w v vs apart ∙ simp writes (back p source w v vs apart w'),
    written,
  )
  | inr (e, _, fails) ↦ inr (e, fails, steps p source w v vs apart ∙ simp fails)
]
