-- ===== src/Streams/Transfer.antt =====
-- VStream::streamCopy (source/streams/vstream.cpp): one way for each of its four cases, as a stream
-- has a buffer to copy from or to, or has not.
pub mod Memories
pub mod Loop
pub mod Out
use code_vault.Base.{
  ℕ, zero, suc, ◌+◌, ◌-◌, min, Bool, true, false, List, [], ◌∷◌, Result, ok, ◌>>=◌, length, take,
  drop, ltb, ◌==◌, if◌then◌else◌,
}
use code_vault.Heap.{Heap, load, store}
use code_vault.Streams.{Platform, copy_memory, new_new_buffer}
use code_vault.Streams.Raw.{RawStream}
use code_vault.Streams.Memory.{MemoryStream, World, prepare_to_write, finish_read, finish_write}

-- _prepareToRead.
unfoldable pub prepare_to_read : ℕ → MemoryStream → ℕ
prepare_to_read n s = min n (s.eof_offset - s.io_offset)

advance : ℕ → MemoryStream → MemoryStream
advance n s = record s { io_offset = s.io_offset + n }

-- Buffer to buffer: from a second memory stream `source` with its block in the same heap. The result
-- is the count of bytes copied, the source after it, and the target.
pub copy_memories : Platform → ℕ → MemoryStream → World → Result (ℕ × MemoryStream × World)
unfolding prepare_to_read advance
copy_memories p n source w = do
  let count = prepare_to_read n source
  ready ← prepare_to_write p count w
  bytes ← load ready.heap source.buffer
  copied ← copy_memory p (drop source.io_offset bytes) count
  written ← store ready.heap ready.this.buffer ready.this.io_offset copied
  ok (count, advance count source, finish_write count (record ready { heap = written }))

-- Buffer to stream.
unfoldable pub copy_out : {T : Type 0} (sink : RawStream T) → ℕ → World → T → Result (ℕ × World × T)
unfolding prepare_to_read
copy_out sink n w t = do
  let count = prepare_to_read n w.this
  bytes ← load w.heap w.this.buffer
  t' ← sink.put (take count (drop w.this.io_offset bytes)) t
  ok (count, finish_read count w, t')

-- Stream to buffer: the stream reads into the room that was made.
pub copy_in :
    {S : Type 0} (p : Platform) (source : RawStream S) → ℕ → S → World → Result (ℕ × S × World)
copy_in p source n s w = do
  ready ← prepare_to_write p n w
  (bytes, s') ← source.get n s
  written ← store ready.heap ready.this.buffer ready.this.io_offset bytes
  ok (length bytes, s', finish_write (length bytes) (record ready { heap = written }))

module _ {S T : Type 0} (source : RawStream S) (sink : RawStream T) (temp_size : ℕ) where
  -- The loop of the fourth case. A round that reads nothing ends it, so that as many rounds as there
  -- are bytes to copy are enough. A write that returns has taken all of its bytes, as a raw stream promises, so
  -- that the number written is that read.
  copy_rounds : (fuel remaining copied : ℕ) → S → T → Result (ℕ × S × T)
  copy_rounds zero remaining copied s t = ok (copied, s, t)
  copy_rounds (suc fuel) remaining copied s t =
      if ltb 0 remaining
      then (source.get (min remaining temp_size) s >>= λ (bytes, s').
          if length bytes == 0
          then ok (copied, s', t)
          else (sink.put bytes t >>= λ t'.
              copy_rounds fuel (remaining - length bytes) (copied + length bytes) s' t'))
      else ok (copied, s, t)

-- Stream to stream, through a temporary buffer, which is freed again.
pub copy_streams :
    {S T : Type 0} (p : Platform) (source : RawStream S) (sink : RawStream T)
    → (n temp : ℕ) → Heap
    → S
    → T
    → Result (ℕ × S × T)
unfolding copy_rounds
copy_streams p source sink n temp h s t =
    new_new_buffer p (min n temp) h >>= λ with_temp. copy_rounds source sink (min n temp) n n 0 s t
