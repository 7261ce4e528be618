-- ===== src/Streams/Memory.antt =====
-- source/streams/vmemorystream.cpp: VMemoryStream. The buffer is a block of the heap, which streams
-- may share; sizes and offsets are not negative and stay below 2^63.
pub mod Growth
pub mod Invariant
pub mod Expand
pub mod Ready
pub mod Access
pub mod Seek
pub mod Truncate
pub mod Lifecycle
pub mod Upper
pub mod Tests
use code_vault.Base.{
  ℕ, zero, suc, ◌+◌, ◌-◌, ◌*◌, ◌%◌, min, Bool, true, false, not, ◌&&◌, ◌||◌, ◌==◌, Option, none,
  some, List, [], ◌∷◌, ◌++◌, Result, ok, err, eof, fault, guard, ◌>>=◌, ◌>>◌, length, take, drop,
  replicate, ltb, leb, if◌then◌else◌, ℤ, pos, negsuc, ◌+ℤ◌, ltb_ℤ,
}
use code_vault.Heap.{
  Heap, Pointer, block_at, load, store, release, Origin, from_new, from_malloc, elsewhere,
}
use code_vault.Streams.{Platform, copy_memory, new_new_buffer, malloc_new_buffer}

pub data AllocationType : Type 0 where
  by_operator_new by_malloc on_stack unknown : AllocationType

-- kIncrement2x.
abbrev pub increment_2x : ℕ
increment_2x = 0

pub record MemoryStream : Type 0 where
  pub buffer_size : ℕ
  pub io_offset : ℕ
  pub eof_offset : ℕ
  pub resize_increment : ℕ
  pub owns_buffer : Bool
  pub allocation_type : AllocationType
  pub buffer : Pointer

-- A stream together with the heap that its buffer lives in.
pub record World : Type 0 where
  pub heap : Heap
  pub this : MemoryStream

pub record NewBuffer : Type 0 where
  pub block : Pointer
  pub kind : AllocationType
  pub after : Heap

-- _createNewBuffer. A stack or unknown buffer is replaced by one from operator new.
pub create_new_buffer : Platform → AllocationType → ℕ → Heap → Result NewBuffer
create_new_buffer p by_operator_new n h = do
  h' ← new_new_buffer p n h
  ok (record { block = some (length h); kind = by_operator_new; after = h' })
create_new_buffer p by_malloc n h = do
  h' ← malloc_new_buffer p n h
  ok (record { block = some (length h); kind = by_malloc; after = h' })
create_new_buffer p on_stack n h = do
  h' ← new_new_buffer p n h
  ok (record { block = some (length h); kind = by_operator_new; after = h' })
create_new_buffer p unknown n h = do
  h' ← new_new_buffer p n h
  ok (record { block = some (length h); kind = by_operator_new; after = h' })

free_as : AllocationType → Heap → Pointer → Result Heap
free_as by_operator_new h b = release h b from_new
free_as by_malloc h b = release h b from_malloc
free_as on_stack h b = ok h
free_as unknown h b = ok h

-- _releaseBuffer.
pub release_buffer : World → Result World
unfolding free_as
release_buffer w =
    if w.this.owns_buffer
    then (do
      h ← free_as w.this.allocation_type w.heap w.this.buffer
      ok (record { heap = h; this = record (w.this) { buffer = none } }))
    else ok (record w { this = record (w.this) { buffer = none } })

-- The do-while loop that doubles the size until it is large enough. Sizes double, so `required`
-- rounds are enough.
pub double_until : ℕ → ℕ → ℕ → ℕ
double_until zero required size = size
double_until (suc fuel) required size =
    let larger = 2 * size in
    let again = double_until fuel required larger in if ltb larger required then again else larger

-- The size that _prepareToWrite chooses for a buffer of `size` bytes that must hold `required`.
pub new_buffer_size : ℕ → ℕ → ℕ → ℕ
new_buffer_size increment size required =
    if increment == increment_2x
    then double_until required required (if size == 0 then 1024 else size)
    else (let misalignment = required % increment in
        if misalignment == 0 then required else required + (increment - misalignment))

-- The reallocation of _prepareToWrite.
unfoldable pub expand_buffer : Platform → ℕ → World → Result World
expand_buffer p size w = do
  fresh ← create_new_buffer p w.this.allocation_type size w.heap
  old ← load fresh.after w.this.buffer
  bytes ← copy_memory p old w.this.eof_offset
  copied ← store fresh.after fresh.block 0 bytes
  released ← release_buffer (record w { heap = copied })
  ok (record released {
    this = record (released.this) {
      buffer = fresh.block;
      buffer_size = size;
      allocation_type = fresh.kind;
    };
  })

-- _prepareToWrite. An exception leaves everything as it was.
unfoldable pub prepare_to_write : Platform → ℕ → World → Result World
prepare_to_write p n w =
    let required = w.this.io_offset + n in
    if ltb w.this.buffer_size required
    then (do
      guard w.this.owns_buffer eof
      expand_buffer p (new_buffer_size w.this.resize_increment w.this.buffer_size required) w)
    else ok w

-- _finishRead.
unfoldable pub finish_read : ℕ → World → World
finish_read n w = record w { this = record (w.this) { io_offset = w.this.io_offset + n } }

-- _finishWrite.
unfoldable pub finish_write : ℕ → World → World
finish_write n w =
    let io = w.this.io_offset + n in
    record w {
      this = record (w.this) {
        io_offset = io;
        eof_offset = if ltb w.this.eof_offset io then io else w.this.eof_offset;
      };
    }

-- read: the bytes copied to the target, as many as the result says.
pub read : Platform → ℕ → World → Result (List ℕ × World)
read p n w = do
  let count = min n (w.this.eof_offset - w.this.io_offset)
  bytes ← load w.heap w.this.buffer
  copied ← copy_memory p (drop w.this.io_offset bytes) count
  ok (copied, finish_read count w)

-- write, of the bytes of `source`.
unfoldable pub write : Platform → List ℕ → World → Result World
write p source w = do
  let n = length source
  ready ← prepare_to_write p n w
  bytes ← copy_memory p source n
  written ← store ready.heap ready.this.buffer ready.this.io_offset bytes
  ok (finish_write n (record ready { heap = written }))

-- skip; the result says whether all the bytes were there to be skipped.
pub skip : ℕ → World → World × Bool
skip n w =
    let count = min n (w.this.eof_offset - w.this.io_offset) in
    (record w { this = record (w.this) { io_offset = w.this.io_offset + count } }, n == count)

pub data Whence : Type 0 where
  seek_set seek_cur seek_end other : Whence

unfoldable pub requested_offset : ℤ → Whence → MemoryStream → ℤ
requested_offset offset seek_set s = offset
requested_offset offset seek_cur s = pos s.io_offset +ℤ offset
requested_offset offset seek_end s = pos s.eof_offset
requested_offset offset other s = pos 0

-- The loop of seek that is to write zeroes: `old_eof` rises to the stream's end, and each round
-- clears the byte at the i/o offset. The difference at the start is fuel enough.
pub zero_loop : ℕ → ℕ → World → Result World
zero_loop zero old_eof w = ok w
zero_loop (suc fuel) old_eof w =
    if ltb old_eof w.this.eof_offset
    then (store w.heap w.this.buffer w.this.io_offset (0 ∷ []) >>= λ h.
        zero_loop fuel (suc old_eof) (record w { heap = h }))
    else ok w

-- The part of seek past the end. The i/o offset is moved to the end before the buffer is prepared,
-- so it has moved also where that throws.
extend : Platform → ℕ → World → Result World × World
extend p requested w =
    let count = requested - w.this.eof_offset in
    let old_eof = w.this.eof_offset in
    let at_end = record w { this = record (w.this) { io_offset = w.this.eof_offset } } in
    (
      (do
        ready ← prepare_to_write p count at_end
        zeroed ← zero_loop (ready.this.eof_offset - old_eof) old_eof ready
        ok (finish_write count zeroed)),
      at_end,
    )

unfoldable pub move_to : ℕ → World → World
move_to n w = record w { this = record (w.this) { io_offset = n } }

settle : ℕ → Result World × World → Result Bool × World
unfolding move_to
settle n (ok w, before) = (ok true, move_to n w)
settle n (err e, before) = (err e, before)

-- seek: the result (false if the offset was negative, and taken as 0) or the exception, and the
-- stream afterwards.
unfoldable pub seek_to : Platform → ℤ → World → Result Bool × World
unfolding extend settle move_to
seek_to p (negsuc n) w = (ok false, move_to 0 w)
seek_to p (pos n) w =
    if ltb w.this.eof_offset n then settle n (extend p n w) else (ok true, move_to n w)

unfoldable pub seek : Platform → ℤ → Whence → World → Result Bool × World
unfolding seek_to
seek p offset whence w = seek_to p (requested_offset offset whence w.this) w

-- available.
pub available : MemoryStream → ℕ
available s = s.eof_offset - s.io_offset

-- setEOF.
unfoldable pub set_eof : ℕ → MemoryStream → MemoryStream
set_eof n s =
    let end = min s.buffer_size n in record s { eof_offset = end; io_offset = min end s.io_offset }

-- orphanBuffer.
pub orphan_buffer : MemoryStream → MemoryStream
orphan_buffer s = record s { owns_buffer = false }
