-- ===== src/Streams/Memory/Tests.antt =====
-- Examples for VMemoryStream (source/streams/vmemorystream.cpp): two streams of a few bytes in one heap.
use code_vault.Base.{
  ℕ, ◌*◌, ◌≤◌, ◌<◌, ◌≡◌, refl, ◌⊎◌, true, false, none, some, List, [], ◌∷◌, Failure, ok, err, take,
  arith, pos,
}
use code_vault.Heap.{Heap, live, freed, from_new, block_at, load, store, allocate, release}
use code_vault.Streams.{Platform, copy_memory, memcpy, new_new_buffer, need_size_conversion}
use code_vault.Streams.Copy.{copy_memory-eq-memcpy}
use code_vault.Streams.Memory.{
  MemoryStream, World, by_operator_new, read, write, prepare_to_write, new_buffer_size, seek,
  seek_set, double_until, finish_write, requested_offset, create_new_buffer, expand_buffer,
  release_buffer,
}
use code_vault.Streams.Memory.Growth.{new_buffer_size-double}
use code_vault.Streams.Memory.Invariant.{IsValid, contents, SameElsewhere}
use code_vault.Streams.Memory.Ready.{write_failure}
use code_vault.Streams.Memory.Access.{IsWritten, write_lem}
use code_vault.Streams.Memory.Seek.{at_offset, seek_past_end, read-write}
use code_vault.Streams.Memory.Truncate.{with_eof, set_eof_truncates, seek-set_eof_stale}

abbrev pub machine : Platform
machine = record { wide_size = true; exhausted = λ h n. false; garbage = λ h i. 7 }

abbrev pub two_blocks : Heap
two_blocks = live from_new (1 ∷ 2 ∷ 3 ∷ 4 ∷ []) ∷ live from_new (9 ∷ 9 ∷ []) ∷ []

abbrev pub three_bytes : MemoryStream
three_bytes = record {
  buffer_size = 4;
  io_offset = 1;
  eof_offset = 3;
  resize_increment = 0;
  owns_buffer = true;
  allocation_type = by_operator_new;
  buffer = some 0;
}

abbrev pub two_bytes : MemoryStream
two_bytes = record {
  buffer_size = 2;
  io_offset = 1;
  eof_offset = 2;
  resize_increment = 0;
  owns_buffer = true;
  allocation_type = by_operator_new;
  buffer = some 1;
}

abbrev pub first : World
first = record { heap = two_blocks; this = three_bytes }

abbrev pub second : World
second = record { heap = two_blocks; this = two_bytes }

pub first-IsValid : IsValid first
unfolding block_at
first-IsValid = record {
  place = 0;
  origin = from_new;
  bytes = 1 ∷ 2 ∷ 3 ∷ 4 ∷ [];
  points = refl;
  holds = refl;
  fits = omega arith;
  eof_fits = omega arith;
  io_fits = omega arith;
  releasable = λ e. refl;
}

-- After a write of four bytes at offset 1, which needs a larger buffer.
abbrev pub grown : World
grown = record {
  heap =
      freed ∷ live from_new (9 ∷ 9 ∷ []) ∷ live from_new (1 ∷ 5 ∷ 6 ∷ 7 ∷ 8 ∷ 7 ∷ 7 ∷ 7 ∷ []) ∷ [];
  this = record (three_bytes) { buffer_size = 8; io_offset = 5; eof_offset = 5; buffer = some 2 };
}

abbrev pub four : List ℕ
four = 5 ∷ 6 ∷ 7 ∷ 8 ∷ []

grows : write machine four first ≡ ok grown
unfolding write prepare_to_write expand_buffer release_buffer create_new_buffer block_at load store
    allocate release new_new_buffer copy_memory need_size_conversion memcpy new_buffer_size
    double_until finish_write
grows = refl

copy_memory-eq-memcpy_example : copy_memory machine four 3 ≡ memcpy four 3
copy_memory-eq-memcpy_example = copy_memory-eq-memcpy machine four 3

new_buffer_size-double_example :
    (3000 ≤ new_buffer_size 0 1024 3000)
    × ((new_buffer_size 0 1024 3000 < 2 * 3000)
        ⊎ ((◌≡◌ {A = ℕ} 1024 0) × (new_buffer_size 0 1024 3000 ≤ 2048)))
new_buffer_size-double_example = new_buffer_size-double 1024 3000 (omega arith)

write_lem_example :
    ((w' : World) × (write_failure machine 4 first ≡ none)
      × (write machine four first ≡ ok w')
      × IsWritten four first w')
    ⊎ ((e : Failure) × (write_failure machine 4 first ≡ some e)
        × (write machine four first ≡ err e))
write_lem_example = write_lem machine four first first-IsValid

read-write_example :
    (seek machine (pos 1) seek_set grown ≡ (ok true, at_offset grown 1))
    × (read machine 4 (at_offset grown 1) ≡ ok (four, grown))
read-write_example = read-write machine four first grown first-IsValid grows

seek_past_end_example :
    ((w' : World) × (write_failure machine 3 (at_offset first 3) ≡ none)
      × (seek machine (pos 6) seek_set first ≡ (ok true, w'))
      × IsValid w'
      × (w'.this.io_offset ≡ 6)
      × (w'.this.eof_offset ≡ 6)
      × (take 3 (contents w') ≡ contents first)
      × SameElsewhere first w')
    ⊎ ((e : Failure) × (write_failure machine 3 (at_offset first 3) ≡ some e)
        × (seek machine (pos 6) seek_set first ≡ (err e, at_offset first 3)))
unfolding requested_offset
seek_past_end_example =
    seek_past_end machine (pos 6) seek_set first 6 first-IsValid refl (omega arith)

set_eof_truncates_example :
    IsValid (with_eof 1 first)
    × (contents (with_eof 1 first) ≡ take 1 (contents first))
    × ((with_eof 1 first).this.io_offset ≡ 1)
set_eof_truncates_example = set_eof_truncates 1 first first-IsValid (omega arith)

seek-set_eof_stale_example :
    (w' : World) × (seek machine (pos 3) seek_set (with_eof 1 first) ≡ (ok true, w'))
    × (contents w' ≡ take 3 (contents first))
seek-set_eof_stale_example =
    seek-set_eof_stale machine first 1 3 first-IsValid (omega arith) (omega arith)
