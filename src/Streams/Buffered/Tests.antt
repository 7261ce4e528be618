-- ===== src/Streams/Buffered/Tests.antt =====
-- Examples for VWriteBufferedStream in source/streams/vwritebufferedstream.cpp, on a list as the raw stream: three
-- buffered bytes, a write, and two flushes; and a flush to another memory stream.
use code_vault.Base.{◌≡◌, refl, List, [], ◌∷◌, ◌++◌, ok, ◌>>=◌, arith}
use code_vault.Heap.{block_at, load, store, live, from_new}
use code_vault.Streams.{copy_memory, need_size_conversion, memcpy}
use code_vault.Streams.Transfer.{copy_out, prepare_to_read}
use code_vault.Streams.Memory.{
  World, write, prepare_to_write, finish_write, seek, requested_offset, set_eof, seek_to, move_to,
  finish_read,
}
use code_vault.Streams.Memory.Invariant.{contents, with_offsets-IsValid}
use code_vault.Streams.Memory.Seek.{at_offset}
use code_vault.Streams.Memory.Upper.{IsAtEnd}
use code_vault.Streams.Memory.Tests.{machine, first, second, two_bytes, first-IsValid}
use code_vault.Streams.Memory.Lifecycle.Tests.{second-IsValid}
use code_vault.Streams.Buffered.ToMemory.{emptied, flush_to_memory-eq-write}
use code_vault.Streams.Tests.{list_raw, list-IsSink}
use code_vault.Streams.Buffered.{flush, flush_to_memory, Call, writes, flushes, call, calls}
use code_vault.Streams.Buffered.Session.{calls_lem, all_bytes}

abbrev at_end : World
at_end = at_offset first 3

at_end-IsAtEnd : IsAtEnd at_end
at_end-IsAtEnd = (with_offsets-IsValid first 3 3 first-IsValid (omega arith) (omega arith), refl)

-- Behind a write of 5, a flush and a write of 6.
abbrev after : World
after = record {
  heap = live from_new (6 ∷ 2 ∷ 3 ∷ 5 ∷ []) ∷ live from_new (9 ∷ 9 ∷ []) ∷ [];
  this = record (first.this) { io_offset = 1; eof_offset = 1 };
}

abbrev three_calls : List (Call machine list_raw)
three_calls = writes (5 ∷ []) ∷ flushes ∷ writes (6 ∷ []) ∷ []

called : calls machine list_raw three_calls at_end (0 ∷ []) ≡ ok (after, 0 ∷ 1 ∷ 2 ∷ 3 ∷ 5 ∷ [])
unfolding calls call flush write prepare_to_write finish_write copy_memory need_size_conversion
    memcpy seek requested_offset set_eof seek_to move_to copy_out prepare_to_read block_at load
    store finish_read
called = refl

calls_lem_example :
    IsAtEnd after
    × Unit {0}
    × ((0 ∷ 1 ∷ 2 ∷ 3 ∷ 5 ∷ []) ++ contents after
        ≡ ((0 ∷ []) ++ contents at_end) ++ all_bytes machine list_raw list-IsSink three_calls)
calls_lem_example =
    calls_lem machine list_raw list-IsSink three_calls at_end after (0 ∷ [])
      (0 ∷ 1 ∷ 2 ∷ 3 ∷ 5 ∷ []) at_end-IsAtEnd tt called

flush_to_memory-eq-write_example :
    flush_to_memory machine two_bytes first
    ≡ (write machine (contents first) second >>= λ after. ok (emptied (first.this), after))
unfolding block_at
flush_to_memory-eq-write_example =
    flush_to_memory-eq-write machine two_bytes first first-IsValid second-IsValid (λ e. absurd (cc))
