-- ===== src/Streams/Memory/Lifecycle/Tests.antt =====
-- Examples for the construction, assignment, destruction and comparison of streams in
-- source/streams/vmemorystream.cpp.
use code_vault.Base.{
  ℕ, ◌≡◌, ◌≢◌, refl, ◌↔◌, Bool, true, none, some, List, [], ◌∷◌, ◌++◌, ok, arith, ◌&&◌,
  if◌then◌else◌,
}
use code_vault.Heap.{Heap, live, from_new, block_at, load, store, allocate}
use code_vault.Streams.{copy_memory, memcpy, new_new_buffer, need_size_conversion}
use code_vault.Streams.Memory.{
  World, by_operator_new, write, create_new_buffer, prepare_to_write, finish_write,
}
use code_vault.Streams.Memory.Invariant.{IsValid, contents}
use code_vault.Streams.Memory.Tests.{
  machine, two_blocks, three_bytes, two_bytes, first, second, first-IsValid,
}
use code_vault.Streams.Memory.Lifecycle.{copy_construct, own_copy, assign, destroy, stream_eq}
use code_vault.Streams.Memory.Lifecycle.Copying.{write-copy_construct, assign_leaks}
use code_vault.Streams.Memory.Lifecycle.Destroying.{frees, destroy-frees}
use code_vault.Streams.Memory.Lifecycle.Equality.{stream_eq_iff}

pub second-IsValid : IsValid second
unfolding block_at
second-IsValid = record {
  place = 1;
  origin = from_new;
  bytes = 9 ∷ 9 ∷ [];
  points = refl;
  holds = refl;
  fits = omega arith;
  eof_fits = omega arith;
  io_fits = omega arith;
  releasable = λ e. refl;
}

-- The copy of the first stream, in a third block, and each of the two written to.
abbrev copied_block : List ℕ → Heap
copied_block bs = two_blocks ++ live from_new bs ∷ []

abbrev the_copy : World
the_copy = record {
  heap = copied_block (1 ∷ 2 ∷ 3 ∷ 7 ∷ []);
  this = record (three_bytes) { buffer = some 2 };
}

abbrev copy_written : World
copy_written = record {
  heap = copied_block (1 ∷ 6 ∷ 3 ∷ 7 ∷ []);
  this = record (three_bytes) { buffer = some 2; io_offset = 2 };
}

abbrev first_written : World
first_written = record {
  heap =
      live from_new (1 ∷ 6 ∷ 3 ∷ 4 ∷ [])
      ∷ live from_new (9 ∷ 9 ∷ [])
      ∷ live from_new (1 ∷ 2 ∷ 3 ∷ 7 ∷ [])
      ∷ [];
  this = record (three_bytes) { io_offset = 2 };
}

copies : copy_construct machine two_blocks three_bytes ≡ ok the_copy
unfolding copy_construct own_copy create_new_buffer new_new_buffer load block_at allocate
    copy_memory need_size_conversion memcpy store
copies = refl

writes_copy : write machine (6 ∷ []) the_copy ≡ ok copy_written
unfolding write prepare_to_write copy_memory need_size_conversion memcpy store block_at finish_write
writes_copy = refl

writes_first :
    write machine (6 ∷ []) (record { heap = the_copy.heap; this = three_bytes }) ≡ ok first_written
unfolding write prepare_to_write copy_memory need_size_conversion memcpy store block_at finish_write
writes_first = refl

write-copy_construct_example :
    (contents (record { heap = copy_written.heap; this = three_bytes }) ≡ contents first)
    × (contents (record { heap = first_written.heap; this = the_copy.this }) ≡ contents first)
write-copy_construct_example =
    write-copy_construct machine (6 ∷ []) first the_copy copy_written first_written first-IsValid
      refl copies writes_copy writes_first

assign_leaks_example :
    (block_at (assign machine two_blocks two_bytes three_bytes).1.heap (some 1)
      ≡ some (from_new, 9 ∷ 9 ∷ []))
    × ((assign machine two_blocks two_bytes three_bytes).1.this.buffer ≢ some 1)
unfolding block_at
assign_leaks_example =
    assign_leaks machine first two_bytes 1 from_new (9 ∷ 9 ∷ []) first-IsValid refl refl
      (λ e. absurd (cc))

destroy-frees_example :
    (h : Heap) × (destroy first ≡ ok h)
    × (block_at h (some 0)
        ≡ (if true && frees by_operator_new then none else block_at two_blocks (some 0)))
    × ((q : ℕ) → some 0 ≢ some q → block_at h (some q) ≡ block_at two_blocks (some q))
destroy-frees_example = destroy-frees first first-IsValid

stream_eq_iff_example :
    (same : Bool) × (stream_eq machine two_blocks three_bytes two_bytes ≡ ok same)
    × ((same ≡ true) ↔ (contents first ≡ contents second))
stream_eq_iff_example =
    stream_eq_iff machine two_blocks three_bytes two_bytes refl first-IsValid second-IsValid
