-- ===== src/Streams/Memory/Lifecycle.antt =====
-- source/streams/vmemorystream.cpp: how a VMemoryStream comes by its buffer and gives it up, how two
-- are compared, and VReadOnlyMemoryStream.
pub mod Copying
pub mod Destroying
pub mod Equality
pub mod Tests
use code_vault.Base.{
  ℕ, zero, suc, ◌+◌, ◌-◌, min, Bool, true, false, not, ◌==◌, Option, none, some, List, [], ◌∷◌,
  ◌&&◌, Result, ok, err, eof, fault, guard, ◌>>=◌, ◌>>◌, length, take, drop, ltb, if◌then◌else◌,
}
use code_vault.Heap.{Heap, Pointer, load, store}
use code_vault.Streams.{Platform, max_s32, need_size_conversion, copy_memory}
use code_vault.Streams.Memory.{
  MemoryStream, World, AllocationType, by_operator_new, unknown, create_new_buffer, release_buffer,
  increment_2x,
}

-- The constructor that allocates a buffer.
pub construct : Platform → ℕ → ℕ → Heap → Result World
construct p size increment h = do
  fresh ← create_new_buffer p by_operator_new size h
  ok (record {
    heap = fresh.after;
    this = record {
      buffer_size = size;
      io_offset = 0;
      eof_offset = 0;
      resize_increment = increment;
      owns_buffer = true;
      allocation_type = fresh.kind;
      buffer = fresh.block;
    };
  })

-- The constructor on a buffer that is supplied.
pub construct_on : Pointer → AllocationType → Bool → ℕ → ℕ → ℕ → MemoryStream
construct_on b kind adopts size end increment = record {
  buffer_size = size;
  io_offset = 0;
  eof_offset = end;
  resize_increment = increment;
  owns_buffer = adopts;
  allocation_type = kind;
  buffer = b;
}

-- The fields of `other`, its buffer shared and not owned.
abbrev pub borrow : MemoryStream → MemoryStream
borrow other = record other { owns_buffer = false }

-- "Case 2 -- we need to make our own copy of the buffer."
own_copy : Platform → Heap → MemoryStream → Result World
own_copy p h other = do
  fresh ← create_new_buffer p other.allocation_type other.buffer_size h
  old ← load fresh.after other.buffer
  bytes ← copy_memory p old other.eof_offset
  copied ← store fresh.after fresh.block 0 bytes
  ok (record {
    heap = copied;
    this = record other { buffer = fresh.block; allocation_type = fresh.kind; owns_buffer = true };
  })

-- The copy constructor.
pub copy_construct : Platform → Heap → MemoryStream → Result World
unfolding own_copy
copy_construct p h other =
    if other.owns_buffer then own_copy p h other else ok (record { heap = h; this = borrow other })

keep_going : World → Result World → Result (Unit {0}) × World
keep_going before (ok w) = (ok tt, w)
keep_going before (err e) = (err e, before)

-- operator= between two distinct streams: the heap and the left-hand stream afterwards. The fields
-- have been taken over already where the allocation throws.
pub assign : Platform → Heap → MemoryStream → MemoryStream → Result (Unit {0}) × World
unfolding keep_going own_copy
assign p h this other =
    keep_going (record { heap = h; this = borrow other })
      (if other.owns_buffer
        then own_copy p h other
        else ok (record { heap = h; this = borrow other }))

-- adoptBuffer.
pub adopt_buffer : Pointer → AllocationType → Bool → ℕ → ℕ → World → Result World
adopt_buffer b kind adopts size end w = do
  released ← release_buffer w
  ok (record released {
    this = record (released.this) {
      buffer_size = size;
      eof_offset = end;
      io_offset = 0;
      owns_buffer = adopts;
      allocation_type = kind;
      buffer = b;
    };
  })

-- The destructor.
pub destroy : World → Result Heap
destroy w = do released ← release_buffer w; ok released.heap

-- ::memcmp(a, b, n) == 0.
bytes_eq : List ℕ → List ℕ → ℕ → Result Bool
bytes_eq a b zero = ok true
bytes_eq [] b (suc n) = err fault
bytes_eq (x ∷ a) [] (suc n) = err fault
bytes_eq (x ∷ a) (y ∷ b) (suc n) = bytes_eq a b n >>= λ rest. ok (x == y && rest)

-- The do-while loop of operator==: the offset stays 0 in every round.
compare_chunks : ℕ → List ℕ → List ℕ → ℕ → Result Bool
unfolding bytes_eq
compare_chunks zero a b remaining = ok true
compare_chunks (suc fuel) a b remaining =
    let chunk = min max_s32 remaining in
    let rest = compare_chunks fuel a b (remaining - chunk) in
    bytes_eq a b chunk >>= λ same. if same && ltb 0 (remaining - chunk) then rest else ok same

-- operator==.
pub stream_eq : Platform → Heap → MemoryStream → MemoryStream → Result Bool
unfolding bytes_eq compare_chunks
stream_eq p h m1 m2 =
    let n = m1.eof_offset in
    if not (m2.eof_offset == n)
    then ok false
    else (if n == 0 then ok true else (do
      a ← load h m1.buffer
      b ← load h m2.buffer
      if not (need_size_conversion p n) then bytes_eq a b n else compare_chunks n a b n))

-- VReadOnlyMemoryStream: its constructor, and write and flush, which it overrides.
pub read_only : Pointer → ℕ → MemoryStream
unfolding construct_on
read_only b end = construct_on b unknown false end end increment_2x

pub read_only_write : List ℕ → World → Result World
read_only_write ys w = err eof

pub read_only_flush : World → Result World
read_only_flush w = err eof
