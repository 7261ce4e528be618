-- ===== src/Streams.antt =====
-- source/streams/vstream.cpp: the helpers that every stream uses. What the C++ run time decides is
-- the parameter `Platform`.
pub mod Copy
pub mod Memory
pub mod Raw
pub mod Order
pub mod Binary
pub mod Transfer
pub mod Buffered
pub mod Copier
pub mod Tests
use code_vault.Base.{
  ℕ, zero, suc, ◌-◌, min, Bool, not, ◌&&◌, ◌||◌, List, [], ◌++◌, Result, ok, bad_alloc, fault,
  guard, ◌>>=◌, ◌>>◌, length, take, drop, tabulate, ltb, leb, if◌then◌else◌,
}
use code_vault.Heap.{Heap, allocate, Origin, from_new, from_malloc}

abbrev pub max_s32 : ℕ
max_s32 = 0x7fff_ffff

-- `wide_size`: sizeof(size_t) is sizeof(Vs64). `exhausted`: the allocator cannot give a block of that
-- size. `garbage`: the byte that stands at an offset of a new block before anything is written.
pub record Platform : Type 0 where
  pub wide_size : Bool
  pub exhausted : Heap → ℕ → Bool
  pub garbage : Heap → ℕ → ℕ

-- ::memcpy reads `n` bytes from the source on, which must have them.
pub memcpy : List ℕ → ℕ → Result (List ℕ)
memcpy from n = do guard (leb n (length from)) fault; ok (take n from)

module _ (p : Platform) where
  pub need_size_conversion : ℕ → Bool
  need_size_conversion n = ltb max_s32 n && not p.wide_size

  -- The do-while loop of copyMemory, with `remaining` bytes to go: each round copies at least one.
  pub copy_chunks : ℕ → List ℕ → ℕ → Result (List ℕ)
  copy_chunks zero from remaining = ok []
  copy_chunks (suc fuel) from remaining =
      let chunk = min max_s32 remaining in
      let rest = copy_chunks fuel (drop chunk from) (remaining - chunk) in
      memcpy from chunk >>= λ head.
      if ltb 0 (remaining - chunk) then rest >>= (λ tail. ok (head ++ tail)) else ok head

  -- The bytes that copyMemory writes to its target.
  pub copy_memory : List ℕ → ℕ → Result (List ℕ)
  copy_memory from n = if not (need_size_conversion n) then memcpy from n else copy_chunks n from n

  -- The test of newNewBuffer and mallocNewBuffer before they ask the allocator.
  pub fits_size_t : ℕ → Bool
  fits_size_t n = p.wide_size || leb n max_s32

  new_block : Origin → ℕ → Heap → Result Heap
  new_block by n h = do
    guard (fits_size_t n) bad_alloc
    guard (not (p.exhausted h n)) bad_alloc
    ok (allocate h by (tabulate n (p.garbage h)))

  pub new_new_buffer : ℕ → Heap → Result Heap
  unfolding new_block fits_size_t
  new_new_buffer n h = new_block from_new n h

  pub malloc_new_buffer : ℕ → Heap → Result Heap
  unfolding new_block fits_size_t
  malloc_new_buffer n h = new_block from_malloc n h
