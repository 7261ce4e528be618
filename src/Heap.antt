-- ===== src/Heap.antt =====
-- The memory that the streams' buffers live in: what operator new[], malloc, delete[] and free do.
-- A pointer to the first byte of a block is the block's number, or `none` for NULL.
pub mod Laws
use code_vault.Base.{
  ℕ, zero, suc, ◌+◌, Bool, true, false, Option, none, some, List, [], ◌∷◌, ◌++◌, Result, ok, err,
  fault, guard, ◌>>=◌, ◌>>◌, length, get_elem?, set, splice, leb,
}

pub data Origin : Type 0 where
  from_new from_malloc elsewhere : Origin

pub data Block : Type 0 where
  freed : Block
  live : Origin → List ℕ → Block

abbrev pub Heap : Type 0
Heap = List Block

abbrev pub Pointer : Type 0
Pointer = Option ℕ

abbrev bytes_of_block : Option Block → Option (Origin × List ℕ)
bytes_of_block none = none
bytes_of_block (some freed) = none
bytes_of_block (some (live o bs)) = some (o, bs)

-- The live block that a pointer leads to.
unfoldable pub block_at : Heap → Pointer → Option (Origin × List ℕ)
block_at h none = none
block_at h (some p) = bytes_of_block (get_elem? h p)

unfoldable pub load : Heap → Pointer → Result (List ℕ)
load h p = elim (block_at h p) [ none ↦ err fault | some (o, bs) ↦ ok bs ]

overlay : Heap → ℕ → ℕ → List ℕ → Option (Origin × List ℕ) → Result Heap
overlay h p i ys none = err fault
overlay h p i ys (some (o, bs)) = do
  guard (leb (i + length ys) (length bs)) fault
  ok (set h p (live o (splice bs i ys)))

-- Copies `ys` to the bytes at `p + i` on.
unfoldable pub store : Heap → Pointer → ℕ → List ℕ → Result Heap
unfolding overlay
store h none i ys = err fault
store h (some p) i ys = overlay h p i ys (block_at h (some p))

-- A new block has the next number.
unfoldable pub allocate : Heap → Origin → List ℕ → Heap
allocate h o bs = h ++ live o bs ∷ []

abbrev pub origin_eq : Origin → Origin → Bool
origin_eq from_new from_new = true
origin_eq from_malloc from_malloc = true
origin_eq elsewhere elsewhere = true
origin_eq _ _ = false

drop_block : Heap → ℕ → Origin → Option (Origin × List ℕ) → Result Heap
drop_block h p by none = err fault
drop_block h p by (some (o, bs)) = do guard (origin_eq o by) fault; ok (set h p freed)

-- delete[] (by `from_new`) and free (by `from_malloc`); NULL is let pass.
unfoldable pub release : Heap → Pointer → Origin → Result Heap
unfolding drop_block
release h none by = ok h
release h (some p) by = drop_block h p by (block_at h (some p))
