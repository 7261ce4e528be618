-- ===== src/Heap/Laws.antt =====
-- What each operation on the heap does to the block that it is given, and to every other block.
use code_vault.Base.{
  ℕ, ◌+◌, ◌≤◌, ◌<◌, ◌≡◌, ◌≢◌, true, none, some, List, [], ◌∷◌, ok, length, set, splice, arith,
  get_elem?-set_self, get_elem?-set_ne, get_elem?-append_left, get_elem?-append_end, get_elem?-lt,
  le→leb, length-append,
}
use code_vault.Heap.{
  Heap, Pointer, Block, freed, live, Origin, block_at, load, store, allocate, release, origin_eq,
}

pub block_at-lt :
    (h : Heap) (p : ℕ) (o : Origin) (bs : List ℕ)
    → block_at h (some p) ≡ some (o, bs)
    → p < length h
unfolding block_at
block_at-lt h p o bs e = ground (arith, get_elem?-lt h p (live o bs))

pub load_live :
    (h : Heap) (p : Pointer) (o : Origin) (bs : List ℕ)
    → block_at h p ≡ some (o, bs)
    → load h p ≡ ok bs
unfolding load
load_live h p o bs e = ground arith

-- A block whose content is replaced, or that is freed.
block_at-set_self :
    (h : Heap) (p : ℕ) (o : Origin) (bs : List ℕ)
    → p < length h
    → block_at (set h p (live o bs)) (some p) ≡ some (o, bs)
unfolding block_at
block_at-set_self h p o bs lt = ground (arith, get_elem?-set_self h p (live o bs) lt)

block_at-set_ne :
    (h : Heap) (p q : ℕ) (b : Block) → p ≢ q → block_at (set h p b) (some q) ≡ block_at h (some q)
unfolding block_at
block_at-set_ne h p q b ne = ground (arith, get_elem?-set_ne h p q b ne)

-- A store inside a live block succeeds, and lays the bytes over that block.
pub store_live :
    (h : Heap) (p : ℕ) (o : Origin) (bs : List ℕ) (i : ℕ) (ys : List ℕ)
    → block_at h (some p) ≡ some (o, bs)
    → i + length ys ≤ length bs
    → store h (some p) i ys ≡ ok (set h p (live o (splice bs i ys)))
unfolding store
store_live h p o bs i ys e fits = ground (arith, le→leb (i + length ys) (length bs) fits)

pub block_at-store :
    (h : Heap) (p : ℕ) (o : Origin) (bs : List ℕ) (i : ℕ) (ys : List ℕ)
    → block_at h (some p) ≡ some (o, bs)
    → block_at (set h p (live o (splice bs i ys))) (some p) ≡ some (o, splice bs i ys)
block_at-store h p o bs i ys e = block_at-set_self h p o (splice bs i ys) (block_at-lt h p o bs e)

pub block_at-store_ne :
    (h : Heap) (p q : ℕ) (o : Origin) (bs : List ℕ)
    → p ≢ q
    → block_at (set h p (live o bs)) (some q) ≡ block_at h (some q)
block_at-store_ne h p q o bs ne = block_at-set_ne h p q (live o bs) ne

pub block_at-allocate :
    (h : Heap) (o : Origin) (bs : List ℕ)
    → block_at (allocate h o bs) (some (length h)) ≡ some (o, bs)
unfolding block_at allocate
block_at-allocate h o bs = ground (arith, get_elem?-append_end h (live o bs))

pub block_at-allocate_old :
    (h : Heap) (o : Origin) (bs : List ℕ) (p : ℕ)
    → p < length h
    → block_at (allocate h o bs) (some p) ≡ block_at h (some p)
unfolding block_at allocate
block_at-allocate_old h o bs p lt = ground (arith, get_elem?-append_left h (live o bs ∷ []) p lt)

-- Freeing a live block in the way in which it was allocated succeeds.
pub release_live :
    (h : Heap) (p : ℕ) (o : Origin) (bs : List ℕ) (by : Origin)
    → block_at h (some p) ≡ some (o, bs)
    → origin_eq o by ≡ true
    → release h (some p) by ≡ ok (set h p freed)
unfolding release
release_live h p o bs by e same = ground arith

-- A block that was freed cannot be read, written or freed again.
pub block_at-freed : (h : Heap) (p : ℕ) → p < length h → block_at (set h p freed) (some p) ≡ none
unfolding block_at
block_at-freed h p lt = ground (arith, get_elem?-set_self h p freed lt)

pub block_at-freed_ne :
    (h : Heap) (p q : ℕ) → p ≢ q → block_at (set h p freed) (some q) ≡ block_at h (some q)
block_at-freed_ne h p q ne = block_at-set_ne h p q freed ne

pub length-allocate :
    (h : Heap) (o : Origin) (bs : List ℕ) → length (allocate h o bs) ≡ length h + 1
unfolding allocate
length-allocate h o bs = omega (arith, length-append h (live o bs ∷ []))
