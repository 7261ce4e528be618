-- ===== src/Streams/Memory/Invariant.antt =====
-- What _assertInvariant of source/streams/vmemorystream.cpp asks of a stream, with what it takes for
-- granted of the heap; and the reallocation of a buffer, which keeps it.
use code_vault.Base.{
  ℕ, ◌≤◌, ◌<◌, ◌≡◌, refl, ◌≢◌, ap, ◌∙◌, inl, inr, Bool, true, false, not, ◌&&◌, Option, none, some,
  List, [], ok, err, bad_alloc, length, take, tabulate, set, if◌then◌else◌, arith, Bool-cases,
  length-take, length-set,
}
use code_vault.Heap.{
  Heap, Origin, from_new, from_malloc, block_at, load, allocate, origin_eq, freed,
}
use code_vault.Heap.Laws.{load_live, release_live, block_at-freed_ne}
use code_vault.Streams.{Platform, fits_size_t, new_new_buffer, malloc_new_buffer}
use code_vault.Streams.Memory.{
  World, NewBuffer, AllocationType, by_operator_new, by_malloc, on_stack, unknown,
  create_new_buffer, release_buffer, free_as,
}

-- The way in which a buffer of that type is released fits the way in which it was allocated.
abbrev pub can_release : AllocationType → Origin → Bool
can_release by_operator_new o = origin_eq o from_new
can_release by_malloc o = origin_eq o from_malloc
can_release on_stack o = true
can_release unknown o = true

pub record IsValid (w : World) : Type 0 where
  pub place : ℕ
  pub origin : Origin
  pub bytes : List ℕ
  pub points : w.this.buffer ≡ some place
  pub holds : block_at w.heap (some place) ≡ some (origin, bytes)
  pub fits : w.this.buffer_size ≤ length bytes
  pub eof_fits : w.this.eof_offset ≤ w.this.buffer_size
  pub io_fits : w.this.io_offset ≤ w.this.eof_offset
  pub releasable : w.this.owns_buffer ≡ true → can_release w.this.allocation_type origin ≡ true

abbrev pub up_to : ℕ → Option (Origin × List ℕ) → List ℕ
up_to n none = []
up_to n (some (o, bs)) = take n bs

-- The data of a stream: the bytes of its buffer before the end-of-file offset.
abbrev pub contents : World → List ℕ
contents w = up_to w.this.eof_offset (block_at w.heap w.this.buffer)

pub block_valid :
    (w : World) (v : IsValid w) → block_at w.heap w.this.buffer ≡ some (v.origin, v.bytes)
block_valid w v = ap (block_at w.heap) v.points ∙ v.holds

-- The stream with other offsets.
abbrev pub with_offsets : World → ℕ → ℕ → World
with_offsets w io end = record w { this = record (w.this) { io_offset = io; eof_offset = end } }

-- Validity asks of the offsets only their order.
pub with_offsets-IsValid :
    (w : World) (io end : ℕ)
    → IsValid w
    → end ≤ w.this.buffer_size
    → io ≤ end
    → IsValid (with_offsets w io end)
with_offsets-IsValid w io end v h k = record {
  place = v.place;
  origin = v.origin;
  bytes = v.bytes;
  points = v.points;
  holds = v.holds;
  fits = v.fits;
  eof_fits = h;
  io_fits = k;
  releasable = v.releasable;
}

pub contents_valid : (w : World) (v : IsValid w) → contents w ≡ take w.this.eof_offset v.bytes
contents_valid w v = ap (up_to w.this.eof_offset) (block_valid w v)

pub length-contents : (w : World) → IsValid w → length (contents w) ≡ w.this.eof_offset
length-contents w v =
    ap length (contents_valid w v)
    ∙ omega (arith, length-take w.this.eof_offset v.bytes, v.fits, v.eof_fits)

pub load_valid : (w : World) (v : IsValid w) → load w.heap w.this.buffer ≡ ok v.bytes
load_valid w v = rw v.points (load_live w.heap (some v.place) v.origin v.bytes v.holds)

-- Whether the allocator gives a block of `n` bytes.
abbrev pub memory_for : Platform → Heap → ℕ → Bool
memory_for p h n = fits_size_t p n && not (p.exhausted h n)

-- No other block changes.
abbrev pub SameElsewhere : World → World → Type 0
SameElsewhere w w' =
    (q : ℕ)
    → w.this.buffer ≢ some q
    → q < length w.heap
    → block_at w'.heap (some q) ≡ block_at w.heap (some q)

abbrev pub new_kind : AllocationType → AllocationType
new_kind by_malloc = by_malloc
new_kind _ = by_operator_new

abbrev pub new_origin : AllocationType → Origin
new_origin by_malloc = from_malloc
new_origin _ = from_new

abbrev pub fresh_buffer : Platform → AllocationType → ℕ → Heap → NewBuffer
fresh_buffer p t n h = record {
  block = some (length h);
  kind = new_kind t;
  after = allocate h (new_origin t) (tabulate n (p.garbage h));
}

pub new_origin-can_release : (t : AllocationType) → can_release (new_kind t) (new_origin t) ≡ true
new_origin-can_release by_malloc = refl
new_origin-can_release _ = refl

pub create_new_buffer_lem :
    (p : Platform) (t : AllocationType) (n : ℕ) (h : Heap)
    → create_new_buffer p t n h
      ≡ (if memory_for p h n then ok (fresh_buffer p t n h) else err bad_alloc)
unfolding create_new_buffer new_new_buffer malloc_new_buffer
create_new_buffer_lem p by_operator_new n h = ground arith
create_new_buffer_lem p by_malloc n h = ground arith
create_new_buffer_lem p on_stack n h = ground arith
create_new_buffer_lem p unknown n h = ground arith

-- The heap after the buffer at `place` was released.
abbrev pub released_heap : Bool → AllocationType → Heap → ℕ → Heap
released_heap true by_operator_new h place = set h place freed
released_heap true by_malloc h place = set h place freed
released_heap true on_stack h place = h
released_heap true unknown h place = h
released_heap false t h place = h

pub released_heap_ne :
    (owns : Bool) (t : AllocationType) (h : Heap) (place q : ℕ)
    → place ≢ q
    → block_at (released_heap owns t h place) (some q) ≡ block_at h (some q)
released_heap_ne true by_operator_new h place q ne = block_at-freed_ne h place q ne
released_heap_ne true by_malloc h place q ne = block_at-freed_ne h place q ne
released_heap_ne true on_stack h place q ne = refl
released_heap_ne true unknown h place q ne = refl
released_heap_ne false t h place q ne = refl

pub length-released_heap :
    (owns : Bool) (t : AllocationType) (h : Heap) (place : ℕ)
    → length (released_heap owns t h place) ≡ length h
length-released_heap true by_operator_new h place = length-set h place freed
length-released_heap true by_malloc h place = length-set h place freed
length-released_heap true on_stack h place = refl
length-released_heap true unknown h place = refl
length-released_heap false t h place = refl

free_as_live :
    (t : AllocationType) (h : Heap) (place : ℕ) (o : Origin) (bs : List ℕ)
    → block_at h (some place) ≡ some (o, bs)
    → can_release t o ≡ true
    → free_as t h (some place) ≡ ok (released_heap true t h place)
unfolding free_as
free_as_live by_operator_new h place o bs holds can = release_live h place o bs from_new holds can
free_as_live by_malloc h place o bs holds can = release_live h place o bs from_malloc holds can
free_as_live on_stack h place o bs holds can = refl
free_as_live unknown h place o bs holds can = refl

module _ (w : World) (place : ℕ) (o : Origin) (bs : List ℕ) (points : w.this.buffer ≡ some place)
    (holds : block_at w.heap (some place) ≡ some (o, bs))
    (releasable : w.this.owns_buffer ≡ true → can_release w.this.allocation_type o ≡ true) where
  -- Releasing the buffer of a valid stream succeeds.
  pub release_buffer_live :
      release_buffer w
      ≡ ok (record {
        heap = released_heap w.this.owns_buffer w.this.allocation_type w.heap place;
        this = record (w.this) { buffer = none };
      })
  unfolding release_buffer
  release_buffer_live = elim (Bool-cases w.this.owns_buffer) [
    | inl owns ↦ simp (
      owns,
      points,
      free_as_live w.this.allocation_type w.heap place o bs holds (releasable owns),
    )
    | inr shares ↦ simp shares
  ]
