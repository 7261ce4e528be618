-- ===== src/Streams/Memory/Expand.antt =====
-- The reallocation in _prepareToWrite of source/streams/vmemorystream.cpp: a larger buffer holds the same
-- data.
use code_vault.Base.{
  ℕ, ◌+◌, ◌≤◌, ◌<◌, ◌≡◌, refl, sym, ◌≢◌, ap, ◌∙◌, inl, inr, true, some, List, ok, err, bad_alloc,
  length, take, tabulate, splice, set, if◌then◌else◌, arith, Bool-cases, length-tabulate,
  length-splice, length-take, take-splice_end, length-set,
}
use code_vault.Heap.{Heap, Origin, block_at, load, store, allocate, live}
use code_vault.Heap.Laws.{
  block_at-lt, load_live, store_live, block_at-store, block_at-store_ne, block_at-allocate,
  block_at-allocate_old, length-allocate,
}
use code_vault.Streams.{Platform, copy_memory}
use code_vault.Streams.Copy.{copy_memory_within}
use code_vault.Streams.Memory.{World, expand_buffer}
use code_vault.Streams.Memory.Invariant.{
  IsValid, contents, contents_valid, up_to, memory_for, SameElsewhere, new_kind, new_origin,
  new_origin-can_release, create_new_buffer_lem, released_heap, released_heap_ne,
  release_buffer_live, length-released_heap,
}

module _ (p : Platform) (size : ℕ) (w : World) (v : IsValid w)
    (covers : w.this.eof_offset ≤ size) where
  abbrev pub junk : List ℕ
  junk = tabulate size (p.garbage w.heap)

  abbrev pub origin' : Origin
  origin' = new_origin w.this.allocation_type

  -- The new block's bytes: the stream's data, and then what stood there.
  abbrev pub bytes' : List ℕ
  bytes' = splice junk 0 (take w.this.eof_offset v.bytes)

  abbrev pub copied_heap : Heap
  copied_heap = set (allocate w.heap origin' junk) (length w.heap) (live origin' bytes')

  abbrev pub expanded : World
  expanded = record {
    heap = released_heap w.this.owns_buffer w.this.allocation_type copied_heap v.place;
    this = record (w.this) {
      buffer = some (length w.heap);
      buffer_size = size;
      allocation_type = new_kind w.this.allocation_type;
    };
  }

  place-lt : v.place < length w.heap
  place-lt = block_at-lt w.heap v.place v.origin v.bytes v.holds

  apart : length w.heap ≢ v.place
  apart = omega (arith, place-lt)

  length-data : length (take w.this.eof_offset v.bytes) ≡ w.this.eof_offset
  length-data = omega (arith, length-take w.this.eof_offset v.bytes, v.fits, v.eof_fits)

  old_holds : block_at (allocate w.heap origin' junk) (some v.place) ≡ some (v.origin, v.bytes)
  old_holds = block_at-allocate_old w.heap origin' junk v.place place-lt ∙ v.holds

  pub load_old : load (allocate w.heap origin' junk) w.this.buffer ≡ ok v.bytes
  load_old = rw v.points (load_live _ (some v.place) v.origin v.bytes old_holds)

  pub copy_old : copy_memory p v.bytes w.this.eof_offset ≡ ok (take w.this.eof_offset v.bytes)
  copy_old = copy_memory_within p v.bytes w.this.eof_offset (omega (arith, v.fits, v.eof_fits))

  pub store_data :
      store (allocate w.heap origin' junk) (some (length w.heap)) 0 (take w.this.eof_offset v.bytes)
      ≡ ok copied_heap
  store_data =
      store_live _ (length w.heap) origin' junk 0 _ (block_at-allocate w.heap origin' junk)
        (omega (arith, length-data, length-tabulate size (p.garbage w.heap)))

  still_holds : block_at copied_heap (some v.place) ≡ some (v.origin, v.bytes)
  still_holds = block_at-store_ne _ (length w.heap) v.place origin' bytes' apart ∙ old_holds

  pub expand_buffer_lem :
      expand_buffer p size w ≡ (if memory_for p w.heap size then ok expanded else err bad_alloc)
  unfolding expand_buffer
  expand_buffer_lem = elim (Bool-cases (memory_for p w.heap size)) [
    | inr lacks ↦ simp (create_new_buffer_lem, lacks)
    | inl enough ↦ simp (
      create_new_buffer_lem,
      enough,
      load_old,
      copy_old,
      store_data,
      release_buffer_live (record w { heap = copied_heap }) v.place v.origin v.bytes v.points
          still_holds v.releasable,
    )
  ]

  new_holds : block_at expanded.heap (some (length w.heap)) ≡ some (origin', bytes')
  new_holds =
      released_heap_ne w.this.owns_buffer w.this.allocation_type copied_heap v.place (length w.heap)
        (λ e. apart (sym e))
      ∙ block_at-store _ (length w.heap) origin' junk 0 _ (block_at-allocate w.heap origin' junk)

  pub expanded-IsValid : IsValid expanded
  expanded-IsValid = record {
    place = length w.heap;
    origin = origin';
    bytes = bytes';
    points = refl;
    holds = new_holds;
    fits = omega (
      arith,
      length-splice junk 0 (take w.this.eof_offset v.bytes),
      length-tabulate size (p.garbage w.heap),
    );
    eof_fits = covers;
    io_fits = v.io_fits;
    releasable = λ _. new_origin-can_release w.this.allocation_type;
  }

  pub contents-expanded : contents expanded ≡ contents w
  unfolding expanded-IsValid
  contents-expanded =
      contents_valid expanded expanded-IsValid
      ∙ take-splice_end junk 0 (take w.this.eof_offset v.bytes) w.this.eof_offset
          (omega (arith, length-data)) (omega (arith, length-tabulate size (p.garbage w.heap)))
      ∙ sym (contents_valid w v)

  pub expanded-SameElsewhere : SameElsewhere w expanded
  expanded-SameElsewhere q other old =
      released_heap_ne w.this.owns_buffer w.this.allocation_type copied_heap v.place q
        (λ e. other (v.points ∙ ap some e))
      ∙ block_at-store_ne _ (length w.heap) q origin' bytes' (omega arith)
      ∙ block_at-allocate_old w.heap origin' junk q old

  pub length-expanded : length w.heap ≤ length expanded.heap
  length-expanded = omega (
    arith,
    length-released_heap w.this.owns_buffer w.this.allocation_type copied_heap v.place,
    length-set (allocate w.heap origin' junk) (length w.heap) (live origin' bytes'),
    length-allocate w.heap origin' junk,
  )

  -- A second stream on the new block, while the first keeps its own.
  abbrev pub copied : World
  copied = record {
    heap = copied_heap;
    this = record (w.this) {
      buffer = some (length w.heap);
      buffer_size = size;
      allocation_type = new_kind w.this.allocation_type;
      owns_buffer = true;
    };
  }

  copied_holds : block_at copied_heap (some (length w.heap)) ≡ some (origin', bytes')
  copied_holds =
      block_at-store _ (length w.heap) origin' junk 0 _ (block_at-allocate w.heap origin' junk)

  pub copied-IsValid : IsValid copied
  copied-IsValid = record {
    place = length w.heap;
    origin = origin';
    bytes = bytes';
    points = refl;
    holds = copied_holds;
    fits = omega (
      arith,
      length-splice junk 0 (take w.this.eof_offset v.bytes),
      length-tabulate size (p.garbage w.heap),
    );
    eof_fits = covers;
    io_fits = v.io_fits;
    releasable = λ _. new_origin-can_release w.this.allocation_type;
  }

  pub contents-copied : contents copied ≡ contents w
  contents-copied = ap (up_to w.this.eof_offset) (copied_holds ∙ sym new_holds) ∙ contents-expanded

  -- No block that was there before changes.
  pub copied_same :
      (q : ℕ) → q < length w.heap → block_at copied_heap (some q) ≡ block_at w.heap (some q)
  copied_same q old =
      block_at-store_ne _ (length w.heap) q origin' bytes' (omega arith)
      ∙ block_at-allocate_old w.heap origin' junk q old

  pub length-copied_heap : length copied_heap ≡ length w.heap + 1
  length-copied_heap =
      length-set (allocate w.heap origin' junk) (length w.heap) (live origin' bytes')
      ∙ length-allocate w.heap origin' junk
