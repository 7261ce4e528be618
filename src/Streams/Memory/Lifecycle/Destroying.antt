-- ===== src/Streams/Memory/Lifecycle/Destroying.antt =====
-- The destructor of source/streams/vmemorystream.cpp.
use code_vault.Base.{
  ℕ, ◌<◌, ◌≡◌, refl, ◌≢◌, ap, ◌∙◌, Bool, true, false, ◌&&◌, none, some, ok, length, if◌then◌else◌,
}
use code_vault.Heap.{Heap, block_at}
use code_vault.Heap.Laws.{block_at-lt, block_at-freed}
use code_vault.Streams.Memory.{World, AllocationType, by_operator_new, by_malloc, on_stack, unknown}
use code_vault.Streams.Memory.Lifecycle.{destroy}
use code_vault.Streams.Memory.Invariant.{
  IsValid, release_buffer_live, released_heap, released_heap_ne,
}

-- Blocks of operator new and of malloc are freed; others are not the stream's to free.
abbrev pub frees : AllocationType → Bool
frees by_operator_new = true
frees by_malloc = true
frees _ = false

released_heap_self :
    (owns : Bool) (t : AllocationType) (h : Heap) (place : ℕ)
    → place < length h
    → block_at (released_heap owns t h place) (some place)
      ≡ (if owns && frees t then none else block_at h (some place))
released_heap_self true by_operator_new h place lt = block_at-freed h place lt
released_heap_self true by_malloc h place lt = block_at-freed h place lt
released_heap_self true on_stack h place lt = refl
released_heap_self true unknown h place lt = refl
released_heap_self false t h place lt = refl

-- Destroying a valid stream frees its block exactly where it owns it and operator new or malloc made
-- it, and touches no other block.
pub destroy-frees :
    (w : World)
    → IsValid w
    → (h : Heap) × (destroy w ≡ ok h)
      × (block_at h w.this.buffer ≡ (
          if w.this.owns_buffer && frees w.this.allocation_type
          then none
          else block_at w.heap w.this.buffer))
      × ((q : ℕ) → w.this.buffer ≢ some q → block_at h (some q) ≡ block_at w.heap (some q))
unfolding destroy
destroy-frees w v = (
  released_heap w.this.owns_buffer w.this.allocation_type w.heap v.place,
  simp (release_buffer_live w v.place v.origin v.bytes v.points v.holds v.releasable),
  rw v.points (
      released_heap_self w.this.owns_buffer w.this.allocation_type w.heap v.place
        (place-lt_of w v)),
  λ q other.
      released_heap_ne w.this.owns_buffer w.this.allocation_type w.heap v.place q
        (λ e. other (v.points ∙ ap some e)),
)
  where
    place-lt_of : (w : World) (v : IsValid w) → v.place < length w.heap
    place-lt_of w v = block_at-lt w.heap v.place v.origin v.bytes v.holds
