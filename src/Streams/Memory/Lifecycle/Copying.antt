-- ===== src/Streams/Memory/Lifecycle/Copying.antt =====
-- The copy constructor and operator= of source/streams/vmemorystream.cpp.
use code_vault.Base.{
  ℕ, ◌<◌, ◌≡◌, refl, sym, ◌≢◌, ap, ◌∙◌, ◌⊎◌, inl, inr, true, false, some, List, ok, err, bad_alloc,
  length, arith, Bool-cases, if◌then◌else◌, ok-injective, subst,
}
use code_vault.Heap.{block_at, Origin}
use code_vault.Heap.Laws.{block_at-lt}
use code_vault.Streams.{Platform}
use code_vault.Streams.Memory.{World, MemoryStream, write}
use code_vault.Streams.Memory.Lifecycle.{copy_construct, assign, borrow, own_copy}
use code_vault.Streams.Memory.Invariant.{
  IsValid, contents, up_to, block_valid, memory_for, create_new_buffer_lem,
}
use code_vault.Streams.Memory.Expand.{
  copied, copied-IsValid, contents-copied, copied_same, load_old, copy_old, store_data,
  length-copied_heap,
}
use code_vault.Streams.Memory.Access.{write_ok}

module _ (p : Platform) (w : World) (v : IsValid w) where
  abbrev pub the_copy : World
  the_copy = copied p w.this.buffer_size w v v.eof_fits

  own_copy_lem :
      own_copy p w.heap w.this
      ≡ (if memory_for p w.heap w.this.buffer_size then ok the_copy else err bad_alloc)
  unfolding own_copy
  own_copy_lem = elim (Bool-cases (memory_for p w.heap w.this.buffer_size)) [
    | inr lacks ↦ simp (create_new_buffer_lem, lacks)
    | inl enough ↦ simp (
      create_new_buffer_lem,
      enough,
      load_old p w.this.buffer_size w v v.eof_fits,
      copy_old p w.this.buffer_size w v v.eof_fits,
      store_data p w.this.buffer_size w v v.eof_fits,
    )
  ]

  -- The stream that was copied, on the heap of its copy.
  abbrev pub original : World
  original = record { heap = the_copy.heap; this = w.this }

  place-lt : v.place < length w.heap
  place-lt = block_at-lt w.heap v.place v.origin v.bytes v.holds

  original_holds : block_at original.heap (some v.place) ≡ some (v.origin, v.bytes)
  original_holds = copied_same p w.this.buffer_size w v v.eof_fits v.place place-lt ∙ v.holds

  original-IsValid : IsValid original
  original-IsValid = record {
    place = v.place;
    origin = v.origin;
    bytes = v.bytes;
    points = v.points;
    holds = original_holds;
    fits = v.fits;
    eof_fits = v.eof_fits;
    io_fits = v.io_fits;
    releasable = v.releasable;
  }

  contents-original : contents original ≡ contents w
  contents-original =
      ap (λ b. up_to w.this.eof_offset (block_at original.heap b)) v.points
      ∙ ap (up_to w.this.eof_offset) original_holds
      ∙ sym (ap (up_to w.this.eof_offset) (block_valid w v))

  -- Copying a stream that owns its buffer either throws bad_alloc, where there is no memory, or gives
  -- a second valid stream with the same data and offsets, in a new block, while the first stream stays
  -- valid with its data.
  copy_construct_owned :
      w.this.owns_buffer ≡ true
      → ((memory_for p w.heap w.this.buffer_size ≡ false)
          × (copy_construct p w.heap w.this ≡ err bad_alloc))
        ⊎ ((w' : World) × (copy_construct p w.heap w.this ≡ ok w')
            × IsValid w'
            × (contents w' ≡ contents w)
            × (w'.this.io_offset ≡ w.this.io_offset)
            × (w'.this.buffer ≢ w.this.buffer)
            × IsValid (record { heap = w'.heap; this = w.this })
            × (contents (record { heap = w'.heap; this = w.this }) ≡ contents w))
  unfolding copy_construct
  copy_construct_owned owns = elim (Bool-cases (memory_for p w.heap w.this.buffer_size)) [
    | inr lacks ↦ inl (lacks, simp (owns, own_copy_lem, lacks))
    | inl enough ↦ inr (
      the_copy,
      simp (owns, own_copy_lem, enough),
      copied-IsValid p w.this.buffer_size w v v.eof_fits,
      contents-copied p w.this.buffer_size w v v.eof_fits,
      refl,
      (λ e. absurd (ground (arith, place-lt, v.points))),
      original-IsValid,
      contents-original,
    )
  ]

  -- Copying a stream on someone else's buffer shares that buffer and does not own it.
  copy_construct_shared :
      w.this.owns_buffer ≡ false
      → copy_construct p w.heap w.this ≡ ok (record { heap = w.heap; this = borrow w.this })
  unfolding copy_construct
  copy_construct_shared shares = simp shares

is_the_copy :
    (p : Platform) (w w' : World) (v : IsValid w)
    → w.this.owns_buffer ≡ true
    → copy_construct p w.heap w.this ≡ ok w'
    → the_copy p w v ≡ w'
unfolding copy_construct
is_the_copy p w w' v owns copies = elim (Bool-cases (memory_for p w.heap w.this.buffer_size)) [
  | inl enough ↦ ok-injective (the_copy p w v) w' (sym (copies_to enough) ∙ copies)
  | inr lacks ↦ absurd (cc (fails lacks))
]
  where
    copies_to :
        memory_for p w.heap w.this.buffer_size ≡ true
        → copy_construct p w.heap w.this ≡ ok (the_copy p w v)
    copies_to enough = simp (owns, own_copy_lem p w v, enough)

    fails :
        memory_for p w.heap w.this.buffer_size ≡ false
        → copy_construct p w.heap w.this ≡ err bad_alloc
    fails lacks = simp (owns, own_copy_lem p w v, lacks)

-- Copy and original are independent: a write to the copy of a stream that owns its buffer leaves the
-- data of the original as they were, and a write to the original leaves the data of the copy.
pub write-copy_construct :
    (p : Platform) (ys : List ℕ) (w w' w1 w2 : World)
    → IsValid w
    → w.this.owns_buffer ≡ true
    → copy_construct p w.heap w.this ≡ ok w'
    → write p ys w' ≡ ok w1
    → write p ys (record { heap = w'.heap; this = w.this }) ≡ ok w2
    → (contents (record { heap = w1.heap; this = w.this }) ≡ contents w)
      × (contents (record { heap = w2.heap; this = w'.this }) ≡ contents w)
write-copy_construct p ys w w' w1 w2 v owns copies writes_copy writes_original =
    (kept_original, kept_copy)
  where
    c : World
    c = the_copy p w v

    same : c ≡ w'
    same = is_the_copy p w w' v owns copies

    grown : v.place < length c.heap
    grown = omega (arith, place-lt p w v, length-copied_heap p w.this.buffer_size w v v.eof_fits)

    kept_original : contents (record { heap = w1.heap; this = w.this }) ≡ contents w
    kept_original =
        ap (λ b. up_to w.this.eof_offset (block_at w1.heap b)) v.points
        ∙ ap (up_to w.this.eof_offset) (
            (write_ok p ys c w1 (copied-IsValid p w.this.buffer_size w v v.eof_fits)
                (subst (λ x. write p ys x ≡ ok w1) (sym same) writes_copy)).elsewhere
              v.place (λ e. absurd (ground (arith, place-lt p w v))) grown
            ∙ original_holds p w v)
        ∙ sym (ap (up_to w.this.eof_offset) (block_valid w v))

    kept_copy : contents (record { heap = w2.heap; this = w'.this }) ≡ contents w
    kept_copy =
        ap (λ (x : World). contents (record { heap = w2.heap; this = x.this })) (sym same)
        ∙ ap (up_to w.this.eof_offset) (
            (write_ok p ys (original p w v) w2 (original-IsValid p w v) (
                subst (λ (x : World). write p ys (record { heap = x.heap; this = w.this }) ≡ ok w2)
                  (sym same) writes_original)).elsewhere
              (length w.heap) (λ e. absurd (ground (arith, place-lt p w v, v.points)))
              (omega (arith, length-copied_heap p w.this.buffer_size w v v.eof_fits)))
        ∙ contents-copied p w.this.buffer_size w v v.eof_fits

-- operator= loses the block of the left-hand stream: whether it returns or throws, the block that the
-- stream pointed to before is still allocated with its bytes, and the stream no longer points to it.
pub assign_leaks :
    (p : Platform) (w : World) (this : MemoryStream) (q : ℕ) (o : Origin) (bs : List ℕ)
    → IsValid w
    → this.buffer ≡ some q
    → block_at w.heap (some q) ≡ some (o, bs)
    → w.this.buffer ≢ some q
    → let w' = (assign p w.heap this w.this).1 in
      (block_at w'.heap (some q) ≡ some (o, bs)) × (w'.this.buffer ≢ some q)
unfolding assign
assign_leaks p w this q o bs v points holds apart = elim (Bool-cases w.this.owns_buffer) [
  | inr shares ↦ simp shares (holds, apart)
  | inl owns ↦ elim (Bool-cases (memory_for p w.heap w.this.buffer_size)) [
    | inr lacks ↦ simp (owns, own_copy_lem p w v, lacks) (holds, apart)
    | inl enough ↦
        simp (owns, own_copy_lem p w v, enough)
          (
            copied_same p w.this.buffer_size w v v.eof_fits q (block_at-lt w.heap q o bs holds)
                ∙ holds,
            λ e. absurd (ground (arith, block_at-lt w.heap q o bs holds)),
          )
  ]
]
