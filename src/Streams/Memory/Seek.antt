-- ===== src/Streams/Memory/Seek.antt =====
-- seek, skip and setEOF of source/streams/vmemorystream.cpp.
use code_vault.Base.{
  ℕ, zero, suc, ◌+◌, ◌-◌, ◌≤◌, ◌<◌, ◌≡◌, refl, sym, ap, ◌∙◌, ◌⊎◌, inl, inr, true, false, none, some,
  List, Failure, ok, err, length, take, drop, ltb, arith, ℤ, pos, negsuc, ltb-false, lt→ltb,
  take-take,
}
use native.Mathlib.Nat.{le_refl}
use code_vault.Streams.{Platform}
use code_vault.Streams.Memory.{
  World, read, write, seek, finish_read, finish_write, prepare_to_write, seek_to, move_to,
  zero_loop, requested_offset, Whence, seek_set,
}
use code_vault.Streams.Memory.Invariant.{
  IsValid, contents, contents_valid, SameElsewhere, length-contents, up_to, block_valid,
  with_offsets, with_offsets-IsValid,
}
use code_vault.Streams.Memory.Ready.{IsReady, write_failure, prepare_to_write_lem}
use code_vault.Streams.Memory.Access.{write_ok, overwrite_read, read_valid}

move_to-IsValid : (n : ℕ) (w : World) → IsValid w → n ≤ w.this.eof_offset → IsValid (move_to n w)
unfolding move_to
move_to-IsValid n w v h = with_offsets-IsValid w _ _ v v.eof_fits h

-- What a seek to an offset from 0 to the end of the data does.
abbrev pub at_offset : World → ℕ → World
at_offset w n = record w { this = record (w.this) { io_offset = n } }

seek_to_within :
    (p : Platform) (n : ℕ) (w : World)
    → n ≤ w.this.eof_offset
    → seek_to p (pos n) w ≡ (ok true, at_offset w n)
unfolding seek_to
seek_to_within p n w h = rw (ltb-false w.this.eof_offset n h)

pub seek_set_within :
    (p : Platform) (n : ℕ) (w : World)
    → n ≤ w.this.eof_offset
    → seek p (pos n) seek_set w ≡ (ok true, at_offset w n)
unfolding seek requested_offset
seek_set_within p n w h = seek_to_within p n w h

-- A seek, from the start or from the present offset, to a place within the data moves the i/o offset
-- there, reports success, and changes nothing else.
pub seek_within :
    (p : Platform) (offset : ℤ) (whence : Whence) (w : World) (n : ℕ)
    → IsValid w
    → requested_offset offset whence w.this ≡ pos n
    → n ≤ w.this.eof_offset
    → (seek p offset whence w ≡ (ok true, at_offset w n)) × IsValid (at_offset w n)
unfolding seek
seek_within p offset whence w n v e h =
    (rw e (seek_to_within p n w h), unfold move_to in move_to-IsValid n w v h)

-- A seek to a negative offset goes to offset 0 and reports false.
pub seek_negative :
    (p : Platform) (offset : ℤ) (whence : Whence) (w : World) (n : ℕ)
    → IsValid w
    → requested_offset offset whence w.this ≡ negsuc n
    → (seek p offset whence w ≡ (ok false, at_offset w 0)) × IsValid (at_offset w 0)
unfolding seek seek_to
seek_negative p offset whence w n v e =
    (rw e refl, unfold move_to in move_to-IsValid 0 w v (omega arith))

-- What is written at an offset can be read back from there: after a write that returned, a seek to
-- the offset where it began and a read of as many bytes give the bytes written.
pub read-write :
    (p : Platform) (ys : List ℕ) (w w' : World)
    → IsValid w
    → write p ys w ≡ ok w'
    → (seek p (pos w.this.io_offset) seek_set w' ≡ (ok true, at_offset w' w.this.io_offset))
      × (read p (length ys) (at_offset w' w.this.io_offset) ≡ ok (ys, w'))
unfolding seek move_to requested_offset finish_read
read-write p ys w w' v e =
    let written = write_ok p ys w w' v e in
    let back : w.this.io_offset ≤ w'.this.eof_offset = omega (arith, written.new_eof, v.io_fits) in
    let old = at_offset w' w.this.io_offset in
    let found : take (length ys) (drop w.this.io_offset (contents w')) ≡ ys =
      ap (λ t. take (length ys) (drop w.this.io_offset t)) written.new_data
      ∙ overwrite_read (contents w) w.this.io_offset ys
          (omega (arith, length-contents w v, v.io_fits)) in
    (
      seek_to_within p w.this.io_offset w' back,
      (read_valid p ys old (move_to-IsValid w.this.io_offset w' written.valid back) (length ys)).0
          ∙ ap (λ t. ok (t, finish_read (length t) old)) found
          ∙ ap (λ (k : ℕ). ok (ys, at_offset w' k)) (sym written.new_io),
    )

-- The loop that is to write zeroes runs no round where the end is where it was.
zero_loop_idle : (fuel old : ℕ) (w : World) → w.this.eof_offset ≤ old → zero_loop fuel old w ≡ ok w
unfolding zero_loop
zero_loop_idle zero old w h = refl
zero_loop_idle (suc fuel) old w h = rw (ltb-false old w.this.eof_offset h)

module _ (p : Platform) (n : ℕ) (w : World) (v : IsValid w) (past : w.this.eof_offset < n) where
  abbrev at_end : World
  at_end = at_offset w w.this.eof_offset

  at_end-IsValid : IsValid at_end
  at_end-IsValid = unfold move_to in move_to-IsValid w.this.eof_offset w v (le_refl _)

  seek_to_ready :
      (r : World)
      → prepare_to_write p (n - w.this.eof_offset) at_end ≡ ok r
      → r.this.eof_offset ≡ w.this.eof_offset
      → r.this.io_offset ≡ w.this.eof_offset
      → seek_to p (pos n) w ≡ (ok true, with_offsets r n n)
  unfolding seek_to finish_write
  seek_to_ready r prepared same_eof same_io =
      let reached : r.this.io_offset + (n - w.this.eof_offset) ≡ n = omega arith in
      let passes : ltb r.this.eof_offset n ≡ true = lt→ltb _ _ (omega arith) in
      simp (
        lt→ltb w.this.eof_offset n past,
        prepared,
        zero_loop_idle (r.this.eof_offset - w.this.eof_offset) w.this.eof_offset r (omega arith),
        reached,
        passes,
      )

  seek_to_throws :
      (e : Failure)
      → prepare_to_write p (n - w.this.eof_offset) at_end ≡ err e
      → seek_to p (pos n) w ≡ (err e, at_end)
  unfolding seek_to
  seek_to_throws e fails = simp (lt→ltb w.this.eof_offset n past, fails)

  lengthened-IsValid :
      (r : World) → IsReady (n - w.this.eof_offset) at_end r → IsValid (with_offsets r n n)
  lengthened-IsValid r ready =
      with_offsets-IsValid r n n ready.valid (omega (arith, ready.room, ready.same_io)) (le_refl _)

  kept_data :
      (r : World)
      → IsReady (n - w.this.eof_offset) at_end r
      → take w.this.eof_offset (contents (with_offsets r n n)) ≡ contents w
  kept_data r ready =
      ap (λ b. take w.this.eof_offset (up_to n b)) (block_valid r ready.valid)
      ∙ take-take w.this.eof_offset n ready.valid.bytes (omega arith)
      ∙ ap (λ k. take k ready.valid.bytes) (sym ready.same_eof)
      ∙ sym (contents_valid r ready.valid)
      ∙ ready.same_data

-- A seek past the end of the data either succeeds, and then the data start with the old ones and end
-- at the requested offset, where the i/o offset stands, the stream is valid, and no other block has
-- changed; or it throws what a write of that many bytes at the end throws, and has then moved the i/o
-- offset to the end of the data.
pub seek_past_end :
    (p : Platform) (offset : ℤ) (whence : Whence) (w : World) (n : ℕ)
    → IsValid w
    → requested_offset offset whence w.this ≡ pos n
    → w.this.eof_offset < n
    → ((w' : World) × (write_failure p (n - w.this.eof_offset) (at_offset w w.this.eof_offset)
          ≡ none)
        × (seek p offset whence w ≡ (ok true, w'))
        × IsValid w'
        × (w'.this.io_offset ≡ n)
        × (w'.this.eof_offset ≡ n)
        × (take w.this.eof_offset (contents w') ≡ contents w)
        × SameElsewhere w w')
      ⊎ ((e : Failure) × (write_failure p (n - w.this.eof_offset) (at_offset w w.this.eof_offset)
            ≡ some e)
          × (seek p offset whence w ≡ (err e, at_offset w w.this.eof_offset)))
unfolding seek
seek_past_end p offset whence w n v e past =
    elim (prepare_to_write_lem p (n - w.this.eof_offset) (at_end p n w v past)
      (at_end-IsValid p n w v past)) [
        | inr (f, why, fails) ↦ inr (f, why, rw e (seek_to_throws p n w v past f fails))
        | inl (r, why, prepared, ready) ↦ inl (
          with_offsets r n n,
          why,
          rw e (seek_to_ready p n w v past r prepared ready.same_eof ready.same_io),
          lengthened-IsValid p n w v past r ready,
          refl,
          refl,
          kept_data p n w v past r ready,
          ready.elsewhere,
        )
      ]

-- Where the buffer is large enough already, a seek past the end writes no byte at all.
pub seek_keeps_heap :
    (p : Platform) (w : World) (n : ℕ)
    → IsValid w
    → w.this.eof_offset < n
    → n ≤ w.this.buffer_size
    → seek p (pos n) seek_set w ≡ (ok true, with_offsets w n n)
unfolding seek requested_offset
seek_keeps_heap p w n v past room =
    seek_to_ready p n w v past (at_end p n w v past) prepared refl refl
  where
    fits : w.this.eof_offset + (n - w.this.eof_offset) ≤ w.this.buffer_size
    fits = omega arith

    prepared :
        prepare_to_write p (n - w.this.eof_offset) (at_end p n w v past) ≡ ok (at_end p n w v past)
    prepared = unfold prepare_to_write in rw (ltb-false _ _ fits) refl
