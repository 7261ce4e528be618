-- ===== src/Streams/Memory/Access.antt =====
-- read and write of source/streams/vmemorystream.cpp against the bytes that the stream holds.
use code_vault.Base.{
  ℕ, ◌+◌, ◌-◌, ◌≤◌, ◌≡◌, refl, sym, ap, ◌∙◌, ◌⊎◌, inl, inr, min, max, none, some, List, ◌++◌,
  Failure, ok, err, length, take, drop, splice, set, arith, ap₂, length-splice, length-take,
  length-drop, take-splice_end, take-take, take-add, drop-take, drop-splice, take-min, take_all,
  ok-injective, subst, append_assoc, drop-append, take-append,
}
use native.Mathlib.Nat.{le_refl}
use code_vault.Heap.{Heap, block_at, store, live}
use code_vault.Heap.Laws.{store_live, block_at-store, block_at-store_ne}
use code_vault.Streams.{Platform, copy_memory}
use code_vault.Streams.Copy.{copy_memory_within}
use code_vault.Streams.Memory.{World, read, write, finish_read, finish_write}
use code_vault.Streams.Memory.Invariant.{
  IsValid, contents, contents_valid, length-contents, load_valid, with_offsets-IsValid,
  SameElsewhere,
}
use code_vault.Streams.Memory.Ready.{IsReady, write_failure, prepare_to_write_lem}

-- `xs` with `ys` written over it from offset `i` on, and longer where `ys` goes past its end.
abbrev pub overwrite {ℓ} : {A : Type ℓ} → List A → ℕ → List A → List A
overwrite xs i ys = take i xs ++ ys ++ drop (i + length ys) xs

pub splice-eq-overwrite {ℓ} :
    {A : Type ℓ} (xs : List A) (i m n : ℕ) (ys : List A)
    → i ≤ m
    → n ≡ max m (i + length ys)
    → n ≤ length xs
    → take n (splice xs i ys) ≡ overwrite (take m xs) i ys
splice-eq-overwrite xs i m n ys h e k =
    sym (take-add (i + length ys) (n - (i + length ys)) n (splice xs i ys) (omega arith))
    ∙ ap₂ ◌++◌
        (take-splice_end xs i ys (i + length ys) refl (omega arith)
          ∙ ap (λ t. t ++ ys) (sym (take-take i m xs h)))
        (ap (take (n - (i + length ys))) (drop-splice xs i ys (i + length ys) (le_refl _))
          ∙ ap (λ t. take t (drop (i + length ys) xs)) (omega arith)
          ∙ sym (drop-take (i + length ys) m xs))

module _ (p : Platform) (n : ℕ) (w : World) (v : IsValid w) where
  -- The bytes that a read of `n` gets.
  abbrev pub bytes_read : List ℕ
  bytes_read = take n (drop w.this.io_offset (contents w))

  pub read_count : min n (w.this.eof_offset - w.this.io_offset) ≡ length bytes_read
  read_count = omega (
    arith,
    length-take n (drop w.this.io_offset (contents w)),
    length-drop w.this.io_offset (contents w),
    length-contents w v,
  )

  -- They are in the block from the i/o offset on.
  pub bytes_in_block :
      take (min n (w.this.eof_offset - w.this.io_offset)) (drop w.this.io_offset v.bytes)
      ≡ bytes_read
  bytes_in_block =
      sym (take-min n (w.this.eof_offset - w.this.io_offset) (drop w.this.io_offset v.bytes))
      ∙ ap (take n) (
          sym (drop-take w.this.io_offset w.this.eof_offset v.bytes)
          ∙ ap (drop w.this.io_offset) (sym (contents_valid w v)))

  pub copied_bytes :
      copy_memory p (drop w.this.io_offset v.bytes) (min n (w.this.eof_offset - w.this.io_offset))
      ≡ ok bytes_read
  copied_bytes =
      copy_memory_within p (drop w.this.io_offset v.bytes)
        (min n (w.this.eof_offset - w.this.io_offset))
        (omega (arith, length-drop w.this.io_offset v.bytes, v.fits, v.eof_fits))
      ∙ ap ok bytes_in_block

  -- read always succeeds, gives the bytes between the i/o offset and the end of the data, `n` of them
  -- where there are as many, and moves the i/o offset past them; nothing else changes.
  pub read_lem : read p n w ≡ ok (bytes_read, finish_read (length bytes_read) w)
  unfolding read
  read_lem =
      simp (load_valid w v, copied_bytes)
        (ap (λ (k : ℕ). ok (bytes_read, finish_read k w)) read_count)

finish_read-IsValid :
    (k : ℕ) (w : World)
    → IsValid w
    → w.this.io_offset + k ≤ w.this.eof_offset
    → IsValid (finish_read k w)
unfolding finish_read
finish_read-IsValid k w v h = with_offsets-IsValid w _ _ v v.eof_fits h

-- What a write of `ys` promises where it returns.
pub record IsWritten (ys : List ℕ) (w w' : World) : Type 0 where
  pub valid : IsValid w'
  pub new_data : contents w' ≡ overwrite (contents w) w.this.io_offset ys
  pub new_io : w'.this.io_offset ≡ w.this.io_offset + length ys
  pub new_eof : w'.this.eof_offset ≡ max w.this.eof_offset (w.this.io_offset + length ys)
  pub elsewhere : SameElsewhere w w'

module _ (ys : List ℕ) (r : World) (v : IsValid r)
    (room : r.this.io_offset + length ys ≤ r.this.buffer_size) where
  abbrev stored_heap : Heap
  stored_heap = set r.heap v.place (live v.origin (splice v.bytes r.this.io_offset ys))

  abbrev stored : World
  stored = finish_write (length ys) (record r { heap = stored_heap })

  store_ok : store r.heap r.this.buffer r.this.io_offset ys ≡ ok stored_heap
  store_ok = rw v.points (
      store_live r.heap v.place v.origin v.bytes r.this.io_offset ys v.holds
        (omega (arith, v.fits)))

  stored_holds :
      block_at stored_heap (some v.place) ≡ some (v.origin, splice v.bytes r.this.io_offset ys)
  stored_holds = block_at-store r.heap v.place v.origin v.bytes r.this.io_offset ys v.holds

  stored_eof : stored.this.eof_offset ≡ max r.this.eof_offset (r.this.io_offset + length ys)
  unfolding finish_write
  stored_eof = ground arith

  stored-IsValid : IsValid stored
  unfolding finish_write
  stored-IsValid = record {
    place = v.place;
    origin = v.origin;
    bytes = splice v.bytes r.this.io_offset ys;
    points = v.points;
    holds = stored_holds;
    fits = omega (arith, length-splice v.bytes r.this.io_offset ys, v.fits);
    eof_fits = ground (arith, v.eof_fits);
    io_fits = ground arith;
    releasable = v.releasable;
  }

  contents-stored : contents stored ≡ overwrite (contents r) r.this.io_offset ys
  unfolding stored-IsValid finish_write
  contents-stored =
      contents_valid stored stored-IsValid
      ∙ splice-eq-overwrite v.bytes r.this.io_offset r.this.eof_offset stored.this.eof_offset ys
          v.io_fits stored_eof (omega (arith, v.fits, stored-IsValid.eof_fits))
      ∙ ap (λ t. overwrite t r.this.io_offset ys) (sym (contents_valid r v))

  stored-IsWritten : (w : World) → IsReady (length ys) w r → IsWritten ys w stored
  unfolding finish_write
  stored-IsWritten w ready = record {
    valid = stored-IsValid;
    new_data = contents-stored ∙ ap₂ (λ t k. overwrite t k ys) ready.same_data ready.same_io;
    new_io = omega (arith, ready.same_io);
    new_eof = stored_eof ∙ ap₂ (λ (a b : ℕ). max a (b + length ys)) ready.same_eof ready.same_io;
    elsewhere = λ q other old.
        block_at-store_ne r.heap v.place q v.origin (splice v.bytes r.this.io_offset ys)
          (λ e. ready.others q other old (v.points ∙ ap some e))
        ∙ ready.elsewhere q other old;
  }

module _ (p : Platform) (ys : List ℕ) (w : World) (v : IsValid w) where
  -- write either returns, with the bytes written over the data from the i/o offset on, the data longer
  -- if they go past its end, the i/o offset after them, the stream valid, and every block but the
  -- stream's own as it was; or throws: EOF where the buffer is too small and belongs to someone else,
  -- bad_alloc where a larger one cannot be had. Which of these happens is decided by `write_failure`.
  pub write_lem :
      ((w' : World) × (write_failure p (length ys) w ≡ none)
        × (write p ys w ≡ ok w')
        × IsWritten ys w w')
      ⊎ ((e : Failure) × (write_failure p (length ys) w ≡ some e) × (write p ys w ≡ err e))
  unfolding write
  write_lem = elim (prepare_to_write_lem p (length ys) w v) [
    | inr (e, why, fails) ↦ inr (e, why, simp fails)
    | inl (r, why, ready_at, ready) ↦ inl (
      stored ys r ready.valid ready.room,
      why,
      simp (ready_at, copy_whole, store_ok ys r ready.valid ready.room),
      stored-IsWritten ys r ready.valid ready.room w ready,
    )
  ]
    where
      copy_whole : copy_memory p ys (length ys) ≡ ok ys
      copy_whole =
          copy_memory_within p ys (length ys) (le_refl _)
          ∙ ap ok (take_all (length ys) ys (le_refl _))

  -- read always succeeds. It gives the bytes between the i/o offset and the end of the data, `n` of
  -- them where there are as many, and moves the i/o offset past them; the data stay as they are.
  pub read_valid :
      (n : ℕ)
      → let got = take n (drop w.this.io_offset (contents w)) in
        let w' = finish_read (length got) w in
        (read p n w ≡ ok (got, w'))
        × IsValid w'
        × (contents w' ≡ contents w)
        × (w'.this.io_offset ≡ w.this.io_offset + length got)
  read_valid n = (
    read_lem p n w v,
    finish_read-IsValid (length (bytes_read p n w v)) w v
        (omega (arith, read_count p n w v, v.io_fits)),
    unfold finish_read in refl,
    unfold finish_read in refl,
  )

-- The postcondition of a write that returned.
pub write_ok :
    (p : Platform) (ys : List ℕ) (w w' : World)
    → IsValid w
    → write p ys w ≡ ok w'
    → IsWritten ys w w'
write_ok p ys w w' v e = elim (write_lem p ys w v) [
  | inr (f, why, fails) ↦ absurd (cc)
  | inl (u, why, writes, written) ↦
      subst (IsWritten ys w) (ok-injective u w' (sym writes ∙ e)) written
]

pub overwrite_read {ℓ} :
    {A : Type ℓ} (xs : List A) (i : ℕ) (ys : List A)
    → i ≤ length xs
    → take (length ys) (drop i (overwrite xs i ys)) ≡ ys
overwrite_read xs i ys h =
    ap (λ t. take (length ys) (drop i t)) (append_assoc (take i xs) ys (drop (i + length ys) xs))
    ∙ ap (take (length ys)) (
        drop-append (take i xs) (ys ++ drop (i + length ys) xs) i (omega (arith, length-take i xs)))
    ∙ take-append ys (drop (i + length ys) xs) (length ys) refl
