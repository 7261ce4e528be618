-- ===== src/Streams/Memory/Ready.antt =====
-- _prepareToWrite of source/streams/vmemorystream.cpp: when it fails, and what it promises else.
use code_vault.Base.{
  ℕ, ◌+◌, ◌≤◌, ◌<◌, ◌≡◌, refl, ◌≢◌, ◌⊎◌, inl, inr, true, Option, none, some, ok, err, eof,
  bad_alloc, length, ltb, if◌then◌else◌, arith, Bool-cases, Failure, ltb→lt,
}
use native.Mathlib.Nat.{le_refl}
use code_vault.Streams.{Platform}
use code_vault.Streams.Memory.{World, prepare_to_write, new_buffer_size}
use code_vault.Streams.Memory.Growth.{new_buffer_size_reaches}
use code_vault.Streams.Memory.Invariant.{IsValid, contents, memory_for, SameElsewhere}
use code_vault.Streams.Memory.Expand.{
  expanded, expanded-IsValid, contents-expanded, expanded-SameElsewhere, expand_buffer_lem,
  length-expanded,
}

-- What _prepareToWrite promises where it returns: room for the write, in a buffer with the same data;
-- the offsets, the ownership and the other blocks are as they were.
pub record IsReady (n : ℕ) (w w' : World) : Type 0 where
  pub valid : IsValid w'
  pub room : w'.this.io_offset + n ≤ w'.this.buffer_size
  pub same_data : contents w' ≡ contents w
  pub same_io : w'.this.io_offset ≡ w.this.io_offset
  pub same_eof : w'.this.eof_offset ≡ w.this.eof_offset
  pub same_owner : w'.this.owns_buffer ≡ w.this.owns_buffer
  pub same_increment : w'.this.resize_increment ≡ w.this.resize_increment
  pub elsewhere : SameElsewhere w w'
  pub blocks : length w.heap ≤ length w'.heap
  pub others : (q : ℕ) → w.this.buffer ≢ some q → q < length w.heap → w'.this.buffer ≢ some q

-- The exception that a write of `n` bytes meets, if any.
abbrev pub write_failure : Platform → ℕ → World → Option Failure
write_failure p n w =
    let required = w.this.io_offset + n in
    let size = new_buffer_size w.this.resize_increment w.this.buffer_size required in
    if ltb w.this.buffer_size required
    then (if w.this.owns_buffer
        then (if memory_for p w.heap size then none else some bad_alloc)
        else some eof)
    else none

IsReady-same :
    (n : ℕ) (w : World) → IsValid w → w.this.io_offset + n ≤ w.this.buffer_size → IsReady n w w
IsReady-same n w v room = record {
  valid = v;
  room = room;
  same_data = refl;
  same_io = refl;
  same_eof = refl;
  same_owner = refl;
  same_increment = refl;
  elsewhere = λ q other old. refl;
  blocks = le_refl _;
  others = λ q other old. other;
}

module _ (p : Platform) (n : ℕ) (w : World) (v : IsValid w) where
  abbrev larger_size : ℕ
  larger_size = new_buffer_size w.this.resize_increment w.this.buffer_size (w.this.io_offset + n)

  pub IsReady-expanded :
      (c : w.this.eof_offset ≤ larger_size)
      → w.this.buffer_size < w.this.io_offset + n
      → IsReady n w (expanded p larger_size w v c)
  IsReady-expanded c lacks = record {
    valid = expanded-IsValid p larger_size w v c;
    room = new_buffer_size_reaches w.this.resize_increment w.this.buffer_size _ lacks;
    same_data = contents-expanded p larger_size w v c;
    same_io = refl;
    same_eof = refl;
    same_owner = refl;
    same_increment = refl;
    elsewhere = expanded-SameElsewhere p larger_size w v c;
    blocks = length-expanded p larger_size w v c;
    others = λ q other old e. absurd (ground arith);
  }

  pub prepare_to_write_lem :
      ((w' : World) × (write_failure p n w ≡ none)
        × (prepare_to_write p n w ≡ ok w')
        × IsReady n w w')
      ⊎ ((e : Failure) × (write_failure p n w ≡ some e) × (prepare_to_write p n w ≡ err e))
  unfolding prepare_to_write
  prepare_to_write_lem = elim (Bool-cases (ltb w.this.buffer_size (w.this.io_offset + n))) [
    | inr room ↦ inl (w, simp room, simp room, IsReady-same n w v (ground arith))
    | inl lacks ↦ elim (Bool-cases w.this.owns_buffer) [
      | inr shares ↦ inr (eof, simp (lacks, shares), simp (lacks, shares))
      | inl owns ↦ grow (ltb→lt _ _ lacks) lacks owns
    ]
  ]
    where
      grow :
          (lt : w.this.buffer_size < w.this.io_offset + n)
          → ltb w.this.buffer_size (w.this.io_offset + n) ≡ true
          → w.this.owns_buffer ≡ true
          → ((w' : World) × (write_failure p n w ≡ none)
              × (prepare_to_write p n w ≡ ok w')
              × IsReady n w w')
            ⊎ ((e : Failure) × (write_failure p n w ≡ some e) × (prepare_to_write p n w ≡ err e))
      grow lt lacks owns =
          let c : w.this.eof_offset ≤ larger_size = omega (
            arith,
            new_buffer_size_reaches w.this.resize_increment w.this.buffer_size
                (w.this.io_offset + n) lt,
            v.eof_fits,
          ) in
          elim (Bool-cases (memory_for p w.heap larger_size)) [
            | inl enough ↦ inl (
              expanded p larger_size w v c,
              simp (lacks, owns, enough),
              simp (lacks, owns, expand_buffer_lem p larger_size w v c, enough),
              IsReady-expanded c lt,
            )
            | inr none_left ↦ inr (
              bad_alloc,
              simp (lacks, owns, none_left),
              simp (lacks, owns, expand_buffer_lem p larger_size w v c, none_left),
            )
          ]
