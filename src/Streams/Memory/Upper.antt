-- ===== src/Streams/Memory/Upper.antt =====
-- VMemoryStream (source/streams/vmemorystream.cpp) under a VIOStream: it keeps the contract of a
-- stream of bytes, read from the i/o offset on, and written at the end of its data.
use code_vault.Base.{
  ℕ, ◌+◌, ◌≡◌, ap, ◌∙◌, List, [], ◌++◌, ok, length, take, drop, arith, append-nil, take_all,
  drop_past, drop-length-take,
}
use code_vault.Streams.{Platform}
use code_vault.Streams.Raw.{RawStream, IsSource, IsSink}
use code_vault.Streams.Memory.{World, read, write, finish_read}
use code_vault.Streams.Memory.Invariant.{IsValid, contents, length-contents}
use code_vault.Streams.Memory.Access.{overwrite, write_ok, read_valid}

abbrev pub memory_raw : Platform → RawStream World
memory_raw p = record { get = read p; put = write p }

-- Valid, and with the i/o offset at the end of the data.
abbrev pub IsAtEnd : World → Type 0
IsAtEnd w = IsValid w × (w.this.io_offset ≡ w.this.eof_offset)

pub unread_after :
    (p : Platform) (n : ℕ) (w : World)
    → IsValid w
    → (w' : World) × (read p n w ≡ ok (take n (drop w.this.io_offset (contents w)), w'))
      × IsValid w'
      × (drop w'.this.io_offset (contents w') ≡ drop n (drop w.this.io_offset (contents w)))
unread_after p n w v =
    let got = take n (drop w.this.io_offset (contents w)) in
    let (reads, valid, same, moved) = read_valid p [] w v n in
    (
      finish_read (length got) w,
      reads,
      valid,
      ap (drop (finish_read (length got) w).this.io_offset) same
          ∙ ap (λ (k : ℕ). drop k (contents w)) moved
          ∙ drop-length-take (contents w) w.this.io_offset n,
    )

abbrev pub memory-IsSource : (p : Platform) → IsSource (memory_raw p)
memory-IsSource p = record {
  Ready = IsValid;
  unread = λ w. drop w.this.io_offset (contents w);
  get_lem = unread_after p;
}

overwrite_end : (xs : List ℕ) (i : ℕ) (ys : List ℕ) → i ≡ length xs → overwrite xs i ys ≡ xs ++ ys
overwrite_end xs i ys e =
    ap (λ t. (take i xs ++ ys) ++ t) (drop_past (i + length ys) xs (omega arith))
    ∙ append-nil (take i xs ++ ys)
    ∙ ap (λ t. t ++ ys) (take_all i xs (omega arith))

pub appended :
    (p : Platform) (ys : List ℕ) (w w' : World)
    → IsAtEnd w
    → write p ys w ≡ ok w'
    → IsAtEnd w' × (contents w' ≡ contents w ++ ys)
appended p ys w w' (v, at_end) e =
    let written = write_ok p ys w w' v e in
    (
      (written.valid, omega (arith, written.new_io, written.new_eof)),
      written.new_data
          ∙ overwrite_end (contents w) w.this.io_offset ys (omega (arith, length-contents w v)),
    )

abbrev pub memory-IsSink : (p : Platform) → IsSink (memory_raw p)
memory-IsSink p = record { Ready = IsAtEnd; written = contents; put_lem = appended p }
