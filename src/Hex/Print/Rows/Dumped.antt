-- ===== src/Hex/Print/Rows/Dumped.antt =====
-- The whole of printHex in source/toolbox/vhex.cpp.
use code_vault.Base.{
  ℕ, ◌+◌, ◌<◌, ◌≡◌, refl, sym, ap, false, List, [], ◌∷◌, ◌++◌, ok, err, fault, length, ltb, ◌==◌,
  if◌then◌else◌, arith, length-append, subst, Bool-cases, inl, inr,
}
use native.Mathlib.Nat.{mod-lt}
use code_vault.Hex.Print.{Format, Dump, line_of, print_pending, put_pending, print_bytes, print_hex}
use code_vault.Hex.Print.Rows.{IsValid, IsPrinted, dump_at, dump_rest, IsDumped, flushed}
use code_vault.Hex.Print.Rows.Steps.{after_room, after_full}

dumped :
    (f : Format) (bytes : List ℕ) (column offset : ℕ) (pending : List ℕ) (lines : List (List ℕ))
    → IsValid f (dump_at column offset pending lines)
    → IsDumped f (dump_at column offset pending lines) bytes
unfolding dump_rest IsDumped print_bytes
dumped f [] column offset pending lines v = (
  print_pending f (dump_at column offset pending lines),
  refl,
  flushed f column offset pending lines v,
)
dumped f (b ∷ bytes) column offset [] lines v =
    after_room f column offset [] lines b bytes (ground (arith, v.column_inside)) v (
      dumped f bytes column offset (b ∷ []) lines (record {
        some_bytes = v.some_bytes;
        column_inside = v.column_inside;
        fits = omega (arith, v.column_inside);
      }))
dumped f (b ∷ bytes) column offset (c ∷ row) lines v =
    elim (Bool-cases (length (c ∷ row) + column == f.num_bytes_per_row)) [
      | inl full ↦ after_full f column offset c row lines b bytes (ground arith) (
          dumped f bytes 0 (offset + length (c ∷ row)) (b ∷ [])
            (lines ++ line_of f offset column (c ∷ row) ∷ [])
            (record {
              some_bytes = v.some_bytes;
              column_inside = v.some_bytes;
              fits = omega (arith, v.some_bytes);
            }))
      | inr room ↦ after_room f column offset (c ∷ row) lines b bytes room v (
          dumped f bytes column offset (c ∷ row ++ b ∷ []) lines (record {
            some_bytes = v.some_bytes;
            column_inside = v.column_inside;
            fits = ground (arith, v.fits, length-append (c ∷ row) (b ∷ []));
          }))
    ]

-- printHex with a row of some bytes, from a column within it, never runs past mPendingBuffer. The
-- lines that it adds are the rows of the pending bytes and of its own, every row full but the last;
-- nothing is pending behind it; the offset has moved by the bytes printed, and the column with them
-- around the row.
pub print_hex_lem :
    (f : Format) (bytes : List ℕ) (d : Dump)
    → IsValid f d
    → (d' : Dump) × (print_hex f bytes d ≡ ok d') × IsPrinted f d d' bytes × IsValid f d'
unfolding print_hex dump_rest IsDumped
print_hex_lem f bytes d v =
    let (d', runs, p) = dumped f bytes d.start_column d.offset d.pending d.lines v in
    let inside : d'.start_column < f.num_bytes_per_row =
      subst (λ k. k < f.num_bytes_per_row) (sym p.new_column) (mod-lt _ v.some_bytes) in
    let empty : length d'.pending ≡ 0 = ap length p.new_pending in
    (
      d',
      runs,
      p,
      record {
        some_bytes = v.some_bytes;
        column_inside = inside;
        fits = omega (arith, inside, empty);
      },
    )

no_room : (f : Format) (b : ℕ) (d : Dump) → f.num_bytes_per_row ≡ 0 → put_pending f b d ≡ err fault
unfolding put_pending
no_room f b d none_fit =
    let full : ltb (length d.pending) f.num_bytes_per_row ≡ false = ground (arith, none_fit) in
    rw full refl

-- A row of no bytes makes the first byte run past mPendingBuffer.
pub print_hex-no_row :
    (f : Format) (b : ℕ) (bytes : List ℕ) (d : Dump)
    → f.num_bytes_per_row ≡ 0
    → print_hex f (b ∷ bytes) d ≡ err fault
unfolding print_hex print_bytes
print_hex-no_row f b bytes d none_fit =
    rw
      (no_room f b
        (if length d.pending + d.start_column == f.num_bytes_per_row then print_pending f d else d)
        none_fit)
      refl
