-- ===== src/Hex/Print/Rows/Steps.antt =====
-- One round of the loop of printHex in source/toolbox/vhex.cpp: a byte that fits in the row, and a byte
-- that comes when the row is full.
use code_vault.Base.{
  ℕ, ◌+◌, ◌%◌, ◌<◌, ◌≡◌, refl, sym, ap, ◌∙◌, true, false, List, [], ◌∷◌, ◌++◌, ok, length, ltb,
  ◌==◌, arith, append_assoc, length-append, subst,
}
use native.Mathlib.Nat.{mod_self, add-mul-mod_self_left}
use code_vault.Hex.Print.{Format, line_of, put_pending, print_bytes}
use code_vault.Hex.Print.Rows.{Rows, full_row, IsValid, dump_at, dump_rest, IsDumped, print_row}

put_byte :
    (f : Format) (column offset : ℕ) (pending : List ℕ) (lines : List (List ℕ)) (b : ℕ)
    → length pending < f.num_bytes_per_row
    → put_pending f b (dump_at column offset pending lines)
      ≡ ok (dump_at column offset (pending ++ b ∷ []) lines)
unfolding put_pending
put_byte f column offset pending lines b h =
    let room : ltb (length pending) f.num_bytes_per_row ≡ true = ground arith in rw room refl

step_room :
    (f : Format) (column offset : ℕ) (pending : List ℕ) (lines : List (List ℕ)) (b : ℕ)
    (bytes : List ℕ)
    → (length pending + column == f.num_bytes_per_row) ≡ false
    → length pending < f.num_bytes_per_row
    → dump_rest f (b ∷ bytes) (dump_at column offset pending lines)
      ≡ dump_rest f bytes (dump_at column offset (pending ++ b ∷ []) lines)
unfolding dump_rest print_bytes
step_room f column offset pending lines b bytes room h =
    simp (room, put_byte f column offset pending lines b h)

step_full :
    (f : Format) (column offset : ℕ) (c : ℕ) (row : List ℕ) (lines : List (List ℕ)) (b : ℕ)
    (bytes : List ℕ)
    → column + length (c ∷ row) ≡ f.num_bytes_per_row
    → dump_rest f (b ∷ bytes) (dump_at column offset (c ∷ row) lines)
      ≡ dump_rest f bytes (
          dump_at 0
            (offset + length (c ∷ row))
            (b ∷ [])
            (lines ++ line_of f offset column (c ∷ row) ∷ []))
unfolding dump_rest print_bytes
step_full f column offset c row lines b bytes full =
    let is_full : (length (c ∷ row) + column == f.num_bytes_per_row) ≡ true = ground arith in
    let wrapped : (column + length (c ∷ row)) % f.num_bytes_per_row ≡ 0 =
      ap (λ (n : ℕ). n % f.num_bytes_per_row) full ∙ mod_self f.num_bytes_per_row in
    let printed =
      print_row f column offset c row lines (omega arith)
      ∙ ap
          (λ k.
            dump_at k (offset + length (c ∷ row)) []
              (lines ++ line_of f offset column (c ∷ row) ∷ []))
          wrapped in
    simp (
      is_full,
      printed,
      put_byte f 0 (offset + length (c ∷ row)) [] (lines ++ line_of f offset column (c ∷ row) ∷ [])
          b (omega arith),
    )

pub after_room :
    (f : Format) (column offset : ℕ) (pending : List ℕ) (lines : List (List ℕ)) (b : ℕ)
    (bytes : List ℕ)
    → (length pending + column == f.num_bytes_per_row) ≡ false
    → IsValid f (dump_at column offset pending lines)
    → IsDumped f (dump_at column offset (pending ++ b ∷ []) lines) bytes
    → IsDumped f (dump_at column offset pending lines) (b ∷ bytes)
unfolding IsDumped
after_room f column offset pending lines b bytes room v (d', runs, p) =
    let size = length-append pending (b ∷ []) in
    let (new, grown, rows) = p.new_lines in
    (
      d',
      step_room f column offset pending lines b bytes room (ground (arith, v.fits)) ∙ runs,
      record {
        new_column = p.new_column ∙ ap (λ (n : ℕ). n % f.num_bytes_per_row) (omega (arith, size));
        new_offset = omega (arith, p.new_offset, size);
        new_pending = p.new_pending;
        new_lines = (
          new,
          grown,
          subst (λ all. Rows f offset column all new) (append_assoc pending (b ∷ []) bytes) rows,
        );
      },
    )

pub after_full :
    (f : Format) (column offset : ℕ) (c : ℕ) (row : List ℕ) (lines : List (List ℕ)) (b : ℕ)
    (bytes : List ℕ)
    → column + length (c ∷ row) ≡ f.num_bytes_per_row
    → IsDumped f
        (dump_at 0
          (offset + length (c ∷ row))
          (b ∷ [])
          (lines ++ line_of f offset column (c ∷ row) ∷ []))
        bytes
    → IsDumped f (dump_at column offset (c ∷ row) lines) (b ∷ bytes)
unfolding IsDumped
after_full f column offset c row lines b bytes full (d', runs, p) =
    let (new, grown, rows) = p.new_lines in
    let line = line_of f offset column (c ∷ row) in
    (
      d',
      step_full f column offset c row lines b bytes full ∙ runs,
      record {
        new_column =
            p.new_column
            ∙ sym (
                ap (λ (n : ℕ). n % f.num_bytes_per_row) (omega (arith, full))
                ∙ add-mul-mod_self_left (0 + 1 + length bytes) f.num_bytes_per_row 1);
        new_offset = omega (arith, p.new_offset);
        new_pending = p.new_pending;
        new_lines = (
          line ∷ new,
          grown ∙ append_assoc lines (line ∷ []) new,
          full_row offset column (c ∷ row) (b ∷ bytes) new full rows,
        );
      },
    )
