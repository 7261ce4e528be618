-- ===== src/Hex/Print/Rows.antt =====
-- printHex in source/toolbox/vhex.cpp prints its bytes in full rows from the column where the dump
-- before stopped.
pub mod Steps
pub mod Dumped
use code_vault.Base.{
  ℕ, ◌+◌, ◌%◌, ◌≤◌, ◌<◌, ◌≡◌, refl, sym, ap, ◌∙◌, true, false, List, [], ◌∷◌, ◌++◌, Result, ok, err,
  fault, ◌>>=◌, length, ltb, ◌==◌, if◌then◌else◌, arith, append_assoc, append-nil, length-append,
  subst, Bool-cases, inl, inr,
}
use native.Mathlib.Nat.{mod_self, mod-lt, mod-eq_of_lt, add-mul-mod_self_left}
use code_vault.Hex.Print.{
  Format, Dump, line_of, next_column, print_pending, put_pending, print_bytes, print_hex,
}

-- The lines of a dump of the bytes, from an offset and a column on: each row but the last is full.
pub data Rows (f : Format) : (offset column : ℕ) → List ℕ → List (List ℕ) → Type 0 where
  done : (offset column : ℕ) → Rows f offset column [] []
  last_row :
      (offset column : ℕ) (b : ℕ) (row : List ℕ)
      → column + length (b ∷ row) ≤ f.num_bytes_per_row
      → Rows f offset column (b ∷ row) (line_of f offset column (b ∷ row) ∷ [])
  full_row :
      (offset column : ℕ) (row rest : List ℕ) (lines : List (List ℕ))
      → column + length row ≡ f.num_bytes_per_row
      → Rows f (offset + length row) 0 rest lines
      → Rows f offset column (row ++ rest) (line_of f offset column row ∷ lines)

-- A dump between two calls, and in the midst of one, with the pending bytes within the row.
pub record IsValid (f : Format) (d : Dump) : Type 0 where
  pub some_bytes : 0 < f.num_bytes_per_row
  pub column_inside : d.start_column < f.num_bytes_per_row
  pub fits : d.start_column + length d.pending ≤ f.num_bytes_per_row

-- What the dump of `bytes` more leaves.
pub record IsPrinted (f : Format) (d d' : Dump) (bytes : List ℕ) : Type 0 where
  pub new_column :
      d'.start_column ≡ (d.start_column + length d.pending + length bytes) % f.num_bytes_per_row
  pub new_offset : d'.offset ≡ d.offset + length d.pending + length bytes
  pub new_pending : d'.pending ≡ []
  pub new_lines :
      (lines : List (List ℕ)) × (d'.lines ≡ d.lines ++ lines)
      × Rows f d.offset d.start_column (d.pending ++ bytes) lines

-- The loop and then flush.
pub dump_rest : (f : Format) → List ℕ → Dump → Result Dump
unfolding print_bytes
dump_rest f bytes d = print_bytes f bytes d >>= λ d'. ok (print_pending f d')

-- A dump by its fields.
abbrev pub dump_at : ℕ → ℕ → List ℕ → List (List ℕ) → Dump
dump_at column offset pending lines = record {
  start_column = column;
  offset = offset;
  pending = pending;
  lines = lines;
}

pub print_row :
    (f : Format) (column offset : ℕ) (b : ℕ) (row : List ℕ) (lines : List (List ℕ))
    → 0 < f.num_bytes_per_row
    → print_pending f (dump_at column offset (b ∷ row) lines)
      ≡ dump_at
          ((column + length (b ∷ row)) % f.num_bytes_per_row)
          (offset + length (b ∷ row))
          []
          (lines ++ line_of f offset column (b ∷ row) ∷ [])
unfolding print_pending next_column
print_row f column offset b row lines h =
    let width : (f.num_bytes_per_row == 0) ≡ false = ground arith in
    let used : ltb 0 (length (b ∷ row)) ≡ true = ground arith in rw (used, width) refl

print_nothing :
    (f : Format) (column offset : ℕ) (lines : List (List ℕ))
    → print_pending f (dump_at column offset [] lines) ≡ dump_at column offset [] lines
unfolding print_pending
print_nothing f column offset lines = refl

pub flushed :
    (f : Format) (column offset : ℕ) (pending : List ℕ) (lines : List (List ℕ))
    → IsValid f (dump_at column offset pending lines)
    → IsPrinted f
        (dump_at column offset pending lines)
        (print_pending f (dump_at column offset pending lines))
        []
flushed f column offset [] lines v =
    subst (λ d'. IsPrinted f (dump_at column offset [] lines) d' [])
      (sym (print_nothing f column offset lines))
      (record {
        new_column =
            sym (mod-eq_of_lt (v.column_inside))
            ∙ ap (λ (n : ℕ). n % f.num_bytes_per_row) (omega arith);
        new_offset = omega arith;
        new_pending = refl;
        new_lines = ([], sym (append-nil lines), done offset column);
      })
flushed f column offset (b ∷ row) lines v =
    let d = dump_at column offset (b ∷ row) lines in
    subst (λ d'. IsPrinted f d d' []) (sym (print_row f column offset b row lines v.some_bytes))
      (record {
        new_column = ap (λ (n : ℕ). n % f.num_bytes_per_row) (omega arith);
        new_offset = omega arith;
        new_pending = refl;
        new_lines = (
          line_of f offset column (b ∷ row) ∷ [],
          refl,
          subst (λ bytes. Rows f offset column bytes (line_of f offset column (b ∷ row) ∷ []))
              (sym (append-nil (b ∷ row))) (last_row offset column b row v.fits),
        );
      })

-- The dump of `bytes` returns, and what it leaves.
pub IsDumped : (f : Format) → Dump → List ℕ → Type 0
IsDumped f d bytes = (d' : Dump) × (dump_rest f bytes d ≡ ok d') × IsPrinted f d d' bytes
