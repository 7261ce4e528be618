-- ===== src/Hex/Print.antt =====
-- The hexadecimal dump of source/toolbox/vhex.cpp: a VHex keeps the bytes of the row that it is
-- filling, and prints a row at a time.
pub mod Rows
use code_vault.Base.{
  ℕ, zero, suc, ◌+◌, ◌-◌, ◌*◌, ◌/◌, ◌%◌, ◌^◌, Bool, true, false, List, [], ◌∷◌, ◌++◌, Result, ok,
  err, fault, ◌>>=◌, length, take, drop, ltb, leb, ◌==◌, if◌then◌else◌,
}
use code_vault.Hex.{byte_to_hex_chars, printable}

-- How the dump looks, from the constructor; `signed` says whether a `char` of the machine is signed.
pub record Format : Type 0 where
  pub signed : Bool
  pub num_bytes_per_row : ℕ
  pub indent_count : ℕ
  pub labels_in_hex : Bool
  pub show_ascii_values : Bool

-- `pending` is mPendingBuffer up to mPendingBufferUsed; `lines` are the lines that the output stream
-- has been given.
pub record Dump : Type 0 where
  pub start_column : ℕ
  pub offset : ℕ
  pub pending : List ℕ
  pub lines : List (List ℕ)

spaces : ℕ → List ℕ
spaces zero = []
spaces (suc n) = 32 ∷ spaces n

-- The digits of a number in a base, `fuel` of them at most.
numeral : (fuel base n : ℕ) → List ℕ
numeral zero base n = []
numeral (suc fuel) base n =
    let digit = (λ (d : ℕ). if ltb d 10 then 48 + d else 65 + (d - 10)) in
    let front = numeral fuel base (n / base) in
    if ltb n base then digit n ∷ [] else front ++ digit (n % base) ∷ []

zeros : ℕ → List ℕ
zeros zero = []
zeros (suc n) = 48 ∷ zeros n

pad_8 : List ℕ → List ℕ
unfolding zeros
pad_8 ds = zeros (8 - length ds) ++ ds

-- "0x%08X: " of the offset as an int, and "%08lld: ". 20 digits hold every 64-bit offset.
label : Bool → ℕ → List ℕ
unfolding pad_8 numeral
label true n = 48 ∷ 120 ∷ pad_8 (numeral 8 16 (n % 2 ^ 32)) ++ 58 ∷ 32 ∷ []
label false n = pad_8 (numeral 20 10 n) ++ 58 ∷ 32 ∷ []

hex_data : List ℕ → List ℕ
hex_data [] = []
hex_data (b ∷ bytes) = let (high, low) = byte_to_hex_chars b in high ∷ low ∷ 32 ∷ hex_data bytes

ascii_data : Bool → List ℕ → List ℕ
ascii_data signed [] = []
ascii_data signed (b ∷ bytes) = printable signed b ∷ ascii_data signed bytes

-- The line that _printPending makes of the pending bytes.
pub line_of : Format → (offset start_column : ℕ) → List ℕ → List ℕ
unfolding spaces label hex_data ascii_data
line_of f offset start_column pending =
    let room = f.num_bytes_per_row - start_column in
    let ascii =
      spaces (3 * (room - length pending))
      ++ spaces 3
      ++ spaces start_column
      ++ ascii_data f.signed pending in
    spaces f.indent_count
    ++ label f.labels_in_hex offset
    ++ spaces (3 * start_column)
    ++ hex_data pending
    ++ (if f.show_ascii_values then ascii else [])

next_column : Format → ℕ → ℕ → ℕ
next_column f start_column used =
    if f.num_bytes_per_row == 0 then 0 else (start_column + used) % f.num_bytes_per_row

-- _printPending, and flush.
pub print_pending : Format → Dump → Dump
unfolding next_column
print_pending f d =
    if ltb 0 (length d.pending)
    then record {
      start_column = next_column f d.start_column (length d.pending);
      offset = d.offset + length d.pending;
      pending = [];
      lines = d.lines ++ line_of f d.offset d.start_column d.pending ∷ [];
    }
    else d

-- A byte goes to the end of mPendingBuffer, which has room for one row.
put_pending : Format → ℕ → Dump → Result Dump
put_pending f b d =
    if ltb (length d.pending) f.num_bytes_per_row
    then ok (record {
      start_column = d.start_column;
      offset = d.offset;
      pending = d.pending ++ b ∷ [];
      lines = d.lines;
    })
    else err fault

-- The loop of printHex.
print_bytes : Format → List ℕ → Dump → Result Dump
unfolding put_pending
print_bytes f [] d = ok d
print_bytes f (b ∷ bytes) d =
    let full = length d.pending + d.start_column == f.num_bytes_per_row in
    put_pending f b (if full then print_pending f d else d) >>= print_bytes f bytes

-- printHex, of the bytes of the buffer that its arguments select.
pub print_hex : Format → List ℕ → Dump → Result Dump
unfolding print_bytes
print_hex f bytes d = print_bytes f bytes d >>= λ d'. ok (print_pending f d')

-- reset.
pub reset : Format → Dump → Dump
reset f d =
    let printed = print_pending f d in
    record { start_column = 0; offset = 0; pending = printed.pending; lines = printed.lines }
