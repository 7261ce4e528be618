-- ===== src/Hex/Tests.antt =====
-- Examples for source/toolbox/vhex.cpp: a few bytes as digits, and as a dump of four bytes a row.
use code_vault.Base.{ℕ, ◌≡◌, true, List, [], ◌∷◌, ok, arith}
use code_vault.Hex.{buffer_to_hex_string, hex_string_to_buffer}
use code_vault.Hex.RoundTrip.{hex_string_to_buffer-buffer_to_hex_string}
use code_vault.Hex.Print.{Format, Dump, print_hex}
use code_vault.Hex.Print.Rows.{IsValid, IsPrinted}
use code_vault.Hex.Print.Rows.Dumped.{print_hex_lem}

abbrev some_bytes : List ℕ
some_bytes = 0x4f ∷ 0xa0 ∷ []

-- The digits of "4fA".
abbrev three_digits : List ℕ
three_digits = 52 ∷ 102 ∷ 65 ∷ []

hex_string_to_buffer-buffer_to_hex_string_example :
    (digits : List ℕ) × (buffer_to_hex_string some_bytes true ≡ ok digits)
    × (hex_string_to_buffer digits true ≡ some_bytes)
hex_string_to_buffer-buffer_to_hex_string_example =
    hex_string_to_buffer-buffer_to_hex_string some_bytes true (omega arith, (omega arith, tt))
      (omega arith)

abbrev four_a_row : Format
four_a_row = record {
  signed = true;
  num_bytes_per_row = 4;
  indent_count = 2;
  labels_in_hex = true;
  show_ascii_values = true;
}

-- A dump that stopped in column 3.
abbrev begun : Dump
begun = record { start_column = 3; offset = 3; pending = []; lines = [] }

print_hex_lem_example :
    (d' : Dump) × (print_hex four_a_row (1 ∷ 2 ∷ 3 ∷ []) begun ≡ ok d')
    × IsPrinted four_a_row begun d' (1 ∷ 2 ∷ 3 ∷ [])
    × IsValid four_a_row d'
print_hex_lem_example =
    print_hex_lem four_a_row (1 ∷ 2 ∷ 3 ∷ []) begun
      (record { some_bytes = omega arith; column_inside = omega arith; fits = omega arith })
