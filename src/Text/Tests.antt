-- ===== src/Text/Tests.antt =====
-- Examples for readLine of source/streams/vtextiostream.cpp: two letters, and an ending.
use code_vault.Base.{ℕ, ◌≡◌, refl, true, false, List, [], ◌∷◌, err, eof, length, arith}
use code_vault.Streams.Tests.{list_raw, list-IsSource, list-IsSink}
use code_vault.Text.{
  unknown_endings, mac_endings, mixed_endings, ready, read_line, update_read_kind,
}
use code_vault.Text.Lines.{text_at}
use code_vault.Text.ReadLine.{mac, dos, IsLine, read_line_lem}
use code_vault.Text.Write.{write_line, write_line_end, line_ending_chars}
use code_vault.Text.RoundTrip.{read_line-write_line}
use code_vault.Text.Limits.{read_line_loses}

abbrev mac_text : List ℕ
mac_text = 97 ∷ 98 ∷ 0x0d ∷ 99 ∷ []

abbrev two_letters : List ℕ
two_letters = 97 ∷ 98 ∷ []

read_line_lem_example :
    IsLine list_raw list-IsSource length
      (λ s at_all. refl)
      two_letters
      (99 ∷ [])
      mac_endings
      (read_line list_raw length false (text_at mac_text unknown_endings 0 ready))
unfolding update_read_kind
read_line_lem_example =
    read_line_lem list_raw list-IsSource length (λ s at_all. refl) two_letters mac (99 ∷ [])
      mac_text unknown_endings 0 false
      (
        (omega arith, omega arith, λ e. absurd (omega arith), λ e. absurd (omega arith)),
        ((omega arith, omega arith, λ e. absurd (omega arith), λ e. absurd (omega arith)), tt),
      )
      tt refl (omega arith, omega arith, λ e. absurd (omega arith))

read_line_loses_example : read_line list_raw length true (text_at [] mac_endings 99 ready) ≡ err eof
read_line_loses_example =
    read_line_loses list_raw list-IsSource length (λ s at_all. refl) 99 [] mac_endings true
      (omega arith, omega arith, λ e. absurd (omega arith), λ e. absurd (omega arith)) refl

-- Two letters and a DOS ending, written and read back.
read_line-write_line_example :
    IsLine list_raw list-IsSource length
      (λ s at_all. refl)
      (97 ∷ 98 ∷ 0x0d ∷ 0x0a ∷ [])
      (99 ∷ [])
      mixed_endings
      (read_line list_raw length true
        (text_at (97 ∷ 98 ∷ 0x0d ∷ 0x0a ∷ 99 ∷ []) mac_endings 0 ready))
unfolding update_read_kind write_line write_line_end line_ending_chars
read_line-write_line_example =
    read_line-write_line list_raw list-IsSink [] list_raw list-IsSource length (λ s at_all. refl)
      two_letters dos [] (97 ∷ 98 ∷ 0x0d ∷ 0x0a ∷ []) (97 ∷ 98 ∷ 0x0d ∷ 0x0a ∷ 99 ∷ []) (99 ∷ [])
      mac_endings true tt tt refl
      (
        (omega arith, omega arith, λ e. absurd (omega arith), λ e. absurd (omega arith)),
        ((omega arith, omega arith, λ e. absurd (omega arith), λ e. absurd (omega arith)), tt),
      )
      tt refl
