-- ===== src/Text/Limits.antt =====
-- Where readLine of source/streams/vtextiostream.cpp ends a line early, and where it loses a character.
use code_vault.Base.{ℕ, ◌≡◌, ap, ◌∙◌, Bool, true, false, [], err, eof, false, ◌==◌, length, arith}
use code_vault.Streams.Raw.{RawStream, IsSource}
use code_vault.CodePoint.{CodePoint}
use code_vault.Text.{LineEndings, ready, read_rounds, read_line, next_character, size_or_fault}
use code_vault.Text.Lines.{text_at, IsPlain, plain_round}

module _ {S : Type 0} (raw : RawStream S) (source : IsSource raw) (available : S → ℕ)
    (counts : (s : S) → source.Ready s → available s ≡ length (source.unread s)) where
  -- A pending character that is plain, where the stream has ended, is lost: readLine takes it, and throws EOF.
  pub read_line_loses :
      (c : ℕ) (s : S) (kind : LineEndings) (keep : Bool)
      → IsPlain c
      → available s ≡ 0
      → read_line raw available keep (text_at s kind c ready) ≡ err eof
  unfolding read_line read_rounds next_character size_or_fault
  read_line_loses c s kind keep plain ended =
      let held : (c == 0) ≡ false = ground (arith, plain.1) in
      let shut : (available s == 0) ≡ true = ground (arith, ended) in
      ap (λ (k : ℕ). read_rounds raw available k keep false [] (text_at s kind c ready)) {y = 2}
        (omega arith)
      ∙ plain_round raw source available counts 1 c [] s kind keep false false
          (text_at s kind c ready) plain (simp held)
      ∙ simp shut
