-- ===== src/Text/ReadLine.antt =====
-- A line and its ending, as readLine of source/streams/vtextiostream.cpp takes them.
use code_vault.Base.{
  ℕ, zero, suc, ◌+◌, ◌≤◌, ◌<◌, ◌≡◌, ◌≢◌, refl, ap, ◌∙◌, Bool, false, List, [], ◌∷◌, ◌++◌, Result,
  ok, false, length, ◌-◌, if◌then◌else◌, arith, length-append,
}
use code_vault.Streams.Raw.{RawStream, IsSource}
use code_vault.Text.{
  LineEndings, unix_endings, dos_endings, mac_endings, ready, got_0x0d, TextStream,
  update_read_kind, read_rounds, read_line,
}
use code_vault.Text.Lines.{
  text_at, upcoming, ArePlain, next, rounds_plain, take_lf, take_cr, take_crlf, take_other,
  last_round, round_before,
}

-- An ending, and the bytes of it.
pub data Ending : Type 0 where
  unix dos mac : Ending

abbrev pub kind_of : Ending → LineEndings
kind_of unix = unix_endings
kind_of dos = dos_endings
kind_of mac = mac_endings

abbrev pub ending_bytes : Ending → List ℕ
ending_bytes unix = 0x0a ∷ []
ending_bytes dos = 0x0d ∷ 0x0a ∷ []
ending_bytes mac = 0x0d ∷ []

-- What may come behind an ending: a character of ASCII behind that of old Macs, neither a line feed nor 0.
abbrev pub Follows : Ending → List ℕ → Type 0
Follows unix rest = Unit {0}
Follows dos rest = Unit {0}
Follows mac [] = ⊥
Follows mac (c ∷ rest) = (0 < c) × (c < 0x80) × (c ≢ 0x0a)

abbrev pub kept : Bool → Ending → List ℕ → List ℕ
kept keep ending line = if keep then line ++ ending_bytes ending else line

upcoming_suc : (c : ℕ) (u : List ℕ) → 0 < c → upcoming c u ≡ c ∷ u
upcoming_suc zero u some_char = absurd (omega arith)
upcoming_suc (suc c) u some_char = refl

module _ {S : Type 0} (raw : RawStream S) (source : IsSource raw) (available : S → ℕ)
    (counts : (s : S) → source.Ready s → available s ≡ length (source.unread s)) where
  -- The line is given, the kind of its ending noted, and the rest is still to come.
  abbrev pub IsLine : List ℕ → List ℕ → LineEndings → Result (List ℕ × TextStream S) → Type 0
  IsLine line rest kind r =
      (s' : S) × (p' : ℕ) × (r ≡ ok (line, text_at s' kind p' ready))
      × source.Ready s'
      × (upcoming p' (source.unread s') ≡ rest)

  ending_lem :
      (ending : Ending) (rest : List ℕ) (s : S) (kind : LineEndings) (p fuel : ℕ)
      (keep first : Bool) (line : List ℕ)
      → source.Ready s
      → upcoming p (source.unread s) ≡ ending_bytes ending ++ rest
      → Follows ending rest
      → IsLine
          (kept keep ending line)
          rest
          (update_read_kind kind (kind_of ending))
          (read_rounds raw available (suc (suc fuel)) keep first line (text_at s kind p ready))
  ending_lem unix rest s kind p fuel keep first line rs e behind =
      let (s1, fresh, gets, rs1, left) =
        next raw source available counts 0x0a rest s kind p ready (omega arith) rs e in
      (
        s1,
        0,
        last_round raw source available counts (suc fuel) 0x0a line _ keep first fresh _ _ _ gets
            (take_lf raw source available counts line s1 kind keep),
        rs1,
        left,
      )
  ending_lem dos rest s kind p fuel keep first line rs e behind =
      let (s1, fresh, gets, rs1, left) =
        next raw source available counts 0x0d (0x0a ∷ rest) s kind p ready (omega arith) rs e in
      let (s2, fresh2, gets2, rs2, left2) =
        next raw source available counts 0x0a rest s1 kind 0 got_0x0d (omega arith) rs1 left in
      (
        s2,
        0,
        round_before raw source available counts (suc fuel) 0x0d line line keep first fresh _ _ _
              gets (take_cr raw source available counts line s1 kind keep)
            ∙ last_round raw source available counts fuel 0x0a line _ keep _ fresh2 _ _ _ gets2
                (take_crlf raw source available counts line s2 kind keep),
        rs2,
        left2,
      )
  ending_lem mac [] s kind p fuel keep first line rs e behind = absurd behind
  ending_lem mac (c ∷ rest) s kind p fuel keep first line rs e (some_char, small, no_lf) =
      let (s1, fresh, gets, rs1, left) =
        next raw source available counts 0x0d (c ∷ rest) s kind p ready (omega arith) rs e in
      let (s2, fresh2, gets2, rs2, left2) =
        next raw source available counts c rest s1 kind 0 got_0x0d small rs1 left in
      (
        s2,
        c,
        round_before raw source available counts (suc fuel) 0x0d line line keep first fresh _ _ _
              gets (take_cr raw source available counts line s1 kind keep)
            ∙ last_round raw source available counts fuel c line _ keep _ fresh2 _ _ _ gets2
                (take_other raw source available counts c line s2 kind keep no_lf),
        rs2,
        upcoming_suc c (source.unread s2) some_char ∙ ap (λ u. c ∷ u) left2,
      )

  length-upcoming : (p : ℕ) (u : List ℕ) → length (upcoming p u) ≤ suc (length u)
  length-upcoming zero u = omega arith
  length-upcoming (suc p) u = omega arith

  length-ending_bytes : (ending : Ending) → 1 ≤ length (ending_bytes ending)
  length-ending_bytes unix = omega arith
  length-ending_bytes dos = omega arith
  length-ending_bytes mac = omega arith

  -- The bytes that are left bound the rounds that a line takes.
  fuel_lem :
      (cs : List ℕ) (ending : Ending) (rest : List ℕ) (s : S) (p : ℕ)
      → source.Ready s
      → upcoming p (source.unread s) ≡ cs ++ (ending_bytes ending ++ rest)
      → (extra : ℕ) × (available s + 2 ≡ length cs + suc (suc extra))
  fuel_lem cs ending rest s p rs e =
      let all : length (upcoming p (source.unread s))
          ≡ length cs + (length (ending_bytes ending) + length rest) =
        ap length e
        ∙ length-append cs (ending_bytes ending ++ rest)
        ∙ ap (λ (k : ℕ). length cs + k) (length-append (ending_bytes ending) rest) in
      let most = length-upcoming p (source.unread s) in
      let least = length-ending_bytes ending in
      let count = counts s rs in (available s - length cs, omega arith)

  -- In the ready state, that is, not behind a carriage return at which the data ended: where plain characters
  -- come next, a pending one included, then an ending, and behind that of old Macs an ASCII character that is
  -- neither a line feed nor 0, readLine gives these characters, with the ending if it is asked for, notes the
  -- kind of the ending, and leaves what comes behind it to be read.
  pub read_line_lem :
      (cs : List ℕ) (ending : Ending) (rest : List ℕ) (s : S) (kind : LineEndings) (p : ℕ)
      (keep : Bool)
      → ArePlain cs
      → source.Ready s
      → upcoming p (source.unread s) ≡ cs ++ (ending_bytes ending ++ rest)
      → Follows ending rest
      → IsLine
          (kept keep ending cs)
          rest
          (update_read_kind kind (kind_of ending))
          (read_line raw available keep (text_at s kind p ready))
  unfolding read_line
  read_line_lem cs ending rest s kind p keep plain rs e behind =
      let (extra, fuel) = fuel_lem cs ending rest s p rs e in
      let (s1, p1, first1, runs, rs1, left1) =
        rounds_plain raw source available counts cs (ending_bytes ending ++ rest) s kind p
          (suc (suc extra)) keep false [] plain rs e in
      let (s2, p2, ends, rs2, left2) =
        ending_lem ending rest s1 kind p1 extra keep first1 cs rs1 left1 behind in
      (
        s2,
        p2,
        ap (λ (k : ℕ). read_rounds raw available k keep false [] (text_at s kind p ready)) fuel
            ∙ runs
            ∙ ends,
        rs2,
        left2,
      )
