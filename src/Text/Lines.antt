-- ===== src/Text/Lines.antt =====
-- readLine of source/streams/vtextiostream.cpp splits text at the endings of Unix, DOS and old Macs.
use code_vault.Base.{
  ℕ, zero, suc, ◌+◌, ◌<◌, ◌≡◌, ◌≢◌, refl, sym, ap, ◌∙◌, Bool, true, false, ◌||◌, some, List, [],
  ◌∷◌, ◌++◌, ok, length, ◌==◌, if◌then◌else◌, arith, append_assoc, append-nil, ap₂, drop,
}
use code_vault.Streams.Raw.{RawStream, IsSource}
use code_vault.CodePoint.Streamed.{of_stream_ascii, to_utf8_ascii}
use code_vault.Text.{
  LineEndings, unix_endings, dos_endings, mac_endings, ReadState, ready, got_0x0d, TextStream,
  update_read_kind, next_character, size_or_fault, take_character, end_line, in_ready, in_got_0x0d,
  read_rounds,
}

-- A text stream by its fields.
abbrev pub text_at : {S : Type 0} → S → LineEndings → ℕ → ReadState → TextStream S
text_at s kind p state = record { stream = s; read_kind = kind; pending = p; read_state = state }

-- The characters to come: the pending one, and behind it those of the raw stream.
abbrev pub upcoming : ℕ → List ℕ → List ℕ
upcoming zero u = u
upcoming (suc p) u = suc p ∷ u

-- An ASCII character that ends no line, and is not 0.
abbrev pub IsPlain : ℕ → Type 0
IsPlain c = (0 < c) × (c < 0x80) × (c ≢ 0x0a) × (c ≢ 0x0d)

abbrev pub ArePlain : List ℕ → Type 0
ArePlain [] = Unit {0}
ArePlain (c ∷ cs) = IsPlain c × ArePlain cs

module _ {S : Type 0} (raw : RawStream S) (source : IsSource raw) (available : S → ℕ)
    (counts : (s : S) → source.Ready s → available s ≡ length (source.unread s)) where
  -- The next character is taken, from where it stands.
  abbrev pub IsNext : ℕ → List ℕ → LineEndings → ReadState → TextStream S → Type 0
  IsNext c rest kind state t =
      (s' : S) × (fresh : Bool) × (next_character raw available t
        ≡ ok (some (c, 1, fresh), text_at s' kind 0 state))
      × source.Ready s'
      × (source.unread s' ≡ rest)

  pub next :
      (c : ℕ) (rest : List ℕ) (s : S) (kind : LineEndings) (p : ℕ) (state : ReadState)
      → c < 0x80
      → source.Ready s
      → upcoming p (source.unread s) ≡ c ∷ rest
      → IsNext c rest kind state (text_at s kind p state)
  unfolding next_character size_or_fault
  next c rest s kind zero state small rs e =
      let (s', reads, rs', left) = of_stream_ascii raw source c rest s small rs e in
      let some_left : (available s == 0) ≡ false = ground (arith, counts s rs, ap length e) in
      (s', true, simp (some_left, reads), rs', left)
  next c rest s kind (suc p) state small rs e =
      let first : suc p ≡ c = ap (λ (t : List ℕ). elim t [ [] ↦ 0 | x ∷ xs ↦ x ]) e in
      let held : (suc p == 0) ≡ false = ground arith in
      (
        s,
        false,
        simp held (ap (λ (k : ℕ). ok (some (k, 1, false), text_at s kind 0 state)) first),
        rs,
        ap (drop 1) e,
      )

  take_plain :
      (b : ℕ) (line : List ℕ) (s : S) (kind : LineEndings) (keep : Bool)
      → IsPlain b
      → take_character raw available keep b line (text_at s kind 0 ready)
        ≡ ok (record { line = line ++ b ∷ []; done = false; after = text_at s kind 0 ready })
  unfolding take_character in_ready
  take_plain b line s kind keep (some_char, small, no_lf, no_cr) =
      let lf : (b == 0x0a) ≡ false = ground (arith, no_lf) in
      let cr : (b == 0x0d) ≡ false = ground (arith, no_cr) in simp (lf, cr, to_utf8_ascii b small)

  -- A round in which the line goes on.
  pub plain_round :
      (fuel b : ℕ) (line : List ℕ) (s : S) (kind : LineEndings) (keep first fresh : Bool)
      (t : TextStream S)
      → IsPlain b
      → next_character raw available t ≡ ok (some (b, 1, fresh), text_at s kind 0 ready)
      → read_rounds raw available (suc fuel) keep first line t
        ≡ read_rounds raw available fuel keep
            (first || fresh)
            (line ++ b ∷ [])
            (text_at s kind 0 ready)
  unfolding read_rounds
  plain_round fuel b line s kind keep first fresh t plain gets =
      simp (gets, take_plain b line s kind keep plain)

  -- What is left of a line: its characters, each plain, and how the line ends.
  pub rounds_plain :
      (cs rest : List ℕ) (s : S) (kind : LineEndings) (p : ℕ) (fuel : ℕ) (keep first : Bool)
      (line : List ℕ)
      → ArePlain cs
      → source.Ready s
      → upcoming p (source.unread s) ≡ cs ++ rest
      → (s' : S) × (p' : ℕ) × (first' : Bool) × (read_rounds raw available
            (length cs + fuel)
            keep
            first
            line
            (text_at s kind p ready)
          ≡ read_rounds raw available fuel keep first' (line ++ cs) (text_at s' kind p' ready))
        × source.Ready s'
        × (upcoming p' (source.unread s') ≡ rest)
  rounds_plain [] rest s kind p fuel keep first line plain rs e = (
    s,
    p,
    first,
    ap₂ (λ (k : ℕ) xs. read_rounds raw available k keep first xs (text_at s kind p ready))
        (omega arith) (sym (append-nil line)),
    rs,
    e,
  )
  rounds_plain (b ∷ cs) rest s kind p fuel keep first line (plain, more) rs e =
      let (s1, fresh, gets, rs1, left) = next b (cs ++ rest) s kind p ready (plain.1) rs e in
      let (s2, p2, first2, runs, rs2, left2) =
        rounds_plain cs rest s1 kind 0 fuel keep (first || fresh) (line ++ b ∷ []) more rs1 left in
      (
        s2,
        p2,
        first2,
        ap (λ (k : ℕ). read_rounds raw available k keep first line (text_at s kind p ready))
              {y = suc (length cs + fuel)} (omega arith)
            ∙ plain_round (length cs + fuel) b line s1 kind keep first fresh
                (text_at s kind p ready) plain gets
            ∙ runs
            ∙ ap (λ xs. read_rounds raw available fuel keep first2 xs (text_at s2 kind p2 ready))
                (append_assoc line (b ∷ []) cs),
        rs2,
        left2,
      )

  pub take_lf :
      (line : List ℕ) (s : S) (kind : LineEndings) (keep : Bool)
      → take_character raw available keep 0x0a line (text_at s kind 0 ready)
        ≡ ok (record {
          line = if keep then line ++ 0x0a ∷ [] else line;
          done = true;
          after = text_at s (update_read_kind kind unix_endings) 0 ready;
        })
  unfolding take_character in_ready end_line
  take_lf line s kind keep = refl

  pub take_cr :
      (line : List ℕ) (s : S) (kind : LineEndings) (keep : Bool)
      → take_character raw available keep 0x0d line (text_at s kind 0 ready)
        ≡ ok (record { line = line; done = false; after = text_at s kind 0 got_0x0d })
  unfolding take_character in_ready
  take_cr line s kind keep = refl

  pub take_crlf :
      (line : List ℕ) (s : S) (kind : LineEndings) (keep : Bool)
      → take_character raw available keep 0x0a line (text_at s kind 0 got_0x0d)
        ≡ ok (record {
          line = if keep then line ++ 0x0d ∷ 0x0a ∷ [] else line;
          done = true;
          after = text_at s (update_read_kind kind dos_endings) 0 ready;
        })
  unfolding take_character in_got_0x0d end_line
  take_crlf line s kind keep = refl

  pub take_other :
      (c : ℕ) (line : List ℕ) (s : S) (kind : LineEndings) (keep : Bool)
      → c ≢ 0x0a
      → take_character raw available keep c line (text_at s kind 0 got_0x0d)
        ≡ ok (record {
          line = if keep then line ++ 0x0d ∷ [] else line;
          done = true;
          after = text_at s (update_read_kind kind mac_endings) c ready;
        })
  unfolding take_character in_got_0x0d end_line
  take_other c line s kind keep no_lf =
      let lf : (c == 0x0a) ≡ false = ground (arith, no_lf) in simp lf

  -- A round that ends the line, and a round behind which the line goes on, whatever the character.
  pub last_round :
      (fuel c : ℕ) (line line' : List ℕ) (keep first fresh : Bool) (t t1 t2 : TextStream S)
      → next_character raw available t ≡ ok (some (c, 1, fresh), t1)
      → take_character raw available keep c line t1
        ≡ ok (record { line = line'; done = true; after = t2 })
      → read_rounds raw available (suc fuel) keep first line t ≡ ok (line', t2)
  unfolding read_rounds
  last_round fuel c line line' keep first fresh t t1 t2 gets takes = simp (gets, takes)

  pub round_before :
      (fuel c : ℕ) (line line' : List ℕ) (keep first fresh : Bool) (t t1 t2 : TextStream S)
      → next_character raw available t ≡ ok (some (c, 1, fresh), t1)
      → take_character raw available keep c line t1
        ≡ ok (record { line = line'; done = false; after = t2 })
      → read_rounds raw available (suc fuel) keep first line t
        ≡ read_rounds raw available fuel keep (first || fresh) line' t2
  unfolding read_rounds
  round_before fuel c line line' keep first fresh t t1 t2 gets takes = simp (gets, takes)
