-- ===== src/Text.antt =====
-- source/streams/vtextiostream.cpp: readLine and the line endings of VTextIOStream, over a raw stream.
pub mod Lines
pub mod Limits
pub mod ReadLine
pub mod RoundTrip
pub mod Tests
pub mod Write
use code_vault.Base.{
  ℕ, zero, suc, ◌+◌, Bool, true, false, not, ◌&&◌, ◌||◌, Option, none, some, List, [], ◌∷◌, ◌++◌,
  Result, ok, err, eof, fault, ◌>>=◌, ◌==◌, if◌then◌else◌,
}
use code_vault.Streams.Raw.{RawStream}
use code_vault.CodePoint.{CodePoint, of_stream, to_utf8}

-- kLineEndingsUnknown and the others.
pub data LineEndings : Type 0 where
  unknown_endings unix_endings dos_endings mac_endings mixed_endings : LineEndings

pub data ReadState : Type 0 where
  ready got_0x0d : ReadState

-- mPendingCharacter is its value, 0 where there is none.
pub record TextStream (S : Type 0) : Type 0 where
  pub stream : S
  pub read_kind : LineEndings
  pub pending : ℕ
  pub read_state : ReadState

-- _updateLineEndingsReadKind: nothing changes for a kind that no line ends with.
pub update_read_kind : LineEndings → LineEndings → LineEndings
update_read_kind kind unknown_endings = kind
update_read_kind kind mixed_endings = kind
update_read_kind unknown_endings found = found
update_read_kind unix_endings unix_endings = unix_endings
update_read_kind unix_endings dos_endings = mixed_endings
update_read_kind unix_endings mac_endings = mixed_endings
update_read_kind dos_endings unix_endings = mixed_endings
update_read_kind dos_endings dos_endings = dos_endings
update_read_kind dos_endings mac_endings = mixed_endings
update_read_kind mac_endings unix_endings = mixed_endings
update_read_kind mac_endings dos_endings = mixed_endings
update_read_kind mac_endings mac_endings = mac_endings
update_read_kind mixed_endings found = mixed_endings

-- What a round of readLine makes of a character: the line, whether it is done, and the stream.
pub record Round (S : Type 0) : Type 0 where
  pub line : List ℕ
  pub done : Bool
  pub after : TextStream S

module _ {S : Type 0} (raw : RawStream S) (available : S → ℕ) where
  size_or_fault : CodePoint → Result ℕ
  size_or_fault c = elim c.utf8_length [ none ↦ err fault | some n ↦ ok n ]

  -- The character of a round, the count of its bytes, and whether it was read from the raw stream and
  -- not pending; none at the end of the stream.
  pub next_character : TextStream S → Result (Option (ℕ × ℕ × Bool) × TextStream S)
  unfolding size_or_fault
  next_character t =
      if not (t.pending == 0)
      then ok (some (t.pending, 1, false), record t { pending = 0 })
      else (if available t.stream == 0
          then ok (none, t)
          else (of_stream raw t.stream >>= λ (c, s).
              size_or_fault c >>= λ n. ok (some (c.int_value, n, true), record t { stream = s })))

  end_line : LineEndings → TextStream S → TextStream S
  end_line kind t = record t { read_kind = update_read_kind t.read_kind kind; read_state = ready }

  in_ready : (include_ending : Bool) → ℕ → List ℕ → TextStream S → Result (Round S)
  in_ready include_ending c line t =
      if c == 0x0a
      then ok (record {
        line = if include_ending then line ++ 0x0a ∷ [] else line;
        done = true;
        after = end_line unix_endings t;
      })
      else (if c == 0x0d
          then ok (record { line = line; done = false; after = record t { read_state = got_0x0d } })
          else (to_utf8 c >>= λ bytes.
              ok (record { line = line ++ bytes; done = false; after = t })))

  in_got_0x0d : (include_ending : Bool) → ℕ → List ℕ → TextStream S → Round S
  in_got_0x0d include_ending c line t =
      if c == 0x0a
      then record {
        line = if include_ending then line ++ 0x0d ∷ 0x0a ∷ [] else line;
        done = true;
        after = end_line dos_endings t;
      }
      else record {
        line = if include_ending then line ++ 0x0d ∷ [] else line;
        done = true;
        after = record (end_line mac_endings t) { pending = c };
      }

  -- The switch on mReadState.
  pub take_character : (include_ending : Bool) → ℕ → List ℕ → TextStream S → Result (Round S)
  unfolding end_line in_ready in_got_0x0d
  take_character include_ending c line t = elim t.read_state [
    | ready ↦ in_ready include_ending c line t
    | got_0x0d ↦ ok (in_got_0x0d include_ending c line t)
  ]

  -- The loop of readLine, with readFirstByteOfLine.
  pub read_rounds :
      (fuel : ℕ) (include_ending first : Bool)
      → List ℕ
      → TextStream S
      → Result (List ℕ × TextStream S)
  read_rounds zero include_ending first line t = err fault
  read_rounds (suc fuel) include_ending first line t = next_character t >>= λ (found, rest).
      elim found [
        | none ↦ if first then ok (line, rest) else err eof
        | some (c, n, fresh) ↦ take_character include_ending c line rest >>= λ r.
            if n == 1 && not r.done
            then read_rounds fuel include_ending (first || fresh) r.line r.after
            else ok (r.line, r.after)
      ]

  -- readLine. Each round but the first takes a byte at least from the stream.
  pub read_line : (include_ending : Bool) → TextStream S → Result (List ℕ × TextStream S)
  unfolding read_rounds
  read_line include_ending t = read_rounds (available t.stream + 2) include_ending false [] t
