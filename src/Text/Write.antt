-- ===== src/Text/Write.antt =====
-- writeLine and the kind of line endings to write, of source/streams/vtextiostream.cpp. A kind is a
-- value of the enum: setLineEndingsKind throws on any other.
use code_vault.Base.{
  ℕ, suc, ◌≡◌, ap, ◌∙◌, false, List, [], ◌∷◌, ◌++◌, Result, ok, ◌>>=◌, length, ◌==◌, if◌then◌else◌,
  append-nil, ok-injective, bind-eq-ok, subst, sym, arith,
}
use code_vault.Streams.Raw.{RawStream, IsSink}
use code_vault.Streams.Binary.Write.{Appends, Appends-trans}
use code_vault.Text.{LineEndings, unix_endings, dos_endings, mac_endings}

-- kUseUnixLineEndings and the others.
pub data WriteKind : Type 0 where
  use_unix use_dos use_mac use_supplied use_native : WriteKind

-- The characters that setLineEndingsKind installs; `native` are those of VgetNativeLineEnding.
unfoldable pub line_ending_chars : (native : List ℕ) → WriteKind → List ℕ
line_ending_chars native use_unix = 0x0a ∷ []
line_ending_chars native use_dos = 0x0d ∷ 0x0a ∷ []
line_ending_chars native use_mac = 0x0d ∷ []
line_ending_chars native use_supplied = []
line_ending_chars native use_native = native

-- getLineEndingsReadKindForWrite.
pub read_kind_for_write : LineEndings → WriteKind
read_kind_for_write unix_endings = use_unix
read_kind_for_write dos_endings = use_dos
read_kind_for_write mac_endings = use_mac
read_kind_for_write _ = use_native

module _ {S : Type 0} (raw : RawStream S) (native : List ℕ) (kind : WriteKind) where
  unfoldable pub write_line_end : S → Result S
  write_line_end s =
      let chars = line_ending_chars native kind in
      if length chars == 0 then ok s else raw.put chars s

  -- writeLine, of the bytes of a string.
  unfoldable pub write_line : List ℕ → S → Result S
  write_line bytes s = raw.put bytes s >>= write_line_end

module _ {S : Type 0} (raw : RawStream S) (sink : IsSink raw) (native : List ℕ)
    (kind : WriteKind) where
  characters_put :
      (chars : List ℕ) (s s' : S)
      → sink.Ready s
      → (if length chars == 0 then ok s else raw.put chars s) ≡ ok s'
      → Appends raw sink false chars s s'
  characters_put [] s s' ready e =
      let same = ok-injective s s' e in
      (subst sink.Ready same ready, ap sink.written (sym same) ∙ sym (append-nil (sink.written s)))
  characters_put (c ∷ chars) s s' ready e =
      let some_char : (suc (length chars) == 0) ≡ false = ground arith in
      sink.put_lem (c ∷ chars) s s' ready (rw some_char at e)

  pub write_line_lem :
      (bytes : List ℕ) (s s' : S)
      → sink.Ready s
      → write_line raw native kind bytes s ≡ ok s'
      → Appends raw sink false (bytes ++ line_ending_chars native kind) s s'
  unfolding write_line write_line_end
  write_line_lem bytes s s' ready e =
      let (t, puts, ends) = bind-eq-ok (raw.put bytes s) (write_line_end raw native kind) s' e in
      let first = sink.put_lem bytes s t ready puts in
      Appends-trans raw sink false bytes (line_ending_chars native kind) s t s' first
        (characters_put (line_ending_chars native kind) t s' (first.0) ends)
