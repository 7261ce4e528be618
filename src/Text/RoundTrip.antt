-- ===== src/Text/RoundTrip.antt =====
-- Lines that writeLine of source/streams/vtextiostream.cpp wrote, as readLine takes them.
use code_vault.Base.{
  ℕ, ◌≡◌, ap, refl, ◌∙◌, Bool, List, ◌++◌, ok, length, drop, append_assoc, drop-append,
}
use code_vault.Streams.Raw.{RawStream, IsSource, IsSink}
use code_vault.Text.{LineEndings, update_read_kind, ready, read_line}
use code_vault.Text.Lines.{text_at, ArePlain}
use code_vault.Text.Write.{
  WriteKind, use_unix, use_dos, use_mac, line_ending_chars, write_line, write_line_lem,
}
use code_vault.Text.ReadLine.{
  Ending, unix, dos, mac, kind_of, ending_bytes, Follows, kept, IsLine, read_line_lem,
}

abbrev pub write_kind_of : Ending → WriteKind
write_kind_of unix = use_unix
write_kind_of dos = use_dos
write_kind_of mac = use_mac

chars_of_ending :
    (native : List ℕ) (ending : Ending)
    → line_ending_chars native (write_kind_of ending) ≡ ending_bytes ending
unfolding line_ending_chars
chars_of_ending native unix = refl
chars_of_ending native dos = refl
chars_of_ending native mac = refl

module _ {S T : Type 0} (out : RawStream S) (sink : IsSink out) (native : List ℕ)
    (into : RawStream T) (source : IsSource into) (available : T → ℕ)
    (counts : (t : T) → source.Ready t → available t ≡ length (source.unread t)) where
  -- When writeLine has written a line of plain characters, with the line endings of Unix, DOS or old Macs, and a
  -- stream carries what was written, then readLine on that stream, in the ready state without a pending character,
  -- returns the line, with its ending if it is asked for, notes the kind of the ending, and leaves what follows
  -- to be read; behind an ending of old Macs an ASCII character has to follow, neither a line feed nor 0.
  pub read_line-write_line :
      (cs : List ℕ) (ending : Ending) (s s' : S) (t : T) (rest : List ℕ) (kind : LineEndings)
      (keep : Bool)
      → sink.Ready s
      → source.Ready t
      → source.unread t ≡ drop (length (sink.written s)) (sink.written s') ++ rest
      → ArePlain cs
      → Follows ending rest
      → write_line out native (write_kind_of ending) cs s ≡ ok s'
      → IsLine into source available counts
          (kept keep ending cs)
          rest
          (update_read_kind kind (kind_of ending))
          (read_line into available keep (text_at t kind 0 ready))
  read_line-write_line cs ending s s' t rest kind keep ready_out ready_in carried plain behind e =
      let appended =
        (write_line_lem out sink native (write_kind_of ending) cs s s' ready_out e).1 in
      let line = cs ++ line_ending_chars native (write_kind_of ending) in
      let arrives : source.unread t ≡ cs ++ (ending_bytes ending ++ rest) =
        carried
        ∙ ap (λ b. drop (length (sink.written s)) b ++ rest) appended
        ∙ ap (λ b. b ++ rest) (drop-append (sink.written s) line (length (sink.written s)) refl)
        ∙ append_assoc cs (line_ending_chars native (write_kind_of ending)) rest
        ∙ ap (λ b. cs ++ (b ++ rest)) (chars_of_ending native ending) in
      read_line_lem into source available counts cs ending rest t kind 0 keep plain ready_in arrives
        behind
