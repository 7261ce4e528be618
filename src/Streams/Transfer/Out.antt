-- ===== src/Streams/Transfer/Out.antt =====
-- streamCopy of source/streams/vstream.cpp from a memory stream to a stream without a buffer.
use code_vault.Base.{ℕ, ◌≡◌, ap, ◌∙◌, sym, ok, ◌>>=◌, length, take, drop}
use code_vault.Streams.{Platform}
use code_vault.Streams.Raw.{RawStream}
use code_vault.Streams.Memory.{World, read, finish_read}
use code_vault.Streams.Memory.Invariant.{IsValid, load_valid}
use code_vault.Streams.Memory.Access.{bytes_read, bytes_in_block, read_count, read_lem}
use code_vault.Streams.Transfer.{prepare_to_read, copy_out}

-- It is one read of the memory stream and one write of the bytes that it gave; the result is their count.
pub copy_out-eq-put :
    {T : Type 0} (p : Platform) (sink : RawStream T) (n : ℕ) (w : World) (t : T)
    → IsValid w
    → copy_out sink n w t
      ≡ (read p n w >>= λ (bytes, w'). sink.put bytes t >>= λ t'. ok (length bytes, w', t'))
unfolding copy_out prepare_to_read
copy_out-eq-put p sink n w t v =
    let got = bytes_read p n w v in
    let c = prepare_to_read n w.this in
    ap
      (λ r. r >>= λ bytes.
        sink.put (take c (drop w.this.io_offset bytes)) t >>= λ t'. ok (c, finish_read c w, t'))
      (load_valid w v)
    ∙ ap (λ bytes. sink.put bytes t >>= λ t'. ok (c, finish_read c w, t')) (bytes_in_block p n w v)
    ∙ ap (λ (k : ℕ). sink.put got t >>= λ t'. ok (k, finish_read k w, t')) (read_count p n w v)
    ∙ ap (λ r. r >>= λ (bytes, w'). sink.put bytes t >>= λ t'. ok (length bytes, w', t'))
        (sym (read_lem p n w v))
