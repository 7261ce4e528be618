-- ===== src/Streams/Buffered.antt =====
-- source/streams/vwritebufferedstream.cpp: VWriteBufferedStream, a memory stream that flushes to a raw stream.
pub mod Session
pub mod ToMemory
mod Tests
use code_vault.Base.{ℕ, List, [], ◌∷◌, Result, ok, err, exception, ◌>>=◌, pos}
use code_vault.Streams.{Platform}
use code_vault.Streams.Raw.{RawStream}
use code_vault.Streams.Memory.{World, MemoryStream, write, seek, seek_set, set_eof}
use code_vault.Streams.Transfer.{copy_out, copy_memories}

-- read and skip throw VUnimplementedException.
pub buffered_read : ℕ → World → Result (List ℕ × World)
buffered_read n w = err exception

pub buffered_skip : ℕ → World → Result World
buffered_skip n w = err exception

module _ {T : Type 0} (p : Platform) (sink : RawStream T) where
  -- flush, to a raw stream that has no buffer of its own, and takes all the bytes of a write or throws: the count
  -- that streamCopy returns is not looked at. A seek gives its result and the stream.
  pub flush : World → T → Result (World × T)
  flush w t =
      let (rewound, w1) = seek p (pos 0) seek_set w in
      rewound >>= λ _. copy_out sink w1.this.eof_offset w1 t >>= λ (count, w2, t').
      let (again, w3) = seek p (pos 0) seek_set w2 in
      again >>= λ _. ok (record w3 { this = set_eof 0 w3.this }, t')

  -- What a client does with the stream.
  pub data Call : Type 0 where
    writes : List ℕ → Call
    flushes : Call

  pub call : Call → World → T → Result (World × T)
  unfolding flush
  call (writes ys) w t = write p ys w >>= λ w'. ok (w', t)
  call flushes w t = flush w t

  pub calls : List Call → World → T → Result (World × T)
  unfolding call
  calls [] w t = ok (w, t)
  calls (c ∷ more) w t = call c w t >>= λ (w', t'). calls more w' t'

-- flush, to a memory stream whose block is in the same heap: streamCopy goes from buffer to buffer. The result is
-- the buffered stream, and the target with the heap.
pub flush_to_memory : (p : Platform) (target : MemoryStream) → World → Result (MemoryStream × World)
flush_to_memory p target w =
    let (rewound, w1) = seek p (pos 0) seek_set w in
    rewound >>= λ _.
    copy_memories p w1.this.eof_offset w1.this (record w1 { this = target })
    >>= λ (count, emptied, w2).
        let (again, w3) = seek p (pos 0) seek_set (record w2 { this = emptied }) in
        again >>= λ _. ok (set_eof 0 w3.this, record w3 { this = w2.this })
