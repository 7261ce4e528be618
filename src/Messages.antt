-- ===== src/Messages.antt =====
-- source/server/vmessage.cpp and vmessagequeue.cpp, with the deque of source/containers/vcompactingdeque.h.
-- The data buffer of a VMessage is a VMemoryStream.
pub mod Data
pub mod Deque
pub mod Queue
mod Tests
use code_vault.Base.{ℕ, ◌+◌, ◌%◌, ◌^◌, ◌*◌, Bool, ℤ, pos, Result, ok, err, ◌>>=◌}
use code_vault.Streams.{Platform}
use code_vault.Streams.Memory.{MemoryStream, World, Whence, seek_set, seek, set_eof}
use code_vault.Streams.Transfer.{copy_memories}
use code_vault.Streams.Order.{signed_of}

-- A message and its data buffer, with the heap where the buffer's block is.
pub record Message : Type 0 where
  pub message_id : ℤ
  pub buffer : World

-- seek0 and the other seeks of a message, which stay within its data.
seek_set_to : Platform → ℕ → World → World
seek_set_to p n w = (seek p (pos n) seek_set w).1

-- recycleForSend.
pub recycle_for_send : Platform → ℤ → Message → Message
unfolding seek_set_to
recycle_for_send p id m = record { message_id = id; buffer = seek_set_to p 0 m.buffer }

-- recycleForReceive.
pub recycle_for_receive : Message → Message
recycle_for_receive m = record {
  message_id = pos 0;
  buffer = record (m.buffer) { this = set_eof 0 m.buffer.this };
}

-- getMessageDataLength: the end of the data as a Vs32.
pub message_data_length : MemoryStream → ℤ
message_data_length s = signed_of 4 (s.eof_offset % 2 ^ 32)

-- copyMessageData: from the message whose data buffer is `source`, in the heap of the target's. The
-- result is the source's buffer afterwards, and the target's.
pub copy_message_data : Platform → MemoryStream → World → Result (MemoryStream × World)
unfolding seek_set_to
copy_message_data p source w =
    let at_start = seek_set_to p 0 (record w { this = source }) in
    copy_memories p source.eof_offset at_start.this (record at_start { this = w.this })
    >>= λ (count, read_from, w').
        let back = seek_set_to p source.io_offset (record w' { this = read_from }) in
        ok (back.this, record back { this = w'.this })
