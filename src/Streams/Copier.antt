-- ===== src/Streams/Copier.antt =====
-- source/streams/vstreamcopier.cpp: VStreamCopier, which copies from a stream to another in chunks.
pub mod Loop
mod Tests
use code_vault.Base.{
  ℕ, zero, suc, ◌+◌, Bool, Option, none, some, Result, ok, err, endless, ◌>>=◌, ◌==◌, if◌then◌else◌,
}
use code_vault.Heap.{Heap}
use code_vault.Streams.{Platform}
use code_vault.Streams.Raw.{RawStream}
use code_vault.Streams.Transfer.{copy_streams}

-- The streams that it points to are in it as values; the chunk size is not negative.
pub record Copier (S T : Type 0) : Type 0 where
  pub chunk_size : ℕ
  pub from : Option S
  pub to : Option T
  pub num_bytes_copied : ℕ

-- The constructor without arguments, and init.
abbrev pub new_copier : {S T : Type 0} → Copier S T
new_copier = record { chunk_size = 0; from = none; to = none; num_bytes_copied = 0 }

abbrev pub init : {S T : Type 0} → ℕ → S → T → Copier S T → Copier S T
init chunk s t c = record { chunk_size = chunk; from = some s; to = some t; num_bytes_copied = 0 }

-- `temp` is the size of streamCopy's buffer, which it frees, so that the heap is the same for each chunk.
module _ {S T : Type 0} (p : Platform) (source : RawStream S) (sink : RawStream T) (temp : ℕ)
    (h : Heap) where
  -- What streamCopy gives, or no bytes where a stream is missing.
  copy_between : ℕ → Option S → Option T → Result (ℕ × Option S × Option T)
  copy_between n (some s) (some t) =
      copy_streams p source sink n temp h s t >>= λ (count, s', t'). ok (count, some s', some t')
  copy_between n from to = ok (0, from, to)

  -- copyChunk.
  pub copy_chunk : Copier S T → Result (Bool × Copier S T)
  unfolding copy_between
  copy_chunk c = copy_between c.chunk_size c.from c.to >>= λ (count, from', to'). ok (
    count == c.chunk_size,
    record {
      chunk_size = c.chunk_size;
      from = from';
      to = to';
      num_bytes_copied = c.num_bytes_copied + count;
    },
  )

  -- The loop of a client: `while (copier.copyChunk())`, on fuel; `endless` where that has run out.
  pub copy_all : (fuel : ℕ) → Copier S T → Result (Copier S T)
  unfolding copy_chunk
  copy_all zero c = err endless
  copy_all (suc fuel) c =
      copy_chunk c >>= λ (more, c'). let rest = copy_all fuel c' in if more then rest else ok c'
