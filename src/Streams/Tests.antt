-- ===== src/Streams/Tests.antt =====
-- A stream that is a list of bytes, and examples for streamCopy in source/streams/vstream.cpp.
use code_vault.Base.{ℕ, ◌≡◌, refl, sym, ap, List, [], ◌∷◌, ◌++◌, ok, err, ◌>>=◌, take, drop, arith}
use code_vault.Heap.{block_at, allocate, live, from_new}
use code_vault.Streams.{new_new_buffer}
use code_vault.Streams.Raw.{RawStream, IsSource, IsSink}
use code_vault.Streams.Transfer.{copy_streams, copy_memories}
use code_vault.Streams.Transfer.Loop.{IsMoved, copy_streams_lem}
use code_vault.Streams.Transfer.Memories.{copy_memories-eq-write}
use code_vault.Streams.Memory.{write, finish_read}
use code_vault.Streams.Memory.Tests.{machine, two_blocks, two_bytes, first, first-IsValid}
use code_vault.Streams.Memory.Lifecycle.Tests.{second-IsValid}

-- A stream that holds the bytes to be read; what is written goes to their end.
abbrev pub list_raw : RawStream (List ℕ)
list_raw = record { get = λ n s. ok (take n s, drop n s); put = λ ys s. ok (s ++ ys) }

abbrev pub list-IsSource : IsSource list_raw
list-IsSource = record {
  Ready = λ s. Unit {0};
  unread = λ s. s;
  get_lem = λ n s ready. (drop n s, refl, tt, refl);
}

abbrev pub list-IsSink : IsSink list_raw
list-IsSink = record {
  Ready = λ s. Unit {0};
  written = λ s. s;
  put_lem = λ ys s s' ready e. (tt, ap (λ r. elim r [ ok t ↦ t | err f ↦ s ]) (sym e));
}

copy_streams_lem_example :
    IsMoved list_raw list-IsSource list_raw list-IsSink
      (λ ys t ready. (t ++ ys, refl))
      3
      0
      (1 ∷ 2 ∷ 3 ∷ 4 ∷ [])
      (9 ∷ [])
      (copy_streams machine list_raw list_raw 3 2 [] (1 ∷ 2 ∷ 3 ∷ 4 ∷ []) (9 ∷ []))
unfolding new_new_buffer allocate
copy_streams_lem_example =
    copy_streams_lem list_raw list-IsSource list_raw list-IsSink (λ ys t ready. (t ++ ys, refl))
      machine [] (live from_new (7 ∷ 7 ∷ []) ∷ []) 3 2 (1 ∷ 2 ∷ 3 ∷ 4 ∷ []) (9 ∷ []) (omega arith)
      refl tt tt

copy_memories-eq-write_example : copy_memories machine 5 two_bytes first ≡ (
    write machine (9 ∷ []) first >>= λ w'.
    ok (1, (finish_read 1 (record { heap = two_blocks; this = two_bytes })).this, w'))
unfolding block_at
copy_memories-eq-write_example =
    copy_memories-eq-write machine 5 two_bytes first first-IsValid second-IsValid (λ e. absurd (cc))
