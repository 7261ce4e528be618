-- ===== src/Streams/Copier/Tests.antt =====
-- Examples for VStreamCopier in source/streams/vstreamcopier.cpp: four bytes in chunks of two.
use code_vault.Base.{some, ℕ, ◌≡◌, refl, List, [], ◌∷◌, ◌++◌, ok, err, endless, arith}
use code_vault.Heap.{allocate, live, from_new}
use code_vault.Streams.{new_new_buffer}
use code_vault.Streams.Memory.Tests.{machine}
use code_vault.Streams.Tests.{list_raw, list-IsSource, list-IsSink}
use code_vault.Streams.Copier.{Copier, new_copier, init, copy_all}
use code_vault.Streams.Copier.Loop.{copy_all_lem, copy_all_idle}

abbrev four : List ℕ
four = 1 ∷ 2 ∷ 3 ∷ 4 ∷ []

abbrev start : Copier (List ℕ) (List ℕ)
start = init 2 four (9 ∷ []) new_copier

copy_all_lem_example :
    (s' t' : List ℕ) × (copy_all machine list_raw list_raw 8 [] 5 start
      ≡ ok (record { chunk_size = 2; from = some s'; to = some t'; num_bytes_copied = 4 }))
    × (s' ≡ [])
    × (t' ≡ (9 ∷ []) ++ four)
unfolding new_new_buffer allocate
copy_all_lem_example =
    copy_all_lem machine list_raw list-IsSource list_raw list-IsSink (λ ys t ready. (t ++ ys, refl))
      8 (omega arith) [] (live from_new (7 ∷ 7 ∷ []) ∷ []) 5 2 0 four (9 ∷ []) (omega arith) refl tt
      tt (omega arith)

copy_all_idle_example : copy_all machine list_raw list_raw 8 [] 5 new_copier ≡ err endless
copy_all_idle_example = copy_all_idle machine list_raw list_raw 8 [] 5
