-- ===== src/Messages/Tests.antt =====
-- Examples for source/server/vmessage.cpp, vmessagequeue.cpp and source/containers/vcompactingdeque.h.
use code_vault.Base.{ℕ, ◌+◌, refl, none, some, List, [], ◌∷◌}
use code_vault.Messages.Deque.{Deque}
use code_vault.Messages.Queue.{new_queue, Event, post, get, release_all}
use code_vault.Messages.Queue.Order.{IsRun, run_lem}

-- Three elements in a deque that compacts from two on.
abbrev three_elements : Deque ℕ
three_elements = record {
  items = 1 ∷ 2 ∷ 3 ∷ [];
  high_water_mark = 0;
  high_required = 2;
  low_required = 0;
  compactions = 5;
}

-- Threads post messages, a null pointer among them, others get two, and one releases what is there.
abbrev traffic : List Event
traffic =
    post (some 4)
    ∷ post none
    ∷ get
    ∷ post (some 6)
    ∷ release_all
    ∷ post (some 8)
    ∷ post (some 9)
    ∷ get
    ∷ []

run_lem_example : IsRun (λ m. m + 10) traffic new_queue
unfolding new_queue
run_lem_example = run_lem (λ m. m + 10) traffic new_queue refl
