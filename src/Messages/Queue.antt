-- ===== src/Messages/Queue.antt =====
-- VMessageQueue (source/server/vmessagequeue.cpp). A message is a reference, `none` the null pointer;
-- `size` gives the data length that a message has when an operation asks for it.
pub mod Order
use code_vault.Base.{
  ℕ, zero, suc, ◌+◌, List, [], ◌∷◌, ◌++◌, Option, none, some, ℤ, pos, ◌+ℤ◌, ◌-ℤ◌, Result, ok, err,
  ◌>>=◌, length,
}
use code_vault.Messages.Deque.{Deque, new_deque, push_back, pop_front}

pub record Queue : Type 0 where
  pub messages : Deque (Option ℕ)
  pub data_size : ℤ

-- The constructor, with the thresholds of a VCompactingDeque by default.
unfoldable pub new_queue : Queue
unfolding new_deque
new_queue = record { messages = new_deque 64 0; data_size = pos 0 }

module _ (size : ℕ → ℕ) where
  data_of : Option ℕ → ℕ
  data_of none = 0
  data_of (some m) = size m

  -- postMessage.
  pub post_message : Option ℕ → Queue → Queue
  unfolding push_back data_of
  post_message m q = record {
    messages = push_back m q.messages;
    data_size = q.data_size +ℤ pos (data_of m);
  }

  -- The first message, and the queue without it.
  take_front : List (Option ℕ) → Queue → Result (Option ℕ × Queue)
  unfolding data_of
  take_front [] q = ok (none, q)
  take_front (m ∷ ms) q = pop_front q.messages >>= λ rest.
      ok (m, record { messages = rest; data_size = q.data_size -ℤ pos (data_of m) })

  -- getNextMessage: the null pointer where the queue is empty.
  pub get_next_message : Queue → Result (Option ℕ × Queue)
  unfolding take_front
  get_next_message q = take_front q.messages.items q

  -- The loop of releaseAllMessages, with as many rounds as there are messages.
  release : ℕ → Queue → Result Queue
  unfolding take_front
  release zero q = ok q
  release (suc n) q = take_front q.messages.items q >>= λ (m, rest). release n rest

  -- releaseAllMessages.
  pub release_all_messages : Queue → Result Queue
  unfolding release
  release_all_messages q = release (length q.messages.items) q

-- getQueueSize and getQueueDataSize.
pub queue_size : Queue → ℕ
queue_size q = length q.messages.items

pub queue_data_size : Queue → ℤ
queue_data_size q = q.data_size

-- What the threads that share a queue do to it, one at a time under its mutex: a thread posts a
-- message, gets the next, or releases them all. The size of a message when it is got can differ from the one when posted.
pub data Event : Type 0 where
  post : (m : Option ℕ) → Event
  get : Event
  release_all : Event

-- The results of the gets, in turn, and the queue afterwards.
pub run : (size : ℕ → ℕ) → List Event → Queue → Result (List (Option ℕ) × Queue)
run size [] q = ok ([], q)
run size (post m ∷ events) q = run size events (post_message size m q)
run size (get ∷ events) q = get_next_message size q >>= λ (m, rest).
    run size events rest >>= λ (ms, after). ok (m ∷ ms, after)
run size (release_all ∷ events) q = release_all_messages size q >>= λ rest. run size events rest

-- blockUntilNextMessage: where there is no message, the events of other threads go on until it is
-- woken or its five seconds are over; then it asks once more.
pub block_until_next_message : (size : ℕ → ℕ) → List Event → Queue → Result (Option ℕ × Queue)
block_until_next_message size others q = get_next_message size q >>= λ (m, rest). elim m [
  | some k ↦ ok (some k, rest)
  | none ↦ run size others rest >>= λ (ms, after). get_next_message size after
]
