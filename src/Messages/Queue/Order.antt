-- ===== src/Messages/Queue/Order.antt =====
-- The queue of source/server/vmessagequeue.cpp is first in, first out for any interleaving of its
-- threads, and counts the data that it holds.
use code_vault.Base.{
  ℕ, ◌+◌, ◌≡◌, refl, sym, ap, ◌∙◌, List, [], ◌∷◌, ◌++◌, Option, none, some, ℤ, pos, ◌+ℤ◌, ◌-ℤ◌, ok,
  ◌>>=◌, length, drop, arith, append_assoc, append-nil,
}
use code_vault.Messages.Deque.{push_back, popped, pop_front_lem}
use code_vault.Messages.Queue.{
  Queue, data_of, post_message, take_front, get_next_message, release, release_all_messages, Event,
  post, get, release_all, run,
}

-- The messages among references, of which the null pointer is none.
abbrev pub present : List (Option ℕ) → List ℕ
present [] = []
present (none ∷ ms) = present ms
present (some m ∷ ms) = m ∷ present ms

abbrev pub posted : List Event → List (Option ℕ)
posted [] = []
posted (post m ∷ events) = m ∷ posted events
posted (get ∷ events) = posted events
posted (release_all ∷ events) = posted events

-- The first message, or the null pointer where there is none.
abbrev pub front : List (Option ℕ) → Option ℕ
front [] = none
front (m ∷ ms) = m

-- A line of messages: a post puts one at its end, a get takes off the first, a release all of them. What is in
-- it after events,
abbrev pub line_after : List Event → List (Option ℕ) → List (Option ℕ)
line_after [] ms = ms
line_after (post m ∷ events) ms = line_after events (ms ++ m ∷ [])
line_after (get ∷ events) ms = line_after events (drop 1 ms)
line_after (release_all ∷ events) ms = line_after events []

-- what the gets return, in turn,
abbrev pub got : List Event → List (Option ℕ) → List (Option ℕ)
got [] ms = []
got (post m ∷ events) ms = got events (ms ++ m ∷ [])
got (get ∷ events) ms = front ms ∷ got events (drop 1 ms)
got (release_all ∷ events) ms = got events []

-- and all that leaves it, got or released, in turn.
abbrev pub gone : List Event → List (Option ℕ) → List (Option ℕ)
gone [] ms = []
gone (post m ∷ events) ms = gone events (ms ++ m ∷ [])
gone (get ∷ events) ms = front ms ∷ gone events (drop 1 ms)
gone (release_all ∷ events) ms = ms ++ gone events []

-- The data of the messages of the queue, each of a fixed size.
abbrev pub total : (ℕ → ℕ) → List ℕ → ℕ
total size [] = 0
total size (m ∷ ms) = size m + total size ms

present-append : (xs ys : List (Option ℕ)) → present (xs ++ ys) ≡ present xs ++ present ys
present-append [] ys = refl
present-append (none ∷ xs) ys = present-append xs ys
present-append (some m ∷ xs) ys = ap (λ t. m ∷ t) (present-append xs ys)

total-append :
    (size : ℕ → ℕ) (xs ys : List ℕ) → total size (xs ++ ys) ≡ total size xs + total size ys
total-append size [] ys = omega arith
total-append size (m ∷ xs) ys = omega (arith, total-append size xs ys)

-- The queue counts the data of its messages.
abbrev pub Counts : (ℕ → ℕ) → Queue → Type 0
Counts size q = q.data_size ≡ pos (total size (present q.messages.items))

-- What events do to a queue that counts its data.
pub record IsRun (size : ℕ → ℕ) (events : List Event) (q : Queue) : Type 0 where
  pub after : Queue
  pub runs : run size events q ≡ ok (got events q.messages.items, after)
  pub left : after.messages.items ≡ line_after events q.messages.items
  pub in_order :
      present (gone events q.messages.items) ++ present after.messages.items
      ≡ present q.messages.items ++ present (posted events)
  pub counts : Counts size after

present-front : (ms : List (Option ℕ)) → present (front ms ∷ drop 1 ms) ≡ present ms
present-front [] = refl
present-front (m ∷ ms) = refl

-- No message passes another, and each leaves once.
gone-line_after :
    (events : List Event) (ms : List (Option ℕ))
    → present (gone events ms) ++ present (line_after events ms)
      ≡ present ms ++ present (posted events)
gone-line_after [] ms = sym (append-nil (present ms))
gone-line_after (post m ∷ events) ms =
    gone-line_after events (ms ++ m ∷ [])
    ∙ ap (λ t. t ++ present (posted events)) (present-append ms (m ∷ []))
    ∙ append_assoc (present ms) (present (m ∷ [])) (present (posted events))
    ∙ ap (λ t. present ms ++ t) (sym (present-append (m ∷ []) (posted events)))
gone-line_after (get ∷ events) ms =
    let gone' = gone events (drop 1 ms) in
    let after = present (line_after events (drop 1 ms)) in
    ap (λ t. t ++ after) (present-append (front ms ∷ []) gone')
    ∙ append_assoc (present (front ms ∷ [])) (present gone') after
    ∙ ap (λ t. present (front ms ∷ []) ++ t) (gone-line_after events (drop 1 ms))
    ∙ sym (append_assoc (present (front ms ∷ [])) (present (drop 1 ms)) (present (posted events)))
    ∙ ap (λ t. t ++ present (posted events))
        (sym (present-append (front ms ∷ []) (drop 1 ms)) ∙ present-front ms)
gone-line_after (release_all ∷ events) ms =
    ap (λ t. t ++ present (line_after events [])) (present-append ms (gone events []))
    ∙ append_assoc (present ms) (present (gone events [])) (present (line_after events []))
    ∙ ap (λ t. present ms ++ t) (gone-line_after events [])

add_back : (a b c : ℕ) → c ≡ a + b → pos c -ℤ pos a ≡ pos b
add_back a b c e = ground arith

-- The first message off.
taken :
    (size : ℕ → ℕ) (ms : List (Option ℕ)) (q : Queue)
    → q.messages.items ≡ ms
    → Counts size q
    → (rest : Queue) × (take_front size ms q ≡ ok (front ms, rest))
      × Counts size rest
      × (rest.messages.items ≡ drop 1 ms)
unfolding take_front data_of
taken size [] q e c = (q, refl, c, e)
taken size (none ∷ ms) q e c = (
  record { messages = popped q.messages ms; data_size = q.data_size -ℤ pos 0 },
  simp (pop_front_lem q.messages none ms e),
  ap (λ (z : ℤ). z -ℤ pos 0) (c ∙ ap (λ t. pos (total size (present t))) e)
      ∙ add_back 0 (total size (present ms)) (total size (present ms)) (omega arith),
  refl,
)
taken size (some m ∷ ms) q e c = (
  record { messages = popped q.messages ms; data_size = q.data_size -ℤ pos (size m) },
  simp (pop_front_lem q.messages (some m) ms e),
  ap (λ (z : ℤ). z -ℤ pos (size m)) (c ∙ ap (λ t. pos (total size (present t))) e)
      ∙ add_back (size m) (total size (present ms)) (size m + total size (present ms)) refl,
  refl,
)

total_of : (size : ℕ → ℕ) (m : Option ℕ) → total size (present (m ∷ [])) ≡ data_of size m
unfolding data_of
total_of size none = refl
total_of size (some m) = omega arith

counted :
    (size : ℕ → ℕ) (m : Option ℕ) (q : Queue) → Counts size q → Counts size (post_message size m q)
unfolding post_message push_back
counted size m q c =
    ap (λ (z : ℤ). z +ℤ pos (data_of size m)) c
    ∙ more (total size (present q.messages.items)) (data_of size m)
    ∙ ap pos (
        sym (
          ap (total size) (present-append q.messages.items (m ∷ []))
          ∙ total-append size (present q.messages.items) (present (m ∷ []))
          ∙ ap (λ (k : ℕ). total size (present q.messages.items) + k) (total_of size m)))
  where
    more : (a b : ℕ) → pos a +ℤ pos b ≡ pos (a + b)
    more a b = ground arith

grown :
    (size : ℕ → ℕ) (m : Option ℕ) (ms : List (Option ℕ)) (q : Queue)
    → q.messages.items ≡ ms
    → (post_message size m q).messages.items ≡ ms ++ m ∷ []
unfolding post_message push_back
grown size m ms q e = ap (λ t. t ++ m ∷ []) e

next_takes :
    (size : ℕ → ℕ) (ms : List (Option ℕ)) (q : Queue) (rest : Queue)
    → q.messages.items ≡ ms
    → take_front size ms q ≡ ok (front ms, rest)
    → get_next_message size q ≡ ok (front ms, rest)
unfolding get_next_message
next_takes size ms q rest e takes = ap (λ t. take_front size t q) e ∙ takes

released :
    (size : ℕ → ℕ) (ms : List (Option ℕ)) (q : Queue)
    → q.messages.items ≡ ms
    → Counts size q
    → (q' : Queue) × (release size (length ms) q ≡ ok q')
      × (q'.messages.items ≡ [])
      × (q'.data_size ≡ pos 0)
unfolding release
released size [] q e c = (q, refl, e, c ∙ ap (λ t. pos (total size (present t))) e)
released size (m ∷ ms) q e c =
    let (rest, takes, c', left) = taken size (m ∷ ms) q e c in
    let (q', runs, empty, zero_size) = released size ms rest left c' in
    (
      q',
      ap (λ t. take_front size t q >>= λ (k, r). release size (length ms) r) e ∙ simp (takes, runs),
      empty,
      zero_size,
    )

-- releaseAllMessages empties the queue, and where it counts its data their size is then 0.
release_all_messages_lem :
    (size : ℕ → ℕ) (q : Queue)
    → Counts size q
    → (q' : Queue) × (release_all_messages size q ≡ ok q')
      × (q'.messages.items ≡ [])
      × (q'.data_size ≡ pos 0)
unfolding release_all_messages
release_all_messages_lem size q c = released size q.messages.items q refl c

-- A run from a queue that holds `ms`.
ran :
    (size : ℕ → ℕ) (events : List Event) (ms : List (Option ℕ)) (q : Queue)
    → q.messages.items ≡ ms
    → Counts size q
    → (after : Queue) × (run size events q ≡ ok (got events ms, after))
      × (after.messages.items ≡ line_after events ms)
      × Counts size after
unfolding run
ran size [] ms q e c = (q, refl, e, c)
ran size (post m ∷ events) ms q e c =
    ran size events (ms ++ m ∷ []) (post_message size m q) (grown size m ms q e)
      (counted size m q c)
ran size (get ∷ events) ms q e c =
    let (rest, takes, c', less) = taken size ms q e c in
    let (after, runs, left, c'') = ran size events (drop 1 ms) rest less c' in
    (after, simp (next_takes size ms q rest e takes, runs), left, c'')
ran size (release_all ∷ events) ms q e c =
    let (rest, releases, empty, zero_size) = release_all_messages_lem size q c in
    let (after, runs, left, c') =
      ran size events [] rest empty
        (zero_size ∙ ap (λ t. pos (total size (present t))) (sym empty)) in
    (after, simp (releases, runs), left, c')

-- Whatever the threads that share a queue do by postMessage, getNextMessage and releaseAllMessages, one at a
-- time under its mutex and in whatever order, the queue is a line: each get returns the message that is then the
-- first, or the null pointer where there is none, and a release takes them all off. The messages that leave it,
-- got or released, and behind them those still in it, are those that were in it before and behind them those
-- posted, in turn. Where messages keep their sizes, the data size stays the sum of those of the messages in the
-- queue. No operation fails.
pub run_lem : (size : ℕ → ℕ) (events : List Event) (q : Queue) → Counts size q → IsRun size events q
run_lem size events q c =
    let ms = q.messages.items in
    let (after, runs, left, c') = ran size events ms q refl c in
    record {
      after = after;
      runs = runs;
      left = left;
      in_order = ap (λ t. present (gone events ms) ++ present t) left ∙ gone-line_after events ms;
      counts = c';
    }
