-- ===== src/Streams/Transfer/Loop.antt =====
-- The loop of VStream::streamCopy in source/streams/vstream.cpp moves the bytes that are there.
use code_vault.Base.{
  ℕ, zero, suc, ◌+◌, ◌-◌, ◌≤◌, ◌<◌, ◌≡◌, refl, sym, ap, ◌∙◌, min, false, List, [], ◌∷◌, ◌++◌,
  Result, ok, length, take, drop, ◌==◌, arith, append_assoc, append-nil, subst, ap₂, length-append,
  lt→ltb,
}
use code_vault.Heap.{Heap}
use code_vault.Streams.{Platform, new_new_buffer}
use code_vault.Streams.Raw.{RawStream, IsSource, IsSink}
use code_vault.Streams.Transfer.{copy_rounds, copy_streams}

-- What a first part of a list leaves of a longer one.
take-after :
    (m n : ℕ) (u : List ℕ) → m ≤ n → take n u ≡ take m u ++ take (n - length (take m u)) (drop m u)
take-after zero n u h = ap (λ k. take k u) (omega arith)
take-after (suc m) n [] h = ap (λ k. take {A = ℕ} k []) {y = n - 0} (omega arith)
take-after (suc m) zero (x ∷ u) h = absurd (omega (arith, h))
take-after (suc m) (suc n) (x ∷ u) h =
    ap (λ t. x ∷ t)
      (take-after m n u (omega (arith, h)) ∙ ap (λ k. take m u ++ take k (drop m u)) (omega arith))

drop-after : (m n : ℕ) (u : List ℕ) → m ≤ n → drop n u ≡ drop (n - length (take m u)) (drop m u)
drop-after zero n u h = ap (λ k. drop k u) (omega arith)
drop-after (suc m) n [] h = ap (λ k. drop {A = ℕ} k []) {y = n - 0} (omega arith)
drop-after (suc m) zero (x ∷ u) h = absurd (omega (arith, h))
drop-after (suc m) (suc n) (x ∷ u) h =
    drop-after m n u (omega (arith, h)) ∙ ap (λ k. drop k (drop m u)) (omega arith)

nil_of_length : (m : ℕ) (u : List ℕ) → 0 < m → length (take m u) ≡ 0 → u ≡ []
nil_of_length m [] h e = refl
nil_of_length zero (x ∷ u) h e = absurd (omega (arith, h))
nil_of_length (suc m) (x ∷ u) h e = absurd (omega (arith, e))

take-nil : (n : ℕ) → take {A = ℕ} n [] ≡ []
take-nil zero = refl
take-nil (suc n) = refl

drop-nil : (n : ℕ) → drop {A = ℕ} n [] ≡ []
drop-nil zero = refl
drop-nil (suc n) = refl

module _ {S T : Type 0} (raw_source : RawStream S) (raw_sink : RawStream T) (temp fuel n copied : ℕ)
    (s : S) (t : T) (some_left : 0 < n) where
  round_ends :
      (s' : S)
      → raw_source.get (min n temp) s ≡ ok ([], s')
      → copy_rounds raw_source raw_sink temp (suc fuel) n copied s t ≡ ok (copied, s', t)
  unfolding copy_rounds
  round_ends s' gets = simp (lt→ltb 0 n some_left, gets)

  round_goes :
      (b : ℕ) (bytes : List ℕ) (s' : S) (t' : T)
      → raw_source.get (min n temp) s ≡ ok (b ∷ bytes, s')
      → raw_sink.put (b ∷ bytes) t ≡ ok t'
      → copy_rounds raw_source raw_sink temp (suc fuel) n copied s t
        ≡ copy_rounds raw_source raw_sink temp fuel
            (n - length (b ∷ bytes))
            (copied + length (b ∷ bytes))
            s'
            t'
  unfolding copy_rounds
  round_goes b bytes s' t' gets puts =
      let filled : (length (b ∷ bytes) == 0) ≡ false = ground arith in
      simp (lt→ltb 0 n some_left, gets, filled, puts)

module _ {S T : Type 0} (raw_source : RawStream S) (source : IsSource raw_source)
    (raw_sink : RawStream T) (sink : IsSink raw_sink)
    (accepts : (ys : List ℕ) (t : T) → sink.Ready t → (t' : T) × (raw_sink.put ys t ≡ ok t')) where
  -- After `count` bytes have been moved.
  pub record IsMoved (n copied : ℕ) (s : S) (t : T) (r : Result (ℕ × S × T)) : Type 0 where
    pub source_after : S
    pub sink_after : T
    pub returns : r ≡ ok (copied + length (take n (source.unread s)), source_after, sink_after)
    pub left : source.unread source_after ≡ drop n (source.unread s)
    pub moved : sink.written sink_after ≡ sink.written t ++ take n (source.unread s)
    pub still_source : source.Ready source_after
    pub still_sink : sink.Ready sink_after

  stopped :
      (n copied : ℕ) (s s' : S) (t : T)
      → source.Ready s'
      → sink.Ready t
      → take n (source.unread s) ≡ []
      → source.unread s' ≡ drop n (source.unread s)
      → IsMoved n copied s t (ok (copied, s', t))
  stopped n copied s s' t rs rt empty left = record {
    source_after = s';
    sink_after = t;
    returns = ap (λ k. ok (k, s', t)) (omega (arith, ap length empty));
    left = left;
    moved = sym (append-nil (sink.written t)) ∙ ap (λ ys. sink.written t ++ ys) (sym empty);
    still_source = rs;
    still_sink = rt;
  }

  nothing_left :
      (temp fuel copied : ℕ) (s : S) (t : T)
      → source.Ready s
      → sink.Ready t
      → IsMoved 0 copied s t (copy_rounds raw_source raw_sink temp fuel 0 copied s t)
  unfolding copy_rounds
  nothing_left temp zero copied s t rs rt = stopped 0 copied s s t rs rt refl refl
  nothing_left temp (suc fuel) copied s t rs rt = stopped 0 copied s s t rs rt refl refl

  abbrev Again : (temp fuel : ℕ) → Type 0
  Again temp fuel =
      (n copied : ℕ) (s : S) (t : T)
      → n ≤ fuel
      → source.Ready s
      → sink.Ready t
      → IsMoved n copied s t (copy_rounds raw_source raw_sink temp fuel n copied s t)

  next_round :
      (temp fuel n copied : ℕ) (s : S) (t : T) (s' : S) (bytes : List ℕ)
      → 0 < temp
      → 0 < n
      → n ≤ suc fuel
      → source.Ready s'
      → sink.Ready t
      → raw_source.get (min n temp) s ≡ ok (bytes, s')
      → take (min n temp) (source.unread s) ≡ bytes
      → source.unread s' ≡ drop (min n temp) (source.unread s)
      → Again temp fuel
      → IsMoved n copied s t (copy_rounds raw_source raw_sink temp (suc fuel) n copied s t)
  next_round temp fuel n copied s t s' [] width some_left enough rs rt gets e left again =
      let none_there : source.unread s ≡ [] =
        nil_of_length (min n temp) (source.unread s) (omega arith) (ap length e) in
      subst (IsMoved n copied s t)
        (sym (round_ends raw_source raw_sink temp fuel n copied s t some_left s' gets))
        (stopped n copied s s' t rs rt (ap (take n) none_there ∙ take-nil n) (
          left
          ∙ ap (drop (min n temp)) none_there
          ∙ drop-nil (min n temp)
          ∙ sym (ap (drop n) none_there ∙ drop-nil n)))
  next_round temp fuel n copied s t s' (b ∷ bytes) width some_left enough rs rt gets e left again =
      let (t', puts) = accepts (b ∷ bytes) t rt in
      let (rt', grown) = sink.put_lem (b ∷ bytes) t t' rt puts in
      let m =
        again (n - length (b ∷ bytes)) (copied + length (b ∷ bytes)) s' t' (omega (arith, enough))
          rs rt' in
      let whole : take n (source.unread s)
          ≡ (b ∷ bytes) ++ take (n - length (b ∷ bytes)) (source.unread s') =
        take-after (min n temp) n (source.unread s) (omega arith)
        ∙ ap₂ (λ ys zs. ys ++ take (n - length ys) zs) e (sym left) in
      subst (IsMoved n copied s t)
        (sym
          (round_goes raw_source raw_sink temp fuel n copied s t some_left b bytes s' t' gets puts))
        (record {
          source_after = m.source_after;
          sink_after = m.sink_after;
          returns =
              m.returns
              ∙ ap (λ (k : ℕ). ok (k, m.source_after, m.sink_after))
                  (omega (
                    arith,
                    ap length whole,
                    length-append (b ∷ bytes) (take (n - length (b ∷ bytes)) (source.unread s')),
                  ));
          left =
              m.left
              ∙ ap₂ (λ (k : ℕ) zs. drop k zs) (ap (λ ys. n - length ys) (sym e)) left
              ∙ sym (drop-after (min n temp) n (source.unread s) (omega arith));
          moved =
              m.moved
              ∙ ap (λ t. t ++ take (n - length (b ∷ bytes)) (source.unread s')) grown
              ∙ append_assoc (sink.written t) (b ∷ bytes)
                  (take (n - length (b ∷ bytes)) (source.unread s'))
              ∙ ap (λ ys. sink.written t ++ ys) (sym whole);
          still_source = m.still_source;
          still_sink = m.still_sink;
        })

  rounds :
      (temp fuel n copied : ℕ) (s : S) (t : T)
      → 0 < temp
      → n ≤ fuel
      → source.Ready s
      → sink.Ready t
      → IsMoved n copied s t (copy_rounds raw_source raw_sink temp fuel n copied s t)
  unfolding copy_rounds
  rounds temp fuel zero copied s t width enough rs rt = nothing_left temp fuel copied s t rs rt
  rounds temp zero (suc n) copied s t width enough rs rt = absurd (omega (arith, enough))
  rounds temp (suc fuel) (suc n) copied s t width enough rs rt =
      let (s', gets, ready', left) = source.get_lem (min (suc n) temp) s rs in
      next_round temp fuel (suc n) copied s t s' (take (min (suc n) temp) (source.unread s)) width
        (omega arith) enough ready' rt gets refl left
        (λ k c s1 t1 h r1 r2. rounds temp fuel k c s1 t1 width h r1 r2)

  -- From a stream that gives its unread bytes in turn to one that takes every write, with a temporary
  -- buffer of some bytes that can be had, streamCopy of `n` bytes returns; it has appended to what was
  -- written the `n` bytes that come next, or all where there are fewer, and taken them from the source;
  -- the result is their count.
  pub copy_streams_lem :
      (p : Platform) (h h' : Heap) (n temp : ℕ) (s : S) (t : T)
      → 0 < temp
      → new_new_buffer p (min n temp) h ≡ ok h'
      → source.Ready s
      → sink.Ready t
      → IsMoved n 0 s t (copy_streams p raw_source raw_sink n temp h s t)
  unfolding copy_streams
  copy_streams_lem p h h' zero temp s t width memory rs rt =
      subst (IsMoved zero 0 s t) (sym (simp memory)) (nothing_left (min 0 temp) 0 0 s t rs rt)
  copy_streams_lem p h h' (suc n) temp s t width memory rs rt =
      subst (IsMoved (suc n) 0 s t) (sym (simp memory))
        (rounds (min (suc n) temp) (suc n) (suc n) 0 s t (omega arith) (omega arith) rs rt)
