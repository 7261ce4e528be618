-- ===== src/Streams/Raw.antt =====
-- What the upper stream layer (source/streams/viostream.cpp) uses of a raw VStream: read and write,
-- readGuaranteed built on read, and the contract that a stream of bytes keeps.
use code_vault.Base.{
  bind-eq-ok, ℕ, ◌+◌, ◌≤◌, ◌≡◌, List, [], ◌∷◌, ◌++◌, Result, ok, err, eof, fault, guard, ◌>>=◌,
  ◌>>◌, length, take, drop, ◌==◌, arith, length-take, ◌∙◌, ap, take-append, drop-append,
}

-- `S` is the state of the stream. `get n` is read of `n` bytes, with those that it got.
pub record RawStream (S : Type 0) : Type 0 where
  pub get : ℕ → S → Result (List ℕ × S)
  pub put : List ℕ → S → Result S

-- Reading: `unread` are the bytes that the reads to come get, and each takes off what it returns.
pub record IsSource {S : Type 0} (raw : RawStream S) : Type 1 where
  pub Ready : S → Type 0
  pub unread : S → List ℕ
  pub get_lem :
      (n : ℕ) (s : S)
      → Ready s
      → (s' : S) × (raw.get n s ≡ ok (take n (unread s), s'))
        × Ready s'
        × (unread s' ≡ drop n (unread s))

-- Writing: a write that returns appends its bytes to those written before.
pub record IsSink {S : Type 0} (raw : RawStream S) : Type 1 where
  pub Ready : S → Type 0
  pub written : S → List ℕ
  pub put_lem :
      (ys : List ℕ) (s s' : S)
      → Ready s
      → raw.put ys s ≡ ok s'
      → Ready s' × (written s' ≡ written s ++ ys)

module _ {S : Type 0} (raw : RawStream S) where
  -- readGuaranteed.
  unfoldable pub read_guaranteed : ℕ → S → Result (List ℕ × S)
  read_guaranteed n s = do (bytes, s') ← raw.get n s; guard (length bytes == n) eof; ok (bytes, s')

  byte_of : List ℕ × S → Result (ℕ × S)
  byte_of ([], s) = err fault
  byte_of (b ∷ rest, s) = ok (b, s)

  -- readGuaranteedByte.
  unfoldable pub read_guaranteed_byte : S → Result (ℕ × S)
  unfolding byte_of
  read_guaranteed_byte s = read_guaranteed 1 s >>= byte_of

module _ {S : Type 0} (raw : RawStream S) where
  byte_of-eq-ok : (p : List ℕ × S) (b : ℕ) (s : S) → byte_of raw p ≡ ok (b, s) → p.1 ≡ s
  unfolding byte_of
  byte_of-eq-ok ([], t) b s e = absurd (cc)
  byte_of-eq-ok (c ∷ ys, t) b s e = ap (λ r. elim r [ ok (d, u) ↦ u | err f ↦ t ]) e

  -- A byte is read by readGuaranteed.
  pub read_guaranteed_byte-eq-ok :
      (s s' : S) (b : ℕ)
      → read_guaranteed_byte raw s ≡ ok (b, s')
      → (ys : List ℕ) × (read_guaranteed raw 1 s ≡ ok (ys, s'))
  unfolding read_guaranteed_byte
  read_guaranteed_byte-eq-ok s s' b e =
      let ((ys, t), e1, e2) = bind-eq-ok (read_guaranteed raw 1 s) (byte_of raw) (b, s') e in
      (ys, e1 ∙ ap (λ u. ok (ys, u)) (byte_of-eq-ok (ys, t) b s' e2))

module _ {S : Type 0} (raw : RawStream S) (source : IsSource raw) where
  open source use {Ready, unread, get_lem}

  -- Where the bytes are there, readGuaranteed returns them and leaves the rest to be read.
  pub read_guaranteed_prefix :
      (bytes rest : List ℕ) (s : S) (n : ℕ)
      → Ready s
      → unread s ≡ bytes ++ rest
      → n ≡ length bytes
      → (s' : S) × (read_guaranteed raw n s ≡ ok (bytes, s')) × Ready s' × (unread s' ≡ rest)
  unfolding read_guaranteed
  read_guaranteed_prefix bytes rest s n ready e k =
      let (s', gets, ready', left) = get_lem n s ready in
      let found : take n (unread s) ≡ bytes = ap (take n) e ∙ take-append bytes rest n k in
      (
        s',
        rw (gets, found) (ground arith),
        ready',
        left ∙ ap (drop n) e ∙ drop-append bytes rest n k,
      )

  -- Where there are too few, it throws the EOF exception.
  read_guaranteed_short :
      (s : S) (n : ℕ) → Ready s → length (unread s) + 1 ≤ n → read_guaranteed raw n s ≡ err eof
  unfolding read_guaranteed
  read_guaranteed_short s n ready short =
      let (s', gets, _, _) = get_lem n s ready in rw gets (ground (arith, length-take n (unread s)))
