-- ===== src/Streams/Binary/Shrink.antt =====
-- No read function of source/streams/vbinaryiostream.cpp gives back what was read: each leaves no more than
-- there was, and one that reads a byte leaves less.
use code_vault.Base.{
  ℕ, zero, suc, ◌+◌, ◌%◌, ◌^◌, ◌≤◌, ◌≡◌, sym, ap, ◌∙◌, Bool, true, false, List, [], Result, ok, err,
  ◌>>=◌, ◌==◌, length, take, ℤ, pos, negsuc, arith, subst, bind-eq-ok, length-drop, length-take,
  guard, if◌then◌else◌, eof, fault, stack_trace, Failure, ltb, ◌>>◌, not, ==_iff, Bool-cases, inl,
  inr,
}
use code_vault.Streams.{max_s32}
use code_vault.Streams.Raw.{
  RawStream, IsSource, read_guaranteed, read_guaranteed_byte, read_guaranteed_byte-eq-ok,
}
use code_vault.Streams.Order.{signed_of, pattern_of, swap_if_needed, of_memory}
use code_vault.Streams.Binary.{
  read_unsigned, read_signed, read_bool, read_dynamic_count, read_string, string_of_count,
  preflight, three_byte_indicator, five_byte_indicator, nine_byte_indicator,
}

module _ {S : Type 0} (raw : RawStream S) (source : IsSource raw) where
  open source use {Ready, unread}

  -- A read that returns has taken `k` bytes at least.
  abbrev pub Shrinks : {A : Type 0} → ℕ → (S → Result (A × S)) → Type 0
  Shrinks {A} k read =
      (s s' : S) (a : A)
      → Ready s
      → read s ≡ ok (a, s')
      → Ready s' × (length (unread s') + k ≤ length (unread s))

  pub Shrinks-ok : {A : Type 0} (a : A) → Shrinks 0 (λ s. ok (a, s))
  Shrinks-ok a s s' b ready e =
      let same : s ≡ s' = ap (λ r. elim r [ ok (c, t) ↦ t | err f ↦ s ]) e in
      (subst Ready same ready, omega (arith, ap (λ t. length (unread t)) same))

  pub Shrinks-bind :
      {A B : Type 0} (j k : ℕ) (read : S → Result (A × S)) (next : A → S → Result (B × S))
      → Shrinks j read
      → ((a : A) → Shrinks k (next a))
      → Shrinks (j + k) (λ s. read s >>= λ (a, t). next a t)
  Shrinks-bind j k read next first second s s' b ready e =
      let ((a, t), e1, e2) = bind-eq-ok (read s) (λ (a, t). next a t) (b, s') e in
      let (ready', less) = first s t a ready e1 in
      let (ready'', less') = second a t s' b ready' e2 in (ready'', omega arith)

  pub Shrinks-weaken :
      {A : Type 0} (j k : ℕ) (read : S → Result (A × S)) → k ≤ j → Shrinks j read → Shrinks k read
  Shrinks-weaken j k read h shrinks s s' a ready e =
      let (ready', less) = shrinks s s' a ready e in (ready', omega arith)

  pub Shrinks-if :
      {A : Type 0} (k : ℕ) (b : Bool) (f g : S → Result (A × S))
      → Shrinks k f
      → Shrinks k g
      → Shrinks k (λ s. if b then f s else g s)
  Shrinks-if k true f g sf sg = sf
  Shrinks-if k false f g sf sg = sg

  pub Shrinks-err : {A : Type 0} (k : ℕ) (f : Failure) → Shrinks {A = A} k (λ s. err f)
  Shrinks-err k f s s' a ready e = absurd (cc)

  -- A check before the read.
  pub Shrinks-check :
      {A : Type 0} (k : ℕ) (check : Result (Unit {0})) (read : S → Result (A × S))
      → Shrinks k read
      → Shrinks k (λ s. check >> read s)
  Shrinks-check k (ok u) read shrinks = shrinks
  Shrinks-check k (err f) read shrinks = Shrinks-err k f

  pub get-Shrinks : (n : ℕ) → Shrinks 0 (raw.get n)
  get-Shrinks n s s' ys ready e =
      let (t, gets, ready', left) = source.get_lem n s ready in
      let same : t ≡ s' = ap (λ r. elim r [ ok (c, u) ↦ u | err f ↦ t ]) (sym gets ∙ e) in
      (
        subst Ready same ready',
        omega (arith, ap (λ u. length (unread u)) same, ap length left, length-drop n (unread s)),
      )

  read_guaranteed-Shrinks : (n : ℕ) → Shrinks n (read_guaranteed raw n)
  unfolding read_guaranteed
  read_guaranteed-Shrinks n s s' ys ready e =
      let (t, gets, ready', left) = source.get_lem n s ready in
      elim (Bool-cases (length (take n (unread s)) == n)) [
        | inl whole ↦
            let out : ◌≡◌ {A = Result (List ℕ × S)} (ok (take n (unread s), t)) (ok (ys, s')) =
              rw (gets, whole) at e in
            let same : t ≡ s' =
              ap (λ (r : Result (List ℕ × S)). elim r [ ok (c, u) ↦ u | err f ↦ t ]) out in
            let all : length (take n (unread s)) ≡ n =
              (==_iff (length (take n (unread s))) n).0 whole in
            (
              subst Ready same ready',
              omega (
                arith,
                ap (λ u. length (unread u)) same,
                ap length left,
                length-drop n (unread s),
                length-take n (unread s),
              ),
            )
        | inr short ↦
            let out : ◌≡◌ {A = Result (List ℕ × S)} (err eof) (ok (ys, s')) =
              rw (gets, short) at e in
            absurd (cc)
      ]

  module _ (little : Bool) where
    pub read_unsigned-Shrinks : (w : ℕ) → Shrinks w (read_unsigned raw little w)
    unfolding read_unsigned
    read_unsigned-Shrinks w s s' n ready e =
        let shrinks =
          Shrinks-bind w 0 (read_guaranteed raw w)
            (λ ys t. ok (swap_if_needed little w (of_memory little ys), t))
            (read_guaranteed-Shrinks w)
            (λ ys. Shrinks-ok (swap_if_needed little w (of_memory little ys))) s s' n ready e in
        (shrinks.0, omega (arith, shrinks.1))

    -- A read and a function of its result.
    pub map-Shrinks :
        {A B : Type 0} (k : ℕ) (read : S → Result (A × S)) (f : A → B)
        → Shrinks k read
        → Shrinks k (λ s. read s >>= λ (a, t). ok (f a, t))
    map-Shrinks k read f shrinks s s' b ready e =
        let (ready', less) =
          Shrinks-bind k 0 read (λ a t. ok (f a, t)) shrinks (λ a. Shrinks-ok (f a)) s s' b ready
            e in
        (ready', omega arith)

    pub read_signed-Shrinks : (w : ℕ) → Shrinks w (read_signed raw little w)
    unfolding read_signed
    read_signed-Shrinks w =
        map-Shrinks w (read_unsigned raw little w) (signed_of w) (read_unsigned-Shrinks w)

    pub read_bool-Shrinks : Shrinks 1 (read_bool raw little)
    unfolding read_bool
    read_bool-Shrinks =
        map-Shrinks 1 (read_unsigned raw little 1) (λ n. not (n == 0)) (read_unsigned-Shrinks 1)

    count_of_width :
        (w : ℕ) (f : ℕ → ℤ)
        → Shrinks 0 (λ s. read_unsigned raw little w s >>= λ (n, t). ok (f n, t))
    count_of_width w f =
        Shrinks-weaken w 0 (λ s. read_unsigned raw little w s >>= λ (n, t). ok (f n, t))
          (omega arith) (map-Shrinks w (read_unsigned raw little w) f (read_unsigned-Shrinks w))

    -- The count behind the kind byte.
    count_behind :
        (kind : ℕ)
        → Shrinks 0 (λ s'.
          if kind == three_byte_indicator
          then (read_unsigned raw little 2 s' >>= λ (n, t). ok (pos n, t))
          else (if kind == five_byte_indicator
              then (read_unsigned raw little 4 s' >>= λ (n, t). ok (pos n, t))
              else (if kind == nine_byte_indicator
                  then (read_unsigned raw little 8 s' >>= λ (n, t). ok (signed_of 8 n, t))
                  else ok (pos kind, s'))))
    count_behind kind =
        Shrinks-if 0 (kind == three_byte_indicator)
          (λ s'. read_unsigned raw little 2 s' >>= λ (n, t). ok (pos n, t)) _ (count_of_width 2 pos)
          (Shrinks-if 0 (kind == five_byte_indicator)
            (λ s'. read_unsigned raw little 4 s' >>= λ (n, t). ok (pos n, t)) _
            (count_of_width 4 pos)
            (Shrinks-if 0 (kind == nine_byte_indicator)
              (λ s'. read_unsigned raw little 8 s' >>= λ (n, t). ok (signed_of 8 n, t))
              (λ s'. ok (pos kind, s')) (count_of_width 8 (signed_of 8)) (Shrinks-ok (pos kind))))

    pub read_dynamic_count-Shrinks : Shrinks 1 (read_dynamic_count raw little)
    unfolding read_dynamic_count
    read_dynamic_count-Shrinks s s' z ready e =
        let (ready', less) =
          Shrinks-bind 1 0 (read_unsigned raw little 1) _ (read_unsigned-Shrinks 1) count_behind s
            s' z ready e in
        (ready', omega arith)

    string_of_count-Shrinks : (z : ℤ) → Shrinks 0 (string_of_count raw little z)
    unfolding string_of_count
    string_of_count-Shrinks (pos zero) = Shrinks-ok []
    string_of_count-Shrinks (pos (suc n)) =
        Shrinks-check 0 (guard (not (ltb max_s32 (suc n))) stack_trace) _ (
          Shrinks-check 0 (preflight raw little (pos (suc n))) (read_guaranteed raw (suc n)) (
            Shrinks-weaken (suc n) 0 (read_guaranteed raw (suc n)) (omega arith)
              (read_guaranteed-Shrinks (suc n))))
    string_of_count-Shrinks (negsuc n) =
        Shrinks-check 0 (preflight raw little (signed_of 4 (pattern_of 8 (negsuc n) % 256 ^ 4)))
          (λ s. err fault) (Shrinks-err 0 fault)

    pub read_string-Shrinks : Shrinks 1 (read_string raw little)
    unfolding read_string
    read_string-Shrinks s s' str ready e =
        let (ready', less) =
          Shrinks-bind 1 0 (read_dynamic_count raw little) (string_of_count raw little)
            read_dynamic_count-Shrinks string_of_count-Shrinks s s' str ready e in
        (ready', omega arith)

  pub read_guaranteed_byte-Shrinks : Shrinks 0 (read_guaranteed_byte raw)
  read_guaranteed_byte-Shrinks s s' b ready e =
      let (ys, gets) = read_guaranteed_byte-eq-ok raw s s' b e in
      let (ready', less) = read_guaranteed-Shrinks 1 s s' ys ready gets in (ready', omega arith)
