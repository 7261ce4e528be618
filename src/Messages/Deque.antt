-- ===== src/Messages/Deque.antt =====
-- VCompactingDeque (source/containers/vcompactingdeque.h): a deque that gives its spare memory back
-- when it has been large and is drained.
use code_vault.Base.{
  ℕ, zero, suc, ◌<◌, ◌≡◌, ap, ◌∙◌, max, false, ◌&&◌, List, [], ◌∷◌, ◌++◌, Result, ok, err, fault,
  ◌>>=◌, length, take, leb, if◌then◌else◌, arith, Bool-cases, inl, inr, subst, sym,
}

-- Copying the elements to a fresh deque is not seen in `items`; `compactions` counts it.
pub record Deque {ℓ} (A : Type ℓ) : Type ℓ where
  pub items : List A
  pub high_water_mark : ℕ
  pub high_required : ℕ
  pub low_required : ℕ
  pub compactions : ℕ

module _ {ℓ} {A : Type ℓ} where
  -- The constructor.
  unfoldable pub new_deque : ℕ → ℕ → Deque A
  new_deque high low = record {
    items = [];
    high_water_mark = 0;
    high_required = high;
    low_required = low;
    compactions = 0;
  }

  unfoldable pub push_back : A → Deque A → Deque A
  push_back x d = record d { items = d.items ++ x ∷ [] }

  save_high_water_mark : Deque A → Deque A
  save_high_water_mark d = record d { high_water_mark = max d.high_water_mark (length d.items) }

  -- _compact, and compact.
  pub compact : Deque A → Deque A
  compact d = record d { high_water_mark = 0; compactions = suc d.compactions }

  compact_if_reached_threshold : Deque A → Deque A
  compact_if_reached_threshold d =
      if leb d.high_required d.high_water_mark && leb (length d.items) d.low_required
      then compact d
      else d

  -- std::deque's pop_front, which must not be called on an empty deque.
  drop_front : Deque A → List A → Result (Deque A)
  drop_front d [] = err fault
  drop_front d (x ∷ xs) = ok (record d { items = xs })

  -- pop_front.
  pub pop_front : Deque A → Result (Deque A)
  unfolding save_high_water_mark compact_if_reached_threshold drop_front
  pop_front d =
      let saved = save_high_water_mark d in
      drop_front saved saved.items >>= λ popped. ok (compact_if_reached_threshold popped)

  drop_back : Deque A → List A → Result (Deque A)
  drop_back d [] = err fault
  drop_back d (x ∷ xs) = ok (record d { items = take (length xs) (x ∷ xs) })

  -- pop_back.
  pub pop_back : Deque A → Result (Deque A)
  unfolding save_high_water_mark compact_if_reached_threshold drop_back
  pop_back d =
      let saved = save_high_water_mark d in
      drop_back saved saved.items >>= λ shorter. ok (compact_if_reached_threshold shorter)

  -- What pop_front leaves, when it takes the first element off and `xs` are the others.
  abbrev pub popped : Deque A → List A → Deque A
  popped d xs =
      let mark = max d.high_water_mark (length d.items) in
      let full = leb d.high_required mark && leb (length xs) d.low_required in
      record {
        items = xs;
        high_water_mark = if full then 0 else mark;
        high_required = d.high_required;
        low_required = d.low_required;
        compactions = if full then suc d.compactions else d.compactions;
      }

  abbrev deque_at : List A → ℕ → ℕ → ℕ → ℕ → Deque A
  deque_at xs mark high low k = record {
    items = xs;
    high_water_mark = mark;
    high_required = high;
    low_required = low;
    compactions = k;
  }

  pop_at :
      (x : A) (xs : List A) (mark high low k : ℕ)
      → pop_front (deque_at (x ∷ xs) mark high low k)
        ≡ ok (popped (deque_at (x ∷ xs) mark high low k) xs)
  unfolding pop_front compact
  pop_at x xs mark high low k =
      elim (Bool-cases (leb high (max mark (length (x ∷ xs))) && leb (length xs) low)) [
        | inl full ↦ simp full
        | inr half ↦ simp half
      ]

  pub pop_front_lem :
      (d : Deque A) (x : A) (xs : List A) → d.items ≡ x ∷ xs → pop_front d ≡ ok (popped d xs)
  pop_front_lem d x xs e =
      subst
        (λ items.
          pop_front (deque_at items d.high_water_mark d.high_required d.low_required d.compactions)
          ≡ ok (
              popped (deque_at items d.high_water_mark d.high_required d.low_required d.compactions)
                xs))
        (sym e) (pop_at x xs d.high_water_mark d.high_required d.low_required d.compactions)

  -- Popping so many times.
  abbrev pub pops : ℕ → Deque A → Result (Deque A)
  pops zero d = ok d
  pops (suc n) d = pop_front d >>= pops n

  not_yet :
      (x y : A) (xs : List A) (mark high k : ℕ)
      → popped (deque_at (x ∷ y ∷ xs) mark high 0 k) (y ∷ xs)
        ≡ deque_at (y ∷ xs) (max mark (length (x ∷ y ∷ xs))) high 0 k
  not_yet x y xs mark high k =
      let filled : leb (suc (length xs)) 0 ≡ false = ground arith in
      elim (Bool-cases (leb high (max mark (length (x ∷ y ∷ xs))))) [
        | inl full ↦ simp (full, filled)
        | inr half ↦ simp half
      ]

  drained_at :
      (x : A) (xs : List A) (mark high k : ℕ)
      → let peak = max mark (length (x ∷ xs)) in
        pops (length (x ∷ xs)) (deque_at (x ∷ xs) mark high 0 k)
        ≡ ok (if leb high peak then deque_at [] 0 high 0 (suc k) else deque_at [] peak high 0 k)
  drained_at x [] mark high k =
      ap (λ r. r >>= pops 0) (pop_at x [] mark high 0 k)
      ∙ elim (Bool-cases (leb high (max mark 1))) [ inl full ↦ simp full | inr half ↦ simp half ]
  drained_at x (y ∷ xs) mark high k =
      let peak = max mark (length (x ∷ y ∷ xs)) in
      ap (λ r. r >>= pops (length (y ∷ xs)))
        (pop_at x (y ∷ xs) mark high 0 k ∙ ap ok (not_yet x y xs mark high k))
      ∙ drained_at y xs peak high k
      ∙ ap
          (λ (m : ℕ).
            ok (if leb high m then deque_at [] 0 high 0 (suc k) else deque_at [] m high 0 k))
          (omega arith)

  -- A deque that compacts only when it is empty, drained by pop_front, compacts once if it had reached
  -- its high-water mark, now or at a pop since it last compacted, and starts again from 0; and else
  -- does not compact, and keeps the mark that it reached.
  pops_drain :
      (d : Deque A)
      → d.low_required ≡ 0
      → 0 < length d.items
      → let peak = max d.high_water_mark (length d.items) in
        pops (length d.items) d
        ≡ ok (
            if leb d.high_required peak
            then deque_at [] 0 d.high_required 0 (suc d.compactions)
            else deque_at [] peak d.high_required 0 d.compactions)
  pops_drain d low filled =
      by_items d.items d.high_water_mark d.high_required d.low_required d.compactions low filled
    where
      by_items :
          (items : List A) (mark high l k : ℕ)
          → l ≡ 0
          → 0 < length items
          → pops (length items) (deque_at items mark high l k)
            ≡ ok (
                if leb high (max mark (length items))
                then deque_at [] 0 high 0 (suc k)
                else deque_at [] (max mark (length items)) high 0 k)
      by_items [] mark high l k e h = elim h [ ]
      by_items (x ∷ xs) mark high l k e h =
          ap (λ (t : ℕ). pops (length (x ∷ xs)) (deque_at (x ∷ xs) mark high t k)) e
          ∙ drained_at x xs mark high k
