-- ===== src/Duration/Arithmetic.antt =====
-- source/containers/vinstant.cpp: how the operations of VDuration go together.
use code_vault.Base.{
  suc, zero, ◌≡◌, refl, sym, ap, ◌∙◌, subst, Bool, true, false, not, ◌&&◌, ok, if◌then◌else◌, ℤ,
  pos, negsuc, ◌+ℤ◌, ◌-ℤ◌, ltb_ℤ, arith,
}
use code_vault.Duration.{
  unspecified, positive_infinity, negative_infinity, eq_ℤ, negate_ℤ, is_specific, vs64, add,
  subtract, plus, minus, negate, min_duration, max_duration,
}
use code_vault.Duration.Spec.{Kind, special, above, below, specific, kind_of}

three_tests :
    (u n p : Bool) → (not u && not n && not p) ≡ true → (u ≡ false) × (n ≡ false) × (p ≡ false)
three_tests false false false h = (refl, refl, refl)
three_tests false false true h = absurd (cc)
three_tests false true p h = absurd (cc)
three_tests true n p h = absurd (cc)

minus_as_plus : (a b : ℤ) → a -ℤ b ≡ a +ℤ negate_ℤ b
minus_as_plus a (pos zero) = refl
minus_as_plus a (pos (suc n)) = refl
minus_as_plus a (negsuc n) = refl

minus_specific :
    (a b : ℤ)
    → Kind a
    → (is_specific b ≡ true)
    → is_specific (negate_ℤ b) ≡ true
    → minus a b ≡ plus a (negate_ℤ b)
unfolding minus subtract plus add
minus_specific a b ka hb hn =
    let (u, n, p) =
      three_tests (eq_ℤ b unspecified) (eq_ℤ b negative_infinity) (eq_ℤ b positive_infinity) hb in
    let (u', n', p') =
      three_tests (eq_ℤ (negate_ℤ b) unspecified) (eq_ℤ (negate_ℤ b) negative_infinity)
        (eq_ℤ (negate_ℤ b) positive_infinity) hn in
    elim ka [
      | special e ↦ subst (λ x. minus x b ≡ plus x (negate_ℤ b)) (sym e) refl
      | above e ↦ subst (λ x. minus x b ≡ plus x (negate_ℤ b)) (sym e) (rw (p, n'))
      | below e ↦ subst (λ x. minus x b ≡ plus x (negate_ℤ b)) (sym e) (rw (n, p'))
      | specific v m q ↦ rw (v, m, q, u, n, p, u', n', p') (ap vs64 (minus_as_plus a b))
    ]

minus-unspecified : (a : ℤ) → Kind a → minus a unspecified ≡ plus a unspecified
unfolding minus subtract plus add
minus-unspecified a (special e) = subst (λ x. minus x unspecified ≡ plus x unspecified) (sym e) refl
minus-unspecified a (above e) = subst (λ x. minus x unspecified ≡ plus x unspecified) (sym e) refl
minus-unspecified a (below e) = subst (λ x. minus x unspecified ≡ plus x unspecified) (sym e) refl
minus-unspecified a (specific u n p) = rw (u, n, p)

minus_positive : (a : ℤ) → Kind a → minus a positive_infinity ≡ plus a negative_infinity
unfolding minus subtract plus add
minus_positive a (special e) =
    subst (λ x. minus x positive_infinity ≡ plus x negative_infinity) (sym e) refl
minus_positive a (above e) =
    subst (λ x. minus x positive_infinity ≡ plus x negative_infinity) (sym e) refl
minus_positive a (below e) =
    subst (λ x. minus x positive_infinity ≡ plus x negative_infinity) (sym e) refl
minus_positive a (specific u n p) = rw (u, n, p)

minus_negative : (a : ℤ) → Kind a → minus a negative_infinity ≡ plus a positive_infinity
unfolding minus subtract plus add
minus_negative a (special e) =
    subst (λ x. minus x negative_infinity ≡ plus x positive_infinity) (sym e) refl
minus_negative a (above e) =
    subst (λ x. minus x negative_infinity ≡ plus x positive_infinity) (sym e) refl
minus_negative a (below e) =
    subst (λ x. minus x negative_infinity ≡ plus x positive_infinity) (sym e) refl
minus_negative a (specific u n p) = rw (u, n, p)

-- Subtraction is the addition of the negative, infinities and values that are not specified included, unless the
-- negative of a specific duration is one of the special values.
pub minus-eq-plus :
    (a b : ℤ)
    → (is_specific b ≡ true → is_specific (negate b) ≡ true)
    → minus a b ≡ plus a (negate b)
unfolding minus subtract plus add negate
minus-eq-plus a b h = go (kind_of a) (kind_of b)
  where
    go : Kind a → Kind b → minus a b ≡ plus a (negate b)
    go ka (special e) = subst (λ x. minus a x ≡ plus a (negate x)) (sym e) (minus-unspecified a ka)
    go ka (above e) = subst (λ x. minus a x ≡ plus a (negate x)) (sym e) (minus_positive a ka)
    go ka (below e) = subst (λ x. minus a x ≡ plus a (negate x)) (sym e) (minus_negative a ka)
    go ka (specific u n p) =
        let some : is_specific b ≡ true = rw (u, n, p) in
        let same : negate b ≡ negate_ℤ b = rw some in
        minus_specific a b ka some (subst (λ x. is_specific x ≡ true) same (h some))
        ∙ ap (plus a) (sym same)

ltb_least :
    (b : ℤ) → vs64 b ≡ ok b → eq_ℤ b negative_infinity ≡ false → ltb_ℤ negative_infinity b ≡ true
unfolding vs64
ltb_least (pos n) h e = ground arith
ltb_least (negsuc n) h e = ground arith

ltb_greatest :
    (b : ℤ)
    → vs64 b ≡ ok b
    → eq_ℤ b unspecified ≡ false
    → eq_ℤ b positive_infinity ≡ false
    → ltb_ℤ b positive_infinity ≡ true
unfolding vs64
ltb_greatest (pos n) h e k = ground arith
ltb_greatest (negsuc n) h e k = ground arith

ltb_asym : (a b : ℤ) → ltb_ℤ a b ≡ true → ltb_ℤ b a ≡ false
ltb_asym a b h = ground arith

abbrev least : ℤ → ℤ → ℤ
least a b = if ltb_ℤ a b then a else b

abbrev greatest : ℤ → ℤ → ℤ
greatest a b = if ltb_ℤ b a then a else b

abbrev Extremes : ℤ → ℤ → Type 0
Extremes a b = (min_duration a b ≡ least a b) × (max_duration a b ≡ greatest a b)

-- An infinity and any duration that is comparable.
with_positive :
    (b : ℤ) → vs64 b ≡ ok b → eq_ℤ b unspecified ≡ false → Kind b → Extremes positive_infinity b
unfolding min_duration max_duration
with_positive b fits u (special e) = absurd (cc (subst (λ x. eq_ℤ x unspecified ≡ false) e u))
with_positive b fits u (above e) = subst (Extremes positive_infinity) (sym e) (refl, refl)
with_positive b fits u (below e) = subst (Extremes positive_infinity) (sym e) (refl, refl)
with_positive b fits u (specific _ n p) =
    let under = ltb_greatest b fits u p in
    (rw (u, n, ltb_asym b positive_infinity under), rw (u, under))

with_negative :
    (b : ℤ) → vs64 b ≡ ok b → eq_ℤ b unspecified ≡ false → Kind b → Extremes negative_infinity b
unfolding min_duration max_duration
with_negative b fits u (special e) = absurd (cc (subst (λ x. eq_ℤ x unspecified ≡ false) e u))
with_negative b fits u (above e) = subst (Extremes negative_infinity) (sym e) (refl, refl)
with_negative b fits u (below e) = subst (Extremes negative_infinity) (sym e) (refl, refl)
with_negative b fits u (specific _ n p) =
    let over = ltb_least b fits n in (rw (u, over), rw (u, p, ltb_asym negative_infinity b over))

-- min and max of two durations, infinities included, that are not "unspecified" are those of the numbers that
-- stand for them.
min_max_lem :
    (a b : ℤ)
    → vs64 a ≡ ok a
    → vs64 b ≡ ok b
    → eq_ℤ a unspecified ≡ false
    → eq_ℤ b unspecified ≡ false
    → (min_duration a b ≡ (if ltb_ℤ a b then a else b))
      × (max_duration a b ≡ (if ltb_ℤ b a then a else b))
unfolding min_duration max_duration
min_max_lem a b fits fits' u u' = go (kind_of a) (kind_of b)
  where
    go : Kind a → Kind b → Extremes a b
    go (special e) kb = absurd (cc (subst (λ x. eq_ℤ x unspecified ≡ false) e u))
    go (above e) kb = subst (λ x. Extremes x b) (sym e) (with_positive b fits' u' kb)
    go (below e) kb = subst (λ x. Extremes x b) (sym e) (with_negative b fits' u' kb)
    go (specific _ n p) (special e) = absurd (cc (subst (λ x. eq_ℤ x unspecified ≡ false) e u'))
    go (specific _ n p) (above e) =
        let under = ltb_greatest a fits u p in
        subst (Extremes a) (sym e)
          (rw (u, n, p, under), rw (u, n, p, ltb_asym a positive_infinity under))
    go (specific _ n p) (below e) =
        let over = ltb_least a fits n in
        subst (Extremes a) (sym e)
          (rw (u, n, p, ltb_asym negative_infinity a over), rw (u, n, p, over))
    go (specific _ n p) (specific _ n' p') = (rw (u, n, p, u', n', p'), rw (u, n, p, u', n', p'))
