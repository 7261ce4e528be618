-- ===== src/Duration/Spec.antt =====
-- source/containers/vinstant.cpp: the arithmetic of VDuration against that of the integers with two infinities.
use code_vault.Base.{
  zero, suc, ◌≡◌, refl, sym, ap, ap₂, ◌∙◌, subst, true, false, ◌&&◌, inl, inr, Bool-cases, Result,
  ok, ==_iff, if◌then◌else◌, ℤ, pos, negsuc, ◌+ℤ◌,
}
use code_vault.Duration.{
  unspecified, positive_infinity, negative_infinity, eq_ℤ, is_specific, vs64, add, plus, negate_ℤ,
}

-- A number, an infinity, or no value.
pub data Extended : Type 0 where
  no_value plus_infinity minus_infinity : Extended
  finite : ℤ → Extended

-- What a count of milliseconds stands for.
abbrev pub view : ℤ → Extended
view d =
    if eq_ℤ d unspecified
    then no_value
    else (if eq_ℤ d negative_infinity
        then minus_infinity
        else (if eq_ℤ d positive_infinity then plus_infinity else finite d))

-- How often a value has infinity in it, and what it has besides.
abbrev pub infinities : Extended → ℤ
infinities plus_infinity = pos 1
infinities minus_infinity = negsuc 0
infinities _ = pos 0

abbrev pub rest_of : Extended → ℤ
rest_of (finite a) = a
rest_of _ = pos 0

-- The value that has infinity so many times: with none, it is the rest.
abbrev pub weigh : (infinities rest : ℤ) → Extended
weigh (pos zero) rest = finite rest
weigh (pos (suc n)) rest = plus_infinity
weigh (negsuc n) rest = minus_infinity

-- The infinities and the rests are added up. With no value on the left there is none, and no value on the right
-- changes nothing.
abbrev pub sum : Extended → Extended → Extended
sum no_value b = no_value
sum a no_value = a
sum a b = weigh (infinities a +ℤ infinities b) (rest_of a +ℤ rest_of b)

abbrev pub opposite : Extended → Extended
opposite no_value = no_value
opposite plus_infinity = minus_infinity
opposite minus_infinity = plus_infinity
opposite (finite a) = finite (negate_ℤ a)

-- One of the special values, or a specific one.
pub data Kind (d : ℤ) : Type 0 where
  special : d ≡ unspecified → Kind d
  above : d ≡ positive_infinity → Kind d
  below : d ≡ negative_infinity → Kind d
  specific :
      eq_ℤ d unspecified ≡ false
      → eq_ℤ d negative_infinity ≡ false
      → eq_ℤ d positive_infinity ≡ false
      → Kind d

eq_ℤ-true : (a b : ℤ) → eq_ℤ a b ≡ true → a ≡ b
eq_ℤ-true (pos m) (pos n) h = ap pos ((==_iff m n).0 h)
eq_ℤ-true (negsuc m) (negsuc n) h = ap negsuc ((==_iff m n).0 h)
eq_ℤ-true (pos m) (negsuc n) h = absurd (cc)
eq_ℤ-true (negsuc m) (pos n) h = absurd (cc)

pub kind_of : (d : ℤ) → Kind d
kind_of d = elim (Bool-cases (eq_ℤ d unspecified)) [
  | inl u ↦ special (eq_ℤ-true d unspecified u)
  | inr not_u ↦ elim (Bool-cases (eq_ℤ d negative_infinity)) [
    | inl n ↦ below (eq_ℤ-true d negative_infinity n)
    | inr not_n ↦ elim (Bool-cases (eq_ℤ d positive_infinity)) [
      | inl p ↦ above (eq_ℤ-true d positive_infinity p)
      | inr not_p ↦ specific not_u not_n not_p
    ]
  ]
]

view_specific :
    (d : ℤ)
    → eq_ℤ d unspecified ≡ false
    → eq_ℤ d negative_infinity ≡ false
    → eq_ℤ d positive_infinity ≡ false
    → view d ≡ finite d
view_specific d not_u not_n not_p = rw (not_u, not_n, not_p)

-- The result of an operation stands for a value.
abbrev pub StandsFor : Extended → Result ℤ → Type 0
StandsFor v r = (c : ℤ) × (r ≡ ok c) × (view c ≡ v)

-- An exact result of two specific values is neither out of range nor one of the special values.
abbrev pub IsInRange : ℤ → ℤ → ℤ → Type 0
IsInRange a b exact =
    (is_specific a && is_specific b) ≡ true → (vs64 exact ≡ ok exact) × (view exact ≡ finite exact)

plus_above : (b : ℤ) → Kind b → StandsFor (sum plus_infinity (view b)) (plus positive_infinity b)
unfolding plus add
plus_above b (special e) =
    subst (λ x. StandsFor (sum plus_infinity (view x)) (plus positive_infinity x)) (sym e)
      (positive_infinity, refl, refl)
plus_above b (above e) =
    subst (λ x. StandsFor (sum plus_infinity (view x)) (plus positive_infinity x)) (sym e)
      (positive_infinity, refl, refl)
plus_above b (below e) =
    subst (λ x. StandsFor (sum plus_infinity (view x)) (plus positive_infinity x)) (sym e)
      (pos 0, refl, refl)
plus_above b (specific u n p) =
    (positive_infinity, rw n, sym (ap (sum plus_infinity) (view_specific b u n p)))

plus_below : (b : ℤ) → Kind b → StandsFor (sum minus_infinity (view b)) (plus negative_infinity b)
unfolding plus add
plus_below b (special e) =
    subst (λ x. StandsFor (sum minus_infinity (view x)) (plus negative_infinity x)) (sym e)
      (negative_infinity, refl, refl)
plus_below b (above e) =
    subst (λ x. StandsFor (sum minus_infinity (view x)) (plus negative_infinity x)) (sym e)
      (pos 0, refl, refl)
plus_below b (below e) =
    subst (λ x. StandsFor (sum minus_infinity (view x)) (plus negative_infinity x)) (sym e)
      (negative_infinity, refl, refl)
plus_below b (specific u n p) =
    (negative_infinity, rw p, sym (ap (sum minus_infinity) (view_specific b u n p)))

-- The sum of two durations is that of the values that they stand for, if the sum of two specific durations is
-- again in their range. An infinity and an integer give the infinity, equal infinities that infinity, and
-- opposite ones zero. UNSPECIFIED on the left gives UNSPECIFIED, whatever is on the right; on the right it
-- changes nothing.
pub plus_lem : (a b : ℤ) → IsInRange a b (a +ℤ b) → StandsFor (sum (view a) (view b)) (plus a b)
unfolding plus add
plus_lem a b h = go (kind_of a) (kind_of b)
  where
    go : Kind a → Kind b → StandsFor (sum (view a) (view b)) (plus a b)
    go (special e) kb =
        subst (λ x. StandsFor (sum (view x) (view b)) (plus x b)) (sym e) (unspecified, refl, refl)
    go (above e) kb =
        subst (λ x. StandsFor (sum (view x) (view b)) (plus x b)) (sym e) (plus_above b kb)
    go (below e) kb =
        subst (λ x. StandsFor (sum (view x) (view b)) (plus x b)) (sym e) (plus_below b kb)
    go (specific u n p) (special e) =
        subst (λ x. StandsFor (sum (view a) (view x)) (plus a x)) (sym e)
          (a, rw (u, n, p), rw (u, n, p))
    go (specific u n p) (above e) =
        subst (λ x. StandsFor (sum (view a) (view x)) (plus a x)) (sym e)
          (positive_infinity, rw (u, n, p), rw (u, n, p))
    go (specific u n p) (below e) =
        subst (λ x. StandsFor (sum (view a) (view x)) (plus a x)) (sym e)
          (negative_infinity, rw (u, n, p), rw (u, n, p))
    go (specific u n p) (specific u' n' p') =
        let (fits, same) = h (rw (u, n, p, u', n', p')) in
        (
          a +ℤ b,
          rw (u, n, p, u', n', p') fits,
          same ∙ sym (ap₂ sum (view_specific a u n p) (view_specific b u' n' p')),
        )
