-- ===== src/Base/Lists.antt =====
-- Lists measured and indexed by native numbers, under the library's names.
use Prim.Native.Nat.{ℕ, zero, suc, ◌+◌, ◌-◌, ◌<◌, ◌≤◌, min}
use mathlib.Core.Path.{◌≡◌, refl, sym, ap, ◌∙◌}
use mathlib.Core.Logic.{◌≢◌}
use mathlib.Core.List.{List, [], ◌∷◌, ◌++◌}
use mathlib.Core.Option.{Option, none, some}
use native.Mathlib.Nat.{add-zero}
use native.Mathlib.Omega.{arith}

module _ {ℓ} {A : Type ℓ} where
  abbrev pub length : List A → ℕ
  length [] = 0
  length (x ∷ xs) = suc (length xs)

  abbrev pub get_elem? : List A → ℕ → Option A
  get_elem? [] i = none
  get_elem? (x ∷ xs) zero = some x
  get_elem? (x ∷ xs) (suc i) = get_elem? xs i

  abbrev pub get_or : List A → ℕ → A → A
  get_or [] i d = d
  get_or (x ∷ xs) zero d = x
  get_or (x ∷ xs) (suc i) d = get_or xs i d

  -- A write out of bounds changes nothing.
  abbrev pub set : List A → ℕ → A → List A
  set [] i v = []
  set (x ∷ xs) zero v = v ∷ xs
  set (x ∷ xs) (suc i) v = x ∷ set xs i v

  abbrev pub take : ℕ → List A → List A
  take zero xs = []
  take (suc n) [] = []
  take (suc n) (x ∷ xs) = x ∷ take n xs

  abbrev pub drop : ℕ → List A → List A
  drop zero xs = xs
  drop (suc n) [] = []
  drop (suc n) (x ∷ xs) = drop n xs

  abbrev pub replicate : ℕ → A → List A
  replicate zero a = []
  replicate (suc n) a = a ∷ replicate n a

  -- f 0, f 1, … f (n - 1).
  abbrev pub tabulate : ℕ → (ℕ → A) → List A
  tabulate zero f = []
  tabulate (suc n) f = f zero ∷ tabulate n (λ i. f (suc i))

  -- `xs` with `ys` laid over it from index `i` on; what would stand past the end is dropped.
  abbrev pub splice : List A → ℕ → List A → List A
  splice [] i ys = []
  splice (x ∷ xs) zero [] = x ∷ xs
  splice (x ∷ xs) zero (y ∷ ys) = y ∷ splice xs zero ys
  splice (x ∷ xs) (suc i) ys = x ∷ splice xs i ys

  pub length-append : (xs ys : List A) → length (xs ++ ys) ≡ length xs + length ys
  length-append [] ys = omega arith
  length-append (x ∷ xs) ys = omega (arith, length-append xs ys)

  pub length-tabulate : (n : ℕ) (f : ℕ → A) → length (tabulate n f) ≡ n
  length-tabulate zero f = refl
  length-tabulate (suc n) f = ap suc (length-tabulate n (λ i. f (suc i)))

  pub length-take : (n : ℕ) (xs : List A) → length (take n xs) ≡ min n (length xs)
  length-take zero xs = omega arith
  length-take (suc n) [] = omega arith
  length-take (suc n) (x ∷ xs) = omega (arith, length-take n xs)

  pub length-drop : (n : ℕ) (xs : List A) → length (drop n xs) ≡ length xs - n
  length-drop zero xs = omega arith
  length-drop (suc n) [] = omega arith
  length-drop (suc n) (x ∷ xs) = omega (arith, length-drop n xs)

  pub take-append-drop : (n : ℕ) (xs : List A) → take n xs ++ drop n xs ≡ xs
  take-append-drop zero xs = refl
  take-append-drop (suc n) [] = refl
  take-append-drop (suc n) (x ∷ xs) = ap (◌∷◌ x) (take-append-drop n xs)

  pub length-set : (xs : List A) (i : ℕ) (v : A) → length (set xs i v) ≡ length xs
  length-set [] i v = refl
  length-set (x ∷ xs) zero v = refl
  length-set (x ∷ xs) (suc i) v = ap suc (length-set xs i v)

  pub get_elem?-set_self :
      (xs : List A) (i : ℕ) (v : A) → i < length xs → get_elem? (set xs i v) i ≡ some v
  get_elem?-set_self [] i v h = elim h [ ]
  get_elem?-set_self (x ∷ xs) zero v h = refl
  get_elem?-set_self (x ∷ xs) (suc i) v h = get_elem?-set_self xs i v (omega arith)

  pub get_elem?-set_ne :
      (xs : List A) (i j : ℕ) (v : A) → i ≢ j → get_elem? (set xs i v) j ≡ get_elem? xs j
  get_elem?-set_ne [] i j v h = refl
  get_elem?-set_ne (x ∷ xs) zero zero v h = absurd (h refl)
  get_elem?-set_ne (x ∷ xs) zero (suc j) v h = refl
  get_elem?-set_ne (x ∷ xs) (suc i) zero v h = refl
  get_elem?-set_ne (x ∷ xs) (suc i) (suc j) v h = get_elem?-set_ne xs i j v (λ e. h (ap suc e))

  pub get_elem?-append_left :
      (xs ys : List A) (i : ℕ) → i < length xs → get_elem? (xs ++ ys) i ≡ get_elem? xs i
  get_elem?-append_left [] ys i h = elim h [ ]
  get_elem?-append_left (x ∷ xs) ys zero h = refl
  get_elem?-append_left (x ∷ xs) ys (suc i) h = get_elem?-append_left xs ys i (omega arith)

  pub get_elem?-append_end : (xs : List A) (y : A) → get_elem? (xs ++ y ∷ []) (length xs) ≡ some y
  get_elem?-append_end [] y = refl
  get_elem?-append_end (x ∷ xs) y = get_elem?-append_end xs y

  pub get_elem?-lt : (xs : List A) (i : ℕ) (v : A) → get_elem? xs i ≡ some v → i < length xs
  get_elem?-lt [] i v h = ground arith
  get_elem?-lt (x ∷ xs) zero v h = omega arith
  get_elem?-lt (x ∷ xs) (suc i) v h = omega (arith, get_elem?-lt xs i v h)

module _ {ℓ} {A : Type ℓ} where
  pub length-splice : (xs : List A) (i : ℕ) (ys : List A) → length (splice xs i ys) ≡ length xs
  length-splice [] i ys = refl
  length-splice (x ∷ xs) zero [] = refl
  length-splice (x ∷ xs) zero (y ∷ ys) = ap suc (length-splice xs zero ys)
  length-splice (x ∷ xs) (suc i) ys = ap suc (length-splice xs i ys)

  -- Below the written range nothing changes.
  pub take-splice :
      (n : ℕ) (xs : List A) (i : ℕ) (ys : List A) → n ≤ i → take n (splice xs i ys) ≡ take n xs
  take-splice zero xs i ys h = refl
  take-splice (suc n) [] i ys h = refl
  take-splice (suc n) (x ∷ xs) zero ys h = elim h [ ]
  take-splice (suc n) (x ∷ xs) (suc i) ys h = ap (◌∷◌ x) (take-splice n xs i ys (omega arith))

  -- What was written stands at the place where it was written.
  pub take-drop-splice :
      (xs : List A) (i : ℕ) (ys : List A) (n : ℕ)
      → n ≡ length ys
      → i + n ≤ length xs
      → take n (drop i (splice xs i ys)) ≡ ys
  take-drop-splice [] zero [] zero e h = refl
  take-drop-splice [] zero [] (suc n) e h = absurd (omega arith)
  take-drop-splice [] zero (y ∷ ys) n e h = absurd (omega arith)
  take-drop-splice [] (suc i) ys n e h = absurd (omega arith)
  take-drop-splice (x ∷ xs) zero [] zero e h = refl
  take-drop-splice (x ∷ xs) zero [] (suc n) e h = absurd (omega arith)
  take-drop-splice (x ∷ xs) zero (y ∷ ys) zero e h = absurd (omega arith)
  take-drop-splice (x ∷ xs) zero (y ∷ ys) (suc n) e h =
      ap (◌∷◌ y) (take-drop-splice xs zero ys n (omega arith) (omega arith))
  take-drop-splice (x ∷ xs) (suc i) ys n e h = take-drop-splice xs i ys n e (omega arith)

  -- Up to the end of the written range: the old beginning, then what was written.
  pub take-splice_end :
      (xs : List A) (i : ℕ) (ys : List A) (n : ℕ)
      → n ≡ i + length ys
      → n ≤ length xs
      → take n (splice xs i ys) ≡ take i xs ++ ys
  take-splice_end [] zero [] zero e h = refl
  take-splice_end [] zero [] (suc n) e h = absurd (omega arith)
  take-splice_end [] zero (y ∷ ys) n e h = absurd (omega arith)
  take-splice_end [] (suc i) ys n e h = absurd (omega arith)
  take-splice_end (x ∷ xs) zero [] zero e h = refl
  take-splice_end (x ∷ xs) zero [] (suc n) e h = absurd (omega arith)
  take-splice_end (x ∷ xs) zero (y ∷ ys) zero e h = absurd (omega arith)
  take-splice_end (x ∷ xs) zero (y ∷ ys) (suc n) e h =
      ap (◌∷◌ y) (take-splice_end xs zero ys n (omega arith) (omega arith))
  take-splice_end (x ∷ xs) (suc i) ys zero e h = absurd (omega arith)
  take-splice_end (x ∷ xs) (suc i) ys (suc n) e h =
      ap (◌∷◌ x) (take-splice_end xs i ys n (omega arith) (omega arith))

  -- Past the written range nothing changes.
  pub drop-splice :
      (xs : List A) (i : ℕ) (ys : List A) (n : ℕ)
      → i + length ys ≤ n
      → drop n (splice xs i ys) ≡ drop n xs
  drop-splice [] i ys n h = refl
  drop-splice (x ∷ xs) zero [] n h = refl
  drop-splice (x ∷ xs) zero (y ∷ ys) zero h = absurd (omega arith)
  drop-splice (x ∷ xs) zero (y ∷ ys) (suc n) h = drop-splice xs zero ys n (omega arith)
  drop-splice (x ∷ xs) (suc i) ys zero h = absurd (omega arith)
  drop-splice (x ∷ xs) (suc i) ys (suc n) h = drop-splice xs i ys n (omega arith)

  pub take-take : (n m : ℕ) (xs : List A) → n ≤ m → take n (take m xs) ≡ take n xs
  take-take zero m xs h = refl
  take-take (suc n) zero xs h = elim h [ ]
  take-take (suc n) (suc m) [] h = refl
  take-take (suc n) (suc m) (x ∷ xs) h = ap (◌∷◌ x) (take-take n m xs (omega arith))

  pub take-min : (n m : ℕ) (xs : List A) → take n (take m xs) ≡ take (min n m) xs
  take-min zero m xs = let z : 0 ≡ min zero m = omega arith in ap (λ k. take k xs) z
  take-min (suc n) zero xs = let z : 0 ≡ min (suc n) zero = omega arith in ap (λ k. take k xs) z
  take-min (suc n) (suc m) [] =
      let z : suc (min n m) ≡ min (suc n) (suc m) = omega arith in ap (λ k. take {A = A} k []) z
  take-min (suc n) (suc m) (x ∷ xs) =
      let z : suc (min n m) ≡ min (suc n) (suc m) = omega arith in
      ap (◌∷◌ x) (take-min n m xs) ∙ ap (λ k. take k (x ∷ xs)) z

  pub take_all : (n : ℕ) (xs : List A) → length xs ≤ n → take n xs ≡ xs
  take_all zero [] h = refl
  take_all zero (x ∷ xs) h = elim h [ ]
  take_all (suc n) [] h = refl
  take_all (suc n) (x ∷ xs) h = ap (◌∷◌ x) (take_all n xs (omega arith))

  pub take-append : (xs ys : List A) (n : ℕ) → n ≡ length xs → take n (xs ++ ys) ≡ xs
  take-append [] ys zero e = refl
  take-append [] ys (suc n) e = absurd (omega arith)
  take-append (x ∷ xs) ys zero e = absurd (omega arith)
  take-append (x ∷ xs) ys (suc n) e = ap (◌∷◌ x) (take-append xs ys n (omega arith))

  pub drop-append : (xs ys : List A) (n : ℕ) → n ≡ length xs → drop n (xs ++ ys) ≡ ys
  drop-append [] ys zero e = refl
  drop-append [] ys (suc n) e = absurd (omega arith)
  drop-append (x ∷ xs) ys zero e = absurd (omega arith)
  drop-append (x ∷ xs) ys (suc n) e = drop-append xs ys n (omega arith)

  -- A long read is a short one and the rest.
  pub take-add : (a b n : ℕ) (xs : List A) → n ≡ a + b → take a xs ++ take b (drop a xs) ≡ take n xs
  take-add zero b zero xs e = let z : b ≡ zero = omega arith in ap (λ k. take k xs) z
  take-add zero b (suc n) xs e = let z : b ≡ suc n = omega arith in ap (λ k. take k xs) z
  take-add (suc a) b zero xs e = absurd (omega arith)
  take-add (suc a) b (suc n) [] e = take_all b [] (omega arith)
  take-add (suc a) b (suc n) (x ∷ xs) e = ap (◌∷◌ x) (take-add a b n xs (omega arith))

  pub drop-take : (i m : ℕ) (xs : List A) → drop i (take m xs) ≡ take (m - i) (drop i xs)
  drop-take zero m xs = let z : m ≡ m - zero = omega arith in ap (λ k. take k xs) z
  drop-take (suc i) zero xs =
      let z : 0 ≡ zero - suc i = omega arith in ap (λ k. take k (drop (suc i) xs)) z
  drop-take (suc i) (suc m) [] = sym (take_all (suc m - suc i) [] (omega arith))
  drop-take (suc i) (suc m) (x ∷ xs) =
      let z : m - i ≡ suc m - suc i = omega arith in
      drop-take i m xs ∙ ap (λ k. take k (drop i xs)) z

  pub drop-length-take :
      (xs : List A) (i n : ℕ) → drop (i + length (take n (drop i xs))) xs ≡ drop n (drop i xs)
  drop-length-take xs zero n =
      let z : zero + length (take n xs) ≡ length (take n xs) = omega arith in
      ap (λ k. drop k xs) z ∙ taken xs n
    where
      taken : (ys : List A) (m : ℕ) → drop (length (take m ys)) ys ≡ drop m ys
      taken ys zero = refl
      taken [] (suc m) = refl
      taken (y ∷ ys) (suc m) = taken ys m
  drop-length-take [] (suc i) n = nothing n
    where
      nothing : (m : ℕ) → drop {A = A} (suc i + length (take {A = A} m [])) [] ≡ drop m []
      nothing zero = ap (λ k. drop {A = A} k []) (add-zero (suc i))
      nothing (suc m) = ap (λ k. drop {A = A} k []) (add-zero (suc i))
  drop-length-take (x ∷ xs) (suc i) n =
      let z : suc i + length (take n (drop i xs)) ≡ suc (i + length (take n (drop i xs))) =
        omega arith in
      ap (λ k. drop k (x ∷ xs)) z ∙ drop-length-take xs i n

  pub drop_past : (n : ℕ) (xs : List A) → length xs ≤ n → drop n xs ≡ []
  drop_past zero [] h = refl
  drop_past zero (x ∷ xs) h = elim h [ ]
  drop_past (suc n) [] h = refl
  drop_past (suc n) (x ∷ xs) h = drop_past n xs (omega arith)
