-- ===== src/Streams/Order/Laws.antt =====
-- The integers of source/streams/vbinaryiostream.cpp stand on the wire most significant byte first,
-- whatever the machine's own order.
use mathlib.Core.List.{reverse, reverse-cons, reverse-reverse}
use native.Mathlib.Nat.{pow-suc, one-le-pow, mod-eq_of_lt}
use code_vault.Base.{
  ℕ, zero, suc, ◌+◌, ◌/◌, ◌^◌, ◌<◌, ◌≡◌, refl, sym, ap, ap₂, ◌∙◌, Bool, true, false, List, [], ◌∷◌,
  ◌++◌, length, lt→ltb, ℤ, pos, negsuc, arith, length-append,
}
use code_vault.Streams.Order.{
  le_bytes, of_le_bytes, in_memory, of_memory, swap_if_needed, pattern_of, signed_of,
}

-- Big-endian: the order of the wire.
abbrev pub be_bytes : ℕ → ℕ → List ℕ
be_bytes w n = reverse (le_bytes w n)

abbrev pub IsBytes : List ℕ → Type 0
IsBytes [] = Unit {0}
IsBytes (b ∷ bs) = (b < 256) × IsBytes bs

IsBytes-append : (xs ys : List ℕ) → IsBytes xs → IsBytes ys → IsBytes (xs ++ ys)
IsBytes-append [] ys h k = k
IsBytes-append (x ∷ xs) ys h k = (h.0, IsBytes-append xs ys h.1 k)

pub IsBytes-reverse : (xs : List ℕ) → IsBytes xs → IsBytes (reverse xs)
IsBytes-reverse [] h = tt
IsBytes-reverse (x ∷ xs) h =
    rw (reverse-cons x xs) (IsBytes-append (reverse xs) (x ∷ []) (IsBytes-reverse xs h.1) (h.0, tt))

pub length-reverse : (xs : List ℕ) → length (reverse xs) ≡ length xs
length-reverse [] = refl
length-reverse (x ∷ xs) =
    ap length (reverse-cons x xs)
    ∙ omega (arith, length-append (reverse xs) (x ∷ []), length-reverse xs)

IsBytes-le_bytes : (w n : ℕ) → IsBytes (le_bytes w n)
unfolding le_bytes
IsBytes-le_bytes zero n = tt
IsBytes-le_bytes (suc w) n = (omega arith, IsBytes-le_bytes w (n / 256))

length-le_bytes : (w n : ℕ) → length (le_bytes w n) ≡ w
unfolding le_bytes
length-le_bytes zero n = refl
length-le_bytes (suc w) n = ap suc (length-le_bytes w (n / 256))

pub length-be_bytes : (w n : ℕ) → length (be_bytes w n) ≡ w
length-be_bytes w n = length-reverse (le_bytes w n) ∙ length-le_bytes w n

pub IsBytes-be_bytes : (w n : ℕ) → IsBytes (be_bytes w n)
IsBytes-be_bytes w n = IsBytes-reverse (le_bytes w n) (IsBytes-le_bytes w n)

le_bytes-of_le_bytes : (bs : List ℕ) → IsBytes bs → le_bytes (length bs) (of_le_bytes bs) ≡ bs
unfolding le_bytes of_le_bytes
le_bytes-of_le_bytes [] h = refl
le_bytes-of_le_bytes (b ∷ bs) h =
    ap₂ ◌∷◌ (omega arith) (ap (le_bytes (length bs)) (omega arith) ∙ le_bytes-of_le_bytes bs h.1)

of_le_bytes-le_bytes : (w n : ℕ) → n < 256 ^ w → of_le_bytes (le_bytes w n) ≡ n
unfolding le_bytes of_le_bytes
of_le_bytes-le_bytes zero n h = omega arith
of_le_bytes-le_bytes (suc w) n h =
    omega (arith, pow-suc 256 w, of_le_bytes-le_bytes w (n / 256) (omega (arith, pow-suc 256 w)))

-- What is put on the wire.
pub in_memory-swap_if_needed :
    (little : Bool) (w n : ℕ) → in_memory little w (swap_if_needed little w n) ≡ be_bytes w n
unfolding in_memory swap_if_needed of_memory
in_memory-swap_if_needed true w n =
    ap (λ k. le_bytes k (of_le_bytes (be_bytes w n))) (sym (length-be_bytes w n))
    ∙ le_bytes-of_le_bytes (be_bytes w n) (IsBytes-be_bytes w n)
in_memory-swap_if_needed false w n = refl

-- What is made of bytes from the wire.
pub swap_if_needed-of_memory :
    (little : Bool) (w n : ℕ)
    → n < 256 ^ w
    → swap_if_needed little w (of_memory little (be_bytes w n)) ≡ n
unfolding in_memory swap_if_needed of_memory
swap_if_needed-of_memory true w n h =
    ap (λ t. of_le_bytes (reverse t))
      (ap (λ k. le_bytes k (of_le_bytes (be_bytes w n))) (sym (length-be_bytes w n))
        ∙ le_bytes-of_le_bytes (be_bytes w n) (IsBytes-be_bytes w n))
    ∙ ap of_le_bytes (reverse-reverse (le_bytes w n))
    ∙ of_le_bytes-le_bytes w n h
swap_if_needed-of_memory false w n h =
    ap of_le_bytes (reverse-reverse (le_bytes w n)) ∙ of_le_bytes-le_bytes w n h

-- The integers that `w` bytes hold in two's complement.
abbrev pub InRange : ℕ → ℤ → Type 0
InRange w (pos n) = n + n < 256 ^ w
InRange w (negsuc n) = n + n < 256 ^ w

pub pattern_of-lt : (w : ℕ) (z : ℤ) → pattern_of w z < 256 ^ w
unfolding pattern_of
pattern_of-lt w (pos n) = omega (arith, one-le-pow w 256)
pattern_of-lt w (negsuc n) = omega (arith, one-le-pow w 256)

pub signed_of-pattern_of : (w : ℕ) (z : ℤ) → 0 < w → InRange w z → signed_of w (pattern_of w z) ≡ z
unfolding pattern_of signed_of
signed_of-pattern_of zero z p h = elim p [ ]
signed_of-pattern_of (suc w) (pos n) p h = ground (arith, mod-eq_of_lt {n = n} {m = 256 ^ suc w})
signed_of-pattern_of (suc w) (negsuc n) p h =
    ground (arith, pow-suc 256 w, mod-eq_of_lt {n = n} {m = 256 ^ suc w})

pub signed_of-small : (w n : ℕ) → n + n < 256 ^ w → signed_of w n ≡ pos n
unfolding signed_of
signed_of-small w n h = rw (lt→ltb (n + n) (256 ^ w) h)
