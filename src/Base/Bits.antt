-- ===== src/Base/Bits.antt =====
-- `&` and `|` as arithmetic: a low mask is a remainder and disjoint fields add up, at every width;
-- and a check of all values below a bound by evaluation.
use Prim.Native.Nat.{ℕ, zero, suc, ◌+◌, ◌-◌, ◌*◌, ◌/◌, ◌%◌, ◌^◌, ◌≤◌, ◌<◌, min, max}
use Prim.Native.Nat.{bit_and, bit_or, digits, bit_and-bitwise, bit_or-bitwise}
use mathlib.Core.Path.{◌≡◌, refl, ap}
use mathlib.Core.Bool.{Bool, true, false, not, ◌&&◌}
use native.Mathlib.Nat.{pow-suc, one-le-pow}
use native.Mathlib.Omega.{arith}
use code_vault.Base.Tests.{◌==◌, ==_iff}

-- x << k and x >> k on values that no cast cuts off.
infixl 75 ◌<<<◌ ◌>>>◌
abbrev pub ◌<<<◌ : ℕ → ℕ → ℕ
x <<< k = x * 2 ^ k

abbrev pub ◌>>>◌ : ℕ → ℕ → ℕ
x >>> k = x / 2 ^ k

-- The conversion of an unsigned value to Vu8.
abbrev pub u8 : ℕ → ℕ
u8 n = n % 256

-- Any fuel that covers the left operand gives the same digits.
surplus :
    (z : ℕ → ℕ) (f : ℕ → ℕ → ℕ) (n m a b : ℕ) → a ≤ n → a ≤ m → digits z f n a b ≡ digits z f m a b
surplus z f zero zero a b p q = refl
surplus z f n m zero b p q = both_ways n m
  where
    both_ways : (i j : ℕ) → digits z f i zero b ≡ digits z f j zero b
    both_ways zero zero = refl
    both_ways zero (suc j) = refl
    both_ways (suc i) zero = refl
    both_ways (suc i) (suc j) = refl
surplus z f zero (suc m) (suc a) b p q = elim p [ ]
surplus z f (suc n) zero (suc a) b p q = elim q [ ]
surplus z f (suc n) (suc m) (suc a) b p q =
    omega (arith, surplus z f n m (suc a / 2) (b / 2) (omega arith) (omega arith))

bit_or-digit : (a b : ℕ) → bit_or a b ≡ bit_or (a / 2) (b / 2) * 2 + max (a % 2) (b % 2)
bit_or-digit zero b = omega (arith, bit_or-bitwise 0 b, bit_or-bitwise 0 (b / 2))
bit_or-digit (suc a) b = omega (
  arith,
  bit_or-bitwise (suc a) b,
  bit_or-bitwise (suc a / 2) (b / 2),
  surplus (λ y. y) max a (suc a / 2) (suc a / 2) (b / 2) (omega arith) (omega arith),
)

bit_and-digit : (a b : ℕ) → bit_and a b ≡ bit_and (a / 2) (b / 2) * 2 + min (a % 2) (b % 2)
bit_and-digit zero b = omega (arith, bit_and-bitwise 0 b, bit_and-bitwise 0 (b / 2))
bit_and-digit (suc a) b = omega (
  arith,
  bit_and-bitwise (suc a) b,
  bit_and-bitwise (suc a / 2) (b / 2),
  surplus (λ y. 0) min a (suc a / 2) (suc a / 2) (b / 2) (omega arith) (omega arith),
)

bit_or-zero_within : (n a : ℕ) → a ≤ n → bit_or a 0 ≡ a
bit_or-zero_within n zero h = omega (arith, bit_or-bitwise 0 0)
bit_or-zero_within zero (suc a) h = elim h [ ]
bit_or-zero_within (suc n) (suc a) h =
    omega (arith, bit_or-digit (suc a) 0, bit_or-zero_within n (suc a / 2) (omega arith))

bit_and-zero_within : (n a : ℕ) → a ≤ n → bit_and a 0 ≡ 0
bit_and-zero_within n zero h = omega (arith, bit_and-bitwise 0 0)
bit_and-zero_within zero (suc a) h = elim h [ ]
bit_and-zero_within (suc n) (suc a) h =
    omega (arith, bit_and-digit (suc a) 0, bit_and-zero_within n (suc a / 2) (omega arith))

pub bit_or-zero : (a : ℕ) → bit_or a 0 ≡ a
bit_or-zero a = bit_or-zero_within a a (omega arith)

pub zero-bit_or : (a : ℕ) → bit_or 0 a ≡ a
zero-bit_or a = bit_or-bitwise 0 a

double : (q k : ℕ) → q * 2 ^ suc k ≡ q * 2 ^ k * 2
double q k = omega (arith, ap (λ (t : ℕ). q * t) (pow-suc 2 k))

-- `(q << k) | r` is a sum where `r` has `k` bits at most.
pub bit_or-shift : (k q r : ℕ) → r < 2 ^ k → bit_or (q * 2 ^ k) r ≡ q * 2 ^ k + r
bit_or-shift zero q r h = ground (arith, bit_or-zero q)
bit_or-shift (suc k) q r h = ground (
  arith,
  bit_or-digit (q * 2 ^ suc k) r,
  double q k,
  pow-suc 2 k,
  bit_or-shift k q (r / 2) (omega (arith, pow-suc 2 k)),
)

bit_and-low : (k q r : ℕ) → r < 2 ^ k → bit_and (q * 2 ^ k + r) (2 ^ k - 1) ≡ r
bit_and-low zero q r h = omega (arith, bit_and-zero_within (q * 2 ^ 0 + r) (q * 2 ^ 0 + r))
bit_and-low (suc k) q r h = ground (
  arith,
  bit_and-digit (q * 2 ^ suc k + r) (2 ^ suc k - 1),
  double q k,
  pow-suc 2 k,
  one-le-pow k 2,
  bit_and-low k q (r / 2) (omega (arith, pow-suc 2 k)),
)

-- `a & (2^k - 1)` is a remainder.
pub bit_and-mask : (k a : ℕ) → bit_and a (2 ^ k - 1) ≡ a % 2 ^ k
bit_and-mask k a =
    ground
      (arith, one-le-pow k 2, bit_and-low k (a / 2 ^ k) (a % 2 ^ k) (omega (arith, one-le-pow k 2)))

unfoldable pub all_below : ℕ → (ℕ → Bool) → Bool
all_below zero p = true
all_below (suc n) p = p n && all_below n p

pub of_all_below : (n : ℕ) (p : ℕ → Bool) (x : ℕ) → all_below n p ≡ true → x < n → p x ≡ true
unfolding all_below
of_all_below zero p x h lt = elim lt [ ]
of_all_below (suc n) p x h lt = ground (arith, of_all_below n p x)

-- Two functions that agree below 256 by evaluation agree on every byte.
pub on_bytes :
    (f g : ℕ → ℕ) → all_below 256 (λ x. f x == g x) ≡ true → (x : ℕ) → x < 256 → f x ≡ g x
on_bytes f g table x h = (==_iff (f x) (g x)).0 (of_all_below 256 (λ y. f y == g y) x table h)

abbrev pub same : Bool → Bool → Bool
same true b = b
same false b = not b

of_same : (a b : Bool) → same a b ≡ true → a ≡ b
of_same a b h = ground arith

-- So do two tests.
pub tests_on_bytes :
    (f g : ℕ → Bool) → all_below 256 (λ x. same (f x) (g x)) ≡ true → (x : ℕ) → x < 256 → f x ≡ g x
tests_on_bytes f g table x h =
    of_same (f x) (g x) (of_all_below 256 (λ y. same (f y) (g y)) x table h)
