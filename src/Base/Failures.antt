-- ===== src/Base/Failures.antt =====
-- Exceptions as values. `fault` is what C++ leaves undefined: an access through a null or freed
-- pointer, or outside a block.
use mathlib.Core.Path.{◌≡◌, ap}
use mathlib.Core.Bool.{Bool, true, false}

-- VEOFException, VRangeException, VStackTraceException, another VException, std::bad_alloc; and `endless`,
-- which no code throws: a recursion on fuel has run out of it.
pub data Failure : Type 0 where
  eof range_error stack_trace exception bad_alloc fault endless : Failure

pub data Result {ℓ} (A : Type ℓ) : Type ℓ where
  ok : A → Result A
  err : Failure → Result A

infixl 5 ◌>>=◌ ◌>>◌
-- What comes next, unless there has been an exception.
abbrev pub ◌>>=◌ {ℓ κ} : {S : Type ℓ} {T : Type κ} → Result S → (S → Result T) → Result T
err failure >>= next = err failure
ok value >>= next = next value

-- Go on if the test holds, and throw if it does not.
abbrev pub guard : Bool → Failure → Result (Unit {0})
guard false failure = err failure
guard true failure = ok tt

abbrev pub ◌>>◌ {ℓ} : {T : Type ℓ} → Result (Unit {0}) → Result T → Result T
err failure >> next = err failure
ok tt >> next = next

pub ok-injective {ℓ} : {A : Type ℓ} (a b : A) → ok a ≡ ok b → a ≡ b
ok-injective a b e = ap (λ r. elim r [ ok x ↦ x | err f ↦ a ]) e

-- What a sequence that returned went through.
pub bind-eq-ok {ℓ κ} :
    {A : Type ℓ} {B : Type κ} (m : Result A) (f : A → Result B) (b : B)
    → (m >>= f) ≡ ok b
    → (a : A) × (m ≡ ok a) × (f a ≡ ok b)
bind-eq-ok (ok a) f b h = (a, λ i. ok a, h)
bind-eq-ok (err e) f b h = absurd (cc)

pub bind_assoc {ℓ κ μ} :
    {A : Type ℓ} {B : Type κ} {C : Type μ} (m : Result A) (f : A → Result B) (g : B → Result C)
    → ((m >>= f) >>= g) ≡ (m >>= λ a. f a >>= g)
bind_assoc (ok a) f g = λ i. f a >>= g
bind_assoc (err e) f g = λ i. err e
