-- ===== src/Streams/Memory/Growth.antt =====
-- The size that _prepareToWrite of source/streams/vmemorystream.cpp chooses for a larger buffer.
use code_vault.Base.{
  ℕ, zero, suc, ◌+◌, ◌-◌, ◌*◌, ◌%◌, ◌≤◌, ◌<◌, ◌≡◌, sym, ap, ◌∙◌, ◌⊎◌, inl, ◌==◌, if◌then◌else◌,
  arith,
}
use native.Mathlib.Nat.{mod-add-mod, mod-lt, mod_self}
use code_vault.Streams.Memory.{double_until, new_buffer_size}

-- The doubling ends by its own test: the fuel is enough.
double_until_reaches :
    (fuel required size : ℕ)
    → 0 < size
    → required ≤ size + fuel
    → required ≤ double_until fuel required size
unfolding double_until
double_until_reaches zero required size h k = omega arith
double_until_reaches (suc fuel) required size h k =
    ground (arith, double_until_reaches fuel required (2 * size))

double_until_bounded :
    (fuel required size : ℕ)
    → (double_until fuel required size ≤ 2 * size)
      ⊎ (double_until fuel required size < 2 * required)
unfolding double_until
double_until_bounded zero required size = inl (omega arith)
double_until_bounded (suc fuel) required size =
    ground (arith, double_until_bounded fuel required (2 * size))

rounded_up : (n m : ℕ) → 0 < m → (n + (m - n % m)) % m ≡ 0
rounded_up n m h =
    sym (mod-add-mod n m (m - n % m))
    ∙ ap (λ (t : ℕ). t % m) (omega (arith, mod-lt n h))
    ∙ mod_self m

pub new_buffer_size_reaches :
    (increment size required : ℕ)
    → size < required
    → required ≤ new_buffer_size increment size required
unfolding new_buffer_size
new_buffer_size_reaches increment size required h =
    ground (arith, double_until_reaches required required (if size == 0 then 1024 else size))

-- With kIncrement2x a buffer that is too small is replaced by one that holds what is required and is
-- less than twice that size, or has at most 2048 bytes where the buffer had none.
pub new_buffer_size-double :
    (size required : ℕ)
    → size < required
    → (required ≤ new_buffer_size 0 size required)
      × ((new_buffer_size 0 size required < 2 * required)
          ⊎ ((size ≡ 0) × (new_buffer_size 0 size required ≤ 2048)))
unfolding new_buffer_size
new_buffer_size-double size required h = (
  ground (arith, double_until_reaches required required (if size == 0 then 1024 else size)),
  ground (arith, double_until_bounded required required (if size == 0 then 1024 else size)),
)

-- With a resize increment the new buffer holds what is required, is a whole number of increments, and
-- exceeds what is required by less than one increment.
new_buffer_size-increment :
    (increment size required : ℕ)
    → 0 < increment
    → (required ≤ new_buffer_size increment size required)
      × (new_buffer_size increment size required % increment ≡ 0)
      × (new_buffer_size increment size required < required + increment)
unfolding new_buffer_size
new_buffer_size-increment increment size required h = (
  ground arith,
  ground (arith, rounded_up required increment h),
  ground (arith, mod-lt required h),
)
