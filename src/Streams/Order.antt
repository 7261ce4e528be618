-- ===== src/Streams/Order.antt =====
-- source/vtypes/vtypes.cpp and the V_BYTESWAP_ macros of source/vtypes/vtypes.h: the order of the bytes
-- of an integer in memory and on the wire. An integer of `w` bytes is its bit pattern, below 256 ^ w.
pub mod Laws
use mathlib.Core.List.{reverse}
use code_vault.Base.{
  ℕ, zero, suc, ◌+◌, ◌-◌, ◌*◌, ◌/◌, ◌%◌, ◌^◌, ◌≤◌, ◌<◌, ◌≡◌, refl, sym, ap, ◌∙◌, Bool, true, false,
  List, [], ◌∷◌, ◌++◌, length, if◌then◌else◌, ltb, ℤ, pos, negsuc, arith,
}

-- Least significant byte first.
unfoldable pub le_bytes : ℕ → ℕ → List ℕ
le_bytes zero n = []
le_bytes (suc w) n = n % 256 ∷ le_bytes w (n / 256)

unfoldable pub of_le_bytes : List ℕ → ℕ
of_le_bytes [] = 0
of_le_bytes (b ∷ bs) = b + 256 * of_le_bytes bs

-- The bytes of an integer in the memory of a little-endian or a big-endian machine.
unfoldable pub in_memory : Bool → ℕ → ℕ → List ℕ
in_memory true w n = le_bytes w n
in_memory false w n = reverse (le_bytes w n)

unfoldable pub of_memory : Bool → List ℕ → ℕ
of_memory true bs = of_le_bytes bs
of_memory false bs = of_le_bytes (reverse bs)

-- VbyteSwap16, VbyteSwap32 and VbyteSwap64 copy the bytes of a value in the opposite order.
unfoldable pub byte_swap : Bool → ℕ → ℕ → ℕ
byte_swap little w n = of_memory little (reverse (in_memory little w n))

-- V_BYTESWAP_HTON_ and V_BYTESWAP_NTOH_: VBYTESWAP_NEEDED is defined on little-endian machines.
unfoldable pub swap_if_needed : Bool → ℕ → ℕ → ℕ
unfolding byte_swap
swap_if_needed little w n = if little then byte_swap little w n else n

-- The two's complement of an integer in `w` bytes, and the integer of a bit pattern.
unfoldable pub pattern_of : ℕ → ℤ → ℕ
pattern_of w (pos n) = n % 256 ^ w
pattern_of w (negsuc n) = 256 ^ w - 1 - n % 256 ^ w

pub signed_of : ℕ → ℕ → ℤ
signed_of w n = if ltb (n + n) (256 ^ w) then pos n else negsuc (256 ^ w - 1 - n)
