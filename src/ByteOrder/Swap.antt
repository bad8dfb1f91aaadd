-- ===== src/ByteOrder/Swap.antt =====
-- Byte swaps: each is its own inverse, and turns one byte order into the other.
use smartmontools.Common.{ℕ, refl, ap, List, [], arith, bit_and_low, bit_and_shift}
use smartmontools.Common.{bit_or_add, ◌+◌, ◌/◌, ◌%◌, ◌^◌, ◌<◌, ◌≡◌, ◌∷◌, ◌<<◌, ◌>>◌}
use smartmontools.ByteOrder.{byteswap_uint16, byteswap_uint32, byteswap_array_16_inplace}
use smartmontools.ByteOrder.{uile32_to_uint, uibe32_to_uint}
use smartmontools.ByteOrder.Values.{AreBytes4, sum2, sum4, or_of_4}

swap16_bytes : (x : ℕ) → x < 2 ^ 16 → byteswap_uint16 x ≡ sum2 (x % 256) (x / 256)
unfolding byteswap_uint16
swap16_bytes x h = rw (bit_or_add 8 (x << 8) (x >> 8) (omega arith) (omega arith)) (omega arith)

-- The four masked and shifted parts are the bytes in reverse order.
pub swap32_bytes :
    (x : ℕ)
    → x < 2 ^ 32
    → byteswap_uint32 x ≡ sum4 (x % 256) (x / 256 % 256) (x / 2 ^ 16 % 256) (x / 2 ^ 24)
unfolding byteswap_uint32
swap32_bytes x h =
    rw
      (
        bit_and_low 8 x,
        bit_and_shift 8 x 255,
        bit_and_low 8 (x >> 8),
        bit_and_shift 16 x 255,
        bit_and_low 8 (x >> 16),
        bit_and_shift 24 x 255,
        bit_and_low 8 (x >> 24),
        bit_or_add 24 top second (omega arith) (omega arith),
        bit_or_add 16 (top + second) third (omega arith) (omega arith),
        bit_or_add 8 (top + second + third) last (omega arith) (omega arith),
      )
      (omega arith)
  where
    top : ℕ
    top = (x % 2 ^ 8) << 24

    second : ℕ
    second = ((x >> 8) % 2 ^ 8) << 8 << 8

    third : ℕ
    third = (((x >> 16) % 2 ^ 8) << 16) >> 8

    last : ℕ
    last = (((x >> 24) % 2 ^ 8) << 24) >> 24

-- Swapping the bytes of a 16 or 32-bit value twice gives the value back.
pub byteswap_twice :
    (x y : ℕ)
    → x < 2 ^ 16
    → y < 2 ^ 32
    → (byteswap_uint16 (byteswap_uint16 x) ≡ x) × (byteswap_uint32 (byteswap_uint32 y) ≡ y)
byteswap_twice x y hx hy = (
  omega (
    arith,
    swap16_bytes x hx,
    swap16_bytes (byteswap_uint16 x) (omega (arith, swap16_bytes x hx)),
  ),
  omega (
    arith,
    swap32_bytes y hy,
    swap32_bytes (byteswap_uint32 y) (omega (arith, swap32_bytes y hy)),
  ),
)

-- Reading bytes in big endian order is reading them in little endian order and swapping.
pub uibe32-byteswap_uile32 :
    (a b c d : ℕ)
    → AreBytes4 a b c d
    → uibe32_to_uint (record { b0 = a; b1 = b; b2 = c; b3 = d })
      ≡ byteswap_uint32 (uile32_to_uint (record { b0 = a; b1 = b; b2 = c; b3 = d }))
unfolding uibe32_to_uint uile32_to_uint
uibe32-byteswap_uile32 a b c d h =
    rw (or_of_4 a b c d h, or_of_4 d c b a (omega arith))
      (omega (arith, swap32_bytes (sum4 d c b a) (omega arith)))

-- Swapping the adjacent bytes of a buffer twice gives the buffer back, also at an odd length.
pub byteswap_array_16-twice :
    (xs : List ℕ) → byteswap_array_16_inplace (byteswap_array_16_inplace xs) ≡ xs
unfolding byteswap_array_16_inplace
byteswap_array_16-twice [] = refl
byteswap_array_16-twice (a ∷ []) = refl
byteswap_array_16-twice (a ∷ b ∷ rest) = ap (λ t. a ∷ b ∷ t) (byteswap_array_16-twice rest)
