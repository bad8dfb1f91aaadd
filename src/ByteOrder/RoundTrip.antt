-- ===== src/ByteOrder/RoundTrip.antt =====
-- Encoding and decoding of integers in a fixed byte order are inverse to one another.
use smartmontools.Common.{ℕ, arith, ◌+◌, ◌*◌, ◌/◌, ◌%◌, ◌^◌, ◌<◌, ◌≡◌}
use Prim.Native.Nat.{min}
use smartmontools.ByteOrder.{Uile64}
use smartmontools.ByteOrder.{uile16_to_uint, uile32_to_uint, uile64_to_uint}
use smartmontools.ByteOrder.{uint_to_uile16, uint_to_uile32, uint_to_uile64}
use smartmontools.ByteOrder.{uibe16_to_uint, uibe32_to_uint, uibe64_to_uint}
use smartmontools.ByteOrder.{uint_to_uibe16, uint_to_uibe32, uint_to_uibe64}
use smartmontools.ByteOrder.{uile128_clamp_to_uint64, uint64_hilo_to_uile128, uint64_max}
use smartmontools.ByteOrder.Values.{AreBytes8, sum8}
use smartmontools.ByteOrder.Values.{or_of_2, or_of_4, or_of_8}

-- The eight bytes of the buffer are bytes.
abbrev pub IsUile64 : Uile64 → Type 0
IsUile64 x = AreBytes8 x.b7 x.b6 x.b5 x.b4 x.b3 x.b2 x.b1 x.b0

pub uile64_to_uint-sum :
    (x : Uile64) → IsUile64 x → uile64_to_uint x ≡ sum8 x.b7 x.b6 x.b5 x.b4 x.b3 x.b2 x.b1 x.b0
unfolding uile64_to_uint
uile64_to_uint-sum x h = or_of_8 x.b7 x.b6 x.b5 x.b4 x.b3 x.b2 x.b1 x.b0 h

pub uile64_to_uint-lt : (x : Uile64) → IsUile64 x → uile64_to_uint x < 2 ^ 64
uile64_to_uint-lt x h = omega (arith, uile64_to_uint-sum x h)

pub uint_to_uile64-IsUile64 : (x : ℕ) → IsUile64 (uint_to_uile64 x)
unfolding uint_to_uile64
uint_to_uile64-IsUile64 x = omega arith

pub uile64-uint : (x : ℕ) → x < 2 ^ 64 → uile64_to_uint (uint_to_uile64 x) ≡ x
unfolding uint_to_uile64
uile64-uint x h = omega (arith, uile64_to_uint-sum (uint_to_uile64 x) (uint_to_uile64-IsUile64 x))

pub uint-uile64 : (x : Uile64) → IsUile64 x → uint_to_uile64 (uile64_to_uint x) ≡ x
unfolding uint_to_uile64
uint-uile64 x h = ground (arith, uile64_to_uint-sum x h)

-- Every 16, 32 and 64-bit value survives being stored in little or in big endian order.
pub uint_round_trip :
    (x y z : ℕ)
    → x < 2 ^ 16
    → y < 2 ^ 32
    → z < 2 ^ 64
    → (uile16_to_uint (uint_to_uile16 x) ≡ x)
      × (uibe16_to_uint (uint_to_uibe16 x) ≡ x)
      × (uile32_to_uint (uint_to_uile32 y) ≡ y)
      × (uibe32_to_uint (uint_to_uibe32 y) ≡ y)
      × (uile64_to_uint (uint_to_uile64 z) ≡ z)
      × (uibe64_to_uint (uint_to_uibe64 z) ≡ z)
unfolding uile16_to_uint uint_to_uile16 uibe16_to_uint uint_to_uibe16 uile32_to_uint uint_to_uile32
    uibe32_to_uint uint_to_uibe32 uibe64_to_uint uint_to_uibe64
uint_round_trip x y z hx hy hz = (
  omega (arith, or_of_2 (x / 2 ^ 8 % 256) (x % 256) (omega arith)),
  omega (arith, or_of_2 (x / 2 ^ 8 % 256) (x % 256) (omega arith)),
  omega (arith, bytes_of_uint32 y),
  omega (arith, bytes_of_uint32 y),
  uile64-uint z hz,
  omega (arith, bytes_of_uint64 z),
)
  where
    bytes_of_uint32 : (n : ℕ) → uile32_to_uint (uint_to_uile32 n) ≡ n % 2 ^ 32
    bytes_of_uint32 n =
        rw (or_of_4 (n / 2 ^ 24 % 256) (n / 2 ^ 16 % 256) (n / 2 ^ 8 % 256) (n % 256) (omega arith))
          (omega arith)

    bytes_of_uint64 : (n : ℕ) → uibe64_to_uint (uint_to_uibe64 n) ≡ n % 2 ^ 64
    bytes_of_uint64 n =
        rw
          (or_of_8 (n / 2 ^ 56 % 256) (n / 2 ^ 48 % 256) (n / 2 ^ 40 % 256) (n / 2 ^ 32 % 256)
            (n / 2 ^ 24 % 256) (n / 2 ^ 16 % 256) (n / 2 ^ 8 % 256) (n % 256) (omega arith))
          (omega arith)

-- A 128-bit value is reported as itself below 2 ^ 64, and as the largest uint64_t otherwise.
pub uile128-saturates :
    (hi lo : ℕ)
    → hi < 2 ^ 64
    → lo < 2 ^ 64
    → uile128_clamp_to_uint64 (uint64_hilo_to_uile128 hi lo) ≡ min (hi * 2 ^ 64 + lo) uint64_max
unfolding uile128_clamp_to_uint64 uint64_hilo_to_uile128
uile128-saturates hi lo hh hl = ground (arith, uile64-uint hi hh, uile64-uint lo hl)
