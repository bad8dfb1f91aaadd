-- ===== src/ByteOrder.antt =====
-- include/smartmon/byteorder.h: integers in a fixed byte order, and byte swaps.
-- A `uint8_t b[n]` is a record of its n bytes. A shift of a byte, or of a masked byte, fits the
-- width of its type, so only the casts and the conversions of a result cut bits off.
pub mod Values
pub mod RoundTrip
pub mod Swap
mod Tests
use smartmontools.Common.{ℕ, bit_and, bit_or, List, [], u8, u16, ◌-◌, ◌^◌, ◌∷◌, ◌==◌, ◌<<◌}
use smartmontools.Common.{◌>>◌, if◌then◌else◌}

unfoldable pub byteswap_uint16 : ℕ → ℕ
byteswap_uint16 x = u16 (bit_or (x << 8) (x >> 8))

unfoldable pub byteswap_uint32 : ℕ → ℕ
byteswap_uint32 x =
    bit_or
      (bit_or (bit_or (bit_and x 0x000000ff << 24) (bit_and x 0x0000ff00 << 8))
        (bit_and x 0x00ff0000 >> 8))
      (bit_and x 0xff000000 >> 24)

pub record Uile16 : Type 0 where
  pub b0 : ℕ
  pub b1 : ℕ

pub record Uile32 : Type 0 where
  pub b0 : ℕ
  pub b1 : ℕ
  pub b2 : ℕ
  pub b3 : ℕ

pub record Uile64 : Type 0 where
  pub b0 : ℕ
  pub b1 : ℕ
  pub b2 : ℕ
  pub b3 : ℕ
  pub b4 : ℕ
  pub b5 : ℕ
  pub b6 : ℕ
  pub b7 : ℕ

pub record Uile128 : Type 0 where
  pub lo : Uile64
  pub hi : Uile64

pub record Uibe16 : Type 0 where
  pub b0 : ℕ
  pub b1 : ℕ

pub record Uibe32 : Type 0 where
  pub b0 : ℕ
  pub b1 : ℕ
  pub b2 : ℕ
  pub b3 : ℕ

pub record Uibe64 : Type 0 where
  pub b0 : ℕ
  pub b1 : ℕ
  pub b2 : ℕ
  pub b3 : ℕ
  pub b4 : ℕ
  pub b5 : ℕ
  pub b6 : ℕ
  pub b7 : ℕ

unfoldable pub uile16_to_uint : Uile16 → ℕ
uile16_to_uint x = bit_or (x.b1 << 8) x.b0

unfoldable pub uile32_to_uint : Uile32 → ℕ
uile32_to_uint x = bit_or (bit_or (bit_or (x.b3 << 24) (x.b2 << 16)) (x.b1 << 8)) x.b0

unfoldable pub uile64_to_uint : Uile64 → ℕ
uile64_to_uint x =
    let w7 = bit_or (x.b7 << 56) (x.b6 << 48) in
    let w5 = bit_or (bit_or w7 (x.b5 << 40)) (x.b4 << 32) in
    let w3 = bit_or (bit_or w5 (x.b3 << 24)) (x.b2 << 16) in bit_or (bit_or w3 (x.b1 << 8)) x.b0

-- ~(uint64_t)0
abbrev pub uint64_max : ℕ
uint64_max = 2 ^ 64 - 1

unfoldable pub uile128_clamp_to_uint64 : Uile128 → ℕ
unfolding uile64_to_uint
uile128_clamp_to_uint64 x = if uile64_to_uint x.hi == 0 then uile64_to_uint x.lo else uint64_max

unfoldable pub uint_to_uile16 : ℕ → Uile16
uint_to_uile16 x = record { b0 = u8 x; b1 = u8 (x >> 8) }

unfoldable pub uint_to_uile32 : ℕ → Uile32
uint_to_uile32 x = record { b0 = u8 x; b1 = u8 (x >> 8); b2 = u8 (x >> 16); b3 = u8 (x >> 24) }

unfoldable pub uint_to_uile64 : ℕ → Uile64
uint_to_uile64 x = record {
  b0 = u8 x;
  b1 = u8 (x >> 8);
  b2 = u8 (x >> 16);
  b3 = u8 (x >> 24);
  b4 = u8 (x >> 32);
  b5 = u8 (x >> 40);
  b6 = u8 (x >> 48);
  b7 = u8 (x >> 56);
}

-- The initializer `{}` of a uile64_t.
abbrev pub zero_uile64 : Uile64
zero_uile64 = record { b0 = 0; b1 = 0; b2 = 0; b3 = 0; b4 = 0; b5 = 0; b6 = 0; b7 = 0 }

unfoldable pub uint64_to_uile128 : ℕ → Uile128
unfolding uint_to_uile64
uint64_to_uile128 x = record { lo = uint_to_uile64 x; hi = zero_uile64 }

unfoldable pub uint64_hilo_to_uile128 : ℕ → ℕ → Uile128
unfolding uint_to_uile64
uint64_hilo_to_uile128 hi lo = record { lo = uint_to_uile64 lo; hi = uint_to_uile64 hi }

unfoldable pub uibe16_to_uint : Uibe16 → ℕ
uibe16_to_uint x = bit_or (x.b0 << 8) x.b1

unfoldable pub uibe32_to_uint : Uibe32 → ℕ
uibe32_to_uint x = bit_or (bit_or (bit_or (x.b0 << 24) (x.b1 << 16)) (x.b2 << 8)) x.b3

unfoldable pub uibe64_to_uint : Uibe64 → ℕ
uibe64_to_uint x =
    let w7 = bit_or (x.b0 << 56) (x.b1 << 48) in
    let w5 = bit_or (bit_or w7 (x.b2 << 40)) (x.b3 << 32) in
    let w3 = bit_or (bit_or w5 (x.b4 << 24)) (x.b5 << 16) in bit_or (bit_or w3 (x.b6 << 8)) x.b7

unfoldable pub uint_to_uibe16 : ℕ → Uibe16
uint_to_uibe16 x = record { b0 = u8 (x >> 8); b1 = u8 x }

unfoldable pub uint_to_uibe32 : ℕ → Uibe32
uint_to_uibe32 x = record { b0 = u8 (x >> 24); b1 = u8 (x >> 16); b2 = u8 (x >> 8); b3 = u8 x }

unfoldable pub uint_to_uibe64 : ℕ → Uibe64
uint_to_uibe64 x = record {
  b0 = u8 (x >> 56);
  b1 = u8 (x >> 48);
  b2 = u8 (x >> 40);
  b3 = u8 (x >> 32);
  b4 = u8 (x >> 24);
  b5 = u8 (x >> 16);
  b6 = u8 (x >> 8);
  b7 = u8 x;
}

-- The loop swaps the bytes at i and i + 1 for i = 0, 2, 4, ... while i + 1 < size.
unfoldable pub byteswap_array_16_inplace : List ℕ → List ℕ
byteswap_array_16_inplace [] = []
byteswap_array_16_inplace (a ∷ []) = a ∷ []
byteswap_array_16_inplace (a ∷ b ∷ rest) = b ∷ a ∷ byteswap_array_16_inplace rest
