-- ===== src/ByteOrder/Tests.antt =====
-- The checks at the end of byteorder.h, and uses of the theorems.
use smartmontools.Common.{refl, arith, ◌≡◌}
use smartmontools.ByteOrder.{byteswap_uint16, byteswap_uint32}
use smartmontools.ByteOrder.{uile16_to_uint, uint_to_uile16, uibe16_to_uint, uint_to_uibe16}
use smartmontools.ByteOrder.{uile32_to_uint, uint_to_uile32, uibe32_to_uint, uint_to_uibe32}
use smartmontools.ByteOrder.{uile64_to_uint, uint_to_uile64, uibe64_to_uint, uint_to_uibe64}
use smartmontools.ByteOrder.RoundTrip.{uint_round_trip}

swap16 : byteswap_uint16 0x1234 ≡ 0x3412
unfolding byteswap_uint16
swap16 = refl

swap32 : byteswap_uint32 0x12345678 ≡ 0x78563412
unfolding byteswap_uint32
swap32 = refl

stored64 : uint_to_uile64 0x123456789abcdef1 ≡ record {
  b0 = 0xf1;
  b1 = 0xde;
  b2 = 0xbc;
  b3 = 0x9a;
  b4 = 0x78;
  b5 = 0x56;
  b6 = 0x34;
  b7 = 0x12;
}
unfolding uint_to_uile64
stored64 = refl

uint_round_trip_example :
    (uile16_to_uint (uint_to_uile16 0x1234) ≡ 0x1234)
    × (uibe16_to_uint (uint_to_uibe16 0x1234) ≡ 0x1234)
    × (uile32_to_uint (uint_to_uile32 0x12345678) ≡ 0x12345678)
    × (uibe32_to_uint (uint_to_uibe32 0x12345678) ≡ 0x12345678)
    × (uile64_to_uint (uint_to_uile64 0x123456789abcdef1) ≡ 0x123456789abcdef1)
    × (uibe64_to_uint (uint_to_uibe64 0x123456789abcdef1) ≡ 0x123456789abcdef1)
uint_round_trip_example =
    uint_round_trip 0x1234 0x12345678 0x123456789abcdef1 (omega arith) (omega arith) (omega arith)
