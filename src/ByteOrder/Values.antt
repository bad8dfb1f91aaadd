-- ===== src/ByteOrder/Values.antt =====
-- The decoders as sums of bytes and powers of 256, which the arithmetic tactics read.
use smartmontools.Common.{ℕ, bit_or, arith, bit_or_add, ◌+◌, ◌*◌, ◌^◌, ◌<◌, ◌≡◌, ◌<<◌}

-- Every byte of the array is a byte.
abbrev pub AreBytes2 : ℕ → ℕ → Type 0
AreBytes2 a b = (a < 256) × (b < 256)

abbrev pub AreBytes4 : ℕ → ℕ → ℕ → ℕ → Type 0
AreBytes4 a b c d = (a < 256) × (b < 256) × (c < 256) × (d < 256)

-- Horner's rule: the value of bytes from the most to the least significant.
abbrev pub sum2 : ℕ → ℕ → ℕ
sum2 a b = a * 256 + b

abbrev pub sum4 : ℕ → ℕ → ℕ → ℕ → ℕ
sum4 a b c d = a * 2 ^ 24 + b * 2 ^ 16 + c * 2 ^ 8 + d

pub or_of_2 : (a b : ℕ) → b < 256 → bit_or (a << 8) b ≡ sum2 a b
or_of_2 a b h = rw (bit_or_add 8 (a << 8) b (omega arith) (omega arith)) (omega arith)

pub or_of_4 :
    (a b c d : ℕ)
    → AreBytes4 a b c d
    → bit_or (bit_or (bit_or (a << 24) (b << 16)) (c << 8)) d ≡ sum4 a b c d
or_of_4 a b c d h =
    rw
      (
        bit_or_add 24 (a << 24) (b << 16) (omega arith) (omega arith),
        bit_or_add 16 (a << 24 + b << 16) (c << 8) (omega arith) (omega arith),
        bit_or_add 8 (a << 24 + b << 16 + c << 8) d (omega arith) (omega arith),
      )
      (omega arith)

abbrev pub AreBytes8 : (a b c d e f g h : ℕ) → Type 0
AreBytes8 a b c d e f g h =
    (a < 256) × (b < 256) × (c < 256) × (d < 256) × (e < 256) × (f < 256) × (g < 256) × (h < 256)

abbrev pub sum8 : (a b c d e f g h : ℕ) → ℕ
sum8 a b c d e f g h = sum4 a b c d * 2 ^ 32 + sum4 e f g h

pub or_of_8 :
    (a b c d e f g h : ℕ)
    → AreBytes8 a b c d e f g h
    → (let w7 = bit_or (a << 56) (b << 48) in
        let w5 = bit_or (bit_or w7 (c << 40)) (d << 32) in
        let w3 = bit_or (bit_or w5 (e << 24)) (f << 16) in bit_or (bit_or w3 (g << 8)) h)
      ≡ sum8 a b c d e f g h
or_of_8 a b c d e f g h p =
    rw
      (
        bit_or_add 56 (a << 56) (b << 48) (omega arith) (omega arith),
        bit_or_add 48 w7 (c << 40) (omega arith) (omega arith),
        bit_or_add 40 (w7 + c << 40) (d << 32) (omega arith) (omega arith),
        bit_or_add 32 w5 (e << 24) (omega arith) (omega arith),
        bit_or_add 24 (w5 + e << 24) (f << 16) (omega arith) (omega arith),
        bit_or_add 16 w3 (g << 8) (omega arith) (omega arith),
        bit_or_add 8 (w3 + g << 8) h (omega arith) (omega arith),
      )
      (omega arith)
  where
    w7 : ℕ
    w7 = a << 56 + b << 48

    w5 : ℕ
    w5 = w7 + c << 40 + d << 32

    w3 : ℕ
    w3 = w5 + e << 24 + f << 16
