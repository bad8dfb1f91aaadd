-- ===== src/Common/Bits.antt =====
-- `&`, `|`, `<<` and `>>` at variables: masks of low bits are remainders, and `|` of fields that do
-- not overlap is a sum. All follow from one equation for the lowest binary digit.
use Prim.Native.Nat.{
  ℕ, zero, suc, ◌+◌, ◌-◌, ◌*◌, ◌/◌, ◌%◌, ◌^◌, ◌≤◌, ◌<◌, min, max, bit_and, bit_or, digits,
  bit_and-bitwise, bit_or-bitwise,
}
use mathlib.Core.Path.{◌≡◌, refl, ap}
use native.Mathlib.Nat.{pow-suc, one-le-pow}
use native.Mathlib.Omega.{arith}
use smartmontools.Common.Tests.{◌==◌, flag_set}

infixl 72 ◌<<◌ ◌>>◌
abbrev pub ◌<<◌ : ℕ → ℕ → ℕ
x << k = x * 2 ^ k

abbrev pub ◌>>◌ : ℕ → ℕ → ℕ
x >> k = x / 2 ^ k

abbrev pub u8 : ℕ → ℕ
u8 x = x % 2 ^ 8

abbrev pub u16 : ℕ → ℕ
u16 x = x % 2 ^ 16

abbrev pub u32 : ℕ → ℕ
u32 x = x % 2 ^ 32

abbrev pub u64 : ℕ → ℕ
u64 x = x % 2 ^ 64

-- `digits` goes on at fuel 0 with the unit `z`, so that fuel above the first number is not read.
pub enough_fuel :
    (z : ℕ → ℕ) (f : ℕ → ℕ → ℕ) (n m a b : ℕ) → a ≤ n → a ≤ m → digits z f n a b ≡ digits z f m a b
enough_fuel z f zero zero a b p q = refl
enough_fuel z f zero (suc m) zero b p q = refl
enough_fuel z f zero (suc m) (suc a) b p q = absurd (omega arith)
enough_fuel z f (suc n) zero zero b p q = refl
enough_fuel z f (suc n) zero (suc a) b p q = absurd (omega arith)
enough_fuel z f (suc n) (suc m) zero b p q = refl
enough_fuel z f (suc n) (suc m) (suc a) b p q =
    ap (λ (t : ℕ). t * 2 + f (suc a % 2) (b % 2))
      (enough_fuel z f n m (suc a / 2) (b / 2) (omega arith) (omega arith))

pub bit_and_digit : (a b : ℕ) → bit_and a b ≡ 2 * bit_and (a / 2) (b / 2) + min (a % 2) (b % 2)
bit_and_digit zero b = omega (arith, bit_and-bitwise 0 b, bit_and-bitwise 0 (b / 2))
bit_and_digit (suc a) b = omega (
  arith,
  bit_and-bitwise (suc a) b,
  bit_and-bitwise (suc a / 2) (b / 2),
  enough_fuel (λ y. zero) min a (suc a / 2) (suc a / 2) (b / 2) (omega arith) (omega arith),
)

pub bit_or_digit : (a b : ℕ) → bit_or a b ≡ 2 * bit_or (a / 2) (b / 2) + max (a % 2) (b % 2)
bit_or_digit zero b = omega (arith, bit_or-bitwise 0 b, bit_or-bitwise 0 (b / 2))
bit_or_digit (suc a) b = omega (
  arith,
  bit_or-bitwise (suc a) b,
  bit_or-bitwise (suc a / 2) (b / 2),
  enough_fuel (λ y. y) max a (suc a / 2) (suc a / 2) (b / 2) (omega arith) (omega arith),
)

pub zero-bit_or : (b : ℕ) → bit_or 0 b ≡ b
zero-bit_or b = bit_or-bitwise 0 b

pub zero-bit_and : (b : ℕ) → bit_and 0 b ≡ 0
zero-bit_and b = bit_and-bitwise 0 b

bit_or-zero_below : (n a : ℕ) → a ≤ n → bit_or a 0 ≡ a
bit_or-zero_below n zero h = refl
bit_or-zero_below zero (suc a) h = absurd (omega arith)
bit_or-zero_below (suc n) (suc a) h =
    omega (arith, bit_or_digit (suc a) 0, bit_or-zero_below n (suc a / 2) (omega arith))

pub bit_or-zero : (a : ℕ) → bit_or a 0 ≡ a
bit_or-zero a = bit_or-zero_below a a (omega arith)

bit_and-zero_below : (n a : ℕ) → a ≤ n → bit_and a 0 ≡ 0
bit_and-zero_below n zero h = refl
bit_and-zero_below zero (suc a) h = absurd (omega arith)
bit_and-zero_below (suc n) (suc a) h =
    omega (arith, bit_and_digit (suc a) 0, bit_and-zero_below n (suc a / 2) (omega arith))

pub bit_and-zero : (a : ℕ) → bit_and a 0 ≡ 0
bit_and-zero a = bit_and-zero_below a a (omega arith)

twice_shift : (q k : ℕ) → q << suc k ≡ 2 * (q << k)
twice_shift q k = omega (arith, ap (λ (t : ℕ). q * t) (pow-suc 2 k))

-- The high field is a multiple of 2 ^ k, and the low one fits below it.
pub bit_or_low : (k q r : ℕ) → r < 2 ^ k → bit_or (q << k) r ≡ (q << k) + r
bit_or_low zero q r fits = ground (arith, bit_or-zero q)
bit_or_low (suc k) q r fits = ground (
  arith,
  pow-suc 2 k,
  twice_shift q k,
  bit_or_digit (q << suc k) r,
  bit_or_low k q (r / 2) (omega (arith, pow-suc 2 k)),
)

-- A mask of k ones keeps the low field.
mask_of_fields : (k q r : ℕ) → r < 2 ^ k → bit_and ((q << k) + r) (2 ^ k - 1) ≡ r
mask_of_fields zero q r fits = ground (arith, bit_and-zero (q * 1 + r))
mask_of_fields (suc k) q r fits = ground (
  arith,
  pow-suc 2 k,
  one-le-pow k 2,
  twice_shift q k,
  bit_and_digit ((q << suc k) + r) (2 ^ suc k - 1),
  mask_of_fields k q (r / 2) (omega (arith, pow-suc 2 k)),
)

pub bit_and_low : (k a : ℕ) → bit_and a (2 ^ k - 1) ≡ a % 2 ^ k
bit_and_low k a = ground (arith, one-le-pow k 2, mask_of_fields k (a >> k) (a % 2 ^ k))

-- A mask shifted by k does not see the low field.
shifted_mask_of_fields :
    (k q r m : ℕ) → r < 2 ^ k → bit_and ((q << k) + r) (m << k) ≡ bit_and q m << k
shifted_mask_of_fields zero q r m fits =
    let same : (q << 0) + r ≡ q = omega arith in rw same (ground arith)
shifted_mask_of_fields (suc k) q r m fits = ground (
  arith,
  pow-suc 2 k,
  twice_shift q k,
  twice_shift m k,
  twice_shift (bit_and q m) k,
  bit_and_digit ((q << suc k) + r) (m << suc k),
  shifted_mask_of_fields k q (r / 2) m (omega (arith, pow-suc 2 k)),
)

pub bit_and_shift : (k a m : ℕ) → bit_and a (m << k) ≡ bit_and (a >> k) m << k
bit_and_shift k a m =
    ground (arith, one-le-pow k 2, shifted_mask_of_fields k (a >> k) (a % 2 ^ k) m)

-- `|` of a multiple of 2 ^ k and a number below 2 ^ k, with the multiple as it stands.
pub bit_or_add : (k a r : ℕ) → a % 2 ^ k ≡ 0 → r < 2 ^ k → bit_or a r ≡ a + r
bit_or_add k a r aligned fits =
    let split : a ≡ a >> k << k = grind arith in rw split (bit_or_low k (a >> k) r fits)

-- The binary digit at position k.
abbrev pub bit : ℕ → ℕ → ℕ
bit zero x = x % 2
bit (suc k) x = bit k (x / 2)

pub bit-bit_and : (k a b : ℕ) → bit k (bit_and a b) ≡ min (bit k a) (bit k b)
bit-bit_and zero a b = omega (arith, bit_and_digit a b)
bit-bit_and (suc k) a b =
    let half : bit_and a b / 2 ≡ bit_and (a / 2) (b / 2) = omega (arith, bit_and_digit a b) in
    rw half (bit-bit_and k (a / 2) (b / 2))

pub bit-bit_or : (k a b : ℕ) → bit k (bit_or a b) ≡ max (bit k a) (bit k b)
bit-bit_or zero a b = omega (arith, bit_or_digit a b)
bit-bit_or (suc k) a b =
    let half : bit_or a b / 2 ≡ bit_or (a / 2) (b / 2) = omega (arith, bit_or_digit a b) in
    rw half (bit-bit_or k (a / 2) (b / 2))

pub bit_and_one : (k x : ℕ) → bit_and x (1 << k) ≡ bit k x << k
bit_and_one zero x = omega (arith, bit_and_low 1 x)
bit_and_one (suc k) x =
    let e = bit_and_digit x (1 << suc k) in
    ground (arith, twice_shift 1 k, twice_shift (bit k (x / 2)) k, bit_and_one k (x / 2), e)

pub bit-lt : (k x : ℕ) → bit k x < 2
bit-lt zero x = omega arith
bit-lt (suc k) x = bit-lt k (x / 2)

-- A test of the one bit at position k.
pub flag_set-bit : (k x : ℕ) → flag_set x (1 << k) ≡ (bit k x == 1)
unfolding flag_set
flag_set-bit k x = grind (arith, bit-lt k x, bit_and_one k x, one-le-pow k 2)
