-- ===== src/Common/BitXor.antt =====
-- `^` at variables: it is its own inverse, and it stays below a power of two.
use Prim.Native.Nat.{ℕ, zero, suc, ◌+◌, ◌*◌, ◌/◌, ◌%◌, ◌^◌, ◌≤◌, ◌<◌}
use Prim.Native.Nat.{bit_xor, differ, bit_xor-bitwise}
use mathlib.Core.Path.{◌≡◌, refl}
use native.Mathlib.Nat.{pow-suc}
use native.Mathlib.Omega.{arith}
use smartmontools.Common.Bits.{enough_fuel}

differ-mod : (x y : ℕ) → x < 2 → y < 2 → differ x y ≡ (x + y) % 2
differ-mod zero zero hx hy = refl
differ-mod zero (suc zero) hx hy = refl
differ-mod (suc zero) zero hx hy = refl
differ-mod (suc zero) (suc zero) hx hy = refl
differ-mod zero (suc (suc y)) hx hy = absurd (omega arith)
differ-mod (suc zero) (suc (suc y)) hx hy = absurd (omega arith)
differ-mod (suc (suc x)) y hx hy = absurd (omega arith)

pub bit_xor_digit : (a b : ℕ) → bit_xor a b ≡ 2 * bit_xor (a / 2) (b / 2) + (a + b) % 2
bit_xor_digit zero b = omega (arith, bit_xor-bitwise 0 b, bit_xor-bitwise 0 (b / 2))
bit_xor_digit (suc a) b = omega (
  arith,
  bit_xor-bitwise (suc a) b,
  bit_xor-bitwise (suc a / 2) (b / 2),
  enough_fuel (λ y. y) differ a (suc a / 2) (suc a / 2) (b / 2) (omega arith) (omega arith),
  differ-mod (suc a % 2) (b % 2) (omega arith) (omega arith),
)

bit_xor-cancel_below : (n a b : ℕ) → a ≤ n → b ≤ n → bit_xor (bit_xor a b) b ≡ a
bit_xor-cancel_below zero zero zero p q = refl
bit_xor-cancel_below zero zero (suc b) p q = absurd (omega arith)
bit_xor-cancel_below zero (suc a) b p q = absurd (omega arith)
bit_xor-cancel_below (suc n) a b p q =
    let d = bit_xor_digit a b in
    let half : bit_xor a b / 2 ≡ bit_xor (a / 2) (b / 2) = omega (arith, d) in
    ground (
      arith,
      d,
      half,
      bit_xor_digit (bit_xor a b) b,
      bit_xor-cancel_below n (a / 2) (b / 2) (omega arith) (omega arith),
    )

-- `^` with the same value twice gives the first value back.
pub bit_xor-cancel : (a b : ℕ) → bit_xor (bit_xor a b) b ≡ a
bit_xor-cancel a b = bit_xor-cancel_below (a + b) a b (omega arith) (omega arith)

pub bit_xor-lt : (k a b : ℕ) → a < 2 ^ k → b < 2 ^ k → bit_xor a b < 2 ^ k
bit_xor-lt zero a b p q =
    let za : a ≡ 0 = omega arith in
    let zb : b ≡ 0 = omega arith in rw za (rw zb (omega (arith, bit_xor-bitwise 0 0)))
bit_xor-lt (suc k) a b p q = ground (
  arith,
  pow-suc 2 k,
  bit_xor_digit a b,
  bit_xor-lt k (a / 2) (b / 2) (omega (arith, pow-suc 2 k)) (omega (arith, pow-suc 2 k)),
)
