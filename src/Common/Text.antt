-- ===== src/Common/Text.antt =====
-- Texts as lists of character codes, and the decimal numbers of the C library: printf's `%u`,
-- strtoull and atoi.
use Prim.Native.Nat.{ℕ, zero, suc, ◌+◌, ◌*◌, ◌-◌, ◌/◌, ◌%◌, ◌^◌, ◌<◌, min}
use Prim.Native.Char.{code}
use Prim.Native.String.{String}
use mathlib.Core.Path.{◌≡◌, refl}
use mathlib.Core.Bool.{Bool, false, ◌&&◌}
use mathlib.Core.List.{List, [], ◌∷◌, ◌++◌}
use native.Mathlib.Nat.{pow-suc}
use native.Mathlib.Omega.{arith}
use smartmontools.Common.Tests.{leb, ◌==◌, if◌then◌else◌, if-both, if-each, eq_of_==}
use smartmontools.Common.Lists.{length, drop}

abbrev pub codes : String → List ℕ
codes String.[] = []
codes (String.◌∷◌ c s) = code c ∷ codes s

-- The digits of a number of at most `k` digits, before the codes that are there already.
unfoldable pub decimal_digits : ℕ → ℕ → List ℕ → List ℕ
decimal_digits zero n acc = acc
decimal_digits (suc k) n acc =
    let digits = (48 + n % 10) ∷ acc in
    let rest = decimal_digits k (n / 10) digits in if n / 10 == 0 then digits else rest

-- "%d" of a number that is not negative, and PRIu64: a uint64_t has at most 20 digits.
unfoldable pub decimal : ℕ → List ℕ
unfolding decimal_digits
decimal n = decimal_digits 20 n []

unfoldable pub is_digit : ℕ → Bool
is_digit c = leb 48 c && leb c 57

-- The value of the digits at the start of a text.
unfoldable pub digits_value : List ℕ → ℕ → ℕ
unfolding is_digit
digits_value [] acc = acc
digits_value (c ∷ cs) acc =
    let rest = digits_value cs (acc * 10 + (c - 48)) in if is_digit c then rest else acc

-- strtoull with base 10 on a text that starts with a digit: the largest value where it overflows.
unfoldable pub strtoull : List ℕ → ℕ
unfolding digits_value
strtoull text = min (digits_value text 0) (2 ^ 64 - 1)

-- atoi on such a text, as the bits of the int: strtol, which stops at the largest long, cut to 32 bits.
unfoldable pub atoi : List ℕ → ℕ
unfolding digits_value
atoi text = min (digits_value text 0) (2 ^ 63 - 1) % 2 ^ 32

digits_value_digit :
    (d : ℕ) (cs : List ℕ) (acc : ℕ)
    → d < 10
    → digits_value ((48 + d) ∷ cs) acc ≡ digits_value cs (acc * 10 + d)
unfolding digits_value is_digit
digits_value_digit d cs acc small =
    let e : 48 + d - 48 ≡ d = omega arith in rw e (ground (arith, small))

digits_value-last :
    (n : ℕ) (acc : List ℕ) → n / 10 ≡ 0 → digits_value ((48 + n % 10) ∷ acc) 0 ≡ digits_value acc n
digits_value-last n acc e =
    let whole : 0 * 10 + n % 10 ≡ n = omega (arith, e) in
    rw (digits_value_digit (n % 10) acc 0 (omega arith)) (rw whole refl)

digits_value-digits :
    (k n : ℕ) (acc : List ℕ)
    → n < 10 ^ suc k
    → digits_value (decimal_digits (suc k) n acc) 0 ≡ digits_value acc n
unfolding decimal_digits
digits_value-digits zero n acc small =
    let e : n / 10 ≡ 0 = omega arith in
    if-both (λ (ds : List ℕ). digits_value ds 0 ≡ digits_value acc n) (n / 10 == 0)
      (digits_value-last n acc e) (digits_value-last n acc e)
digits_value-digits (suc k) n acc small =
    let whole : n / 10 * 10 + n % 10 ≡ n = omega arith in
    if-each (λ (ds : List ℕ). digits_value ds 0 ≡ digits_value acc n) (n / 10 == 0)
      (λ t. digits_value-last n acc (eq_of_== (n / 10) 0 t))
      (λ f.
        rw
          (digits_value-digits k (n / 10) ((48 + n % 10) ∷ acc)
            (omega (arith, small, pow-suc 10 (suc k))))
          (rw (digits_value_digit (n % 10) acc (n / 10) (omega arith)) (rw whole refl)))

stops : (c : ℕ) (rest : List ℕ) (n : ℕ) → is_digit c ≡ false → digits_value (c ∷ rest) n ≡ n
unfolding digits_value
stops c rest n e = rw e refl

-- The number that is printed before a code that is no digit is read back.
pub strtoull-decimal :
    (n c : ℕ) (rest : List ℕ)
    → n < 2 ^ 64
    → is_digit c ≡ false
    → strtoull (decimal_digits 20 n (c ∷ rest)) ≡ n
unfolding strtoull
strtoull-decimal n c rest small e =
    rw (digits_value-digits 19 n (c ∷ rest) (omega (arith, small)))
      (rw (stops c rest n e) (omega arith))

pub atoi-decimal :
    (n c : ℕ) (rest : List ℕ)
    → n < 2 ^ 31
    → is_digit c ≡ false
    → atoi (decimal_digits 20 n (c ∷ rest)) ≡ n
unfolding atoi
atoi-decimal n c rest small e =
    rw (digits_value-digits 19 n (c ∷ rest) (omega (arith, small)))
      (rw (stops c rest n e) (omega arith))

digits-append :
    (k n : ℕ) (acc rest : List ℕ)
    → decimal_digits k n acc ++ rest ≡ decimal_digits k n (acc ++ rest)
unfolding decimal_digits
digits-append zero n acc rest = refl
digits-append (suc k) n acc rest =
    ground (arith, digits-append k (n / 10) ((48 + n % 10) ∷ acc) rest)

pub decimal-append : (n : ℕ) (rest : List ℕ) → decimal n ++ rest ≡ decimal_digits 20 n rest
unfolding decimal
decimal-append n rest = digits-append 20 n [] rest

pub drop-append : (xs ys : List ℕ) → drop (length xs) (xs ++ ys) ≡ ys
drop-append [] ys = refl
drop-append (x ∷ xs) ys = drop-append xs ys
