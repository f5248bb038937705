-- ===== src/Prelude/Bits.antt =====
-- Laws of the bit operations that the drivers use on variables: a mask of low ones is a remainder,
-- and a single flag is read, set and cleared digit by digit.
use Prim.Native.Nat.{
  ℕ, zero, suc, ◌+◌, ◌-◌, ◌*◌, ◌/◌, ◌%◌, ◌^◌, ◌≤◌, ◌<◌, min, max, bit_and, bit_or, digits,
  bit_and-bitwise, bit_or-bitwise,
}
use mathlib.Core.Logic.{◌≢◌}
use mathlib.Core.Path.{◌≡◌, refl, sym, ap, ◌∙◌}
use native.Mathlib.Omega.{arith}
use native.Mathlib.Nat.{pow-suc, div-div-eq-div-mul}

-- What holds for every operation that works digit by digit: `rest` is what it makes of the second
-- operand when the first is used up, `op` what it makes of two digits.
module _ (rest : ℕ → ℕ) (op : ℕ → ℕ → ℕ) where
  one_more_round : (n a b : ℕ) → a ≤ n → digits rest op (suc n) a b ≡ digits rest op n a b
  one_more_round zero zero b h = refl
  one_more_round (suc n) zero b h = refl
  one_more_round zero (suc a) b h = absurd (omega arith)
  one_more_round (suc n) (suc a) b h =
      ap (λ d. d * 2 + op (suc a % 2) (b % 2)) (one_more_round n (suc a / 2) (b / 2) (omega arith))

  more_rounds : (k n a b : ℕ) → a ≤ n → digits rest op (k + n) a b ≡ digits rest op n a b
  more_rounds zero n a b h = ap (λ m. digits rest op m a b) (omega arith)
  more_rounds (suc k) n a b h =
      ap (λ m. digits rest op m a b) {y = suc (k + n)} (omega arith)
      ∙ one_more_round (k + n) a b (omega arith)
      ∙ more_rounds k n a b h

  module _ (f : ℕ → ℕ → ℕ) (bitwise : (a b : ℕ) → f a b ≡ digits rest op a a b)
      (rest_digit : (b : ℕ) → rest b ≡ rest (b / 2) * 2 + op 0 (b % 2)) where
    lowest_digit : (a b : ℕ) → f a b ≡ f (a / 2) (b / 2) * 2 + op (a % 2) (b % 2)
    lowest_digit zero b =
        bitwise 0 b ∙ rest_digit b ∙ ap (λ d. d * 2 + op 0 (b % 2)) (sym (bitwise 0 (b / 2)))
    lowest_digit (suc a) b =
        bitwise (suc a) b
        ∙ ap (λ d. d * 2 + op (suc a % 2) (b % 2)) (half ∙ sym (bitwise (suc a / 2) (b / 2)))
      where
        half : digits rest op a (suc a / 2) (b / 2) ≡ digits rest op (suc a / 2) (suc a / 2) (b / 2)
        half =
            ap (λ m. digits rest op m (suc a / 2) (b / 2)) {y = a - suc a / 2 + suc a / 2}
              (omega arith)
            ∙ more_rounds (a - suc a / 2) (suc a / 2) (suc a / 2) (b / 2) (omega arith)

    -- The operation with 0 on the right is a function whose digits are those of the operation.
    zero_right :
        (g : ℕ → ℕ)
        → f 0 0 ≡ g 0
        → ((a : ℕ) → g a ≡ g (a / 2) * 2 + op (a % 2) 0)
        → (n a : ℕ) → a ≤ n
        → f a 0 ≡ g a
    zero_right g base digit n zero h = base
    zero_right g base digit zero (suc a) h = absurd (omega arith)
    zero_right g base digit (suc n) (suc a) h =
        lowest_digit (suc a) 0
        ∙ ap (λ d. d * 2 + op (suc a % 2) 0) (zero_right g base digit n (suc a / 2) (omega arith))
        ∙ sym (digit (suc a))

pub bit_and_step : (a b : ℕ) → bit_and a b ≡ bit_and (a / 2) (b / 2) * 2 + min (a % 2) (b % 2)
bit_and_step = lowest_digit (λ b. 0) min bit_and bit_and-bitwise (λ b. omega arith)

zero-bit_and : (b : ℕ) → bit_and 0 b ≡ 0
zero-bit_and = bit_and-bitwise 0

zero-bit_or : (b : ℕ) → bit_or 0 b ≡ b
zero-bit_or = bit_or-bitwise 0

pub bit_or_step : (a b : ℕ) → bit_or a b ≡ bit_or (a / 2) (b / 2) * 2 + max (a % 2) (b % 2)
bit_or_step = lowest_digit (λ b. b) max bit_or bit_or-bitwise (λ b. omega arith)

pub bit_and-zero : (a : ℕ) → bit_and a 0 ≡ 0
bit_and-zero a =
    zero_right (λ b. 0) min bit_and bit_and-bitwise (λ b. omega arith) (λ x. 0) refl
      (λ x. omega arith) a a (omega arith)

pub bit_or-zero : (a : ℕ) → bit_or a 0 ≡ a
bit_or-zero a =
    zero_right (λ b. b) max bit_or bit_or-bitwise (λ b. omega arith) (λ x. x) refl
      (λ x. omega arith) a a (omega arith)

pub pow-pos : (k : ℕ) → 0 < 2 ^ k
pow-pos zero = omega arith
pow-pos (suc k) = omega (arith, pow-pos k, pow-suc 2 k)

-- `x & ~f`: the bits that `x` shares with `f` are taken away, without a borrow.
abbrev pub bit_clear : ℕ → ℕ → ℕ
bit_clear x f = x - bit_and x f

double-pow : (k : ℕ) → 2 ^ suc k ≡ 2 * 2 ^ k
double-pow k = omega (arith, pow-suc 2 k)

mul-double-pow : (q k : ℕ) → q * 2 ^ suc k ≡ 2 * (q * 2 ^ k)
mul-double-pow q k = omega (arith, ap (λ (t : ℕ). q * t) (double-pow k))

low_field : (k q r : ℕ) → r < 2 ^ k → bit_and (q * 2 ^ k + r) (2 ^ k - 1) ≡ r
low_field zero q r h = omega (arith, bit_and-zero (q * 2 ^ zero + r))
low_field (suc k) q r h = ground (
  arith,
  bit_and_step (q * 2 ^ suc k + r) (2 ^ suc k - 1),
  mul-double-pow q k,
  double-pow k,
  pow-pos k,
  low_field k q (r / 2) (omega (arith, double-pow k)),
)

-- A mask of `k` low ones is the remainder by `2 ^ k`.
pub bit_and_low : (k a : ℕ) → bit_and a (2 ^ k - 1) ≡ a % 2 ^ k
bit_and_low k a = ground (arith, pow-pos k, low_field k (a / 2 ^ k) (a % 2 ^ k))

-- A flag that `a` lacks may be set in the mask of `a`, or cleared in it.
pub bit_and-set_flag :
    (k a m : ℕ) → bit_and a (2 ^ k) ≡ 0 → bit_and a (bit_or m (2 ^ k)) ≡ bit_and a m
bit_and-set_flag zero a m h = ground (
  arith,
  bit_and_step a 1,
  bit_or_step m 1,
  bit_or-zero (m / 2),
  bit_and_step a (bit_or m 1),
  bit_and_step a m,
)
bit_and-set_flag (suc k) a m h = ground (
  arith,
  double-pow k,
  bit_and_step a (2 ^ suc k),
  bit_or_step m (2 ^ suc k),
  bit_and_step a (bit_or m (2 ^ suc k)),
  bit_and_step a m,
  bit_and-set_flag k (a / 2) (m / 2),
)

bit_and-le_below : (n a b : ℕ) → a ≤ n → bit_and a b ≤ a
bit_and-le_below n zero b h = omega (arith, zero-bit_and b)
bit_and-le_below zero (suc a) b h = absurd (omega arith)
bit_and-le_below (suc n) (suc a) b h =
    omega (arith, bit_and_step (suc a) b, bit_and-le_below n (suc a / 2) (b / 2) (omega arith))

pub bit_and-le : (a b : ℕ) → bit_and a b ≤ a
bit_and-le a b = bit_and-le_below a a b (omega arith)

pub bit_and-clear_flag :
    (k a m : ℕ) → bit_and a (2 ^ k) ≡ 0 → bit_and a (bit_clear m (2 ^ k)) ≡ bit_and a m
bit_and-clear_flag zero a m h = ground (
  arith,
  bit_and_step a 1,
  bit_and_step m 1,
  bit_and-zero (m / 2),
  bit_and_step a (m - bit_and m 1),
  bit_and_step a m,
)
bit_and-clear_flag (suc k) a m h = ground (
  arith,
  double-pow k,
  bit_and_step a (2 ^ suc k),
  bit_and_step m (2 ^ suc k),
  bit_and-le (m / 2) (2 ^ k),
  bit_and_step a (m - bit_and m (2 ^ suc k)),
  bit_and_step a m,
  bit_and-clear_flag k (a / 2) (m / 2),
)

-- A flag that was set is there, and one that was cleared is not.
pub set_flag-there : (k m : ℕ) → bit_and (bit_or m (2 ^ k)) (2 ^ k) ≢ 0
set_flag-there zero m = ground (arith, bit_or_step m 1, bit_and_step (bit_or m 1) 1)
set_flag-there (suc k) m = ground (
  arith,
  double-pow k,
  bit_or_step m (2 ^ suc k),
  bit_and_step (bit_or m (2 ^ suc k)) (2 ^ suc k),
  set_flag-there k (m / 2),
)

pub clear_flag-gone : (k m : ℕ) → bit_and (bit_clear m (2 ^ k)) (2 ^ k) ≡ 0
clear_flag-gone zero m = ground (
  arith,
  bit_and_step m 1,
  bit_and-zero (m / 2),
  bit_and_step (m - bit_and m 1) 1,
  bit_and-zero ((m - bit_and m 1) / 2),
)
clear_flag-gone (suc k) m = ground (
  arith,
  double-pow k,
  bit_and_step m (2 ^ suc k),
  bit_and-le (m / 2) (2 ^ k),
  bit_and_step (m - bit_and m (2 ^ suc k)) (2 ^ suc k),
  clear_flag-gone k (m / 2),
)

bit_or-le_below : (n a b : ℕ) → a ≤ n → bit_or a b ≤ a + b
bit_or-le_below n zero b h = omega (arith, zero-bit_or b)
bit_or-le_below zero (suc a) b h = absurd (omega arith)
bit_or-le_below (suc n) (suc a) b h =
    omega (arith, bit_or_step (suc a) b, bit_or-le_below n (suc a / 2) (b / 2) (omega arith))

-- A carry is lost, so that the result is at most the sum.
pub bit_or-le : (a b : ℕ) → bit_or a b ≤ a + b
bit_or-le a b = bit_or-le_below a a b (omega arith)

-- One flag of a number that is written as its high part, the flag and its low part.
pub bit_and_flag : (k q r : ℕ) → r < 2 ^ k → bit_and (q * 2 ^ k + r) (2 ^ k) ≡ q % 2 * 2 ^ k
bit_and_flag zero q r h =
    ground (arith, bit_and_step (q * 2 ^ 0 + r) 1, bit_and-zero ((q * 2 ^ 0 + r) / 2))
bit_and_flag (suc k) q r h = ground (
  arith,
  bit_and_step (q * 2 ^ suc k + r) (2 ^ suc k),
  mul-double-pow q k,
  mul-double-pow (q % 2) k,
  double-pow k,
  bit_and_flag k q (r / 2),
)

-- Fields that do not overlap are put together by a sum.
pub bit_or_fields : (k q r : ℕ) → r < 2 ^ k → bit_or (q * 2 ^ k) r ≡ q * 2 ^ k + r
bit_or_fields zero q r h = ground (arith, bit_or-zero (q * 2 ^ 0))
bit_or_fields (suc k) q r h = ground (
  arith,
  bit_or_step (q * 2 ^ suc k) r,
  mul-double-pow q k,
  double-pow k,
  bit_or_fields k q (r / 2),
)

-- A flag that is not set is added.
pub bit_or_flag :
    (k q r : ℕ) → r < 2 ^ k → bit_or (2 * q * 2 ^ k + r) (2 ^ k) ≡ (2 * q + 1) * 2 ^ k + r
bit_or_flag zero q r h = ground (arith, bit_or_step (2 * q * 2 ^ 0 + r) 1, bit_or-zero q)
bit_or_flag (suc k) q r h = ground (
  arith,
  bit_or_step (2 * q * 2 ^ suc k + r) (2 ^ suc k),
  mul-double-pow (2 * q) k,
  mul-double-pow (2 * q + 1) k,
  double-pow k,
  bit_or_flag k q (r / 2),
)

-- The same with the low field first.
pub bit_or_fields_low : (k q r : ℕ) → r < 2 ^ k → bit_or r (q * 2 ^ k) ≡ q * 2 ^ k + r
bit_or_fields_low zero q (suc r) h = absurd (omega arith)
bit_or_fields_low zero q zero h = ground (arith, zero-bit_or (q * 2 ^ 0))
bit_or_fields_low (suc k) q r h = ground (
  arith,
  bit_or_step r (q * 2 ^ suc k),
  mul-double-pow q k,
  double-pow k,
  bit_or_fields_low k q (r / 2),
)

-- A mask of `w` ones at bit `k` takes that field of a number and leaves it in its place.
pub bit_and_field : (k w a : ℕ) → bit_and a ((2 ^ w - 1) * 2 ^ k) ≡ a / 2 ^ k % 2 ^ w * 2 ^ k
bit_and_field zero w a =
    ap (bit_and a) {y = 2 ^ w - 1} (omega arith)
    ∙ bit_and_low w a
    ∙ ap (λ (n : ℕ). n % 2 ^ w) {y = a / 2 ^ 0} (omega arith)
    ∙ omega arith
bit_and_field (suc k) w a = ground (
  arith,
  bit_and_step a ((2 ^ w - 1) * 2 ^ suc k),
  mul-double-pow (2 ^ w - 1) k,
  mul-double-pow (a / 2 / 2 ^ k % 2 ^ w) k,
  ap (λ (n : ℕ). a / n) (double-pow k),
  div-div-eq-div-mul a 2 (2 ^ k),
  bit_and_field k w (a / 2),
)
