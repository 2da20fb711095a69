-- ===== src/Base/Bits.antt =====
-- Facts about `bit_or` at variables, from the digit recursion that the native operation stands for.
use Prim.Native.Nat.{
  ℕ, zero, suc, ◌+◌, ◌*◌, ◌/◌, ◌%◌, ◌≤◌, ◌<◌, ◌^◌, max, bit_or, digits, bit_or-bitwise,
}
use mathlib.Core.Path.{◌≡◌, refl}
use native.Mathlib.Nat.{pow-succ'}
use native.Mathlib.Omega.{arith}

abbrev or_digits : ℕ → ℕ → ℕ → ℕ
or_digits n a b = digits (λ b. b) max n a b

or_digits_fuel : (n m a b : ℕ) → a ≤ n → a ≤ m → or_digits n a b ≡ or_digits m a b
or_digits_fuel zero zero a b p q = refl
or_digits_fuel zero (suc m) zero b p q = refl
or_digits_fuel zero (suc m) (suc a) b p q = absurd (omega arith)
or_digits_fuel (suc n) zero zero b p q = refl
or_digits_fuel (suc n) zero (suc a) b p q = absurd (omega arith)
or_digits_fuel (suc n) (suc m) zero b p q = refl
or_digits_fuel (suc n) (suc m) (suc a) b p q =
    omega (arith, or_digits_fuel n m (suc a / 2) (b / 2) (omega arith) (omega arith))

zero-bit_or : (b : ℕ) → bit_or 0 b ≡ b
zero-bit_or b = bit_or-bitwise 0 b

pub bit_or_step : (a b : ℕ) → bit_or a b ≡ bit_or (a / 2) (b / 2) * 2 + max (a % 2) (b % 2)
bit_or_step zero b = omega (arith, zero-bit_or b, zero-bit_or (b / 2))
bit_or_step (suc a) b = omega (
  arith,
  bit_or-bitwise (suc a) b,
  bit_or-bitwise (suc a / 2) (b / 2),
  or_digits_fuel a (suc a / 2) (suc a / 2) (b / 2) (omega arith) (omega arith),
)

bit_or-zero_fuel : (n a : ℕ) → a ≤ n → bit_or a 0 ≡ a
bit_or-zero_fuel n zero h = refl
bit_or-zero_fuel zero (suc a) h = absurd (omega arith)
bit_or-zero_fuel (suc n) (suc a) h =
    omega (arith, bit_or_step (suc a) 0, bit_or-zero_fuel n (suc a / 2) (omega arith))

pub bit_or-zero : (a : ℕ) → bit_or a 0 ≡ a
bit_or-zero a = bit_or-zero_fuel a a (omega arith)

half_shift : (m a : ℕ) → a * (2 * m) / 2 ≡ a * m
half_shift m a = omega arith

even_shift : (m a : ℕ) → a * (2 * m) % 2 ≡ 0
even_shift m a = omega arith

or_none : (x b : ℕ) → b < 1 → bit_or x b ≡ x + b
or_none x zero h = omega (arith, bit_or-zero x)
or_none x (suc b) h = absurd (omega arith)

or_next :
    (m a b : ℕ) → bit_or (a * m) (b / 2) ≡ a * m + b / 2 → bit_or (a * (2 * m)) b ≡ a * (2 * m) + b
or_next m a b rec =
    rw (bit_or_step (a * (2 * m)) b, half_shift m a, even_shift m a, rec) (omega arith)

-- A number below 2 ^ k fills the k free bits of a multiple of 2 ^ k.
pub bit_or_shift : (k a b : ℕ) → b < 2 ^ k → bit_or (a * 2 ^ k) b ≡ a * 2 ^ k + b
bit_or_shift zero a b h = or_none (a * 1) b h
bit_or_shift (suc k) a b h =
    let e = pow-succ' 2 k in
    let small : b < 2 * 2 ^ k = rw e at h in
    rw e (or_next (2 ^ k) a b (bit_or_shift k a (b / 2) (omega arith)))
