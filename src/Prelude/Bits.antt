-- ===== src/Prelude/Bits.antt =====
-- `&` with a mask of low bits, as a remainder, at every width.
use Prim.Native.Nat.{
  ℕ, zero, suc, ◌+◌, ◌-◌, ◌*◌, ◌/◌, ◌%◌, ◌^◌, ◌≤◌, ◌<◌, min, bit_and, digits, bit_and-bitwise,
}
use mathlib.Core.Path.{◌≡◌, refl, ap, ◌∙◌}
use native.Mathlib.Nat.{
  pow-suc, one-le-pow, div-add-mod', mod-lt, mod-eq_of_lt, mul-add-mod_self_right,
}
use native.Mathlib.Omega.{arith}

abbrev low_digits : ℕ → ℕ → ℕ → ℕ
low_digits n a b = digits (λ _. zero) min n a b

low_digits_enough : (n m a b : ℕ) → a ≤ n → a ≤ m → low_digits n a b ≡ low_digits m a b
low_digits_enough zero zero a b p q = refl
low_digits_enough zero (suc m) zero b p q = refl
low_digits_enough zero (suc m) (suc a) b p q = absurd (omega arith)
low_digits_enough (suc n) zero zero b p q = refl
low_digits_enough (suc n) zero (suc a) b p q = absurd (omega arith)
low_digits_enough (suc n) (suc m) zero b p q = refl
low_digits_enough (suc n) (suc m) (suc a) b p q =
    omega (arith, low_digits_enough n m (suc a / 2) (b / 2) (omega arith) (omega arith))

-- One binary digit at a time.
pub bit_and_step : (a b : ℕ) → bit_and a b ≡ bit_and (a / 2) (b / 2) * 2 + min (a % 2) (b % 2)
bit_and_step zero b = omega (arith, bit_and-bitwise 0 b, bit_and-bitwise 0 (b / 2))
bit_and_step (suc a) b = omega (
  arith,
  bit_and-bitwise (suc a) b,
  bit_and-bitwise (suc a / 2) (b / 2),
  low_digits_enough a (suc a / 2) (suc a / 2) (b / 2) (omega arith) (omega arith),
)

bit_and-zero_below : (n a : ℕ) → a ≤ n → bit_and a 0 ≡ 0
bit_and-zero_below n zero h = refl
bit_and-zero_below zero (suc a) h = absurd (omega arith)
bit_and-zero_below (suc n) (suc a) h =
    omega (arith, bit_and_step (suc a) 0, bit_and-zero_below n (suc a / 2) (omega arith))

-- The remainder by a doubled modulus, from the remainder of the half.
mod_double : (a m : ℕ) → 0 < m → a % (m * 2) ≡ (a / 2) % m * 2 + a % 2
mod_double a m h =
    let small : a / 2 % m * 2 + a % 2 < m * 2 = omega (arith, mod-lt (a / 2) h) in
    ap (λ t. t % (m * 2)) split
    ∙ mul-add-mod_self_right (a / 2 / m) (m * 2) (a / 2 % m * 2 + a % 2)
    ∙ mod-eq_of_lt small
  where
    split : a ≡ a / 2 / m * (m * 2) + (a / 2 % m * 2 + a % 2)
    split = omega (arith, ap (λ (t : ℕ). t * 2) (div-add-mod' (a / 2) m))

pub bit_and_mask : (k a : ℕ) → bit_and a (2 ^ k - 1) ≡ a % 2 ^ k
bit_and_mask zero a = omega (arith, bit_and-zero_below a a (omega arith))
bit_and_mask (suc k) a = ground (
  arith,
  pow-suc 2 k,
  one-le-pow k 2,
  bit_and_step a (2 ^ suc k - 1),
  bit_and_mask k (a / 2),
  mod_double a (2 ^ k),
)
