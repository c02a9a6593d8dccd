-- ===== src/Prelude/Bits.antt =====
-- The three lowest binary digits of a number, and those of `bit_or`, for flags in a byte.
use Prim.Native.Nat.{
  ℕ, zero, suc, ◌+◌, ◌-◌, ◌*◌, ◌/◌, ◌%◌, ◌≤◌, min, max, bit_and, bit_or, digits, bit_and-bitwise,
  bit_or-bitwise,
}
use mathlib.Core.Path.{◌≡◌, refl, ap, ◌∙◌}
use native.Mathlib.Omega.{arith}

-- An operation by digits does not depend on how many digits it is given to go through, if these are
-- enough.
module _ (z : ℕ → ℕ) (f : ℕ → ℕ → ℕ) where
  digits-suc : (n a b : ℕ) → a ≤ n → digits z f (suc n) a b ≡ digits z f n a b
  digits-suc zero zero b h = refl
  digits-suc (suc n) zero b h = refl
  digits-suc zero (suc a) b h = absurd (omega arith)
  digits-suc (suc n) (suc a) b h =
      ap (λ d. d * 2 + f (suc a % 2) (b % 2)) (digits-suc n (suc a / 2) (b / 2) (omega arith))

  digits_spare : (k n a b : ℕ) → n ≡ k + a → digits z f n a b ≡ digits z f a a b
  digits_spare zero n a b h = ap (λ m. digits z f m a b) (omega arith)
  digits_spare (suc k) n a b h =
      let more : n ≡ suc (k + a) = omega arith in
      ap (λ m. digits z f m a b) more
      ∙ digits-suc (k + a) a b (omega arith)
      ∙ digits_spare k (k + a) a b refl

  digits_half :
      (a b : ℕ)
      → digits z f (suc a) (suc a) b
        ≡ digits z f (suc a / 2) (suc a / 2) (b / 2) * 2 + f (suc a % 2) (b % 2)
  digits_half a b =
      ap (λ d. d * 2 + f (suc a % 2) (b % 2))
        (digits_spare (a - suc a / 2) a (suc a / 2) (b / 2) (omega arith))

-- The union of two numbers, by the union of their halves.
pub bit_or_half : (a b : ℕ) → bit_or a b ≡ bit_or (a / 2) (b / 2) * 2 + max (a % 2) (b % 2)
bit_or_half zero b = omega (arith, bit_or-bitwise 0 b, bit_or-bitwise 0 (b / 2))
bit_or_half (suc a) b =
    bit_or-bitwise (suc a) b
    ∙ digits_half (λ y. y) max a b
    ∙ omega (arith, bit_or-bitwise (suc a / 2) (b / 2))

-- The intersection of two numbers, in the same way.
bit_and_half : (a b : ℕ) → bit_and a b ≡ bit_and (a / 2) (b / 2) * 2 + min (a % 2) (b % 2)
bit_and_half zero b = omega (arith, bit_and-bitwise 0 b, bit_and-bitwise 0 (b / 2))
bit_and_half (suc a) b =
    bit_and-bitwise (suc a) b
    ∙ digits_half (λ y. zero) min a b
    ∙ omega (arith, bit_and-bitwise (suc a / 2) (b / 2))

-- No digit is common with 0, for a number of up to n halvings.
nothing_common : (n a : ℕ) → a ≤ n → bit_and a 0 ≡ 0
nothing_common n zero h = refl
nothing_common zero (suc a) h = absurd (omega arith)
nothing_common (suc n) (suc a) h =
    bit_and_half (suc a) 0 ∙ omega (arith, nothing_common n (suc a / 2) (omega arith))

pub lowest_digit : (a : ℕ) → bit_and a 1 ≡ a % 2
lowest_digit a = omega (arith, bit_and_half a 1, nothing_common (a / 2) (a / 2) (omega arith))

pub second_digit : (a : ℕ) → bit_and a 2 ≡ a / 2 % 2 * 2
second_digit a = omega (arith, bit_and_half a 2, lowest_digit (a / 2))

pub third_digit : (a : ℕ) → bit_and a 4 ≡ a / 2 / 2 % 2 * 4
third_digit a = omega (arith, bit_and_half a 4, second_digit (a / 2))
