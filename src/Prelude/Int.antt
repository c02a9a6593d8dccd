-- ===== src/Prelude/Int.antt =====
-- The C type `int`: signed integers over the native numbers, under the library's names.
use Prim.Native.Nat.{ℕ, zero, suc}
use mathlib.Core.Path.{◌≡◌}
use mathlib.Core.Logic.{◌↔◌, ◌≢◌}
use mathlib.Core.Bool.{Bool, true, false}
use native.Mathlib.Omega.{arith}
use process_cpp.Prelude.Tests.{leb, ◌==◌}

-- `negsuc n` is -(n + 1).
pub data ℤ : Type 0 where
  pos : ℕ → ℤ
  negsuc : ℕ → ℤ

-- The C literal -1, by which the system calls report an error and the code marks a closed descriptor.
abbrev pub minus_one : ℤ
minus_one = negsuc 0

abbrev pub neg : ℤ → ℤ
neg (pos zero) = pos zero
neg (pos (suc n)) = negsuc n
neg (negsuc n) = pos (suc n)

abbrev pub eqb : ℤ → ℤ → Bool
eqb (pos a) (pos b) = a == b
eqb (negsuc a) (negsuc b) = a == b
eqb _ _ = false

-- a <= b of the C code.
abbrev pub leb_ℤ : ℤ → ℤ → Bool
leb_ℤ (pos a) (pos b) = leb a b
leb_ℤ (negsuc a) (negsuc b) = leb b a
leb_ℤ (negsuc a) (pos b) = true
leb_ℤ (pos a) (negsuc b) = false

pub eqb_iff : (a b : ℤ) → (eqb a b ≡ true) ↔ (a ≡ b)
eqb_iff (pos a) (pos b) = ground arith
eqb_iff (pos a) (negsuc b) = ground arith
eqb_iff (negsuc a) (pos b) = ground arith
eqb_iff (negsuc a) (negsuc b) = ground arith

pub eqb_refl : (a : ℤ) → eqb a a ≡ true
eqb_refl (pos a) = ground arith
eqb_refl (negsuc a) = ground arith

pub eqb-false : (a b : ℤ) → a ≢ b → eqb a b ≡ false
eqb-false a b h = ground (arith, eqb_iff a b)

pub neg-neg : (a : ℤ) → neg (neg a) ≡ a
neg-neg (pos zero) = ground arith
neg-neg (pos (suc n)) = ground arith
neg-neg (negsuc n) = ground arith
