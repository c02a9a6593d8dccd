-- ===== src/Effect.antt =====
-- Calls that change the state of the operating system and may throw.
-- The state that a call leaves is kept when it throws: C++ does not roll a system call back.
use process_cpp.Prelude.{ℕ, ◌≡◌, refl, ◌⊎◌, inl, inr}

-- The exceptions that the library throws. `system_error` carries the value of errno.
pub data Error : Type 0 where
  system_error : ℕ → Error
  runtime_error : Error
  logic_error : Error
  timeout : Error

pub data Result {ℓ} (A : Type ℓ) : Type ℓ where
  ok : A → Result A
  throw : Error → Result A

pub Result-cases {ℓ} :
    {A : Type ℓ} (r : Result A) → ((a : A) × (r ≡ ok a)) ⊎ ((e : Error) × (r ≡ throw e))
Result-cases (ok a) = inl (a, refl)
Result-cases (throw e) = inr (e, refl)

abbrev pub Effect : Type 0 → Type 0 → Type 0
Effect W A = W → Result A × W

module _ {W A : Type 0} where
  abbrev pub pure : A → Effect W A
  pure a w = (ok a, w)

  abbrev pub raise : Error → Effect W A
  raise e w = (throw e, w)

  -- A call that does not throw.
  abbrev pub call : (W → A × W) → Effect W A
  call f w = let (a, w') = f w in (ok a, w')

abbrev pub continue : {W A B : Type 0} → Result A → (A → Effect W B) → Effect W B
continue (ok a) f w = f a w
continue (throw e) f w = (throw e, w)

infixl 5 ◌>>=◌ ◌>>◌
abbrev pub ◌>>=◌ : {W A B : Type 0} → Effect W A → (A → Effect W B) → Effect W B
◌>>=◌ m f w = let (r, w') = m w in continue r f w'

abbrev pub ◌>>◌ : {W B : Type 0} → Effect W (Unit {0}) → Effect W B → Effect W B
m >> k = m >>= λ _. k
