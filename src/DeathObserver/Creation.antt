-- ===== src/DeathObserver/Creation.antt =====
-- The guard of create_once_with_signal_trap, over a sequence of calls.
use process_cpp.Prelude.{
  ℕ, ◌+◌, ◌≡◌, refl, Bool, true, false, ◌||◌, List, [], ◌∷◌, if◌then◌else◌, arith,
}
use process_cpp.Effect.{Result, ok, throw}
use process_cpp.DeathObserver.{create_once}

abbrev is_ok : {A : Type 0} → Result A → ℕ
is_ok (ok a) = 1
is_ok (throw e) = 0

-- How many of the calls create an observer. Each call has a trap that does, or does not, trap
-- SIGCHLD; the second argument is the flag before the first call.
created : (C : Type 0) → List Bool → Bool → ℕ
created C [] flag = 0
created C (traps ∷ rest) flag =
    let (r, flag') = create_once {C = C} traps flag in is_ok r + created C rest flag'

abbrev any_traps : List Bool → Bool
any_traps [] = false
any_traps (b ∷ rest) = b || any_traps rest

created_set : (C : Type 0) (calls : List Bool) → created C calls true ≡ 0
unfolding created create_once
created_set C [] = refl
created_set C (b ∷ rest) = omega (arith, created_set C rest)

-- Of any sequence of calls exactly one creates an observer if some call has a trap that traps
-- SIGCHLD, and none otherwise: a constructor that throws does not use up the only instance.
created_once :
    (C : Type 0) (calls : List Bool) → created C calls false ≡ (if any_traps calls then 1 else 0)
unfolding created create_once
created_once C [] = refl
created_once C (true ∷ rest) = omega (arith, created_set C rest)
created_once C (false ∷ rest) = ground (arith, created_once C rest)
