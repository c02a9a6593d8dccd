-- ===== src/Environment/Variables.antt =====
-- What get returns after set and unset, and how the throwing overloads and the others agree.
use process_cpp.Prelude.{
  ℕ, minus_one, eqb, ◌≡◌, Bool, true, false, Option, none, some, if◌then◌else◌, arith,
}
use process_cpp.Effect.{Result, ok, throw, system_error, runtime_error}
use process_cpp.Text.{Str, str_eq, c_str}
use process_cpp.Environment.{EnvCalls, get_or_throw, get, unset_or_throw, unset, set_or_throw, set}

abbrev pub or_else : {A : Type 0} → Option A → A → A
or_else none a = a
or_else (some b) a = b

-- What the manual pages say of setenv and unsetenv: a call that fails changes nothing; setenv without
-- `overwrite` keeps the value of a variable that exists.
pub record EnvLaws {W : Type 0} (os : EnvCalls W) : Type 0 where
  pub getenv-setenv :
      (w : W) (key value : Str) (overwrite : Bool) (j : Str)
      → os.getenv j (os.setenv key value overwrite w).1 ≡ (
          if eqb (os.setenv key value overwrite w).0 minus_one
          then os.getenv j w
          else if str_eq j key
          then some (if overwrite then value else or_else (os.getenv key w) value)
          else os.getenv j w)
  pub getenv-unsetenv :
      (w : W) (key j : Str)
      → os.getenv j (os.unsetenv key w).1 ≡ (
          if eqb (os.unsetenv key w).0 minus_one
          then os.getenv j w
          else if str_eq j key
          then none
          else os.getenv j w)

module _ {W : Type 0} (os : EnvCalls W) where
  abbrev pub or_throw : (Bool × Option ℕ) × W → Result (Unit {0}) × W
  or_throw ((true, none), w) = (ok tt, w)
  or_throw ((false, some e), w) = (throw (system_error e), w)
  or_throw (_, w) = (throw runtime_error, w)

  -- set returns true, with its error code unwritten, exactly where set_or_throw returns, and false with
  -- errno exactly where that throws it; both make the same call.
  set-or_throw :
      (key value : Str) (w : W) → set_or_throw os key value w ≡ or_throw (set os key value none w)
  unfolding set set_or_throw
  set-or_throw key value w = ground arith

  -- unset and unset_or_throw agree in the same way.
  pub unset-or_throw :
      (key : Str) (w : W) → unset_or_throw os key w ≡ or_throw (unset os key none w)
  unfolding unset unset_or_throw
  unset-or_throw key w = ground arith

  -- get_or_throw throws exactly where get returns whatever default it is given.
  pub get-or_throw :
      (key default_value : Str) (w : W)
      → get os key default_value w
        ≡ (elim (get_or_throw os key w).0 [ ok value ↦ value | throw e ↦ default_value ])
  unfolding get get_or_throw
  get-or_throw key default_value w = ground arith

  module _ (l : EnvLaws os) where
    -- Given the laws of setenv: after a call of set_or_throw that returns, the variable has the
    -- value that it had, and the given one only if it had none. Other variables keep their
    -- values. A call that throws changes none.
    get-set :
        (key value j default_value : Str) (w : W)
        → get os j default_value (set_or_throw os key value w).1
          ≡ (elim (set_or_throw os key value w).0 [
            | throw e ↦ get os j default_value w
            | ok _ ↦
                if str_eq (c_str j) (c_str key)
                then get os key (c_str value) w
                else get os j default_value w
          ])
    unfolding get set_or_throw
    get-set key value j default_value w =
        ground (arith, l.getenv-setenv w (c_str key) (c_str value) false (c_str j))

    -- Given the laws of unsetenv: after a call of unset_or_throw that returns, the variable has
    -- no value; other variables keep theirs. A call that throws changes none.
    get-unset :
        (key j default_value : Str) (w : W)
        → get os j default_value (unset_or_throw os key w).1 ≡ (elim (unset_or_throw os key w).0 [
          | throw e ↦ get os j default_value w
          | ok _ ↦ if str_eq (c_str j) (c_str key) then default_value else get os j default_value w
        ])
    unfolding get unset_or_throw
    get-unset key j default_value w = ground (arith, l.getenv-unsetenv w (c_str key) (c_str j))
