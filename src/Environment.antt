-- ===== src/Environment.antt =====
-- The namespace env of src/core/posix/this_process.cpp: the environment of the process. Every
-- function holds the one mutex env_guard from its first to its last call, so that each is one step.
pub mod Lines
pub mod Sequences
pub mod Variables
use process_cpp.Prelude.{
  ℕ, ◌+◌, ◌%◌, ◌^◌, ℤ, minus_one, eqb, Bool, true, false, Option, none, some, List, [], ◌∷◌,
  if◌then◌else◌,
}
use process_cpp.Effect.{Effect, ok, throw, system_error, runtime_error}
use process_cpp.Text.{Str, npos, find_first_of, substr, c_str}

-- The calls over the state `W` of the operating system. `getenv` is `none` where it returns a null
-- pointer, and so is `environ` where that is one; its lines are those up to the terminating null
-- pointer. The third argument of `setenv` is its flag `overwrite`.
pub record EnvCalls (W : Type 0) : Type 0 where
  pub getenv : Str → W → Option Str
  pub setenv : Str → Str → Bool → W → ℤ × W
  pub unsetenv : Str → W → ℤ × W
  pub environ : W → Option (List Str)
  pub errno : W → ℕ

abbrev pub equals_sign : ℕ
equals_sign = b'='

-- The two arguments of the functor for a line. `none` is out_of_range, which would end the program.
-- Adding 1 to npos gives 0.
unfoldable pub split_line : Str → Option (Str × Str)
split_line line = elim (substr line 0 (find_first_of line equals_sign)) [
  | none ↦ none
  | some key ↦ elim (substr line ((find_first_of line equals_sign + 1) % 2 ^ 64) npos) [
    | none ↦ none
    | some value ↦ some (key, value)
  ]
]

-- The loop of for_each, over a functor that works on a state.
unfoldable pub for_each_line : {S : Type 0} → (Str → Str → S → S) → List Str → S → Option S
for_each_line functor [] s = some s
for_each_line functor (line ∷ rest) s = elim (split_line line) [
  | none ↦ none
  | some (key, value) ↦ for_each_line functor rest (functor key value s)
]

module _ {W : Type 0} (os : EnvCalls W) where
  unfoldable pub for_each : {S : Type 0} → (Str → Str → S → S) → W → S → Option S
  unfolding for_each_line
  for_each functor w s = elim (os.environ w) [
    | none ↦ some s
    | some lines ↦ for_each_line functor lines s
  ]

  unfoldable pub get_or_throw : Str → Effect W Str
  get_or_throw key w = elim (os.getenv (c_str key) w) [
    | none ↦ (throw runtime_error, w)
    | some value ↦ (ok value, w)
  ]

  unfoldable pub get : Str → Str → W → Str
  get key default_value w = elim (os.getenv (c_str key) w) [
    | none ↦ default_value
    | some value ↦ value
  ]

  unfoldable pub unset_or_throw : Str → Effect W (Unit {0})
  unset_or_throw key w =
      let (rc, w') = os.unsetenv (c_str key) w in
      if eqb rc minus_one then (throw (system_error (os.errno w')), w') else (ok tt, w')

  -- The error code `se` is an argument and a result: it is written on errors only.
  unfoldable pub unset : Str → Option ℕ → W → (Bool × Option ℕ) × W
  unset key se w =
      let (rc, w') = os.unsetenv (c_str key) w in
      if eqb rc minus_one then ((false, some (os.errno w')), w') else ((true, se), w')

  -- `static const int overwrite = 0;`
  abbrev pub overwrite : Bool
  overwrite = false

  unfoldable pub set_or_throw : Str → Str → Effect W (Unit {0})
  set_or_throw key value w =
      let (rc, w') = os.setenv (c_str key) (c_str value) overwrite w in
      if eqb rc minus_one then (throw (system_error (os.errno w')), w') else (ok tt, w')

  unfoldable pub set : Str → Str → Option ℕ → W → (Bool × Option ℕ) × W
  set key value se w =
      let (rc, w') = os.setenv (c_str key) (c_str value) overwrite w in
      if eqb rc minus_one then ((false, some (os.errno w')), w') else ((true, se), w')
