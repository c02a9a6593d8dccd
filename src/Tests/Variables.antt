-- ===== src/Tests/Variables.antt =====
-- Examples for the environment's variables of this_process.cpp, on an environment that is a list.
use process_cpp.Prelude.{pos, ◌≡◌, refl, Option, none, some, List, [], ◌∷◌, if◌then◌else◌}
use process_cpp.Text.{Str, str_eq, c_str}
use process_cpp.Environment.{EnvCalls, get, get_or_throw, set, set_or_throw, unset}
use process_cpp.Environment.Variables.{EnvLaws, or_else}
use process_cpp.Environment.Sequences.{
  Call, setting, setting_reported, unsetting_reported, mean_all, perform_all, view, or_error,
  get-perform_all,
}

-- An environment as the function that getenv is.
abbrev Env : Type 0
Env = Str → Option Str

abbrev env_calls : EnvCalls Env
env_calls = record {
  getenv = λ key w. w key;
  setenv = λ key value overwrite w. (
    pos 0,
    λ j. if str_eq j key then some (if overwrite then value else or_else (w key) value) else w j,
  );
  unsetenv = λ key w. (pos 0, λ j. if str_eq j key then none else w j);
  environ = λ w. none;
  errno = λ w. 22;
}

abbrev env_laws : EnvLaws env_calls
env_laws = record {
  getenv-setenv = λ w key value overwrite j. refl;
  getenv-unsetenv = λ w key j. refl;
}

-- A=1
abbrev a_is_1 : Env
a_is_1 j = if str_eq j (65 ∷ []) then some (49 ∷ []) else none

-- A is set to 2, and still is 1; it is unset, and set to 3.
abbrev three_calls : List Call
three_calls =
    setting (65 ∷ []) (50 ∷ [])
    ∷ unsetting_reported (65 ∷ []) none
    ∷ setting_reported (65 ∷ []) (51 ∷ []) none
    ∷ []

three_calls_lem : get env_calls (65 ∷ []) [] (perform_all env_calls three_calls a_is_1).1 ≡ 51 ∷ []
unfolding get set set_or_throw unset c_str str_eq
three_calls_lem = refl

get-perform_all_example :
    let (outcomes, w) = perform_all env_calls three_calls a_is_1 in
    let m = mean_all three_calls outcomes (view env_calls a_is_1) in
    (get env_calls (65 ∷ []) [] w ≡ or_else (m (65 ∷ [])) [])
    × ((get_or_throw env_calls (65 ∷ []) w).0 ≡ or_error (m (65 ∷ [])))
get-perform_all_example = get-perform_all env_calls env_laws three_calls a_is_1 (65 ∷ []) []
