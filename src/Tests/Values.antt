-- ===== src/Tests/Values.antt =====
-- Examples for exec.cpp, the environment's lines and the creation of an observer.
use process_cpp.Prelude.{◌*◌, ◌+◌, ℕ, ◌≡◌, refl, some, List, [], ◌∷◌, map, length, arith}
use process_cpp.Text.{Str}
use process_cpp.Environment.{for_each_line}
use process_cpp.Environment.Lines.{line_of, call_all, for_each_line-call_all, for_each_line_total}
use process_cpp.Exec.{make_env, env_lines, store, store_all}
use process_cpp.Exec.Arrays.{for_each-make_env, strings, copies}

-- A=1 and B, without a value.
abbrev two_variables : List (Str × Str)
two_variables = (65 ∷ [], 49 ∷ []) ∷ (66 ∷ [], []) ∷ []

abbrev count : Str → Str → ℕ → ℕ
count key value n = n * 10 + length value + 1

for_each_line-call_all_example :
    for_each_line count (map line_of two_variables) 0 ≡ some (call_all count two_variables 0)
for_each_line-call_all_example =
    for_each_line-call_all count two_variables 0
      (((refl, tt), omega arith), (((refl, tt), omega arith), tt))

-- A line without an equals sign, and one that begins with it.
for_each_line_total_example :
    (s' : ℕ) × (for_each_line count ((65 ∷ []) ∷ (61 ∷ 66 ∷ []) ∷ []) 0 ≡ some s')
for_each_line_total_example =
    for_each_line_total count ((65 ∷ []) ∷ (61 ∷ 66 ∷ []) ∷ []) 0 (omega arith, (omega arith, tt))

for_each-make_env_example :
    for_each_line count (strings (copies (env_lines two_variables))) 0
    ≡ some (call_all count two_variables 0)
unfolding make_env store_all store env_lines
for_each-make_env_example =
    for_each-make_env count two_variables (copies (env_lines two_variables)) 0 refl
      (((refl, tt), omega arith), (((refl, tt), omega arith), tt))
      ((refl, (refl, (refl, tt))), ((refl, (refl, tt)), tt))
