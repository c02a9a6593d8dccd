-- ===== src/Exec/Arrays.antt =====
-- The arrays of exec hold what was asked for, and are filled exactly.
use process_cpp.Prelude.{
  ℕ, zero, suc, ◌+◌, ◌≡◌, refl, ap, ◌∙◌, some, List, [], ◌∷◌, ◌++◌, map, length, length-append,
  replicate, ℤ, arith,
}
use mathlib.Core.List.{append_assoc}
use process_cpp.Effect.{Effect, ◌>>◌}
use process_cpp.Text.{Str, c_str, c_str_free, IsFree}
use process_cpp.Environment.{for_each_line}
use process_cpp.Environment.Lines.{AllVariables, line_of, call_all, for_each_line-call_all}
use process_cpp.Exec.{
  Cell, unwritten, null, string, store, store_all, make_argv, env_lines, make_env, exec_main,
}

abbrev pub copies : List Str → List Cell
copies [] = null ∷ []
copies (s ∷ rest) = string (c_str s) ∷ copies rest

-- A store behind written cells.
store-append :
    (front : List Cell) (i : ℕ) (x c : Cell) (rest : List Cell)
    → i ≡ length front
    → store (front ++ x ∷ rest) i c ≡ some (front ++ c ∷ rest)
unfolding store
store-append [] zero x c rest h = refl
store-append [] (suc i) x c rest h = absurd (omega arith)
store-append (y ∷ front) zero x c rest h = absurd (omega arith)
store-append (y ∷ front) (suc i) x c rest h = rw (store-append front i x c rest (omega arith))

store_step :
    (cells cells' : List Cell) (i : ℕ) (s : Str) (rest : List Str)
    → store cells i (string (c_str s)) ≡ some cells'
    → store_all cells i (s ∷ rest) ≡ store_all cells' (i + 1) rest
unfolding store_all
store_step cells cells' i s rest h = rw (h, store_all)

store_all-copies :
    (front : List Cell) (i : ℕ) (strings : List Str)
    → i ≡ length front
    → store_all (front ++ replicate (suc (length strings)) unwritten) i strings
      ≡ some (front ++ copies strings)
unfolding store_all
store_all-copies front i [] h = store-append front i unwritten null [] h
store_all-copies front i (s ∷ strings) h =
    let cell = string (c_str s) in
    let stored =
      store-append front i unwritten cell (replicate (suc (length strings)) unwritten) h in
    let rest =
      store_all-copies (front ++ cell ∷ []) (i + 1) strings
        (omega (arith, h, length-append front (cell ∷ []))) in
    store_step _ _ i s strings stored ∙ (simp append_assoc at rest)

first_cell :
    (n : ℕ) (c : Cell)
    → store (replicate (n + 2) unwritten) 0 c ≡ some (c ∷ replicate (suc n) unwritten)
unfolding store
first_cell n c = let room : n + 2 ≡ suc (suc n) = omega arith in rw room

make_argv_step :
    (fn : Str) (argv : List Str) (cells : List Cell)
    → store (replicate (length argv + 2) unwritten) 0 (string (c_str fn)) ≡ some cells
    → make_argv fn argv ≡ store_all cells 1 argv
unfolding make_argv
make_argv_step fn argv cells h = rw (h, make_argv)

-- The argument array has room for what is written: the program first, the arguments in their order, and
-- the null pointer in the last cell. No cell is left unwritten.
make_argv-copies :
    (fn : Str) (argv : List Str) → make_argv fn argv ≡ some (string (c_str fn) ∷ copies argv)
make_argv-copies fn argv =
    make_argv_step fn argv _ (first_cell (length argv) (string (c_str fn)))
    ∙ store_all-copies (string (c_str fn) ∷ []) 1 argv refl

length-env_lines : (env : List (Str × Str)) → length (env_lines env) ≡ length env
unfolding env_lines
length-env_lines [] = refl
length-env_lines (p ∷ env) = ap suc (length-env_lines env)

pub make_env-copies : (env : List (Str × Str)) → make_env env ≡ some (copies (env_lines env))
unfolding make_env
make_env-copies env =
    let room : length env + 1 ≡ suc (length (env_lines env)) =
      omega (arith, length-env_lines env) in
    rw room (store_all-copies [] 0 (env_lines env) refl)

-- The strings of an array, up to the null pointer: what execve takes over as the arguments or as the
-- environment of the new program.
abbrev pub strings : List Cell → List Str
strings [] = []
strings (null ∷ rest) = []
strings (unwritten ∷ rest) = []
strings (string s ∷ rest) = s ∷ strings rest

abbrev pub NoNul : List (Str × Str) → Type 0
NoNul [] = Unit {0}
NoNul (p ∷ rest) = IsFree 0 (line_of p) × NoNul rest

strings-copies :
    (env : List (Str × Str)) → NoNul env → strings (copies (env_lines env)) ≡ map line_of env
unfolding env_lines
strings-copies [] h = refl
strings-copies (p ∷ env) (h, t) = rw (c_str_free (line_of p) h, strings-copies env t)

-- A program that is executed with an environment reads it back by for_each: each name with its
-- value, once and in the order of the names. The names have no equals sign, no line has a null
-- byte, and each is shorter than the largest size.
pub for_each-make_env :
    {S : Type 0} (functor : Str → Str → S → S) (env : List (Str × Str)) (cells : List Cell) (s : S)
    → make_env env ≡ some cells
    → AllVariables env
    → NoNul env
    → for_each_line functor (strings cells) s ≡ some (call_all functor env s)
for_each-make_env functor env cells s made variables no_nul =
    let same : copies (env_lines env) ≡ cells = cc (make_env-copies env) in
    rw (← same, strings-copies env no_nul) (for_each_line-call_all functor env s variables)

-- No write of the child's main function is outside its arrays, and execve is called with the two of
-- them, after the set-up of the child.
pub exec_main_lem :
    {W : Type 0} (execve : Str → List Cell → List Cell → Effect W ℤ) (undefined : Effect W ℤ)
    (fn : Str) (argv : List Str) (env : List (Str × Str)) (child_setup : Effect W (Unit {0}))
    → exec_main execve undefined fn argv env child_setup ≡ (
        child_setup >> execve (c_str fn) (string (c_str fn) ∷ copies argv) (copies (env_lines env)))
unfolding exec_main
exec_main_lem execve undefined fn argv env child_setup =
    rw (make_argv-copies fn argv, exec_main, make_env-copies env)
