-- ===== src/Exec.antt =====
-- src/core/posix/exec.cpp: the arrays that a child hands to execve.
pub mod Arrays
pub mod Running
use process_cpp.Prelude.{
  ℕ, zero, suc, ◌+◌, ℤ, Option, none, some, List, [], ◌∷◌, ◌++◌, length, replicate,
}
use process_cpp.Effect.{Effect, Error, pure, ◌>>=◌, ◌>>◌}
use process_cpp.Descriptors.{FdCalls}
use process_cpp.ProcessCalls.{ProcessCalls}
use process_cpp.StandardStream.{StandardStream}
use process_cpp.Text.{Str, c_str}
use process_cpp.Environment.{equals_sign}
use process_cpp.Session.{Session}
use process_cpp.Fork.{Forked, fork}

-- A cell of an array of `char*`: not yet written, the null pointer, or a copy of a C string.
pub data Cell : Type 0 where
  unwritten : Cell
  null : Cell
  string : Str → Cell

-- `*it = c`, at the place `i`: `none` is a write outside the array.
unfoldable pub store : List Cell → ℕ → Cell → Option (List Cell)
store [] i c = none
store (x ∷ xs) zero c = some (c ∷ xs)
store (x ∷ xs) (suc i) c = elim (store xs i c) [ none ↦ none | some ys ↦ some (x ∷ ys) ]

-- A loop that writes copies of the strings from the place `i` on, and the null pointer behind them.
unfoldable pub store_all : List Cell → ℕ → List Str → Option (List Cell)
store_all cells i [] = store cells i null
store_all cells i (s ∷ rest) = elim (store cells i (string (c_str s))) [
  | none ↦ none
  | some cells' ↦ store_all cells' (i + 1) rest
]

-- `pargv`, of argv.size() + 2 cells: the program, its arguments, and the null pointer.
unfoldable pub make_argv : Str → List Str → Option (List Cell)
make_argv fn argv = elim (store (replicate (length argv + 2) unwritten) 0 (string (c_str fn))) [
  | none ↦ none
  | some cells ↦ store_all cells 1 argv
]

-- `pair.first + "=" + pair.second`
abbrev pub env_line : Str × Str → Str
env_line (first, second) = first ++ (equals_sign ∷ second)

unfoldable pub env_lines : List (Str × Str) → List Str
env_lines [] = []
env_lines (p ∷ rest) = env_line p ∷ env_lines rest

-- `penv`, of env.size() + 1 cells. The map comes as the list of its pairs in the order of its keys.
unfoldable pub make_env : List (Str × Str) → Option (List Cell)
make_env env = store_all (replicate (length env + 1) unwritten) 0 (env_lines env)

-- The main function of the child. `execve` gives the value of the call where it returns; a write outside
-- an array is left to `undefined`, which Arrays shows is not reached.
module _ {W : Type 0} (execve : Str → List Cell → List Cell → Effect W ℤ)
    (undefined : Effect W ℤ) where
  unfoldable pub exec_main : Str → List Str → List (Str × Str) → Effect W (Unit {0}) → Effect W ℤ
  exec_main fn argv env child_setup = elim (make_argv fn argv) [
    | none ↦ undefined
    | some pargv ↦ elim (make_env env) [
      | none ↦ undefined
      | some penv ↦ (do child_setup; execve (c_str fn) pargv penv)
    ]
  ]

  -- exec with a function for the set-up of the child.
  unfoldable pub exec :
      FdCalls W
      → ProcessCalls W
      → (Error → W → W)
      → Str
      → List Str
      → List (Str × Str)
      → StandardStream
      → Effect W (Unit {0})
      → Session W
      → Forked W
  exec fd os report fn argv env flags child_setup =
      fork fd os report (exec_main fn argv env child_setup) flags

  -- exec without one: the empty function.
  unfoldable pub exec_plain :
      FdCalls W
      → ProcessCalls W
      → (Error → W → W)
      → Str
      → List Str
      → List (Str × Str)
      → StandardStream
      → Session W
      → Forked W
  unfolding exec
  exec_plain fd os report fn argv env flags = exec fd os report fn argv env flags (pure tt)
