-- ===== src/Environment/Lines.antt =====
-- How for_each reads the lines of the environment.
use process_cpp.Prelude.{
  ℕ, suc, ◌+◌, ◌%◌, ◌^◌, ◌<◌, ◌≡◌, refl, some, List, [], ◌∷◌, ◌++◌, map, length, length-append,
  take, arith, inl, inr, ap, ◌∙◌,
}
use process_cpp.Text.{
  Str, npos, find_first_of, find_first_of-append, find_first_of_free, substr, substr_lem,
  IsFree-cases, take-append, drop-append, take_all, IsFree,
}
use process_cpp.Environment.{equals_sign, split_line, for_each_line}

-- `key=value`
abbrev pub line_of : Str × Str → Str
line_of (key, value) = key ++ equals_sign ∷ value

-- A name has no equals sign, and the line fits into a string.
abbrev pub IsVariable : Str × Str → Type 0
IsVariable (key, value) = IsFree equals_sign key × (length (line_of (key, value)) < npos)

abbrev pub AllVariables : List (Str × Str) → Type 0
AllVariables [] = Unit {0}
AllVariables (p ∷ rest) = IsVariable p × AllVariables rest

split_line_at :
    (line : Str) (at next : ℕ) (key value : Str)
    → find_first_of line equals_sign ≡ at
    → (at + 1) % 2 ^ 64 ≡ next
    → substr line 0 at ≡ some key
    → substr line next npos ≡ some value
    → split_line line ≡ some (key, value)
unfolding split_line
split_line_at line at next key value a b c d =
    let front : substr line 0 (find_first_of line equals_sign) ≡ some key =
      ap (substr line 0) a ∙ c in
    let back : substr line ((find_first_of line equals_sign + 1) % 2 ^ 64) npos ≡ some value =
      ap (λ (p : ℕ). substr line ((p + 1) % 2 ^ 64) npos) a
      ∙ ap (λ (p : ℕ). substr line p npos) b
      ∙ d in
    rw (front, back, split_line)

-- The line of a variable is split into its name and its value.
pub split_line-line_of : (p : Str × Str) → IsVariable p → split_line (line_of p) ≡ some p
split_line-line_of (key, value) (free, short) =
    let line = key ++ equals_sign ∷ value in
    let size : length line ≡ length key + suc (length value) = length-append key _ in
    let key_first : substr line 0 (length key) ≡ some key =
      substr_lem line 0 (length key) (omega arith)
      ∙ ap some (take-append key (equals_sign ∷ value)) in
    let value_last : substr line (suc (length key)) npos ≡ some value =
      substr_lem line (suc (length key)) npos (omega (arith, size))
      ∙ ap (λ (v : Str). some (take npos v)) (drop-append key value equals_sign)
      ∙ ap some (take_all npos value (omega (arith, size, short))) in
    let next : (length key + 1) % 2 ^ 64 ≡ suc (length key) = omega (arith, size, short) in
    split_line_at line (length key) (suc (length key)) key value
      (find_first_of-append equals_sign key value free) next key_first value_last

-- A line without an equals sign is passed on whole, as the name and as the value.
pub split_line_bare :
    (line : Str)
    → IsFree equals_sign line
    → length line < npos
    → split_line line ≡ some (line, line)
split_line_bare line free short =
    let whole : substr line 0 npos ≡ some line =
      substr_lem line 0 npos (omega arith) ∙ ap some (take_all npos line (omega arith)) in
    split_line_at line npos 0 line line (find_first_of_free equals_sign line free) refl whole whole

-- The functor, called for each pair in turn.
abbrev pub call_all : {S : Type 0} → (Str → Str → S → S) → List (Str × Str) → S → S
call_all functor [] s = s
call_all functor ((key, value) ∷ rest) s = call_all functor rest (functor key value s)

-- On an environment of variables for_each calls its functor for each name with its value, once
-- and in the order of the lines, where the names have no equals sign and each line is shorter
-- than the largest size.
pub for_each_line-call_all :
    {S : Type 0} (functor : Str → Str → S → S) (ps : List (Str × Str)) (s : S)
    → AllVariables ps
    → for_each_line functor (map line_of ps) s ≡ some (call_all functor ps s)
unfolding for_each_line
for_each_line-call_all functor [] s h = refl
for_each_line-call_all functor ((key, value) ∷ ps) s (h, t) =
    rw (split_line-line_of (key, value) h, for_each_line)
      (for_each_line-call_all functor ps (functor key value s) t)

abbrev pub AllShort : List Str → Type 0
AllShort [] = Unit {0}
AllShort (line ∷ rest) = (length line < npos) × AllShort rest

-- Whatever the lines are, if each is shorter than the largest size, then no position is out of
-- range, so that for_each does not end the program: it comes to the end of the environment.
pub for_each_line_total :
    {S : Type 0} (functor : Str → Str → S → S) (lines : List Str) (s : S)
    → AllShort lines
    → (s' : S) × (for_each_line functor lines s ≡ some s')
unfolding for_each_line
for_each_line_total functor [] s h = (s, refl)
for_each_line_total functor (line ∷ lines) s (h, t) = elim (IsFree-cases equals_sign line) [
  | inl free ↦
      let (s', e) = for_each_line_total functor lines (functor line line s) t in
      (s', rw (split_line_bare line free h, for_each_line) e)
  | inr (key, value, free, same) ↦
      let (s', e) = for_each_line_total functor lines (functor key value s) t in
      let short : length (line_of (key, value)) < npos = rw (← same) h in
      (s', rw (same, split_line-line_of (key, value) (free, short), for_each_line) e)
]
