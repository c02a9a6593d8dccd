-- ===== src/Text.antt =====
-- The operations of std::string that the library uses, on strings of bytes. Positions are of type
-- size_t, and npos is its largest value.
use process_cpp.Prelude.{
  ◌∙◌, ◌⊎◌, inl, inr, Bool-cases, ℕ, zero, suc, ◌+◌, ◌-◌, ◌^◌, ◌≤◌, ◌≡◌, refl, ap, Bool, true,
  false, ◌&&◌, Option, none, some, List, [], ◌∷◌, ◌++◌, ◌==◌, ltb, length, take, drop,
  if◌then◌else◌, arith, ==_iff,
}

abbrev pub Str : Type 0
Str = List ℕ

abbrev pub npos : ℕ
npos = 2 ^ 64 - 1

unfoldable pub str_eq : Str → Str → Bool
str_eq [] [] = true
str_eq (x ∷ xs) (y ∷ ys) = x == y && str_eq xs ys
str_eq _ _ = false

-- The first position of `c` at or behind position `i`, for the rest `s` of the string from there.
unfoldable pub find_from : ℕ → ℕ → Str → ℕ
find_from c i [] = npos
find_from c i (x ∷ s) = if x == c then i else find_from c (suc i) s

unfoldable pub find_first_of : Str → ℕ → ℕ
unfolding find_from
find_first_of s c = find_from c 0 s

-- The last position of `c`; `best` is the last one before position `i`.
unfoldable pub find_last_from : ℕ → ℕ → ℕ → Str → ℕ
find_last_from c i best [] = best
find_last_from c i best (x ∷ s) = find_last_from c (suc i) (if x == c then i else best) s

unfoldable pub find_last_of : Str → ℕ → ℕ
unfolding find_last_from
find_last_of s c = find_last_from c 0 npos s

-- `none` is the exception out_of_range.
unfoldable pub substr : Str → ℕ → ℕ → Option Str
substr s at n = if ltb (length s) at then none else some (take n (drop at s))

-- What a function that takes a C string sees of a std::string.
unfoldable pub c_str : Str → Str
c_str [] = []
c_str (x ∷ s) = if x == 0 then [] else x ∷ c_str s

-- `c` is not in the string.
abbrev pub IsFree : ℕ → Str → Type 0
IsFree c [] = Unit {0}
IsFree c (x ∷ s) = ((x == c) ≡ false) × IsFree c s

pub str_eq_refl : (s : Str) → str_eq s s ≡ true
unfolding str_eq
str_eq_refl [] = refl
str_eq_refl (x ∷ s) = ground (arith, str_eq_refl s)

pub str_eq→eq : (s t : Str) → str_eq s t ≡ true → s ≡ t
unfolding str_eq
str_eq→eq [] [] h = refl
str_eq→eq [] (y ∷ t) h = cc
str_eq→eq (x ∷ s) [] h = cc
str_eq→eq (x ∷ s) (y ∷ t) h = ground (arith, str_eq→eq s t)

pub c_str_free : (s : Str) → IsFree 0 s → c_str s ≡ s
unfolding c_str
c_str_free [] h = refl
c_str_free (x ∷ s) (h, t) = rw (h, c_str_free s t)

pub take_all : (n : ℕ) (s : Str) → length s ≤ n → take n s ≡ s
take_all zero [] h = refl
take_all zero (x ∷ s) h = absurd (omega arith)
take_all (suc n) [] h = refl
take_all (suc n) (x ∷ s) h = ap (◌∷◌ x) (take_all n s (omega arith))

pub find_from_free : (c i : ℕ) (s : Str) → IsFree c s → find_from c i s ≡ npos
unfolding find_from
find_from_free c i [] h = refl
find_from_free c i (x ∷ s) (h, t) = rw h (find_from_free c (suc i) s t)

-- Behind a part without `c` the first `c` is where the part ends.
pub find_from-append :
    (c i : ℕ) (s rest : Str) → IsFree c s → find_from c i (s ++ c ∷ rest) ≡ i + length s
unfolding find_from
find_from-append c i [] rest h = ground arith
find_from-append c i (x ∷ s) rest (h, t) = rw h (omega (arith, find_from-append c (suc i) s rest t))

pub take-append : (s rest : Str) → take (length s) (s ++ rest) ≡ s
take-append [] rest = refl
take-append (x ∷ s) rest = ap (◌∷◌ x) (take-append s rest)

pub drop-append : (s rest : Str) (c : ℕ) → drop (suc (length s)) (s ++ c ∷ rest) ≡ rest
drop-append [] rest c = refl
drop-append (x ∷ s) rest c = drop-append s rest c

pub substr_lem : (s : Str) (at n : ℕ) → at ≤ length s → substr s at n ≡ some (take n (drop at s))
unfolding substr
substr_lem s at n h = ground arith

pub find_first_of_free : (c : ℕ) (s : Str) → IsFree c s → find_first_of s c ≡ npos
unfolding find_first_of
find_first_of_free c s h = find_from_free c 0 s h

pub find_first_of-append :
    (c : ℕ) (s rest : Str) → IsFree c s → find_first_of (s ++ c ∷ rest) c ≡ length s
unfolding find_first_of
find_first_of-append c s rest h = find_from-append c 0 s rest h ∙ omega arith

-- A string has no `c`, or it has a first one.
pub IsFree-cases :
    (c : ℕ) (s : Str)
    → IsFree c s ⊎ ((front : Str) × (back : Str) × IsFree c front × (s ≡ front ++ c ∷ back))
IsFree-cases c [] = inl tt
IsFree-cases c (x ∷ s) = elim (Bool-cases (x == c)) [
  | inl e ↦ inr ([], s, tt, ap (λ (y : ℕ). y ∷ s) ((==_iff x c).0 e))
  | inr e ↦ elim (IsFree-cases c s) [
    | inl f ↦ inl (e, f)
    | inr (front, back, f, same) ↦ inr (x ∷ front, back, (e, f), ap (◌∷◌ x) same)
  ]
]
