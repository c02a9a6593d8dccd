-- ===== src/Backtrace/Names.antt =====
-- Which part of a symbol's text is demangled, and which frames are visited:
-- src/core/posix/backtrace.cpp.
use process_cpp.Prelude.{
  ℕ, suc, ◌+◌, ◌-◌, ◌%◌, ◌^◌, ◌≤◌, ◌<◌, ◌≡◌, refl, ap, ◌∙◌, true, false, Option, some, [], ◌∷◌,
  ◌++◌, ◌==◌, length, length-append, take, drop, if◌then◌else◌, arith,
}
use process_cpp.Text.{
  Str, npos, find_first_of, find_first_of-append, find_first_of_free, find_last_from, find_last_of,
  substr, substr_lem, take-append, drop-append, IsFree,
}
use process_cpp.Backtrace.{
  open_paren, close_paren, plus_sign, minus, erase_plus, demangle_or_raw, make_symbol,
}

find_last_from_free : (c i best : ℕ) (s : Str) → IsFree c s → find_last_from c i best s ≡ best
unfolding find_last_from
find_last_from_free c i best [] h = refl
find_last_from_free c i best (x ∷ s) (h, t) = rw h (find_last_from_free c (suc i) best s t)

find_last_from-append :
    (c i best : ℕ) (s rest : Str)
    → IsFree c rest
    → find_last_from c i best (s ++ c ∷ rest) ≡ i + length s
unfolding find_last_from
find_last_from-append c i best [] rest h = ground (arith, find_last_from_free c (suc i) i rest h)
find_last_from-append c i best (x ∷ s) rest h =
    find_last_from-append c (suc i) (if x == c then i else best) s rest h ∙ omega arith

find_last_of-append :
    (c : ℕ) (s rest : Str) → IsFree c rest → find_last_of (s ++ c ∷ rest) c ≡ length s
unfolding find_last_of
find_last_of-append c s rest h = find_last_from-append c 0 npos s rest h ∙ omega arith

minus_lem : (a b : ℕ) → b ≤ a → a < npos → minus a b ≡ a - b
unfolding minus
minus_lem a b h short = omega arith

-- `file(name` up to the name's last character `x`, then `)` and the rest.
abbrev pub bracketed : Str → Str → ℕ → Str → Str
bracketed file name x tail = file ++ open_paren ∷ ((name ++ x ∷ []) ++ close_paren ∷ tail)

pub append_assoc : (xs ys zs : Str) → (xs ++ ys) ++ zs ≡ xs ++ (ys ++ zs)
append_assoc [] ys zs = refl
append_assoc (x ∷ xs) ys zs = ap (◌∷◌ x) (append_assoc xs ys zs)

split_brackets :
    (file inside tail : Str)
    → file ++ open_paren ∷ (inside ++ close_paren ∷ tail)
      ≡ (file ++ open_paren ∷ inside) ++ close_paren ∷ tail
split_brackets [] inside tail = refl
split_brackets (x ∷ file) inside tail = ap (◌∷◌ x) (split_brackets file inside tail)

make_symbol_at :
    (cxa_demangle : Str → Option Str) (raw name : Str) (first last : ℕ)
    → find_first_of raw open_paren ≡ first
    → find_last_of raw close_paren ≡ last
    → suc (suc first) ≤ last
    → last < npos
    → substr raw (suc first) (last - suc (suc first)) ≡ some name
    → make_symbol cxa_demangle raw ≡ some (demangle_or_raw cxa_demangle raw (erase_plus name))
unfolding make_symbol
make_symbol_at d raw name first last a b le short e =
    let found_first : (find_first_of raw open_paren == npos) ≡ false = ground arith in
    let found_last : (find_last_of raw close_paren == npos) ≡ false = ground arith in
    let start : (first + 1) % 2 ^ 64 ≡ suc first = omega arith in
    let size : minus (minus last 1) (suc first) ≡ last - suc (suc first) =
      ap (λ (n : ℕ). minus n (suc first)) (minus_lem last 1 (omega arith) short)
      ∙ minus_lem (last - 1) (suc first) (omega arith) (omega arith)
      ∙ omega arith in
    rw (found_first, found_last, a, b, start, size, e) refl

erase_plus_free : (name : Str) → IsFree plus_sign name → erase_plus name ≡ name
unfolding erase_plus
erase_plus_free name h =
    let none_found : (find_first_of name plus_sign == npos) ≡ true =
      ground (arith, find_first_of_free plus_sign name h) in
    rw none_found refl

erase_plus_at :
    (name offset : Str)
    → IsFree plus_sign name
    → length name < npos
    → erase_plus (name ++ plus_sign ∷ offset) ≡ name
unfolding erase_plus
erase_plus_at name offset h short =
    let at : find_first_of (name ++ plus_sign ∷ offset) plus_sign ≡ length name =
      find_first_of-append plus_sign name offset h in
    let found : (find_first_of (name ++ plus_sign ∷ offset) plus_sign == npos) ≡ false =
      ground arith in
    rw (found, at) (take-append name (plus_sign ∷ offset))

make_symbol-bracketed :
    (cxa_demangle : Str → Option Str) (file name : Str) (x : ℕ) (tail : Str)
    → IsFree open_paren file
    → IsFree close_paren tail
    → length (bracketed file name x tail) < npos
    → make_symbol cxa_demangle (bracketed file name x tail)
      ≡ some (demangle_or_raw cxa_demangle (bracketed file name x tail) (erase_plus name))
make_symbol-bracketed d file name x tail free last_free short =
    let inside = name ++ x ∷ [] in
    let raw = file ++ open_paren ∷ (inside ++ close_paren ∷ tail) in
    let front = file ++ open_paren ∷ inside in
    let split : raw ≡ front ++ close_paren ∷ tail = split_brackets file inside tail in
    let at_inside : drop (suc (length file)) raw ≡ inside ++ close_paren ∷ tail =
      drop-append file (inside ++ close_paren ∷ tail) open_paren in
    let name_first : inside ++ close_paren ∷ tail ≡ name ++ x ∷ close_paren ∷ tail =
      append_assoc name (x ∷ []) (close_paren ∷ tail) in
    let size_front : length front ≡ length file + suc (length name + 1) =
      omega (arith, length-append file (open_paren ∷ inside), length-append name (x ∷ [])) in
    let size_raw : length raw ≡ length front + suc (length tail) =
      ap length split ∙ length-append front (close_paren ∷ tail) in
    make_symbol_at d raw name (length file) (length front)
      (find_first_of-append open_paren file (inside ++ close_paren ∷ tail) free)
      (ap (λ (s : Str). find_last_of s close_paren) split
        ∙ find_last_of-append close_paren front tail last_free)
      (omega (arith, size_front)) (omega (arith, size_raw, short))
      (substr_lem raw (suc (length file)) (length front - suc (suc (length file)))
          (omega (arith, size_raw, size_front))
        ∙ ap (λ (s : Str). some (take (length front - suc (suc (length file))) s))
            (at_inside ∙ name_first)
        ∙ ap (λ (n : ℕ). some (take n (name ++ x ∷ close_paren ∷ tail))) (omega (arith, size_front))
        ∙ ap some (take-append name (x ∷ close_paren ∷ tail)))

name_short :
    (file name offset : Str) (x : ℕ) (tail : Str)
    → length (bracketed file (name ++ plus_sign ∷ offset) x tail) < npos
    → length name < npos
name_short file name offset x tail short =
    let inside = (name ++ plus_sign ∷ offset) ++ x ∷ [] in
    omega (
      arith,
      short,
      length-append file (open_paren ∷ (inside ++ close_paren ∷ tail)),
      length-append inside (close_paren ∷ tail),
      length-append (name ++ plus_sign ∷ offset) (x ∷ []),
      length-append name (plus_sign ∷ offset),
    )

-- What stands in a symbol's brackets and has no plus sign loses its last character before it is
-- demangled; for texts shorter than the largest size and with brackets that open and close once.
pub make_symbol_short :
    (cxa_demangle : Str → Option Str) (file name : Str) (x : ℕ) (tail : Str)
    → IsFree open_paren file
    → IsFree plus_sign name
    → IsFree close_paren tail
    → length (bracketed file name x tail) < npos
    → make_symbol cxa_demangle (bracketed file name x tail)
      ≡ some (demangle_or_raw cxa_demangle (bracketed file name x tail) name)
make_symbol_short d file name x tail free no_plus last_free short =
    make_symbol-bracketed d file name x tail free last_free short
    ∙ ap (λ (s : Str). some (demangle_or_raw d (bracketed file name x tail) s))
        (erase_plus_free name no_plus)

-- Of a symbol `file(name+offset)tail` with a non-empty offset, the name up to the plus sign is
-- demangled, and the symbol's text stands for it when that fails; for texts shorter than the largest size, where `file` has no
-- opening bracket, `name` no plus sign and `tail` no closing bracket.
pub make_symbol_named :
    (cxa_demangle : Str → Option Str) (file name offset : Str) (x : ℕ) (tail : Str)
    → IsFree open_paren file
    → IsFree plus_sign name
    → IsFree close_paren tail
    → length (bracketed file (name ++ plus_sign ∷ offset) x tail) < npos
    → make_symbol cxa_demangle (bracketed file (name ++ plus_sign ∷ offset) x tail)
      ≡ some
          (demangle_or_raw cxa_demangle (bracketed file (name ++ plus_sign ∷ offset) x tail) name)
make_symbol_named d file name offset x tail free no_plus last_free short =
    make_symbol-bracketed d file (name ++ plus_sign ∷ offset) x tail free last_free short
    ∙ ap
        (λ (s : Str).
          some (demangle_or_raw d (bracketed file (name ++ plus_sign ∷ offset) x tail) s))
        (erase_plus_at name offset no_plus (name_short file name offset x tail short))
