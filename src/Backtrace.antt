-- ===== src/Backtrace.antt =====
-- src/core/posix/backtrace.cpp: the symbols of a backtrace's frames, and the visit of the frames.
pub mod Names
pub mod Printing
pub mod Visiting
use process_cpp.Prelude.{
  ℕ, suc, ◌+◌, ◌-◌, ◌%◌, ◌^◌, Bool, true, false, ◌&&◌, not, Option, none, some, List, [], ◌∷◌, ◌==◌,
  take, if◌then◌else◌,
}
use process_cpp.Text.{Str, npos, find_first_of, find_last_of, substr}

-- '(', ')' and '+'.
abbrev pub open_paren : ℕ
open_paren = 40

abbrev pub close_paren : ℕ
close_paren = 41

abbrev pub plus_sign : ℕ
plus_sign = 43

pub record Symbol : Type 0 where
  pub raw : Str
  pub demangled : Str
  pub is_cxx : Bool

-- a - b of size_t, which wraps around.
unfoldable pub minus : ℕ → ℕ → ℕ
minus a b = (a + (2 ^ 64 - b % 2 ^ 64)) % 2 ^ 64

-- `mangled_symbol.erase(plus)` where there is a plus sign.
unfoldable pub erase_plus : Str → Str
erase_plus mangled =
    let plus = find_first_of mangled plus_sign in
    if plus == npos then mangled else take plus mangled

module _ (cxa_demangle : Str → Option Str) where
  -- The name and whether it was mangled: abi::__cxa_demangle returns `none` for null or a status.
  unfoldable pub demangle : Str → Str × Bool
  demangle symbol = elim (cxa_demangle symbol) [ none ↦ ([], false) | some s ↦ (s, true) ]

  unfoldable pub demangle_or_raw : Str → Str → Symbol
  unfolding demangle
  demangle_or_raw raw mangled =
      let (name, cxx) = demangle mangled in
      record { raw = raw; demangled = if cxx then name else raw; is_cxx = cxx }

  -- The constructor Symbol(const char*). `none` is the exception out_of_range of substr.
  unfoldable pub make_symbol : Str → Option Symbol
  unfolding minus find_first_of find_last_of
  make_symbol raw =
      let first = find_first_of raw open_paren in
      let last = find_last_of raw close_paren in
      if not (first == npos) && not (last == npos)
      then elim (substr raw ((first + 1) % 2 ^ 64) (minus (minus last 1) ((first + 1) % 2 ^ 64))) [
        | none ↦ none
        | some mangled ↦ some (demangle_or_raw raw (erase_plus mangled))
      ]
      else some (record { raw = raw; demangled = []; is_cxx = false })

-- struct Frame: its symbol is that of the constructor, and the pointer a number.
pub record Frame : Type 0 where
  pub depth : ℕ
  pub frame_pointer : ℕ
  pub symbol : Symbol

abbrev pub max_frames : ℕ
max_frames = 64

-- How a visit ends: `faults` is the exception of a symbol.
pub data Visit (S : Type 0) : Type 0 where
  visited : S → Visit S
  faults : S → Visit S

module _ {S : Type 0} (cxa_demangle : Str → Option Str) (handler : Frame → S → Bool × S) where
  -- The loop over the frames from depth `i` on, each a pointer with the text of its symbol.
  unfoldable pub visit_from : ℕ → List (ℕ × Str) → S → Visit S
  visit_from i [] s = visited s
  visit_from i ((pointer, text) ∷ rest) s = elim (make_symbol cxa_demangle text) [
    | none ↦ faults s
    | some symbol ↦
        let (go_on, s') =
          handler (record { depth = i; frame_pointer = pointer; symbol = symbol }) s in
        let after = visit_from (suc i) rest s' in if go_on then after else visited s'
  ]

  -- ::backtrace gives as many frames of the stack as fit into the array.
  unfoldable pub visit_with_handler : List (ℕ × Str) → S → Visit S
  unfolding visit_from
  visit_with_handler stack s = visit_from 0 (take max_frames stack) s
