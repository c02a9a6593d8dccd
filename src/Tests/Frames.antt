-- ===== src/Tests/Frames.antt =====
-- Examples for backtrace.cpp and print_backtrace.
use process_cpp.Prelude.{◌+◌, ℕ, ◌≡◌, refl, Bool, false, Option, none, some, List, [], ◌∷◌, arith}
use process_cpp.Text.{Str}
use process_cpp.Backtrace.Visiting.{AreShort, AreFrames, call_until, visit_with_handler-call_until}
use process_cpp.Backtrace.Printing.{Format, ArePrinted, print_backtrace, print_backtrace-ArePrinted}
use process_cpp.Backtrace.{
  Frame, visited, visit_with_handler, make_symbol, demangle_or_raw, plus_sign,
}
use process_cpp.Backtrace.Names.{bracketed, make_symbol_named, make_symbol_short}

abbrev no_demangle : Str → Option Str
no_demangle s = none

-- f(ab+1)x
make_symbol_named_example :
    make_symbol no_demangle (bracketed (102 ∷ []) (97 ∷ 98 ∷ plus_sign ∷ []) 49 (120 ∷ []))
    ≡ some (
        demangle_or_raw no_demangle
          (bracketed (102 ∷ []) (97 ∷ 98 ∷ plus_sign ∷ []) 49 (120 ∷ []))
          (97 ∷ 98 ∷ []))
make_symbol_named_example =
    make_symbol_named no_demangle (102 ∷ []) (97 ∷ 98 ∷ []) [] 49 (120 ∷ []) (refl, tt)
      (refl, (refl, tt)) (refl, tt) (omega arith)

-- f(ab)
make_symbol_short_example :
    make_symbol no_demangle (bracketed (102 ∷ []) (97 ∷ []) 98 [])
    ≡ some (demangle_or_raw no_demangle (bracketed (102 ∷ []) (97 ∷ []) 98 []) (97 ∷ []))
make_symbol_short_example =
    make_symbol_short no_demangle (102 ∷ []) (97 ∷ []) 98 [] (refl, tt) (refl, tt) tt (omega arith)

-- Two frames, with the symbols "a" and "b", and a stream that prints no numbers.
abbrev two_frames : List (ℕ × Str)
two_frames = (16, 97 ∷ []) ∷ (32, 98 ∷ []) ∷ []

short_frames : AreShort two_frames
unfolding AreShort
short_frames = (omega arith, (omega arith, tt))

abbrev no_numbers : Format
no_numbers = record { dec = λ width n. []; hex = λ width n. [] }

abbrev only_first : Frame → ℕ → Bool × ℕ
only_first frame n = (false, n + 1)

visit_with_handler-call_until_example :
    (frames : List Frame) × AreFrames no_demangle 0 two_frames frames
    × (visit_with_handler no_demangle only_first two_frames 0
        ≡ visited (call_until only_first frames 0))
visit_with_handler-call_until_example =
    visit_with_handler-call_until no_demangle only_first two_frames 0 short_frames

print_backtrace-ArePrinted_example :
    (printed : Str) × ArePrinted no_demangle no_numbers (32 ∷ []) 0 two_frames printed
    × (print_backtrace no_demangle no_numbers (32 ∷ []) two_frames [] ≡ visited printed)
print_backtrace-ArePrinted_example =
    print_backtrace-ArePrinted no_demangle no_numbers (32 ∷ []) two_frames [] short_frames
