-- ===== src/Backtrace/Printing.antt =====
-- print_backtrace of src/core/posix/fork.cpp: what is printed of the frames.
use process_cpp.Prelude.{
  ℕ, ◌≡◌, refl, sym, ap, ◌∙◌, Bool, true, Option, some, suc, List, [], ◌∷◌, ◌++◌, take,
  if◌then◌else◌,
}
use process_cpp.Text.{Str}
use process_cpp.Backtrace.Names.{append_assoc}
use process_cpp.Backtrace.{Symbol, make_symbol, Frame, Visit, visited, visit_with_handler}
use process_cpp.Backtrace.Visiting.{AreShort, AreFrames, call_until, visit_with_handler-call_until}

-- How fork.cpp formats a number: in decimals and as an address, each in a field of a width.
pub record Format : Type 0 where
  pub dec : ℕ → ℕ → Str
  pub hex : ℕ → ℕ → Str

-- '@', ": " and the end of a line.
abbrev pub at_sign : Str
at_sign = 64 ∷ []

abbrev pub colon : Str
colon = 58 ∷ 32 ∷ []

abbrev pub end_line : Str
end_line = 10 ∷ []

-- What print_backtrace writes for a frame.
unfoldable pub frame_line : Format → Str → Frame → Str
frame_line f prefix frame =
    prefix
    ++ f.dec 2 frame.depth
    ++ at_sign
    ++ f.hex 14 frame.frame_pointer
    ++ colon
    ++ (if frame.symbol.is_cxx then frame.symbol.demangled else frame.symbol.raw)
    ++ end_line

-- The handler of print_backtrace, over what is written to the stream so far.
unfoldable pub print_frame : Format → Str → Frame → Str → Bool × Str
unfolding frame_line
print_frame f prefix frame out = (true, out ++ frame_line f prefix frame)

unfoldable pub print_backtrace :
    (Str → Option Str) → Format → Str → List (ℕ × Str) → Str → Visit Str
unfolding print_frame visit_with_handler
print_backtrace cxa_demangle f prefix stack out =
    visit_with_handler cxa_demangle (print_frame f prefix) stack out

-- The lines of the frames, one after the other.
unfoldable pub all_lines : Format → Str → List Frame → Str
all_lines f prefix [] = []
all_lines f prefix (frame ∷ frames) = frame_line f prefix frame ++ all_lines f prefix frames

append_nil : (s : Str) → s ++ [] ≡ s
append_nil [] = refl
append_nil (x ∷ s) = ap (◌∷◌ x) (append_nil s)

call_until-print_frame :
    (f : Format) (prefix : Str) (frames : List Frame) (out : Str)
    → call_until (print_frame f prefix) frames out ≡ out ++ all_lines f prefix frames
unfolding call_until print_frame all_lines
call_until-print_frame f prefix [] out = sym (append_nil out)
call_until-print_frame f prefix (frame ∷ frames) out =
    call_until-print_frame f prefix frames (out ++ frame_line f prefix frame)
    ∙ append_assoc out (frame_line f prefix frame) (all_lines f prefix frames)

-- What is to be printed of the frames from a depth on: a line for each, with the prefix, the depth in
-- a field of 2, '@', the address in a field of 14, ": ", the demangled name of a C++ symbol and the raw
-- text of any other, and the end of the line.
abbrev pub ArePrinted : (Str → Option Str) → Format → Str → ℕ → List (ℕ × Str) → Str → Type 0
ArePrinted d f prefix i [] printed = printed ≡ []
ArePrinted d f prefix i ((pointer, text) ∷ rest) printed =
    (symbol : Symbol) × (after : Str) × (make_symbol d text ≡ some symbol)
    × (printed
        ≡ (prefix
            ++ f.dec 2 i
            ++ (64 ∷ [])
            ++ f.hex 14 pointer
            ++ (58 ∷ 32 ∷ [])
            ++ (if symbol.is_cxx then symbol.demangled else text)
            ++ (10 ∷ []))
          ++ after)
    × ArePrinted d f prefix (suc i) rest after

all_lines-ArePrinted :
    (d : Str → Option Str) (f : Format) (prefix : Str) (i : ℕ) (stack : List (ℕ × Str))
    (frames : List Frame)
    → AreFrames d i stack frames
    → ArePrinted d f prefix i stack (all_lines f prefix frames)
unfolding AreFrames all_lines frame_line
all_lines-ArePrinted d f prefix i [] [] are = refl
all_lines-ArePrinted d f prefix i [] (frame ∷ frames) are = absurd are
all_lines-ArePrinted d f prefix i (x ∷ rest) [] are = absurd are
all_lines-ArePrinted d f prefix i ((pointer, text) ∷ rest) (frame ∷ frames)
      (depth, address, symbol, raw, are) =
    (
      frame.symbol,
      all_lines f prefix frames,
      symbol,
      rw (depth, address, raw) refl,
      all_lines-ArePrinted d f prefix (suc i) rest frames are,
    )

-- print_backtrace throws nothing, and writes after what is written already one line for each of the
-- first 64 frames, in order: the prefix, the depth, '@', the address, ": ", the demangled name of a
-- C++ symbol or the raw text of another, and the end of the line; for symbols' texts shorter than the
-- largest size.
pub print_backtrace-ArePrinted :
    (cxa_demangle : Str → Option Str) (f : Format) (prefix : Str) (stack : List (ℕ × Str))
    (out : Str)
    → AreShort stack
    → (printed : Str) × ArePrinted cxa_demangle f prefix 0 (take 64 stack) printed
      × (print_backtrace cxa_demangle f prefix stack out ≡ visited (out ++ printed))
unfolding print_backtrace
print_backtrace-ArePrinted d f prefix stack out short =
    let (frames, are, run) =
      visit_with_handler-call_until d (print_frame f prefix) stack out short in
    (
      all_lines f prefix frames,
      all_lines-ArePrinted d f prefix 0 (take 64 stack) frames are,
      run ∙ ap visited (call_until-print_frame f prefix frames out),
    )
