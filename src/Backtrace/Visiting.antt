-- ===== src/Backtrace/Visiting.antt =====
-- Which frames visit_with_handler of src/core/posix/backtrace.cpp hands to its handler.
use process_cpp.Prelude.{
  ℕ, zero, suc, ◌+◌, ◌%◌, ◌^◌, ◌<◌, ◌≡◌, refl, sym, ap, subst, ◌∙◌, inl, inr, Bool, Bool-cases,
  true, false, Option, some, List, [], ◌∷◌, ◌++◌, ◌==◌, length, length-append, take, drop,
  if◌then◌else◌, arith,
}
use process_cpp.Text.{
  Str, npos, find_first_of, find_first_of-append, find_first_of_free, find_last_of, substr_lem,
  IsFree, IsFree-cases,
}
use process_cpp.Backtrace.{
  Frame, Symbol, Visit, visited, max_frames, open_paren, close_paren, minus, erase_plus,
  demangle_or_raw, make_symbol, visit_from, visit_with_handler,
}

-- Every text is shorter than the largest size.
unfoldable pub AreShort : List (ℕ × Str) → Type 0
AreShort [] = Unit {0}
AreShort ((pointer, text) ∷ rest) = (length text < npos) × AreShort rest

module _ (cxa_demangle : Str → Option Str) where
  abbrev unmangled : Str → Symbol
  unmangled text = record { raw = text; demangled = []; is_cxx = false }

  -- The text has a symbol.
  abbrev pub IsRead : Str → Type 0
  IsRead text =
      (symbol : Symbol) × (make_symbol cxa_demangle text ≡ some symbol) × (symbol.raw ≡ text)

  -- Where there is a bracket, substr is called with a position in the text.
  symbol_of_bracket :
      (front back : Str)
      → IsFree open_paren front
      → length (front ++ open_paren ∷ back) < npos
      → IsRead (front ++ open_paren ∷ back)
  unfolding make_symbol demangle_or_raw
  symbol_of_bracket front back free short =
      let raw = front ++ open_paren ∷ back in
      let size : length raw ≡ length front + suc (length back) =
        length-append front (open_paren ∷ back) in
      let at = find_first_of-append open_paren front back free in
      let found : (find_first_of raw open_paren == npos) ≡ false =
        ground (arith, at, size, short) in
      let start : (length front + 1) % 2 ^ 64 ≡ suc (length front) = omega (arith, size, short) in
      let n = minus (minus (find_last_of raw close_paren) 1) (suc (length front)) in
      let part = substr_lem raw (suc (length front)) n (omega (arith, size)) in
      elim (Bool-cases (find_last_of raw close_paren == npos)) [
        | inl e ↦ (unmangled raw, rw (found, e) refl, refl)
        | inr e ↦ (
          demangle_or_raw cxa_demangle raw (erase_plus (take n (drop (suc (length front)) raw))),
          rw (found, e, at, start, part) refl,
          refl,
        )
      ]

  -- The constructor of a symbol does not throw, for a text shorter than the largest size: whatever
  -- stands between the brackets, or without them, and keeps the text.
  pub make_symbol_total : (text : Str) → length text < npos → IsRead text
  unfolding make_symbol
  make_symbol_total text short = elim (IsFree-cases open_paren text) [
    | inl free ↦
        let none_found : (find_first_of text open_paren == npos) ≡ true =
          ground (arith, find_first_of_free open_paren text free) in
        (unmangled text, rw none_found refl, refl)
    | inr (front, back, free, e) ↦
        subst IsRead (sym e)
          (symbol_of_bracket front back free (subst (λ (t : Str). length t < npos) e short))
  ]

-- The frames from depth `i` on are those of the pointers and texts, in order.
unfoldable pub AreFrames : (Str → Option Str) → ℕ → List (ℕ × Str) → List Frame → Type 0
AreFrames d i [] [] = Unit {0}
AreFrames d i [] (f ∷ frames) = ⊥
AreFrames d i (x ∷ rest) [] = ⊥
AreFrames d i ((pointer, text) ∷ rest) (f ∷ frames) =
    (f.depth ≡ i)
    × (f.frame_pointer ≡ pointer)
    × (make_symbol d text ≡ some f.symbol)
    × (f.symbol.raw ≡ text)
    × AreFrames d (suc i) rest frames

-- The handler is called for frame after frame, until it returns false.
unfoldable pub call_until : {S : Type 0} → (Frame → S → Bool × S) → List Frame → S → S
call_until handler [] s = s
call_until handler (f ∷ frames) s =
    let (go_on, s') = handler f s in
    let after = call_until handler frames s' in if go_on then after else s'

if_visited :
    {S : Type 0} (b : Bool) (s t : S)
    → (if b then visited s else visited t) ≡ visited (if b then s else t)
if_visited true s t = refl
if_visited false s t = refl

module _ {S : Type 0} (cxa_demangle : Str → Option Str) (handler : Frame → S → Bool × S) where
  visit_from-call_until :
      (i : ℕ) (stack : List (ℕ × Str)) (s : S)
      → AreShort stack
      → (frames : List Frame) × AreFrames cxa_demangle i stack frames
        × (visit_from cxa_demangle handler i stack s ≡ visited (call_until handler frames s))
  unfolding visit_from AreShort AreFrames call_until
  visit_from-call_until i [] s short = ([], tt, refl)
  visit_from-call_until i ((pointer, text) ∷ rest) s (short, shorts) =
      let (symbol, e, raw) = make_symbol_total cxa_demangle text short in
      let frame : Frame = record { depth = i; frame_pointer = pointer; symbol = symbol } in
      let (frames, are, run) = visit_from-call_until (suc i) rest (handler frame s).1 shorts in
      (
        frame ∷ frames,
        (refl, refl, e, raw, are),
        rw (e, visit_from)
            (ap
                (λ (after : Visit S).
                  if (handler frame s).0 then after else visited (handler frame s).1)
                run
              ∙ if_visited (handler frame s).0 _ _),
      )

  take-AreShort : (n : ℕ) (stack : List (ℕ × Str)) → AreShort stack → AreShort (take n stack)
  unfolding AreShort
  take-AreShort zero stack h = tt
  take-AreShort (suc n) [] h = tt
  take-AreShort (suc n) ((pointer, text) ∷ rest) (h, hs) = (h, take-AreShort n rest hs)

  -- A visit hands to its handler the first 64 frames, in order and each with its depth, pointer and
  -- symbol, until the handler returns false, and throws nothing; for texts shorter than the largest
  -- size.
  pub visit_with_handler-call_until :
      (stack : List (ℕ × Str)) (s : S)
      → AreShort stack
      → (frames : List Frame) × AreFrames cxa_demangle 0 (take max_frames stack) frames
        × (visit_with_handler cxa_demangle handler stack s ≡ visited (call_until handler frames s))
  unfolding visit_with_handler
  visit_with_handler-call_until stack s short =
      visit_from-call_until 0 (take max_frames stack) s (take-AreShort max_frames stack short)
