-- ===== src/ForkAndRun/Testp/Passing.antt =====
-- A test in a process of its own passes exactly if its code has run without a failure.
use process_cpp.Prelude.{ℕ, ℤ, ◌≡◌, Bool, true, false, some}
use process_cpp.Effect.{Effect, Result, Error, ok}
use process_cpp.Descriptors.{FdCalls, FdLaws}
use process_cpp.ProcessCalls.{ProcessCalls}
use process_cpp.StandardStream
use process_cpp.Wait.{Detail, WaitMacros}
use process_cpp.Wait.Decoding.{MacroLaws}
use process_cpp.ChildProcess.{ChildProcess}
use process_cpp.Session.{Session}
use process_cpp.Fork
use process_cpp.Fork.Serving.{StandardLinks}
use process_cpp.ForkAndRun.{Numbers}
use process_cpp.ForkAndRun.Testp.{testp}

-- What the code of a test has come to: HasFailure returned false behind it.
abbrev pub succeeded : Result Bool → Bool
succeeded (ok false) = true
succeeded _ = false

-- The code with which a process exits whose test came to `r`.
abbrev exit_code : Result Bool → ℕ
exit_code (ok false) = 0
exit_code _ = 1

module _ {W : Type 0} (fd : FdCalls W) (lf : FdLaws fd) (os : ProcessCalls W)
    (report : Error → W → W) (code : Effect W Bool) where
  module _ (m : WaitMacros) (l : MacroLaws m) (numbers : Numbers) (other : Detail → ℤ) where
    open numbers use {untraced}

    -- What the test comes to: the code has run in some state of the child, with the standard streams of
    -- the caller, and the expectations say how it went.
    pub record IsVerdict (s s1 : Session W) : Type 0 where
      pub v : W
      pub i : ℕ
      pub o : ℕ
      pub e : ℕ
      pub links : StandardLinks fd lf StandardStream.empty s.world v i o e
      pub after : Session W
      pub verdict :
          testp fd os m numbers other report code s ≡ some (ok (true, succeeded (code v).0), after)
