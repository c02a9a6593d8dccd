-- ===== src/ForkAndRun/Testp.antt =====
-- The macros TESTP and TESTP_F of include/core/testing/fork_and_run.h: a test that runs in a process
-- of its own.
pub mod Passing
use process_cpp.Prelude.{ℤ, pos, eqb, Bool, true, false, ◌&&◌, Option, none, some, if◌then◌else◌}
use process_cpp.Effect.{Effect, Result, Error, ok, throw, pure, ◌>>=◌}
use process_cpp.Descriptors.{FdCalls}
use process_cpp.ProcessCalls.{ProcessCalls}
use process_cpp.StandardStream
use process_cpp.Wait.{
  exited, Status, Detail, if_exited, if_signaled, if_stopped, unset, Outcome, WaitMacros, wait_for,
}
use process_cpp.ChildProcess.{ChildProcess}
use process_cpp.Session.{Session, on_world}
use process_cpp.Fork.{success, failure, fork}
use process_cpp.ForkAndRun.{Numbers, drop, caller}

-- The lambda `test`: the code of the test, which gives what HasFailure returns behind it.
unfoldable pub test : {W : Type 0} → Effect W Bool → Effect W ℤ
test code = code >>= λ has_failure. pure (if has_failure then failure else success)

-- The outcomes of the two expectations, in their order. What a read of `if_exited` gives where another
-- member of the union was written is a parameter.
unfoldable pub if_exited_status : (Detail → ℤ) → Detail → ℤ
if_exited_status other (if_exited status) = status
if_exited_status other detail = other detail

unfoldable pub has_exited : Status → Bool
has_exited exited = true
has_exited _ = false

unfoldable pub expectations : (Detail → ℤ) → Outcome → Bool × Bool
unfolding has_exited if_exited_status
expectations other o = (has_exited o.status, eqb success (if_exited_status other o.detail))

module _ {W : Type 0} (fd : FdCalls W) (os : ProcessCalls W) (m : WaitMacros) (numbers : Numbers)
    (other : Detail → ℤ) where
  open numbers use {sigkill, untraced}

  -- What follows the fork: wait_for and the expectations, and the end of the ChildProcess.
  unfoldable pub with_child : Result ChildProcess × Session W → Result (Bool × Bool) × Session W
  unfolding expectations
  with_child (throw e, s) = (throw e, s)
  with_child (ok child, s) =
      drop fd os m numbers child (
        on_world (wait_for os m child.pid untraced >>= λ result. pure (expectations other result))
          s)

  -- The test, in the process that runs the tests; `none` where the fork does not return to it. An
  -- exception leaves the test.
  unfoldable pub testp :
      (Error → W → W) → Effect W Bool → Session W → Option (Result (Bool × Bool) × Session W)
  unfolding test with_child
  testp report code s =
      elim (caller fd os m numbers (fork fd os report (test code) StandardStream.empty s).parent) [
        | none ↦ none
        | some r ↦ some (with_child r)
      ]
