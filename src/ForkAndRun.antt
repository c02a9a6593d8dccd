-- ===== src/ForkAndRun.antt =====
-- src/core/testing/fork_and_run.cpp: a service and a client, each in a process of its own.
pub mod Cleanup
pub mod Testp
pub mod Verdict
use Prim.Native.Nat.{bit_and, bit_or}
use process_cpp.Prelude.{ℕ, ◌%◌, ◌^◌, ℤ, eqb, Bool, true, false, Option, none, some, if◌then◌else◌}
use process_cpp.Effect.{Effect, Result, Error, ok, throw, pure, ◌>>=◌, ◌>>◌}
use process_cpp.Descriptors.{FdCalls}
use process_cpp.ProcessCalls.{ProcessCalls}
use process_cpp.StandardStream
use process_cpp.Wait.{Status, exited, Detail, if_exited, Outcome, Flags, WaitMacros, wait_for}
use process_cpp.Process.{send_signal_or_throw}
use process_cpp.ChildProcess.{ChildProcess, destroy_private}
use process_cpp.Session.{Session, on_world}
use process_cpp.Fork.{Ending, returns, exits, failure, fork}

-- enum class ForkAndRunResult
abbrev pub ForkAndRunResult : Type 0
ForkAndRunResult = ℕ

abbrev pub empty : ForkAndRunResult
empty = 0

abbrev pub client_failed : ForkAndRunResult
client_failed = 1

abbrev pub service_failed : ForkAndRunResult
service_failed = 2

unfoldable pub operator_or : ForkAndRunResult → ForkAndRunResult → ForkAndRunResult
operator_or lhs rhs = bit_or lhs rhs % 2 ^ 32

unfoldable pub operator_and : ForkAndRunResult → ForkAndRunResult → ForkAndRunResult
operator_and lhs rhs = bit_and lhs rhs % 2 ^ 32

-- The two switches on the result of wait_for: whether the flag is set.
abbrev exit_failed : Detail → Bool
exit_failed (if_exited status) = eqb status failure
exit_failed _ = false

unfoldable pub failed : Outcome → Bool
failed o = elim o.status [ exited ↦ exit_failed o.detail | _ ↦ true ]

unfoldable pub add_if : Bool → ForkAndRunResult → ForkAndRunResult → ForkAndRunResult
unfolding operator_or
add_if b result flag = if b then operator_or result flag else result

-- The numbers of the platform that the code uses: SIGTERM, SIGKILL and WUNTRACED.
pub record Numbers : Type 0 where
  pub sig_term : ℤ
  pub sigkill : ℤ
  pub untraced : Flags

module _ {W : Type 0} (fd : FdCalls W) (os : ProcessCalls W) (m : WaitMacros)
    (numbers : Numbers) where
  open numbers use {sig_term, sigkill, untraced}

  -- What follows the two forks.
  unfoldable pub supervise :
      (service_process client_process : ChildProcess) → Effect W ForkAndRunResult
  supervise service_process client_process = do
    client_result ← wait_for os m client_process.pid untraced
    let result = add_if (failed client_result) empty client_failed
    send_signal_or_throw os service_process.process.signalable sig_term
    service_result ← wait_for os m service_process.pid untraced
    pure (add_if (failed service_result) result service_failed)

  -- A ChildProcess that goes out of scope.
  abbrev pub drop : {A : Type 0} → ChildProcess → Result A × Session W → Result A × Session W
  drop c (r, s) = (r, record s { world = destroy_private fd os sigkill c.private s.world })

  -- A fork as its caller goes on from it: the process in which it does not return is `none`.
  abbrev pub caller : Ending W → Option (Result ChildProcess × Session W)
  caller (returns r s) = some (r, s)
  caller (exits status w) = none

  module _ (report : Error → W → W) (service client : Effect W ℤ) where
    fork_main : Effect W ℤ → Session W → Option (Result ChildProcess × Session W)
    fork_main main s = caller (fork fd os report main StandardStream.empty s).parent

    -- The client is destroyed before the service, whether the call returns or throws.
    unfoldable pub with_client :
        ChildProcess → Result ChildProcess × Session W → Result ForkAndRunResult × Session W
    unfolding supervise
    with_client service_process (throw e, s) = drop service_process (throw e, s)
    with_client service_process (ok client_process, s) =
        drop service_process
          (drop client_process (on_world (supervise service_process client_process) s))

    unfoldable pub with_service :
        Result ChildProcess × Session W → Option (Result ForkAndRunResult × Session W)
    unfolding with_client fork_main
    with_service (throw e, s) = some (throw e, s)
    with_service (ok service_process, s) = elim (fork_main client s) [
      | none ↦ none
      | some r ↦ some (with_client service_process r)
    ]

    unfoldable pub fork_and_run : Session W → Option (Result ForkAndRunResult × Session W)
    unfolding with_service fork_main
    fork_and_run s = elim (fork_main service s) [ none ↦ none | some r ↦ with_service r ]
