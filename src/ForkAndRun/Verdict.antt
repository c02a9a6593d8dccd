-- ===== src/ForkAndRun/Verdict.antt =====
-- What the result of fork_and_run says of the service and the client.
use process_cpp.Prelude.{ℕ, pos, minus_one, eqb, ◌≡◌, refl, Bool, true, false, not, ◌==◌, arith}
use process_cpp.Effect.{ok}
use process_cpp.ProcessCalls.{ProcessCalls}
use process_cpp.Descriptors.{FdCalls}
use process_cpp.Wait.{WaitMacros}
use process_cpp.Wait.Decoding.{
  Change, exits, killed, stops, continues, InRange, MacroLaws, describe, wait_for-expected, answer,
  reported,
}
use process_cpp.Process.{send_signal_or_throw}
use process_cpp.ChildProcess.{ChildProcess}
use process_cpp.ForkAndRun.{
  ForkAndRunResult, empty, client_failed, service_failed, operator_and, add_if, failed, Numbers,
  supervise,
}

-- Whether a flag is in a result.
abbrev pub flag : ForkAndRunResult → ForkAndRunResult → Bool
flag result f = not (operator_and result f == empty)

-- A process that has failed, in the sense of the result: it did not exit, or it exited with the code of
-- EXIT_FAILURE, which is 1.
abbrev pub has_failed : Change → Bool
has_failed (exits code) = code == 1
has_failed _ = true

failed-describe : (c : Change) → failed (describe c) ≡ has_failed c
unfolding failed
failed-describe (exits code) = refl
failed-describe (killed signal core) = refl
failed-describe (stops signal) = refl
failed-describe continues = refl

flags_of :
    (a b : Bool)
    → let r = add_if b (add_if a empty client_failed) service_failed in
      (flag r client_failed ≡ a) × (flag r service_failed ≡ b)
unfolding add_if operator_and
flags_of true true = (refl, refl)
flags_of true false = (refl, refl)
flags_of false true = (refl, refl)
flags_of false false = (refl, refl)

module _ {W : Type 0} (fd : FdCalls W) (os : ProcessCalls W) (m : WaitMacros) (l : MacroLaws m)
    (numbers : Numbers) where
  open numbers use {sig_term, untraced}

  -- Where the client's change of state is `c`, the signal to the service is sent, and the
  -- service's change is `d`, the call returns, and its result has the flag of each of the two
  -- exactly if that one has not exited, or has exited with the code of EXIT_FAILURE. The laws of
  -- the macros are given, and codes and signals are in their ranges.
  pub supervise_lem :
      (service client : ChildProcess) (w : W) (c d : Change) (i j : ℕ)
      → let w1 = (os.waitpid client.pid (pos untraced) w).1 in
        let w2 = (os.kill service.kill_pid sig_term w1).1 in
        InRange c
        → InRange d
        → (os.waitpid client.pid (pos untraced) w).0 ≡ answer l (reported i c)
        → eqb (os.kill service.kill_pid sig_term w1).0 minus_one ≡ false
        → (os.waitpid service.pid (pos untraced) w2).0 ≡ answer l (reported j d)
        → (r : ForkAndRunResult) × ((supervise fd os m numbers service client w).0 ≡ ok r)
          × (flag r client_failed ≡ has_failed c)
          × (flag r service_failed ≡ has_failed d)
  unfolding supervise send_signal_or_throw
  supervise_lem service client w c d i j ci di first sent second = (
    add_if (has_failed d) (add_if (has_failed c) empty client_failed) service_failed,
    ground (
      arith,
      wait_for-expected m l os client.pid untraced w (reported i c) ci first,
      wait_for-expected m l os service.pid untraced
          (os.kill service.kill_pid sig_term (os.waitpid client.pid (pos untraced) w).1).1
          (reported j d) di second,
      failed-describe c,
      failed-describe d,
    ),
    (flags_of (has_failed c) (has_failed d)).0,
    (flags_of (has_failed c) (has_failed d)).1,
  )
