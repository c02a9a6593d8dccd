-- ===== src/SignalTrap/Faults.antt =====
-- The ways in which run goes wrong: a signal descriptor that cannot be made, and a read that fails.
use process_cpp.Prelude.{
  ℕ, zero, suc, ◌/◌, ◌<◌, ℤ, pos, minus_one, eqb, ◌≡◌, refl, ap, true, false, none, List, [], ◌∷◌,
  length, arith,
}
use process_cpp.Effect.{Result, throw, runtime_error}
use process_cpp.SignalTrap.{
  SignalCalls, Trap, not_running, to_size, siginfo_size, deliver, read_and_deliver, round, finished,
  run,
}
use process_cpp.SignalTrap.Reading.{handle}

module _ {W S : Type 0} (os : SignalCalls W S) where
  deliver_past_end :
      (n : ℕ) (signos : List ℤ) (t : Trap S) → length signos < n → deliver os n signos t ≡ none
  unfolding deliver
  deliver_past_end zero signos t h = absurd (omega arith)
  deliver_past_end (suc n) [] t h = refl
  deliver_past_end (suc n) (s ∷ signos) t h =
      deliver_past_end n signos (handle os s t) (omega arith)

  to_size_failed : to_size minus_one / siginfo_size ≡ 144115188075855871
  unfolding to_size
  to_size_failed = refl

  read_faults :
      (signal_fd : ℤ) (t : Trap S) (w : W)
      → (os.read_signals signal_fd w).0.result ≡ minus_one
      → length (os.read_signals signal_fd w).0.signos ≡ 5
      → read_and_deliver os signal_fd t w ≡ none
  unfolding read_and_deliver
  read_faults signal_fd t w r full =
      let signos = (os.read_signals signal_fd w).0.signos in
      let count = to_size (os.read_signals signal_fd w).0.result / siginfo_size in
      let many : length signos < count =
        omega (arith, full, ap (λ (z : ℤ). to_size z / siginfo_size) r, to_size_failed) in
      ground (arith, deliver_past_end count signos t many)

  -- A call of run that cannot make its signal descriptor leaves the trap marked as running, so that
  -- every later call of run throws, whatever the operating system does.
  pub run_stuck :
      (fuel later eintr : ℕ) (t t' : Trap S) (w v u : W) (r : Result (Unit {0}))
      → t.state ≡ not_running
      → eqb (os.signalfd t.blocked_signals_mask w).0 minus_one ≡ true
      → run os fuel eintr t w ≡ finished r t' v
      → run os later eintr t' u ≡ finished (throw runtime_error) t' u
  unfolding run
  run_stuck fuel later eintr t t' w v u r idle broken h = ground arith

  -- A read of the signal descriptor that fails makes the loop read past the end of the buffer of
  -- five entries: its result is taken for the largest number, and so is the count of the entries.
  pub round_faults :
      (eintr : ℕ) (fd : ℤ) (t : Trap S) (w : W)
      → eqb (os.poll fd t.event_fd w).0.rc minus_one ≡ false
      → eqb (os.poll fd t.event_fd w).0.rc (pos 0) ≡ false
      → (os.poll fd t.event_fd w).0.signal_ready ≡ true
      → (os.read_signals fd (os.poll fd t.event_fd w).1).0.result ≡ minus_one
      → length (os.read_signals fd (os.poll fd t.event_fd w).1).0.signos ≡ 5
      → round os eintr fd t w ≡ none
  unfolding round
  round_faults eintr fd t w a b ready broken full =
      ground (arith, read_faults fd t (os.poll fd t.event_fd w).1 broken full)
