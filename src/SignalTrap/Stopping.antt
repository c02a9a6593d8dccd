-- ===== src/SignalTrap/Stopping.antt =====
-- A call of stop makes the next call of run return, and only that one.
use process_cpp.Prelude.{
  ℕ, suc, ℤ, pos, minus_one, eqb, eqb_iff, ◌≡◌, refl, Bool, true, false, List, ◌==◌, arith,
}
use process_cpp.Effect.{ok}
use process_cpp.SignalTrap.{SignalCalls, Trap, not_running, running, finished, run, stop}
use process_cpp.SignalTrap.Reading.{handle_all, Reads}
use process_cpp.SignalTrap.Running.{Rounds, interrupted, stopped, run-handle_all}

-- What the manual pages say of the event descriptor. `signalled` is that its counter is not 0: a write
-- of eight bytes sets it, a read clears it, and whatever else happens, while poll blocks too, leaves it
-- set. poll finds the descriptor ready where it is set.
pub record EventLaws {W S : Type 0} (os : SignalCalls W S) : Type 0 where
  pub signalled : W → ℤ → Bool
  pub signalled-write :
      (w : W) (fd : ℤ)
      → (os.write_event fd w).0 ≡ pos 8
      → signalled (os.write_event fd w).1 fd ≡ true
  pub signalled-read : (w : W) (fd : ℤ) → signalled (os.read_event fd w) fd ≡ false
  pub signalled-signalfd :
      (w : W) (mask : S) (fd : ℤ)
      → signalled w fd ≡ true
      → signalled (os.signalfd mask w).1 fd ≡ true
  pub signalled-poll :
      (w : W) (signal_fd fd : ℤ)
      → signalled w fd ≡ true
      → signalled (os.poll signal_fd fd w).1 fd ≡ true
  pub signalled-close :
      (w : W) (other fd : ℤ) → signalled w fd ≡ false → signalled (os.close other w) fd ≡ false
  pub poll_signalled :
      (w : W) (signal_fd fd : ℤ)
      → signalled w fd ≡ true
      → eqb (os.poll signal_fd fd w).0.rc minus_one ≡ false
      → (eqb (os.poll signal_fd fd w).0.rc (pos 0) ≡ false)
        × ((os.poll signal_fd fd w).0.event_ready ≡ true)

module _ {W S : Type 0} (os : SignalCalls W S) (l : EventLaws os) (eintr : ℕ) where
  open l use {signalled}

  -- From the state `w` poll is interrupted `n` times and then is not; what the signal descriptor then
  -- has to read are `signos`.
  pub data Polls (signal_fd event_fd : ℤ) : ℕ → W → List ℤ → W → Type 0 where
    interrupt :
        {n : ℕ} {w v : W} {signos : List ℤ}
        → eqb (os.poll signal_fd event_fd w).0.rc minus_one ≡ true
        → (os.errno (os.poll signal_fd event_fd w).1 == eintr) ≡ true
        → Polls signal_fd event_fd n (os.poll signal_fd event_fd w).1 signos v
        → Polls signal_fd event_fd (suc n) w signos v
    wake :
        {w v : W} {signos : List ℤ} {n : ℕ}
        → n ≡ 0
        → eqb (os.poll signal_fd event_fd w).0.rc minus_one ≡ false
        → Reads os signal_fd
            (os.poll signal_fd event_fd w).1
            (os.poll signal_fd event_fd w).0.signal_ready
            signos
            v
        → Polls signal_fd event_fd n w signos v

  Polls-Rounds :
      (signal_fd event_fd : ℤ) {n : ℕ} {w v : W} {signos : List ℤ}
      → Polls signal_fd event_fd n w signos v
      → signalled w event_fd ≡ true
      → Rounds os eintr signal_fd event_fd (suc n) w signos (os.read_event event_fd v)
  Polls-Rounds signal_fd event_fd {w} (interrupt a b p) h =
      interrupted a b (Polls-Rounds signal_fd event_fd p (l.signalled-poll w signal_fd event_fd h))
  Polls-Rounds signal_fd event_fd {w} (wake e a r) h =
      let (b, c) = l.poll_signalled w signal_fd event_fd h a in stopped a b r c refl

  stop-signalled :
      (t : Trap S) (w : W) → (stop os t w).0 ≡ ok tt → signalled (stop os t w).1 t.event_fd ≡ true
  unfolding stop
  stop-signalled t w h =
      ground
        (arith, l.signalled-write w t.event_fd, eqb_iff (os.write_event t.event_fd w).0 (pos 8))

  -- Where stop has returned, a call of run in that state ends in the first round whose poll is not
  -- interrupted: it returns, can be called again, has emitted the trapped ones of the signals that
  -- were ready in that round, and has taken up the stop, so that the next run is not stopped by it.
  pub stop-run :
      (t : Trap S) (w0 : W) {n : ℕ} {v : W} {signos : List ℤ}
      → let w = (stop os t w0).1 in
        let s = os.signalfd t.blocked_signals_mask w in
        (stop os t w0).0 ≡ ok tt
        → t.state ≡ not_running
        → eqb s.0 minus_one ≡ false
        → Polls s.0 t.event_fd n s.1 signos v
        → (run os (suc n) eintr t w
            ≡ finished
                (ok tt)
                (record (handle_all os signos (record t { state = running })) {
                  state = not_running;
                })
                (os.close s.0 (os.read_event t.event_fd v)))
          × (signalled (os.close s.0 (os.read_event t.event_fd v)) t.event_fd ≡ false)
  stop-run t w0 {v} sent idle valid p =
      let w = (stop os t w0).1 in
      let s = os.signalfd t.blocked_signals_mask w in
      let set =
        l.signalled-signalfd w t.blocked_signals_mask t.event_fd (stop-signalled t w0 sent) in
      (
        run-handle_all os eintr t w idle valid (Polls-Rounds s.0 t.event_fd p set),
        l.signalled-close (os.read_event t.event_fd v) s.0 t.event_fd
            (l.signalled-read v t.event_fd),
      )
