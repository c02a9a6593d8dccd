-- ===== src/SignalTrap/Running.antt =====
-- The loop of run: which signals it emits, how it ends, and what state it leaves.
use process_cpp.Prelude.{
  ℕ, zero, suc, ◌≤◌, ℤ, pos, minus_one, eqb, ◌≡◌, refl, ap, subst, ◌∙◌, true, false, some, List, [],
  ◌++◌, ◌==◌, if◌then◌else◌, arith,
}
use process_cpp.Effect.{ok}
use process_cpp.SignalTrap.{
  PollReturn, SignalCalls, Trap, not_running, running, again, leave, read_stop, round, loop,
  finished, leave_run, run,
}
use process_cpp.SignalTrap.Reading.{
  handle_all, Reads, read_branch, event_fd-handle_all, handle_all-append,
}

module _ {W S : Type 0} (os : SignalCalls W S) where
  module _ (eintr : ℕ) (signal_fd event_fd : ℤ) where
    abbrev polled : W → PollReturn
    polled w = (os.poll signal_fd event_fd w).0

    abbrev after_poll : W → W
    after_poll w = (os.poll signal_fd event_fd w).1

    -- From the state `w` the loop is left in `v` within `n` rounds, in which `signos` are read.
    pub data Rounds : ℕ → W → List ℤ → W → Type 0 where
      interrupted :
          {n : ℕ} {w v : W} {signos : List ℤ}
          → eqb (polled w).rc minus_one ≡ true
          → (os.errno (after_poll w) == eintr) ≡ true
          → Rounds n (after_poll w) signos v
          → Rounds (suc n) w signos v
      failed :
          {n : ℕ} {w v : W}
          → eqb (polled w).rc minus_one ≡ true
          → (os.errno (after_poll w) == eintr) ≡ false
          → v ≡ after_poll w
          → Rounds (suc n) w [] v
      timed_out :
          {n : ℕ} {w v : W} {signos : List ℤ}
          → eqb (polled w).rc minus_one ≡ false
          → eqb (polled w).rc (pos 0) ≡ true
          → Rounds n (after_poll w) signos v
          → Rounds (suc n) w signos v
      woken :
          {n : ℕ} {w u v : W} {now later all : List ℤ}
          → eqb (polled w).rc minus_one ≡ false
          → eqb (polled w).rc (pos 0) ≡ false
          → Reads os signal_fd (after_poll w) (polled w).signal_ready now u
          → (polled w).event_ready ≡ false
          → all ≡ now ++ later
          → Rounds n u later v
          → Rounds (suc n) w all v
      stopped :
          {n : ℕ} {w u v : W} {signos : List ℤ}
          → eqb (polled w).rc minus_one ≡ false
          → eqb (polled w).rc (pos 0) ≡ false
          → Reads os signal_fd (after_poll w) (polled w).signal_ready signos u
          → (polled w).event_ready ≡ true
          → v ≡ os.read_event event_fd u
          → Rounds (suc n) w signos v

  module _ (eintr : ℕ) (signal_fd : ℤ) (t : Trap S) (w : W) where
    abbrev p : PollReturn
    p = (os.poll signal_fd t.event_fd w).0

    abbrev w1 : W
    w1 = (os.poll signal_fd t.event_fd w).1

    round_failed :
        eqb p.rc minus_one ≡ true
        → round os eintr signal_fd t w
          ≡ some ((t, w1), if os.errno w1 == eintr then again else leave)
    unfolding round
    round_failed a = ground arith

    round_timed_out :
        eqb p.rc minus_one ≡ false
        → eqb p.rc (pos 0) ≡ true
        → round os eintr signal_fd t w ≡ some ((t, w1), again)
    unfolding round
    round_timed_out a b = ground arith

    round_woken :
        {u : W} {now : List ℤ}
        → eqb p.rc minus_one ≡ false
        → eqb p.rc (pos 0) ≡ false
        → Reads os signal_fd w1 p.signal_ready now u
        → round os eintr signal_fd t w ≡ some (read_stop os p.event_ready (handle_all os now t, u))
    unfolding round
    round_woken a b r = rw (a, b, read_branch os signal_fd t r)

  round_woken_at :
      (eintr : ℕ) (fd ev : ℤ) (t : Trap S) (w : W) {u : W} {now : List ℤ}
      → t.event_fd ≡ ev
      → eqb (os.poll fd ev w).0.rc minus_one ≡ false
      → eqb (os.poll fd ev w).0.rc (pos 0) ≡ false
      → Reads os fd (os.poll fd ev w).1 (os.poll fd ev w).0.signal_ready now u
      → round os eintr fd t w
        ≡ some (read_stop os (os.poll fd ev w).0.event_ready (handle_all os now t, u))
  round_woken_at eintr fd ev t w {u} {now} e =
      subst
        (λ x.
          eqb (os.poll fd x w).0.rc minus_one ≡ false
          → eqb (os.poll fd x w).0.rc (pos 0) ≡ false
          → Reads os fd (os.poll fd x w).1 (os.poll fd x w).0.signal_ready now u
          → round os eintr fd t w
            ≡ some (read_stop os (os.poll fd x w).0.event_ready (handle_all os now t, u)))
        e (round_woken eintr fd t w)

  -- One round is made, and the loop goes on or is left.
  loop_again :
      (fuel eintr : ℕ) (fd : ℤ) (t t' : Trap S) (w w' : W)
      → round os eintr fd t w ≡ some ((t', w'), again)
      → loop os (suc fuel) eintr fd t w ≡ loop os fuel eintr fd t' w'
  unfolding loop
  loop_again fuel eintr fd t t' w w' h = rw (h, loop)

  loop_left :
      (fuel eintr : ℕ) (fd : ℤ) (t t' : Trap S) (w w' : W)
      → round os eintr fd t w ≡ some ((t', w'), leave)
      → loop os (suc fuel) eintr fd t w ≡ some ((t', w'), leave)
  unfolding loop
  loop_left fuel eintr fd t t' w w' h = rw (h, loop)

  -- Once started, the loop is left within the number of rounds that the polls need, and the trap has
  -- then handled the signals that were read, each once and in their order.
  loop-handle_all :
      (eintr : ℕ) (fd ev : ℤ) (fuel : ℕ) (t : Trap S) {n : ℕ} {w v : W} {signos : List ℤ}
      → Rounds eintr fd ev n w signos v
      → t.event_fd ≡ ev
      → n ≤ fuel
      → loop os fuel eintr fd t w ≡ some ((handle_all os signos t, v), leave)
  loop-handle_all eintr fd ev zero t (interrupted a b d) e h = absurd (omega arith)
  loop-handle_all eintr fd ev zero t (failed a b d) e h = absurd (omega arith)
  loop-handle_all eintr fd ev zero t (timed_out a b d) e h = absurd (omega arith)
  loop-handle_all eintr fd ev zero t (woken a b r c f d) e h = absurd (omega arith)
  loop-handle_all eintr fd ev zero t (stopped a b r c d) e h = absurd (omega arith)
  loop-handle_all eintr fd ev (suc fuel) t {w} (interrupted a b d) e h =
      loop_again fuel eintr fd t t w (os.poll fd ev w).1 (ground (arith, round_failed eintr fd t w))
      ∙ loop-handle_all eintr fd ev fuel t d e (omega arith)
  loop-handle_all eintr fd ev (suc fuel) t {w} (failed a b d) e h =
      loop_left fuel eintr fd t t w _ (ground (arith, round_failed eintr fd t w))
  loop-handle_all eintr fd ev (suc fuel) t {w} (timed_out a b d) e h =
      loop_again fuel eintr fd t t w (os.poll fd ev w).1
        (ground (arith, round_timed_out eintr fd t w))
      ∙ loop-handle_all eintr fd ev fuel t d e (omega arith)
  loop-handle_all eintr fd ev (suc fuel) t {w} (woken {u} {now} {later} a b r c f d) e h =
      loop_again fuel eintr fd t (handle_all os now t) w u
        (round_woken_at eintr fd ev t w e a b r ∙ unfold read_stop in rw c)
      ∙ loop-handle_all eintr fd ev fuel (handle_all os now t) d (event_fd-handle_all os now t ∙ e)
          (omega arith)
      ∙ ground (arith, ap (λ (l : List ℤ). handle_all os l t) f, handle_all-append os now later t)
  loop-handle_all eintr fd ev (suc fuel) t {w} (stopped {u} {signos} a b r c d) e h =
      loop_left fuel eintr fd t (handle_all os signos t) w _ (
        round_woken_at eintr fd ev t w e a b r
        ∙ unfold read_stop in ground (arith, event_fd-handle_all os signos t))

  -- A call of run on a trap that is not running, for which a signal descriptor can be made, and
  -- whose polls and successful reads lead out of the loop, returns within as many rounds as they
  -- need. It has emitted the trapped ones of the signals that were read, each once and in their
  -- order, and the trap can be run again; the signal descriptor is closed.
  pub run-handle_all :
      (eintr : ℕ) (t : Trap S) (w : W) {n : ℕ} {v : W} {signos : List ℤ}
      → t.state ≡ not_running
      → eqb (os.signalfd t.blocked_signals_mask w).0 minus_one ≡ false
      → Rounds eintr
          (os.signalfd t.blocked_signals_mask w).0
          t.event_fd
          n
          (os.signalfd t.blocked_signals_mask w).1
          signos
          v
      → run os n eintr t w
        ≡ finished
            (ok tt)
            (record (handle_all os signos (record t { state = running })) { state = not_running })
            (os.close (os.signalfd t.blocked_signals_mask w).0 v)
  unfolding run leave_run
  run-handle_all eintr t w {n} {v} {signos} idle valid d =
      let s = os.signalfd t.blocked_signals_mask w in
      ground (
        arith,
        loop-handle_all eintr s.0 t.event_fd n (record t { state = running }) d refl (omega arith),
      )
