-- ===== src/DeathObserver/Trapping.antt =====
-- DeathObserver::create_once_with_signal_trap with the trap that it is given: from a signal that the trap
-- reads to the announcement of the dead.
use process_cpp.Prelude.{
  ℕ, ℤ, pos, minus_one, eqb, eqb_iff, ◌≡◌, refl, ap, ◌∙◌, inl, inr, Bool-cases, true, false, ◌||◌,
  some, List, [], ◌∷◌, ◌++◌, arith,
}
use process_cpp.Effect.{ok}
use process_cpp.ProcessCalls.{ProcessCalls, WaitReturn}
use process_cpp.Wait.{WaitMacros}
use process_cpp.SignalTrap
use process_cpp.SignalTrap.{
  Scope, SignalCalls, Trap, not_running, running, make_trap, finished, Run, run,
}
use process_cpp.SignalTrap.Masks.{SignalLaws, listed, make_trap-has}
use process_cpp.SignalTrap.Reading.{handle, handle_all}
use process_cpp.SignalTrap.Running.{Rounds, run-handle_all}
use process_cpp.DeathObserver.{Observer, create_once, on_signals}
use process_cpp.DeathObserver.Coalescing.{any_of, on_signals-on_sig_child}
use process_cpp.DeathObserver.Counting.{entries, accounted, IsWellFormed}
use process_cpp.DeathObserver.Draining.{
  Drains, reap_all, reports_death, reap_all-accounted, reap_all_death,
}

-- The emissions of a trap in the order in which they were made.
abbrev pub in_order : List ℤ → List ℤ
in_order [] = []
in_order (signal ∷ earlier) = in_order earlier ++ (signal ∷ [])

any_of-append : (x : ℤ) (a b : List ℤ) → any_of x (a ++ b) ≡ (any_of x a || any_of x b)
any_of-append x [] b = refl
any_of-append x (s ∷ a) b = ground (arith, any_of-append x a b)

module _ {W S : Type 0} (os : SignalCalls W S) (signal : ℤ) where
  has-handle :
      (s : ℤ) (t : Trap S) → SignalTrap.has os (handle os s t) signal ≡ SignalTrap.has os t signal
  unfolding SignalTrap.has
  has-handle s t = elim (Bool-cases (SignalTrap.has os t s)) [
    | inl h ↦ ground arith
    | inr h ↦ ground arith
  ]

  -- A signal that the trap has is emitted when it is handled, and none is forgotten.
  any_of-handle :
      (s : ℤ) (t : Trap S)
      → SignalTrap.has os t signal ≡ true
      → any_of signal (in_order (handle os s t).raised)
        ≡ (any_of signal (in_order t.raised) || eqb s signal)
  any_of-handle s t h = elim (Bool-cases (SignalTrap.has os t s)) [
    | inl e ↦ rw e (any_of-append signal (in_order t.raised) (s ∷ []) ∙ ground arith)
    | inr e ↦
        let other : eqb s signal ≡ false = ground (arith, eqb_iff s signal) in
        rw (e, other) ground arith
  ]

  any_of-handle_all :
      (signos : List ℤ) (t : Trap S)
      → SignalTrap.has os t signal ≡ true
      → any_of signal (in_order (handle_all os signos t).raised)
        ≡ (any_of signal (in_order t.raised) || any_of signal signos)
  any_of-handle_all [] t h = ground arith
  any_of-handle_all (s ∷ signos) t h =
      let rest = any_of-handle_all signos (handle os s t) (has-handle s t ∙ h) in
      rest ∙ ground (arith, any_of-handle s t h)

module _ {W S : Type 0} (os : SignalCalls W S) (ls : SignalLaws os) where
  made_idle :
      (scope : Scope) (signals : List ℤ) (w : W) (t : Trap S)
      → (make_trap os scope signals w).0 ≡ ok t
      → (t.state ≡ not_running) × (t.raised ≡ [])
  unfolding make_trap
  made_idle scope signals w t h = elim (Bool-cases (eqb (os.eventfd w).0 minus_one)) [
    | inl e ↦ ground arith
    | inr e ↦ ground arith
  ]

  module _ {C P : Type 0} (pid : C → ℤ) (ps : ProcessCalls P) (m : WaitMacros) (wnohang echild : ℕ)
      (sig_chld : ℤ) where
    -- What a trap and an observer do together: the observer can be made with the trap, the run ends, and
    -- the handlers of what the run has emitted bring the observer from `o` in `p` to a state in `q`.
    pub record Serves (t : Trap S) (n eintr : ℕ) (w : W) (k : ℕ) (o : Observer C) (p q : P)
        (rs : List WaitReturn) : Type 0 where
      pub is_created :
          create_once {C = C} (SignalTrap.has os t sig_chld) false
          ≡ (ok (record { children = []; died = [] }), true)
      pub t' : Trap S
      pub w' : W
      pub has_run : run os n eintr t w ≡ finished (ok tt) t' w'
      pub o' : Observer C
      pub are_handled :
          on_signals ps m (pos wnohang) sig_chld echild k (in_order t'.raised) o p ≡ some (o', q)
      pub is_accounted : (x : ℤ) → accounted pid x o' ≡ accounted pid x o
      pub none_is_left : (x : ℤ) → reports_death m pid x rs ≡ true → entries x o'.children ≡ 0

    -- A trap that could be made for signals with SIGCHLD among them, and an observer of children. The
    -- observer can be created with the trap. Where a run of the trap, which its polls and reads
    -- lead out of its loop, reads a SIGCHLD, it returns; and where waitpid has reports up to some
    -- call and none behind it, the handlers of the emissions, one after the other, end with every
    -- child that a report says has died taken out of the map and announced: for each pid the
    -- registered children and the announcements together are as many as before. The laws of signal
    -- sets are given.
    pub make_trap-Serves :
        (scope : Scope) (signals : List ℤ) (w0 : W) (t : Trap S)
        → (make_trap os scope signals w0).0 ≡ ok t
        → ls.valid sig_chld ≡ true
        → listed ls.valid signals sig_chld ≡ true
        → (eintr : ℕ) (w : W) {n : ℕ} {v : W} {signos : List ℤ}
        → eqb (os.signalfd t.blocked_signals_mask w).0 minus_one ≡ false
        → Rounds os eintr
            (os.signalfd t.blocked_signals_mask w).0
            t.event_fd
            n
            (os.signalfd t.blocked_signals_mask w).1
            signos
            v
        → any_of sig_chld signos ≡ true
        → (o : Observer C) {k : ℕ} {p q : P} {rs : List WaitReturn}
        → Drains ps wnohang echild k p rs q
        → Drains ps wnohang echild k q [] q
        → IsWellFormed pid o
        → Serves t n eintr w k o p q rs
    unfolding create_once SignalTrap.has
    make_trap-Serves scope signals w0 t made is_signal among eintr w {n} {v} {signos} valid d raised
          o {k} {p} {q} {rs} drains quiet ok_o =
        let (idle, fresh) = made_idle scope signals w0 t made in
        let traps : SignalTrap.has os t sig_chld ≡ true =
          (make_trap-has os ls scope signals w0 t made sig_chld is_signal).0 ∙ among in
        let started : Trap S = record t { state = running } in
        let emitted : any_of sig_chld (in_order (handle_all os signos started).raised) ≡ true =
          any_of-handle_all os sig_chld signos started traps
          ∙ ground (arith, ap (λ (l : List ℤ). any_of sig_chld (in_order l)) fresh, raised) in
        let handled =
          on_signals-on_sig_child m ps wnohang echild sig_chld k p q rs
            (in_order (handle_all os signos started).raised) o drains quiet in
        record {
          is_created = rw traps refl;
          t' = record (handle_all os signos started) { state = not_running };
          w' = os.close (os.signalfd t.blocked_signals_mask w).0 v;
          has_run = run-handle_all os eintr t w idle valid d;
          o' = reap_all m o rs;
          are_handled = handled ∙ rw emitted refl;
          is_accounted = λ x. (reap_all-accounted m pid o rs x ok_o).1;
          none_is_left = λ x h. reap_all_death m pid o rs x h;
        }
