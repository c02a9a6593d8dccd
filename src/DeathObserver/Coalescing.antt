-- ===== src/DeathObserver/Coalescing.antt =====
-- The signals of a trap that reach the observer: several that come as one.
use process_cpp.Prelude.{
  ℕ, ℤ, pos, eqb, ◌≡◌, refl, ◌∙◌, inl, inr, Bool-cases, Bool, true, false, ◌||◌, Option, some, List,
  [], ◌∷◌, if◌then◌else◌, arith,
}
use process_cpp.ProcessCalls.{ProcessCalls, WaitReturn}
use process_cpp.Wait.{WaitMacros}
use process_cpp.DeathObserver.{Observer, on_sig_child, on_signal, on_signals}
use process_cpp.DeathObserver.Draining.{Drains, reap_all, on_sig_child-reap_all}

abbrev pub any_of : ℤ → List ℤ → Bool
any_of signal [] = false
any_of signal (s ∷ rest) = eqb s signal || any_of signal rest

module _ {C W : Type 0} (m : WaitMacros) (os : ProcessCalls W) (wnohang echild : ℕ)
    (sig_chld : ℤ) where
  abbrev run : ℕ → Observer C → W → Option (Observer C × W)
  run n = on_sig_child os m (pos wnohang) echild n

  abbrev run_all : ℕ → List ℤ → Observer C → W → Option (Observer C × W)
  run_all n = on_signals os m (pos wnohang) sig_chld echild n

  on_signals_step :
      (n : ℕ) (s : ℤ) (rest : List ℤ) (o o' : Observer C) (w w' : W)
      → on_signal os m (pos wnohang) sig_chld echild n s o w ≡ some (o', w')
      → run_all n (s ∷ rest) o w ≡ run_all n rest o' w'
  unfolding on_signals
  on_signals_step n s rest o o' w w' h = rw (h, on_signals) refl

  on_signal_sig_chld :
      (n : ℕ) (s : ℤ) (o o' : Observer C) (w w' : W)
      → eqb s sig_chld ≡ true
      → run n o w ≡ some (o', w')
      → on_signal os m (pos wnohang) sig_chld echild n s o w ≡ some (o', w')
  unfolding on_signal
  on_signal_sig_chld n s o o' w w' e h = ground (arith, h)

  on_signal_other :
      (n : ℕ) (s : ℤ) (o : Observer C) (w : W)
      → eqb s sig_chld ≡ false
      → on_signal os m (pos wnohang) sig_chld echild n s o w ≡ some (o, w)
  unfolding on_signal
  on_signal_other n s o w e = ground arith

  -- Where waitpid has nothing to report and stays so, no signal changes the observer.
  quiet_all :
      (n : ℕ) (v : W) (signals : List ℤ) (o : Observer C)
      → Drains os wnohang echild n v [] v
      → run_all n signals o v ≡ some (o, v)
  unfolding on_signals
  quiet_all n v [] o quiet = refl
  quiet_all n v (s ∷ rest) o quiet = elim (Bool-cases (eqb s sig_chld)) [
    | inl e ↦
        on_signals_step n s rest o o v v (
          on_signal_sig_chld n s o o v v e
            (on_sig_child-reap_all m os wnohang echild n o quiet (omega arith)))
        ∙ quiet_all n v rest o quiet
    | inr e ↦
        on_signals_step n s rest o o v v (on_signal_other n s o v e) ∙ quiet_all n v rest o quiet
  ]

  -- One SIGCHLD among the signals that a trap hands on does the work of all of them: where waitpid has
  -- reports in one state and nothing more to report in the state behind them, any sequence of signals
  -- with a SIGCHLD has the outcome of one on_sig_child, which ends; and a sequence without one leaves
  -- the observer and the system as they were.
  pub on_signals-on_sig_child :
      (n : ℕ) (w v : W) (rs : List WaitReturn) (signals : List ℤ) (o : Observer C)
      → Drains os wnohang echild n w rs v
      → Drains os wnohang echild n v [] v
      → run_all n signals o w
        ≡ some (if any_of sig_chld signals then (reap_all m o rs, v) else (o, w))
  unfolding on_signals
  on_signals-on_sig_child n w v rs [] o d quiet = refl
  on_signals-on_sig_child n w v rs (s ∷ rest) o d quiet = elim (Bool-cases (eqb s sig_chld)) [
    | inl e ↦
        let o' = reap_all m o rs in
        on_signals_step n s rest o o' w v (
          on_signal_sig_chld n s o o' w v e
            (on_sig_child-reap_all m os wnohang echild n o d (omega arith)))
        ∙ quiet_all n v rest o' quiet
        ∙ rw e refl
    | inr e ↦
        on_signals_step n s rest o o w w (on_signal_other n s o w e)
        ∙ on_signals-on_sig_child n w v rs rest o d quiet
        ∙ rw e refl
  ]
