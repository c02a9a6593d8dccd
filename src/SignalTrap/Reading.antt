-- ===== src/SignalTrap/Reading.antt =====
-- What run reads from the signal descriptor, and what it does with it.
use process_cpp.Prelude.{
  ℕ, zero, suc, ◌*◌, ◌/◌, ◌≤◌, ◌<◌, ◌^◌, ℤ, pos, ◌≡◌, refl, ap, ◌∙◌, Bool, true, false, Option,
  some, List, [], ◌∷◌, ◌++◌, length, take, if◌then◌else◌, arith,
}
use process_cpp.SignalTrap.{
  SignalCalls, Trap, to_size, siginfo_size, has, deliver, read_and_deliver,
}

module _ {W S : Type 0} (os : SignalCalls W S) where
  -- The trap when the signals have been handled in turn: those that it has are emitted.
  abbrev pub handle : ℤ → Trap S → Trap S
  handle signo t = if has os t signo then record t { raised = signo ∷ t.raised } else t

  abbrev pub handle_all : List ℤ → Trap S → Trap S
  handle_all [] t = t
  handle_all (signo ∷ rest) t = handle_all rest (handle signo t)

  pub deliver-handle_all :
      (n : ℕ) (signos : List ℤ) (t : Trap S)
      → n ≤ length signos
      → deliver os n signos t ≡ some (handle_all (take n signos) t)
  unfolding deliver
  deliver-handle_all zero signos t h = refl
  deliver-handle_all (suc n) [] t h = absurd (omega arith)
  deliver-handle_all (suc n) (s ∷ signos) t h =
      deliver-handle_all n signos (handle s t) (omega arith)

  module _ (signal_fd : ℤ) where
    -- What the branch for the signal descriptor reads in the state `w`: nothing if it is not ready, and
    -- otherwise the first `k` entries of the buffer, where read returns the size of `k` entries.
    pub data Reads (w : W) : Bool → List ℤ → W → Type 0 where
      skipped : {v : W} → v ≡ w → Reads w false [] v
      taken :
          {v : W} {signos : List ℤ} (k : ℕ)
          → (os.read_signals signal_fd w).0.result ≡ pos (k * siginfo_size)
          → k < 2 ^ 32
          → k ≤ length (os.read_signals signal_fd w).0.signos
          → signos ≡ take k (os.read_signals signal_fd w).0.signos
          → v ≡ (os.read_signals signal_fd w).1
          → Reads w true signos v

  pub to_size-pos : (k : ℕ) → k < 2 ^ 32 → to_size (pos (k * siginfo_size)) / siginfo_size ≡ k
  unfolding to_size
  to_size-pos k h = omega arith

  abbrev pub branch : ℤ → Trap S → Bool → W → Option (Trap S × W)
  branch signal_fd t b w = if b then read_and_deliver os signal_fd t w else some (t, w)

  pub read_and_deliver-handle_all :
      (signal_fd : ℤ) (t : Trap S) (w : W) (k : ℕ)
      → (os.read_signals signal_fd w).0.result ≡ pos (k * siginfo_size)
      → k < 2 ^ 32
      → k ≤ length (os.read_signals signal_fd w).0.signos
      → read_and_deliver os signal_fd t w
        ≡ some (
          handle_all (take k (os.read_signals signal_fd w).0.signos) t,
          (os.read_signals signal_fd w).1,
        )
  unfolding read_and_deliver
  read_and_deliver-handle_all signal_fd t w k r small fits =
      let signos = (os.read_signals signal_fd w).0.signos in
      let count : to_size (os.read_signals signal_fd w).0.result / siginfo_size ≡ k =
        ap (λ (z : ℤ). to_size z / siginfo_size) r ∙ to_size-pos k small in
      ground
        (arith, ap (λ (n : ℕ). deliver os n signos t) count, deliver-handle_all k signos t fits)

  pub read_branch :
      (signal_fd : ℤ) (t : Trap S) {b : Bool} {w v : W} {signos : List ℤ}
      → Reads signal_fd w b signos v
      → branch signal_fd t b w ≡ some (handle_all signos t, v)
  read_branch signal_fd t (skipped e) = rw e
  read_branch signal_fd t {w} (taken k r small fits s e) =
      rw (s, e) (read_and_deliver-handle_all signal_fd t w k r small fits)

  pub event_fd-handle : (s : ℤ) (t : Trap S) → (handle s t).event_fd ≡ t.event_fd
  event_fd-handle s t = ground arith

  -- The trap keeps its event descriptor, and emits the signals that it has.
  pub event_fd-handle_all :
      (signos : List ℤ) (t : Trap S) → (handle_all signos t).event_fd ≡ t.event_fd
  event_fd-handle_all [] t = refl
  event_fd-handle_all (s ∷ rest) t = event_fd-handle_all rest (handle s t) ∙ event_fd-handle s t

  pub handle_all-append :
      (now later : List ℤ) (t : Trap S)
      → handle_all (now ++ later) t ≡ handle_all later (handle_all now t)
  handle_all-append [] later t = refl
  handle_all-append (s ∷ now) later t = handle_all-append now later (handle s t)
