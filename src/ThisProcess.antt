-- ===== src/ThisProcess.antt =====
-- instance and parent of src/core/posix/this_process.cpp.
use process_cpp.Prelude.{
  ℕ, ℤ, pos, ◌≡◌, refl, ap, ◌∙◌, Option, none, some, List, [], ◌∷◌, map, arith,
}
use process_cpp.Effect.{Result, ok, throw}
use process_cpp.ProcessCalls.{ProcessCalls}
use process_cpp.Process.{Process, make_process}

module _ {W : Type 0} (os : ProcessCalls W) where
  -- Both functions are noexcept: an exception ends the process. `self` is the static object, which is
  -- `none` until it is initialised.
  unfoldable pub instance_of : Option Process → W → Result Process × Option Process
  instance_of (some self) w = (ok self, some self)
  instance_of none w = elim (make_process (os.getpid w)) [
    | ok self ↦ (ok self, some self)
    | throw e ↦ (throw e, none)
  ]

  unfoldable pub parent : W → Result Process
  parent w = make_process (os.getppid w)

  -- The calls of instance in a sequence of worlds.
  unfoldable pub instances : Option Process → List W → List (Result Process)
  unfolding instance_of
  instances self [] = []
  instances self (w ∷ later) = let (r, self') = instance_of self w in r ∷ instances self' later

  abbrev pub process_of : ℤ → Process
  process_of pid = record { signalable = record { kill_pid = pid }; pid = pid }

  instances_made :
      (p : Process) (worlds : List W) → instances (some p) worlds ≡ map (λ (w : W). ok p) worlds
  unfolding instances
  instances_made p [] = refl
  instances_made p (w ∷ later) = ap (◌∷◌ (ok p)) (instances_made p later)

  instance_of_first :
      (w : W) (n : ℕ)
      → os.getpid w ≡ pos n
      → instance_of none w ≡ (ok (process_of (pos n)), some (process_of (pos n)))
  unfolding instance_of make_process
  instance_of_first w n h = ground (arith, h)

  -- Every call of instance returns the process that made the first call: also a call in a world where
  -- getpid gives another pid, as in a child that is forked after the first call. For a first call
  -- where getpid gives no negative number.
  pub instances_lem :
      (w : W) (later : List W) (n : ℕ)
      → os.getpid w ≡ pos n
      → instances none (w ∷ later) ≡ map (λ (v : W). ok (process_of (pos n))) (w ∷ later)
  unfolding instances
  instances_lem w later n h =
      let p = process_of (pos n) in
      ap (λ (r : Result Process × Option Process). r.0 ∷ instances r.1 later)
        (instance_of_first w n h)
      ∙ ap (◌∷◌ (ok p)) (instances_made p later)
