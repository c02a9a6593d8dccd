-- ===== src/Process/Targets.antt =====
-- Whom a signal sent through a Process or a ProcessGroup reaches, and how the two error reports agree.
use process_cpp.Prelude.{
  ℕ, zero, suc, ℤ, pos, negsuc, minus_one, ◌≡◌, refl, Option, none, some, arith,
}
use process_cpp.Effect.{Result, ok, throw, system_error, runtime_error}
use process_cpp.ProcessCalls.{ProcessCalls, target, process, group, callers_group}
use process_cpp.Process.{
  Signalable, ProcessGroup, Process, make_process, invalid, send_signal_or_throw, send_signal,
  process_group_or_throw, process_group,
}

-- What making a process for the pid gives.
abbrev pub Made : ℤ → Result Process → Type 0
Made (pos zero) (ok p) = (p.pid ≡ pos 0) × (target p.kill_pid ≡ callers_group)
Made (pos (suc n)) (ok p) = (p.pid ≡ pos (suc n)) × (target p.kill_pid ≡ process (suc n))
Made (negsuc n) (throw e) = e ≡ runtime_error
Made _ _ = ⊥

-- A Process is made for each pid from 0 on: it keeps the pid, and its signals go to that process, or
-- for pid 0 to the group of the caller. For a negative pid the constructor throws.
make_process-target : (pid : ℤ) → Made pid (make_process pid)
unfolding make_process
make_process-target (pos zero) = (refl, refl)
make_process-target (pos (suc n)) = ground arith
make_process-target (negsuc n) = refl

-- The invalid process has the pid -1, for which no process can be made, but it sends its signals
-- where the process made for pid 0 sends them: to the whole group of the caller.
invalid-target :
    (p : Process)
    → make_process (pos 0) ≡ ok p
    → (invalid.pid ≡ minus_one)
      × (make_process invalid.pid ≡ throw runtime_error)
      × (invalid.signalable ≡ p.signalable)
      × (target invalid.kill_pid ≡ callers_group)
unfolding make_process invalid
invalid-target p h = ground arith

module _ {W : Type 0} (os : ProcessCalls W) where
  abbrev pub or_throw : {A : Type 0} → (A × Option ℕ) × W → Result A × W
  or_throw ((a, none), w) = (ok a, w)
  or_throw ((a, some e), w) = (throw (system_error e), w)

  -- For each process, signal and state, the two ways to send a signal leave the same state, and
  -- the one throws the error that the other reports.
  send_signal-or_throw :
      (s : Signalable) (signal : ℤ) (w : W)
      → send_signal_or_throw os s signal w
        ≡ (let (e, w') = send_signal os s signal none w in or_throw ((tt, e), w'))
  unfolding send_signal send_signal_or_throw
  send_signal-or_throw s signal w = ground arith

  -- So do the two ways to ask for the group of a process.
  pub process_group-or_throw :
      (p : Process) (w : W) → process_group_or_throw os p w ≡ or_throw (process_group os p none w)
  unfolding process_group process_group_or_throw
  process_group-or_throw p w = ground arith

  -- Where getpgid reports a process group from 2 on, the group that process_group_or_throw
  -- returns has that id, and its signals go to that process group.
  process_group-target :
      (p : Process) (g : ProcessGroup) (n : ℕ) (w : W)
      → (os.getpgid p.pid w).0 ≡ pos (suc (suc n))
      → (process_group_or_throw os p w).0 ≡ ok g
      → (g.id ≡ pos (suc (suc n))) × (target g.kill_pid ≡ group (suc (suc n)))
  unfolding process_group_or_throw
  process_group-target p g n w h e = ground arith

  -- Where getpgid fails, the noexcept overload sets its error code and still returns a group. Its id
  -- is -1, and its signals go to process 1.
  process_group-failed :
      (p : Process) (se : Option ℕ) (w : W)
      → (os.getpgid p.pid w).0 ≡ minus_one
      → ((process_group os p se w).0.1 ≡ some (os.errno (os.getpgid p.pid w).1))
        × ((process_group os p se w).0.0.id ≡ minus_one)
        × (target (process_group os p se w).0.0.kill_pid ≡ process 1)
  unfolding process_group
  process_group-failed p se w h = ground arith
