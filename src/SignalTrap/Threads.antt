-- ===== src/SignalTrap/Threads.antt =====
-- src/core/posix/signal.cpp: several threads that call `run` of one trap. The test of `state` and the
-- store behind it are two steps, between which other threads may go on.
pub mod Exclusion
use process_cpp.Prelude.{ℕ, ◌≡◌, ◌≢◌, Bool, true, ◌==◌, if◌then◌else◌}
use process_cpp.SignalTrap.{State, not_running, running}

-- Where a thread stands: it does not run the trap; it has found that the trap is not running; it has
-- stored that it is; it is in the loop.
pub data Place : Type 0 where
  outside checked marked looping : Place

pub record Threads : Type 0 where
  pub state : State
  pub at : ℕ → Place

unfoldable pub move : (ℕ → Place) → ℕ → Place → ℕ → Place
move at i place j = if i == j then place else at j

-- `if (state.load() == State::running) throw`, where it does not throw.
unfoldable pub check : ℕ → Threads → Threads
unfolding move
check i s = record s { at = move s.at i checked }

-- `state.store(State::running)`
unfoldable pub mark : ℕ → Threads → Threads
unfolding move
mark i s = record { state = running; at = move s.at i marked }

-- The signal descriptor: with one the thread goes into the loop, and without one `run` throws.
unfoldable pub enter : ℕ → Threads → Threads
unfolding move
enter i s = record s { at = move s.at i looping }

unfoldable pub fail : ℕ → Threads → Threads
unfolding move
fail i s = record s { at = move s.at i outside }

-- The end of the loop, and `state.store(State::not_running)`.
unfoldable pub finish : ℕ → Threads → Threads
unfolding move
finish i s = record { state = not_running; at = move s.at i outside }

-- A step of one thread. Where `guarded` is true, no thread makes the test of the state while another
-- stands between its test and its store.
pub data Step (guarded : Bool) (s : Threads) : Threads → Type 0 where
  checks :
      (i : ℕ)
      → s.at i ≡ outside
      → s.state ≡ not_running
      → (guarded ≡ true → (j : ℕ) → s.at j ≢ checked)
      → Step guarded s (check i s)
  throws : (i : ℕ) → s.at i ≡ outside → s.state ≡ running → Step guarded s s
  marks : (i : ℕ) → s.at i ≡ checked → Step guarded s (mark i s)
  enters : (i : ℕ) → s.at i ≡ marked → Step guarded s (enter i s)
  fails : (i : ℕ) → s.at i ≡ marked → Step guarded s (fail i s)
  finishes : (i : ℕ) → s.at i ≡ looping → Step guarded s (finish i s)

-- What any interleaving leads to, from a new trap.
pub data Reach (guarded : Bool) : Threads → Type 0 where
  start : Reach guarded (record { state = not_running; at = λ i. outside })
  later : {s t : Threads} → Reach guarded s → Step guarded s t → Reach guarded t
