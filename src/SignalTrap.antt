-- ===== src/SignalTrap.antt =====
-- src/core/posix/signal.cpp: traps for signals. The emissions of signal_raised are a list, the last one
-- first.
pub mod Faults
pub mod Masks
pub mod Reading
pub mod Running
pub mod Stopping
pub mod Threads
use process_cpp.Prelude.{
  ℕ, zero, suc, ◌-◌, ◌/◌, ◌%◌, ◌^◌, ℤ, pos, negsuc, minus_one, eqb, Bool, true, false, not, Option,
  none, some, List, [], ◌∷◌, ◌==◌, if◌then◌else◌,
}
use process_cpp.Effect.{Effect, Result, ok, throw, system_error, runtime_error}

-- poll(2) on the signal descriptor and the event descriptor: its return value, and whether POLLIN is
-- set for each.
pub record PollReturn : Type 0 where
  pub rc : ℤ
  pub signal_ready : Bool
  pub event_ready : Bool

-- read(2) from the signal descriptor: its return value, and the field ssi_signo of the five entries of
-- the buffer.
pub record SignalRead : Type 0 where
  pub result : ℤ
  pub signos : List ℤ

-- The calls over the state `W` of the operating system and the sets `S` of signals. `block_process`
-- and `block_thread` are sigprocmask and pthread_sigmask with SIG_BLOCK, and return the old mask.
pub record SignalCalls (W S : Type 0) : Type 0 where
  pub sigemptyset : S
  pub sigaddset : S → ℤ → S
  pub sigismember : S → ℤ → ℤ
  pub block_process : S → W → S × W
  pub block_thread : S → W → S × W
  pub eventfd : W → ℤ × W
  pub signalfd : S → W → ℤ × W
  pub poll : ℤ → ℤ → W → PollReturn × W
  pub read_signals : ℤ → W → SignalRead × W
  pub read_event : ℤ → W → W
  pub write_event : ℤ → W → ℤ × W
  pub close : ℤ → W → W
  pub errno : W → ℕ

pub data Scope : Type 0 where
  process thread : Scope

pub data State : Type 0 where
  not_running running : State

pub record Trap (S : Type 0) : Type 0 where
  pub scope : Scope
  pub state : State
  pub event_fd : ℤ
  pub raised : List ℤ
  pub old_signals_mask : S
  pub blocked_signals_mask : S

-- The conversion of a read's result to size_t, in `result / sizeof(signalfd_siginfo)`.
unfoldable pub to_size : ℤ → ℕ
to_size (pos n) = n % 2 ^ 64
to_size (negsuc n) = 2 ^ 64 - suc n % 2 ^ 64

abbrev pub siginfo_size : ℕ
siginfo_size = 128

-- How the loop of `run` goes on after one round.
pub data Next : Type 0 where
  again leave : Next

module _ {W S : Type 0} (os : SignalCalls W S) where
  -- set_process_signal_mask and set_thread_signal_mask, by the scope of the trap.
  unfoldable pub set_signal_mask : Scope → S → W → S × W
  set_signal_mask process mask w = os.block_process mask w
  set_signal_mask thread mask w = os.block_thread mask w

  unfoldable pub add_all : S → List ℤ → S
  add_all mask [] = mask
  add_all mask (signal ∷ rest) = add_all (os.sigaddset mask signal) rest

  -- The constructor.
  unfoldable pub make_trap : Scope → List ℤ → Effect W (Trap S)
  make_trap scope blocked_signals w =
      let (event_fd, w1) = os.eventfd w in
      let blocked = add_all os.sigemptyset blocked_signals in
      let (old, w2) = set_signal_mask scope blocked w1 in
      if eqb event_fd minus_one then (throw (system_error (os.errno w1)), w1) else (
        ok (record {
          scope = scope;
          state = not_running;
          event_fd = event_fd;
          raised = [];
          old_signals_mask = old;
          blocked_signals_mask = blocked;
        }),
        w2,
      )

  unfoldable pub trap_signals_for_process : List ℤ → Effect W (Trap S)
  trap_signals_for_process blocked_signals = make_trap process blocked_signals

  unfoldable pub trap_signals_for_all_subsequent_threads : List ℤ → Effect W (Trap S)
  trap_signals_for_all_subsequent_threads blocked_signals = make_trap thread blocked_signals

  -- The destructor: the old mask is set by the same functions, which block.
  unfoldable pub destroy_trap : Trap S → W → W
  destroy_trap t w = os.close t.event_fd (set_signal_mask t.scope t.old_signals_mask w).1

  -- SignalTrap::has: the int that sigismember returns becomes a bool.
  unfoldable pub has : Trap S → ℤ → Bool
  has t signal = not (eqb (os.sigismember t.blocked_signals_mask signal) (pos 0))

  -- The loop over `count` entries of the buffer: `none` where it reads past its end.
  unfoldable pub deliver : ℕ → List ℤ → Trap S → Option (Trap S)
  unfolding has
  deliver zero signos t = some t
  deliver (suc n) [] t = none
  deliver (suc n) (signo ∷ rest) t =
      deliver n rest (if has t signo then record t { raised = signo ∷ t.raised } else t)

  -- The branch for a readable signal descriptor.
  unfoldable pub read_and_deliver : ℤ → Trap S → W → Option (Trap S × W)
  read_and_deliver signal_fd t w =
      let (r, w') = os.read_signals signal_fd w in
      elim (deliver (to_size r.result / siginfo_size) r.signos t) [
        | none ↦ none
        | some t' ↦ some (t', w')
      ]

  -- The branch for a readable event descriptor, which leaves the loop.
  unfoldable pub read_stop : Bool → Trap S × W → (Trap S × W) × Next
  read_stop event_ready (t, w) =
      if event_ready then ((t, os.read_event t.event_fd w), leave) else ((t, w), again)

  -- One round of the loop of `run`. `eintr` is the value of EINTR.
  unfoldable pub round : ℕ → ℤ → Trap S → W → Option ((Trap S × W) × Next)
  unfolding read_stop
  round eintr signal_fd t w =
      let (p, w1) = os.poll signal_fd t.event_fd w in
      if eqb p.rc minus_one
      then some ((t, w1), if os.errno w1 == eintr then again else leave)
      else if eqb p.rc (pos 0)
      then some ((t, w1), again)
      else elim (if p.signal_ready then read_and_deliver signal_fd t w1 else some (t, w1)) [
        | none ↦ none
        | some tw ↦ some (read_stop p.event_ready tw)
      ]

  -- The loop, on fuel. `none` is a read past the end of the buffer; a loop that has not been left
  -- when the fuel is gone comes back with `again`.
  unfoldable pub loop : ℕ → ℕ → ℤ → Trap S → W → Option ((Trap S × W) × Next)
  loop zero eintr signal_fd t w = some ((t, w), again)
  loop (suc fuel) eintr signal_fd t w = elim (round eintr signal_fd t w) [
    | none ↦ none
    | some ((t', w'), leave) ↦ some ((t', w'), leave)
    | some ((t', w'), again) ↦ loop fuel eintr signal_fd t' w'
  ]

-- How a call of `run` ends: it returns or throws, it is still in its loop when the fuel is gone, or it
-- has read past the end of its buffer.
pub data Run (W S : Type 0) : Type 0 where
  finished : Result (Unit {0}) → Trap S → W → Run W S
  spinning : Trap S → W → Run W S
  faulted : Run W S

module _ {W S : Type 0} (os : SignalCalls W S) where
  -- Leaving the loop: the state is reset, and the signal descriptor is closed.
  unfoldable pub leave_run : ℤ → Option ((Trap S × W) × Next) → Run W S
  leave_run signal_fd none = faulted
  leave_run signal_fd (some ((t, w), leave)) =
      finished (ok tt) (record t { state = not_running }) (os.close signal_fd w)
  leave_run signal_fd (some ((t, w), again)) = spinning t w

  -- SignalTrap::run, with the state `running` stored before the signal descriptor is made.
  unfoldable pub run : ℕ → ℕ → Trap S → W → Run W S
  run fuel eintr t w = elim t.state [
    | running ↦ finished (throw runtime_error) t w
    | not_running ↦
        let t' = record t { state = running } in
        let (signal_fd, w') = os.signalfd t.blocked_signals_mask w in
        if eqb signal_fd minus_one
        then finished (throw (system_error (os.errno w'))) t' w'
        else leave_run signal_fd (loop os fuel eintr signal_fd t' w')
  ]

  -- SignalTrap::stop: `write` must take the eight bytes of the value.
  unfoldable pub stop : Trap S → Effect W (Unit {0})
  stop t w =
      let (n, w') = os.write_event t.event_fd w in
      if eqb n (pos 8) then (ok tt, w') else (throw (system_error (os.errno w')), w')
