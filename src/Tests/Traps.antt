-- ===== src/Tests/Traps.antt =====
-- Examples for signal.cpp. The operating system is the list of the signals that are blocked, with the
-- signals that the next read returns; the sets of signals are their characteristic functions.
use process_cpp.Prelude.{
  ℕ, zero, suc, ℤ, pos, minus_one, eqb, ◌≡◌, refl, Bool, true, false, ◌&&◌, ◌||◌, none, List, [],
  ◌∷◌, if◌then◌else◌, arith,
}
use process_cpp.Effect.{ok, throw, runtime_error, system_error}
use process_cpp.SignalTrap.{
  stop, PollReturn, SignalRead, SignalCalls, thread, Trap, not_running, running, has,
  set_signal_mask, add_all, make_trap, destroy_trap, finished, run, round,
}
use process_cpp.SignalTrap.Stopping.{EventLaws, Polls, interrupt, wake, stop-run}
use process_cpp.SignalTrap.Masks.{SignalLaws, listed, make_trap-has, destroy_trap-blocks}
use process_cpp.SignalTrap.Reading.{taken}
use process_cpp.SignalTrap.Running.{stopped, run-handle_all}
use process_cpp.SignalTrap.Faults.{run_stuck, round_faults}

abbrev pub Set : Type 0
Set = ℤ → Bool

-- The blocked signals; what a read returns; whether a signal descriptor can be made; whether the event
-- counter is set; how often poll will be interrupted.
pub record Os : Type 0 where
  pub blocked : Set
  pub next : SignalRead
  pub has_room : Bool
  pub told : Bool
  pub alarms : ℕ

-- The signals are the numbers from 1 on.
abbrev pub is_signal : ℤ → Bool
is_signal (pos (suc n)) = true
is_signal _ = false

abbrev pub member_of : Set → ℤ → ℤ
member_of s x = if is_signal x then (if s x then pos 1 else pos 0) else minus_one

-- SIGKILL is 9, and SIGSTOP is 19.
abbrev pub can_block : ℤ → Bool
can_block x = if eqb x (pos 9) then false else if eqb x (pos 19) then false else true

abbrev pub block : Set → Os → Set × Os
block s w = (w.blocked, record w { blocked = λ x. w.blocked x || (s x && can_block x) })

abbrev pub poll_with : ℕ → Os → PollReturn × Os
poll_with zero w = (record { rc = pos 2; signal_ready = true; event_ready = w.told }, w)
poll_with (suc n) w =
    (record { rc = minus_one; signal_ready = false; event_ready = false }, record w { alarms = n })

-- Each poll that is not interrupted finds the signal descriptor ready.
abbrev pub os : SignalCalls Os Set
os = record {
  sigemptyset = λ x. false;
  sigaddset = λ s y x. (is_signal y && eqb y x) || s x;
  sigismember = member_of;
  block_process = block;
  block_thread = block;
  eventfd = λ w. (pos 3, w);
  signalfd = λ s w. (if w.has_room then pos 4 else minus_one, w);
  poll = λ fd ev w. poll_with w.alarms w;
  read_signals = λ fd w. (w.next, w);
  read_event = λ fd w. record w { told = false };
  write_event = λ fd w. (pos 8, record w { told = true });
  close = λ fd w. w;
  errno = λ w. 4;
}

pub sigismember_valid :
    (s : Set) (x : ℤ) → is_signal x ≡ true → member_of s x ≡ (if s x then pos 1 else pos 0)
sigismember_valid s x h = rw h refl

pub sigismember_invalid : (s : Set) (x : ℤ) → is_signal x ≡ false → member_of s x ≡ minus_one
sigismember_invalid s x h = rw h refl

abbrev pub os_laws : SignalLaws os
os_laws = record {
  valid = is_signal;
  member = λ s x. s x;
  member-empty = λ x. refl;
  member-add = λ s y x. refl;
  sigismember_valid = sigismember_valid;
  sigismember_invalid = sigismember_invalid;
  blockable = can_block;
  blocks = λ w x. w.blocked x;
  blocks-process = λ s w x. refl;
  blocks-thread = λ s w x. refl;
  member-old_process = λ s w x. refl;
  member-old_thread = λ s w x. refl;
  blocks-eventfd = λ w x. refl;
  blocks-close = λ fd w x. refl;
}

-- Nothing is blocked, and the next read gives the signals 17 and 15.
abbrev pub idle_os : Os
idle_os = record {
  blocked = λ x. false;
  next = record { result = pos 256; signos = pos 17 ∷ pos 15 ∷ pos 0 ∷ pos 0 ∷ pos 0 ∷ [] };
  has_room = true;
  told = true;
  alarms = 0;
}

abbrev pub trapped : List ℤ
trapped = pos 17 ∷ pos 2 ∷ []

-- A trap for the signals 17 and 2.
abbrev pub trap : Trap Set
trap = record {
  scope = thread;
  state = not_running;
  event_fd = pos 3;
  raised = [];
  old_signals_mask = λ x. false;
  blocked_signals_mask = λ x. eqb (pos 2) x || (eqb (pos 17) x || false);
}

pub made : (make_trap os thread trapped idle_os).0 ≡ ok trap
unfolding make_trap set_signal_mask add_all
made = refl

make_trap-has_example :
    (has os trap (pos 17) ≡ listed is_signal trapped (pos 17))
    × ((make_trap os thread trapped idle_os).1.blocked (pos 17)
        ≡ (false || (listed is_signal trapped (pos 17) && can_block (pos 17))))
make_trap-has_example = make_trap-has os os_laws thread trapped idle_os trap made (pos 17) refl

destroy_trap-blocks_example :
    (destroy_trap os trap (make_trap os thread trapped idle_os).1).blocked (pos 17)
    ≡ (false || (listed is_signal trapped (pos 17) && can_block (pos 17)))
destroy_trap-blocks_example =
    destroy_trap-blocks os os_laws thread trapped idle_os trap made (pos 17)

-- The signals 17 and 15 are read, 17 is emitted, and the loop is left for the event descriptor.
run-handle_all_example :
    run os 1 4 trap idle_os
    ≡ finished (ok tt) (record trap { raised = pos 17 ∷ [] }) (record idle_os { told = false })
unfolding has
run-handle_all_example =
    run-handle_all os 4 trap idle_os refl refl
      (stopped refl refl (taken 2 refl (omega arith) (omega arith) refl refl) refl refl)

abbrev full_os : Os
full_os = record idle_os { has_room = false }

run_stuck_example :
    run os 9 4 (record trap { state = running }) idle_os
    ≡ finished (throw runtime_error) (record trap { state = running }) idle_os
unfolding run
run_stuck_example =
    run_stuck os 9 9 4 trap (record trap { state = running }) full_os full_os idle_os
      (throw (system_error 4)) refl refl refl

abbrev broken_os : Os
broken_os = record idle_os {
  next = record { result = minus_one; signos = pos 0 ∷ pos 0 ∷ pos 0 ∷ pos 0 ∷ pos 0 ∷ [] };
}

round_faults_example : round os 4 (pos 4) trap broken_os ≡ none
round_faults_example = round_faults os 4 (pos 4) trap broken_os refl refl refl refl refl

poll_with-told : (n : ℕ) (w : Os) → w.told ≡ true → (poll_with n w).1.told ≡ true
poll_with-told zero w h = h
poll_with-told (suc n) w h = h

poll_with_told :
    (n : ℕ) (w : Os)
    → w.told ≡ true
    → eqb (poll_with n w).0.rc minus_one ≡ false
    → (eqb (poll_with n w).0.rc (pos 0) ≡ false) × ((poll_with n w).0.event_ready ≡ true)
poll_with_told zero w h e = (refl, h)
poll_with_told (suc n) w h e = cc

event_laws : EventLaws os
event_laws = record {
  signalled = λ w fd. w.told;
  signalled-write = λ w fd h. refl;
  signalled-read = λ w fd. refl;
  signalled-signalfd = λ w mask fd h. h;
  signalled-poll = λ w sfd fd h. poll_with-told w.alarms w h;
  signalled-close = λ w other fd h. h;
  poll_signalled = λ w sfd fd h. poll_with_told w.alarms w h;
}

-- Poll is interrupted twice, and then finds the signals and the stop.
abbrev ringing_os : Os
ringing_os = record idle_os { told = false; alarms = 2 }

stop_sent : (stop os trap ringing_os).0 ≡ ok tt
unfolding stop
stop_sent = refl

two_alarms :
    Polls os event_laws 4
      (pos 4)
      (pos 3)
      2
      (stop os trap ringing_os).1
      (pos 17 ∷ pos 15 ∷ [])
      idle_os
unfolding stop
two_alarms =
    interrupt refl refl
      (interrupt refl refl (wake refl refl (taken 2 refl (omega arith) (omega arith) refl refl)))

stop-run_example :
    (run os 3 4 trap (stop os trap ringing_os).1
      ≡ finished (ok tt) (record trap { raised = pos 17 ∷ [] }) (record idle_os { told = false }))
    × (false ≡ false)
unfolding stop has event_laws
stop-run_example = stop-run os event_laws 4 trap ringing_os stop_sent refl refl two_alarms
