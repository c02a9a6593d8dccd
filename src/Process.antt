-- ===== src/Process.antt =====
-- src/core/posix/signalable.cpp, process_group.cpp and process.cpp.
pub mod Targets
use process_cpp.Prelude.{
  ℕ, ℤ, pos, minus_one, neg, eqb, leb_ℤ, Bool, Option, none, some, if◌then◌else◌,
}
use process_cpp.Effect.{Effect, Result, ok, throw, system_error, runtime_error}
use process_cpp.ProcessCalls.{ProcessCalls}

-- The private part of a Signalable: the pid that its signals are sent to.
pub record Signalable : Type 0 where
  pub kill_pid : ℤ

pub record ProcessGroup : Type 0 where
  pub signalable : Signalable
  pub open signalable use *
  pub id : ℤ

pub record Process : Type 0 where
  pub signalable : Signalable
  pub open signalable use *
  pub pid : ℤ

-- The id is negated, since kill takes a negative number for a process group.
unfoldable pub make_group : ℤ → ProcessGroup
make_group id = record { signalable = record { kill_pid = neg id }; id = id }

-- The constructor Process(pid_t): `if (pid < 0) throw`.
unfoldable pub make_process : ℤ → Result Process
make_process pid =
    if leb_ℤ (pos 0) pid
    then ok (record { signalable = record { kill_pid = pid }; pid = pid })
    else throw runtime_error

-- Process::invalid: an instance for pid 0 whose own pid is then set to -1.
unfoldable pub invalid : Process
invalid = record { signalable = record { kill_pid = pos 0 }; pid = minus_one }

module _ {W : Type 0} (os : ProcessCalls W) where
  unfoldable pub send_signal_or_throw : Signalable → ℤ → Effect W (Unit {0})
  send_signal_or_throw s signal w =
      let (rc, w') = os.kill s.kill_pid signal w in
      if eqb rc minus_one then (throw (system_error (os.errno w')), w') else (ok tt, w')

  -- `e` is the value of the error code that the caller passes; it is written on errors only.
  unfoldable pub send_signal : Signalable → ℤ → Option ℕ → W → Option ℕ × W
  send_signal s signal e w =
      let (rc, w') = os.kill s.kill_pid signal w in
      if eqb rc minus_one then (some (os.errno w'), w') else (e, w')

  unfoldable pub process_group_or_throw : Process → Effect W ProcessGroup
  unfolding make_group
  process_group_or_throw p w =
      let (pgid, w') = os.getpgid p.pid w in
      if eqb pgid minus_one
      then (throw (system_error (os.errno w')), w')
      else (ok (make_group pgid), w')

  -- The group is made of whatever getpgid returned, -1 included.
  unfoldable pub process_group : Process → Option ℕ → W → (ProcessGroup × Option ℕ) × W
  unfolding make_group
  process_group p se w =
      let (pgid, w') = os.getpgid p.pid w in
      ((make_group pgid, if eqb pgid minus_one then some (os.errno w') else se), w')
