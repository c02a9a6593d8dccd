-- ===== src/Wait/Decoding.antt =====
-- The result of wait_for says what happened to the child.
use process_cpp.Prelude.{ℕ, suc, ◌<◌, ℤ, pos, minus_one, ◌≡◌, Bool, true, false, arith}
use process_cpp.Effect.{Result, ok, throw, system_error}
use process_cpp.ProcessCalls.{ProcessCalls, WaitReturn}
use process_cpp.Wait.{
  no_state_change, exited, signaled, stopped, continued, unset, if_exited, if_signaled, if_stopped,
  Outcome, WaitMacros, decode, wait_for,
}

-- A change of state that waitpid reports: an exit with a code, a termination or a stop by a signal,
-- or a continuation.
pub data Change : Type 0 where
  exits : ℕ → Change
  killed : ℕ → Bool → Change
  stops : ℕ → Change
  continues : Change

-- The codes and signal numbers that a status word can hold.
abbrev pub InRange : Change → Type 0
InRange (exits code) = code < 256
InRange (killed signal core) = (0 < signal) × (signal < 127)
InRange (stops signal) = (0 < signal) × (signal < 127)
InRange continues = Unit

abbrev pub is_exit : Change → Bool
is_exit (exits _) = true
is_exit _ = false

abbrev pub is_kill : Change → Bool
is_kill (killed _ _) = true
is_kill _ = false

abbrev pub is_stop : Change → Bool
is_stop (stops _) = true
is_stop _ = false

abbrev pub is_continue : Change → Bool
is_continue continues = true
is_continue _ = false

-- What the manual page of waitpid says of the macros: on the status word of a change exactly one of
-- the four tests holds, and the macro that it guards returns the number.
pub record MacroLaws (m : WaitMacros) : Type 0 where
  pub encode : Change → ℤ
  pub wifexited_iff : (c : Change) → InRange c → m.wifexited (encode c) ≡ is_exit c
  pub wifsignaled_iff : (c : Change) → InRange c → m.wifsignaled (encode c) ≡ is_kill c
  pub wifstopped_iff : (c : Change) → InRange c → m.wifstopped (encode c) ≡ is_stop c
  pub wifcontinued_iff : (c : Change) → InRange c → m.wifcontinued (encode c) ≡ is_continue c
  pub wexitstatus-encode : (n : ℕ) → n < 256 → m.wexitstatus (encode (exits n)) ≡ pos n
  pub wtermsig-encode :
      (n : ℕ) (core : Bool) → (0 < n) × (n < 127) → m.wtermsig (encode (killed n core)) ≡ pos n
  pub wcoredump-encode :
      (n : ℕ) (core : Bool) → (0 < n) × (n < 127) → m.wcoredump (encode (killed n core)) ≡ core
  pub wstopsig-encode : (n : ℕ) → (0 < n) × (n < 127) → m.wstopsig (encode (stops n)) ≡ pos n

-- What the fields of the result are for each change.
abbrev pub describe : Change → Outcome
describe (exits n) = record { status = exited; detail = if_exited (pos n) }
describe (killed n core) = record { status = signaled; detail = if_signaled (pos n) core }
describe (stops n) = record { status = stopped; detail = if_stopped (pos n) }
describe continues = record { status = continued; detail = unset }

-- What waitpid may answer: an error, nothing to report, or a change of the process n + 1.
pub data Answer : Type 0 where
  failed : ℤ → Answer
  nothing : ℤ → Answer
  reported : ℕ → Change → Answer

abbrev pub Plausible : Answer → Type 0
Plausible (failed s) = Unit
Plausible (nothing s) = Unit
Plausible (reported n c) = InRange c

abbrev pub answer : {m : WaitMacros} → MacroLaws m → Answer → WaitReturn
answer l (failed s) = record { pid = minus_one; status = s }
answer l (nothing s) = record { pid = pos 0; status = s }
answer l (reported n c) = record { pid = pos (suc n); status = l.encode c }

abbrev pub expected : ℕ → Answer → Result Outcome
expected errno (failed s) = throw (system_error errno)
expected errno (nothing s) = ok (record { status = no_state_change; detail = unset })
expected errno (reported n c) = ok (describe c)

module _ (m : WaitMacros) (l : MacroLaws m) where
  pub decode-encode : (c : Change) → InRange c → decode m (l.encode c) ≡ describe c
  unfolding decode
  decode-encode (exits n) h = ground (arith, l.wifexited_iff (exits n) h, l.wexitstatus-encode n h)
  decode-encode (killed n core) h = ground (
    arith,
    l.wifexited_iff (killed n core) h,
    l.wifsignaled_iff (killed n core) h,
    l.wtermsig-encode n core h,
    l.wcoredump-encode n core h,
  )
  decode-encode (stops n) h = ground (
    arith,
    l.wifexited_iff (stops n) h,
    l.wifsignaled_iff (stops n) h,
    l.wifstopped_iff (stops n) h,
    l.wstopsig-encode n h,
  )
  decode-encode continues h = ground (
    arith,
    l.wifexited_iff continues h,
    l.wifsignaled_iff continues h,
    l.wifstopped_iff continues h,
    l.wifcontinued_iff continues h,
  )

  -- Given the laws of the macros, wait_for throws the errno of a waitpid that fails, reports no
  -- change where waitpid returns 0, and otherwise reports the change of state of the child as it
  -- is, with its code or signal, for codes below 256 and signals from 1 to 126.
  pub wait_for-expected :
      {W : Type 0} (os : ProcessCalls W) (pid : ℤ) (flags : ℕ) (w : W) (a : Answer)
      → Plausible a
      → (os.waitpid pid (pos flags) w).0 ≡ answer l a
      → wait_for os m pid flags w
        ≡ (expected (os.errno (os.waitpid pid (pos flags) w).1) a, (os.waitpid pid (pos flags) w).1)
  unfolding wait_for
  wait_for-expected os pid flags w (failed s) h e = rw (e, wait_for)
  wait_for-expected os pid flags w (nothing s) h e = rw (e, wait_for)
  wait_for-expected os pid flags w (reported n c) h e =
      rw (e, wait_for) (ground (arith, decode-encode c h))
