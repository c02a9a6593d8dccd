-- ===== src/Wait.antt =====
-- include/core/posix/wait.h, src/core/posix/wait.cpp and ChildProcess::wait_for of
-- src/core/posix/child_process.cpp.
pub mod Decoding
pub mod Linux
use Prim.Native.Nat.{bit_or}
use process_cpp.Prelude.{ℕ, ◌%◌, ◌^◌, ℤ, pos, minus_one, eqb, Bool, if◌then◌else◌}
use process_cpp.Effect.{Effect, ok, throw, system_error}
use process_cpp.ProcessCalls.{ProcessCalls}

-- enum class Flags : std::uint8_t
abbrev pub Flags : Type 0
Flags = ℕ

unfoldable pub operator_or : Flags → Flags → Flags
operator_or l r = bit_or l r % 2 ^ 8

pub data Status : Type 0 where
  undefined no_state_change exited signaled stopped continued : Status

-- The union `detail`. Its members hold exit::Status and Signal, which are enumerations over `int`.
pub data Detail : Type 0 where
  unset : Detail
  if_exited : ℤ → Detail
  if_signaled : ℤ → Bool → Detail
  if_stopped : ℤ → Detail

pub record Outcome : Type 0 where
  pub status : Status
  pub detail : Detail

-- The macros of <sys/wait.h> that read a status word.
pub record WaitMacros : Type 0 where
  pub wifexited : ℤ → Bool
  pub wexitstatus : ℤ → ℤ
  pub wifsignaled : ℤ → Bool
  pub wtermsig : ℤ → ℤ
  pub wcoredump : ℤ → Bool
  pub wifstopped : ℤ → Bool
  pub wstopsig : ℤ → ℤ
  pub wifcontinued : ℤ → Bool

-- The chain of tests on the status word.
unfoldable pub decode : WaitMacros → ℤ → Outcome
decode m status =
    if m.wifexited status
    then record { status = exited; detail = if_exited (m.wexitstatus status) }
    else if m.wifsignaled status
    then record { status = signaled; detail = if_signaled (m.wtermsig status) (m.wcoredump status) }
    else if m.wifstopped status
    then record { status = stopped; detail = if_stopped (m.wstopsig status) }
    else if m.wifcontinued status
    then record { status = continued; detail = unset }
    else record { status = undefined; detail = unset }

-- ChildProcess::wait_for, for the pid of the process.
unfoldable pub wait_for : {W : Type 0} → ProcessCalls W → WaitMacros → ℤ → Flags → Effect W Outcome
unfolding decode
wait_for os m pid flags w =
    let (r, w') = os.waitpid pid (pos flags) w in
    if eqb r.pid minus_one
    then (throw (system_error (os.errno w')), w')
    else if eqb r.pid (pos 0)
    then (ok (record { status = no_state_change; detail = unset }), w')
    else (ok (decode m r.status), w')
