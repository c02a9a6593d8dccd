-- ===== src/ProcessCalls.antt =====
-- The system calls on processes that the library makes, over the state `W` of the operating system.
use process_cpp.Prelude.{ℕ, zero, suc, ℤ, pos, negsuc}

-- What waitpid(2) returns, and the status word that it fills.
pub record WaitReturn : Type 0 where
  pub pid : ℤ
  pub status : ℤ

-- What fork(2) and vfork(2) leave: the value that the parent gets, the state in which the parent goes
-- on and the one in which the child, which gets 0, starts. There is a child unless the value is -1.
pub record ForkReturn (W : Type 0) : Type 0 where
  pub pid : ℤ
  pub parent : W
  pub child : W

pub record ProcessCalls (W : Type 0) : Type 0 where
  pub kill : ℤ → ℤ → W → ℤ × W
  pub getpgid : ℤ → W → ℤ × W
  pub waitpid : ℤ → ℤ → W → WaitReturn × W
  pub getpid : W → ℤ
  pub getppid : W → ℤ
  pub fork : W → ForkReturn W
  pub vfork : W → ForkReturn W
  pub errno : W → ℕ

-- Whom kill(2) signals for a value of its first argument, after its manual page.
pub data Target : Type 0 where
  process : ℕ → Target
  group : ℕ → Target
  callers_group : Target
  everyone : Target

abbrev pub target : ℤ → Target
target (pos zero) = callers_group
target (pos (suc n)) = process (suc n)
target (negsuc zero) = everyone
target (negsuc (suc n)) = group (suc (suc n))
