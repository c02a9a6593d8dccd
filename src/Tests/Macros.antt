-- ===== src/Tests/Macros.antt =====
-- Examples for the macro TESTP of fork_and_run.h.
use process_cpp.Prelude.{ℤ, pos, minus_one, Bool, false, some, [], ◌∷◌}
use process_cpp.Effect.{Effect, Error, ok}
use process_cpp.Descriptors.{other}
use process_cpp.Descriptors.Table.{laws, Fds}
use process_cpp.Pipe
use process_cpp.Pipe.{closed_pipe}
use process_cpp.ProcessCalls.{ForkReturn, ProcessCalls}
use process_cpp.StandardStream
use process_cpp.Wait.{Detail}
use process_cpp.Wait.Decoding.{exits, answer, reported}
use process_cpp.Wait.Linux
use process_cpp.ChildProcess.{ChildProcess}
use process_cpp.Session.{Session}
use process_cpp.Fork
use process_cpp.Fork.{fork}
use process_cpp.ForkAndRun.{Numbers}

abbrev forks : Fds → ForkReturn Fds
forks w = record { pid = pos 7; parent = w; child = w }

-- The child 7 has exited with 0.
abbrev forking : ProcessCalls Fds
forking = record {
  kill = λ pid signal w. (pos 0, w);
  getpgid = λ pid w. (pos 5, w);
  waitpid = λ pid flags w. (answer Linux.laws (reported 6 (exits 0)), w);
  getpid = λ w. pos 5;
  getppid = λ w. pos 4;
  fork = forks;
  vfork = forks;
  errno = λ w. 0;
}

abbrev numbers : Numbers
numbers = record { sig_term = pos 15; sigkill = pos 9; untraced = 2 }

abbrev session : Session Fds
session = record {
  static_pipe = some closed_pipe;
  world = some (other 0) ∷ some (other 1) ∷ some (other 2) ∷ [];
}

abbrev quiet : Error → Fds → Fds
quiet e w = w

-- A test without a failure.
abbrev code : Effect Fds Bool
code w = (ok false, w)

abbrev no_status : Detail → ℤ
no_status d = minus_one

abbrev child : ChildProcess
child = record {
  process = record { signalable = record { kill_pid = pos 7 }; pid = pos 7 };
  private = record {
    pipes = record { stdin = closed_pipe; stdout = closed_pipe; stderr = closed_pipe };
    serr = minus_one;
    sin = minus_one;
    sout = minus_one;
    original_parent_pid = pos 5;
    original_child_pid = pos 7;
  };
}
