-- ===== src/Tests/Forks.antt =====
-- Examples for fork.cpp, on a descriptor table that is a list.
use process_cpp.Prelude.{ℤ, pos, minus_one, ◌≡◌, refl, inr, none, some, List, [], ◌∷◌}
use process_cpp.Effect.{Effect, Error, ok}
use process_cpp.Descriptors.{other, reader, writer}
use process_cpp.Descriptors.Table.{
  fresh, plenty, laws, Fds, calls, get, put, lookup, close, dup, dup_file, dup2, pipe,
}
use process_cpp.Pipe
use process_cpp.Pipe.{Pipe, closed_pipe}
use process_cpp.ProcessCalls.{ForkReturn, ProcessCalls}
use process_cpp.StandardStream
use process_cpp.ChildProcess.{ChildProcess, Pipes}
use process_cpp.Process.{make_process}
use process_cpp.Session.{Session}
use process_cpp.Fork.{redirect, returns, fork, vfork}
use process_cpp.Text.{Str}
use process_cpp.Exec.{Cell, exec}
use process_cpp.Exec.Running.{IsExecuted, exec-IsExecuted}
use process_cpp.Fork.Links.{ForkLaws, IsConnected, fork-IsConnected}
use process_cpp.Fork.Serving.{HasStandard}
use process_cpp.Fork.Severing.{VforkLaws}
use process_cpp.Fork.Leaking.{IsLeaked, vfork-IsLeaked}

abbrev forks : Fds → ForkReturn Fds
forks w = record { pid = pos 7; parent = w; child = w }

abbrev forking : ProcessCalls Fds
forking = record {
  kill = λ pid signal w. (pos 0, w);
  getpgid = λ pid w. (pos 5, w);
  waitpid = λ pid flags w. (record { pid = pos 0; status = pos 0 }, w);
  getpid = λ w. pos 5;
  getppid = λ w. pos 4;
  fork = forks;
  vfork = forks;
  errno = λ w. 0;
}

-- The descriptors 0 to 2 are open, and the static pipe is made.
abbrev session : Session Fds
session = record {
  static_pipe = some closed_pipe;
  world = some (other 0) ∷ some (other 1) ∷ some (other 2) ∷ [];
}

abbrev quiet : Error → Fds → Fds
quiet e w = w

abbrev nothing_to_do : Effect Fds ℤ
nothing_to_do w = (ok (pos 0), w)

-- A child with the pid 7 and one descriptor, for the stream that it reads from.
abbrev child : ℤ → ChildProcess
child sin = record {
  process = record { signalable = record { kill_pid = pos 7 }; pid = pos 7 };
  private = record {
    pipes = record {
      stdin = record { fds_0 = minus_one; fds_1 = sin };
      stdout = closed_pipe;
      stderr = closed_pipe;
    };
    serr = minus_one;
    sin = sin;
    sout = minus_one;
    original_parent_pid = pos 5;
    original_child_pid = pos 7;
  };
}

abbrev after_fork : Session Fds
after_fork = record session {
  world =
      some (other 0)
      ∷ some (other 1)
      ∷ some (other 2)
      ∷ none
      ∷ none
      ∷ none
      ∷ none
      ∷ some (writer 0)
      ∷ [];
}

fork_run :
    (fork calls forking quiet nothing_to_do StandardStream.stdin session).parent
    ≡ returns (ok (child (pos 7))) after_fork
unfolding fork Pipe.invalid Pipe.assign Pipe.copy Pipe.destroy Pipe.close_read_fd
    Pipe.close_write_fd Pipe.dup_valid Pipe.close_valid make_process get put lookup close dup
    dup_file dup2 pipe fresh StandardStream.has
fork_run = refl

fork_laws : ForkLaws calls laws forking
fork_laws = record { parent_table = λ w x. refl; child_table = λ w x. refl }

has_standard : HasStandard calls laws session.world
unfolding laws lookup get
has_standard = record {
  file_0 = other 0;
  file_1 = other 1;
  file_2 = other 2;
  open_0 = refl;
  open_1 = refl;
  open_2 = refl;
}

fork-IsConnected_example :
    IsConnected calls laws quiet nothing_to_do StandardStream.stdin forking session.world after_fork
      (child (pos 7))
      (fork calls forking quiet nothing_to_do StandardStream.stdin session).child
fork-IsConnected_example =
    fork-IsConnected calls laws quiet nothing_to_do StandardStream.stdin forking plenty fork_laws
      session after_fork (child (pos 7)) (inr refl) has_standard fork_run

-- execve as it returns where it fails.
abbrev fails : Str → List Cell → List Cell → Effect Fds ℤ
fails file argv envp w = (ok minus_one, w)

abbrev nothing_to_set_up : Effect Fds (Unit {0})
nothing_to_set_up w = (ok tt, w)

exec_run :
    (exec fails nothing_to_do calls forking quiet
      (1 ∷ [])
      []
      []
      StandardStream.stdin
      nothing_to_set_up
      session).parent
    ≡ returns (ok (child (pos 7))) after_fork
unfolding exec fork Pipe.invalid Pipe.assign Pipe.copy Pipe.destroy Pipe.close_read_fd
    Pipe.close_write_fd Pipe.dup_valid Pipe.close_valid make_process get put lookup close dup
    dup_file dup2 pipe fresh StandardStream.has
exec_run = refl

exec-IsExecuted_example :
    IsExecuted calls laws forking quiet fails nothing_to_do
      (1 ∷ [])
      []
      []
      StandardStream.stdin
      nothing_to_set_up
      session.world
      after_fork
      (child (pos 7))
      (exec fails nothing_to_do calls forking quiet
        (1 ∷ [])
        []
        []
        StandardStream.stdin
        nothing_to_set_up
        session).child
exec-IsExecuted_example =
    exec-IsExecuted calls laws forking quiet fails nothing_to_do (1 ∷ []) [] [] StandardStream.stdin
      nothing_to_set_up plenty fork_laws session after_fork (child (pos 7)) (inr refl) has_standard
      exec_run

-- The ends of the three pipes that the parent keeps are open, and no object has them.
abbrev after_vfork : Session Fds
after_vfork = record session {
  world =
      some (other 0)
      ∷ some (other 1)
      ∷ some (other 2)
      ∷ none
      ∷ some (writer 0)
      ∷ some (reader 2)
      ∷ none
      ∷ some (reader 8)
      ∷ none
      ∷ [];
}

vfork_run :
    (vfork calls forking quiet nothing_to_do StandardStream.stdin session).parent
    ≡ returns (ok (child minus_one)) after_vfork
unfolding vfork Pipe.invalid Pipe.assign Pipe.copy Pipe.destroy Pipe.close_read_fd
    Pipe.close_write_fd Pipe.dup_valid Pipe.close_valid make_process get put lookup close dup
    dup_file dup2 pipe fresh
vfork_run = refl

vfork_laws : VforkLaws calls laws forking
vfork_laws = record { parent_table = λ w x. refl; child_table = λ w x. refl }

vfork-IsLeaked_example :
    IsLeaked calls laws quiet nothing_to_do StandardStream.stdin forking session.world after_vfork
      (child minus_one)
      (vfork calls forking quiet nothing_to_do StandardStream.stdin session).child
vfork-IsLeaked_example =
    vfork-IsLeaked calls laws quiet nothing_to_do StandardStream.stdin forking plenty vfork_laws
      session after_vfork (child minus_one) has_standard vfork_run

-- The child's ends of three pipes, at the descriptors 3 to 5.
abbrev child_ends : Pipes
child_ends = record {
  stdin = record { fds_0 = pos 3; fds_1 = minus_one };
  stdout = record { fds_0 = minus_one; fds_1 = pos 4 };
  stderr = record { fds_0 = minus_one; fds_1 = pos 5 };
}

abbrev six_open : Fds
six_open =
    some (other 0)
    ∷ some (other 1)
    ∷ some (other 2)
    ∷ some (reader 0)
    ∷ some (writer 1)
    ∷ some (writer 2)
    ∷ []

redirected : (redirect calls 7 child_ends six_open).0 ≡ ok tt
unfolding redirect StandardStream.has dup2 lookup get put
redirected = refl
