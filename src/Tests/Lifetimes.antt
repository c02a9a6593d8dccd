-- ===== src/Tests/Lifetimes.antt =====
-- Examples for the private part of a ChildProcess and for this_process::instance, on a system that has
-- a descriptor table, the pid of the process, and the signals that were sent.
use process_cpp.Prelude.{
  ℤ, pos, minus_one, eqb, ◌≡◌, refl, not, ◌&&◌, none, some, List, [], ◌∷◌, if◌then◌else◌,
}
use process_cpp.Effect.{Effect, Result, Error, ok}
use process_cpp.Descriptors.{FdCalls, FdLaws, reader, writer}
use process_cpp.Descriptors.Table.{Fds, calls, laws}
use process_cpp.Pipe
use process_cpp.Pipe.{Pipe, closed_pipe}
use process_cpp.ProcessCalls.{ForkReturn, ProcessCalls}
use process_cpp.StandardStream
use process_cpp.Process.{make_process}
use process_cpp.Wait.Linux.{macros}
use process_cpp.Session.{Session}
use process_cpp.Fork.{returns, fork}
use process_cpp.Fork.Pids.{IdentityLaws}
use process_cpp.ForkAndRun.{ForkAndRunResult, Numbers, fork_and_run}
use process_cpp.ForkAndRun.Cleanup.{fork_and_run-kills}
use process_cpp.ChildProcess.{ChildProcess, make_private, destroy_private}
use process_cpp.ChildProcess.Lifetime.{KillLaws, destroy_private-make_private}
use process_cpp.ThisProcess.{instances, process_of, instances_lem}

pub record Os : Type 0 where
  pub fds : Fds
  pub pid : ℤ
  pub sent : List (ℤ × ℤ)

abbrev pub with_fds : {A : Type 0} → Os → A × Fds → A × Os
with_fds w (a, fds) = (a, record w { fds = fds })

abbrev pub fd : FdCalls Os
fd = record {
  pipe = λ w. with_fds w (calls.pipe w.fds);
  dup = λ x w. with_fds w (calls.dup x w.fds);
  dup2 = λ x y w. with_fds w (calls.dup2 x y w.fds);
  close = λ x w. record w { fds = calls.close x w.fds };
  errno = λ w. 24;
}

abbrev pub fd_laws : FdLaws fd
fd_laws = record {
  table = λ w. laws.table w.fds;
  table-minus_one = λ w. laws.table-minus_one w.fds;
  table-close = λ w. laws.table-close w.fds;
  dup_fresh = λ w. laws.dup_fresh w.fds;
  dup_closed = λ w. laws.dup_closed w.fds;
  table-dup = λ w. laws.table-dup w.fds;
  new_pipe = λ w. laws.new_pipe w.fds;
  pipe_fresh_read = λ w. laws.pipe_fresh_read w.fds;
  pipe_fresh_write = λ w. laws.pipe_fresh_write w.fds;
  pipe_distinct = λ w. laws.pipe_distinct w.fds;
  table-pipe = λ w. laws.table-pipe w.fds;
  table-dup2 = λ w. laws.table-dup2 w.fds;
  dup2_closed = λ w. laws.dup2_closed w.fds;
}

-- Every child has the pid 7.
abbrev pub forks : Os → ForkReturn Os
forks w = record { pid = pos 7; parent = w; child = record w { pid = pos 7 } }

abbrev pub os : ProcessCalls Os
os = record {
  kill = λ pid signal w. (pos 0, record w { sent = (pid, signal) ∷ w.sent });
  getpgid = λ pid w. (pid, w);
  waitpid = λ pid flags w. (record { pid = pos 0; status = pos 0 }, w);
  getpid = λ w. w.pid;
  getppid = λ w. pos 1;
  fork = forks;
  vfork = forks;
  errno = λ w. 11;
}

pub kill_laws : KillLaws fd fd_laws os
kill_laws = record {
  sent = λ w. w.sent;
  sent-kill = λ pid signal w. refl;
  sent-close = λ x w. refl;
  sent-dup = λ x w. refl;
  getpid-dup = λ x w. refl;
  table-kill = λ pid signal x w. refl;
}

abbrev pub of_pid : ℤ → Os
of_pid pid = record { fds = some (reader 0) ∷ some (writer 0) ∷ []; pid = pid; sent = [] }

abbrev a_pipe : Pipe
a_pipe = record { fds_0 = pos 0; fds_1 = pos 1 }

-- The process 5, which made the object for the child 7, destroys it.
destroy_private-make_private_example :
    let (d, w) = make_private fd os (pos 7) a_pipe closed_pipe closed_pipe (of_pid (pos 5)) in
    ((x : ℤ)
      → fd_laws.table (destroy_private fd os (pos 9) d w) x ≡ fd_laws.table (of_pid (pos 5)) x)
    × (kill_laws.sent (destroy_private fd os (pos 9) d w) ≡ (
        if eqb (os.getpid (of_pid (pos 5))) (os.getpid w) && not (eqb (pos 7) minus_one)
        then (pos 7, pos 9) ∷ kill_laws.sent w
        else kill_laws.sent w))
destroy_private-make_private_example =
    destroy_private-make_private fd fd_laws os kill_laws (pos 9) (pos 7) a_pipe closed_pipe
      closed_pipe (of_pid (pos 5))
      (make_private fd os (pos 7) a_pipe closed_pipe closed_pipe (of_pid (pos 5))).1 (λ y. refl)

-- The process 5, and a child 6 that is forked after the first call.
instances_lem_example :
    instances os none (of_pid (pos 5) ∷ of_pid (pos 6) ∷ [])
    ≡ ok (process_of os (pos 5)) ∷ ok (process_of os (pos 5)) ∷ []
instances_lem_example = instances_lem os (of_pid (pos 5)) (of_pid (pos 6) ∷ []) 5 refl

identity_laws : IdentityLaws fd os
identity_laws = record {
  getpid-pipe = λ w. refl;
  getpid-dup = λ x w. refl;
  getpid-close = λ x w. refl;
  getpid-kill = λ p signal w. refl;
  getpid-waitpid = λ p flags w. refl;
  getpid-fork = λ w. refl;
}

abbrev pub session : Session Os
session = record { static_pipe = some closed_pipe; world = of_pid (pos 5) }

abbrev pub child : ChildProcess
child = record {
  process = process_of os (pos 7);
  private = record {
    pipes = record { stdin = closed_pipe; stdout = closed_pipe; stderr = closed_pipe };
    serr = minus_one;
    sin = minus_one;
    sout = minus_one;
    original_parent_pid = pos 5;
    original_child_pid = pos 7;
  };
}

abbrev pub quiet : Error → Os → Os
quiet e w = w

abbrev pub nothing_to_do : Effect Os ℤ
nothing_to_do w = (ok (pos 0), w)

fork_run :
    (fork fd os quiet nothing_to_do StandardStream.empty session).parent
    ≡ returns (ok child) session
unfolding fork Pipe.invalid Pipe.assign Pipe.copy Pipe.destroy Pipe.close_read_fd
    Pipe.close_write_fd Pipe.dup_valid Pipe.close_valid make_process StandardStream.has
fork_run = refl

abbrev numbers : Numbers
numbers = record { sig_term = pos 15; sigkill = pos 9; untraced = 2 }

fork_and_run-kills_example :
    (r : Result ForkAndRunResult) × (s' : Session Os) × (rest : List (ℤ × ℤ)) × (fork_and_run fd os
        macros numbers quiet nothing_to_do nothing_to_do session
      ≡ some (r, s'))
    × (kill_laws.sent s'.world ≡ (pos 7, pos 9) ∷ (pos 7, pos 9) ∷ rest)
fork_and_run-kills_example =
    fork_and_run-kills fd fd_laws os macros numbers kill_laws identity_laws quiet nothing_to_do
      nothing_to_do session session session child (ok child) fork_run fork_run
