-- ===== src/Tests/Balance.antt =====
-- Examples for the descriptors of the caller of fork, on the system of Lifetimes.
use process_cpp.Prelude.{pos, minus_one, ◌≡◌, refl, inr, none, some, [], ◌∷◌}
use process_cpp.Effect.{ok, throw, system_error}
use process_cpp.Descriptors.{reader, writer}
use process_cpp.Descriptors.Table.{fresh, get, put, lookup, close, dup, dup_file, pipe}
use process_cpp.Pipe
use process_cpp.Pipe.{closed_pipe}
use process_cpp.ProcessCalls.{ForkReturn, ProcessCalls}
use process_cpp.StandardStream
use process_cpp.Process.{make_process}
use process_cpp.Session.{Session}
use process_cpp.Fork.{returns, fork}
use process_cpp.Fork.Links.{ForkLaws}
use process_cpp.Fork.Balance.{fork-released, fork-restored}
use process_cpp.ChildProcess.{ChildProcess, destroy_private}
use process_cpp.Tests.Lifetimes.{
  Os, fd, fd_laws, os, kill_laws, session, child, quiet, nothing_to_do,
}

fork_laws : ForkLaws fd fd_laws os
fork_laws = record { parent_table = λ w x. refl; child_table = λ w x. refl }

-- The child has a pipe for its standard input, whose other end is the descriptor 6 of the parent.
abbrev fed : ChildProcess
fed = record child {
  private = record child.private {
    pipes = record {
      stdin = record { fds_0 = minus_one; fds_1 = pos 6 };
      stdout = closed_pipe;
      stderr = closed_pipe;
    };
    sin = pos 6;
  };
}

abbrev after_fork : Session Os
after_fork = record session {
  world = record session.world {
    fds = some (reader 0) ∷ some (writer 0) ∷ none ∷ none ∷ none ∷ none ∷ some (writer 2) ∷ [];
  };
}

fork_run :
    (fork fd os quiet nothing_to_do StandardStream.stdin session).parent
    ≡ returns (ok fed) after_fork
unfolding fork Pipe.invalid Pipe.assign Pipe.copy Pipe.destroy Pipe.close_read_fd
    Pipe.close_write_fd Pipe.dup_valid Pipe.close_valid make_process StandardStream.has get put
    lookup close dup dup_file pipe fresh
fork_run = refl

fork-released_example :
    fd_laws.table (destroy_private fd os (pos 9) fed.private after_fork.world) (pos 6)
    ≡ fd_laws.table session.world (pos 6)
fork-released_example =
    fork-released fd fd_laws os fork_laws quiet nothing_to_do StandardStream.stdin kill_laws (pos 9)
      session after_fork fed after_fork.world (inr refl) fork_run (λ y. refl) (pos 6)

-- No process can be forked.
abbrev no_fork : Os → ForkReturn Os
no_fork w = record { pid = minus_one; parent = w; child = w }

abbrev full : ProcessCalls Os
full = record os { fork = no_fork }

full_laws : ForkLaws fd fd_laws full
full_laws = record { parent_table = λ w x. refl; child_table = λ w x. refl }

abbrev after_failure : Session Os
after_failure = record session {
  world = record session.world {
    fds = some (reader 0) ∷ some (writer 0) ∷ none ∷ none ∷ none ∷ none ∷ [];
  };
}

failed_run :
    (fork fd full quiet nothing_to_do StandardStream.stdin session).parent
    ≡ returns (throw (system_error 11)) after_failure
unfolding fork Pipe.invalid Pipe.assign Pipe.copy Pipe.destroy Pipe.close_read_fd
    Pipe.close_write_fd Pipe.dup_valid Pipe.close_valid make_process StandardStream.has get put
    lookup close dup dup_file pipe fresh
failed_run = refl

fork-restored_example :
    fd_laws.table after_failure.world (pos 2) ≡ fd_laws.table session.world (pos 2)
fork-restored_example =
    fork-restored fd fd_laws full full_laws quiet nothing_to_do StandardStream.stdin session
      after_failure (system_error 11) (inr refl) failed_run (pos 2)
