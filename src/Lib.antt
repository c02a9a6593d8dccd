-- ===== src/Lib.antt =====
-- A model of process-cpp, a C++ library to run and supervise processes, with proofs.
--
-- The library makes child processes by fork, vfork and exec, redirects their standard streams into
-- pipes, waits for them, signals them, and tells when they die; it traps signals, reads and changes the
-- environment of the process, and reads files of a process under /proc. A small library for tests
-- synchronises processes and runs a client against a service.
--
-- The files and the code, by its path from the repository's root:
--   Prelude, Effect      integers, Boolean tests, lists; calls that change a state and may throw.
--   Descriptors          pipe, dup, dup2 and close, as a parameter with the laws of the manual pages;
--                        RoomLaws and PlentyLaws say when no call fails for want of a descriptor,
--                        and that each pipe is a new one. Descriptors/Table is an instance.
--   Pipe                 ChildProcess::Pipe of src/core/posix/child_process.cpp: each member is a
--                        function of the object and the state; Ownership and Assignment are about
--                        descriptors.
--   ChildProcess         ChildProcess::Private, the constructor and the destructor (same file);
--                        Lifetime is about what the one opens and the other closes and kills.
--   Session              the state with the static objects of Pipe::invalid and ChildProcess::invalid.
--   Wait                 ChildProcess::wait_for and include/core/posix/wait.h; Wait/Decoding is about the
--                        status word, Wait/Linux an instance of the macros.
--   DeathObserver        DeathObserverImpl and create_once_with_signal_trap (child_process.cpp), over a
--                        map that is a list of pairs. Finding, Counting, Draining and Creation are
--                        about its operations, Refinement about the map behind the list, Coalescing
--                        about the signals that reach it. Interleaving is the observer with its
--                        threads, where on_sig_child takes the mutex after waitpid; Soundness is the
--                        invariant of its steps, Accounting what any sequence of steps announces,
--                        and Safety what follows; Reuse is about a pid that is given anew. Trapping joins the observer and its trap.
--   StandardStream       src/core/posix/standard_stream.cpp.
--   ProcessCalls         kill, getpgid, waitpid, fork and vfork, as a parameter.
--   Process              src/core/posix/process.cpp, process_group.cpp and signalable.cpp.
--   Fork                 src/core/posix/fork.cpp: a call gives what happens in the parent and, if there
--                        is one, in the child. Ends is about the ends that the parent keeps,
--                        Redirects about the child's standard streams, Streams about a new pipe.
--                        Invalid, Opening, Carrying, Parts, Making and Starting follow the pipes up to
--                        the call of fork, Keeping and Linking to the streams of the parent, Holding
--                        and Serving to those of the child, and Links joins the two. Sharing,
--                        Severing and Leaking do this for vfork. Releasing, Restoring and Balance
--                        are about the descriptors of the caller before and after. Pids and
--                        Identity are about the pid of the caller.
--   Exec                 src/core/posix/exec.cpp: the arrays, cell by cell; Running is about the child
--                        up to its call of execve.
--   SignalTrap           src/core/posix/signal.cpp; Masks is about the sets, Reading and
--                        Running about the loop, Stopping about a stop and the run that it ends,
--                        Faults about errors. Threads has the threads that call run, with the test
--                        of the state and the store as two steps, and Exclusion is about these.
--   Text                 operations of std::string, on lists of bytes.
--   Environment          the namespace env of src/core/posix/this_process.cpp; Lines is about for_each,
--                        Variables about one call of the others, Sequences about any number.
--   ThisProcess          instance and parent (src/core/posix/this_process.cpp).
--   CrossProcessSync     src/core/testing/cross_process_sync.cpp; Calls is about one call, Exchange about
--                        any sequence of signals and waits.
--   ForkAndRun           src/core/testing/fork_and_run.cpp; Verdict is about its result, Cleanup about
--                        the children that it leaves. Testp is the macro TESTP of
--                        include/core/testing/fork_and_run.h, and TESTP_F in a fixture; Passing is
--                        about the outcome of such a test.
--   Proc/Stat, Proc/Oom  src/core/posix/linux/proc/process.
--   Backtrace            src/core/posix/backtrace.cpp; Names is about the symbols, Visiting about the
--                        frames, and Printing models print_backtrace of src/core/posix/fork.cpp.
--   Tests                examples, and the small operating systems that they run on.
--
-- The operating system is a state W of any type. The calls of it are a record over W, and what the
-- proofs need of them is a second record with the laws that the manual pages document. A function that
-- throws returns a Result beside the state that it leaves. C integers are written with their
-- wrap-around where the code can reach it: size_t and uint32_t modulo a power of two.
--
-- Fuel: the loop of DeathObserver.on_sig_child makes one call of waitpid for each unit. `Drains n`
-- says that waitpid has nothing more to report within n calls, and n units are then enough. The loop
-- of SignalTrap.run makes one round for each unit; `Rounds n` says that polls and reads lead out of the
-- loop within n rounds, and n units are then enough. All other functions recur on their arguments.
--
-- The threads of the observer are steps of one system, one after the other; a step that needs the
-- mutex is possible only where no call of add holds it.
--
-- Not modelled: the iostreams over the pipes and the global streams (the formats of numbers in a
-- backtrace are a parameter), core::Signal (a list of emissions stands for it), the mutex of the
-- environment (each guarded function is one step), the empty file of the printing of a State, the enum
-- of signals (a signal is its number, since the code casts any number to it), and the tests.
mod Prelude
pub mod Effect
pub mod Descriptors
pub mod Pipe
pub mod ProcessCalls
pub mod Process
pub mod ChildProcess
pub mod Session
pub mod Fork
pub mod DeathObserver
pub mod SignalTrap
pub mod Text
pub mod ThisProcess
pub mod Environment
pub mod CrossProcessSync
pub mod ForkAndRun
pub mod Exec
pub mod Proc
pub mod Backtrace
pub mod Tests
pub mod Wait
pub mod StandardStream
