-- ===== src/Tests/Processes.antt =====
-- Examples for process.cpp, wait.cpp, the death observer of child_process.cpp and fork_and_run.cpp.
-- The operating system is the queue of the reports of waitpid.
use process_cpp.Prelude.{
  ℕ, ◌+◌, ℤ, pos, negsuc, minus_one, eqb, eqb_iff, ◌≡◌, refl, true, false, ◌&&◌, some, List, [],
  ◌∷◌, if◌then◌else◌, arith,
}
use process_cpp.Effect.{ok}
use process_cpp.Descriptors.{FdCalls}
use process_cpp.Pipe.{closed_pipe}
use process_cpp.ProcessCalls.{WaitReturn, ForkReturn, ProcessCalls}
use process_cpp.Process.{Process, ProcessGroup}
use process_cpp.Wait.{wait_for}
use process_cpp.Wait.Linux.{macros, laws}
use process_cpp.Wait.Decoding.{killed, exits, reported, expected, answer, wait_for-expected}
use process_cpp.DeathObserver.{Observer, has, add, on_sig_child, on_signals}
use process_cpp.DeathObserver.Coalescing.{on_signals-on_sig_child}
use process_cpp.DeathObserver.Refinement.{
  view, view_added, view_run, watch_has, watch_add, watch_sig_child, observer-Watch,
}
use process_cpp.DeathObserver.Counting.{
  IsWellFormed, accounted, entries, added, registers, add-accounted,
}
use process_cpp.DeathObserver.Draining.{report, idle, reap_all, reports_death, on_sig_child_lem}
use process_cpp.ChildProcess.{ChildProcess}
use process_cpp.ForkAndRun.{Numbers, ForkAndRunResult, client_failed, service_failed, supervise}
use process_cpp.ForkAndRun.Verdict.{flag, supervise_lem}

abbrev pub Queue : Type 0
Queue = List WaitReturn

abbrev pub next_report : Queue → WaitReturn × Queue
next_report [] = (record { pid = pos 0; status = pos 0 }, [])
next_report (r ∷ rest) = (r, rest)

abbrev pub no_fork : Queue → ForkReturn Queue
no_fork w = record { pid = minus_one; parent = w; child = w }

-- getpgid knows the group 3 of the process 7 alone.
abbrev pub queue : ProcessCalls Queue
queue = record {
  kill = λ pid signal w. (pos 0, w);
  getpgid = λ pid w. (if eqb pid (pos 7) then pos 3 else minus_one, w);
  waitpid = λ pid flags w. next_report w;
  getpid = λ w. pos 5;
  getppid = λ w. pos 4;
  fork = no_fork;
  vfork = no_fork;
  errno = λ w. 3;
}

abbrev made : ℤ → Process
made pid = record { signalable = record { kill_pid = pid }; pid = pid }

abbrev group_3 : ProcessGroup
group_3 = record { signalable = record { kill_pid = negsuc 2 }; id = pos 3 }

-- The process 8 is killed by the signal 9, with a core dump.
wait_for-expected_example :
    wait_for queue macros (pos 8) 2 (answer laws (reported 7 (killed 9 true)) ∷ [])
    ≡ (expected 3 (reported 7 (killed 9 true)), [])
wait_for-expected_example =
    wait_for-expected macros laws queue (pos 8) 2 (answer laws (reported 7 (killed 9 true)) ∷ [])
      (reported 7 (killed 9 true)) (omega arith, omega arith) refl

-- An observer of the children 7 and 8.
abbrev pub observer : Observer ℤ
observer = record { children = (pos 7, pos 7) ∷ (pos 8, pos 8) ∷ []; died = [] }

abbrev pub itself : ℤ → ℤ
itself pid = pid

pub observer-IsWellFormed : IsWellFormed itself observer
observer-IsWellFormed = record {
  single = λ k. ground (arith, eqb_iff (pos 7) k, eqb_iff (pos 8) k);
  keyed = (refl, (refl, tt));
}

-- The child 8 has exited with the code 1.
abbrev pub exit_of_8 : WaitReturn
exit_of_8 = record { pid = pos 8; status = pos 256 }

on_sig_child_lem_example :
    (o' : Observer ℤ) × (on_sig_child queue macros (pos 1) 10 2 observer (exit_of_8 ∷ [])
      ≡ some (o', []))
    × IsWellFormed itself o'
    × ((k : ℤ) → accounted itself k o' ≡ accounted itself k observer)
    × ((k : ℤ) → reports_death macros itself k (exit_of_8 ∷ []) ≡ true → entries k o'.children ≡ 0)
on_sig_child_lem_example =
    on_sig_child_lem macros itself queue 1 10 observer (report refl refl refl (idle refl refl refl))
      observer-IsWellFormed

add-accounted_example :
    IsWellFormed itself (added itself queue (pos 1) observer (pos 9) [])
    × (accounted itself (pos 9) (added itself queue (pos 1) observer (pos 9) [])
        ≡ (if registers itself queue (pos 1) observer (pos 9) && eqb (pos 9) (pos 9) then 1 else 0)
          + accounted itself (pos 9) observer)
add-accounted_example =
    add-accounted itself queue (pos 1) observer (pos 9) [] (pos 9) observer-IsWellFormed

-- No call on descriptors succeeds.
abbrev no_files : FdCalls Queue
no_files = record {
  pipe = λ w. (record { rc = minus_one; read_end = minus_one; write_end = minus_one }, w);
  dup = λ fd w. (minus_one, w);
  dup2 = λ fd to w. (minus_one, w);
  close = λ fd w. w;
  errno = λ w. 24;
}

abbrev numbers : Numbers
numbers = record { sig_term = pos 15; sigkill = pos 9; untraced = 2 }

abbrev child : ℤ → ChildProcess
child pid = record {
  process = made pid;
  private = record {
    pipes = record { stdin = closed_pipe; stdout = closed_pipe; stderr = closed_pipe };
    serr = minus_one;
    sin = minus_one;
    sout = minus_one;
    original_parent_pid = pos 5;
    original_child_pid = pid;
  };
}

-- The client exits with the code 1, the service with the code 0.
abbrev both_exits : Queue
both_exits = answer laws (reported 7 (exits 1)) ∷ answer laws (reported 6 (exits 0)) ∷ []

supervise_lem_example :
    (r : ForkAndRunResult) × ((supervise no_files queue macros numbers
        (child (pos 7))
        (child (pos 8))
        both_exits).0
      ≡ ok r)
    × (flag r client_failed ≡ true)
    × (flag r service_failed ≡ false)
supervise_lem_example =
    supervise_lem no_files queue macros laws numbers (child (pos 7)) (child (pos 8)) both_exits
      (exits 1) (exits 0) 7 6 (omega arith) (omega arith) refl refl refl

-- SIGCHLD is 17, and SIGTERM is 15.
on_signals-on_sig_child_example :
    on_signals queue macros
      (pos 1)
      (pos 17)
      10
      2
      (pos 15 ∷ pos 17 ∷ pos 17 ∷ [])
      observer
      (exit_of_8 ∷ [])
    ≡ some (reap_all macros observer (exit_of_8 ∷ []), [])
on_signals-on_sig_child_example =
    on_signals-on_sig_child macros queue 1 10 (pos 17) 2 (exit_of_8 ∷ []) [] (exit_of_8 ∷ [])
      (pos 15 ∷ pos 17 ∷ pos 17 ∷ []) observer (report refl refl refl (idle refl refl refl))
      (idle refl refl refl)

observer-Watch_example :
    ((c : ℤ) → has itself observer c ≡ watch_has itself (view observer) c)
    × ((c : ℤ) (w : Queue)
        → view_added (add itself queue (pos 1) observer c w)
          ≡ watch_add itself queue macros (pos 1) (view observer) c w)
    × ((echild fuel : ℕ) (w : Queue)
        → view_run (on_sig_child queue macros (pos 1) echild fuel observer w)
          ≡ watch_sig_child itself queue macros (pos 1) echild fuel (view observer) w)
observer-Watch_example = observer-Watch itself queue macros (pos 1) observer
