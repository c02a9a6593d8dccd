-- ===== src/Tests/Trapping.antt =====
-- Examples for an observer of children with its trap, on the systems of Traps and Processes.
use process_cpp.Prelude.{pos, refl, [], ◌∷◌, arith}
use process_cpp.Wait.Linux.{macros}
use process_cpp.SignalTrap.{thread}
use process_cpp.SignalTrap.Reading.{taken}
use process_cpp.SignalTrap.Running.{stopped}
use process_cpp.DeathObserver.Draining.{report, idle}
use process_cpp.DeathObserver.Trapping.{Serves, make_trap-Serves}
use process_cpp.Tests.Traps.{os, os_laws, trap, trapped, idle_os, made}
use process_cpp.Tests.Processes.{queue, observer, itself, exit_of_8, observer-IsWellFormed}

-- The trap reads the signals 17, which is SIGCHLD, and 15; the child 8 has exited.
make_trap-Serves_example :
    Serves os os_laws itself queue macros 1 10
      (pos 17)
      trap
      1
      4
      idle_os
      2
      observer
      (exit_of_8 ∷ [])
      []
      (exit_of_8 ∷ [])
make_trap-Serves_example =
    make_trap-Serves os os_laws itself queue macros 1 10 (pos 17) thread trapped idle_os trap made
      refl refl 4 idle_os refl
      (stopped refl refl (taken 2 refl (omega arith) (omega arith) refl refl) refl refl) refl
      observer (report refl refl refl (idle refl refl refl)) (idle refl refl refl)
      observer-IsWellFormed
