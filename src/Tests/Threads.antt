-- ===== src/Tests/Threads.antt =====
-- Examples for the interleavings of the death observer of child_process.cpp and of the runs of a trap.
use process_cpp.Prelude.{
  ℤ, pos, eqb, ◌≡◌, ◌≢◌, refl, true, none, some, List, [], ◌∷◌, ◌++◌, ◌⊎◌, ℕ, false, if◌then◌else◌,
  arith,
}
use process_cpp.Wait.Linux.{macros}
use process_cpp.DeathObserver.{find, erase, insert, bury, reap, add_new}
use process_cpp.DeathObserver.Interleaving.{
  alive, zombie, gone, System, begin_add, finish_add, wait_any, handle, dies, begins, finishes,
  waits, handles, Reach, start, later,
}
use mathlib.Core.List.{Memᴰ}
use process_cpp.DeathObserver.Interleaving.Accounting.{Later, same, after}
use process_cpp.Tests.Family.{Family, report_of, family, itself, family_laws}
use process_cpp.DeathObserver.Interleaving.Reuse.{late_report}
use process_cpp.SignalTrap
use process_cpp.SignalTrap.Threads
use process_cpp.SignalTrap.Threads.{Threads, looping}
use process_cpp.SignalTrap.Threads.Exclusion.{Reach-excludes, both_run}
use process_cpp.DeathObserver.Interleaving.Safety.{no_death_lost, AnnouncesTheDead, Step-announces}

-- The children 7 and 8 run.
abbrev two_alive : System ℤ Family
two_alive = record {
  world = record {
    fates = λ x. if eqb x (pos 7) then alive else if eqb x (pos 8) then alive else gone;
    next = pos 7;
  };
  observer = record { children = []; died = [] };
  pending = none;
  adding = none;
}

-- 8 is added; 7 dies while it is being added, and on_sig_child has reaped it before `add` asks.
abbrev added_8 : System ℤ Family
added_8 =
    finish_add itself family macros (pos 1) (pos 8)
      (begin_add itself family macros (pos 1) (pos 8) two_alive)

abbrev adding_7 : System ℤ Family
adding_7 = begin_add itself family macros (pos 1) (pos 7) added_8

abbrev dead_7 : System ℤ Family
dead_7 = record adding_7 {
  world = record {
    fates = λ x. if eqb x (pos 7) then zombie else adding_7.world.fates x;
    next = pos 7;
  };
}

abbrev reaped_7 : System ℤ Family
reaped_7 = wait_any itself family macros (pos 1) dead_7

abbrev announced_7 : System ℤ Family
announced_7 = finish_add itself family macros (pos 1) (pos 7) reaped_7

abbrev handled_7 : System ℤ Family
handled_7 = handle itself family macros (pos 1) (report_of (pos 7)) announced_7

-- The death of 7 is announced once, by `add`, and 8 is observed.
handled_7_lem : handled_7.observer ≡ record { children = (pos 8, pos 8) ∷ []; died = pos 7 ∷ [] }
unfolding begin_add finish_add wait_any handle add_new bury reap insert find erase macros
handled_7_lem = refl

abbrev Reached : System ℤ Family → Type 0
Reached = Reach itself family macros (pos 1) family_laws

after_adding_8 : Reached added_8
unfolding begin_add insert find
after_adding_8 =
    later (later (start two_alive.world) (begins (pos 8) refl refl)) (finishes (pos 8) refl)

while_adding_7 : Reached adding_7
unfolding finish_add add_new begin_add insert find
while_adding_7 = later after_adding_8 (begins (pos 7) refl refl)

after_reaping_7 : Reached reaped_7
unfolding finish_add add_new begin_add insert find
after_reaping_7 =
    later (later while_adding_7 (dies (pos 7) dead_7.world refl (λ x. refl))) (waits refl)

after_handling_7 : Reached handled_7
unfolding finish_add add_new begin_add insert find wait_any bury erase
after_handling_7 =
    later (later after_reaping_7 (finishes (pos 7) refl)) (handles (report_of (pos 7)) refl refl)

seven_handled : Later itself family macros (pos 1) family_laws adding_7 handled_7
unfolding finish_add add_new begin_add insert find wait_any bury erase
seven_handled =
    after
      (after (after (after same (dies (pos 7) dead_7.world refl (λ x. refl))) (waits refl))
        (finishes (pos 7) refl))
      (handles (report_of (pos 7)) refl refl)

-- 7, which is being added, is announced later.
no_death_lost_example :
    (fresh : List ℤ) × (handled_7.observer.died ≡ fresh ++ adding_7.observer.died)
    × (Memᴰ (pos 7) fresh
        ⊎ ((find (pos 7) handled_7.observer.children ≡ some (pos 7))
            × (pos 7 ≡ pos 7)
            × (handled_7.world.fates (pos 7) ≢ gone)))
unfolding begin_add finish_add wait_any handle add_new bury reap insert find erase macros
no_death_lost_example =
    no_death_lost itself family macros (pos 1) family_laws adding_7 handled_7 while_adding_7
      seven_handled refl refl (pos 7) (pos 7) refl

Step-announces_example :
    AnnouncesTheDead itself family macros (pos 1) family_laws reaped_7 announced_7
unfolding begin_add finish_add wait_any add_new insert find
Step-announces_example =
    Step-announces itself family macros (pos 1) family_laws reaped_7 announced_7 after_reaping_7
      (finishes (pos 7) refl)

-- A report of the death of 7 waits while a new child 7, which runs, is added.
abbrev late_7 : System ℤ Family
late_7 = handle itself family macros (pos 1) (report_of (pos 7)) (
    finish_add itself family macros (pos 1) (pos 7)
      (begin_add itself family macros (pos 1) (pos 7) two_alive))

late_report_example :
    (late_7.observer.died ≡ pos 7 ∷ [])
    × (find (pos 7) late_7.observer.children ≡ none)
    × (late_7.world.fates (pos 7) ≡ alive)
unfolding find macros
late_report_example =
    late_report itself family macros (pos 1) family_laws two_alive (pos 7) (report_of (pos 7)) refl
      refl refl refl refl

-- The thread 2 runs the trap.
abbrev one_runs : Threads
one_runs = Threads.enter 2 (
    Threads.mark 2
      (Threads.check 2 (record { state = SignalTrap.not_running; at = λ i. Threads.outside })))

one_runs-Reach : Threads.Reach true one_runs
unfolding Threads.check Threads.mark Threads.move
one_runs-Reach =
    Threads.later
      (Threads.later (Threads.later Threads.start (Threads.checks 2 refl refl (λ h j here. cc)))
        (Threads.marks 2 refl))
      (Threads.enters 2 refl)

Reach-excludes_example :
    (one_runs.state ≡ SignalTrap.running) × ((j : ℕ) → one_runs.at j ≡ looping → 2 ≡ j)
unfolding Threads.enter Threads.move
Reach-excludes_example = Reach-excludes one_runs 2 one_runs-Reach refl

both_run_example : (s : Threads) × Threads.Reach false s × (s.at 0 ≡ looping) × (s.at 1 ≡ looping)
both_run_example = both_run 0 1 (λ e. omega arith)
