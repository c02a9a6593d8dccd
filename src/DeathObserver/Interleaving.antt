-- ===== src/DeathObserver/Interleaving.antt =====
-- The death observer of src/core/posix/child_process.cpp with its threads: `add` runs under the mutex,
-- and on_sig_child takes the mutex only after waitpid has given it a report. One thread runs
-- on_sig_child; the children die, and the process forks new ones, at any time.
pub mod Soundness
pub mod Accounting
pub mod Safety
pub mod Reuse
use process_cpp.Prelude.{
  ℤ, pos, minus_one, eqb, leb_ℤ, ◌≡◌, ◌≢◌, Bool, true, false, Option, none, some, [], if◌then◌else◌,
}
use process_cpp.ProcessCalls.{ProcessCalls, WaitReturn}
use process_cpp.Wait.{WaitMacros}
use process_cpp.DeathObserver.{Observer, insert, add_new, reap}

-- A child runs, or has died and waits to be reaped; or there is no child with the pid.
pub data Fate : Type 0 where
  alive zombie gone : Fate

-- What waitpid does to the child that it is asked about.
abbrev pub reaped : Fate → Fate
reaped zombie = gone
reaped f = f

-- A report of a child, and neither an error nor the 0 of WNOHANG.
abbrev pub is_report : WaitReturn → Bool
is_report r = if eqb r.pid minus_one then false else if eqb r.pid (pos 0) then false else true

-- Where the threads stand. `pending` is the report that on_sig_child has, before it takes the mutex;
-- `adding` is the child of the call of `add` that has the mutex, between its insertion and waitpid.
pub record System (C W : Type 0) : Type 0 where
  pub world : W
  pub observer : Observer C
  pub pending : Option WaitReturn
  pub adding : Option C

module _ {C W : Type 0} (pid : C → ℤ) (os : ProcessCalls W) (m : WaitMacros) (wnohang : ℤ) where
  -- `add` up to `if (added)`; a child that is there already is not added.
  unfoldable pub begin_add : C → System C W → System C W
  begin_add c s =
      let (children, added) = insert (pid c) c s.observer.children in
      record s {
        observer = record { children = children; died = s.observer.died };
        adding = if added then some c else none;
      }

  -- The rest of `add`.
  unfoldable pub finish_add : C → System C W → System C W
  finish_add c s =
      let ((o, _), w) = add_new pid os wnohang s.observer c s.world in
      record s { world = w; observer = o; adding = none }

  -- The call of waitpid in on_sig_child, whatever the loop does with an error.
  unfoldable pub wait_any : System C W → System C W
  wait_any s =
      let (r, w) = os.waitpid (pos 0) wnohang s.world in
      record s { world = w; pending = if is_report r then some r else none }

  -- The part of on_sig_child that has the mutex.
  unfoldable pub handle : WaitReturn → System C W → System C W
  handle r s = record s { observer = reap m s.observer r; pending = none }

  -- What the manual page says of waitpid with WNOHANG and no other flag: it reports a child that has
  -- died, once; it returns 0 while the child that it is asked about runs, and -1 if there is none.
  pub record WaitLaws : Type 0 where
    pub fate : W → ℤ → Fate
    pub wait_alive :
        (w : W) (p : ℤ)
        → leb_ℤ (pos 1) p ≡ true
        → fate w p ≡ alive
        → (os.waitpid p wnohang w).0.pid ≡ pos 0
    pub wait_zombie :
        (w : W) (p : ℤ)
        → leb_ℤ (pos 1) p ≡ true
        → fate w p ≡ zombie
        → (os.waitpid p wnohang w).0.pid ≡ p
    pub wait_gone :
        (w : W) (p : ℤ)
        → leb_ℤ (pos 1) p ≡ true
        → fate w p ≡ gone
        → (os.waitpid p wnohang w).0.pid ≡ minus_one
    pub fate-wait :
        (w : W) (p x : ℤ)
        → leb_ℤ (pos 1) p ≡ true
        → fate (os.waitpid p wnohang w).1 x ≡ (if eqb x p then reaped (fate w x) else fate w x)
    pub wait_any_report :
        (w : W)
        → is_report (os.waitpid (pos 0) wnohang w).0 ≡ true
        → fate w (os.waitpid (pos 0) wnohang w).0.pid ≡ zombie
    pub wait_any_death :
        (w : W)
        → is_report (os.waitpid (pos 0) wnohang w).0 ≡ true
        → (if m.wifsignaled (os.waitpid (pos 0) wnohang w).0.status
            then true
            else m.wifexited (os.waitpid (pos 0) wnohang w).0.status)
          ≡ true
    pub fate-wait_any :
        (w : W) (x : ℤ)
        → fate (os.waitpid (pos 0) wnohang w).1 x ≡ (
            if is_report (os.waitpid (pos 0) wnohang w).0
            then (if eqb x (os.waitpid (pos 0) wnohang w).0.pid then gone else fate w x)
            else fate w x)

module _ {C W : Type 0} (pid : C → ℤ) (os : ProcessCalls W) (m : WaitMacros) (wnohang : ℤ)
    (l : WaitLaws pid os m wnohang) where
  open l use {fate}

  -- A step of one of the threads, of a child or of the operating system. The pid of a report that is
  -- not yet handled is not given to a new child.
  pub data Step (s : System C W) : System C W → Type 0 where
    dies :
        (p : ℤ) (w : W)
        → fate s.world p ≡ alive
        → ((x : ℤ) → fate w x ≡ (if eqb x p then zombie else fate s.world x))
        → Step s (record s { world = w })
    forks :
        (p : ℤ) (w : W)
        → fate s.world p ≡ gone
        → ((r : WaitReturn) → s.pending ≡ some r → eqb r.pid p ≡ false)
        → ((x : ℤ) → fate w x ≡ (if eqb x p then alive else fate s.world x))
        → Step s (record s { world = w })
    begins :
        (c : C)
        → leb_ℤ (pos 1) (pid c) ≡ true
        → s.adding ≡ none
        → Step s (begin_add pid os m wnohang c s)
    finishes : (c : C) → s.adding ≡ some c → Step s (finish_add pid os m wnohang c s)
    waits : s.pending ≡ none → Step s (wait_any pid os m wnohang s)
    handles :
        (r : WaitReturn)
        → s.pending ≡ some r
        → s.adding ≡ none
        → Step s (handle pid os m wnohang r s)

  -- The states that any interleaving leads to from a new observer.
  pub data Reach : System C W → Type 0 where
    start :
        (w : W)
        → Reach (record {
          world = w;
          observer = record { children = []; died = [] };
          pending = none;
          adding = none;
        })
    later : {s t : System C W} → Reach s → Step s t → Reach t
