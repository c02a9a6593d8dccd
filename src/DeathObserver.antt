-- ===== src/DeathObserver.antt =====
-- DeathObserverImpl and DeathObserver::create_once_with_signal_trap of
-- src/core/posix/child_process.cpp. The signal child_died is modelled by the list of its emissions,
-- the last one first.
pub mod Coalescing
pub mod Counting
pub mod Creation
pub mod Draining
pub mod Finding
pub mod Interleaving
pub mod Refinement
pub mod Trapping
use process_cpp.Prelude.{
  ℕ, zero, suc, ℤ, pos, minus_one, eqb, Bool, true, false, ◌||◌, Option, none, some, List, [], ◌∷◌,
  ◌==◌, if◌then◌else◌,
}
use process_cpp.Effect.{Result, Error, ok, throw, logic_error, runtime_error}
use process_cpp.ProcessCalls.{ProcessCalls, WaitReturn}
use process_cpp.Wait.{WaitMacros}

-- An observer of children of a type `C`, which is ChildProcess in the code: of a child it uses the pid
-- alone. `children` is the map by pid; `died` are the emissions of child_died.
pub record Observer (C : Type 0) : Type 0 where
  pub children : List (ℤ × C)
  pub died : List C

module _ {C : Type 0} where
  unfoldable pub find : ℤ → List (ℤ × C) → Option C
  find pid [] = none
  find pid ((p, c) ∷ rest) = if eqb p pid then some c else find pid rest

  unfoldable pub erase : ℤ → List (ℤ × C) → List (ℤ × C)
  erase pid [] = []
  erase pid ((p, c) ∷ rest) = if eqb p pid then erase pid rest else (p, c) ∷ erase pid rest

  -- children.insert: nothing happens if the key is there.
  unfoldable pub insert : ℤ → C → List (ℤ × C) → List (ℤ × C) × Bool
  unfolding find
  insert pid c children = elim (find pid children) [
    | none ↦ ((pid, c) ∷ children, true)
    | some _ ↦ (children, false)
  ]

  -- DeathObserverImpl::has
  unfoldable pub has : (C → ℤ) → Observer C → C → Bool
  unfolding find
  has pid o c = elim (find (pid c) o.children) [ none ↦ false | some _ ↦ true ]

  -- Emission of child_died and erasure, in `add` and in `on_sig_child`.
  unfoldable pub bury : Observer C → ℤ → C → Observer C
  bury o pid c = record { children = erase pid o.children; died = c ∷ o.died }

  -- A child that waitpid reported: it is buried if it is observed, and has exited or was killed.
  unfoldable pub reap : WaitMacros → Observer C → WaitReturn → Observer C
  reap m o r = elim (find r.pid o.children) [
    | none ↦ o
    | some c ↦ if m.wifsignaled r.status || m.wifexited r.status then bury o r.pid c else o
  ]

module _ {C W : Type 0} (pid : C → ℤ) (os : ProcessCalls W) (wnohang : ℤ) where
  -- DeathObserverImpl::add. `wnohang` is the value of WNOHANG.
  unfoldable pub add_new : Observer C → C → W → (Observer C × Bool) × W
  add_new o c w =
      let (r, w') = os.waitpid (pid c) wnohang w in
      (if eqb r.pid (pos 0) then (o, true) else (bury o (pid c) c, false), w')

  unfoldable pub add : Observer C → C → W → (Observer C × Bool) × W
  add o c w =
      if eqb (pid c) minus_one
      then ((o, false), w)
      else (let (children, added) = insert (pid c) c o.children in
          if added
          then add_new (record o { children = children }) c w
          else ((record o { children = children }, false), w))

module _ {C W : Type 0} (os : ProcessCalls W) (m : WaitMacros) (wnohang : ℤ) where
  -- DeathObserverImpl::on_sig_child. `echild` is the value of ECHILD. Each round of the loop asks
  -- waitpid once; on fuel, with `none` where it runs out.
  unfoldable pub on_sig_child : ℕ → ℕ → Observer C → W → Option (Observer C × W)
  on_sig_child echild zero o w = none
  on_sig_child echild (suc fuel) o w =
      let (r, w') = os.waitpid (pos 0) wnohang w in
      let again = on_sig_child echild fuel o w' in
      let reaped = on_sig_child echild fuel (reap m o r) w' in
      if eqb r.pid minus_one
      then if os.errno w' == echild then some (o, w') else again
      else if eqb r.pid (pos 0)
      then some (o, w')
      else reaped

  -- What the constructor connects to the trap: the signals other than SIGCHLD, whose number is
  -- `sig_chld`, are ignored.
  unfoldable pub on_signal : ℤ → ℕ → ℕ → ℤ → Observer C → W → Option (Observer C × W)
  on_signal sig_chld echild fuel signal o w =
      let handled = on_sig_child echild fuel o w in
      if eqb signal sig_chld then handled else some (o, w)

  -- The signals of a trap, one after the other.
  unfoldable pub on_signals : ℤ → ℕ → ℕ → List ℤ → Observer C → W → Option (Observer C × W)
  unfolding on_signal
  on_signals sig_chld echild fuel [] o w = some (o, w)
  on_signals sig_chld echild fuel (signal ∷ rest) o w =
      elim (on_signal sig_chld echild fuel signal o w) [
        | none ↦ none
        | some (o', w') ↦ on_signals sig_chld echild fuel rest o' w'
      ]

-- create_once_with_signal_trap, over the flag has_been_created_once. The constructor throws if the
-- trap does not trap SIGCHLD, and the flag is then reset.
unfoldable pub construct : {C : Type 0} → (traps_sig_chld : Bool) → Result (Observer C)
construct true = ok (record { children = []; died = [] })
construct false = throw logic_error

unfoldable pub reset_on_throw : {C : Type 0} → Result (Observer C) → Result (Observer C) × Bool
reset_on_throw (ok o) = (ok o, true)
reset_on_throw (throw e) = (throw e, false)

unfoldable pub create_once :
    {C : Type 0} → (traps_sig_chld : Bool) → Bool → Result (Observer C) × Bool
unfolding construct reset_on_throw
create_once traps true = (throw runtime_error, true)
create_once traps false = reset_on_throw (construct traps)
