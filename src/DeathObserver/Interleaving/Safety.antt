-- ===== src/DeathObserver/Interleaving/Safety.antt =====
-- No death is lost, and no child is announced while it runs or waits to be reaped, in any
-- interleaving.
use process_cpp.Prelude.{
  ℤ, pos, eqb, eqb_iff, eqb_refl, ◌≡◌, ◌≢◌, refl, ◌∙◌, ◌⊎◌, inl, inr, Bool-cases, false,
  Option-cases, none, some, List, ◌∷◌, ◌++◌, arith,
}
use process_cpp.ProcessCalls.{ProcessCalls, WaitReturn}
use process_cpp.Wait.{WaitMacros}
use mathlib.Core.List.{Memᴰ}
use process_cpp.DeathObserver.Interleaving.Accounting.{Later, Later-Reach, Later-AccountsFor}
use process_cpp.DeathObserver.{find, bury, reap}
use process_cpp.DeathObserver.Finding.{find-bury, find-reap}
use process_cpp.DeathObserver.Interleaving.{
  gone, System, begin_add, finish_add, wait_any, handle, WaitLaws, Step, dies, forks, begins,
  finishes, waits, handles, Reach,
}
use process_cpp.DeathObserver.Interleaving.Soundness.{
  Fate-cases, IsSound, Reach-IsSound, finish_alive, finish_dead,
}

module _ {C W : Type 0} (pid : C → ℤ) (os : ProcessCalls W) (m : WaitMacros) (wnohang : ℤ)
    (l : WaitLaws pid os m wnohang) where
  open l use {fate}

  -- In every interleaving of `add`, on_sig_child, deaths and forks: of a child that the observer has in
  -- a reachable state, each later state in which neither call is at work has announced the death since,
  -- or the child is observed still, stands under its own pid and is there, alive or to be reaped. So no
  -- observed child is gone without its announcement. A report's pid is not reused before it is handled.
  pub no_death_lost :
      (s t : System C W)
      → Reach pid os m wnohang l s
      → Later pid os m wnohang l s t
      → t.pending ≡ none
      → t.adding ≡ none
      → (p : ℤ) (c : C) → find p s.observer.children ≡ some c
      → (fresh : List C) × (t.observer.died ≡ fresh ++ s.observer.died)
        × (Memᴰ c fresh
            ⊎ ((find p t.observer.children ≡ some c) × (p ≡ pid c) × (fate t.world p ≢ gone)))
  no_death_lost s t reached steps quiet unlocked p c f =
      let i = Reach-IsSound pid os m wnohang l (Later-Reach pid os m wnohang l reached steps) in
      let (fresh, (died, kept)) = Later-AccountsFor pid os m wnohang l reached steps in
      (
        fresh,
        died,
        elim (kept p c f) [
          | inl announced ↦ inl announced
          | inr still ↦
              inr (
                still,
                i.keyed p c still,
                λ e. ground (arith, i.present p c still, quiet, unlocked),
              )
        ],
      )

  finish_announces :
      (s : System C W) (c : C)
      → IsSound pid os m wnohang l s
      → s.adding ≡ some c
      → eqb (os.waitpid (pid c) wnohang s.world).0.pid (pos 0) ≡ false
      → fate (os.waitpid (pid c) wnohang s.world).1 (pid c) ≡ gone
  finish_announces s c i e ended =
      let w = s.world in
      let right = i.proper (pid c) c (i.added c e) in
      elim (Fate-cases (fate w (pid c))) [
        | inl runs ↦ ground (arith, l.wait_alive w (pid c) right runs)
        | inr (inl h) ↦ ground (arith, l.fate-wait w (pid c) (pid c) right, eqb_refl (pid c))
        | inr (inr h) ↦ ground (arith, l.fate-wait w (pid c) (pid c) right, eqb_refl (pid c))
      ]

  -- The step announces nothing, or one child; then there is no child with its pid, neither running
  -- nor waiting to be reaped, and it is not observed any more.
  abbrev pub AnnouncesTheDead : System C W → System C W → Type 0
  AnnouncesTheDead s t =
      (t.observer.died ≡ s.observer.died)
      ⊎ ((c : C) × (t.observer.died ≡ c ∷ s.observer.died)
          × (fate t.world (pid c) ≡ gone)
          × (find (pid c) t.observer.children ≡ none))

  finishes_announces :
      (s : System C W) (c : C)
      → IsSound pid os m wnohang l s
      → s.adding ≡ some c
      → AnnouncesTheDead s (finish_add pid os m wnohang c s)
  unfolding bury
  finishes_announces s c i e =
      elim (Bool-cases (eqb (os.waitpid (pid c) wnohang s.world).0.pid (pos 0))) [
        | inl runs ↦ rw (finish_alive pid os m wnohang l s c runs) (inl refl)
        | inr ended ↦ rw (finish_dead pid os m wnohang l s c ended) (
            inr (
              c,
              refl,
              finish_announces s c i e ended,
              find-bury s.observer (pid c) (pid c) c ∙ ground (arith, eqb_refl (pid c)),
            ))
      ]

  handles_announces :
      (s : System C W) (r : WaitReturn)
      → IsSound pid os m wnohang l s
      → s.pending ≡ some r
      → AnnouncesTheDead s (handle pid os m wnohang r s)
  unfolding handle reap bury
  handles_announces s r i e = elim (Option-cases (find r.pid s.observer.children)) [
    | inl absent ↦ inl (rw (absent, reap))
    | inr (c, f) ↦
        let same = i.keyed r.pid c f in
        inr (
          c,
          rw (f, reap, i.death r e) refl,
          rw (← same) (i.reported r e),
          find-reap m s.observer r (pid c) (i.death r e) ∙ ground (arith, eqb_iff r.pid (pid c)),
        )
  ]

  begin_add-died :
      (s : System C W) (c : C) → (begin_add pid os m wnohang c s).observer.died ≡ s.observer.died
  unfolding begin_add
  begin_add-died s c = refl

  -- In every reachable state, whatever step comes next: it announces nothing, or one child; after the
  -- step the process has no child with the pid of that one, neither running nor waiting to be reaped,
  -- and it is not observed any more. (It has been reaped, or it never was a child of the process.)
  pub Step-announces :
      (s t : System C W)
      → Reach pid os m wnohang l s
      → Step pid os m wnohang l s t
      → AnnouncesTheDead s t
  unfolding wait_any
  Step-announces s t reached (dies p w was now) = inl refl
  Step-announces s t reached (forks p w was free now) = inl refl
  Step-announces s t reached (begins c right idle) = inl (begin_add-died s c)
  Step-announces s t reached (finishes c e) =
      finishes_announces s c (Reach-IsSound pid os m wnohang l reached) e
  Step-announces s t reached (waits e) = inl refl
  Step-announces s t reached (handles r e idle) =
      handles_announces s r (Reach-IsSound pid os m wnohang l reached) e
