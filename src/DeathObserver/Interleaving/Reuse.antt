-- ===== src/DeathObserver/Interleaving/Reuse.antt =====
-- What happens where a pid is given anew while the report of its old owner waits for the mutex.
use process_cpp.Prelude.{
  ℤ, pos, eqb_iff, eqb_refl, leb_ℤ, ◌≡◌, refl, sym, ap, subst, ◌∙◌, true, ◌||◌, none, some, ◌∷◌,
  arith,
}
use process_cpp.ProcessCalls.{ProcessCalls, WaitReturn}
use process_cpp.Wait.{WaitMacros}
use process_cpp.DeathObserver.{find, bury, reap}
use process_cpp.DeathObserver.Finding.{find-insert, find-reap}
use process_cpp.DeathObserver.Interleaving.{alive, System, begin_add, finish_add, handle, WaitLaws}
use process_cpp.DeathObserver.Interleaving.Soundness.{finish_alive}

module _ {C W : Type 0} (pid : C → ℤ) (os : ProcessCalls W) (m : WaitMacros) (wnohang : ℤ)
    (l : WaitLaws pid os m wnohang) where
  open l use {fate}

  abbrev Announced : System C W → C → System C W → Type 0
  Announced s c t =
      (t.observer.died ≡ c ∷ s.observer.died)
      × (find (pid c) t.observer.children ≡ none)
      × (fate t.world (pid c) ≡ alive)

  begin_add-world : (s : System C W) (c : C) → (begin_add pid os m wnohang c s).world ≡ s.world
  unfolding begin_add
  begin_add-world s c = refl

  begin_add-died :
      (s : System C W) (c : C) → (begin_add pid os m wnohang c s).observer.died ≡ s.observer.died
  unfolding begin_add
  begin_add-died s c = refl

  handled :
      (s : System C W) (c : C) (r : WaitReturn) (t : System C W)
      → t.observer.died ≡ s.observer.died
      → find (pid c) t.observer.children ≡ some c
      → fate t.world (pid c) ≡ alive
      → r.pid ≡ pid c
      → (m.wifsignaled r.status || m.wifexited r.status) ≡ true
      → Announced s c (handle pid os m wnohang r t)
  unfolding handle reap bury
  handled s c r t before found runs same died =
      let at : find r.pid t.observer.children ≡ some c =
        ap (λ (p : ℤ). find p t.observer.children) same ∙ found in
      (
        rw (at, reap, died) (ap (λ d. c ∷ d) before),
        find-reap m t.observer r (pid c) died ∙ ground (arith, eqb_iff r.pid (pid c)),
        runs,
      )

  -- Where on_sig_child has the report of a death and waits for the mutex, a new child has been forked
  -- under the same pid and runs, and is not observed yet, and another thread adds it: the report is then
  -- handled as if it were that of the new child, which is announced as dead and is observed no more,
  -- although it runs.
  pub late_report :
      (s : System C W) (c : C) (r : WaitReturn)
      → let t =
          handle pid os m wnohang r
            (finish_add pid os m wnohang c (begin_add pid os m wnohang c s)) in
        leb_ℤ (pos 1) (pid c) ≡ true
        → find (pid c) s.observer.children ≡ none
        → fate s.world (pid c) ≡ alive
        → r.pid ≡ pid c
        → (m.wifsignaled r.status || m.wifexited r.status) ≡ true
        → (t.observer.died ≡ c ∷ s.observer.died)
          × (find (pid c) t.observer.children ≡ none)
          × (fate t.world (pid c) ≡ alive)
  unfolding begin_add
  late_report s c r right new runs same died =
      let s1 = begin_add pid os m wnohang c s in
      let w' = (os.waitpid (pid c) wnohang s.world).1 in
      let s2 : System C W = record s1 { world = w'; adding = none } in
      let added =
        finish_alive pid os m wnohang l s1 c
          (ground (arith, begin_add-world s c, l.wait_alive s.world (pid c) right runs)) in
      let waited : finish_add pid os m wnohang c s1 ≡ s2 =
        added
        ∙ ap (λ (v : W). let t : System C W = record s1 { world = v; adding = none } in t)
            (ap (λ (v : W). (os.waitpid (pid c) wnohang v).1) (begin_add-world s c)) in
      subst (λ (t : System C W). Announced s c (handle pid os m wnohang r t)) (sym waited)
        (handled s c r s2 (begin_add-died s c)
          (find-insert (pid c) (pid c) c s.observer.children new ∙ ground (arith, eqb_refl (pid c)))
          (ground (arith, l.fate-wait s.world (pid c) (pid c) right, eqb_refl (pid c), runs)) same
          died)
