-- ===== src/DeathObserver/Interleaving/Soundness.antt =====
-- What holds of the observer's map, and of what its threads have in hand, in every reachable state.
use process_cpp.Prelude.{
  ℤ, pos, eqb, eqb_iff, eqb_refl, leb_ℤ, ◌≡◌, refl, ◌⊎◌, inl, inr, Bool-cases, Bool, true, false,
  ◌||◌, Option, Option-cases, none, some, ◌∷◌, arith,
}
use process_cpp.ProcessCalls.{ProcessCalls, WaitReturn}
use process_cpp.Wait.{WaitMacros}
use process_cpp.DeathObserver.{find, insert, bury, add_new}
use process_cpp.DeathObserver.Finding.{find-bury, find-reap}
use process_cpp.DeathObserver.Interleaving.{
  Fate, alive, zombie, gone, System, begin_add, finish_add, wait_any, handle, WaitLaws, Step, dies,
  forks, begins, finishes, waits, handles, Reach, start, later,
}

abbrev pub is_gone : Fate → Bool
is_gone gone = true
is_gone _ = false

pub Fate-cases : (f : Fate) → (f ≡ alive) ⊎ ((f ≡ zombie) ⊎ (f ≡ gone))
Fate-cases alive = inl refl
Fate-cases zombie = inr (inl refl)
Fate-cases gone = inr (inr refl)

module _ {C W : Type 0} (pid : C → ℤ) (os : ProcessCalls W) (m : WaitMacros) (wnohang : ℤ)
    (l : WaitLaws pid os m wnohang) where
  open l use {fate}

  -- A thread has the pid in hand: a report that it has not handled, or a child that it is adding.
  abbrev pub in_hand : Option WaitReturn → Option C → ℤ → Bool
  in_hand pending adding p =
      (elim pending [ none ↦ false | some r ↦ eqb r.pid p ])
      || (elim adding [ none ↦ false | some c ↦ eqb (pid c) p ])

  -- A child that is observed stands under its own pid, which is that of a process; unless a thread has
  -- it in hand, there is still such a child.
  pub record IsSound (s : System C W) : Type 0 where
    pub keyed : (p : ℤ) (c : C) → find p s.observer.children ≡ some c → p ≡ pid c
    pub proper : (p : ℤ) (c : C) → find p s.observer.children ≡ some c → leb_ℤ (pos 1) p ≡ true
    pub present :
        (p : ℤ) (c : C)
        → find p s.observer.children ≡ some c
        → in_hand s.pending s.adding p ≡ false
        → is_gone (fate s.world p) ≡ false
    pub reported : (r : WaitReturn) → s.pending ≡ some r → fate s.world r.pid ≡ gone
    pub death :
        (r : WaitReturn)
        → s.pending ≡ some r
        → (m.wifsignaled r.status || m.wifexited r.status) ≡ true
    pub added : (c : C) → s.adding ≡ some c → find (pid c) s.observer.children ≡ some c

  -- The two outcomes of the insertion.
  pub begin_new :
      (s : System C W) (c : C)
      → find (pid c) s.observer.children ≡ none
      → begin_add pid os m wnohang c s ≡ record s {
        observer = record { children = (pid c, c) ∷ s.observer.children; died = s.observer.died };
        adding = some c;
      }
  unfolding begin_add insert
  begin_new s c h = rw (h, insert)

  pub begin_old :
      (s : System C W) (c d : C)
      → find (pid c) s.observer.children ≡ some d
      → begin_add pid os m wnohang c s ≡ record s { adding = none }
  unfolding begin_add insert
  begin_old s c d h = rw (h, insert)

  begins-IsSound :
      (s : System C W) (c : C)
      → leb_ℤ (pos 1) (pid c) ≡ true
      → s.adding ≡ none
      → IsSound s
      → IsSound (begin_add pid os m wnohang c s)
  unfolding find
  begins-IsSound s c right idle i = elim (Option-cases (find (pid c) s.observer.children)) [
    | inl new ↦ rw (begin_new s c new) (record {
      keyed = λ p d f. ground (arith, i.keyed p d, eqb_iff (pid c) p);
      proper = λ p d f. ground (arith, i.proper p d, eqb_iff (pid c) p);
      present = λ p d f h. ground (arith, i.present p d, eqb_iff (pid c) p, idle);
      reported = i.reported;
      death = i.death;
      added = λ d e. ground (arith, eqb_refl (pid c));
    })
    | inr (d, old) ↦ rw (begin_old s c d old) (record {
      keyed = i.keyed;
      proper = i.proper;
      present = λ p d f h. ground (arith, i.present p d, idle);
      reported = i.reported;
      death = i.death;
      added = λ d e. cc;
    })
  ]

  waits-IsSound :
      (s : System C W) → s.pending ≡ none → IsSound s → IsSound (wait_any pid os m wnohang s)
  unfolding wait_any
  waits-IsSound s e i =
      let r = (os.waitpid (pos 0) wnohang s.world).0 in
      record {
        keyed = i.keyed;
        proper = i.proper;
        present = λ p c f h.
            ground (
              arith,
              i.present p c,
              l.fate-wait_any s.world p,
              e,
              eqb_iff r.pid p,
              eqb_iff p r.pid,
            );
        reported = λ q h. ground (arith, l.fate-wait_any s.world q.pid, eqb_refl q.pid);
        death = λ q h. ground (arith, l.wait_any_death s.world);
        added = i.added;
      }

  handles-IsSound :
      (s : System C W) (r : WaitReturn)
      → s.pending ≡ some r
      → s.adding ≡ none
      → IsSound s
      → IsSound (handle pid os m wnohang r s)
  unfolding handle
  handles-IsSound s r e idle i =
      let left = λ (p : ℤ). find-reap m s.observer r p (i.death r e) in
      record {
        keyed = λ p c f. ground (arith, left p, i.keyed p c);
        proper = λ p c f. ground (arith, left p, i.proper p c);
        present = λ p c f h. ground (arith, left p, i.present p c, e, idle);
        reported = λ q h. cc;
        death = λ q h. cc;
        added = λ c h. cc;
      }

  pub finish_alive :
      (s : System C W) (c : C)
      → eqb (os.waitpid (pid c) wnohang s.world).0.pid (pos 0) ≡ true
      → finish_add pid os m wnohang c s
        ≡ record s { world = (os.waitpid (pid c) wnohang s.world).1; adding = none }
  unfolding finish_add add_new
  finish_alive s c h = rw h

  pub finish_dead :
      (s : System C W) (c : C)
      → eqb (os.waitpid (pid c) wnohang s.world).0.pid (pos 0) ≡ false
      → finish_add pid os m wnohang c s ≡ record {
        world = (os.waitpid (pid c) wnohang s.world).1;
        observer = bury s.observer (pid c) c;
        pending = s.pending;
        adding = none;
      }
  unfolding finish_add add_new
  finish_dead s c h = rw h

  -- waitpid says of a child that it is asked about whether it runs.
  wait_one :
      (w : W) (p : ℤ)
      → leb_ℤ (pos 1) p ≡ true
      → (fate w p ≡ alive) ⊎ (eqb (os.waitpid p wnohang w).0.pid (pos 0) ≡ false)
  wait_one w p right = elim (Fate-cases (fate w p)) [
    | inl runs ↦ inl runs
    | inr (inl e) ↦ inr (rw (l.wait_zombie w p right e) (ground (arith, eqb_iff p (pos 0))))
    | inr (inr e) ↦ inr (rw (l.wait_gone w p right e) refl)
  ]

  finishes-IsSound :
      (s : System C W) (c : C)
      → s.adding ≡ some c
      → IsSound s
      → IsSound (finish_add pid os m wnohang c s)
  finishes-IsSound s c e i =
      let w = s.world in
      let right = i.proper (pid c) c (i.added c e) in
      let moved = λ (p : ℤ). l.fate-wait w (pid c) p right in
      elim (Bool-cases (eqb (os.waitpid (pid c) wnohang w).0.pid (pos 0))) [
        | inl runs ↦ rw (finish_alive s c runs) (record {
          keyed = i.keyed;
          proper = i.proper;
          present = λ p d f h. ground (
            arith,
            moved p,
            i.present p d f,
            e,
            wait_one w (pid c) right,
            eqb_iff (pid c) p,
            eqb_iff p (pid c),
          );
          reported = λ r h. ground (arith, moved r.pid, i.reported r h);
          death = i.death;
          added = λ d h. cc;
        })
        | inr ended ↦ rw (finish_dead s c ended) (record {
          keyed = λ p d f. ground (arith, find-bury s.observer (pid c) p c, i.keyed p d);
          proper = λ p d f. ground (arith, find-bury s.observer (pid c) p c, i.proper p d);
          present = λ p d f h. ground (
            arith,
            moved p,
            find-bury s.observer (pid c) p c,
            i.present p d,
            e,
            eqb_iff (pid c) p,
            eqb_iff p (pid c),
          );
          reported = λ r h. ground (arith, moved r.pid, i.reported r h);
          death = i.death;
          added = λ d h. cc;
        })
      ]

  Step-IsSound : {s t : System C W} → Step pid os m wnohang l s t → IsSound s → IsSound t
  Step-IsSound {s} (dies p w was now) i = record {
    keyed = i.keyed;
    proper = i.proper;
    present = λ q c f h. ground (arith, now q, i.present q c f, eqb_iff q p);
    reported = λ r e. ground (arith, now r.pid, i.reported r e, eqb_iff r.pid p);
    death = i.death;
    added = i.added;
  }
  Step-IsSound {s} (forks p w was free now) i = record {
    keyed = i.keyed;
    proper = i.proper;
    present = λ q c f h. ground (arith, now q, i.present q c f, eqb_iff q p);
    reported = λ r e. ground (arith, now r.pid, i.reported r e, free r e);
    death = i.death;
    added = i.added;
  }
  Step-IsSound {s} (begins c right idle) i = begins-IsSound s c right idle i
  Step-IsSound {s} (finishes c e) i = finishes-IsSound s c e i
  Step-IsSound {s} (waits e) i = waits-IsSound s e i
  Step-IsSound {s} (handles r e idle) i = handles-IsSound s r e idle i

  pub Reach-IsSound : {s : System C W} → Reach pid os m wnohang l s → IsSound s
  unfolding find
  Reach-IsSound (start w) = record {
    keyed = λ p c f. cc;
    proper = λ p c f. cc;
    present = λ p c f h. cc;
    reported = λ r h. cc;
    death = λ r h. cc;
    added = λ c h. cc;
  }
  Reach-IsSound (later r st) = Step-IsSound st (Reach-IsSound r)
