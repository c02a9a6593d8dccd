-- ===== src/DeathObserver/Refinement.antt =====
-- The death observer as a map from pids to children: what it promises, without the list that holds
-- the map.
use process_cpp.Prelude.{
  ℕ, zero, suc, ℤ, pos, minus_one, eqb, eqb_iff, ◌≡◌, refl, ap, ◌∙◌, Bool, true, false, Bool-cases,
  ◌||◌, inl, inr, Option-cases, Option, none, some, List, ◌∷◌, ◌==◌, if◌then◌else◌, arith,
}
use std.Path.{fun_ext}
use process_cpp.ProcessCalls.{ProcessCalls, WaitReturn}
use process_cpp.Wait.{WaitMacros}
use process_cpp.DeathObserver.{
  Observer, find, erase, insert, bury, reap, has, add, add_new, on_sig_child,
}
use process_cpp.DeathObserver.Finding.{find-erase, find-insert}

-- The children that are watched, by pid, and those that were announced as dead, the last one first.
pub record Watch (C : Type 0) : Type 0 where
  pub watched : ℤ → Option C
  pub died : List C

module _ {C : Type 0} where
  abbrev pub view : Observer C → Watch C
  view o = record { watched = λ k. find k o.children; died = o.died }

  abbrev pub forget : ℤ → (ℤ → Option C) → ℤ → Option C
  forget pid f k = if eqb pid k then none else f k

  abbrev pub remember : ℤ → C → (ℤ → Option C) → ℤ → Option C
  remember pid c f k = if eqb pid k then some c else f k

  -- A child is announced and watched no longer.
  abbrev pub announce : Watch C → ℤ → C → Watch C
  announce s pid c = record { watched = forget pid s.watched; died = c ∷ s.died }

  same_watch :
      (f g : ℤ → Option C) (d : List C)
      → ((k : ℤ) → f k ≡ g k)
      → ◌≡◌ {A = Watch C} (record { watched = f; died = d }) (record { watched = g; died = d })
  same_watch f g d h =
      ap (λ (f : ℤ → Option C). let s : Watch C = record { watched = f; died = d } in s) (fun_ext h)

  view-bury : (o : Observer C) (pid : ℤ) (c : C) → view (bury o pid c) ≡ announce (view o) pid c
  unfolding bury
  view-bury o pid c =
      same_watch (λ k. find k (erase pid o.children)) _ (c ∷ o.died)
        (λ k. find-erase pid k o.children)

  -- What has(), add() and on_sig_child() promise.
  unfoldable pub watch_has : (C → ℤ) → Watch C → C → Bool
  watch_has pid s c = elim (s.watched (pid c)) [ none ↦ false | some _ ↦ true ]

  unfoldable pub watch_reap : WaitMacros → Watch C → WaitReturn → Watch C
  watch_reap m s r = elim (s.watched r.pid) [
    | none ↦ s
    | some c ↦ if m.wifsignaled r.status || m.wifexited r.status then announce s r.pid c else s
  ]

  view-reap :
      (m : WaitMacros) (o : Observer C) (r : WaitReturn)
      → view (reap m o r) ≡ watch_reap m (view o) r
  unfolding reap watch_reap
  view-reap m o r = elim (Option-cases (find r.pid o.children)) [
    | inl e ↦ rw (e, reap, watch_reap) refl
    | inr (c, e) ↦ elim (Bool-cases (m.wifsignaled r.status || m.wifexited r.status)) [
      | inl f ↦ rw (e, reap, watch_reap, f) (view-bury o r.pid c)
      | inr f ↦ rw (e, reap, watch_reap, f) refl
    ]
  ]

module _ {C W : Type 0} where
  abbrev pub view_added : (Observer C × Bool) × W → (Watch C × Bool) × W
  view_added ((o, added), w) = ((view o, added), w)

  abbrev pub view_run : Option (Observer C × W) → Option (Watch C × W)
  view_run none = none
  view_run (some (o, w)) = some (view o, w)

module _ {C W : Type 0} (pid : C → ℤ) (os : ProcessCalls W) (m : WaitMacros) (wnohang : ℤ) where
  unfoldable pub watch_new : Watch C → C → W → (Watch C × Bool) × W
  watch_new s c w =
      let (r, w') = os.waitpid (pid c) wnohang w in
      (
        if eqb r.pid (pos 0)
            then (record s { watched = remember (pid c) c s.watched }, true)
            else (record s { died = c ∷ s.died }, false),
        w',
      )

  unfoldable pub watch_add : Watch C → C → W → (Watch C × Bool) × W
  unfolding watch_new
  watch_add s c w =
      if eqb (pid c) minus_one
      then ((s, false), w)
      else elim (s.watched (pid c)) [ none ↦ watch_new s c w | some _ ↦ ((s, false), w) ]

  unfoldable pub watch_sig_child : ℕ → ℕ → Watch C → W → Option (Watch C × W)
  unfolding watch_reap
  watch_sig_child echild zero s w = none
  watch_sig_child echild (suc fuel) s w =
      let (r, w') = os.waitpid (pos 0) wnohang w in
      let again = watch_sig_child echild fuel s w' in
      let reaped = watch_sig_child echild fuel (watch_reap m s r) w' in
      if eqb r.pid minus_one
      then if os.errno w' == echild then some (s, w') else again
      else if eqb r.pid (pos 0)
      then some (s, w')
      else reaped

  view-add_new :
      (o : Observer C) (c : C) (w : W)
      → find (pid c) o.children ≡ none
      → view_added
          (add_new pid os wnohang (record o { children = (insert (pid c) c o.children).0 }) c w)
        ≡ watch_new (view o) c w
  unfolding add_new watch_new
  view-add_new o c w h =
      let (r, w') = os.waitpid (pid c) wnohang w in
      let o' : Observer C = record o { children = (insert (pid c) c o.children).0 } in
      elim (Bool-cases (eqb r.pid (pos 0))) [
        | inl e ↦ rw e (
            ap (λ (s : Watch C). ((s, true), w'))
              (same_watch (λ k. find k o'.children) _ o.died
                (λ k. find-insert (pid c) k c o.children h)))
        | inr e ↦ rw e (
            ap (λ (s : Watch C). ((s, false), w'))
              (view-bury o' (pid c) c
                ∙ same_watch _ (λ k. find k o.children) (c ∷ o.died)
                    (λ k.
                      ground (arith, find-insert (pid c) k c o.children, h, eqb_iff (pid c) k))))
      ]

  insert_new : (j : ℤ) (c : C) (l : List (ℤ × C)) → find j l ≡ none → (insert j c l).1 ≡ true
  unfolding insert
  insert_new j c l h = rw (h, insert) refl

  insert_old : (j : ℤ) (c d : C) (l : List (ℤ × C)) → find j l ≡ some d → insert j c l ≡ (l, false)
  unfolding insert
  insert_old j c d l h = rw (h, insert) refl

  view-add :
      (o : Observer C) (c : C) (w : W)
      → view_added (add pid os wnohang o c w) ≡ watch_add (view o) c w
  unfolding add watch_add
  view-add o c w = elim (Bool-cases (eqb (pid c) minus_one)) [
    | inl e ↦ rw e refl
    | inr e ↦ elim (Option-cases (find (pid c) o.children)) [
      | inl f ↦ rw (e, insert_new (pid c) c o.children f) (rw (f, watch_add) (view-add_new o c w f))
      | inr (d, f) ↦ rw (e, insert_old (pid c) c d o.children f) (rw (f, watch_add) refl)
    ]
  ]

  view-on_sig_child :
      (echild fuel : ℕ) (o : Observer C) (w : W)
      → view_run (on_sig_child os m wnohang echild fuel o w)
        ≡ watch_sig_child echild fuel (view o) w
  unfolding on_sig_child watch_sig_child
  view-on_sig_child echild zero o w = refl
  view-on_sig_child echild (suc fuel) o w =
      let (r, w') = os.waitpid (pos 0) wnohang w in
      ground (
        arith,
        view-on_sig_child echild fuel o w',
        view-on_sig_child echild fuel (reap m o r) w',
        view-reap m o r,
      )

module _ {C W : Type 0} (pid : C → ℤ) (os : ProcessCalls W) (m : WaitMacros) (wnohang : ℤ) where
  -- The observer behaves as a map from pids to children that forgets in which order it holds them:
  -- `has`, `add` and `on_sig_child` give on the observer what they promise of the map, with the same
  -- results, calls of the system and announcements; whatever waitpid returns, and whatever the fuel is.
  pub observer-Watch :
      (o : Observer C)
      → ((c : C) → has pid o c ≡ watch_has pid (view o) c)
        × ((c : C) (w : W)
            → view_added (add pid os wnohang o c w) ≡ watch_add pid os m wnohang (view o) c w)
        × ((echild fuel : ℕ) (w : W)
            → view_run (on_sig_child os m wnohang echild fuel o w)
              ≡ watch_sig_child pid os m wnohang echild fuel (view o) w)
  unfolding has watch_has
  observer-Watch o = (
    λ c. refl,
    view-add pid os m wnohang o,
    λ echild fuel w. view-on_sig_child pid os m wnohang echild fuel o w,
  )
