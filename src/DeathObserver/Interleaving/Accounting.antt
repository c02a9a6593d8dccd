-- ===== src/DeathObserver/Interleaving/Accounting.antt =====
-- What the steps announce of the children that are observed, over any sequence of them.
use process_cpp.Prelude.{
  ℤ, pos, eqb, eqb_iff, ◌≡◌, refl, ap, ◌∙◌, ◌⊎◌, inl, inr, Bool-cases, Option-cases, some, List, [],
  ◌∷◌, ◌++◌, arith,
}
use mathlib.Core.List.{Memᴰ}
use mathlib.Core.List.Memᴰ.{head, tail}
use process_cpp.ProcessCalls.{ProcessCalls, WaitReturn}
use process_cpp.Wait.{WaitMacros}
use process_cpp.DeathObserver.{find, bury, reap}
use process_cpp.DeathObserver.Finding.{find-bury}
use process_cpp.DeathObserver.Interleaving.{
  System, begin_add, finish_add, wait_any, handle, WaitLaws, Step, dies, forks, begins, finishes,
  waits, handles, Reach, later,
}
use process_cpp.DeathObserver.Interleaving.Soundness.{
  IsSound, Reach-IsSound, finish_alive, finish_dead, begin_new, begin_old,
}

mem_append_left : {C : Type 0} {c : C} {xs : List C} (ys : List C) → Memᴰ c xs → Memᴰ c (xs ++ ys)
mem_append_left ys (head e) = head e
mem_append_left ys (tail h) = tail (mem_append_left ys h)

mem_append_right : {C : Type 0} {c : C} (xs : List C) {ys : List C} → Memᴰ c ys → Memᴰ c (xs ++ ys)
mem_append_right [] h = h
mem_append_right (x ∷ xs) h = tail (mem_append_right xs h)

app_assoc : {C : Type 0} (xs ys zs : List C) → xs ++ (ys ++ zs) ≡ (xs ++ ys) ++ zs
app_assoc [] ys zs = refl
app_assoc (x ∷ xs) ys zs = ap (◌∷◌ x) (app_assoc xs ys zs)

module _ {C W : Type 0} (pid : C → ℤ) (os : ProcessCalls W) (m : WaitMacros) (wnohang : ℤ)
    (l : WaitLaws pid os m wnohang) where
  -- The states that steps lead to from a given one.
  pub data Later (s : System C W) : System C W → Type 0 where
    same : Later s s
    after : {t u : System C W} → Later s t → Step pid os m wnohang l t u → Later s u

  pub Later-Reach :
      {s t : System C W} → Reach pid os m wnohang l s → Later s t → Reach pid os m wnohang l t
  Later-Reach r same = r
  Later-Reach r (after h st) = later (Later-Reach r h) st

  -- From one state to another `fresh` is announced, and each child that was observed has been announced
  -- or is observed still.
  abbrev pub AccountsFor : System C W → System C W → List C → Type 0
  AccountsFor s t fresh =
      (t.observer.died ≡ fresh ++ s.observer.died)
      × ((p : ℤ) (c : C)
          → find p s.observer.children ≡ some c
          → Memᴰ c fresh ⊎ (find p t.observer.children ≡ some c))

  begins_accounts : (s : System C W) (c : C) → AccountsFor s (begin_add pid os m wnohang c s) []
  unfolding find
  begins_accounts s c = elim (Option-cases (find (pid c) s.observer.children)) [
    | inl new ↦
        rw (begin_new pid os m wnohang l s c new)
          (refl, λ p d f. inr (ground (arith, eqb_iff (pid c) p)))
    | inr (d, old) ↦ rw (begin_old pid os m wnohang l s c d old) (refl, λ p e f. inr f)
  ]

  -- Burying the child under its pid announces it and keeps the others.
  buried_accounts :
      (s t : System C W) (c : C)
      → find (pid c) s.observer.children ≡ some c
      → t.observer ≡ bury s.observer (pid c) c
      → AccountsFor s t (c ∷ [])
  unfolding bury
  buried_accounts s t c there e = (
    ground (arith, e),
    λ p d f. elim (Bool-cases (eqb (pid c) p)) [
      | inl same_pid ↦ inl (head (ground (arith, eqb_iff (pid c) p, there, f)))
      | inr other_pid ↦ inr (rw e (ground (arith, find-bury s.observer (pid c) p c)))
    ],
  )

  finishes_accounts :
      (s : System C W) (c : C)
      → IsSound pid os m wnohang l s
      → s.adding ≡ some c
      → (fresh : List C) × AccountsFor s (finish_add pid os m wnohang c s) fresh
  finishes_accounts s c i e =
      elim (Bool-cases (eqb (os.waitpid (pid c) wnohang s.world).0.pid (pos 0))) [
        | inl runs ↦ rw (finish_alive pid os m wnohang l s c runs) ([], (refl, λ p d f. inr f))
        | inr ended ↦ (
          c ∷ [],
          buried_accounts s (finish_add pid os m wnohang c s) c (i.added c e)
              (rw (finish_dead pid os m wnohang l s c ended) refl),
        )
      ]

  handles_accounts :
      (s : System C W) (r : WaitReturn)
      → IsSound pid os m wnohang l s
      → s.pending ≡ some r
      → (fresh : List C) × AccountsFor s (handle pid os m wnohang r s) fresh
  unfolding handle reap
  handles_accounts s r i e = elim (Option-cases (find r.pid s.observer.children)) [
    | inl absent ↦ ([], (rw (absent, reap) refl, λ p d f. inr (rw (absent, reap) f)))
    | inr (c, f) ↦
        let own = i.keyed r.pid c f in
        (
          c ∷ [],
          buried_accounts s (handle pid os m wnohang r s) c (rw (← own) f)
              (rw (f, reap, i.death r e, own) refl),
        )
  ]

  Step-AccountsFor :
      {s t : System C W}
      → IsSound pid os m wnohang l s
      → Step pid os m wnohang l s t
      → (fresh : List C) × AccountsFor s t fresh
  unfolding wait_any
  Step-AccountsFor i (dies p w was now) = ([], (refl, λ q c f. inr f))
  Step-AccountsFor i (forks p w was free now) = ([], (refl, λ q c f. inr f))
  Step-AccountsFor {s} i (begins c right idle) = ([], begins_accounts s c)
  Step-AccountsFor {s} i (finishes c e) = finishes_accounts s c i e
  Step-AccountsFor i (waits e) = ([], (refl, λ q c f. inr f))
  Step-AccountsFor {s} i (handles r e idle) = handles_accounts s r i e

  pub Later-AccountsFor :
      {s t : System C W}
      → Reach pid os m wnohang l s
      → Later s t
      → (fresh : List C) × AccountsFor s t fresh
  Later-AccountsFor r same = ([], (refl, λ p c f. inr f))
  Later-AccountsFor {s} r (after h st) =
      let (first, (died, kept)) = Later-AccountsFor r h in
      let (second, (died', kept')) =
        Step-AccountsFor (Reach-IsSound pid os m wnohang l (Later-Reach r h)) st in
      (
        second ++ first,
        (
          died' ∙ (ap (◌++◌ second) died ∙ app_assoc second first s.observer.died),
          λ p c f. elim (kept p c f) [
            | inl announced ↦ inl (mem_append_right second announced)
            | inr there ↦ elim (kept' p c there) [
              | inl announced ↦ inl (mem_append_left first announced)
              | inr still ↦ inr still
            ]
          ],
        ),
      )
