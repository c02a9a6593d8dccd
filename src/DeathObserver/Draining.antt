-- ===== src/DeathObserver/Draining.antt =====
-- The loop of on_sig_child: it ends, and it handles each report that waitpid has once.
use process_cpp.Prelude.{
  ℕ, zero, suc, ◌≤◌, ℤ, pos, minus_one, eqb, ◌≡◌, refl, ◌∙◌, inl, inr, eqb_iff, Bool-cases, ◌&&◌,
  ◌||◌, Bool, true, false, some, List, [], ◌∷◌, ◌==◌, arith,
}
use process_cpp.ProcessCalls.{ProcessCalls, WaitReturn}
use process_cpp.Wait.{WaitMacros}
use process_cpp.DeathObserver.{Observer, reap, on_sig_child}
use process_cpp.DeathObserver.Counting.{
  entries, accounted, IsWellFormed, is_death, reap-accounted, reap-IsWellFormed, reap_death,
  entries-reap-le,
}

module _ {W : Type 0} (os : ProcessCalls W) (wnohang echild : ℕ) where
  abbrev wait : W → WaitReturn × W
  wait w = os.waitpid (pos 0) (pos wnohang) w

  -- From the state `w` waitpid gives the reports `rs` in `n` calls at most, some of which may fail for
  -- another reason than that there is no child; then it has no report, or there is no child, and the
  -- state is `v`.
  pub data Drains : (n : ℕ) → W → List WaitReturn → W → Type 0 where
    idle :
        {n : ℕ} {w v : W}
        → eqb (wait w).0.pid minus_one ≡ false
        → eqb (wait w).0.pid (pos 0) ≡ true
        → v ≡ (wait w).1
        → Drains (suc n) w [] v
    childless :
        {n : ℕ} {w v : W}
        → eqb (wait w).0.pid minus_one ≡ true
        → (os.errno (wait w).1 == echild) ≡ true
        → v ≡ (wait w).1
        → Drains (suc n) w [] v
    stray :
        {n : ℕ} {w v : W} {rs : List WaitReturn}
        → eqb (wait w).0.pid minus_one ≡ true
        → (os.errno (wait w).1 == echild) ≡ false
        → Drains n (wait w).1 rs v
        → Drains (suc n) w rs v
    report :
        {n : ℕ} {w v : W} {r : WaitReturn} {rs : List WaitReturn}
        → r ≡ (wait w).0
        → eqb (wait w).0.pid minus_one ≡ false
        → eqb (wait w).0.pid (pos 0) ≡ false
        → Drains n (wait w).1 rs v
        → Drains (suc n) w (r ∷ rs) v

module _ {C : Type 0} (m : WaitMacros) where
  -- The reports, handled one after the other.
  abbrev pub reap_all : Observer C → List WaitReturn → Observer C
  reap_all o [] = o
  reap_all o (r ∷ rs) = reap_all (reap m o r) rs

  -- The loop ends within the number of calls after which waitpid has nothing more to report, and it
  -- has then handled each report once, in the order in which they came.
  pub on_sig_child-reap_all :
      {W : Type 0} (os : ProcessCalls W) (wnohang echild fuel : ℕ) (o : Observer C) {n : ℕ}
      {w v : W} {rs : List WaitReturn}
      → Drains os wnohang echild n w rs v
      → n ≤ fuel
      → on_sig_child os m (pos wnohang) echild fuel o w ≡ some (reap_all o rs, v)
  unfolding on_sig_child
  on_sig_child-reap_all os wnohang echild zero o (idle a b e) h = absurd (omega arith)
  on_sig_child-reap_all os wnohang echild zero o (childless a b e) h = absurd (omega arith)
  on_sig_child-reap_all os wnohang echild zero o (stray a b d) h = absurd (omega arith)
  on_sig_child-reap_all os wnohang echild zero o (report e a b d) h = absurd (omega arith)
  on_sig_child-reap_all os wnohang echild (suc fuel) o (idle a b e) h = rw (e, a, b)
  on_sig_child-reap_all os wnohang echild (suc fuel) o (childless a b e) h = rw (e, a, b)
  on_sig_child-reap_all os wnohang echild (suc fuel) o (stray a b d) h =
      rw (a, b) (on_sig_child-reap_all os wnohang echild fuel o d (omega arith))
  on_sig_child-reap_all os wnohang echild (suc fuel) o (report {r} e a b d) h =
      rw (a, b, ← e) (on_sig_child-reap_all os wnohang echild fuel (reap m o r) d (omega arith))

  module _ (pid : C → ℤ) where
    pub reap_all-accounted :
        (o : Observer C) (rs : List WaitReturn) (k : ℤ)
        → IsWellFormed pid o
        → IsWellFormed pid (reap_all o rs) × (accounted pid k (reap_all o rs) ≡ accounted pid k o)
    reap_all-accounted o [] k v = (v, refl)
    reap_all-accounted o (r ∷ rs) k v =
        let (v', e) = reap_all-accounted (reap m o r) rs k (reap-IsWellFormed pid m o r v) in
        (v', e ∙ reap-accounted pid m o r k v)

    entries-reap_all-le :
        (o : Observer C) (rs : List WaitReturn) (k : ℤ)
        → entries k (reap_all o rs).children ≤ entries k o.children
    entries-reap_all-le o [] k = omega arith
    entries-reap_all-le o (r ∷ rs) k =
        omega (arith, entries-reap_all-le (reap m o r) rs k, entries-reap-le pid m o r k)

    -- Some report of the list says that the process has died.
    abbrev pub reports_death : ℤ → List WaitReturn → Bool
    reports_death k [] = false
    reports_death k (r ∷ rs) = (eqb r.pid k && is_death m r) || reports_death k rs

    pub reap_all_death :
        (o : Observer C) (rs : List WaitReturn) (k : ℤ)
        → reports_death k rs ≡ true
        → entries k (reap_all o rs).children ≡ 0
    reap_all_death o (r ∷ rs) k h = elim (Bool-cases (eqb r.pid k && is_death m r)) [
      | inl now ↦
          ground
            (arith, eqb_iff r.pid k, reap_death pid m o r, entries-reap_all-le (reap m o r) rs k)
      | inr later ↦ reap_all_death (reap m o r) rs k (ground arith)
    ]
    reap_all_death o [] k h = cc

    -- A run of on_sig_child, on a well-formed map and with a waitpid that at some call has
    -- nothing more to report, ends. It announces the children that it takes out of the map and no
    -- other, so that the registrations of each pid stay accounted for; the map stays well formed,
    -- and a child whose death was among the reports of waitpid is not in it any more.
    pub on_sig_child_lem :
        {W : Type 0} (os : ProcessCalls W) (wnohang echild : ℕ) (o : Observer C) {n : ℕ} {w v : W}
        {rs : List WaitReturn}
        → Drains os wnohang echild n w rs v
        → IsWellFormed pid o
        → (o' : Observer C) × (on_sig_child os m (pos wnohang) echild n o w ≡ some (o', v))
          × IsWellFormed pid o'
          × ((k : ℤ) → accounted pid k o' ≡ accounted pid k o)
          × ((k : ℤ) → reports_death k rs ≡ true → entries k o'.children ≡ 0)
    on_sig_child_lem os wnohang echild o {n} {rs} d v = (
      reap_all o rs,
      on_sig_child-reap_all os wnohang echild n o d (omega arith),
      (reap_all-accounted o rs (pos 0) v).0,
      λ k. (reap_all-accounted o rs k v).1,
      λ k h. reap_all_death o rs k h,
    )
