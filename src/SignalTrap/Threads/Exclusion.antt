-- ===== src/SignalTrap/Threads/Exclusion.antt =====
-- At most one thread runs a trap, if no two make the test of the state at the same time.
use process_cpp.Prelude.{ℕ, ◌≡◌, ◌≢◌, refl, ◌⊎◌, inl, inr, Bool, true, false, ==_iff, arith}
use process_cpp.SignalTrap.{not_running, running}
use process_cpp.SignalTrap.Threads.{
  Place, outside, checked, marked, looping, Threads, move, check, mark, enter, fail, finish, Step,
  checks, throws, marks, enters, fails, finishes, Reach, start, later,
}

-- The thread has passed the test.
abbrev passed : Place → Bool
passed outside = false
passed _ = true

-- The thread has stored its mark.
abbrev has_marked : Place → Bool
has_marked outside = false
has_marked checked = false
has_marked _ = true

record IsExclusive (s : Threads) : Type 0 where
  single : (i j : ℕ) → passed (s.at i) ≡ true → passed (s.at j) ≡ true → i ≡ j
  is_marked : (i : ℕ) → has_marked (s.at i) ≡ true → s.state ≡ running
  is_checked : (i : ℕ) → s.at i ≡ checked → s.state ≡ not_running

passed_cases : (p : Place) → (passed p ≡ false) ⊎ ((p ≡ checked) ⊎ (has_marked p ≡ true))
passed_cases outside = inl refl
passed_cases checked = inr (inl refl)
passed_cases marked = inr (inr refl)
passed_cases looping = inr (inr refl)

-- Where the trap is not running and no thread is behind its test, all are outside.
none_passed :
    (s : Threads) (a : ℕ)
    → IsExclusive s
    → s.state ≡ not_running
    → ((j : ℕ) → s.at j ≢ checked)
    → passed (s.at a) ≡ false
none_passed s a e idle alone = elim (passed_cases (s.at a)) [
  | inl out ↦ out
  | inr (inl here) ↦ absurd (alone a here)
  | inr (inr here) ↦ absurd (ground (arith, e.is_marked a here))
]

Step-IsExclusive : (s t : Threads) → IsExclusive s → Step true s t → IsExclusive t
unfolding check mark enter fail finish move
Step-IsExclusive s t e (checks i out idle alone) =
    let none = λ (a : ℕ). none_passed s a e idle (alone refl) in
    record {
      single = λ a b. ground (arith, none a, none b, ==_iff i a, ==_iff i b);
      is_marked = λ a. ground (arith, e.is_marked a, ==_iff i a);
      is_checked = λ a h. idle;
    }
Step-IsExclusive s t e (throws i out busy) = e
Step-IsExclusive s t e (marks i here) = record {
  single = λ a b. ground (arith, e.single a b, e.single a i, e.single i b, ==_iff i a, ==_iff i b);
  is_marked = λ a h. refl;
  is_checked = λ a. ground (arith, e.single a i, ==_iff i a);
}
Step-IsExclusive s t e (enters i here) = record {
  single = λ a b. ground (arith, e.single a b, e.single a i, e.single i b, ==_iff i a, ==_iff i b);
  is_marked = λ a. ground (arith, e.is_marked a, e.is_marked i, ==_iff i a);
  is_checked = λ a. ground (arith, e.is_checked a, ==_iff i a);
}
Step-IsExclusive s t e (fails i here) = record {
  single = λ a b. ground (arith, e.single a b, ==_iff i a, ==_iff i b);
  is_marked = λ a. ground (arith, e.is_marked a, ==_iff i a);
  is_checked = λ a. ground (arith, e.is_checked a, ==_iff i a);
}
Step-IsExclusive s t e (finishes i here) = record {
  single = λ a b. ground (arith, e.single a b, ==_iff i a, ==_iff i b);
  is_marked = λ a. ground (arith, e.single a i, passed_cases (s.at a), ==_iff i a);
  is_checked = λ a h. refl;
}

Reach-IsExclusive : (s : Threads) → Reach true s → IsExclusive s
Reach-IsExclusive _ start = record {
  single = λ i j h. cc;
  is_marked = λ i h. cc;
  is_checked = λ i h. refl;
}
Reach-IsExclusive t (later {s} r step) = Step-IsExclusive s t (Reach-IsExclusive s r) step

-- In every interleaving of calls of run from several threads, of which no two make the test of the
-- state and the store behind it at the same time, at most one thread is in the loop, and while
-- one is, the trap is marked as running, so that every other call throws.
pub Reach-excludes :
    (s : Threads) (i : ℕ)
    → Reach true s
    → s.at i ≡ looping
    → (s.state ≡ running) × ((j : ℕ) → s.at j ≡ looping → i ≡ j)
Reach-excludes s i r here =
    let e = Reach-IsExclusive s r in
    (e.is_marked i (ground arith), λ j there. e.single i j (ground arith) (ground arith))

abbrev new_trap : Threads
new_trap = record { state = not_running; at = λ i. outside }

-- Without that condition any two threads can be in the loop at once, since the test and the store
-- are two steps: both make the test before the first makes its store.
pub both_run :
    (i j : ℕ) → i ≢ j → (s : Threads) × Reach false s × (s.at i ≡ looping) × (s.at j ≡ looping)
unfolding check mark enter move
both_run i j apart =
    let s1 = check i new_trap in
    let s2 = check j s1 in
    let s3 = mark i s2 in
    let s4 = mark j s3 in
    let s5 = enter i s4 in
    let s6 = enter j s5 in
    let r1 : Reach false s1 = later start (checks i refl refl (λ h. cc)) in
    let r2 : Reach false s2 = later r1 (checks j (ground (arith, ==_iff i j)) refl (λ h. cc)) in
    let r3 : Reach false s3 = later r2 (marks i (ground (arith, ==_iff i i, ==_iff j i))) in
    let r4 : Reach false s4 = later r3 (marks j (ground (arith, ==_iff j j, ==_iff i j))) in
    let r5 : Reach false s5 = later r4 (enters i (ground (arith, ==_iff i i, ==_iff j i))) in
    let r6 : Reach false s6 = later r5 (enters j (ground (arith, ==_iff j j, ==_iff i j))) in
    (s6, r6, ground (arith, ==_iff i i, ==_iff j i), ground (arith, ==_iff j j))
