-- ===== src/DeathObserver/Counting.antt =====
-- Each registration of a child is answered by at most one announcement of its death, and none is lost.
use process_cpp.Prelude.{
  ℕ, ◌+◌, ◌≤◌, ℤ, pos, minus_one, eqb, eqb_iff, eqb_refl, ◌≡◌, refl, ◌⊎◌, inl, inr, Bool, true,
  false, Bool-cases, Option-cases, ◌||◌, ◌&&◌, none, some, List, [], ◌∷◌, if◌then◌else◌, arith,
}
use process_cpp.ProcessCalls.{ProcessCalls, WaitReturn}
use process_cpp.Wait.{WaitMacros}
use process_cpp.DeathObserver.{Observer, find, erase, insert, bury, add, add_new, reap}

module _ {C : Type 0} where
  -- How many entries of the map have the key.
  abbrev pub entries : ℤ → List (ℤ × C) → ℕ
  entries k [] = 0
  entries k ((p, c) ∷ rest) = (if eqb p k then 1 else 0) + entries k rest

  -- How many emissions were for a child with the pid.
  abbrev pub announced : (C → ℤ) → ℤ → List C → ℕ
  announced pid k [] = 0
  announced pid k (c ∷ rest) = (if eqb (pid c) k then 1 else 0) + announced pid k rest

  -- Every child stands under its own pid.
  abbrev pub Keyed : (C → ℤ) → List (ℤ × C) → Type 0
  Keyed pid [] = Unit {0}
  Keyed pid ((p, c) ∷ rest) = (p ≡ pid c) × Keyed pid rest

  entries-erase_self : (k : ℤ) (l : List (ℤ × C)) → entries k (erase k l) ≡ 0
  unfolding erase
  entries-erase_self k [] = refl
  entries-erase_self k ((p, c) ∷ l) = ground (arith, entries-erase_self k l)

  entries-erase_ne :
      (j k : ℤ) (l : List (ℤ × C)) → eqb j k ≡ false → entries k (erase j l) ≡ entries k l
  unfolding erase
  entries-erase_ne j k [] h = refl
  entries-erase_ne j k ((p, c) ∷ l) h =
      ground (arith, entries-erase_ne j k l h, eqb_iff p j, eqb_iff p k)

  find-entries : (k : ℤ) (l : List (ℤ × C)) → find k l ≡ none → entries k l ≡ 0
  unfolding find
  find-entries k [] h = refl
  find-entries k ((p, c) ∷ l) h = ground (arith, find-entries k l)

  entries-find : (k : ℤ) (l : List (ℤ × C)) (c : C) → find k l ≡ some c → 1 ≤ entries k l
  unfolding find
  entries-find k [] c h = cc
  entries-find k ((p, d) ∷ l) c h = ground (arith, entries-find k l c)

  find-Keyed :
      (pid : C → ℤ) (k : ℤ) (l : List (ℤ × C)) (c : C) → Keyed pid l → find k l ≡ some c → k ≡ pid c
  unfolding find
  find-Keyed pid k [] c h e = cc
  find-Keyed pid k ((p, d) ∷ l) c (h, t) e = ground (arith, eqb_iff p k, find-Keyed pid k l c t)

  erase-Keyed : (pid : C → ℤ) (k : ℤ) (l : List (ℤ × C)) → Keyed pid l → Keyed pid (erase k l)
  unfolding erase
  erase-Keyed pid k [] h = tt
  erase-Keyed pid k ((p, d) ∷ l) (h, t) = ground (arith, erase-Keyed pid k l t)

  -- The map of a well-formed observer has one entry for a key at most, and the children stand under
  -- their pids.
  pub record IsWellFormed (pid : C → ℤ) (o : Observer C) : Type 0 where
    pub single : (k : ℤ) → entries k o.children ≤ 1
    pub keyed : Keyed pid o.children

  -- The registrations of a pid that the observer accounts for: live ones and announced deaths.
  abbrev pub accounted : (C → ℤ) → ℤ → Observer C → ℕ
  accounted pid k o = entries k o.children + announced pid k o.died

  pub entries-erase-le : (k j : ℤ) (l : List (ℤ × C)) → entries k (erase j l) ≤ entries k l
  entries-erase-le k j l = elim (Bool-cases (eqb j k)) [
    | inl e ↦
        let same : j ≡ k = (eqb_iff j k).0 e in rw same (omega (arith, entries-erase_self k l))
    | inr e ↦ omega (arith, entries-erase_ne j k l e)
  ]

  single_after_bury : (k j : ℤ) (l : List (ℤ × C)) → entries k l ≤ 1 → entries k (erase j l) ≤ 1
  single_after_bury k j l h = omega (arith, entries-erase-le k j l)

  -- An announcement takes exactly the child's entry out of the map.
  bury-accounted :
      (pid : C → ℤ) (o : Observer C) (j : ℤ) (c : C)
      → IsWellFormed pid o
      → find j o.children ≡ some c
      → (k : ℤ) → accounted pid k (bury o j c) ≡ accounted pid k o
  unfolding bury
  bury-accounted pid o j c v e k = elim (Bool-cases (eqb j k)) [
    | inl same ↦
        let j_k : j ≡ k = (eqb_iff j k).0 same in
        ground (
          arith,
          find-Keyed pid j o.children c v.keyed e,
          entries-find j o.children c e,
          v.single j,
          entries-erase_self j o.children,
        )
    | inr other ↦
        ground
          (arith, find-Keyed pid j o.children c v.keyed e, entries-erase_ne j k o.children other)
  ]

  bury-IsWellFormed :
      (pid : C → ℤ) (o : Observer C) (j : ℤ) (c : C)
      → IsWellFormed pid o
      → IsWellFormed pid (bury o j c)
  unfolding bury
  bury-IsWellFormed pid o j c v = record {
    single = λ k. single_after_bury k j o.children (v.single k);
    keyed = erase-Keyed pid j o.children v.keyed;
  }

  insert_cases :
      (j : ℤ) (c : C) (l : List (ℤ × C))
      → ((find j l ≡ none) × (insert j c l ≡ ((j, c) ∷ l, true)))
        ⊎ ((d : C) × (find j l ≡ some d) × (insert j c l ≡ (l, false)))
  unfolding insert
  insert_cases j c l = elim (Option-cases (find j l)) [
    | inl e ↦ inl (e, rw (e, insert))
    | inr (d, e) ↦ inr (d, e, rw (e, insert))
  ]

-- A report of waitpid that the child has exited or was killed.
abbrev pub is_death : WaitMacros → WaitReturn → Bool
is_death m r = m.wifsignaled r.status || m.wifexited r.status

module _ {C : Type 0} (pid : C → ℤ) (m : WaitMacros) where
  -- A report costs no registration: what it takes out of the map it announces.
  pub reap-accounted :
      (o : Observer C) (r : WaitReturn) (k : ℤ)
      → IsWellFormed pid o
      → accounted pid k (reap m o r) ≡ accounted pid k o
  unfolding reap
  reap-accounted o r k v = elim (Option-cases (find r.pid o.children)) [
    | inl e ↦ rw (e, reap)
    | inr (c, e) ↦ rw (e, reap) (ground (arith, bury-accounted pid o r.pid c v e k))
  ]

  pub reap-IsWellFormed :
      (o : Observer C) (r : WaitReturn) → IsWellFormed pid o → IsWellFormed pid (reap m o r)
  unfolding reap
  reap-IsWellFormed o r v = elim (Option-cases (find r.pid o.children)) [
    | inl e ↦ rw (e, reap) v
    | inr (c, e) ↦
        rw (e, reap)
          (elim (Bool-cases (is_death m r)) [
            | inl d ↦ rw d (bury-IsWellFormed pid o r.pid c v)
            | inr d ↦ rw d v
          ])
  ]

  pub entries-reap-le :
      (o : Observer C) (r : WaitReturn) (k : ℤ)
      → entries k (reap m o r).children ≤ entries k o.children
  unfolding reap bury
  entries-reap-le o r k = elim (Option-cases (find r.pid o.children)) [
    | inl e ↦ rw (e, reap) (omega arith)
    | inr (c, e) ↦ rw (e, reap) (ground (arith, entries-erase-le k r.pid o.children))
  ]

  -- After the report of a death the child is not in the map.
  pub reap_death :
      (o : Observer C) (r : WaitReturn)
      → is_death m r ≡ true
      → entries r.pid (reap m o r).children ≡ 0
  unfolding reap
  reap_death o r d = elim (Option-cases (find r.pid o.children)) [
    | inl e ↦ rw (e, reap) (find-entries r.pid o.children e)
    | inr (c, e) ↦ rw (e, reap, d) (unfold bury in entries-erase_self r.pid o.children)
  ]

module _ {C W : Type 0} (pid : C → ℤ) (os : ProcessCalls W) (wnohang : ℤ) where
  open_entry-IsWellFormed :
      (o : Observer C) (c : C)
      → IsWellFormed pid o
      → find (pid c) o.children ≡ none
      → IsWellFormed pid (record o { children = (pid c, c) ∷ o.children })
  open_entry-IsWellFormed o c v e = record {
    single = λ k. ground (arith, v.single k, find-entries (pid c) o.children e, eqb_iff (pid c) k);
    keyed = (refl, v.keyed);
  }

  -- Whether a call of `add` registers its child: it has a pid that is not in the map.
  abbrev pub registers : Observer C → C → Bool
  registers o c =
      if eqb (pid c) minus_one
      then false
      else elim (find (pid c) o.children) [ none ↦ true | some _ ↦ false ]

  abbrev pub added : Observer C → C → W → Observer C
  added o c w = (add pid os wnohang o c w).0.0

  add_new-accounted :
      (o : Observer C) (c : C) (w : W) (k : ℤ)
      → IsWellFormed pid o
      → find (pid c) o.children ≡ some c
      → IsWellFormed pid (add_new pid os wnohang o c w).0.0
        × (accounted pid k (add_new pid os wnohang o c w).0.0 ≡ accounted pid k o)
  unfolding add_new
  add_new-accounted o c w k v e =
      elim (Bool-cases (eqb (os.waitpid (pid c) wnohang w).0.pid (pos 0))) [
        | inl alive ↦ rw alive (v, refl)
        | inr dead ↦
            rw dead (bury-IsWellFormed pid o (pid c) c v, bury-accounted pid o (pid c) c v e k)
      ]

  abbrev with_entry : Observer C → C → Observer C
  with_entry o c = record o { children = (pid c, c) ∷ o.children }

  add_enters :
      (o : Observer C) (c : C) (w : W)
      → registers o c ≡ true
      → (find (pid c) o.children ≡ none)
        × (added o c w ≡ (add_new pid os wnohang (with_entry o c) c w).0.0)
  unfolding add insert
  add_enters o c w h = ground arith

  add_passes : (o : Observer C) (c : C) (w : W) → registers o c ≡ false → added o c w ≡ o
  unfolding add insert
  add_passes o c w h = ground arith

  -- On a well-formed map, a call of `add` accounts for one registration more of its child's pid
  -- where it registers the child, and for no other, in the map or by an announcement. The map
  -- stays well formed.
  pub add-accounted :
      (o : Observer C) (c : C) (w : W) (k : ℤ)
      → IsWellFormed pid o
      → IsWellFormed pid (added o c w)
        × (accounted pid k (added o c w)
            ≡ (if registers o c && eqb (pid c) k then 1 else 0) + accounted pid k o)
  add-accounted o c w k v = elim (Bool-cases (registers o c)) [
    | inl new ↦
        let (e, entered) = add_enters o c w new in
        let (v', same) =
          add_new-accounted (with_entry o c) c w k (open_entry-IsWellFormed o c v e)
            (unfold find in rw (eqb_refl (pid c))) in
        rw (entered, new) (v', ground (arith, same))
    | inr old ↦ rw (add_passes o c w old, old) (v, ground arith)
  ]
