-- ===== src/DeathObserver/Finding.antt =====
-- What the operations of the death observer do to the map, by key.
use process_cpp.Prelude.{
  ℤ, eqb, eqb_iff, ◌≡◌, true, ◌||◌, inl, inr, Option-cases, none, some, List, [], ◌∷◌,
  if◌then◌else◌, arith,
}
use process_cpp.ProcessCalls.{WaitReturn}
use process_cpp.Wait.{WaitMacros}
use process_cpp.DeathObserver.{Observer, find, erase, insert, bury, reap}

module _ {C : Type 0} where
  pub find-erase :
      (j k : ℤ) (l : List (ℤ × C)) → find k (erase j l) ≡ (if eqb j k then none else find k l)
  unfolding find erase
  find-erase j k [] = ground arith
  find-erase j k ((p, c) ∷ l) =
      ground (arith, find-erase j k l, eqb_iff p j, eqb_iff p k, eqb_iff j k)

  pub find-insert :
      (j k : ℤ) (c : C) (l : List (ℤ × C))
      → find j l ≡ none
      → find k (insert j c l).0 ≡ (if eqb j k then some c else find k l)
  unfolding find insert
  find-insert j k c l h = rw (h, insert, find)

  pub find-bury :
      (o : Observer C) (j k : ℤ) (c : C)
      → find k (bury o j c).children ≡ (if eqb j k then none else find k o.children)
  unfolding bury
  find-bury o j k c = find-erase j k o.children

  -- After the report of a death the child is not in the map, and nothing else has changed there.
  pub find-reap :
      (m : WaitMacros) (o : Observer C) (r : WaitReturn) (k : ℤ)
      → (m.wifsignaled r.status || m.wifexited r.status) ≡ true
      → find k (reap m o r).children ≡ (if eqb r.pid k then none else find k o.children)
  unfolding reap
  find-reap m o r k h = elim (Option-cases (find r.pid o.children)) [
    | inl e ↦ rw (e, reap) (ground (arith, eqb_iff r.pid k))
    | inr (c, e) ↦ rw (e, reap, h) (find-bury o r.pid k c)
  ]
