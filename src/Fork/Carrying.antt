-- ===== src/Fork/Carrying.antt =====
-- Pipes whose ends lead to a pipe with a number, and what keeps them so.
use process_cpp.Prelude.{
  ℕ, ℤ, minus_one, eqb, eqb_iff, ◌≡◌, ◌≢◌, refl, ◌⊎◌, inl, Bool, true, false, some, arith,
}
use process_cpp.Effect.{ok}
use process_cpp.Descriptors.{FdCalls, FdLaws, PlentyLaws, File, reader, writer}
use process_cpp.Pipe.{Pipe, closed_pipe}
use process_cpp.Fork.{new_if}
use process_cpp.Fork.Opening.{IsOpened, assign_new-IsOpened}
use process_cpp.Fork.Streams.{IsNew, assign_new-IsNew}

module _ {W : Type 0} (fd : FdCalls W) (l : FdLaws fd) where
  open l use {table}

  -- The descriptor is marked closed, or open on the description.
  abbrev pub Leads : W → ℤ → File → Type 0
  Leads w x f = (x ≡ minus_one) ⊎ (table w x ≡ some f)

  -- The ends of the pipe are marked closed, or are those of the pipe `k`.
  pub record Carries (k : ℕ) (w : W) (q : Pipe) : Type 0 where
    pub read : Leads w q.fds_0 (reader k)
    pub write : Leads w q.fds_1 (writer k)

  -- What is open in `w` is open on the same in `w'`.
  abbrev pub Keeps : W → W → Type 0
  Keeps w w' = (x : ℤ) (f : File) → table w x ≡ some f → table w' x ≡ some f

  -- `q` is a pipe with descriptors that `w` does not use; or with none.
  pub record IsAdded (k : ℕ) (w w' : W) (q : Pipe) : Type 0 where
    pub carries : Carries k w' q
    pub keeps : Keeps w w'
    pub apart :
        (x : ℤ) (f : File) → table w x ≡ some f → (eqb x q.fds_0 ≡ false) × (eqb x q.fds_1 ≡ false)
    pub others : (x : ℤ) → eqb x q.fds_0 ≡ false → eqb x q.fds_1 ≡ false → table w' x ≡ table w x

  pub Carries-Keeps : (k : ℕ) (w w' : W) (q : Pipe) → Keeps w w' → Carries k w q → Carries k w' q
  Carries-Keeps k w w' q keeps c = record {
    read = ground (arith, c.read, keeps q.fds_0 (reader k));
    write = ground (arith, c.write, keeps q.fds_1 (writer k));
  }

  pub IsNew-IsAdded : (k : ℕ) (w w' : W) (q : Pipe) → IsNew fd l k w w' q → IsAdded k w w' q
  IsNew-IsAdded k w w' q n = record {
    carries = record {
      read = ground (
        arith,
        n.table_new q.fds_0,
        n.distinct,
        eqb_iff q.fds_0 q.fds_0,
        eqb_iff q.fds_0 q.fds_1,
        eqb_iff q.fds_1 q.fds_0,
        eqb_iff q.fds_0 minus_one,
      );
      write =
          ground (arith, n.table_new q.fds_1, eqb_iff q.fds_1 q.fds_1, eqb_iff q.fds_1 minus_one);
    };
    keeps = λ x f h. ground (
      arith,
      n.table_new x,
      n.fresh_0,
      n.fresh_1,
      eqb_iff x q.fds_0,
      eqb_iff x q.fds_1,
      eqb_iff x minus_one,
      l.table-minus_one w,
    );
    apart = λ x f h. (
      ground (arith, n.fresh_0, eqb_iff x q.fds_0),
      ground (arith, n.fresh_1, eqb_iff x q.fds_1),
    );
    others = λ x a b. ground (arith, n.table_new x, eqb_iff x minus_one, l.table-minus_one w);
  }

  pub closed-IsAdded : (w : W) → IsAdded 0 w w closed_pipe
  closed-IsAdded w = record {
    carries = record { read = inl refl; write = inl refl };
    keeps = λ x f e. e;
    apart = λ x f e. (
      ground (arith, l.table-minus_one w, eqb_iff x minus_one),
      ground (arith, l.table-minus_one w, eqb_iff x minus_one),
    );
    others = λ x a b. refl;
  }

  pub new_if-IsAdded :
      (b : Bool) (w : W) (q : Pipe)
      → (new_if fd b closed_pipe w).0 ≡ ok q
      → (k : ℕ) × IsAdded k w (new_if fd b closed_pipe w).1 q
  unfolding new_if
  new_if-IsAdded true w q h =
      (l.new_pipe w, IsNew-IsAdded (l.new_pipe w) w _ q (assign_new-IsNew fd l w q h))
  new_if-IsAdded false w q h =
      let same : closed_pipe ≡ q = cc in (0, rw (← same) (closed-IsAdded w))

  -- No descriptor leads to the pipe `k`, given that pipe(2) makes new pipes.
  abbrev pub Unused : ℕ → W → Type 0
  Unused k w =
      PlentyLaws fd l → (x : ℤ) → (table w x ≢ some (reader k)) × (table w x ≢ some (writer k))

  -- `q` is added as the pipe `k`, which is a new one.
  pub record IsFresh (k : ℕ) (w w' : W) (q : Pipe) : Type 0 where
    pub carries : Carries k w' q
    pub keeps : Keeps w w'
    pub apart :
        (x : ℤ) (f : File) → table w x ≡ some f → (eqb x q.fds_0 ≡ false) × (eqb x q.fds_1 ≡ false)
    pub others : (x : ℤ) → eqb x q.fds_0 ≡ false → eqb x q.fds_1 ≡ false → table w' x ≡ table w x
    pub unused : Unused k w

  pub IsAdded-IsFresh :
      (w w' : W) (q : Pipe) → IsAdded (l.new_pipe w) w w' q → IsFresh (l.new_pipe w) w w' q
  IsAdded-IsFresh w w' q a = record {
    carries = a.carries;
    keeps = a.keeps;
    apart = a.apart;
    others = a.others;
    unused = λ y x. y.new_pipe_fresh w x;
  }

  pub IsFresh-IsAdded : {k : ℕ} {w w' : W} {q : Pipe} → IsFresh k w w' q → IsAdded k w w' q
  IsFresh-IsAdded a = record {
    carries = a.carries;
    keeps = a.keeps;
    apart = a.apart;
    others = a.others;
  }

  pub new_if-IsFresh :
      (b : Bool) (w : W) (q : Pipe)
      → (new_if fd b closed_pipe w).0 ≡ ok q
      → (k : ℕ) × IsFresh k w (new_if fd b closed_pipe w).1 q
  unfolding new_if
  new_if-IsFresh true w q h = (
    l.new_pipe w,
    IsAdded-IsFresh w _ q (IsNew-IsAdded (l.new_pipe w) w _ q (assign_new-IsNew fd l w q h)),
  )
  new_if-IsFresh false w q h =
      let same : closed_pipe ≡ q = cc in
      let none_yet = closed-IsAdded w in
      (
        l.new_pipe w,
        rw (← same) (record {
          carries = record { read = inl refl; write = inl refl };
          keeps = none_yet.keeps;
          apart = none_yet.apart;
          others = none_yet.others;
          unused = λ y x. y.new_pipe_fresh w x;
        }),
      )

  -- A stream whose flag is not set has a pipe without descriptors; while there is room, one whose flag
  -- is set has a pipe with both ends.
  abbrev pub Unset : Bool → Pipe → Type 0
  Unset b q = (b ≡ false → q ≡ closed_pipe) × (PlentyLaws fd l → b ≡ true → IsOpened fd l q)

  pub new_if-Unset :
      (b : Bool) (w : W) (q : Pipe) → (new_if fd b closed_pipe w).0 ≡ ok q → Unset b q
  unfolding new_if
  new_if-Unset true w q h = (λ unset. cc, λ y set. assign_new-IsOpened fd l y w q h)
  new_if-Unset false w q h = (λ unset. cc, λ y set. cc)
