-- ===== src/Fork/Releasing.antt =====
-- What a fork opens in the parent, the end of the ChildProcess closes.
use process_cpp.Prelude.{
  ℕ, ℤ, minus_one, eqb, eqb_iff, ◌≡◌, sym, ap, ◌∙◌, inl, inr, Option-cases, Bool, true, none,
  if◌then◌else◌, arith,
}
use process_cpp.Effect.{Result, ok}
use process_cpp.Descriptors.{FdCalls, FdLaws}
use process_cpp.Pipe.{Pipe, copy}
use process_cpp.ProcessCalls.{ProcessCalls}
use process_cpp.StandardStream.{StandardStream}
use process_cpp.ChildProcess.{Pipes, Private, ChildProcess, make_private, make_child}
use process_cpp.Fork.{close_child_ends, destroy_pipes, parent_part}
use process_cpp.Fork.Carrying.{IsFresh-IsAdded, IsAdded}
use process_cpp.Fork.Making.{IsMade}
use process_cpp.Fork.Keeping.{
  parents, copies-IsAdded, table-close_child_ends, close_child_ends-ParentEnds,
}
use process_cpp.Fork.Linking.{table-destroy_pipes, parent_part-parents, make_child_run}

module _ {W : Type 0} (fd : FdCalls W) (l : FdLaws fd) where
  open l use {table}

  -- Without the ends of a pipe that was added the table is what it was.
  undo :
      (k : ℕ) (w w' : W) (q : Pipe) (x : ℤ)
      → IsAdded fd l k w w' q
      → (if eqb x q.fds_1 then none else if eqb x q.fds_0 then none else table w' x) ≡ table w x
  undo k w w' q x a = elim (Option-cases (table w x)) [
    | inl e ↦ ground (arith, a.others x, e)
    | inr (f, e) ↦ ground (arith, a.others x, a.apart x f e)
  ]

  -- The same for three pipes, in the order in which the destructors run.
  pub undo_pipes :
      (i o e : ℕ) (w w1 w2 w3 : W) (p : Pipes) (x : ℤ)
      → IsAdded fd l i w w1 p.stdin
      → IsAdded fd l o w1 w2 p.stdout
      → IsAdded fd l e w2 w3 p.stderr
      → table (destroy_pipes fd p w3) x ≡ table w x
  undo_pipes i o e w w1 w2 w3 p x a b c =
      table-destroy_pipes fd l p w3 x
      ∙ ground
          (arith, undo i w w1 p.stdin x a, undo o w1 w2 p.stdout x b, undo e w2 w3 p.stderr x c)

  -- The descriptor is an end of one of the pipes.
  is_end : Pipes → ℤ → Bool
  is_end p x =
      if eqb x p.stdin.fds_1
      then true
      else if eqb x p.stdin.fds_0
      then true
      else if eqb x p.stdout.fds_1
      then true
      else if eqb x p.stdout.fds_0
      then true
      else if eqb x p.stderr.fds_1
      then true
      else eqb x p.stderr.fds_0

  table-is_end :
      (p : Pipes) (w : W) (x : ℤ)
      → table (destroy_pipes fd p w) x ≡ (if is_end p x then none else table w x)
  unfolding is_end
  table-is_end p w x = ground (arith, table-destroy_pipes fd l p w x)

  module _ (os : ProcessCalls W) where
    -- The copies of the parent's ends, closed behind the ends themselves.
    released :
        (pid : ℤ) (p : Pipes) (w4 : W) (i o e : ℕ) (x : ℤ)
        → let q = parents fd l p in
          let (d, w7) = make_private fd os pid q.stdin q.stdout q.stderr w4 in
          IsAdded fd l i w4 (copy fd q.stdin w4).1 d.pipes.stdin
          → IsAdded fd l o
              (copy fd q.stdin w4).1
              (copy fd q.stdout (copy fd q.stdin w4).1).1
              d.pipes.stdout
          → IsAdded fd l e (copy fd q.stdout (copy fd q.stdin w4).1).1 w7 d.pipes.stderr
          → table (destroy_pipes fd d.pipes (destroy_pipes fd q w7)) x
            ≡ table (destroy_pipes fd q w4) x
    unfolding make_private
    released pid p w4 i o e x a b c =
        let q = parents fd l p in
        let (d, w7) = make_private fd os pid q.stdin q.stdout q.stderr w4 in
        let w5 = (copy fd q.stdin w4).1 in
        let w6 = (copy fd q.stdout w5).1 in
        ground (
          arith,
          table-is_end d.pipes (destroy_pipes fd q w7) x,
          table-is_end q w7 x,
          table-is_end q w4 x,
          table-is_end d.pipes w7 x,
          undo_pipes i o e w4 w5 w6 w7 d.pipes x a b c,
        )

    -- Closing the child's ends first makes no difference.
    pub all_ends :
        (p : Pipes) (w : W) (x : ℤ)
        → table (destroy_pipes fd (parents fd l p) (close_child_ends fd p w).1) x
          ≡ table (destroy_pipes fd p w) x
    all_ends p w x = ground (
      arith,
      table-destroy_pipes fd l (parents fd l p) (close_child_ends fd p w).1 x,
      table-close_child_ends fd l p w x,
      table-destroy_pipes fd l p w x,
      l.table-minus_one w,
      eqb_iff x minus_one,
    )

    pub undo_IsMade :
        {flags : StandardStream} (w w' : W) (p : Pipes) (x : ℤ)
        → IsMade fd l flags w w' p
        → table (destroy_pipes fd p w') x ≡ table w x
    undo_IsMade w w' p x m =
        undo_pipes m.k_in m.k_out m.k_err w m.w1 m.w2 w' p x (IsFresh-IsAdded fd l m.stdin_IsAdded)
          (IsFresh-IsAdded fd l m.stdout_IsAdded) (IsFresh-IsAdded fd l m.stderr_IsAdded)

    pub parent_part-released :
        {flags : StandardStream} (pid : ℤ) (p : Pipes) (w w' : W) (c : ChildProcess) (x : ℤ)
        (m : IsMade fd l flags w w' p)
        → (parent_part fd os pid p w').0 ≡ ok c
        → table (destroy_pipes fd c.private.pipes (parent_part fd os pid p w').1) x ≡ table w x
    unfolding make_private
    parent_part-released pid p w w' c x m h =
        let q = parents fd l p in
        let w4 = (close_child_ends fd p w').1 in
        let run = parent_part-parents fd l os pid p w' in
        let made : (make_child fd os pid q.stdin q.stdout q.stderr w4).0 ≡ ok c =
          sym (ap (λ (r : Result ChildProcess × W). r.0) run) ∙ h in
        let (same, after) = make_child_run fd l os pid q w4 c made in
        let (d, w7) = make_private fd os pid q.stdin q.stdout q.stderr w4 in
        let (a, b, e) =
          copies-IsAdded fd l p w4 m.k_in m.k_out m.k_err
            (close_child_ends-ParentEnds fd l w w' p m) in
        let world : (parent_part fd os pid p w').1 ≡ destroy_pipes fd q w7 =
          ap (λ (r : Result ChildProcess × W). r.1) run ∙ ap (destroy_pipes fd q) after in
        ap (λ (v : W). table (destroy_pipes fd c.private.pipes v) x) world
        ∙ ap (λ (t : Private). table (destroy_pipes fd t.pipes (destroy_pipes fd q w7)) x)
            (sym same)
        ∙ released pid p w4 m.k_in m.k_out m.k_err x a b e
        ∙ all_ends p w' x
        ∙ undo_IsMade w w' p x m
