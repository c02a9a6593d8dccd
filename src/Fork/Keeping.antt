-- ===== src/Fork/Keeping.antt =====
-- The ends of the pipes that the parent of a fork keeps, and their copies.
use process_cpp.Prelude.{ℕ, ℤ, minus_one, eqb, eqb_iff, ◌≡◌, refl, inl, none, if◌then◌else◌, arith}
use process_cpp.Descriptors.{FdCalls, FdLaws, reader, writer}
use process_cpp.Pipe.{Pipe, copy, close_read_fd, close_write_fd}
use process_cpp.Pipe.Ownership.{
  IsLive, table-copy, copy_fresh, table-close_read_fd, table-close_write_fd, close_read_fd_lem,
  close_write_fd_lem,
}
use process_cpp.ChildProcess.{Pipes}
use process_cpp.Fork.{close_child_ends}
use process_cpp.Fork.Ends.{copy_closed_0, copy_closed_1}
use process_cpp.Fork.Carrying.{Leads, Carries, IsAdded, Carries-Keeps}
use process_cpp.StandardStream.{StandardStream}
use process_cpp.Fork.Making.{IsMade}

module _ {W : Type 0} (fd : FdCalls W) (l : FdLaws fd) where
  open l use {table}

  Carries-IsLive : (k : ℕ) (w : W) (p : Pipe) → Carries fd l k w p → IsLive fd l w p
  Carries-IsLive k w p c = record {
    live_0 = ground (arith, c.read);
    live_1 = ground (arith, c.write);
  }

  -- A copy of a pipe that leads to the pipe `k`.
  pub copy-IsAdded :
      (k : ℕ) (w : W) (p : Pipe)
      → Carries fd l k w p
      → IsAdded fd l k w (copy fd p w).1 (copy fd p w).0
  copy-IsAdded k w p c =
      let q = (copy fd p w).0 in
      let live = Carries-IsLive k w p c in
      let (f0, f1, d) = copy_fresh fd l p w live in
      record {
        carries = record {
          read = ground (
            arith,
            c.read,
            d,
            f0,
            table-copy fd l p w q.fds_0 live,
            copy_closed_0 fd p w,
            eqb_iff q.fds_0 q.fds_0,
            eqb_iff q.fds_0 q.fds_1,
            eqb_iff q.fds_1 q.fds_0,
            eqb_iff q.fds_0 minus_one,
          );
          write = ground (
            arith,
            c.write,
            table-copy fd l p w q.fds_1 live,
            copy_closed_1 fd p w,
            eqb_iff q.fds_1 q.fds_1,
            eqb_iff q.fds_1 minus_one,
          );
        };
        keeps = λ x f e. ground (
          arith,
          f0,
          f1,
          table-copy fd l p w x live,
          eqb_iff x q.fds_0,
          eqb_iff x q.fds_1,
          eqb_iff x minus_one,
          l.table-minus_one w,
        );
        apart =
            λ x f e. (ground (arith, f0, eqb_iff x q.fds_0), ground (arith, f1, eqb_iff x q.fds_1));
        others = λ x a b.
            ground (arith, table-copy fd l p w x live, eqb_iff x minus_one, l.table-minus_one w);
      }

  abbrev pub parents : Pipes → Pipes
  parents p = record {
    stdin = record { fds_0 = minus_one; fds_1 = p.stdin.fds_1 };
    stdout = record { fds_0 = p.stdout.fds_0; fds_1 = minus_one };
    stderr = record { fds_0 = p.stderr.fds_0; fds_1 = minus_one };
  }

  pub close_child_ends-parents : (p : Pipes) (w : W) → (close_child_ends fd p w).0 ≡ parents p
  unfolding close_child_ends
  close_child_ends-parents p w =
      let w1 = (close_read_fd fd p.stdin w).1 in
      let w2 = (close_write_fd fd p.stdout w1).1 in
      ground (
        arith,
        close_read_fd_lem fd l p.stdin w,
        close_write_fd_lem fd l p.stdout w1,
        close_write_fd_lem fd l p.stderr w2,
      )

  pub table-close_child_ends :
      (p : Pipes) (w : W) (x : ℤ)
      → table (close_child_ends fd p w).1 x ≡ (
          if eqb x p.stderr.fds_1
          then none
          else if eqb x p.stdout.fds_1
          then none
          else if eqb x p.stdin.fds_0
          then none
          else table w x)
  unfolding close_child_ends
  table-close_child_ends p w x =
      let w1 = (close_read_fd fd p.stdin w).1 in
      let w2 = (close_write_fd fd p.stdout w1).1 in
      ground (
        arith,
        table-close_read_fd fd l p.stdin w x,
        table-close_write_fd fd l p.stdout w1 x,
        table-close_write_fd fd l p.stderr w2 x,
      )

  -- The ends that the parent keeps lead to their pipes in a world.
  pub record ParentEnds (w : W) (p : Pipes) (i o e : ℕ) : Type 0 where
    pub stdin : Leads fd l w p.stdin.fds_1 (writer i)
    pub stdout : Leads fd l w p.stdout.fds_0 (reader o)
    pub stderr : Leads fd l w p.stderr.fds_0 (reader e)

  pub close_child_ends-ParentEnds :
      {flags : StandardStream} (w w' : W) (p : Pipes) (m : IsMade fd l flags w w' p)
      → ParentEnds (close_child_ends fd p w').1 p m.k_in m.k_out m.k_err
  close_child_ends-ParentEnds w w' p m =
      let a = m.stdin_IsAdded in
      let b = m.stdout_IsAdded in
      let c = m.stderr_IsAdded in
      let i = p.stdin.fds_1 in
      let o = p.stdout.fds_0 in
      let e = p.stderr.fds_0 in
      record {
        stdin = ground (
          arith,
          a.carries.write,
          a.carries.read,
          b.apart i (writer m.k_in),
          b.keeps i (writer m.k_in),
          c.apart i (writer m.k_in),
          c.keeps i (writer m.k_in),
          table-close_child_ends p w' i,
          eqb_iff i p.stdin.fds_0,
        );
        stdout = ground (
          arith,
          a.carries.read,
          b.carries.write,
          b.carries.read,
          b.apart p.stdin.fds_0 (reader m.k_in),
          c.apart o (reader m.k_out),
          c.keeps o (reader m.k_out),
          table-close_child_ends p w' o,
          eqb_iff o p.stdout.fds_1,
          eqb_iff o p.stdin.fds_0,
          eqb_iff p.stdin.fds_0 o,
        );
        stderr = ground (
          arith,
          a.carries.read,
          b.carries.write,
          c.carries.write,
          c.carries.read,
          b.keeps p.stdin.fds_0 (reader m.k_in),
          c.apart p.stdin.fds_0 (reader m.k_in),
          c.apart p.stdout.fds_1 (writer m.k_out),
          table-close_child_ends p w' e,
          eqb_iff e p.stderr.fds_1,
          eqb_iff e p.stdout.fds_1,
          eqb_iff p.stdout.fds_1 e,
          eqb_iff e p.stdin.fds_0,
          eqb_iff p.stdin.fds_0 e,
        );
      }

  -- The three copies that the constructor of Private makes of the ends that the parent keeps.
  pub copies-IsAdded :
      (p : Pipes) (w4 : W) (i o e : ℕ)
      → ParentEnds w4 p i o e
      → let q = parents p in
        let (q1, w5) = copy fd q.stdin w4 in
        let (q2, w6) = copy fd q.stdout w5 in
        let (q3, w7) = copy fd q.stderr w6 in
        IsAdded fd l i w4 w5 q1 × IsAdded fd l o w5 w6 q2 × IsAdded fd l e w6 w7 q3
  copies-IsAdded p w4 i o e ends =
      let q = parents p in
      let a = copy-IsAdded i w4 q.stdin (record { read = inl refl; write = ends.stdin }) in
      let w5 = (copy fd q.stdin w4).1 in
      let b = copy-IsAdded o w5 q.stdout (
        Carries-Keeps fd l o w4 w5 q.stdout a.keeps
          (record { read = ends.stdout; write = inl refl })) in
      let w6 = (copy fd q.stdout w5).1 in
      let c = copy-IsAdded e w6 q.stderr (
        Carries-Keeps fd l e w4 w6 q.stderr (λ x f h. b.keeps x f (a.keeps x f h))
          (record { read = ends.stderr; write = inl refl })) in
      (a, b, c)
