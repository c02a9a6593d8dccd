-- ===== src/Fork/Holding.antt =====
-- The ends of the pipes that the child of a fork keeps.
use process_cpp.Prelude.{
  ℕ, ℤ, minus_one, eqb, eqb_iff, ◌≡◌, false, none, some, if◌then◌else◌, arith,
}
use process_cpp.Descriptors.{FdCalls, FdLaws, File, reader, writer}
use process_cpp.Pipe.{close_read_fd, close_write_fd}
use process_cpp.Pipe.Ownership.{
  table-close_read_fd, table-close_write_fd, close_read_fd_lem, close_write_fd_lem,
}
use process_cpp.StandardStream.{StandardStream}
use process_cpp.ChildProcess.{Pipes}
use process_cpp.Fork.{close_parent_ends}
use process_cpp.Fork.Carrying.{Leads}
use process_cpp.Fork.Making.{IsMade}

module _ {W : Type 0} (fd : FdCalls W) (l : FdLaws fd) where
  open l use {table}

  abbrev pub children : Pipes → Pipes
  children p = record {
    stdin = record { fds_0 = p.stdin.fds_0; fds_1 = minus_one };
    stdout = record { fds_0 = minus_one; fds_1 = p.stdout.fds_1 };
    stderr = record { fds_0 = minus_one; fds_1 = p.stderr.fds_1 };
  }

  pub close_parent_ends-children : (p : Pipes) (w : W) → (close_parent_ends fd p w).0 ≡ children p
  unfolding close_parent_ends
  close_parent_ends-children p w =
      let w1 = (close_write_fd fd p.stdin w).1 in
      let w2 = (close_read_fd fd p.stdout w1).1 in
      ground (
        arith,
        close_write_fd_lem fd l p.stdin w,
        close_read_fd_lem fd l p.stdout w1,
        close_read_fd_lem fd l p.stderr w2,
      )

  table-close_parent_ends :
      (p : Pipes) (w : W) (x : ℤ)
      → table (close_parent_ends fd p w).1 x ≡ (
          if eqb x p.stderr.fds_0
          then none
          else if eqb x p.stdout.fds_0
          then none
          else if eqb x p.stdin.fds_1
          then none
          else table w x)
  unfolding close_parent_ends
  table-close_parent_ends p w x =
      let w1 = (close_write_fd fd p.stdin w).1 in
      let w2 = (close_read_fd fd p.stdout w1).1 in
      ground (
        arith,
        table-close_write_fd fd l p.stdin w x,
        table-close_read_fd fd l p.stdout w1 x,
        table-close_read_fd fd l p.stderr w2 x,
      )

  -- The ends that the child keeps lead to their pipes in a world.
  pub record ChildEnds (w : W) (p : Pipes) (i o e : ℕ) : Type 0 where
    pub stdin : Leads fd l w p.stdin.fds_0 (reader i)
    pub stdout : Leads fd l w p.stdout.fds_1 (writer o)
    pub stderr : Leads fd l w p.stderr.fds_1 (writer e)

  pub close_parent_ends-ChildEnds :
      {flags : StandardStream} (w w' : W) (p : Pipes) (m : IsMade fd l flags w w' p)
      → ChildEnds (close_parent_ends fd p w').1 p m.k_in m.k_out m.k_err
  close_parent_ends-ChildEnds w w' p m =
      let a = m.stdin_IsAdded in
      let b = m.stdout_IsAdded in
      let c = m.stderr_IsAdded in
      let i = p.stdin.fds_0 in
      let o = p.stdout.fds_1 in
      let e = p.stderr.fds_1 in
      record {
        stdin = ground (
          arith,
          a.carries.write,
          a.carries.read,
          b.apart i (reader m.k_in),
          b.keeps i (reader m.k_in),
          c.apart i (reader m.k_in),
          c.keeps i (reader m.k_in),
          table-close_parent_ends p w' i,
          eqb_iff i p.stdin.fds_1,
        );
        stdout = ground (
          arith,
          a.carries.write,
          b.carries.write,
          b.carries.read,
          b.apart p.stdin.fds_1 (writer m.k_in),
          c.apart o (writer m.k_out),
          c.keeps o (writer m.k_out),
          table-close_parent_ends p w' o,
          eqb_iff o p.stdout.fds_0,
          eqb_iff o p.stdin.fds_1,
          eqb_iff p.stdin.fds_1 o,
        );
        stderr = ground (
          arith,
          a.carries.write,
          b.carries.read,
          c.carries.write,
          c.carries.read,
          b.keeps p.stdin.fds_1 (writer m.k_in),
          c.apart p.stdin.fds_1 (writer m.k_in),
          c.apart p.stdout.fds_0 (reader m.k_out),
          table-close_parent_ends p w' e,
          eqb_iff e p.stderr.fds_0,
          eqb_iff e p.stdout.fds_0,
          eqb_iff p.stdout.fds_0 e,
          eqb_iff e p.stdin.fds_1,
          eqb_iff p.stdin.fds_1 e,
        );
      }

  -- A descriptor that was open before the pipes were made is none of their ends, and still open.
  pub old-IsMade :
      {flags : StandardStream} (w w' : W) (p : Pipes) (x : ℤ) (f : File)
      → IsMade fd l flags w w' p
      → table w x ≡ some f
      → (table (close_parent_ends fd p w').1 x ≡ some f)
        × (eqb p.stdout.fds_1 x ≡ false)
        × (eqb p.stderr.fds_1 x ≡ false)
  old-IsMade w w' p x f m h =
      let a = m.stdin_IsAdded in
      let b = m.stdout_IsAdded in
      let c = m.stderr_IsAdded in
      let in_1 = a.keeps x f h in
      let in_2 = b.keeps x f in_1 in
      let (_, a1) = a.apart x f h in
      let (b0, b1) = b.apart x f in_1 in
      let (c0, c1) = c.apart x f in_2 in
      (
        ground (arith, c.keeps x f in_2, table-close_parent_ends p w' x, a1, b0, c0),
        ground (arith, eqb_iff x p.stdout.fds_1, eqb_iff p.stdout.fds_1 x),
        ground (arith, eqb_iff x p.stderr.fds_1, eqb_iff p.stderr.fds_1 x),
      )
