-- ===== src/Fork/Ends.antt =====
-- Which ends of the pipes a ChildProcess has that fork or vfork returns.
use process_cpp.Prelude.{ℤ, minus_one, eqb, eqb_iff, ◌≡◌, refl, subst, inl, inr, Bool-cases, arith}
use process_cpp.Effect.{Effect, Error, Result, ok, throw}
use process_cpp.Descriptors.{FdCalls}
use process_cpp.Pipe.{Pipe, copy, dup_valid, close_read_fd, close_write_fd}
use process_cpp.ProcessCalls.{ProcessCalls}
use process_cpp.StandardStream.{StandardStream}
use process_cpp.ChildProcess.{Pipes, Private, ChildProcess, make_private, make_child}
use process_cpp.Session.{Session}
use process_cpp.Fork.{
  returns, is_child, close_parent_ends, close_child_ends, parent_part, child_part, after_fork,
  fork_pipes, fork_with, fork, vfork_pipes, vfork_with, vfork,
}

-- The private part keeps no end that is the child's, and each stream buffer is over the parent's end
-- of its own pipe.
abbrev pub HasParentEnds : Private → Type 0
HasParentEnds d =
    (d.pipes.stdin.fds_0 ≡ minus_one)
    × (d.pipes.stdout.fds_1 ≡ minus_one)
    × (d.pipes.stderr.fds_1 ≡ minus_one)
    × (d.sin ≡ d.pipes.stdin.fds_1)
    × (d.sout ≡ d.pipes.stdout.fds_0)
    × (d.serr ≡ d.pipes.stderr.fds_0)

-- No stream buffer is over an open descriptor.
abbrev pub HasNoEnds : Private → Type 0
HasNoEnds d = (d.sin ≡ minus_one) × (d.sout ≡ minus_one) × (d.serr ≡ minus_one)

module _ {W : Type 0} (fd : FdCalls W) where
  pub copy_closed_0 : (p : Pipe) (w : W) → p.fds_0 ≡ minus_one → (copy fd p w).0.fds_0 ≡ minus_one
  unfolding copy dup_valid
  copy_closed_0 p w h = ground (arith, eqb_iff p.fds_0 minus_one)

  pub copy_closed_1 : (p : Pipe) (w : W) → p.fds_1 ≡ minus_one → (copy fd p w).0.fds_1 ≡ minus_one
  unfolding copy dup_valid
  copy_closed_1 p w h = ground (arith, eqb_iff p.fds_1 minus_one)

  close_child_ends_lem :
      (p : Pipes) (w : W)
      → let q = (close_child_ends fd p w).0 in
        (q.stdin.fds_0 ≡ minus_one) × (q.stdout.fds_1 ≡ minus_one) × (q.stderr.fds_1 ≡ minus_one)
  unfolding close_child_ends close_read_fd close_write_fd
  close_child_ends_lem p w = ground arith

module _ {W : Type 0} (fd : FdCalls W) (os : ProcessCalls W) where
  make_private-HasParentEnds :
      (pid : ℤ) (a b c : Pipe) (w : W)
      → a.fds_0 ≡ minus_one
      → b.fds_1 ≡ minus_one
      → c.fds_1 ≡ minus_one
      → HasParentEnds (make_private fd os pid a b c w).0
  unfolding make_private
  make_private-HasParentEnds pid a b c w ha hb hc =
      let w1 = (copy fd a w).1 in
      let w2 = (copy fd b w1).1 in
      (
        copy_closed_0 fd a w ha,
        copy_closed_1 fd b w1 hb,
        copy_closed_1 fd c w2 hc,
        refl,
        refl,
        refl,
      )

  pub make_child-make_private :
      (pid : ℤ) (a b c : Pipe) (w : W) (child : ChildProcess)
      → (make_child fd os pid a b c w).0 ≡ ok child
      → (make_private fd os pid a b c w).0 ≡ child.private
  unfolding make_child
  make_child-make_private pid a b c w child h = ground arith

  parent_part-HasParentEnds :
      (pid : ℤ) (p : Pipes) (w : W) (child : ChildProcess)
      → (parent_part fd os pid p w).0 ≡ ok child
      → HasParentEnds child.private
  unfolding parent_part
  parent_part-HasParentEnds pid p w child h =
      let q = (close_child_ends fd p w).0 in
      let w1 = (close_child_ends fd p w).1 in
      let (a, b, c) = close_child_ends_lem fd p w in
      subst HasParentEnds (make_child-make_private pid q.stdin q.stdout q.stderr w1 child h)
        (make_private-HasParentEnds pid q.stdin q.stdout q.stderr w1 a b c)

  make_private-HasNoEnds :
      (pid : ℤ) (a b c : Pipe) (w : W)
      → a.fds_1 ≡ minus_one
      → b.fds_0 ≡ minus_one
      → c.fds_0 ≡ minus_one
      → HasNoEnds (make_private fd os pid a b c w).0
  unfolding make_private
  make_private-HasNoEnds pid a b c w ha hb hc =
      let w1 = (copy fd a w).1 in
      let w2 = (copy fd b w1).1 in
      (copy_closed_1 fd a w ha, copy_closed_0 fd b w1 hb, copy_closed_0 fd c w2 hc)

  keep_parent_ends :
      (p : Pipes) (w : W)
      → p.stdin.fds_1 ≡ minus_one
      → p.stdout.fds_0 ≡ minus_one
      → p.stderr.fds_0 ≡ minus_one
      → let q = (close_child_ends fd p w).0 in
        (q.stdin.fds_1 ≡ minus_one) × (q.stdout.fds_0 ≡ minus_one) × (q.stderr.fds_0 ≡ minus_one)
  unfolding close_child_ends close_read_fd close_write_fd
  keep_parent_ends p w a b c = ground arith

  module _ (report : Error → W → W) (main : Effect W ℤ) (flags : StandardStream) where
    -- The ChildProcess that a process returns from the code behind the call is that of the parent's part.
    pub after_fork_parts :
        (pid : ℤ) (p : Pipes) (s s' : Session W) (child : ChildProcess)
        → after_fork fd os report main flags pid p s ≡ returns (ok child) s'
        → (parent_part fd os pid p s.world).0 ≡ ok child
    unfolding after_fork
    after_fork_parts pid p s s' child h = elim (Bool-cases (is_child pid)) [
      | inl e ↦ ground arith
      | inr e ↦ ground arith
    ]

    fork_with-HasParentEnds :
        (r : Result Pipes × Session W) (s' : Session W) (child : ChildProcess)
        → (fork_with fd os report main flags r).parent ≡ returns (ok child) s'
        → HasParentEnds child.private
    unfolding fork_with
    fork_with-HasParentEnds (throw e, s) s' child h = cc
    fork_with-HasParentEnds (ok p, s) s' child h =
        let f = os.fork s.world in
        elim (Bool-cases (eqb f.pid minus_one)) [
          | inl e ↦ ground arith
          | inr e ↦
              parent_part-HasParentEnds f.pid p f.parent child
                (after_fork_parts f.pid p (record s { world = f.parent }) s' child (ground arith))
        ]

    -- The ChildProcess that fork returns in the parent keeps no end of a pipe that is the child's, and
    -- its streams for stdin, stdout and stderr are over the parent's ends of the pipes of those names.
    pub fork-HasParentEnds :
        (s s' : Session W) (child : ChildProcess)
        → (fork fd os report main flags s).parent ≡ returns (ok child) s'
        → HasParentEnds child.private
    unfolding fork
    fork-HasParentEnds s s' child h = fork_with-HasParentEnds (fork_pipes fd flags s) s' child h

    close_parent_ends_lem :
        (p : Pipes) (w : W)
        → let q = (close_parent_ends fd p w).0 in
          (q.stdin.fds_1 ≡ minus_one) × (q.stdout.fds_0 ≡ minus_one) × (q.stderr.fds_0 ≡ minus_one)
    unfolding close_parent_ends close_read_fd close_write_fd
    close_parent_ends_lem p w = ground arith

    child_part-close_parent_ends :
        (p : Pipes) (w : W)
        → (close_parent_ends fd p w).0 ≡ (child_part fd report main flags p w).0.1
    unfolding child_part
    child_part-close_parent_ends p w = refl

    parent_part-HasNoEnds :
        (pid : ℤ) (p : Pipes) (w : W) (child : ChildProcess)
        → p.stdin.fds_1 ≡ minus_one
        → p.stdout.fds_0 ≡ minus_one
        → p.stderr.fds_0 ≡ minus_one
        → (parent_part fd os pid p w).0 ≡ ok child
        → HasNoEnds child.private
    unfolding parent_part
    parent_part-HasNoEnds pid p w child a b c h =
        let q = (close_child_ends fd p w).0 in
        let w1 = (close_child_ends fd p w).1 in
        let (a', b', c') = keep_parent_ends p w a b c in
        subst HasNoEnds (make_child-make_private pid q.stdin q.stdout q.stderr w1 child h)
          (make_private-HasNoEnds pid q.stdin q.stdout q.stderr w1 a' b' c')

    vfork_with-HasNoEnds :
        (r : Result Pipes × Session W) (s' : Session W) (child : ChildProcess)
        → (vfork_with fd os report main flags r).parent ≡ returns (ok child) s'
        → HasParentEnds child.private × HasNoEnds child.private
    unfolding vfork_with
    vfork_with-HasNoEnds (throw e, s) s' child h = cc
    vfork_with-HasNoEnds (ok p, s) s' child h =
        let f = os.vfork s.world in
        let p' = (child_part fd report main flags p f.child).0.1 in
        let (a, b, c) =
          subst
            (λ (q : Pipes).
              (q.stdin.fds_1 ≡ minus_one)
              × (q.stdout.fds_0 ≡ minus_one)
              × (q.stderr.fds_0 ≡ minus_one))
            (child_part-close_parent_ends p f.child) (close_parent_ends_lem p f.child) in
        elim (Bool-cases (eqb f.pid minus_one)) [
          | inl e ↦ ground arith
          | inr e ↦
              let returned : (parent_part fd os f.pid p' f.parent).0 ≡ ok child =
                after_fork_parts f.pid p' (record s { world = f.parent }) s' child (ground arith) in
              (
                parent_part-HasParentEnds f.pid p' f.parent child returned,
                parent_part-HasNoEnds f.pid p' f.parent child a b c returned,
              )
        ]

    -- The ChildProcess that vfork returns in the parent has no stream: in the memory that the two
    -- share, the child has marked the parent's ends as closed.
    pub vfork-HasNoEnds :
        (s s' : Session W) (child : ChildProcess)
        → (vfork fd os report main flags s).parent ≡ returns (ok child) s'
        → HasParentEnds child.private × HasNoEnds child.private
    unfolding vfork
    vfork-HasNoEnds s s' child h = vfork_with-HasNoEnds (vfork_pipes fd s) s' child h
