-- ===== src/ChildProcess/Lifetime.antt =====
-- The private part of a ChildProcess from its constructor to its destructor, in
-- src/core/posix/child_process.cpp: what it opens and closes, and which signal it sends.
use process_cpp.Prelude.{ℤ, minus_one, eqb, ◌≡◌, ◌∙◌, not, ◌&&◌, List, ◌∷◌, if◌then◌else◌, arith}
use process_cpp.Descriptors.{FdCalls, FdLaws}
use process_cpp.Pipe.{Pipe, close_valid, dup_valid, copy, destroy}
use process_cpp.Pipe.Ownership.{table-destroy, table-destroy-copy}
use process_cpp.ProcessCalls.{ProcessCalls}
use process_cpp.ChildProcess.{Private, make_private, destroy_private}

module _ {W : Type 0} (fd : FdCalls W) (l : FdLaws fd) (os : ProcessCalls W) where
  open l use {table}

  -- kill(2) sends a signal and leaves the descriptors, and the calls on descriptors send none and leave
  -- the process the same.
  pub record KillLaws : Type 0 where
    -- The signals that the process has sent, with their targets, the last one first.
    pub sent : W → List (ℤ × ℤ)
    pub sent-kill :
        (pid signal : ℤ) (w : W) → sent (os.kill pid signal w).1 ≡ (pid, signal) ∷ sent w
    pub sent-close : (x : ℤ) (w : W) → sent (fd.close x w) ≡ sent w
    pub sent-dup : (x : ℤ) (w : W) → sent (fd.dup x w).1 ≡ sent w
    pub getpid-dup : (x : ℤ) (w : W) → os.getpid (fd.dup x w).1 ≡ os.getpid w
    pub table-kill : (pid signal x : ℤ) (w : W) → table (os.kill pid signal w).1 x ≡ table w x

  module _ (k : KillLaws) where
    open k use {sent}

    sent-destroy : (p : Pipe) (w : W) → sent (destroy fd p w) ≡ sent w
    unfolding destroy close_valid
    sent-destroy p w = ground (
      arith,
      k.sent-close p.fds_0 w,
      k.sent-close p.fds_1 w,
      k.sent-close p.fds_1 (fd.close p.fds_0 w),
    )

    sent-copy : (p : Pipe) (w : W) → sent (copy fd p w).1 ≡ sent w
    unfolding copy dup_valid
    sent-copy p w =
        ground (
          arith,
          k.sent-dup p.fds_0 w,
          k.sent-dup p.fds_1 w,
          k.sent-dup p.fds_1 (fd.dup p.fds_0 w).1,
        )

    getpid-copy : (p : Pipe) (w : W) → os.getpid (copy fd p w).1 ≡ os.getpid w
    unfolding copy dup_valid
    getpid-copy p w = ground (
      arith,
      k.getpid-dup p.fds_0 w,
      k.getpid-dup p.fds_1 w,
      k.getpid-dup p.fds_1 (fd.dup p.fds_0 w).1,
    )

    pub destroy_same :
        (p : Pipe) (w w' : W)
        → ((y : ℤ) → table w' y ≡ table w y)
        → (x : ℤ) → table (destroy fd p w') x ≡ table (destroy fd p w) x
    destroy_same p w w' same x =
        ground (arith, same x, table-destroy fd l p w x, table-destroy fd l p w' x)

    pub sent-destroy_private :
        (sigkill : ℤ) (d : Private) (w : W)
        → sent (destroy_private fd os sigkill d w) ≡ (
            if eqb d.original_parent_pid (os.getpid w) && not (eqb d.original_child_pid minus_one)
            then (d.original_child_pid, sigkill) ∷ sent w
            else sent w)
    unfolding destroy_private
    sent-destroy_private sigkill d w =
        let killed =
          (if eqb d.original_parent_pid (os.getpid w)
            then if eqb d.original_child_pid minus_one
              then w
              else (os.kill d.original_child_pid sigkill w).1
            else w) in
        let w1 = destroy fd d.pipes.stderr killed in
        let w2 = destroy fd d.pipes.stdout w1 in
        ground (
          arith,
          sent-destroy d.pipes.stdin w2,
          sent-destroy d.pipes.stdout w1,
          sent-destroy d.pipes.stderr killed,
          k.sent-kill d.original_child_pid sigkill w,
        )

    pub table-destroy_private :
        (sigkill : ℤ) (d : Private) (w : W) (x : ℤ)
        → table (destroy_private fd os sigkill d w) x
          ≡ table
              (destroy fd d.pipes.stdin (destroy fd d.pipes.stdout (destroy fd d.pipes.stderr w)))
              x
    unfolding destroy_private
    table-destroy_private sigkill d w x =
        let killed =
          (if eqb d.original_parent_pid (os.getpid w)
            then if eqb d.original_child_pid minus_one
              then w
              else (os.kill d.original_child_pid sigkill w).1
            else w) in
        let same : (y : ℤ) → table killed y ≡ table w y =
          λ y. ground (arith, k.table-kill d.original_child_pid sigkill y w) in
        let w1 = destroy fd d.pipes.stderr w in
        destroy_same d.pipes.stdin (destroy fd d.pipes.stdout w1) _
          (destroy_same d.pipes.stdout w1 _ (destroy_same d.pipes.stderr w killed same)) x

    -- Pipes that are copied one after the other and destroyed in the reverse order.
    table-destroy_copies :
        (a b c : Pipe) (w w' : W) (x : ℤ)
        → let (q1, w1) = copy fd a w in
          let (q2, w2) = copy fd b w1 in
          let (q3, w3) = copy fd c w2 in
          ((y : ℤ) → table w' y ≡ table w3 y)
          → table (destroy fd q1 (destroy fd q2 (destroy fd q3 w'))) x ≡ table w x
    table-destroy_copies a b c w w' x same =
        let (q1, w1) = copy fd a w in
        let (q2, w2) = copy fd b w1 in
        let (q3, w3) = copy fd c w2 in
        let third : (y : ℤ) → table (destroy fd q3 w') y ≡ table w2 y =
          λ y. destroy_same q3 w3 w' same y ∙ table-destroy-copy fd l c w2 y in
        let second : (y : ℤ) → table (destroy fd q2 (destroy fd q3 w')) y ≡ table w1 y =
          λ y. destroy_same q2 w2 _ third y ∙ table-destroy-copy fd l b w1 y in
        destroy_same q1 w1 _ second x ∙ table-destroy-copy fd l a w x

    -- Given the laws of the calls on descriptors and of kill: a private part that is made in one world
    -- and destroyed in another, where the descriptors are those that its constructor left, gives back every descriptor that it took, whichever calls of dup
    -- failed; and SIGKILL is sent to the child, and to it alone, exactly if the process that destroys it
    -- is the one that made it and the child's pid is not -1.
    pub destroy_private-make_private :
        (sigkill pid : ℤ) (a b c : Pipe) (w w' : W)
        → ((y : ℤ) → table w' y ≡ table (make_private fd os pid a b c w).1 y)
        → let d = (make_private fd os pid a b c w).0 in
          ((x : ℤ) → table (destroy_private fd os sigkill d w') x ≡ table w x)
          × (sent (destroy_private fd os sigkill d w') ≡ (
              if eqb (os.getpid w) (os.getpid w') && not (eqb pid minus_one)
              then (pid, sigkill) ∷ sent w'
              else sent w'))
    unfolding make_private
    destroy_private-make_private sigkill pid a b c w w' same =
        let d = (make_private fd os pid a b c w).0 in
        let w1 = (copy fd a w).1 in
        let w2 = (copy fd b w1).1 in
        (
          λ x. table-destroy_private sigkill d w' x ∙ table-destroy_copies a b c w w' x same,
          ground (
            arith,
            sent-destroy_private sigkill d w',
            getpid-copy a w,
            getpid-copy b w1,
            getpid-copy c w2,
          ),
        )
