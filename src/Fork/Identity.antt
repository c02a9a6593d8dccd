-- ===== src/Fork/Identity.antt =====
-- Fork leaves the caller the process that it was: no call on the way changes its pid.
use process_cpp.Prelude.{
  ℤ, minus_one, eqb, ◌≡◌, refl, sym, ap, ◌∙◌, inl, inr, Bool-cases, false, arith,
}
use process_cpp.Effect.{Effect, Result, Result-cases, Error, ok, throw, system_error}
use process_cpp.Descriptors.{FdCalls}
use process_cpp.Pipe.{Pipe, copy, close_read_fd, close_write_fd}
use process_cpp.ProcessCalls.{ProcessCalls}
use process_cpp.StandardStream.{StandardStream}
use process_cpp.Process.{make_process}
use process_cpp.ChildProcess.{Pipes, Private, ChildProcess, make_private, make_child}
use process_cpp.Session.{Session}
use process_cpp.Fork.Ends.{make_child-make_private, after_fork_parts}
use process_cpp.Fork.{
  destroy_pipes, fork_pipes, close_child_ends, parent_part, returns, is_child, after_fork,
  fork_with, fork,
}
use process_cpp.Fork.Pids.{
  IdentityLaws, getpid-copy, getpid-close_read_fd, getpid-close_write_fd, getpid-destroy_pipes,
  fork_pipes-KeepsPid,
}

module _ {W : Type 0} (fd : FdCalls W) (os : ProcessCalls W) (k : IdentityLaws fd os) where
  getpid-close_child_ends :
      (p : Pipes) (w : W) → os.getpid (close_child_ends fd p w).1 ≡ os.getpid w
  unfolding close_child_ends
  getpid-close_child_ends p w =
      let w1 = (close_read_fd fd p.stdin w).1 in
      let w2 = (close_write_fd fd p.stdout w1).1 in
      getpid-close_write_fd fd os k p.stderr w2
      ∙ getpid-close_write_fd fd os k p.stdout w1
      ∙ getpid-close_read_fd fd os k p.stdin w

  getpid-make_private :
      (pid : ℤ) (a b c : Pipe) (w : W) → os.getpid (make_private fd os pid a b c w).1 ≡ os.getpid w
  unfolding make_private
  getpid-make_private pid a b c w =
      let w1 = (copy fd a w).1 in
      let w2 = (copy fd b w1).1 in
      getpid-copy fd os k c w2 ∙ getpid-copy fd os k b w1 ∙ getpid-copy fd os k a w

  -- What the destructor of the ChildProcess will go by.
  pub record Owns (w : W) (pid : ℤ) (c : ChildProcess) : Type 0 where
    pub parent_pid : c.private.original_parent_pid ≡ os.getpid w
    pub child_pid : c.private.original_child_pid ≡ pid

  make_child-Owns :
      (pid : ℤ) (a b c : Pipe) (w : W) (child : ChildProcess)
      → (make_child fd os pid a b c w).0 ≡ ok child
      → Owns w pid child
  unfolding make_private
  make_child-Owns pid a b c w child h =
      let w1 = (copy fd a w).1 in
      let w2 = (copy fd b w1).1 in
      let same : os.getpid (copy fd c w2).1 ≡ os.getpid w =
        getpid-copy fd os k c w2 ∙ getpid-copy fd os k b w1 ∙ getpid-copy fd os k a w in
      let d = make_child-make_private fd os pid a b c w child h in
      record {
        parent_pid = ap (λ (d : Private). d.original_parent_pid) (sym d) ∙ same;
        child_pid = ap (λ (d : Private). d.original_child_pid) (sym d);
      }

  getpid-make_child :
      (pid : ℤ) (a b c : Pipe) (w : W) → os.getpid (make_child fd os pid a b c w).1 ≡ os.getpid w
  unfolding make_child
  getpid-make_child pid a b c w = elim (Result-cases (make_process pid)) [
    | inl (p, e) ↦ rw (e, make_child) (getpid-make_private pid a b c w)
    | inr (x, e) ↦ rw (e, make_child) refl
  ]

  pub getpid-parent_part :
      (pid : ℤ) (p : Pipes) (w : W) → os.getpid (parent_part fd os pid p w).1 ≡ os.getpid w
  unfolding parent_part
  getpid-parent_part pid p w =
      let (q, w1) = close_child_ends fd p w in
      getpid-destroy_pipes fd os k q _
      ∙ getpid-make_child pid q.stdin q.stdout q.stderr w1
      ∙ getpid-close_child_ends p w

  parent_part-Owns :
      (pid : ℤ) (p : Pipes) (w : W) (c : ChildProcess)
      → (parent_part fd os pid p w).0 ≡ ok c
      → Owns w pid c
  unfolding parent_part
  parent_part-Owns pid p w c h =
      let (q, w1) = close_child_ends fd p w in
      let o = make_child-Owns pid q.stdin q.stdout q.stderr w1 c h in
      record { parent_pid = o.parent_pid ∙ getpid-close_child_ends p w; child_pid = o.child_pid }

  module _ (report : Error → W → W) (main : Effect W ℤ) (flags : StandardStream) where
    after_fork-KeepsPid :
        (pid : ℤ) (p : Pipes) (s s' : Session W) (r : Result ChildProcess)
        → after_fork fd os report main flags pid p s ≡ returns r s'
        → os.getpid s'.world ≡ os.getpid s.world
    unfolding after_fork
    after_fork-KeepsPid pid p s s' r h = elim (Bool-cases (is_child pid)) [
      | inl e ↦ ground arith
      | inr e ↦ ground (arith, getpid-parent_part pid p s.world)
    ]

    -- A fork that comes back to its caller, by a result or by an exception: it is the same process
    -- and, where there is a ChildProcess, that is of this process and of a child.
    pub record CameBack (s s' : Session W) (r : Result ChildProcess) : Type 0 where
      pub same_pid : os.getpid s'.world ≡ os.getpid s.world
      pub owns :
          (c : ChildProcess)
          → r ≡ ok c
          → (pid : ℤ) × (eqb pid minus_one ≡ false) × Owns s'.world pid c

    fork_with-CameBack :
        (r : Result Pipes × Session W) (s' : Session W) (c : Result ChildProcess)
        → (fork_with fd os report main flags r).parent ≡ returns c s'
        → CameBack r.1 s' c
    unfolding fork_with
    fork_with-CameBack (throw x, s) s' c h =
        let same : s ≡ s' = cc in
        let failed : throw x ≡ c = cc in
        record {
          same_pid = ap (λ (t : Session W). os.getpid t.world) (sym same);
          owns = λ c' e. cc;
        }
    fork_with-CameBack (ok p, s) s' c h =
        let f = os.fork s.world in
        elim (Bool-cases (eqb f.pid minus_one)) [
          | inl e ↦
              let failed : returns (throw (system_error (os.errno f.parent)))
                    (record s { world = destroy_pipes fd p f.parent })
                  ≡ returns c s' =
                ground arith in
              let same : destroy_pipes fd p f.parent ≡ s'.world = cc in
              let thrown : throw (system_error (os.errno f.parent)) ≡ c = cc in
              record {
                same_pid =
                    ap os.getpid (sym same)
                    ∙ getpid-destroy_pipes fd os k p f.parent
                    ∙ k.getpid-fork s.world;
                owns = λ c' e. cc;
              }
          | inr e ↦
              let in_parent : Session W = record s { world = f.parent } in
              let returned : after_fork fd os report main flags f.pid p in_parent ≡ returns c s' =
                ground arith in
              let same = after_fork-KeepsPid f.pid p in_parent s' c returned in
              record {
                same_pid = same ∙ k.getpid-fork s.world;
                owns = λ c' is_ok.
                    let parts =
                      after_fork_parts fd os report main flags f.pid p in_parent s' c'
                        (returned ∙ ap (λ (r : Result ChildProcess). returns r s') is_ok) in
                    let o = parent_part-Owns f.pid p f.parent c' parts in
                    (
                      f.pid,
                      e,
                      record { parent_pid = o.parent_pid ∙ sym same; child_pid = o.child_pid },
                    );
              }
        ]

    pub fork-CameBack :
        (s s' : Session W) (c : Result ChildProcess)
        → (fork fd os report main flags s).parent ≡ returns c s'
        → CameBack s s' c
    unfolding fork
    fork-CameBack s s' c h =
        let b = fork_with-CameBack (fork_pipes fd flags s) s' c h in
        record { same_pid = b.same_pid ∙ fork_pipes-KeepsPid fd os k flags s; owns = b.owns }
