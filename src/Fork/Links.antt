-- ===== src/Fork/Links.antt =====
-- The two processes that fork leaves, and the pipes between them.
use process_cpp.Prelude.{
  ℕ, ℤ, pos, minus_one, eqb, ◌≡◌, refl, sym, ap, subst, ◌∙◌, inl, inr, Bool-cases, Option, some,
  arith,
}
use process_cpp.Effect.{Effect, Result, Result-cases, Error, ok, throw, ◌>>=◌}
use process_cpp.Descriptors.{FdCalls, FdLaws, PlentyLaws}
use process_cpp.ProcessCalls.{ProcessCalls}
use process_cpp.StandardStream.{StandardStream}
use process_cpp.ChildProcess.{Pipes, ChildProcess}
use process_cpp.Session.{Session}
use process_cpp.Fork.{
  Ending, returns, exits, failure, is_child, close_parent_ends, redirect, exit_status, child_part,
  parent_part, after_fork, fork_pipes, fork_with, fork,
}
use process_cpp.Fork.Ends.{HasParentEnds, after_fork_parts, fork-HasParentEnds}
use process_cpp.Fork.Carrying.{IsFresh, Carries-Keeps}
use process_cpp.Fork.Invalid.{IsReady, Same}
use process_cpp.Fork.Making.{IsMade}
use process_cpp.Fork.Starting.{fork_pipes-IsMade}
use process_cpp.Fork.Linking.{
  ParentLinks, parent_part-ParentLinks, StreamLinks, ParentLinks-StreamLinks,
}
use process_cpp.Fork.Holding.{children, close_parent_ends-children}
use process_cpp.Fork.Serving.{
  StandardLinks, HasStandard, redirect-StandardLinks, AreSet, AreDistinct, IsMade-AreDistinct,
  redirect-IsMade,
}

module _ {W : Type 0} (fd : FdCalls W) (l : FdLaws fd) where
  open l use {table}

  -- Both processes have the descriptors that the caller of fork had.
  pub record ForkLaws (os : ProcessCalls W) : Type 0 where
    pub parent_table : (w : W) → Same fd l w (os.fork w).parent
    pub child_table : (w : W) → Same fd l w (os.fork w).child

  pub later-IsAdded :
      (k : ℕ) (w w' w'' : W) (q : _)
      → Same fd l w' w''
      → IsFresh fd l k w w' q
      → IsFresh fd l k w w'' q
  later-IsAdded k w w' w'' q same a = record {
    carries = Carries-Keeps fd l k w' w'' q (λ x f e. same x ∙ e) a.carries;
    keeps = λ x f e. same x ∙ a.keeps x f e;
    apart = a.apart;
    others = λ x b c. same x ∙ a.others x b c;
    unused = a.unused;
  }

  unfoldable pub later-IsMade :
      {flags : StandardStream} (w w' w'' : W) (p : Pipes)
      → Same fd l w' w''
      → IsMade fd l flags w w' p
      → IsMade fd l flags w w'' p
  later-IsMade w w' w'' p same m = record {
    k_in = m.k_in;
    k_out = m.k_out;
    k_err = m.k_err;
    w1 = m.w1;
    w2 = m.w2;
    stdin_IsAdded = m.stdin_IsAdded;
    stdout_IsAdded = m.stdout_IsAdded;
    stderr_IsAdded = later-IsAdded m.k_err m.w2 w' w'' p.stderr same m.stderr_IsAdded;
    stdin_Unset = m.stdin_Unset;
    stdout_Unset = m.stdout_Unset;
    stderr_Unset = m.stderr_Unset;
  }

  module _ (report : Error → W → W) (main : Effect W ℤ) (flags : StandardStream) where
    -- The child calls its main function with its standard streams at the pipes, and exits with what
    -- comes of it; or a redirection throws, which it reports, and it exits with EXIT_FAILURE.
    pub data Served (w : W) (i o e : ℕ) : Ending W → Type 0 where
      served :
          (v : W)
          → StandardLinks fd l flags w v i o e
          → Served w i o e
              (exits (exit_status fd report (main v)).0 (exit_status fd report (main v)).1)
      not_redirected :
          (x : Error) (q : Pipes) (u : W)
          → (redirect fd flags q u).0 ≡ throw x
          → Served w i o e (exits failure (report x (redirect fd flags q u).1))

    abbrev pub child_exits : ℤ × W → Ending W
    child_exits r = exits r.0 r.1

    pub finish-Served :
        (q : Pipes) (v w : W) (i o e : ℕ)
        → ((redirect fd flags q v).0 ≡ ok tt
            → StandardLinks fd l flags w (redirect fd flags q v).1 i o e)
        → Served w i o e
            (child_exits (exit_status fd report ((redirect fd flags q >>= λ _. main) v)))
    unfolding exit_status
    finish-Served q v w i o e links = elim (Result-cases (redirect fd flags q v).0) [
      | inl (tt, h) ↦ rw h (served (redirect fd flags q v).1 (links h))
      | inr (x, h) ↦ rw h (not_redirected x q v h)
    ]

    -- The child calls its main function with its standard streams at the pipes, and exits with what
    -- comes of it.
    pub record Runs (w : W) (i o e : ℕ) (ending : Ending W) : Type 0 where
      pub v : W
      pub links : StandardLinks fd l flags w v i o e
      pub exits_so :
          ending ≡ exits (exit_status fd report (main v)).0 (exit_status fd report (main v)).1

    pub finish_run :
        (q : Pipes) (v : W)
        → (redirect fd flags q v).0 ≡ ok tt
        → child_exits (exit_status fd report ((redirect fd flags q >>= λ _. main) v))
          ≡ child_exits (exit_status fd report (main (redirect fd flags q v).1))
    finish_run q v h = rw h refl

    module _ (os : ProcessCalls W) where
      after_fork-child :
          (p : Pipes) (s : Session W)
          → let (q, w1) = close_parent_ends fd p s.world in
            after_fork fd os report main flags (pos 0) p s
            ≡ child_exits (exit_status fd report ((redirect fd flags q >>= λ _. main) w1))
      unfolding after_fork is_child child_part
      after_fork-child p s = refl

      child-Served :
          (w w' : W) (p : Pipes) (s : Session W) (m : IsMade fd l flags w s.world p)
          → HasStandard fd l w
          → Served w m.k_in m.k_out m.k_err (after_fork fd os report main flags (pos 0) p s)
      child-Served w w' p s m standard =
          let w1 = (close_parent_ends fd p s.world).1 in
          let run =
            after_fork-child p s
            ∙ ap
                (λ (q : Pipes).
                  child_exits (exit_status fd report ((redirect fd flags q >>= λ _. main) w1)))
                (close_parent_ends-children fd l p s.world) in
          subst (Served w m.k_in m.k_out m.k_err) (sym run) (
            finish-Served (children fd l p) w1 w m.k_in m.k_out m.k_err
              (redirect-StandardLinks fd l flags w s.world p m standard))

      child-Runs :
          (y : PlentyLaws fd l) (w : W) (p : Pipes) (s : Session W)
          (m : IsMade fd l flags w s.world p)
          → AreSet fd l flags p
          → HasStandard fd l w
          → Runs w m.k_in m.k_out m.k_err (after_fork fd os report main flags (pos 0) p s)
      child-Runs y w p s m set standard =
          let w1 = (close_parent_ends fd p s.world).1 in
          let returned = redirect-IsMade fd l y flags w s.world p m set standard in
          record {
            v = (redirect fd flags (children fd l p) w1).1;
            links = redirect-StandardLinks fd l flags w s.world p m standard returned;
            exits_so =
                after_fork-child p s
                ∙ ap
                    (λ (q : Pipes).
                      child_exits (exit_status fd report ((redirect fd flags q >>= λ _. main) w1)))
                    (close_parent_ends-children fd l p s.world)
                ∙ finish_run (children fd l p) w1 returned;
          }

      pub after_fork_world :
          (pid : ℤ) (p : Pipes) (s s' : Session W) (c : ChildProcess)
          → after_fork fd os report main flags pid p s ≡ returns (ok c) s'
          → (parent_part fd os pid p s.world).1 ≡ s'.world
      unfolding after_fork
      after_fork_world pid p s s' c h = elim (Bool-cases (is_child pid)) [
        | inl e ↦ ground arith
        | inr e ↦ ground arith
      ]

      -- What a fork leaves that returned a ChildProcess, also where descriptors run out.
      pub record IsLinked (w : W) (s' : Session W) (c : ChildProcess) (child : Option (Ending W))
          : Type 0 where
        pub i : ℕ
        pub o : ℕ
        pub e : ℕ
        pub links : ParentLinks fd l flags s'.world c.private i o e
        pub ends : HasParentEnds c.private
        pub ending : Ending W
        pub is_ending : child ≡ some ending
        pub serves : Served w i o e ending
        pub distinct : PlentyLaws fd l → AreDistinct fd l flags i o e
        pub runs : PlentyLaws fd l → Runs w i o e ending

      made_AreSet :
          {w w' : W} (y : PlentyLaws fd l) (p : Pipes)
          → IsMade fd l flags w w' p
          → AreSet fd l flags p
      made_AreSet y p m = record {
        stdin = m.stdin_Unset.1 y;
        stdout = m.stdout_Unset.1 y;
        stderr = m.stderr_Unset.1 y;
      }

      fork_with-IsLinked :
          (laws : ForkLaws os) (w : W) (r : Result Pipes × Session W) (s' : Session W)
          (c : ChildProcess)
          → ((p : Pipes) → r.0 ≡ ok p → IsMade fd l flags w r.1.world p)
          → HasStandard fd l w
          → HasParentEnds c.private
          → (fork_with fd os report main flags r).parent ≡ returns (ok c) s'
          → IsLinked w s' c (fork_with fd os report main flags r).child
      unfolding fork_with later-IsMade
      fork_with-IsLinked laws w (throw x, s) s' c made standard ends h = cc
      fork_with-IsLinked laws w (ok p, s) s' c made standard ends h =
          let f = os.fork s.world in
          let m = made p refl in
          elim (Bool-cases (eqb f.pid minus_one)) [
            | inl e ↦ ground arith
            | inr e ↦
                let in_parent : Session W = record s { world = f.parent } in
                let in_child : Session W = record s { world = f.child } in
                let mp = later-IsMade w s.world f.parent p (laws.parent_table s.world) m in
                let mc = later-IsMade w s.world f.child p (laws.child_table s.world) m in
                let set = λ (y : PlentyLaws fd l). made_AreSet y p m in
                let returned : after_fork fd os report main flags f.pid p in_parent
                    ≡ returns (ok c) s' =
                  ground arith in
                let parts =
                  after_fork_parts fd os report main flags f.pid p in_parent s' c returned in
                record {
                  i = m.k_in;
                  o = m.k_out;
                  e = m.k_err;
                  links =
                      subst (λ (v : W). ParentLinks fd l flags v c.private m.k_in m.k_out m.k_err)
                        (after_fork_world f.pid p in_parent s' c returned)
                        (parent_part-ParentLinks fd l os f.pid p w f.parent c mp parts);
                  ends = ends;
                  ending = after_fork fd os report main flags (pos 0) p in_child;
                  is_ending = ground arith;
                  serves = child-Served w f.child p in_child mc standard;
                  distinct = λ y. IsMade-AreDistinct fd l y flags w s.world p m (set y);
                  runs = λ y. child-Runs y w p in_child mc (set y) standard;
                }
          ]

      pub fork-IsLinked :
          (laws : ForkLaws os) (s s' : Session W) (c : ChildProcess)
          → IsReady s
          → HasStandard fd l s.world
          → (fork fd os report main flags s).parent ≡ returns (ok c) s'
          → IsLinked s.world s' c (fork fd os report main flags s).child
      unfolding fork
      fork-IsLinked laws s s' c ready standard h =
          fork_with-IsLinked laws s.world (fork_pipes fd flags s) s' c
            (λ p made. fork_pipes-IsMade fd l flags s p ready made) standard
            (fork-HasParentEnds fd os report main flags s s' c h) h

      -- Three pipes, with the parent's streams over one end of each and the child's standard streams
      -- over the other.
      pub record IsConnected (w : W) (s' : Session W) (c : ChildProcess) (child : Option (Ending W))
          : Type 0 where
        pub i : ℕ
        pub o : ℕ
        pub e : ℕ
        pub distinct : AreDistinct fd l flags i o e
        pub links : StreamLinks fd l flags s'.world c.private i o e
        pub ends : HasParentEnds c.private
        pub ending : Ending W
        pub is_ending : child ≡ some ending
        pub runs : Runs w i o e ending

      -- Given the laws of the calls on descriptors, room for descriptors, and a fork after which both
      -- processes have the caller's: where a fork returns a ChildProcess and the caller had the
      -- descriptors 0 to 2 open, with the static pipe of Pipe::invalid not made or without descriptors,
      -- there is a pipe for each stream whose flag is set, and no two of them are the same. The
      -- ChildProcess has the parent's end of each open, under the descriptor of its stream, and a stream
      -- whose flag is not set is over no descriptor; it keeps no end that is the child's. The child
      -- runs its main function with each standard stream whose flag is set at the other end of its pipe
      -- and the others as they were, and exits with the result or, after an exception is reported, with
      -- EXIT_FAILURE.
      pub fork-IsConnected :
          (y : PlentyLaws fd l) (laws : ForkLaws os) (s s' : Session W) (c : ChildProcess)
          → IsReady s
          → HasStandard fd l s.world
          → (fork fd os report main flags s).parent ≡ returns (ok c) s'
          → IsConnected s.world s' c (fork fd os report main flags s).child
      fork-IsConnected y laws s s' c ready standard h =
          let k = fork-IsLinked laws s s' c ready standard h in
          record {
            i = k.i;
            o = k.o;
            e = k.e;
            distinct = k.distinct y;
            links = ParentLinks-StreamLinks fd l y s'.world c.private k.i k.o k.e k.links;
            ends = k.ends;
            ending = k.ending;
            is_ending = k.is_ending;
            runs = k.runs y;
          }
