-- ===== src/Fork/Leaking.antt =====
-- The two processes that vfork leaves: the child has its pipes, and the parent leaks its ends.
use process_cpp.Prelude.{
  ℕ, ℤ, minus_one, eqb, ◌≡◌, ◌≢◌, refl, sym, ap, subst, ◌∙◌, inl, inr, Bool-cases, Option, none,
  some, arith,
}
use process_cpp.Effect.{Effect, Result, Error, ok, throw, ◌>>=◌}
use process_cpp.Descriptors.{FdCalls, FdLaws, PlentyLaws, File, reader, writer}
use process_cpp.ProcessCalls.{ProcessCalls}
use process_cpp.StandardStream.{StandardStream, has}
use process_cpp.ChildProcess.{Pipes, ChildProcess}
use process_cpp.Session.{Session}
use process_cpp.Fork.{
  Ending, returns, exits, close_parent_ends, redirect, exit_status, child_part, parent_part,
  after_fork, vfork_pipes, vfork_with, vfork,
}
use process_cpp.Fork.Ends.{HasParentEnds, HasNoEnds, vfork-HasNoEnds}
use process_cpp.Fork.Making.{IsMade}
use process_cpp.Fork.Holding.{children, close_parent_ends-children}
use process_cpp.Fork.Serving.{
  HasStandard, redirect-StandardLinks, AreSet, IsMade-AreDistinct, redirect-IsMade,
}
use process_cpp.Fork.Links.{Runs, child_exits, finish_run, later-IsMade, after_fork_world}
use process_cpp.Fork.Sharing.{every_stream, AreOpened, vfork_pipes-IsMade}
use process_cpp.Fork.Severing.{
  VforkLaws, IsParentEnd, stdin-IsParentEnd, stdout-IsParentEnd, stderr-IsParentEnd,
  table-parent_part,
}

module _ {W : Type 0} (fd : FdCalls W) (l : FdLaws fd) (report : Error → W → W) (main : Effect W ℤ)
    (flags : StandardStream) where
  open l use {table}

  child_part-children :
      (p : Pipes) (w : W) → (child_part fd report main flags p w).0.1 ≡ children fd l p
  unfolding child_part
  child_part-children p w = close_parent_ends-children fd l p w

  child_part-exits :
      (p : Pipes) (w : W)
      → let ((status, _), v) = child_part fd report main flags p w in
        let w1 = (close_parent_ends fd p w).1 in
        Ending.exits status v
        ≡ child_exits fd l report main flags
            (exit_status fd report ((redirect fd flags (children fd l p) >>= λ _. main) w1))
  unfolding child_part
  child_part-exits p w =
      let w1 = (close_parent_ends fd p w).1 in
      ap
        (λ (q : Pipes).
          child_exits fd l report main flags
            (exit_status fd report ((redirect fd flags q >>= λ _. main) w1)))
        (close_parent_ends-children fd l p w)

  child_part-Runs :
      (y : PlentyLaws fd l) {made : StandardStream} (w w' : W) (p : Pipes)
      (m : IsMade fd l made w w' p)
      → AreSet fd l flags p
      → HasStandard fd l w
      → let ((status, _), v) = child_part fd report main flags p w' in
        Runs fd l report main flags w m.k_in m.k_out m.k_err (Ending.exits status v)
  child_part-Runs y {made} w w' p m set standard =
      let w1 = (close_parent_ends fd p w').1 in
      let returned = redirect-IsMade fd l y flags {made = made} w w' p m set standard in
      record {
        v = (redirect fd flags (children fd l p) w1).1;
        links = redirect-StandardLinks fd l flags {made = made} w w' p m standard returned;
        exits_so =
            child_part-exits p w' ∙ finish_run fd l report main flags (children fd l p) w1 returned;
      }

  opened_AreSet : {set : StandardStream} (p : Pipes) → AreOpened fd l p → AreSet fd l set p
  opened_AreSet p opened = record {
    stdin = λ set. opened.stdin;
    stdout = λ set. opened.stdout;
    stderr = λ set. opened.stderr;
  }

  -- A descriptor that a new world has and the one before did not.
  abbrev pub IsNewlyOpen : W → W → ℤ → File → Type 0
  IsNewlyOpen w w' x f = (table w x ≡ none) × (table w' x ≡ some f)

  module _ (os : ProcessCalls W) where
    -- What a vfork leaves that returned a ChildProcess.
    pub record IsLeaked (w : W) (s' : Session W) (c : ChildProcess) (child : Option (Ending W))
        : Type 0 where
      pub i : ℕ
      pub o : ℕ
      pub e : ℕ
      pub in_end : ℤ
      pub out_end : ℤ
      pub err_end : ℤ
      pub in_open : IsNewlyOpen w s'.world in_end (writer i)
      pub out_open : IsNewlyOpen w s'.world out_end (reader o)
      pub err_open : IsNewlyOpen w s'.world err_end (reader e)
      pub no_ends : HasParentEnds c.private × HasNoEnds c.private
      pub ending : Ending W
      pub is_ending : child ≡ some ending
      pub distinct : (i ≢ o) × (i ≢ e) × (o ≢ e)
      pub runs : Runs fd l report main flags w i o e ending

    parent_end-IsNewlyOpen :
        (pid : ℤ) (p : Pipes) (w w' : W) (x : ℤ) (f : File)
        → IsParentEnd fd l os w w' p x f
        → IsNewlyOpen w (parent_part fd os pid (children fd l p) w').1 x f
    parent_end-IsNewlyOpen pid p w w' x f k = (
      k.is_new,
      table-parent_part fd l os pid p w' x k.valid k.not_stdin k.not_stdout k.not_stderr
          ∙ k.is_open,
    )

    vfork_with-IsLeaked :
        (y : PlentyLaws fd l) (laws : VforkLaws fd l os) (w : W) (r : Result Pipes × Session W)
        (s' : Session W) (c : ChildProcess)
        → ((p : Pipes) → r.0 ≡ ok p → IsMade fd l every_stream w r.1.world p × AreOpened fd l p)
        → HasStandard fd l w
        → HasParentEnds c.private × HasNoEnds c.private
        → (vfork_with fd os report main flags r).parent ≡ returns (ok c) s'
        → IsLeaked w s' c (vfork_with fd os report main flags r).child
    unfolding vfork_with later-IsMade has
    vfork_with-IsLeaked y laws w (throw x, s) s' c made standard none_left h = cc
    vfork_with-IsLeaked y laws w (ok p, s) s' c made standard none_left h =
        let f = os.vfork s.world in
        let (m, opened) = made p refl in
        let q = (child_part fd report main flags p f.child).0.1 in
        elim (Bool-cases (eqb f.pid minus_one)) [
          | inl e ↦ ground arith
          | inr e ↦
              let in_parent : Session W = record s { world = f.parent } in
              let mp = later-IsMade fd l w s.world f.parent p (laws.parent_table s.world) m in
              let mc = later-IsMade fd l w s.world f.child p (laws.child_table s.world) m in
              let returned : after_fork fd os report main flags f.pid q in_parent
                  ≡ returns (ok c) s' =
                ground arith in
              let after : (parent_part fd os f.pid (children fd l p) f.parent).1 ≡ s'.world =
                ap (λ (q : Pipes). (parent_part fd os f.pid q f.parent).1)
                  (sym (child_part-children p f.child))
                ∙ after_fork_world fd l report main flags os f.pid q in_parent s' c returned in
              let at = λ (x : ℤ) (g : File) (k : IsParentEnd fd l os w f.parent p x g).
                subst (λ (v : W). IsNewlyOpen w v x g) after
                  (parent_end-IsNewlyOpen f.pid p w f.parent x g k) in
              let different =
                IsMade-AreDistinct fd l y every_stream w s.world p m (opened_AreSet p opened) in
              let ((status, _), v) = child_part fd report main flags p f.child in
              record {
                i = m.k_in;
                o = m.k_out;
                e = m.k_err;
                in_end = p.stdin.fds_1;
                out_end = p.stdout.fds_0;
                err_end = p.stderr.fds_0;
                in_open =
                    at p.stdin.fds_1 (writer m.k_in)
                      (stdin-IsParentEnd fd l os w f.parent p mp opened);
                out_open =
                    at p.stdout.fds_0 (reader m.k_out)
                      (stdout-IsParentEnd fd l os w f.parent p mp opened);
                err_open =
                    at p.stderr.fds_0 (reader m.k_err)
                      (stderr-IsParentEnd fd l os w f.parent p mp opened);
                no_ends = none_left;
                ending = exits status v;
                is_ending = ground arith;
                distinct = (
                  different.in_out refl refl,
                  different.in_err refl refl,
                  different.out_err refl refl,
                );
                runs = child_part-Runs y w f.child p mc (opened_AreSet p opened) standard;
              }
        ]

    -- Given the laws of the calls on descriptors, room for descriptors, and a vfork after which both
    -- processes have the caller's: where vfork returns a ChildProcess and the caller had the descriptors 0
    -- to 2 open, there are three different pipes, whatever the flags are. The child runs its main
    -- function with each standard stream whose flag is set at its end of its pipe and the others as
    -- they were, and exits with the result or, after an exception is reported, with EXIT_FAILURE. The
    -- parent still has its ends of the three open, at descriptors that the caller did not have; but the
    -- ChildProcess keeps none of them, and all of its streams are over no descriptor.
    pub vfork-IsLeaked :
        (y : PlentyLaws fd l) (laws : VforkLaws fd l os) (s s' : Session W) (c : ChildProcess)
        → HasStandard fd l s.world
        → (vfork fd os report main flags s).parent ≡ returns (ok c) s'
        → IsLeaked s.world s' c (vfork fd os report main flags s).child
    unfolding vfork
    vfork-IsLeaked y laws s s' c standard h =
        vfork_with-IsLeaked y laws s.world (vfork_pipes fd s) s' c
          (λ p made. vfork_pipes-IsMade fd l s p made) standard
          (vfork-HasNoEnds fd os report main flags s s' c h) h
