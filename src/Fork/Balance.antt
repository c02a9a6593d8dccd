-- ===== src/Fork/Balance.antt =====
-- The descriptors of the caller of fork: none is lost where fork throws, and none once the
-- ChildProcess has gone.
use process_cpp.Prelude.{ℤ, minus_one, eqb, ◌≡◌, refl, sym, ap, ◌∙◌, inl, inr, Bool-cases, arith}
use process_cpp.Effect.{Effect, Result, Result-cases, Error, ok, throw}
use process_cpp.Descriptors.{FdCalls, FdLaws}
use process_cpp.Pipe.{Pipe}
use process_cpp.ProcessCalls.{ProcessCalls}
use process_cpp.Process.{make_process}
use process_cpp.StandardStream.{StandardStream}
use process_cpp.ChildProcess.{Pipes, ChildProcess, make_child, destroy_private}
use process_cpp.ChildProcess.Lifetime.{KillLaws, table-destroy_private}
use process_cpp.Session.{Session}
use process_cpp.Fork.{
  returns, is_child, close_child_ends, destroy_pipes, parent_part, after_fork, fork_pipes,
  fork_with, fork,
}
use process_cpp.Fork.Ends.{after_fork_parts}
use process_cpp.Fork.Invalid.{IsReady, Same}
use process_cpp.Fork.Making.{IsMade}
use process_cpp.Fork.Starting.{fork_pipes-IsMade}
use process_cpp.Fork.Links.{ForkLaws, later-IsMade, after_fork_world}
use process_cpp.Fork.Linking.{table-destroy_pipes, parent_part-parents}
use process_cpp.Fork.Releasing.{parent_part-released, all_ends, undo_IsMade}
use process_cpp.Fork.Restoring.{Restores, fork_pipes-Restores}
use process_cpp.Fork.Keeping.{parents}

module _ {W : Type 0} (fd : FdCalls W) (l : FdLaws fd) (os : ProcessCalls W)
    (laws : ForkLaws fd l os) (report : Error → W → W) (main : Effect W ℤ)
    (flags : StandardStream) where
  open l use {table}

  fork_with-released :
      (w : W) (r : Result Pipes × Session W) (s' : Session W) (c : ChildProcess) (x : ℤ)
      → ((p : Pipes) → r.0 ≡ ok p → IsMade fd l flags w r.1.world p)
      → (fork_with fd os report main flags r).parent ≡ returns (ok c) s'
      → table (destroy_pipes fd c.private.pipes s'.world) x ≡ table w x
  unfolding fork_with later-IsMade
  fork_with-released w (throw x, s) s' c y made h = cc
  fork_with-released w (ok p, s) s' c y made h =
      let f = os.fork s.world in
      elim (Bool-cases (eqb f.pid minus_one)) [
        | inl e ↦ ground arith
        | inr e ↦
            let in_parent : Session W = record s { world = f.parent } in
            let m =
              later-IsMade fd l w s.world f.parent p (laws.parent_table s.world) (made p refl) in
            let returned : after_fork fd os report main flags f.pid p in_parent
                ≡ returns (ok c) s' =
              ground arith in
            let parts = after_fork_parts fd os report main flags f.pid p in_parent s' c returned in
            ap (λ (v : W). table (destroy_pipes fd c.private.pipes v) y)
              (sym (after_fork_world fd l report main flags os f.pid p in_parent s' c returned))
            ∙ parent_part-released fd l os f.pid p w f.parent c y m parts
      ]

  destroy_pipes-Same :
      (p : Pipes) (w w' : W)
      → Same fd l w w'
      → (x : ℤ) → table (destroy_pipes fd p w') x ≡ table (destroy_pipes fd p w) x
  destroy_pipes-Same p w w' same x =
      ground (arith, same x, table-destroy_pipes fd l p w x, table-destroy_pipes fd l p w' x)

  -- Given the laws of the calls on descriptors, of fork and of kill: where fork returns a ChildProcess,
  -- with the static pipe of Pipe::invalid not made or without descriptors before, and the ChildProcess
  -- is destroyed in a world with the descriptors that fork has left, each descriptor is what it was
  -- before the call of fork: of the pipes that were made, their copies and the ends of the child
  -- nothing stays open in the parent.
  pub fork-released :
      (k : KillLaws fd l os) (sigkill : ℤ) (s s' : Session W) (c : ChildProcess) (w : W)
      → IsReady s
      → (fork fd os report main flags s).parent ≡ returns (ok c) s'
      → ((y : ℤ) → table w y ≡ table s'.world y)
      → (x : ℤ) → table (destroy_private fd os sigkill c.private w) x ≡ table s.world x
  unfolding fork
  fork-released k sigkill s s' c w ready h same x =
      let p = c.private.pipes in
      table-destroy_private fd l os k sigkill c.private w x
      ∙ destroy_pipes-Same p s'.world w same x
      ∙ fork_with-released s.world (fork_pipes fd flags s) s' c x
          (λ p made. fork_pipes-IsMade fd l flags s p ready made) h

  after_fork_returns :
      (pid : ℤ) (p : Pipes) (s s' : Session W) (x : Error)
      → after_fork fd os report main flags pid p s ≡ returns (throw x) s'
      → ((parent_part fd os pid p s.world).0 ≡ throw x)
        × ((parent_part fd os pid p s.world).1 ≡ s'.world)
  unfolding after_fork
  after_fork_returns pid p s s' x h = elim (Bool-cases (is_child pid)) [
    | inl e ↦ ground arith
    | inr e ↦ ground arith
  ]

  make_child_failed :
      (pid : ℤ) (a b c : Pipe) (w : W) (x : Error)
      → (make_child fd os pid a b c w).0 ≡ throw x
      → (make_child fd os pid a b c w).1 ≡ w
  unfolding make_child
  make_child_failed pid a b c w x h = elim (Result-cases (make_process pid)) [
    | inl (pr, e) ↦ ground arith
    | inr (z, e) ↦ ground arith
  ]

  parent_part-restored :
      (pid : ℤ) (p : Pipes) (w w' : W) (x : Error)
      → IsMade fd l flags w w' p
      → (parent_part fd os pid p w').0 ≡ throw x
      → Same fd l w (parent_part fd os pid p w').1
  parent_part-restored pid p w w' x m h y =
      let q = parents fd l p in
      let w4 = (close_child_ends fd p w').1 in
      let run = parent_part-parents fd l os pid p w' in
      let failed =
        make_child_failed pid q.stdin q.stdout q.stderr w4 x
          (sym (ap (λ (r : Result ChildProcess × W). r.0) run) ∙ h) in
      ap (λ (r : Result ChildProcess × W). table r.1 y) run
      ∙ ap (λ (v : W). table (destroy_pipes fd q v) y) failed
      ∙ all_ends fd l os p w' y
      ∙ undo_IsMade fd l os w w' p y m

  fork_with-restored :
      (w : W) (r : Result Pipes × Session W) (s' : Session W) (x : Error)
      → ((p : Pipes) → r.0 ≡ ok p → IsMade fd l flags w r.1.world p)
      → Restores fd l w r
      → (fork_with fd os report main flags r).parent ≡ returns (throw x) s'
      → Same fd l w s'.world
  unfolding fork_with later-IsMade
  fork_with-restored w (throw z, s) s' x made restored h = λ y.
      let same : s ≡ s' = cc in
      ap (λ (t : Session W). table t.world y) (sym same) ∙ restored z refl y
  fork_with-restored w (ok p, s) s' x made restored h =
      let f = os.fork s.world in
      let m = later-IsMade fd l w s.world f.parent p (laws.parent_table s.world) (made p refl) in
      elim (Bool-cases (eqb f.pid minus_one)) [
        | inl e ↦ λ y.
            let world : destroy_pipes fd p f.parent ≡ s'.world = ground arith in
            ap (λ (v : W). table v y) (sym world) ∙ undo_IsMade fd l os w f.parent p y m
        | inr e ↦
            let in_parent : Session W = record s { world = f.parent } in
            let returned : after_fork fd os report main flags f.pid p in_parent
                ≡ returns (throw x) s' =
              ground arith in
            let (failed, after) = after_fork_returns f.pid p in_parent s' x returned in
            λ y.
              ap (λ (v : W). table v y) (sym after)
              ∙ parent_part-restored f.pid p w f.parent x m failed y
      ]

  -- Given the laws of the calls on descriptors and of fork: where fork throws, whether a pipe could not
  -- be made, the process could not be forked or the ChildProcess could not be made, with the static
  -- pipe of Pipe::invalid not made or without descriptors before, each descriptor of the caller is
  -- what it was before the call.
  pub fork-restored :
      (s s' : Session W) (x : Error)
      → IsReady s
      → (fork fd os report main flags s).parent ≡ returns (throw x) s'
      → (y : ℤ) → table s'.world y ≡ table s.world y
  unfolding fork
  fork-restored s s' x ready h =
      fork_with-restored s.world (fork_pipes fd flags s) s' x
        (λ p made. fork_pipes-IsMade fd l flags s p ready made)
        (fork_pipes-Restores fd l flags s ready) h
