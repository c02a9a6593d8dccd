-- ===== src/Fork/Starting.antt =====
-- The pipes of fork from its first call of Pipe::invalid on.
use process_cpp.Fork.Invalid.{bind_ok, IsReady, Same, scope_ok, IsInvalid, get_invalid-IsInvalid}
use process_cpp.Prelude.{◌≡◌, refl, sym, ap, subst, ◌∙◌, inr}
use process_cpp.Effect.{Effect, Result, ok, ◌>>=◌}
use process_cpp.Descriptors.{FdCalls, FdLaws}
use process_cpp.Pipe.{Pipe, closed_pipe}
use process_cpp.StandardStream.{StandardStream}
use process_cpp.ChildProcess.{Pipes}
use process_cpp.Session.{Session, get_invalid, in_scope}
use process_cpp.Fork.{fork_pipes}
use process_cpp.Fork.Parts.{make_in, fork_pipes-make_in}
use process_cpp.Fork.Making.{IsMade, make_in-IsMade, earlier-IsMade}

module _ {W : Type 0} (fd : FdCalls W) (l : FdLaws fd) where
  -- One of the three calls of Pipe::invalid, and what comes after it.
  invalid_stage :
      (m : Effect (Session W) Pipe) (K : Pipe → Effect (Session W) Pipes) (s : Session W)
      (p : Pipes)
      → IsReady s
      → ((q : Pipe) → (m s).0 ≡ ok q → m s ≡ get_invalid fd s)
      → ((m >>= K) s).0 ≡ ok p
      → (s' : Session W) × IsReady s'
        × Same fd l s.world s'.world
        × ((m >>= K) s ≡ K closed_pipe s')
  invalid_stage m K s p ready agrees h =
      let (q, e, f) = bind_ok m K s p h in
      let g = agrees q e in
      let made : IsInvalid fd l s (get_invalid fd s).1 q =
        get_invalid-IsInvalid fd l s q ready cc in
      (
        (get_invalid fd s).1,
        inr made.is_ready,
        made.same,
        f
            ∙ ap (λ (r : Result Pipe × Session W). K q r.1) g
            ∙ ap (λ (q : Pipe). K q (get_invalid fd s).1) made.is_closed,
      )

  -- The pipes of a fork that makes them.
  pub fork_pipes-IsMade :
      (flags : StandardStream) (s : Session W) (p : Pipes)
      → IsReady s
      → (fork_pipes fd flags s).0 ≡ ok p
      → IsMade fd l flags s.world (fork_pipes fd flags s).1.world p
  fork_pipes-IsMade flags s p ready h =
      let invalid = get_invalid fd in
      let K1 : Pipe → Effect (Session W) Pipes = λ a. in_scope fd a invalid >>= λ b.
      in_scope fd a (in_scope fd b invalid) >>= λ c. make_in fd flags a b c in
      let K2 : Pipe → Effect (Session W) Pipes = λ b.
        in_scope fd closed_pipe (in_scope fd b invalid) >>= λ c. make_in fd flags closed_pipe b c in
      let K3 : Pipe → Effect (Session W) Pipes = make_in fd flags closed_pipe closed_pipe in
      let start = fork_pipes-make_in fd flags s in
      let (s1, ready1, same1, run1) =
        invalid_stage invalid K1 s p ready (λ q e. refl)
          (sym (ap (λ (r : Result Pipes × Session W). r.0) start) ∙ h) in
      let (s2, ready2, same2, run2) =
        invalid_stage (in_scope fd closed_pipe invalid) K2 s1 p ready1
          (λ q e. scope_ok fd l closed_pipe invalid s1 q e) cc in
      let (s3, ready3, same3, run3) =
        invalid_stage (in_scope fd closed_pipe (in_scope fd closed_pipe invalid)) K3 s2 p ready2
          (λ q e.
            let f = scope_ok fd l closed_pipe (in_scope fd closed_pipe invalid) s2 q e in
            f ∙ scope_ok fd l closed_pipe invalid s2 q cc)
          cc in
      let world : (fork_pipes fd flags s).1.world ≡ (K3 closed_pipe s3).1.world =
        ap (λ (r : Result Pipes × Session W). r.1.world) (start ∙ run1 ∙ run2 ∙ run3) in
      let made = make_in-IsMade fd l flags s3 p cc in
      let same : Same fd l s.world s3.world = λ x. same3 x ∙ same2 x ∙ same1 x in
      subst (λ (w : W). IsMade fd l flags s.world w p) (sym world)
        (earlier-IsMade fd l s.world s3.world _ p same made)
