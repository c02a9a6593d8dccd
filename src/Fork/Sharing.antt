-- ===== src/Fork/Sharing.antt =====
-- The pipes of vfork, and what its child makes of them.
use process_cpp.Prelude.{ℕ, minus_one, eqb_iff, ◌≡◌, refl, sym, ap, ◌∙◌, inr, arith}
use process_cpp.Effect.{Effect, Result, ok, pure, ◌>>=◌}
use process_cpp.Descriptors.{FdCalls, FdLaws}
use process_cpp.Pipe.{Pipe, open_pipe}
use process_cpp.Pipe.Ownership.{table-open_pipe}
use process_cpp.StandardStream.{StandardStream, has}
use process_cpp.ChildProcess.{Pipes}
use process_cpp.Session.{Session, on_world, in_scope}
use process_cpp.Fork.{vfork_pipes}
use process_cpp.Fork.Streams.{open_pipe_fresh, IsNew}
use process_cpp.Fork.Invalid.{bind_ok, scope_ok}
use process_cpp.Fork.Opening.{IsOpened, open_pipe-IsOpened}
use process_cpp.Fork.Carrying.{IsFresh, IsNew-IsAdded, IsAdded-IsFresh}
use process_cpp.Fork.Making.{IsMade}

-- All three streams.
abbrev pub every_stream : StandardStream
every_stream = 7

ok_same : {A : Type 0} (a b : A) → ok a ≡ ok b → a ≡ b
ok_same a b h = cc

module _ {W : Type 0} (fd : FdCalls W) (l : FdLaws fd) where
  open l use {table}

  open_pipe-IsNew :
      (w : W) (t : Pipe)
      → (open_pipe fd w).0 ≡ ok t
      → IsNew fd l (l.new_pipe w) w (open_pipe fd w).1 t
  open_pipe-IsNew w t h =
      let (f0, f1, d) = open_pipe_fresh fd l w t h in
      record {
        fresh_0 = f0;
        fresh_1 = f1;
        distinct = inr d;
        table_new = λ x. ground (
          arith,
          d,
          table-open_pipe fd l w t x h,
          l.table-minus_one (open_pipe fd w).1,
          eqb_iff x minus_one,
          eqb_iff x t.fds_0,
          eqb_iff x t.fds_1,
          eqb_iff t.fds_1 t.fds_0,
        );
      }

  -- A pipe that is opened in some scope, and what comes after it.
  opening :
      (m : Effect (Session W) Pipe) (K : Pipe → Effect (Session W) Pipes) (s : Session W)
      (p : Pipes)
      → ((q : Pipe) → (m s).0 ≡ ok q → m s ≡ on_world (open_pipe fd) s)
      → ((m >>= K) s).0 ≡ ok p
      → (q : Pipe) × ((k : ℕ) × IsFresh fd l k s.world (open_pipe fd s.world).1 q)
        × IsOpened fd l q
        × ((m >>= K) s ≡ K q (record s { world = (open_pipe fd s.world).1 }))
  opening m K s p agrees h =
      let (q, e, f) = bind_ok m K s p h in
      let g = agrees q e in
      let opened : (open_pipe fd s.world).0 ≡ ok q =
        ap (λ (r : Result Pipe × Session W). r.0) (sym g) ∙ e in
      (
        q,
        (
          l.new_pipe s.world,
          IsAdded-IsFresh fd l s.world _ q (
              IsNew-IsAdded fd l (l.new_pipe s.world) s.world _ q
                (open_pipe-IsNew s.world q opened)),
        ),
        open_pipe-IsOpened fd l s.world q opened,
        f ∙ ap (λ (r : Result Pipe × Session W). K q r.1) g,
      )

  pub record AreOpened (p : Pipes) : Type 0 where
    pub stdin : IsOpened fd l p.stdin
    pub stdout : IsOpened fd l p.stdout
    pub stderr : IsOpened fd l p.stderr

  abbrev new_pipe : Effect (Session W) Pipe
  new_pipe = on_world (open_pipe fd)

  abbrev with_three : Pipe → Pipe → Pipe → Effect (Session W) Pipes
  with_three a b c = pure (record { stdin = a; stdout = b; stderr = c })

  abbrev with_two : Pipe → Pipe → Effect (Session W) Pipes
  with_two a b = in_scope fd a (in_scope fd b new_pipe) >>= with_three a b

  abbrev with_one : Pipe → Effect (Session W) Pipes
  with_one a = in_scope fd a new_pipe >>= with_two a

  vfork_pipes-new_pipe : (s : Session W) → vfork_pipes fd s ≡ (new_pipe >>= with_one) s
  unfolding vfork_pipes
  vfork_pipes-new_pipe s = refl

  scopes_ok :
      (a b : Pipe) (s : Session W) (q : Pipe)
      → (in_scope fd a (in_scope fd b new_pipe) s).0 ≡ ok q
      → in_scope fd a (in_scope fd b new_pipe) s ≡ new_pipe s
  scopes_ok a b s q e =
      let f = scope_ok fd l a (in_scope fd b new_pipe) s q e in
      f ∙ scope_ok fd l b new_pipe s q (sym (ap (λ (r : Result Pipe × Session W). r.0) f) ∙ e)

  -- The parts of a run that returns, joined.
  joined :
      (w w1 w2 w3 : W) (a b c : Pipe) (i o e : ℕ) (p : Pipes) (r : Result Pipes × Session W)
      (s : Session W)
      → IsFresh fd l i w w1 a × IsOpened fd l a
      → IsFresh fd l o w1 w2 b × IsOpened fd l b
      → IsFresh fd l e w2 w3 c × IsOpened fd l c
      → r ≡ with_three a b c (record s { world = w3 })
      → r.0 ≡ ok p
      → IsMade fd l every_stream w r.1.world p × AreOpened p
  unfolding has
  joined w w1 w2 w3 a b c i o e p r s (added_in, opened_in) (added_out, opened_out)
        (added_err, opened_err) run h =
      let made : Pipes = record { stdin = a; stdout = b; stderr = c } in
      let same = ok_same made p (sym (ap (λ (r : Result Pipes × Session W). r.0) run) ∙ h) in
      let ends : w3 ≡ r.1.world = sym (ap (λ (r : Result Pipes × Session W). r.1.world) run) in
      rw (← same, ← ends)
        (
          record {
            k_in = i;
            k_out = o;
            k_err = e;
            w1 = w1;
            w2 = w2;
            stdin_IsAdded = added_in;
            stdout_IsAdded = added_out;
            stderr_IsAdded = added_err;
            stdin_Unset = (λ unset. cc, λ y set. opened_in);
            stdout_Unset = (λ unset. cc, λ y set. opened_out);
            stderr_Unset = (λ unset. cc, λ y set. opened_err);
          },
          record { stdin = opened_in; stdout = opened_out; stderr = opened_err },
        )

  -- The pipes of a vfork that makes them.
  pub vfork_pipes-IsMade :
      (s : Session W) (p : Pipes)
      → (vfork_pipes fd s).0 ≡ ok p
      → IsMade fd l every_stream s.world (vfork_pipes fd s).1.world p × AreOpened p
  vfork_pipes-IsMade s p h =
      let start = vfork_pipes-new_pipe s in
      let first = λ (r : Result Pipes × Session W). r.0 in
      let h1 = sym (ap first start) ∙ h in
      let (a, (i, added_in), opened_in, run1) = opening new_pipe with_one s p (λ q e. refl) h1 in
      let s1 : Session W = record s { world = (open_pipe fd s.world).1 } in
      let h2 = sym (ap first run1) ∙ h1 in
      let (b, (o, added_out), opened_out, run2) =
        opening (in_scope fd a new_pipe) (with_two a) s1 p (λ q e. scope_ok fd l a new_pipe s1 q e)
          h2 in
      let s2 : Session W = record s { world = (open_pipe fd s1.world).1 } in
      let (c, (e, added_err), opened_err, run3) =
        opening (in_scope fd a (in_scope fd b new_pipe)) (with_three a b) s2 p (scopes_ok a b s2)
          (sym (ap first run2) ∙ h2) in
      joined s.world s1.world s2.world (open_pipe fd s2.world).1 a b c i o e p (vfork_pipes fd s) s
        (added_in, opened_in) (added_out, opened_out) (added_err, opened_err)
        (start ∙ run1 ∙ run2 ∙ run3) h
