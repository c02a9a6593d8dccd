-- ===== src/Fork/Restoring.antt =====
-- A fork whose pipes cannot all be made leaves the descriptors of its caller as they were.
use process_cpp.Prelude.{
  ℕ, minus_one, eqb_iff, ◌≡◌, refl, sym, ap, subst, ◌∙◌, inl, inr, Bool, true, false, arith,
}
use process_cpp.Effect.{Effect, Result, Result-cases, Error, ok, throw, pure, ◌>>=◌}
use process_cpp.Descriptors.{FdCalls, FdLaws}
use process_cpp.Pipe.{Pipe, closed_pipe, open_pipe, destroy}
use process_cpp.Pipe.Ownership.{table-destroy}
use process_cpp.StandardStream
use process_cpp.StandardStream.{StandardStream, has}
use process_cpp.ChildProcess.{Pipes}
use process_cpp.Session.{Session, get_invalid, in_scope}
use process_cpp.Fork.{new_if, assign_new, fork_pipes}
use process_cpp.Fork.Invalid.{
  IsReady, Same, open_pipe-Same, get_invalid-Same, get_invalid-IsInvalid, scope_ok,
}
use process_cpp.Fork.Carrying.{IsAdded, closed-IsAdded, new_if-IsAdded}
use process_cpp.Fork.Making.{in_all_ok}
use process_cpp.Fork.Parts.{in_all, make_err, make_out, make_in, fork_pipes-make_in}
use process_cpp.Fork.Releasing.{undo_pipes}
use process_cpp.Fork.Linking.{table-destroy_pipes}

module _ {W : Type 0} (fd : FdCalls W) (l : FdLaws fd) where
  open l use {table}

  -- Where a call that was made in a world with the descriptors of `w` has thrown, they are as in `w`.
  abbrev pub Restores : {A : Type 0} → W → Result A × Session W → Type 0
  Restores w r = (e : Error) → r.0 ≡ throw e → Same fd l w r.1.world

  bind-Restores :
      {A B : Type 0} (w : W) (m : Effect (Session W) A) (K : A → Effect (Session W) B)
      (s : Session W)
      → Restores w (m s)
      → ((a : A) → (m s).0 ≡ ok a → Restores w (K a (m s).1))
      → Restores w ((m >>= K) s)
  bind-Restores w m K s first rest = elim (Result-cases (m s).0) [
    | inl (a, h) ↦ rw h (rest a h)
    | inr (x, h) ↦ rw h (λ e f. first x h)
  ]

  in_scope-Restores :
      {A : Type 0} (w : W) (p : Pipe) (m : Effect (Session W) A) (s : Session W)
      → ((e : Error) → (m s).0 ≡ throw e → Same fd l w (destroy fd p (m s).1.world))
      → Restores w (in_scope fd p m s)
  in_scope-Restores w p m s inner = elim (Result-cases (m s).0) [
    | inl (a, h) ↦ rw h (λ e f. cc)
    | inr (x, h) ↦ rw h (λ e f. inner x h)
  ]

  closed_scope-Restores :
      {A : Type 0} (w : W) (m : Effect (Session W) A) (s : Session W)
      → Restores w (m s)
      → Restores w (in_scope fd closed_pipe m s)
  closed_scope-Restores w m s inner = in_scope-Restores w closed_pipe m s (λ e h x. ground (
    arith,
    table-destroy fd l closed_pipe (m s).1.world x,
    inner e h x,
    eqb_iff x minus_one,
    l.table-minus_one w,
  ))

  -- The scopes of the three pipes, which are added to `w` one after the other.
  in_all-Restores :
      {A : Type 0} (w w1 w2 : W) (a b c : Pipe) (i o e : ℕ) (m : Effect W A) (s : Session W)
      → IsAdded fd l i w w1 a
      → IsAdded fd l o w1 w2 b
      → IsAdded fd l e w2 s.world c
      → ((x : Error) → (m s.world).0 ≡ throw x → Same fd l s.world (m s.world).1)
      → Restores w (in_all fd a b c m s)
  in_all-Restores w w1 w2 a b c i o e m s in_a in_b in_c inner =
      let p : Pipes = record { stdin = a; stdout = b; stderr = c } in
      elim (Result-cases (m s.world).0) [
        | inl (y, h) ↦ rw h (λ e f. cc)
        | inr (x, h) ↦ rw h (λ z f y.
            ground (
              arith,
              table-destroy_pipes fd l p (m s.world).1 y,
              table-destroy_pipes fd l p s.world y,
              inner x h y,
            )
            ∙ undo_pipes fd l i o e w w1 w2 s.world p y in_a in_b in_c)
      ]

  assign_new-Same :
      (w : W) (x : Error)
      → (assign_new fd closed_pipe w).0 ≡ throw x
      → Same fd l w (assign_new fd closed_pipe w).1
  unfolding assign_new
  assign_new-Same w x h y = elim (Result-cases (open_pipe fd w).0) [
    | inl (t, e) ↦ ground arith
    | inr (z, e) ↦ rw (e, assign_new) (open_pipe-Same fd l w z e y)
  ]

  new_if-Restores :
      (b : Bool) (w : W) (x : Error)
      → (new_if fd b closed_pipe w).0 ≡ throw x
      → Same fd l w (new_if fd b closed_pipe w).1
  unfolding new_if
  new_if-Restores true w x h = assign_new-Same w x h
  new_if-Restores false w x h = cc

  -- The three pipes that are made, one after the other.
  make_err-Restores :
      (flags : StandardStream) (w w1 : W) (a b : Pipe) (i o : ℕ) (s : Session W)
      → IsAdded fd l i w w1 a
      → IsAdded fd l o w1 s.world b
      → Restores w (make_err fd flags a b closed_pipe s)
  make_err-Restores flags w w1 a b i o s in_a in_b =
      let m = new_if fd (has flags StandardStream.stderr) closed_pipe in
      let K : Pipe → Effect (Session W) Pipes =
        λ c'. pure (record { stdin = a; stdout = b; stderr = c' }) in
      bind-Restores w (in_all fd a b closed_pipe m) K s
        (in_all-Restores w w1 s.world a b closed_pipe i o 0 m s in_a in_b
          (closed-IsAdded fd l s.world) (new_if-Restores (has flags StandardStream.stderr) s.world))
        (λ c h e f. cc)

  -- A pipe that was made in the scopes of three.
  made_in_all :
      (a b c : Pipe) (f : Bool) (s : Session W) (q : Pipe)
      → (in_all fd a b c (new_if fd f closed_pipe) s).0 ≡ ok q
      → (k : ℕ) × IsAdded fd l k s.world (in_all fd a b c (new_if fd f closed_pipe) s).1.world q
  made_in_all a b c f s q h =
      let run = in_all_ok fd l a b c (new_if fd f closed_pipe) s q h in
      let (k, added) =
        new_if-IsAdded fd l f s.world q (sym (ap (λ (r : Result Pipe × Session W). r.0) run) ∙ h) in
      (
        k,
        subst (λ (v : W). IsAdded fd l k s.world v q)
            (sym (ap (λ (r : Result Pipe × Session W). r.1.world) run)) added,
      )

  make_out-Restores :
      (flags : StandardStream) (w : W) (a : Pipe) (i : ℕ) (s : Session W)
      → IsAdded fd l i w s.world a
      → Restores w (make_out fd flags a closed_pipe closed_pipe s)
  make_out-Restores flags w a i s in_a =
      let b = has flags StandardStream.stdout in
      let m = in_all fd a closed_pipe closed_pipe (new_if fd b closed_pipe) in
      let none_yet = closed-IsAdded fd l s.world in
      bind-Restores w m (λ b'. make_err fd flags a b' closed_pipe) s
        (in_all-Restores w s.world s.world a closed_pipe closed_pipe i 0 0 (new_if fd b closed_pipe)
          s in_a none_yet none_yet (new_if-Restores b s.world))
        (λ q h.
          let (k, added) = made_in_all a closed_pipe closed_pipe b s q h in
          make_err-Restores flags w s.world a q i k (m s).1 in_a added)

  make_in-Restores :
      (flags : StandardStream) (s : Session W)
      → Restores s.world (make_in fd flags closed_pipe closed_pipe closed_pipe s)
  make_in-Restores flags s =
      let b = has flags StandardStream.stdin in
      let m = in_all fd closed_pipe closed_pipe closed_pipe (new_if fd b closed_pipe) in
      let none_yet = closed-IsAdded fd l s.world in
      bind-Restores s.world m (λ a'. make_out fd flags a' closed_pipe closed_pipe) s
        (in_all-Restores s.world s.world s.world closed_pipe closed_pipe closed_pipe 0 0 0
          (new_if fd b closed_pipe) s none_yet none_yet none_yet (new_if-Restores b s.world))
        (λ q h.
          let (k, added) = made_in_all closed_pipe closed_pipe closed_pipe b s q h in
          make_out-Restores flags s.world q k (m s).1 added)

  -- A call of Pipe::invalid, and what comes after it.
  invalid-Restores :
      (w : W) (m : Effect (Session W) Pipe) (K : Pipe → Effect (Session W) Pipes) (s : Session W)
      → IsReady s
      → Same fd l w s.world
      → Restores s.world (m s)
      → ((q : Pipe) → (m s).0 ≡ ok q → m s ≡ get_invalid fd s)
      → ((t : Session W) → IsReady t → Same fd l w t.world → Restores w (K closed_pipe t))
      → Restores w ((m >>= K) s)
  invalid-Restores w m K s ready same first agrees next =
      bind-Restores w m K s (λ e h x. first e h x ∙ same x)
        (λ q h.
          let run = agrees q h in
          let r =
            get_invalid-IsInvalid fd l s q ready
              (sym (ap (λ (r : Result Pipe × Session W). r.0) run) ∙ h) in
          let here = ap (λ (r : Result Pipe × Session W). r.1.static_pipe) run in
          let after = ap (λ (r : Result Pipe × Session W). r.1.world) run in
          subst (λ (q : Pipe). Restores w (K q (m s).1)) (sym r.is_closed)
            (next (m s).1 (inr (here ∙ r.is_ready))
              (λ x. ap (λ (v : W). table v x) after ∙ r.same x ∙ same x)))

  -- The pipes of a fork that throws before it forks.
  pub fork_pipes-Restores :
      (flags : StandardStream) (s : Session W)
      → IsReady s
      → Restores s.world (fork_pipes fd flags s)
  fork_pipes-Restores flags s ready =
      let invalid = get_invalid fd in
      let c = closed_pipe in
      let K2 : Pipe → Effect (Session W) Pipes =
        λ b. in_scope fd c (in_scope fd b invalid) >>= λ c'. make_in fd flags c b c' in
      let K1 : Pipe → Effect (Session W) Pipes = λ a. in_scope fd a invalid >>= λ b.
      in_scope fd a (in_scope fd b invalid) >>= λ c'. make_in fd flags a b c' in
      let one = λ (t : Session W) (ready : IsReady t).
        closed_scope-Restores t.world invalid t (λ e. get_invalid-Same fd l t e ready) in
      let third = λ (t : Session W) (ready : IsReady t) (same : Same fd l s.world t.world).
        invalid-Restores s.world (in_scope fd c (in_scope fd c invalid)) (make_in fd flags c c) t
          ready same (closed_scope-Restores t.world (in_scope fd c invalid) t (one t ready))
          (λ q e.
            let f = scope_ok fd l c (in_scope fd c invalid) t q e in
            f ∙ scope_ok fd l c invalid t q (sym (ap (λ (r : Result Pipe × Session W). r.0) f) ∙ e))
          (λ u r same e h x. make_in-Restores flags u e h x ∙ same x) in
      let second = λ (t : Session W) (ready : IsReady t) (same : Same fd l s.world t.world).
        invalid-Restores s.world (in_scope fd c invalid) K2 t ready same (one t ready)
          (λ q e. scope_ok fd l c invalid t q e) third in
      let all =
        invalid-Restores s.world invalid K1 s ready (λ x. refl)
          (λ e. get_invalid-Same fd l s e ready) (λ q e. refl) second in
      subst (Restores s.world) (sym (fork_pipes-make_in fd flags s)) all
