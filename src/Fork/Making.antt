-- ===== src/Fork/Making.antt =====
-- The pipes that fork makes before it forks.
use process_cpp.Fork.Invalid.{bind_ok, Same, scope_ok}
use process_cpp.Prelude.{ℕ, ◌≡◌, sym, ap, subst, ◌∙◌}
use process_cpp.Effect.{Effect, Result, ok, pure, ◌>>=◌}
use process_cpp.Descriptors.{FdCalls, FdLaws}
use process_cpp.Pipe.{Pipe, closed_pipe}
use process_cpp.StandardStream
use process_cpp.StandardStream.{StandardStream, has}
use process_cpp.ChildProcess.{Pipes}
use process_cpp.Session.{Session, on_world, in_scope}
use process_cpp.Fork.{new_if}
use process_cpp.Fork.Carrying.{IsFresh, new_if-IsFresh, Unset, new_if-Unset}
use process_cpp.Fork.Parts.{in_all, make_err, make_out, make_in}

module _ {W : Type 0} (fd : FdCalls W) (l : FdLaws fd) where
  -- A new pipe, or none, after the table of an earlier world.
  earlier-IsAdded :
      (k : ℕ) (w w' w'' : W) (q : Pipe)
      → Same fd l w w'
      → IsFresh fd l k w' w'' q
      → IsFresh fd l k w w'' q
  earlier-IsAdded k w w' w'' q same a = record {
    carries = a.carries;
    keeps = λ x f e. a.keeps x f (same x ∙ e);
    apart = λ x f e. a.apart x f (same x ∙ e);
    others = λ x b c. a.others x b c ∙ same x;
    unused = λ y x. (λ e. (a.unused y x).0 (same x ∙ e), λ e. (a.unused y x).1 (same x ∙ e));
  }

  -- The pipes of a fork: each is a new pipe, or has no descriptors, and no two share a descriptor.
  pub record IsMade (flags : StandardStream) (w : W) (w' : W) (p : Pipes) : Type 0 where
    pub k_in : ℕ
    pub k_out : ℕ
    pub k_err : ℕ
    pub w1 : W
    pub w2 : W
    pub stdin_IsAdded : IsFresh fd l k_in w w1 p.stdin
    pub stdout_IsAdded : IsFresh fd l k_out w1 w2 p.stdout
    pub stderr_IsAdded : IsFresh fd l k_err w2 w' p.stderr
    pub stdin_Unset : Unset fd l (has flags StandardStream.stdin) p.stdin
    pub stdout_Unset : Unset fd l (has flags StandardStream.stdout) p.stdout
    pub stderr_Unset : Unset fd l (has flags StandardStream.stderr) p.stderr

  pub in_all_ok :
      {A : Type 0} (a b c : Pipe) (m : Effect W A) (s : Session W) (x : A)
      → (in_all fd a b c m s).0 ≡ ok x
      → in_all fd a b c m s ≡ on_world m s
  in_all_ok a b c m s x h =
      let inner = in_scope fd c (on_world m) in
      let e = scope_ok fd l a (in_scope fd b inner) s x h in
      let h' : (in_scope fd b inner s).0 ≡ ok x = cc in
      let e' = scope_ok fd l b inner s x h' in
      let h'' : (inner s).0 ≡ ok x = cc in e ∙ e' ∙ scope_ok fd l c (on_world m) s x h''

  -- One of the three assignments of a new pipe, and what comes after it.
  stage :
      (a b c : Pipe) (m : Effect W Pipe) (K : Pipe → Effect (Session W) Pipes) (s : Session W)
      (p : Pipes)
      → ((in_all fd a b c m >>= K) s).0 ≡ ok p
      → (q : Pipe) × ((m s.world).0 ≡ ok q)
        × ((in_all fd a b c m >>= K) s ≡ K q (record s { world = (m s.world).1 }))
  stage a b c m K s p h =
      let (q, e, f) = bind_ok (in_all fd a b c m) K s p h in
      let g = in_all_ok a b c m s q e in
      (q, cc, f ∙ ap (λ (r : Result Pipe × Session W). K q r.1) g)

  make_err-IsAdded :
      (flags : StandardStream) (a b : Pipe) (s : Session W) (p : Pipes)
      → (make_err fd flags a b closed_pipe s).0 ≡ ok p
      → (a ≡ p.stdin)
        × (b ≡ p.stdout)
        × ((k : ℕ) × IsFresh fd l k s.world (make_err fd flags a b closed_pipe s).1.world p.stderr)
        × Unset fd l (has flags StandardStream.stderr) p.stderr
  make_err-IsAdded flags a b s p h =
      let m = new_if fd (has flags StandardStream.stderr) closed_pipe in
      let K : Pipe → Effect (Session W) Pipes =
        λ c'. pure (record { stdin = a; stdout = b; stderr = c' }) in
      let (c, opened, f) = stage a b closed_pipe m K s p h in
      let (k, added) = new_if-IsFresh fd l (has flags StandardStream.stderr) s.world c opened in
      let made : Pipes = record { stdin = a; stdout = b; stderr = c } in
      let same : made ≡ p = cc in
      let world : (make_err fd flags a b closed_pipe s).1.world ≡ (m s.world).1 =
        ap (λ (r : Result Pipes × Session W). r.1.world) f in
      (
        ap (λ (p : Pipes). p.stdin) same,
        ap (λ (p : Pipes). p.stdout) same,
        (
          k,
          subst (λ (w : W). IsFresh fd l k s.world w p.stderr) (sym world)
              (subst (λ (p : Pipes). IsFresh fd l k s.world (m s.world).1 p.stderr) same added),
        ),
        subst (λ (p : Pipes). Unset fd l (has flags StandardStream.stderr) p.stderr) same
            (new_if-Unset fd l (has flags StandardStream.stderr) s.world c opened),
      )

  make_out-IsAdded :
      (flags : StandardStream) (a : Pipe) (s : Session W) (p : Pipes)
      → (make_out fd flags a closed_pipe closed_pipe s).0 ≡ ok p
      → (a ≡ p.stdin)
        × ((w2 : W) × (k : ℕ) × (k' : ℕ) × IsFresh fd l k s.world w2 p.stdout
            × IsFresh fd l k' w2 (make_out fd flags a closed_pipe closed_pipe s).1.world p.stderr)
        × Unset fd l (has flags StandardStream.stdout) p.stdout
        × Unset fd l (has flags StandardStream.stderr) p.stderr
  make_out-IsAdded flags a s p h =
      let m = new_if fd (has flags StandardStream.stdout) closed_pipe in
      let K : Pipe → Effect (Session W) Pipes = λ b'. make_err fd flags a b' closed_pipe in
      let (b, opened, f) = stage a closed_pipe closed_pipe m K s p h in
      let (k, added) = new_if-IsFresh fd l (has flags StandardStream.stdout) s.world b opened in
      let s1 : Session W = record s { world = (m s.world).1 } in
      let (same_a, same_b, (k', added'), unset_err) = make_err-IsAdded flags a b s1 p cc in
      let world : (make_out fd flags a closed_pipe closed_pipe s).1.world ≡ (K b s1).1.world =
        ap (λ (r : Result Pipes × Session W). r.1.world) f in
      (
        same_a,
        (
          s1.world,
          k,
          k',
          subst (IsFresh fd l k s.world s1.world) same_b added,
          subst (λ (w : W). IsFresh fd l k' s1.world w p.stderr) (sym world) added',
        ),
        subst (Unset fd l (has flags StandardStream.stdout)) same_b
            (new_if-Unset fd l (has flags StandardStream.stdout) s.world b opened),
        unset_err,
      )

  pub make_in-IsMade :
      (flags : StandardStream) (s : Session W) (p : Pipes)
      → (make_in fd flags closed_pipe closed_pipe closed_pipe s).0 ≡ ok p
      → IsMade flags s.world (make_in fd flags closed_pipe closed_pipe closed_pipe s).1.world p
  make_in-IsMade flags s p h =
      let m = new_if fd (has flags StandardStream.stdin) closed_pipe in
      let K : Pipe → Effect (Session W) Pipes =
        λ a'. make_out fd flags a' closed_pipe closed_pipe in
      let (a, opened, f) = stage closed_pipe closed_pipe closed_pipe m K s p h in
      let (k, added) = new_if-IsFresh fd l (has flags StandardStream.stdin) s.world a opened in
      let s1 : Session W = record s { world = (m s.world).1 } in
      let (same_a, (w2, k', k'', added', added''), unset_out, unset_err) =
        make_out-IsAdded flags a s1 p cc in
      let world : (make_in fd flags closed_pipe closed_pipe closed_pipe s).1.world
          ≡ (K a s1).1.world =
        ap (λ (r : Result Pipes × Session W). r.1.world) f in
      record {
        k_in = k;
        k_out = k';
        k_err = k'';
        w1 = s1.world;
        w2 = w2;
        stdin_IsAdded = subst (IsFresh fd l k s.world s1.world) same_a added;
        stdout_IsAdded = added';
        stderr_IsAdded = subst (λ (w : W). IsFresh fd l k'' w2 w p.stderr) (sym world) added'';
        stdin_Unset =
            subst (Unset fd l (has flags StandardStream.stdin)) same_a
              (new_if-Unset fd l (has flags StandardStream.stdin) s.world a opened);
        stdout_Unset = unset_out;
        stderr_Unset = unset_err;
      }

  pub earlier-IsMade :
      {flags : StandardStream} (w w0 w' : W) (p : Pipes)
      → Same fd l w w0
      → IsMade flags w0 w' p
      → IsMade flags w w' p
  earlier-IsMade w w0 w' p same m = record {
    k_in = m.k_in;
    k_out = m.k_out;
    k_err = m.k_err;
    w1 = m.w1;
    w2 = m.w2;
    stdin_IsAdded = earlier-IsAdded m.k_in w w0 m.w1 p.stdin same m.stdin_IsAdded;
    stdout_IsAdded = m.stdout_IsAdded;
    stderr_IsAdded = m.stderr_IsAdded;
    stdin_Unset = m.stdin_Unset;
    stdout_Unset = m.stdout_Unset;
    stderr_Unset = m.stderr_Unset;
  }
