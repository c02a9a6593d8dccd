-- ===== src/Fork/Pids.antt =====
-- The calls on descriptors, and the making of the pipes of a fork, keep the pid of the process.
use process_cpp.Prelude.{
  ℤ, ◌≡◌, refl, ap, ◌∙◌, inl, inr, Bool, true, false, Option, none, some, arith,
}
use process_cpp.Effect.{Effect, Result, Result-cases, ok, throw, pure, ◌>>=◌}
use process_cpp.Descriptors.{FdCalls}
use process_cpp.Pipe
use process_cpp.Pipe.{
  Pipe, close_valid, dup_valid, open_pipe, copy, destroy, close_read_fd, close_write_fd, assign,
  invalid_init,
}
use process_cpp.ProcessCalls.{ProcessCalls}
use process_cpp.StandardStream.{StandardStream}
use process_cpp.ChildProcess.{Pipes}
use process_cpp.Session.{Session, on_world, get_invalid, in_scope}
use process_cpp.StandardStream
use process_cpp.StandardStream.{has}
use process_cpp.Fork.Parts.{in_all, make_err, make_out, make_in, fork_pipes-make_in}
use process_cpp.Fork.{assign_new, new_if, destroy_pipes, fork_pipes}

module _ {W : Type 0} (fd : FdCalls W) (os : ProcessCalls W) where
  -- getpid(2) is about the process, and the other calls of the process do not change it.
  pub record IdentityLaws : Type 0 where
    pub getpid-pipe : (w : W) → os.getpid (fd.pipe w).1 ≡ os.getpid w
    pub getpid-dup : (x : ℤ) (w : W) → os.getpid (fd.dup x w).1 ≡ os.getpid w
    pub getpid-close : (x : ℤ) (w : W) → os.getpid (fd.close x w) ≡ os.getpid w
    pub getpid-kill : (p signal : ℤ) (w : W) → os.getpid (os.kill p signal w).1 ≡ os.getpid w
    pub getpid-waitpid : (p flags : ℤ) (w : W) → os.getpid (os.waitpid p flags w).1 ≡ os.getpid w
    pub getpid-fork : (w : W) → os.getpid (os.fork w).parent ≡ os.getpid w

  module _ (k : IdentityLaws) where
    getpid-close_valid : (x : ℤ) (w : W) → os.getpid (close_valid fd x w) ≡ os.getpid w
    unfolding close_valid
    getpid-close_valid x w = ground (arith, k.getpid-close x w)

    getpid-dup_valid : (x : ℤ) (w : W) → os.getpid (dup_valid fd x w).1 ≡ os.getpid w
    unfolding dup_valid
    getpid-dup_valid x w = ground (arith, k.getpid-dup x w)

    pub getpid-destroy : (p : Pipe) (w : W) → os.getpid (destroy fd p w) ≡ os.getpid w
    unfolding destroy
    getpid-destroy p w =
        getpid-close_valid p.fds_1 (close_valid fd p.fds_0 w) ∙ getpid-close_valid p.fds_0 w

    pub getpid-copy : (p : Pipe) (w : W) → os.getpid (copy fd p w).1 ≡ os.getpid w
    unfolding copy
    getpid-copy p w =
        getpid-dup_valid p.fds_1 (dup_valid fd p.fds_0 w).1 ∙ getpid-dup_valid p.fds_0 w

    getpid-assign : (p q : Pipe) (w : W) → os.getpid (assign fd p q w).1 ≡ os.getpid w
    unfolding assign copy destroy
    getpid-assign p q w = getpid-copy q (destroy fd p w) ∙ getpid-destroy p w

    pub getpid-close_read_fd : (p : Pipe) (w : W) → os.getpid (close_read_fd fd p w).1 ≡ os.getpid w
    unfolding close_read_fd
    getpid-close_read_fd p w = ground (arith, k.getpid-close p.fds_0 w)

    pub getpid-close_write_fd :
        (p : Pipe) (w : W) → os.getpid (close_write_fd fd p w).1 ≡ os.getpid w
    unfolding close_write_fd
    getpid-close_write_fd p w = ground (arith, k.getpid-close p.fds_1 w)

    getpid-open_pipe : (w : W) → os.getpid (open_pipe fd w).1 ≡ os.getpid w
    unfolding open_pipe
    getpid-open_pipe w = ground (arith, k.getpid-pipe w)

    getpid-assign_new : (p : Pipe) (w : W) → os.getpid (assign_new fd p w).1 ≡ os.getpid w
    unfolding assign_new
    getpid-assign_new p w = elim (Result-cases (open_pipe fd w).0) [
      | inl (t, e) ↦
          let w1 = (open_pipe fd w).1 in
          let rest =
            getpid-destroy t (assign fd p t w1).1 ∙ getpid-assign p t w1 ∙ getpid-open_pipe w in
          rw (e, assign_new) rest
      | inr (x, e) ↦ rw (e, assign_new) (getpid-open_pipe w)
    ]

    getpid-new_if : (b : Bool) (p : Pipe) (w : W) → os.getpid (new_if fd b p w).1 ≡ os.getpid w
    unfolding new_if
    getpid-new_if true p w = getpid-assign_new p w
    getpid-new_if false p w = refl

    getpid-invalid_init :
        (r : Result Pipe) (w : W) → os.getpid (invalid_init fd r w).1 ≡ os.getpid w
    unfolding invalid_init
    getpid-invalid_init (throw e) w = refl
    getpid-invalid_init (ok p) w =
        let (p', w1) = close_read_fd fd p w in
        let (p'', w2) = close_write_fd fd p' w1 in
        getpid-copy p'' w2 ∙ getpid-close_write_fd p' w1 ∙ getpid-close_read_fd p w

    -- The effect keeps the pid.
    abbrev pub KeepsPid : {A : Type 0} → Effect (Session W) A → Type 0
    KeepsPid m = (s : Session W) → os.getpid (m s).1.world ≡ os.getpid s.world

    getpid-invalid : (o : Option Pipe) (w : W) → os.getpid (Pipe.invalid fd o w).1 ≡ os.getpid w
    unfolding Pipe.invalid
    getpid-invalid (some p) w = getpid-copy p w
    getpid-invalid none w =
        getpid-invalid_init (open_pipe fd w).0 (open_pipe fd w).1 ∙ getpid-open_pipe w

    get_invalid-KeepsPid : KeepsPid (get_invalid fd)
    unfolding get_invalid
    get_invalid-KeepsPid s = getpid-invalid s.static_pipe s.world

    in_scope-KeepsPid :
        {A : Type 0} (p : Pipe) (m : Effect (Session W) A) → KeepsPid m → KeepsPid (in_scope fd p m)
    in_scope-KeepsPid p m h s = elim (Result-cases (m s).0) [
      | inl (a, e) ↦ rw e (h s)
      | inr (x, e) ↦ rw e (getpid-destroy p (m s).1.world ∙ h s)
    ]

    bind-KeepsPid :
        {A B : Type 0} (m : Effect (Session W) A) (f : A → Effect (Session W) B)
        → KeepsPid m
        → ((a : A) → KeepsPid (f a))
        → KeepsPid (m >>= f)
    bind-KeepsPid m f h g s = elim (Result-cases (m s).0) [
      | inl (a, e) ↦ rw e (g a (m s).1 ∙ h s)
      | inr (x, e) ↦ rw e (h s)
    ]

    in_three :
        {A : Type 0} (a b c : Pipe) (m : Effect W A)
        → ((w : W) → os.getpid (m w).1 ≡ os.getpid w)
        → KeepsPid (in_scope fd a (in_scope fd b (in_scope fd c (on_world m))))
    in_three a b c m h = in_scope-KeepsPid a (in_scope fd b (in_scope fd c (on_world m))) (
        in_scope-KeepsPid b (in_scope fd c (on_world m))
          (in_scope-KeepsPid c (on_world m) (λ s. h s.world)))

    make_err-KeepsPid : (flags : StandardStream) (a b c : Pipe) → KeepsPid (make_err fd flags a b c)
    make_err-KeepsPid flags a b c =
        let m = new_if fd (has flags StandardStream.stderr) c in
        let rest : Pipe → Effect (Session W) Pipes =
          λ c'. pure (record { stdin = a; stdout = b; stderr = c' }) in
        bind-KeepsPid (in_all fd a b c m) rest (in_three a b c m (getpid-new_if _ c)) (λ c' s. refl)

    make_out-KeepsPid : (flags : StandardStream) (a b c : Pipe) → KeepsPid (make_out fd flags a b c)
    make_out-KeepsPid flags a b c =
        let m = new_if fd (has flags StandardStream.stdout) b in
        bind-KeepsPid (in_all fd a b c m) (λ b'. make_err fd flags a b' c)
          (in_three a b c m (getpid-new_if _ b)) (λ b'. make_err-KeepsPid flags a b' c)

    make_in-KeepsPid : (flags : StandardStream) (a b c : Pipe) → KeepsPid (make_in fd flags a b c)
    make_in-KeepsPid flags a b c =
        let m = new_if fd (has flags StandardStream.stdin) a in
        bind-KeepsPid (in_all fd a b c m) (λ a'. make_out fd flags a' b c)
          (in_three a b c m (getpid-new_if _ a)) (λ a'. make_out-KeepsPid flags a' b c)

    pub fork_pipes-KeepsPid : (flags : StandardStream) → KeepsPid (fork_pipes fd flags)
    fork_pipes-KeepsPid flags s =
        let invalid = get_invalid fd in
        let keeps = get_invalid-KeepsPid in
        let third = λ (a b : Pipe).
          bind-KeepsPid (in_scope fd a (in_scope fd b invalid)) (make_in fd flags a b)
            (in_scope-KeepsPid a (in_scope fd b invalid) (in_scope-KeepsPid b invalid keeps))
            (make_in-KeepsPid flags a b) in
        let second = λ (a : Pipe).
          bind-KeepsPid (in_scope fd a invalid)
            (λ b. in_scope fd a (in_scope fd b invalid) >>= make_in fd flags a b)
            (in_scope-KeepsPid a invalid keeps) (third a) in
        let first =
          bind-KeepsPid invalid
            (λ a. in_scope fd a invalid >>= λ b.
              in_scope fd a (in_scope fd b invalid) >>= make_in fd flags a b)
            keeps second in
        ap (λ (r : Result Pipes × Session W). os.getpid r.1.world) (fork_pipes-make_in fd flags s)
        ∙ first s

    pub getpid-destroy_pipes : (p : Pipes) (w : W) → os.getpid (destroy_pipes fd p w) ≡ os.getpid w
    getpid-destroy_pipes p w =
        getpid-destroy p.stdin _ ∙ getpid-destroy p.stdout _ ∙ getpid-destroy p.stderr w
