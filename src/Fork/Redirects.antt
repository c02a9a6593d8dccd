-- ===== src/Fork/Redirects.antt =====
-- What the standard streams of a child lead to after fork and vfork have redirected them.
use process_cpp.Prelude.{
  ℤ, pos, eqb, ◌≡◌, refl, Bool, true, false, ◌&&◌, inl, inr, if◌then◌else◌, arith, ap, ◌∙◌,
}
use process_cpp.Effect.{Effect, Result-cases, ok, ◌>>◌}
use process_cpp.Descriptors.{FdCalls, FdLaws}
use process_cpp.StandardStream
use process_cpp.StandardStream.{StandardStream, has}
use process_cpp.ChildProcess.{Pipes}
use process_cpp.Fork.{redirect_stream_to_fd, redirect_if, redirect}

module _ {W : Type 0} (fd : FdCalls W) (l : FdLaws fd) where
  open l use {table}

  pub table-redirect_if :
      (b : Bool) (from stream : ℤ) (w : W) (x : ℤ)
      → (redirect_if fd b from stream w).0 ≡ ok tt
      → table (redirect_if fd b from stream w).1 x
        ≡ (if b && eqb x stream then table w from else table w x)
  unfolding redirect_if redirect_stream_to_fd
  table-redirect_if true from stream w x h = ground (arith, l.table-dup2 w from stream x)
  table-redirect_if false from stream w x h = refl

  -- The two parts of a sequence that returned.
  pub sequence :
      (m k : Effect W (Unit {0})) (w : W)
      → ((m >> k) w).0 ≡ ok tt
      → ((m w).0 ≡ ok tt) × ((k (m w).1).0 ≡ ok tt) × (((m >> k) w).1 ≡ (k (m w).1).1)
  sequence m k w h = elim (Result-cases (m w).0) [
    | inl (tt, e) ↦ ground arith
    | inr (e, f) ↦ ground arith
  ]

  -- After a redirection that returns, each of the descriptors 0, 1 and 2 whose flag is set leads to the
  -- description of the child's end of its pipe, and every other descriptor is as it was; given that
  -- the ends for stdout and stderr are not among the descriptors that are replaced before them.
  pub table-redirect :
      (flags : StandardStream) (p : Pipes) (w : W) (x : ℤ)
      → eqb p.stdout.fds_1 (pos 0) ≡ false
      → eqb p.stderr.fds_1 (pos 0) ≡ false
      → eqb p.stderr.fds_1 (pos 1) ≡ false
      → (redirect fd flags p w).0 ≡ ok tt
      → table (redirect fd flags p w).1 x ≡ (
          if has flags StandardStream.stderr && eqb x (pos 2)
          then table w p.stderr.fds_1
          else if has flags StandardStream.stdout && eqb x (pos 1)
          then table w p.stdout.fds_1
          else if has flags StandardStream.stdin && eqb x (pos 0)
          then table w p.stdin.fds_0
          else table w x)
  unfolding redirect
  table-redirect flags p w x a b c h =
      let first = redirect_if fd (has flags StandardStream.stdin) p.stdin.fds_0 (pos 0) in
      let second = redirect_if fd (has flags StandardStream.stdout) p.stdout.fds_1 (pos 1) in
      let third = redirect_if fd (has flags StandardStream.stderr) p.stderr.fds_1 (pos 2) in
      let (h1, h', e) = sequence first (second >> third) w h in
      let w1 = (first w).1 in
      let (h2, h3, e') = sequence second third w1 h' in
      let w2 = (second w1).1 in
      let t1 = table-redirect_if (has flags StandardStream.stdin) p.stdin.fds_0 (pos 0) w in
      let t2 = table-redirect_if (has flags StandardStream.stdout) p.stdout.fds_1 (pos 1) w1 in
      let t3 = table-redirect_if (has flags StandardStream.stderr) p.stderr.fds_1 (pos 2) w2 in
      ap (λ (v : W). table v x) (e ∙ e')
      ∙ ground (
        arith,
        t3 x h3,
        t2 x h2,
        t1 x h1,
        t2 p.stderr.fds_1 h2,
        t1 p.stderr.fds_1 h1,
        t1 p.stdout.fds_1 h1,
        a,
        b,
        c,
      )
