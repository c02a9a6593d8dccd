-- ===== src/Fork/Serving.antt =====
-- What the standard streams of a child lead to when its main function is called.
use process_cpp.Prelude.{
  eqb_iff, refl, minus_one, ℕ, ℤ, pos, eqb, ◌≡◌, ◌≢◌, Bool, true, false, none, some, arith,
}
use process_cpp.Effect.{ok, ◌>>◌}
use process_cpp.Descriptors.{FdCalls, FdLaws, PlentyLaws, File, reader, writer}
use process_cpp.StandardStream
use process_cpp.StandardStream.{StandardStream, has}
use process_cpp.ChildProcess.{Pipes}
use process_cpp.Fork.{close_parent_ends, redirect, redirect_if, redirect_stream_to_fd}
use process_cpp.Fork.Carrying.{Leads}
use process_cpp.Fork.Opening.{IsOpened}
use process_cpp.Fork.Making.{IsMade}
use process_cpp.Fork.Redirects.{sequence, table-redirect_if, table-redirect}
use process_cpp.Fork.Holding.{children, close_parent_ends-ChildEnds, old-IsMade}

module _ {W : Type 0} (fd : FdCalls W) (l : FdLaws fd) where
  open l use {table}

  redirect_if-IsOpen :
      (b : Bool) (from stream : ℤ) (w : W)
      → b ≡ true
      → (redirect_if fd b from stream w).0 ≡ ok tt
      → table w from ≢ none
  unfolding redirect_if redirect_stream_to_fd
  redirect_if-IsOpen b from stream w set h closed =
      ground (arith, l.dup2_closed w from stream closed)

  -- A redirection that returns had an open descriptor for each flag that is set.
  record Sources (flags : StandardStream) (p : Pipes) (w : W) : Type 0 where
    pub stdin : has flags StandardStream.stdin ≡ true → table w p.stdin.fds_0 ≢ none
    pub stdout : has flags StandardStream.stdout ≡ true → table w p.stdout.fds_1 ≢ none
    pub stderr : has flags StandardStream.stderr ≡ true → table w p.stderr.fds_1 ≢ none

  redirect-Sources :
      (flags : StandardStream) (p : Pipes) (w : W)
      → eqb p.stdout.fds_1 (pos 0) ≡ false
      → eqb p.stderr.fds_1 (pos 0) ≡ false
      → eqb p.stderr.fds_1 (pos 1) ≡ false
      → (redirect fd flags p w).0 ≡ ok tt
      → Sources flags p w
  unfolding redirect
  redirect-Sources flags p w a b c h =
      let b1 = has flags StandardStream.stdin in
      let b2 = has flags StandardStream.stdout in
      let b3 = has flags StandardStream.stderr in
      let first = redirect_if fd b1 p.stdin.fds_0 (pos 0) in
      let second = redirect_if fd b2 p.stdout.fds_1 (pos 1) in
      let third = redirect_if fd b3 p.stderr.fds_1 (pos 2) in
      let (h1, h', e) = sequence fd l first (second >> third) w h in
      let w1 = (first w).1 in
      let (h2, h3, e') = sequence fd l second third w1 h' in
      let w2 = (second w1).1 in
      let t1 = table-redirect_if fd l b1 p.stdin.fds_0 (pos 0) w in
      let t2 = table-redirect_if fd l b2 p.stdout.fds_1 (pos 1) w1 in
      record {
        stdin = λ set. redirect_if-IsOpen b1 p.stdin.fds_0 (pos 0) w set h1;
        stdout = λ set closed.
            redirect_if-IsOpen b2 p.stdout.fds_1 (pos 1) w1 set h2
              (ground (arith, t1 p.stdout.fds_1 h1));
        stderr = λ set closed.
            redirect_if-IsOpen b3 p.stderr.fds_1 (pos 2) w2 set h3
              (ground (arith, t1 p.stderr.fds_1 h1, t2 p.stderr.fds_1 h2));
      }

  -- A standard stream whose flag is set leads to its pipe, and any other to what it led to.
  pub record StandardLinks (flags : StandardStream) (w v : W) (i o e : ℕ) : Type 0 where
    pub stdin : has flags StandardStream.stdin ≡ true → table v (pos 0) ≡ some (reader i)
    pub stdout : has flags StandardStream.stdout ≡ true → table v (pos 1) ≡ some (writer o)
    pub stderr : has flags StandardStream.stderr ≡ true → table v (pos 2) ≡ some (writer e)
    pub no_stdin : has flags StandardStream.stdin ≡ false → table v (pos 0) ≡ table w (pos 0)
    pub no_stdout : has flags StandardStream.stdout ≡ false → table v (pos 1) ≡ table w (pos 1)
    pub no_stderr : has flags StandardStream.stderr ≡ false → table v (pos 2) ≡ table w (pos 2)

  -- The standard streams of a process are open.
  pub record HasStandard (w : W) : Type 0 where
    pub file_0 : File
    pub file_1 : File
    pub file_2 : File
    pub open_0 : table w (pos 0) ≡ some file_0
    pub open_1 : table w (pos 1) ≡ some file_1
    pub open_2 : table w (pos 2) ≡ some file_2

  pub redirect-StandardLinks :
      (flags : StandardStream) {made : StandardStream} (w w' : W) (p : Pipes)
      (m : IsMade fd l made w w' p)
      → HasStandard w
      → let v = (close_parent_ends fd p w').1 in
        (redirect fd flags (children fd l p) v).0 ≡ ok tt
        → StandardLinks flags w (redirect fd flags (children fd l p) v).1 m.k_in m.k_out m.k_err
  redirect-StandardLinks flags {made} w w' p m standard h =
      let v = (close_parent_ends fd p w').1 in
      let q = children fd l p in
      let ends = close_parent_ends-ChildEnds fd l w w' p m in
      let (t0, o0, e0) = old-IsMade fd l w w' p (pos 0) standard.file_0 m standard.open_0 in
      let (t1, o1, e1) = old-IsMade fd l w w' p (pos 1) standard.file_1 m standard.open_1 in
      let (t2, o2, e2) = old-IsMade fd l w w' p (pos 2) standard.file_2 m standard.open_2 in
      let t = λ (x : ℤ). table-redirect fd l flags q v x o0 e0 e1 h in
      let sources = redirect-Sources flags q v o0 e0 e1 h in
      record {
        stdin =
            λ set. ground (arith, t (pos 0), sources.stdin set, ends.stdin, l.table-minus_one v);
        stdout =
            λ set. ground (arith, t (pos 1), sources.stdout set, ends.stdout, l.table-minus_one v);
        stderr =
            λ set. ground (arith, t (pos 2), sources.stderr set, ends.stderr, l.table-minus_one v);
        no_stdin = λ set. ground (arith, t (pos 0), t0, standard.open_0);
        no_stdout = λ set. ground (arith, t (pos 1), t1, standard.open_1);
        no_stderr = λ set. ground (arith, t (pos 2), t2, standard.open_2);
      }

  redirect_if_ok :
      (y : PlentyLaws fd l) (b : Bool) (from stream : ℤ) (w : W)
      → (b ≡ true → table w from ≢ none)
      → table w stream ≢ none
      → (redirect_if fd b from stream w).0 ≡ ok tt
  unfolding redirect_if redirect_stream_to_fd
  redirect_if_ok y true from stream w source target =
      ground (arith, y.dup2_room from stream w (source refl) target)
  redirect_if_ok y false from stream w source target = refl

  -- While there is room, redirections to open standard streams return.
  redirect_ok :
      (y : PlentyLaws fd l) (flags : StandardStream) (p : Pipes) (w : W)
      → eqb p.stdout.fds_1 (pos 0) ≡ false
      → eqb p.stderr.fds_1 (pos 0) ≡ false
      → eqb p.stderr.fds_1 (pos 1) ≡ false
      → Sources flags p w
      → table w (pos 0) ≢ none
      → table w (pos 1) ≢ none
      → table w (pos 2) ≢ none
      → (redirect fd flags p w).0 ≡ ok tt
  unfolding redirect
  redirect_ok y flags p w a b c sources t0 t1 t2 =
      let b1 = has flags StandardStream.stdin in
      let b2 = has flags StandardStream.stdout in
      let b3 = has flags StandardStream.stderr in
      let first = redirect_if fd b1 p.stdin.fds_0 (pos 0) in
      let second = redirect_if fd b2 p.stdout.fds_1 (pos 1) in
      let third = redirect_if fd b3 p.stderr.fds_1 (pos 2) in
      let w1 = (first w).1 in
      let w2 = (second w1).1 in
      let h1 = redirect_if_ok y b1 p.stdin.fds_0 (pos 0) w sources.stdin t0 in
      let at1 = λ (x : ℤ). table-redirect_if fd l b1 p.stdin.fds_0 (pos 0) w x h1 in
      let h2 =
        redirect_if_ok y b2 p.stdout.fds_1 (pos 1) w1
          (λ set closed. sources.stdout set (ground (arith, at1 p.stdout.fds_1)))
          (λ closed. t1 (ground (arith, at1 (pos 1)))) in
      let at2 = λ (x : ℤ). table-redirect_if fd l b2 p.stdout.fds_1 (pos 1) w1 x h2 in
      let h3 =
        redirect_if_ok y b3 p.stderr.fds_1 (pos 2) w2
          (λ set closed.
            sources.stderr set (ground (arith, at1 p.stderr.fds_1, at2 p.stderr.fds_1)))
          (λ closed. t2 (ground (arith, at1 (pos 2), at2 (pos 2)))) in
      rw (h1, h2, h3) refl

  leads_open :
      (w : W) (x : ℤ) (f : File) → Leads fd l w x f → eqb x minus_one ≡ false → table w x ≢ none
  leads_open w x f h opened closed = ground (arith, h, closed, eqb_iff x minus_one)

  -- The flags that are redirected have made pipes with both ends.
  pub record AreSet (flags : StandardStream) (p : Pipes) : Type 0 where
    pub stdin : has flags StandardStream.stdin ≡ true → IsOpened fd l p.stdin
    pub stdout : has flags StandardStream.stdout ≡ true → IsOpened fd l p.stdout
    pub stderr : has flags StandardStream.stderr ≡ true → IsOpened fd l p.stderr

  -- While there is room, the child of a process with open standard streams redirects them.
  pub redirect-IsMade :
      (y : PlentyLaws fd l) (flags : StandardStream) {made : StandardStream} (w w' : W) (p : Pipes)
      → IsMade fd l made w w' p
      → AreSet flags p
      → HasStandard w
      → (redirect fd flags (children fd l p) (close_parent_ends fd p w').1).0 ≡ ok tt
  redirect-IsMade y flags {made} w w' p m set standard =
      let v = (close_parent_ends fd p w').1 in
      let ends = close_parent_ends-ChildEnds fd l w w' p m in
      let (t0, o0, e0) = old-IsMade fd l w w' p (pos 0) standard.file_0 m standard.open_0 in
      let (t1, o1, e1) = old-IsMade fd l w w' p (pos 1) standard.file_1 m standard.open_1 in
      let (t2, o2, e2) = old-IsMade fd l w w' p (pos 2) standard.file_2 m standard.open_2 in
      redirect_ok y flags (children fd l p) v o0 e0 e1
        (record {
          stdin = λ b. leads_open v p.stdin.fds_0 (reader m.k_in) ends.stdin (set.stdin b).0;
          stdout = λ b. leads_open v p.stdout.fds_1 (writer m.k_out) ends.stdout (set.stdout b).1;
          stderr = λ b. leads_open v p.stderr.fds_1 (writer m.k_err) ends.stderr (set.stderr b).1;
        })
        (λ closed. cc) (λ closed. cc) (λ closed. cc)

  -- The pipes of the streams whose flags are set are different ones.
  pub record AreDistinct (flags : StandardStream) (i o e : ℕ) : Type 0 where
    pub in_out :
        has flags StandardStream.stdin ≡ true → has flags StandardStream.stdout ≡ true → i ≢ o
    pub in_err :
        has flags StandardStream.stdin ≡ true → has flags StandardStream.stderr ≡ true → i ≢ e
    pub out_err :
        has flags StandardStream.stdout ≡ true → has flags StandardStream.stderr ≡ true → o ≢ e

  distinct_ids :
      (w w' : W) (x : ℤ) (a b : ℕ)
      → Leads fd l w x (writer a)
      → eqb x minus_one ≡ false
      → (table w x ≡ some (writer a) → table w' x ≡ some (writer a))
      → (table w' x ≢ some (writer b))
      → a ≢ b
  distinct_ids w w' x a b h opened keeps unused same =
      unused (ground (arith, h, keeps, same, eqb_iff x minus_one))

  pub IsMade-AreDistinct :
      (y : PlentyLaws fd l) {made : StandardStream} (flags : StandardStream) (w w' : W) (p : Pipes)
      (m : IsMade fd l made w w' p)
      → AreSet flags p
      → AreDistinct flags m.k_in m.k_out m.k_err
  IsMade-AreDistinct y flags w w' p m set =
      let a = m.stdin_IsAdded in
      let b = m.stdout_IsAdded in
      let c = m.stderr_IsAdded in
      let i = p.stdin.fds_1 in
      let o = p.stdout.fds_1 in
      record {
        in_out = λ f g.
            distinct_ids m.w1 m.w1 i m.k_in m.k_out a.carries.write (set.stdin f).1 (λ h. h)
              (b.unused y i).1;
        in_err = λ f g.
            distinct_ids m.w1 m.w2 i m.k_in m.k_err a.carries.write (set.stdin f).1
              (b.keeps i (writer m.k_in)) (c.unused y i).1;
        out_err = λ f g.
            distinct_ids m.w2 m.w2 o m.k_out m.k_err b.carries.write (set.stdout f).1 (λ h. h)
              (c.unused y o).1;
      }
