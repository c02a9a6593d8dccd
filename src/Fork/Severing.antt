-- ===== src/Fork/Severing.antt =====
-- The two processes that vfork leaves: the child has its pipes, and the parent has lost its ends.
use process_cpp.Prelude.{
  ℤ, minus_one, eqb, eqb_iff, ◌≡◌, ap, ◌∙◌, inl, inr, false, eqb_refl, Option-cases, none, some,
  arith,
}
use process_cpp.Effect.{Result, Result-cases}
use process_cpp.Descriptors.{FdCalls, FdLaws, File, reader, writer}
use process_cpp.Pipe.{closed_pipe}
use process_cpp.ProcessCalls.{ProcessCalls}
use process_cpp.Process.{make_process}
use process_cpp.StandardStream.{StandardStream}
use process_cpp.ChildProcess.{Pipes, ChildProcess, make_private, make_child}
use process_cpp.Fork.{close_child_ends, parent_part}
use process_cpp.Fork.Invalid.{Same, copy-closed_pipe}
use process_cpp.Fork.Making.{IsMade}
use process_cpp.Fork.Keeping.{table-close_child_ends}
use process_cpp.Fork.Linking.{table-destroy_pipes, parent_part-parents}
use process_cpp.Fork.Holding.{children}
use process_cpp.Fork.Sharing.{AreOpened}

module _ {W : Type 0} (fd : FdCalls W) (l : FdLaws fd) (os : ProcessCalls W) where
  open l use {table}

  -- Both processes have the descriptors that the caller of vfork had, each in a table of its own.
  pub record VforkLaws : Type 0 where
    pub parent_table : (w : W) → Same fd l w (os.vfork w).parent
    pub child_table : (w : W) → Same fd l w (os.vfork w).child

  abbrev closed_pipes : Pipes
  closed_pipes = record { stdin = closed_pipe; stdout = closed_pipe; stderr = closed_pipe }

  make_child-closed_pipe :
      (pid : ℤ) (w : W) → (make_child fd os pid closed_pipe closed_pipe closed_pipe w).1 ≡ w
  unfolding make_child make_private
  make_child-closed_pipe pid w = elim (Result-cases (make_process pid)) [
    | inl (pr, e) ↦ ground (arith, copy-closed_pipe fd l w)
    | inr (x, e) ↦ ground arith
  ]

  -- The parent's part, on the pipes as the child has left them, touches no descriptor but the child's.
  pub table-parent_part :
      (pid : ℤ) (p : Pipes) (w : W) (x : ℤ)
      → eqb x minus_one ≡ false
      → eqb x p.stdin.fds_0 ≡ false
      → eqb x p.stdout.fds_1 ≡ false
      → eqb x p.stderr.fds_1 ≡ false
      → table (parent_part fd os pid (children fd l p) w).1 x ≡ table w x
  table-parent_part pid p w x a b c d =
      let w1 = (close_child_ends fd (children fd l p) w).1 in
      let run =
        ap (λ (r : Result ChildProcess × W). table r.1 x)
          (parent_part-parents fd l os pid (children fd l p) w) in
      let after = (make_child fd os pid closed_pipe closed_pipe closed_pipe w1).1 in
      run
      ∙ table-destroy_pipes fd l closed_pipes after x
      ∙ ground (
        arith,
        ap (λ (v : W). table v x) (make_child-closed_pipe pid w1),
        table-close_child_ends fd l (children fd l p) w x,
      )

  -- A descriptor of a new pipe that is none of the child's ends.
  pub record IsParentEnd (w w' : W) (p : Pipes) (x : ℤ) (f : File) : Type 0 where
    pub is_new : table w x ≡ none
    pub is_open : table w' x ≡ some f
    pub valid : eqb x minus_one ≡ false
    pub not_stdin : eqb x p.stdin.fds_0 ≡ false
    pub not_stdout : eqb x p.stdout.fds_1 ≡ false
    pub not_stderr : eqb x p.stderr.fds_1 ≡ false

  new_end : (w : W) (x : ℤ) → ((f : File) → table w x ≡ some f → eqb x x ≡ false) → table w x ≡ none
  new_end w x apart = elim (Option-cases (table w x)) [
    | inl e ↦ e
    | inr (f, e) ↦ absurd (ground (arith, apart f e, eqb_refl x))
  ]

  module _ {flags : StandardStream} (w w' : W) (p : Pipes) (m : IsMade fd l flags w w' p)
      (opened : AreOpened fd l p) where
    pub stdin-IsParentEnd : IsParentEnd w w' p p.stdin.fds_1 (writer m.k_in)
    stdin-IsParentEnd =
        let a = m.stdin_IsAdded in
        let b = m.stdout_IsAdded in
        let c = m.stderr_IsAdded in
        let x = p.stdin.fds_1 in
        let here : table m.w1 x ≡ some (writer m.k_in) =
          ground (arith, a.carries.write, opened.stdin, eqb_iff x minus_one) in
        let there = b.keeps x (writer m.k_in) here in
        let (b0, b1) = b.apart x (writer m.k_in) here in
        let (c0, c1) = c.apart x (writer m.k_in) there in
        record {
          is_new = new_end w x (λ f e. (a.apart x f e).1);
          is_open = c.keeps x (writer m.k_in) there;
          valid = opened.stdin.1;
          not_stdin = ground (
            arith,
            here,
            a.carries.read,
            opened.stdin,
            eqb_iff x p.stdin.fds_0,
            eqb_iff p.stdin.fds_0 minus_one,
          );
          not_stdout = b1;
          not_stderr = c1;
        }

    pub stdout-IsParentEnd : IsParentEnd w w' p p.stdout.fds_0 (reader m.k_out)
    stdout-IsParentEnd =
        let a = m.stdin_IsAdded in
        let b = m.stdout_IsAdded in
        let c = m.stderr_IsAdded in
        let x = p.stdout.fds_0 in
        let y = p.stdin.fds_0 in
        let here : table m.w2 x ≡ some (reader m.k_out) =
          ground (arith, b.carries.read, opened.stdout, eqb_iff x minus_one) in
        let other : table m.w1 y ≡ some (reader m.k_in) =
          ground (arith, a.carries.read, opened.stdin, eqb_iff y minus_one) in
        record {
          is_new = new_end w x (λ f e. (b.apart x f (a.keeps x f e)).0);
          is_open = c.keeps x (reader m.k_out) here;
          valid = opened.stdout.0;
          not_stdin = ground (arith, b.apart y (reader m.k_in) other, eqb_iff x y, eqb_iff y x);
          not_stdout = ground (
            arith,
            here,
            b.carries.write,
            opened.stdout,
            eqb_iff x p.stdout.fds_1,
            eqb_iff p.stdout.fds_1 minus_one,
          );
          not_stderr = (c.apart x (reader m.k_out) here).1;
        }

    pub stderr-IsParentEnd : IsParentEnd w w' p p.stderr.fds_0 (reader m.k_err)
    stderr-IsParentEnd =
        let a = m.stdin_IsAdded in
        let b = m.stdout_IsAdded in
        let c = m.stderr_IsAdded in
        let x = p.stderr.fds_0 in
        let y = p.stdin.fds_0 in
        let z = p.stdout.fds_1 in
        let here : table w' x ≡ some (reader m.k_err) =
          ground (arith, c.carries.read, opened.stderr, eqb_iff x minus_one) in
        let at_y : table m.w1 y ≡ some (reader m.k_in) =
          ground (arith, a.carries.read, opened.stdin, eqb_iff y minus_one) in
        let at_z : table m.w2 z ≡ some (writer m.k_out) =
          ground (arith, b.carries.write, opened.stdout, eqb_iff z minus_one) in
        record {
          is_new = new_end w x (λ f e. (c.apart x f (b.keeps x f (a.keeps x f e))).0);
          is_open = here;
          valid = opened.stderr.0;
          not_stdin = ground (
            arith,
            c.apart y (reader m.k_in) (b.keeps y (reader m.k_in) at_y),
            eqb_iff x y,
            eqb_iff y x,
          );
          not_stdout = ground (arith, c.apart z (writer m.k_out) at_z, eqb_iff x z, eqb_iff z x);
          not_stderr = ground (
            arith,
            here,
            c.carries.write,
            opened.stderr,
            eqb_iff x p.stderr.fds_1,
            eqb_iff p.stderr.fds_1 minus_one,
          );
        }
