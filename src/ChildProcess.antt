-- ===== src/ChildProcess.antt =====
-- ChildProcess and ChildProcess::Private of src/core/posix/child_process.cpp.
pub mod Lifetime
use process_cpp.Prelude.{ℤ, minus_one, eqb, if◌then◌else◌}
use process_cpp.Effect.{Effect, ok, continue}
use process_cpp.Descriptors.{FdCalls}
use process_cpp.Pipe.{Pipe, read_fd, write_fd, copy, destroy}
use process_cpp.ProcessCalls.{ProcessCalls}
use process_cpp.Process.{Process, make_process}

-- The member `pipes` of Private.
pub record Pipes : Type 0 where
  pub stdin : Pipe
  pub stdout : Pipe
  pub stderr : Pipe

-- The stream buffers keep the descriptors that they were made for: `serr`, `sin` and `sout`.
pub record Private : Type 0 where
  pub pipes : Pipes
  pub serr : ℤ
  pub sin : ℤ
  pub sout : ℤ
  pub original_parent_pid : ℤ
  pub original_child_pid : ℤ

pub record ChildProcess : Type 0 where
  pub process : Process
  pub open process use *
  pub private : Private

module _ {W : Type 0} (fd : FdCalls W) (os : ProcessCalls W) where
  -- The constructor of Private, with its parameters in its own order and under its own names.
  -- `pipes{stderr, stdin, stdout}` fills the members in the order of their declaration, which is
  -- stdin, stdout, stderr.
  unfoldable pub make_private : ℤ → (stderr stdin stdout : Pipe) → W → Private × W
  make_private pid stderr stdin stdout w =
      let (first, w1) = copy fd stderr w in
      let (second, w2) = copy fd stdin w1 in
      let (third, w3) = copy fd stdout w2 in
      (
        record {
          pipes = record { stdin = first; stdout = second; stderr = third };
          serr = read_fd third;
          sin = write_fd first;
          sout = read_fd second;
          original_parent_pid = os.getpid w3;
          original_child_pid = pid;
        },
        w3,
      )

  -- The destructor of Private, which runs when the last copy of a ChildProcess goes away. `sigkill`
  -- is the number of SIGKILL.
  unfoldable pub destroy_private : ℤ → Private → W → W
  destroy_private sigkill p w =
      let killed =
        (if eqb p.original_parent_pid (os.getpid w)
          then if eqb p.original_child_pid minus_one
            then w
            else (os.kill p.original_child_pid sigkill w).1
          else w) in
      destroy fd p.pipes.stdin (destroy fd p.pipes.stdout (destroy fd p.pipes.stderr killed))

  -- The constructor of ChildProcess passes its pipes to that of Private by position.
  unfoldable pub make_child :
      ℤ → (stdin_pipe stdout_pipe stderr_pipe : Pipe) → Effect W ChildProcess
  unfolding make_private
  make_child pid stdin_pipe stdout_pipe stderr_pipe w =
      continue (make_process pid)
        (λ p w.
          let (d, w') = make_private pid stdin_pipe stdout_pipe stderr_pipe w in
          (ok (record { process = p; private = d }), w'))
        w
