-- ===== src/Fork.antt =====
-- src/core/posix/fork.cpp. A fork returns twice, so the model has an ending for the parent and one for
-- the child. What the child's main function and its report of an exception do is a parameter.
pub mod Balance
pub mod Carrying
pub mod Ends
pub mod Holding
pub mod Identity
pub mod Invalid
pub mod Keeping
pub mod Leaking
pub mod Linking
pub mod Links
pub mod Making
pub mod Opening
pub mod Parts
pub mod Pids
pub mod Redirects
pub mod Releasing
pub mod Restoring
pub mod Serving
pub mod Severing
pub mod Sharing
pub mod Starting
pub mod Streams
use process_cpp.Prelude.{ℤ, pos, minus_one, eqb, Bool, Option, none, some, if◌then◌else◌}
use process_cpp.Effect.{Effect, Result, Error, ok, throw, system_error, pure, continue, ◌>>=◌, ◌>>◌}
use process_cpp.Descriptors.{FdCalls}
use process_cpp.Pipe.{
  Pipe, read_fd, write_fd, open_pipe, assign, destroy, close_read_fd, close_write_fd,
}
use process_cpp.ProcessCalls.{ProcessCalls}
use process_cpp.StandardStream
use process_cpp.StandardStream.{StandardStream, has}
use process_cpp.ChildProcess.{Pipes, ChildProcess, make_child}
use process_cpp.Session.{Session, on_world, get_invalid, in_scope}

-- exit::Status: EXIT_SUCCESS and EXIT_FAILURE.
abbrev pub success : ℤ
success = pos 0

abbrev pub failure : ℤ
failure = pos 1

unfoldable pub is_child : ℤ → Bool
is_child pid = eqb pid (pos 0)

-- How a process leaves the call: it returns to its caller, or it calls exit.
pub data Ending (W : Type 0) : Type 0 where
  returns : Result ChildProcess → Session W → Ending W
  exits : ℤ → W → Ending W

pub record Forked (W : Type 0) : Type 0 where
  pub parent : Ending W
  pub child : Option (Ending W)

module _ {W : Type 0} (fd : FdCalls W) where
  unfoldable pub redirect_stream_to_fd : ℤ → ℤ → Effect W (Unit {0})
  redirect_stream_to_fd from stream w =
      let (rc, w') = fd.dup2 from stream w in
      if eqb rc minus_one then (throw (system_error (fd.errno w')), w') else (ok tt, w')

  -- `p = ChildProcess::Pipe();`: the temporary is destroyed after the assignment.
  unfoldable pub assign_new : Pipe → Effect W Pipe
  unfolding open_pipe
  assign_new p w =
      continue (open_pipe fd w).0
        (λ t w1. let (q, w2) = assign fd p t w1 in (ok q, destroy fd t w2)) (open_pipe fd w).1

  unfoldable pub new_if : Bool → Pipe → Effect W Pipe
  unfolding assign_new
  new_if b p = if b then assign_new p else pure p

  abbrev pub destroy_pipes : Pipes → W → W
  destroy_pipes p w = destroy fd p.stdin (destroy fd p.stdout (destroy fd p.stderr w))

  -- The pipes of fork, before it forks: invalid ones, and new ones for the flags that are set.
  unfoldable pub fork_pipes : StandardStream → Effect (Session W) Pipes
  unfolding get_invalid new_if
  fork_pipes flags = do
    stdin ← get_invalid fd
    stdout ← in_scope fd stdin (get_invalid fd)
    stderr ← in_scope fd stdin (in_scope fd stdout (get_invalid fd))
    let in_all = λ (p : Pipes) (m : Effect W Pipe).
        in_scope fd p.stdin (in_scope fd p.stdout (in_scope fd p.stderr (on_world m)))
    stdin' ←
        in_all (record { stdin = stdin; stdout = stdout; stderr = stderr })
          (new_if (has flags StandardStream.stdin) stdin)
    stdout' ←
        in_all (record { stdin = stdin'; stdout = stdout; stderr = stderr })
          (new_if (has flags StandardStream.stdout) stdout)
    stderr' ←
        in_all (record { stdin = stdin'; stdout = stdout'; stderr = stderr })
          (new_if (has flags StandardStream.stderr) stderr)
    pure (record { stdin = stdin'; stdout = stdout'; stderr = stderr' })

  -- The pipes of vfork: a new one for each stream, whatever the flags are.
  unfoldable pub vfork_pipes : Effect (Session W) Pipes
  unfolding open_pipe
  vfork_pipes = do
    stdin ← on_world (open_pipe fd)
    stdout ← in_scope fd stdin (on_world (open_pipe fd))
    stderr ← in_scope fd stdin (in_scope fd stdout (on_world (open_pipe fd)))
    pure (record { stdin = stdin; stdout = stdout; stderr = stderr })

  -- What the child does first: it closes the ends that are the parent's.
  unfoldable pub close_parent_ends : Pipes → W → Pipes × W
  close_parent_ends p w =
      let (stdin, w1) = close_write_fd fd p.stdin w in
      let (stdout, w2) = close_read_fd fd p.stdout w1 in
      let (stderr, w3) = close_read_fd fd p.stderr w2 in
      (record { stdin = stdin; stdout = stdout; stderr = stderr }, w3)

  -- The parent closes the ends that are the child's.
  unfoldable pub close_child_ends : Pipes → W → Pipes × W
  close_child_ends p w =
      let (stdin, w1) = close_read_fd fd p.stdin w in
      let (stdout, w2) = close_write_fd fd p.stdout w1 in
      let (stderr, w3) = close_write_fd fd p.stderr w2 in
      (record { stdin = stdin; stdout = stdout; stderr = stderr }, w3)

  unfoldable pub redirect_if : Bool → ℤ → ℤ → Effect W (Unit {0})
  unfolding redirect_stream_to_fd
  redirect_if b from stream = if b then redirect_stream_to_fd from stream else pure tt

  -- The descriptors 0, 1 and 2 are STDIN_FILENO, STDOUT_FILENO and STDERR_FILENO.
  unfoldable pub redirect : StandardStream → Pipes → Effect W (Unit {0})
  unfolding redirect_if
  redirect flags p = do
    redirect_if (has flags StandardStream.stdin) (read_fd p.stdin) (pos 0)
    redirect_if (has flags StandardStream.stdout) (write_fd p.stdout) (pos 1)
    redirect_if (has flags StandardStream.stderr) (write_fd p.stderr) (pos 2)

  -- The handlers of the child: an exception is reported, and the result stays `failure`.
  unfoldable pub exit_status : (Error → W → W) → Result ℤ × W → ℤ × W
  exit_status report (ok result, w) = (result, w)
  exit_status report (throw e, w) = (failure, report e w)

  -- The child from the fork to its call of exit, with the pipes as it leaves them.
  unfoldable pub child_part :
      (Error → W → W) → Effect W ℤ → StandardStream → Pipes → W → (ℤ × Pipes) × W
  unfolding close_parent_ends redirect exit_status
  child_part report main flags p w =
      let (p', w1) = close_parent_ends p w in
      let (status, w2) = exit_status report ((redirect flags p' >>= λ _. main) w1) in
      ((status, p'), w2)

  module _ (os : ProcessCalls W) where
    -- The parent after the fork. Its local pipes are destroyed when it returns or throws.
    unfoldable pub parent_part : ℤ → Pipes → Effect W ChildProcess
    unfolding close_child_ends make_child
    parent_part pid p w =
        let (p', w1) = close_child_ends p w in
        let (r, w2) = make_child fd os pid p'.stdin p'.stdout p'.stderr w1 in
        (r, destroy_pipes p' w2)

    -- `errno` is thrown where the call of fork or vfork failed.
    abbrev pub not_forked : Pipes → Session W → W → Forked W
    not_forked p s w = record {
      parent = returns (throw (system_error (os.errno w))) (record s { world = destroy_pipes p w });
      child = none;
    }

    module _ (report : Error → W → W) (main : Effect W ℤ) (flags : StandardStream) where
      -- The code behind the call, in each of the two processes: `pid` is what the call returned.
      unfoldable pub after_fork : ℤ → Pipes → Session W → Ending W
      unfolding is_child child_part parent_part
      after_fork pid p s =
          if is_child pid
          then (let ((status, _), w) = child_part report main flags p s.world in exits status w)
          else (let (r, w) = parent_part pid p s.world in returns r (record s { world = w }))

      unfoldable pub fork_with : Result Pipes × Session W → Forked W
      unfolding after_fork
      fork_with (throw e, s) = record { parent = returns (throw e) s; child = none }
      fork_with (ok p, s) =
          let f = os.fork s.world in
          if eqb f.pid minus_one then not_forked p s f.parent else record {
            parent = after_fork f.pid p (record s { world = f.parent });
            child = some (after_fork (pos 0) p (record s { world = f.child }));
          }

      unfoldable pub fork : Session W → Forked W
      unfolding fork_pipes fork_with
      fork s = fork_with (fork_pipes flags s)

      -- The child of vfork runs in the memory of its parent, which goes on when the child has
      -- exited: the parent finds its local pipes as the child left them.
      unfoldable pub vfork_with : Result Pipes × Session W → Forked W
      unfolding child_part after_fork
      vfork_with (throw e, s) = record { parent = returns (throw e) s; child = none }
      vfork_with (ok p, s) =
          let f = os.vfork s.world in
          let ((status, p'), w) = child_part report main flags p f.child in
          if eqb f.pid minus_one then not_forked p s f.parent else record {
            parent = after_fork f.pid p' (record s { world = f.parent });
            child = some (exits status w);
          }

      unfoldable pub vfork : Session W → Forked W
      unfolding vfork_pipes vfork_with
      vfork s = vfork_with (vfork_pipes s)
