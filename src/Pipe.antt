-- ===== src/Pipe.antt =====
-- ChildProcess::Pipe of src/core/posix/child_process.cpp: the owner of the two ends of a pipe.
pub mod Assignment
pub mod Ownership
use process_cpp.Prelude.{ℤ, minus_one, eqb, Option, none, some, if◌then◌else◌}
use process_cpp.Effect.{Effect, Result, system_error, ok, throw}
use process_cpp.Descriptors.{FdCalls}

-- `int fds[2]`: -1 marks an end that is not open.
pub record Pipe : Type 0 where
  pub fds_0 : ℤ
  pub fds_1 : ℤ

abbrev pub closed_pipe : Pipe
closed_pipe = record { fds_0 = minus_one; fds_1 = minus_one }

-- Pipe::read_fd, Pipe::write_fd.
abbrev pub read_fd : Pipe → ℤ
read_fd p = p.fds_0

abbrev pub write_fd : Pipe → ℤ
write_fd p = p.fds_1

module _ {W : Type 0} (os : FdCalls W) where
  -- `if (fd != -1) ::close(fd);`
  unfoldable pub close_valid : ℤ → W → W
  close_valid fd w = if eqb fd minus_one then w else os.close fd w

  -- `fd != -1 ? ::dup(fd) : -1`
  unfoldable pub dup_valid : ℤ → W → ℤ × W
  dup_valid fd w = if eqb fd minus_one then (minus_one, w) else os.dup fd w

  -- The constructor Pipe().
  unfoldable pub open_pipe : Effect W Pipe
  open_pipe w =
      let (r, w') = os.pipe w in
      if eqb r.rc minus_one
      then (throw (system_error (os.errno w')), w')
      else (ok (record { fds_0 = r.read_end; fds_1 = r.write_end }), w')

  -- The copy constructor.
  unfoldable pub copy : Pipe → W → Pipe × W
  unfolding dup_valid
  copy rhs w =
      let (fd0, w0) = dup_valid rhs.fds_0 w in
      let (fd1, w1) = dup_valid rhs.fds_1 w0 in (record { fds_0 = fd0; fds_1 = fd1 }, w1)

  -- The destructor.
  unfoldable pub destroy : Pipe → W → W
  unfolding close_valid
  destroy p w = close_valid p.fds_1 (close_valid p.fds_0 w)

  unfoldable pub close_read_fd : Pipe → W → Pipe × W
  close_read_fd p w =
      if eqb p.fds_0 minus_one then (p, w) else (record p { fds_0 = minus_one }, os.close p.fds_0 w)

  unfoldable pub close_write_fd : Pipe → W → Pipe × W
  close_write_fd p w =
      if eqb p.fds_1 minus_one then (p, w) else (record p { fds_1 = minus_one }, os.close p.fds_1 w)

  -- operator=: both descriptors of the target are closed, then those of `rhs` are duplicated.
  -- Each field of `rhs` is read before the same field of the target is written, so that
  -- `assign p p` is the assignment of an object to itself.
  unfoldable pub assign : Pipe → Pipe → W → Pipe × W
  unfolding close_valid dup_valid
  assign p rhs w =
      let w0 = close_valid p.fds_1 (close_valid p.fds_0 w) in
      let (fd0, w1) = dup_valid rhs.fds_0 w0 in
      let (fd1, w2) = dup_valid rhs.fds_1 w1 in (record { fds_0 = fd0; fds_1 = fd1 }, w2)

  -- The first call of Pipe::invalid: it initialises the static pipe and closes both its ends.
  unfoldable pub invalid_init : Result Pipe → W → (Option Pipe × Result Pipe) × W
  unfolding copy close_read_fd close_write_fd
  invalid_init (throw e) w = ((none, throw e), w)
  invalid_init (ok p) w =
      let (p', w1) = close_read_fd p w in
      let (p'', w2) = close_write_fd p' w1 in let (c, w3) = copy p'' w2 in ((some p'', ok c), w3)

  -- Pipe::invalid. The first argument is the static object, `none` until it is initialised; where
  -- its constructor throws it stays so, and the next call tries again.
  unfoldable pub invalid : Option Pipe → W → (Option Pipe × Result Pipe) × W
  unfolding open_pipe copy invalid_init
  invalid (some p) w = let (c, w') = copy p w in ((some p, ok c), w')
  invalid none w = let (r, w') = open_pipe w in invalid_init r w'
