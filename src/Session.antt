-- ===== src/Session.antt =====
-- The state that fork, vfork and ChildProcess::invalid work on: the operating system, and the static
-- object of Pipe::invalid.
use process_cpp.Prelude.{Option, pos}
use process_cpp.Effect.{Effect, Result, ok, throw, ◌>>=◌}
use process_cpp.Descriptors.{FdCalls}
use process_cpp.ProcessCalls.{ProcessCalls}
use process_cpp.ChildProcess.{ChildProcess, make_child}
use process_cpp.Pipe
use process_cpp.Pipe.{Pipe, destroy}

pub record Session (W : Type 0) : Type 0 where
  pub static_pipe : Option Pipe
  pub world : W

module _ {W A : Type 0} where
  abbrev pub on_world : Effect W A → Effect (Session W) A
  on_world m s = let (r, w) = m s.world in (r, record s { world = w })

module _ {W : Type 0} (fd : FdCalls W) where
  unfoldable pub get_invalid : Effect (Session W) Pipe
  get_invalid s =
      let ((static, r), w) = Pipe.invalid fd s.static_pipe s.world in
      (r, record { static_pipe = static; world = w })

  -- A local pipe is destroyed where an exception passes through its scope.
  abbrev pub unwound : {A : Type 0} → Pipe → Result A × Session W → Result A × Session W
  unwound p (ok a, s) = (ok a, s)
  unwound p (throw e, s) = (throw e, record s { world = destroy fd p s.world })

  abbrev pub in_scope : {A : Type 0} → Pipe → Effect (Session W) A → Effect (Session W) A
  in_scope p m s = unwound p (m s)

module _ {W : Type 0} (fd : FdCalls W) (os : ProcessCalls W) where
  -- ChildProcess::invalid: a ChildProcess for pid 1, with three invalid pipes that are destroyed when
  -- the object is made.
  unfoldable pub invalid_child : Effect (Session W) ChildProcess
  unfolding get_invalid make_child
  invalid_child = do
    stdin ← get_invalid fd
    stdout ← in_scope fd stdin (get_invalid fd)
    stderr ← in_scope fd stdin (in_scope fd stdout (get_invalid fd))
    c ← in_scope fd stdin (
        in_scope fd stdout
          (in_scope fd stderr (on_world (make_child fd os (pos 1) stdin stdout stderr))))
    on_world (λ w. (ok c, destroy fd stdin (destroy fd stdout (destroy fd stderr w))))
