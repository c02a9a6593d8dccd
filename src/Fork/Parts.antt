-- ===== src/Fork/Parts.antt =====
-- The parts of fork_pipes, from the last back to the first.
use process_cpp.Prelude.{◌≡◌, refl}
use process_cpp.Effect.{Effect, pure, ◌>>=◌}
use process_cpp.Descriptors.{FdCalls}
use process_cpp.Pipe.{Pipe}
use process_cpp.StandardStream
use process_cpp.StandardStream.{StandardStream, has}
use process_cpp.ChildProcess.{Pipes}
use process_cpp.Session.{Session, on_world, get_invalid, in_scope}
use process_cpp.Fork.{new_if, fork_pipes}

module _ {W : Type 0} (fd : FdCalls W) where
  abbrev pub in_all : {A : Type 0} → Pipe → Pipe → Pipe → Effect W A → Effect (Session W) A
  in_all a b c m = in_scope fd a (in_scope fd b (in_scope fd c (on_world m)))

  abbrev pub make_err : StandardStream → Pipe → Pipe → Pipe → Effect (Session W) Pipes
  make_err flags a b c = in_all a b c (new_if fd (has flags StandardStream.stderr) c) >>= λ c'.
      pure (record { stdin = a; stdout = b; stderr = c' })

  abbrev pub make_out : StandardStream → Pipe → Pipe → Pipe → Effect (Session W) Pipes
  make_out flags a b c =
      in_all a b c (new_if fd (has flags StandardStream.stdout) b) >>= λ b'. make_err flags a b' c

  abbrev pub make_in : StandardStream → Pipe → Pipe → Pipe → Effect (Session W) Pipes
  make_in flags a b c =
      in_all a b c (new_if fd (has flags StandardStream.stdin) a) >>= λ a'. make_out flags a' b c

  pub fork_pipes-make_in :
      (flags : StandardStream) (s : Session W)
      → fork_pipes fd flags s
        ≡ (get_invalid fd >>= λ a. in_scope fd a (get_invalid fd) >>= λ b.
              in_scope fd a (in_scope fd b (get_invalid fd)) >>= λ c. make_in flags a b c)
            s
  unfolding fork_pipes
  fork_pipes-make_in flags s = refl
