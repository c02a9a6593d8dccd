-- ===== src/Exec/Running.antt =====
-- src/core/posix/exec.cpp: the child of an exec from its fork to its call of execve.
use process_cpp.Prelude.{ℕ, ℤ, ◌≡◌, ap, subst, sym, ◌∙◌, inl, inr, Option, some, List, ◌∷◌}
use process_cpp.Effect.{Effect, Result, Result-cases, Error, ok, throw, continue}
use process_cpp.Descriptors.{FdCalls, FdLaws, PlentyLaws}
use process_cpp.ProcessCalls.{ProcessCalls}
use process_cpp.StandardStream.{StandardStream}
use process_cpp.ChildProcess.{ChildProcess}
use process_cpp.Session.{Session}
use process_cpp.Text.{Str, c_str}
use process_cpp.Fork.{Ending, returns, exits, failure, exit_status}
use process_cpp.Fork.Invalid.{IsReady}
use process_cpp.Fork.Linking.{StreamLinks}
use process_cpp.Fork.Serving.{StandardLinks, HasStandard, AreDistinct}
use process_cpp.Fork.Links.{ForkLaws, Runs, fork-IsConnected}
use process_cpp.Exec.{Cell, string, env_lines, exec_main, exec}
use process_cpp.Exec.Arrays.{copies, exec_main_lem}

module _ {W : Type 0} (fd : FdCalls W) (l : FdLaws fd) (os : ProcessCalls W)
    (report : Error → W → W) (execve : Str → List Cell → List Cell → Effect W ℤ)
    (undefined : Effect W ℤ) (fn : Str) (argv : List Str) (env : List (Str × Str))
    (flags : StandardStream) (child_setup : Effect W (Unit {0})) where
  abbrev pub execve_call : Effect W ℤ
  execve_call = execve (c_str fn) (string (c_str fn) ∷ copies argv) (copies (env_lines env))

  -- How the child ends: execve is called after the set-up, and what it returns is the child's status;
  -- or the set-up throws, which the child reports.
  pub data Executed (w : W) (i o e : ℕ) : Ending W → Type 0 where
    executed :
        (v u : W)
        → StandardLinks fd l flags w v i o e
        → child_setup v ≡ (ok tt, u)
        → Executed w i o e (
            exits
              (exit_status fd report (execve_call u)).0
              (exit_status fd report (execve_call u)).1)
    not_set_up :
        (x : Error) (v u : W)
        → StandardLinks fd l flags w v i o e
        → child_setup v ≡ (throw x, u)
        → Executed w i o e (exits failure (report x u))

  abbrev main : Effect W ℤ
  main = exec_main execve undefined fn argv env child_setup

  main_ok : (v u : W) → child_setup v ≡ (ok tt, u) → main v ≡ execve_call u
  main_ok v u h =
      ap (λ (m : Effect W ℤ). m v) (exec_main_lem execve undefined fn argv env child_setup)
      ∙ ap (λ (r : Result (Unit {0}) × W). continue r.0 (λ t. execve_call) r.1) h

  main_throw : (x : Error) (v u : W) → child_setup v ≡ (throw x, u) → main v ≡ (throw x, u)
  main_throw x v u h =
      ap (λ (m : Effect W ℤ). m v) (exec_main_lem execve undefined fn argv env child_setup)
      ∙ ap (λ (r : Result (Unit {0}) × W). continue r.0 (λ t. execve_call) r.1) h

  abbrev exits_with : Result ℤ × W → Ending W
  exits_with r = exits (exit_status fd report r).0 (exit_status fd report r).1

  main-Executed :
      (w v : W) (i o e : ℕ)
      → StandardLinks fd l flags w v i o e
      → Executed w i o e (exits_with (main v))
  unfolding exit_status
  main-Executed w v i o e links = elim (Result-cases (child_setup v).0) [
    | inl (tt, h) ↦
        let u = (child_setup v).1 in
        let done : child_setup v ≡ (ok tt, u) = ap (λ (r : Result (Unit {0})). (r, u)) h in
        subst (λ (r : Result ℤ × W). Executed w i o e (exits_with r)) (sym (main_ok v u done))
          (executed v u links done)
    | inr (x, h) ↦
        let u = (child_setup v).1 in
        let failed : child_setup v ≡ (throw x, u) = ap (λ (r : Result (Unit {0})). (r, u)) h in
        subst (λ (r : Result ℤ × W). Executed w i o e (exits_with r))
          (sym (main_throw x v u failed)) (not_set_up x v u links failed)
  ]

  Runs-Executed :
      (w : W) (i o e : ℕ) (ending : Ending W)
      → Runs fd l report main flags w i o e ending
      → Executed w i o e ending
  Runs-Executed w i o e ending k =
      subst (Executed w i o e) (sym k.exits_so) (main-Executed w k.v i o e k.links)

  -- What an exec leaves that returned a ChildProcess.
  pub record IsExecuted (w : W) (s' : Session W) (c : ChildProcess) (child : Option (Ending W))
      : Type 0 where
    pub i : ℕ
    pub o : ℕ
    pub e : ℕ
    pub distinct : AreDistinct fd l flags i o e
    pub links : StreamLinks fd l flags s'.world c.private i o e
    pub ending : Ending W
    pub is_ending : child ≡ some ending
    pub executes : Executed w i o e ending

  -- Given the laws of the calls on descriptors, room for descriptors, and a fork after which both
  -- processes have the caller's: where exec returns a ChildProcess and the caller had the descriptors 0
  -- to 2 open, with the static pipe of Pipe::invalid not made or without descriptors, each stream of the
  -- ChildProcess whose flag is set is open on the parent's end of a pipe of its own, and any other is
  -- over no descriptor. The child, with each standard stream whose flag is set at the other end of its
  -- pipe and the others as they were, runs the set-up and then calls execve with the program, with the
  -- program and the arguments in an array that ends in a null pointer, and with the environment's lines
  -- in another; it exits with what execve returns. It exits with EXIT_FAILURE, after a report of the
  -- exception, where the set-up or execve throws.
  pub exec-IsExecuted :
      (y : PlentyLaws fd l) (laws : ForkLaws fd l os) (s s' : Session W) (c : ChildProcess)
      → IsReady s
      → HasStandard fd l s.world
      → (exec execve undefined fd os report fn argv env flags child_setup s).parent
        ≡ returns (ok c) s'
      → IsExecuted s.world s' c
          (exec execve undefined fd os report fn argv env flags child_setup s).child
  unfolding exec
  exec-IsExecuted y laws s s' c ready standard h =
      let linked = fork-IsConnected fd l report main flags os y laws s s' c ready standard h in
      record {
        i = linked.i;
        o = linked.o;
        e = linked.e;
        distinct = linked.distinct;
        links = linked.links;
        ending = linked.ending;
        is_ending = linked.is_ending;
        executes = Runs-Executed s.world linked.i linked.o linked.e linked.ending linked.runs;
      }
