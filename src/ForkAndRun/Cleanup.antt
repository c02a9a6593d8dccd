-- ===== src/ForkAndRun/Cleanup.antt =====
-- What fork_and_run leaves of its children.
use process_cpp.Prelude.{
  ℤ, pos, minus_one, eqb, eqb_iff, ◌≡◌, refl, sym, ap, ◌∙◌, inl, inr, false, some, List, [], ◌∷◌,
  ◌++◌, if◌then◌else◌, arith,
}
use process_cpp.Effect.{Effect, Result, Result-cases, Error, ok, throw, pure, ◌>>=◌}
use process_cpp.Descriptors.{FdCalls, FdLaws}
use process_cpp.Pipe.{destroy}
use process_cpp.ProcessCalls.{ProcessCalls}
use process_cpp.StandardStream
use process_cpp.Wait.{Flags, WaitMacros, wait_for}
use process_cpp.Process.{Signalable, send_signal_or_throw}
use process_cpp.ChildProcess.{Private, ChildProcess, destroy_private}
use process_cpp.ChildProcess.Lifetime.{KillLaws, sent-destroy_private}
use process_cpp.Session.{Session}
use process_cpp.Fork.{returns, fork}
use process_cpp.Fork.Pids.{IdentityLaws, getpid-destroy}
use process_cpp.Fork.Identity.{Owns, fork-CameBack}
use process_cpp.ForkAndRun.{
  ForkAndRunResult, Numbers, empty, client_failed, service_failed, add_if, failed, supervise,
  caller, fork_main, with_client, with_service, fork_and_run,
}

module _ {W : Type 0} (fd : FdCalls W) (l : FdLaws fd) (os : ProcessCalls W) (m : WaitMacros)
    (numbers : Numbers) (kill_laws : KillLaws fd l os) (k : IdentityLaws fd os) where
  open numbers use {sig_term, sigkill, untraced}
  open kill_laws use {sent}

  getpid-wait_for :
      (p : ℤ) (flags : Flags) (w : W) → os.getpid (wait_for os m p flags w).1 ≡ os.getpid w
  unfolding wait_for
  getpid-wait_for p flags w = ground (arith, k.getpid-waitpid p (pos flags) w)

  getpid-send_signal_or_throw :
      (s : Signalable) (signal : ℤ) (w : W)
      → os.getpid (send_signal_or_throw os s signal w).1 ≡ os.getpid w
  unfolding send_signal_or_throw
  getpid-send_signal_or_throw s signal w = ground (arith, k.getpid-kill s.kill_pid signal w)

  getpid-bind :
      {A B : Type 0} (n : Effect W A) (f : A → Effect W B)
      → ((w : W) → os.getpid (n w).1 ≡ os.getpid w)
      → ((a : A) (w : W) → os.getpid (f a w).1 ≡ os.getpid w)
      → (w : W) → os.getpid ((n >>= f) w).1 ≡ os.getpid w
  getpid-bind n f h g w = elim (Result-cases (n w).0) [
    | inl (a, e) ↦ rw e (g a (n w).1 ∙ h w)
    | inr (x, e) ↦ rw e (h w)
  ]

  getpid-supervise :
      (service client : ChildProcess) (w : W)
      → os.getpid (supervise fd os m numbers service client w).1 ≡ os.getpid w
  unfolding supervise
  getpid-supervise service client =
      getpid-bind (wait_for os m client.pid untraced) _ (getpid-wait_for client.pid untraced) (λ a.
        getpid-bind (send_signal_or_throw os service.process.signalable sig_term) _
          (getpid-send_signal_or_throw service.process.signalable sig_term)
          (λ b.
            getpid-bind (wait_for os m service.pid untraced)
              (λ r. pure (add_if (failed r) (add_if (failed a) empty client_failed) service_failed))
              (getpid-wait_for service.pid untraced) (λ c w. refl)))

  -- Destroying a ChildProcess of this process kills its child.
  sent_owned :
      (c : ChildProcess) (pid : ℤ) (w w' : W)
      → eqb pid minus_one ≡ false
      → Owns fd os k w pid c
      → os.getpid w' ≡ os.getpid w
      → sent (destroy_private fd os sigkill c.private w') ≡ (pid, sigkill) ∷ sent w'
  sent_owned c pid w w' real owns same = ground (
    arith,
    sent-destroy_private fd l os kill_laws sigkill c.private w',
    owns.parent_pid,
    owns.child_pid,
    same,
    eqb_iff c.private.original_parent_pid (os.getpid w'),
  )

  getpid-destroy_private :
      (d : Private) (w : W) → os.getpid (destroy_private fd os sigkill d w) ≡ os.getpid w
  unfolding destroy_private
  getpid-destroy_private d w =
      let killed =
        (if eqb d.original_parent_pid (os.getpid w)
          then if eqb d.original_child_pid minus_one
            then w
            else (os.kill d.original_child_pid sigkill w).1
          else w) in
      let w1 = destroy fd d.pipes.stderr killed in
      let w2 = destroy fd d.pipes.stdout w1 in
      getpid-destroy fd os k d.pipes.stdin w2
      ∙ getpid-destroy fd os k d.pipes.stdout w1
      ∙ getpid-destroy fd os k d.pipes.stderr killed
      ∙ ground (arith, k.getpid-kill d.original_child_pid sigkill w)

  -- The signals that the destructors of the objects that a fork returned send.
  abbrev pub kills : Result ChildProcess → List (ℤ × ℤ)
  kills (ok c) = (c.private.original_child_pid, sigkill) ∷ []
  kills (throw e) = []

  kill_of :
      (c : ChildProcess) (w w' : W)
      → (pid : ℤ) × (eqb pid minus_one ≡ false) × Owns fd os k w pid c
      → os.getpid w' ≡ os.getpid w
      → sent (destroy_private fd os sigkill c.private w')
        ≡ (c.private.original_child_pid, sigkill) ∷ sent w'
  kill_of c w w' (pid, real, owns) same =
      sent_owned c pid w w' real owns same
      ∙ ap (λ (p : ℤ). (p, sigkill) ∷ sent w') (sym owns.child_pid)

  module _ (report : Error → W → W) (service client : Effect W ℤ) where
    with_client-kills :
        (service_process : ChildProcess) (w : W) (second : Result ChildProcess) (s : Session W)
        → (pid : ℤ) × (eqb pid minus_one ≡ false) × Owns fd os k w pid service_process
        → ((c : ChildProcess)
            → second ≡ ok c
            → (pid : ℤ) × (eqb pid minus_one ≡ false) × Owns fd os k s.world pid c)
        → os.getpid s.world ≡ os.getpid w
        → (rest : List (ℤ × ℤ)) × (sent
              (with_client fd os m numbers report service client service_process
                (second, s)).1.world
            ≡ (service_process.private.original_child_pid, sigkill) ∷ (kills second ++ rest))
    unfolding with_client
    with_client-kills service_process w (throw e) s owned others same =
        (sent s.world, kill_of service_process w s.world owned same)
    with_client-kills service_process w (ok c) s owned others same =
        let w1 = (supervise fd os m numbers service_process c s.world).1 in
        let same1 = getpid-supervise service_process c s.world in
        let w2 = destroy_private fd os sigkill c.private w1 in
        let same2 = getpid-destroy_private c.private w1 in
        (
          sent w1,
          kill_of service_process w w2 owned (same2 ∙ same1 ∙ same)
              ∙ ap
                  (λ (rest : List (ℤ × ℤ)).
                    (service_process.private.original_child_pid, sigkill) ∷ rest)
                  (kill_of c s.world w1 (others c refl) same1),
        )

    returned :
        (main : Effect W ℤ) (s s1 : Session W) (r : Result ChildProcess)
        → (fork fd os report main StandardStream.empty s).parent ≡ returns r s1
        → fork_main fd os m numbers report service client main s ≡ some (r, s1)
    unfolding fork_main
    returned main s s1 r h = ap (caller fd os m numbers) h

    first_step :
        (s : Session W) (x : Result ChildProcess × Session W)
        → fork_main fd os m numbers report service client service s ≡ some x
        → fork_and_run fd os m numbers report service client s
          ≡ with_service fd os m numbers report service client x
    unfolding fork_and_run
    first_step s x h = rw (h, fork_and_run) refl

    second_step :
        (c : ChildProcess) (s : Session W) (x : Result ChildProcess × Session W)
        → fork_main fd os m numbers report service client client s ≡ some x
        → with_service fd os m numbers report service client (ok c, s)
          ≡ some (with_client fd os m numbers report service client c x)
    unfolding with_service
    second_step c s x h = rw (h, with_service) refl

    -- Given the laws of kill and that no call of the process changes its pid: where the fork of the
    -- service returns a ChildProcess and the fork of the client comes back, by a result or by an
    -- exception, the call of fork_and_run comes back too, and the last signals that it has sent are
    -- SIGKILL to the process of the service and, before that, to that of the client if there is one,
    -- whichever of the calls in between throws.
    pub fork_and_run-kills :
        (s s1 s2 : Session W) (service_process : ChildProcess) (second : Result ChildProcess)
        → (fork fd os report service StandardStream.empty s).parent
          ≡ returns (ok service_process) s1
        → (fork fd os report client StandardStream.empty s1).parent ≡ returns second s2
        → (r : Result ForkAndRunResult) × (s' : Session W) × (rest : List (ℤ × ℤ)) × (fork_and_run
              fd os m numbers report service client s
            ≡ some (r, s'))
          × (sent s'.world
              ≡ (service_process.private.original_child_pid, sigkill) ∷ (kills second ++ rest))
    fork_and_run-kills s s1 s2 service_process second forked forked_too =
        let first =
          fork-CameBack fd os k report service StandardStream.empty s s1 (ok service_process)
            forked in
        let again =
          fork-CameBack fd os k report client StandardStream.empty s1 s2 second forked_too in
        let (rest, e) =
          with_client-kills service_process s1.world second s2 (first.owns service_process refl)
            again.owns again.same_pid in
        let end = with_client fd os m numbers report service client service_process (second, s2) in
        (
          end.0,
          end.1,
          rest,
          first_step s (ok service_process, s1) (returned service s s1 (ok service_process) forked)
              ∙ second_step service_process s1 (second, s2)
                  (returned client s1 s2 second forked_too),
          e,
        )
