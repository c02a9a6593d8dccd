-- ===== src/Tests/Family.antt =====
-- A small operating system of the fates of processes, for the interleavings of the death observer.
use process_cpp.Prelude.{
  zero, suc, ℤ, pos, negsuc, minus_one, eqb, leb_ℤ, ◌≡◌, refl, true, if◌then◌else◌, arith,
}
use process_cpp.ProcessCalls.{WaitReturn, ForkReturn, ProcessCalls}
use process_cpp.Wait.Linux.{macros}
use process_cpp.DeathObserver.Interleaving.{Fate, alive, zombie, gone, reaped, is_report, WaitLaws}

-- The fates of the processes, and the one that the next waitpid for any child looks at.
pub record Family : Type 0 where
  pub fates : ℤ → Fate
  pub next : ℤ

abbrev pub set_fate : (ℤ → Fate) → ℤ → Fate → ℤ → Fate
set_fate fates p f x = if eqb x p then f else fates x

abbrev pub answer_of : Fate → ℤ → ℤ
answer_of alive p = pos 0
answer_of zombie p = p
answer_of gone p = minus_one

abbrev pub report_of : ℤ → WaitReturn
report_of p = record { pid = p; status = pos 0 }

abbrev pub ask : ℤ → Family → WaitReturn × Family
ask p w = (
  report_of (answer_of (w.fates p) p),
  record { fates = λ x. if eqb x p then reaped (w.fates x) else w.fates x; next = w.next },
)

abbrev pub ask_next : ℤ → Fate → Family → WaitReturn × Family
ask_next (pos (suc n)) zombie w =
    (report_of (pos (suc n)), record { fates = set_fate w.fates (pos (suc n)) gone; next = pos 0 })
ask_next _ _ w = (report_of (pos 0), w)

abbrev pub wait_in : ℤ → Family → WaitReturn × Family
wait_in (pos (suc n)) w = ask (pos (suc n)) w
wait_in (pos zero) w = ask_next w.next (w.fates w.next) w
wait_in (negsuc n) w = (report_of minus_one, w)

abbrev pub no_children : Family → ForkReturn Family
no_children w = record { pid = minus_one; parent = w; child = w }

abbrev pub family : ProcessCalls Family
family = record {
  kill = λ p signal w. (pos 0, w);
  getpgid = λ p w. (pos 5, w);
  waitpid = λ p flags w. wait_in p w;
  getpid = λ w. pos 5;
  getppid = λ w. pos 4;
  fork = no_children;
  vfork = no_children;
  errno = λ w. 10;
}

abbrev pub itself : ℤ → ℤ
itself p = p

pub wait_alive :
    (w : Family) (p : ℤ) → leb_ℤ (pos 1) p ≡ true → w.fates p ≡ alive → (wait_in p w).0.pid ≡ pos 0
wait_alive w (pos zero) h e = ground arith
wait_alive w (pos (suc n)) h e = rw e
wait_alive w (negsuc n) h e = cc

pub wait_zombie :
    (w : Family) (p : ℤ) → leb_ℤ (pos 1) p ≡ true → w.fates p ≡ zombie → (wait_in p w).0.pid ≡ p
wait_zombie w (pos zero) h e = ground arith
wait_zombie w (pos (suc n)) h e = rw e
wait_zombie w (negsuc n) h e = cc

pub wait_gone :
    (w : Family) (p : ℤ)
    → leb_ℤ (pos 1) p ≡ true
    → w.fates p ≡ gone
    → (wait_in p w).0.pid ≡ minus_one
wait_gone w (pos zero) h e = ground arith
wait_gone w (pos (suc n)) h e = rw e
wait_gone w (negsuc n) h e = cc

pub fate-wait :
    (w : Family) (p x : ℤ)
    → leb_ℤ (pos 1) p ≡ true
    → (wait_in p w).1.fates x ≡ (if eqb x p then reaped (w.fates x) else w.fates x)
fate-wait w (pos zero) x h = ground arith
fate-wait w (pos (suc n)) x h = refl
fate-wait w (negsuc n) x h = cc

-- What waitpid for any child answers, by where it looks.
pub record IsAnswer (w : Family) (r : WaitReturn) (v : Family) : Type 0 where
  pub found : is_report r ≡ true → w.fates r.pid ≡ zombie
  pub death : is_report r ≡ true → r.status ≡ pos 0
  pub fates :
      (x : ℤ)
      → v.fates x ≡ (if is_report r then (if eqb x r.pid then gone else w.fates x) else w.fates x)

ask_next-IsAnswer :
    (p : ℤ) (f : Fate) (w : Family)
    → w.fates p ≡ f
    → IsAnswer w (ask_next p f w).0 (ask_next p f w).1
ask_next-IsAnswer (pos zero) f w e = record {
  found = λ h. cc;
  death = λ h. refl;
  fates = λ x. refl;
}
ask_next-IsAnswer (pos (suc n)) alive w e = record {
  found = λ h. cc;
  death = λ h. refl;
  fates = λ x. refl;
}
ask_next-IsAnswer (pos (suc n)) zombie w e = record {
  found = λ h. e;
  death = λ h. refl;
  fates = λ x. ground arith;
}
ask_next-IsAnswer (pos (suc n)) gone w e = record {
  found = λ h. cc;
  death = λ h. refl;
  fates = λ x. refl;
}
ask_next-IsAnswer (negsuc n) f w e = record {
  found = λ h. cc;
  death = λ h. refl;
  fates = λ x. refl;
}

pub answered : (w : Family) → IsAnswer w (wait_in (pos 0) w).0 (wait_in (pos 0) w).1
answered w = ask_next-IsAnswer w.next (w.fates w.next) w refl

pub death_of :
    (w : Family)
    → is_report (wait_in (pos 0) w).0 ≡ true
    → (if macros.wifsignaled (wait_in (pos 0) w).0.status
        then true
        else macros.wifexited (wait_in (pos 0) w).0.status)
      ≡ true
unfolding macros
death_of w h = rw ((answered w).death h) refl

abbrev pub family_laws : WaitLaws itself family macros (pos 1)
family_laws = record {
  fate = λ w p. w.fates p;
  wait_alive = wait_alive;
  wait_zombie = wait_zombie;
  wait_gone = wait_gone;
  fate-wait = fate-wait;
  wait_any_report = λ w h. (answered w).found h;
  wait_any_death = death_of;
  fate-wait_any = λ w x. (answered w).fates x;
}
