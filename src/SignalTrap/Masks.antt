-- ===== src/SignalTrap/Masks.antt =====
-- Which signals a trap has, and which are blocked before, during and after its life.
use process_cpp.Prelude.{
  ℤ, pos, minus_one, eqb, ◌≡◌, refl, ap, Bool, true, false, ◌&&◌, ◌||◌, List, [], ◌∷◌,
  if◌then◌else◌, arith,
}
use process_cpp.Effect.{ok}
use process_cpp.SignalTrap.{
  SignalCalls, Scope, process, thread, Trap, add_all, make_trap, destroy_trap, has, set_signal_mask,
}

-- What the manual pages say of signal sets and of SIG_BLOCK: the set of blocked signals becomes the
-- union of what it was and the given set, but for the signals that cannot be blocked (SIGKILL and
-- SIGSTOP), which are left out without an error; and the old set is returned.
pub record SignalLaws {W S : Type 0} (os : SignalCalls W S) : Type 0 where
  pub valid : ℤ → Bool
  pub member : S → ℤ → Bool
  pub member-empty : (x : ℤ) → member os.sigemptyset x ≡ false
  pub member-add :
      (s : S) (y x : ℤ) → member (os.sigaddset s y) x ≡ ((valid y && eqb y x) || member s x)
  pub sigismember_valid :
      (s : S) (x : ℤ) → valid x ≡ true → os.sigismember s x ≡ (if member s x then pos 1 else pos 0)
  pub sigismember_invalid : (s : S) (x : ℤ) → valid x ≡ false → os.sigismember s x ≡ minus_one
  pub blockable : ℤ → Bool
  -- Whether the calling thread blocks a signal.
  pub blocks : W → ℤ → Bool
  pub blocks-process :
      (s : S) (w : W) (x : ℤ)
      → blocks (os.block_process s w).1 x ≡ (blocks w x || (member s x && blockable x))
  pub blocks-thread :
      (s : S) (w : W) (x : ℤ)
      → blocks (os.block_thread s w).1 x ≡ (blocks w x || (member s x && blockable x))
  pub member-old_process : (s : S) (w : W) (x : ℤ) → member (os.block_process s w).0 x ≡ blocks w x
  pub member-old_thread : (s : S) (w : W) (x : ℤ) → member (os.block_thread s w).0 x ≡ blocks w x
  pub blocks-eventfd : (w : W) (x : ℤ) → blocks (os.eventfd w).1 x ≡ blocks w x
  pub blocks-close : (fd : ℤ) (w : W) (x : ℤ) → blocks (os.close fd w) x ≡ blocks w x

abbrev pub listed : (ℤ → Bool) → List ℤ → ℤ → Bool
listed valid [] x = false
listed valid (y ∷ rest) x = (valid y && eqb y x) || listed valid rest x

module _ {W S : Type 0} (os : SignalCalls W S) (l : SignalLaws os) where
  open l use {valid, member, blocks, blockable}

  member-add_all :
      (signals : List ℤ) (s : S) (x : ℤ)
      → member (add_all os s signals) x ≡ (listed valid signals x || member s x)
  unfolding add_all
  member-add_all [] s x = refl
  member-add_all (y ∷ rest) s x =
      ground (arith, member-add_all rest (os.sigaddset s y) x, l.member-add s y x)

  blocks-set :
      (scope : Scope) (s : S) (w : W) (x : ℤ)
      → blocks (set_signal_mask os scope s w).1 x ≡ (blocks w x || (member s x && blockable x))
  unfolding set_signal_mask
  blocks-set process s w x = l.blocks-process s w x
  blocks-set thread s w x = l.blocks-thread s w x

  member-old :
      (scope : Scope) (s : S) (w : W) (x : ℤ)
      → member (set_signal_mask os scope s w).0 x ≡ blocks w x
  unfolding set_signal_mask
  member-old process s w x = l.member-old_process s w x
  member-old thread s w x = l.member-old_thread s w x

  module _ (scope : Scope) (signals : List ℤ) (w : W) (t : Trap S)
      (made : (make_trap os scope signals w).0 ≡ ok t) (x : ℤ) where
    abbrev after_set : S × W
    after_set = set_signal_mask os scope (add_all os os.sigemptyset signals) (os.eventfd w).1

    made_fields :
        (t.scope ≡ scope)
        × (t.blocked_signals_mask ≡ add_all os os.sigemptyset signals)
        × (t.old_signals_mask ≡ after_set.0)
        × ((make_trap os scope signals w).1 ≡ after_set.1)
    unfolding make_trap
    made_fields = ground arith

    blocks-made :
        blocks (make_trap os scope signals w).1 x
        ≡ (blocks w x || (listed valid signals x && blockable x))
    blocks-made =
        let mask = add_all os os.sigemptyset signals in
        ground (
          arith,
          ap (λ v. blocks v x) made_fields.3,
          blocks-set scope mask (os.eventfd w).1 x,
          member-add_all signals os.sigemptyset x,
          l.member-empty x,
          l.blocks-eventfd w x,
        )

    -- Given the laws of signal sets, a trap that could be made has exactly the valid signals that
    -- it was made for; of these the ones that can be blocked are blocked from then on, beside the ones
    -- that were blocked.
    pub make_trap-has :
        valid x ≡ true
        → (has os t x ≡ listed valid signals x)
          × (blocks (make_trap os scope signals w).1 x
              ≡ (blocks w x || (listed valid signals x && blockable x)))
    unfolding has
    make_trap-has h = (
      ground (
        arith,
        ap (λ (s : S). os.sigismember s x) made_fields.1,
        l.sigismember_valid (add_all os os.sigemptyset signals) x h,
        member-add_all signals os.sigemptyset x,
        l.member-empty x,
      ),
      blocks-made,
    )

    -- Given the laws of signal sets, a number that is no signal is said to be trapped by every
    -- trap.
    has_invalid : valid x ≡ false → has os t x ≡ true
    unfolding has
    has_invalid h = ground (arith, l.sigismember_invalid t.blocked_signals_mask x)

    -- Given the laws of signal sets, the destructor of a trap, right after its constructor,
    -- unblocks nothing: the signals that it was made for, valid and such as can be blocked, are blocked
    -- after it, beside the ones that were blocked before the constructor.
    pub destroy_trap-blocks :
        blocks (destroy_trap os t (make_trap os scope signals w).1) x
        ≡ (blocks w x || (listed valid signals x && blockable x))
    unfolding destroy_trap
    destroy_trap-blocks =
        let w' = (make_trap os scope signals w).1 in
        ground (
          arith,
          blocks-made,
          l.blocks-close t.event_fd (set_signal_mask os t.scope t.old_signals_mask w').1 x,
          blocks-set t.scope t.old_signals_mask w' x,
          ap (λ (s : S). member s x) made_fields.2,
          member-old scope (add_all os os.sigemptyset signals) (os.eventfd w).1 x,
          l.blocks-eventfd w x,
        )
