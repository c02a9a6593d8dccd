-- ===== src/CrossProcessSync/Exchange.antt =====
-- What a successful wait means: signals and waits over one pipe.
use process_cpp.Prelude.{
  ℕ, suc, ◌+◌, ◌-◌, ◌%◌, ◌^◌, ◌≤◌, ◌<◌, ℤ, ◌≡◌, some, List, [], ◌∷◌, length, length-append, arith,
  ap, ◌∙◌, sym, subst, inl, inr,
}
use process_cpp.Effect.{Result, Result-cases, ok, throw}
use process_cpp.Descriptors.{FdCalls, FdLaws, reader, writer}
use process_cpp.CrossProcessSync.{
  SyncCalls, CrossProcessSync, try_signal_ready_for, wait_for_signal_ready_for,
}
use process_cpp.CrossProcessSync.Calls.{
  SyncLaws, AllOnes, AllOnes-append, signal_parts, wait_parts, signal_failed, wait_failed,
}

module _ {W : Type 0} {fd : FdCalls W} (l : FdLaws fd) (os : SyncCalls W) (sl : SyncLaws l os) where
  open l use {table}
  open sl use {words}

  -- The number of the successful calls, with one more call.
  abbrev pub count_success : {A : Type 0} → Result A → ℕ → ℕ
  count_success (ok a) n = suc n
  count_success (throw x) n = n

  -- A history of signals of `s` and waits of `t`, which may fail: the numbers of those that succeeded,
  -- the state that it leads to, and `t` as it is then. Both objects keep the pipe, as copies in two
  -- processes do.
  pub data History (s : CrossProcessSync) (t₀ : CrossProcessSync) (w₀ : W)
      : ℕ → ℕ → W → CrossProcessSync → Type 0 where
    start : History s t₀ w₀ 0 0 w₀ t₀
    signal :
        {a a' b : ℕ} {w v : W} {t : CrossProcessSync} (d : ℤ)
        → History s t₀ w₀ a b w t
        → a' ≡ count_success (try_signal_ready_for os d s w).0 a
        → v ≡ (try_signal_ready_for os d s w).1
        → History s t₀ w₀ a' b v t
    wait :
        {a b b' : ℕ} {w v : W} {t t' : CrossProcessSync} (d : ℤ)
        → History s t₀ w₀ a b w t
        → b' ≡ count_success (wait_for_signal_ready_for os d t w).0.0 b
        → v ≡ (wait_for_signal_ready_for os d t w).1
        → t' ≡ (wait_for_signal_ready_for os d t w).0.1
        → History s t₀ w₀ a b' v t'

  -- What holds along a history over the pipe `k`.
  pub record IsCounted (k a b c : ℕ) (s t : CrossProcessSync) (w : W) : Type 0 where
    pub over_s : table w s.write_end ≡ some (writer k)
    pub over_t : table w t.read_end ≡ some (reader k)
    pub ones : AllOnes (words w k)
    pub balance : length (words w k) + b ≡ a
    pub counted : t.counter ≡ (c + b) % 2 ^ 32

  signal_ok-IsCounted :
      (k a b c : ℕ) (s t : CrossProcessSync) (w : W) (d : ℤ)
      → IsCounted k a b c s t w
      → (try_signal_ready_for os d s w).0 ≡ ok tt
      → IsCounted k (suc a) b c s t (try_signal_ready_for os d s w).1
  signal_ok-IsCounted k a b c s t w d i h =
      let w1 = (os.poll_out s.write_end d w).1 in
      let (four, same) = signal_parts l os sl d s w h in
      let more = sl.words-write w1 s.write_end 1 k (sl.table-poll_out w _ d _ ∙ i.over_s) four in
      let before = sl.words-poll_out w s.write_end d k in
      rw same (record {
        over_s = sl.table-write w1 _ 1 _ ∙ sl.table-poll_out w _ d _ ∙ i.over_s;
        over_t = sl.table-write w1 _ 1 _ ∙ sl.table-poll_out w _ d _ ∙ i.over_t;
        ones =
            subst AllOnes (sym more)
              (AllOnes-append (words w1 k) (subst AllOnes (sym before) i.ones));
        balance = omega (
          arith,
          i.balance,
          ap length more,
          ap length before,
          length-append (words w1 k) (1 ∷ []),
        );
        counted = i.counted;
      })

  signal-IsCounted :
      (k a b c : ℕ) (s t : CrossProcessSync) (w : W) (d : ℤ)
      → IsCounted k a b c s t w
      → IsCounted k
          (count_success (try_signal_ready_for os d s w).0 a)
          b
          c
          s
          t
          (try_signal_ready_for os d s w).1
  signal-IsCounted k a b c s t w d i = elim (Result-cases (try_signal_ready_for os d s w).0) [
    | inl (done, h) ↦ rw h (signal_ok-IsCounted k a b c s t w d i h)
    | inr (x, h) ↦
        let (same, _) = signal_failed l os sl d s w x k s.write_end h in
        rw h (record {
          over_s = (signal_failed l os sl d s w x k s.write_end h).1 ∙ i.over_s;
          over_t = (signal_failed l os sl d s w x k t.read_end h).1 ∙ i.over_t;
          ones = subst AllOnes (sym same) i.ones;
          balance = ap (λ (l : List ℕ). length l + b) same ∙ i.balance;
          counted = i.counted;
        })
  ]

  wait_ok-IsCounted :
      (k a b c : ℕ) (s t : CrossProcessSync) (w : W) (d : ℤ) (n : ℕ)
      → IsCounted k a b c s t w
      → (wait_for_signal_ready_for os d t w).0.0 ≡ ok n
      → IsCounted k a
          (suc b)
          c
          s
          (wait_for_signal_ready_for os d t w).0.1
          (wait_for_signal_ready_for os d t w).1
  wait_ok-IsCounted k a b c s t w d n i h =
      let w1 = (os.poll_in t.read_end d w).1 in
      let (four, one, same, sum, t') = wait_parts l os sl d t w n h in
      let first = sl.words-read w1 t.read_end k (sl.table-poll_in w _ d _ ∙ i.over_t) four in
      let before = sl.words-poll_in w t.read_end d k in
      rw (same, t')
        (record {
          over_s = sl.table-read w1 _ _ ∙ sl.table-poll_in w _ d _ ∙ i.over_s;
          over_t = sl.table-read w1 _ _ ∙ sl.table-poll_in w _ d _ ∙ i.over_t;
          ones = (subst AllOnes (sym before ∙ first) i.ones).1;
          balance = omega (arith, i.balance, ap length first, ap length before);
          counted = omega (arith, i.counted, sum);
        })

  wait-IsCounted :
      (k a b c : ℕ) (s t : CrossProcessSync) (w : W) (d : ℤ)
      → IsCounted k a b c s t w
      → IsCounted k a
          (count_success (wait_for_signal_ready_for os d t w).0.0 b)
          c
          s
          (wait_for_signal_ready_for os d t w).0.1
          (wait_for_signal_ready_for os d t w).1
  wait-IsCounted k a b c s t w d i = elim (Result-cases (wait_for_signal_ready_for os d t w).0.0) [
    | inl (n, h) ↦ rw h (wait_ok-IsCounted k a b c s t w d n i h)
    | inr (x, h) ↦
        let (same, t', tables) = wait_failed l os sl d t w x k i.over_t i.ones h in
        rw (h, t')
          (record {
            over_s = tables s.write_end ∙ i.over_s;
            over_t = tables t.read_end ∙ i.over_t;
            ones = subst AllOnes (sym same) i.ones;
            balance = ap (λ (l : List ℕ). length l + b) same ∙ i.balance;
            counted = i.counted;
          })
  ]

  History-IsCounted :
      (k : ℕ) (s t₀ : CrossProcessSync) (w₀ : W) {a b : ℕ} {w : W} {t : CrossProcessSync}
      → IsCounted k 0 0 t₀.counter s t₀ w₀
      → History s t₀ w₀ a b w t
      → IsCounted k a b t₀.counter s t w
  History-IsCounted k s t₀ w₀ i start = i
  History-IsCounted k s t₀ w₀ i (signal d r e f) =
      rw (e, f) (signal-IsCounted k _ _ t₀.counter s _ _ d (History-IsCounted k s t₀ w₀ i r))
  History-IsCounted k s t₀ w₀ i (wait d r e f g) =
      rw (e, f, g) (wait-IsCounted k _ _ t₀.counter s _ _ d (History-IsCounted k s t₀ w₀ i r))

  -- Over an empty pipe of which the two objects have the ends, in any interleaving of signals and
  -- waits, whether they succeed or throw, there are never more successful waits than successful
  -- signals, the words in the pipe are as many as the signals not yet waited for, and the counter has
  -- grown by the number of the successful waits, modulo 2 ^ 32: a call that throws is as if it had
  -- not been made.
  pub exchange :
      (k : ℕ) (s t₀ : CrossProcessSync) (w₀ : W) (a b : ℕ) (w : W) (t : CrossProcessSync)
      → table w₀ s.write_end ≡ some (writer k)
      → table w₀ t₀.read_end ≡ some (reader k)
      → words w₀ k ≡ []
      → t₀.counter < 2 ^ 32
      → History s t₀ w₀ a b w t
      → (b ≤ a) × (length (words w k) ≡ a - b) × (t.counter ≡ (t₀.counter + b) % 2 ^ 32)
  exchange k s t₀ w₀ a b w t ws rt none_yet small r =
      let i : IsCounted k a b t₀.counter s t w =
        History-IsCounted k s t₀ w₀
          (record {
            over_s = ws;
            over_t = rt;
            ones = subst AllOnes (sym none_yet) tt;
            balance = omega (arith, ap length none_yet);
            counted = omega arith;
          })
          r in
      (omega (arith, i.balance), omega (arith, i.balance), i.counted)
