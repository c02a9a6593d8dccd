-- ===== src/CrossProcessSync.antt =====
-- src/core/testing/cross_process_sync.cpp: a counter of signals that are sent through a pipe.
pub mod Calls
pub mod Exchange
use process_cpp.Prelude.{ℕ, ◌+◌, ◌%◌, ◌^◌, ℤ, pos, eqb, leb_ℤ, not, ◌==◌, if◌then◌else◌}
use process_cpp.Effect.{Effect, Result, ok, throw, system_error, timeout}
use process_cpp.Descriptors.{FdCalls}

-- The other calls that the class makes. `poll_out` and `poll_in` are poll on one descriptor with a time
-- limit; `write_word` and `read_word` are write and read of the four bytes of a uint32_t, with the
-- count of bytes that they return; `read_word` also gives the buffer, which holds 0 before the call.
pub record SyncCalls (W : Type 0) : Type 0 where
  pub poll_out : ℤ → ℤ → W → ℤ × W
  pub poll_in : ℤ → ℤ → W → ℤ × W
  pub write_word : ℤ → ℕ → W → ℤ × W
  pub read_word : ℤ → W → (ℤ × ℕ) × W
  pub errno : W → ℕ

-- `fds[read_fd]`, `fds[write_fd]` and the counter, a std::uint32_t.
pub record CrossProcessSync : Type 0 where
  pub read_end : ℤ
  pub write_end : ℤ
  pub counter : ℕ

module _ {W : Type 0} (fd : FdCalls W) where
  -- The constructor: `if (::pipe(fds) < 0) throw`.
  unfoldable pub make_sync : Effect W CrossProcessSync
  make_sync w =
      let (r, w') = fd.pipe w in
      if leb_ℤ (pos 0) r.rc
      then (ok (record { read_end = r.read_end; write_end = r.write_end; counter = 0 }), w')
      else (throw (system_error (fd.errno w')), w')

  -- The copy constructor: the results of dup are not tested.
  unfoldable pub copy : CrossProcessSync → W → CrossProcessSync × W
  copy rhs w =
      let (r, w1) = fd.dup rhs.read_end w in
      let (s, w2) = fd.dup rhs.write_end w1 in
      (record { read_end = r; write_end = s; counter = rhs.counter }, w2)

  unfoldable pub destroy : CrossProcessSync → W → W
  destroy s w = fd.close s.write_end (fd.close s.read_end w)

  -- operator=
  unfoldable pub assign : CrossProcessSync → CrossProcessSync → W → CrossProcessSync × W
  unfolding copy destroy
  assign s rhs w = copy rhs (destroy s w)

module _ {W : Type 0} (os : SyncCalls W) where
  -- The value that is sent, `static const std::uint32_t value = 1`.
  abbrev pub value : ℕ
  value = 1

  unfoldable pub try_signal_ready_for : ℤ → CrossProcessSync → Effect W (Unit {0})
  try_signal_ready_for duration s w =
      let (rc, w1) = os.poll_out s.write_end duration w in
      if not (leb_ℤ (pos 0) rc)
      then (throw (system_error (os.errno w1)), w1)
      else if eqb rc (pos 0)
      then (throw timeout, w1)
      else (let (n, w2) = os.write_word s.write_end value w1 in
          if eqb n (pos 4) then (ok tt, w2) else (throw (system_error (os.errno w2)), w2))

  -- The counter is increased by the value, which is 1 here, modulo 2 ^ 32.
  unfoldable pub wait_for_signal_ready_for :
      ℤ → CrossProcessSync → W → (Result ℕ × CrossProcessSync) × W
  wait_for_signal_ready_for duration s w =
      let (rc, w1) = os.poll_in s.read_end duration w in
      if not (leb_ℤ (pos 0) rc)
      then ((throw (system_error (os.errno w1)), s), w1)
      else if eqb rc (pos 0)
      then ((throw timeout, s), w1)
      else (let ((n, v), w2) = os.read_word s.read_end w1 in
          if not (eqb n (pos 4))
          then ((throw (system_error (os.errno w2)), s), w2)
          else if not (v == value)
          then ((throw (system_error (os.errno w2)), s), w2)
          else (let counter = (s.counter + v) % 2 ^ 32 in
              ((ok counter, record s { counter = counter }), w2)))
