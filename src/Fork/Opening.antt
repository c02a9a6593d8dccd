-- ===== src/Fork/Opening.antt =====
-- Pipes whose both ends are open: those of the constructor, and the copies that fork assigns of them.
use process_cpp.Prelude.{◌≡◌, minus_one, eqb, eqb_iff, refl, false, inl, inr, arith}
use process_cpp.Effect.{ok, Result-cases}
use process_cpp.Descriptors.{FdCalls, FdLaws, PlentyLaws}
use process_cpp.Pipe.{Pipe, closed_pipe, open_pipe, copy, assign}
use process_cpp.Pipe.Ownership.{table-open_pipe}
use process_cpp.Pipe.Assignment.{copy_room}
use process_cpp.Fork.{assign_new}
use process_cpp.Fork.Streams.{open_pipe_fresh, IsLive-of_open}

module _ {W : Type 0} (fd : FdCalls W) (l : FdLaws fd) where
  -- No end of the pipe is marked closed.
  abbrev pub IsOpened : Pipe → Type 0
  IsOpened q = (eqb q.fds_0 minus_one ≡ false) × (eqb q.fds_1 minus_one ≡ false)

  pub open_pipe-IsOpened : (w : W) (t : Pipe) → (open_pipe fd w).0 ≡ ok t → IsOpened t
  open_pipe-IsOpened w t h =
      let (f0, f1, d) = open_pipe_fresh fd l w t h in
      let minus = l.table-minus_one (open_pipe fd w).1 in
      let at_0 = table-open_pipe fd l w t t.fds_0 h in
      let at_1 = table-open_pipe fd l w t t.fds_1 h in
      (
        ground (arith, minus, at_0, eqb_iff t.fds_0 minus_one, eqb_iff t.fds_0 t.fds_0),
        ground (arith, minus, at_1, d, eqb_iff t.fds_1 minus_one, eqb_iff t.fds_1 t.fds_1),
      )

  assign_closed : (t : Pipe) (w : W) → assign fd closed_pipe t w ≡ copy fd t w
  unfolding assign copy
  assign_closed t w = refl

  -- While there is room, a pipe that fork makes has both its ends.
  pub assign_new-IsOpened :
      (y : PlentyLaws fd l) (w : W) (q : Pipe) → (assign_new fd closed_pipe w).0 ≡ ok q → IsOpened q
  unfolding assign_new
  assign_new-IsOpened y w q h = elim (Result-cases (open_pipe fd w).0) [
    | inl (t, e) ↦
        let w1 = (open_pipe fd w).1 in
        let (a, b) = open_pipe-IsOpened w t e in
        let (c, d) = copy_room fd l y.room_laws t w1 (IsLive-of_open fd l w t e) (y.always w1) in
        let same : (copy fd t w1).0 ≡ q = ground (arith, e, h, assign_closed t w1) in
        (ground (arith, same, c, a), ground (arith, same, d, b))
    | inr (x, e) ↦ ground arith
  ]
