-- ===== src/Pipe/Ownership.antt =====
-- A Pipe owns its descriptors: what its special members do to the descriptor table.
use process_cpp.Prelude.{
  ℤ, minus_one, eqb, eqb_iff, ◌≡◌, ◌≢◌, ◌⊎◌, false, none, some, if◌then◌else◌, arith,
}
use process_cpp.Effect.{ok}
use process_cpp.Descriptors.{FdCalls, FdLaws, reader, writer}
use process_cpp.Pipe.{
  Pipe, close_valid, dup_valid, open_pipe, copy, destroy, close_read_fd, close_write_fd,
}

module _ {W : Type 0} (os : FdCalls W) (l : FdLaws os) where
  open l use {table}

  -- Each end of the pipe is marked closed, or is open in the table.
  pub record IsLive (w : W) (p : Pipe) : Type 0 where
    pub live_0 : (p.fds_0 ≡ minus_one) ⊎ (table w p.fds_0 ≢ none)
    pub live_1 : (p.fds_1 ≡ minus_one) ⊎ (table w p.fds_1 ≢ none)

  pub table-close_valid :
      (w : W) (fd x : ℤ) → table (close_valid os fd w) x ≡ (if eqb x fd then none else table w x)
  unfolding close_valid
  table-close_valid w fd x =
      ground (arith, l.table-close w fd x, l.table-minus_one w, eqb_iff fd minus_one, eqb_iff x fd)

  pub dup_valid_fresh : (w : W) (fd : ℤ) → table w (dup_valid os fd w).0 ≡ none
  unfolding dup_valid
  dup_valid_fresh w fd = ground (arith, l.dup_fresh w fd, l.table-minus_one w)

  pub dup_valid_closed : (w : W) (fd : ℤ) → table w fd ≡ none → (dup_valid os fd w).0 ≡ minus_one
  unfolding dup_valid
  dup_valid_closed w fd h = ground (arith, l.dup_closed w fd)

  pub table-dup_valid :
      (w : W) (fd x : ℤ)
      → table (dup_valid os fd w).1 x ≡ (
          if eqb (dup_valid os fd w).0 minus_one
          then table w x
          else if eqb x (dup_valid os fd w).0
          then table w fd
          else table w x)
  unfolding dup_valid
  table-dup_valid w fd x = ground (arith, l.table-dup w fd x)

  pub table-destroy :
      (p : Pipe) (w : W) (x : ℤ)
      → table (destroy os p w) x
        ≡ (if eqb x p.fds_1 then none else if eqb x p.fds_0 then none else table w x)
  unfolding destroy
  table-destroy p w x =
      ground (
        arith,
        table-close_valid w p.fds_0 x,
        table-close_valid (close_valid os p.fds_0 w) p.fds_1 x,
      )

  -- The constructor and the destructor, or the copy constructor and the destructor.
  pub table-destroy-copy :
      (p : Pipe) (w : W) (x : ℤ) → table (destroy os (copy os p w).0 (copy os p w).1) x ≡ table w x
  unfolding copy
  table-destroy-copy p w x =
      let d0 = (dup_valid os p.fds_0 w).0 in
      let w0 = (dup_valid os p.fds_0 w).1 in
      let d1 = (dup_valid os p.fds_1 w0).0 in
      let w1 = (dup_valid os p.fds_1 w0).1 in
      ground (
        arith,
        table-destroy (record { fds_0 = d0; fds_1 = d1 }) w1 x,
        table-dup_valid w p.fds_0 x,
        table-dup_valid w0 p.fds_1 x,
        dup_valid_fresh w p.fds_0,
        dup_valid_fresh w0 p.fds_1,
        eqb_iff x d0,
        eqb_iff x d1,
      )

  -- After a pipe is copied whose ends are each open or marked closed, the descriptors of the copy
  -- lead to the descriptions of the original, and every other descriptor is as it was.
  pub table-copy :
      (p : Pipe) (w : W) (x : ℤ)
      → IsLive w p
      → table (copy os p w).1 x ≡ (
          if eqb x minus_one
          then none
          else if eqb x (copy os p w).0.fds_1
          then table w p.fds_1
          else if eqb x (copy os p w).0.fds_0
          then table w p.fds_0
          else table w x)
  unfolding copy
  table-copy p w x live =
      let d0 = (dup_valid os p.fds_0 w).0 in
      let w0 = (dup_valid os p.fds_0 w).1 in
      let d1 = (dup_valid os p.fds_1 w0).0 in
      ground (
        arith,
        live.live_1,
        l.table-minus_one w,
        l.table-minus_one (dup_valid os p.fds_1 w0).1,
        table-dup_valid w p.fds_0 x,
        table-dup_valid w p.fds_0 p.fds_1,
        table-dup_valid w0 p.fds_1 x,
        dup_valid_fresh w p.fds_0,
        dup_valid_fresh w0 p.fds_1,
        eqb_iff x minus_one,
        eqb_iff x d0,
        eqb_iff x d1,
        eqb_iff d0 minus_one,
        eqb_iff d1 minus_one,
        eqb_iff p.fds_1 d0,
        dup_valid_closed w0 p.fds_1,
      )

  pub table-close_read_fd :
      (p : Pipe) (w : W) (x : ℤ)
      → table (close_read_fd os p w).1 x ≡ (if eqb x p.fds_0 then none else table w x)
  unfolding close_read_fd
  table-close_read_fd p w x = ground (
    arith,
    l.table-close w p.fds_0 x,
    l.table-minus_one w,
    eqb_iff p.fds_0 minus_one,
    eqb_iff x p.fds_0,
  )

  pub table-close_write_fd :
      (p : Pipe) (w : W) (x : ℤ)
      → table (close_write_fd os p w).1 x ≡ (if eqb x p.fds_1 then none else table w x)
  unfolding close_write_fd
  table-close_write_fd p w x = ground (
    arith,
    l.table-close w p.fds_1 x,
    l.table-minus_one w,
    eqb_iff p.fds_1 minus_one,
    eqb_iff x p.fds_1,
  )

  pub close_read_fd_lem :
      (p : Pipe) (w : W) → (close_read_fd os p w).0 ≡ record p { fds_0 = minus_one }
  unfolding close_read_fd
  close_read_fd_lem p w = ground (arith, eqb_iff p.fds_0 minus_one)

  pub close_write_fd_lem :
      (p : Pipe) (w : W) → (close_write_fd os p w).0 ≡ record p { fds_1 = minus_one }
  unfolding close_write_fd
  close_write_fd_lem p w = ground (arith, eqb_iff p.fds_1 minus_one)

  pub table-open_pipe :
      (w : W) (p : Pipe) (x : ℤ)
      → (open_pipe os w).0 ≡ ok p
      → table (open_pipe os w).1 x ≡ (
          if eqb x p.fds_0
          then some (reader (l.new_pipe w))
          else if eqb x p.fds_1
          then some (writer (l.new_pipe w))
          else table w x)
  unfolding open_pipe
  table-open_pipe w p x h = ground (arith, l.table-pipe w x)

  -- The descriptors of a copy were closed before, and are distinct where they are open.
  pub copy_fresh :
      (p : Pipe) (w : W)
      → IsLive w p
      → (table w (copy os p w).0.fds_0 ≡ none)
        × (table w (copy os p w).0.fds_1 ≡ none)
        × (((copy os p w).0.fds_1 ≡ minus_one)
            ⊎ (eqb (copy os p w).0.fds_1 (copy os p w).0.fds_0 ≡ false))
  unfolding copy
  copy_fresh p w live =
      let d0 = (dup_valid os p.fds_0 w).0 in
      let w0 = (dup_valid os p.fds_0 w).1 in
      let d1 = (dup_valid os p.fds_1 w0).0 in
      (
        dup_valid_fresh w p.fds_0,
        ground (
          arith,
          l.table-minus_one w,
          table-dup_valid w p.fds_0 d1,
          dup_valid_fresh w p.fds_0,
          dup_valid_fresh w0 p.fds_1,
          eqb_iff d1 d0,
        ),
        ground (
          arith,
          live.live_0,
          l.table-minus_one w,
          table-dup_valid w p.fds_0 d0,
          dup_valid_fresh w0 p.fds_1,
          dup_valid_closed w p.fds_0,
          eqb_iff d1 d0,
          eqb_iff d0 d0,
          eqb_iff d0 minus_one,
          eqb_iff d1 minus_one,
        ),
      )
