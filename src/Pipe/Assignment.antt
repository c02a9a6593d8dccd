-- ===== src/Pipe/Assignment.antt =====
-- Assignments of a Pipe: what they do to the descriptor table.
use process_cpp.Prelude.{
  suc, ◌≤◌, ◌≢◌, ℤ, minus_one, eqb, eqb_iff, ◌≡◌, refl, ◌⊎◌, inl, inr, false, none, if◌then◌else◌,
  arith,
}
use process_cpp.Descriptors.{FdCalls, FdLaws, RoomLaws}
use process_cpp.Pipe.{Pipe, closed_pipe, close_valid, dup_valid, copy, destroy, assign}
use process_cpp.Pipe.Ownership.{
  dup_valid_fresh, dup_valid_closed, table-dup_valid, table-destroy, table-destroy-copy, table-copy,
  IsLive,
}

module _ {W : Type 0} (os : FdCalls W) (l : FdLaws os) where
  open l use {table}

  -- An assignment is the destructor of the target followed by a copy of the source.
  assign-copy : (p rhs : Pipe) (w : W) → assign os p rhs w ≡ copy os rhs (destroy os p w)
  unfolding assign copy destroy
  assign-copy p rhs w = refl

  -- The ends of `rhs` are not those of `p`.
  pub record IsApart (p rhs : Pipe) : Type 0 where
    pub apart_0 :
        (rhs.fds_0 ≡ minus_one)
        ⊎ ((eqb rhs.fds_0 p.fds_0 ≡ false) × (eqb rhs.fds_0 p.fds_1 ≡ false))
    pub apart_1 :
        (rhs.fds_1 ≡ minus_one)
        ⊎ ((eqb rhs.fds_1 p.fds_0 ≡ false) × (eqb rhs.fds_1 p.fds_1 ≡ false))

  table-destroy_apart :
      (p : Pipe) (w : W) (fd : ℤ)
      → (fd ≡ minus_one) ⊎ ((eqb fd p.fds_0 ≡ false) × (eqb fd p.fds_1 ≡ false))
      → table (destroy os p w) fd ≡ table w fd
  table-destroy_apart p w fd (inl e) =
      ground (arith, l.table-minus_one w, l.table-minus_one (destroy os p w))
  table-destroy_apart p w fd (inr (a, b)) = ground (arith, table-destroy os l p w fd)

  destroy-IsLive :
      (p rhs : Pipe) (w : W) → IsApart p rhs → IsLive os l w rhs → IsLive os l (destroy os p w) rhs
  destroy-IsLive p rhs w apart live = record {
    live_0 = rw (table-destroy_apart p w rhs.fds_0 apart.apart_0) live.live_0;
    live_1 = rw (table-destroy_apart p w rhs.fds_1 apart.apart_1) live.live_1;
  }

  destroy-room : (r : RoomLaws os l) (p : Pipe) (w : W) → r.room w ≤ r.room (destroy os p w)
  unfolding destroy close_valid
  destroy-room r p w =
      let w0 = close_valid os p.fds_0 w in
      ground (arith, r.room-close p.fds_0 w, r.room-close p.fds_1 w0)

  dup_valid-room :
      (r : RoomLaws os l) (fd : ℤ) (w : W) → r.room w ≤ suc (r.room (dup_valid os fd w).1)
  unfolding dup_valid
  dup_valid-room r fd w = ground (arith, r.room-dup fd w)

  -- While there is room for a descriptor, an end that is open is duplicated, and no other is.
  dup_valid_room :
      (r : RoomLaws os l) (fd : ℤ) (w : W)
      → (fd ≡ minus_one) ⊎ (table w fd ≢ none)
      → 1 ≤ r.room w
      → eqb (dup_valid os fd w).0 minus_one ≡ eqb fd minus_one
  unfolding dup_valid
  dup_valid_room r fd w (inl e) h = rw e refl
  dup_valid_room r fd w (inr e) h = ground (arith, r.dup_room fd w e h)

  dup_valid_keeps :
      (fd x : ℤ) (w : W)
      → (x ≡ minus_one) ⊎ (table w x ≢ none)
      → (x ≡ minus_one) ⊎ (table (dup_valid os fd w).1 x ≢ none)
  dup_valid_keeps fd x w (inl e) = inl e
  dup_valid_keeps fd x w (inr e) = inr (λ gone. ground (
    arith,
    table-dup_valid os l w fd x,
    dup_valid_fresh os l w fd,
    eqb_iff x (dup_valid os fd w).0,
    e,
  ))

  -- With room for two descriptors, a copy has the ends that the original has.
  pub copy_room :
      (r : RoomLaws os l) (p : Pipe) (w : W)
      → IsLive os l w p
      → 2 ≤ r.room w
      → (eqb (copy os p w).0.fds_0 minus_one ≡ eqb p.fds_0 minus_one)
        × (eqb (copy os p w).0.fds_1 minus_one ≡ eqb p.fds_1 minus_one)
  unfolding copy
  copy_room r p w live h =
      let w1 = (dup_valid os p.fds_0 w).1 in
      (
        dup_valid_room r p.fds_0 w live.live_0 (omega (arith, h)),
        dup_valid_room r p.fds_1 w1 (dup_valid_keeps p.fds_0 p.fds_1 w live.live_1)
            (omega (arith, h, dup_valid-room r p.fds_0 w)),
      )

  table_assign :
      (p rhs : Pipe) (w : W) (x : ℤ)
      → IsApart p rhs
      → IsLive os l w rhs
      → table (assign os p rhs w).1 x ≡ (
          if eqb x minus_one
          then none
          else if eqb x (assign os p rhs w).0.fds_1
          then table w rhs.fds_1
          else if eqb x (assign os p rhs w).0.fds_0
          then table w rhs.fds_0
          else if eqb x p.fds_1
          then none
          else if eqb x p.fds_0
          then none
          else table w x)
  table_assign p rhs w x apart live = rw assign-copy (
      ground (
        arith,
        table-copy os l rhs (destroy os p w) x (destroy-IsLive p rhs w apart live),
        table-destroy_apart p w rhs.fds_0 apart.apart_0,
        table-destroy_apart p w rhs.fds_1 apart.apart_1,
        table-destroy os l p w x,
      ))

  -- Assigning from a pipe whose ends are each open or marked closed, and are not those of the
  -- target, while the limit leaves room for two descriptors: afterwards the target has the ends that
  -- `rhs` has, its descriptors lead to the descriptions that those of `rhs` led to, the descriptors
  -- that it held and does not hold again are closed, and every other descriptor is as it was.
  pub table-assign :
      (r : RoomLaws os l) (p rhs : Pipe) (w : W) (x : ℤ)
      → IsApart p rhs
      → IsLive os l w rhs
      → 2 ≤ r.room w
      → (eqb (assign os p rhs w).0.fds_0 minus_one ≡ eqb rhs.fds_0 minus_one)
        × (eqb (assign os p rhs w).0.fds_1 minus_one ≡ eqb rhs.fds_1 minus_one)
        × (table (assign os p rhs w).1 x ≡ (
            if eqb x minus_one
            then none
            else if eqb x (assign os p rhs w).0.fds_1
            then table w rhs.fds_1
            else if eqb x (assign os p rhs w).0.fds_0
            then table w rhs.fds_0
            else if eqb x p.fds_1
            then none
            else if eqb x p.fds_0
            then none
            else table w x))
  table-assign r p rhs w x apart live h =
      let (ends_0, ends_1) =
        copy_room r rhs (destroy os p w) (destroy-IsLive p rhs w apart live)
          (omega (arith, h, destroy-room r p w)) in
      (rw assign-copy ends_0, rw assign-copy ends_1, table_assign p rhs w x apart live)

  -- No descriptor leaks through an assignment: destroying the target afterwards leaves the table
  -- that destroying it before would have left, whichever calls of dup fail.
  pub table-destroy-assign :
      (p rhs : Pipe) (w : W) (x : ℤ)
      → table (destroy os (assign os p rhs w).0 (assign os p rhs w).1) x ≡ table (destroy os p w) x
  table-destroy-assign p rhs w x = rw assign-copy (table-destroy-copy os l rhs (destroy os p w) x)

  -- Assigning a pipe to itself loses both ends: they are closed before they are duplicated.
  assign_self :
      (p : Pipe) (w : W)
      → ((assign os p p w).0 ≡ closed_pipe)
        × ((x : ℤ) → table (assign os p p w).1 x ≡ table (destroy os p w) x)
  unfolding assign destroy
  assign_self p w =
      let w0 = close_valid os p.fds_1 (close_valid os p.fds_0 w) in
      let w1 = (dup_valid os p.fds_0 w0).1 in
      let gone0 : (dup_valid os p.fds_0 w0).0 ≡ minus_one =
        dup_valid_closed os l w0 p.fds_0
          (ground (arith, table-destroy os l p w p.fds_0, eqb_iff p.fds_0 p.fds_0)) in
      let gone1 : (dup_valid os p.fds_1 w1).0 ≡ minus_one = dup_valid_closed os l w1 p.fds_1 (
        ground (
          arith,
          table-dup_valid os l w0 p.fds_0 p.fds_1,
          table-destroy os l p w p.fds_1,
          eqb_iff p.fds_1 p.fds_1,
        )) in
      (
        ground arith,
        λ x. ground (arith, table-dup_valid os l w0 p.fds_0 x, table-dup_valid os l w1 p.fds_1 x),
      )
