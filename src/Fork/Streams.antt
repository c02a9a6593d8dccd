-- ===== src/Fork/Streams.antt =====
-- The streams between parent and child: which descriptions the pipes of a fork lead to.
use process_cpp.Prelude.{
  ℕ, ℤ, minus_one, eqb, eqb_iff, ◌≡◌, ◌⊎◌, inl, inr, false, none, some, subst, if◌then◌else◌, arith,
}
use process_cpp.Effect.{Result-cases, Error, ok, throw}
use process_cpp.Descriptors.{FdCalls, FdLaws, reader, writer}
use process_cpp.Pipe.{Pipe, closed_pipe, open_pipe, assign, copy, destroy}
use process_cpp.Pipe.Ownership.{table-destroy, table-open_pipe, table-copy, copy_fresh, IsLive}
use process_cpp.Fork.{assign_new}

module _ {W : Type 0} (os : FdCalls W) (l : FdLaws os) where
  open l use {table}

  pub open_pipe_fresh :
      (w : W) (t : Pipe)
      → (open_pipe os w).0 ≡ ok t
      → (table w t.fds_0 ≡ none) × (table w t.fds_1 ≡ none) × (eqb t.fds_1 t.fds_0 ≡ false)
  unfolding open_pipe
  open_pipe_fresh w t h =
      ground (arith, l.pipe_fresh_read w, l.pipe_fresh_write w, l.pipe_distinct w)

  pub IsLive-of_open :
      (w : W) (t : Pipe) → (open_pipe os w).0 ≡ ok t → IsLive os l (open_pipe os w).1 t
  IsLive-of_open w t h = record {
    live_0 = inr (ground (arith, table-open_pipe os l w t t.fds_0 h, eqb_iff t.fds_0 t.fds_0));
    live_1 = inr (ground (arith, table-open_pipe os l w t t.fds_1 h, eqb_iff t.fds_1 t.fds_1));
  }

  -- What an assignment of a new pipe to a pipe without descriptors leaves. `k` is the new pipe.
  pub record IsNew (k : ℕ) (w w' : W) (q : Pipe) : Type 0 where
    pub fresh_0 : table w q.fds_0 ≡ none
    pub fresh_1 : table w q.fds_1 ≡ none
    pub distinct : (q.fds_1 ≡ minus_one) ⊎ (eqb q.fds_1 q.fds_0 ≡ false)
    pub table_new :
        (x : ℤ)
        → table w' x ≡ (
            if eqb x minus_one
            then none
            else if eqb x q.fds_1
            then some (writer k)
            else if eqb x q.fds_0
            then some (reader k)
            else table w x)

  module _ (w : W) (t : Pipe) (opened : (open_pipe os w).0 ≡ ok t) where
    abbrev w1 : W
    w1 = (open_pipe os w).1

    abbrev q : Pipe
    q = (copy os t w1).0

    copied-IsNew : IsNew (l.new_pipe w) w (destroy os t (copy os t w1).1) q
    copied-IsNew =
        let live : IsLive os l w1 t = IsLive-of_open w t opened in
        let (f0, f1, d) = copy_fresh os l t w1 live in
        record {
          fresh_0 = ground (arith, f0, table-open_pipe os l w t q.fds_0 opened);
          fresh_1 = ground (arith, f1, table-open_pipe os l w t q.fds_1 opened);
          distinct = d;
          table_new = λ x. ground (
            arith,
            f0,
            f1,
            open_pipe_fresh w t opened,
            live.live_0,
            live.live_1,
            table-copy os l t w1 x live,
            table-destroy os l t (copy os t w1).1 x,
            table-open_pipe os l w t x opened,
            table-open_pipe os l w t t.fds_0 opened,
            table-open_pipe os l w t t.fds_1 opened,
            l.table-minus_one w,
            eqb_iff x t.fds_0,
            eqb_iff x t.fds_1,
            eqb_iff x q.fds_0,
            eqb_iff x q.fds_1,
            eqb_iff x minus_one,
            eqb_iff t.fds_0 t.fds_0,
            eqb_iff t.fds_1 t.fds_1,
          );
        }

    assign_new-opened : assign_new os closed_pipe w ≡ (ok q, destroy os t (copy os t w1).1)
    unfolding assign_new assign copy
    assign_new-opened = rw (opened, assign_new)

  assign_new_failed :
      (w : W) (e : Error) → (open_pipe os w).0 ≡ throw e → (assign_new os closed_pipe w).0 ≡ throw e
  unfolding assign_new
  assign_new_failed w e h = rw (h, assign_new)

  pub assign_new-IsNew :
      (w : W) (p : Pipe)
      → (assign_new os closed_pipe w).0 ≡ ok p
      → IsNew (l.new_pipe w) w (assign_new os closed_pipe w).1 p
  assign_new-IsNew w p h = elim (Result-cases (open_pipe os w).0) [
    | inl (t, e) ↦
        let same : q w t e ≡ p = cc (assign_new-opened w t e) in
        rw (assign_new-opened w t e) (subst (IsNew _ w _) same (copied-IsNew w t e))
    | inr (e, f) ↦ cc (assign_new_failed w e f)
  ]
