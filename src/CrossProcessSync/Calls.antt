-- ===== src/CrossProcessSync/Calls.antt =====
-- What a call of try_signal_ready_for or wait_for_signal_ready_for does to a pipe.
use process_cpp.Prelude.{
  ℕ, ◌+◌, ◌%◌, ◌^◌, ℤ, pos, eqb, eqb_iff, ◌≡◌, some, List, [], ◌∷◌, ◌++◌, arith, ◌∙◌, sym, subst,
  refl, ==_iff, false,
}
use process_cpp.Effect.{Error, ok, throw}
use process_cpp.Descriptors.{FdCalls, FdLaws, reader, writer}
use process_cpp.CrossProcessSync.{
  SyncCalls, CrossProcessSync, try_signal_ready_for, wait_for_signal_ready_for,
}

-- What the manual pages say of the calls on a pipe, which whole words of four bytes go through: a write
-- of four bytes appends them and returns 4, or leaves the pipe as it is; a read of four bytes takes the
-- first ones and returns 4, or leaves it as it is; polling changes nothing. No call changes the
-- descriptor table.
pub record SyncLaws {W : Type 0} {fd : FdCalls W} (l : FdLaws fd) (os : SyncCalls W) : Type 0 where
  -- The words in a pipe, oldest first.
  pub words : W → ℕ → List ℕ
  pub words-poll_out : (w : W) (x d : ℤ) (k : ℕ) → words (os.poll_out x d w).1 k ≡ words w k
  pub words-poll_in : (w : W) (x d : ℤ) (k : ℕ) → words (os.poll_in x d w).1 k ≡ words w k
  pub words-write :
      (w : W) (x : ℤ) (v k : ℕ)
      → l.table w x ≡ some (writer k)
      → (os.write_word x v w).0 ≡ pos 4
      → words (os.write_word x v w).1 k ≡ words w k ++ v ∷ []
  pub words-read :
      (w : W) (x : ℤ) (k : ℕ)
      → l.table w x ≡ some (reader k)
      → (os.read_word x w).0.0 ≡ pos 4
      → words w k ≡ (os.read_word x w).0.1 ∷ words (os.read_word x w).1 k
  pub words-write_failed :
      (w : W) (x : ℤ) (v k : ℕ)
      → eqb (os.write_word x v w).0 (pos 4) ≡ false
      → words (os.write_word x v w).1 k ≡ words w k
  pub words-read_failed :
      (w : W) (x : ℤ) (k : ℕ)
      → eqb (os.read_word x w).0.0 (pos 4) ≡ false
      → words (os.read_word x w).1 k ≡ words w k
  pub table-poll_out : (w : W) (x d y : ℤ) → l.table (os.poll_out x d w).1 y ≡ l.table w y
  pub table-poll_in : (w : W) (x d y : ℤ) → l.table (os.poll_in x d w).1 y ≡ l.table w y
  pub table-write :
      (w : W) (x : ℤ) (v : ℕ) (y : ℤ) → l.table (os.write_word x v w).1 y ≡ l.table w y
  pub table-read : (w : W) (x y : ℤ) → l.table (os.read_word x w).1 y ≡ l.table w y

-- All words are the one value that is sent.
abbrev pub AllOnes : List ℕ → Type 0
AllOnes [] = Unit {0}
AllOnes (v ∷ rest) = (v ≡ 1) × AllOnes rest

pub AllOnes-append : (l : List ℕ) → AllOnes l → AllOnes (l ++ 1 ∷ [])
AllOnes-append [] h = (refl, tt)
AllOnes-append (v ∷ l) (h, t) = (h, AllOnes-append l t)

module _ {W : Type 0} {fd : FdCalls W} (l : FdLaws fd) (os : SyncCalls W) (sl : SyncLaws l os) where
  open l use {table}
  open sl use {words}

  -- The parts of a call that returned.
  pub signal_parts :
      (d : ℤ) (s : CrossProcessSync) (w : W)
      → (try_signal_ready_for os d s w).0 ≡ ok tt
      → let w1 = (os.poll_out s.write_end d w).1 in
        ((os.write_word s.write_end 1 w1).0 ≡ pos 4)
        × ((try_signal_ready_for os d s w).1 ≡ (os.write_word s.write_end 1 w1).1)
  unfolding try_signal_ready_for
  signal_parts d s w h =
      ground
        (arith, eqb_iff (os.write_word s.write_end 1 (os.poll_out s.write_end d w).1).0 (pos 4))

  pub wait_parts :
      (d : ℤ) (s : CrossProcessSync) (w : W) (n : ℕ)
      → (wait_for_signal_ready_for os d s w).0.0 ≡ ok n
      → let w1 = (os.poll_in s.read_end d w).1 in
        ((os.read_word s.read_end w1).0.0 ≡ pos 4)
        × ((os.read_word s.read_end w1).0.1 ≡ 1)
        × ((wait_for_signal_ready_for os d s w).1 ≡ (os.read_word s.read_end w1).1)
        × (n ≡ (s.counter + 1) % 2 ^ 32)
        × ((wait_for_signal_ready_for os d s w).0.1 ≡ record s { counter = n })
  unfolding wait_for_signal_ready_for
  wait_parts d s w n h =
      ground (arith, eqb_iff (os.read_word s.read_end (os.poll_in s.read_end d w).1).0.0 (pos 4))

  -- The parts of a call that threw.
  pub signal_failed :
      (d : ℤ) (s : CrossProcessSync) (w : W) (x : Error) (k : ℕ) (y : ℤ)
      → (try_signal_ready_for os d s w).0 ≡ throw x
      → (words (try_signal_ready_for os d s w).1 k ≡ words w k)
        × (table (try_signal_ready_for os d s w).1 y ≡ table w y)
  unfolding try_signal_ready_for
  signal_failed d s w x k y h =
      let w1 = (os.poll_out s.write_end d w).1 in
      (
        ground
            (arith, sl.words-poll_out w s.write_end d k, sl.words-write_failed w1 s.write_end 1 k),
        ground (arith, sl.table-poll_out w s.write_end d y, sl.table-write w1 s.write_end 1 y),
      )

  pub wait_failed :
      (d : ℤ) (s : CrossProcessSync) (w : W) (x : Error) (k : ℕ)
      → table w s.read_end ≡ some (reader k)
      → AllOnes (words w k)
      → (wait_for_signal_ready_for os d s w).0.0 ≡ throw x
      → (words (wait_for_signal_ready_for os d s w).1 k ≡ words w k)
        × ((wait_for_signal_ready_for os d s w).0.1 ≡ s)
        × ((y : ℤ) → table (wait_for_signal_ready_for os d s w).1 y ≡ table w y)
  unfolding wait_for_signal_ready_for
  wait_failed d s w x k over ones h =
      let w1 = (os.poll_in s.read_end d w).1 in
      let r = (os.read_word s.read_end w1).0 in
      let first : r.0 ≡ pos 4 → r.1 ≡ 1 = λ four.
        (subst AllOnes
          (sym (sl.words-poll_in w s.read_end d k)
            ∙ sl.words-read w1 s.read_end k (sl.table-poll_in w _ d _ ∙ over) four)
          ones).0 in
      (
        ground (
          arith,
          first,
          eqb_iff r.0 (pos 4),
          ==_iff r.1 1,
          sl.words-poll_in w s.read_end d k,
          sl.words-read_failed w1 s.read_end k,
        ),
        ground (arith, first, eqb_iff r.0 (pos 4), ==_iff r.1 1),
        λ y. ground (arith, sl.table-poll_in w s.read_end d y, sl.table-read w1 s.read_end y),
      )
