-- ===== src/Tests/Pipes.antt =====
-- Examples for Pipe of child_process.cpp and for cross_process_sync.cpp, on a descriptor table that is
-- a list.
use process_cpp.Prelude.{
  ℕ, ◌+◌, ◌-◌, ◌%◌, ◌^◌, ◌≤◌, ℤ, pos, minus_one, eqb, ◌≡◌, false, refl, none, some, List, [], ◌∷◌,
  ◌++◌, inr, if◌then◌else◌, length, arith, ap,
}
use process_cpp.Descriptors.{FdCalls, reader, writer, FdLaws}
use process_cpp.Descriptors.Table.{Fds, calls, laws, room_laws, get, lookup}
use process_cpp.Pipe.{Pipe, destroy, assign}
use process_cpp.Pipe.Ownership.{IsLive}
use process_cpp.Pipe.Assignment.{IsApart, table-assign, table-destroy-assign}
use process_cpp.CrossProcessSync.{
  SyncCalls, CrossProcessSync, try_signal_ready_for, wait_for_signal_ready_for,
}
use process_cpp.CrossProcessSync.Calls.{SyncLaws}
use process_cpp.CrossProcessSync.Exchange.{History, start, signal, wait, exchange}

abbrev two_pipes : Fds
two_pipes = some (reader 0) ∷ some (writer 0) ∷ some (reader 1) ∷ some (writer 1) ∷ []

abbrev first : Pipe
first = record { fds_0 = pos 0; fds_1 = pos 1 }

abbrev second : Pipe
second = record { fds_0 = pos 2; fds_1 = pos 3 }

is_live : IsLive calls laws two_pipes second
unfolding laws lookup get
is_live = record { live_0 = inr (λ e. cc); live_1 = inr (λ e. cc) }

is_apart : IsApart calls laws first second
is_apart = record { apart_0 = inr (refl, refl); apart_1 = inr (refl, refl) }

table-assign_example :
    (eqb (assign calls first second two_pipes).0.fds_0 minus_one ≡ false)
    × (eqb (assign calls first second two_pipes).0.fds_1 minus_one ≡ false)
    × (laws.table (assign calls first second two_pipes).1 (pos 1) ≡ (
        if eqb (pos 1) (assign calls first second two_pipes).0.fds_1
        then laws.table two_pipes (pos 3)
        else if eqb (pos 1) (assign calls first second two_pipes).0.fds_0
        then laws.table two_pipes (pos 2)
        else none))
unfolding room_laws
table-assign_example =
    table-assign calls laws room_laws first second two_pipes (pos 1) is_apart is_live (omega arith)

table-destroy-assign_example :
    laws.table
      (destroy calls
        (assign calls first second two_pipes).0
        (assign calls first second two_pipes).1)
      (pos 2)
    ≡ laws.table (destroy calls first two_pipes) (pos 2)
table-destroy-assign_example = table-destroy-assign calls laws first second two_pipes (pos 2)

-- A pipe of words beside a descriptor table. Every call succeeds, but a read from an empty pipe.
abbrev Piped : Type 0
Piped = Fds × List ℕ

abbrev with_words : {A : Type 0} → A × Fds → List ℕ → A × Piped
with_words (a, fs) words = (a, (fs, words))

abbrev piped_calls : FdCalls Piped
piped_calls = record {
  pipe = λ w. with_words (calls.pipe w.0) w.1;
  dup = λ fd w. with_words (calls.dup fd w.0) w.1;
  dup2 = λ fd to w. with_words (calls.dup2 fd to w.0) w.1;
  close = λ fd w. (calls.close fd w.0, w.1);
  errno = λ w. 0;
}

abbrev piped_laws : FdLaws piped_calls
piped_laws = record {
  table = λ w. laws.table w.0;
  table-minus_one = λ w. laws.table-minus_one w.0;
  table-close = λ w. laws.table-close w.0;
  dup_fresh = λ w. laws.dup_fresh w.0;
  dup_closed = λ w. laws.dup_closed w.0;
  table-dup = λ w. laws.table-dup w.0;
  new_pipe = λ w. laws.new_pipe w.0;
  pipe_fresh_read = λ w. laws.pipe_fresh_read w.0;
  pipe_fresh_write = λ w. laws.pipe_fresh_write w.0;
  pipe_distinct = λ w. laws.pipe_distinct w.0;
  table-pipe = λ w. laws.table-pipe w.0;
  table-dup2 = λ w. laws.table-dup2 w.0;
  dup2_closed = λ w. laws.dup2_closed w.0;
}

abbrev read_words : Piped → (ℤ × ℕ) × Piped
read_words (fs, []) = ((pos 0, 0), (fs, []))
read_words (fs, v ∷ words) = ((pos 4, v), (fs, words))

abbrev sync_calls : SyncCalls Piped
sync_calls = record {
  poll_out = λ fd d w. (pos 1, w);
  poll_in = λ fd d w. (pos 1, w);
  write_word = λ fd v w. (pos 4, (w.0, w.1 ++ v ∷ []));
  read_word = λ fd w. read_words w;
  errno = λ w. 0;
}

read_words_first :
    (w : Piped) → (read_words w).0.0 ≡ pos 4 → w.1 ≡ (read_words w).0.1 ∷ (read_words w).1.1
read_words_first (fs, []) h = cc
read_words_first (fs, v ∷ words) h = refl

read_words_failed : (w : Piped) → eqb (read_words w).0.0 (pos 4) ≡ false → (read_words w).1.1 ≡ w.1
read_words_failed (fs, []) h = refl
read_words_failed (fs, v ∷ words) h = cc

read_words_table : (w : Piped) → (read_words w).1.0 ≡ w.0
read_words_table (fs, []) = refl
read_words_table (fs, v ∷ words) = refl

sync_laws : SyncLaws piped_laws sync_calls
sync_laws = record {
  words = λ w k. w.1;
  words-poll_out = λ w x d k. refl;
  words-poll_in = λ w x d k. refl;
  words-write = λ w x v k h e. refl;
  words-read = λ w x k h e. read_words_first w e;
  words-write_failed = λ w x v k e. cc;
  words-read_failed = λ w x k e. read_words_failed w e;
  table-poll_out = λ w x d y. refl;
  table-poll_in = λ w x d y. refl;
  table-write = λ w x v y. refl;
  table-read = λ w x y. ap (λ (fs : Fds). laws.table fs y) (read_words_table w);
}

abbrev sync_at : ℕ → CrossProcessSync
sync_at n = record { read_end = pos 0; write_end = pos 1; counter = n }

abbrev with_pipe : List ℕ → Piped
with_pipe words = (some (reader 0) ∷ some (writer 0) ∷ [], words)

-- A wait that finds nothing and fails, and two signals with a wait between them, from the greatest
-- counter.
three_calls :
    History piped_laws sync_calls sync_laws
      (sync_at 0)
      (sync_at (2 ^ 32 - 1))
      (with_pipe [])
      2
      1
      (with_pipe (1 ∷ []))
      (sync_at 0)
unfolding try_signal_ready_for wait_for_signal_ready_for
three_calls =
    signal (pos 5)
      (wait (pos 5) (signal (pos 5) (wait (pos 5) start refl refl refl) refl refl) refl refl refl)
      refl refl

exchange_example : (1 ≤ 2) × (length {A = ℕ} (1 ∷ []) ≡ 2 - 1) × (0 ≡ ((2 ^ 32 - 1) + 1) % 2 ^ 32)
unfolding laws lookup get sync_laws
exchange_example =
    exchange piped_laws sync_calls sync_laws 0 (sync_at 0) (sync_at (2 ^ 32 - 1)) (with_pipe []) 2 1
      (with_pipe (1 ∷ [])) (sync_at 0) refl refl refl (omega arith) three_calls
