-- ===== src/Descriptors.antt =====
-- The system calls on file descriptors that the library makes: pipe, dup, dup2 and close.
-- The calls are a parameter of the model; `FdLaws` states what their manual pages promise about the
-- descriptor table of a process.
pub mod Table
use process_cpp.Prelude.{
  ℕ, suc, ◌≤◌, ◌≢◌, ℤ, minus_one, eqb, ◌≡◌, Bool, true, false, Option, none, some, if◌then◌else◌,
}

-- What a call of pipe(2) leaves: its return value and the array that it fills.
pub record PipeReturn : Type 0 where
  pub rc : ℤ
  pub read_end : ℤ
  pub write_end : ℤ

-- The calls over the state `W` of the operating system. The results of `close` are ignored by every
-- caller, and so are not there.
pub record FdCalls (W : Type 0) : Type 0 where
  pub pipe : W → PipeReturn × W
  pub dup : ℤ → W → ℤ × W
  pub dup2 : ℤ → ℤ → W → ℤ × W
  pub close : ℤ → W → W
  pub errno : W → ℕ

-- An open file description: an end of a pipe, or another file.
pub data File : Type 0 where
  reader : ℕ → File
  writer : ℕ → File
  other : ℕ → File

module _ {W : Type 0} (os : FdCalls W) where
  open os use {pipe, dup, dup2, close}

  pub record FdLaws : Type 0 where
    -- The descriptor table of the process.
    pub table : W → ℤ → Option File
    pub table-minus_one : (w : W) → table w minus_one ≡ none
    pub table-close :
        (w : W) (fd x : ℤ) → table (close fd w) x ≡ (if eqb x fd then none else table w x)
    -- dup returns -1, or a descriptor that was closed and now refers to the same description.
    pub dup_fresh : (w : W) (fd : ℤ) → table w (dup fd w).0 ≡ none
    pub dup_closed : (w : W) (fd : ℤ) → table w fd ≡ none → (dup fd w).0 ≡ minus_one
    pub table-dup :
        (w : W) (fd x : ℤ)
        → table (dup fd w).1 x ≡ (
            if eqb (dup fd w).0 minus_one
            then table w x
            else if eqb x (dup fd w).0
            then table w fd
            else table w x)
    -- The identity of the pipe that the next call of pipe makes.
    pub new_pipe : W → ℕ
    pub pipe_fresh_read :
        (w : W) → eqb (pipe w).0.rc minus_one ≡ false → table w (pipe w).0.read_end ≡ none
    pub pipe_fresh_write :
        (w : W) → eqb (pipe w).0.rc minus_one ≡ false → table w (pipe w).0.write_end ≡ none
    pub pipe_distinct :
        (w : W)
        → eqb (pipe w).0.rc minus_one ≡ false
        → eqb (pipe w).0.write_end (pipe w).0.read_end ≡ false
    pub table-pipe :
        (w : W) (x : ℤ)
        → table (pipe w).1 x ≡ (
            if eqb (pipe w).0.rc minus_one
            then table w x
            else if eqb x (pipe w).0.read_end
            then some (reader (new_pipe w))
            else if eqb x (pipe w).0.write_end
            then some (writer (new_pipe w))
            else table w x)
    pub table-dup2 :
        (w : W) (fd to x : ℤ)
        → table (dup2 fd to w).1 x ≡ (
            if eqb (dup2 fd to w).0 minus_one
            then table w x
            else if eqb x to
            then table w fd
            else table w x)
    pub dup2_closed :
        (w : W) (fd to : ℤ) → table w fd ≡ none → eqb (dup2 fd to w).0 minus_one ≡ true

  -- The limit on the number of open descriptors: while there is room, dup of an open descriptor does
  -- not fail; it takes at most one place, and a close takes none.
  pub record RoomLaws (l : FdLaws) : Type 0 where
    pub room : W → ℕ
    pub dup_room :
        (fd : ℤ) (w : W) → l.table w fd ≢ none → 1 ≤ room w → eqb (dup fd w).0 minus_one ≡ false
    pub room-dup : (fd : ℤ) (w : W) → room w ≤ suc (room (dup fd w).1)
    pub room-close : (fd : ℤ) (w : W) → room w ≤ room (close fd w)

  -- A process that never comes near the limit; and each pipe that pipe(2) makes is a new one, to which
  -- no descriptor leads yet. dup2 fails only for want of an open descriptor.
  pub record PlentyLaws (l : FdLaws) : Type 0 where
    pub room_laws : RoomLaws l
    pub always : (w : W) → 2 ≤ room_laws.room w
    pub dup2_room :
        (fd to : ℤ) (w : W)
        → l.table w fd ≢ none
        → l.table w to ≢ none
        → eqb (dup2 fd to w).0 minus_one ≡ false
    pub new_pipe_fresh :
        (w : W) (x : ℤ)
        → (l.table w x ≢ some (reader (l.new_pipe w)))
          × (l.table w x ≢ some (writer (l.new_pipe w)))
